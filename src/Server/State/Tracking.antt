-- ===== src/Server/State/Tracking.antt =====
-- The snapshot of the server against the messages that it broadcasts.
use smtc_now_playing.Prelude.{
  true, Option, none, some, List, [], ◌∷◌, Text, copy_slice, ◌≡◌, ◌↔◌, ◌⊎◌, inl, inr, refl, ap, ◌∙◌,
  Bool-cases, arith,
}
use smtc_now_playing.Prelude.Int.{ℤ}
use smtc_now_playing.Domain.{InfoData, ProgressData}
use smtc_now_playing.Smtc.Types.{
  Event, info_event, progress_event, sessions_changed_event, device_changed_event,
}
use smtc_now_playing.Wsproto.{Envelope, new_info, new_progress}
use smtc_now_playing.Server.State.{
  Snapshot, bytes_equal, clone_info_data, clone_state, album_art_url, store_album_art,
  set_album_art, handle_info_event, handle_progress_event, Server, publish, handle_event,
  process_events,
}

-- `bytesEqual` holds exactly of equal slices.
pub bytes_equal_iff : (a b : Text) → (bytes_equal a b ≡ true) ↔ (a ≡ b)
unfolding bytes_equal
bytes_equal_iff [] [] = ((λ _. refl), (λ _. refl))
bytes_equal_iff [] (y ∷ b) = (ground arith, (λ h. cc))
bytes_equal_iff (x ∷ a) [] = (ground arith, (λ h. cc))
bytes_equal_iff (x ∷ a) (y ∷ b) = ground (arith, bytes_equal_iff a b)

-- The art of a snapshot, by the data of a song.
abbrev pub art_hash : (Text → Text) → Option Text → Text
art_hash sha256_hex none = []
art_hash sha256_hex (some thumb) = sha256_hex thumb

abbrev pub art_ct : Text → Option Text → Text
art_ct ct none = []
art_ct ct (some thumb) = ct

-- The part of a snapshot that tells of the song: nothing yet, or all of one event's.
abbrev pub TellsInfo : (Envelope → Text) → (Text → Text) → Snapshot → Type 0
TellsInfo marshal sha256_hex s =
    ((s.info ≡ none) × (s.info_json ≡ []) × (s.album_art_hash ≡ []) × (s.album_art_data ≡ none))
    ⊎ ((d : InfoData) × (now : ℤ) × (s.info ≡ some (clone_info_data d))
        × (s.album_art_data ≡ copy_slice d.thumbnail_data)
        × (s.album_art_ct ≡ art_ct d.thumbnail_content_type (copy_slice d.thumbnail_data))
        × (s.album_art_hash ≡ art_hash sha256_hex (copy_slice d.thumbnail_data))
        × (s.info_json
            ≡ marshal (new_info (clone_info_data d) (album_art_url s.album_art_hash) now)))

abbrev pub TellsProgress : (Envelope → Text) → Snapshot → Type 0
TellsProgress marshal s =
    ((s.progress ≡ none) × (s.progress_json ≡ []))
    ⊎ ((d : ProgressData) × (now : ℤ) × (s.progress ≡ some d)
        × (s.progress_json ≡ marshal (new_progress d now)))

abbrev pub IsConsistent : (Envelope → Text) → (Text → Text) → Snapshot → Type 0
IsConsistent marshal sha256_hex s = TellsInfo marshal sha256_hex s × TellsProgress marshal s

copy_slice_again : (b : Option Text) → copy_slice (copy_slice b) ≡ copy_slice b
copy_slice_again none = refl
copy_slice_again (some []) = refl
copy_slice_again (some (x ∷ b)) = refl

store_album_art_lem :
    (sha256_hex : Text → Text) (ct : Text) (b : Option Text) (s : Snapshot)
    → store_album_art sha256_hex ct b s ≡ record s {
      album_art_data = b;
      album_art_ct = art_ct ct b;
      album_art_hash = art_hash sha256_hex b;
    }
store_album_art_lem sha256_hex ct none s = refl
store_album_art_lem sha256_hex ct (some thumb) s = refl

pub set_album_art_lem :
    (sha256_hex : Text → Text) (d : InfoData) (s : Snapshot)
    → set_album_art sha256_hex d s ≡ record s {
      album_art_data = copy_slice d.thumbnail_data;
      album_art_ct = art_ct d.thumbnail_content_type (copy_slice d.thumbnail_data);
      album_art_hash = art_hash sha256_hex (copy_slice d.thumbnail_data);
    }
unfolding set_album_art
set_album_art_lem sha256_hex d =
    store_album_art_lem sha256_hex d.thumbnail_content_type (copy_slice d.thumbnail_data)

module _ (marshal : Envelope → Text) (sha256_hex : Text → Text) where
  clone_state-TellsInfo :
      (s : Snapshot) → TellsInfo marshal sha256_hex s → TellsInfo marshal sha256_hex (clone_state s)
  unfolding clone_state
  clone_state-TellsInfo s (inl (i, j, h, b)) = inl (i, j, h, ap copy_slice b)
  clone_state-TellsInfo s (inr (d, now, i, b, ct, h, j)) =
      inr (d, now, i, ap copy_slice b ∙ copy_slice_again d.thumbnail_data, ct, h, j)

  -- The snapshot after an event of the song that is passed on.
  abbrev told : InfoData → ℤ → Snapshot → Snapshot
  told d now s =
      let next =
        set_album_art sha256_hex d (record (clone_state s) { info = some (clone_info_data d) }) in
      record next {
        info_json = marshal (new_info (clone_info_data d) (album_art_url next.album_art_hash) now);
      }

  told-TellsInfo :
      (d : InfoData) (now : ℤ) (s : Snapshot) → TellsInfo marshal sha256_hex (told d now s)
  unfolding clone_state
  told-TellsInfo d now s =
      rw
        (set_album_art_lem sha256_hex d
          (record (clone_state s) { info = some (clone_info_data d) }))
        (inr (d, now, refl, refl, refl, refl, refl))

  told-TellsProgress :
      (d : InfoData) (now : ℤ) (s : Snapshot)
      → TellsProgress marshal s
      → TellsProgress marshal (told d now s)
  unfolding clone_state
  told-TellsProgress d now s h =
      rw
        (set_album_art_lem sha256_hex d
          (record (clone_state s) { info = some (clone_info_data d) }))
        h

  handle_info_event-IsConsistent :
      (now : ℤ) (d : InfoData) (s : Snapshot)
      → IsConsistent marshal sha256_hex s
      → IsConsistent marshal sha256_hex (handle_info_event marshal sha256_hex now d s).0
  unfolding handle_info_event
  handle_info_event-IsConsistent now d s h =
      elim (Bool-cases (bytes_equal s.info_json (told d now s).info_json)) [
        | inl e ↦ rw e h
        | inr e ↦ rw e (told-TellsInfo d now s, told-TellsProgress d now s h.1)
      ]

  handle_progress_event-IsConsistent :
      (now : ℤ) (d : ProgressData) (s : Snapshot)
      → IsConsistent marshal sha256_hex s
      → IsConsistent marshal sha256_hex (handle_progress_event marshal now d s).0
  unfolding handle_progress_event
  handle_progress_event-IsConsistent now d s h =
      elim (Bool-cases (bytes_equal s.progress_json (marshal (new_progress d now)))) [
        | inl e ↦ rw e h
        | inr e ↦ rw e (clone_state-TellsInfo s h.0, inr (d, now, refl, refl))
      ]

  publish_lem : (p : Snapshot × Option Text) (s : Server) → (publish p s.hub).state ≡ p.0
  publish_lem (t, none) s = refl
  publish_lem (t, some msg) s = refl

  pub handle_event-IsConsistent :
      (now : ℤ) (ev : Event) (s : Server)
      → IsConsistent marshal sha256_hex s.state
      → IsConsistent marshal sha256_hex (handle_event marshal sha256_hex now ev s).state
  unfolding handle_event
  handle_event-IsConsistent now (info_event d) s h =
      rw (publish_lem (handle_info_event marshal sha256_hex now d s.state) s)
        (handle_info_event-IsConsistent now d s.state h)
  handle_event-IsConsistent now (progress_event d) s h =
      rw (publish_lem (handle_progress_event marshal now d s.state) s)
        (handle_progress_event-IsConsistent now d s.state h)
  handle_event-IsConsistent now (sessions_changed_event sessions) s h = h
  handle_event-IsConsistent now (device_changed_event app_id) s h = h

  -- Whatever events arrive, the snapshot tells of the song either nothing or all of one event: its data,
  -- the cover with its content type and hash, and the message that was marshalled of these; likewise
  -- of the progress.
  pub process_events-IsConsistent :
      (evs : List (ℤ × Event)) (s : Server)
      → IsConsistent marshal sha256_hex s.state
      → IsConsistent marshal sha256_hex (process_events marshal sha256_hex evs s).state
  unfolding process_events
  process_events-IsConsistent [] s h = h
  process_events-IsConsistent ((now, ev) ∷ evs) s h =
      process_events-IsConsistent evs (handle_event marshal sha256_hex now ev s)
        (handle_event-IsConsistent now ev s h)
