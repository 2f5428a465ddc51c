-- ===== src/Server/State/Deduplication.antt =====
-- Which events the server broadcasts.
use smtc_now_playing.Prelude.{
  Bool, true, false, none, some, Text, copy_slice, ◌≡◌, ◌≢◌, ◌↔◌, inl, inr, refl, sym, ap, ◌∙◌,
  if◌then◌else◌, Bool-cases,
}
use smtc_now_playing.Prelude.Int.{ℤ}
use smtc_now_playing.Domain.{InfoData}
use smtc_now_playing.Wsproto.{Envelope, new_info}
use smtc_now_playing.Server.State.{
  Snapshot, bytes_equal, clone_info_data, clone_state, album_art_url, handle_info_event,
}
use smtc_now_playing.Server.State.Tracking.{bytes_equal_iff, art_hash, set_album_art_lem}

broadcast_is_some :
    (same : Bool) (msg : Text) → same ≡ false → (if same then none else some msg) ≢ none
broadcast_is_some true msg e h = cc
broadcast_is_some false msg e h = cc

broadcast_if_new :
    (same : Bool) (msg : Text) → same ≡ true → (if same then none else some msg) ≡ none
broadcast_if_new same msg e = rw e refl

module _ (marshal : Envelope → Text) (sha256_hex : Text → Text) where
  -- The envelope of a song at a time.
  abbrev pub info_envelope : InfoData → ℤ → Envelope
  info_envelope d =
      new_info (clone_info_data d)
        (album_art_url (art_hash sha256_hex (copy_slice d.thumbnail_data)))

  -- The event is passed on exactly if its message is not the one of the snapshot, and afterwards the
  -- snapshot has the event's message in any case.
  pub handle_info_event_latest :
      (now : ℤ) (d : InfoData) (s : Snapshot)
      → let msg = marshal (info_envelope d now) in
        (handle_info_event marshal sha256_hex now d s).0.info_json ≡ msg
        × (handle_info_event marshal sha256_hex now d s).1
          ≡ (if bytes_equal s.info_json msg then none else some msg)
  unfolding handle_info_event
  handle_info_event_latest now d s =
      let hashed =
        set_album_art_lem sha256_hex d
          (record (clone_state s) { info = some (clone_info_data d) }) in
      let msg = marshal (info_envelope d now) in
      elim (Bool-cases (bytes_equal s.info_json msg)) [
        | inl same ↦ rw (hashed, same) ((bytes_equal_iff s.info_json msg).0 same, refl)
        | inr new ↦ rw (hashed, new) (refl, refl)
      ]

  -- The same song told again is passed on again, as if it were new, unless both events fall into the
  -- same millisecond: the message that is compared has the time stamp in it.
  pub info_told_twice :
      (now later : ℤ) (d : InfoData) (s : Snapshot)
      → (marshal (info_envelope d now) ≡ marshal (info_envelope d later) → now ≡ later)
      → let t = (handle_info_event marshal sha256_hex now d s).0 in
        ((handle_info_event marshal sha256_hex later d t).1 ≡ none) ↔ (later ≡ now)
  info_told_twice now later d s stamped =
      let t = (handle_info_event marshal sha256_hex now d s).0 in
      let msg = marshal (info_envelope d later) in
      let kept = (handle_info_event_latest now d s).0 in
      let same = bytes_equal_iff t.info_json msg in
      let passed = (handle_info_event_latest later d t).1 in
      (
        (λ quiet. elim (Bool-cases (bytes_equal t.info_json msg)) [
          | inl e ↦ sym (stamped (sym kept ∙ same.0 e))
          | inr e ↦
              absurd (broadcast_is_some (bytes_equal t.info_json msg) msg e (sym passed ∙ quiet))
        ]),
        (λ again.
            passed
            ∙ broadcast_if_new (bytes_equal t.info_json msg) msg
                (same.1 (kept ∙ ap (λ at. marshal (info_envelope d at)) (sym again)))),
      )
