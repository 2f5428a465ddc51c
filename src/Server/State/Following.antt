-- ===== src/Server/State/Following.antt =====
-- What a connected client has seen last, against the server's snapshot.
use smtc_now_playing.Prelude.{
  ℕ, true, Option, none, some, List, [], ◌∷◌, ◌++◌, Text, text_eq, if◌then◌else◌, ◌≡◌, inl, inr,
  refl, sym, ap, ◌∙◌, Bool-cases,
}
use smtc_now_playing.Prelude.Int.{ℤ}
use smtc_now_playing.Domain.{InfoData, ProgressData}
use smtc_now_playing.Smtc.Types.{
  Event, info_event, progress_event, sessions_changed_event, device_changed_event,
}
use smtc_now_playing.Wsproto.{
  Envelope, msg_info, msg_progress, new_info, new_progress, new_sessions,
}
use smtc_now_playing.Server.Hub.{contains, room}
use smtc_now_playing.Server.Hub.Runs.{
  IsValid, Move, broadcasting, move, member, NoRemoval, member_kept, move-IsValid,
}
use smtc_now_playing.Server.Hub.Trace.{messages, accepted_of, effects_of}
use smtc_now_playing.Server.Hub.Delivery.{delivered}
use smtc_now_playing.Server.State.Tracking.{set_album_art_lem}
use smtc_now_playing.Server.State.{
  Snapshot, Server, bytes_equal, clone_info_data, album_art_url, clone_state, set_album_art,
  handle_info_event, handle_progress_event, publish, handle_event,
}
use smtc_now_playing.Server.Hub.Steps.{step_split, member-append, delivered-append}

-- What a client has seen last: the message of the song, and that of the progress.
abbrev pub Seen : Type 0
Seen = Text × Text

module _ (type_of : Text → Text) where
  abbrev pub see : Text → Seen → Seen
  see msg v =
      if text_eq (type_of msg) msg_info
      then (msg, v.1)
      else (if text_eq (type_of msg) msg_progress then (v.0, msg) else v)

  unfoldable pub look : List Text → Seen → Seen
  look [] v = v
  look (msg ∷ msgs) v = look msgs (see msg v)

  pub look-append : (a b : List Text) (v : Seen) → look (a ++ b) v ≡ look b (look a v)
  unfolding look
  look-append [] b v = refl
  look-append (msg ∷ a) b v = look-append a b (see msg v)

  -- What the client has seen, with the messages that wait for it, is what the snapshot tells.
  pub record Follows (c : ℕ) (v : Seen) (s : Server) : Type 0 where
    pub valid : IsValid s.hub
    pub staying : NoRemoval c s.hub.ch
    pub included : member s.hub.ch c (contains c s.hub.connections) ≡ true
    pub synced :
        look (delivered s.hub.ch c (contains c s.hub.connections)) v
        ≡ (s.state.info_json, s.state.progress_json)

  -- A call that puts at most one message there, which changes what is seen as it changes the snapshot.
  pub move-Follows :
      (m : Move) (c : ℕ) (v : Seen) (s : Server) (state : Snapshot)
      → Follows c v s
      → NoRemoval c (accepted_of m s.hub)
      → look (delivered (accepted_of m s.hub) c true) (s.state.info_json, s.state.progress_json)
        ≡ (state.info_json, state.progress_json)
      → Follows c
          (look (messages c (effects_of m s.hub)) v)
          (record { state = state; hub = move m s.hub })
  move-Follows m c v s state f new told =
      let h = s.hub in
      let b = contains c h.connections in
      let (staying, waits, stays) = step_split m h c f.valid f.staying new in
      let here = member-append h.ch (accepted_of m h) c b f.staying in
      record {
        valid = move-IsValid m h f.valid;
        staying = staying;
        included =
            sym stays
            ∙ here
            ∙ ap (member (accepted_of m h) c) f.included
            ∙ member_kept (accepted_of m h) c true new refl;
        synced =
            sym (
              look-append (messages c (effects_of m h))
                (delivered (move m h).ch c (contains c (move m h).connections)) v)
            ∙ ap (λ l. look l v) (sym waits ∙ delivered-append h.ch (accepted_of m h) c b f.staying)
            ∙ look-append (delivered h.ch c b) (delivered (accepted_of m h) c (member h.ch c b)) v
            ∙ rw (f.included, f.synced) told;
      }

  abbrev pub listed : Option Text → List Text
  listed none = []
  listed (some msg) = msg ∷ []

  -- What a handler leaves and tells agree.
  abbrev pub Agrees : Snapshot → Snapshot × Option Text → Type 0
  Agrees prev (next, told) =
      look (listed told) (prev.info_json, prev.progress_json) ≡ (next.info_json, next.progress_json)

  publish-Follows :
      (p : Snapshot × Option Text) (c : ℕ) (v : Seen) (s : Server)
      → room s.hub ≡ true
      → Follows c v s
      → Agrees s.state p
      → Follows c v (publish p s.hub)
  unfolding messages accepted_of effects_of move look
  publish-Follows (t, none) c v s free f agrees = record {
    valid = f.valid;
    staying = f.staying;
    included = f.included;
    synced = f.synced ∙ agrees;
  }
  publish-Follows (t, some msg) c v s free f agrees =
      move-Follows (broadcasting msg) c v s t f (rw free tt) (rw free agrees)

  module _ (marshal : Envelope → Text) (sha256_hex : Text → Text)
      (typed : (e : Envelope) → type_of (marshal e) ≡ e.type) where
    pub handle_info_event-Agrees :
        (now : ℤ) (d : InfoData) (s : Snapshot)
        → Agrees s (handle_info_event marshal sha256_hex now d s)
    unfolding handle_info_event look new_info text_eq clone_state
    handle_info_event-Agrees now d s =
        let cloned = record (clone_state s) { info = some (clone_info_data d) } in
        let next = set_album_art sha256_hex d cloned in
        let env = new_info (clone_info_data d) (album_art_url next.album_art_hash) now in
        let kept : s.progress_json ≡ next.progress_json =
          rw (set_album_art_lem sha256_hex d cloned) refl in
        elim (Bool-cases (bytes_equal s.info_json (marshal env))) [
          | inl e ↦ rw e refl
          | inr e ↦ rw (e, typed env) (ap (λ p. (marshal env, p)) kept)
        ]

    pub handle_progress_event-Agrees :
        (now : ℤ) (d : ProgressData) (s : Snapshot)
        → Agrees s (handle_progress_event marshal now d s)
    unfolding handle_progress_event look new_progress text_eq clone_state
    handle_progress_event-Agrees now d s =
        elim (Bool-cases (bytes_equal s.progress_json (marshal (new_progress d now)))) [
          | inl e ↦ rw e refl
          | inr e ↦ rw (e, typed (new_progress d now)) refl
        ]

    pub handle_event-Follows :
        (now : ℤ) (ev : Event) (c : ℕ) (v : Seen) (s : Server)
        → room s.hub ≡ true
        → Follows c v s
        → Follows c v (handle_event marshal sha256_hex now ev s)
    unfolding handle_event look new_sessions text_eq
    handle_event-Follows now (info_event d) c v s free f =
        publish-Follows (handle_info_event marshal sha256_hex now d s.state) c v s free f
          (handle_info_event-Agrees now d s.state)
    handle_event-Follows now (progress_event d) c v s free f =
        publish-Follows (handle_progress_event marshal now d s.state) c v s free f
          (handle_progress_event-Agrees now d s.state)
    handle_event-Follows now (sessions_changed_event sessions) c v s free f =
        publish-Follows (s.state, some (marshal (new_sessions sessions now))) c v s free f
          (rw (typed (new_sessions sessions now)) refl)
    handle_event-Follows now (device_changed_event app_id) c v s free f = f
