-- ===== src/Server/State/Waiting.antt =====
-- A client between the call of the hub that adds it and its greeting: it already gets messages.
use smtc_now_playing.Prelude.{
  ℕ, true, Option, none, some, List, [], ◌∷◌, Text, text_eq, ◌≡◌, refl, sym, ap, subst, ◌∙◌,
}
use smtc_now_playing.Prelude.Int.{ℤ}
use smtc_now_playing.Smtc.Types.{
  Event, info_event, progress_event, sessions_changed_event, device_changed_event,
}
use smtc_now_playing.Wsproto.{Envelope, new_sessions}
use smtc_now_playing.Server.Hub.{contains, room}
use smtc_now_playing.Server.Hub.Runs.{
  IsValid, Move, broadcasting, move, member, NoRemoval, member_kept, move-IsValid,
}
use smtc_now_playing.Server.Hub.Trace.{messages, accepted_of, effects_of}
use smtc_now_playing.Server.Hub.Delivery.{delivered}
use smtc_now_playing.Server.Hub.Steps.{step_split, member-append, delivered-append}
use smtc_now_playing.Server.State.Tracking.{IsConsistent, handle_event-IsConsistent}
use smtc_now_playing.Server.State.Following.{
  Seen, look, look-append, Agrees, handle_info_event-Agrees, handle_progress_event-Agrees,
}
use smtc_now_playing.Server.State.Turns.{
  Turn, event_handled, hub_moved, served, written, silent, Undisturbed,
}
use smtc_now_playing.Server.State.{
  Snapshot, Server, handle_info_event, handle_progress_event, publish, handle_event,
}
use smtc_now_playing.Server.State.Parts.{
  jsons, look_info_cases, look_progress_cases, settled_part, absorbed_part, UpToDate, up_to_date,
  song, progress,
}

module _ (type_of : Text → Text) where
  -- The messages that wait for the client would lead from what the snapshot tells to itself; and they
  -- lead from what the client has seen to that, as far as it has then seen anything.
  pub record Waits (c : ℕ) (v : Seen) (s : Server) : Type 0 where
    pub valid : IsValid s.hub
    pub staying : NoRemoval c s.hub.ch
    pub included : member s.hub.ch c (contains c s.hub.connections) ≡ true
    pub settled :
        look type_of (delivered s.hub.ch c (contains c s.hub.connections)) (jsons s.state)
        ≡ jsons s.state
    pub song_seen :
        UpToDate
          (song (look type_of (delivered s.hub.ch c (contains c s.hub.connections)) v))
          s.state.info_json
    pub progress_seen :
        UpToDate
          (progress (look type_of (delivered s.hub.ch c (contains c s.hub.connections)) v))
          s.state.progress_json

  -- What waits after a move does to what is seen after it what waited before, and then what is new, did.
  waiting_after :
      (m : Move) (c : ℕ) (s : Server) (x : Seen)
      → IsValid s.hub
      → NoRemoval c s.hub.ch
      → member s.hub.ch c (contains c s.hub.connections) ≡ true
      → NoRemoval c (accepted_of m s.hub)
      → let g = move m s.hub in
        look type_of
          (delivered g.ch c (contains c g.connections))
          (look type_of (messages c (effects_of m s.hub)) x)
        ≡ look type_of
            (delivered (accepted_of m s.hub) c true)
            (look type_of (delivered s.hub.ch c (contains c s.hub.connections)) x)
  waiting_after m c s x valid staying included new =
      let h = s.hub in
      let b = contains c h.connections in
      let (_, waits, _) = step_split m h c valid staying new in
      sym (
        look-append type_of (messages c (effects_of m h))
          (delivered (move m h).ch c (contains c (move m h).connections)) x)
      ∙ ap (λ l. look type_of l x) (sym waits ∙ delivered-append h.ch (accepted_of m h) c b staying)
      ∙ look-append type_of (delivered h.ch c b) (delivered (accepted_of m h) c (member h.ch c b)) x
      ∙ ap
          (λ k.
            look type_of (delivered (accepted_of m h) c k) (look type_of (delivered h.ch c b) x))
          included

  pub move-Waits :
      (m : Move) (c : ℕ) (v : Seen) (s : Server) (state : Snapshot)
      → Waits c v s
      → NoRemoval c (accepted_of m s.hub)
      → look type_of (delivered (accepted_of m s.hub) c true) (jsons s.state) ≡ jsons state
      → Waits c
          (look type_of (messages c (effects_of m s.hub)) v)
          (record { state = state; hub = move m s.hub })
  move-Waits m c v s state f new told =
      let h = s.hub in
      let g = move m h in
      let b = contains c h.connections in
      let j = jsons s.state in
      let written_now = look type_of (messages c (effects_of m h)) in
      let before = look type_of (delivered h.ch c b) in
      let added = look type_of (delivered (accepted_of m h) c true) in
      let after = look type_of (delivered g.ch c (contains c g.connections)) in
      let (staying, _, stays) = step_split m h c f.valid f.staying new in
      let along = λ (x : Seen). waiting_after m c s x f.valid f.staying f.included new in
      let before_song = look_info_cases type_of (delivered h.ch c b) in
      let before_progress = look_progress_cases type_of (delivered h.ch c b) in
      let added_song = look_info_cases type_of (delivered (accepted_of m h) c true) in
      let added_progress = look_progress_cases type_of (delivered (accepted_of m h) c true) in
      let after_song = look_info_cases type_of (delivered g.ch c (contains c g.connections)) in
      let after_progress =
        look_progress_cases type_of (delivered g.ch c (contains c g.connections)) in
      let song_settled : song (after (added j)) ≡ song (added j) =
        settled_part song after written_now (added j) after_song (
          ap song (along (added j))
          ∙ absorbed_part song before added j before_song added_song f.settled) in
      let progress_settled : progress (after (added j)) ≡ progress (added j) =
        settled_part progress after written_now (added j) after_progress (
          ap progress (along (added j))
          ∙ absorbed_part progress before added j before_progress added_progress f.settled) in
      record {
        valid = move-IsValid m h f.valid;
        staying = staying;
        included =
            sym stays
            ∙ member-append h.ch (accepted_of m h) c b f.staying
            ∙ ap (member (accepted_of m h) c) f.included
            ∙ member_kept (accepted_of m h) c true new refl;
        settled =
            subst (λ k. after k ≡ k) told
              (ap (λ a. (a, progress (after (added j)))) song_settled
                ∙ ap (λ a. (song (added j), a)) progress_settled);
        song_seen =
            subst (λ k. UpToDate (song (after (written_now v))) (song k)) told
              (subst (λ k. UpToDate (song k) (song (added j))) (sym (along v))
                (up_to_date song added (before v) j added_song f.song_seen));
        progress_seen =
            subst (λ k. UpToDate (progress (after (written_now v))) (progress k)) told
              (subst (λ k. UpToDate (progress k) (progress (added j))) (sym (along v))
                (up_to_date progress added (before v) j added_progress f.progress_seen));
      }

  publish-Waits :
      (p : Snapshot × Option Text) (c : ℕ) (v : Seen) (s : Server)
      → room s.hub ≡ true
      → Waits c v s
      → Agrees type_of s.state p
      → Waits c v (publish p s.hub)
  unfolding messages accepted_of effects_of move look
  publish-Waits (t, none) c v s free f agrees = record {
    valid = f.valid;
    staying = f.staying;
    included = f.included;
    settled =
        subst (λ k. look type_of (delivered s.hub.ch c (contains c s.hub.connections)) k ≡ k) agrees
          f.settled;
    song_seen =
        subst
          (λ k.
            UpToDate (song (look type_of (delivered s.hub.ch c (contains c s.hub.connections)) v))
              (song k))
          agrees f.song_seen;
    progress_seen =
        subst
          (λ k.
            UpToDate
              (progress (look type_of (delivered s.hub.ch c (contains c s.hub.connections)) v))
              (progress k))
          agrees f.progress_seen;
  }
  publish-Waits (t, some msg) c v s free f agrees =
      move-Waits (broadcasting msg) c v s t f (rw free tt) (rw free agrees)

  module _ (marshal : Envelope → Text) (sha256_hex : Text → Text)
      (typed : (e : Envelope) → type_of (marshal e) ≡ e.type) where
    handle_event-Waits :
        (now : ℤ) (ev : Event) (c : ℕ) (v : Seen) (s : Server)
        → room s.hub ≡ true
        → Waits c v s
        → Waits c v (handle_event marshal sha256_hex now ev s)
    unfolding handle_event look new_sessions text_eq
    handle_event-Waits now (info_event d) c v s free f =
        publish-Waits (handle_info_event marshal sha256_hex now d s.state) c v s free f
          (handle_info_event-Agrees type_of marshal sha256_hex typed now d s.state)
    handle_event-Waits now (progress_event d) c v s free f =
        publish-Waits (handle_progress_event marshal now d s.state) c v s free f
          (handle_progress_event-Agrees type_of marshal sha256_hex typed now d s.state)
    handle_event-Waits now (sessions_changed_event sessions) c v s free f =
        publish-Waits (s.state, some (marshal (new_sessions sessions now))) c v s free f
          (rw (typed (new_sessions sessions now)) refl)
    handle_event-Waits now (device_changed_event app_id) c v s free f = f

    pub turns-Waits :
        (ts : List Turn) (c : ℕ) (v : Seen) (s : Server)
        → Undisturbed type_of marshal sha256_hex c ts s
        → Waits c v s
        → Waits c
            (look type_of (written marshal sha256_hex c ts s) v)
            (served marshal sha256_hex ts s)
    unfolding look
    turns-Waits [] c v s _ f = f
    turns-Waits (event_handled now ev ∷ ts) c v s (free, u) f =
        turns-Waits ts c v (handle_event marshal sha256_hex now ev s) u
          (handle_event-Waits now ev c v s free f)
    turns-Waits (hub_moved m ∷ ts) c v s (stays, u) f =
        let (new, same) = silent type_of m s.hub c (jsons s.state) stays in
        let now = look type_of (messages c (effects_of m s.hub)) v in
        let next : Server = record s { hub = move m s.hub } in
        subst (λ w. Waits c w (served marshal sha256_hex ts next))
          (sym (
            look-append type_of (messages c (effects_of m s.hub))
              (written marshal sha256_hex c ts next) v))
          (turns-Waits ts c now next u (move-Waits m c v s s.state f new same))

    pub served-IsConsistent :
        (ts : List Turn) (s : Server)
        → IsConsistent marshal sha256_hex s.state
        → IsConsistent marshal sha256_hex (served marshal sha256_hex ts s).state
    served-IsConsistent [] s h = h
    served-IsConsistent (event_handled now ev ∷ ts) s h =
        served-IsConsistent ts (handle_event marshal sha256_hex now ev s)
          (handle_event-IsConsistent marshal sha256_hex now ev s h)
    served-IsConsistent (hub_moved m ∷ ts) s h =
        served-IsConsistent ts (record s { hub = move m s.hub }) h
