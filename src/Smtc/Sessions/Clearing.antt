-- ===== src/Smtc/Sessions/Clearing.antt =====
-- What is told when the sessions are gone or come back (internal/smtc/session.go), and which
-- application an info event names.
use smtc_now_playing.Prelude.{
  ℕ, Bool, Option, none, some, List, [], ◌∷◌, Text, All, All-append, get_elem?, ◌≡◌, subst,
  slice_len, refl, arith,
}
use smtc_now_playing.Prelude.Int.{pos, int_eq_iff}
use smtc_now_playing.Domain
use smtc_now_playing.Smtc.Types.{
  SessionInfo, Event, info_event, progress_event, sessions_changed_event, status_closed,
  info_data_to_domain, progress_data_to_domain, session_infos_to_domain,
}
use smtc_now_playing.Smtc.State.{Smtc, Properties}
use smtc_now_playing.Smtc.Thumbnail.{Stream, read_thumbnail, read_thumbnail_frame}
use smtc_now_playing.Smtc.Media.{
  info_of, handle_media_properties_changed, apply_properties, clear_media_info, conclude, fall_back,
  enter_song, song_changed,
}
use smtc_now_playing.Smtc.Media.Handler.{handle_media_properties_changed_elim}
use smtc_now_playing.Smtc.Playback.{
  Timeline, read_progress, report_progress, read_timeline_and_progress,
}
use smtc_now_playing.Smtc.Sessions.{
  SwitchReply, apply_session_list, switch_to_session, enter, leave, device_event, selected_index,
  unsubscribe_property_events, subscribe_property_events,
}

-- With no session left three events are told: the empty list, an empty song, and a closed player at
-- position 0; no session is watched, and the song and the status recorded are the ones told.
pub apply_session_list_empty :
    (objects : List ℕ) (s : Smtc) (w : SwitchReply)
    → let (t, events) = apply_session_list [] objects s w in
      (t.current_session ≡ none)
      × (t.current_artist ≡ [])
      × (t.current_title ≡ [])
      × (t.current_status ≡ status_closed)
      × ((p : Domain.ProgressData) × (events
            ≡ sessions_changed_event none ∷ info_event Domain.no_info ∷ progress_event p ∷ [])
          × (p.position ≡ pos 0)
          × (p.duration ≡ pos 0)
          × (p.status ≡ status_closed))
unfolding apply_session_list session_infos_to_domain info_data_to_domain progress_data_to_domain
apply_session_list_empty objects s w = (refl, refl, refl, refl, (_, refl, refl, refl, refl))

-- The position and duration recorded are not reset with it. A session that then reports a closed
-- player at the old position and duration is passed over, though position 0 was told last.
pub stale_position_after_clear :
    (objects : List ℕ) (s : Smtc) (w : SwitchReply) (o : ℕ) (tick : Timeline)
    → {d : Domain.ProgressData} → read_progress tick ≡ some d
    → d.position ≡ s.current_position
    → d.duration ≡ s.current_duration
    → d.status ≡ status_closed
    → let back = record (apply_session_list [] objects s w).0 { current_session = some o } in
      read_timeline_and_progress back tick ≡ (back, [])
unfolding apply_session_list read_timeline_and_progress report_progress
stale_position_after_clear objects s w o tick {d} read position duration status = rw read (
    ground (
      arith,
      int_eq_iff d.position s.current_position,
      int_eq_iff d.duration s.current_duration,
      int_eq_iff d.status status_closed,
    ))

-- An info event names this application.
abbrev pub Names : Text → Event → Type 0
Names app (info_event d) = d.source_app ≡ app
Names app _ = Unit

conclude-Names :
    (props : Properties) (changed : Bool) (old_len : ℕ) (ct : Text) (thumb : Option Text) (t : Smtc)
    → All
        (Names t.selected_app_id)
        (conclude props changed old_len (fall_back changed (ct, thumb, t))).1
unfolding conclude fall_back info_of
conclude-Names props changed old_len ct thumb t = ground arith

apply_properties-Names :
    (s : Smtc) (r : Stream) (props : Properties)
    → s.selected_app_id ≡ []
    → All (Names []) (apply_properties s r props).1
unfolding apply_properties
apply_properties-Names s r props blank =
    let changed = song_changed s props in
    let entered = enter_song s props changed in
    let (ct, thumb, t) = read_thumbnail entered r in
    let kept : t.selected_app_id ≡ [] =
      unfold enter_song in ground (arith, read_thumbnail_frame entered r) in
    subst
      (λ a.
        All (Names a)
          (conclude props changed (slice_len entered.current_thumbnail_data)
            (fall_back changed (ct, thumb, t))).1)
      kept (conclude-Names props changed (slice_len entered.current_thumbnail_data) ct thumb t)

clear_media_info-Names : (s : Smtc) → All (Names []) (clear_media_info s).1
unfolding clear_media_info
clear_media_info-Names s = ground arith

device_event-Names : (found : Option SessionInfo) → All (Names []) (device_event found)
device_event-Names none = tt
device_event-Names (some sess) = (tt, tt)

enter-Names :
    (index : ℕ) (s : Smtc) (w : SwitchReply) (o : Option ℕ)
    → s.selected_app_id ≡ []
    → All (Names []) (enter index s w o).1
unfolding enter subscribe_property_events
enter-Names index s w none blank = tt
enter-Names index s w (some o) blank =
    let entered = subscribe_property_events w (record s { current_session = some o }) in
    All-append (Names []) (handle_media_properties_changed entered w.media).1 _
      (handle_media_properties_changed_elim (λ h. All (Names []) h.1) entered w.media tt
        (clear_media_info-Names entered)
        (λ props. apply_properties-Names entered w.media.stream props blank))
      (device_event-Names (get_elem? s.sessions index))

leave-blank : (c : Option ℕ) (s : Smtc) → s.selected_app_id ≡ [] → (leave c s).selected_app_id ≡ []
unfolding unsubscribe_property_events
leave-blank none s blank = blank
leave-blank (some _) s blank = blank

-- With no application selected, as in a new configuration, the first session is watched, and every
-- info event that tells of its songs names the empty application instead of the session's.
pub unselected_source_app :
    (x : SessionInfo) (xs : List SessionInfo) (objects : List ℕ) (s : Smtc) (w : SwitchReply)
    → s.selected_app_id ≡ []
    → All (Names []) (apply_session_list (x ∷ xs) objects s w).1
unfolding apply_session_list switch_to_session
unselected_source_app x xs objects s w blank =
    let stored = record s { sessions = x ∷ xs; session_objects = objects } in
    let index = selected_index s.selected_app_id (x ∷ xs) in
    (
      tt,
      enter-Names index (leave s.current_session stored) w (get_elem? objects index)
          (leave-blank s.current_session stored blank),
    )
