-- ===== src/Smtc/Loop/Queueing.antt =====
-- No handler of the service's loop touches its channel of commands.
use smtc_now_playing.Prelude.{
  ℕ, Option, none, some, List, [], ◌∷◌, map, get_elem?, length, ◌≡◌, arith,
}
use smtc_now_playing.Smtc.Types.{SessionInfo}
use smtc_now_playing.Smtc.State.{
  Smtc, Command, Retry, Properties, enumerate_sessions, media_properties_changed,
  playback_info_changed, select_device, retry_thumbnail, control, capabilities,
}
use smtc_now_playing.Smtc.Thumbnail.{Stream, read_thumbnail_frame}
use smtc_now_playing.Smtc.Media.{
  MediaReply, clear_media_info, apply_properties, conclude, fall_back, enter_song, song_changed,
  schedule_thumbnail_retry, handle_media_properties_changed, retry_thumbnail_and_fire_info,
  retry_or_fire,
}
use smtc_now_playing.Smtc.Media.Handler.{handle_media_properties_changed_elim}
use smtc_now_playing.Smtc.Playback.{
  Timeline, read_timeline_and_progress, report_progress, handle_playback_info_changed, guarded,
}
use smtc_now_playing.Smtc.Sessions
use smtc_now_playing.Smtc.Loop.{Answers, run_command}

-- The commands that wait.
abbrev Queued : List Command → Smtc → Type 0
Queued q s = s.cmd_chan ≡ q

apply_properties-Queued :
    (q : List Command) (s : Smtc) (r : Stream) (props : Properties)
    → Queued q s
    → Queued q (apply_properties s r props).0
unfolding apply_properties conclude fall_back enter_song schedule_thumbnail_retry
apply_properties-Queued q s r props h =
    ground (arith, read_thumbnail_frame (enter_song s props (song_changed s props)) r)

clear_media_info-Queued :
    (q : List Command) (s : Smtc) → Queued q s → Queued q (clear_media_info s).0
unfolding clear_media_info
clear_media_info-Queued q s h = ground arith

handle_media_properties_changed-Queued :
    (q : List Command) (s : Smtc) (w : MediaReply)
    → Queued q s
    → Queued q (handle_media_properties_changed s w).0
handle_media_properties_changed-Queued q s w h =
    handle_media_properties_changed_elim (λ t. Queued q t.0) s w h (clear_media_info-Queued q s h)
      (λ props. apply_properties-Queued q s w.stream props h)

pub retry_thumbnail_and_fire_info-Queued :
    (q : List Command) (s : Smtc) (r : Stream) (retry : Retry)
    → Queued q s
    → Queued q (retry_thumbnail_and_fire_info s r retry).0
unfolding retry_thumbnail_and_fire_info retry_or_fire schedule_thumbnail_retry
retry_thumbnail_and_fire_info-Queued q s r retry h =
    ground (arith, read_thumbnail_frame (record s { thumbnail_retry_timer = none }) r)

pub read_timeline_and_progress-Queued :
    (q : List Command) (s : Smtc) (w : Timeline)
    → Queued q s
    → Queued q (read_timeline_and_progress s w).0
unfolding read_timeline_and_progress report_progress
read_timeline_and_progress-Queued q s w h = ground arith

leave-Queued :
    (q : List Command) (o : Option ℕ) (s : Smtc) → Queued q s → Queued q (Sessions.leave o s)
unfolding Sessions.unsubscribe_property_events
leave-Queued q none s h = h
leave-Queued q (some _) s h = h

enter-Queued :
    (q : List Command) (i : ℕ) (s : Smtc) (w : Sessions.SwitchReply) (o : Option ℕ)
    → Queued q s
    → Queued q (Sessions.enter i s w o).0
unfolding Sessions.enter Sessions.subscribe_property_events
enter-Queued q i s w none h = h
enter-Queued q i s w (some o) h =
    handle_media_properties_changed-Queued q
      (Sessions.subscribe_property_events w (record s { current_session = some o })) w.media h

switch_to_session-Queued :
    (q : List Command) (i : ℕ) (s : Smtc) (w : Sessions.SwitchReply)
    → Queued q s
    → Queued q (Sessions.switch_to_session i s w).0
unfolding Sessions.switch_to_session
switch_to_session-Queued q i s w h =
    enter-Queued q i (Sessions.leave s.current_session s) w (get_elem? s.session_objects i)
      (leave-Queued q s.current_session s h)

apply_session_list-Queued :
    (q : List Command) (sessions : List SessionInfo) (objects : List ℕ) (s : Smtc)
    (w : Sessions.SwitchReply)
    → Queued q s
    → Queued q (Sessions.apply_session_list sessions objects s w).0
unfolding Sessions.apply_session_list
apply_session_list-Queued q [] objects s w h = h
apply_session_list-Queued q (x ∷ xs) objects s w h =
    switch_to_session-Queued q (Sessions.selected_index s.selected_app_id (x ∷ xs))
      (record s { sessions = x ∷ xs; session_objects = objects }) w h

enumerate_items-Queued :
    (q : List Command) (items : Option (List Sessions.Item)) (s : Smtc) (w : Sessions.SwitchReply)
    → Queued q s
    → Queued q (Sessions.enumerate_items items s w).0
enumerate_items-Queued q none s w h = apply_session_list-Queued q [] [] s w h
enumerate_items-Queued q (some items) s w h =
    let found = Sessions.reachable items in
    apply_session_list-Queued q (Sessions.build_sessions (map (λ f. f.0) found))
      (map (λ f. f.1) found) s w h

switch_if-Queued :
    (q : List Command) (i : Option ℕ) (s : Smtc) (w : Sessions.SwitchReply)
    → Queued q s
    → Queued q (Sessions.switch_if i s w).0
switch_if-Queued q none s w h = h
switch_if-Queued q (some i) s w h = switch_to_session-Queued q i s w h

guarded-Queued :
    (q : List Command) (o : Option ℕ) (s : Smtc) (w : Timeline)
    → Queued q s
    → Queued q (guarded o s w).0
guarded-Queued q none s w h = h
guarded-Queued q (some _) s w h = read_timeline_and_progress-Queued q s w h

-- No command touches the channel.
pub run_command-Queued :
    (q : List Command) (c : Command) (s : Smtc) (w : Answers)
    → Queued q s
    → Queued q (run_command c s w).0
unfolding run_command Sessions.enumerate_sessions handle_playback_info_changed
    Sessions.select_device
run_command-Queued q enumerate_sessions s w h =
    enumerate_items-Queued q w.sessions.vector s w.sessions.switch h
run_command-Queued q media_properties_changed s w h =
    handle_media_properties_changed-Queued q s w.media h
run_command-Queued q playback_info_changed s w h = guarded-Queued q s.current_session s w.timeline h
run_command-Queued q (select_device app_id) s w h =
    switch_if-Queued q (Sessions.selectable app_id s.sessions (length s.session_objects) 0)
      (record s { selected_app_id = app_id }) w.switch h
run_command-Queued q (retry_thumbnail retry) s w h =
    retry_thumbnail_and_fire_info-Queued q s w.stream retry h
run_command-Queued q (control cmd) s w h = h
run_command-Queued q capabilities s w h = h
