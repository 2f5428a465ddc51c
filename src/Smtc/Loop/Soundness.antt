-- ===== src/Smtc/Loop/Soundness.antt =====
-- What holds of the service's state in every round of its loop.
use smtc_now_playing.Prelude.{
  not, ◌&&◌, ℕ, suc, ◌≤◌, Bool, true, false, Option, none, some, List, [], ◌∷◌, map, Text,
  get_elem?, length, length-append, length-map, ◌≡◌, refl, sym, ap, ◌∙◌, arith, if◌then◌else◌,
}
use smtc_now_playing.Prelude.Tests.{ltb}
use smtc_now_playing.Smtc.Types.{SessionInfo}
use smtc_now_playing.Smtc.State.{
  Smtc, Command, Retry, Properties, enumerate_sessions, media_properties_changed,
  playback_info_changed, select_device, retry_thumbnail, control, capabilities, stop_timer,
}
use smtc_now_playing.Smtc.Thumbnail.{Stream, CacheOk, read_thumbnail-CacheOk, read_thumbnail_frame}
use smtc_now_playing.Smtc.Media.{
  MediaReply, clear_media_info, apply_properties, conclude, fall_back, enter_song, song_changed,
  schedule_thumbnail_retry, handle_media_properties_changed, retry_thumbnail_and_fire_info,
  retry_or_fire, post, fire_timer, cmd_chan_capacity,
}
use smtc_now_playing.Smtc.Media.Handler.{handle_media_properties_changed_elim}
use smtc_now_playing.Smtc.Playback.{
  Timeline, read_timeline_and_progress, report_progress, handle_playback_info_changed, guarded,
}
use smtc_now_playing.Smtc.Sessions
use smtc_now_playing.Smtc.Loop.{
  Answers, run_command, cleanup_run, Happening, command_taken, ticked, timer_fired,
  sessions_changed, media_changed, playback_changed, device_selected, control_sent,
  capabilities_asked, ended, send_if_room, is_end, happen_if, rounds, select_device_call, happen,
  run_first, run_loop,
}

-- Each session has its object, the channel is within its capacity, and a cover that the cache has a size
-- for is there.
pub record Sound (s : Smtc) : Type 0 where
  pub matched : length s.sessions ≡ length s.session_objects
  pub bounded : length s.cmd_chan ≤ cmd_chan_capacity
  pub cached : CacheOk s

clear_media_info-Sound : (s : Smtc) → Sound s → Sound (clear_media_info s).0
unfolding clear_media_info
clear_media_info-Sound s h = ground arith

enter_song-CacheOk :
    (s : Smtc) (props : Properties) (changed : Bool)
    → CacheOk s
    → CacheOk (enter_song s props changed)
unfolding enter_song
enter_song-CacheOk s props true h = (λ positive. absurd (omega arith))
enter_song-CacheOk s props false h = h

apply_properties-Sound :
    (s : Smtc) (r : Stream) (props : Properties) → Sound s → Sound (apply_properties s r props).0
unfolding apply_properties conclude fall_back enter_song schedule_thumbnail_retry
apply_properties-Sound s r props h =
    let entered = enter_song s props (song_changed s props) in
    ground (
      arith,
      read_thumbnail_frame entered r,
      read_thumbnail-CacheOk entered r (enter_song-CacheOk s props (song_changed s props) h.cached),
    )

handle_media_properties_changed-Sound :
    (s : Smtc) (w : MediaReply) → Sound s → Sound (handle_media_properties_changed s w).0
handle_media_properties_changed-Sound s w h =
    handle_media_properties_changed_elim (λ t. Sound t.0) s w h (clear_media_info-Sound s h)
      (λ props. apply_properties-Sound s w.stream props h)

retry_thumbnail_and_fire_info-Sound :
    (s : Smtc) (r : Stream) (retry : Retry)
    → Sound s
    → Sound (retry_thumbnail_and_fire_info s r retry).0
unfolding retry_thumbnail_and_fire_info retry_or_fire schedule_thumbnail_retry
retry_thumbnail_and_fire_info-Sound s r retry h =
    let s0 = record s { thumbnail_retry_timer = none } in
    ground (arith, read_thumbnail_frame s0 r, read_thumbnail-CacheOk s0 r h.cached)

read_timeline_and_progress-Sound :
    (s : Smtc) (w : Timeline) → Sound s → Sound (read_timeline_and_progress s w).0
unfolding read_timeline_and_progress report_progress
read_timeline_and_progress-Sound s w h = ground arith

post-Sound : (c : Command) (s : Smtc) → Sound s → Sound (post c s)
unfolding post
post-Sound c s h = ground (arith, length-append s.cmd_chan (c ∷ []))

pub select_device_call-Sound :
    (app_id : Text) (s : Smtc) → Sound s → Sound (select_device_call app_id s)
unfolding select_device_call
select_device_call-Sound app_id s h =
    ground (arith, length-append s.cmd_chan (select_device app_id ∷ []))

send_if_room-Sound : (c : Command) (s : Smtc) → Sound s → Sound (send_if_room c s)
unfolding send_if_room
send_if_room-Sound c s h = ground (arith, length-append s.cmd_chan (c ∷ []))

cleanup_run-Sound : (s : Smtc) → Sound s → Sound (cleanup_run s)
unfolding cleanup_run Sessions.unsubscribe_property_events
cleanup_run-Sound s h = ground arith

leave-Sound : (o : Option ℕ) (s : Smtc) → Sound s → Sound (Sessions.leave o s)
unfolding Sessions.unsubscribe_property_events
leave-Sound none s h = h
leave-Sound (some _) s h = record { matched = h.matched; bounded = h.bounded; cached = h.cached }

enter-Sound :
    (i : ℕ) (s : Smtc) (w : Sessions.SwitchReply) (o : Option ℕ)
    → Sound s
    → Sound (Sessions.enter i s w o).0
unfolding Sessions.enter Sessions.subscribe_property_events
enter-Sound i s w none h = h
enter-Sound i s w (some o) h =
    handle_media_properties_changed-Sound
      (Sessions.subscribe_property_events w (record s { current_session = some o })) w.media
      (record { matched = h.matched; bounded = h.bounded; cached = h.cached })

switch_to_session-Sound :
    (i : ℕ) (s : Smtc) (w : Sessions.SwitchReply)
    → Sound s
    → Sound (Sessions.switch_to_session i s w).0
unfolding Sessions.switch_to_session
switch_to_session-Sound i s w h =
    enter-Sound i (Sessions.leave s.current_session s) w (get_elem? s.session_objects i)
      (leave-Sound s.current_session s h)

switch_or_clear-Sound :
    (sessions : List SessionInfo) (s : Smtc) (w : Sessions.SwitchReply)
    → Sound s
    → Sound (Sessions.switch_or_clear sessions s w).0
switch_or_clear-Sound [] s w h = record {
  matched = h.matched;
  bounded = h.bounded;
  cached = (λ positive. absurd (omega arith));
}
switch_or_clear-Sound (x ∷ xs) s w h =
    switch_to_session-Sound (Sessions.selected_index s.selected_app_id (x ∷ xs)) s w h

apply_session_list-Sound :
    (sessions : List SessionInfo) (objects : List ℕ) (s : Smtc) (w : Sessions.SwitchReply)
    → length sessions ≡ length objects
    → Sound s
    → Sound (Sessions.apply_session_list sessions objects s w).0
unfolding Sessions.apply_session_list
apply_session_list-Sound sessions objects s w e h =
    switch_or_clear-Sound sessions (record s { sessions = sessions; session_objects = objects }) w
      (record { matched = e; bounded = h.bounded; cached = h.cached })

length-name_sessions :
    (counts indices : Sessions.Counter) (ids : List Text)
    → length (Sessions.name_sessions counts indices ids) ≡ length ids
unfolding Sessions.name_sessions
length-name_sessions counts indices [] = refl
length-name_sessions counts indices (a ∷ ids) = ap suc (
    length-name_sessions counts (if ltb 1 (counts a) then Sessions.bump a indices else indices) ids)

enumerate_items-Sound :
    (items : Option (List Sessions.Item)) (s : Smtc) (w : Sessions.SwitchReply)
    → Sound s
    → Sound (Sessions.enumerate_items items s w).0
unfolding Sessions.build_sessions
enumerate_items-Sound none s w h = apply_session_list-Sound [] [] s w refl h
enumerate_items-Sound (some items) s w h =
    let found = Sessions.reachable items in
    let ids = map (λ f. f.0) found in
    let objects = map (λ f. f.1) found in
    apply_session_list-Sound (Sessions.build_sessions ids) objects s w
      (length-name_sessions (Sessions.count_ids ids Sessions.no_counts) Sessions.no_counts ids
        ∙ length-map (λ f. f.0) found
        ∙ sym (length-map (λ f. f.1) found))
      h

switch_if-Sound :
    (i : Option ℕ) (s : Smtc) (w : Sessions.SwitchReply)
    → Sound s
    → Sound (Sessions.switch_if i s w).0
switch_if-Sound none s w h = h
switch_if-Sound (some i) s w h = switch_to_session-Sound i s w h

select_device-Sound :
    (app_id : Text) (s : Smtc) (w : Sessions.SwitchReply)
    → Sound s
    → Sound (Sessions.select_device app_id s w).0
unfolding Sessions.select_device
select_device-Sound app_id s w h =
    switch_if-Sound (Sessions.selectable app_id s.sessions (length s.session_objects) 0)
      (record s { selected_app_id = app_id }) w
      (record { matched = h.matched; bounded = h.bounded; cached = h.cached })

guarded-Sound : (o : Option ℕ) (s : Smtc) (w : Timeline) → Sound s → Sound (guarded o s w).0
guarded-Sound none s w h = h
guarded-Sound (some _) s w h = read_timeline_and_progress-Sound s w h

run_command-Sound : (c : Command) (s : Smtc) (w : Answers) → Sound s → Sound (run_command c s w).0
unfolding run_command Sessions.enumerate_sessions handle_playback_info_changed
run_command-Sound enumerate_sessions s w h =
    enumerate_items-Sound w.sessions.vector s w.sessions.switch h
run_command-Sound media_properties_changed s w h = handle_media_properties_changed-Sound s w.media h
run_command-Sound playback_info_changed s w h = guarded-Sound s.current_session s w.timeline h
run_command-Sound (select_device app_id) s w h = select_device-Sound app_id s w.switch h
run_command-Sound (retry_thumbnail retry) s w h =
    retry_thumbnail_and_fire_info-Sound s w.stream retry h
run_command-Sound (control cmd) s w h = h
run_command-Sound capabilities s w h = h

run_first-Sound :
    (cmds : List Command) (s : Smtc) (w : Answers)
    → length cmds ≤ cmd_chan_capacity
    → Sound s
    → Sound (run_first cmds s w).0
run_first-Sound [] s w fits h = h
run_first-Sound (cmd ∷ rest) s w fits h =
    run_command-Sound cmd (record s { cmd_chan = rest }) w
      (record { matched = h.matched; bounded = omega arith; cached = h.cached })

happen-Sound : (e : Happening) (s : Smtc) → Sound s → Sound (happen e s).0
unfolding happen fire_timer
happen-Sound (command_taken w) s h = run_first-Sound s.cmd_chan s w h.bounded h
happen-Sound (ticked w) s h = read_timeline_and_progress-Sound s w h
happen-Sound (timer_fired t) s h =
    post-Sound (retry_thumbnail t.retry) (record s { timers = stop_timer t.id s.timers })
      (record { matched = h.matched; bounded = h.bounded; cached = h.cached })
happen-Sound sessions_changed s h = post-Sound enumerate_sessions s h
happen-Sound media_changed s h = post-Sound media_properties_changed s h
happen-Sound playback_changed s h = post-Sound playback_info_changed s h
happen-Sound (device_selected app_id) s h = select_device_call-Sound app_id s h
happen-Sound (control_sent cmd) s h = send_if_room-Sound (control cmd) s h
happen-Sound capabilities_asked s h = send_if_room-Sound capabilities s h
happen-Sound ended s h = cleanup_run-Sound s h

happen_if-Sound :
    (running : Bool) (e : Happening) (s : Smtc) → Sound s → Sound (happen_if running e s)
happen_if-Sound true e s h = happen-Sound e s h
happen_if-Sound false (command_taken w) s h = h
happen_if-Sound false (ticked w) s h = h
happen_if-Sound false (timer_fired t) s h = happen-Sound (timer_fired t) s h
happen_if-Sound false sessions_changed s h = happen-Sound sessions_changed s h
happen_if-Sound false media_changed s h = happen-Sound media_changed s h
happen_if-Sound false playback_changed s h = happen-Sound playback_changed s h
happen_if-Sound false (device_selected app_id) s h = happen-Sound (device_selected app_id) s h
happen_if-Sound false (control_sent cmd) s h = happen-Sound (control_sent cmd) s h
happen_if-Sound false capabilities_asked s h = happen-Sound capabilities_asked s h
happen_if-Sound false ended s h = h

rounds-Sound :
    (running : Bool) (hs : List Happening) (s : Smtc) → Sound s → Sound (rounds running hs s)
unfolding rounds
rounds-Sound running [] s h = h
rounds-Sound running (e ∷ hs) s h =
    rounds-Sound (running && not (is_end e)) hs (happen_if running e s)
      (happen_if-Sound running e s h)

-- In every order of commands, ticks, timers, callbacks and calls, whatever Windows answers, each
-- session of the list has its object, the command channel stays within its capacity, and where the
-- cache of covers records a size it holds bytes.
pub run_loop-Sound : (hs : List Happening) (s : Smtc) → Sound s → Sound (run_loop hs s)
unfolding run_loop
run_loop-Sound hs s h = rounds-Sound true hs s h
