-- ===== src/Smtc/Loop.antt =====
-- internal/smtc/smtc.go: the event loop of `Run`, from the point where the session manager is there, and
-- the calls that post to it. A round takes what comes first: a command, a tick or the end.
pub mod Soundness
pub mod Queueing
pub mod Fairness
pub mod Selecting
pub mod Retrying
use smtc_now_playing.Prelude.{
  Bool, true, false, not, ◌&&◌, ℕ, Option, none, some, List, [], ◌∷◌, ◌++◌, Text, length,
  if◌then◌else◌,
}
use smtc_now_playing.Prelude.Tests.{ltb}
use smtc_now_playing.Smtc.Types.{SessionInfo, Event}
use smtc_now_playing.Smtc.State.{
  Smtc, Command, Handled, Timer, enumerate_sessions, media_properties_changed,
  playback_info_changed, select_device, retry_thumbnail, control, capabilities, ControlCommand,
  stop_timer,
}
use smtc_now_playing.Smtc.Thumbnail.{Stream}
use smtc_now_playing.Smtc.Media.{
  MediaReply, handle_media_properties_changed, retry_thumbnail_and_fire_info, post, fire_timer,
  cmd_chan_capacity, stop_retry,
}
use smtc_now_playing.Smtc.Playback.{
  Timeline, read_timeline_and_progress, handle_playback_info_changed,
}
use smtc_now_playing.Smtc.Sessions
use smtc_now_playing.Smtc.Sessions.{SessionsReply, SwitchReply, unsubscribe_property_events}

-- What Windows answers to the handler of a round.
pub record Answers : Type 0 where
  pub sessions : SessionsReply
  pub media : MediaReply
  pub timeline : Timeline
  pub switch : SwitchReply
  pub stream : Stream

-- The function that a command stands for.
unfoldable pub run_command : Command → Smtc → Answers → Handled
run_command enumerate_sessions s w = Sessions.enumerate_sessions s w.sessions
run_command media_properties_changed s w = handle_media_properties_changed s w.media
run_command playback_info_changed s w = handle_playback_info_changed s w.timeline
run_command (select_device app_id) s w = Sessions.select_device app_id s w.switch
run_command (retry_thumbnail retry) s w = retry_thumbnail_and_fire_info s w.stream retry
-- These two only read the state: what they ask of Windows, and answer on their own channel, is
-- `execute_control` and `read_capabilities`.
run_command (control cmd) s w = (s, [])
run_command capabilities s w = (s, [])

abbrev pub run_first : List Command → Smtc → Answers → Handled
run_first [] s w = (s, [])
run_first (cmd ∷ rest) s w = run_command cmd (record s { cmd_chan = rest }) w

abbrev leave_session : Option ℕ → Smtc → Smtc
leave_session none s = s
leave_session (some _) s = record (unsubscribe_property_events s) { current_session = none }

-- `cleanupRun`, but for the session manager and the subscribers.
unfoldable pub cleanup_run : Smtc → Smtc
cleanup_run s =
    let stopped = record s {
      timers = stop_retry s.thumbnail_retry_timer s.timers;
      thumbnail_retry_timer = none;
    } in
    record (leave_session s.current_session stopped) { current_properties = none }

-- What happens: a round of the loop, a timer that runs out, a callback of Windows that posts, a control
-- method or `GetCapabilities`, which fails without room, and `SelectDevice`, which waits for room:
-- without any, it is still waiting.
pub data Happening : Type 0 where
  command_taken : Answers → Happening
  ticked : Timeline → Happening
  timer_fired : Timer → Happening
  sessions_changed media_changed playback_changed : Happening
  device_selected : Text → Happening
  control_sent : ControlCommand → Happening
  capabilities_asked : Happening
  ended : Happening

unfoldable pub select_device_call : Text → Smtc → Smtc
select_device_call app_id s =
    if ltb (length s.cmd_chan) cmd_chan_capacity
    then record s { cmd_chan = s.cmd_chan ++ select_device app_id ∷ [] }
    else s

-- The sends of `sendControl` and `GetCapabilities`, which do not wait.
unfoldable pub send_if_room : Command → Smtc → Smtc
send_if_room c s =
    if ltb (length s.cmd_chan) cmd_chan_capacity
    then record s { cmd_chan = s.cmd_chan ++ c ∷ [] }
    else s

unfoldable pub happen : Happening → Smtc → Handled
happen (command_taken w) s = run_first s.cmd_chan s w
happen (ticked w) s = read_timeline_and_progress s w
happen (timer_fired t) s = (fire_timer t s, [])
happen sessions_changed s = (post enumerate_sessions s, [])
happen media_changed s = (post media_properties_changed s, [])
happen playback_changed s = (post playback_info_changed s, [])
happen (device_selected app_id) s = (select_device_call app_id s, [])
happen (control_sent cmd) s = (send_if_room (control cmd) s, [])
happen capabilities_asked s = (send_if_room capabilities s, [])
happen ended s = (cleanup_run s, [])

abbrev pub is_end : Happening → Bool
is_end ended = true
is_end _ = false

-- After the loop's return there are no rounds; timers, callbacks and calls still post.
abbrev pub happen_late : Happening → Smtc → Smtc
happen_late (command_taken w) s = s
happen_late (ticked w) s = s
happen_late ended s = s
happen_late h s = (happen h s).0

abbrev pub happen_if : Bool → Happening → Smtc → Smtc
happen_if true h s = (happen h s).0
happen_if false h s = happen_late h s

unfoldable pub rounds : Bool → List Happening → Smtc → Smtc
rounds running [] s = s
rounds running (h ∷ hs) s = rounds (running && not (is_end h)) hs (happen_if running h s)

unfoldable pub run_loop : List Happening → Smtc → Smtc
run_loop hs s = rounds true hs s

-- `GetSessions`: a copy of the list, nil for an empty one.
unfoldable pub get_sessions : Smtc → List SessionInfo
get_sessions s = s.sessions
