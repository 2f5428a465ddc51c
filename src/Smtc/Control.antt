-- ===== src/Smtc/Control.antt =====
-- internal/smtc/control.go: the control methods. Each puts a function on `cmdChan` without waiting,
-- and waits for its result; the event loop runs the function against the session of that moment.
pub mod Requests
use smtc_now_playing.Prelude.{
  ℕ, Bool, true, false, not, Option, none, some, List, [], ◌∷◌, Text, length, ◌&&◌, if◌then◌else◌,
}
use smtc_now_playing.Prelude.Tests.{ltb}
use smtc_now_playing.Prelude.Int.{ℤ, pos, ◌*ℤ◌, to_int64, to_int32}
use smtc_now_playing.Domain.{ControlCapabilities}
use smtc_now_playing.Smtc.Async.{AsyncOp, AsyncStatus, wait_for_async, is_completed}
use smtc_now_playing.Smtc.State.{Smtc}
pub use smtc_now_playing.Smtc.State.{
  ControlAction, control_play, control_pause, control_stop, control_toggle_play_pause,
  control_skip_next, control_skip_previous, control_seek, control_shuffle, control_repeat,
  control_other, ControlCommand,
}
use smtc_now_playing.Smtc.Media.{cmd_chan_capacity}

-- A command with the zero values for what the action does not use.
abbrev pub command : ControlAction → ControlCommand
command a = record {
  action = a;
  seek_position = pos 0;
  shuffle_active = false;
  repeat_mode = pos 0;
}

-- The calls of the current session's methods.
pub data Request : Type 0 where
  try_play try_pause try_stop try_toggle_play_pause : Request
  try_skip_next try_skip_previous : Request
  try_change_playback_position : ℤ → Request  -- in ticks of 100 ns
  try_change_shuffle_active : Bool → Request
  try_change_auto_repeat_mode : ℤ → Request

pub data ControlError : Type 0 where
  no_session : ControlError
  unknown_action : ControlAction → ControlError
  winrt_error : Text → ControlError
  async_failed : AsyncStatus → ControlError
  channel_full : ControlError

-- What WinRT answers to a request: an error, or an operation to wait for.
pub data TryReply : Type 0 where
  try_failed : Text → TryReply
  try_started : AsyncOp (Unit {0}) → TryReply

-- The `switch` of `executeControl`; `none` is its default.
unfoldable pub request_of : ControlAction → ControlCommand → Option Request
request_of control_play cmd = some try_play
request_of control_pause cmd = some try_pause
request_of control_stop cmd = some try_stop
request_of control_toggle_play_pause cmd = some try_toggle_play_pause
request_of control_skip_next cmd = some try_skip_next
request_of control_skip_previous cmd = some try_skip_previous
request_of control_seek cmd =
    some (try_change_playback_position (to_int64 (cmd.seek_position *ℤ pos 10000)))
request_of control_shuffle cmd = some (try_change_shuffle_active cmd.shuffle_active)
request_of control_repeat cmd = some (try_change_auto_repeat_mode (to_int32 cmd.repeat_mode))
request_of (control_other n) cmd = none

-- What `resultChan` receives (`none` for nil), and the requests made.
abbrev pub Result : Type 0
Result = Option ControlError × List Request

abbrev after_try : Request → TryReply → Result
after_try r (try_failed e) = (some (winrt_error e), r ∷ [])
after_try r (try_started op) =
    let status = (wait_for_async op).1 in
    (if is_completed status then none else some (async_failed status), r ∷ [])

abbrev send_request : ControlAction → (Request → TryReply) → Option Request → Result
send_request a answer none = (some (unknown_action a), [])
send_request a answer (some r) = after_try r (answer r)

abbrev on_session : Option ℕ → (Request → TryReply) → ControlCommand → Result
on_session none answer cmd = (some no_session, [])
on_session (some _) answer cmd = send_request cmd.action answer (request_of cmd.action cmd)

unfoldable pub execute_control : Smtc → (Request → TryReply) → ControlCommand → Result
execute_control s answer cmd = on_session s.current_session answer cmd

-- How a call of a control method ends: with a result, or not at all.
pub data Outcome : Type 0 where
  returned : Result → Outcome
  blocked : Outcome

abbrev run_queued : Option Smtc → (Request → TryReply) → ControlCommand → Outcome
run_queued none answer cmd = blocked
run_queued (some later) answer cmd = returned (execute_control later answer cmd)

-- `s` is the state at the call, `later` that in which the event loop runs the function, `none` if the
-- loop has ended and never does.
unfoldable pub send_control : Smtc → Option Smtc → (Request → TryReply) → ControlCommand → Outcome
send_control s later answer cmd =
    if ltb (length s.cmd_chan) cmd_chan_capacity
    then run_queued later answer cmd
    else returned (some channel_full, [])

-- The control methods, each as the command that it sends.
unfoldable pub play : ControlCommand
play = command control_play

unfoldable pub pause : ControlCommand
pause = command control_pause

unfoldable pub stop_playback : ControlCommand
stop_playback = command control_stop

unfoldable pub toggle_play_pause : ControlCommand
toggle_play_pause = command control_toggle_play_pause

unfoldable pub skip_next : ControlCommand
skip_next = command control_skip_next

unfoldable pub skip_previous : ControlCommand
skip_previous = command control_skip_previous

unfoldable pub seek_to : ℤ → ControlCommand
seek_to position_ms = record {
  action = control_seek;
  seek_position = position_ms;
  shuffle_active = false;
  repeat_mode = pos 0;
}

unfoldable pub set_shuffle : Bool → ControlCommand
set_shuffle active = record {
  action = control_shuffle;
  seek_position = pos 0;
  shuffle_active = active;
  repeat_mode = pos 0;
}

unfoldable pub set_repeat : ℤ → ControlCommand
set_repeat mode = record {
  action = control_repeat;
  seek_position = pos 0;
  shuffle_active = false;
  repeat_mode = mode;
}

abbrev pub no_capabilities : ControlCapabilities
no_capabilities = record {
  is_play_enabled = false;
  is_pause_enabled = false;
  is_stop_enabled = false;
  is_next_enabled = false;
  is_previous_enabled = false;
  is_seek_enabled = false;
  is_shuffle_enabled = false;
  is_repeat_enabled = false;
}

-- What WinRT answers to `readCapabilities`: whether the playback info and its controls are there,
-- and what each getter of the controls returns, false for one that fails.
pub record ControlsReply : Type 0 where
  pub playback_info : Bool
  pub controls : Bool
  pub getters : ControlCapabilities

abbrev with_session : Option ℕ → ControlsReply → ControlCapabilities
with_session none w = no_capabilities
with_session (some _) w =
    if not w.playback_info
    then no_capabilities
    else if not w.controls
    then no_capabilities
    else w.getters

unfoldable pub read_capabilities : Smtc → ControlsReply → ControlCapabilities
read_capabilities s w = with_session s.current_session w

abbrev capabilities_queued : Option Smtc → ControlsReply → Option ControlCapabilities
capabilities_queued none w = none
capabilities_queued (some later) w = some (read_capabilities later w)

-- `GetCapabilities`, `none` if it never returns.
unfoldable pub get_capabilities : Smtc → Option Smtc → ControlsReply → Option ControlCapabilities
get_capabilities s later w =
    if ltb (length s.cmd_chan) cmd_chan_capacity
    then capabilities_queued later w
    else some no_capabilities
