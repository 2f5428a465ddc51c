-- ===== src/Smtc/Control/Requests.antt =====
-- What a control command does to the session (internal/smtc/control.go).
use smtc_now_playing.Prelude.{
  ℕ, Bool, ◌-◌, ◌*◌, ◌^◌, ◌≤◌, ◌<◌, Option, none, some, [], ◌∷◌, length, ◌≡◌, ◌≢◌, ◌⊎◌, ◌↔◌, inl,
  inr, Bool-cases, refl, arith,
}
use smtc_now_playing.Prelude.Tests.{ltb}
use smtc_now_playing.Prelude.Int.{pos, negsuc, ◌*ℤ◌, to_int64, to_int32}
use smtc_now_playing.Smtc.Async.{completed, wait_for_async}
use smtc_now_playing.Smtc.State.{Smtc}
use smtc_now_playing.Smtc.Media.{cmd_chan_capacity}
use smtc_now_playing.Smtc.Control.{
  ControlCommand, Request, TryReply, try_failed, try_started, no_session, channel_full, Result,
  returned, blocked, request_of, execute_control, Outcome, play, pause, stop_playback,
  toggle_play_pause, skip_next, skip_previous, set_shuffle, set_repeat, try_play, try_pause,
  try_stop, try_toggle_play_pause, try_skip_next, try_skip_previous, try_change_shuffle_active,
  try_change_auto_repeat_mode, send_control, seek_to, try_change_playback_position, after_try,
  on_session,
}

-- WinRT takes the request: it starts an operation, and the wait for it reports completion.
abbrev pub Accepted : TryReply → Type 0
Accepted (try_failed e) = ⊥
Accepted (try_started op) = (wait_for_async op).1 ≡ completed

-- Without a session the error says so and nothing is asked. With one, an action without a request is
-- refused, and any other makes its request once, and succeeds exactly if that is accepted.
abbrev pub Executed : Option ℕ → Option Request → (Request → TryReply) → Result → Type 0
Executed none request answer (error, asked) = (error ≡ some no_session) × (asked ≡ [])
Executed (some _) none answer (error, asked) = (error ≢ none) × (asked ≡ [])
Executed (some _) (some r) answer (error, asked) =
    (asked ≡ r ∷ []) × ((error ≡ none) ↔ Accepted (answer r))

after_try-Accepted :
    (r : Request) (reply : TryReply)
    → ((after_try r reply).1 ≡ r ∷ []) × (((after_try r reply).0 ≡ none) ↔ Accepted reply)
after_try-Accepted r (try_failed e) = (refl, ((λ h. cc), (λ h. absurd h)))
after_try-Accepted r (try_started op) = (refl, ground arith)

on_session-Executed :
    (session : Option ℕ) (cmd : ControlCommand) (request : Option Request)
    (answer : Request → TryReply)
    → request_of cmd.action cmd ≡ request
    → Executed session request answer (on_session session answer cmd)
on_session-Executed none cmd request answer e = (refl, refl)
on_session-Executed (some _) cmd none answer e = rw e ((λ h. cc), refl)
on_session-Executed (some _) cmd (some r) answer e = rw e (after_try-Accepted r (answer r))

execute_control-Executed :
    (s : Smtc) (answer : Request → TryReply) (cmd : ControlCommand) (request : Option Request)
    → request_of cmd.action cmd ≡ request
    → Executed s.current_session request answer (execute_control s answer cmd)
unfolding execute_control
execute_control-Executed s answer cmd request e =
    on_session-Executed s.current_session cmd request answer e

-- The control methods, with the call of Windows that each stands for.
pub data Asks : ControlCommand → Request → Type 0 where
  play_asks : Asks play try_play
  pause_asks : Asks pause try_pause
  stop_asks : Asks stop_playback try_stop
  toggle_asks : Asks toggle_play_pause try_toggle_play_pause
  next_asks : Asks skip_next try_skip_next
  previous_asks : Asks skip_previous try_skip_previous
  -- Ten thousand ticks for each millisecond.
  seek_asks :
      (ms : ℕ)
      → ms ≤ 922337203685477
      → Asks (seek_to (pos ms)) (try_change_playback_position (pos (ms * 10000)))
  shuffle_asks : (active : Bool) → Asks (set_shuffle active) (try_change_shuffle_active active)
  repeat_asks :
      (mode : ℕ)
      → mode < 2 ^ 31
      → Asks (set_repeat (pos mode)) (try_change_auto_repeat_mode (pos mode))

Asks-request_of :
    {cmd : ControlCommand} {r : Request} → Asks cmd r → request_of cmd.action cmd ≡ some r
unfolding request_of play pause stop_playback toggle_play_pause skip_next skip_previous seek_to
    set_shuffle set_repeat to_int64 to_int32 ◌*ℤ◌
Asks-request_of play_asks = refl
Asks-request_of pause_asks = refl
Asks-request_of stop_asks = refl
Asks-request_of toggle_asks = refl
Asks-request_of next_asks = refl
Asks-request_of previous_asks = refl
Asks-request_of (seek_asks ms h) = ground arith
Asks-request_of (shuffle_asks active) = refl
Asks-request_of (repeat_asks mode h) = ground arith

-- How a call of a control method ends, by the state at the call and that in which the loop comes to it.
abbrev pub Ends : Smtc → Option Smtc → Request → (Request → TryReply) → Outcome → Type 0
Ends s later r answer outcome =
    ((cmd_chan_capacity ≤ length s.cmd_chan) × (outcome ≡ returned (some channel_full, [])))
    ⊎ ((length s.cmd_chan < cmd_chan_capacity)
        × (((later ≡ none) × (outcome ≡ blocked))
            ⊎ ((t : Smtc) × (result : Result) × (later ≡ some t)
                × (outcome ≡ returned result)
                × Executed t.current_session (some r) answer result)))

-- A control method (play, pause, stop, toggle, next, previous, a seek to a position that is not
-- negative and whose ticks fit 64 bits, shuffle, and a repeat mode that is not negative and fits 32)
-- fails at once if the channel is full and never returns if the loop has ended, asking nothing of
-- Windows; else it ends by the state in which the loop comes to it: with an error and nothing asked
-- without a session, and with one it makes the one call that Windows has for it and succeeds exactly
-- if Windows starts it and the wait reports completion.
pub send_control-Ends :
    (s : Smtc) (later : Option Smtc) (answer : Request → TryReply) (cmd : ControlCommand)
    (r : Request)
    → Asks cmd r
    → Ends s later r answer (send_control s later answer cmd)
unfolding send_control
send_control-Ends s none answer cmd r asks =
    elim (Bool-cases (ltb (length s.cmd_chan) cmd_chan_capacity)) [
      | inl room ↦ rw room (inr (ground arith, inl (refl, refl)))
      | inr full ↦ rw full (inl (ground arith, refl))
    ]
send_control-Ends s (some t) answer cmd r asks =
    elim (Bool-cases (ltb (length s.cmd_chan) cmd_chan_capacity)) [
      | inl room ↦ rw room (
          inr (
            ground arith,
            inr (
              t,
              execute_control t answer cmd,
              refl,
              refl,
              execute_control-Executed t answer cmd (some r) (Asks-request_of asks),
            ),
          ))
      | inr full ↦ rw full (inl (ground arith, refl))
    ]

-- A seek asks for ten thousand ticks for each millisecond, as long as the ticks fit 64 bits.
pub seek_to_exact :
    (ms : ℕ)
    → ms ≤ 922337203685477
    → request_of (seek_to (pos ms)).action (seek_to (pos ms))
      ≡ some (try_change_playback_position (pos (ms * 10000)))
unfolding request_of seek_to to_int64 ◌*ℤ◌
seek_to_exact ms h = ground arith

-- Beyond that the product wraps: the next millisecond, and all up to twice as far, ask for a
-- position before the start of the track.
pub seek_to_wraps :
    (ms : ℕ)
    → 922337203685477 < ms
    → ms ≤ 1844674407370955
    → (n : ℕ) × (request_of (seek_to (pos ms)).action (seek_to (pos ms))
        ≡ some (try_change_playback_position (negsuc n)))
unfolding request_of seek_to to_int64 ◌*ℤ◌
seek_to_wraps ms low high = (2 ^ 64 - 1 - ms * 10000, ground arith)
