-- ===== src/Smtc/Loop/Selecting.antt =====
-- From a call of `SelectDevice` to the session that the service watches.
use smtc_now_playing.Prelude.{
  ℕ, ◌<◌, some, List, [], ◌∷◌, ◌++◌, Text, get_elem?, length, ◌≡◌, ◌≢◌, ◌⊎◌, All, sym, subst, arith,
}
use smtc_now_playing.Smtc.Types.{SessionInfo}
use smtc_now_playing.Smtc.State.{Smtc, Command, Handled, select_device}
use smtc_now_playing.Smtc.Media.{cmd_chan_capacity}
use smtc_now_playing.Smtc.Sessions.{SwitchReply}
use smtc_now_playing.Smtc.Sessions.Switching.{FirstOf, Watches, select_device-Watches}
use smtc_now_playing.Smtc.Loop.{
  Answers, Happening, command_taken, select_device_call, happen, run_loop, run_command,
}
use smtc_now_playing.Smtc.Loop.Fairness.{Running, takes, run_loop_serves}
use smtc_now_playing.Smtc.Loop.Soundness.{Sound, select_device_call-Sound, run_loop-Sound}

-- The application is recorded. Either no session is of it, and nothing else changes, or the service
-- watches the first one that is.
abbrev pub Selects : Text → Smtc → SwitchReply → Handled → Type 0
Selects app_id s w h =
    let named = record s { selected_app_id = app_id } in
    ((h ≡ (named, [])) × All (λ x. x.app_id ≢ app_id) s.sessions)
    ⊎ ((index : ℕ) × (sess : SessionInfo) × (get_elem? s.sessions index ≡ some sess)
        × FirstOf app_id s.sessions index sess
        × Watches index sess named w h)

appended :
    (app_id : Text) (s : Smtc)
    → length s.cmd_chan < cmd_chan_capacity
    → (select_device_call app_id s).cmd_chan ≡ s.cmd_chan ++ select_device app_id ∷ []
unfolding select_device_call
appended app_id s room = ground arith

selected :
    (app_id : Text) (s : Smtc) (w : Answers)
    → length s.sessions ≡ length s.session_objects
    → Selects app_id s w.switch (run_command (select_device app_id) s w)
unfolding run_command
selected app_id s w matched = select_device-Watches app_id s w.switch matched

-- In a sound state, a call of `SelectDevice` that finds room takes effect, whatever happens while
-- the loop runs: once the loop has taken as many commands as waited before it, the next one records
-- the application and makes the service watch the first session of it, or changes nothing else if
-- then there is none.
pub select_device_call-Selects :
    (app_id : Text) (hs : List Happening) (s : Smtc) (w : Answers)
    → Sound s
    → length s.cmd_chan < cmd_chan_capacity
    → Running hs
    → takes hs ≡ length s.cmd_chan
    → let before = run_loop hs (select_device_call app_id s) in
      (later : List Command) × Selects app_id
        (record before { cmd_chan = later })
        w.switch
        (happen (command_taken w) before)
select_device_call-Selects app_id hs s w sound room going turns =
    let before = run_loop hs (select_device_call app_id s) in
    let (later, executed) =
      run_loop_serves hs s.cmd_chan [] (select_device app_id) (select_device_call app_id s) w
        (appended app_id s room) going turns in
    let matched =
      (run_loop-Sound hs (select_device_call app_id s)
        (select_device_call-Sound app_id s sound)).matched in
    (
      later,
      subst (Selects app_id (record before { cmd_chan = later }) w.switch) (sym executed)
          (selected app_id (record before { cmd_chan = later }) w matched),
    )
