-- ===== src/Smtc/Loop/Fairness.antt =====
-- Commands of the service's channel are executed in the order in which they were posted.
use smtc_now_playing.Prelude.{
  All, ℕ, suc, Bool, true, false, List, [], ◌∷◌, ◌++◌, Text, length, ◌≡◌, refl, sym, ap, subst, ◌∙◌,
  arith, append_assoc, if◌then◌else◌,
}
use smtc_now_playing.Prelude.Tests.{ltb}
use smtc_now_playing.Smtc.State.{
  Smtc, Command, enumerate_sessions, media_properties_changed, playback_info_changed, select_device,
  retry_thumbnail, control, capabilities, stop_timer,
}
use smtc_now_playing.Smtc.Media.{post, fire_timer, cmd_chan_capacity}
use smtc_now_playing.Smtc.Playback.{read_timeline_and_progress}
use smtc_now_playing.Smtc.Loop.{
  Answers, run_command, Happening, command_taken, ticked, timer_fired, sessions_changed,
  media_changed, playback_changed, device_selected, control_sent, capabilities_asked, ended,
  send_if_room, is_end, rounds, select_device_call, happen, run_first, run_loop,
}
use smtc_now_playing.Smtc.Loop.Queueing.{read_timeline_and_progress-Queued, run_command-Queued}

-- A queue that begins with the commands, whatever has been posted since.
abbrev pub Begins : List Command → Smtc → Type 0
Begins q s = (later : List Command) × (s.cmd_chan ≡ q ++ later)

-- A command that is appended, if there is room.
appended-Begins :
    (q : List Command) (c : Command) (s t : Smtc) (room : Bool)
    → Begins q s
    → t.cmd_chan ≡ (if room then s.cmd_chan ++ c ∷ [] else s.cmd_chan)
    → Begins q t
appended-Begins q c s t true (later, e) h =
    (later ++ c ∷ [], h ∙ ap (λ l. l ++ c ∷ []) e ∙ append_assoc q later (c ∷ []))
appended-Begins q c s t false (later, e) h = (later, h ∙ e)

post-Begins : (q : List Command) (c : Command) (s : Smtc) → Begins q s → Begins q (post c s)
unfolding post
post-Begins q c s h =
    appended-Begins q c s (post c s) (ltb (length s.cmd_chan) cmd_chan_capacity) h (ground arith)

select_device_call-Begins :
    (q : List Command) (app_id : Text) (s : Smtc)
    → Begins q s
    → Begins q (select_device_call app_id s)
unfolding select_device_call
select_device_call-Begins q app_id s h =
    appended-Begins q (select_device app_id) s (select_device_call app_id s)
      (ltb (length s.cmd_chan) cmd_chan_capacity) h (ground arith)

send_if_room-Begins :
    (q : List Command) (c : Command) (s : Smtc) → Begins q s → Begins q (send_if_room c s)
unfolding send_if_room
send_if_room-Begins q c s h =
    appended-Begins q c s (send_if_room c s) (ltb (length s.cmd_chan) cmd_chan_capacity) h
      (ground arith)

-- The loop does not end.
abbrev pub Running : List Happening → Type 0
Running hs = All (λ h. is_end h ≡ false) hs

-- The commands that are taken.
abbrev pub takes : List Happening → ℕ
takes [] = 0
takes (command_taken w ∷ hs) = suc (takes hs)
takes (_ ∷ hs) = takes hs

run_first-Begins :
    (q cmds : List Command) (c : Command) (s : Smtc) (w : Answers) (later : List Command)
    → cmds ≡ c ∷ (q ++ later)
    → Begins q (run_first cmds s w).0
run_first-Begins q cmds c s w later e =
    subst (λ l. Begins q (run_first l s w).0) (sym e)
      (later, run_command-Queued (q ++ later) c (record s { cmd_chan = q ++ later }) w refl)

-- After as many commands as stand before it, a command is the first.
rounds-Begins :
    (hs : List Happening) (before : List Command) (c : Command) (s : Smtc)
    → Running hs
    → takes hs ≡ length before
    → Begins (before ++ c ∷ []) s
    → Begins (c ∷ []) (rounds true hs s)
unfolding rounds happen fire_timer
rounds-Begins [] [] c s r n h = h
rounds-Begins [] (b ∷ before) c s r n h = absurd (omega arith)
rounds-Begins (command_taken w ∷ hs) [] c s r n h = absurd (omega arith)
rounds-Begins (command_taken w ∷ hs) (b ∷ before) c s r n (later, e) =
    rounds-Begins hs before c (run_first s.cmd_chan s w).0 r.1 (omega arith)
      (run_first-Begins (before ++ c ∷ []) s.cmd_chan b s w later e)
rounds-Begins (ticked w ∷ hs) before c s r n (later, e) =
    rounds-Begins hs before c (read_timeline_and_progress s w).0 r.1 n
      (later, read_timeline_and_progress-Queued ((before ++ c ∷ []) ++ later) s w e)
rounds-Begins (timer_fired t ∷ hs) before c s r n h =
    rounds-Begins hs before c (fire_timer t s) r.1 n (
      post-Begins (before ++ c ∷ []) (retry_thumbnail t.retry)
        (record s { timers = stop_timer t.id s.timers }) h)
rounds-Begins (sessions_changed ∷ hs) before c s r n h =
    rounds-Begins hs before c (post enumerate_sessions s) r.1 n
      (post-Begins (before ++ c ∷ []) enumerate_sessions s h)
rounds-Begins (media_changed ∷ hs) before c s r n h =
    rounds-Begins hs before c (post media_properties_changed s) r.1 n
      (post-Begins (before ++ c ∷ []) media_properties_changed s h)
rounds-Begins (playback_changed ∷ hs) before c s r n h =
    rounds-Begins hs before c (post playback_info_changed s) r.1 n
      (post-Begins (before ++ c ∷ []) playback_info_changed s h)
rounds-Begins (device_selected app_id ∷ hs) before c s r n h =
    rounds-Begins hs before c (select_device_call app_id s) r.1 n
      (select_device_call-Begins (before ++ c ∷ []) app_id s h)
rounds-Begins (control_sent cmd ∷ hs) before c s r n h =
    rounds-Begins hs before c (send_if_room (control cmd) s) r.1 n
      (send_if_room-Begins (before ++ c ∷ []) (control cmd) s h)
rounds-Begins (capabilities_asked ∷ hs) before c s r n h =
    rounds-Begins hs before c (send_if_room capabilities s) r.1 n
      (send_if_room-Begins (before ++ c ∷ []) capabilities s h)
rounds-Begins (ended ∷ hs) before c s r n h = absurd (ground arith)

-- A command on the channel is executed: whatever else happens while the loop runs, in any order, once the loop has taken
-- as many commands as stood before it, the next command that it takes is this one.
pub run_loop_serves :
    (hs : List Happening) (before after : List Command) (c : Command) (s : Smtc) (w : Answers)
    → s.cmd_chan ≡ before ++ c ∷ after
    → Running hs
    → takes hs ≡ length before
    → (later : List Command) × (happen (command_taken w) (run_loop hs s)
        ≡ run_command c (record (run_loop hs s) { cmd_chan = later }) w)
unfolding happen run_loop
run_loop_serves hs before after c s w e r n =
    let (later, first) =
      rounds-Begins hs before c s r n (after, e ∙ sym (append_assoc before (c ∷ []) after)) in
    (later, ap (λ l. run_first l (run_loop hs s) w) first)
