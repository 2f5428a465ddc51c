-- ===== src/Smtc/Loop/Retrying.antt =====
-- The retries for a cover through their timer, the channel and the loop.
use smtc_now_playing.Prelude.{ℕ, List, [], ◌∷◌}
use smtc_now_playing.Smtc.State.{Smtc, Timer, Handled, stop_timer}
use smtc_now_playing.Smtc.Media.{fire_timer}
use smtc_now_playing.Smtc.Loop.{Answers, command_taken, happen}

-- The newest timer runs out, if there is one.
abbrev fire_first : List Timer → Smtc → Smtc
fire_first [] s = s
fire_first (t ∷ ts) s = fire_timer t s

abbrev pub fire_newest : Smtc → Smtc
fire_newest s = fire_first s.timers s

-- One timer after the other runs out, and the loop takes a command after each, with what Windows then
-- answers, until something is told.
unfoldable pub turns : List Answers → Smtc → Handled
turns [] s = (s, [])
turns (w ∷ ws) s =
    let (t, events) = happen (command_taken w) (fire_newest s) in
    elim events [ [] ↦ turns ws t | e ∷ es ↦ (t, e ∷ es) ]

-- The state in which the loop runs the retry.
abbrev fired : ℕ → Smtc → Smtc
fired i s = record s { timers = stop_timer i s.timers; cmd_chan = [] }
