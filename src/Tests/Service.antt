-- ===== src/Tests/Service.antt =====
-- Sessions, playback, control and subscribers at concrete inputs.
use smtc_now_playing.Prelude.{some, List, [], ◌∷◌, codes, All, refl, arith}
use smtc_now_playing.Prelude.Int.{pos}
use smtc_now_playing.Smtc.Types.{device_changed_event}
use smtc_now_playing.Smtc.State.{Smtc, Command, enumerate_sessions, new}
use smtc_now_playing.Smtc.Subscribers.{
  Subs, no_subs, new_subscriber, fan_out, subscribing, unsubscribing, closing, run,
}
use smtc_now_playing.Smtc.Subscribers.Delivery.{
  ChannelOk, Offered, Pointwise, fan_out-Offered, offered, received, Accounts, live, live-Accounts,
}
use smtc_now_playing.Smtc.Subscribers.Closing.{Once, run-Once}
use smtc_now_playing.Smtc.Sessions.{build_sessions}
use smtc_now_playing.Smtc.Sessions.Naming.{ToldApart, build_sessions-ToldApart}
use smtc_now_playing.Smtc.Control.{Request, TryReply, try_failed, try_play, play, send_control}
use smtc_now_playing.Smtc.Control.Requests.{Ends, send_control-Ends, play_asks}
use smtc_now_playing.Smtc.Loop.{
  Answers, Happening, command_taken, ticked, sessions_changed, media_changed, ended, run_loop,
  select_device_call, happen,
}
use smtc_now_playing.Smtc.Loop.Selecting.{Selects, select_device_call-Selects}
use smtc_now_playing.Smtc.Loop.Soundness.{Sound, run_loop-Sound}
use smtc_now_playing.Smtc.Sessions.{object, app_id_is}
use smtc_now_playing.Tests.{
  song_reply, cover_stream, idle, spotify, switch_reply, timeline, song_retry, no_stream, waiting,
}

live-Accounts_example :
    let acts =
      offered (device_changed_event [])
      ∷ offered (device_changed_event (codes "x"))
      ∷ received
      ∷ [] in
    Accounts acts (new_subscriber 0 1) (live acts (new_subscriber 0 1))
live-Accounts_example =
    live-Accounts
      (offered (device_changed_event [])
        ∷ offered (device_changed_event (codes "x"))
        ∷ received
        ∷ [])
      (new_subscriber 0 1) (record { idle = (λ h. refl); fits = omega arith })

abbrev one_subscriber : Subs
one_subscriber = record { subscribers = new_subscriber 0 1 ∷ []; closed = []; next_ch = 1 }

fan_out-Offered_example :
    Pointwise
      (Offered (device_changed_event []))
      one_subscriber.subscribers
      (fan_out (device_changed_event []) one_subscriber).subscribers
    × All ChannelOk (fan_out (device_changed_event []) one_subscriber).subscribers
fan_out-Offered_example =
    fan_out-Offered (device_changed_event []) one_subscriber
      (record { idle = (λ h. refl); fits = omega arith }, tt)

run-Once_example :
    Once (run (subscribing (pos 4) ∷ unsubscribing 0 ∷ unsubscribing 0 ∷ closing ∷ []) no_subs)
run-Once_example = run-Once (subscribing (pos 4) ∷ unsubscribing 0 ∷ unsubscribing 0 ∷ closing ∷ [])

build_sessions-ToldApart_example :
    ToldApart (build_sessions (codes "a.exe" ∷ codes "b.exe" ∷ codes "a.exe" ∷ []))
build_sessions-ToldApart_example =
    build_sessions-ToldApart (codes "a.exe" ∷ codes "b.exe" ∷ codes "a.exe" ∷ [])

abbrev answers : Answers
answers = record {
  sessions = record {
    vector = some (object 5 (app_id_is (codes "a.exe")) ∷ []);
    switch = switch_reply;
  };
  media = song_reply;
  timeline = timeline;
  switch = switch_reply;
  stream = cover_stream;
}

abbrev happenings : List Happening
happenings =
    sessions_changed
    ∷ command_taken answers
    ∷ media_changed
    ∷ ticked timeline
    ∷ command_taken answers
    ∷ ended
    ∷ []

new-Sound : Sound (new [])
unfolding new
new-Sound = record { matched = refl; bounded = omega arith; cached = (λ h. absurd (omega arith)) }

run_loop-Sound_example : Sound (run_loop happenings (new []))
run_loop-Sound_example = run_loop-Sound happenings (new []) new-Sound

abbrev pub stored : Smtc
stored = record idle { sessions = spotify ∷ []; session_objects = 5 ∷ [] }

abbrev rest_turns : List Happening
rest_turns = sessions_changed ∷ command_taken answers ∷ ticked timeline ∷ []

-- A service that has just been made, with one command that waits.
abbrev listing : Smtc
listing = record (new []) { cmd_chan = enumerate_sessions ∷ [] }

listing-Sound : Sound listing
unfolding new
listing-Sound = record {
  matched = refl;
  bounded = omega arith;
  cached = (λ h. absurd (omega arith));
}

select_device_call-Selects_example :
    let before = run_loop rest_turns (select_device_call (codes "a.exe") listing) in
    (later : List Command) × Selects
      (codes "a.exe")
      (record before { cmd_chan = later })
      answers.switch
      (happen (command_taken answers) before)
select_device_call-Selects_example =
    select_device_call-Selects (codes "a.exe") rest_turns listing answers listing-Sound
      (omega arith) (refl, (refl, (refl, tt))) refl

abbrev refusal : Request → TryReply
refusal r = try_failed (codes "no")

send_control-Ends_example :
    Ends idle (some idle) try_play refusal (send_control idle (some idle) refusal play)
send_control-Ends_example = send_control-Ends idle (some idle) refusal play try_play play_asks

-- The last attempt but one for a song, with its timer running.
abbrev last_tries : Smtc
last_tries = record waiting {
  thumbnail_retry_count = 8;
  timers = record { id = 3; retry = song_retry } ∷ [];
  thumbnail_retry_timer = some 3;
  next_timer = 4;
}

abbrev no_cover : Answers
no_cover = record answers { stream = no_stream }
