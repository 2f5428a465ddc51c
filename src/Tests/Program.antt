-- ===== src/Tests/Program.antt =====
-- The start of the program and of the service, its queue, the stand-in and the routes at concrete inputs.
use smtc_now_playing.Prelude.{
  ℕ, true, false, Option, none, some, List, [], ◌∷◌, Text, codes, text_eq, ◌<◌, if◌then◌else◌, ◌≡◌,
  ◌≢◌, ◌⊎◌, refl, arith,
}
use smtc_now_playing.Prelude.Tests.{ltb}
use smtc_now_playing.Prelude.Int.{pos}
use smtc_now_playing.Config.{default_config}
use smtc_now_playing.Config.Reading.{loaded}
use smtc_now_playing.Smtc.Types.{device_changed_event}
use smtc_now_playing.Smtc.State.{new}
use smtc_now_playing.Smtc.Async.{AsyncOp, AsyncStatus, started, completed, wait_for_async}
use smtc_now_playing.Smtc.Subscribers.{
  no_subs, Op, subscribing, unsubscribing, fanning_out, receiving, closing, run,
}
use smtc_now_playing.Smtc.Loop.{
  Answers, Happening, command_taken, ticked, media_changed, device_selected,
}
use smtc_now_playing.Smtc.Mock.{MockProvider}
use smtc_now_playing.Smtc.Mock.Agreement.{mock_run, Mimics, mock_run-Mimics}
use smtc_now_playing.Smtc.Start
use smtc_now_playing.Smtc.Start.{Service}
use smtc_now_playing.Smtc.Start.Balance.{hold_all, none_held, run-Balanced}
use smtc_now_playing.Smtc.Com.{poll_async_progress, settled, poll_async_progress_settles}
use smtc_now_playing.Server.Dispatch.{ServiceCall, play, handle_control}
use smtc_now_playing.Server.Api.{localhost_only}
use smtc_now_playing.Server.Running.{RequestCall, route, request_calls}
use smtc_now_playing.Server.Running.Guarding.{controls, request_calls-Guarded}
use smtc_now_playing.App
use smtc_now_playing.App.{failed, canceled as window_closed}
use smtc_now_playing.Tests.{song_reply, cover_stream, switch_reply, timeline}

abbrev answers : Answers
answers = record {
  sessions = record { vector = none; switch = switch_reply };
  media = song_reply;
  timeline = timeline;
  switch = switch_reply;
  stream = cover_stream;
}

abbrev happenings : List Happening
happenings =
    ticked timeline
    ∷ command_taken answers
    ∷ media_changed
    ∷ device_selected (codes "x")
    ∷ command_taken answers
    ∷ []

abbrev stand_in : MockProvider
stand_in = record {
  subscribers = none;
  closed = [];
  next_ch = 0;
  sessions = [];
  selected_app_id = [];
}

abbrev steps : List Op
steps =
    subscribing (pos 1)
    ∷ fanning_out (device_changed_event (codes "a"))
    ∷ fanning_out (device_changed_event (codes "b"))
    ∷ receiving 0
    ∷ unsubscribing 0
    ∷ closing
    ∷ []

mock_run-Mimics_example : Mimics (mock_run steps stand_in) (run steps no_subs)
mock_run-Mimics_example =
    mock_run-Mimics steps stand_in no_subs
      (record { same_subscribers = refl; same_closed = refl; same_next = refl })

abbrev manager_op : AsyncOp ℕ
manager_op = record {
  first_status = completed;
  event_handle = 0;
  registered = true;
  signaled = true;
  last_status = completed;
  results = some 5;
}

abbrev start_answers : Start.Answers
start_answers = record {
  ro_initialized = true;
  canceled = false;
  request = some manager_op;
  sessions = record { vector = none; switch = switch_reply };
  token = 42;
}

abbrev service : Service
service = record {
  smtc = new [];
  subs = no_subs;
  session_manager = none;
  sessions_changed_token = 0;
  ticking = false;
}

manager_there : (wait_for_async manager_op).1 ≡ completed → (wait_for_async manager_op).0 ≢ none
unfolding wait_for_async
manager_there done missing = cc

run-Balanced_example : hold_all (Start.run start_answers happenings service).2 none_held ≡ none_held
run-Balanced_example = run-Balanced start_answers happenings service manager_there

-- An operation that runs for three rounds.
abbrev statuses : ℕ → Option AsyncStatus
statuses k = if ltb k 3 then some started else some completed

running : (i : ℕ) → i < 3 → statuses i ≡ some started
running i h = ground arith

poll_async_progress_settles_example :
    poll_async_progress 10 true true statuses ≡ some (settled (statuses 3))
poll_async_progress_settles_example =
    poll_async_progress_settles 10 3 statuses (omega arith) running (λ h. cc)

abbrev control_path : List Text
control_path = codes "api" ∷ codes "control" ∷ codes "play" ∷ []

silent_service : ServiceCall → Option Text
silent_service call = none

abbrev local_calls : List RequestCall
local_calls =
    request_calls silent_service default_config true (route (codes "POST") control_path) none

local_play : controls local_calls ≡ play ∷ []
unfolding route request_calls controls handle_control localhost_only text_eq default_config
local_play = refl

some_calls : (calls : List ServiceCall) → calls ≡ play ∷ [] → calls ≢ []
some_calls calls e h = cc

request_calls-Guarded_example :
    (codes "POST" ≡ codes "POST")
    × ((action : Text) × (control_path ≡ codes "api" ∷ codes "control" ∷ action ∷ []))
    × ((default_config.server.allow_remote ≡ true) ⊎ (true ≡ true))
request_calls-Guarded_example =
    request_calls-Guarded silent_service default_config true (codes "POST") control_path none
      (some_calls (controls local_calls) local_play)

abbrev program_answers : App.Answers
program_answers = record {
  config = loaded default_config;
  handle = 3;
  errno = 0;
  einval = 22;
  ends = window_closed ∷ failed ∷ [];
}
