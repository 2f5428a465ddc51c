-- ===== src/Smtc/Start.antt =====
-- internal/smtc/smtc.go and session.go: `Run` from its start to its end, with the session manager, the
-- subscription to its changes and the progress ticker. What Windows answers is an argument.
pub mod Balance
use smtc_now_playing.Prelude.{
  ℕ, zero, suc, Bool, true, false, Option, none, some, List, [], ◌∷◌, ◌++◌, if◌then◌else◌,
}
use smtc_now_playing.Smtc.Types.{Event}
use smtc_now_playing.Smtc.Async.{AsyncStatus, completed, is_completed, AsyncOp, wait_for_async}
use smtc_now_playing.Smtc.State.{Smtc}
use smtc_now_playing.Smtc.Subscribers.{Subs, close_all}
use smtc_now_playing.Smtc.Sessions.{SessionsReply, enumerate_sessions}
use smtc_now_playing.Smtc.Loop.{Happening, cleanup_run, run_loop}

-- The service with its session manager, the token of the subscription to it, and its ticker.
pub record Service : Type 0 where
  pub smtc : Smtc
  pub subs : Subs
  pub session_manager : Option ℕ
  pub sessions_changed_token : ℕ
  pub ticking : Bool

pub data Call : Type 0 where
  ro_initialize ro_uninitialize : Call
  add_sessions_changed : ℕ → Call
  remove_sessions_changed : ℕ → Call
  release_handler : Call
  start_ticker stop_ticker : Call

-- Why `Run` returns.
pub data RunError : Type 0 where
  ro_initialize_failed request_failed context_done : RunError
  request_status : AsyncStatus → RunError

-- What is answered at the start. The zero token is that of a subscription that failed.
pub record Answers : Type 0 where
  pub ro_initialized : Bool
  pub canceled : Bool
  pub request : Option (AsyncOp ℕ)
  pub sessions : SessionsReply
  pub token : ℕ

-- `subscribeSessionsChanged`.
unfoldable pub subscribe_sessions_changed : ℕ → Service → Service × List Call
subscribe_sessions_changed token sv = (
  record sv { sessions_changed_token = token },
  add_sessions_changed token ∷ release_handler ∷ [],
)

-- A piece of the start: why it fails, the service, the events and the calls.
abbrev pub Piece : Type 0
Piece = Option RunError × Service × List Event × List Call

abbrev with_manager : Answers → Service → Piece
with_manager a sv =
    let entered = enumerate_sessions sv.smtc a.sessions in
    let subscribed = subscribe_sessions_changed a.token (record sv { smtc = entered.0 }) in
    (none, subscribed.0, entered.1, subscribed.1)

abbrev requested : Answers → Service → Option ℕ → AsyncStatus → Piece
requested a sv result status =
    if is_completed status
    then with_manager a (record sv { session_manager = result })
    else (some (request_status status), sv, [], [])

abbrev request_manager : Answers → Service → Option (AsyncOp ℕ) → Piece
request_manager a sv none = (some request_failed, sv, [], [])
request_manager a sv (some op) = requested a sv (wait_for_async op).0 (wait_for_async op).1

unfoldable pub init_session_manager : Answers → Service → Piece
init_session_manager a sv = request_manager a sv a.request

-- `cleanupRun`.
abbrev leave_manager : Option ℕ → ℕ → List Call
leave_manager none token = []
leave_manager (some m) token = remove_sessions_changed token ∷ []

unfoldable pub cleanup : Service → Service × List Call
cleanup sv = (
  record sv {
    smtc = cleanup_run sv.smtc;
    subs = close_all sv.subs;
    session_manager = none;
    sessions_changed_token = 0;
  },
  leave_manager sv.session_manager sv.sessions_changed_token,
)

abbrev start_progress_timer : Service → Service × List Call
start_progress_timer sv = (record sv { ticking = true }, start_ticker ∷ [])

abbrev stop_if : Bool → Service → Service × List Call
stop_if false sv = (sv, [])
stop_if true sv = (record sv { ticking = false }, stop_ticker ∷ [])

abbrev stop_progress_timer : Service → Service × List Call
stop_progress_timer sv = stop_if sv.ticking sv

-- The loop, from the start of the ticker to the deferred stop, until the context is done.
unfoldable pub run_started : List Happening → Service → Service × List Call
run_started hs sv =
    let started = start_progress_timer sv in
    let ended = cleanup (record started.0 { smtc = run_loop hs started.0.smtc }) in
    let stopped = stop_progress_timer ended.0 in (stopped.0, started.1 ++ (ended.1 ++ stopped.1))

abbrev continue_run : List Happening → Piece → RunError × Service × List Call
continue_run hs (some e, sv, events, calls) = (e, sv, calls ++ ro_uninitialize ∷ [])
continue_run hs (none, sv, events, calls) =
    (context_done, (run_started hs sv).0, calls ++ ((run_started hs sv).1 ++ ro_uninitialize ∷ []))

abbrev initialized : Answers → List Happening → Service → Bool → RunError × Service × List Call
initialized a hs sv true = (context_done, sv, ro_uninitialize ∷ [])
initialized a hs sv false = continue_run hs (init_session_manager a sv)

abbrev run_initialized : Answers → List Happening → Service → Bool → RunError × Service × List Call
run_initialized a hs sv false = (ro_initialize_failed, sv, [])
run_initialized a hs sv true =
    let r = initialized a hs sv a.canceled in (r.0, r.1, ro_initialize ∷ r.2)

-- `Run`: its error, the service and the calls; `hs` is what happens in its loop.
unfoldable pub run : Answers → List Happening → Service → RunError × Service × List Call
run a hs sv = run_initialized a hs sv a.ro_initialized
