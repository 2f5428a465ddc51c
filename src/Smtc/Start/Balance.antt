-- ===== src/Smtc/Start/Balance.antt =====
-- What `Run` takes from Windows it gives back.
use smtc_now_playing.Prelude.{
  ℕ, zero, suc, Bool, true, false, Option, none, some, List, [], ◌∷◌, ◌≡◌, refl, arith, ◌≢◌, ◌==◌,
  if◌then◌else◌,
}
use smtc_now_playing.Smtc.Async.{
  AsyncStatus, started, completed, canceled, error, wait_for_async, AsyncOp,
}
use smtc_now_playing.Smtc.Loop.{Happening}
use smtc_now_playing.Smtc.Start.{
  Service, Call, ro_initialize, ro_uninitialize, add_sessions_changed, remove_sessions_changed,
  start_ticker, stop_ticker, Answers, continue_run, requested, request_manager, initialized,
  run_initialized, subscribe_sessions_changed, init_session_manager, cleanup, run_started, run,
}

-- What is held after calls: the apartment, the subscriptions by their tokens, and the ticker.
pub record Held : Type 0 where
  pub apartments : ℕ
  pub tokens : List ℕ
  pub tickers : ℕ

abbrev pub none_held : Held
none_held = record { apartments = 0; tokens = []; tickers = 0 }

abbrev pub without : ℕ → List ℕ → List ℕ
without t [] = []
without t (u ∷ us) = if u == t then us else u ∷ without t us

abbrev pub less_one : ℕ → ℕ
less_one zero = 0
less_one (suc n) = n

abbrev pub hold : Call → Held → Held
hold ro_initialize h = record h { apartments = suc h.apartments }
hold ro_uninitialize h = record h { apartments = less_one h.apartments }
hold (add_sessions_changed t) h = record h { tokens = t ∷ h.tokens }
hold (remove_sessions_changed t) h = record h { tokens = without t h.tokens }
hold start_ticker h = record h { tickers = suc h.tickers }
hold stop_ticker h = record h { tickers = less_one h.tickers }
hold _ h = h

abbrev pub hold_all : List Call → Held → Held
hold_all [] h = h
hold_all (c ∷ cs) h = hold_all cs (hold c h)

-- A request that completes has a manager for its result.
abbrev pub Managed : Option (AsyncOp ℕ) → Type 0
Managed none = Unit {0}
Managed (some op) = (wait_for_async op).1 ≡ completed → (wait_for_async op).0 ≢ none

abbrev Balanced : List Call → Type 0
Balanced calls = hold_all (ro_initialize ∷ calls) none_held ≡ none_held

requested-Balanced :
    (a : Answers) (hs : List Happening) (sv : Service) (result : Option ℕ) (status : AsyncStatus)
    → (status ≡ completed → result ≢ none)
    → Balanced (continue_run hs (requested a sv result status)).2
unfolding subscribe_sessions_changed run_started cleanup
requested-Balanced a hs sv none completed managed = absurd (managed refl refl)
requested-Balanced a hs sv (some m) completed managed = ground arith
requested-Balanced a hs sv result started managed = refl
requested-Balanced a hs sv result canceled managed = refl
requested-Balanced a hs sv result error managed = refl

request_manager-Balanced :
    (a : Answers) (hs : List Happening) (sv : Service) (request : Option (AsyncOp ℕ))
    → Managed request
    → Balanced (continue_run hs (request_manager a sv request)).2
request_manager-Balanced a hs sv none managed = refl
request_manager-Balanced a hs sv (some op) managed =
    requested-Balanced a hs sv (wait_for_async op).0 (wait_for_async op).1 managed

initialized-Balanced :
    (a : Answers) (hs : List Happening) (sv : Service) (canceled : Bool)
    → Managed a.request
    → Balanced (initialized a hs sv canceled).2
unfolding init_session_manager
initialized-Balanced a hs sv true managed = refl
initialized-Balanced a hs sv false managed = request_manager-Balanced a hs sv a.request managed

run_initialized-Balanced :
    (a : Answers) (hs : List Happening) (sv : Service) (ok : Bool)
    → Managed a.request
    → hold_all (run_initialized a hs sv ok).2 none_held ≡ none_held
run_initialized-Balanced a hs sv false managed = refl
run_initialized-Balanced a hs sv true managed = initialized-Balanced a hs sv a.canceled managed

-- However `Run` ends, by an error at any point of its start or by its context after any happenings, it
-- holds nothing of what it took: neither the apartment of its thread, nor the subscription to
-- the changes of the sessions, nor the ticker, if a request that completes has a manager.
pub run-Balanced :
    (a : Answers) (hs : List Happening) (sv : Service)
    → Managed a.request
    → hold_all (run a hs sv).2 none_held ≡ none_held
unfolding run
run-Balanced a hs sv managed = run_initialized-Balanced a hs sv a.ro_initialized managed
