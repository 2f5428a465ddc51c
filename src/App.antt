-- ===== src/App.antt =====
-- cmd/smtc-now-playing/main.go: the start of the program. What the system and the other parts answer are
-- arguments.
pub mod Closing
use smtc_now_playing.Prelude.{
  ℕ, zero, suc, Bool, true, false, not, Option, none, some, List, [], ◌∷◌, ◌++◌, Text, codes, ◌==◌,
  if◌then◌else◌,
}
use smtc_now_playing.Prelude.Int.{ℤ, pos, int_eq}
use smtc_now_playing.Prelude.Decimal.{print_int}
use smtc_now_playing.Config.{Config, default_config}
use smtc_now_playing.Config.Reading.{Loaded, loaded}

-- The error code of a mutex that is there already.
abbrev pub error_already_exists : ℕ
error_already_exists = 183

-- What the program does to the system.
pub data Call : Type 0 where
  log_at_debug : Bool → Call
  create_mutex_w : Call
  close_handle : ℕ → Call
  box_running : Call
  box_mutex_error : ℕ → Call
  start_services : Config → Call
  start_gui : Call
  headless_url : Text → Call
  log_service_exit : Call
  exit : ℕ → Call

-- `CreateMutex`: the handle, or the error's number.
pub data Mutex : Type 0 where
  owned : ℕ → Mutex
  refused : ℕ → Mutex

-- On the handle that the system returns with its error's number; `einval` is `syscall.EINVAL`.
unfoldable pub create_mutex : ℕ → ℕ → ℕ → List Call × Mutex
create_mutex einval zero errno =
    (create_mutex_w ∷ [], refused (if errno == 0 then einval else errno))
create_mutex einval (suc h) errno =
    if errno == error_already_exists
    then (create_mutex_w ∷ close_handle (suc h) ∷ [], refused errno)
    else (create_mutex_w ∷ [], owned (suc h))

-- The configuration of `main`: the defaults, if it cannot be loaded.
abbrev pub loaded_or_default : Loaded → Config
loaded_or_default (loaded c) = c
loaded_or_default _ = default_config

-- What a goroutine of the group returns.
pub data ServiceEnd : Type 0 where
  returned canceled failed : ServiceEnd

-- `Gui.Run`: a window that is closed cancels the group, as its context does.
unfoldable pub gui_run : ℤ → ServiceEnd
gui_run code = if int_eq code (pos 0) then canceled else failed

-- `Wait` returns the first error; the goroutines are in the order in which they end.
unfoldable pub group_wait : List ServiceEnd → ServiceEnd
group_wait [] = returned
group_wait (returned ∷ rest) = group_wait rest
group_wait (canceled ∷ rest) = canceled
group_wait (failed ∷ rest) = failed

abbrev pub exit_code : ServiceEnd → List Call × ℕ
exit_code returned = ([], 0)
exit_code canceled = ([], 0)
exit_code failed = (log_service_exit ∷ [], 1)

abbrev pub mode_calls : Bool → Config → List Call
mode_calls false c = start_gui ∷ []
mode_calls true c = headless_url (codes "http://localhost:" ++ print_int c.server.port) ∷ []

-- `runApp`: neither the configuration nor the service is nil, so that `server.New` has no error.
unfoldable pub run_app : Config → Bool → List ServiceEnd → List Call × ℕ
run_app c headless ends = (
  start_services c ∷ (mode_calls headless c ++ (exit_code (group_wait ends)).0),
  (exit_code (group_wait ends)).1,
)

abbrev pub refused_calls : ℕ → List Call
refused_calls errno =
    (if errno == error_already_exists then box_running else box_mutex_error errno) ∷ []

abbrev after_mutex : Config → Bool → List ServiceEnd → Mutex → List Call
after_mutex c headless ends (refused errno) = refused_calls errno
after_mutex c headless ends (owned h) =
    (run_app c headless ends).0 ++ close_handle h ∷ exit (run_app c headless ends).1 ∷ []

-- What is answered to one run of the program.
pub record Answers : Type 0 where
  pub config : Loaded
  pub handle : ℕ
  pub errno : ℕ
  pub einval : ℕ
  pub ends : List ServiceEnd

-- `main`, on its two flags.
unfoldable pub main : Bool → Bool → Answers → List Call
main debug headless a =
    log_at_debug debug
    ∷ ((create_mutex a.einval a.handle a.errno).0
        ++ after_mutex (loaded_or_default a.config) headless a.ends
            (create_mutex a.einval a.handle a.errno).1)
