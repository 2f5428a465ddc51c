-- ===== src/Server/HotReload.antt =====
-- internal/server/server.go: `runHotReload`, from the point where the theme's directory is watched. Times
-- are in milliseconds; a round of the loop is an input, and looks at the timer only where it says so.
pub mod Debounce
use smtc_now_playing.Prelude.{
  ℕ, ◌+◌, Bool, true, false, Option, none, some, List, [], ◌∷◌, Text, ◌||◌, if◌then◌else◌,
}
use smtc_now_playing.Prelude.Tests.{leb}

abbrev pub hot_reload_debounce : ℕ
hot_reload_debounce = 500

-- The bits of `fsnotify.Op`.
pub record FileOp : Type 0 where
  pub create : Bool
  pub write : Bool
  pub remove : Bool
  pub rename : Bool
  pub chmod : Bool

pub data Input : Type 0 where
  file_event : ℕ → FileOp → Input
  watcher_error : Input
  timer_seen : ℕ → Input
  stopped : Input  -- the context is cancelled, or a channel of the watcher is closed

unfoldable pub is_change : FileOp → Bool
is_change op = op.write || op.create || op.remove || op.rename

abbrev pub expired : Option ℕ → ℕ → Bool
expired none now = false
expired (some due) now = leb due now

-- The messages broadcast; `due` is the time for which the timer is set, if it runs.
unfoldable pub hot_reload : Text → List Input → Option ℕ → List Text
hot_reload msg [] due = []
hot_reload msg (file_event now op ∷ rest) due =
    hot_reload msg rest (if is_change op then some (now + hot_reload_debounce) else due)
hot_reload msg (watcher_error ∷ rest) due = hot_reload msg rest due
hot_reload msg (timer_seen now ∷ rest) due =
    let fired = hot_reload msg rest none in
    let idle = hot_reload msg rest due in if expired due now then msg ∷ fired else idle
hot_reload msg (stopped ∷ rest) due = []
