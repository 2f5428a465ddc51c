-- ===== src/Smtc/State.antt =====
-- internal/smtc/smtc.go: the fields of `Smtc` that its handlers read and write, and the timers that
-- Go's runtime keeps for it. The subscribers are in `Subscribers`.
use smtc_now_playing.Prelude.{
  Bool, ℕ, Option, none, List, [], ◌∷◌, Text, Slice, ◌==◌, if◌then◌else◌, ◌≡◌,
}
use smtc_now_playing.Prelude.Int.{ℤ, pos}
use smtc_now_playing.Smtc.Types.{SessionInfo, Event, status_closed}

-- What the getters of a media properties object return; a getter that fails returns the zero value.
pub record Properties : Type 0 where
  pub artist : Text
  pub title : Text
  pub album_title : Text
  pub album_artist : Text
  pub playback_type : Option (Option ℤ)  -- a nullable reference

-- The arguments of a call of `retryThumbnailAndFireInfo`.
pub record Retry : Type 0 where
  pub artist : Text
  pub title : Text
  pub props : Properties

-- A one-shot timer that has not fired and was not stopped.
pub record Timer : Type 0 where
  pub id : ℕ
  pub retry : Retry

-- internal/smtc/control.go
-- `ControlAction`, with the numbers that have no name.
pub data ControlAction : Type 0 where
  control_play control_pause control_stop control_toggle_play_pause : ControlAction
  control_skip_next control_skip_previous control_seek control_shuffle : ControlAction
  control_repeat : ControlAction
  control_other : ℤ → ControlAction

pub record ControlCommand : Type 0 where
  pub action : ControlAction
  pub seek_position : ℤ  -- int64, in milliseconds
  pub shuffle_active : Bool
  pub repeat_mode : ℤ

-- A function on `cmdChan`.
pub data Command : Type 0 where
  enumerate_sessions : Command
  media_properties_changed : Command
  playback_info_changed : Command
  select_device : Text → Command
  retry_thumbnail : Retry → Command
  control : ControlCommand → Command
  capabilities : Command

pub record Smtc : Type 0 where
  pub sessions : List SessionInfo
  pub session_objects : List ℕ  -- the WinRT objects, by number
  pub selected_app_id : Text
  pub current_session : Option ℕ
  pub media_token : Option ℕ  -- `mediaPropertiesChangedToken`, `none` for the zero token
  pub playback_token : Option ℕ  -- `playbackInfoChangedToken`
  pub current_artist : Text
  pub current_title : Text
  pub current_status : ℤ
  pub current_thumbnail_size : ℕ
  pub current_thumbnail_content_type : Text
  pub current_thumbnail_data : Slice
  pub current_position : ℤ
  pub current_duration : ℤ
  pub current_properties : Option Properties
  pub thumbnail_retry_timer : Option ℕ  -- a pointer to a timer, by its number
  pub thumbnail_retry_count : ℕ
  pub timers : List Timer
  pub next_timer : ℕ
  pub cmd_chan : List Command
  pub dropped_events : ℕ

-- `New`, with the options' initial device.
unfoldable pub new : Text → Smtc
new initial_device = record {
  sessions = [];
  session_objects = [];
  selected_app_id = initial_device;
  current_session = none;
  media_token = none;
  playback_token = none;
  current_artist = [];
  current_title = [];
  current_status = status_closed;
  current_thumbnail_size = 0;
  current_thumbnail_content_type = [];
  current_thumbnail_data = none;
  current_position = pos 0;
  current_duration = pos 0;
  current_properties = none;
  thumbnail_retry_timer = none;
  thumbnail_retry_count = 0;
  timers = [];
  next_timer = 0;
  cmd_chan = [];
  dropped_events = 0;
}

-- A handler's new state and the events for `fanOut`.
abbrev pub Handled : Type 0
Handled = Smtc × List Event

-- `timer.Stop()`: a timer that has fired is no longer in the list.
unfoldable pub stop_timer : ℕ → List Timer → List Timer
stop_timer i [] = []
stop_timer i (t ∷ ts) = if t.id == i then stop_timer i ts else t ∷ stop_timer i ts

-- The newest of the running timers will post this retry.
abbrev pub Armed : Smtc → Retry → Type 0
Armed s retry =
    (i : ℕ) × (older : List Timer) × (s.timers ≡ record { id = i; retry = retry } ∷ older)
