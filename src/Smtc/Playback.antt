-- ===== src/Smtc/Playback.antt =====
-- internal/smtc/playback.go: reading the position, duration and status of the current session.
pub mod Progress
use smtc_now_playing.Prelude.{
  ℕ, ◌+◌, ◌-◌, ◌*◌, ◌/◌, ◌≤◌, ◌<◌, Bool, true, false, not, Option, none, some, List, [], ◌∷◌, ◌&&◌,
  if◌then◌else◌, ◌≡◌, ◌≢◌, ◌⊎◌, inl, inr, refl, sym, ap, arith, Bool-cases, Option-cases,
}
use smtc_now_playing.Prelude.Chain.{◌>>=◌, ◌>>◌, check}
use smtc_now_playing.Prelude.Int.{
  ℤ, pos, int_eq, int_eq_iff, ◌-ℤ◌, quot_ℤ, ◌≤ℤ◌, pos_part, neg_part,
}
use smtc_now_playing.Prelude.Float.{Float64, float_one}
use smtc_now_playing.Domain
use smtc_now_playing.Smtc.Types.{Event, progress_event}
use smtc_now_playing.Smtc.Async.{read_nullable}
use smtc_now_playing.Smtc.State.{Smtc, Handled}

-- What WinRT answers to one `readTimelineAndProgress`: `none` stands for an error (or a nil object)
-- where the source returns on one, a nullable reference is as in `read_nullable`. Times are in ticks
-- of 100 ns.
pub record Timeline : Type 0 where
  pub timeline : Bool  -- `GetTimelineProperties`: no error, and not nil
  pub playback_info : Bool  -- `GetPlaybackInfo`: no error, and not nil
  pub status : Option ℤ
  pub position : Option ℤ
  pub last_updated : Option ℤ
  pub end_time : Option ℤ
  pub playback_rate : Option (Option Float64)
  pub is_shuffle_active : Option (Option Bool)
  pub auto_repeat_mode : Option (Option ℤ)

abbrev pub windows_to_unix_epoch_ticks : ℕ
windows_to_unix_epoch_ticks = 116444736000000000

abbrev is_zero : ℤ → Bool
is_zero t = int_eq t (pos 0)

-- `newLastUpdatedMs`, 0 for the tick 0.
unfoldable pub unix_millis : ℤ → ℤ
unix_millis ticks =
    if is_zero ticks then pos 0 else quot_ℤ (ticks -ℤ pos windows_to_unix_epoch_ticks) 10000

-- `newPosition` and `newDuration`: whole seconds, unknown without a time of update.
unfoldable pub whole_seconds : ℤ → ℤ → ℤ
whole_seconds last_updated ticks = if is_zero last_updated then pos 0 else quot_ℤ ticks 10000000

-- The default of `newPlaybackRate` is 1.0.
abbrev rate_or_one : Float64 × Bool → Float64
rate_or_one (v, true) = v
rate_or_one (v, false) = float_one

abbrev shuffle_or_nil : Bool × Bool → Option Bool
shuffle_or_nil (v, true) = some v
shuffle_or_nil (v, false) = none

abbrev repeat_or_zero : ℤ × Bool → ℤ
repeat_or_zero (v, true) = v
repeat_or_zero (v, false) = pos 0

-- Everything before the lock: `none` where the source returns early.
unfoldable pub read_progress : Timeline → Option Domain.ProgressData
read_progress w = do
  check w.timeline
  check w.playback_info
  status ← w.status
  position ← w.position
  last_updated ← w.last_updated
  end_time ← w.end_time
  some (record {
    position = whole_seconds last_updated position;
    duration = whole_seconds last_updated end_time;
    status = status;
    playback_rate = rate_or_one (read_nullable 0 w.playback_rate);
    is_shuffle_active = shuffle_or_nil (read_nullable false w.is_shuffle_active);
    auto_repeat_mode = repeat_or_zero (read_nullable (pos 0) w.auto_repeat_mode);
    last_updated_time = unix_millis last_updated;
  })

-- The change detection, under the lock.
unfoldable pub report_progress : Smtc → Domain.ProgressData → Handled
report_progress s d =
    if int_eq d.position s.current_position
      && int_eq d.duration s.current_duration
      && int_eq d.status s.current_status
    then (s, [])
    else (
      record s {
        current_position = d.position;
        current_duration = d.duration;
        current_status = d.status;
      },
      progress_event d ∷ [],
    )

abbrev report_read : Smtc → Option Domain.ProgressData → Handled
report_read s none = (s, [])
report_read s (some d) = report_progress s d

abbrev with_session : Option ℕ → Smtc → Timeline → Handled
with_session none s w = (s, [])
with_session (some _) s w = report_read s (read_progress w)

unfoldable pub read_timeline_and_progress : Smtc → Timeline → Handled
read_timeline_and_progress s w = with_session s.current_session s w

abbrev pub guarded : Option ℕ → Smtc → Timeline → Handled
guarded none s w = (s, [])
guarded (some _) s w = read_timeline_and_progress s w

unfoldable pub handle_playback_info_changed : Smtc → Timeline → Handled
handle_playback_info_changed s w = guarded s.current_session s w
