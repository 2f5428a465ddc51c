-- ===== src/Smtc/Playback/Progress.antt =====
-- What `readTimelineAndProgress` (internal/smtc/playback.go) tells over time, and its units.
use smtc_now_playing.Prelude.{
  ℕ, ◌+◌, ◌-◌, ◌*◌, ◌/◌, ◌≤◌, ◌<◌, none, some, List, [], ◌∷◌, ◌++◌, ◌≡◌, ◌≢◌, ◌⊎◌, arith,
}
use smtc_now_playing.Prelude.Int.{ℤ, pos, int_eq_iff, ◌-ℤ◌, quot_ℤ}
use smtc_now_playing.Domain
use smtc_now_playing.Smtc.Types.{Event, progress_event}
use smtc_now_playing.Smtc.State.{Smtc, Handled}
use smtc_now_playing.Smtc.Playback.{
  Timeline, read_progress, report_progress, read_timeline_and_progress,
  handle_playback_info_changed, whole_seconds, unix_millis, windows_to_unix_epoch_ticks,
}

-- Position, duration and status are the ones that the service recorded.
abbrev pub Recorded : Smtc → Domain.ProgressData → Type 0
Recorded s d =
    (d.position ≡ s.current_position)
    × (d.duration ≡ s.current_duration)
    × (d.status ≡ s.current_status)

-- A reading that succeeds is recorded, and told exactly if it was not the recorded one already.
pub read_timeline_and_progress_tracks :
    (s : Smtc) (w : Timeline) {d : Domain.ProgressData}
    → s.current_session ≢ none
    → read_progress w ≡ some d
    → let (t, events) = read_timeline_and_progress s w in
      Recorded t d
      × ((Recorded s d × (events ≡ [])) ⊎ (¬ Recorded s d × (events ≡ progress_event d ∷ [])))
unfolding read_timeline_and_progress report_progress
read_timeline_and_progress_tracks s w {d} session read = ground (
  arith,
  int_eq_iff d.position s.current_position,
  int_eq_iff d.duration s.current_duration,
  int_eq_iff d.status s.current_status,
)

-- The event of a change of the playback info is the one that a tick would tell.
pub handle_playback_info_changed_tick :
    (s : Smtc) (w : Timeline) → handle_playback_info_changed s w ≡ read_timeline_and_progress s w
unfolding handle_playback_info_changed read_timeline_and_progress
handle_playback_info_changed_tick s w = ground arith

-- One tick after the other.
pub ticks : List Timeline → Smtc → Handled
ticks [] s = (s, [])
ticks (w ∷ ws) s =
    let (t, events) = read_timeline_and_progress s w in
    let (u, later) = ticks ws t in (u, events ++ later)

-- Progress events, each of which differs in position, duration or status from the one before; the
-- first from what the service recorded.
abbrev pub Changing : ℤ → ℤ → ℤ → List Event → Type 0
Changing position duration status [] = Unit
Changing position duration status (progress_event d ∷ es) =
    ¬ ((d.position ≡ position) × (d.duration ≡ duration) × (d.status ≡ status))
    × Changing d.position d.duration d.status es
Changing position duration status (_ ∷ es) = ⊥

-- The state and the event after a reading that is told.
abbrev told : Smtc → Domain.ProgressData → Handled
told s d = (
  record s {
    current_position = d.position;
    current_duration = d.duration;
    current_status = d.status;
  },
  progress_event d ∷ [],
)

-- A position or duration that is known is in whole seconds, rounded down, of the ticks that Windows
-- reports.
pub whole_seconds_bounds :
    (last_updated : ℤ) (ticks_read : ℕ)
    → last_updated ≢ pos 0
    → (seconds : ℕ) × (whole_seconds last_updated (pos ticks_read) ≡ pos seconds)
      × (seconds * 10000000 ≤ ticks_read)
      × (ticks_read < (seconds + 1) * 10000000)
unfolding whole_seconds quot_ℤ
whole_seconds_bounds last_updated n known =
    (n / 10000000, ground (arith, int_eq_iff last_updated (pos 0)), omega arith, omega arith)

-- A time of update from 1970 on is told in milliseconds since then: the ticks since the epoch of
-- Windows, less those up to 1970, divided by 10,000 and rounded down.
pub unix_millis_bounds :
    (ticks_read : ℕ)
    → windows_to_unix_epoch_ticks ≤ ticks_read
    → (millis : ℕ) × (unix_millis (pos ticks_read) ≡ pos millis)
      × (millis * 10000 + windows_to_unix_epoch_ticks ≤ ticks_read)
      × (ticks_read < (millis + 1) * 10000 + windows_to_unix_epoch_ticks)
unfolding unix_millis quot_ℤ ◌-ℤ◌
unix_millis_bounds n late =
    ((n - windows_to_unix_epoch_ticks) / 10000, ground arith, omega arith, omega arith)
