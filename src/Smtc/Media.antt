-- ===== src/Smtc/Media.antt =====
-- internal/smtc/media.go: what the service does when the media properties of the current session
-- change, and the retries for a cover image that is not there yet.
pub mod Handler
pub mod Events
pub mod Retries
use smtc_now_playing.Prelude.{
  ℕ, ◌+◌, ◌-◌, Bool, true, false, not, Option, none, some, List, [], ◌∷◌, ◌++◌, Text, Slice,
  slice_len, text_eq, length, ◌==◌, ◌&&◌, ◌||◌, if◌then◌else◌,
}
use smtc_now_playing.Prelude.Tests.{ltb}
use smtc_now_playing.Prelude.Int.{ℤ, pos}
use smtc_now_playing.Domain
use smtc_now_playing.Smtc.Types.{Event, info_event, escape}
use smtc_now_playing.Smtc.Async.{AsyncOp, wait_for_async, is_completed, read_nullable}
use smtc_now_playing.Smtc.State.{
  Smtc, Properties, Retry, Timer, Command, retry_thumbnail, Handled, stop_timer,
}
use smtc_now_playing.Smtc.Thumbnail.{Stream, read_thumbnail}

-- internal/smtc/constants.go
abbrev pub thumbnail_retry_max_attempts : ℕ
thumbnail_retry_max_attempts = 10

abbrev pub cmd_chan_capacity : ℕ
cmd_chan_capacity = 32

-- What WinRT answers to one `handleMediaPropertiesChanged`: the operation that
-- `TryGetMediaPropertiesAsync` starts, `none` for an error, and the cover's stream.
pub record MediaReply : Type 0 where
  pub request : Option (AsyncOp Properties)
  pub stream : Stream

abbrev pub is_nil : Slice → Bool
is_nil none = true
is_nil (some b) = false

-- The event that both places of the source build.
unfoldable pub info_of : Smtc → Text → Text → Text → Slice → Properties → Event
info_of s artist title content_type thumb props = info_event (record {
  artist = artist;
  title = title;
  thumbnail_content_type = content_type;
  thumbnail_data = thumb;
  album_title = Domain.escape props.album_title;
  album_artist = Domain.escape props.album_artist;
  playback_type = (read_nullable (pos 0) props.playback_type).0;
  source_app = s.selected_app_id;
})

unfoldable pub clear_media_info : Smtc → Handled
clear_media_info s =
    if text_eq s.current_artist [] && text_eq s.current_title [] then (s, []) else (
      record s {
        current_artist = [];
        current_title = [];
        current_properties = none;
        current_thumbnail_size = 0;
        current_thumbnail_data = none;
        current_thumbnail_content_type = [];
      },
      info_event Domain.no_info ∷ [],
    )

-- `thumbnailRetryTimer.Stop()` on a pointer that may be nil.
abbrev pub stop_retry : Option ℕ → List Timer → List Timer
stop_retry none ts = ts
stop_retry (some i) ts = stop_timer i ts

unfoldable pub schedule_thumbnail_retry : Text → Text → Properties → Smtc → Smtc
schedule_thumbnail_retry artist title props s =
    let retry : Retry = record { artist = artist; title = title; props = props } in
    let timer : Timer = record { id = s.next_timer; retry = retry } in
    record s {
      timers = timer ∷ stop_retry s.thumbnail_retry_timer s.timers;
      thumbnail_retry_timer = some s.next_timer;
      next_timer = s.next_timer + 1;
    }

-- A send on `cmdChan` that does not wait: a full channel drops the command and counts it.
unfoldable pub post : Command → Smtc → Smtc
post c s =
    if ltb (length s.cmd_chan) cmd_chan_capacity
    then record s { cmd_chan = s.cmd_chan ++ c ∷ [] }
    else record s { dropped_events = s.dropped_events + 1 }

-- A timer runs out: the function that `AfterFunc` was given posts the retry.
unfoldable pub fire_timer : Timer → Smtc → Smtc
unfolding post
fire_timer t s = post (retry_thumbnail t.retry) (record s { timers = stop_timer t.id s.timers })

-- `artistChanged`.
unfoldable pub song_changed : Smtc → Properties → Bool
song_changed s props =
    not (text_eq (escape props.artist) s.current_artist)
    || not (text_eq (escape props.title) s.current_title)

-- The properties are stored, and a new song empties the thumbnail's cache.
unfoldable pub enter_song : Smtc → Properties → Bool → Smtc
enter_song s props true = record s {
  current_properties = some props;
  current_thumbnail_size = 0;
  current_thumbnail_data = none;
  current_thumbnail_content_type = [];
}
enter_song s props false = record s { current_properties = some props }

-- A read that failed while the song is the same falls back on the cache.
unfoldable pub fall_back : Bool → Text × Slice × Smtc → Text × Slice × Smtc
fall_back changed (ct, thumb, s) =
    if not changed && is_nil thumb && not (is_nil s.current_thumbnail_data)
    then (s.current_thumbnail_content_type, s.current_thumbnail_data, s)
    else (ct, thumb, s)

-- The rest of the handler, once the thumbnail is read; `old_len` is its length before.
unfoldable pub conclude : Properties → Bool → ℕ → Text × Slice × Smtc → Handled
conclude props changed old_len (ct, thumb, s) =
    let artist = escape props.artist in
    let title = escape props.title in
    if changed && is_nil thumb
    then (
      schedule_thumbnail_retry artist title props
          (record s { current_artist = artist; current_title = title; thumbnail_retry_count = 0 }),
      [],
    )
    else if not changed && slice_len thumb == old_len
    then (s, [])
    else (
      record s { current_artist = artist; current_title = title },
      info_of s artist title ct thumb props ∷ [],
    )

unfoldable pub apply_properties : Smtc → Stream → Properties → Handled
apply_properties s r props =
    let changed = song_changed s props in
    let entered = enter_song s props changed in
    conclude props changed (slice_len entered.current_thumbnail_data)
      (fall_back changed (read_thumbnail entered r))

-- The result of the wait: a status other than completed, or a nil result, is `none`.
abbrev completed_result : AsyncOp Properties → Option Properties
completed_result op = if is_completed (wait_for_async op).1 then (wait_for_async op).0 else none

abbrev apply_result : Smtc → Stream → Option Properties → Handled
apply_result s r none = clear_media_info s
apply_result s r (some props) = apply_properties s r props

abbrev apply_request : Smtc → Stream → Option (AsyncOp Properties) → Handled
apply_request s r none = clear_media_info s
apply_request s r (some op) = apply_result s r (completed_result op)

abbrev with_session : Option ℕ → Smtc → MediaReply → Handled
with_session none s w = (s, [])
with_session (some _) s w = apply_request s w.stream w.request

unfoldable pub handle_media_properties_changed : Smtc → MediaReply → Handled
handle_media_properties_changed s w = with_session s.current_session s w

-- The rest of `retryThumbnailAndFireInfo`, once the thumbnail is read.
unfoldable pub retry_or_fire : Retry → Text × Slice × Smtc → Handled
retry_or_fire retry (ct, thumb, s) =
    if is_nil thumb && ltb s.thumbnail_retry_count (thumbnail_retry_max_attempts - 1)
    then (
      schedule_thumbnail_retry retry.artist retry.title retry.props
          (record s { thumbnail_retry_count = s.thumbnail_retry_count + 1 }),
      [],
    )
    else (s, info_of s retry.artist retry.title ct thumb retry.props ∷ [])

unfoldable pub retry_thumbnail_and_fire_info : Smtc → Stream → Retry → Handled
retry_thumbnail_and_fire_info s r retry =
    let s0 = record s { thumbnail_retry_timer = none } in
    if not (text_eq s.current_artist retry.artist) || not (text_eq s.current_title retry.title)
    then (s0, [])
    else retry_or_fire retry (read_thumbnail s0 r)
