-- ===== src/Smtc/Types.antt =====
-- internal/smtc/types.go: the data of the service, and its copies into the types of the domain.
use smtc_now_playing.Prelude.{
  ℕ, Bool, Option, none, some, List, [], ◌∷◌, ◌++◌, map, Text, Slice, copy_slice, ◌==◌,
  if◌then◌else◌,
}
use smtc_now_playing.Prelude.Int.{ℤ, pos}
use smtc_now_playing.Prelude.Float.{Float64}
use smtc_now_playing.Domain

-- `StatusClosed` to `StatusPaused`.
abbrev pub status_closed : ℤ
status_closed = pos 0

abbrev pub status_opened : ℤ
status_opened = pos 1

abbrev pub status_changing : ℤ
status_changing = pos 2

abbrev pub status_stopped : ℤ
status_stopped = pos 3

abbrev pub status_playing : ℤ
status_playing = pos 4

abbrev pub status_paused : ℤ
status_paused = pos 5

pub record InfoData : Type 0 where
  pub artist : Text
  pub title : Text
  pub thumbnail_content_type : Text
  pub thumbnail_data : Slice
  pub album_title : Text
  pub album_artist : Text
  pub playback_type : ℤ
  pub source_app : Text

-- The zero value `InfoData{}`.
abbrev pub no_info : InfoData
no_info = record {
  artist = [];
  title = [];
  thumbnail_content_type = [];
  thumbnail_data = none;
  album_title = [];
  album_artist = [];
  playback_type = pos 0;
  source_app = [];
}

pub record ProgressData : Type 0 where
  pub position : ℤ
  pub duration : ℤ
  pub status : ℤ
  pub playback_rate : Float64
  pub is_shuffle_active : Option Bool
  pub auto_repeat_mode : ℤ
  pub last_updated_time : ℤ

-- `ProgressData{Status: status}`.
abbrev pub progress_with_status : ℤ → ProgressData
progress_with_status s = record {
  position = pos 0;
  duration = pos 0;
  status = s;
  playback_rate = 0;
  is_shuffle_active = none;
  auto_repeat_mode = pos 0;
  last_updated_time = pos 0;
}

pub record SessionInfo : Type 0 where
  pub app_id : Text
  pub name : Text
  pub source_app_id : Text

-- The sealed interface `Event`, one constructor for each type that implements it.
pub data Event : Type 0 where
  info_event : Domain.InfoData → Event
  progress_event : Domain.ProgressData → Event
  sessions_changed_event : Option (List Domain.SessionInfo) → Event
  device_changed_event : Text → Event

unfoldable pub info_data_to_domain : InfoData → Domain.InfoData
info_data_to_domain d = record {
  artist = d.artist;
  title = d.title;
  thumbnail_content_type = d.thumbnail_content_type;
  thumbnail_data = copy_slice d.thumbnail_data;
  album_title = d.album_title;
  album_artist = d.album_artist;
  playback_type = d.playback_type;
  source_app = d.source_app;
}

unfoldable pub progress_data_to_domain : ProgressData → Domain.ProgressData
progress_data_to_domain d = record {
  position = d.position;
  duration = d.duration;
  status = d.status;
  playback_rate = d.playback_rate;
  is_shuffle_active = d.is_shuffle_active;
  auto_repeat_mode = d.auto_repeat_mode;
  last_updated_time = d.last_updated_time;
}

unfoldable pub session_info_to_domain : SessionInfo → Domain.SessionInfo
session_info_to_domain d = record {
  app_id = d.app_id;
  name = d.name;
  source_app_id = d.source_app_id;
}

-- An empty list is copied to nil.
unfoldable pub session_infos_to_domain : List SessionInfo → Option (List Domain.SessionInfo)
session_infos_to_domain [] = none
session_infos_to_domain (x ∷ xs) = some (map session_info_to_domain (x ∷ xs))

-- The service's own copy of `Escape`.
escape_rune : ℕ → Text
escape_rune c =
    if c == b'\n'
    then b'\\' ∷ b'n' ∷ []
    else if c == b'\r'
    then b'\\' ∷ b'r' ∷ []
    else if c == b'\t'
    then b'\\' ∷ b't' ∷ []
    else if c == b'\\'
    then b'\\' ∷ b'\\' ∷ []
    else if c == 11
    then b'\\' ∷ b'v' ∷ []
    else if c == 8
    then b'\\' ∷ b'b' ∷ []
    else if c == 12
    then b'\\' ∷ b'f' ∷ []
    else if c == 7
    then b'\\' ∷ b'a' ∷ []
    else c ∷ []

escape_loop : Text → Text → Text
escape_loop result [] = result
escape_loop result (c ∷ s) = escape_loop (result ++ escape_rune c) s

unfoldable pub escape : Text → Text
unfolding escape_loop escape_rune
escape s = escape_loop [] s
