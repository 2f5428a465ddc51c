-- ===== src/Domain.antt =====
-- internal/domain/domain.go: the data that the parts of the program exchange. A Go string is the
-- list of its runes, and a nil pointer is `none`.
pub mod Escape
pub mod Equal
use smtc_now_playing.Prelude.{
  ℕ, Bool, true, false, Option, none, some, Text, Slice, slice_len, text_eq, ◌==◌, ◌&&◌, [], ◌∷◌,
  ◌++◌, if◌then◌else◌,
}
use smtc_now_playing.Prelude.Int.{ℤ, pos, int_eq}
use smtc_now_playing.Prelude.Float.{Float64, float_eq}

pub data PlaybackStatus : Type 0 where
  closed opened changing stopped playing paused : PlaybackStatus

-- The numbers that the constants `StatusClosed` to `StatusPaused` stand for.
unfoldable pub status_code : PlaybackStatus → ℤ
status_code closed = pos 0
status_code opened = pos 1
status_code changing = pos 2
status_code stopped = pos 3
status_code playing = pos 4
status_code paused = pos 5

pub record InfoData : Type 0 where
  pub artist : Text
  pub title : Text
  pub thumbnail_content_type : Text
  pub thumbnail_data : Slice
  pub album_title : Text
  pub album_artist : Text
  pub playback_type : ℤ
  pub source_app : Text

unfoldable pub info_equal : InfoData → Option InfoData → Bool
info_equal i none = false
info_equal i (some other) =
    text_eq i.artist other.artist
    && text_eq i.title other.title
    && text_eq i.thumbnail_content_type other.thumbnail_content_type
    && slice_len i.thumbnail_data == slice_len other.thumbnail_data
    && text_eq i.album_title other.album_title
    && text_eq i.album_artist other.album_artist
    && int_eq i.playback_type other.playback_type
    && text_eq i.source_app other.source_app

-- The zero value `InfoData{}`.
abbrev pub no_info : InfoData
no_info = record {
  artist = [];
  title = [];
  thumbnail_content_type = [];
  thumbnail_data = none;
  album_title = [];
  album_artist = [];
  playback_type = pos 0;
  source_app = [];
}

pub record ProgressData : Type 0 where
  pub position : ℤ
  pub duration : ℤ
  pub status : ℤ
  pub playback_rate : Float64
  pub is_shuffle_active : Option Bool
  pub auto_repeat_mode : ℤ
  pub last_updated_time : ℤ

abbrev pub bool_eq : Bool → Bool → Bool
bool_eq true b = b
bool_eq false true = false
bool_eq false false = true

-- `shuffleEqual`: both pointers are nil, or neither is and the values agree.
abbrev pub shuffle_equal : Option Bool → Option Bool → Bool
shuffle_equal none none = true
shuffle_equal (some a) (some b) = bool_eq a b
shuffle_equal _ _ = false

unfoldable pub progress_equal : ProgressData → Option ProgressData → Bool
progress_equal p none = false
progress_equal p (some other) =
    int_eq p.position other.position
    && int_eq p.duration other.duration
    && int_eq p.status other.status
    && float_eq p.playback_rate other.playback_rate
    && shuffle_equal p.is_shuffle_active other.is_shuffle_active
    && int_eq p.auto_repeat_mode other.auto_repeat_mode
    && int_eq p.last_updated_time other.last_updated_time

pub record SessionInfo : Type 0 where
  pub app_id : Text
  pub name : Text
  pub source_app_id : Text

pub record ControlCapabilities : Type 0 where
  pub is_play_enabled : Bool
  pub is_pause_enabled : Bool
  pub is_stop_enabled : Bool
  pub is_next_enabled : Bool
  pub is_previous_enabled : Bool
  pub is_seek_enabled : Bool
  pub is_shuffle_enabled : Bool
  pub is_repeat_enabled : Bool

-- What one round of the loop of `Escape` appends.
escape_rune : ℕ → Text
escape_rune c =
    if c == b'\n'
    then b'\\' ∷ b'n' ∷ []
    else if c == b'\r'
    then b'\\' ∷ b'r' ∷ []
    else if c == b'\t'
    then b'\\' ∷ b't' ∷ []
    else if c == b'\\'
    then b'\\' ∷ b'\\' ∷ []
    else if c == 11
    then b'\\' ∷ b'v' ∷ []
    else if c == 8
    then b'\\' ∷ b'b' ∷ []
    else if c == 12
    then b'\\' ∷ b'f' ∷ []
    else if c == 7
    then b'\\' ∷ b'a' ∷ []
    else c ∷ []

escape_loop : Text → Text → Text
escape_loop result [] = result
escape_loop result (c ∷ s) = escape_loop (result ++ escape_rune c) s

unfoldable pub escape : Text → Text
unfolding escape_loop escape_rune
escape s = escape_loop [] s
