-- ===== src/Domain/Equal.antt =====
-- `Equal` of `InfoData` and `ProgressData` (internal/domain/domain.go).
use smtc_now_playing.Prelude.{Bool, true, Option, some, slice_len, text_eq_iff, ◌≡◌, ◌↔◌, arith}
use smtc_now_playing.Prelude.Int.{int_eq_iff}
use smtc_now_playing.Prelude.Float.{float_eq}
use smtc_now_playing.Domain.{InfoData, ProgressData, info_equal, progress_equal, shuffle_equal}

-- The two values agree but for the bytes of the thumbnail, of which only the number counts.
pub record SameInfo (i j : InfoData) : Type 0 where
  pub artist : i.artist ≡ j.artist
  pub title : i.title ≡ j.title
  pub content_type : i.thumbnail_content_type ≡ j.thumbnail_content_type
  pub size : slice_len i.thumbnail_data ≡ slice_len j.thumbnail_data
  pub album_title : i.album_title ≡ j.album_title
  pub album_artist : i.album_artist ≡ j.album_artist
  pub playback_type : i.playback_type ≡ j.playback_type
  pub source_app : i.source_app ≡ j.source_app

-- `InfoData.Equal` holds exactly when every field agrees, the thumbnail being compared by its
-- length alone.
pub info_equal_iff : (i j : InfoData) → (info_equal i (some j) ≡ true) ↔ SameInfo i j
unfolding info_equal
info_equal_iff i j = ground (
  arith,
  text_eq_iff i.artist j.artist,
  text_eq_iff i.title j.title,
  text_eq_iff i.thumbnail_content_type j.thumbnail_content_type,
  text_eq_iff i.album_title j.album_title,
  text_eq_iff i.album_artist j.album_artist,
  text_eq_iff i.source_app j.source_app,
  int_eq_iff i.playback_type j.playback_type,
)

pub record SameProgress (p q : ProgressData) : Type 0 where
  pub position : p.position ≡ q.position
  pub duration : p.duration ≡ q.duration
  pub status : p.status ≡ q.status
  pub rate : float_eq p.playback_rate q.playback_rate ≡ true
  pub shuffle : p.is_shuffle_active ≡ q.is_shuffle_active
  pub repeat : p.auto_repeat_mode ≡ q.auto_repeat_mode
  pub updated : p.last_updated_time ≡ q.last_updated_time

shuffle_equal_iff : (a b : Option Bool) → (shuffle_equal a b ≡ true) ↔ (a ≡ b)
shuffle_equal_iff a b = ground arith

-- `ProgressData.Equal` holds exactly when every field agrees: the shuffle pointers by what they
-- point to, the rates by the `==` of floats, by which a NaN rate is never equal to itself.
pub progress_equal_iff :
    (p q : ProgressData) → (progress_equal p (some q) ≡ true) ↔ SameProgress p q
unfolding progress_equal
progress_equal_iff p q = ground (
  arith,
  int_eq_iff p.position q.position,
  int_eq_iff p.duration q.duration,
  int_eq_iff p.status q.status,
  shuffle_equal_iff p.is_shuffle_active q.is_shuffle_active,
  int_eq_iff p.auto_repeat_mode q.auto_repeat_mode,
  int_eq_iff p.last_updated_time q.last_updated_time,
)
