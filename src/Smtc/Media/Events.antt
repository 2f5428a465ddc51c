-- ===== src/Smtc/Media/Events.antt =====
-- When `handleMediaPropertiesChanged` (internal/smtc/media.go) speaks, and what it arms.
use smtc_now_playing.Prelude.{
  true, false, none, some, [], ◌∷◌, Text, text_eq_refl, ◌≡◌, refl, arith, ◌∙◌, sym, ◌⊎◌,
}
use smtc_now_playing.Smtc.Types.{escape}
use smtc_now_playing.Smtc.State.{Smtc, Properties, Armed}
use smtc_now_playing.Smtc.Thumbnail.{
  Stream, read_thumbnail, read_thumbnail-none, read_thumbnail_frame, stream_cover,
  read_thumbnail_fresh, read_thumbnail_again, read_thumbnail_fresh, read_thumbnail_again,
}
use smtc_now_playing.Smtc.Media.{
  info_of, song_changed, enter_song, fall_back, conclude, apply_properties,
  schedule_thumbnail_retry,
}

-- A new song whose cover cannot be read yet: nothing is told, the song is recorded, and a retry for
-- it is armed with the count at 0.
pub new_song_without_cover :
    (s : Smtc) (r : Stream) (props : Properties)
    → song_changed s props ≡ true
    → stream_cover r ≡ none
    → let (t, events) = apply_properties s r props in
      (events ≡ [])
      × (t.current_artist ≡ escape props.artist)
      × (t.current_title ≡ escape props.title)
      × (t.thumbnail_retry_count ≡ 0)
      × Armed t (record { artist = escape props.artist; title = escape props.title; props = props })
unfolding apply_properties conclude fall_back schedule_thumbnail_retry enter_song
new_song_without_cover s r props changed missing =
    let e = enter_song s props true in
    let failed = read_thumbnail_fresh e r (ground arith) refl ∙ missing in
    rw (changed, failed) (refl, refl, refl, refl, (_, _, refl))

-- A new song whose cover is read: one event tells the song with the bytes of that stream, whatever
-- the cache held of the song before.
pub new_song_with_cover :
    (s : Smtc) (r : Stream) (props : Properties) {b : Text}
    → song_changed s props ≡ true
    → stream_cover r ≡ some b
    → (ct : Text) × ((apply_properties s r props).1
        ≡ info_of s (escape props.artist) (escape props.title) ct (some b) props ∷ [])
unfolding apply_properties conclude fall_back enter_song info_of
new_song_with_cover s r props changed read =
    let e = enter_song s props true in
    let bytes = read_thumbnail_fresh e r (ground arith) refl ∙ read in
    ((read_thumbnail e r).0, ground (arith, bytes, read_thumbnail_frame e r))

-- After the properties are applied they are the service's song.
song_recorded :
    (s : Smtc) (r : Stream) (props : Properties)
    → song_changed (apply_properties s r props).0 props ≡ false
unfolding apply_properties conclude fall_back enter_song schedule_thumbnail_retry song_changed
song_recorded s r props = ground (
  arith,
  read_thumbnail_frame (enter_song s props (song_changed s props)) r,
  text_eq_refl (escape props.artist),
  text_eq_refl (escape props.title),
)

-- The cache and the properties after the handler are those after the read.
applied_cache :
    (s : Smtc) (r : Stream) (props : Properties)
    → let t = (apply_properties s r props).0 in
      let u = (read_thumbnail (enter_song s props (song_changed s props)) r).2 in
      (t.current_thumbnail_data ≡ u.current_thumbnail_data)
      × (t.current_thumbnail_size ≡ u.current_thumbnail_size)
      × (u.current_properties ≡ some props)
unfolding apply_properties conclude fall_back enter_song schedule_thumbnail_retry
applied_cache s r props =
    ground (arith, read_thumbnail_frame (enter_song s props (song_changed s props)) r)

-- With the song unchanged and a read that gives nothing or what the cache holds, nothing is told.
unchanged_is_silent :
    (t : Smtc) (r : Stream) (props : Properties)
    → song_changed t props ≡ false
    → let read = (read_thumbnail (enter_song t props false) r).1 in
      (read ≡ none) ⊎ (read ≡ t.current_thumbnail_data) → (apply_properties t r props).1 ≡ []
unfolding apply_properties conclude fall_back enter_song
unchanged_is_silent t r props same again =
    ground (arith, read_thumbnail-none (enter_song t props false) r)

-- The same properties and the same cover, reported twice, are told at most once: the second call
-- tells nothing.
pub apply_properties_twice :
    (s : Smtc) (r : Stream) (props : Properties)
    → (apply_properties (apply_properties s r props).0 r props).1 ≡ []
unfolding enter_song
apply_properties_twice s r props =
    let t = (apply_properties s r props).0 in
    let (bytes, size, known) = applied_cache s r props in
    unchanged_is_silent t r props (song_recorded s r props) (
      read_thumbnail_again (enter_song s props (song_changed s props)) (enter_song t props false) r
        (sym known) size bytes)
