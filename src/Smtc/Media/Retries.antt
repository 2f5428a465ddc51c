-- ===== src/Smtc/Media/Retries.antt =====
-- The retries for a cover that is not there yet (internal/smtc/media.go): each retry either tells
-- the song or arms the next one, and the tenth tells it in any case.
use smtc_now_playing.Prelude.{
  suc, ◌-◌, ◌<◌, none, some, [], ◌∷◌, Text, Slice, text_eq_iff, ◌≡◌, refl, arith, inl, inr,
  Option-cases, Bool-cases, ◌⊎◌, ◌∙◌, sym,
}
use smtc_now_playing.Prelude.Tests.{ltb}
use smtc_now_playing.Smtc.State.{Smtc, Properties, Retry, Handled, Armed}
use smtc_now_playing.Smtc.Thumbnail.{
  Stream, read_thumbnail, read_thumbnail-none, read_thumbnail-some, read_thumbnail_frame,
}
use smtc_now_playing.Smtc.Media.{
  info_of, schedule_thumbnail_retry, retry_or_fire, retry_thumbnail_and_fire_info,
  thumbnail_retry_max_attempts,
}

abbrev pub SameSong : Smtc → Retry → Type 0
SameSong s retry = (s.current_artist ≡ retry.artist) × (s.current_title ≡ retry.title)

-- A retry for a song that is no longer current tells nothing and changes nothing but the pointer to
-- the timer.
pub stale_retry :
    (s : Smtc) (r : Stream) (retry : Retry)
    → ¬ SameSong s retry
    → retry_thumbnail_and_fire_info s r retry ≡ (record s { thumbnail_retry_timer = none }, [])
unfolding retry_thumbnail_and_fire_info
stale_retry s r retry stale = ground (
  arith,
  text_eq_iff s.current_artist retry.artist,
  text_eq_iff s.current_title retry.title,
  λ (p : s.current_artist ≡ retry.artist) (q : s.current_title ≡ retry.title). stale (p, q),
)

-- The song is told, with the cover that the cache then holds.
abbrev pub Told : Smtc → Retry → Handled → Type 0
Told s retry (t, events) =
    (ct : Text) × (events
      ≡ info_of s retry.artist retry.title ct t.current_thumbnail_data retry.props ∷ [])

-- The retry is armed once more, and counted.
abbrev pub Rearmed : Smtc → Retry → Handled → Type 0
Rearmed s retry (t, events) =
    (events ≡ [])
    × SameSong t retry
    × (t.current_thumbnail_data ≡ none)
    × (t.thumbnail_retry_count ≡ suc s.thumbnail_retry_count)
    × (t.selected_app_id ≡ s.selected_app_id)
    × Armed t retry
    × (s.thumbnail_retry_count < thumbnail_retry_max_attempts - 1)

-- `u` is `s` but for the cache and the timer's pointer.
abbrev Kept : Smtc → Smtc → Type 0
Kept s u =
    (u.current_artist ≡ s.current_artist)
    × (u.current_title ≡ s.current_title)
    × (u.thumbnail_retry_count ≡ s.thumbnail_retry_count)
    × (u.selected_app_id ≡ s.selected_app_id)

retry_or_fire_cases :
    (s u : Smtc) (retry : Retry) (ct : Text) (thumb : Slice)
    → SameSong s retry
    → Kept s u
    → u.current_thumbnail_data ≡ thumb
    → Told s retry (retry_or_fire retry (ct, thumb, u))
      ⊎ Rearmed s retry (retry_or_fire retry (ct, thumb, u))
unfolding retry_or_fire schedule_thumbnail_retry info_of
retry_or_fire_cases s u retry ct none (artist, title) (a, t, n, app) cached =
    elim (Bool-cases (ltb u.thumbnail_retry_count (thumbnail_retry_max_attempts - 1))) [
      | inl left ↦ rw left (
          inr (
            refl,
            (a ∙ artist, t ∙ title),
            cached,
            ground arith,
            app,
            (u.next_timer, _, refl),
            ground arith,
          ))
      | inr spent ↦ rw (spent, cached, app) (inl (ct, refl))
    ]
retry_or_fire_cases s u retry ct (some b) same (a, t, n, app) cached =
    inl (ct, rw (cached, app) refl)

-- What a read returns is what the cache holds then, if the cache was empty.
read_cached :
    (s : Smtc) (r : Stream)
    → s.current_thumbnail_data ≡ none
    → (read_thumbnail s r).2.current_thumbnail_data ≡ (read_thumbnail s r).1
read_cached s r empty = elim (Option-cases (read_thumbnail s r).1) [
  | inl failed ↦ rw (read_thumbnail-none s r failed, failed) empty
  | inr (b, read) ↦ (read_thumbnail-some s r read).0 ∙ sym read
]

read-Kept : (s : Smtc) (r : Stream) → Kept s (read_thumbnail s r).2
read-Kept s r = ground (arith, read_thumbnail_frame s r)

-- One retry of the current song, with nothing in the cache, tells the song or arms the next retry,
-- and arms none after the tenth attempt.
pub retry_cases :
    (s : Smtc) (r : Stream) (retry : Retry)
    → SameSong s retry
    → s.current_thumbnail_data ≡ none
    → Told s retry (retry_thumbnail_and_fire_info s r retry)
      ⊎ Rearmed s retry (retry_thumbnail_and_fire_info s r retry)
unfolding retry_thumbnail_and_fire_info
retry_cases s r retry (artist, title) empty =
    let s0 = record s { thumbnail_retry_timer = none } in
    let (ct, thumb, u) = read_thumbnail s0 r in
    rw
      (
        (text_eq_iff s.current_artist retry.artist).1 artist,
        (text_eq_iff s.current_title retry.title).1 title,
      )
      (retry_or_fire_cases s u retry ct thumb (artist, title) (read-Kept s0 r)
        (read_cached s0 r empty))

-- The message depends on the selected application alone.
pub info_of-app :
    (t s : Smtc) (artist title ct : Text) (thumb : Slice) (props : Properties)
    → t.selected_app_id ≡ s.selected_app_id
    → info_of t artist title ct thumb props ≡ info_of s artist title ct thumb props
unfolding info_of
info_of-app t s artist title ct thumb props app = rw app refl
