-- ===== src/Smtc/Sessions/Switching.antt =====
-- Which session `applySessionList` and `selectDevice` (internal/smtc/session.go) watch afterwards.
use smtc_now_playing.Prelude.{
  take, ℕ, zero, suc, ◌+◌, ◌≤◌, ◌<◌, Option, none, some, List, [], ◌∷◌, ◌++◌, Text, All, text_eq,
  text_eq_iff, length, get_elem?, ◌&&◌, ◌≡◌, ◌≢◌, ◌⊎◌, inl, inr, refl, sym, ◌∙◌, arith, Bool-cases,
}
use native.Mathlib.Nat.{zero-add}
use smtc_now_playing.Prelude.Tests.{ltb}
use smtc_now_playing.Smtc.Types.{SessionInfo, Event, device_changed_event}
use smtc_now_playing.Smtc.State.{Smtc, Properties, Handled}
use smtc_now_playing.Smtc.Thumbnail.{Stream, read_thumbnail_frame}
use smtc_now_playing.Smtc.Media.{
  MediaReply, handle_media_properties_changed, apply_properties, clear_media_info, conclude,
  fall_back, enter_song, song_changed, schedule_thumbnail_retry,
}
use smtc_now_playing.Smtc.Media.Handler.{handle_media_properties_changed_elim}
use smtc_now_playing.Smtc.Sessions.{
  SwitchReply, switch_to_session, leave, subscribe_property_events, unsubscribe_property_events,
  selectable, select_device,
}

-- The fields that say what is watched are the same.
pub record SameTarget (s t : Smtc) : Type 0 where
  pub sessions : t.sessions ≡ s.sessions
  pub objects : t.session_objects ≡ s.session_objects
  pub selected : t.selected_app_id ≡ s.selected_app_id
  pub current : t.current_session ≡ s.current_session
  pub media : t.media_token ≡ s.media_token
  pub playback : t.playback_token ≡ s.playback_token

apply_properties-SameTarget :
    (s : Smtc) (r : Stream) (props : Properties) → SameTarget s (apply_properties s r props).0
unfolding apply_properties conclude fall_back enter_song schedule_thumbnail_retry
apply_properties-SameTarget s r props =
    ground (arith, read_thumbnail_frame (enter_song s props (song_changed s props)) r)

clear_media_info-SameTarget : (s : Smtc) → SameTarget s (clear_media_info s).0
unfolding clear_media_info
clear_media_info-SameTarget s = ground arith

-- A change of the media properties leaves the choice of the session alone.
pub handle_media_properties_changed-SameTarget :
    (s : Smtc) (w : MediaReply) → SameTarget s (handle_media_properties_changed s w).0
handle_media_properties_changed-SameTarget s w =
    handle_media_properties_changed_elim (λ h. SameTarget s h.0) s w (ground arith)
      (clear_media_info-SameTarget s) (apply_properties-SameTarget s w.stream)

-- The service watches the session at an index: its object is current, the tokens are those of its
-- registrations, and its application is told last.
pub record Watches (index : ℕ) (sess : SessionInfo) (s : Smtc) (w : SwitchReply) (h : Handled)
    : Type 0 where
  pub current : h.0.current_session ≡ get_elem? s.session_objects index
  pub present : h.0.current_session ≢ none
  pub media : h.0.media_token ≡ w.media_token
  pub playback : h.0.playback_token ≡ w.playback_token
  pub kept : h.0.sessions ≡ s.sessions
  pub selected : h.0.selected_app_id ≡ s.selected_app_id
  pub before : List Event
  pub told : h.1 ≡ before ++ device_changed_event sess.app_id ∷ []

get_elem?-lt {ℓ} :
    {A : Type ℓ} (xs : List A) (i : ℕ) → i < length xs → (x : A) × (get_elem? xs i ≡ some x)
get_elem?-lt [] i h = absurd (omega arith)
get_elem?-lt (x ∷ xs) zero h = (x, refl)
get_elem?-lt (x ∷ xs) (suc i) h = get_elem?-lt xs i (omega arith)

leave-sessions : (c : Option ℕ) (s : Smtc) → (leave c s).sessions ≡ s.sessions
unfolding unsubscribe_property_events
leave-sessions none s = refl
leave-sessions (some _) s = refl

leave-selected : (c : Option ℕ) (s : Smtc) → (leave c s).selected_app_id ≡ s.selected_app_id
unfolding unsubscribe_property_events
leave-selected none s = refl
leave-selected (some _) s = refl

switch_to_session-Watches :
    (index : ℕ) (s : Smtc) (w : SwitchReply) (o : ℕ) (sess : SessionInfo)
    → get_elem? s.session_objects index ≡ some o
    → get_elem? s.sessions index ≡ some sess
    → Watches index sess s w (switch_to_session index s w)
unfolding switch_to_session subscribe_property_events
switch_to_session-Watches index s w o sess object found =
    let left = leave s.current_session s in
    let entered = record left {
      current_session = some o;
      media_token = w.media_token;
      playback_token = w.playback_token;
    } in
    let frame = handle_media_properties_changed-SameTarget entered w.media in
    let named : get_elem? left.sessions index ≡ some sess =
      rw (leave-sessions s.current_session s) found in
    rw (object, named)
      (record {
        current = frame.current ∙ sym object;
        present = ground arith;
        media = frame.media;
        playback = frame.playback;
        kept = frame.sessions ∙ leave-sessions s.current_session s;
        selected = frame.selected ∙ leave-selected s.current_session s;
        before = (handle_media_properties_changed entered w.media).1;
        told = refl;
      })

-- A session of the application, and none before it is.
abbrev pub FirstOf : Text → List SessionInfo → ℕ → SessionInfo → Type 0
FirstOf app_id sessions index sess =
    (sess.app_id ≡ app_id) × All (λ x. x.app_id ≢ app_id) (take index sessions)

-- The choice: the first session of the selected application; or the first, if none is selected or the
-- selected one is not there.
abbrev pub Chosen : Text → List SessionInfo → ℕ → SessionInfo → Type 0
Chosen app_id sessions index sess =
    (get_elem? sessions index ≡ some sess)
    × (FirstOf app_id sessions index sess
        ⊎ ((index ≡ 0) × ((app_id ≡ []) ⊎ All (λ x. x.app_id ≢ app_id) sessions)))

selectable-some :
    (app_id : Text) (xs : List SessionInfo) (n i : ℕ)
    → ((selectable app_id xs n i ≡ none) × (length xs + i ≤ n → All (λ x. x.app_id ≢ app_id) xs))
      ⊎ ((j : ℕ) × (sess : SessionInfo) × (selectable app_id xs n i ≡ some (i + j))
          × (i + j < n)
          × (get_elem? xs j ≡ some sess)
          × FirstOf app_id xs j sess)
unfolding selectable
selectable-some app_id [] n i = inl (refl, (λ h. tt))
selectable-some app_id (x ∷ xs) n i = elim (Bool-cases (text_eq x.app_id app_id && ltb i n)) [
  | inl here ↦ inr (
    0,
    x,
    rw here (ground arith),
    ground arith,
    refl,
    (ground (arith, text_eq_iff x.app_id app_id), tt),
  )
  | inr other ↦ elim (selectable-some app_id xs n (i + 1)) [
    | inl (absent, none_has) ↦ inl (
      rw (other, absent) refl,
      (λ h. (ground (arith, text_eq_iff x.app_id app_id), none_has (omega arith))),
    )
    | inr (j, sess, found, within, there, is_it) ↦ inr (
      suc j,
      sess,
      rw (other, found) (ground arith),
      omega arith,
      there,
      (is_it.0, (ground (arith, text_eq_iff x.app_id app_id), is_it.1)),
    )
  ]
]

-- `selectDevice` records the application in any case. It watches the first session with that id; if
-- the list holds none, nothing else changes and nothing is told.
pub select_device-Watches :
    (app_id : Text) (s : Smtc) (w : SwitchReply)
    → length s.sessions ≡ length s.session_objects
    → let named = record s { selected_app_id = app_id } in
      ((select_device app_id s w ≡ (named, [])) × All (λ x. x.app_id ≢ app_id) s.sessions)
      ⊎ ((index : ℕ) × (sess : SessionInfo) × (get_elem? s.sessions index ≡ some sess)
          × FirstOf app_id s.sessions index sess
          × Watches index sess named w (select_device app_id s w))
unfolding select_device
select_device-Watches app_id s w same_length =
    let named = record s { selected_app_id = app_id } in
    elim (selectable-some app_id s.sessions (length s.session_objects) 0) [
      | inl (absent, none_has) ↦ inl (rw absent refl, none_has (omega arith))
      | inr (j, sess, found, within, there, is_it) ↦
          let (o, object) = get_elem?-lt s.session_objects j (omega arith) in
          inr (
            j,
            sess,
            there,
            is_it,
            rw (found, zero-add) (switch_to_session-Watches j named w o sess object there),
          )
    ]
