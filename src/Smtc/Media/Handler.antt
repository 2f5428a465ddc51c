-- ===== src/Smtc/Media/Handler.antt =====
-- What `handleMediaPropertiesChanged` (internal/smtc/media.go) tells and keeps.
use smtc_now_playing.Prelude.{
  ℕ, Bool, Option, none, some, List, [], ◌∷◌, Text, Slice, slice_len, ◌≡◌, refl, arith,
}
use smtc_now_playing.Smtc.Types.{Event, info_event}
use smtc_now_playing.Smtc.Async.{AsyncOp}
use smtc_now_playing.Smtc.State.{Smtc, Properties, Handled}
use smtc_now_playing.Smtc.Thumbnail.{
  Stream, Read, read_thumbnail, read_thumbnail-none, read_thumbnail-some,
}
use smtc_now_playing.Smtc.Media.{
  MediaReply, info_of, clear_media_info, song_changed, enter_song, fall_back, conclude,
  apply_properties, apply_result, apply_request, with_session, completed_result,
  handle_media_properties_changed,
}

-- At most one event, an info event that says what the state says.
abbrev pub Reports : Smtc → List Event → Type 0
Reports t [] = Unit
Reports t (info_event d ∷ []) =
    (d.artist ≡ t.current_artist)
    × (d.title ≡ t.current_title)
    × (d.thumbnail_data ≡ t.current_thumbnail_data)
    × (d.thumbnail_content_type ≡ t.current_thumbnail_content_type)
Reports t _ = ⊥

-- What is known of a read: failed, it leaves the cache; else the cache holds what it returns.
pub record Faithful (before : Slice) (r : Read) : Type 0 where
  pub failed : r.1 ≡ none → r.2.current_thumbnail_data ≡ before
  pub cached : (b : Text) → r.1 ≡ some b → r.2.current_thumbnail_data ≡ some b
  pub typed : (b : Text) → r.1 ≡ some b → r.2.current_thumbnail_content_type ≡ r.0

pub read_thumbnail-Faithful :
    (s : Smtc) (r : Stream) → Faithful s.current_thumbnail_data (read_thumbnail s r)
read_thumbnail-Faithful s r = record {
  failed = λ h. rw (read_thumbnail-none s r h) refl;
  cached = λ b h. (read_thumbnail-some s r h).0;
  typed = λ b h. (read_thumbnail-some s r h).1;
}

conclude-Reports-none :
    (props : Properties) (changed : Bool) (ct : Text) (t : Smtc)
    → Reports
        (conclude props changed
          (slice_len t.current_thumbnail_data)
          (fall_back changed (ct, none, t))).0
        (conclude props changed
          (slice_len t.current_thumbnail_data)
          (fall_back changed (ct, none, t))).1
unfolding conclude fall_back
conclude-Reports-none props changed ct t = ground arith

conclude-Reports-some :
    (props : Properties) (changed : Bool) (old_len : ℕ) (ct b : Text) (t : Smtc)
    → t.current_thumbnail_data ≡ some b
    → t.current_thumbnail_content_type ≡ ct
    → Reports
        (conclude props changed old_len (fall_back changed (ct, some b, t))).0
        (conclude props changed old_len (fall_back changed (ct, some b, t))).1
unfolding conclude fall_back info_of
conclude-Reports-some props changed old_len ct b t h k = ground arith

conclude-Reports :
    (props : Properties) (changed : Bool) (before thumb : Slice) (ct : Text) (t : Smtc)
    → Faithful before (ct, thumb, t)
    → Reports
        (conclude props changed (slice_len before) (fall_back changed (ct, thumb, t))).0
        (conclude props changed (slice_len before) (fall_back changed (ct, thumb, t))).1
conclude-Reports props changed before none ct t f =
    rw (← f.failed refl) (conclude-Reports-none props changed ct t)
conclude-Reports props changed before (some b) ct t f =
    conclude-Reports-some props changed (slice_len before) ct b t (f.cached b refl) (f.typed b refl)

pub apply_properties-Reports :
    (s : Smtc) (r : Stream) (props : Properties)
    → Reports (apply_properties s r props).0 (apply_properties s r props).1
unfolding apply_properties
apply_properties-Reports s r props =
    let changed = song_changed s props in
    let entered = enter_song s props changed in
    let result = read_thumbnail entered r in
    conclude-Reports props changed entered.current_thumbnail_data result.1 result.0 result.2
      (read_thumbnail-Faithful entered r)

clear_media_info-Reports : (s : Smtc) → Reports (clear_media_info s).0 (clear_media_info s).1
unfolding clear_media_info
clear_media_info-Reports s = ground arith

apply_result_elim {ℓ} :
    (P : Handled → Type ℓ) (s : Smtc) (r : Stream) (found : Option Properties)
    → P (clear_media_info s)
    → ((props : Properties) → P (apply_properties s r props))
    → P (apply_result s r found)
apply_result_elim P s r none cleared applied = cleared
apply_result_elim P s r (some props) cleared applied = applied props

apply_request_elim {ℓ} :
    (P : Handled → Type ℓ) (s : Smtc) (r : Stream) (request : Option (AsyncOp Properties))
    → P (clear_media_info s)
    → ((props : Properties) → P (apply_properties s r props))
    → P (apply_request s r request)
apply_request_elim P s r none cleared applied = cleared
apply_request_elim P s r (some op) cleared applied =
    apply_result_elim P s r (completed_result op) cleared applied

with_session_elim {ℓ} :
    (P : Handled → Type ℓ) (session : Option ℕ) (s : Smtc) (w : MediaReply)
    → P (s, [])
    → P (clear_media_info s)
    → ((props : Properties) → P (apply_properties s w.stream props))
    → P (with_session session s w)
with_session_elim P none s w ignored cleared applied = ignored
with_session_elim P (some _) s w ignored cleared applied =
    apply_request_elim P s w.stream w.request cleared applied

-- What holds without a session, after a clearing and after new properties holds of the handler.
pub handle_media_properties_changed_elim {ℓ} :
    (P : Handled → Type ℓ) (s : Smtc) (w : MediaReply)
    → P (s, [])
    → P (clear_media_info s)
    → ((props : Properties) → P (apply_properties s w.stream props))
    → P (handle_media_properties_changed s w)
unfolding handle_media_properties_changed
handle_media_properties_changed_elim P s w = with_session_elim P s.current_session s w

-- A change of the media properties is told in at most one event, an info event, and what that event
-- says of artist, title, cover bytes and content type is what the service has recorded.
pub handle_media_properties_changed-Reports :
    (s : Smtc) (w : MediaReply)
    → Reports (handle_media_properties_changed s w).0 (handle_media_properties_changed s w).1
handle_media_properties_changed-Reports s w =
    handle_media_properties_changed_elim (λ h. Reports h.0 h.1) s w tt (clear_media_info-Reports s)
      (apply_properties-Reports s w.stream)
