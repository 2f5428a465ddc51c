-- ===== src/Server/State.antt =====
-- internal/server/server.go: the snapshot of what is playing and the events that replace it. The text
-- of `json.Marshal` and the hexadecimal SHA-256 are parameters; `now` is the time in milliseconds. The
-- documents that are marshalled here are always valid, so that there is no error to model.
pub mod Tracking
pub mod Cover
pub mod Deduplication
pub mod Following
pub mod Turns
pub mod Parts
pub mod Waiting
use smtc_now_playing.Prelude.{
  ℕ, Bool, true, false, Option, none, some, List, [], ◌∷◌, ◌++◌, map, Text, codes, text_eq, Slice,
  slice_len, copy_slice, length, not, ◌==◌, ◌||◌, if◌then◌else◌,
}
use smtc_now_playing.Prelude.Tests.{ltb}
use smtc_now_playing.Prelude.Int.{ℤ}
use smtc_now_playing.Domain.{InfoData, ProgressData, SessionInfo}
use smtc_now_playing.Smtc.Types.{
  Event, info_event, progress_event, sessions_changed_event, device_changed_event,
}
use smtc_now_playing.Wsproto.{Envelope, new_info, new_progress, new_sessions}
use smtc_now_playing.Server.Hub.{Hub, broadcast}

-- `stateSnapshot`; a JSON text that is not there yet is empty.
pub record Snapshot : Type 0 where
  pub info : Option InfoData
  pub progress : Option ProgressData
  pub info_json : Text
  pub progress_json : Text
  pub album_art_hash : Text
  pub album_art_data : Slice
  pub album_art_ct : Text

abbrev pub no_snapshot : Snapshot
no_snapshot = record {
  info = none;
  progress = none;
  info_json = [];
  progress_json = [];
  album_art_hash = [];
  album_art_data = none;
  album_art_ct = [];
}

abbrev pub same_bytes : Text → Text → Bool
same_bytes [] b = true
same_bytes (x ∷ a) [] = true
same_bytes (x ∷ a) (y ∷ b) = if x == y then same_bytes a b else false

-- `bytesEqual`: the lengths, then the loop over the first slice.
unfoldable pub bytes_equal : Text → Text → Bool
bytes_equal a b = if length a == length b then same_bytes a b else false

unfoldable pub clone_info_data : InfoData → InfoData
clone_info_data d = record d { thumbnail_data = copy_slice d.thumbnail_data }

unfoldable pub clone_state : Snapshot → Snapshot
clone_state prev = record prev { album_art_data = copy_slice prev.album_art_data }

unfoldable pub album_art_url : Text → Text
album_art_url [] = []
album_art_url (c ∷ hash) = codes "/albumArt/" ++ c ∷ hash

abbrev pub store_album_art : (Text → Text) → Text → Slice → Snapshot → Snapshot
store_album_art sha256_hex ct none s = record s {
  album_art_data = none;
  album_art_ct = [];
  album_art_hash = [];
}
store_album_art sha256_hex ct (some thumb) s = record s {
  album_art_data = some thumb;
  album_art_ct = ct;
  album_art_hash = sha256_hex thumb;
}

-- The album art of the new snapshot: the data, its content type and its hash.
unfoldable pub set_album_art : (Text → Text) → InfoData → Snapshot → Snapshot
set_album_art sha256_hex d s =
    store_album_art sha256_hex d.thumbnail_content_type (copy_slice d.thumbnail_data) s

-- The two handlers: the new snapshot, and the message to broadcast, unless it is the last one again.
unfoldable pub handle_info_event :
    (Envelope → Text) → (Text → Text) → ℤ → InfoData → Snapshot → Snapshot × Option Text
handle_info_event marshal sha256_hex now d prev =
    let info = clone_info_data d in
    let next = set_album_art sha256_hex d (record (clone_state prev) { info = some info }) in
    let msg = marshal (new_info info (album_art_url next.album_art_hash) now) in
    if bytes_equal prev.info_json msg
    then (prev, none)
    else (record next { info_json = msg }, some msg)

unfoldable pub handle_progress_event :
    (Envelope → Text) → ℤ → ProgressData → Snapshot → Snapshot × Option Text
handle_progress_event marshal now d prev =
    let msg = marshal (new_progress d now) in
    if bytes_equal prev.progress_json msg
    then (prev, none)
    else (record (clone_state prev) { progress = some d; progress_json = msg }, some msg)

pub record Server : Type 0 where
  pub state : Snapshot
  pub hub : Hub

abbrev pub publish : Snapshot × Option Text → Hub → Server
publish (s, none) h = record { state = s; hub = h }
publish (s, some msg) h = record { state = s; hub = broadcast msg h }

unfoldable pub handle_event : (Envelope → Text) → (Text → Text) → ℤ → Event → Server → Server
handle_event marshal sha256_hex now (info_event d) s =
    publish (handle_info_event marshal sha256_hex now d s.state) s.hub
handle_event marshal sha256_hex now (progress_event d) s =
    publish (handle_progress_event marshal now d s.state) s.hub
handle_event marshal sha256_hex now (sessions_changed_event sessions) s = record s {
  hub = broadcast (marshal (new_sessions sessions now)) s.hub;
}
handle_event marshal sha256_hex now (device_changed_event app_id) s = s

-- The events of a channel, each with the time at which it is handled.
unfoldable pub process_events :
    (Envelope → Text) → (Text → Text) → List (ℤ × Event) → Server → Server
process_events marshal sha256_hex [] s = s
process_events marshal sha256_hex ((now, ev) ∷ evs) s =
    process_events marshal sha256_hex evs (handle_event marshal sha256_hex now ev s)

abbrev pub content_type : Text → Text
content_type [] = codes "application/octet-stream"
content_type (c ∷ ct) = c ∷ ct

abbrev art_response : Text → Slice → Option (Text × Text)
art_response ct none = none
art_response ct (some b) = some (content_type ct, b)

-- The response of `handleAlbumArt`: content type and data, or `none` for not found.
unfoldable pub handle_album_art : Text → Snapshot → Option (Text × Text)
handle_album_art hash s =
    if text_eq s.album_art_hash []
      || not (text_eq hash s.album_art_hash)
      || slice_len s.album_art_data == 0
    then none
    else art_response s.album_art_ct s.album_art_data
