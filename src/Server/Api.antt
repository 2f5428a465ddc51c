-- ===== src/Server/Api.antt =====
-- internal/server/api.go and middleware.go: the HTTP requests that read the state, and the guard of the
-- control requests. A response is its status and its document, `none` for one that the encoder refuses.
pub mod Agreement
use smtc_now_playing.Prelude.{
  ℕ, suc, Bool, true, false, not, Option, none, some, List, [], ◌∷◌, Text, codes, text_eq, take,
  drop, ◌==◌, ◌&&◌, ◌||◌, if◌then◌else◌,
}
use smtc_now_playing.Prelude.Int.{pos}
use smtc_now_playing.Prelude.Float.{is_finite}
use smtc_now_playing.Json.{Json, bool, str, arr, obj, nil, end, field, array_of}
use smtc_now_playing.Domain.{InfoData, ProgressData, ControlCapabilities}
use smtc_now_playing.Smtc.Types.{SessionInfo}
use smtc_now_playing.Wsproto.{info_payload, progress_payload}
use smtc_now_playing.Server.State.{Snapshot, album_art_url}
use smtc_now_playing.Server.Dispatch.{Handled, failed, index_byte}

abbrev pub Reply : Type 0
Reply = ℕ × Option Json

-- The zero value of `ProgressPayload`, as that of the data it is made from.
abbrev pub no_progress : ProgressData
no_progress = record {
  position = pos 0;
  duration = pos 0;
  status = pos 0;
  playback_rate = 0;
  is_shuffle_active = none;
  auto_repeat_mode = pos 0;
  last_updated_time = pos 0;
}

abbrev pub or_no_progress : Option ProgressData → ProgressData
or_no_progress none = no_progress
or_no_progress (some p) = p

abbrev pub now_playing_json : InfoData → Text → ProgressData → Option Json
now_playing_json d url p =
    if is_finite p.playback_rate
    then some (
        obj (
          field (codes "info") (info_payload d url)
            (field (codes "progress") (progress_payload p) end)))
    else none

abbrev now_playing : Option InfoData → Snapshot → Reply
now_playing none s = (404, some (obj (field (codes "error") (str (codes "no active session")) end)))
now_playing (some d) s =
    (200, now_playing_json d (album_art_url s.album_art_hash) (or_no_progress s.progress))

unfoldable pub handle_now_playing : Snapshot → Reply
handle_now_playing s = now_playing s.info s

-- The service's `SessionInfo` has no tags: its keys are the names of the fields.
unfoldable pub session_json : SessionInfo → Json
session_json s = obj (
    field (codes "AppID") (str s.app_id)
      (field (codes "Name") (str s.name) (field (codes "SourceAppID") (str s.source_app_id) end)))

unfoldable pub handle_sessions : List SessionInfo → Reply
handle_sessions sessions = (200, some (arr (array_of session_json sessions)))

-- `localhostOnly`, around a handler; `local` is `isLocalhost` of the request.
unfoldable pub localhost_only : Bool → Bool → Handled → Handled
localhost_only true local h = h
localhost_only false local h = if local then h else ([], failed 403 (codes "forbidden"))

unfoldable pub capabilities_json : ControlCapabilities → Json
capabilities_json caps = obj (
    field (codes "isPlayEnabled") (bool caps.is_play_enabled) (
      field (codes "isPauseEnabled") (bool caps.is_pause_enabled) (
        field (codes "isStopEnabled") (bool caps.is_stop_enabled) (
          field (codes "isNextEnabled") (bool caps.is_next_enabled) (
            field (codes "isPreviousEnabled") (bool caps.is_previous_enabled) (
              field (codes "isSeekEnabled") (bool caps.is_seek_enabled) (
                field (codes "isShuffleEnabled") (bool caps.is_shuffle_enabled)
                  (field (codes "isRepeatEnabled") (bool caps.is_repeat_enabled) end))))))))

unfoldable pub handle_capabilities : ControlCapabilities → Reply
handle_capabilities caps = (200, some (capabilities_json caps))

-- `net.SplitHostPort`, its host only: behind the brackets of an IPv6 address, or up to the colon, of
-- which there is then only one; `none` is an error.
abbrev has_byte : ℕ → Text → Bool
has_byte c s = elim (index_byte s c) [ none ↦ false | some i ↦ true ]

abbrev has_brackets : Text → Bool
has_brackets s = has_byte b'[' s || has_byte b']' s

-- Behind the closing bracket stand one colon and the port.
abbrev bracketed : Text → Text → Option Text
bracketed host [] = none
bracketed host (c ∷ port) =
    if c == b':' && not (has_byte b':' port || has_brackets port || has_byte b'[' host)
    then some host
    else none

abbrev split_bracketed : Text → Option ℕ → Option Text
split_bracketed s none = none
split_bracketed s (some i) = bracketed (take i s) (drop (suc i) s)

abbrev split_plain : Text → Option ℕ → Option Text
split_plain s none = none
split_plain s (some i) =
    if has_byte b':' (drop (suc i) s) || has_brackets s then none else some (take i s)

unfoldable pub split_host : Text → Option Text
split_host [] = none
split_host (c ∷ s) =
    if c == b'['
    then split_bracketed s (index_byte s b']')
    else split_plain (c ∷ s) (index_byte (c ∷ s) b':')

abbrev or_whole : Text → Option Text → Text
or_whole whole none = whole
or_whole whole (some host) = host

-- A zone is cut off.
abbrev cut_at : Text → Option ℕ → Text
cut_at s none = s
cut_at s (some i) = take i s

abbrev is_local_ip : Text → Option Bool → Bool
is_local_ip host none = text_eq host (codes "localhost")
is_local_ip host (some loopback) = loopback

-- `isLocalhost`, on the remote address. The argument is `net.ParseIP` with `IsLoopback` of its result.
unfoldable pub is_localhost : (Text → Option Bool) → Text → Bool
is_localhost parse_ip remote_addr =
    let host = or_whole remote_addr (split_host remote_addr) in
    let bare = cut_at host (index_byte host b'%') in is_local_ip bare (parse_ip bare)
