-- ===== src/Server/Api/Agreement.antt =====
-- The HTTP interface tells the song that the messages tell.
use smtc_now_playing.Prelude.{none, some, Text, codes, ◌≡◌, ◌⊎◌, inl, inr, refl, if◌then◌else◌}
use smtc_now_playing.Prelude.Float.{is_finite}
use smtc_now_playing.Json.{Json, obj, field, end}
use smtc_now_playing.Wsproto.{Envelope, new_info, info_payload, progress_payload}
use smtc_now_playing.Server.State.{Snapshot, album_art_url, clone_info_data}
use smtc_now_playing.Server.State.Tracking.{IsConsistent}
use smtc_now_playing.Server.Api.{Reply, handle_now_playing, or_no_progress}

-- The response holds, under `info`, the content of the envelope whose text is the snapshot's message.
abbrev pub TellsMessage : (Envelope → Text) → Snapshot → Reply → Type 0
TellsMessage marshal s reply =
    (e : Envelope) × (told : Json) × (s.info_json ≡ marshal e)
    × (e.content ≡ some told)
    × (reply ≡ (
      200,
      if is_finite (or_no_progress s.progress).playback_rate
          then some (
              obj (
                field (codes "info") told
                  (field (codes "progress") (progress_payload (or_no_progress s.progress)) end)))
          else none,
    ))

-- In a consistent snapshot the request for the song is not found while no song is told, and else gets
-- the very document of the message that was broadcast last, with the progress; the document is missing
-- if the playback rate is no finite number.
pub handle_now_playing-TellsMessage :
    (marshal : Envelope → Text) (sha256_hex : Text → Text) (s : Snapshot)
    → IsConsistent marshal sha256_hex s
    → ((s.info ≡ none) × ((handle_now_playing s).0 ≡ 404))
      ⊎ TellsMessage marshal s (handle_now_playing s)
unfolding handle_now_playing new_info
handle_now_playing-TellsMessage marshal sha256_hex s h = elim h.0 [
  | inl (nothing, _, _, _) ↦ inl (nothing, (rw nothing refl))
  | inr (d, now, told, _, _, _, json) ↦ inr (
    new_info (clone_info_data d) (album_art_url s.album_art_hash) now,
    info_payload (clone_info_data d) (album_art_url s.album_art_hash),
    json,
    refl,
    (rw told refl),
  )
]
