-- ===== src/Tests.antt =====
-- Sample data, and the theorems of the other modules at concrete inputs.
mod Media
mod Service
mod Protocol
mod Hub
mod Web
mod Files
mod Codec
mod Window
mod Following
mod Program
use smtc_now_playing.Prelude.{ℕ, Bool, true, Option, none, some, List, [], ◌∷◌, Text, codes}
use smtc_now_playing.Prelude.Int.{ℤ, pos}
use smtc_now_playing.Prelude.Float.{float_one}
use smtc_now_playing.Domain
use smtc_now_playing.Smtc.Types.{SessionInfo}
use smtc_now_playing.Smtc.Async.{AsyncOp, started, completed}
use smtc_now_playing.Smtc.State.{Smtc, Properties, Retry, new}
use smtc_now_playing.Smtc.Thumbnail.{Stream}
use smtc_now_playing.Smtc.Media.{MediaReply}
use smtc_now_playing.Smtc.Playback.{Timeline}
use smtc_now_playing.Smtc.Sessions.{SwitchReply}

abbrev pub done_op : AsyncOp (Unit {0})
done_op = record {
  first_status = started;
  event_handle = 1;
  registered = true;
  signaled = true;
  last_status = completed;
  results = some tt;
}

abbrev pub song : Properties
song = record {
  artist = codes "A\nB";
  title = codes "T";
  album_title = codes "L";
  album_artist = [];
  playback_type = some (some (pos 1));
}

abbrev pub song_retry : Retry
song_retry = record { artist = codes "A\\nB"; title = codes "T"; props = song }

-- A cover that is there, and one that is not.
abbrev pub cover_stream : Stream
cover_stream = record {
  thumbnail_found = true;
  open_started = true;
  open_op = done_op;
  random_access = true;
  size = some 3;
  content_type = some (codes "image/png");
  buffer = λ n. true;
  buffer_interface = true;
  input_interface = true;
  read_started = λ n. true;
  read_completed = true;
  read_result = true;
  bytes_read = some 3;
  reader = true;
  read_bytes = λ n. some (1 ∷ 2 ∷ 3 ∷ []);
}

abbrev pub no_stream : Stream
no_stream = record cover_stream { size = none }

abbrev pub props_op : AsyncOp Properties
props_op = record {
  first_status = completed;
  event_handle = 0;
  registered = true;
  signaled = true;
  last_status = completed;
  results = some song;
}

abbrev pub song_reply : MediaReply
song_reply = record { request = some props_op; stream = cover_stream }

abbrev pub switch_reply : SwitchReply
switch_reply = record { media_token = some 7; playback_token = some 8; media = song_reply }

-- A service that watches the session object 0, and one to which the song is known.
abbrev pub idle : Smtc
idle = record (new []) { current_session = some 0 }

abbrev pub waiting : Smtc
waiting = record (new []) {
  current_session = some 0;
  current_artist = codes "A\\nB";
  current_title = codes "T";
  current_properties = some song;
}

abbrev pub spotify : SessionInfo
spotify = record {
  app_id = codes "Spotify.exe";
  name = codes "Spotify";
  source_app_id = codes "Spotify.exe";
}

abbrev pub timeline : Timeline
timeline = record {
  timeline = true;
  playback_info = true;
  status = some (pos 4);
  position = some (pos 15000000);
  last_updated = some (pos 116444736000010000);
  end_time = some (pos 30000000);
  playback_rate = none;
  is_shuffle_active = some (some true);
  auto_repeat_mode = none;
}

abbrev pub domain_song : Domain.InfoData
domain_song = record {
  artist = codes "A";
  title = codes "T";
  thumbnail_content_type = codes "image/png";
  thumbnail_data = some (1 ∷ 2 ∷ []);
  album_title = [];
  album_artist = [];
  playback_type = pos 1;
  source_app = codes "Spotify.exe";
}
