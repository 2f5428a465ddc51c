-- ===== src/Tests/Media.antt =====
-- The handling of songs and covers at concrete inputs.
use smtc_now_playing.Smtc.Media.{handle_media_properties_changed}
use smtc_now_playing.Smtc.Media.Handler.{Reports, handle_media_properties_changed-Reports}
use smtc_now_playing.Tests.{song_reply, idle}

handle_media_properties_changed-Reports_example :
    Reports
      (handle_media_properties_changed idle song_reply).0
      (handle_media_properties_changed idle song_reply).1
handle_media_properties_changed-Reports_example =
    handle_media_properties_changed-Reports idle song_reply
