-- ===== src/Gui/Window/Files.antt =====
-- The files that the window's saves leave, and what a start of the program would load from them.
use smtc_now_playing.Prelude.{Option, none, some, Text, ◌≡◌, ap}
use smtc_now_playing.Json.{Json}
use smtc_now_playing.Config.{Config, validate, config_json}
use smtc_now_playing.Config.Reading.{ReadReply, missing, content, loaded, load}
use smtc_now_playing.Config.Loading.{valid_fits, parse_config-config_json}
use smtc_now_playing.Config.Saving.{Disk, apply_steps, save}
use smtc_now_playing.Config.Saving.Atomic.{save_steps-Saved}
use smtc_now_playing.Gui.{Gui, Call, save as saved_call}

module _ (encode : Json → Text) (decode : Text → Option Json) where
  -- What `Load` finds at the path.
  abbrev pub file_reply : Option Text → ReadReply
  file_reply none = missing
  file_reply (some t) = content (decode t)

  -- The files after a call: a save meets no fault.
  abbrev pub disk_after : Disk → Call → Disk
  disk_after d (saved_call c) = apply_steps (save encode c none).0 d
  disk_after d _ = d

  -- A start of the program would load the configuration in memory, if that is valid.
  abbrev pub Persisted : Gui → Disk → Type 0
  Persisted g d = validate g.cfg ≡ none → load (file_reply d.target) ≡ loaded g.cfg

  module _
      (decode-encode : (c : Config)
        → validate c ≡ none
        → decode (encode (config_json c)) ≡ some (config_json c)) where
    load-saved :
        (c : Config)
        → validate c ≡ none
        → load (content (decode (encode (config_json c)))) ≡ loaded c
    unfolding load
    load-saved c v = rw (decode-encode c v, parse_config-config_json c (valid_fits c v), v)

    target-save :
        (c : Config) (d : Disk)
        → validate c ≡ none
        → (apply_steps (save encode c none).0 d).target ≡ some (encode (config_json c))
    unfolding save
    target-save c d v =
        rw v (ap (λ (e : Disk). e.target) (save_steps-Saved (encode (config_json c)) none d))

    pub save-Persisted : (g : Gui) (d : Disk) → Persisted g (disk_after d (saved_call g.cfg))
    save-Persisted g d v = rw (target-save g.cfg d v) (load-saved g.cfg v)
