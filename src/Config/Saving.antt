-- ===== src/Config/Saving.antt =====
-- internal/config/config.go: how a configuration is written. The text of the encoder is a parameter.
pub mod Atomic
use smtc_now_playing.Prelude.{ℕ, Bool, Option, none, some, List, [], ◌∷◌, ◌++◌, map, take, Text}
use smtc_now_playing.Json.{Json}
use smtc_now_playing.Config.{Config, Invalid, validate, config_json}

-- The calls that change a file, in the order in which they happen. A write may end at any byte, so that
-- it is one call for each.
pub data Step : Type 0 where
  create_temp : Step
  write_byte : ℕ → Step
  sync_temp : Step
  close_temp : Step
  rename_temp : Step
  remove_temp : Step

-- The call that fails: an encoding breaks off after some bytes.
pub data Fault : Type 0 where
  create_fails sync_fails close_fails rename_fails : Fault
  encode_fails : ℕ → Fault

-- The steps of `saveConfigToFile` for the text of the configuration; the deferred removal comes last.
unfoldable pub save_steps : Text → Option Fault → List Step
save_steps text none =
    create_temp ∷ map write_byte text ++ sync_temp ∷ close_temp ∷ rename_temp ∷ []
save_steps text (some create_fails) = []
save_steps text (some (encode_fails n)) =
    create_temp ∷ map write_byte (take n text) ++ close_temp ∷ remove_temp ∷ []
save_steps text (some sync_fails) =
    create_temp ∷ map write_byte text ++ close_temp ∷ remove_temp ∷ []
save_steps text (some close_fails) =
    create_temp ∷ map write_byte text ++ sync_temp ∷ remove_temp ∷ []
save_steps text (some rename_fails) =
    create_temp ∷ map write_byte text ++ sync_temp ∷ close_temp ∷ remove_temp ∷ []

-- The two files, each with its bytes, if it is there.
pub record Disk : Type 0 where
  pub target : Option Text
  pub temp : Option Text

abbrev pub append_byte : ℕ → Option Text → Option Text
append_byte b none = none
append_byte b (some bytes) = some (bytes ++ b ∷ [])

-- The directory's rename is atomic.
unfoldable pub apply_step : Step → Disk → Disk
apply_step create_temp d = record d { temp = some [] }
apply_step (write_byte b) d = record d { temp = append_byte b d.temp }
apply_step sync_temp d = d
apply_step close_temp d = d
apply_step rename_temp d = record { target = d.temp; temp = none }
apply_step remove_temp d = record d { temp = none }

unfoldable pub apply_steps : List Step → Disk → Disk
apply_steps [] d = d
apply_steps (s ∷ ss) d = apply_steps ss (apply_step s d)

pub data SaveError : Type 0 where
  invalid_config : Invalid → SaveError
  failed : Fault → SaveError

abbrev pub fault_error : Option Fault → Option SaveError
fault_error none = none
fault_error (some f) = some (failed f)

abbrev pub save_checked : Text → Option Fault → Option Invalid → List Step × Option SaveError
save_checked text fault (some e) = ([], some (invalid_config e))
save_checked text fault none = (save_steps text fault, fault_error fault)

-- `Save`: what it does to the files, and its error.
unfoldable pub save : (Json → Text) → Config → Option Fault → List Step × Option SaveError
save encode c fault = save_checked (encode (config_json c)) fault (validate c)
