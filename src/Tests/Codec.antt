-- ===== src/Tests/Codec.antt =====
-- An encoder of the documents of configurations with its decoder, in the place of encoding/json.
use smtc_now_playing.Prelude.{
  ℕ, Bool, true, false, Option, none, some, [], ◌∷◌, ◌++◌, Text, length, take, drop, ◌==◌, ◌≡◌,
  refl, ap, ◌∙◌, arith,
}
use smtc_now_playing.Prelude.Int.{ℤ, pos, negsuc, ◌≤ℤ◌}
use smtc_now_playing.Json.{Json}
use smtc_now_playing.Config.{Config, validate, config_json}
use smtc_now_playing.Config.Reading.{parse_config}
use smtc_now_playing.Config.Loading.{validate_iff, valid_fits, parse_config-config_json}

abbrev bit : Bool → ℕ
bit true = 1
bit false = 0

abbrev port_code : ℤ → ℕ
port_code (pos n) = n
port_code (negsuc n) = 0

-- The texts are written with their lengths.
abbrev config_text : Config → Text
config_text c =
    port_code c.server.port
    ∷ bit c.server.allow_remote
    ∷ bit c.server.hot_reload
    ∷ bit c.ui.auto_start
    ∷ bit c.ui.start_minimized
    ∷ bit c.ui.show_preview_window
    ∷ bit c.ui.preview_always_on_top
    ∷ bit c.logging.debug
    ∷ length c.ui.theme
    ∷ (c.ui.theme ++ (length c.smtc.selected_device ∷ (c.smtc.selected_device ++ c.logging.level)))

abbrev with_level : Config → Text → Option Config
with_level c [] = none
with_level c (m ∷ t) = some (record c {
  smtc = record { selected_device = take m t };
  logging = record c.logging { level = drop m t };
})

abbrev read_config : Text → Option Config
read_config (port ∷ remote ∷ reload ∷ auto ∷ mini ∷ preview ∷ top ∷ debug ∷ n ∷ t) =
    with_level
      (record {
        server = record { port = pos port; allow_remote = remote == 1; hot_reload = reload == 1 };
        ui = record {
          theme = take n t;
          auto_start = auto == 1;
          start_minimized = mini == 1;
          show_preview_window = preview == 1;
          preview_always_on_top = top == 1;
        };
        smtc = record { selected_device = [] };
        logging = record { level = []; debug = debug == 1 };
      })
      (drop n t)
read_config _ = none

abbrev document_of : Option Config → Option Json
document_of none = none
document_of (some c) = some (config_json c)

abbrev text_of : Option Config → Text
text_of none = []
text_of (some c) = config_text c

pub encode : Json → Text
encode j = text_of (parse_config (some j))

pub decode : Text → Option Json
decode t = document_of (read_config t)

take-append : (s t : Text) → take (length s) (s ++ t) ≡ s
take-append [] t = refl
take-append (c ∷ s) t = ap (λ r. c ∷ r) (take-append s t)

drop-append : (s t : Text) → drop (length s) (s ++ t) ≡ t
drop-append [] t = refl
drop-append (c ∷ s) t = drop-append s t

bit_back : (b : Bool) → (bit b == 1) ≡ b
bit_back true = refl
bit_back false = refl

read_config-config_text :
    (c : Config) (n : ℕ) → c.server.port ≡ pos n → read_config (config_text c) ≡ some c
read_config-config_text c n e =
    let device = c.smtc.selected_device in
    let rest = length device ∷ (device ++ c.logging.level) in
    ground (
      arith,
      take-append c.ui.theme rest,
      drop-append c.ui.theme rest,
      take-append device c.logging.level,
      drop-append device c.logging.level,
    )

port-pos : (p : ℤ) → pos 1 ≤ℤ p → (n : ℕ) × (p ≡ pos n)
port-pos (pos n) h = (n, refl)
port-pos (negsuc n) h = absurd (omega arith)

pub decode-encode :
    (c : Config) → validate c ≡ none → decode (encode (config_json c)) ≡ some (config_json c)
unfolding encode decode
decode-encode c v =
    let (n, e) = port-pos c.server.port ((validate_iff c).0 v).low in
    ap (λ o. decode (text_of o)) (parse_config-config_json c (valid_fits c v))
    ∙ ap document_of (read_config-config_text c n e)
