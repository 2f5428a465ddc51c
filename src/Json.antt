-- ===== src/Json.antt =====
-- JSON documents as trees, with the parts of Go's encoding/json that the program uses: the decoding of
-- a document into a struct, field by field, and the documents that its structs are encoded as. A Go
-- string is the list of its runes.
use smtc_now_playing.Prelude.{
  ℕ, ◌+◌, ◌^◌, Bool, true, false, Option, none, some, List, [], ◌∷◌, map, Text, text_eq, ◌==◌, ◌&&◌,
  if◌then◌else◌,
}
use smtc_now_playing.Prelude.Tests.{ltb, leb}
use smtc_now_playing.Prelude.Int.{ℤ, pos, negsuc}
use smtc_now_playing.Prelude.Float.{Float64}

mutual
  pub data Json : Type 0 where
    null : Json
    bool : Bool → Json
    num : ℤ → Json  -- a number written as an integer
    float : Float64 → Json  -- any other number
    str : Text → Json
    arr : Items → Json
    obj : Fields → Json

  pub data Items : Type 0 where
    nil : Items
    cons : Json → Items → Items

  pub data Fields : Type 0 where
    end : Fields
    field : Text → Json → Fields → Fields

-- The array of a list.
unfoldable pub array_of {ℓ} : {A : Type ℓ} → (A → Json) → List A → Items
array_of f [] = nil
array_of f (x ∷ xs) = cons (f x) (array_of f xs)

-- Keys are compared with letters folded; besides the ASCII letters the long s and the Kelvin sign
-- fold to ASCII.
abbrev fold_rune : ℕ → ℕ
fold_rune c =
    if leb b'A' c && leb c b'Z'
    then c + 32
    else if c == 0x17F
    then b's'
    else if c == 0x212A
    then b'k'
    else c

unfoldable pub key_is : Text → Text → Bool
key_is name key = text_eq (map fold_rune key) (map fold_rune name)

-- Decoding into a value that has a previous one: null keeps it, `none` is a type error.
unfoldable pub into_text : Json → Text → Option Text
into_text null old = some old
into_text (str s) old = some s
into_text _ old = none

unfoldable pub into_bool : Json → Bool → Option Bool
into_bool null old = some old
into_bool (bool b) old = some b
into_bool _ old = none

-- An int and an int64 have 64 bits.
unfoldable pub fits_int64 : ℤ → Bool
fits_int64 (pos n) = ltb n (2 ^ 63)
fits_int64 (negsuc n) = ltb n (2 ^ 63)

unfoldable pub into_int : Json → ℤ → Option ℤ
into_int null old = some old
into_int (num n) old = if fits_int64 n then some n else none
into_int _ old = none

-- The fields of an object one after the other, each handed to the struct's own decoder.
unfoldable pub into_fields {ℓ} : {S : Type ℓ} → (Text → Json → S → Option S) → Fields → S → Option S
into_fields set end s = some s
into_fields set (field k v rest) s = elim (set k v s) [
  | none ↦ none
  | some t ↦ into_fields set rest t
]

-- A document decoded into a struct: null leaves it alone, and nothing but an object fits.
unfoldable pub into_struct {ℓ} : {S : Type ℓ} → (Text → Json → S → Option S) → Json → S → Option S
into_struct set null s = some s
into_struct set (obj fs) s = into_fields set fs s
into_struct set _ s = none

-- A document decoded into a map from keys to raw values, as its entries; a later entry hides an
-- earlier one of the same key. null gives the nil map.
unfoldable pub into_map : Json → Option Fields
into_map null = some end
into_map (obj fs) = some fs
into_map _ = none

abbrev or_value : Option Json → Bool → Json → Option Json
or_value (some w) here v = some w
or_value none true v = some v
or_value none false v = none

-- Looking up a map: keys are compared exactly, and the last entry counts.
unfoldable pub map_get : Text → Fields → Option Json
map_get k end = none
map_get k (field j v rest) = or_value (map_get k rest) (text_eq j k) v
