-- ===== src/Wsproto/RoundTrip.antt =====
-- What `ParseEnvelope` (internal/wsproto/wsproto.go) accepts, and that it reads what the constructors
-- write.
use smtc_now_playing.Prelude.{
  true, Option, none, some, [], ◌∷◌, Text, text_eq, text_eq_iff, ◌≡◌, ◌≢◌, arith,
}
use smtc_now_playing.Prelude.Int.{ℤ, int_eq_iff}
use smtc_now_playing.Json.{Json, key_is, into_text, into_int, into_fields, into_struct, fits_int64}
use smtc_now_playing.Wsproto.{
  Envelope, no_envelope, envelope_json, set_envelope, parsed, validate, validate_decoded,
  parse_envelope, protocol_version,
}

-- An envelope that the checks let pass, with a time stamp of 64 bits.
pub record IsValid (e : Envelope) : Type 0 where
  pub version : e.v ≡ protocol_version
  pub typed : e.type ≢ []
  pub stamp : fits_int64 e.ts ≡ true

decode_envelope :
    (type id : Text) (v ts : ℤ) (content : Option Json)
    → fits_int64 v ≡ true
    → fits_int64 ts ≡ true
    → let e : Envelope = record { type = type; v = v; id = id; ts = ts; content = content } in
      into_struct set_envelope (envelope_json e) no_envelope ≡ some e
unfolding envelope_json into_struct into_fields set_envelope key_is text_eq into_text into_int
decode_envelope type [] v ts none hv ht = ground arith
decode_envelope type [] v ts (some d) hv ht = ground arith
decode_envelope type (c ∷ id) v ts none hv ht = ground arith
decode_envelope type (c ∷ id) v ts (some d) hv ht = ground arith

validate-IsValid : (e : Envelope) → IsValid e → validate e ≡ parsed e
unfolding validate
validate-IsValid e valid =
    ground (arith, int_eq_iff e.v protocol_version, text_eq_iff e.type [], valid.typed)

version_fits : (v : ℤ) → v ≡ protocol_version → fits_int64 v ≡ true
unfolding fits_int64
version_fits v h = ground arith

-- An envelope of the protocol's version that has a type, encoded and parsed, comes back as it was,
-- whatever its type, id and data.
pub parse_envelope-envelope_json :
    (e : Envelope) → IsValid e → parse_envelope (some (envelope_json e)) ≡ parsed e
unfolding parse_envelope
parse_envelope-envelope_json e valid =
    rw (decode_envelope e.type e.id e.v e.ts e.content (version_fits e.v valid.version) valid.stamp)
      (validate-IsValid e valid)

validate_sound :
    (d : Envelope) {e : Envelope} → validate d ≡ parsed e → (e.v ≡ protocol_version) × (e.type ≢ [])
unfolding validate
validate_sound d h = ground (arith, int_eq_iff d.v protocol_version, text_eq_iff d.type [])

validate_decoded_sound :
    (found : Option Envelope) {e : Envelope}
    → validate_decoded found ≡ parsed e
    → (e.v ≡ protocol_version) × (e.type ≢ [])
validate_decoded_sound none h = cc
validate_decoded_sound (some d) h = validate_sound d h

-- Whatever is accepted, of any text at all, has the protocol's version and a type.
pub parse_envelope_sound :
    (doc : Option Json) {e : Envelope}
    → parse_envelope doc ≡ parsed e
    → (e.v ≡ protocol_version) × (e.type ≢ [])
unfolding parse_envelope
parse_envelope_sound none h = cc
parse_envelope_sound (some doc) h =
    validate_decoded_sound (into_struct set_envelope doc no_envelope) h
