-- ===== src/Server/State/Cover.antt =====
-- What a request for the cover gets from the server.
use smtc_now_playing.Prelude.{
  ℕ, Option, none, some, [], ◌∷◌, Text, text_eq, text_ne, text_apart, text_eq_iff, copy_slice, ◌≡◌,
  ◌≢◌, ◌⊎◌, inl, inr, refl, sym, ap, ◌∙◌, Bool-cases, arith,
}
use smtc_now_playing.Wsproto.{Envelope}
use smtc_now_playing.Server.State.{Snapshot, content_type, handle_album_art}
use smtc_now_playing.Server.State.Tracking.{IsConsistent, art_hash}

copy_slice-cases :
    (b : Option Text)
    → (copy_slice b ≡ none) ⊎ ((c : ℕ) × (thumb : Text) × (copy_slice b ≡ some (c ∷ thumb)))
copy_slice-cases none = inl refl
copy_slice-cases (some []) = inl refl
copy_slice-cases (some (c ∷ thumb)) = inr (c, thumb, refl)

content_type-ne : (ct : Text) → content_type ct ≢ []
content_type-ne [] h = cc
content_type-ne (c ∷ ct) h = cc

art_found :
    (s : Snapshot) (hash : Text) (c : ℕ) (thumb : Text)
    → hash ≡ s.album_art_hash
    → hash ≢ []
    → s.album_art_data ≡ some (c ∷ thumb)
    → handle_album_art hash s ≡ some (content_type s.album_art_ct, c ∷ thumb)
unfolding handle_album_art
art_found s hash c thumb e ne cover =
    let told : s.album_art_hash ≢ [] = (λ h. ne (e ∙ h)) in
    rw (text_ne s.album_art_hash [] told, (text_eq_iff hash s.album_art_hash).1 e, cover)
      (ground arith)

art_refused :
    (s : Snapshot) (hash : Text) → hash ≢ s.album_art_hash → handle_album_art hash s ≡ none
unfolding handle_album_art
art_refused s hash ne = ground (arith, text_ne hash s.album_art_hash ne)

art_empty : (s : Snapshot) (hash : Text) → hash ≡ [] → handle_album_art hash s ≡ none
unfolding handle_album_art text_eq
art_empty s hash e = elim (Bool-cases (text_eq s.album_art_hash [])) [
  | inl none_told ↦ rw none_told refl
  | inr told ↦
      rw (told, e)
        (ground (arith, text_eq_iff [] s.album_art_hash, text_eq_iff s.album_art_hash []))
]

-- The answer holds the snapshot's cover, whose hash is the one asked for.
abbrev pub Served : (Text → Text) → Text → Snapshot → Type 0
Served sha256_hex hash s =
    (hash ≡ s.album_art_hash)
    × (b : Text) × (ct : Text) × (handle_album_art hash s ≡ some (ct, b))
    × (s.album_art_data ≡ some b)
    × (sha256_hex b ≡ hash)
    × (ct ≢ [])

abbrev pub Refused : Text → Snapshot → Type 0
Refused hash s = ((hash ≢ s.album_art_hash) ⊎ (hash ≡ [])) × (handle_album_art hash s ≡ none)

module _ (marshal : Envelope → Text) (sha256_hex : Text → Text) where
  served :
      (s : Snapshot) (hash : Text)
      → IsConsistent marshal sha256_hex s
      → hash ≡ s.album_art_hash
      → hash ≢ []
      → Served sha256_hex hash s
  served s hash h e ne = elim h.0 [
    | inl (i, j, none_told, b) ↦ absurd (ne (e ∙ none_told))
    | inr (d, now, i, b, ct, told_hash, j) ↦ elim (copy_slice-cases d.thumbnail_data) [
      | inl no_cover ↦ absurd (ne (e ∙ told_hash ∙ ap (art_hash sha256_hex) no_cover))
      | inr (c, thumb, cover) ↦ (
        e,
        c ∷ thumb,
        content_type s.album_art_ct,
        art_found s hash c thumb e ne (b ∙ cover),
        b ∙ cover,
        sym (e ∙ told_hash ∙ ap (art_hash sha256_hex) cover),
        content_type-ne s.album_art_ct,
      )
    ]
  ]

  -- A request for the cover gets the bytes whose hash it names, with a content type, exactly if that is
  -- the hash of the cover of the song told; else there is none to get.
  pub handle_album_art_serves :
      (s : Snapshot) (hash : Text)
      → IsConsistent marshal sha256_hex s
      → Served sha256_hex hash s ⊎ Refused hash s
  handle_album_art_serves s hash h = elim (Bool-cases (text_eq hash s.album_art_hash)) [
    | inr other ↦ inr (
      inl (text_apart hash s.album_art_hash other),
      art_refused s hash (text_apart hash s.album_art_hash other),
    )
    | inl same ↦ elim (Bool-cases (text_eq hash [])) [
      | inl empty ↦
          inr
            (inr ((text_eq_iff hash []).0 empty), art_empty s hash ((text_eq_iff hash []).0 empty))
      | inr named ↦
          inl (
            served s hash h ((text_eq_iff hash s.album_art_hash).0 same) (text_apart hash [] named))
    ]
  ]
