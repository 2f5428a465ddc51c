-- ===== src/Server/State/Parts.antt =====
-- What messages do to the two parts of what a client has seen, the song and the progress.
use smtc_now_playing.Prelude.{
  List, [], ◌∷◌, Text, text_eq, ◌≡◌, ◌⊎◌, inl, inr, refl, sym, ap, ◌∙◌, Bool-cases,
}
use smtc_now_playing.Wsproto.{msg_info, msg_progress}
use smtc_now_playing.Server.State.Following.{Seen, see, look}
use smtc_now_playing.Server.State.{Snapshot}

-- What the snapshot tells.
abbrev pub jsons : Snapshot → Seen
jsons s = (s.info_json, s.progress_json)

module _ (type_of : Text → Text) where
  -- Messages either set what is seen of the song, or leave it; and likewise of the progress.
  pub look_info_cases :
      (msgs : List Text)
      → ((k : Text) × ((v : Seen) → (look type_of msgs v).0 ≡ k))
        ⊎ ((v : Seen) → (look type_of msgs v).0 ≡ v.0)
  unfolding look
  look_info_cases [] = inr (λ v. refl)
  look_info_cases (msg ∷ msgs) = elim (look_info_cases msgs) [
    | inl (k, sets) ↦ inl (k, (λ v. sets (see type_of msg v)))
    | inr keeps ↦ elim (Bool-cases (text_eq (type_of msg) msg_info)) [
      | inl is_it ↦ inl (msg, (λ v. keeps (see type_of msg v) ∙ rw is_it refl))
      | inr other ↦ elim (Bool-cases (text_eq (type_of msg) msg_progress)) [
        | inl p ↦ inr (λ v. keeps (see type_of msg v) ∙ rw (other, p) refl)
        | inr q ↦ inr (λ v. keeps (see type_of msg v) ∙ rw (other, q) refl)
      ]
    ]
  ]

  pub look_progress_cases :
      (msgs : List Text)
      → ((k : Text) × ((v : Seen) → (look type_of msgs v).1 ≡ k))
        ⊎ ((v : Seen) → (look type_of msgs v).1 ≡ v.1)
  unfolding look
  look_progress_cases [] = inr (λ v. refl)
  look_progress_cases (msg ∷ msgs) = elim (look_progress_cases msgs) [
    | inl (k, sets) ↦ inl (k, (λ v. sets (see type_of msg v)))
    | inr keeps ↦ elim (Bool-cases (text_eq (type_of msg) msg_info)) [
      | inl is_it ↦ inr (λ v. keeps (see type_of msg v) ∙ rw is_it refl)
      | inr other ↦ elim (Bool-cases (text_eq (type_of msg) msg_progress)) [
        | inl p ↦ inl (msg, (λ v. keeps (see type_of msg v) ∙ rw (other, p) refl))
        | inr q ↦ inr (λ v. keeps (see type_of msg v) ∙ rw (other, q) refl)
      ]
    ]
  ]

-- A function on texts that is constant or the identity, as each part of what is seen is under messages.
abbrev pub Setting : (Seen → Text) → (Seen → Text) → Type 0
Setting part after = ((k : Text) × ((v : Seen) → after v ≡ k)) ⊎ ((v : Seen) → after v ≡ part v)

-- Of messages after others that lead to what was seen before, the later ones alone lead there.
pub settled_part :
    (part : Seen → Text) (f g : Seen → Seen) (v : Seen)
    → Setting part (λ x. part (f x))
    → part (f (g v)) ≡ part v
    → part (f v) ≡ part v
settled_part part f g v (inl (k, sets)) e = sets v ∙ sym (sets (g v)) ∙ e
settled_part part f g v (inr keeps) e = keeps v

-- Messages that change nothing, between twice the same, change nothing there either.
pub absorbed_part :
    (part : Seen → Text) (f g : Seen → Seen) (v : Seen)
    → Setting part (λ x. part (f x))
    → Setting part (λ x. part (g x))
    → f v ≡ v
    → part (g (f (g v))) ≡ part (g v)
absorbed_part part f g v of_f (inl (k, sets)) e = sets (f (g v)) ∙ sym (sets v)
absorbed_part part f g v (inr keeps_f) (inr keeps_g) e = keeps_g (f (g v)) ∙ keeps_f (g v)
absorbed_part part f g v (inl (k, sets)) (inr keeps_g) e =
    keeps_g (f (g v)) ∙ sets (g v) ∙ sym (sets v) ∙ ap part e ∙ sym (keeps_g v)

-- What has been seen of a part, if anything, is what the snapshot tells of it.
abbrev pub UpToDate : Text → Text → Type 0
UpToDate seen told = (seen ≡ told) ⊎ (seen ≡ [])

pub up_to_date :
    (part : Seen → Text) (g : Seen → Seen) (x j : Seen)
    → Setting part (λ y. part (g y))
    → UpToDate (part x) (part j)
    → UpToDate (part (g x)) (part (g j))
up_to_date part g x j (inl (k, sets)) u = inl (sets x ∙ sym (sets j))
up_to_date part g x j (inr keeps) (inl e) = inl (keeps x ∙ e ∙ sym (keeps j))
up_to_date part g x j (inr keeps) (inr e) = inr (keeps x ∙ e)

abbrev pub song : Seen → Text
song v = v.0

abbrev pub progress : Seen → Text
progress v = v.1
