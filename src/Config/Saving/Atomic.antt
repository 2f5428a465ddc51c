-- ===== src/Config/Saving/Atomic.antt =====
-- A configuration file is never seen half written.
use smtc_now_playing.Prelude.{
  ℕ, zero, suc, Option, none, some, List, [], ◌∷◌, ◌++◌, map, take, Text, append_assoc, append-nil,
  ◌≡◌, ◌⊎◌, inl, inr, refl, sym, ap, ◌∙◌,
}
use smtc_now_playing.Config.Saving.{
  Step, create_temp, write_byte, sync_temp, close_temp, rename_temp, remove_temp, Fault,
  create_fails, encode_fails, sync_fails, close_fails, rename_fails, save_steps, Disk, apply_step,
  apply_steps,
}

apply_steps-append :
    (ss ts : List Step) (d : Disk) → apply_steps (ss ++ ts) d ≡ apply_steps ts (apply_steps ss d)
unfolding apply_steps
apply_steps-append [] ts d = refl
apply_steps-append (s ∷ ss) ts d = apply_steps-append ss ts (apply_step s d)

apply_steps-writes :
    (old : Option Text) (done text : Text)
    → apply_steps (map write_byte text) (record { target = old; temp = some done })
      ≡ record { target = old; temp = some (done ++ text) }
unfolding apply_steps apply_step
apply_steps-writes old done [] =
    ap (λ b. record { target = old; temp = some b }) (sym (append-nil done))
apply_steps-writes old done (c ∷ text) =
    apply_steps-writes old (done ++ c ∷ []) text
    ∙ ap (λ b. record { target = old; temp = some b }) (append_assoc done (c ∷ []) text)

-- The files after the temporary file has been written, for the steps that follow.
abbrev written : Option Text → Text → Disk
written old text = record { target = old; temp = some text }

apply_steps-written :
    (d : Disk) (text : Text) (ss : List Step)
    → apply_steps (create_temp ∷ map write_byte text ++ ss) d
      ≡ apply_steps ss (written d.target text)
unfolding apply_steps apply_step
apply_steps-written d text ss =
    apply_steps-append (map write_byte text) ss (record { target = d.target; temp = some [] })
    ∙ ap (apply_steps ss) (apply_steps-writes d.target [] text)

-- A save that meets no fault leaves the whole text in the file; after any fault the file is what it was.
-- No temporary file stays behind in either case, unless it could not be made in the first place.
abbrev pub Saved : Text → Disk → Option Fault → Disk → Type 0
Saved text d none e = e ≡ record { target = some text; temp = none }
Saved text d (some create_fails) e = e ≡ d
Saved text d (some _) e = e ≡ record { target = d.target; temp = none }

-- A save ends as `Saved` says, whichever call fails.
pub save_steps-Saved :
    (text : Text) (fault : Option Fault) (d : Disk)
    → Saved text d fault (apply_steps (save_steps text fault) d)
unfolding save_steps apply_steps apply_step
save_steps-Saved text none d =
    apply_steps-written d text (sync_temp ∷ close_temp ∷ rename_temp ∷ [])
save_steps-Saved text (some create_fails) d = refl
save_steps-Saved text (some (encode_fails n)) d =
    apply_steps-written d (take n text) (close_temp ∷ remove_temp ∷ [])
save_steps-Saved text (some sync_fails) d =
    apply_steps-written d text (close_temp ∷ remove_temp ∷ [])
save_steps-Saved text (some close_fails) d =
    apply_steps-written d text (sync_temp ∷ remove_temp ∷ [])
save_steps-Saved text (some rename_fails) d =
    apply_steps-written d text (sync_temp ∷ close_temp ∷ remove_temp ∷ [])

-- The file is the old one or holds the whole text.
abbrev pub Whole : Text → Option Text → Disk → Type 0
Whole text old d = (d.target ≡ old) ⊎ (d.target ≡ some text)

-- The steps leave the target alone.
abbrev KeepsTarget : List Step → Type 0
KeepsTarget [] = Unit
KeepsTarget (rename_temp ∷ ss) = ⊥
KeepsTarget (_ ∷ ss) = KeepsTarget ss

KeepsTarget-writes :
    (text : Text) (ss : List Step) → KeepsTarget ss → KeepsTarget (map write_byte text ++ ss)
KeepsTarget-writes [] ss h = h
KeepsTarget-writes (c ∷ text) ss h = KeepsTarget-writes text ss h

keeps_target :
    (s : Step) (ss : List Step) (d : Disk)
    → KeepsTarget (s ∷ ss)
    → ((apply_step s d).target ≡ d.target) × KeepsTarget ss
unfolding apply_step
keeps_target create_temp ss d h = (refl, h)
keeps_target (write_byte b) ss d h = (refl, h)
keeps_target sync_temp ss d h = (refl, h)
keeps_target close_temp ss d h = (refl, h)
keeps_target rename_temp ss d h = absurd h
keeps_target remove_temp ss d h = (refl, h)

KeepsTarget-take :
    (n : ℕ) (ss : List Step) (d : Disk)
    → KeepsTarget ss
    → (apply_steps (take n ss) d).target ≡ d.target
unfolding apply_steps
KeepsTarget-take zero ss d h = refl
KeepsTarget-take (suc n) [] d h = refl
KeepsTarget-take (suc n) (s ∷ ss) d h =
    let (same, rest) = keeps_target s ss d h in KeepsTarget-take n ss (apply_step s d) rest ∙ same

-- A rename that comes last happens or does not.
rename_or_not :
    (n : ℕ) (ss : List Step) (d : Disk)
    → KeepsTarget ss
    → let e = apply_steps (take n (ss ++ rename_temp ∷ [])) d in
      (e.target ≡ d.target) ⊎ (e.target ≡ (apply_steps ss d).temp)
unfolding apply_steps apply_step
rename_or_not zero ss d h = inl refl
rename_or_not (suc zero) [] d h = inr refl
rename_or_not (suc (suc n)) [] d h = inr refl
rename_or_not (suc n) (s ∷ ss) d h =
    let (same, rest) = keeps_target s ss d h in
    elim (rename_or_not n ss (apply_step s d) rest) [ inl e ↦ inl (e ∙ same) | inr e ↦ inr e ]

-- If the process is killed after any number of steps of a save, whichever call fails, the file is the
-- old one or holds the whole text.
pub save_steps-Whole :
    (text : Text) (fault : Option Fault) (d : Disk) (n : ℕ)
    → Whole text d.target (apply_steps (take n (save_steps text fault)) d)
unfolding save_steps apply_steps apply_step
save_steps-Whole text none d n =
    let made : List Step = create_temp ∷ map write_byte text ++ sync_temp ∷ close_temp ∷ [] in
    let temp_holds =
      ap (λ (e : Disk). e.temp) (apply_steps-written d text (sync_temp ∷ close_temp ∷ [])) in
    rw (sym (append_assoc (map write_byte text) (sync_temp ∷ close_temp ∷ []) (rename_temp ∷ [])))
      (elim (rename_or_not n made d (KeepsTarget-writes text (sync_temp ∷ close_temp ∷ []) tt)) [
        | inl e ↦ inl e
        | inr e ↦ inr (e ∙ temp_holds)
      ])
save_steps-Whole text (some create_fails) d n = inl (KeepsTarget-take n [] d tt)
save_steps-Whole text (some (encode_fails m)) d n =
    inl
      (KeepsTarget-take n _ d (KeepsTarget-writes (take m text) (close_temp ∷ remove_temp ∷ []) tt))
save_steps-Whole text (some sync_fails) d n =
    inl (KeepsTarget-take n _ d (KeepsTarget-writes text (close_temp ∷ remove_temp ∷ []) tt))
save_steps-Whole text (some close_fails) d n =
    inl (KeepsTarget-take n _ d (KeepsTarget-writes text (sync_temp ∷ remove_temp ∷ []) tt))
save_steps-Whole text (some rename_fails) d n = inl (
    KeepsTarget-take n _ d (KeepsTarget-writes text (sync_temp ∷ close_temp ∷ remove_temp ∷ []) tt))
