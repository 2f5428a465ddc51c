-- ===== src/Gui/Window/Keeping.antt =====
-- What an observer who follows the calls of the handlers knows: rules for what every event keeps.
use smtc_now_playing.Prelude.{List, [], ◌∷◌, ◌++◌, ◌≡◌, refl, subst, sym, All}
use smtc_now_playing.Gui.{Gui, Call, World, Act, ◌>>◌}
use smtc_now_playing.Gui.Window.{Event, handle, run}

-- The observer's knowledge after calls.
abbrev pub after {ℓ} : {S : Type ℓ} → (S → Call → S) → S → List Call → S
after follow s [] = s
after follow s (c ∷ cs) = after follow (follow s c) cs

pub after-append {ℓ} :
    {S : Type ℓ} (follow : S → Call → S) (s : S) (cs ds : List Call)
    → after follow s (cs ++ ds) ≡ after follow (after follow s cs) ds
after-append follow s [] ds = refl
after-append follow s (c ∷ cs) ds = after-append follow (follow s c) cs ds

module _ {S : Type 0} (follow : S → Call → S) (P : Gui → S → Type 0) where
  abbrev pub Keeps : Act → Type 0
  Keeps a = (g : Gui) (s : S) → P g s → P (a g).0 (after follow s (a g).1)

  pub Keeps->> : (a b : Act) → Keeps a → Keeps b → Keeps (a >> b)
  Keeps->> a b ha hb g s p =
      subst (P (b (a g).0).0) (sym (after-append follow s (a g).1 (b (a g).0).1))
        (hb (a g).0 (after follow s (a g).1) (ha g s p))

  -- Where each event keeps what is known, so do events in a row.
  pub Keeps-run :
      (ok : World → Type 0)
      → ((w : World) (e : Event) → ok w → Keeps (handle w e))
      → (es : List (World × Event)) → All (λ we. ok we.0) es
      → Keeps (run es)
  unfolding run
  Keeps-run ok each [] fine g s p = p
  Keeps-run ok each ((w, e) ∷ es) fine g s p =
      Keeps->> (handle w e) (run es) (each w e fine.0) (Keeps-run ok each es fine.1) g s p
