-- ===== src/Database/Invariant/Rows.antt =====
-- Unique pairs of an application and a text, as the two unique constraints of the events and of the
-- action items state them.
use agenda_agent.Prelude.{Bool, List, [], arith, exists, false, refl, ◌++◌, ◌∙◌, ◌∷◌, ◌≡◌}
use agenda_agent.Prelude.Rows.{exists-append}

module _ {A : Type 0} (same : A → A → Bool) where
  -- No row has the same pair as a later one.
  abbrev pub HasPair : List A → Type 0
  HasPair [] = Unit
  HasPair (x ∷ xs) = (exists (same x) xs ≡ false) × HasPair xs

  pub HasPair-append :
      (xs : List A) (y : A)
      → HasPair xs
      → exists (λ x. same x y) xs ≡ false
      → HasPair (xs ++ y ∷ [])
  HasPair-append [] y h n = (refl, tt)
  HasPair-append (x ∷ xs) y h n =
      (exists-append (same x) xs y ∙ ground arith, HasPair-append xs y h.1 (ground arith))
