-- ===== src/Prelude/Sort.antt =====
-- `sorted(rows, key=…)` and `ORDER BY`: a stable insertion sort.
use Prim.Native.Nat.{ℕ, suc}
use mathlib.Core.Path.{◌≡◌, refl, ap, ◌∙◌}
use mathlib.Core.Bool.{Bool, ◌||◌}
use mathlib.Core.List.{List, [], ◌∷◌}
use mathlib.Core.Logic.{◌⊎◌, inl, inr}
use native.Mathlib.Omega.{arith}
use agenda_agent.Prelude.Lists.{length, In, exists}
use agenda_agent.Prelude.Tests.{Bool-cases, leb, if◌then◌else◌}

module _ {ℓ} {A : Type ℓ} where
  unfoldable pub insert_sorted : (A → A → Bool) → A → List A → List A
  insert_sorted before x [] = x ∷ []
  insert_sorted before x (y ∷ ys) =
      let later = y ∷ insert_sorted before x ys in if before x y then x ∷ y ∷ ys else later

  -- The relation says which row may stand before which.
  unfoldable pub sort_with : (A → A → Bool) → List A → List A
  unfolding insert_sorted
  sort_with before [] = []
  sort_with before (x ∷ xs) = insert_sorted before x (sort_with before xs)

  abbrev pub sort_by : (A → ℕ) → List A → List A
  sort_by key = sort_with (λ x y. leb (key x) (key y))

module _ {ℓ} {A : Type ℓ} (before : A → A → Bool) where
  length-insert_sorted :
      (x : A) (xs : List A) → length (insert_sorted before x xs) ≡ suc (length xs)
  unfolding insert_sorted
  length-insert_sorted x [] = refl
  length-insert_sorted x (y ∷ ys) = ground (arith, length-insert_sorted x ys)

  pub length-sort_with : (xs : List A) → length (sort_with before xs) ≡ length xs
  unfolding sort_with
  length-sort_with [] = refl
  length-sort_with (x ∷ xs) =
      length-insert_sorted x (sort_with before xs) ∙ ap suc (length-sort_with xs)

module _ {A : Type 0} (before : A → A → Bool) (p : A → Bool) where
  pub exists-insert_sorted :
      (x : A) (ys : List A) → exists p (insert_sorted before x ys) ≡ (p x || exists p ys)
  unfolding insert_sorted
  exists-insert_sorted x [] = refl
  exists-insert_sorted x (y ∷ ys) = ground (arith, exists-insert_sorted x ys)

  -- Sorting loses no row.
  pub exists-sort_with : (xs : List A) → exists p (sort_with before xs) ≡ exists p xs
  unfolding sort_with
  exists-sort_with [] = refl
  exists-sort_with (x ∷ xs) =
      exists-insert_sorted x (sort_with before xs) ∙ ap (λ b. p x || b) (exists-sort_with xs)

module _ {A : Type 0} (before : A → A → Bool) where
  In-insert_sorted :
      (x : A) (ys : List A) {z : A} → In z (insert_sorted before x ys) → (z ≡ x) ⊎ In z ys
  unfolding insert_sorted
  In-insert_sorted x [] m = m
  In-insert_sorted x (y ∷ ys) {z} m = elim (Bool-cases (before x y)) [
    | inl first ↦ rw first at m
    | inr later ↦ elim (rw later at m) [
      | inl e ↦ inr (inl e)
      | inr m' ↦ elim (In-insert_sorted x ys m') [ inl e ↦ inl e | inr k ↦ inr (inr k) ]
    ]
  ]

  -- Sorting brings in no row.
  pub In-sort_with : (xs : List A) (z : A) → In z (sort_with before xs) → In z xs
  unfolding sort_with
  In-sort_with [] z m = m
  In-sort_with (x ∷ xs) z m = elim (In-insert_sorted x (sort_with before xs) m) [
    | inl e ↦ inl e
    | inr k ↦ inr (In-sort_with xs z k)
  ]

module _ {A : Type 0} (key : A → ℕ) where
  pub length-sort_by : (xs : List A) → length (sort_by key xs) ≡ length xs
  length-sort_by = length-sort_with (λ x y. leb (key x) (key y))

  pub In-sort_by : (xs : List A) (z : A) → In z (sort_by key xs) → In z xs
  In-sort_by = In-sort_with (λ x y. leb (key x) (key y))
