-- ===== src/Prelude/Lists.antt =====
-- Rows of a table: selection, the first match, updates and inserts.
use Prim.Native.Nat.{ℕ, zero, suc, ◌+◌, min}
use mathlib.Core.Path.{◌≡◌, refl, sym, ap, ◌∙◌}
use mathlib.Core.Logic.{◌⊎◌, inl, inr}
use mathlib.Core.Bool.{Bool, true, false, ◌||◌}
use mathlib.Core.Option.{Option, none, some}
use mathlib.Core.List.{List, [], ◌∷◌, ◌++◌}
use native.Mathlib.Omega.{arith}
use agenda_agent.Prelude.Tests.{Bool-cases, if◌then◌else◌}

module _ {ℓ} {A : Type ℓ} where
  abbrev pub length : List A → ℕ
  length [] = 0
  length (x ∷ xs) = suc (length xs)

  abbrev pub take : ℕ → List A → List A
  take zero xs = []
  take (suc n) [] = []
  take (suc n) (x ∷ xs) = x ∷ take n xs

  abbrev pub is_empty : List A → Bool
  is_empty [] = true
  is_empty (_ ∷ _) = false

  -- The rows for which the test holds, in order.
  abbrev pub select : (A → Bool) → List A → List A
  select p [] = []
  select p (x ∷ xs) = let rest = select p xs in if p x then x ∷ rest else rest

  -- The first row for which the test holds.
  abbrev pub find : (A → Bool) → List A → Option A
  find p [] = none
  find p (x ∷ xs) = let rest = find p xs in if p x then some x else rest

  abbrev pub exists : (A → Bool) → List A → Bool
  exists p [] = false
  exists p (x ∷ xs) = p x || exists p xs

  -- Write to every row for which the test holds.
  abbrev pub update_where : (A → Bool) → (A → A) → List A → List A
  update_where p f [] = []
  update_where p f (x ∷ xs) = (if p x then f x else x) ∷ update_where p f xs

  -- Every row has the property.
  abbrev pub All {κ} : (A → Type κ) → List A → Type κ
  All P [] = Unit
  All P (x ∷ xs) = P x × All P xs

  pub length-append : (xs ys : List A) → length (xs ++ ys) ≡ length xs + length ys
  length-append [] ys = omega arith
  length-append (x ∷ xs) ys = omega (arith, length-append xs ys)

  pub length-update_where :
      (p : A → Bool) (f : A → A) (xs : List A) → length (update_where p f xs) ≡ length xs
  length-update_where p f [] = refl
  length-update_where p f (x ∷ xs) = ap suc (length-update_where p f xs)

  pub find-hit : (p : A → Bool) (x : A) (xs : List A) → p x ≡ true → find p (x ∷ xs) ≡ some x
  find-hit p x xs h = rw h

  pub find-skip : (p : A → Bool) (x : A) (xs : List A) → p x ≡ false → find p (x ∷ xs) ≡ find p xs
  find-skip p x xs h = rw h

  pub length-take : (n : ℕ) (xs : List A) → length (take n xs) ≡ min n (length xs)
  length-take zero xs = omega arith
  length-take (suc n) [] = omega arith
  length-take (suc n) (x ∷ xs) = omega (arith, length-take n xs)

module _ {A : Type 0} where
  -- Membership, as an alternative for each place.
  abbrev pub In : A → List A → Type 0
  In x [] = ⊥
  In x (y ∷ ys) = (x ≡ y) ⊎ In x ys

  -- What is found is a row that passes the test.
  pub find-eq-some :
      (p : A → Bool) (xs : List A) {x : A} → find p xs ≡ some x → In x xs × (p x ≡ true)
  find-eq-some p [] h = cc
  find-eq-some p (y ∷ ys) {x} h = elim (Bool-cases (p y)) [
    | inl hit ↦ let e : x ≡ y = cc (find-hit p y ys hit) in (inl e, rw e hit)
    | inr skip ↦ let (m, e) = find-eq-some p ys (sym (find-skip p y ys skip) ∙ h) in (inr m, e)
  ]

  pub find-eq-none : (p : A → Bool) (xs : List A) {x : A} → find p xs ≡ none → In x xs → p x ≡ false
  find-eq-none p [] h m = absurd m
  find-eq-none p (y ∷ ys) {x} h m = elim (Bool-cases (p y)) [
    | inl hit ↦ cc (find-hit p y ys hit)
    | inr skip ↦ elim m [
      | inl e ↦ rw e skip
      | inr m' ↦ find-eq-none p ys (sym (find-skip p y ys skip) ∙ h) m'
    ]
  ]

  pub In-select : (p : A → Bool) (xs : List A) (x : A) → In x (select p xs) → In x xs
  In-select p [] x m = m
  In-select p (y ∷ ys) x m = elim (Bool-cases (p y)) [
    | inr skip ↦ inr (In-select p ys x (rw skip at m))
    | inl hit ↦ elim (rw hit at m) [ inl e ↦ inl e | inr m' ↦ inr (In-select p ys x m') ]
  ]
