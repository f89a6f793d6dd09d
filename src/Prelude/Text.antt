-- ===== src/Prelude/Text.antt =====
-- Texts as lists of code points. `split` and `join` are `str.split()` and `" ".join`; the tables
-- of Unicode (case folding, compatibility forms, categories) are parameters.
pub mod Words
use Prim.Native.Char.{code}
use Prim.Native.Nat.{ℕ, ◌+◌}
use Prim.Native.String.{String}
use mathlib.Core.Path.{◌≡◌, refl, ◌∙◌}
use mathlib.Core.Logic.{inl, inr}
use mathlib.Core.Bool.{Bool, true, false, ◌&&◌, ◌||◌}
use mathlib.Core.Option.{Option, none, some}
use mathlib.Core.List.{List, [], ◌∷◌, ◌++◌, reverse}
use native.Mathlib.Omega.{arith}
use agenda_agent.Prelude.Tests.{◌==◌, leb, if◌then◌else◌, ==→≡, ==_refl, Bool-cases}

abbrev pub Text : Type 0
Text = List ℕ

-- The code points of a literal.
abbrev pub codes : String → Text
codes String.[] = []
codes (String.◌∷◌ c s) = code c ∷ codes s

abbrev pub text_eq : Text → Text → Bool
text_eq [] [] = true
text_eq (a ∷ s) (b ∷ t) = a == b && text_eq s t
text_eq _ _ = false

abbrev pub same_optional_text : Option Text → Option Text → Bool
same_optional_text none none = true
same_optional_text (some s) (some t) = text_eq s t
same_optional_text _ _ = false

-- The truth value of an optional `str`: neither `None` nor empty.
abbrev pub truthy : Option Text → Bool
truthy none = false
truthy (some []) = false
truthy (some (_ ∷ _)) = true

pub text_eq→≡ : (s t : Text) → text_eq s t ≡ true → s ≡ t
text_eq→≡ [] [] h = refl
text_eq→≡ [] (b ∷ t) h = cc
text_eq→≡ (a ∷ s) [] h = cc
text_eq→≡ (a ∷ s) (b ∷ t) h = ground (arith, text_eq→≡ s t)

pub text_eq_refl : (s : Text) → text_eq s s ≡ true
text_eq_refl [] = refl
text_eq_refl (a ∷ s) = ground (arith, text_eq_refl s)

pub text_eq-shift : (s t i : Text) → text_eq s t ≡ true → text_eq s i ≡ text_eq t i
text_eq-shift s t i h = rw (text_eq→≡ s t h) refl

pub text_eq-flip : (s t : Text) → text_eq s t ≡ false → text_eq t s ≡ false
text_eq-flip s t h = elim (Bool-cases (text_eq t s)) [
  | inr other ↦ other
  | inl same ↦
      let turn : text_eq s t ≡ true = rw (text_eq→≡ t s same) (text_eq_refl s) in cc (turn, h)
]

-- Two texts that equal a third are equal.
pub text_eq-join : (s t i : Text) → text_eq s i ≡ true → text_eq t i ≡ true → text_eq s t ≡ true
text_eq-join s t i h k = rw (text_eq→≡ s i h, text_eq→≡ t i k) (text_eq_refl i)

pub same_optional_text→≡ : (s t : Option Text) → same_optional_text s t ≡ true → s ≡ t
same_optional_text→≡ none none h = refl
same_optional_text→≡ none (some t) h = cc
same_optional_text→≡ (some s) none h = cc
same_optional_text→≡ (some s) (some t) h = cc (text_eq→≡ s t h)

pub same_optional_text_refl : (s : Option Text) → same_optional_text s s ≡ true
same_optional_text_refl none = refl
same_optional_text_refl (some s) = text_eq_refl s

-- What the code takes from Python's Unicode tables.
pub record Unicode : Type 0 where
  pub casefold : Text → Text
  pub nfkc : Text → Text
  pub is_space : ℕ → Bool
  -- the general category is one of P, S and Z
  pub is_separator : ℕ → Bool
  -- U+0020 is white space
  pub space_is_space : is_space 32 ≡ true

-- A word that goes on: the letters since the last white space, and the words behind it.
abbrev pub emit : Text → List Text → List Text
emit [] ws = ws
emit (c ∷ w) ws = (c ∷ w) ∷ ws

abbrev pub join : List Text → Text
join [] = []
join (w ∷ []) = w
join (w ∷ v ∷ ws) = w ++ (32 ∷ join (v ∷ ws))

module _ (u : Unicode) where
  unfoldable pub scan : Text → Text × List Text
  scan [] = ([], [])
  scan (c ∷ cs) = let (w, ws) = scan cs in if u.is_space c then ([], emit w ws) else (c ∷ w, ws)

  unfoldable pub split : Text → List Text
  unfolding scan
  split t = emit (scan t).0 (scan t).1

  -- `" ".join(value.split())`
  unfoldable pub collapse : Text → Text
  unfolding split
  collapse t = join (split t)

abbrev lower : Text → Text
lower [] = []
lower (c ∷ s) = (if leb 65 c && leb c 90 then c + 32 else c) ∷ lower s

-- The ASCII part of the tables.
abbrev pub ascii : Unicode
ascii = record {
  casefold = lower;
  nfkc = λ s. s;
  is_space = λ c. c == 32;
  is_separator = λ c. c == 32 || c == 45;
  space_is_space = refl;
}

module _ (u : Unicode) where
  unfoldable pub lstrip : Text → Text
  lstrip [] = []
  lstrip (c ∷ t) = let rest = lstrip t in if u.is_space c then rest else c ∷ t

  -- `value.strip()`
  unfoldable pub strip : Text → Text
  unfolding lstrip
  strip t = reverse (lstrip (reverse (lstrip t)))

  -- `not value.strip()`
  abbrev pub is_blank : Text → Bool
  is_blank [] = true
  is_blank (c ∷ t) = u.is_space c && is_blank t
