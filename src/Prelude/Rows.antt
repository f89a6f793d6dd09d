-- ===== src/Prelude/Rows.antt =====
-- Laws of selection, updates and inserts on the rows of a table.
use agenda_agent.Prelude.Lists.{find-hit, find-skip}
use agenda_agent.Prelude.Sort.{insert_sorted, sort_with, exists-insert_sorted, exists-sort_with}
use agenda_agent.Prelude.{
  Bool, ℕ, List, In, exists, find, ◌∷◌, select, ==_refl, Bool-cases, [], arith, false,
  if◌then◌else◌, inl, inr, none, refl, some, sym, true, update_where, ◌++◌, ◌==◌, ◌||◌, ◌∙◌, ◌≡◌,
  ap, ==→≡, length, map, suc, take, zero, ◌≤◌,
}

module _ {A : Type 0} where
  -- An update that keeps the test finds the row that it found before, updated.
  pub find-update_where :
      (p q : A → Bool) (f : A → A) (xs : List A) {x : A}
      → ((y : A) → p (if q y then f y else y) ≡ p y)
      → find p xs ≡ some x
      → find p (update_where q f xs) ≡ some (if q x then f x else x)
  find-update_where p q f [] keep h = cc
  find-update_where p q f (y ∷ ys) {x} keep h = elim (Bool-cases (p y)) [
    | inl hit ↦
        let e : y ≡ x = cc (find-hit p y ys hit) in
        find-hit p (if q y then f y else y) (update_where q f ys) (keep y ∙ hit)
        ∙ ap (λ (z : A). some (if q z then f z else z)) e
    | inr skip ↦
        find-skip p (if q y then f y else y) (update_where q f ys) (keep y ∙ skip)
        ∙ find-update_where p q f ys keep (sym (find-skip p y ys skip) ∙ h)
  ]

  pub find-append_hit :
      (p : A → Bool) (xs ys : List A) {x : A} → find p xs ≡ some x → find p (xs ++ ys) ≡ some x
  find-append_hit p [] ys h = cc
  find-append_hit p (y ∷ xs) ys h = elim (Bool-cases (p y)) [
    | inl hit ↦ find-hit p y (xs ++ ys) hit ∙ sym (find-hit p y xs hit) ∙ h
    | inr skip ↦
        find-skip p y (xs ++ ys) skip ∙ find-append_hit p xs ys (sym (find-skip p y xs skip) ∙ h)
  ]

  pub find-append_new :
      (p : A → Bool) (xs : List A) (y : A)
      → find p xs ≡ none
      → p y ≡ true
      → find p (xs ++ y ∷ []) ≡ some y
  find-append_new p [] y h k = find-hit p y [] k
  find-append_new p (x ∷ xs) y h k = elim (Bool-cases (p x)) [
    | inl hit ↦ cc (find-hit p x xs hit)
    | inr skip ↦
        find-skip p x (xs ++ y ∷ []) skip
        ∙ find-append_new p xs y (sym (find-skip p x xs skip) ∙ h) k
  ]

  pub find-append_skip :
      (p : A → Bool) (xs : List A) (y : A) → p y ≡ false → find p (xs ++ y ∷ []) ≡ find p xs
  find-append_skip p [] y k = find-skip p y [] k
  find-append_skip p (x ∷ xs) y k = ground (arith, find-append_skip p xs y k)

  -- An update of other rows is not seen by a search.
  pub find-update_other :
      (p q : A → Bool) (f : A → A) (xs : List A)
      → ((y : A) → q y ≡ true → p y ≡ false)
      → ((y : A) → p (f y) ≡ p y)
      → find p (update_where q f xs) ≡ find p xs
  find-update_other p q f [] apart keep = refl
  find-update_other p q f (x ∷ xs) apart keep =
      ground (arith, apart x, keep x, find-update_other p q f xs apart keep)

  pub exists-update_keep :
      (p q : A → Bool) (f : A → A) (xs : List A)
      → ((y : A) → p (if q y then f y else y) ≡ p y)
      → exists p (update_where q f xs) ≡ exists p xs
  exists-update_keep p q f [] keep = refl
  exists-update_keep p q f (x ∷ xs) keep = ground (arith, keep x, exists-update_keep p q f xs keep)

  pub find_of_exists :
      (p : A → Bool) (xs : List A) → exists p xs ≡ true → (x : A) × (find p xs ≡ some x)
  find_of_exists p [] h = cc
  find_of_exists p (x ∷ xs) h = elim (Bool-cases (p x)) [
    | inl hit ↦ (x, find-hit p x xs hit)
    | inr skip ↦
        let (y, found) = find_of_exists p xs (ground arith) in (y, find-skip p x xs skip ∙ found)
  ]

  pub find-none_of_exists : (p : A → Bool) (xs : List A) → exists p xs ≡ false → find p xs ≡ none
  find-none_of_exists p [] h = refl
  find-none_of_exists p (x ∷ xs) h = ground (arith, find-none_of_exists p xs)

  pub select-holds : (p : A → Bool) (xs : List A) (x : A) → In x (select p xs) → p x ≡ true
  select-holds p [] x m = absurd m
  select-holds p (y ∷ ys) x m = elim (Bool-cases (p y)) [
    | inr skip ↦ select-holds p ys x (rw skip at m)
    | inl hit ↦ elim (rw hit at m) [ inl e ↦ rw e hit | inr m' ↦ select-holds p ys x m' ]
  ]

  pub exists-append :
      (p : A → Bool) (xs : List A) (y : A) → exists p (xs ++ y ∷ []) ≡ (exists p xs || p y)
  exists-append p [] y = ground arith
  exists-append p (x ∷ xs) y = ground (arith, exists-append p xs y)

-- No two rows have one key.
module _ {A : Type 0} (key : A → ℕ) where
  abbrev pub HasKey : List A → Type 0
  HasKey [] = Unit
  HasKey (x ∷ xs) = (exists (λ y. key y == key x) xs ≡ false) × HasKey xs

  exists-In : (p : A → Bool) (xs : List A) (x : A) → exists p xs ≡ false → In x xs → p x ≡ false
  exists-In p [] x h m = absurd m
  exists-In p (y ∷ ys) x h (inl e) = rw e (ground arith)
  exists-In p (y ∷ ys) x h (inr m) = exists-In p ys x (ground arith) m

  -- A row is found by its key.
  pub find_by_key :
      (xs : List A) (x : A) → HasKey xs → In x xs → find (λ y. key y == key x) xs ≡ some x
  find_by_key [] x h m = absurd m
  find_by_key (y ∷ ys) x h (inl e) =
      find-hit (λ z. key z == key x) y ys (rw e (==_refl (key y))) ∙ ap some (sym e)
  find_by_key (y ∷ ys) x h (inr m) =
      let other = exists-In (λ z. key z == key y) ys x h.0 m in
      find-skip (λ z. key z == key x) y ys (ground arith) ∙ find_by_key ys x h.1 m

  -- A row with a new key may be appended.
  pub HasKey-append :
      (xs : List A) (y : A)
      → HasKey xs
      → exists (λ x. key x == key y) xs ≡ false
      → HasKey (xs ++ y ∷ [])
  HasKey-append [] y h n = (refl, tt)
  HasKey-append (x ∷ xs) y h n =
      (exists-append _ xs y ∙ ground arith, HasKey-append xs y h.1 (ground arith))

  exists-update_where :
      (q : A → Bool) (f : A → A) (k : ℕ) (xs : List A)
      → ((y : A) → key (f y) ≡ key y)
      → exists (λ y. key y == k) (update_where q f xs) ≡ exists (λ y. key y == k) xs
  exists-update_where q f k [] keep = refl
  exists-update_where q f k (x ∷ xs) keep =
      ground (arith, keep x, exists-update_where q f k xs keep)

  -- An update that keeps the keys keeps them distinct.
  pub HasKey-update_where :
      (q : A → Bool) (f : A → A) (xs : List A)
      → ((y : A) → key (f y) ≡ key y)
      → HasKey xs
      → HasKey (update_where q f xs)
  HasKey-update_where q f [] keep h = tt
  HasKey-update_where q f (x ∷ xs) keep h = (
    exists-update_where q f _ xs keep ∙ ground (arith, keep x),
    HasKey-update_where q f xs keep h.1,
  )

pub In-take : {A : Type 0} (n : ℕ) (xs : List A) (x : A) → In x (take n xs) → In x xs
In-take zero xs x m = absurd m
In-take (suc n) [] x m = absurd m
In-take (suc n) (y ∷ ys) x m = elim m [ inl e ↦ inl e | inr k ↦ inr (In-take n ys x k) ]

pub In-map :
    {A B : Type 0} (f : A → B) (xs : List A) (y : B)
    → In y (map f xs)
    → (x : A) × In x xs × (y ≡ f x)
In-map f [] y m = absurd m
In-map f (x ∷ xs) y m = elim m [
  | inl e ↦ (x, inl refl, e)
  | inr k ↦ let (z, inside, e) = In-map f xs y k in (z, inr inside, e)
]

-- Of the rows that have a key, a test that only they pass counts at most one.
module _ {A : Type 0} (key : A → ℕ) (p : A → Bool) (i : ℕ)
    (only : (y : A) → p y ≡ true → (key y == i) ≡ true) where
  select-none : (xs : List A) → exists (λ y. key y == i) xs ≡ false → length (select p xs) ≡ 0
  select-none [] h = refl
  select-none (x ∷ xs) h = elim (Bool-cases (p x)) [
    | inl hit ↦ ground (arith, only x hit)
    | inr skip ↦ rw skip (select-none xs (ground arith))
  ]

  pub select-single :
      (xs : List A) (m : A)
      → HasKey key xs
      → find (λ y. key y == i) xs ≡ some m
      → length (select p xs) ≡ (if p m then 1 else 0)
  select-single [] m keys found = cc
  select-single (x ∷ xs) m keys found = elim (Bool-cases (key x == i)) [
    | inl hit ↦
        let same : x ≡ m = cc (find-hit (λ y. key y == i) x xs hit) in
        let empty : length (select p xs) ≡ 0 =
          select-none xs (rw (sym (==→≡ (key x) i hit)) keys.0) in
        rw (sym same) (elim (Bool-cases (p x)) [
          | inl taken ↦ rw (taken, empty) refl
          | inr other ↦ rw (other, empty) refl
        ])
    | inr miss ↦
        let later =
          select-single xs m keys.1 (sym (find-skip (λ y. key y == i) x xs miss) ∙ found) in
        elim (Bool-cases (p x)) [ inl taken ↦ cc (only x taken, miss) | inr other ↦ rw other later ]
  ]

  exists-select : (xs : List A) → exists p xs ≡ true → 1 ≤ length (select p xs)
  exists-select [] h = cc
  exists-select (x ∷ xs) h = elim (Bool-cases (p x)) [
    | inl taken ↦ rw taken (omega arith)
    | inr other ↦ rw other (exists-select xs (ground arith))
  ]

  -- If some row passes, the one with the key does.
  pub exists-single :
      (xs : List A) (m : A)
      → HasKey key xs
      → find (λ y. key y == i) xs ≡ some m
      → exists p xs ≡ true
      → p m ≡ true
  exists-single xs m keys found h =
      let some_row = exists-select xs h in
      let one = select-single xs m keys found in
      elim (Bool-cases (p m)) [
        | inl taken ↦ taken
        | inr other ↦
            let none_row : length (select p xs) ≡ 0 = rw other at one in
            absurd (omega (arith, some_row, none_row))
      ]

-- Sorting keeps the keys distinct.
module _ {A : Type 0} (key : A → ℕ) (before : A → A → Bool) where
  HasKey-insert_sorted :
      (x : A) (ys : List A)
      → exists (λ y. key y == key x) ys ≡ false
      → HasKey key ys
      → HasKey key (insert_sorted before x ys)
  unfolding insert_sorted
  HasKey-insert_sorted x [] new h = (refl, tt)
  HasKey-insert_sorted x (y ∷ ys) new h = elim (Bool-cases (before x y)) [
    | inl first ↦ rw first (new, h)
    | inr later ↦
        let inside = exists-insert_sorted before (λ z. key z == key y) x ys in
        rw later (ground (arith, inside, h.0), HasKey-insert_sorted x ys (ground arith) h.1)
  ]

  pub HasKey-sort_with : (xs : List A) → HasKey key xs → HasKey key (sort_with before xs)
  unfolding sort_with
  HasKey-sort_with [] h = tt
  HasKey-sort_with (x ∷ xs) h =
      HasKey-insert_sorted x (sort_with before xs)
        (exists-sort_with before (λ y. key y == key x) xs ∙ h.0) (HasKey-sort_with xs h.1)
