-- ===== src/Calendar/Planner/Digits.antt =====
-- The fuel of the decimal digits in calendar/planner.py's reminder texts.
use agenda_agent.Calendar.Planner.{digits}
use agenda_agent.Prelude.{
  Bool-cases, [], ap, arith, inl, inr, ltb, refl, suc, zero, ℕ, ◌%◌, ◌++◌, ◌+◌, ◌/◌, ◌∷◌, ◌≡◌, ◌≤◌,
}
use agenda_agent.Prelude.Text.{Text}

-- Any two amounts of fuel that are not less than the number give the same digits.
pub digits_enough : (fuel more n : ℕ) → n ≤ fuel → n ≤ more → digits fuel n ≡ digits more n
unfolding digits
digits_enough zero zero n h k = refl
digits_enough zero (suc more) n h k = let e : n ≡ 0 = omega (arith, h) in rw e refl
digits_enough (suc fuel) zero n h k = let e : n ≡ 0 = omega (arith, k) in rw e refl
digits_enough (suc fuel) (suc more) n h k = elim (Bool-cases (ltb n 10)) [
  | inl last ↦ rw last refl
  | inr longer ↦
      let large : 10 ≤ n = ground (arith, longer) in
      rw longer (
        ap (λ (t : Text). t ++ (48 + n % 10) ∷ [])
          (digits_enough fuel more (n / 10) (omega (arith, h, large)) (omega (arith, k, large))))
]
