-- ===== src/Domain/Status/History.antt =====
-- Sequences of transitions: what is left after the events of an application, in any order.
use mathlib.Core.List.{Permᴰ, Perm}
use mathlib.Core.Logic.{∥∥₁_elim}
use agenda_agent.Prelude.{
  ◌≤◌, true, false, ◌≡◌, refl, sym, All, ◌∙◌, ap, List, [], ◌∷◌, arith, find, find-skip, none, leb,
  or_else, if◌then◌else◌, inl, inr, Bool-cases,
}
use agenda_agent.Domain.Enums.{ApplicationStatus, ApplicationStatus-set}
use agenda_agent.Domain.Status.{next_application_status, is_decided, status_after}
use agenda_agent.Domain.Status.Laws.{is_terminal, progress, next-progress}

-- A terminal status outlasts every later event.
pub status_after_terminal :
    (s : ApplicationStatus) (ds : List ApplicationStatus)
    → is_terminal s ≡ true
    → status_after s ds ≡ s
unfolding status_after
status_after_terminal s [] h = refl
status_after_terminal s (d ∷ ds) h = rw ((next-progress s d).1 h) (status_after_terminal s ds h)

-- However many events arrive, the application does not go back.
pub progress-status_after :
    (s : ApplicationStatus) (ds : List ApplicationStatus)
    → progress s ≤ progress (status_after s ds)
unfolding status_after
progress-status_after s [] = omega arith
progress-status_after s (d ∷ ds) =
    omega (arith, (next-progress s d).0, progress-status_after (next_application_status s d) ds)

-- The further of two open statuses; a terminal one is not on the way.
abbrev pub further : ApplicationStatus → ApplicationStatus → ApplicationStatus
further s d = if is_terminal d then s else if leb (progress s) (progress d) then d else s

abbrev pub furthest : ApplicationStatus → List ApplicationStatus → ApplicationStatus
furthest s [] = s
furthest s (d ∷ ds) = furthest (further s d) ds

next-open :
    (s d : ApplicationStatus)
    → is_terminal s ≡ false
    → is_decided d ≡ false
    → (next_application_status s d ≡ further s d) × (is_terminal (further s d) ≡ false)
unfolding next_application_status
next-open s d h k = ground arith

next-decided :
    (s d : ApplicationStatus)
    → is_terminal s ≡ false
    → is_decided d ≡ true
    → (next_application_status s d ≡ d) × (is_terminal d ≡ true)
unfolding next_application_status
next-decided s d h k = ground arith

-- From a status that is not terminal, the first decision wins; if there is none, the furthest status
-- asked for.
pub status_after-eq-first_decision :
    (s : ApplicationStatus) (ds : List ApplicationStatus)
    → is_terminal s ≡ false
    → status_after s ds ≡ or_else (find is_decided ds) (furthest s ds)
unfolding status_after
status_after-eq-first_decision s [] h = refl
status_after-eq-first_decision s (d ∷ ds) h = elim (Bool-cases (is_decided d)) [
  | inl decided ↦
      let (moved, last) = next-decided s d h decided in
      rw (moved, decided) (status_after_terminal d ds last)
  | inr open' ↦
      let (moved, still) = next-open s d h open' in
      rw (moved, find-skip is_decided d ds open')
        (status_after-eq-first_decision (further s d) ds still)
]

further_comm : (s a b : ApplicationStatus) → further (further s a) b ≡ further (further s b) a
further_comm s a b = ground arith

furthest-perm :
    {ds es : List ApplicationStatus} (s : ApplicationStatus)
    → Permᴰ ds es
    → furthest s ds ≡ furthest s es
furthest-perm s Permᴰ.nil = refl
furthest-perm s (Permᴰ.cons {a = a} p r) = rw (← p) (furthest-perm (further s a) r)
furthest-perm s (Permᴰ.swap {a = a} {b = b} {l = l} p q) =
    rw (← p, ← q) (ap (λ t. furthest t l) (further_comm s a b))
furthest-perm s (Permᴰ.trans p q) = furthest-perm s p ∙ furthest-perm s q

-- None of the events is a decision.
abbrev pub Undecided : List ApplicationStatus → Type 0
Undecided = All (λ d. is_decided d ≡ false)

Undecided-perm : {ds es : List ApplicationStatus} → Permᴰ ds es → Undecided ds → Undecided es
Undecided-perm Permᴰ.nil h = h
Undecided-perm (Permᴰ.cons p r) h = (rw (← p) h.0, Undecided-perm r h.1)
Undecided-perm (Permᴰ.swap p q) h = (rw (← q) h.1.0, (rw (← p) h.0, h.1.1))
Undecided-perm (Permᴰ.trans p q) h = Undecided-perm q (Undecided-perm p h)

find-Undecided : (ds : List ApplicationStatus) → Undecided ds → find is_decided ds ≡ none
find-Undecided [] h = refl
find-Undecided (d ∷ ds) h = find-skip is_decided d ds h.0 ∙ find-Undecided ds h.1

after_perm :
    {ds es : List ApplicationStatus} (s : ApplicationStatus)
    → Undecided ds
    → Permᴰ ds es
    → status_after s ds ≡ status_after s es
after_perm {ds} {es} s h p = elim (Bool-cases (is_terminal s)) [
  | inl last ↦ status_after_terminal s ds last ∙ sym (status_after_terminal s es last)
  | inr open' ↦
      rw (status_after-eq-first_decision s ds open', status_after-eq-first_decision s es open')
        (rw (find-Undecided ds h, find-Undecided es (Undecided-perm p h)) (furthest-perm s p))
]

-- While no decision is among the events, the order in which they arrive does not matter.
pub status_after_perm :
    (s : ApplicationStatus) (ds es : List ApplicationStatus)
    → Undecided ds
    → Perm ds es
    → status_after s ds ≡ status_after s es
status_after_perm s ds es h p = ∥∥₁_elim p (ApplicationStatus-set _ _) (after_perm s h)
