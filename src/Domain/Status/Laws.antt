-- ===== src/Domain/Status/Laws.antt =====
-- One transition of an application's status.
use agenda_agent.Prelude.{ℕ, ◌≤◌, Bool, true, ◌≡◌, ◌≢◌, ◌||◌, ◌⊎◌, none, some, arith}
use agenda_agent.Domain.Enums.{ApplicationStatus, withdrawn}
use agenda_agent.Domain.Status.{next_application_status, is_decided, is_withdrawn, ranks}

-- A decision, or the candidate's withdrawal.
abbrev pub is_terminal : ApplicationStatus → Bool
is_terminal s = is_decided s || is_withdrawn s

-- The distance travelled: the rank, and beyond every rank for a terminal status.
abbrev pub progress : ApplicationStatus → ℕ
progress s = elim (ranks s) [ some r ↦ r | none ↦ 7 ]

-- A transition never goes back, keeps a terminal status, and leads to one of its two arguments.
pub next-progress :
    (current desired : ApplicationStatus)
    → (progress current ≤ progress (next_application_status current desired))
      × (is_terminal current ≡ true → next_application_status current desired ≡ current)
      × ((next_application_status current desired ≡ current)
          ⊎ (next_application_status current desired ≡ desired))
unfolding next_application_status
next-progress current desired = ground arith

-- The store applies `next_application_status` once more to a planned status: that changes nothing.
pub next-next :
    (current desired : ApplicationStatus)
    → next_application_status current (next_application_status current desired)
      ≡ next_application_status current desired
unfolding next_application_status
next-next current desired = ground arith

pub next_again :
    (current desired : ApplicationStatus)
    → next_application_status (next_application_status current desired) desired
      ≡ next_application_status current desired
unfolding next_application_status
next_again current desired = ground arith

pub next_self : (s : ApplicationStatus) → next_application_status s s ≡ s
unfolding next_application_status
next_self s = ground arith

-- A transition from a status other than withdrawn does not lead to withdrawn.
pub next-ne-withdrawn :
    (current desired : ApplicationStatus)
    → current ≢ withdrawn
    → next_application_status current desired ≢ withdrawn
unfolding next_application_status
next-ne-withdrawn current desired h e = ground arith
