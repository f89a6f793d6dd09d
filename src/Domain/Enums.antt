-- ===== src/Domain/Enums.antt =====
-- domain/enums.py: the vocabulary that is stored as strings.
use Prim.Native.Nat.{ℕ}
use mathlib.Core.Path.{◌≡◌}
use mathlib.Core.Bool.{Bool, true, false}
use native.Mathlib.Omega.{arith}
use agenda_agent.Prelude.{◌==◌}

pub data ApplicationStatus : Type 0 where
  unknown applied assessment_pending assessment_completed : ApplicationStatus
  interview_pending interview_scheduled interview_completed : ApplicationStatus
  offer rejected withdrawn : ApplicationStatus

pub data RecruitmentEventType : Type 0 where
  application_received assessment interview interview_reschedule : RecruitmentEventType
  action_required deadline result offer rejection general_update unknown : RecruitmentEventType

pub data EventStatus : Type 0 where
  active completed superseded cancelled : EventStatus

pub data ActionType : Type 0 where
  assessment interview confirmation scheduling : ActionType
  application_portal offer deadline general : ActionType

-- The position in the class, by which two members are compared.
abbrev pub status_code : ApplicationStatus → ℕ
status_code unknown = 0
status_code applied = 1
status_code assessment_pending = 2
status_code assessment_completed = 3
status_code interview_pending = 4
status_code interview_scheduled = 5
status_code interview_completed = 6
status_code offer = 7
status_code rejected = 8
status_code withdrawn = 9

abbrev pub same_status : ApplicationStatus → ApplicationStatus → Bool
same_status a b = status_code a == status_code b

pub same_status→≡ : (a b : ApplicationStatus) → same_status a b ≡ true → a ≡ b
same_status→≡ a b h = ground arith

pub same_status_refl : (a : ApplicationStatus) → same_status a a ≡ true
same_status_refl a = ground arith

abbrev pub is_interview : RecruitmentEventType → Bool
is_interview interview = true
is_interview _ = false

abbrev pub is_interview_reschedule : RecruitmentEventType → Bool
is_interview_reschedule interview_reschedule = true
is_interview_reschedule _ = false

abbrev pub is_active : EventStatus → Bool
is_active active = true
is_active _ = false

pub ApplicationStatus-set : IsSet ApplicationStatus
ApplicationStatus-set = hlevel
