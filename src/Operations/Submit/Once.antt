-- ===== src/Operations/Submit/Once.antt =====
-- One drain of the pending emails for a slot of the timer.
use agenda_agent.Prelude.Steps.{pass, done, pass-err, pass-ok}
use agenda_agent.Operations.Run.{OperationRow, OperationType}
use agenda_agent.Operations.World.{World}
use agenda_agent.Operations.Run.Later.{Later}
use agenda_agent.Operations.Control.{RuntimeControl, ensure_control}
use agenda_agent.Prelude.{
  Bool-cases, List, Result, Result-cases, inl, inr, ok, ok-injective, refl, true, ◌∙◌, ◌≡◌, ap,
  Option, subst, err, ℕ, sym, none, some, ◌++◌, Error, ◌⊎◌,
}
use agenda_agent.Operations.Submit.{
  ControlService, submit, drain_with, drain_key, scheduled_batch_limit,
  scheduled_pending_drain_slot, submit_scheduled_pending_drain, get_control,
}
use agenda_agent.Prelude.Text.{Unicode, Text, codes}
use agenda_agent.Operations.Email.{has_drainable_source_emails}
use agenda_agent.Operations.Submit.Again.{SameService, out_of, runs_of, submit-again}

some-injective : (a b : OperationRow) → some a ≡ some b → a ≡ b
some-injective a b h = cc

some-back :
    (out : World × Result OperationRow) (w' : World) (m : OperationRow)
    → pass out (λ n. done (some n)) ≡ (w', ok (some m))
    → out ≡ (w', ok m)
unfolding pass
some-back (w, err e) w' m h = cc (ap out_of h)
some-back (w, ok n) w' m h =
    let is_it : n ≡ m = some-injective n m (ok-injective (ap out_of h)) in
    rw is_it (ap (λ (o : World × Result (Option OperationRow)). (o.0, ok m)) h)

some-runs :
    (out : World × Result OperationRow) (runs : List OperationRow)
    → out.0.runs ≡ runs
    → (pass out (λ n. done (some n))).0.runs ≡ runs
unfolding pass
some-runs (w, err e) runs h = h
some-runs (w, ok n) runs h = h

module _ (u : Unicode) where
  drain_with-back :
      (x : ControlService) (c : RuntimeControl) (w w' : World) (m : OperationRow)
      → drain_with u x c w ≡ (w', ok (some m))
      → submit u x OperationType.process_pending (drain_key u x) none (some scheduled_batch_limit) w
        ≡ (w', ok m)
  unfolding drain_with
  drain_with-back x c w w' m h = elim (Bool-cases c.workflow_enabled) [
    | inr off ↦ cc (ap out_of (rw (off, drain_with) at h))
    | inl on ↦
        elim (Bool-cases
          (has_drainable_source_emails x.account_id w.runs w.reviews w.processing w.emails)) [
            | inr empty ↦ cc (ap out_of (rw (on, empty, drain_with) at h))
            | inl waits ↦ some-back _ w' m (rw (on, waits, drain_with) at h)
          ]
  ]

  drain_with-again :
      (x y : ControlService) (c : RuntimeControl) (w w' v : World) (m : OperationRow)
      → SameService x y
      → drain_key u y ≡ drain_key u x
      → submit u x OperationType.process_pending (drain_key u x) none (some scheduled_batch_limit) w
        ≡ (w', ok m)
      → Later (λ i. Unit) w'.runs v.runs
      → (drain_with u y c v).0.runs ≡ v.runs
  unfolding drain_with
  drain_with-again x y c w w' v m same slot h later = elim (Bool-cases c.workflow_enabled) [
    | inr off ↦ rw (off, drain_with) refl
    | inl on ↦
        elim (Bool-cases
          (has_drainable_source_emails y.account_id v.runs v.reviews v.processing v.emails)) [
            | inr empty ↦ rw (on, empty, drain_with) refl
            | inl waits ↦
                let again =
                  submit-again u x y OperationType.process_pending (drain_key u x) none
                    (some scheduled_batch_limit) w w' v m same h later in
                rw (on, waits, slot, drain_with) (some-runs _ v.runs again)
          ]
  ]

  drain_key-same :
      (x y : ControlService)
      → y.slot_text ≡ x.slot_text
      → scheduled_pending_drain_slot y.slot_at ≡ scheduled_pending_drain_slot x.slot_at
      → drain_key u y ≡ drain_key u x
  drain_key-same x y texts slots =
      ap (λ (t : Text). codes "auto-drain-" ++ t)
        (ap (λ (f : ℕ → Text). f (scheduled_pending_drain_slot y.slot_at)) texts
          ∙ ap x.slot_text slots)

  submit_scheduled-available :
      (x : ControlService) (w : World)
      → x.capabilities.workflow_processing_available ≡ true
      → submit_scheduled_pending_drain u x w ≡ pass (get_control u x w) (drain_with u x)
  unfolding submit_scheduled_pending_drain
  submit_scheduled-available x w there = simp there

  get_control-cases :
      (x : ControlService) (w : World)
      → ((e : Error) × (get_control u x w ≡ (w, err e)))
        ⊎ ((w1 : World) × (c : RuntimeControl) × (get_control u x w ≡ (w1, ok c))
            × (w1.runs ≡ w.runs))
  unfolding get_control
  get_control-cases x w =
      elim (Result-cases (ensure_control u x.account_id x.defaults x.control_at w.controls)) [
        | inr (e, failed) ↦ inl (e, rw (failed, get_control) refl)
        | inl ((controls, c), read) ↦
            inr (record w { controls = controls }, c, rw (read, get_control) refl, refl)
      ]

  scheduled-back :
      (x : ControlService) (w w' : World) (m : OperationRow)
      → submit_scheduled_pending_drain u x w ≡ (w', ok (some m))
      → (c : RuntimeControl) × (w1 : World) × (drain_with u x c w1 ≡ (w', ok (some m)))
  unfolding submit_scheduled_pending_drain
  scheduled-back x w w' m h = elim (Bool-cases x.capabilities.workflow_processing_available) [
    | inr absent ↦ cc (ap out_of (simp absent at h))
    | inl there ↦
        let run = sym (submit_scheduled-available x w there) ∙ h in
        elim (get_control-cases x w) [
          | inl (e, failed) ↦
              cc (ap out_of (sym (pass-err (get_control u x w) (drain_with u x) w e failed) ∙ run))
          | inr (w1, c, read, _) ↦
              (c, w1, sym (pass-ok (get_control u x w) (drain_with u x) w1 c read) ∙ run)
        ]
  ]

  -- The drain that is queued for a slot of ten minutes is the only one: after a timer has queued it, and
  -- after any further creations, claims, ends and releases of runs, in any order, every timer of the
  -- account in that slot leaves the table of runs as it is, whatever became of the other tables and the
  -- queue, and whatever the controls and capabilities say then.
  pub submit_scheduled_pending_drain-once :
      (x y : ControlService) (w w' v : World) (m : OperationRow)
      → SameService x y
      → y.slot_text ≡ x.slot_text
      → scheduled_pending_drain_slot y.slot_at ≡ scheduled_pending_drain_slot x.slot_at
      → submit_scheduled_pending_drain u x w ≡ (w', ok (some m))
      → Later (λ i. Unit) w'.runs v.runs
      → (submit_scheduled_pending_drain u y v).0.runs ≡ v.runs
  unfolding submit_scheduled_pending_drain
  submit_scheduled_pending_drain-once x y w w' v m same texts slots h later =
      let slot = drain_key-same x y texts slots in
      let (c, w1, first) = scheduled-back x w w' m h in
      let submitted = drain_with-back x c w1 w' m first in
      elim (Bool-cases y.capabilities.workflow_processing_available) [
        | inr absent ↦ rw (absent, submit_scheduled_pending_drain) refl
        | inl there ↦
            let run = submit_scheduled-available y v there in
            elim (get_control-cases y v) [
              | inl (e, failed) ↦
                  ap runs_of (run ∙ pass-err (get_control u y v) (drain_with u y) v e failed)
              | inr (v1, d, read, kept) ↦
                  ap runs_of (run ∙ pass-ok (get_control u y v) (drain_with u y) v1 d read)
                  ∙ drain_with-again x y d w1 w' v1 m same slot submitted
                      (subst (λ rows. Later (λ i. Unit) w'.runs rows) (sym kept) later)
                  ∙ kept
            ]
      ]
