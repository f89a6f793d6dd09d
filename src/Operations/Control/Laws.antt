-- ===== src/Operations/Control/Laws.antt =====
-- Updates of the switches: what they keep, and that a stale update is refused.
use agenda_agent.Prelude.{
  ==→≡, >>=-eq-ok, Bool-cases, List, Option-cases, ap, arith, err, false, find, find-eq-some, inl,
  inr, not, ok, ok-injective, operation_conflict, some, sym, true, update_where, ◌&&◌, ◌==◌, ◌∙◌,
  ◌≡◌, ◌≤◌,
}
use agenda_agent.Domain.Digest.{Datetime, Uuid}
use agenda_agent.Operations.Control.{
  RuntimeControl, RuntimeControlPatch, check_control, of_account, store_update_control, patched,
}
use agenda_agent.Prelude.Text.{Text, Unicode}
use agenda_agent.Prelude.Rows.{find-update_where}

-- Calendar writes only with the workflow; a version that is positive.
abbrev pub IsSafe : RuntimeControl → Type 0
IsSafe c = (c.calendar_write_enabled ≡ true → c.workflow_enabled ≡ true) × (1 ≤ c.version)

pub check_control-eq :
    (u : Unicode) (c c' : RuntimeControl) → check_control u c ≡ ok c' → (c' ≡ c) × IsSafe c
unfolding check_control
check_control-eq u c c' h = ground arith

-- What the store's update did, if it succeeded.
module _ (u : Unicode) (account : Uuid) (p : RuntimeControlPatch) (updated_by : Text)
    (now : Datetime) (rows : List RuntimeControl) where
  pub record Updated (r : List RuntimeControl × RuntimeControl) : Type 0 where
    pub old : RuntimeControl
    pub found : find (of_account account) rows ≡ some old
    pub expected : old.version ≡ p.expected_version
    pub new : r.1 ≡ patched p updated_by now old
    pub safe : IsSafe r.1
    pub stored : find (of_account account) r.0 ≡ some r.1

  patched_found :
      (c : RuntimeControl)
      → find (of_account account) rows ≡ some c
      → find
          (of_account account)
          (update_where (of_account account) (patched p updated_by now) rows)
        ≡ some (patched p updated_by now c)
  patched_found c found =
      find-update_where (of_account account) (of_account account) (patched p updated_by now) rows
        (λ y. ground arith) found
      ∙ ap some (rw (find-eq-some (of_account account) rows found).1)

  checked-Updated :
      (c c' : RuntimeControl)
      → find (of_account account) rows ≡ some c
      → c.version ≡ p.expected_version
      → check_control u (patched p updated_by now c) ≡ ok c'
      → Updated (update_where (of_account account) (patched p updated_by now) rows, c')
  checked-Updated c c' found same checked =
      let (e, safe) = check_control-eq u (patched p updated_by now c) c' checked in
      record {
        old = c;
        found = found;
        expected = same;
        new = e;
        safe = rw e safe;
        stored = patched_found c found ∙ ap some (sym e);
      }

  pub store_update_control-Updated :
      (r : List RuntimeControl × RuntimeControl)
      → store_update_control u account p updated_by now rows ≡ ok r
      → Updated r
  unfolding store_update_control
  store_update_control-Updated r h = elim (Option-cases (find (of_account account) rows)) [
    | inl missing ↦ cc (rw (missing, store_update_control) at h)
    | inr (c, found) ↦ elim (Bool-cases (c.version == p.expected_version)) [
      | inr stale ↦ cc (rw (found, stale, store_update_control) at h)
      | inl current ↦
          elim (Bool-cases (
            (patched p updated_by now c).calendar_write_enabled
            && not (patched p updated_by now c).workflow_enabled)) [
              | inl unsafe ↦ cc (rw (found, current, unsafe, store_update_control) at h)
              | inr fine ↦
                  let (c', checked, e) =
                    >>=-eq-ok (check_control u (patched p updated_by now c))
                      (λ x.
                        ok (update_where (of_account account) (patched p updated_by now) rows, x))
                      (rw (found, current, fine, store_update_control) at h) in
                  rw (sym (ok-injective e)) (checked-Updated c c' found (==→≡ _ _ current) checked)
            ]
    ]
  ]

-- Of two updates that expect one version, the second is refused with a conflict, whatever else it
-- asks for, after the first has succeeded.
pub store_update_control_stale :
    (u : Unicode) (account : Uuid) (p q : RuntimeControlPatch) (by by' : Text) (now now' : Datetime)
    (rows : List RuntimeControl) (r : List RuntimeControl × RuntimeControl)
    → store_update_control u account p by now rows ≡ ok r
    → q.expected_version ≡ p.expected_version
    → store_update_control u account q by' now' r.0
      ≡ err (operation_conflict "runtime control version changed")
unfolding store_update_control
store_update_control_stale u account p q by by' now now' rows r h same =
    let done = store_update_control-Updated u account p by now rows r h in
    let newer : (r.1.version == q.expected_version) ≡ false =
      rw done.new (ground (arith, done.expected)) in
    rw (done.stored, newer, store_update_control)
