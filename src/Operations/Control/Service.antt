-- ===== src/Operations/Control/Service.antt =====
-- `OperationsControlService.update_control`: a successful change of the switches is one that the
-- deployment supports.
use agenda_agent.Prelude.{
  >>=-eq-ok, Bool-cases, List, Option-cases, ap, arith, find, find-eq-some, inl, inr, is_none,
  is_some, ok, ok-injective, some, sym, true, update_where, ◌&&◌, ◌+◌, ◌∙◌, ◌≡◌, Result-cases, refl,
}
use agenda_agent.Domain.Digest.{Datetime, Uuid}
use agenda_agent.Operations.Control.{
  RuntimeCapabilities, RuntimeControl, RuntimeControlDefaults, RuntimeControlPatch, is_on,
  of_account, read_control, refuse_patch, update_control, check_control, default_recipient,
  ensure_control, patched, store_update_control, with_row,
}
use agenda_agent.Operations.Control.Laws.{IsSafe, check_control-eq, store_update_control-Updated}
use agenda_agent.Prelude.Text.{Text, Unicode}
use agenda_agent.Prelude.Rows.{find-update_where}

-- What `ensure_control` returns is what the table holds.
module _ (u : Unicode) (account : Uuid) (d : RuntimeControlDefaults) where
  filled_found :
      (rows : List RuntimeControl) (c : RuntimeControl)
      → find (of_account account) rows ≡ some c
      → find (of_account account) (update_where (of_account account) (default_recipient d) rows)
        ≡ some (default_recipient d c)
  filled_found rows c found =
      find-update_where (of_account account) (of_account account) (default_recipient d) rows
        (λ y. ground arith) found
      ∙ ap some (rw (find-eq-some (of_account account) rows found).1)

  read_control-found :
      (rows : List RuntimeControl) (r : List RuntimeControl × RuntimeControl)
      → read_control u account d rows ≡ ok r
      → find (of_account account) r.0 ≡ some r.1
  unfolding read_control
  read_control-found rows r h = elim (Option-cases (find (of_account account) rows)) [
    | inl missing ↦ cc (rw (missing, read_control) at h)
    | inr (c, found) ↦
        elim (Bool-cases (is_none c.daily_brief_recipient && is_some d.daily_brief_recipient)) [
          | inl fills ↦
              let (c', checked, e) =
                >>=-eq-ok (check_control u (default_recipient d c))
                  (λ x. ok (update_where (of_account account) (default_recipient d) rows, x))
                  (rw (found, fills, read_control) at h) in
              rw (sym (ok-injective e)) (
                filled_found rows c found
                ∙ ap some (sym (check_control-eq u (default_recipient d c) c' checked).0))
          | inr keeps ↦
              let (c', checked, e) =
                >>=-eq-ok (check_control u c) (λ x. ok (rows, x))
                  (rw (found, keeps, read_control) at h) in
              rw (sym (ok-injective e)) (found ∙ ap some (sym (check_control-eq u c c' checked).0))
        ]
  ]

-- A change that the deployment supports: each switch that the patch turns on is available, and the
-- Daily Brief has someone to go to.
pub record IsSupported (k : RuntimeCapabilities) (p : RuntimeControlPatch) (c : RuntimeControl)
    : Type 0 where
  pub safe : IsSafe c
  pub version : c.version ≡ p.expected_version + 1
  pub workflow : is_on p.workflow_enabled ≡ true → k.workflow_processing_available ≡ true
  pub calendar : is_on p.calendar_write_enabled ≡ true → k.calendar_write_available ≡ true
  pub brief : is_on p.daily_brief_enabled ≡ true → k.daily_brief_available ≡ true
  pub recipient : is_on p.daily_brief_enabled ≡ true → is_some c.daily_brief_recipient ≡ true

patched-IsSupported :
    (k : RuntimeCapabilities) (p : RuntimeControlPatch) (by : Text) (now : Datetime)
    (c : RuntimeControl)
    → refuse_patch k c p ≡ ok tt
    → c.version ≡ p.expected_version
    → IsSafe (patched p by now c)
    → IsSupported k p (patched p by now c)
unfolding refuse_patch
patched-IsSupported k p by now c allowed expected safe = record {
  safe = safe;
  version = ground arith;
  workflow = ground arith;
  calendar = ground arith;
  brief = ground arith;
  recipient = ground arith;
}

-- What the service does after it has read the switches: a step that the store accepts.
stored-IsSupported :
    (u : Unicode) (account : Uuid) (k : RuntimeCapabilities) (p : RuntimeControlPatch) (by : Text)
    (now : Datetime) (rows : List RuntimeControl) (c : RuntimeControl)
    (r : List RuntimeControl × RuntimeControl)
    → find (of_account account) rows ≡ some c
    → refuse_patch k c p ≡ ok tt
    → store_update_control u account p by now rows ≡ ok r
    → IsSupported k p r.1 × (find (of_account account) r.0 ≡ some r.1)
stored-IsSupported u account k p by now rows c r found allowed h =
    let done = store_update_control-Updated u account p by now rows r h in
    let same : c ≡ done.old = cc (found, done.found) in
    let kept =
      patched-IsSupported k p by now done.old (rw same at allowed) done.expected
        (rw done.new at done.safe) in
    (rw done.new kept, done.stored)

ensure_control-eq :
    (u : Unicode) (account : Uuid) (d : RuntimeControlDefaults) (now : Datetime)
    (rows : List RuntimeControl)
    → read_control u account d (with_row account d now rows) ≡ ensure_control u account d now rows
unfolding ensure_control
ensure_control-eq u account d now rows = refl

-- A successful update of the switches turns on only what the deployment supports, leaves calendar
-- writes off without the workflow, gives the Daily Brief a recipient when it is turned on, raises
-- the expected version by one, and is what the table then holds.
pub update_control-IsSupported :
    (u : Unicode) (account : Uuid) (d : RuntimeControlDefaults) (k : RuntimeCapabilities)
    (p : RuntimeControlPatch) (by : Text) (now : Datetime) (rows : List RuntimeControl)
    (c : RuntimeControl)
    → (update_control u account d k p by now rows).0 ≡ ok c
    → IsSupported k p c
      × (find (of_account account) (update_control u account d k p by now rows).1 ≡ some c)
unfolding update_control
update_control-IsSupported u account d k p by now rows c h =
    elim (Result-cases (ensure_control u account d now rows)) [
      | inr (x, e) ↦ cc (rw (e, update_control) at h)
      | inl ((rows', c'), e) ↦ elim (Result-cases (refuse_patch k c' p)) [
        | inr (x, f) ↦ cc (rw (e, f, update_control) at h)
        | inl (t, f) ↦ elim (Result-cases (store_update_control u account p by now rows')) [
          | inr (x, g) ↦ cc (rw (e, f, g, update_control) at h)
          | inl (r, g) ↦
              let found =
                read_control-found u account d (with_row account d now rows) (rows', c')
                  (ensure_control-eq u account d now rows ∙ e) in
              let (s, stored) = stored-IsSupported u account k p by now rows' c' r found f g in
              let same : r.1 ≡ c = ok-injective (rw (e, f, g, update_control) at h) in
              rw (sym same, e, f, g, update_control) (s, stored)
        ]
      ]
    ]
