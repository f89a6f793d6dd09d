-- ===== src/Mail/Lease.antt =====
-- Who may synchronise a folder: `begin_sync` and what follows it.
use agenda_agent.Domain.Digest.{Datetime, Uuid}
use agenda_agent.Mail.Vocabulary.{SyncStateRow, check_state}
use agenda_agent.Mail.Settle.{state_of, state_of-update}
use agenda_agent.Prelude.{
  Bool-cases, Error, List, Option-cases, Result, application_error, err, exists, find,
  if◌then◌else◌, inr, refl, some, sym, update_where, ◌∙◌, ◌≡◌, ◌⊎◌, ok, inl, ap, ok-injective, ltb,
  true, ◌+◌,
}
use agenda_agent.Prelude.Text.{Text, Unicode, is_blank}
use agenda_agent.Mail.Store.{
  MailTables, begin_sync, with_state, begun, is_folder, is_held, sync_lease,
}
use agenda_agent.Prelude.Rows.{find-none_of_exists}

module _ (u : Unicode) (account : Uuid) (folder : Text) where
  check_state-ok :
      (m : SyncStateRow) → (check_state u m ≡ ok m) ⊎ ((e : Error) × (check_state u m ≡ err e))
  unfolding check_state
  check_state-ok m = elim (Bool-cases (is_blank u m.folder_id)) [
    | inl blank ↦ rw blank (inr (_, refl))
    | inr fine ↦ rw fine (inl refl)
  ]

  -- The check reads the folder only.
  pub check_state-same :
      (m n : SyncStateRow)
      → n.folder_id ≡ m.folder_id
      → check_state u m ≡ ok m
      → check_state u n ≡ ok n
  unfolding check_state
  check_state-same m n same h = elim (Bool-cases (is_blank u m.folder_id)) [
    | inl blank ↦ cc (rw (blank, check_state) at h)
    | inr fine ↦ rw (same, fine, check_state) refl
  ]

  -- A start is refused, or it takes the row of the folder.
  pub begin_sync-cases :
      (started_at : Datetime) (w : MailTables)
      → ((e : Error) × (begin_sync account folder u started_at w ≡ (w, err e)))
        ⊎ ((m : SyncStateRow) × (find
                (is_folder account folder)
                (with_state account folder w.sync_states)
              ≡ some m)
            × (check_state u (begun started_at m) ≡ ok (begun started_at m))
            × (begin_sync account folder u started_at w ≡ (
              record w {
                sync_states =
                    update_where
                      (is_folder account folder)
                      (begun started_at)
                      (with_state account folder w.sync_states);
              },
              ok (begun started_at m),
            )))
  unfolding begin_sync
  begin_sync-cases started_at w =
      elim (Option-cases
        (find (is_folder account folder) (with_state account folder w.sync_states))) [
          | inl lost ↦ rw (lost, begin_sync) (inl (_, refl))
          | inr (m, found) ↦ elim (Bool-cases (is_held started_at m)) [
            | inl held ↦ rw (found, held, begin_sync) (inl (_, refl))
            | inr free ↦ elim (check_state-ok (begun started_at m)) [
              | inr (e, bad) ↦ rw (found, free, bad, begin_sync) (inl (_, refl))
              | inl fine ↦ inr (m, found, fine, rw (found, free, fine, begin_sync) refl)
            ]
          ]
        ]

  -- Behind a start the row is the one that it returned.
  pub begin_sync-state :
      (started_at : Datetime) (w w' : MailTables) (s : SyncStateRow)
      → begin_sync account folder u started_at w ≡ (w', ok s)
      → (state_of account folder w'.sync_states ≡ some s)
        × (check_state u s ≡ ok s)
        × ((m : SyncStateRow) × (s ≡ begun started_at m))
  begin_sync-state started_at w w' s began = elim (begin_sync-cases started_at w) [
    | inl (e, refused) ↦
        cc (ap (λ (o : MailTables × Result SyncStateRow). o.1) (sym began ∙ refused))
    | inr (m, found, fine, made) ↦
        let out = sym began ∙ made in
        let same : s ≡ begun started_at m =
          ok-injective (ap (λ (o : MailTables × Result SyncStateRow). o.1) out) in
        let tables = ap (λ (o : MailTables × Result SyncStateRow). o.0.sync_states) out in
        (
          rw (tables, same)
              (state_of-update account folder (begun started_at)
                (with_state account folder w.sync_states) (λ n. refl) found),
          rw same fine,
          (m, same),
        )
  ]

  state_of-exists :
      (states : List SyncStateRow) {s : SyncStateRow}
      → state_of account folder states ≡ some s
      → exists (is_folder account folder) states ≡ true
  state_of-exists states h = elim (Bool-cases (exists (is_folder account folder) states)) [
    | inl there ↦ there
    | inr absent ↦ cc (find-none_of_exists (is_folder account folder) states absent, h)
  ]

  -- A start on a row that is there.
  pub begin_sync-there :
      (started_at : Datetime) (w : MailTables) (s : SyncStateRow)
      → state_of account folder w.sync_states ≡ some s
      → check_state u (begun started_at s) ≡ ok (begun started_at s)
      → begin_sync account folder u started_at w ≡ (
          if is_held started_at s then (w, err (application_error "SYNC_IN_PROGRESS")) else (
            record w {
              sync_states =
                  update_where (is_folder account folder) (begun started_at) w.sync_states;
            },
            ok (begun started_at s),
          ))
  unfolding begin_sync
  begin_sync-there started_at w s there fine =
      let known = state_of-exists w.sync_states there in
      elim (Bool-cases (is_held started_at s)) [
        | inl held ↦ rw (known, there, held, begin_sync) refl
        | inr free ↦ rw (known, there, free, fine, begin_sync) (rw (known, with_state) refl)
      ]

  -- A start of a synchronisation holds its folder for ten minutes: a later start is refused with the
  -- tables as they are before these have passed, and from then on takes the folder over with its
  -- cursor.
  pub begin_sync_lease :
      (earlier later : Datetime) (w w' : MailTables) (s : SyncStateRow)
      → begin_sync account folder u earlier w ≡ (w', ok s)
      → begin_sync account folder u later w' ≡ (
          if ltb later (earlier + sync_lease)
          then (w', err (application_error "SYNC_IN_PROGRESS"))
          else (
            record w' {
              sync_states = update_where (is_folder account folder) (begun later) w'.sync_states;
            },
            ok (begun later s),
          ))
  begin_sync_lease earlier later w w' s began =
      let (there, fine, (m, same)) = begin_sync-state earlier w w' s began in
      let held : is_held later s ≡ ltb later (earlier + sync_lease) = rw same refl in
      begin_sync-there later w' s there (check_state-same s (begun later s) refl fine)
      ∙ rw held refl
