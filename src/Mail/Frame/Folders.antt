-- ===== src/Mail/Frame/Folders.antt =====
-- Synchronisations of one folder and the rows of the others.
use agenda_agent.Domain.Digest.{Uuid}
use agenda_agent.Mail.Vocabulary.{SyncStateRow}
use agenda_agent.Prelude.{
  ==→≡, Bool-cases, List, Option, arith, exists, false, inl, inr, refl, true, update_where, ◌∙◌,
  ◌≡◌,
}
use agenda_agent.Prelude.Text.{Text, Unicode, text_eq→≡}
use agenda_agent.Mail.Sync.{SyncContext, synchronize}
use agenda_agent.Mail.Frame.{KeptByStore, synchronize-keeps}
use agenda_agent.Mail.Store.{
  MailTables, is_folder, idle_state, begun, with_state, failed_with, invalidated,
}
use agenda_agent.Mail.Lease.{begin_sync-cases}
use agenda_agent.Mail.Settle.{state_of, ingest_with-cases}
use agenda_agent.Prelude.Rows.{find-update_other, find-append_skip}

module _ (u : Unicode) (x : SyncContext) (account : Uuid) (folder : Text)
    (other : is_folder account folder (idle_state x.account_id x.folder_id) ≡ false) where
  -- A row of the folder of the synchronisation is not one of the other folder.
  apart :
      (m : SyncStateRow)
      → is_folder x.account_id x.folder_id m ≡ true
      → is_folder account folder m ≡ false
  apart m its =
      let same_account = ==→≡ m.account_id x.account_id (ground arith) in
      let same_folder = text_eq→≡ m.folder_id x.folder_id (ground arith) in
      rw (same_account, same_folder) other

  abbrev Looks : Option SyncStateRow → MailTables → Type 0
  Looks o w = state_of account folder w.sync_states ≡ o

  update-looks :
      (o : Option SyncStateRow) (write : SyncStateRow → SyncStateRow) (states : List SyncStateRow)
      → ((m : SyncStateRow)
          → ((write m).account_id ≡ m.account_id) × ((write m).folder_id ≡ m.folder_id))
      → state_of account folder states ≡ o
      → state_of account folder (update_where (is_folder x.account_id x.folder_id) write states) ≡ o
  update-looks o write states same h =
      find-update_other (is_folder account folder) (is_folder x.account_id x.folder_id) write states
        apart (λ m. rw ((same m).0, (same m).1) refl)
      ∙ h

  with_state-looks :
      (o : Option SyncStateRow) (states : List SyncStateRow)
      → state_of account folder states ≡ o
      → state_of account folder (with_state x.account_id x.folder_id states) ≡ o
  with_state-looks o states h =
      elim (Bool-cases (exists (is_folder x.account_id x.folder_id) states)) [
        | inl there ↦ rw there h
        | inr absent ↦ rw absent (
            find-append_skip (is_folder account folder) states (idle_state x.account_id x.folder_id)
              other
            ∙ h)
      ]

  Looks-synchronize : (o : Option SyncStateRow) → KeptByStore u x (Looks o)
  Looks-synchronize o = record {
    begin = λ w h. elim (begin_sync-cases u x.account_id x.folder_id x.started_at w) [
      | inl (e, refused) ↦ rw refused h
      | inr (m, found, fine, made) ↦ rw made (
          update-looks o (begun x.started_at) (with_state x.account_id x.folder_id w.sync_states)
            (λ n. (refl, refl)) (with_state-looks o w.sync_states h))
    ];
    ingest = λ missing messages write w same h.
        elim (ingest_with-cases x.account_id x.folder_id missing messages write w) [
          | inl e ↦ rw e (update-looks o write w.sync_states same h)
          | inr e ↦ rw e h
        ];
    fail = λ code w h.
        update-looks o (failed_with code x.failed_at) w.sync_states (λ m. (refl, refl)) h;
    invalidate = λ code w h.
        update-looks o (invalidated code x.failed_at) w.sync_states (λ m. (refl, refl)) h;
  }

  -- A synchronisation leaves the rows of all other folders as they are, however it ends.
  pub synchronize-other_folder :
      (w : MailTables)
      → state_of account folder (synchronize x u w).0.sync_states
        ≡ state_of account folder w.sync_states
  synchronize-other_folder w =
      synchronize-keeps u x (Looks (state_of account folder w.sync_states))
        (Looks-synchronize (state_of account folder w.sync_states)) w refl
