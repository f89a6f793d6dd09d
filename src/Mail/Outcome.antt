-- ===== src/Mail/Outcome.antt =====
-- How a whole synchronisation ends.
use agenda_agent.Prelude.Steps.{pass}
use agenda_agent.Mail.Vocabulary.{SyncStateRow}
use agenda_agent.Prelude.{Error, err, inl, inr, refl, some, ◌≡◌, ◌⊎◌}
use agenda_agent.Prelude.Text.{Unicode}
use agenda_agent.Mail.Sync.{SyncContext, synchronize}
use agenda_agent.Mail.Store.{MailTables, begin_sync, begun, with_state}
use agenda_agent.Mail.Settle.{state_of, Settled, settle_sync-Settled, pages-Ends, state_of-update}
use agenda_agent.Mail.Lease.{begin_sync-cases}

-- A start that is refused raises the same and changes nothing; any other one leaves the row of the
-- folder settled.
abbrev pub Outcome : Unicode → SyncContext → MailTables → Type 0
Outcome u x w =
    ((e : Error) × (begin_sync x.account_id x.folder_id u x.started_at w ≡ (w, err e))
      × (synchronize x u w ≡ (w, err e)))
    ⊎ ((s : SyncStateRow) × (state_of x.account_id x.folder_id (synchronize x u w).0.sync_states
          ≡ some s)
        × Settled x (synchronize x u w).1 s)

module _ (u : Unicode) (x : SyncContext) where
  -- A synchronisation always ends, and however it ends its folder is settled. If its start is
  -- refused, it raises the same and changes nothing. If it returns, the folder has succeeded, with
  -- the delta link that it returns. If it raises, the folder has failed, with the code of the
  -- exception, and without a cursor if the exception says that the cursor is unusable.
  pub synchronize-Settled : (w : MailTables) → Outcome u x w
  unfolding synchronize pass
  synchronize-Settled w = elim (begin_sync-cases u x.account_id x.folder_id x.started_at w) [
    | inl (e, refused) ↦ inl (e, refused, rw (refused, synchronize) refl)
    | inr (m, found, fine, made) ↦ inr (
        rw (made, synchronize)
          (settle_sync-Settled x _ (
            pages-Ends x x.max_pages _ _ (
              state_of-update x.account_id x.folder_id (begun x.started_at)
                (with_state x.account_id x.folder_id w.sync_states) (λ n. refl) found))))
  ]
