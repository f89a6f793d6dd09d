-- ===== src/Mail/Upsert/Count.antt =====
-- What an ingestion counts.
use agenda_agent.Mail.Upsert.Lookup.{
  HasMessageKey, is_candidate, dict_from-HasMessageKey, keeps_key,
}
use agenda_agent.Prelude.{
  Bool, Bool-cases, List, [], arith, exists, false, if◌then◌else◌, inl, inr, length, length-append,
  length-update_where, refl, select, suc, ◌+◌, ◌||◌, ◌∙◌, ◌∷◌, ◌≡◌, ◌≤◌, sym, true,
}
use agenda_agent.Domain.Digest.{Uuid}
use agenda_agent.Mail.Vocabulary.{SourceEmailCandidate}
use agenda_agent.Mail.Upsert.{
  dict_from, upsert_each, upsert_message, upsert_messages, with_message, IngestedEmailRow,
  is_stored, unique_messages, is_message, new_email, refreshed,
}
use agenda_agent.Prelude.Text.{text_eq, text_eq→≡, text_eq-flip}
use agenda_agent.Prelude.Rows.{exists-append, exists-update_keep}

length-with_message :
    (m : SourceEmailCandidate) (d : List SourceEmailCandidate)
    → length (with_message m d) ≤ suc (length d)
unfolding with_message
length-with_message m [] = omega arith
length-with_message m (x ∷ xs) = ground (arith, length-with_message m xs)

length-dict_from :
    (ms d : List SourceEmailCandidate) → length (dict_from d ms) ≤ length ms + length d
unfolding dict_from
length-dict_from [] d = omega arith
length-dict_from (m ∷ ms) d =
    omega (arith, length-with_message m d, length-dict_from ms (with_message m d))

-- What is stored behind one upsert.
is_stored-upsert_message :
    (account : Uuid) (m c : SourceEmailCandidate) (rows : List IngestedEmailRow)
    → is_stored (upsert_message account m rows) c
      ≡ (is_stored rows c || text_eq m.graph_message_id c.graph_message_id)
unfolding upsert_message
is_stored-upsert_message account m c rows = elim (Bool-cases (is_stored rows m)) [
  | inr absent ↦
      rw absent (exists-append (is_message c.graph_message_id) rows (new_email account m))
  | inl there ↦
      let kept =
        exists-update_keep (is_message c.graph_message_id) (is_message m.graph_message_id)
          (refreshed m) rows
          (λ y. keeps_key c.graph_message_id (is_message m.graph_message_id) m y) in
      rw (there, kept)
        (elim (Bool-cases (text_eq m.graph_message_id c.graph_message_id)) [
          | inr other ↦ rw other (ground arith)
          | inl same ↦
              let too : is_stored rows c ≡ true =
                rw (sym (text_eq→≡ m.graph_message_id c.graph_message_id same)) there in
              rw (same, too) refl
        ])
]

length-upsert_message :
    (account : Uuid) (m : SourceEmailCandidate) (rows : List IngestedEmailRow)
    → length (upsert_message account m rows) ≡ length rows + (if is_stored rows m then 0 else 1)
unfolding upsert_message
length-upsert_message account m rows = elim (Bool-cases (is_stored rows m)) [
  | inl there ↦
      rw there
        (length-update_where (is_message m.graph_message_id) (refreshed m) rows ∙ omega arith)
  | inr absent ↦ rw absent (length-append rows (new_email account m ∷ []))
]

-- The messages that are stored are the same for two tables that agree on them.
select-agree :
    (m : SourceEmailCandidate) (rows rows' : List IngestedEmailRow) (ms : List SourceEmailCandidate)
    → exists (is_candidate m.graph_message_id) ms ≡ false
    → ((c : SourceEmailCandidate)
        → is_stored rows' c ≡ (is_stored rows c || text_eq m.graph_message_id c.graph_message_id))
    → length (select (is_stored rows') ms) ≡ length (select (is_stored rows) ms)
select-agree m rows rows' [] h agree = refl
select-agree m rows rows' (c ∷ ms) h agree =
    let apart = text_eq-flip c.graph_message_id m.graph_message_id (ground arith) in
    ground (arith, agree c, apart, select-agree m rows rows' ms (ground arith) agree)

length-upsert_each :
    (account : Uuid) (ms : List SourceEmailCandidate) (rows : List IngestedEmailRow)
    → HasMessageKey ms
    → length (upsert_each account ms rows) + length (select (is_stored rows) ms)
      ≡ length rows + length ms
unfolding upsert_each
length-upsert_each account [] rows h = omega arith
length-upsert_each account (m ∷ ms) rows h =
    let later = length-upsert_each account ms (upsert_message account m rows) h.1 in
    let one = length-upsert_message account m rows in
    let same =
      select-agree m rows (upsert_message account m rows) ms h.0
        (λ c. is_stored-upsert_message account m c rows) in
    elim (Bool-cases (is_stored rows m)) [
      | inl there ↦
          let one' : length (upsert_message account m rows) ≡ length rows + 0 = rw there at one in
          rw there (omega (arith, later, one', same))
      | inr absent ↦
          let one' : length (upsert_message account m rows) ≡ length rows + 1 = rw absent at one in
          rw absent (omega (arith, later, one', same))
    ]

length-select :
    (p : SourceEmailCandidate → Bool) (ms : List SourceEmailCandidate)
    → length (select p ms) ≤ length ms
length-select p [] = omega arith
length-select p (m ∷ ms) = ground (arith, length-select p ms)

-- The table grows by exactly the messages that are counted as inserted, and both counts together are
-- at most the messages of the page.
pub upsert_messages_counts :
    (account : Uuid) (messages : List SourceEmailCandidate) (rows : List IngestedEmailRow)
    → let (rows', counts) = upsert_messages account messages rows in
      (length rows' ≡ length rows + counts.inserted)
      × (counts.inserted + counts.updated ≤ length messages)
unfolding upsert_messages
upsert_messages_counts account messages rows =
    let growth =
      length-upsert_each account (unique_messages messages) rows
        (dict_from-HasMessageKey messages [] tt) in
    let few = length-dict_from messages [] in
    let part = length-select (is_stored rows) (unique_messages messages) in
    (omega (arith, growth, part), omega (arith, few, part))
