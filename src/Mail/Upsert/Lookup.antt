-- ===== src/Mail/Upsert/Lookup.antt =====
-- What a lookup of a message finds after an ingestion.
use agenda_agent.Domain.Digest.{Uuid}
use agenda_agent.Mail.Upsert.{
  IngestedEmailRow, dict_from, is_message, is_stored, new_email, refreshed, upsert_each,
  upsert_message, upsert_messages, with_message, unique_messages,
}
use agenda_agent.Prelude.{
  Bool, List, Option, [], arith, exists, false, find, if◌then◌else◌, none, refl, some, true, ◌||◌,
  ◌∷◌, ◌≡◌, Bool-cases, Option-cases, inl, inr, sym, ◌∙◌, ap, find-eq-some,
}
use agenda_agent.Prelude.Text.{Text, text_eq, text_eq→≡, text_eq-flip, text_eq-shift, text_eq-join}
use agenda_agent.Mail.Vocabulary.{SourceEmailCandidate}
use agenda_agent.Prelude.Rows.{
  find-none_of_exists, find_of_exists, find-update_where, find-update_other, find-append_new,
  find-append_skip,
}

abbrev pub is_candidate : Text → SourceEmailCandidate → Bool
is_candidate i m = text_eq m.graph_message_id i

abbrev pub email_by_message : Text → List IngestedEmailRow → Option IngestedEmailRow
email_by_message i rows = find (is_message i) rows

-- The last of the messages that have an identifier.
abbrev pub last_message : Text → List SourceEmailCandidate → Option SourceEmailCandidate
last_message i [] = none
last_message i (m ∷ ms) = elim (last_message i ms) [
  | some later ↦ some later
  | none ↦ if is_candidate i m then some m else none
]

-- What an ingestion of a message makes of what is known of it.
abbrev pub merged : Uuid → SourceEmailCandidate → Option IngestedEmailRow → IngestedEmailRow
merged account m none = new_email account m
merged account m (some r) = refreshed m r

abbrev pub ingested :
    Uuid → Option SourceEmailCandidate → Option IngestedEmailRow → Option IngestedEmailRow
ingested account none old = old
ingested account (some m) old = some (merged account m old)

-- No two messages have one identifier.
abbrev pub HasMessageKey : List SourceEmailCandidate → Type 0
HasMessageKey [] = Unit
HasMessageKey (m ∷ ms) = (exists (is_candidate m.graph_message_id) ms ≡ false) × HasMessageKey ms

abbrev later_or :
    Option SourceEmailCandidate → Option SourceEmailCandidate → Option SourceEmailCandidate
later_or none old = old
later_or (some m) old = some m

find-with_message :
    (i : Text) (m : SourceEmailCandidate) (d : List SourceEmailCandidate)
    → find (is_candidate i) (with_message m d)
      ≡ (if is_candidate i m then some m else find (is_candidate i) d)
unfolding with_message
find-with_message i m [] = refl
find-with_message i m (x ∷ xs) = elim (Bool-cases (text_eq x.graph_message_id m.graph_message_id)) [
  | inl same ↦
      let shift = text_eq-shift x.graph_message_id m.graph_message_id i same in
      rw same (ground (arith, shift))
  | inr other ↦
      let join = text_eq-join x.graph_message_id m.graph_message_id i in
      rw other (ground (arith, join, find-with_message i m xs))
]

exists-with_message :
    (i : Text) (m : SourceEmailCandidate) (d : List SourceEmailCandidate)
    → exists (is_candidate i) (with_message m d) ≡ (is_candidate i m || exists (is_candidate i) d)
unfolding with_message
exists-with_message i m [] = refl
exists-with_message i m (x ∷ xs) =
    elim (Bool-cases (text_eq x.graph_message_id m.graph_message_id)) [
      | inl same ↦
          let shift = text_eq-shift x.graph_message_id m.graph_message_id i same in
          rw same (ground (arith, shift))
      | inr other ↦ rw other (ground (arith, exists-with_message i m xs))
    ]

pub with_message-HasMessageKey :
    (m : SourceEmailCandidate) (d : List SourceEmailCandidate)
    → HasMessageKey d
    → HasMessageKey (with_message m d)
unfolding with_message
with_message-HasMessageKey m [] h = (refl, tt)
with_message-HasMessageKey m (x ∷ xs) h =
    elim (Bool-cases (text_eq x.graph_message_id m.graph_message_id)) [
      | inl same ↦
          rw same (rw (sym (text_eq→≡ x.graph_message_id m.graph_message_id same)) h.0, h.1)
      | inr other ↦
          let new = exists-with_message x.graph_message_id m xs in
          let apart = text_eq-flip x.graph_message_id m.graph_message_id other in
          rw other (ground (arith, new, h.0, apart), with_message-HasMessageKey m xs h.1)
    ]

pub dict_from-HasMessageKey :
    (ms d : List SourceEmailCandidate) → HasMessageKey d → HasMessageKey (dict_from d ms)
unfolding dict_from
dict_from-HasMessageKey [] d h = h
dict_from-HasMessageKey (m ∷ ms) d h =
    dict_from-HasMessageKey ms (with_message m d) (with_message-HasMessageKey m d h)

-- The dictionary holds the last message of each identifier.
find-dict_from :
    (i : Text) (ms d : List SourceEmailCandidate)
    → find (is_candidate i) (dict_from d ms)
      ≡ later_or (last_message i ms) (find (is_candidate i) d)
unfolding dict_from
find-dict_from i [] d = refl
find-dict_from i (m ∷ ms) d =
    find-dict_from i ms (with_message m d) ∙ elim (Option-cases (last_message i ms)) [
      | inl none_later ↦ rw none_later (find-with_message i m d ∙ ground arith)
      | inr (later, found) ↦ rw found refl
    ]

pub keeps_key :
    (i : Text) (q : IngestedEmailRow → Bool) (m : SourceEmailCandidate) (r : IngestedEmailRow)
    → is_message i (if q r then refreshed m r else r) ≡ is_message i r
keeps_key i q m r = elim (Bool-cases (q r)) [ inl h ↦ rw h refl | inr h ↦ rw h refl ]

apart :
    (i : Text) (m : SourceEmailCandidate) (r : IngestedEmailRow)
    → is_candidate i m ≡ false
    → is_message m.graph_message_id r ≡ true
    → is_message i r ≡ false
apart i m r other same = text_eq-shift r.graph_message_id m.graph_message_id i same ∙ other

-- What one upsert does to a lookup.
pub email_by_message-upsert_message :
    (account : Uuid) (i : Text) (m : SourceEmailCandidate) (rows : List IngestedEmailRow)
    → email_by_message i (upsert_message account m rows) ≡ (
        if is_candidate i m
        then some (merged account m (email_by_message i rows))
        else email_by_message i rows)
unfolding upsert_message
email_by_message-upsert_message account i m rows = elim (Bool-cases (is_stored rows m)) [
  | inl there ↦ rw there (elim (Bool-cases (is_candidate i m)) [
    | inl hit ↦
        let e = text_eq→≡ m.graph_message_id i hit in
        let (r, found) = find_of_exists (is_message m.graph_message_id) rows there in
        let (_, is_it) = find-eq-some (is_message m.graph_message_id) rows found in
        let found_too : email_by_message i rows ≡ some r = rw (sym e) found in
        rw (hit, found_too)
          (find-update_where (is_message i) (is_message m.graph_message_id) (refreshed m) rows
              (λ y. keeps_key i (is_message m.graph_message_id) m y) found_too
            ∙ rw is_it refl)
    | inr skip ↦ rw skip (
        find-update_other (is_message i) (is_message m.graph_message_id) (refreshed m) rows
          (λ y. apart i m y skip) (λ y. refl))
  ])
  | inr absent ↦ rw absent (elim (Bool-cases (is_candidate i m)) [
    | inl hit ↦
        let e = text_eq→≡ m.graph_message_id i hit in
        let new = find-none_of_exists (is_message m.graph_message_id) rows absent in
        let new_too : email_by_message i rows ≡ none = rw (sym e) new in
        rw (hit, new_too) (find-append_new (is_message i) rows (new_email account m) new_too hit)
    | inr skip ↦ rw skip (find-append_skip (is_message i) rows (new_email account m) skip)
  ])
]

email_by_message-upsert_each :
    (account : Uuid) (i : Text) (ms : List SourceEmailCandidate) (rows : List IngestedEmailRow)
    → HasMessageKey ms
    → email_by_message i (upsert_each account ms rows)
      ≡ ingested account (find (is_candidate i) ms) (email_by_message i rows)
unfolding upsert_each
email_by_message-upsert_each account i [] rows h = refl
email_by_message-upsert_each account i (m ∷ ms) rows h =
    let one = email_by_message-upsert_message account i m rows in
    email_by_message-upsert_each account i ms (upsert_message account m rows) h.1
    ∙ elim (Bool-cases (is_candidate i m)) [
      | inl hit ↦
          let e = text_eq→≡ m.graph_message_id i hit in
          let gone = find-none_of_exists (is_candidate m.graph_message_id) ms h.0 in
          let gone_too : find (is_candidate i) ms ≡ none = rw (sym e) gone in
          rw (gone_too, one, hit) refl
      | inr skip ↦ rw (one, skip) refl
    ]

-- After an ingestion a lookup finds, for every identifier, the last of its messages merged into what
-- was known of it, and what was known where there was no such message.
pub email_by_message-upsert_messages :
    (account : Uuid) (i : Text) (messages : List SourceEmailCandidate)
    (rows : List IngestedEmailRow)
    → email_by_message i (upsert_messages account messages rows).0
      ≡ ingested account (last_message i messages) (email_by_message i rows)
unfolding upsert_messages
email_by_message-upsert_messages account i messages rows =
    email_by_message-upsert_each account i (unique_messages messages) rows
      (dict_from-HasMessageKey messages [] tt)
    ∙ ap (λ m. ingested account m (email_by_message i rows))
        (find-dict_from i messages [] ∙ elim (Option-cases (last_message i messages)) [
          | inl h ↦ rw h refl
          | inr (m, h) ↦ rw h refl
        ])
