-- ===== src/Messages/Statements/Sound.antt =====
-- The invariant of the tables of the messages component, and that the updates keep it.
use at_gateway.Prelude.{
  ℕ, suc, ◌<◌, ◌≡◌, refl, Bool, true, some, List, [], ◌∷◌, ◌++◌, arith, update_where, All,
  All-update_where, All-append, last_of-append, any_where, map, inl, inr, Bool-cases, Option-cases,
  ◌==◌, string_eq,
}
use at_gateway.Messages.State.{ProcessingState, StateEntry, last_state, append_state}
use at_gateway.Messages.Rows.{MessageRow, RecipientRow, Db}
use at_gateway.Messages.Statements.{
  move_message, move_recipient, insert_message, insert_rows, insert_recipients, same_recipient,
  recipients_result,
}
use at_gateway.Messages.Statements.Kept.{is_known, IsSynced, IsKnown, KeptByUpdates}

-- The ids of a table ascend and stay below the next one.
abbrev pub Ascends : ℕ → List ℕ → Type 0
Ascends next [] = Unit
Ascends next (i ∷ is) = (i < next) × All (λ j. i < j) is × Ascends next is

abbrev pub message_ids : List MessageRow → List ℕ
message_ids ms = map (λ m. m.id) ms

abbrev pub recipient_ids : List RecipientRow → List ℕ
recipient_ids rs = map (λ r. r.id) rs

pub record IsSound (db : Db) : Type 0 where
  pub synced : All IsSynced db.messages
  pub known : All (λ r. IsKnown r.states) db.recipients
  pub message_order : Ascends db.next_message_id (message_ids db.messages)
  pub recipient_order : Ascends db.next_recipient_id (recipient_ids db.recipients)

last_state-append :
    (states : List StateEntry) (s : ProcessingState) (now : ℕ)
    → last_state (append_state s now states) ≡ some s
last_state-append states s now =
    rw (last_of-append states (record { state = s; at = now }), last_state)

pub move_message-IsSynced :
    (s : ProcessingState) (now : ℕ) (m : MessageRow) → IsSynced (move_message s now m)
move_message-IsSynced s now m = last_state-append m.states s now

pub move_recipient-IsKnown :
    (s : ProcessingState) (now : ℕ) (r : RecipientRow)
    → is_known s ≡ true
    → IsKnown (move_recipient s now r).states
move_recipient-IsKnown s now r k = (s, last_state-append r.states s now, k)

-- An update that keeps the ids.
ids-update_where :
    (p : MessageRow → Bool) (f : MessageRow → MessageRow)
    → ((m : MessageRow) → (f m).id ≡ m.id)
    → (ms : List MessageRow) → message_ids (update_where p f ms) ≡ message_ids ms
ids-update_where p f e [] = refl
ids-update_where p f e (m ∷ ms) = ground (arith, e m, ids-update_where p f e ms)

recipient_ids-update_where :
    (p : RecipientRow → Bool) (f : RecipientRow → RecipientRow)
    → ((r : RecipientRow) → (f r).id ≡ r.id)
    → (rs : List RecipientRow) → recipient_ids (update_where p f rs) ≡ recipient_ids rs
recipient_ids-update_where p f e [] = refl
recipient_ids-update_where p f e (r ∷ rs) = ground (arith, e r, recipient_ids-update_where p f e rs)

-- Moving messages, by any test.
module _ (p : MessageRow → Bool) (s : ProcessingState) (now : ℕ) (db : Db) where
  pub update_messages-IsSound :
      IsSound db
      → IsSound (record db { messages = update_where p (move_message s now) db.messages })
  update_messages-IsSound h = record {
    synced =
        All-update_where IsSynced p (move_message s now) (λ m _ _. move_message-IsSynced s now m)
          db.messages h.synced;
    known = h.known;
    message_order =
        rw (ids-update_where p (move_message s now) (λ m. refl) db.messages) h.message_order;
    recipient_order = h.recipient_order;
  }

-- Moving recipients, by any test, with an additional assignment that leaves the history.
module _ (p : RecipientRow → Bool) (s : ProcessingState) (now : ℕ)
    (set : RecipientRow → RecipientRow)
    (set_states : (r : RecipientRow) → (set r).states ≡ r.states)
    (set_id : (r : RecipientRow) → (set r).id ≡ r.id) (k : is_known s ≡ true) (db : Db) where
  pub update_recipients-IsSound :
      IsSound db
      → IsSound (record db {
        recipients = update_where p (λ r. set (move_recipient s now r)) db.recipients;
      })
  update_recipients-IsSound h = record {
    synced = h.synced;
    known =
        All-update_where (λ r. IsKnown r.states) p (λ r. set (move_recipient s now r))
          (λ r _ _. rw (set_states (move_recipient s now r)) (move_recipient-IsKnown s now r k))
          db.recipients h.known;
    message_order = h.message_order;
    recipient_order =
        rw
          (recipient_ids-update_where p (λ r. set (move_recipient s now r))
            (λ r. set_id (move_recipient s now r)) db.recipients)
          h.recipient_order;
  }

-- A row with the next id at the end of a table.
Ascends-snoc : (n : ℕ) (is : List ℕ) → Ascends n is → Ascends (suc n) (is ++ n ∷ [])
Ascends-snoc n [] h = omega arith
Ascends-snoc n (i ∷ is) (b, later, h) =
    (omega arith, All-append (λ j. i < j) is (n ∷ []) later (b, tt), Ascends-snoc n is h)

message_ids-append :
    (ms ns : List MessageRow) → message_ids (ms ++ ns) ≡ message_ids ms ++ message_ids ns
message_ids-append [] ns = refl
message_ids-append (m ∷ ms) ns = rw (message_ids-append ms ns)

recipient_ids-append :
    (rs qs : List RecipientRow) → recipient_ids (rs ++ qs) ≡ recipient_ids rs ++ recipient_ids qs
recipient_ids-append [] qs = refl
recipient_ids-append (r ∷ rs) qs = rw (recipient_ids-append rs qs)

pub insert_message-IsSound :
    (m : MessageRow) (db : Db) → IsSynced m → IsSound db → IsSound (insert_message m db).1
unfolding insert_message
insert_message-IsSound m db e h =
    elim (Bool-cases (any_where (λ (r : MessageRow). r.ext_id == m.ext_id) db.messages)) [
      | inl clash ↦ rw clash h
      | inr fresh ↦ rw fresh (record {
        synced = All-append IsSynced db.messages _ h.synced (e, tt);
        known = h.known;
        message_order =
            rw (message_ids-append db.messages (record m { id = db.next_message_id } ∷ []))
              (Ascends-snoc db.next_message_id (message_ids db.messages) h.message_order);
        recipient_order = h.recipient_order;
      })
    ]

-- The table that an insertion of known rows leaves.
insert_rows-IsSound :
    (rs : List RecipientRow) (next : ℕ) (table : List RecipientRow) (rows : List RecipientRow)
    (n : ℕ)
    → All (λ r. IsKnown r.states) rs
    → All (λ r. IsKnown r.states) table
    → Ascends next (recipient_ids table)
    → insert_rows rs next table ≡ some (rows, n)
    → All (λ r. IsKnown r.states) rows × Ascends n (recipient_ids rows)
unfolding insert_rows
insert_rows-IsSound [] next table rows n ks kt o e = ground arith
insert_rows-IsSound (r ∷ rs) next table rows n ks kt o e =
    elim (Bool-cases (any_where (same_recipient r) table)) [
      | inl clash ↦ absurd (ground arith)
      | inr fresh ↦
          insert_rows-IsSound rs (suc next) (table ++ record r { id = next } ∷ []) rows n ks.1
            (All-append (λ r. IsKnown r.states) table _ kt (ks.0, tt))
            (rw (recipient_ids-append table (record r { id = next } ∷ []))
              (Ascends-snoc next (recipient_ids table) o))
            (ground arith)
    ]

pub insert_recipients-IsSound :
    (rs : List RecipientRow) (db : Db)
    → All (λ r. IsKnown r.states) rs
    → IsSound db
    → IsSound (insert_recipients rs db).1
unfolding insert_recipients
insert_recipients-IsSound rs db ks h =
    elim (Option-cases (insert_rows rs db.next_recipient_id db.recipients)) [
      | inl e ↦ rw (e, recipients_result) h
      | inr ((rows, n), e) ↦
          let (k, o) =
            insert_rows-IsSound rs db.next_recipient_id db.recipients rows n ks h.known
              h.recipient_order e in
          rw (e, recipients_result)
            (record {
              synced = h.synced;
              known = k;
              message_order = h.message_order;
              recipient_order = o;
            })
    ]

pub IsSound-kept : KeptByUpdates IsSound
IsSound-kept = record {
  move_messages = update_messages-IsSound;
  move_recipients = update_recipients-IsSound;
  add_message = insert_message-IsSound;
  add_recipients = insert_recipients-IsSound;
}
