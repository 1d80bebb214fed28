-- ===== src/Messages/Statements/History.antt =====
-- The tables of the messages component only grow: no row goes, and no history entry is rewritten.
use at_gateway.Prelude.{
  subst, ℕ, ◌≡◌, refl, Bool, some, List, [], ◌∷◌, ◌++◌, arith, update_where, All, any_where, inl,
  inr, Bool-cases, Option-cases, ◌==◌, string_eq, suc,
}
use mathlib.Core.List.{append_assoc, append-nil}
use at_gateway.Messages.State.{ProcessingState, StateEntry, append_state}
use at_gateway.Messages.Rows.{MessageRow, RecipientRow, Db}
use at_gateway.Messages.Statements.{
  move_message, move_recipient, insert_message, insert_rows, insert_recipients, same_recipient,
  recipients_result,
}
use at_gateway.Messages.Statements.Kept.{IsSynced, IsKnown, KeptByUpdates}

-- A later history continues an earlier one.
abbrev pub Continues : List StateEntry → List StateEntry → Type 0
Continues old new = (added : List StateEntry) × (new ≡ old ++ added)

-- Position by position the same rows, with continued histories; new rows only at the end.
abbrev pub MessagesGrow : List MessageRow → List MessageRow → Type 0
MessagesGrow [] ms = Unit
MessagesGrow (o ∷ os) [] = ⊥
MessagesGrow (o ∷ os) (m ∷ ms) =
    (m.id ≡ o.id)
    × (m.ext_id ≡ o.ext_id)
    × (m.content ≡ o.content)
    × Continues o.states m.states
    × MessagesGrow os ms

abbrev pub RecipientsGrow : List RecipientRow → List RecipientRow → Type 0
RecipientsGrow [] rs = Unit
RecipientsGrow (o ∷ os) [] = ⊥
RecipientsGrow (o ∷ os) (r ∷ rs) =
    (r.id ≡ o.id) × Continues o.states r.states × RecipientsGrow os rs

pub record Grows (old db : Db) : Type 0 where
  pub messages_grow : MessagesGrow old.messages db.messages
  pub recipients_grow : RecipientsGrow old.recipients db.recipients

Continues-refl : (states : List StateEntry) → Continues states states
Continues-refl states = ([], rw append-nil)

Continues-append :
    (old states : List StateEntry) (s : ProcessingState) (now : ℕ)
    → Continues old states
    → Continues old (append_state s now states)
Continues-append old states s now (added, e) =
    (append_state s now added, rw e (append_assoc old added _))

MessagesGrow-refl : (ms : List MessageRow) → MessagesGrow ms ms
MessagesGrow-refl [] = tt
MessagesGrow-refl (m ∷ ms) = (refl, refl, refl, Continues-refl m.states, MessagesGrow-refl ms)

RecipientsGrow-refl : (rs : List RecipientRow) → RecipientsGrow rs rs
RecipientsGrow-refl [] = tt
RecipientsGrow-refl (r ∷ rs) = (refl, Continues-refl r.states, RecipientsGrow-refl rs)

pub Grows-refl : (db : Db) → Grows db db
Grows-refl db = record {
  messages_grow = MessagesGrow-refl db.messages;
  recipients_grow = RecipientsGrow-refl db.recipients;
}

MessagesGrow-update :
    (p : MessageRow → Bool) (s : ProcessingState) (now : ℕ) (os ms : List MessageRow)
    → MessagesGrow os ms
    → MessagesGrow os (update_where p (move_message s now) ms)
MessagesGrow-update p s now [] ms h = tt
MessagesGrow-update p s now (o ∷ os) [] h = h
MessagesGrow-update p s now (o ∷ os) (m ∷ ms) (i, x, c, g, h) = elim (Bool-cases (p m)) [
  | inl moved ↦
      rw moved
        (i, x, c, Continues-append o.states m.states s now g, MessagesGrow-update p s now os ms h)
  | inr still ↦ rw still (i, x, c, g, MessagesGrow-update p s now os ms h)
]

RecipientsGrow-update :
    (p : RecipientRow → Bool) (s : ProcessingState) (now : ℕ) (set : RecipientRow → RecipientRow)
    → ((r : RecipientRow) → (set r).states ≡ r.states)
    → ((r : RecipientRow) → (set r).id ≡ r.id)
    → (os rs : List RecipientRow) → RecipientsGrow os rs
    → RecipientsGrow os (update_where p (λ r. set (move_recipient s now r)) rs)
RecipientsGrow-update p s now set e f [] rs h = tt
RecipientsGrow-update p s now set e f (o ∷ os) [] h = h
RecipientsGrow-update p s now set e f (o ∷ os) (r ∷ rs) (i, g, h) =
    let rest = RecipientsGrow-update p s now set e f os rs h in
    elim (Bool-cases (p r)) [
      | inl moved ↦
          rw (moved, f (move_recipient s now r), e (move_recipient s now r))
            (i, Continues-append o.states r.states s now g, rest)
      | inr still ↦ rw still (i, g, rest)
    ]

MessagesGrow-append : (os ms ns : List MessageRow) → MessagesGrow os ms → MessagesGrow os (ms ++ ns)
MessagesGrow-append [] ms ns h = tt
MessagesGrow-append (o ∷ os) [] ns h = absurd h
MessagesGrow-append (o ∷ os) (m ∷ ms) ns (i, x, c, g, h) =
    (i, x, c, g, MessagesGrow-append os ms ns h)

RecipientsGrow-append :
    (os rs qs : List RecipientRow) → RecipientsGrow os rs → RecipientsGrow os (rs ++ qs)
RecipientsGrow-append [] rs qs h = tt
RecipientsGrow-append (o ∷ os) [] qs h = absurd h
RecipientsGrow-append (o ∷ os) (r ∷ rs) qs (i, g, h) = (i, g, RecipientsGrow-append os rs qs h)

RecipientsGrow-insert_rows :
    (os rs : List RecipientRow) (next : ℕ) (table rows : List RecipientRow) (n : ℕ)
    → RecipientsGrow os table
    → insert_rows rs next table ≡ some (rows, n)
    → RecipientsGrow os rows
unfolding insert_rows
RecipientsGrow-insert_rows os [] next table rows n h e =
    let same : table ≡ rows = ground arith in subst (RecipientsGrow os) same h
RecipientsGrow-insert_rows os (r ∷ rs) next table rows n h e =
    elim (Bool-cases (any_where (same_recipient r) table)) [
      | inl clash ↦ absurd (ground arith)
      | inr fresh ↦
          RecipientsGrow-insert_rows os rs (suc next) (table ++ record r { id = next } ∷ []) rows n
            (RecipientsGrow-append os table _ h) (ground arith)
    ]

module _ (old : Db) where
  add_message-Grows :
      (m : MessageRow) (db : Db) → IsSynced m → Grows old db → Grows old (insert_message m db).1
  unfolding insert_message
  add_message-Grows m db e h =
      elim (Bool-cases (any_where (λ (r : MessageRow). r.ext_id == m.ext_id) db.messages)) [
        | inl clash ↦ rw clash h
        | inr fresh ↦ rw fresh (record {
          messages_grow = MessagesGrow-append old.messages db.messages _ h.messages_grow;
          recipients_grow = h.recipients_grow;
        })
      ]

  add_recipients-Grows :
      (rs : List RecipientRow) (db : Db)
      → All (λ r. IsKnown r.states) rs
      → Grows old db
      → Grows old (insert_recipients rs db).1
  unfolding insert_recipients
  add_recipients-Grows rs db ks h =
      elim (Option-cases (insert_rows rs db.next_recipient_id db.recipients)) [
        | inl e ↦ rw (e, recipients_result) h
        | inr ((rows, n), e) ↦
            rw (e, recipients_result)
              (record {
                messages_grow = h.messages_grow;
                recipients_grow =
                    RecipientsGrow-insert_rows old.recipients rs db.next_recipient_id db.recipients
                      rows n h.recipients_grow e;
              })
      ]

  pub Grows-kept : KeptByUpdates (Grows old)
  Grows-kept = record {
    move_messages = λ p s now db h. record {
      messages_grow = MessagesGrow-update p s now old.messages db.messages h.messages_grow;
      recipients_grow = h.recipients_grow;
    };
    move_recipients = λ p s now set e f k db h. record {
      messages_grow = h.messages_grow;
      recipients_grow =
          RecipientsGrow-update p s now set e f old.recipients db.recipients h.recipients_grow;
    };
    add_message = add_message-Grows;
    add_recipients = add_recipients-Grows;
  }
