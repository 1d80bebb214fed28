-- ===== src/Inbox/Emission/Stored.antt =====
-- The table of the inbox holds a message once: internal/inbox/repository.go.
use at_gateway.Prelude.{
  ℕ, suc, ◌≡◌, refl, ◌∙◌, Bool, true, false, ◌||◌, List, [], ◌∷◌, ◌++◌, ==_sym, string_eq,
  any_where, select_where, Bool-cases, inl, inr, arith,
}
use at_gateway.Inbox.Emission.{
  InboxRow, InboxEnv, InboxWorld, IncomingMessage, same_message, insert_row, stored_row,
  persist_inbound, new_inbound_model, is_recent, cleanup_inbox,
}

-- No two rows have the same device and message.
abbrev pub Distinct : List InboxRow → Type 0
Distinct [] = Unit
Distinct (r ∷ rows) = (any_where (same_message r) rows ≡ false) × Distinct rows

same_message_sym : (a b : InboxRow) → same_message a b ≡ same_message b a
same_message_sym a b = rw (==_sym a.device_id b.device_id, ==_sym a.message_id b.message_id) refl

any-append :
    (r q : InboxRow) (rows : List InboxRow)
    → any_where (same_message r) (rows ++ q ∷ [])
      ≡ (any_where (same_message r) rows || same_message r q)
any-append r q [] = ground arith
any-append r q (x ∷ rows) = rw (any-append r q rows) (ground arith)

Distinct-append :
    (q : InboxRow) (rows : List InboxRow)
    → any_where (same_message q) rows ≡ false
    → Distinct rows
    → Distinct (rows ++ q ∷ [])
Distinct-append q [] n h = (refl, tt)
Distinct-append q (r ∷ rows) n h =
    let apart : same_message r q ≡ false = same_message_sym r q ∙ ground arith in
    let rest : any_where (same_message q) rows ≡ false = ground arith in
    (rw (any-append r q rows, h.0, apart) refl, Distinct-append q rows rest h.1)

any-select :
    (r : InboxRow) (p : InboxRow → Bool) (rows : List InboxRow)
    → any_where (same_message r) rows ≡ false
    → any_where (same_message r) (select_where p rows) ≡ false
any-select r p [] n = refl
any-select r p (q ∷ rows) n = ground (arith, any-select r p rows)

Distinct-select :
    (p : InboxRow → Bool) (rows : List InboxRow) → Distinct rows → Distinct (select_where p rows)
Distinct-select p [] h = tt
Distinct-select p (r ∷ rows) h = elim (Bool-cases (p r)) [
  | inl kept ↦ rw kept (any-select r p rows h.0, Distinct-select p rows h.1)
  | inr gone ↦ rw gone (Distinct-select p rows h.1)
]

insert_row-Distinct :
    (row : InboxRow) (next : ℕ) (rows : List InboxRow)
    → Distinct rows
    → Distinct (insert_row row next rows).0
unfolding insert_row
insert_row-Distinct row next rows h = elim (Bool-cases (any_where (same_message row) rows)) [
  | inl known ↦ rw known h
  | inr fresh ↦ rw fresh (Distinct-append (record row { id = next }) rows fresh h)
]

stored_row-Distinct :
    (x : List InboxRow × Bool) (w : InboxWorld)
    → Distinct x.0
    → Distinct w.rows
    → Distinct (stored_row x w).rows
stored_row-Distinct (rows, true) w h k = h
stored_row-Distinct (rows, false) w h k = k

pub persist_inbound-Distinct :
    (env : InboxEnv) (m : IncomingMessage) (w : InboxWorld)
    → Distinct w.rows
    → Distinct (persist_inbound env m w).rows
unfolding persist_inbound
persist_inbound-Distinct env m w h = elim (Bool-cases (env.fault w.steps)) [
  | inl broken ↦ rw broken h
  | inr works ↦ rw works (
      stored_row-Distinct (insert_row (new_inbound_model m (env.clock w.steps)) w.next_id w.rows)
        (record w { steps = suc w.steps })
        (insert_row-Distinct (new_inbound_model m (env.clock w.steps)) w.next_id w.rows h) h)
]

pub cleanup_inbox-Distinct :
    (env : InboxEnv) (now : ℕ) (w : InboxWorld)
    → Distinct w.rows
    → Distinct (cleanup_inbox env now w).rows
unfolding cleanup_inbox
cleanup_inbox-Distinct env now w h = elim (Bool-cases (env.fault w.steps)) [
  | inl broken ↦ rw broken h
  | inr works ↦ rw works (Distinct-select (is_recent env.retention now) w.rows h)
]
