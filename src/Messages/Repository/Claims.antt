-- ===== src/Messages/Repository/Claims.antt =====
-- Which message `DequeueNextPending` hands out.
use at_gateway.Prelude.{
  ==_iff, sym, ap, ℕ, String, ◌≡◌, refl, ◌∙◌, Bool, true, not, ◌&&◌, Option, none, some, List, [],
  ◌∷◌, arith, ◌==◌, string_eq, find_first, update_where, Option-cases, Bool-cases, inl, inr,
}
use at_gateway.Messages.Result.{ok}
use at_gateway.Messages.State.{failed}
use at_gateway.Messages.Domain.{Codec, Message}
use at_gateway.Messages.Rows.{MessageRow, RecipientRow, Db, message_to_domain}
use at_gateway.Messages.Statements.{
  claimable, expired, expires, move_message, expire_recipients, expire_messages, claim,
  claim_result, message_by_ext_id, recipients_of,
}
use at_gateway.Messages.World.{Env, World, statement, in_tx, tick}
use at_gateway.Messages.World.Keeps.{bind-eq-ok, statement-eq-ok, in_tx-eq-ok}
use at_gateway.Messages.Repository.{
  execute, scanned, get_by_id, load_claimed, claim_next, expire_and_claim, dequeue_next_pending,
}

-- A message that may be handed out at a time: open, due, and its validity window not over.
abbrev pub ready : ℕ → MessageRow → Bool
ready now m = claimable now m && not (expired now m)

-- Expiring first makes the claim pass over the messages whose window is over.
find_first-expire :
    (now : ℕ) (ms : List MessageRow)
    → find_first (claimable now) (update_where (expires now) (move_message failed now) ms)
      ≡ find_first (ready now) ms
find_first-expire now [] = refl
find_first-expire now (m ∷ ms) = ground (arith, find_first-expire now ms)

claim-ready :
    (now : ℕ) (db : Db) (id : String)
    → (claim now (expire_messages now (expire_recipients now db))).0 ≡ ok (some id)
    → (m : MessageRow) × (find_first (ready now) db.messages ≡ some m) × (id ≡ m.ext_id)
unfolding claim expire_messages expire_recipients
claim-ready now db id e =
    go (find_first (ready now) db.messages) refl (rw (find_first-expire now db.messages) at e)
  where
    go :
        (o : Option MessageRow)
        → find_first (ready now) db.messages ≡ o
        → (claim_result o now (expire_messages now (expire_recipients now db))).0 ≡ ok (some id)
        → (m : MessageRow) × (find_first (ready now) db.messages ≡ some m) × (id ≡ m.ext_id)
    go none f e = cc
    go (some m) f e = (m, f, ground arith)

-- The message that a query by ext_id returns carries that ext_id.
find_first_satisfies :
    (p : MessageRow → Bool) (ms : List MessageRow) {m : MessageRow}
    → find_first p ms ≡ some m
    → p m ≡ true
find_first_satisfies p [] e = cc
find_first_satisfies p (x ∷ ms) {m} e = elim (Bool-cases (p x)) [
  | inl hit ↦ ground arith
  | inr miss ↦ find_first_satisfies p ms {m = m} (rw miss at e)
]

message_by_ext_id-ext_id :
    (id : String) (db : Db) (m : MessageRow)
    → scanned (message_by_ext_id id db) ≡ ok m
    → m.ext_id ≡ id
unfolding message_by_ext_id
message_by_ext_id-ext_id id db m e =
    elim (Option-cases (find_first (λ (q : MessageRow). q.ext_id == id) db.messages)) [
      | inl missing ↦ absurd (ground arith)
      | inr (q, found) ↦
          let hit =
            find_first_satisfies (λ (x : MessageRow). x.ext_id == id) db.messages {m = q} found in
          let same : q ≡ m = ground arith in
          ap (λ (x : MessageRow). x.ext_id) (sym same) ∙ (==_iff q.ext_id id).0 hit
    ]

message_to_domain-id :
    (codec : Codec) (m : MessageRow) (rs : List RecipientRow) (msg : Message)
    → message_to_domain codec m rs ≡ ok msg
    → (msg.id ≡ m.ext_id) × (msg.state ≡ m.state)
unfolding message_to_domain
message_to_domain-id codec m rs msg e = ground arith

-- A message that `get_by_id` returns has the id that was asked for.
pub get_by_id-id :
    (env : Env) (id : String) (w : World) {msg : Message} {v : World}
    → get_by_id env id w ≡ (ok msg, v)
    → msg.id ≡ id
unfolding get_by_id
get_by_id-id env id w {msg} {v} e =
    let (model, u, e1, r1) =
      bind-eq-ok (statement env (λ db. (scanned (message_by_ext_id id db), db))) _ w e in
    let (rows, u2, e2, r2) =
      bind-eq-ok (statement env (λ db. (ok (recipients_of model.id db), db))) _ u r1 in
    let row : model.ext_id ≡ id =
      message_by_ext_id-ext_id id w.db model
        (statement-eq-ok env (λ db. (scanned (message_by_ext_id id db), db)) w e1).0 in
    (message_to_domain-id env.codec model rows msg (ground arith)).0 ∙ row

load_claimed-id :
    (env : Env) (o : Option String) (w : World) {msg : Message} {v : World}
    → load_claimed env o w ≡ (ok msg, v)
    → o ≡ some msg.id
unfolding load_claimed
load_claimed-id env none w e = cc
load_claimed-id env (some id) w e = elim (Bool-cases (id == "")) [
  | inl empty ↦ absurd (ground arith)
  | inr named ↦ ap some (sym (get_by_id-id env id w (rw named at e)))
]

-- A message that a claim returns has the id of the first message row, in the order of ids, that is
-- open, due and not expired at the time of the claim.
pub dequeue_next_pending-ready :
    (env : Env) (w : World) {msg : Message} {v : World}
    → dequeue_next_pending env w ≡ (ok msg, v)
    → (m : MessageRow) × (find_first (ready (env.now w.steps)) w.db.messages ≡ some m)
      × (msg.id ≡ m.ext_id)
unfolding dequeue_next_pending
dequeue_next_pending-ready env w {msg} {v} e =
    let now = env.now w.steps in
    let (o, u, e1, r1) =
      bind-eq-ok (in_tx env (claim_next env now)) (load_claimed env) (tick w) e in
    let (u1, b1, d1) = in_tx-eq-ok env (claim_next env now) (tick w) e1 in
    let (x2, u2, e2, r2) =
      bind-eq-ok (execute env (expire_recipients now)) (λ _. expire_and_claim env now)
        (tick (tick w)) b1 in
    let (x3, u3, e3, r3) =
      bind-eq-ok (execute env (expire_messages now)) (λ _. statement env (claim now)) u2 r2 in
    let s2 = (statement-eq-ok env (λ db. (ok tt, expire_recipients now db)) (tick (tick w)) e2).1 in
    let s3 = (statement-eq-ok env (λ db. (ok tt, expire_messages now db)) u2 e3).1 in
    let s4 = (statement-eq-ok env (claim now) u3 r3).0 in
    claim-ready now w.db msg.id (
      ap (λ db. (claim now db).0) (sym (s3 ∙ ap (expire_messages now) s2))
      ∙ s4
      ∙ ap ok (load_claimed-id env o u r1))
