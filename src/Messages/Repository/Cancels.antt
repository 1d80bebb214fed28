-- ===== src/Messages/Repository/Cancels.antt =====
-- Cancelling, and the atomicity of `Create`: internal/messages/repository.go.
use at_gateway.Prelude.{
  zero, suc, subst, suc, ==_refl, ℕ, String, ◌≡◌, ◌≢◌, refl, ◌∙◌, sym, ap, List, [], ◌∷◌, arith,
  string_eq, nat_eq, count_where, update_where,
}
use at_gateway.Messages.Result.{Result, ok, err, panic, not_pending}
use at_gateway.Messages.State.{state_eq, ProcessingState, cancelled}
use at_gateway.Messages.Domain.{Message, MessageInput}
use at_gateway.Messages.Rows.{MessageRow, Db, new_message_model}
use at_gateway.Messages.Statements.{
  moves_message, move_message, move_message_rows, move_all_recipients,
}
use at_gateway.Messages.World.{fail, Env, World, statement, tick, ◌>>=◌, lift, M}
use at_gateway.Messages.World.Keeps.{
  Keeps-run, Keeps-statement, Keeps-bind, Keeps-lift, bind-eq-ok, statement-eq-ok, in_tx-eq-ok,
  in_tx-failed,
}
use at_gateway.Messages.Repository.{
  execute, create, insert_model, insert_both, update_state, cascade, move_all, cancelled_answer,
  cancel, get_by_id,
}

-- Once moved, no message of the id can be moved to the same state again.
count-moved :
    (id : String) (s : ProcessingState) (now : ℕ) (ms : List MessageRow)
    → count_where (moves_message id s) (update_where (moves_message id s) (move_message s now) ms)
      ≡ 0
count-moved id s now [] = refl
count-moved id s now (m ∷ ms) = ground (arith, count-moved id s now ms, ==_refl s)

abbrev CannotMove : String → ProcessingState → Db → Type 0
CannotMove id s db = count_where (moves_message id s) db.messages ≡ 0

get_by_id-same : (env : Env) (id : String) (w : World) → (get_by_id env id w).1.db ≡ w.db
unfolding get_by_id
get_by_id-same env id w =
    Keeps-run (λ db. db ≡ w.db) (get_by_id env id)
      (Keeps-bind (λ db. db ≡ w.db) _ _ (Keeps-statement (λ db. db ≡ w.db) env _ (λ db h. h))
        λ model.
          Keeps-bind (λ db. db ≡ w.db) _ _ (Keeps-statement (λ db. db ≡ w.db) env _ (λ db h. h))
            λ rows. Keeps-lift (λ db. db ≡ w.db) _)
      w refl

cascade-CannotMove :
    (env : Env) (id : String) (s : ProcessingState) (now n : ℕ) (u : World) {r : ℕ} {v : World}
    → cascade env id s now n u ≡ (ok r, v)
    → CannotMove id s u.db
    → CannotMove id s v.db
unfolding cascade move_all_recipients
cascade-CannotMove env id s now zero u e h = ground arith
cascade-CannotMove env id s now (suc n) u {r} {v} e h =
    let (x, u1, e1, r1) = bind-eq-ok (execute env (move_all_recipients id s now)) _ u e in
    let d = (statement-eq-ok env (λ db. (ok tt, move_all_recipients id s now db)) u e1).1 in
    let same : u1.db.messages ≡ u.db.messages = rw (d, move_all_recipients) refl in
    ground (arith, same)

-- When the moving transaction succeeds, nothing of the id is left to be moved.
update_state-CannotMove :
    (env : Env) (id : String) (s : ProcessingState) (w : World) {rows : ℕ} {v : World}
    → update_state env id s w ≡ (ok rows, v)
    → CannotMove id s v.db
unfolding update_state move_message_rows
update_state-CannotMove env id s w {rows} {v} e =
    let now = env.now w.steps in
    let (u, b, d) = in_tx-eq-ok env (move_all env id s now) (tick w) e in
    let (n, u1, e1, r1) =
      bind-eq-ok (statement env (move_message_rows id s now)) _ (tick (tick w)) b in
    let moved = (statement-eq-ok env (move_message_rows id s now) (tick (tick w)) e1).1 in
    let here : CannotMove id s u1.db =
      rw (ap (λ (db : Db). db.messages) moved, move_message_rows)
        (count-moved id s now w.db.messages) in
    subst (CannotMove id s) (sym d) (cascade-CannotMove env id s now n u1 r1 here)

-- With nothing to move, the count is 0.
cascade-none :
    (env : Env) (id : String) (s : ProcessingState) (now n : ℕ) (u : World) {r : ℕ} {v : World}
    → n ≡ 0
    → cascade env id s now n u ≡ (ok r, v)
    → r ≡ 0
unfolding cascade
cascade-none env id s now zero u z e = ground arith
cascade-none env id s now (suc n) u z e = absurd (omega arith)

update_state-none :
    (env : Env) (id : String) (s : ProcessingState) (w : World) {rows : ℕ} {v : World}
    → CannotMove id s w.db
    → update_state env id s w ≡ (ok rows, v)
    → rows ≡ 0
unfolding update_state move_message_rows
update_state-none env id s w h e =
    let now = env.now w.steps in
    let (u, b, d) = in_tx-eq-ok env (move_all env id s now) (tick w) e in
    let (n, u1, e1, r1) =
      bind-eq-ok (statement env (move_message_rows id s now)) (cascade env id s now) (tick (tick w))
        b in
    let counted = (statement-eq-ok env (move_message_rows id s now) (tick (tick w)) e1).0 in
    let none_counted : n ≡ 0 = ground arith in cascade-none env id s now n u1 none_counted r1

-- `Cancel` succeeds only after it has moved a message, and then it only reads.
cancelled_answer-ok :
    (env : Env) (id : String) (rows : ℕ) (u : World) {msg : Message} {v : World}
    → cancelled_answer env id rows u ≡ (ok msg, v)
    → (rows ≢ 0) × (v.db ≡ u.db)
unfolding cancelled_answer
cancelled_answer-ok env id zero u e =
    let (m, u1, e1, r1) =
      bind-eq-ok (get_by_id env id) (λ found. fail {A = Message} not_pending) u e in
    cc
cancelled_answer-ok env id (suc n) u e = (
  λ z. absurd (omega arith),
  ap (λ (r : Result Message × World). r.1.db) (sym e) ∙ get_by_id-same env id u,
)

-- A cancel of a message that succeeded does not succeed again on the state that it leaves.
pub cancel_once :
    (env : Env) (id : String) (w : World) {msg again : Message} {v v2 : World}
    → cancel env id w ≡ (ok msg, v)
    → ¬ (cancel env id v ≡ (ok again, v2))
unfolding cancel
cancel_once env id w {msg} {again} {v} {v2} e f =
    let (rows, u, e1, r1) =
      bind-eq-ok (update_state env id cancelled) (cancelled_answer env id) w e in
    let still : CannotMove id cancelled v.db =
      subst (CannotMove id cancelled) (sym (cancelled_answer-ok env id rows u r1).1)
        (update_state-CannotMove env id cancelled w e1) in
    let (rows2, u2, e2, r2) =
      bind-eq-ok (update_state env id cancelled) (cancelled_answer env id) v f in
    (cancelled_answer-ok env id rows2 u2 r2).0 (update_state-none env id cancelled v still e2)

lift-then_failed :
    {A B : Type 0} (r : Result A) (f : A → M B) (w : World)
    → ((b : B) → ((lift r >>= f) w).0 ≢ ok b)
    → ((a : A) → ((b : B) → (f a w).0 ≢ ok b) → (f a w).1.db ≡ w.db)
    → ((lift r >>= f) w).1.db ≡ w.db
lift-then_failed (ok a) f w n k = k a n
lift-then_failed (err e) f w n k = refl
lift-then_failed panic f w n k = refl

-- `Create` leaves both tables as they were, unless it succeeds.
pub create_atomic :
    (env : Env) (msg : MessageInput) (w : World)
    → ((u : Unit {0}) → (create env msg w).0 ≢ ok u)
    → (create env msg w).1.db ≡ w.db
unfolding create insert_model
create_atomic env msg w n =
    let now = env.now w.steps in
    lift-then_failed (new_message_model env.codec msg now)
      (λ model. insert_model env model msg.phone_numbers now) (tick w) n
      (λ model m. in_tx-failed env (insert_both env model msg.phone_numbers now) (tick w) m)
