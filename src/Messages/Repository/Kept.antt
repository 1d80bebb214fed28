-- ===== src/Messages/Repository/Kept.antt =====
-- Every repository operation keeps what the updates keep, whatever the driver answers.
use at_gateway.Prelude.{
  zero, suc, ℕ, String, ◌≡◌, refl, true, Option, none, some, List, [], ◌∷◌, ◌==◌, All, nat_eq,
  string_eq, if◌then◌else◌, Bool, false, arith,
}
use at_gateway.Messages.Result.{Result, ok, err, panic, Reason, not_pending, not_found}
use at_gateway.Messages.State.{ProcessingState, pending, cancelled, sent, failed, delivered}
use at_gateway.Messages.Domain.{MessageInput, Codec}
use at_gateway.Messages.Rows.{MessageRow, RecipientRow, Db, new_message_model, new_recipient_models}
use at_gateway.Messages.Statements.{
  insert_message, insert_recipients, set_state_rows, move_recipient_rows, move_message_rows,
  move_all_recipients, move_reported, expire_recipients, expire_messages, claim,
}
use at_gateway.Messages.Statements.Kept.{
  IsSynced, IsKnown, is_known, KeptByUpdates, set_state_rows-kept, move_recipient_rows-kept,
  move_message_rows-kept, move_all_recipients-kept, move_reported-kept, expire_recipients-kept,
  expire_messages-kept, claim-kept,
}
use at_gateway.Messages.World.{Env, M, ◌>>=◌, read_clock, lift}
use at_gateway.Messages.World.Keeps.{
  Keeps, Keeps-same, Keeps-lift, Keeps-statement, Keeps-in_tx, Keeps-bind,
}
use at_gateway.Messages.Repository.{
  execute, create, insert_model, create_recipients, get_by_id, set_state, update_recipient_state,
  set_recipient_processed, set_recipient_sent, set_recipient_failed, set_recipient_delivered_by_ref,
  set_recipient_failed_by_ref, update_state, cascade, cancelled_answer, cancel, load_claimed,
  dequeue_next_pending,
}

-- A fresh recipient is Pending.
new_recipient_models-IsKnown :
    (phones : List String) (id now : ℕ)
    → All (λ r. IsKnown r.states) (new_recipient_models phones id now)
unfolding new_recipient_models
new_recipient_models-IsKnown [] id now = tt
new_recipient_models-IsKnown (p ∷ ps) id now =
    ((pending, refl, refl), new_recipient_models-IsKnown ps id now)

-- A fresh message is Pending, in the column and in the history.
new_message_model-IsSynced :
    (codec : Codec) (msg : MessageInput) (now : ℕ) (m : MessageRow)
    → new_message_model codec msg now ≡ ok m
    → IsSynced m
unfolding new_message_model
new_message_model-IsSynced codec msg now m e = ground arith

module _ (P : Db → Type 0) (k : KeptByUpdates P) (env : Env) where
  Keeps-clock : Keeps P (read_clock env)
  Keeps-clock = Keeps-same P (read_clock env) (λ w. refl)

  pub get_by_id-Keeps : (id : String) → Keeps P (get_by_id env id)
  unfolding get_by_id
  get_by_id-Keeps id =
      Keeps-bind P _ _ (Keeps-statement P env _ (λ db h. h))
        λ model. Keeps-bind P _ _ (Keeps-statement P env _ (λ db h. h)) λ rows. Keeps-lift P _

  Keeps-execute : (f : Db → Db) → ((db : Db) → P db → P (f db)) → Keeps P (execute env f)
  Keeps-execute f k = Keeps-statement P env (λ db. (ok tt, f db)) k

  pub set_state-Keeps : (id : String) (s : ProcessingState) → Keeps P (set_state env id s)
  unfolding set_state
  set_state-Keeps id s =
      Keeps-bind P _ _ Keeps-clock
        λ now. Keeps-execute (set_state_rows id s now) (set_state_rows-kept P k id s now)

  pub update_recipient_state-Keeps :
      (id phone : String) (s : ProcessingState) (also : RecipientRow → Bool)
      (set : RecipientRow → RecipientRow)
      → ((r : RecipientRow) → (set r).states ≡ r.states)
      → ((r : RecipientRow) → (set r).id ≡ r.id)
      → is_known s ≡ true
      → Keeps P (update_recipient_state env id phone s also set)
  unfolding update_recipient_state
  update_recipient_state-Keeps id phone s also set e f kn = Keeps-bind P _ _ Keeps-clock λ now.
      Keeps-execute (move_recipient_rows id phone s now also set)
        (move_recipient_rows-kept P k id phone s now also set e f kn)

  pub set_recipient_processed-Keeps :
      (id phone : String) → Keeps P (set_recipient_processed env id phone)
  unfolding set_recipient_processed
  set_recipient_processed-Keeps id phone =
      update_recipient_state-Keeps id phone _ _ _ (λ r. refl) (λ r. refl) refl

  pub set_recipient_sent-Keeps :
      (id phone : String) (ref : ℕ) → Keeps P (set_recipient_sent env id phone ref)
  unfolding set_recipient_sent
  set_recipient_sent-Keeps id phone ref =
      update_recipient_state-Keeps id phone sent (λ r. true) (λ r. record r { ref_id = some ref })
        (λ r. refl) (λ r. refl) refl

  pub set_recipient_failed-Keeps :
      (id phone : String) (reason : Reason) → Keeps P (set_recipient_failed env id phone reason)
  unfolding set_recipient_failed
  set_recipient_failed-Keeps id phone reason =
      update_recipient_state-Keeps id phone failed (λ r. true)
        (λ r. record r { error = some reason }) (λ r. refl) (λ r. refl) refl

  pub set_recipient_delivered_by_ref-Keeps :
      (ref : ℕ) (phone : String) → Keeps P (set_recipient_delivered_by_ref env ref phone)
  unfolding set_recipient_delivered_by_ref
  set_recipient_delivered_by_ref-Keeps ref phone = Keeps-bind P _ _ Keeps-clock λ now.
      Keeps-statement P env (move_reported delivered ref phone now (λ r. r))
        (move_reported-kept P k delivered ref phone now (λ r. r) (λ r. refl) (λ r. refl) refl)

  pub set_recipient_failed_by_ref-Keeps :
      (ref : ℕ) (phone : String) (reason : Reason)
      → Keeps P (set_recipient_failed_by_ref env ref phone reason)
  unfolding set_recipient_failed_by_ref
  set_recipient_failed_by_ref-Keeps ref phone reason =
      let set : RecipientRow → RecipientRow = λ r. record r { error = some reason } in
      Keeps-bind P _ _ Keeps-clock λ now.
        Keeps-statement P env (move_reported failed ref phone now set)
          (move_reported-kept P k failed ref phone now set (λ r. refl) (λ r. refl) refl)

  -- A branch on a test.
  pub Keeps-if :
      {A : Type 0} (b : Bool) (m n : M A) → Keeps P m → Keeps P n → Keeps P (if b then m else n)
  Keeps-if true m n h k = h
  Keeps-if false m n h k = k

  cascade-Keeps :
      (id : String) (s : ProcessingState) (now rows : ℕ)
      → is_known s ≡ true
      → Keeps P (cascade env id s now rows)
  unfolding cascade
  cascade-Keeps id s now zero kn = Keeps-lift P (ok 0)
  cascade-Keeps id s now (suc n) kn =
      Keeps-bind P _ _
        (Keeps-execute (move_all_recipients id s now)
          (λ db. move_all_recipients-kept P k id s now db kn))
        λ _. Keeps-lift P (ok (suc n))

  pub update_state-Keeps :
      (id : String) (s : ProcessingState) → is_known s ≡ true → Keeps P (update_state env id s)
  unfolding update_state
  update_state-Keeps id s kn = Keeps-bind P _ _ Keeps-clock λ now. Keeps-in_tx P env _ (
      Keeps-bind P _ _
        (Keeps-statement P env (move_message_rows id s now) (move_message_rows-kept P k id s now))
        λ rows. cascade-Keeps id s now rows kn)

  cancelled_answer-Keeps : (id : String) (rows : ℕ) → Keeps P (cancelled_answer env id rows)
  unfolding cancelled_answer
  cancelled_answer-Keeps id zero =
      Keeps-bind P _ _ (get_by_id-Keeps id) λ found. Keeps-lift P (err not_pending)
  cancelled_answer-Keeps id (suc n) = get_by_id-Keeps id

  pub cancel-Keeps : (id : String) → Keeps P (cancel env id)
  unfolding cancel
  cancel-Keeps id =
      Keeps-bind P _ _ (update_state-Keeps id cancelled refl) λ rows. cancelled_answer-Keeps id rows

  load_claimed-Keeps : (o : Option String) → Keeps P (load_claimed env o)
  unfolding load_claimed
  load_claimed-Keeps none = Keeps-lift P (err not_found)
  load_claimed-Keeps (some id) =
      Keeps-if (id == "") _ _ (Keeps-lift P (err not_found)) (get_by_id-Keeps id)

  pub dequeue_next_pending-Keeps : Keeps P (dequeue_next_pending env)
  unfolding dequeue_next_pending
  dequeue_next_pending-Keeps = Keeps-bind P _ _ Keeps-clock λ now.
      Keeps-bind P _ _
        (Keeps-in_tx P env _ (
          Keeps-bind P _ _ (Keeps-execute (expire_recipients now) (expire_recipients-kept P k now))
            λ _.
              Keeps-bind P _ _ (Keeps-execute (expire_messages now) (expire_messages-kept P k now))
                λ _. Keeps-statement P env (claim now) (claim-kept P k now)))
        load_claimed-Keeps

  create_recipients-Keeps :
      (rs : List RecipientRow) → All (λ r. IsKnown r.states) rs → Keeps P (create_recipients env rs)
  unfolding create_recipients
  create_recipients-Keeps [] ks = Keeps-lift P (ok tt)
  create_recipients-Keeps (r ∷ rs) ks =
      Keeps-statement P env (insert_recipients (r ∷ rs)) (λ db. k.add_recipients (r ∷ rs) db ks)

  -- The transaction of `create`, for a model that is in step with its history.
  insert_model-Keeps :
      (model : MessageRow) (phones : List String) (now : ℕ)
      → IsSynced model
      → Keeps P (insert_model env model phones now)
  unfolding insert_model
  insert_model-Keeps model phones now e = Keeps-in_tx P env _ (
      Keeps-bind P _ _
        (Keeps-statement P env (insert_message model) (λ db. k.add_message model db e))
        λ id.
          create_recipients-Keeps (new_recipient_models phones id now)
            (new_recipient_models-IsKnown phones id now))

  -- A model that could be made is inserted; an error or a panic ends `create` before.
  create_model-Keeps :
      (r : Result MessageRow) (phones : List String) (now : ℕ)
      → ((m : MessageRow) → r ≡ ok m → IsSynced m)
      → Keeps P (lift r >>= λ model. insert_model env model phones now)
  create_model-Keeps (ok m) phones now e = insert_model-Keeps m phones now (e m refl)
  create_model-Keeps (err x) phones now e = Keeps-lift P (err x)
  create_model-Keeps panic phones now e = Keeps-lift P panic

  pub create-Keeps : (msg : MessageInput) → Keeps P (create env msg)
  unfolding create
  create-Keeps msg = Keeps-bind P _ _ Keeps-clock λ now.
      create_model-Keeps (new_message_model env.codec msg now) msg.phone_numbers now
        (new_message_model-IsSynced env.codec msg now)
