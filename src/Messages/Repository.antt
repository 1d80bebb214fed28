-- ===== src/Messages/Repository.antt =====
-- The repository of the messages component: internal/messages/repository.go.
pub mod Reports
pub mod Kept
pub mod Claims
pub mod Cancels
use at_gateway.Prelude.{
  zero, suc, ℕ, String, Bool, true, Option, none, some, List, [], ◌∷◌, ◌==◌, nat_eq, string_eq,
  if◌then◌else◌,
}
use at_gateway.Messages.Result.{Result, ok, err, Reason, not_found, not_pending}
use at_gateway.Messages.State.{
  ProcessingState, state_eq, pending, processed, cancelled, sent, delivered, failed, last_is,
}
use at_gateway.Messages.Domain.{MessageInput, Message}
use at_gateway.Messages.Rows.{
  MessageRow, RecipientRow, Db, new_message_model, new_recipient_models, message_to_domain,
}
use at_gateway.Messages.Statements.{
  insert_message, insert_recipients, message_by_ext_id, recipients_of, set_state_rows,
  move_recipient_rows, move_message_rows, move_all_recipients, move_reported, expire_recipients,
  expire_messages, claim,
}
use at_gateway.Messages.World.{Env, M, ◌>>=◌, ◌>>◌, done, fail, lift, read_clock, statement, in_tx}

-- A statement that returns no rows.
abbrev pub execute : Env → (Db → Db) → M (Unit {0})
execute env f = statement env (λ db. (ok tt, f db))

-- The rows of a recipient insertion, skipped if there are none.
create_recipients : Env → List RecipientRow → M (Unit {0})
create_recipients env [] = done tt
create_recipients env (r ∷ rs) = statement env (insert_recipients (r ∷ rs))

-- The transaction of `Create`.
insert_both : Env → MessageRow → List String → ℕ → M (Unit {0})
unfolding create_recipients
insert_both env model phones now = do
  id ← statement env (insert_message model)
  create_recipients env (new_recipient_models phones id now)

insert_model : Env → MessageRow → List String → ℕ → M (Unit {0})
unfolding insert_both
insert_model env model phones now = in_tx env (insert_both env model phones now)

-- `Repository.Create`.
unfoldable pub create : Env → MessageInput → M (Unit {0})
unfolding insert_model
create env msg = do
  now ← read_clock env
  model ← lift (new_message_model env.codec msg now)
  insert_model env model msg.phone_numbers now

-- A row scanned, or `sql.ErrNoRows` mapped to `ErrNotFound`.
abbrev scanned : Option MessageRow → Result MessageRow
scanned none = err not_found
scanned (some m) = ok m

-- `Repository.GetByID`: the message, then its Recipients relation.
unfoldable pub get_by_id : Env → String → M Message
unfolding message_to_domain
get_by_id env id = do
  model ← statement env (λ db. (scanned (message_by_ext_id id db), db))
  rows ← statement env (λ db. (ok (recipients_of model.id db), db))
  lift (message_to_domain env.codec model rows)

-- `Repository.SetState`.
unfoldable pub set_state : Env → String → ProcessingState → M (Unit {0})
set_state env id state = do now ← read_clock env; execute env (set_state_rows id state now)

-- `Repository.updateRecipientState`.
unfoldable pub update_recipient_state :
    Env
    → String
    → String
    → ProcessingState
    → (RecipientRow → Bool)
    → (RecipientRow → RecipientRow)
    → M (Unit {0})
update_recipient_state env message_id phone state also set = do
  now ← read_clock env
  execute env (move_recipient_rows message_id phone state now also set)

-- `Repository.SetRecipientProcessed`.
unfoldable pub set_recipient_processed : Env → String → String → M (Unit {0})
unfolding update_recipient_state
set_recipient_processed env message_id phone =
    update_recipient_state env message_id phone processed (λ r. last_is r.states pending) (λ r. r)

-- `Repository.SetRecipientSent`.
unfoldable pub set_recipient_sent : Env → String → String → ℕ → M (Unit {0})
unfolding update_recipient_state
set_recipient_sent env message_id phone ref =
    update_recipient_state env message_id phone sent (λ r. true)
      (λ r. record r { ref_id = some ref })

-- `Repository.SetRecipientFailed`.
unfoldable pub set_recipient_failed : Env → String → String → Reason → M (Unit {0})
unfolding update_recipient_state
set_recipient_failed env message_id phone reason =
    update_recipient_state env message_id phone failed (λ r. true)
      (λ r. record r { error = some reason })

-- `Repository.SetRecipientDeliveredByRef`.
unfoldable pub set_recipient_delivered_by_ref : Env → ℕ → String → M String
set_recipient_delivered_by_ref env ref phone = do
  now ← read_clock env
  statement env (move_reported delivered ref phone now (λ r. r))

-- `Repository.SetRecipientFailedByRef`.
unfoldable pub set_recipient_failed_by_ref : Env → ℕ → String → Reason → M String
set_recipient_failed_by_ref env ref phone reason = do
  now ← read_clock env
  statement env (move_reported failed ref phone now (λ r. record r { error = some reason }))

-- The second half of `updateState`'s transaction: the recipients, unless no message was moved.
cascade : Env → String → ProcessingState → ℕ → ℕ → M ℕ
cascade env id state now zero = done 0
cascade env id state now (suc n) = execute env (move_all_recipients id state now) >> done (suc n)

-- The transaction of `updateState`.
move_all : Env → String → ProcessingState → ℕ → M ℕ
unfolding cascade
move_all env id state now =
    statement env (move_message_rows id state now) >>= λ rows. cascade env id state now rows

-- `Repository.updateState` (its callers pass no further WHERE): the count of moved messages.
unfoldable pub update_state : Env → String → ProcessingState → M ℕ
unfolding move_all
update_state env id state = do now ← read_clock env; in_tx env (move_all env id state now)

-- The answer of `Cancel` for a count of moved messages.
cancelled_answer : Env → String → ℕ → M Message
cancelled_answer env id zero = get_by_id env id >>= λ found. fail {A = Message} not_pending
cancelled_answer env id (suc n) = get_by_id env id

-- `Repository.Cancel`.
unfoldable pub cancel : Env → String → M Message
unfolding update_state cancelled_answer
cancel env id = do rows ← update_state env id cancelled; cancelled_answer env id rows

-- The loaded message of a claim; an empty ext_id counts as none.
load_claimed : Env → Option String → M Message
load_claimed env none = fail not_found
load_claimed env (some id) = if id == "" then fail not_found else get_by_id env id

-- The steps after the first of `DequeueNextPending`'s transaction.
expire_and_claim : Env → ℕ → M (Option String)
expire_and_claim env now = execute env (expire_messages now) >> statement env (claim now)

-- The transaction of `DequeueNextPending`.
claim_next : Env → ℕ → M (Option String)
unfolding expire_and_claim
claim_next env now = execute env (expire_recipients now) >> expire_and_claim env now

-- `Repository.DequeueNextPending`.
unfoldable pub dequeue_next_pending : Env → M Message
unfolding load_claimed claim_next
dequeue_next_pending env = do
  now ← read_clock env
  claimed ← in_tx env (claim_next env now)
  load_claimed env claimed
