-- ===== src/Messages/Statements/Kept.antt =====
-- Properties of the tables that the SQL statements of internal/messages/repository.go keep: what has
-- to be shown of a property, and that each statement keeps it then.
use at_gateway.Prelude.{
  ℕ, String, ◌≡◌, refl, Bool, true, false, Option, none, some, List, update_where, All, find_first,
}
use at_gateway.Messages.Result.{message_expired}
use at_gateway.Messages.State.{ProcessingState, StateEntry, failed, other, last_state}
use at_gateway.Messages.Rows.{MessageRow, RecipientRow, Db}
use at_gateway.Messages.Statements.{
  move_message, move_recipient, insert_message, insert_recipients, set_state_rows,
  move_recipient_rows, move_message_rows, move_all_recipients, move_reported, by_ref_result,
  reported, expire_recipients, expire_messages, claim, claim_result, claimable,
}

-- The states that the gateway itself writes.
abbrev pub is_known : ProcessingState → Bool
is_known (other s) = false
is_known _ = true

-- The state column is the state of the newest history entry.
abbrev pub IsSynced : MessageRow → Type 0
IsSynced m = last_state m.states ≡ some m.state

-- A history that is not empty and ends in a state of the gateway.
abbrev pub IsKnown : List StateEntry → Type 0
IsKnown states = (s : ProcessingState) × (last_state states ≡ some s) × (is_known s ≡ true)

-- What keeps a property of the tables: moving messages or recipients by any test, where a recipient
-- may have other columns set but not its history and ids, and inserting fresh rows.
pub record KeptByUpdates (P : Db → Type 0) : Type 0 where
  pub move_messages :
      (p : MessageRow → Bool) (s : ProcessingState) (now : ℕ) (db : Db)
      → P db
      → P (record db { messages = update_where p (move_message s now) db.messages })
  pub move_recipients :
      (p : RecipientRow → Bool) (s : ProcessingState) (now : ℕ) (set : RecipientRow → RecipientRow)
      → ((r : RecipientRow) → (set r).states ≡ r.states)
      → ((r : RecipientRow) → (set r).id ≡ r.id)
      → is_known s ≡ true
      → (db : Db) → P db
      → P (record db {
        recipients = update_where p (λ r. set (move_recipient s now r)) db.recipients;
      })
  pub add_message : (m : MessageRow) (db : Db) → IsSynced m → P db → P (insert_message m db).1
  pub add_recipients :
      (rs : List RecipientRow) (db : Db)
      → All (λ r. IsKnown r.states) rs
      → P db
      → P (insert_recipients rs db).1

module _ (P : Db → Type 0) (k : KeptByUpdates P) where
  pub set_state_rows-kept :
      (id : String) (s : ProcessingState) (now : ℕ) (db : Db)
      → P db
      → P (set_state_rows id s now db)
  unfolding set_state_rows
  set_state_rows-kept id s now db h = k.move_messages _ s now db h

  pub move_message_rows-kept :
      (id : String) (s : ProcessingState) (now : ℕ) (db : Db)
      → P db
      → P (move_message_rows id s now db).1
  unfolding move_message_rows
  move_message_rows-kept id s now db h = k.move_messages _ s now db h

  pub move_all_recipients-kept :
      (id : String) (s : ProcessingState) (now : ℕ) (db : Db)
      → is_known s ≡ true
      → P db
      → P (move_all_recipients id s now db)
  unfolding move_all_recipients
  move_all_recipients-kept id s now db kn h =
      k.move_recipients _ s now (λ r. r) (λ r. refl) (λ r. refl) kn db h

  pub move_recipient_rows-kept :
      (id phone : String) (s : ProcessingState) (now : ℕ) (also : RecipientRow → Bool)
      (set : RecipientRow → RecipientRow)
      → ((r : RecipientRow) → (set r).states ≡ r.states)
      → ((r : RecipientRow) → (set r).id ≡ r.id)
      → is_known s ≡ true
      → (db : Db) → P db
      → P (move_recipient_rows id phone s now also set db)
  unfolding move_recipient_rows
  move_recipient_rows-kept id phone s now also set e f kn db h =
      k.move_recipients _ s now set e f kn db h

  pub move_reported-kept :
      (s : ProcessingState) (ref : ℕ) (phone : String) (now : ℕ) (set : RecipientRow → RecipientRow)
      → ((r : RecipientRow) → (set r).states ≡ r.states)
      → ((r : RecipientRow) → (set r).id ≡ r.id)
      → is_known s ≡ true
      → (db : Db) → P db
      → P (move_reported s ref phone now set db).1
  unfolding move_reported
  move_reported-kept s ref phone now set e f kn db h =
      go (find_first (reported ref phone db.messages) db.recipients)
    where
      go : (o : Option RecipientRow) → P (by_ref_result o s now set db).1
      go none = h
      go (some r) = k.move_recipients _ s now set e f kn db h

  pub expire_recipients-kept : (now : ℕ) (db : Db) → P db → P (expire_recipients now db)
  unfolding expire_recipients
  expire_recipients-kept now db h =
      k.move_recipients _ failed now (λ r. record r { error = some message_expired }) (λ r. refl)
        (λ r. refl) refl db h

  pub expire_messages-kept : (now : ℕ) (db : Db) → P db → P (expire_messages now db)
  unfolding expire_messages
  expire_messages-kept now db h = k.move_messages _ _ now db h

  pub claim-kept : (now : ℕ) (db : Db) → P db → P (claim now db).1
  unfolding claim
  claim-kept now db h = go (find_first (claimable now) db.messages)
    where
      go : (o : Option MessageRow) → P (claim_result o now db).1
      go none = h
      go (some m) = k.move_messages _ _ now db h
