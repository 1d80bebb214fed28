-- ===== src/Messages/Statements.antt =====
-- The SQL statements of internal/messages/repository.go, as functions of the tables.
pub mod Reported
pub mod Kept
pub mod Sound
pub mod History
use Prim.Native.Char.{code}
use at_gateway.Prelude.{
  ℕ, suc, String, Bool, true, false, not, ◌&&◌, ◌||◌, Option, none, some, List, [], ◌∷◌, ◌++◌, ◌==◌,
  nat_eq, string_eq, leb, if◌then◌else◌, update_where, select_where, find_first, count_where,
  any_where,
}
use at_gateway.Messages.Result.{
  Result, ok, err, message_expired, already_exists, duplicate_recipient, not_found,
}
use at_gateway.Messages.State.{
  ProcessingState, state_eq, pending, processed, sent, failed, last_is, last_is_not, append_state,
}
use at_gateway.Messages.Rows.{MessageRow, RecipientRow, Db}

-- `INSERT INTO messages … RETURNING id`, under the unique index on ext_id.
unfoldable pub insert_message : MessageRow → Db → Result ℕ × Db
insert_message m db =
    if any_where (λ (r : MessageRow). r.ext_id == m.ext_id) db.messages
    then (err already_exists, db)
    else (
      ok db.next_message_id,
      record db {
        messages = db.messages ++ record m { id = db.next_message_id } ∷ [];
        next_message_id = suc db.next_message_id;
      },
    )

abbrev pub same_recipient : RecipientRow → RecipientRow → Bool
same_recipient r q = q.message_id == r.message_id && q.phone == r.phone

-- The rows of one INSERT in turn; `none` is a clash with the unique index on (message_id, phone).
unfoldable pub insert_rows :
    List RecipientRow → ℕ → List RecipientRow → Option (List RecipientRow × ℕ)
insert_rows [] next table = some (table, next)
insert_rows (r ∷ rs) next table =
    let rest = insert_rows rs (suc next) (table ++ record r { id = next } ∷ []) in
    if any_where (same_recipient r) table then none else rest

abbrev pub recipients_result : Option (List RecipientRow × ℕ) → Db → Result (Unit {0}) × Db
recipients_result none db = (err duplicate_recipient, db)
recipients_result (some (rows, next)) db =
    (ok tt, record db { recipients = rows; next_recipient_id = next })

-- `INSERT INTO message_recipients …`: one statement, so all rows or none.
unfoldable pub insert_recipients : List RecipientRow → Db → Result (Unit {0}) × Db
unfolding insert_rows
insert_recipients rows db =
    recipients_result (insert_rows rows db.next_recipient_id db.recipients) db

-- `SELECT … FROM messages WHERE ext_id = ?`.
unfoldable pub message_by_ext_id : String → Db → Option MessageRow
message_by_ext_id id db = find_first (λ (m : MessageRow). m.ext_id == id) db.messages

-- `message_id = (SELECT id FROM messages WHERE ext_id = ?)`; NULL if there is no such message.
abbrev pub belongs_to : Option MessageRow → RecipientRow → Bool
belongs_to none r = false
belongs_to (some m) r = r.message_id == m.id

-- The Recipients relation of a message, `ORDER BY id ASC`.
unfoldable pub recipients_of : ℕ → Db → List RecipientRow
recipients_of id db = select_where (λ (r : RecipientRow). r.message_id == id) db.recipients

abbrev pub move_message : ProcessingState → ℕ → MessageRow → MessageRow
move_message s now m = record m {
  state = s;
  updated_at = now;
  states = append_state s now m.states;
}

abbrev pub move_recipient : ProcessingState → ℕ → RecipientRow → RecipientRow
move_recipient s now r = record r { states = append_state s now r.states }

abbrev update_messages : (MessageRow → Bool) → (MessageRow → MessageRow) → Db → Db
update_messages p f db = record db { messages = update_where p f db.messages }

abbrev update_recipients : (RecipientRow → Bool) → (RecipientRow → RecipientRow) → Db → Db
update_recipients p f db = record db { recipients = update_where p f db.recipients }

-- The UPDATE of `SetState`.
unfoldable pub set_state_rows : String → ProcessingState → ℕ → Db → Db
set_state_rows id s now db =
    update_messages (λ m. m.ext_id == id && not (m.state == s)) (move_message s now) db

-- The UPDATE of `updateRecipientState`, with its additional WHERE and SET.
unfoldable pub move_recipient_rows :
    String
    → String
    → ProcessingState
    → ℕ
    → (RecipientRow → Bool)
    → (RecipientRow → RecipientRow)
    → Db
    → Db
unfolding message_by_ext_id
move_recipient_rows id phone s now also set db =
    update_recipients
      (λ r.
        last_is_not r.states s
        && belongs_to (message_by_ext_id id db) r
        && r.phone == phone
        && also r)
      (λ r. set (move_recipient s now r)) db

-- `state not in (Failed, <state>)`.
abbrev pub can_move : ProcessingState → MessageRow → Bool
can_move s m = not (m.state == failed || m.state == s)

abbrev pub moves_message : String → ProcessingState → MessageRow → Bool
moves_message id s m = m.ext_id == id && can_move s m

-- The first UPDATE of `updateState`, with the count of affected rows.
unfoldable pub move_message_rows : String → ProcessingState → ℕ → Db → Result ℕ × Db
move_message_rows id s now db = (
  ok (count_where (moves_message id s) db.messages),
  update_messages (moves_message id s) (move_message s now) db,
)

-- The second UPDATE of `updateState`.
unfoldable pub move_all_recipients : String → ProcessingState → ℕ → Db → Db
unfolding message_by_ext_id
move_all_recipients id s now db =
    update_recipients
      (λ r.
        (last_is_not r.states failed && last_is_not r.states s)
        && belongs_to (message_by_ext_id id db) r)
      (move_recipient s now) db

-- `replace(phone, '+', '')`.
unfoldable pub without_plus : String → String
without_plus String.[] = String.[]
without_plus (String.◌∷◌ c s) =
    let rest = without_plus s in if code c == b'+' then rest else String.◌∷◌ c rest

-- `json_extract(options, '$.with_delivery_report') IS NOT 0`.
abbrev pub wants_report : Option Bool → Bool
wants_report none = true
wants_report (some b) = b

-- The WHERE of the nested SELECT, for a recipient joined with its message.
unfoldable pub reported : ℕ → String → List MessageRow → RecipientRow → Bool
unfolding without_plus
reported ref phone messages r =
    any_where (λ (m : MessageRow). m.id == r.message_id && wants_report m.with_delivery_report)
      messages
    && elim r.ref_id [ none ↦ false | some k ↦ k == ref ]
    && last_is r.states sent
    && (phone == "" || without_plus r.phone == phone)

abbrev message_by_id : ℕ → List MessageRow → Option MessageRow
message_by_id id messages = find_first (λ (m : MessageRow). m.id == id) messages

-- `RETURNING (SELECT m.ext_id …)`; no updated row scans as `sql.ErrNoRows`.
abbrev owner_ext_id : Option MessageRow → Result String
owner_ext_id none = err not_found
owner_ext_id (some m) = ok m.ext_id

abbrev pub by_ref_result :
    Option RecipientRow
    → ProcessingState
    → ℕ
    → (RecipientRow → RecipientRow)
    → Db
    → Result String × Db
by_ref_result none s now set db = (err not_found, db)
by_ref_result (some r) s now set db = (
  owner_ext_id (message_by_id r.message_id db.messages),
  update_recipients (λ q. q.id == r.id) (λ q. set (move_recipient s now q)) db,
)

-- The statement of `SetRecipientDeliveredByRef` and `SetRecipientFailedByRef`.
unfoldable pub move_reported :
    ProcessingState → ℕ → String → ℕ → (RecipientRow → RecipientRow) → Db → Result String × Db
unfolding reported
move_reported s ref phone now set db =
    by_ref_result (find_first (reported ref phone db.messages) db.recipients) s now set db

-- `state IN (Pending, Processed)`.
abbrev pub is_open : MessageRow → Bool
is_open m = m.state == pending || m.state == processed

-- `valid_until IS NOT NULL AND valid_until <= now`.
abbrev pub expired : ℕ → MessageRow → Bool
expired now m = elim m.valid_until [ none ↦ false | some t ↦ leb t now ]

-- `schedule_at IS NULL OR schedule_at <= now`.
abbrev pub due : ℕ → MessageRow → Bool
due now m = elim m.schedule_at [ none ↦ true | some t ↦ leb t now ]

abbrev pub expires : ℕ → MessageRow → Bool
expires now m = is_open m && expired now m

abbrev pub claimable : ℕ → MessageRow → Bool
claimable now m = is_open m && due now m

-- The first UPDATE of `DequeueNextPending`.
unfoldable pub expire_recipients : ℕ → Db → Db
expire_recipients now db =
    update_recipients
      (λ r.
        last_is_not r.states failed
        && any_where (λ (m : MessageRow). m.id == r.message_id && expires now m) db.messages)
      (λ r. record (move_recipient failed now r) { error = some message_expired }) db

-- The second UPDATE of `DequeueNextPending`.
unfoldable pub expire_messages : ℕ → Db → Db
expire_messages now db = update_messages (expires now) (move_message failed now) db

abbrev pub claim_result : Option MessageRow → ℕ → Db → Result (Option String) × Db
claim_result none now db = (ok none, db)
claim_result (some m) now db = (
  ok (some m.ext_id),
  update_messages (λ q. claimable now q && q.id == m.id) (move_message processed now) db,
)

-- The claiming statement of `DequeueNextPending`; no row is no error.
unfoldable pub claim : ℕ → Db → Result (Option String) × Db
claim now db = claim_result (find_first (claimable now) db.messages) now db
