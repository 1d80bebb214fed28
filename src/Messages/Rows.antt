-- ===== src/Messages/Rows.antt =====
-- Table rows and their mapping onto the domain: internal/messages/models.go and the tables of
-- internal/db/migrations.
use at_gateway.Prelude.{
  ℕ, String, Bool, false, Option, none, some, List, [], ◌∷◌, map, ◌==◌, string_eq, if◌then◌else◌,
}
use at_gateway.Messages.Result.{Result, ok, err, panic, ◌>>=◌, Reason, marshal, invalid_content}
use at_gateway.Messages.State.{ProcessingState, StateEntry, pending, other, latest, to_domain_map}
use at_gateway.Messages.Domain.{
  Codec, ContentType, text_type, data_type, other_type, TextMessage, DataMessage,
  MessageStateContent, MessageInput, Message, Recipient, content,
}

-- `messageModel`: a row of the table messages.
pub record MessageRow : Type 0 where
  pub id : ℕ
  pub ext_id : String
  pub device_id : String
  pub type : ContentType
  pub content : String
  pub priority : ℕ
  pub is_encrypted : Bool
  pub valid_until : Option ℕ
  pub schedule_at : Option ℕ
  pub sim_number : Option ℕ
  pub with_delivery_report : Option Bool
  pub state : ProcessingState
  pub states : List StateEntry
  pub is_hashed : Bool
  pub created_at : ℕ
  pub updated_at : ℕ

-- `recipientModel`: a row of the table message_recipients.
pub record RecipientRow : Type 0 where
  pub id : ℕ
  pub ref_id : Option ℕ
  pub message_id : ℕ
  pub phone : String
  pub states : List StateEntry
  pub error : Option Reason

-- The two tables, each in the order of its ids, with the next AUTOINCREMENT ids.
pub record Db : Type 0 where
  pub messages : List MessageRow
  pub recipients : List RecipientRow
  pub next_message_id : ℕ
  pub next_recipient_id : ℕ

-- `newMessageModel` once the content is encoded; a nil device id is dereferenced.
message_model_of : MessageInput → ℕ → Option String → ContentType × String → Result MessageRow
message_model_of msg now none (t, c) = panic
message_model_of msg now (some device) (t, c) = ok (record {
  id = 0;
  ext_id = msg.ext_id;
  device_id = device;
  type = t;
  content = c;
  priority = msg.priority;
  is_encrypted = msg.is_encrypted;
  valid_until = msg.valid_until;
  schedule_at = msg.schedule_at;
  sim_number = msg.sim_number;
  with_delivery_report = msg.with_delivery_report;
  state = pending;
  states = record { state = pending; at = now } ∷ [];
  is_hashed = false;
  created_at = now;
  updated_at = now;
})

-- `newMessageModel`.
unfoldable pub new_message_model : Codec → MessageInput → ℕ → Result MessageRow
unfolding message_model_of
new_message_model codec msg now =
    content codec msg >>= λ typed. message_model_of msg now msg.device_id typed

-- `newRecipientModels`; the insertion assigns the ids.
unfoldable pub new_recipient_models : List String → ℕ → ℕ → List RecipientRow
new_recipient_models [] message_id now = []
new_recipient_models (phone ∷ phones) message_id now =
    record {
      id = 0;
      ref_id = none;
      message_id = message_id;
      phone = phone;
      states = record { state = pending; at = now } ∷ [];
      error = none;
    }
    ∷ new_recipient_models phones message_id now

abbrev no_content : MessageStateContent
no_content = record {
  message_content = record { text_content = none; data_content = none; multimedia_content = none };
  hashed_content = none;
}

text_body : Option TextMessage → Result MessageStateContent
text_body none = err marshal
text_body (some t) = ok (record no_content {
  message_content = record {
    text_content = some t;
    data_content = none;
    multimedia_content = none;
  };
})

data_body : Option DataMessage → Result MessageStateContent
data_body none = err marshal
data_body (some d) = ok (record no_content {
  message_content = record {
    text_content = none;
    data_content = some d;
    multimedia_content = none;
  };
})

-- The `switch` on the type column in `messageContent`.
typed_content : Codec → ContentType → String → Result MessageStateContent
unfolding text_body data_body
typed_content codec text_type body = text_body (codec.unmarshal_text body)
typed_content codec data_type body = data_body (codec.unmarshal_data body)
typed_content codec (other_type t) body = err invalid_content

-- `messageModel.messageContent`.
unfoldable pub message_content : Codec → MessageRow → Result MessageStateContent
unfolding typed_content
message_content codec m =
    if m.content == ""
    then ok no_content
    else (if m.is_hashed
        then ok (record no_content { hashed_content = some m.content })
        else typed_content codec m.type m.content)

-- The state of a recipient: that of the newest entry, the empty text if there is none.
current_state : Option StateEntry → ProcessingState
current_state none = other ""
current_state (some e) = e.state

-- `recipientModel.toDomain`.
unfoldable pub recipient_to_domain : RecipientRow → Recipient
unfolding current_state latest
recipient_to_domain m = record {
  phone_number = m.phone;
  state = current_state (latest m.states);
  states = m.states;
  ref_id = m.ref_id;
  error = m.error;
}

-- `messageModel.toDomain`, with the rows of the Recipients relation.
unfoldable pub message_to_domain : Codec → MessageRow → List RecipientRow → Result Message
unfolding message_content recipient_to_domain to_domain_map
message_to_domain codec m recipients = message_content codec m >>= λ body. ok (record {
  state_content = body;
  message_options = record {
    sim_number = m.sim_number;
    with_delivery_report = m.with_delivery_report;
    valid_until = m.valid_until;
    schedule_at = m.schedule_at;
    priority = m.priority;
  };
  id = m.ext_id;
  state = m.state;
  recipients = map recipient_to_domain recipients;
  states = to_domain_map m.states;
  device_id = m.device_id;
  is_hashed = m.is_hashed;
  is_encrypted = m.is_encrypted;
})
