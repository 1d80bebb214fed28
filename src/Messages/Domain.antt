-- ===== src/Messages/Domain.antt =====
-- Domain values of the messages component: internal/messages/domain.go.
use at_gateway.Prelude.{ℕ, String, Bool, true, false, Option, none, some, List}
use at_gateway.Messages.Result.{
  Result, ok, err, panic, Reason, marshal, not_supported, invalid_content,
}
use at_gateway.Messages.State.{
  ProcessingState, StateEntry, pending, processed, cancelling, cancelled, sent, delivered, failed,
  other,
}

-- The text is all that the gateway reads of a wire message; the data and multimedia messages it only
-- hands on, so a token stands for each.
pub record TextMessage : Type 0 where
  pub text : String

abbrev pub DataMessage : Type 0
DataMessage = String

abbrev pub MmsMessage : Type 0
MmsMessage = String

-- encoding/json on the two wire types; `none` is its error.
pub record Codec : Type 0 where
  pub marshal_text : TextMessage → Option String
  pub marshal_data : DataMessage → Option String
  pub unmarshal_text : String → Option TextMessage
  pub unmarshal_data : String → Option DataMessage

pub data ContentType : Type 0 where
  text_type data_type : ContentType
  other_type : String → ContentType

pub record MessageContent : Type 0 where
  pub text_content : Option TextMessage
  pub data_content : Option DataMessage
  pub multimedia_content : Option MmsMessage

pub record MessageStateContent : Type 0 where
  pub message_content : MessageContent
  pub open message_content use *
  pub hashed_content : Option String

pub record MessageOptions : Type 0 where
  pub sim_number : Option ℕ
  pub with_delivery_report : Option Bool
  pub valid_until : Option ℕ
  pub schedule_at : Option ℕ
  pub priority : ℕ

pub record MessageInput : Type 0 where
  pub message_content : MessageContent
  pub open message_content use *
  pub message_options : MessageOptions
  pub open message_options use *
  pub ext_id : String
  pub device_id : Option String
  pub phone_numbers : List String
  pub is_encrypted : Bool

marshalled : ContentType → Option String → Result (ContentType × String)
marshalled t none = err marshal
marshalled t (some s) = ok (t, s)

multimedia_or_missing : Option MmsMessage → Result (ContentType × String)
multimedia_or_missing (some m) = err not_supported
multimedia_or_missing none = err invalid_content

data_or_other : Codec → Option DataMessage → Option MmsMessage → Result (ContentType × String)
unfolding marshalled multimedia_or_missing
data_or_other codec (some d) m = marshalled data_type (codec.marshal_data d)
data_or_other codec none m = multimedia_or_missing m

text_or_other :
    Codec
    → Option TextMessage
    → Option DataMessage
    → Option MmsMessage
    → Result (ContentType × String)
unfolding data_or_other
text_or_other codec (some t) d m = marshalled text_type (codec.marshal_text t)
text_or_other codec none d m = data_or_other codec d m

-- `MessageInput.Content`: the `switch` is the chain of helpers above.
unfoldable pub content : Codec → MessageInput → Result (ContentType × String)
unfolding text_or_other
content codec m = text_or_other codec m.text_content m.data_content m.multimedia_content

-- One phone number of a message with its history.
pub record Recipient : Type 0 where
  pub phone_number : String
  pub state : ProcessingState
  pub states : List StateEntry
  pub ref_id : Option ℕ
  pub error : Option Reason

pub record Message : Type 0 where
  pub state_content : MessageStateContent
  pub open state_content use *
  pub message_options : MessageOptions
  pub open message_options use *
  pub id : String
  pub state : ProcessingState
  pub recipients : List Recipient
  pub states : List (ProcessingState × ℕ)
  pub device_id : String
  pub is_hashed : Bool
  pub is_encrypted : Bool

-- The `switch` of `Recipient.processable`.
processable_state : ProcessingState → Result Bool
processable_state pending = ok true
processable_state processed = ok true
processable_state cancelling = ok false
processable_state cancelled = ok false
processable_state sent = ok false
processable_state delivered = ok false
processable_state failed = ok false
processable_state (other s) = panic

-- `Recipient.processable`.
unfoldable pub processable : Recipient → Result Bool
unfolding processable_state
processable r = processable_state r.state
