-- ===== src/Modem/Inbound.antt =====
-- The decoding of a stored message: internal/modem/inbound.go. `Deliver` is what the code reads of the
-- TPDU that the SMS library decodes from the hex text.
use at_gateway.Prelude.{
  ℕ, ◌*◌, ◌+◌, String, Bool, true, false, not, ◌||◌, Option, none, some, List, [], ◌∷◌, ltb,
  if◌then◌else◌,
}
use at_gateway.Inbox.Reassembly.{ConcatRef, InboundPart}

-- What is read of `tpdu.UserDataHeader`.
pub record UserDataHeader : Type 0 where
  -- `udh.IE(id)`, if it is there.
  pub ie : ℕ → Option (List ℕ)
  -- `ConcatInfo8` and `ConcatInfo16`: segments, sequence and reference.
  pub concat_info8 : Option (ℕ × ℕ × ℕ)
  pub concat_info16 : Option (ℕ × ℕ × ℕ)

pub record Deliver : Type 0 where
  -- `SmsType() == tpdu.SmsDeliver`.
  pub is_deliver : Bool
  -- Whether `Alphabet()` succeeds, and what `tpdu.DecodeUserData` answers.
  pub has_alphabet : Bool
  pub user_data : Option String
  pub sender : String
  -- TP-SCTS: `IsZero()`, `Year()` and the instant.
  pub stamp_is_zero : Bool
  pub stamp_year : ℕ
  pub stamp : ℕ
  pub header : UserDataHeader

-- `sctsUTC`; the zero time is 0.
unfoldable pub scts_utc : Deliver → ℕ × Bool
scts_utc d = if d.stamp_is_zero || ltb d.stamp_year 2000 then (0, false) else (d.stamp, true)

abbrev port8 : Option (List ℕ) → ℕ × Bool
port8 (some (a ∷ b ∷ [])) = (a, true)
port8 _ = (0, false)

abbrev port16 : Option (List ℕ) → ℕ × Bool → ℕ × Bool
port16 (some (a ∷ b ∷ c ∷ d ∷ [])) other = (a * 256 + b, true)
port16 _ other = other

-- `destinationPort`.
unfoldable pub destination_port : UserDataHeader → ℕ × Bool
destination_port udh = port16 (udh.ie 5) (port8 (udh.ie 4))

abbrev concat16 : Option (ℕ × ℕ × ℕ) → Option ConcatRef
concat16 none = none
concat16 (some (segments, sequence, ref)) =
    some (record { segments = segments; sequence = sequence; ref = ref; ref_width = 16 })

abbrev concat8 : Option (ℕ × ℕ × ℕ) → Option ConcatRef → Option ConcatRef
concat8 none other = other
concat8 (some (segments, sequence, ref)) other =
    some (record { segments = segments; sequence = sequence; ref = ref; ref_width = 8 })

-- `concatRef`.
unfoldable pub concat_ref : UserDataHeader → Option ConcatRef
concat_ref udh = concat8 udh.concat_info8 (concat16 udh.concat_info16)

with_content : Deliver → Option String → Option InboundPart
unfolding scts_utc destination_port concat_ref
with_content d none = none
with_content d (some content) = some (record {
  sender = d.sender;
  received_at = (scts_utc d).0;
  timestamp_valid = (scts_utc d).1;
  content = content;
  port = (destination_port d.header).0;
  ported = (destination_port d.header).1;
  concat = concat_ref d.header;
})

-- `DecodeInboundSMS`, behind the decoding of the TPDU; every error is one.
unfoldable pub decode_inbound_sms : Option Deliver → Option InboundPart
unfolding with_content
decode_inbound_sms none = none
decode_inbound_sms (some d) =
    if not d.is_deliver || not d.has_alphabet then none else with_content d d.user_data
