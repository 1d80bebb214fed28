-- ===== src/Messages/Result.antt =====
-- Outcomes of the messages component: internal/messages/errors.go, and the texts of failure reasons.
use at_gateway.Prelude.{ℕ, String}

-- The errors that callers tell apart by `errors.Is`. `marshal` stands for an error of encoding/json,
-- `database` for any error of the database driver but a duplicate key.
pub data Error : Type 0 where
  not_found already_exists not_pending duplicate_recipient : Error
  not_supported invalid_content invalid_phone_numbers device_not_found : Error
  marshal database : Error

-- Why `modem.ValidateText` refuses a text.
pub data TextError : Type 0 where
  text_is_empty encode_failed : TextError
  -- The part count and the maximum that it exceeds.
  too_many_parts : ℕ → ℕ → TextError

-- The texts that are written into the error column of a recipient.
pub data Reason : Type 0 where
  message_expired only_text_supported : Reason
  invalid_text : TextError → Reason
  -- The text of an error of `modem.SendSMS`.
  send_refused : String → Reason
  -- "delivery report: SC status 0x…".
  sc_status : ℕ → Reason

-- What a Go call does: returns a value, returns an error, or panics.
pub data Result {ℓ} (A : Type ℓ) : Type ℓ where
  ok : A → Result A
  err : Error → Result A
  panic : Result A

infixl 5 ◌>>=◌
abbrev pub ◌>>=◌ {ℓ κ} : {A : Type ℓ} {B : Type κ} → Result A → (A → Result B) → Result B
ok a >>= f = f a
err e >>= f = err e
panic >>= f = panic
