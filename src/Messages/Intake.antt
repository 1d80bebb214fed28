-- ===== src/Messages/Intake.antt =====
-- Requests to the messages service: `Enqueue` and `Cancel` of internal/messages/service.go.
pub mod Kept
use at_gateway.Prelude.{
  ℕ, String, Bool, true, false, not, ◌||◌, Option, none, some, List, [], ◌∷◌, ◌==◌, nat_eq,
  string_eq, if◌then◌else◌, length, any_where,
}
use at_gateway.Messages.Result.{
  Result, ok, err, panic, not_supported, invalid_phone_numbers, device_not_found,
}
use at_gateway.Messages.State.{state_eq, cancelled}
use at_gateway.Messages.Domain.{MessageInput, Message, Recipient}
use at_gateway.Messages.World.{
  Env, NumberType, mobile, fixed_line_or_mobile, other_number_type, MessageEvent, sms_cancelled, M,
  ◌>>=◌, ◌>>◌, done, fail, lift, tick, read_clock, emit, inc_enqueued, inc_cancelled,
}
use at_gateway.Messages.Repository.{create, get_by_id, cancel}

is_mobile : NumberType → Bool
is_mobile mobile = true
is_mobile fixed_line_or_mobile = true
is_mobile other_number_type = false

clean_parsed : Env → Option String → Result String
unfolding is_mobile
clean_parsed env none = err invalid_phone_numbers
clean_parsed env (some phone) =
    if not (env.phone_is_valid phone)
    then err invalid_phone_numbers
    else (if is_mobile (env.phone_type phone)
        then ok (env.phone_format phone)
        else err invalid_phone_numbers)

-- `Service.cleanPhoneNumber`.
unfoldable pub clean_phone_number : Env → String → Result String
unfolding clean_parsed
clean_phone_number env input = clean_parsed env (env.phone_parse input env.default_region)

prepend : String → Result (List String) → Result (List String)
prepend phone (ok phones) = ok (phone ∷ phones)
prepend phone (err e) = err e
prepend phone panic = panic

clean_then : Result String → Result (List String) → Result (List String)
unfolding prepend
clean_then (ok phone) rest = prepend phone rest
clean_then (err e) rest = err e
clean_then panic rest = panic

-- The normalising loop of `Enqueue`: the first number that is refused ends it.
unfoldable pub clean_all : Env → List String → Result (List String)
unfolding clean_then clean_phone_number
clean_all env [] = ok []
clean_all env (v ∷ vs) = let rest = clean_all env vs in clean_then (clean_phone_number env v) rest

abbrev is_foreign_sim : Option ℕ → Bool
is_foreign_sim none = false
is_foreign_sim (some n) = not (n == 1)

-- The checks of `Enqueue`, up to the normalised numbers.
unfoldable pub checked_phones : Env → MessageInput → Bool → Result (List String)
unfolding clean_all
checked_phones env input skip_phone_validation =
    if input.is_encrypted
    then err not_supported
    else (if is_foreign_sim input.sim_number
        then err not_supported
        else (if length input.phone_numbers == 0 || any_where (λ p. p == "") input.phone_numbers
            then err invalid_phone_numbers
            else (if skip_phone_validation
                then ok input.phone_numbers
                else clean_all env input.phone_numbers)))

-- The ext_id of an input, generated when it is empty.
abbrev choose_id : Env → String → M String
choose_id env id w = if id == "" then (ok (env.new_id w.steps), tick w) else (ok id, w)

abbrev choose_device : Env → Option String → String
choose_device env none = env.local_device
choose_device env (some d) = d

-- `Service.Enqueue`.
unfoldable pub enqueue : Env → MessageInput → Bool → M Message
unfolding checked_phones
enqueue env input skip_phone_validation = do
  phones ← lift (checked_phones env input skip_phone_validation)
  id ← choose_id env input.ext_id
  let device = choose_device env input.device_id
  if not (device == env.local_device) then fail device_not_found else (do
    create env (record input { phone_numbers = phones; ext_id = id; device_id = some device })
    inc_enqueued
    get_by_id env id)

-- `Service.messageEvent`.
unfoldable pub message_event : Env → Message → Recipient → ℕ → M MessageEvent
message_event env message recipient now w = (
  ok (record {
    message_id = message.id;
    phone_number = recipient.phone_number;
    sender = env.sim_phone w.steps;
    recipient = some recipient.phone_number;
    sim_number = message.sim_number;
    at = now;
  }),
  tick w,
)

-- The loop of `Cancel`.
unfoldable pub emit_cancelled : Env → Message → ℕ → List Recipient → M (Unit {0})
unfolding message_event
emit_cancelled env message now [] = done tt
emit_cancelled env message now (r ∷ rs) =
    let rest = emit_cancelled env message now rs in
    if r.state == cancelled
    then (message_event env message r now >>= λ e. emit (sms_cancelled e) >> rest)
    else rest

-- `Service.Cancel`.
unfoldable pub cancel_message : Env → String → M Message
unfolding emit_cancelled
cancel_message env id = do
  message ← cancel env id
  inc_cancelled
  now ← read_clock env
  emit_cancelled env message now message.recipients
  done message
