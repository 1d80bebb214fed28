-- ===== src/Messages/Worker.antt =====
-- The background worker of the messages service: the outbox and the delivery reports of
-- internal/messages/service.go, with the preflight of a text (internal/modem/gsm7.go).
pub mod Preflight
pub mod Sends
pub mod Kept
pub mod Final
use at_gateway.Prelude.{
  ℕ, String, Bool, true, false, not, ◌&&◌, Option, none, some, List, [], ◌∷◌, map, ◌==◌, nat_eq,
  string_eq, ltb, if◌then◌else◌, length, last_of, find_first, ◌++◌, count_where, any_where,
}
use at_gateway.Messages.Result.{
  Result, ok, err, panic, TextError, text_is_empty, encode_failed, too_many_parts, Reason,
  only_text_supported, invalid_text, send_refused, sc_status,
}
use at_gateway.Messages.State.{
  ProcessingState, state_eq, pending, processed, cancelled, sent, delivered, failed,
}
use at_gateway.Messages.Domain.{Message, Recipient, TextMessage, processable}
use at_gateway.Messages.World.{
  Env, SendAnswer, accepted, refused, sms_sent, sms_delivered, sms_failed, World, M, ◌>>=◌, ◌>>◌,
  done, lift, tick, read_clock, emit, inc_sent, inc_delivered, inc_failed,
}
use at_gateway.Messages.Intake.{message_event}
use at_gateway.Messages.Repository.{
  get_by_id, set_state, set_recipient_processed, set_recipient_sent, set_recipient_failed,
  set_recipient_delivered_by_ref, set_recipient_failed_by_ref, dequeue_next_pending,
}

-- `smsMaxParts`.
abbrev pub sms_max_parts : ℕ
sms_max_parts = 255

-- The part limits of `ValidateText`; `none` accepts the text.
unfoldable pub check_parts : Option ℕ → ℕ → Option TextError
check_parts none max_parts = some encode_failed
check_parts (some parts) max_parts =
    if ltb sms_max_parts parts
    then some (too_many_parts parts sms_max_parts)
    else (if ltb 0 max_parts && ltb max_parts parts
        then some (too_many_parts parts max_parts)
        else none)

-- `modem.ValidateText`, with `modem.SegmentCount` (which is reached with a text that is not empty).
unfoldable pub validate_text : Env → String → ℕ → Option TextError
unfolding check_parts
validate_text env text max_parts =
    if text == "" then some text_is_empty else check_parts (env.segments text) max_parts

-- What a raw TP-ST octet demands.
pub data ReportVerdict : Type 0 where
  temporary : ReportVerdict
  was_delivered : ReportVerdict
  has_failed : Reason → ReportVerdict

-- `deliveryReportState`.
unfoldable pub delivery_report_state : ℕ → ReportVerdict
delivery_report_state status =
    if ltb status 0x20
    then was_delivered
    else (if ltb status 0x40 then temporary else has_failed (sc_status status))

abbrev pub has_state : ProcessingState → List ProcessingState → Bool
has_state s states = any_where (λ t. t == s) states

abbrev pub all_state : ProcessingState → List ProcessingState → Bool
all_state s states = count_where (λ t. t == s) states == length states

-- `Service.resolveFinalState`.
unfoldable pub resolve_final_state : List ProcessingState → ProcessingState
resolve_final_state states =
    if has_state pending states
    then pending
    else (if has_state cancelled states
        then cancelled
        else (if has_state processed states
            then processed
            else (if all_state failed states
                then failed
                else (if all_state delivered states then delivered else sent))))

-- `failRecipient`.
unfoldable pub fail_recipient : Env → Message → Recipient → Reason → M ProcessingState
unfolding message_event
fail_recipient env message recipient reason = do
  set_recipient_failed env message.id recipient.phone_number reason
  now ← read_clock env
  event ← message_event env message recipient now
  emit (sms_failed event reason)
  done failed

-- `modemSvc.SendSMS`, recorded in the world.
abbrev send : Env → String → String → Bool → M SendAnswer
send env phone text report w = (
  ok (env.send_sms w.steps phone text report),
  record (tick w) {
    sends = w.sends ++ record { phone = phone; text = text; with_report = report } ∷ [];
  },
)

-- `lo.FromPtrOr(message.WithDeliveryReport, true)`.
abbrev report_or_default : Option Bool → Bool
report_or_default none = true
report_or_default (some b) = b

-- `refs[len(refs)-1]`, which panics on an empty slice.
abbrev last_ref : List ℕ → Result ℕ
last_ref refs = elim (last_of refs) [ none ↦ panic | some ref ↦ ok ref ]

-- What follows the answer of the modem.
after_send : Env → Message → Recipient → SendAnswer → M ProcessingState
unfolding fail_recipient message_event
after_send env message recipient (refused why) = do
  inc_failed
  fail_recipient env message recipient (send_refused why)
after_send env message recipient (accepted refs) = do
  inc_sent
  ref ← lift (last_ref refs)
  set_recipient_sent env message.id recipient.phone_number ref
  now ← read_clock env
  event ← message_event env message recipient now
  emit (sms_sent event)
  done sent

-- What follows the check of the text.
send_valid : Env → Message → Recipient → String → Option TextError → M ProcessingState
unfolding fail_recipient after_send
send_valid env message recipient text (some e) = do
  inc_failed
  fail_recipient env message recipient (invalid_text e)
send_valid env message recipient text none = do
  answer ← send env recipient.phone_number text (report_or_default message.with_delivery_report)
  after_send env message recipient answer

send_text : Env → Message → Recipient → Option TextMessage → M ProcessingState
unfolding fail_recipient send_valid validate_text
send_text env message recipient none = do
  inc_failed
  fail_recipient env message recipient only_text_supported
send_text env message recipient (some t) =
    send_valid env message recipient t.text (validate_text env t.text env.max_segments)

-- `Service.processRecipient`.
unfoldable pub process_recipient : Env → Message → Recipient → M ProcessingState
unfolding send_text processable
process_recipient env message recipient = do
  should ← lift (processable recipient)
  if not should then done recipient.state else (do
    set_recipient_processed env message.id recipient.phone_number
    send_text env message recipient message.text_content)

-- The loop of `processPending` over the recipients.
unfoldable pub process_recipients : Env → Message → List Recipient → M (List ProcessingState)
unfolding process_recipient
process_recipients env message [] = done []
process_recipients env message (r ∷ rs) =
    let rest = process_recipients env message rs in
    process_recipient env message r >>= λ state. rest >>= λ states. done (state ∷ states)

-- An error that the worker logs and answers by `false`; a panic is not caught.
abbrev logged : Result Bool × World → Result Bool × World
logged (ok b, w) = (ok b, w)
logged (err e, w) = (ok false, w)
logged (panic, w) = (panic, w)

-- `Service.processPending`.
unfoldable pub process_pending : Env → M Bool
unfolding process_recipients resolve_final_state
process_pending env w = logged (
    (do
      message ← dequeue_next_pending env
      states ← process_recipients env message message.recipients
      set_state env message.id (resolve_final_state states)
      done true)
      w)

-- `modem.DeliveryReport`.
pub record DeliveryReport : Type 0 where
  pub reference : ℕ
  pub phone : String
  pub status : ℕ

-- The recipient whose event a report emits: the first with its reference and its state.
unfoldable pub reported_recipient : ℕ → ProcessingState → List Recipient → Option Recipient
reported_recipient ref state rs =
    find_first
      (λ (r : Recipient). elim r.ref_id [ none ↦ false | some k ↦ k == ref ] && r.state == state) rs

emit_report : Env → Message → ReportVerdict → Option Recipient → ℕ → M (Unit {0})
unfolding message_event
emit_report env message verdict none now = done tt
emit_report env message temporary (some r) now = done tt
emit_report env message was_delivered (some r) now = do
  event ← message_event env message r now
  emit (sms_delivered event)
emit_report env message (has_failed reason) (some r) now = do
  event ← message_event env message r now
  emit (sms_failed event reason)

-- The part of `handleDeliveryReport` that follows an applied report.
after_report : Env → ℕ → ProcessingState → ReportVerdict → String → M (Unit {0})
unfolding reported_recipient emit_report resolve_final_state
after_report env ref state verdict id = do
  message ← get_by_id env id
  now ← read_clock env
  emit_report env message verdict (reported_recipient ref state message.recipients) now
  let final = resolve_final_state (map (λ (r : Recipient). r.state) message.recipients)
  if final == message.state then done tt else set_state env id final

apply_report : Env → DeliveryReport → ReportVerdict → M (Unit {0})
unfolding after_report
apply_report env report temporary = done tt
apply_report env report was_delivered = do
  id ← set_recipient_delivered_by_ref env report.reference report.phone
  inc_delivered
  after_report env report.reference delivered was_delivered id
apply_report env report (has_failed reason) = do
  id ← set_recipient_failed_by_ref env report.reference report.phone reason
  inc_failed
  after_report env report.reference failed (has_failed reason) id

-- Errors are logged and swallowed; a panic is not caught.
abbrev swallowed : Result (Unit {0}) × World → Result (Unit {0}) × World
swallowed (ok u, w) = (ok tt, w)
swallowed (err e, w) = (ok tt, w)
swallowed (panic, w) = (panic, w)

-- `Service.handleDeliveryReport`.
unfoldable pub handle_delivery_report : Env → DeliveryReport → M (Unit {0})
unfolding apply_report delivery_report_state
handle_delivery_report env report w =
    swallowed (apply_report env report (delivery_report_state report.status) w)
