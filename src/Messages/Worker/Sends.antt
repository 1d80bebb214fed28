-- ===== src/Messages/Worker/Sends.antt =====
-- What `processRecipient` hands to the modem.
use at_gateway.Prelude.{
  Option-cases, String, ◌≡◌, refl, ◌⊎◌, inl, inr, Bool, true, false, not, Option, none, some, List,
  [], ◌∷◌, ◌++◌, arith, if◌then◌else◌,
}
use at_gateway.Messages.Result.{
  Result, ok, err, panic, Reason, send_refused, invalid_text, only_text_supported,
}
use at_gateway.Messages.State.{processed, ProcessingState, failed, sent}
use at_gateway.Messages.Domain.{Message, Recipient, TextMessage, processable}
use at_gateway.Messages.Rows.{RecipientRow, Db}
use at_gateway.Messages.World.{
  tick, Event, MessageEvent, Env, World, SendCall, SendAnswer, accepted, refused, M, ◌>>=◌, ◌>>◌,
  then_run, done, lift, read_clock, emit, inc_sent, inc_failed, sms_sent, sms_failed,
}
use at_gateway.Messages.Statements.{move_recipient_rows}
use at_gateway.Messages.Repository.{
  execute, update_recipient_state, set_recipient_processed, set_recipient_sent,
  set_recipient_failed,
}
use at_gateway.Messages.Intake.{message_event}
use at_gateway.Messages.Worker.{
  fail_recipient, last_ref, after_send, send_valid, send_text, process_recipient, validate_text,
  report_or_default,
}

-- An operation after which the calls of the modem are those of a list, if they were those before it.
pub Calls : {A : Type 0} → List SendCall → M A → Type 0
Calls calls m = (w : World) → w.sends ≡ calls → (m w).1.sends ≡ calls

module _ {A : Type 0} (calls : List SendCall) where
  Calls-same : (m : M A) → ((w : World) → (m w).1.sends ≡ w.sends) → Calls calls m
  unfolding Calls
  Calls-same m e w h = rw (e w) h

module _ {A B : Type 0} (calls : List SendCall) where
  then_run-calls :
      (f : A → M B) (r : Result A × World)
      → ((a : A) (w : World) → w.sends ≡ calls → (f a w).1.sends ≡ calls)
      → r.1.sends ≡ calls
      → (then_run r f).1.sends ≡ calls
  then_run-calls f (ok a, w) k h = k a w h
  then_run-calls f (err e, w) k h = h
  then_run-calls f (panic, w) k h = h

  Calls-bind :
      (m : M A) (f : A → M B)
      → Calls calls m
      → ((a : A) → Calls calls (f a))
      → Calls calls (m >>= f)
  unfolding Calls
  Calls-bind m f km kf w h = then_run-calls f (m w) kf (km w h)

module _ (calls : List SendCall) (env : Env) where
  Calls-execute : (f : Db → Db) → Calls calls (execute env f)
  Calls-execute f = Calls-same calls (execute env f) (λ w. ground arith)

  Calls-clock : Calls calls (read_clock env)
  Calls-clock = Calls-same calls (read_clock env) (λ w. refl)

  update_recipient_state-Calls :
      (id phone : String) (s : ProcessingState) (also : RecipientRow → Bool)
      → (set : RecipientRow → RecipientRow)
      → Calls calls (update_recipient_state env id phone s also set)
  unfolding update_recipient_state
  update_recipient_state-Calls id phone s also set =
      Calls-bind calls (read_clock env)
        (λ now. execute env (move_recipient_rows id phone s now also set)) Calls-clock
        λ now. Calls-execute (move_recipient_rows id phone s now also set)

  notice :
      (message : Message) (r : Recipient) (s : ProcessingState) (k : MessageEvent → Event)
      → Calls calls
          (read_clock env >>= λ now. message_event env message r now >>= λ e. emit (k e) >> done s)
  unfolding message_event
  notice message r s k =
      Calls-same calls
        (read_clock env >>= λ now. message_event env message r now >>= λ e. emit (k e) >> done s)
        (λ w. refl)

  fail_recipient-Calls :
      (message : Message) (r : Recipient) (reason : Reason)
      → Calls calls (fail_recipient env message r reason)
  unfolding fail_recipient set_recipient_failed
  fail_recipient-Calls message r reason =
      Calls-bind calls (set_recipient_failed env message.id r.phone_number reason)
        (λ _. read_clock env >>= λ now.
          message_event env message r now >>= λ e. emit (sms_failed e reason) >> done failed)
        (update_recipient_state-Calls message.id r.phone_number failed _ _)
        λ _. notice message r failed (λ e. sms_failed e reason)

  after_send-Calls :
      (message : Message) (r : Recipient) (answer : SendAnswer)
      → Calls calls (after_send env message r answer)
  unfolding after_send set_recipient_sent
  after_send-Calls message r (refused why) =
      Calls-bind calls inc_failed (λ _. fail_recipient env message r (send_refused why))
        (Calls-same calls inc_failed (λ w. refl))
        λ _. fail_recipient-Calls message r (send_refused why)
  after_send-Calls message r (accepted refs) =
      Calls-bind calls inc_sent _ (Calls-same calls inc_sent (λ w. refl)) λ _.
        Calls-bind calls (lift (last_ref refs)) _
          (Calls-same calls (lift (last_ref refs)) (λ w. refl))
          λ ref.
            Calls-bind calls (set_recipient_sent env message.id r.phone_number ref) _
              (update_recipient_state-Calls message.id r.phone_number sent _ _)
              λ _. notice message r sent sms_sent

-- The call of `SendSMS` for a recipient and a text.
abbrev pub call_of : Message → Recipient → TextMessage → SendCall
call_of message r t = record {
  phone = r.phone_number;
  text = t.text;
  with_report = report_or_default message.with_delivery_report;
}

-- The world in which the modem answers that call.
abbrev call_world : Message → Recipient → World → TextMessage → World
call_world message r w t = record (tick w) { sends = w.sends ++ call_of message r t ∷ [] }

-- The rest of `processRecipient` once the state of the recipient is judged.
abbrev processed_if : Env → Message → Recipient → Result Bool → M ProcessingState
processed_if env message r b = do
  should ← lift b
  if not should then done r.state else (do
    set_recipient_processed env message.id r.phone_number
    send_text env message r message.text_content)

module _ (env : Env) (message : Message) (r : Recipient) (calls : List SendCall) where
  -- The calls of the modem are those of the list, or one call more: of a text that is valid.
  abbrev pub Handed : Option TextMessage → World → Type 0
  Handed none v = v.sends ≡ calls
  Handed (some t) v =
      (v.sends ≡ calls)
      ⊎ (validate_text env t.text env.max_segments ≡ none)
        × (v.sends ≡ calls ++ call_of message r t ∷ [])

  send_valid-Handed :
      (t : TextMessage) (w : World)
      → w.sends ≡ calls
      → Handed
          (some t)
          (send_valid env message r t.text (validate_text env t.text env.max_segments) w).1
  unfolding send_valid Calls
  send_valid-Handed t w h = elim (Option-cases (validate_text env t.text env.max_segments)) [
    | inl e ↦
        let sent_once =
          after_send-Calls (calls ++ call_of message r t ∷ []) env message r
            (env.send_sms w.steps r.phone_number t.text
              (report_or_default message.with_delivery_report))
            (call_world message r w t) (rw h refl) in
        rw e (inr (refl, sent_once))
    | inr (why, e) ↦
        let none_sent =
          Calls-bind calls inc_failed (λ _. fail_recipient env message r (invalid_text why))
            (Calls-same calls inc_failed (λ w. refl))
            (λ _. fail_recipient-Calls calls env message r (invalid_text why)) w h in
        rw e (inl none_sent)
  ]

  send_text-Handed :
      (o : Option TextMessage) (w : World)
      → w.sends ≡ calls
      → Handed o (send_text env message r o w).1
  unfolding send_text Calls
  send_text-Handed none w h =
      Calls-bind calls inc_failed (λ _. fail_recipient env message r only_text_supported)
        (Calls-same calls inc_failed (λ w. refl))
        (λ _. fail_recipient-Calls calls env message r only_text_supported) w h
  send_text-Handed (some t) w h = send_valid-Handed t w h

  Handed-same : (o : Option TextMessage) (v : World) → v.sends ≡ calls → Handed o v
  Handed-same none v h = h
  Handed-same (some t) v h = inl h

  then_send :
      (o : Option TextMessage) (x : Result (Unit {0}) × World)
      → x.1.sends ≡ calls
      → Handed o (then_run x (λ _. send_text env message r o)).1
  then_send o (ok u, w) h = send_text-Handed o w h
  then_send o (err e, w) h = Handed-same o w h
  then_send o (panic, w) h = Handed-same o w h

  process-Handed :
      (b : Result Bool) (w : World)
      → w.sends ≡ calls
      → Handed message.text_content (processed_if env message r b w).1
  unfolding set_recipient_processed Calls
  process-Handed (ok true) w h =
      then_send message.text_content (set_recipient_processed env message.id r.phone_number w)
        (update_recipient_state-Calls calls env message.id r.phone_number processed _ _ w h)
  process-Handed (ok false) w h = Handed-same message.text_content w h
  process-Handed (err e) w h = Handed-same message.text_content w h
  process-Handed panic w h = Handed-same message.text_content w h

-- The turn of a recipient makes no call of the modem, or exactly one, which is for the recipient's
-- number and the message's text, and only if the check accepts that text; for a message without a
-- text there is none.
pub process_recipient-Handed :
    (env : Env) (message : Message) (r : Recipient) (w : World)
    → Handed env message r w.sends message.text_content (process_recipient env message r w).1
unfolding process_recipient
process_recipient-Handed env message r w =
    process-Handed env message r w.sends (processable r) w refl
