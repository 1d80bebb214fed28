-- ===== src/Messages/Worker/Kept.antt =====
-- The outbox worker and the delivery reports keep what the updates of the tables keep.
use at_gateway.Prelude.{
  ℕ, String, refl, Bool, true, Option, none, some, List, [], ◌∷◌, not, if◌then◌else◌, ◌==◌, map,
}
use at_gateway.Messages.Result.{
  Result, ok, err, panic, Reason, send_refused, invalid_text, only_text_supported, TextError,
}
use at_gateway.Messages.State.{ProcessingState, state_eq, sent, delivered, failed}
use at_gateway.Messages.Domain.{Message, Recipient, TextMessage, processable}
use at_gateway.Messages.Rows.{Db}
use at_gateway.Messages.Statements.Kept.{KeptByUpdates}
use at_gateway.Messages.World.{
  Env, World, SendAnswer, accepted, refused, read_clock, inc_sent, inc_delivered, inc_failed,
  sms_sent, sms_delivered, sms_failed, done,
}
use at_gateway.Messages.World.Keeps.{Keeps, Keeps-run, Keeps-same, Keeps-lift, Keeps-bind}
use at_gateway.Messages.Repository.{set_state}
use at_gateway.Messages.Repository.Kept.{
  Keeps-if, get_by_id-Keeps, set_state-Keeps, set_recipient_processed-Keeps,
  set_recipient_sent-Keeps, set_recipient_failed-Keeps, set_recipient_delivered_by_ref-Keeps,
  set_recipient_failed_by_ref-Keeps, dequeue_next_pending-Keeps,
}
use at_gateway.Messages.Intake.Kept.{message_event-Keeps, emit-Keeps}
use at_gateway.Messages.Worker.{
  fail_recipient, send, last_ref, after_send, send_valid, send_text, process_recipient,
  process_recipients, logged, process_pending, resolve_final_state, validate_text,
  report_or_default, DeliveryReport, ReportVerdict, temporary, was_delivered, has_failed,
  reported_recipient, emit_report, after_report, apply_report, swallowed, handle_delivery_report,
  delivery_report_state,
}

module _ (P : Db → Type 0) (k : KeptByUpdates P) (env : Env) where
  fail_recipient-Keeps :
      (message : Message) (r : Recipient) (reason : Reason)
      → Keeps P (fail_recipient env message r reason)
  unfolding fail_recipient
  fail_recipient-Keeps message r reason =
      Keeps-bind P _ _ (set_recipient_failed-Keeps P k env message.id r.phone_number reason) λ _.
        Keeps-bind P _ _ (Keeps-same P (read_clock env) (λ w. refl)) λ now.
          Keeps-bind P _ _ (message_event-Keeps P k env message r now) λ e.
            Keeps-bind P _ _ (emit-Keeps P k env (sms_failed e reason))
              λ _. Keeps-lift P (ok failed)

  after_send-Keeps :
      (message : Message) (r : Recipient) (answer : SendAnswer)
      → Keeps P (after_send env message r answer)
  unfolding after_send
  after_send-Keeps message r (refused why) =
      Keeps-bind P _ _ (Keeps-same P inc_failed (λ w. refl))
        λ _. fail_recipient-Keeps message r (send_refused why)
  after_send-Keeps message r (accepted refs) =
      Keeps-bind P _ _ (Keeps-same P inc_sent (λ w. refl)) λ _.
        Keeps-bind P _ _ (Keeps-lift P (last_ref refs)) λ ref.
          Keeps-bind P _ _ (set_recipient_sent-Keeps P k env message.id r.phone_number ref) λ _.
            Keeps-bind P _ _ (Keeps-same P (read_clock env) (λ w. refl)) λ now.
              Keeps-bind P _ _ (message_event-Keeps P k env message r now)
                λ e. Keeps-bind P _ _ (emit-Keeps P k env (sms_sent e)) λ _. Keeps-lift P (ok sent)

  send_valid-Keeps :
      (message : Message) (r : Recipient) (text : String) (e : Option TextError)
      → Keeps P (send_valid env message r text e)
  unfolding send_valid
  send_valid-Keeps message r text (some e) =
      Keeps-bind P _ _ (Keeps-same P inc_failed (λ w. refl))
        λ _. fail_recipient-Keeps message r (invalid_text e)
  send_valid-Keeps message r text none =
      Keeps-bind P _ _
        (Keeps-same P
          (send env r.phone_number text (report_or_default message.with_delivery_report))
          (λ w. refl))
        λ answer. after_send-Keeps message r answer

  send_text-Keeps :
      (message : Message) (r : Recipient) (t : Option TextMessage)
      → Keeps P (send_text env message r t)
  unfolding send_text
  send_text-Keeps message r none =
      Keeps-bind P _ _ (Keeps-same P inc_failed (λ w. refl))
        λ _. fail_recipient-Keeps message r only_text_supported
  send_text-Keeps message r (some t) =
      send_valid-Keeps message r t.text (validate_text env t.text env.max_segments)

  pub process_recipient-Keeps :
      (message : Message) (r : Recipient) → Keeps P (process_recipient env message r)
  unfolding process_recipient
  process_recipient-Keeps message r = Keeps-bind P _ _ (Keeps-lift P (processable r)) λ should.
      Keeps-if P k env (not should) _ _ (Keeps-lift P (ok r.state)) (
        Keeps-bind P _ _ (set_recipient_processed-Keeps P k env message.id r.phone_number)
          λ _. send_text-Keeps message r message.text_content)

  process_recipients-Keeps :
      (message : Message) (rs : List Recipient) → Keeps P (process_recipients env message rs)
  unfolding process_recipients
  process_recipients-Keeps message [] = Keeps-lift P (ok [])
  process_recipients-Keeps message (r ∷ rs) =
      Keeps-bind P _ _ (process_recipient-Keeps message r) λ state.
        Keeps-bind P _ _ (process_recipients-Keeps message rs)
          λ states. Keeps-lift P (ok (state ∷ states))

  logged_keeps : (r : Result Bool × World) → P r.1.db → P (logged r).1.db
  logged_keeps (ok b, w) h = h
  logged_keeps (err e, w) h = h
  logged_keeps (panic, w) h = h

  pub process_pending_keeps : (w : World) → P w.db → P (process_pending env w).1.db
  unfolding process_pending
  process_pending_keeps w h = logged_keeps _ (
      Keeps-run P _
        (Keeps-bind P _ _ (dequeue_next_pending-Keeps P k env) λ message.
          Keeps-bind P _ _ (process_recipients-Keeps message message.recipients) λ states.
            Keeps-bind P _ _ (set_state-Keeps P k env message.id (resolve_final_state states))
              λ _. Keeps-lift P (ok true))
        w h)

  emit_report-Keeps :
      (message : Message) (verdict : ReportVerdict) (o : Option Recipient) (now : ℕ)
      → Keeps P (emit_report env message verdict o now)
  unfolding emit_report
  emit_report-Keeps message verdict none now = Keeps-lift P (ok tt)
  emit_report-Keeps message temporary (some r) now = Keeps-lift P (ok tt)
  emit_report-Keeps message was_delivered (some r) now =
      Keeps-bind P _ _ (message_event-Keeps P k env message r now)
        λ e. emit-Keeps P k env (sms_delivered e)
  emit_report-Keeps message (has_failed reason) (some r) now =
      Keeps-bind P _ _ (message_event-Keeps P k env message r now)
        λ e. emit-Keeps P k env (sms_failed e reason)

  after_report-Keeps :
      (ref : ℕ) (state : ProcessingState) (verdict : ReportVerdict) (id : String)
      → Keeps P (after_report env ref state verdict id)
  unfolding after_report
  after_report-Keeps ref state verdict id = Keeps-bind P _ _ (get_by_id-Keeps P k env id) λ message.
      Keeps-bind P _ _ (Keeps-same P (read_clock env) (λ w. refl)) λ now.
        Keeps-bind P _ _
          (emit_report-Keeps message verdict (reported_recipient ref state message.recipients) now)
          λ _.
            settle_keeps id message
              (resolve_final_state (map (λ (r : Recipient). r.state) message.recipients))
    where
      settle_keeps :
          (id : String) (message : Message) (final : ProcessingState)
          → Keeps P (if final == message.state then done tt else set_state env id final)
      settle_keeps id message final =
          Keeps-if P k env (final == message.state) _ _ (Keeps-lift P (ok tt))
            (set_state-Keeps P k env id final)

  apply_report-Keeps :
      (report : DeliveryReport) (verdict : ReportVerdict)
      → Keeps P (apply_report env report verdict)
  unfolding apply_report
  apply_report-Keeps report temporary = Keeps-lift P (ok tt)
  apply_report-Keeps report was_delivered =
      Keeps-bind P _ _ (set_recipient_delivered_by_ref-Keeps P k env report.reference report.phone)
        λ id.
          Keeps-bind P _ _ (Keeps-same P inc_delivered (λ w. refl))
            λ _. after_report-Keeps report.reference delivered was_delivered id
  apply_report-Keeps report (has_failed reason) =
      Keeps-bind P _ _
        (set_recipient_failed_by_ref-Keeps P k env report.reference report.phone reason)
        λ id.
          Keeps-bind P _ _ (Keeps-same P inc_failed (λ w. refl))
            λ _. after_report-Keeps report.reference failed (has_failed reason) id

  swallowed_keeps : (r : Result (Unit {0}) × World) → P r.1.db → P (swallowed r).1.db
  swallowed_keeps (ok u, w) h = h
  swallowed_keeps (err e, w) h = h
  swallowed_keeps (panic, w) h = h

  pub handle_delivery_report_keeps :
      (report : DeliveryReport) (w : World) → P w.db → P (handle_delivery_report env report w).1.db
  unfolding handle_delivery_report
  handle_delivery_report_keeps report w h =
      swallowed_keeps _
        (Keeps-run P _ (apply_report-Keeps report (delivery_report_state report.status)) w h)
