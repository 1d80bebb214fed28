-- ===== src/Messages/Intake/Kept.antt =====
-- Enqueue and Cancel keep what the updates of the tables keep.
use at_gateway.Prelude.{ℕ, arith, String, refl, Bool, List, [], ◌∷◌, not, ◌==◌, string_eq}
use at_gateway.Messages.Result.{ok, err, device_not_found}
use at_gateway.Messages.State.{state_eq, cancelled}
use at_gateway.Messages.Domain.{MessageInput, Message, Recipient}
use at_gateway.Messages.Rows.{Db}
use at_gateway.Messages.Statements.Kept.{KeptByUpdates}
use at_gateway.Messages.World.{
  Env, Event, read_clock, inc_enqueued, inc_cancelled, sms_cancelled, emit,
}
use at_gateway.Messages.World.Keeps.{Keeps, Keeps-same, Keeps-lift, Keeps-bind}
use at_gateway.Messages.Repository.Kept.{Keeps-if, create-Keeps, get_by_id-Keeps, cancel-Keeps}
use at_gateway.Messages.Intake.{
  checked_phones, choose_id, choose_device, enqueue, message_event, emit_cancelled, cancel_message,
}

module _ (P : Db → Type 0) (k : KeptByUpdates P) (env : Env) where
  choose_id-Keeps : (id : String) → Keeps P (choose_id env id)
  choose_id-Keeps id = Keeps-same P (choose_id env id) (λ w. ground arith)

  pub enqueue-Keeps : (input : MessageInput) (skip : Bool) → Keeps P (enqueue env input skip)
  unfolding enqueue
  enqueue-Keeps input skip =
      Keeps-bind P _ _ (Keeps-lift P (checked_phones env input skip)) λ phones.
        Keeps-bind P _ _ (choose_id-Keeps input.ext_id) λ id.
          Keeps-if P k env (not (choose_device env input.device_id == env.local_device)) _ _
            (Keeps-lift P (err device_not_found))
            (Keeps-bind P _ _ (create-Keeps P k env _) λ _.
              Keeps-bind P _ _ (Keeps-same P inc_enqueued (λ w. refl))
                λ _. get_by_id-Keeps P k env id)

  pub message_event-Keeps :
      (message : Message) (r : Recipient) (now : ℕ) → Keeps P (message_event env message r now)
  unfolding message_event
  message_event-Keeps message r now = Keeps-same P (message_event env message r now) (λ w. refl)

  pub emit-Keeps : (e : Event) → Keeps P (emit e)
  emit-Keeps e = Keeps-same P (emit e) (λ w. refl)

  emit_cancelled-Keeps :
      (message : Message) (now : ℕ) (rs : List Recipient)
      → Keeps P (emit_cancelled env message now rs)
  unfolding emit_cancelled
  emit_cancelled-Keeps message now [] = Keeps-lift P (ok tt)
  emit_cancelled-Keeps message now (r ∷ rs) =
      Keeps-if P k env (r.state == cancelled) _ _
        (Keeps-bind P _ _ (message_event-Keeps message r now) λ e.
          Keeps-bind P _ _ (emit-Keeps (sms_cancelled e)) λ _. emit_cancelled-Keeps message now rs)
        (emit_cancelled-Keeps message now rs)

  pub cancel_message-Keeps : (id : String) → Keeps P (cancel_message env id)
  unfolding cancel_message
  cancel_message-Keeps id = Keeps-bind P _ _ (cancel-Keeps P k env id) λ message.
      Keeps-bind P _ _ (Keeps-same P inc_cancelled (λ w. refl)) λ _.
        Keeps-bind P _ _ (Keeps-same P (read_clock env) (λ w. refl)) λ now.
          Keeps-bind P _ _ (emit_cancelled-Keeps message now message.recipients)
            λ _. Keeps-lift P (ok message)
