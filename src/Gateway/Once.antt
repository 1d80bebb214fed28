-- ===== src/Gateway/Once.antt =====
-- A message is queued once per webhook within the window of the dedupe (internal/inbox/service.go and
-- internal/webhooks/service.go together).
use at_gateway.Prelude.{
  ℕ, ◌+◌, ◌≤◌, ◌<◌, ◌≡◌, refl, sym, subst, String, true, false, List, [], ◌∷◌, ◌==◌, ==_iff,
  string_eq, Bool-cases, inl, inr, arith,
}
use at_gateway.Inbox.Dedupe.{served}
use at_gateway.Inbox.Dedupe.Served.{among}
use at_gateway.Inbox.Reassembly.{InboundMessage}
use at_gateway.Inbox.Emission.{
  event_of, event_name, stored_message, persist_inbound, InboxEnv, InboxWorld, EventName,
  sms_received, sms_data_received, InboundEvent, EnqueueResult, emit_inbound, inbound_message_id,
}
use at_gateway.Inbox.Emission.Once.{took, answer_of, emit_inbound-served}
use at_gateway.Webhooks.World.{HookEnv, HookWorld}
use at_gateway.Webhooks.Emission.Untouched.{items_for, emit_tracked-items_for}
use at_gateway.Webhooks.Emission.Tracked.{Untold, emit_tracked-Untold}
use at_gateway.Gateway.{emission, TrackedEmission, emit_through, with_webhooks}

took-Untold :
    (webhook : String) (known : List String) (rs : List EnqueueResult)
    → among webhook known ≡ true
    → Untold known rs
    → took webhook rs ≡ false
took-Untold webhook known [] h u = refl
took-Untold webhook known (r ∷ rs) h u = elim (Bool-cases (r.webhook_id == webhook)) [
  | inl same ↦
      let eq : r.webhook_id ≡ webhook = (==_iff r.webhook_id webhook).0 same in
      absurd (ground (arith, h, subst (λ x. among x known ≡ false) eq u.0))
  | inr other ↦ rw other (ground (arith, took-Untold webhook known rs h u.1))
]

emit_through-Untold :
    (hooks : HookEnv) (worlds : ℕ → HookWorld) (n : ℕ) (name : EventName) (e : InboundEvent)
    (known : List String)
    → Untold known (emit_through hooks worlds n name e known).results
unfolding emit_through emission
emit_through-Untold hooks worlds n sms_received e known =
    emit_tracked-Untold hooks _ _ known (worlds n)
emit_through-Untold hooks worlds n sms_data_received e known =
    emit_tracked-Untold hooks _ _ known (worlds n)

answer-Untold :
    (env : InboxEnv) (hooks : HookEnv) (worlds : ℕ → HookWorld) (m : InboundMessage) (now : ℕ)
    (w : InboxWorld)
    → Untold
        (served w.pipeline.dedup (inbound_message_id (with_webhooks env hooks worlds) m) now)
        (answer_of (with_webhooks env hooks worlds) m now w).results
unfolding with_webhooks
answer-Untold env hooks worlds m now w =
    emit_through-Untold hooks worlds _ _ _
      (served w.pipeline.dedup (inbound_message_id (with_webhooks env hooks worlds) m) now)

emission-items_for :
    (hooks : HookEnv) (worlds : ℕ → HookWorld) (n : ℕ) (name : EventName) (e : InboundEvent)
    (known : List String) (webhook : String)
    → among webhook known ≡ true
    → items_for webhook (emission hooks worlds n name e known).1.queue
      ≡ items_for webhook (worlds n).queue
unfolding emission
emission-items_for hooks worlds n sms_received e known webhook h =
    emit_tracked-items_for hooks webhook _ _ known (worlds n) h
emission-items_for hooks worlds n sms_data_received e known webhook h =
    emit_tracked-items_for hooks webhook _ _ known (worlds n) h

-- The step at which the emission of a message reaches the webhooks service.
abbrev pub step_of : InboxEnv → InboundMessage → ℕ → InboxWorld → ℕ
step_of gateway m now w = (persist_inbound gateway (stored_message gateway m now w) w).steps

-- The emission of a message as the webhooks service carries it out.
abbrev pub emission_of :
    InboxEnv
    → HookEnv
    → (ℕ → HookWorld)
    → InboundMessage
    → ℕ
    → InboxWorld
    → TrackedEmission × HookWorld
emission_of gateway hooks worlds m now w =
    emission hooks worlds (step_of gateway m now w) (event_name m)
      (event_of (stored_message gateway m now w) m.ported)
      (served w.pipeline.dedup (inbound_message_id gateway m) now)

-- Within the window of the dedupe, which is not empty, a later emission of a message that stored a
-- queue item for a webhook reports no item stored for that webhook and leaves the queue's items of
-- that webhook as they are, provided that the dedupe is still the one that the earlier emission
-- left.
pub no_second_item :
    (env : InboxEnv) (hooks : HookEnv) (worlds : ℕ → HookWorld) (m : InboundMessage) (now later : ℕ)
    (w v : InboxWorld) (webhook : String)
    → 1 ≤ w.pipeline.dedup.ttl
    → later < now + w.pipeline.dedup.ttl
    → took webhook (answer_of (with_webhooks env hooks worlds) m now w).results ≡ true
    → v.pipeline.dedup ≡ (emit_inbound (with_webhooks env hooks worlds) m now w).pipeline.dedup
    → took webhook (answer_of (with_webhooks env hooks worlds) m later v).results ≡ false
      × items_for webhook
          (emission_of (with_webhooks env hooks worlds) hooks worlds m later v).1.queue
        ≡ items_for webhook (worlds (step_of (with_webhooks env hooks worlds) m later v)).queue
no_second_item env hooks worlds m now later w v webhook t n h same =
    let gateway = with_webhooks env hooks worlds in
    let known = served v.pipeline.dedup (inbound_message_id gateway m) later in
    let told : among webhook known ≡ true =
      subst (λ d. among webhook (served d (inbound_message_id gateway m) later) ≡ true) (sym same)
        (emit_inbound-served gateway m now later w webhook t n h) in
    (
      took-Untold webhook known (answer_of gateway m later v).results told
          (answer-Untold env hooks worlds m later v),
      emission-items_for hooks worlds (step_of gateway m later v) _ _ known webhook told,
    )
