-- ===== src/Gateway.antt =====
-- The inbox service on top of the webhooks service: `EmitSmsReceived` and `EmitSmsDataReceived` of
-- internal/webhooks stand for the emission that the inbox asks for (internal/inbox/service.go).
pub mod Once
mod Tests
use at_gateway.Prelude.{ℕ, String, List}
use at_gateway.Inbox.Emission.{
  InboxEnv, EventName, sms_received, sms_data_received, InboundEvent, TrackedEmission,
}
use at_gateway.Webhooks.World.{HookEnv, HookWorld}
use at_gateway.Webhooks.Emission.{emit_sms_received, emit_sms_data_received}

-- What an emission of the inbox gives and leaves, the webhooks service being in some state at each
-- step.
unfoldable pub emission :
    HookEnv
    → (ℕ → HookWorld)
    → ℕ
    → EventName
    → InboundEvent
    → List String
    → TrackedEmission × HookWorld
emission hooks worlds n sms_received e served = emit_sms_received hooks e served (worlds n)
emission hooks worlds n sms_data_received e served =
    emit_sms_data_received hooks e served (worlds n)

-- The answer to an emission of the inbox.
unfoldable pub emit_through :
    HookEnv → (ℕ → HookWorld) → ℕ → EventName → InboundEvent → List String → TrackedEmission
unfolding emission
emit_through hooks worlds n name e served = (emission hooks worlds n name e served).0

-- The inbox whose emissions the webhooks service answers.
unfoldable pub with_webhooks : InboxEnv → HookEnv → (ℕ → HookWorld) → InboxEnv
unfolding emit_through
with_webhooks env hooks worlds = record env { emit = emit_through hooks worlds }
