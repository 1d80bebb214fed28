-- ===== src/Webhooks/Delivery/Requests.antt =====
-- The registry requests leave the queue: `Replace` and `Delete` of internal/webhooks/service.go.
use at_gateway.Prelude.{
  ◌≡◌, refl, String, not, Option, ◌==◌, string_eq, Bool-cases, inl, inr, arith,
}
use at_gateway.Webhooks.Domain.{Webhook}
use at_gateway.Webhooks.World.{HookEnv, HookWorld, tick}
use at_gateway.Webhooks.Delivery.{
  HookAnswer, upsert_hook, replace_scoped, replace_webhook, delete_webhook, hook_scope,
}

module _ (env : HookEnv) where
  upsert_hook-queue : (hook : Webhook) (w : HookWorld) → (upsert_hook env hook w).1.queue ≡ w.queue
  unfolding upsert_hook
  upsert_hook-queue hook w = ground arith

  replace_scoped-queue :
      (hook : Webhook) (o : HookAnswer (Option String)) (w : HookWorld)
      → (replace_scoped env hook o w).1.queue ≡ w.queue
  unfolding replace_scoped
  replace_scoped-queue hook (inl e) w = refl
  replace_scoped-queue hook (inr scope) w = elim (Bool-cases (hook.id == "")) [
    | inl fresh ↦
        rw (replace_scoped, fresh)
          (upsert_hook-queue (record hook { device_id = scope; id = env.new_id w.steps }) (tick w))
    | inr named ↦
        rw (replace_scoped, named) (upsert_hook-queue (record hook { device_id = scope }) w)
  ]

  pub replace_webhook-queue :
      (hook : Webhook) (w : HookWorld) → (replace_webhook env hook w).1.queue ≡ w.queue
  unfolding replace_webhook
  replace_webhook-queue hook w = elim (Bool-cases (not (env.is_valid_event hook.event))) [
    | inl refused ↦ rw (replace_webhook, refused) refl
    | inr valid ↦
        rw (replace_webhook, valid) (replace_scoped-queue hook (hook_scope env hook.device_id) w)
  ]

  pub delete_webhook-queue :
      (id : String) (w : HookWorld) → (delete_webhook env id w).1.queue ≡ w.queue
  unfolding delete_webhook
  delete_webhook-queue id w = ground arith
