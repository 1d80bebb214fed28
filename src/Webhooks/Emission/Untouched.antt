-- ===== src/Webhooks/Emission/Untouched.antt =====
-- Which queue items a tracked emission leaves alone: `emitTracked` of internal/webhooks/service.go.
use at_gateway.Prelude.{
  ℕ, suc, ◌≡◌, refl, ◌∙◌, subst, String, Bool, true, false, Option, none, some, List, [], ◌∷◌, ◌++◌,
  ◌==◌, ==_iff, string_eq, any_where, select_where, Bool-cases, inl, inr, arith,
}
use at_gateway.Webhooks.Domain.{WebhookEvent, Webhook, Payload, QueueItem}
use at_gateway.Webhooks.Queue.{has_id, insert_item}
use at_gateway.Webhooks.Registry.{select_by_event}
use at_gateway.Webhooks.World.{HookEnv, HookWorld, tick}
use at_gateway.Webhooks.Emission.{
  stored_item, store_item, fresh_item, enqueue_encoded, enqueue_hook, count_enqueued, is_served,
  track, emit_tracked,
}

-- The queue items of a webhook.
abbrev pub items_for : String → List QueueItem → List QueueItem
items_for webhook qs = select_where (λ q. q.webhook_id == webhook) qs

items_for-append :
    (webhook : String) (qs : List QueueItem) (item : QueueItem)
    → (item.webhook_id == webhook) ≡ false
    → items_for webhook (qs ++ item ∷ []) ≡ items_for webhook qs
items_for-append webhook [] item other = rw other refl
items_for-append webhook (q ∷ qs) item other = rw (items_for-append webhook qs item other) refl

module _ (env : HookEnv) (webhook : String) where
  inserted_items :
      (item : QueueItem) (w : HookWorld)
      → (item.webhook_id == webhook) ≡ false
      → items_for webhook (stored_item (insert_item item w.queue) (tick w)).1.queue
        ≡ items_for webhook w.queue
  unfolding insert_item
  inserted_items item w other = elim (Bool-cases (any_where (has_id item.id) w.queue)) [
    | inl clash ↦ rw (insert_item, clash) refl
    | inr fresh ↦ rw (insert_item, fresh) (items_for-append webhook w.queue item other)
  ]

  store_item-items :
      (item : QueueItem) (w : HookWorld)
      → (item.webhook_id == webhook) ≡ false
      → items_for webhook (store_item env item w).1.queue ≡ items_for webhook w.queue
  unfolding store_item
  store_item-items item w other = elim (Bool-cases (env.fault w.steps)) [
    | inl broken ↦ rw (store_item, broken) refl
    | inr works ↦ rw (store_item, works) (inserted_items item w other)
  ]

  enqueue_encoded-items :
      (hook : Webhook) (now : ℕ) (o : Option String) (w : HookWorld)
      → (hook.id == webhook) ≡ false
      → items_for webhook (enqueue_encoded env hook now o w).1.queue ≡ items_for webhook w.queue
  unfolding enqueue_encoded
  enqueue_encoded-items hook now none w other = refl
  enqueue_encoded-items hook now (some body) w other =
      store_item-items (fresh_item hook body now (env.new_id w.steps)) (tick w) other

  counted_items :
      (b : Bool) (w : HookWorld)
      → items_for webhook (count_enqueued (b, w)).queue ≡ items_for webhook w.queue
  counted_items true w = refl
  counted_items false w = refl

  enqueue_hook-items :
      (hook : Webhook) (event : WebhookEvent) (payload : Payload) (now : ℕ) (w : HookWorld)
      → (hook.id == webhook) ≡ false
      → items_for webhook (count_enqueued (enqueue_hook env hook event payload now w)).queue
        ≡ items_for webhook w.queue
  unfolding enqueue_hook
  enqueue_hook-items hook event payload now w other =
      let stored = enqueue_hook env hook event payload now w in
      counted_items stored.0 stored.1 ∙ enqueue_encoded-items hook now _ (tick w) other

  -- A webhook to reach is none that is served.
  unserved_other :
      (served : List String) (hook : Webhook)
      → any_where (λ id. id == webhook) served ≡ true
      → is_served served hook ≡ false
      → (hook.id == webhook) ≡ false
  unserved_other served hook known new = elim (Bool-cases (hook.id == webhook)) [
    | inl same ↦
        let eq : hook.id ≡ webhook = (==_iff hook.id webhook).0 same in
        absurd (ground (arith, known, subst (λ x. any_where (λ id. id == x) served ≡ false) eq new))
    | inr other ↦ other
  ]

  track-items :
      (event : WebhookEvent) (payload : Payload) (served : List String) (now : ℕ)
      (hooks : List Webhook) (w : HookWorld)
      → any_where (λ id. id == webhook) served ≡ true
      → items_for webhook (track env event payload served now hooks w).1.queue
        ≡ items_for webhook w.queue
  unfolding track
  track-items event payload served now [] w known = refl
  track-items event payload served now (hook ∷ hooks) w known =
      elim (Bool-cases (is_served served hook)) [
        | inl old ↦ rw (track, old) (track-items event payload served now hooks w known)
        | inr new ↦
            rw (track, new)
              (track-items event payload served now hooks
                  (count_enqueued (enqueue_hook env hook event payload now w)) known
                ∙ enqueue_hook-items hook event payload now w
                    (unserved_other served hook known new))
      ]

  -- A tracked emission leaves the queue items of a served webhook as they are.
  pub emit_tracked-items_for :
      (event : WebhookEvent) (payload : Payload) (served : List String) (w : HookWorld)
      → any_where (λ id. id == webhook) served ≡ true
      → items_for webhook (emit_tracked env event payload served w).1.queue
        ≡ items_for webhook w.queue
  unfolding emit_tracked
  emit_tracked-items_for event payload served w known = elim (Bool-cases (env.fault w.steps)) [
    | inl broken ↦ rw (emit_tracked, broken) refl
    | inr works ↦
        rw (emit_tracked, works)
          (track-items event payload served (env.now (suc w.steps))
            (select_by_event event w.registry) (tick (tick w)) known)
  ]
