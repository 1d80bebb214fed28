-- ===== src/Webhooks/Emission/Grown.antt =====
-- An emission does nothing to the queue but insert items: internal/webhooks/service.go.
use at_gateway.Prelude.{
  sym, arith, subst, ℕ, suc, ◌≡◌, refl, String, Bool, true, false, Option, none, some, List, [],
  ◌∷◌, ◌++◌, any_where, Bool-cases, inl, inr,
}
use at_gateway.Webhooks.Domain.{WebhookEvent, Webhook, Payload, QueueItem, queue_pending}
use at_gateway.Webhooks.Queue.{has_id, insert_item}
use at_gateway.Webhooks.Registry.{select_by_event}
use at_gateway.Webhooks.World.{HookEnv, HookWorld, tick}
use at_gateway.Webhooks.Emission.{
  stored_item, store_item, fresh_item, enqueue_encoded, enqueue_hook, count_enqueued, emit_to,
  emit_selected, emit, is_served, track, emit_tracked,
}

-- A property of the queue that a new item, pending and not tried yet, leaves.
unfoldable pub KeptByNew : (List QueueItem → Type 0) → Type 0
KeptByNew P =
    (qs : List QueueItem) (item : QueueItem)
    → item.status ≡ queue_pending
    → item.retry_count ≡ 0
    → any_where (has_id item.id) qs ≡ false
    → P qs
    → P (qs ++ item ∷ [])

module _ (P : List QueueItem → Type 0) (k : KeptByNew P) (env : HookEnv) where
  stored_item_keeps :
      (o : Option (List QueueItem)) (w : HookWorld)
      → P w.queue
      → ((qs : List QueueItem) → o ≡ some qs → P qs)
      → P (stored_item o w).1.queue
  stored_item_keeps none w h f = h
  stored_item_keeps (some qs) w h f = f qs refl

  insert_item_keeps :
      (item : QueueItem) (qs : List QueueItem)
      → item.status ≡ queue_pending
      → item.retry_count ≡ 0
      → P qs
      → (new : List QueueItem) → insert_item item qs ≡ some new
      → P new
  unfolding insert_item KeptByNew
  insert_item_keeps item qs s z h new e = elim (Bool-cases (any_where (has_id item.id) qs)) [
    | inl clash ↦ absurd (ground (arith, e, clash))
    | inr fresh ↦
        let same : qs ++ item ∷ [] ≡ new = ground (arith, e, fresh) in
        subst P same (k qs item s z fresh h)
  ]

  store_item_keeps :
      (item : QueueItem) (w : HookWorld)
      → item.status ≡ queue_pending
      → item.retry_count ≡ 0
      → P w.queue
      → P (store_item env item w).1.queue
  unfolding store_item
  store_item_keeps item w s z h = elim (Bool-cases (env.fault w.steps)) [
    | inl broken ↦ rw (store_item, broken) h
    | inr works ↦
        rw (store_item, works)
          (stored_item_keeps (insert_item item w.queue) (tick w) h
            (insert_item_keeps item w.queue s z h))
  ]

  enqueue_encoded_keeps :
      (hook : Webhook) (now : ℕ) (o : Option String) (w : HookWorld)
      → P w.queue
      → P (enqueue_encoded env hook now o w).1.queue
  unfolding enqueue_encoded
  enqueue_encoded_keeps hook now none w h = h
  enqueue_encoded_keeps hook now (some body) w h =
      store_item_keeps (fresh_item hook body now (env.new_id w.steps)) (tick w) refl refl h

  enqueue_hook_keeps :
      (hook : Webhook) (event : WebhookEvent) (payload : Payload) (now : ℕ) (w : HookWorld)
      → P w.queue
      → P (enqueue_hook env hook event payload now w).1.queue
  unfolding enqueue_hook
  enqueue_hook_keeps hook event payload now w h = enqueue_encoded_keeps hook now _ (tick w) h

  count_enqueued-queue : (x : Bool × HookWorld) → (count_enqueued x).queue ≡ x.1.queue
  count_enqueued-queue (true, w) = refl
  count_enqueued-queue (false, w) = refl

  counted_keeps :
      (hook : Webhook) (event : WebhookEvent) (payload : Payload) (now : ℕ) (w : HookWorld)
      → P w.queue
      → P (count_enqueued (enqueue_hook env hook event payload now w)).queue
  counted_keeps hook event payload now w h =
      subst P (sym (count_enqueued-queue (enqueue_hook env hook event payload now w)))
        (enqueue_hook_keeps hook event payload now w h)

  emit_to_keeps :
      (event : WebhookEvent) (payload : Payload) (now : ℕ) (hooks : List Webhook) (w : HookWorld)
      → P w.queue
      → P (emit_to env event payload now hooks w).queue
  unfolding emit_to
  emit_to_keeps event payload now [] w h = h
  emit_to_keeps event payload now (hook ∷ hooks) w h =
      emit_to_keeps event payload now hooks
        (count_enqueued (enqueue_hook env hook event payload now w))
        (counted_keeps hook event payload now w h)

  emit_selected_keeps :
      (event : WebhookEvent) (payload : Payload) (hooks : List Webhook) (w : HookWorld)
      → P w.queue
      → P (emit_selected env event payload hooks w).queue
  unfolding emit_selected
  emit_selected_keeps event payload [] w h = h
  emit_selected_keeps event payload (hook ∷ hooks) w h =
      emit_to_keeps event payload (env.now w.steps) (hook ∷ hooks) (tick w) h

  pub emit_keeps :
      (event : WebhookEvent) (payload : Payload) (w : HookWorld)
      → P w.queue
      → P (emit env event payload w).queue
  unfolding emit
  emit_keeps event payload w h = elim (Bool-cases (env.fault w.steps)) [
    | inl broken ↦ rw (emit, broken) h
    | inr works ↦
        rw (emit, works)
          (emit_selected_keeps event payload (select_by_event event w.registry) (tick w) h)
  ]

  track_keeps :
      (event : WebhookEvent) (payload : Payload) (served : List String) (now : ℕ)
      (hooks : List Webhook) (w : HookWorld)
      → P w.queue
      → P (track env event payload served now hooks w).1.queue
  unfolding track
  track_keeps event payload served now [] w h = h
  track_keeps event payload served now (hook ∷ hooks) w h =
      elim (Bool-cases (is_served served hook)) [
        | inl old ↦ rw (track, old) (track_keeps event payload served now hooks w h)
        | inr new ↦
            rw (track, new)
              (track_keeps event payload served now hooks
                (count_enqueued (enqueue_hook env hook event payload now w))
                (counted_keeps hook event payload now w h))
      ]

  pub emit_tracked_keeps :
      (event : WebhookEvent) (payload : Payload) (served : List String) (w : HookWorld)
      → P w.queue
      → P (emit_tracked env event payload served w).1.queue
  unfolding emit_tracked
  emit_tracked_keeps event payload served w h = elim (Bool-cases (env.fault w.steps)) [
    | inl broken ↦ rw (emit_tracked, broken) h
    | inr works ↦
        rw (emit_tracked, works)
          (track_keeps event payload served (env.now (suc w.steps))
            (select_by_event event w.registry) (tick (tick w)) h)
  ]
