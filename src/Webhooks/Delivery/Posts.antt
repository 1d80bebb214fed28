-- ===== src/Webhooks/Delivery/Posts.antt =====
-- Which requests a pass of the worker makes: `processQueuePass` and `deliver` of
-- internal/webhooks/service.go.
use mathlib.Core.List.{append_assoc, append-nil}
use at_gateway.Prelude.{
  ap, ◌&&◌, not, ◌==◌, ltb, suc, ℕ, String, ◌≡◌, refl, sym, ◌∙◌, Bool, true, false, Option, none,
  some, List, [], ◌∷◌, ◌++◌, Bool-cases, inl, inr, arith,
}
use at_gateway.Webhooks.Domain.{queue_permanently_failed, status_eq, QueueItem, DeliveryError}
use at_gateway.Webhooks.Queue.{
  mark_failed, mark_permanently_failed, cleanup, due_items, recover_stuck, mark_completed,
  mark_processing,
}
use at_gateway.Webhooks.World.{
  HookEnv, HookWorld, PostCall, PostAnswer, not_built, transport_error, answered, tick, on_queue,
}
use at_gateway.Webhooks.Delivery.{
  add_duration, retry_delay, inc_failed, clean_queue, posted, post_of, schedule_retry,
  give_up_or_retry, mark_delivery_failure, count_permanent, count_delivered, after_delivery,
  claimed, deliver, process_item, process_items, pass_over, process_queue_pass, recover, select_due,
}

-- A request that could be built.
abbrev pub is_built : PostAnswer → Bool
is_built (not_built text) = false
is_built (transport_error text) = true
is_built (answered status) = true

-- The statements are executed, the context is not cancelled, and the requests can be built.
pub record NoObstacle (env : HookEnv) : Type 0 where
  pub no_faults : (n : ℕ) → env.fault n ≡ false
  pub not_cancelled : (n : ℕ) → env.cancelled n ≡ false
  pub all_built : (n : ℕ) (call : PostCall) → is_built (env.post n call) ≡ true

-- The request carries the item's payload to the item's url, signed over payload and timestamp.
pub record Carries (env : HookEnv) (key : String) (item : QueueItem) (call : PostCall)
    : Type 0 where
  pub to_url : call.url ≡ item.url
  pub with_payload : call.body ≡ item.payload
  pub signed : call.signature ≡ env.hmac key item.payload call.timestamp

-- One request for each item, in the order of the items.
abbrev pub Each : HookEnv → String → List QueueItem → List PostCall → Type 0
Each env key [] [] = Unit
Each env key [] (call ∷ calls) = ⊥
Each env key (item ∷ items) [] = ⊥
Each env key (item ∷ items) (call ∷ calls) = Carries env key item call × Each env key items calls

-- The requests made from one list of requests to another.
pub record Requests (env : HookEnv) (key : String) (items : List QueueItem)
    (old new : List PostCall) : Type 0 where
  pub calls : List PostCall
  pub made : new ≡ old ++ calls
  pub one_each : Each env key items calls

posted-built :
    (a : PostAnswer) (call : PostCall) (posts : List PostCall)
    → is_built a ≡ true
    → posted a call posts ≡ posts ++ call ∷ []
posted-built (not_built text) call posts h = absurd (ground (arith, h))
posted-built (transport_error text) call posts h = refl
posted-built (answered status) call posts h = refl

on_queue-posts :
    (env : HookEnv) (f : List QueueItem → List QueueItem) (w : HookWorld)
    → (on_queue env f w).1.posts ≡ w.posts
unfolding on_queue
on_queue-posts env f w = ground arith

count_permanent-posts : (x : Bool × HookWorld) → (count_permanent x).posts ≡ x.1.posts
count_permanent-posts (true, w) = refl
count_permanent-posts (false, w) = refl

count_delivered-posts : (x : Bool × HookWorld) → (count_delivered x).posts ≡ x.1.posts
count_delivered-posts (true, w) = refl
count_delivered-posts (false, w) = refl

module _ (env : HookEnv) (key : String) where
  schedule_retry-posts :
      (item : QueueItem) (e : DeliveryError) (w : HookWorld)
      → (schedule_retry env item e w).posts ≡ w.posts
  unfolding schedule_retry
  schedule_retry-posts item e w =
      on_queue-posts env
        (mark_failed item.id
          (add_duration (env.now w.steps) (retry_delay env.retry_base_delay item.retry_count)) e)
        (tick w)

  mark_delivery_failure-posts :
      (item : QueueItem) (e : DeliveryError) (w : HookWorld)
      → (mark_delivery_failure env item e w).posts ≡ w.posts
  unfolding mark_delivery_failure give_up_or_retry
  mark_delivery_failure-posts item e w =
      elim (Bool-cases
        (ltb item.retry_count env.retry_count && not (item.status == queue_permanently_failed))) [
          | inl again ↦
              rw (mark_delivery_failure, give_up_or_retry, again) (schedule_retry-posts item e _)
          | inr over ↦
              rw (mark_delivery_failure, give_up_or_retry, over)
                (count_permanent-posts
                    (on_queue env (mark_permanently_failed item.id e) (inc_failed w))
                  ∙ on_queue-posts env (mark_permanently_failed item.id e) (inc_failed w))
        ]

  after_delivery-posts :
      (item : QueueItem) (x : Option DeliveryError × HookWorld)
      → (after_delivery env item x).posts ≡ x.1.posts
  unfolding after_delivery
  after_delivery-posts item (some e, w) = mark_delivery_failure-posts item e w
  after_delivery-posts item (none, w) =
      count_delivered-posts (on_queue env (mark_completed item.id) w)
      ∙ on_queue-posts env (mark_completed item.id) w

  -- The turn of an item makes one request that carries it.
  process_item-posts :
      (item : QueueItem) (w : HookWorld)
      → NoObstacle env
      → Requests env key (item ∷ []) w.posts (process_item env key item w).posts
  unfolding process_item claimed deliver on_queue
  process_item-posts item w free =
      let v = record (tick w) { queue = mark_processing item.id w.queue } in
      let call = post_of env key item (env.now v.steps) in
      record {
        calls = call ∷ [];
        made =
            rw (process_item, on_queue, free.no_faults w.steps, claimed)
              (after_delivery-posts item (deliver env key item v)
                ∙ posted-built (env.post v.steps call) call w.posts (free.all_built v.steps call));
        one_each = (record { to_url = refl; with_payload = refl; signed = refl }, tt);
      }

  Each-join :
      (item : QueueItem) (items : List QueueItem) (one more : List PostCall)
      → Each env key (item ∷ []) one
      → Each env key items more
      → Each env key (item ∷ items) (one ++ more)
  Each-join item items [] more h g = absurd h
  Each-join item items (call ∷ []) more h g = (h.0, g)
  Each-join item items (call ∷ other ∷ calls) more h g = absurd h.1

  Requests-more :
      (item : QueueItem) (items : List QueueItem) (old mid new : List PostCall)
      → Requests env key (item ∷ []) old mid
      → Requests env key items mid new
      → Requests env key (item ∷ items) old new
  Requests-more item items old mid new first rest = record {
    calls = first.calls ++ rest.calls;
    made =
        rest.made
        ∙ ap (λ ps. ps ++ rest.calls) first.made
        ∙ append_assoc old first.calls rest.calls;
    one_each = Each-join item items first.calls rest.calls first.one_each rest.one_each;
  }

  process_items-posts :
      (items : List QueueItem) (w : HookWorld)
      → NoObstacle env
      → Requests env key items w.posts (process_items env key items w).1.posts
  unfolding process_items
  process_items-posts [] w free = record {
    calls = [];
    made = sym (append-nil w.posts);
    one_each = tt;
  }
  process_items-posts (item ∷ items) w free =
      let next = process_item env key item (tick w) in
      rw (process_items, free.not_cancelled w.steps)
        (Requests-more item items w.posts next.posts (process_items env key items next).1.posts
          (process_item-posts item (tick w) free) (process_items-posts items next free))

  pass_over-posts :
      (now : ℕ) (items : List QueueItem) (w : HookWorld)
      → NoObstacle env
      → Requests env key items w.posts (pass_over env key now (some items, w)).1.posts
  unfolding pass_over clean_queue
  pass_over-posts now [] w free = record {
    calls = [];
    made = on_queue-posts env (cleanup env.cleanup_retention now) w ∙ sym (append-nil w.posts);
    one_each = tt;
  }
  pass_over-posts now (item ∷ items) w free = process_items-posts (item ∷ items) w free

  -- If the driver reports no error, the context is not cancelled and every request can be built, the
  -- requests that a pass of the worker adds are one for each item that is due after the stuck items
  -- were recovered, up to the size of a batch and in the order of their times; a request carries its
  -- item's payload to the item's url, signed over the payload and the timestamp of the request.
  pub process_queue_pass-posts :
      (w : HookWorld)
      → NoObstacle env
      → Requests env key
          (due_items
            (env.now w.steps)
            env.batch_size
            (recover_stuck env.stuck_timeout (env.now w.steps) w.queue))
          w.posts
          (process_queue_pass env key w).1.posts
  unfolding process_queue_pass recover select_due on_queue
  process_queue_pass-posts w free =
      let now = env.now w.steps in
      let v = record (tick (tick w)) { queue = recover_stuck env.stuck_timeout now w.queue } in
      rw
        (
          process_queue_pass,
          recover,
          select_due,
          on_queue,
          free.no_faults (suc w.steps),
          free.no_faults (suc (suc w.steps)),
        )
        (pass_over-posts now (due_items now env.batch_size v.queue) (tick v) free)
