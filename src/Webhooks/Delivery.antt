-- ===== src/Webhooks/Delivery.antt =====
-- The delivery worker of the webhooks service and the requests to its registry:
-- internal/webhooks/service.go.
pub mod Posts
pub mod Touch
pub mod Requests
pub mod Delay
pub mod Rounds
use at_gateway.Prelude.{
  inr, ◌⊎◌, inl, ℕ, zero, suc, ◌+◌, ◌-◌, ◌*◌, ◌%◌, ◌^◌, String, Bool, true, false, not, ◌&&◌, ◌||◌,
  Option, none, some, List, [], ◌∷◌, ◌++◌, ◌==◌, string_eq, leb, ltb, if◌then◌else◌,
}
use at_gateway.Webhooks.Domain.{
  queue_permanently_failed, status_eq, DeliveryError, bad_request, post_failed, bad_status,
  QueueItem, Webhook, HookError, invalid_event, hook_device_not_found, hook_database,
  new_webhook_model,
}
use at_gateway.Webhooks.Queue.{
  due_items, mark_processing, mark_completed, mark_failed, mark_permanently_failed, recover_stuck,
  cleanup,
}
use at_gateway.Webhooks.Registry.{Registry, upsert, delete_rows, select_webhooks}
use at_gateway.Webhooks.World.{
  HookEnv, HookWorld, PostCall, PostAnswer, not_built, transport_error, answered, tick, on_queue,
}

-- `base << retryCount` on the 64 bits of a Duration; a retry count is never negative.
unfoldable pub retry_delay : ℕ → ℕ → ℕ
retry_delay base retry_count = (base * 2 ^ retry_count) % 2 ^ 64

-- `time.Time.Add` of a Duration given by its 64 bits.
unfoldable pub add_duration : ℕ → ℕ → ℕ
add_duration t d = if ltb d (2 ^ 63) then t + d else t - (2 ^ 64 - d)

-- `IncFailed`.
abbrev inc_failed : HookWorld → HookWorld
inc_failed w = record w { metrics = record (w.metrics) { failed = suc w.metrics.failed } }

-- `IncPermanentlyFailed`.
abbrev inc_permanently_failed : HookWorld → HookWorld
inc_permanently_failed w = record w {
  metrics = record (w.metrics) { permanently_failed = suc w.metrics.permanently_failed };
}

-- `IncDelivered`.
abbrev inc_delivered : HookWorld → HookWorld
inc_delivered w = record w { metrics = record (w.metrics) { delivered = suc w.metrics.delivered } }

abbrev count_permanent : Bool × HookWorld → HookWorld
count_permanent (true, w) = inc_permanently_failed w
count_permanent (false, w) = w

-- The branch of `markDeliveryFailure` that retries; a driver error is logged.
schedule_retry : HookEnv → QueueItem → DeliveryError → HookWorld → HookWorld
unfolding mark_failed on_queue retry_delay add_duration
schedule_retry env item e w =
    (on_queue env
      (mark_failed item.id
        (add_duration (env.now w.steps) (retry_delay env.retry_base_delay item.retry_count)) e)
      (tick w)).1

-- `markDeliveryFailure` after `IncFailed`.
give_up_or_retry : HookEnv → QueueItem → DeliveryError → HookWorld → HookWorld
unfolding schedule_retry mark_permanently_failed on_queue
give_up_or_retry env item e w =
    if ltb item.retry_count env.retry_count && not (item.status == queue_permanently_failed)
    then schedule_retry env item e w
    else count_permanent (on_queue env (mark_permanently_failed item.id e) w)

-- `markDeliveryFailure`.
unfoldable pub mark_delivery_failure : HookEnv → QueueItem → DeliveryError → HookWorld → HookWorld
unfolding give_up_or_retry
mark_delivery_failure env item e w = give_up_or_retry env item e (inc_failed w)

-- The verdict of `deliver` on an answer: none is success.
unfoldable pub delivery_error : PostAnswer → Option DeliveryError
delivery_error (not_built text) = some (bad_request text)
delivery_error (transport_error text) = some (post_failed text)
delivery_error (answered status) =
    if ltb status 200 || leb 300 status then some (bad_status status) else none

abbrev post_of : HookEnv → String → QueueItem → ℕ → PostCall
post_of env key item now = record {
  url = item.url;
  body = item.payload;
  timestamp = env.unix_text now;
  signature = env.hmac key item.payload (env.unix_text now);
}

-- A request that cannot be built is not posted.
abbrev posted : PostAnswer → PostCall → List PostCall → List PostCall
posted (not_built text) call posts = posts
posted (transport_error text) call posts = posts ++ call ∷ []
posted (answered status) call posts = posts ++ call ∷ []

-- `deliver`.
unfoldable pub deliver : HookEnv → String → QueueItem → HookWorld → Option DeliveryError × HookWorld
unfolding delivery_error
deliver env key item w =
    let call = post_of env key item (env.now w.steps) in
    let answer = env.post w.steps call in
    (delivery_error answer, record (tick w) { posts = posted answer call w.posts })

abbrev count_delivered : Bool × HookWorld → HookWorld
count_delivered (true, w) = inc_delivered w
count_delivered (false, w) = w

after_delivery : HookEnv → QueueItem → Option DeliveryError × HookWorld → HookWorld
unfolding mark_delivery_failure mark_completed on_queue
after_delivery env item (some e, w) = mark_delivery_failure env item e w
after_delivery env item (none, w) = count_delivered (on_queue env (mark_completed item.id) w)

claimed : HookEnv → String → QueueItem → Bool × HookWorld → HookWorld
unfolding after_delivery deliver
claimed env key item (false, w) = w
claimed env key item (true, w) = after_delivery env item (deliver env key item w)

-- The body of the loop of `processQueuePass`, for an item.
unfoldable pub process_item : HookEnv → String → QueueItem → HookWorld → HookWorld
unfolding claimed mark_processing on_queue
process_item env key item w = claimed env key item (on_queue env (mark_processing item.id) w)

-- The loop of `processQueuePass`: false when the context is done.
unfoldable pub process_items : HookEnv → String → List QueueItem → HookWorld → Bool × HookWorld
unfolding process_item
process_items env key [] w = (true, w)
process_items env key (item ∷ items) w =
    let rest = process_items env key items (process_item env key item (tick w)) in
    if env.cancelled w.steps then (false, tick w) else rest

-- `RecoverStuck`, whose error is logged.
unfoldable pub recover : HookEnv → ℕ → HookWorld → HookWorld
unfolding on_queue recover_stuck
recover env now w = (on_queue env (recover_stuck env.stuck_timeout now) w).1

-- `DueItems`: none for an error.
unfoldable pub select_due : HookEnv → ℕ → HookWorld → Option (List QueueItem) × HookWorld
unfolding due_items
select_due env now w =
    if env.fault w.steps
    then (none, tick w)
    else (some (due_items now env.batch_size w.queue), tick w)

-- `Cleanup`, whose error is logged.
unfoldable pub clean_queue : HookEnv → ℕ → HookWorld → HookWorld
unfolding on_queue cleanup
clean_queue env now w = (on_queue env (cleanup env.cleanup_retention now) w).1

-- `waitForQueuePoll`.
abbrev wait_for_queue_poll : HookEnv → HookWorld → Bool × HookWorld
wait_for_queue_poll env w = (not (env.cancelled w.steps), tick w)

unfoldable pub pass_over :
    HookEnv → String → ℕ → Option (List QueueItem) × HookWorld → Bool × HookWorld
unfolding clean_queue process_items
pass_over env key now (none, w) = wait_for_queue_poll env w
pass_over env key now (some [], w) = wait_for_queue_poll env (clean_queue env now w)
pass_over env key now (some (item ∷ items), w) = process_items env key (item ∷ items) w

-- `processQueuePass`: false when the context is done.
unfoldable pub process_queue_pass : HookEnv → String → HookWorld → Bool × HookWorld
unfolding pass_over recover select_due
process_queue_pass env key w =
    let now = env.now w.steps in
    pass_over env key now (select_due env now (recover env now (tick w)))

-- What a registry request answers.
abbrev pub HookAnswer : Type 0 → Type 0
HookAnswer A = HookError ⊎ A

-- The device scope of `Replace`: an empty id counts as none.
unfoldable pub hook_scope : HookEnv → Option String → HookAnswer (Option String)
hook_scope env none = inr none
hook_scope env (some d) =
    if d == ""
    then inr none
    else (if d == env.local_device then inr (some d) else inl hook_device_not_found)

-- The upsert of `Replace`, with the webhook that the caller sees afterwards.
upsert_hook : HookEnv → Webhook → HookWorld → HookAnswer Webhook × HookWorld
unfolding upsert
upsert_hook env hook w = if env.fault (suc w.steps) then (inl hook_database, tick (tick w)) else (
  inr hook,
  record (tick (tick w)) {
    registry = upsert (new_webhook_model hook (env.now w.steps)) w.registry;
  },
)

replace_scoped :
    HookEnv → Webhook → HookAnswer (Option String) → HookWorld → HookAnswer Webhook × HookWorld
unfolding upsert_hook
replace_scoped env hook (inl e) w = (inl e, w)
replace_scoped env hook (inr scope) w =
    if hook.id == ""
    then upsert_hook env (record hook { device_id = scope; id = env.new_id w.steps }) (tick w)
    else upsert_hook env (record hook { device_id = scope }) w

-- `Replace`, with the webhook as the caller sees it afterwards.
unfoldable pub replace_webhook : HookEnv → Webhook → HookWorld → HookAnswer Webhook × HookWorld
unfolding replace_scoped hook_scope
replace_webhook env hook w =
    if not (env.is_valid_event hook.event)
    then (inl invalid_event, w)
    else replace_scoped env hook (hook_scope env hook.device_id) w

-- `Delete`.
unfoldable pub delete_webhook : HookEnv → String → HookWorld → HookAnswer (Unit {0}) × HookWorld
unfolding delete_rows
delete_webhook env id w =
    if env.fault w.steps
    then (inl hook_database, tick w)
    else (inr tt, record (tick w) { registry = delete_rows id w.registry })

-- `Select`.
unfoldable pub select_all : HookEnv → HookWorld → HookAnswer (List Webhook) × HookWorld
unfolding select_webhooks
select_all env w =
    if env.fault w.steps
    then (inl hook_database, tick w)
    else (inr (select_webhooks w.registry), tick w)
