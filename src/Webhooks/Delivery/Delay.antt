-- ===== src/Webhooks/Delivery/Delay.antt =====
-- The row of an item after a failed delivery: `markDeliveryFailure` and `retryDelay` of
-- internal/webhooks/service.go.
use at_gateway.Prelude.{
  ℕ, suc, ◌+◌, ◌*◌, ◌^◌, ◌<◌, ◌≡◌, refl, ap, ◌∙◌, not, ◌&&◌, true, false, some, ◌==◌, ltb, arith,
}
use at_gateway.Webhooks.Domain.{
  DeliveryError, QueueItem, queue_failed, queue_permanently_failed, status_eq,
}
use at_gateway.Webhooks.Queue.{mark_failed}
use at_gateway.Webhooks.World.{HookEnv, HookWorld, on_queue}
use at_gateway.Webhooks.Delivery.{
  retry_delay, add_duration, schedule_retry, give_up_or_retry, mark_delivery_failure,
}
use at_gateway.Webhooks.Delivery.Rounds.{row_of, find_first-update}

add_duration-retry_delay :
    (t base retries : ℕ)
    → base * 2 ^ retries < 2 ^ 63
    → add_duration t (retry_delay base retries) ≡ t + base * 2 ^ retries
unfolding add_duration retry_delay
add_duration-retry_delay t base retries fits = ground arith

-- If the driver reports no error, an item has retries left and is not permanently failed, and the
-- shifted delay fits a Duration, then a failed delivery leaves its row failed, with the error, one
-- more retry, and the next attempt at the reading of the clock plus the base delay times two to the
-- power of the retries that the item had when it was selected.
pub row_of-mark_delivery_failure :
    (env : HookEnv) (item : QueueItem) (e : DeliveryError) (w : HookWorld) {q : QueueItem}
    → env.fault (suc w.steps) ≡ false
    → row_of item.id w ≡ some q
    → item.retry_count < env.retry_count
    → (item.status == queue_permanently_failed) ≡ false
    → env.retry_base_delay * 2 ^ item.retry_count < 2 ^ 63
    → row_of item.id (mark_delivery_failure env item e w)
      ≡ some (record q {
        status = queue_failed;
        retry_count = suc q.retry_count;
        next_attempt = env.now w.steps + env.retry_base_delay * 2 ^ item.retry_count;
        last_error = some e;
      })
unfolding mark_delivery_failure give_up_or_retry schedule_retry on_queue mark_failed
row_of-mark_delivery_failure env item e w {q} works found left lives fits =
    let again : (ltb item.retry_count env.retry_count
          && not (item.status == queue_permanently_failed))
        ≡ true =
      ground (arith, left, lives) in
    let next = add_duration (env.now w.steps) (retry_delay env.retry_base_delay item.retry_count) in
    let change : QueueItem → QueueItem = λ r. record r {
      status = queue_failed;
      retry_count = suc r.retry_count;
      next_attempt = next;
      last_error = some e;
    } in
    rw (mark_delivery_failure, give_up_or_retry, again, schedule_retry, on_queue, works)
      (find_first-update item.id change w.queue {q = q} refl found
        ∙ ap (λ t. some (record (change q) { next_attempt = t }))
            (add_duration-retry_delay (env.now w.steps) env.retry_base_delay item.retry_count fits))
