-- ===== src/Webhooks/Queue.antt =====
-- The statements on the table webhook_queue: internal/webhooks/repository.go. The table is the list of
-- its rows in the order of their insertion. Instants are in nanoseconds from an origin 2^63
-- nanoseconds before the Unix epoch, so that the sum of a clock reading and a `time.Duration` is a
-- natural number. The driver's truncation of the stored instants to microseconds is left out.
pub mod Due
pub mod Fair
use at_gateway.Prelude.{
  not, ℕ, zero, suc, ◌+◌, String, Bool, true, false, ◌&&◌, ◌||◌, Option, none, some, List, [], ◌∷◌,
  ◌++◌, ◌==◌, string_eq, leb, ltb, if◌then◌else◌, update_where, select_where, any_where,
}
use at_gateway.Webhooks.Domain.{
  QueueStatus, queue_pending, queue_processing, queue_completed, queue_failed,
  queue_permanently_failed, status_eq, DeliveryError, QueueItem,
}

abbrev pub has_id : String → QueueItem → Bool
has_id id q = q.id == id

-- `Enqueue`, under the primary key.
unfoldable pub insert_item : QueueItem → List QueueItem → Option (List QueueItem)
insert_item item items =
    if any_where (has_id item.id) items then none else some (items ++ item ∷ [])

-- `status IN (pending, failed) AND next_attempt <= now`.
abbrev pub is_due : ℕ → QueueItem → Bool
is_due now q = (q.status == queue_pending || q.status == queue_failed) && leb q.next_attempt now

-- One step of `ORDER BY next_attempt ASC`: rows with equal times stay in the table's order.
unfoldable pub insert_by_time : QueueItem → List QueueItem → List QueueItem
insert_by_time q [] = q ∷ []
insert_by_time q (r ∷ rs) =
    let rest = insert_by_time q rs in
    if leb q.next_attempt r.next_attempt then q ∷ r ∷ rs else r ∷ rest

-- `ORDER BY next_attempt ASC`.
unfoldable pub order_by_time : List QueueItem → List QueueItem
unfolding insert_by_time
order_by_time [] = []
order_by_time (q ∷ qs) = insert_by_time q (order_by_time qs)

-- `LIMIT`.
abbrev pub first_items : ℕ → List QueueItem → List QueueItem
first_items zero qs = []
first_items (suc n) [] = []
first_items (suc n) (q ∷ qs) = q ∷ first_items n qs

-- `DueItems`, whose limit of zero or less gives no items.
unfoldable pub due_items : ℕ → ℕ → List QueueItem → List QueueItem
unfolding order_by_time
due_items now limit items = first_items limit (order_by_time (select_where (is_due now) items))

-- `MarkProcessing`.
unfoldable pub mark_processing : String → List QueueItem → List QueueItem
mark_processing id = update_where (has_id id) (λ q. record q { status = queue_processing })

-- `MarkCompleted`.
unfoldable pub mark_completed : String → List QueueItem → List QueueItem
mark_completed id = update_where (has_id id) (λ q. record q { status = queue_completed })

-- `MarkFailed`.
unfoldable pub mark_failed : String → ℕ → DeliveryError → List QueueItem → List QueueItem
mark_failed id next e = update_where (has_id id) (λ q. record q {
  status = queue_failed;
  retry_count = suc q.retry_count;
  next_attempt = next;
  last_error = some e;
})

-- `MarkPermanentlyFailed`.
unfoldable pub mark_permanently_failed : String → DeliveryError → List QueueItem → List QueueItem
mark_permanently_failed id e =
    update_where (has_id id)
      (λ q. record q { status = queue_permanently_failed; last_error = some e })

-- `RecoverStuck`, its threshold being so long before now.
unfoldable pub recover_stuck : ℕ → ℕ → List QueueItem → List QueueItem
recover_stuck timeout now =
    update_where (λ q. q.status == queue_processing && ltb (q.next_attempt + timeout) now)
      (λ q. record q { status = queue_pending })

-- The rows that `Cleanup` removes, its cutoff being so long before now.
abbrev pub is_spent : ℕ → ℕ → QueueItem → Bool
is_spent retention now q =
    (q.status == queue_completed || q.status == queue_permanently_failed)
    && ltb (q.created_at + retention) now

-- `Cleanup`.
unfoldable pub cleanup : ℕ → ℕ → List QueueItem → List QueueItem
cleanup retention now = select_where (λ q. not (is_spent retention now q))
