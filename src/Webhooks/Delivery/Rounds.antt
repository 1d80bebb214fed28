-- ===== src/Webhooks/Delivery/Rounds.antt =====
-- Retrying ends: `markDeliveryFailure` of internal/webhooks/service.go.
use at_gateway.Prelude.{
  ap, ℕ, zero, suc, ◌+◌, ◌≤◌, ◌<◌, String, ◌≡◌, refl, sym, subst, true, false, not, ◌&&◌, Option,
  none, some, List, [], ◌∷◌, ◌==◌, ==_iff, string_eq, find_first, update_where, ltb, if◌then◌else◌,
  Bool-cases, inl, inr, arith,
}
use at_gateway.Webhooks.Domain.{
  QueueItem, QueueStatus, queue_processing, queue_failed, queue_permanently_failed, status_eq,
  DeliveryError,
}
use at_gateway.Webhooks.Queue.{has_id, mark_processing, mark_failed, mark_permanently_failed}
use at_gateway.Webhooks.World.{HookEnv, HookWorld, PostCall, tick, on_queue}
use at_gateway.Webhooks.Delivery.{
  post_of, retry_delay, add_duration, inc_failed, count_permanent, schedule_retry, give_up_or_retry,
  mark_delivery_failure, after_delivery, claimed, process_item, deliver, delivery_error,
}

-- The first row with an id.
abbrev pub row_of : String → HookWorld → Option QueueItem
row_of id w = find_first (has_id id) w.queue

abbrev process_row : HookEnv → String → Option QueueItem → HookWorld → HookWorld
process_row env key none w = w
process_row env key (some item) w = process_item env key item w

-- So many turns of the item with an id, each with the row as it then is.
pub rounds : HookEnv → String → String → ℕ → HookWorld → HookWorld
rounds env key id zero w = w
rounds env key id (suc n) w = rounds env key id n (process_row env key (row_of id w) w)

-- The driver reports no errors, and no request succeeds.
pub record NeverDelivers (env : HookEnv) : Type 0 where
  pub no_faults : (n : ℕ) → env.fault n ≡ false
  pub no_success :
      (n : ℕ) (call : PostCall) → (e : DeliveryError) × (delivery_error (env.post n call) ≡ some e)

pub find_first-update :
    (id : String) (f : QueueItem → QueueItem) (qs : List QueueItem) {q : QueueItem}
    → (f q).id ≡ q.id
    → find_first (has_id id) qs ≡ some q
    → find_first (has_id id) (update_where (has_id id) f qs) ≡ some (f q)
find_first-update id f [] k e = absurd (ground (arith, e))
find_first-update id f (r ∷ rs) {q} k e = elim (Bool-cases (has_id id r)) [
  | inl hit ↦
      let same : r ≡ q = ground (arith, e, hit) in
      let still : has_id id (f r) ≡ true =
        ground (arith, hit, k, subst (λ x. (f x).id ≡ x.id) (sym same) k) in
      rw (update_where, hit, find_first, still) (ap (λ x. some (f x)) same)
  | inr miss ↦
      rw (update_where, miss, find_first, miss)
        (find_first-update id f rs k (ground (arith, e, miss)))
]

found-id :
    (id : String) (qs : List QueueItem) {q : QueueItem}
    → find_first (has_id id) qs ≡ some q
    → q.id ≡ id
found-id id [] e = absurd (ground (arith, e))
found-id id (r ∷ rs) {q} e = elim (Bool-cases (has_id id r)) [
  | inl hit ↦
      let same : r ≡ q = ground (arith, e, hit) in
      subst (λ x. x.id ≡ id) same ((==_iff r.id id).0 hit)
  | inr miss ↦
      found-id id rs
        (subst (λ b. (if b then some r else find_first (has_id id) rs) ≡ some q) miss e)
]

-- A row that has been changed to a retry count and a status.
abbrev Becomes : String → ℕ → QueueStatus → List QueueItem → Type 0
Becomes id n s qs =
    (r : QueueItem) × (find_first (has_id id) qs ≡ some r) × (r.retry_count ≡ n) × (r.status ≡ s)

module _ (env : HookEnv) (never : NeverDelivers env) (item : QueueItem) where
  abbrev Row : List QueueItem → Type 0
  Row qs =
      (r : QueueItem) × (find_first (has_id item.id) qs ≡ some r)
      × (r.id ≡ item.id)
      × (r.retry_count ≡ item.retry_count)

  schedule_retry-Becomes :
      (e : DeliveryError) (w : HookWorld)
      → Row w.queue
      → Becomes item.id (suc item.retry_count) queue_failed (schedule_retry env item e w).queue
  unfolding schedule_retry on_queue mark_failed
  schedule_retry-Becomes e w (r, f, i, n) =
      let next =
        add_duration (env.now w.steps) (retry_delay env.retry_base_delay item.retry_count) in
      let change : QueueItem → QueueItem = λ q. record q {
        status = queue_failed;
        retry_count = suc q.retry_count;
        next_attempt = next;
        last_error = some e;
      } in
      rw (schedule_retry, on_queue, never.no_faults (suc w.steps))
        (change r, find_first-update item.id change w.queue {q = r} refl f, ap suc n, refl)

  permanent-Becomes :
      (e : DeliveryError) (w : HookWorld)
      → Row w.queue
      → Becomes item.id item.retry_count queue_permanently_failed
          (count_permanent (on_queue env (mark_permanently_failed item.id e) w)).queue
  unfolding on_queue mark_permanently_failed
  permanent-Becomes e w (r, f, i, n) =
      let change : QueueItem → QueueItem =
        λ q. record q { status = queue_permanently_failed; last_error = some e } in
      rw (on_queue, never.no_faults w.steps, count_permanent)
        (change r, find_first-update item.id change w.queue {q = r} refl f, n, refl)

  claimed-Row :
      (qs : List QueueItem)
      → Row qs
      → Row (update_where (has_id item.id) (λ q. record q { status = queue_processing }) qs)
  claimed-Row qs (r, f, i, n) = (
    record r { status = queue_processing },
    find_first-update item.id (λ q. record q { status = queue_processing }) qs {q = r} refl f,
    i,
    n,
  )

  again_Becomes :
      (e : DeliveryError) (w : HookWorld)
      → (ltb item.retry_count env.retry_count && not (item.status == queue_permanently_failed))
        ≡ true
      → Row w.queue
      → Becomes item.id (suc item.retry_count) queue_failed (give_up_or_retry env item e w).queue
  unfolding give_up_or_retry
  again_Becomes e w again row = rw again (schedule_retry-Becomes e w row)

  over_Becomes :
      (e : DeliveryError) (w : HookWorld)
      → (ltb item.retry_count env.retry_count && not (item.status == queue_permanently_failed))
        ≡ false
      → Row w.queue
      → Becomes item.id item.retry_count queue_permanently_failed
          (give_up_or_retry env item e w).queue
  unfolding give_up_or_retry
  over_Becomes e w over row = rw over (permanent-Becomes e w row)

  -- The turn of an item that is never delivered marks the failure of its claimed row.
  failed_turn :
      (P : List QueueItem → Type 0) (key : String) (w : HookWorld)
      → Row w.queue
      → ((e : DeliveryError) (v : HookWorld)
          → Row v.queue
          → P (give_up_or_retry env item e v).queue)
      → P (process_item env key item w).queue
  unfolding process_item claimed on_queue mark_processing deliver after_delivery
      mark_delivery_failure
  failed_turn P key w row after =
      let v = record (tick w) {
        queue = update_where (has_id item.id) (λ q. record q { status = queue_processing }) w.queue;
      } in
      let (e, f) = never.no_success v.steps (post_of env key item (env.now v.steps)) in
      rw (on_queue, never.no_faults w.steps, f)
        (after e (inc_failed (deliver env key item v).1) (claimed-Row w.queue row))

row_matches :
    (id : String) (w : HookWorld) {q : QueueItem}
    → row_of id w ≡ some q
    → (r : QueueItem) × (find_first (has_id q.id) w.queue ≡ some r)
      × (r.id ≡ q.id)
      × (r.retry_count ≡ q.retry_count)
row_matches id w {q} e =
    let same : q.id ≡ id = found-id id w.queue e in
    (q, subst (λ x. find_first (has_id x) w.queue ≡ some q) (sym same) e, refl, refl)

module _ (env : HookEnv) (never : NeverDelivers env) (key id : String) where
  turn_Becomes :
      (w : HookWorld) {q : QueueItem} (n : ℕ) (s : QueueStatus)
      → row_of id w ≡ some q
      → ((e : DeliveryError) (v : HookWorld)
          → (r : QueueItem) × (find_first (has_id q.id) v.queue ≡ some r)
            × (r.id ≡ q.id)
            × (r.retry_count ≡ q.retry_count)
          → Becomes q.id n s (give_up_or_retry env q e v).queue)
      → Becomes id n s (process_row env key (row_of id w) w).queue
  turn_Becomes w {q} n s e after =
      let same : q.id ≡ id = found-id id w.queue e in
      let turned = failed_turn env never q (Becomes q.id n s) key w (row_matches id w e) after in
      subst (λ o. Becomes id n s (process_row env key o w).queue) (sym e)
        (subst (λ x. Becomes x n s (process_item env key q w).queue) same turned)

  retry_turn :
      (w : HookWorld) {q : QueueItem}
      → row_of id w ≡ some q
      → q.retry_count < env.retry_count
      → (q.status == queue_permanently_failed) ≡ false
      → Becomes id (suc q.retry_count) queue_failed (process_row env key (row_of id w) w).queue
  retry_turn w {q} e l open_q = turn_Becomes w (suc q.retry_count) queue_failed e (λ why v row.
      let again : (ltb q.retry_count env.retry_count && not (q.status == queue_permanently_failed))
          ≡ true =
        ground (arith, l, open_q) in
      again_Becomes env never q why v again row)

  last_turn :
      (w : HookWorld) {q : QueueItem}
      → row_of id w ≡ some q
      → env.retry_count ≤ q.retry_count
      → Becomes id q.retry_count queue_permanently_failed
          (process_row env key (row_of id w) w).queue
  last_turn w {q} e l = turn_Becomes w q.retry_count queue_permanently_failed e (λ why v row.
      let over : (ltb q.retry_count env.retry_count && not (q.status == queue_permanently_failed))
          ≡ false =
        ground (arith, l) in
      over_Becomes env never q why v over row)

  -- An item that is never delivered: after the retries that the configuration still allows it, one more
  -- turn marks it as permanently failed, with all retries used.
  rounds-Becomes :
      (n : ℕ) (w : HookWorld) {q : QueueItem}
      → row_of id w ≡ some q
      → (q.status == queue_permanently_failed) ≡ false
      → q.retry_count + n ≡ env.retry_count
      → Becomes id env.retry_count queue_permanently_failed (rounds env key id (suc n) w).queue
  unfolding rounds
  rounds-Becomes zero w {q} e s k =
      let count : q.retry_count ≡ env.retry_count = omega (arith, k) in
      subst (λ c. Becomes id c queue_permanently_failed (process_row env key (row_of id w) w).queue)
        count (last_turn w e (omega (arith, count)))
  rounds-Becomes (suc n) w {q} e s k =
      let (r, f, c, t) = retry_turn w e (omega (arith, k)) s in
      rounds-Becomes n (process_row env key (row_of id w) w) {q = r} f
        (subst (λ x. (x == queue_permanently_failed) ≡ false) (sym t) refl) (omega (arith, c, k))

-- If the driver reports no errors and no request succeeds, an item that is not permanently failed and
-- has used some of its retries is permanently failed, with all retries used, after one turn for each
-- retry that is left and one more.
pub rounds-end :
    (env : HookEnv) (key id : String) (n : ℕ) (w : HookWorld) {q : QueueItem}
    → NeverDelivers env
    → row_of id w ≡ some q
    → (q.status == queue_permanently_failed) ≡ false
    → q.retry_count + n ≡ env.retry_count
    → (r : QueueItem) × (row_of id (rounds env key id (suc n) w) ≡ some r)
      × (r.retry_count ≡ env.retry_count)
      × (r.status ≡ queue_permanently_failed)
rounds-end env key id n w never e s k = rounds-Becomes env never key id n w e s k
