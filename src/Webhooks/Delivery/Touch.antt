-- ===== src/Webhooks/Delivery/Touch.antt =====
-- What the turn of an item does to the queue: internal/webhooks/service.go.
use at_gateway.Prelude.{
  suc, ◌≤◌, ◌<◌, String, ◌≡◌, refl, sym, subst, ◌∙◌, ◌⊎◌, inl, inr, Bool, true, false, not, ◌&&◌,
  Option, none, some, List, [], ◌∷◌, ◌==◌, string_eq, update_where, ltb, Bool-cases, arith,
}
use at_gateway.Webhooks.Domain.{
  QueueItem, QueueStatus, queue_pending, queue_processing, queue_completed, queue_failed,
  queue_permanently_failed, status_eq, DeliveryError,
}
use at_gateway.Webhooks.Lifecycle.{
  claim_new, claim_again, complete, fail_once, fail_for_good, Changes, stays, moves,
}
use at_gateway.Webhooks.Queue.{
  has_id, mark_processing, mark_completed, mark_failed, mark_permanently_failed,
}
use at_gateway.Webhooks.World.{HookEnv, HookWorld, tick, on_queue}
use at_gateway.Webhooks.Delivery.{
  retry_delay, add_duration, inc_failed, count_permanent, schedule_retry, give_up_or_retry,
  mark_delivery_failure, count_delivered, after_delivery, claimed, process_item, deliver,
}

-- A change of the rows with the item's id, from one queue to another.
pub record Touch (env : HookEnv) (item : QueueItem) (from : QueueStatus → Type 0)
    (old new : List QueueItem) : Type 0 where
  pub change : QueueItem → QueueItem
  pub keeps_id : (q : QueueItem) → (change q).id ≡ q.id
  pub keeps_url : (q : QueueItem) → (change q).url ≡ q.url
  pub keeps_payload : (q : QueueItem) → (change q).payload ≡ q.payload
  pub in_bounds :
      (q : QueueItem)
      → q.retry_count ≤ item.retry_count
      → q.retry_count ≤ env.retry_count
      → (change q).retry_count ≤ env.retry_count
  pub allowed : (q : QueueItem) → from q.status → Changes q.status (change q).status
  pub result : new ≡ update_where (has_id item.id) change old

abbrev pub OpenStatus : QueueStatus → Type 0
OpenStatus s = (s ≡ queue_pending) ⊎ (s ≡ queue_failed)

abbrev Claimed : QueueStatus → Type 0
Claimed s = s ≡ queue_processing

update_where-same : (p : QueueItem → Bool) (qs : List QueueItem) → qs ≡ update_where p (λ q. q) qs
update_where-same p [] = refl
update_where-same p (q ∷ qs) = ground (arith, update_where-same p qs)

update_where-twice :
    (id : String) (f g : QueueItem → QueueItem)
    → ((q : QueueItem) → (f q).id ≡ q.id)
    → (qs : List QueueItem)
    → update_where (has_id id) g (update_where (has_id id) f qs)
      ≡ update_where (has_id id) (λ q. g (f q)) qs
update_where-twice id f g e [] = refl
update_where-twice id f g e (q ∷ qs) = elim (Bool-cases (has_id id q)) [
  | inl hit ↦ rw (update_where, hit, e q, hit, update_where-twice id f g e qs) refl
  | inr miss ↦ rw (update_where, miss, miss, update_where-twice id f g e qs) refl
]

Changes-trans : {s t u : QueueStatus} → Changes s t → Changes t u → Changes s u
Changes-trans h stays = h
Changes-trans h (moves k c) = moves (Changes-trans h k) c

claim_first : (s t : QueueStatus) → OpenStatus s → Changes queue_processing t → Changes s t
claim_first s t (inl e) h = rw e (Changes-trans (moves stays claim_new) h)
claim_first s t (inr e) h = rw e (Changes-trans (moves stays claim_again) h)

module _ (env : HookEnv) (item : QueueItem) where
  untouched : (from : QueueStatus → Type 0) (qs : List QueueItem) → Touch env item from qs qs
  untouched from qs = record {
    change = λ q. q;
    keeps_id = λ q. refl;
    keeps_url = λ q. refl;
    keeps_payload = λ q. refl;
    in_bounds = λ q h k. k;
    allowed = λ q h. stays;
    result = update_where-same (has_id item.id) qs;
  }

  schedule_retry-Touch :
      (e : DeliveryError) (w : HookWorld)
      → item.retry_count < env.retry_count
      → Touch env item Claimed w.queue (schedule_retry env item e w).queue
  unfolding schedule_retry on_queue mark_failed
  schedule_retry-Touch e w l = elim (Bool-cases (env.fault (suc w.steps))) [
    | inl broken ↦ rw (schedule_retry, on_queue, broken) (untouched Claimed w.queue)
    | inr works ↦
        rw (schedule_retry, on_queue, works)
          (record {
            change = λ q. record q {
              status = queue_failed;
              retry_count = suc q.retry_count;
              next_attempt =
                  add_duration (env.now w.steps)
                    (retry_delay env.retry_base_delay item.retry_count);
              last_error = some e;
            };
            keeps_id = λ q. refl;
            keeps_url = λ q. refl;
            keeps_payload = λ q. refl;
            in_bounds = λ q h k. omega (arith, h, l);
            allowed = λ q s. rw s (moves stays fail_once);
            result = refl;
          })
  ]

  count_permanent-queue : (x : Bool × HookWorld) → (count_permanent x).queue ≡ x.1.queue
  count_permanent-queue (true, w) = refl
  count_permanent-queue (false, w) = refl

  permanent-Touch :
      (e : DeliveryError) (w : HookWorld)
      → Touch env item Claimed w.queue (on_queue env (mark_permanently_failed item.id e) w).1.queue
  unfolding on_queue mark_permanently_failed
  permanent-Touch e w = elim (Bool-cases (env.fault w.steps)) [
    | inl broken ↦ rw (on_queue, broken) (untouched Claimed w.queue)
    | inr works ↦
        rw (on_queue, works)
          (record {
            change = λ q. record q { status = queue_permanently_failed; last_error = some e };
            keeps_id = λ q. refl;
            keeps_url = λ q. refl;
            keeps_payload = λ q. refl;
            in_bounds = λ q h k. k;
            allowed = λ q s. rw s (moves stays fail_for_good);
            result = refl;
          })
  ]

  give_up_or_retry-Touch :
      (e : DeliveryError) (w : HookWorld)
      → Touch env item Claimed w.queue (give_up_or_retry env item e w).queue
  unfolding give_up_or_retry
  give_up_or_retry-Touch e w =
      elim (Bool-cases
        (ltb item.retry_count env.retry_count && not (item.status == queue_permanently_failed))) [
          | inl again ↦ rw again (schedule_retry-Touch e w (ground (arith, again)))
          | inr last ↦ rw last (
              subst (Touch env item Claimed w.queue)
                (sym (count_permanent-queue (on_queue env (mark_permanently_failed item.id e) w)))
                (permanent-Touch e w))
        ]

  complete-Touch :
      (w : HookWorld)
      → Touch env item Claimed w.queue (on_queue env (mark_completed item.id) w).1.queue
  unfolding on_queue mark_completed
  complete-Touch w = elim (Bool-cases (env.fault w.steps)) [
    | inl broken ↦ rw (on_queue, broken) (untouched Claimed w.queue)
    | inr works ↦
        rw (on_queue, works)
          (record {
            change = λ q. record q { status = queue_completed };
            keeps_id = λ q. refl;
            keeps_url = λ q. refl;
            keeps_payload = λ q. refl;
            in_bounds = λ q h k. k;
            allowed = λ q s. rw s (moves stays complete);
            result = refl;
          })
  ]

  count_delivered-queue : (x : Bool × HookWorld) → (count_delivered x).queue ≡ x.1.queue
  count_delivered-queue (true, w) = refl
  count_delivered-queue (false, w) = refl

  after_delivery-Touch :
      (x : Option DeliveryError × HookWorld)
      → Touch env item Claimed x.1.queue (after_delivery env item x).queue
  unfolding after_delivery mark_delivery_failure
  after_delivery-Touch (some e, w) = give_up_or_retry-Touch e (inc_failed w)
  after_delivery-Touch (none, w) =
      subst (Touch env item Claimed w.queue)
        (sym (count_delivered-queue (on_queue env (mark_completed item.id) w))) (complete-Touch w)

  -- A claimed item's rows are changed once more.
  after_claim-Touch :
      (old new : List QueueItem)
      → Touch env item Claimed
          (update_where (has_id item.id) (λ q. record q { status = queue_processing }) old)
          new
      → Touch env item OpenStatus old new
  after_claim-Touch old new t = record {
    change = λ q. t.change (record q { status = queue_processing });
    keeps_id = λ q. t.keeps_id (record q { status = queue_processing });
    keeps_url = λ q. t.keeps_url (record q { status = queue_processing });
    keeps_payload = λ q. t.keeps_payload (record q { status = queue_processing });
    in_bounds = λ q h k. t.in_bounds (record q { status = queue_processing }) h k;
    allowed = λ q s.
        claim_first q.status (t.change (record q { status = queue_processing })).status s
          (t.allowed (record q { status = queue_processing }) refl);
    result =
        t.result
        ∙ update_where-twice item.id (λ q. record q { status = queue_processing }) t.change
            (λ q. refl) old;
  }

  -- The turn of an item changes no rows but those with its id, and these as the life of a status allows.
  pub process_item-Touch :
      (key : String) (w : HookWorld)
      → Touch env item OpenStatus w.queue (process_item env key item w).queue
  unfolding process_item claimed on_queue mark_processing deliver
  process_item-Touch key w = elim (Bool-cases (env.fault w.steps)) [
    | inl broken ↦ rw (on_queue, broken) (untouched OpenStatus w.queue)
    | inr works ↦
        rw (on_queue, works)
          (after_claim-Touch w.queue _ (
            after_delivery-Touch (
              deliver env key item (record (tick w) {
                queue =
                    update_where (has_id item.id) (λ q. record q { status = queue_processing })
                      w.queue;
              }))))
  ]
