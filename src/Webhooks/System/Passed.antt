-- ===== src/Webhooks/System/Passed.antt =====
-- What the beginning of a pass does to the queue: internal/webhooks/service.go.
use at_gateway.Prelude.{
  ℕ, ◌+◌, ◌≡◌, refl, sym, ◌∙◌, ap, ◌⊎◌, inl, inr, Bool, true, false, not, ◌&&◌, Option, none, some,
  List, [], ◌∷◌, ◌==◌, ltb, update_where, select_where, Bool-cases, arith,
}
use at_gateway.Webhooks.Domain.{QueueItem, queue_pending, queue_processing, status_eq}
use at_gateway.Webhooks.Lifecycle.{IsFinalStatus}
use at_gateway.Webhooks.Queue.{recover_stuck, cleanup, is_spent, due_items}
use at_gateway.Webhooks.World.{HookEnv, HookWorld, tick, on_queue}
use at_gateway.Webhooks.Delivery.{recover, select_due, clean_queue}
use at_gateway.Webhooks.System.{Node, selected, begin_pass}

abbrev pub give_back_row : QueueItem → QueueItem
give_back_row q = record q { status = queue_pending }

-- Some claimed rows are given back, then some rows with a final status are removed.
pub record Passed (old new : List QueueItem) : Type 0 where
  pub stuck : QueueItem → Bool
  pub stuck_is_claimed : (q : QueueItem) → stuck q ≡ true → q.status ≡ queue_processing
  pub keep : QueueItem → Bool
  pub removed_is_final : (q : QueueItem) → keep q ≡ false → IsFinalStatus q.status
  pub result : new ≡ select_where keep (update_where stuck give_back_row old)

-- The rows after `RecoverStuck`.
pub record Recovered (old new : List QueueItem) : Type 0 where
  pub stuck : QueueItem → Bool
  pub stuck_is_claimed : (q : QueueItem) → stuck q ≡ true → q.status ≡ queue_processing
  pub result : new ≡ update_where stuck give_back_row old

update_none : (qs : List QueueItem) → qs ≡ update_where (λ q. false) give_back_row qs
update_none [] = refl
update_none (q ∷ qs) = ap (λ rest. q ∷ rest) (update_none qs)

select_all_rows : (qs : List QueueItem) → select_where (λ q. true) qs ≡ qs
select_all_rows [] = refl
select_all_rows (q ∷ qs) = ap (λ rest. q ∷ rest) (select_all_rows qs)

recover-Recovered :
    (env : HookEnv) (now : ℕ) (w : HookWorld) → Recovered w.queue (recover env now w).queue
unfolding recover on_queue recover_stuck
recover-Recovered env now w = elim (Bool-cases (env.fault w.steps)) [
  | inl broken ↦
      rw (recover, on_queue, broken)
        (record {
          stuck = λ q. false;
          stuck_is_claimed = λ q e. absurd (ground (arith, e));
          result = update_none w.queue;
        })
  | inr works ↦
      rw (recover, on_queue, works)
        (record {
          stuck = λ q. q.status == queue_processing && ltb (q.next_attempt + env.stuck_timeout) now;
          stuck_is_claimed = λ q e. ground (arith, e);
          result = refl;
        })
]

-- Nothing is removed.
only-Recovered : {old new : List QueueItem} → Recovered old new → Passed old new
only-Recovered {old} {new} r = record {
  stuck = r.stuck;
  stuck_is_claimed = r.stuck_is_claimed;
  keep = λ q. true;
  removed_is_final = λ q e. absurd (ground (arith, e));
  result = sym (select_all_rows new) ∙ ap (select_where (λ q. true)) r.result;
}

clean-Passed :
    (env : HookEnv) (now : ℕ) (old : List QueueItem) (w : HookWorld)
    → Recovered old w.queue
    → Passed old (clean_queue env now w).queue
unfolding clean_queue on_queue cleanup
clean-Passed env now old w r = elim (Bool-cases (env.fault w.steps)) [
  | inl broken ↦ rw (clean_queue, on_queue, broken) (only-Recovered r)
  | inr works ↦
      rw (clean_queue, on_queue, works)
        (record {
          stuck = r.stuck;
          stuck_is_claimed = r.stuck_is_claimed;
          keep = λ q. not (is_spent env.cleanup_retention now q);
          removed_is_final = λ q e. ground (arith, e);
          result = ap (select_where (λ q. not (is_spent env.cleanup_retention now q))) r.result;
        })
]

-- The node after the selection: its queue, and where its batch comes from.
pub record Begun (env : HookEnv) (old : List QueueItem) (n : Node) : Type 0 where
  pub queue_passed : Passed old n.world.queue
  pub batch_due :
      (n.batch ≡ []) ⊎ ((now : ℕ) × (n.batch ≡ due_items now env.batch_size n.world.queue))

selected-Begun :
    (env : HookEnv) (now : ℕ) (old : List QueueItem) (o : Option (List QueueItem)) (w : HookWorld)
    → Recovered old w.queue
    → ((items : List QueueItem) → o ≡ some items → items ≡ due_items now env.batch_size w.queue)
    → Begun env old (selected env now (o, w))
unfolding selected
selected-Begun env now old none w r f = record {
  queue_passed = only-Recovered r;
  batch_due = inl refl;
}
selected-Begun env now old (some []) w r f = record {
  queue_passed = clean-Passed env now old w r;
  batch_due = inl refl;
}
selected-Begun env now old (some (item ∷ items)) w r f = record {
  queue_passed = only-Recovered r;
  batch_due = inr (now, f (item ∷ items) refl);
}

select_due-Begun :
    (env : HookEnv) (now : ℕ) (old : List QueueItem) (w : HookWorld)
    → Recovered old w.queue
    → Begun env old (selected env now (select_due env now w))
unfolding select_due
select_due-Begun env now old w r = elim (Bool-cases (env.fault w.steps)) [
  | inl broken ↦
      rw (select_due, broken)
        (selected-Begun env now old none (tick w) r (λ items e. absurd (ground (arith, e))))
  | inr works ↦
      rw (select_due, works)
        (selected-Begun env now old (some (due_items now env.batch_size w.queue)) (tick w) r
          (λ items e. ground (arith, e)))
]

pub begin_pass-Begun : (env : HookEnv) (w : HookWorld) → Begun env w.queue (begin_pass env w)
unfolding begin_pass
begin_pass-Begun env w =
    let now = env.now w.steps in
    select_due-Begun env now w.queue (recover env now (tick w)) (recover-Recovered env now (tick w))
