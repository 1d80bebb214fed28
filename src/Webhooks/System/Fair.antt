-- ===== src/Webhooks/System/Fair.antt =====
-- The invariant of the queue and of the worker's items, and that every step keeps it
-- (internal/webhooks/service.go).
use at_gateway.Prelude.{
  ℕ, refl, sym, subst, String, List, [], ◌∷◌, update_where, All, Bool-cases, inl, inr, string_eq,
}
use at_gateway.Webhooks.Domain.{QueueItem}
use at_gateway.Webhooks.Queue.{has_id, due_items}
use at_gateway.Webhooks.Queue.Due.{All-due_items, due_items-IsBatch}
use at_gateway.Webhooks.Queue.Fair.{
  DistinctIds, DistinctIds-update, DistinctIds-select, DistinctIds-due, DistinctIds-append, Matches,
  own-Matches, IsOpen,
}
use at_gateway.Webhooks.World.{HookEnv, HookWorld, tick}
use at_gateway.Webhooks.Emission.Grown.{KeptByNew, emit_keeps, emit_tracked_keeps}
use at_gateway.Webhooks.Delivery.{process_item}
use at_gateway.Webhooks.Delivery.Touch.{Touch, OpenStatus, process_item-Touch}
use at_gateway.Webhooks.System.{
  Node, HookStep, begins_pass, takes_item, restarts, emits, tracks, replaces, deletes, begin_pass,
  take_item, begin_if_idle, hook_step, run_hooks, no_hooks,
}
use at_gateway.Webhooks.System.Passed.{Passed, Begun, begin_pass-Begun, give_back_row}
use at_gateway.Webhooks.System.Rows.{
  Bounded, Bounded-touched, All-Matches-touched, All-Matches-append, Bounded-append, Bounded-passed,
  open-Matches,
}
use at_gateway.Webhooks.Delivery.Requests.{replace_webhook-queue, delete_webhook-queue}

-- The queue on its own: distinct ids, and no row tried more often than the configuration allows.
pub record IsFairQueue (env : HookEnv) (batch queue : List QueueItem) : Type 0 where
  pub distinct : DistinctIds queue
  pub bounded : Bounded env.retry_count queue
  pub matched : All (Matches queue) batch

-- The process: also the items that are still to be taken have distinct ids.
pub record IsFair (env : HookEnv) (n : Node) : Type 0 where
  pub batch_distinct : DistinctIds n.batch
  pub queue_fair : IsFairQueue env n.batch n.world.queue

module _ (env : HookEnv) where
  IsFairQueue-new : (batch : List QueueItem) → KeptByNew (IsFairQueue env batch)
  unfolding KeptByNew
  IsFairQueue-new batch qs item s z n h = record {
    distinct = DistinctIds-append item qs n h.distinct;
    bounded = Bounded-append env.retry_count item qs z h.bounded;
    matched = All-Matches-append batch item qs s z h.matched;
  }

  idle-IsFair :
      (w : HookWorld) → IsFairQueue env [] w.queue → IsFair env (record { world = w; batch = [] })
  idle-IsFair w h = record { batch_distinct = tt; queue_fair = h }

  no_batch : (batch queue : List QueueItem) → IsFairQueue env batch queue → IsFairQueue env [] queue
  no_batch batch queue h = record { distinct = h.distinct; bounded = h.bounded; matched = tt }

  touched_fair :
      (item : QueueItem) (batch old new : List QueueItem)
      → Touch env item OpenStatus old new
      → DistinctIds (item ∷ batch)
      → IsFairQueue env (item ∷ batch) old
      → IsFairQueue env batch new
  touched_fair item batch old new t d h =
      let changed_rows = update_where (has_id item.id) t.change old in
      subst (IsFairQueue env batch) (sym t.result) (record {
        distinct = DistinctIds-update (has_id item.id) t.change t.keeps_id old h.distinct;
        bounded = Bounded-touched env item t old h.matched.0 h.bounded;
        matched = All-Matches-touched env item t batch old d.0 h.matched.1;
      })

  take_item-IsFair :
      (key : String) (w : HookWorld) (batch : List QueueItem)
      → DistinctIds batch
      → IsFairQueue env batch w.queue
      → IsFair env (take_item env key w batch)
  unfolding take_item
  take_item-IsFair key w [] d h = idle-IsFair w h
  take_item-IsFair key w (item ∷ batch) d h = elim (Bool-cases (env.cancelled w.steps)) [
    | inl stop ↦ rw (take_item, stop) (idle-IsFair (tick w) (no_batch (item ∷ batch) w.queue h))
    | inr on ↦
        rw (take_item, on)
          (record {
            batch_distinct = d.1;
            queue_fair =
                touched_fair item batch w.queue (process_item env key item (tick w)).queue
                  (process_item-Touch env item key (tick w)) d h;
          })
  ]

  Passed-fair :
      (old new : List QueueItem) → Passed old new → IsFairQueue env [] old → IsFairQueue env [] new
  Passed-fair old new p h = subst (IsFairQueue env []) (sym p.result) (record {
    distinct =
        DistinctIds-select p.keep (update_where p.stuck give_back_row old)
          (DistinctIds-update p.stuck give_back_row (λ q. refl) old h.distinct);
    bounded =
        Bounded-passed p.stuck p.stuck_is_claimed p.keep p.removed_is_final env.retry_count old
          h.bounded;
    matched = tt;
  })

  due_fair :
      (now : ℕ) (queue : List QueueItem)
      → IsFairQueue env [] queue
      → DistinctIds (due_items now env.batch_size queue)
        × IsFairQueue env (due_items now env.batch_size queue) queue
  due_fair now queue h =
      let own = own-Matches queue h.distinct in
      let due = due_items now env.batch_size queue in
      (
        DistinctIds-due now env.batch_size queue h.distinct,
        record {
          distinct = h.distinct;
          bounded = h.bounded;
          matched =
              open-Matches queue due now ((due_items-IsBatch now env.batch_size queue).all_due)
                (All-due_items (λ q. IsOpen q → Matches queue q) now env.batch_size queue own);
        },
      )

  Begun-IsFair :
      (old : List QueueItem) (n : Node) → Begun env old n → IsFairQueue env [] old → IsFair env n
  Begun-IsFair old n b h =
      let now_fair = Passed-fair old n.world.queue b.queue_passed h in
      elim b.batch_due [
        | inl none_due ↦ record {
          batch_distinct = subst DistinctIds (sym none_due) tt;
          queue_fair = subst (λ x. IsFairQueue env x n.world.queue) (sym none_due) now_fair;
        }
        | inr (now, e) ↦ record {
          batch_distinct = subst DistinctIds (sym e) (due_fair now n.world.queue now_fair).0;
          queue_fair =
              subst (λ x. IsFairQueue env x n.world.queue) (sym e)
                (due_fair now n.world.queue now_fair).1;
        }
      ]

  begin_if_idle-IsFair :
      (w : HookWorld) (batch : List QueueItem)
      → DistinctIds batch
      → IsFairQueue env batch w.queue
      → IsFair env (begin_if_idle env w batch)
  unfolding begin_if_idle
  begin_if_idle-IsFair w [] d h = Begun-IsFair w.queue (begin_pass env w) (begin_pass-Begun env w) h
  begin_if_idle-IsFair w (item ∷ items) d h = record { batch_distinct = d; queue_fair = h }

  hook_step-IsFair :
      (key : String) (n : Node) (s : HookStep) → IsFair env n → IsFair env (hook_step env key n s)
  unfolding hook_step
  hook_step-IsFair key n begins_pass h =
      begin_if_idle-IsFair n.world n.batch h.batch_distinct h.queue_fair
  hook_step-IsFair key n takes_item h =
      take_item-IsFair key n.world n.batch h.batch_distinct h.queue_fair
  hook_step-IsFair key n restarts h =
      idle-IsFair n.world (no_batch n.batch n.world.queue h.queue_fair)
  hook_step-IsFair key n (emits event payload) h = record {
    batch_distinct = h.batch_distinct;
    queue_fair =
        emit_keeps (IsFairQueue env n.batch) (IsFairQueue-new n.batch) env event payload n.world
          h.queue_fair;
  }
  hook_step-IsFair key n (tracks event payload served) h = record {
    batch_distinct = h.batch_distinct;
    queue_fair =
        emit_tracked_keeps (IsFairQueue env n.batch) (IsFairQueue-new n.batch) env event payload
          served n.world h.queue_fair;
  }
  hook_step-IsFair key n (replaces hook) h = record {
    batch_distinct = h.batch_distinct;
    queue_fair =
        subst (IsFairQueue env n.batch) (sym (replace_webhook-queue env hook n.world)) h.queue_fair;
  }
  hook_step-IsFair key n (deletes id) h = record {
    batch_distinct = h.batch_distinct;
    queue_fair =
        subst (IsFairQueue env n.batch) (sym (delete_webhook-queue env id n.world)) h.queue_fair;
  }

  pub run_keeps_IsFair :
      (key : String) (n : Node) (ss : List HookStep)
      → IsFair env n
      → IsFair env (run_hooks env key n ss)
  unfolding run_hooks
  run_keeps_IsFair key n [] h = h
  run_keeps_IsFair key n (s ∷ ss) h =
      run_keeps_IsFair key (hook_step env key n s) ss (hook_step-IsFair key n s h)

pub no_hooks-IsFair : (env : HookEnv) → IsFair env no_hooks
no_hooks-IsFair env = record {
  batch_distinct = tt;
  queue_fair = record { distinct = tt; bounded = tt; matched = tt };
}
