-- ===== src/Webhooks/System/Reach.antt =====
-- What holds after every interleaving of the delivery worker, the emitters and the registry requests
-- (internal/webhooks).
use at_gateway.Prelude.{sym, subst, String, List, [], ◌∷◌, Bool-cases, inl, inr, string_eq}
use at_gateway.Webhooks.Domain.{QueueItem}
use at_gateway.Webhooks.Lifecycle.{Follows, Follows-refl}
use at_gateway.Webhooks.World.{HookEnv, HookWorld, tick}
use at_gateway.Webhooks.Emission.Grown.{KeptByNew, emit_keeps, emit_tracked_keeps}
use at_gateway.Webhooks.Delivery.Touch.{process_item-Touch}
use at_gateway.Webhooks.System.{
  Node, HookStep, begins_pass, takes_item, restarts, emits, tracks, replaces, deletes, take_item,
  begin_if_idle, hook_step, run_hooks, no_hooks,
}
use at_gateway.Webhooks.System.Passed.{begin_pass-Begun}
use at_gateway.Webhooks.System.Rows.{Follows-touched, Follows-append, Follows-passed}
use at_gateway.Webhooks.Delivery.Requests.{replace_webhook-queue, delete_webhook-queue}
use at_gateway.Webhooks.System.Fair.{IsFairQueue, IsFair, run_keeps_IsFair, no_hooks-IsFair}

module _ (env : HookEnv) where
  Follows-new : (old : List QueueItem) → KeptByNew (Follows old)
  unfolding KeptByNew
  Follows-new old qs item s z n h = Follows-append item s h

  take_item-Follows :
      (key : String) (w : HookWorld) (batch : List QueueItem)
      → IsFairQueue env batch w.queue
      → Follows w.queue (take_item env key w batch).world.queue
  unfolding take_item
  take_item-Follows key w [] h = Follows-refl w.queue
  take_item-Follows key w (item ∷ batch) h = elim (Bool-cases (env.cancelled w.steps)) [
    | inl stop ↦ rw (take_item, stop) (Follows-refl w.queue)
    | inr on ↦
        let t = process_item-Touch env item key (tick w) in
        rw (take_item, on)
          (subst (Follows w.queue) (sym t.result) (Follows-touched env item t w.queue h.matched.0))
  ]

  begin_if_idle-Follows :
      (w : HookWorld) (batch : List QueueItem)
      → Follows w.queue (begin_if_idle env w batch).world.queue
  unfolding begin_if_idle
  begin_if_idle-Follows w [] =
      let p = (begin_pass-Begun env w).queue_passed in
      subst (Follows w.queue) (sym p.result)
        (Follows-passed p.stuck p.stuck_is_claimed p.keep p.removed_is_final w.queue)
  begin_if_idle-Follows w (item ∷ items) = Follows-refl w.queue

  hook_step-Follows :
      (key : String) (n : Node) (s : HookStep)
      → IsFair env n
      → Follows n.world.queue (hook_step env key n s).world.queue
  unfolding hook_step
  hook_step-Follows key n begins_pass h = begin_if_idle-Follows n.world n.batch
  hook_step-Follows key n takes_item h = take_item-Follows key n.world n.batch h.queue_fair
  hook_step-Follows key n restarts h = Follows-refl n.world.queue
  hook_step-Follows key n (emits event payload) h =
      emit_keeps (Follows n.world.queue) (Follows-new n.world.queue) env event payload n.world
        (Follows-refl n.world.queue)
  hook_step-Follows key n (tracks event payload served) h =
      emit_tracked_keeps (Follows n.world.queue) (Follows-new n.world.queue) env event payload
        served n.world (Follows-refl n.world.queue)
  hook_step-Follows key n (replaces hook) h =
      subst (Follows n.world.queue) (sym (replace_webhook-queue env hook n.world))
        (Follows-refl n.world.queue)
  hook_step-Follows key n (deletes id) h =
      subst (Follows n.world.queue) (sym (delete_webhook-queue env id n.world))
        (Follows-refl n.world.queue)

-- From a fresh database, after any interleaving in any environment: the queue items have distinct ids,
-- none has been retried more often than the configured retry count, and every item that the worker
-- has selected and not taken yet is pending or failed in the table, if it is still there.
pub run_hooks-IsFair :
    (env : HookEnv) (key : String) (ss : List HookStep) → IsFair env (run_hooks env key no_hooks ss)
run_hooks-IsFair env key ss = run_keeps_IsFair env key no_hooks ss (no_hooks-IsFair env)

-- Every step from a state that is reached from a fresh database refines the life of a queue item: a row
-- keeps its id, url and payload and changes its status as that life allows, so a final status is
-- never left; only rows with a final status are removed, and new rows are pending.
pub run_hooks-Follows :
    (env : HookEnv) (key : String) (ss : List HookStep) (s : HookStep)
    → Follows
        (run_hooks env key no_hooks ss).world.queue
        (hook_step env key (run_hooks env key no_hooks ss) s).world.queue
run_hooks-Follows env key ss s =
    hook_step-Follows env key (run_hooks env key no_hooks ss) s (run_hooks-IsFair env key ss)
