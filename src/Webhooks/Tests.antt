-- ===== src/Webhooks/Tests.antt =====
-- Concrete runs of the webhooks component.
use at_gateway.Prelude.{
  inl, ◌⊎◌, ℕ, String, ◌≡◌, refl, true, false, none, some, List, [], ◌∷◌, arith,
}
use at_gateway.Webhooks.Domain.{
  bad_status, queue_failed, Webhook, new_webhook_model, QueueItem, queue_pending,
  queue_permanently_failed, ping_payload, event_sms_sent,
}
use at_gateway.Webhooks.Lifecycle.{Follows}
use at_gateway.Webhooks.Queue.{recover_stuck, due_items}
use at_gateway.Webhooks.Queue.Due.{In, Waits, IsBatch, due_items-IsBatch, due_items-fair}
use at_gateway.Webhooks.Registry.{Registry, upsert, delete_rows, select_by_event}
use at_gateway.Webhooks.Registry.Laws.{
  registered, row_with, row_with-upsert, registered-upsert, registered-delete,
}
use at_gateway.Webhooks.World.{HookEnv, HookWorld, answered}
use at_gateway.Webhooks.Emission.{emit_tracked}
use at_gateway.Webhooks.Emission.Tracked.{Accounts, emit_tracked-Accounts}
use at_gateway.Webhooks.Delivery.{mark_delivery_failure, delivery_error, process_queue_pass}
use at_gateway.Webhooks.Delivery.Delay.{row_of-mark_delivery_failure}
use at_gateway.Webhooks.Delivery.Rounds.{row_of, rounds, rounds-end}
use at_gateway.Webhooks.System.{
  HookStep, begins_pass, takes_item, restarts, emits, replaces, hook_step, run_hooks, no_hooks,
}
use at_gateway.Webhooks.Delivery.Posts.{Requests, process_queue_pass-posts}
use at_gateway.Webhooks.System.Fair.{IsFair}
use at_gateway.Webhooks.System.Reach.{run_hooks-IsFair, run_hooks-Follows}

-- Every request is answered with a status; the id of a queue item is always "id".
abbrev answering : ℕ → HookEnv
answering status = record {
  fault = λ n. false;
  now = λ n. n;
  new_id = λ n. "id";
  cancelled = λ n. false;
  local_device = "device";
  is_valid_event = λ e. true;
  marshal = λ e. some "body";
  unix_text = λ n. "0";
  hmac = λ key body time. "signature";
  post = λ n call. answered status;
  retry_count = 2;
  retry_base_delay = 1;
  batch_size = 2;
  stuck_timeout = 1000;
  cleanup_retention = 1000;
}

abbrev hook : String → Webhook
hook id = record { id = id; device_id = none; url = "https://localhost"; event = event_sms_sent }

abbrev two_hooks : Registry
two_hooks =
    upsert (new_webhook_model (hook "b") 2)
      (upsert (new_webhook_model (hook "a") 1) (record { rows = []; next_id = 1 }))

abbrev row_at : String → ℕ → QueueItem
row_at id time = record {
  id = id;
  webhook_id = "a";
  url = "https://localhost";
  payload = "body";
  retry_count = 0;
  status = queue_pending;
  created_at = 0;
  next_attempt = time;
  last_error = none;
}

abbrev table : List QueueItem
table = row_at "x" 7 ∷ row_at "y" 3 ∷ row_at "z" 5 ∷ []

abbrev with_rows : List QueueItem → HookWorld
with_rows rows = record {
  registry = two_hooks;
  queue = rows;
  steps = 100;
  posts = [];
  metrics = record { enqueued = 0; delivered = 0; failed = 0; permanently_failed = 0 };
}

due_items-IsBatch_example : IsBatch 9 2 (due_items 9 2 table)
due_items-IsBatch_example = due_items-IsBatch 9 2 table

due_items-fair_example :
    In (row_at "x" 7) (due_items 9 2 table) ⊎ Waits 2 (row_at "x" 7) (due_items 9 2 table)
due_items-fair_example = due_items-fair 9 2 table (row_at "x" 7) (inl refl) refl

row_with-upsert_example :
    (row_with "a" (upsert (new_webhook_model (hook "a") 3) two_hooks)
      ≡ some (record (new_webhook_model (hook "a") 3) { id = 1; created_at = 1 }))
    × (row_with "b" (upsert (new_webhook_model (hook "a") 3) two_hooks) ≡ row_with "b" two_hooks)
unfolding upsert
row_with-upsert_example = row_with-upsert (new_webhook_model (hook "a") 3) "b" two_hooks refl refl

registered-upsert_example :
    registered "a" (upsert (new_webhook_model (hook "a") 3) two_hooks) ≡ some (hook "a")
registered-upsert_example = registered-upsert (hook "a") 3 two_hooks

registered-delete_example : registered "b" (delete_rows "a" two_hooks) ≡ registered "b" two_hooks
registered-delete_example = registered-delete "a" "b" two_hooks

emit_tracked-Accounts_example :
    Accounts
      ("a" ∷ [])
      (select_by_event event_sms_sent two_hooks)
      (emit_tracked (answering 200) event_sms_sent ping_payload ("a" ∷ []) (with_rows [])).0
emit_tracked-Accounts_example =
    emit_tracked-Accounts (answering 200) event_sms_sent ping_payload ("a" ∷ []) (with_rows []) refl

row_of-mark_delivery_failure_example :
    row_of "x"
      (mark_delivery_failure (answering 500) (row_at "x" 7) (bad_status 500) (with_rows table))
    ≡ some (record (row_at "x" 7) {
      status = queue_failed;
      retry_count = 1;
      next_attempt = 101;
      last_error = some (bad_status 500);
    })
row_of-mark_delivery_failure_example =
    row_of-mark_delivery_failure (answering 500) (row_at "x" 7) (bad_status 500) (with_rows table)
      refl refl (omega arith) refl (omega arith)

rounds-end_example :
    (r : QueueItem) × (row_of "x" (rounds (answering 500) "key" "x" 3 (with_rows table)) ≡ some r)
    × (r.retry_count ≡ 2)
    × (r.status ≡ queue_permanently_failed)
unfolding delivery_error
rounds-end_example =
    rounds-end (answering 500) "key" "x" 2 (with_rows table)
      (record { no_faults = λ n. refl; no_success = λ n call. (_, refl) }) refl refl refl

process_queue_pass-posts_example :
    Requests
      (answering 200)
      "key"
      (row_at "y" 3 ∷ row_at "z" 5 ∷ [])
      []
      (process_queue_pass (answering 200) "key" (with_rows table)).1.posts
unfolding due_items recover_stuck
process_queue_pass-posts_example =
    process_queue_pass-posts (answering 200) "key" (with_rows table)
      (record { no_faults = λ n. refl; not_cancelled = λ n. refl; all_built = λ n call. refl })

-- A delivery that fails, with a restart before the second attempt.
abbrev interleaving : List HookStep
interleaving =
    replaces (hook "a")
    ∷ emits event_sms_sent ping_payload
    ∷ begins_pass
    ∷ takes_item
    ∷ restarts
    ∷ begins_pass
    ∷ []

run_hooks-IsFair_example :
    IsFair (answering 500) (run_hooks (answering 500) "key" no_hooks interleaving)
run_hooks-IsFair_example = run_hooks-IsFair (answering 500) "key" interleaving

run_hooks-Follows_example :
    Follows
      (run_hooks (answering 500) "key" no_hooks interleaving).world.queue
      (hook_step
        (answering 500)
        "key"
        (run_hooks (answering 500) "key" no_hooks interleaving)
        takes_item).world.queue
run_hooks-Follows_example = run_hooks-Follows (answering 500) "key" interleaving takes_item
