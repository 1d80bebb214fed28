-- ===== src/Webhooks/System.antt =====
-- Interleavings of the delivery worker with the emitters and the registry requests
-- (internal/webhooks/service.go): the worker works through the items that it selected one by one, and
-- between two items events are emitted and webhooks are registered. A restart of the process drops
-- the selected items and keeps the tables.
pub mod Passed
pub mod Rows
pub mod Fair
pub mod Reach
use at_gateway.Prelude.{
  ℕ, String, Bool, true, false, Option, none, some, List, [], ◌∷◌, if◌then◌else◌,
}
use at_gateway.Webhooks.Domain.{WebhookEvent, Payload, QueueItem, Webhook}
use at_gateway.Webhooks.World.{HookEnv, HookWorld, HookMetrics, tick}
use at_gateway.Webhooks.Emission.{emit, emit_tracked}
use at_gateway.Webhooks.Delivery.{
  recover, select_due, clean_queue, process_item, replace_webhook, delete_webhook,
}

-- The state of the process: the tables and the items of the current pass that are still to be taken.
pub record Node : Type 0 where
  pub world : HookWorld
  pub batch : List QueueItem

pub data HookStep : Type 0 where
  begins_pass takes_item restarts : HookStep
  emits : WebhookEvent → Payload → HookStep
  tracks : WebhookEvent → Payload → List String → HookStep
  replaces : Webhook → HookStep
  deletes : String → HookStep

selected : HookEnv → ℕ → Option (List QueueItem) × HookWorld → Node
unfolding clean_queue
selected env now (none, w) = record { world = tick w; batch = [] }
selected env now (some [], w) = record { world = tick (clean_queue env now w); batch = [] }
selected env now (some (item ∷ items), w) = record { world = w; batch = item ∷ items }

-- The part of `processQueuePass` before its loop.
unfoldable pub begin_pass : HookEnv → HookWorld → Node
unfolding selected recover select_due
begin_pass env w =
    let now = env.now w.steps in selected env now (select_due env now (recover env now (tick w)))

-- One turn of the loop of `processQueuePass`.
unfoldable pub take_item : HookEnv → String → HookWorld → List QueueItem → Node
unfolding process_item
take_item env key w [] = record { world = w; batch = [] }
take_item env key w (item ∷ items) =
    if env.cancelled w.steps
    then record { world = tick w; batch = [] }
    else record { world = process_item env key item (tick w); batch = items }

begin_if_idle : HookEnv → HookWorld → List QueueItem → Node
unfolding begin_pass
begin_if_idle env w [] = begin_pass env w
begin_if_idle env w (item ∷ items) = record { world = w; batch = item ∷ items }

unfoldable pub hook_step : HookEnv → String → Node → HookStep → Node
unfolding begin_if_idle take_item emit emit_tracked replace_webhook delete_webhook
hook_step env key n begins_pass = begin_if_idle env n.world n.batch
hook_step env key n takes_item = take_item env key n.world n.batch
hook_step env key n restarts = record n { batch = [] }
hook_step env key n (emits event payload) = record n { world = emit env event payload n.world }
hook_step env key n (tracks event payload served) = record n {
  world = (emit_tracked env event payload served n.world).1;
}
hook_step env key n (replaces hook) = record n { world = (replace_webhook env hook n.world).1 }
hook_step env key n (deletes id) = record n { world = (delete_webhook env id n.world).1 }

unfoldable pub run_hooks : HookEnv → String → Node → List HookStep → Node
unfolding hook_step
run_hooks env key n [] = n
run_hooks env key n (s ∷ ss) = run_hooks env key (hook_step env key n s) ss

-- A fresh database, before anything has happened.
abbrev pub no_hooks : Node
no_hooks = record {
  world = record {
    registry = record { rows = []; next_id = 1 };
    queue = [];
    steps = 0;
    posts = [];
    metrics = record { enqueued = 0; delivered = 0; failed = 0; permanently_failed = 0 };
  };
  batch = [];
}
