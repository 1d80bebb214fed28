-- ===== src/Inbox/Pipeline.antt =====
-- The loop of the inbox service: `Run` and `handleInboundPart` of internal/inbox/service.go.
pub mod Reach
use at_gateway.Prelude.{ℕ, suc, Bool, true, Option, none, some, List, [], ◌∷◌}
use at_gateway.Inbox.Dedupe.{new_deduper}
use at_gateway.Inbox.Reassembly.{
  InboundPart, InboundMessage, Pipeline, assemble_inbound, sweep_inbound, abort_inbound,
}
use at_gateway.Inbox.Emission.{InboxEnv, InboxWorld, emit_inbound, cleanup_inbox}

emit_complete : InboxEnv → ℕ → Option InboundMessage × Pipeline → InboxWorld → InboxWorld
emit_complete env now (none, s) w = record w { pipeline = s }
emit_complete env now (some m, s) w = emit_inbound env m now (record w { pipeline = s })

-- `handleInboundPart`.
unfoldable pub handle_inbound_part : InboxEnv → InboundPart → ℕ → InboxWorld → InboxWorld
unfolding emit_complete
handle_inbound_part env part now w = emit_complete env now (assemble_inbound w.pipeline part now) w

-- The cases of the `select` of `Run`, with the time that each reads.
pub data Step : Type 0 where
  part_arrives : InboundPart → ℕ → Step
  sweep_ticks cleanup_ticks : ℕ → Step
  stops : Step

unfoldable pub step : InboxEnv → InboxWorld → Step → InboxWorld
unfolding handle_inbound_part
step env w (part_arrives part now) = handle_inbound_part env part now w
step env w (sweep_ticks now) = record w { pipeline = sweep_inbound w.pipeline now }
step env w (cleanup_ticks now) = cleanup_inbox env now w
step env w stops = record w { pipeline = abort_inbound w.pipeline }

-- `Run`.
unfoldable pub run_loop : InboxEnv → InboxWorld → List Step → InboxWorld
unfolding step
run_loop env w [] = w
run_loop env w (s ∷ ss) = run_loop env (step env w s) ss

-- The state of `NewService`, over an empty table.
abbrev pub fresh : ℕ → ℕ → InboxWorld
fresh timeout now = record {
  pipeline = record {
    groups = [];
    dedup = new_deduper;
    timeout = timeout;
    timeouts = 0;
    aborted = 0;
  };
  rows = [];
  next_id = 1;
  steps = 0;
  started_at = now;
  post_restart = true;
  emitted = [];
  metrics = record {
    stored = 0;
    store_failed = 0;
    store_conflicts = 0;
    dedupe_blocked = 0;
    skipped_post_restart = 0;
    cleaned = 0;
  };
}
