-- ===== src/Inbox/Pipeline/Reach.antt =====
-- What holds after every sequence of steps of the inbox service (internal/inbox).
use at_gateway.Prelude.{ℕ, ◌≤◌, refl, Option, none, some, List, [], ◌∷◌, length, arith, inl}
use at_gateway.Inbox.Dedupe.Bounds.{IsBounded, sweep-IsBounded}
use at_gateway.Inbox.Reassembly.{
  InboundMessage, Pipeline, max_groups, assemble_inbound, abort_inbound,
}
use at_gateway.Inbox.Reassembly.Bounds.{assemble_inbound-fits, sweep_inbound-fits}
use at_gateway.Inbox.Reassembly.Sweeps.{assemble_inbound_keeps, sweep_inbound_keeps}
use at_gateway.Inbox.Emission.{InboxEnv, InboxWorld}
use at_gateway.Inbox.Emission.Stored.{Distinct}
use at_gateway.Inbox.Emission.Tidy.{IsTidy, emit_inbound-IsTidy, cleanup_inbox-IsTidy}
use at_gateway.Inbox.Pipeline.{
  Step, part_arrives, sweep_ticks, cleanup_ticks, stops, emit_complete, handle_inbound_part, step,
  run_loop, fresh,
}

-- A new state of the reassembly within the bounds.
with_pipeline-IsTidy :
    (w : InboxWorld) (s : Pipeline)
    → length s.groups ≤ max_groups
    → IsBounded s.dedup
    → Distinct w.rows
    → IsTidy (record w { pipeline = s })
with_pipeline-IsTidy w s g d r = record { groups_fit = g; dedupe_fits = d; rows_differ = r }

emit_complete-IsTidy :
    (env : InboxEnv) (now : ℕ) (x : Option InboundMessage × Pipeline) (w : InboxWorld)
    → IsTidy (record w { pipeline = x.1 })
    → IsTidy (emit_complete env now x w)
unfolding emit_complete
emit_complete-IsTidy env now (none, s) w h = h
emit_complete-IsTidy env now (some m, s) w h =
    emit_inbound-IsTidy env m now (record w { pipeline = s }) h

step-IsTidy : (env : InboxEnv) (w : InboxWorld) (s : Step) → IsTidy w → IsTidy (step env w s)
unfolding step handle_inbound_part abort_inbound
step-IsTidy env w (part_arrives part now) h =
    let x = assemble_inbound w.pipeline part now in
    emit_complete-IsTidy env now x w (
      with_pipeline-IsTidy w x.1 (assemble_inbound-fits w.pipeline part now h.groups_fit)
        (assemble_inbound_keeps IsBounded sweep-IsBounded w.pipeline part now h.dedupe_fits)
        h.rows_differ)
step-IsTidy env w (sweep_ticks now) h = record {
  groups_fit = sweep_inbound-fits w.pipeline now h.groups_fit;
  dedupe_fits = sweep_inbound_keeps IsBounded sweep-IsBounded w.pipeline now h.dedupe_fits;
  rows_differ = h.rows_differ;
}
step-IsTidy env w (cleanup_ticks now) h = cleanup_inbox-IsTidy env now w h
step-IsTidy env w stops h = record {
  groups_fit = omega arith;
  dedupe_fits = h.dedupe_fits;
  rows_differ = h.rows_differ;
}

run_loop_keeps :
    (env : InboxEnv) (w : InboxWorld) (ss : List Step) → IsTidy w → IsTidy (run_loop env w ss)
unfolding run_loop
run_loop_keeps env w [] h = h
run_loop_keeps env w (s ∷ ss) h = run_loop_keeps env (step env w s) ss (step-IsTidy env w s h)

fresh-IsTidy : (timeout now : ℕ) → IsTidy (fresh timeout now)
fresh-IsTidy timeout now = record {
  groups_fit = omega arith;
  dedupe_fits = record { covers = λ id. inl refl; fits = omega arith; sized = refl };
  rows_differ = tt;
}

-- From the state of a new service over an empty table, after any steps of its loop in any
-- environment: at most 512 groups wait for parts, the dedupe has at most 1024 entries, which all stand
-- in its order, and no two rows of the table have the same device and message.
pub run_loop-IsTidy :
    (env : InboxEnv) (timeout now : ℕ) (ss : List Step)
    → IsTidy (run_loop env (fresh timeout now) ss)
run_loop-IsTidy env timeout now ss =
    run_loop_keeps env (fresh timeout now) ss (fresh-IsTidy timeout now)
