-- ===== src/Messages/System/Reach.antt =====
-- What holds after every sequence of turns of the messages component.
use at_gateway.Prelude.{List, [], ◌∷◌}
use at_gateway.Messages.Rows.{Db}
use at_gateway.Messages.Statements.Kept.{KeptByUpdates}
use at_gateway.Messages.Statements.Sound.{IsSound, IsSound-kept}
use at_gateway.Messages.Statements.History.{Grows, Grows-refl, Grows-kept}
use at_gateway.Messages.World.{Env, World}
use at_gateway.Messages.World.Keeps.{Keeps-run}
use at_gateway.Messages.Intake.{enqueue, cancel_message}
use at_gateway.Messages.Intake.Kept.{enqueue-Keeps, cancel_message-Keeps}
use at_gateway.Messages.Worker.Kept.{process_pending_keeps, handle_delivery_report_keeps}
use at_gateway.Messages.System.{Turn, enqueues, cancels, polls, reports, turn, run, start}

module _ (P : Db → Type 0) (k : KeptByUpdates P) (env : Env) where
  turn_keeps : (w : World) (t : Turn) → P w.db → P (turn env w t).db
  unfolding turn
  turn_keeps w (enqueues input skip) h =
      Keeps-run P (enqueue env input skip) (enqueue-Keeps P k env input skip) w h
  turn_keeps w (cancels id) h =
      Keeps-run P (cancel_message env id) (cancel_message-Keeps P k env id) w h
  turn_keeps w polls h = process_pending_keeps P k env w h
  turn_keeps w (reports r) h = handle_delivery_report_keeps P k env r w h

  run_keeps : (w : World) (ts : List Turn) → P w.db → P (run env w ts).db
  unfolding run
  run_keeps w [] h = h
  run_keeps w (t ∷ ts) h = run_keeps (turn env w t) ts (turn_keeps w t h)

start-IsSound : IsSound start.db
start-IsSound = record { synced = tt; known = tt; message_order = tt; recipient_order = tt }

-- From a fresh database, after any turns in any environment (any driver faults, clock readings and
-- modem answers): the state column of every message is the state of its newest history entry, every
-- recipient has a history that ends in a state the gateway knows, and the ids of both tables ascend
-- below the next id.
pub run-IsSound : (env : Env) (ts : List Turn) → IsSound (run env start ts).db
run-IsSound env ts = run_keeps IsSound IsSound-kept env start ts start-IsSound

-- From any world, after any turns in any environment: every message row and every recipient row is
-- still there at its place with its id, a message keeps its ext_id and content, and every history is
-- the earlier one with entries added at its end.
pub run-Grows : (env : Env) (w : World) (ts : List Turn) → Grows w.db (run env w ts).db
run-Grows env w ts = run_keeps (Grows w.db) (Grows-kept w.db) env w ts (Grows-refl w.db)
