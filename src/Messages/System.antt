-- ===== src/Messages/System.antt =====
-- Any sequence of requests and worker turns of the messages component (internal/messages), in any
-- environment. The background worker and the requests are serialised here, as the service serialises
-- its database work; each turn may meet any schedule of faults.
pub mod Reach
use at_gateway.Prelude.{String, Bool, List, [], ◌∷◌}
use at_gateway.Messages.Domain.{MessageInput}
use at_gateway.Messages.Rows.{Db}
use at_gateway.Messages.World.{Env, World}
use at_gateway.Messages.Intake.{enqueue, cancel_message}
use at_gateway.Messages.Worker.{DeliveryReport, process_pending, handle_delivery_report}

-- `Enqueue` with its options, `Cancel`, a tick of the poll ticker, a delivery report.
pub data Turn : Type 0 where
  enqueues : MessageInput → Bool → Turn
  cancels : String → Turn
  polls : Turn
  reports : DeliveryReport → Turn

-- The world after a turn.
unfoldable pub turn : Env → World → Turn → World
turn env w (enqueues input skip) = (enqueue env input skip w).1
turn env w (cancels id) = (cancel_message env id w).1
turn env w polls = (process_pending env w).1
turn env w (reports report) = (handle_delivery_report env report w).1

unfoldable pub run : Env → World → List Turn → World
unfolding turn
run env w [] = w
run env w (t ∷ ts) = run env (turn env w t) ts

-- A fresh database, before anything has happened.
abbrev pub start : World
start = record {
  db = record { messages = []; recipients = []; next_message_id = 1; next_recipient_id = 1 };
  steps = 0;
  sends = [];
  events = [];
  metrics = record { enqueued = 0; sent = 0; delivered = 0; failed = 0; cancelled = 0 };
}
