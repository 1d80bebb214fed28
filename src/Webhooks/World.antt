-- ===== src/Webhooks/World.antt =====
-- What the webhooks service acts on: its tables, the clock, the id generator, JSON, HMAC and the HTTP
-- client. Every answer of the outside is a function of the number of the step at which it is asked.
use at_gateway.Prelude.{ℕ, suc, String, Bool, true, false, Option, List, if◌then◌else◌}
use at_gateway.Webhooks.Domain.{WebhookEvent, EventEnvelope, QueueItem}
use at_gateway.Webhooks.Registry.{Registry}

-- One HTTP request of `deliver`.
pub record PostCall : Type 0 where
  pub url : String
  pub body : String
  pub timestamp : String
  pub signature : String

-- How the request ends: it cannot be built, it fails, or it is answered with a status code.
pub data PostAnswer : Type 0 where
  not_built transport_error : String → PostAnswer
  answered : ℕ → PostAnswer

-- `Config` and `QueueConfig`, as far as the service reads them, and the outside.
pub record HookEnv : Type 0 where
  -- Whether the driver reports an error for the statement of a step.
  pub fault : ℕ → Bool
  pub now : ℕ → ℕ
  -- `gonanoid.Must()`.
  pub new_id : ℕ → String
  -- `ctx.Err() != nil`.
  pub cancelled : ℕ → Bool
  pub local_device : String
  -- `smsgateway.IsValidWebhookEvent`.
  pub is_valid_event : WebhookEvent → Bool
  -- `json.Marshal`.
  pub marshal : EventEnvelope → Option String
  -- `strconv.FormatInt(time.Unix(), 10)` of an instant.
  pub unix_text : ℕ → String
  -- Key, body and timestamp: the hex HMAC-SHA-256 of body and timestamp.
  pub hmac : String → String → String → String
  pub post : ℕ → PostCall → PostAnswer
  pub retry_count : ℕ
  -- The 64 bits of a `time.Duration`.
  pub retry_base_delay : ℕ
  pub batch_size : ℕ
  pub stuck_timeout : ℕ
  pub cleanup_retention : ℕ

-- `Metrics`.
pub record HookMetrics : Type 0 where
  pub enqueued : ℕ
  pub delivered : ℕ
  pub failed : ℕ
  pub permanently_failed : ℕ

pub record HookWorld : Type 0 where
  pub registry : Registry
  pub queue : List QueueItem
  pub steps : ℕ
  -- Oldest first.
  pub posts : List PostCall
  pub metrics : HookMetrics

abbrev pub tick : HookWorld → HookWorld
tick w = record w { steps = suc w.steps }

-- A statement on the queue: whether it was executed, and the world after it.
unfoldable pub on_queue : HookEnv → (List QueueItem → List QueueItem) → HookWorld → Bool × HookWorld
on_queue env f w =
    if env.fault w.steps then (false, tick w) else (true, record (tick w) { queue = f w.queue })
