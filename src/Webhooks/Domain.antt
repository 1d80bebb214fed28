-- ===== src/Webhooks/Domain.antt =====
-- Values of the webhooks component: internal/webhooks/domain.go, models.go and errors.go, and the
-- payloads that internal/webhooks/events.go and its siblings build.
use at_gateway.Prelude.{
  ℕ, String, ◌≡◌, ◌↔◌, Bool, true, false, Option, List, arith, HasTest, ◌==◌, ==_iff, string_eq,
}
use at_gateway.Messages.Result.{Reason}

-- The constants of `smsgateway.WebhookEvent` that the code names; `other_event` is any other text.
pub data WebhookEvent : Type 0 where
  event_sms_received event_sms_data_received event_sms_sent event_sms_delivered : WebhookEvent
  event_sms_failed event_sms_cancelled event_system_ping event_app_started : WebhookEvent
  other_event : String → WebhookEvent

abbrev event_test : WebhookEvent → WebhookEvent → Bool
event_test event_sms_received event_sms_received = true
event_test event_sms_data_received event_sms_data_received = true
event_test event_sms_sent event_sms_sent = true
event_test event_sms_delivered event_sms_delivered = true
event_test event_sms_failed event_sms_failed = true
event_test event_sms_cancelled event_sms_cancelled = true
event_test event_system_ping event_system_ping = true
event_test event_app_started event_app_started = true
event_test (other_event s) (other_event t) = s == t
event_test _ _ = false

pub event_test_iff : (a b : WebhookEvent) → (event_test a b ≡ true) ↔ (a ≡ b)
event_test_iff (other_event s) (other_event t) = ground (arith, ==_iff s t)
event_test_iff event_sms_received b = ground arith
event_test_iff a b = ground arith

instance abbrev pub event_eq : HasTest WebhookEvent
event_eq = record { test = event_test; test_iff = event_test_iff }

-- `Webhook`.
pub record Webhook : Type 0 where
  pub id : String
  pub device_id : Option String
  pub url : String
  pub event : WebhookEvent

-- `webhookModel`: a row of the table webhooks.
pub record WebhookRow : Type 0 where
  pub id : ℕ
  pub ext_id : String
  pub device_id : Option String
  pub url : String
  pub event : WebhookEvent
  pub created_at : ℕ
  pub updated_at : ℕ

-- `newWebhookModel`.
abbrev pub new_webhook_model : Webhook → ℕ → WebhookRow
new_webhook_model w now = record {
  id = 0;
  ext_id = w.id;
  device_id = w.device_id;
  url = w.url;
  event = w.event;
  created_at = now;
  updated_at = now;
}

-- `webhookModel.toDomain`.
abbrev pub webhook_to_domain : WebhookRow → Webhook
webhook_to_domain m = record {
  id = m.ext_id;
  device_id = m.device_id;
  url = m.url;
  event = m.event;
}

-- `QueueStatus`.
pub data QueueStatus : Type 0 where
  queue_pending queue_processing queue_completed queue_failed queue_permanently_failed : QueueStatus

abbrev status_test : QueueStatus → QueueStatus → Bool
status_test queue_pending queue_pending = true
status_test queue_processing queue_processing = true
status_test queue_completed queue_completed = true
status_test queue_failed queue_failed = true
status_test queue_permanently_failed queue_permanently_failed = true
status_test _ _ = false

pub status_test_iff : (a b : QueueStatus) → (status_test a b ≡ true) ↔ (a ≡ b)
status_test_iff queue_pending b = ground arith
status_test_iff a b = ground arith

instance abbrev pub status_eq : HasTest QueueStatus
status_eq = record { test = status_test; test_iff = status_test_iff }

-- Why a delivery failed: the text of the last_error column.
pub data DeliveryError : Type 0 where
  bad_request post_failed : String → DeliveryError
  bad_status : ℕ → DeliveryError

-- `QueueItem`, and with the same fields `queueItemModel`, a row of the table webhook_queue.
pub record QueueItem : Type 0 where
  pub id : String
  pub webhook_id : String
  pub url : String
  pub payload : String
  pub retry_count : ℕ
  pub status : QueueStatus
  pub created_at : ℕ
  pub next_attempt : ℕ
  pub last_error : Option DeliveryError

-- `smsgateway.SmsEventPayload`.
pub record SmsEventPayload : Type 0 where
  pub message_id : String
  pub phone_number : String
  pub sender : String
  pub recipient : Option String
  pub sim_number : Option ℕ

-- `smsgateway.SimCard` as the payload of app:started holds it.
pub record SimCard : Type 0 where
  pub slot_index : ℕ
  pub sim_number : ℕ
  pub phone_number : Option String
  pub carrier_name : Option String
  pub iccid : Option String

-- The payloads of the emitters, with their times.
pub data Payload : Type 0 where
  sent_payload delivered_payload cancelled_payload : SmsEventPayload → ℕ → Payload
  failed_payload : SmsEventPayload → ℕ → Reason → Payload
  received_payload data_received_payload : SmsEventPayload → String → ℕ → Payload
  app_started_payload : List SimCard → Payload
  ping_payload : Payload

-- `eventEnvelope`.
pub record EventEnvelope : Type 0 where
  pub id : String
  pub webhook_id : String
  pub event : WebhookEvent
  pub device_id : String
  pub payload : Payload

-- The errors that callers tell apart.
pub data HookError : Type 0 where
  invalid_event hook_device_not_found hook_database : HookError
