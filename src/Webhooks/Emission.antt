-- ===== src/Webhooks/Emission.antt =====
-- The emission of events: `emit`, `emitTracked` and `enqueue` of internal/webhooks/service.go, and the
-- emitters of internal/webhooks/events.go, events_received.go, events_data.go, events_app.go and
-- events_system.go.
pub mod Grown
pub mod Tracked
pub mod Untouched
use at_gateway.Prelude.{
  not, ℕ, suc, String, Bool, true, false, Option, none, some, List, [], ◌∷◌, map, ◌==◌, string_eq,
  if◌then◌else◌, any_where,
}
use at_gateway.Messages.Result.{Reason}
use at_gateway.Messages.World.{MessageEvent}
use at_gateway.Inbox.Emission.{InboundEvent, EnqueueResult, TrackedEmission}
use at_gateway.Webhooks.Domain.{
  WebhookEvent, event_sms_received, event_sms_data_received, event_sms_sent, event_sms_delivered,
  event_sms_failed, event_sms_cancelled, event_system_ping, event_app_started, Webhook,
  queue_pending, QueueItem, SmsEventPayload, SimCard, Payload, sent_payload, delivered_payload,
  cancelled_payload, failed_payload, received_payload, data_received_payload, app_started_payload,
  ping_payload,
}
use at_gateway.Webhooks.Queue.{insert_item}
use at_gateway.Webhooks.Registry.{select_by_event}
use at_gateway.Webhooks.World.{HookEnv, HookWorld, tick}

-- `IncEnqueued`.
abbrev pub inc_enqueued : HookWorld → HookWorld
inc_enqueued w = record w { metrics = record (w.metrics) { enqueued = suc w.metrics.enqueued } }

abbrev stored_item : Option (List QueueItem) → HookWorld → Bool × HookWorld
stored_item none w = (false, w)
stored_item (some queue) w = (true, record w { queue = queue })

-- `Repository.Enqueue`: whether the item was stored.
unfoldable pub store_item : HookEnv → QueueItem → HookWorld → Bool × HookWorld
unfolding insert_item
store_item env item w =
    if env.fault w.steps then (false, tick w) else stored_item (insert_item item w.queue) (tick w)

abbrev pub fresh_item : Webhook → String → ℕ → String → QueueItem
fresh_item hook body now id = record {
  id = id;
  webhook_id = hook.id;
  url = hook.url;
  payload = body;
  retry_count = 0;
  status = queue_pending;
  created_at = now;
  next_attempt = now;
  last_error = none;
}

-- The part of `enqueue` that follows the encoding.
enqueue_encoded : HookEnv → Webhook → ℕ → Option String → HookWorld → Bool × HookWorld
unfolding store_item
enqueue_encoded env hook now none w = (false, w)
enqueue_encoded env hook now (some body) w =
    store_item env (fresh_item hook body now (env.new_id w.steps)) (tick w)

-- `enqueue`: whether the item was stored.
unfoldable pub enqueue_hook :
    HookEnv → Webhook → WebhookEvent → Payload → ℕ → HookWorld → Bool × HookWorld
unfolding enqueue_encoded
enqueue_hook env hook event payload now w =
    enqueue_encoded env hook now
      (env.marshal (record {
        id = env.new_id w.steps;
        webhook_id = hook.id;
        event = event;
        device_id = env.local_device;
        payload = payload;
      }))
      (tick w)

abbrev count_enqueued : Bool × HookWorld → HookWorld
count_enqueued (true, w) = inc_enqueued w
count_enqueued (false, w) = w

-- The loop of `emit`.
unfoldable pub emit_to : HookEnv → WebhookEvent → Payload → ℕ → List Webhook → HookWorld → HookWorld
unfolding enqueue_hook
emit_to env event payload now [] w = w
emit_to env event payload now (hook ∷ hooks) w =
    emit_to env event payload now hooks (count_enqueued (enqueue_hook env hook event payload now w))

emit_selected : HookEnv → WebhookEvent → Payload → List Webhook → HookWorld → HookWorld
unfolding emit_to
emit_selected env event payload [] w = w
emit_selected env event payload (hook ∷ hooks) w =
    emit_to env event payload (env.now w.steps) (hook ∷ hooks) (tick w)

-- `emit`.
unfoldable pub emit : HookEnv → WebhookEvent → Payload → HookWorld → HookWorld
unfolding emit_selected select_by_event
emit env event payload w =
    if env.fault w.steps
    then tick w
    else emit_selected env event payload (select_by_event event w.registry) (tick w)

abbrev suppress : TrackedEmission × HookWorld → TrackedEmission × HookWorld
suppress (out, w) = (record out { suppressed = suc out.suppressed }, w)

abbrev verdict : Webhook → Bool → TrackedEmission × HookWorld → TrackedEmission × HookWorld
verdict hook failed (out, w) =
    (record out { results = record { webhook_id = hook.id; failed = failed } ∷ out.results }, w)

abbrev pub is_served : List String → Webhook → Bool
is_served served hook = any_where (λ id. id == hook.id) served

abbrev nothing : TrackedEmission
nothing = record { results = []; suppressed = 0 }

-- The loop of `emitTracked`.
unfoldable pub track :
    HookEnv
    → WebhookEvent
    → Payload
    → List String
    → ℕ
    → List Webhook
    → HookWorld
    → TrackedEmission × HookWorld
unfolding enqueue_hook
track env event payload served now [] w = (nothing, w)
track env event payload served now (hook ∷ hooks) w =
    let skipped = track env event payload served now hooks w in
    let stored = enqueue_hook env hook event payload now w in
    let tried = track env event payload served now hooks (count_enqueued stored) in
    if is_served served hook then suppress skipped else verdict hook (not stored.0) tried

-- `emitTracked`.
unfoldable pub emit_tracked :
    HookEnv → WebhookEvent → Payload → List String → HookWorld → TrackedEmission × HookWorld
unfolding track select_by_event
emit_tracked env event payload served w =
    if env.fault w.steps
    then (nothing, tick w)
    else track env event payload served (env.now (suc w.steps)) (select_by_event event w.registry)
        (tick (tick w))

abbrev message_payload : MessageEvent → SmsEventPayload
message_payload e = record {
  message_id = e.message_id;
  phone_number = e.phone_number;
  sender = e.sender;
  recipient = e.recipient;
  sim_number = e.sim_number;
}

-- `EmitSmsSent`.
abbrev pub emit_sms_sent : HookEnv → MessageEvent → HookWorld → HookWorld
emit_sms_sent env e = emit env event_sms_sent (sent_payload (message_payload e) e.at)

-- `EmitSmsDelivered`.
abbrev pub emit_sms_delivered : HookEnv → MessageEvent → HookWorld → HookWorld
emit_sms_delivered env e = emit env event_sms_delivered (delivered_payload (message_payload e) e.at)

-- `EmitSmsFailed`.
abbrev pub emit_sms_failed : HookEnv → MessageEvent → Reason → HookWorld → HookWorld
emit_sms_failed env e reason =
    emit env event_sms_failed (failed_payload (message_payload e) e.at reason)

-- `EmitSmsCancelled`.
abbrev pub emit_sms_cancelled : HookEnv → MessageEvent → HookWorld → HookWorld
emit_sms_cancelled env e = emit env event_sms_cancelled (cancelled_payload (message_payload e) e.at)

abbrev inbound_payload : InboundEvent → SmsEventPayload
inbound_payload e = record {
  message_id = e.message_id;
  phone_number = e.sender;
  sender = e.sender;
  recipient = e.recipient;
  sim_number = e.sim_number;
}

-- `EmitSmsReceived`.
abbrev pub emit_sms_received :
    HookEnv → InboundEvent → List String → HookWorld → TrackedEmission × HookWorld
emit_sms_received env e served =
    emit_tracked env event_sms_received (received_payload (inbound_payload e) e.message e.at) served

-- `EmitSmsDataReceived`.
abbrev pub emit_sms_data_received :
    HookEnv → InboundEvent → List String → HookWorld → TrackedEmission × HookWorld
emit_sms_data_received env e served =
    emit_tracked env event_sms_data_received
      (data_received_payload (inbound_payload e) e.data_content e.at) served

-- `SimCardInfo`.
pub record SimCardInfo : Type 0 where
  pub slot_index : ℕ
  pub sim_number : ℕ
  pub phone_number : String
  pub carrier_name : String
  pub iccid : String

-- `reported`.
abbrev reported_text : String → Option String
reported_text value = if value == "" then none else some value

-- `simCardsPayload`.
abbrev sim_card_payload : SimCardInfo → SimCard
sim_card_payload sim = record {
  slot_index = sim.slot_index;
  sim_number = sim.sim_number;
  phone_number = reported_text sim.phone_number;
  carrier_name = reported_text sim.carrier_name;
  iccid = reported_text sim.iccid;
}

-- `EmitAppStarted`.
abbrev pub emit_app_started : HookEnv → List SimCardInfo → HookWorld → HookWorld
emit_app_started env sims =
    emit env event_app_started (app_started_payload (map sim_card_payload sims))

-- `EmitSystemPing`.
abbrev pub emit_system_ping : HookEnv → HookWorld → HookWorld
emit_system_ping env = emit env event_system_ping ping_payload
