-- ===== src/Inbox/Emission.antt =====
-- The emission of an assembled message: `emitInbound` and what it calls in internal/inbox/service.go,
-- the message identity of internal/inbox/types.go and the insertion of
-- internal/inbox/repository.go. The webhooks service stands behind `InboxEnv.emit`.
pub mod Stored
pub mod Tidy
pub mod Once
use Prim.Native.String.{◌++◌ as append_text}
use at_gateway.Prelude.{
  ℕ, suc, ◌+◌, ◌-◌, String, Bool, true, false, not, ◌&&◌, Option, none, some, List, [], ◌∷◌, ◌++◌,
  ◌==◌, string_eq, nat_eq, leb, ltb, if◌then◌else◌, length, any_where, select_where,
}
use at_gateway.Inbox.Dedupe.{Deduper, served, mark, elapsed}
use at_gateway.Inbox.Reassembly.{ConcatRef, InboundMessage, Pipeline}

-- `smsgateway.IncomingMessageType` as far as it is stored.
pub data IncomingType : Type 0 where
  sms data_sms : IncomingType

-- `IncomingMessage`.
pub record IncomingMessage : Type 0 where
  pub id : String
  pub device_id : String
  pub type : IncomingType
  pub sender : String
  pub recipient : Option String
  pub sim_number : Option ℕ
  pub content : String
  pub received_at : ℕ

-- `inboxModel`: a row of the table inbox.
pub record InboxRow : Type 0 where
  pub id : ℕ
  pub message_id : String
  pub device_id : String
  pub type : IncomingType
  pub sender : String
  pub content : String
  pub recipient : Option String
  pub sim_number : Option ℕ
  pub received_at : ℕ
  pub created_at : ℕ
  pub updated_at : ℕ

-- `webhooks.InboundEvent`.
pub record InboundEvent : Type 0 where
  pub message_id : String
  pub sender : String
  pub recipient : Option String
  pub sim_number : Option ℕ
  pub message : String
  pub data_content : String
  pub at : ℕ

-- Which of the two emitters is called.
pub data EventName : Type 0 where
  sms_received sms_data_received : EventName

-- `webhooks.EnqueueResult`.
pub record EnqueueResult : Type 0 where
  pub webhook_id : String
  pub failed : Bool

-- `webhooks.TrackedEmission`.
pub record TrackedEmission : Type 0 where
  pub results : List EnqueueResult
  pub suppressed : ℕ

-- What the pipeline asks of the outside, by the number of the step.
pub record InboxEnv : Type 0 where
  pub fault : ℕ → Bool
  pub clock : ℕ → ℕ
  pub local_device : String
  pub sim_phone : ℕ → String
  -- The first half of the hex SHA-256 of a text.
  pub digest : String → String
  pub base64 : String → String
  pub itoa : ℕ → String
  pub rfc3339 : ℕ → String
  pub emit : ℕ → EventName → InboundEvent → List String → TrackedEmission
  -- `config.Retention`.
  pub retention : ℕ

-- The counters of internal/inbox/metrics.go that the emission moves.
pub record InboxMetrics : Type 0 where
  pub stored : ℕ
  pub store_failed : ℕ
  pub store_conflicts : ℕ
  pub dedupe_blocked : ℕ
  pub skipped_post_restart : ℕ
  pub cleaned : ℕ

pub record InboxWorld : Type 0 where
  pub pipeline : Pipeline
  pub rows : List InboxRow
  pub next_id : ℕ
  pub steps : ℕ
  pub started_at : ℕ
  pub post_restart : Bool
  -- Oldest first: the calls of the emitters (and of `IncInboundEvent`), with the served webhooks.
  pub emitted : List (EventName × InboundEvent × List String)
  pub metrics : InboxMetrics

-- `inboundSIMNumber`.
abbrev sim_number : ℕ
sim_number = 1

-- `strings.Join(components, inboundIDSeparator)`.
unfoldable pub join_components : List String → String
join_components [] = ""
join_components (c ∷ []) = c
join_components (c ∷ d ∷ cs) = append_text c (append_text "\u{1f}" (join_components (d ∷ cs)))

abbrev concat_component : InboxEnv → Option ConcatRef → List String
concat_component env none = []
concat_component env (some c) =
    append_text (env.itoa c.ref_width) (append_text ":" (env.itoa c.ref)) ∷ []

abbrev stamp_component : InboxEnv → InboundMessage → List String
stamp_component env m = if m.timestamp_valid then env.rfc3339 m.received_at ∷ [] else []

-- `inboundMessageID`.
unfoldable pub inbound_message_id : InboxEnv → InboundMessage → String
unfolding join_components
inbound_message_id env m = env.digest (
    join_components (
      stamp_component env m
      ++ m.sender ∷ m.content ∷ env.itoa m.port ∷ concat_component env m.concat))

-- `inboundContent`.
abbrev pub inbound_content : InboxEnv → InboundMessage → String
inbound_content env m = if m.ported then env.base64 m.content else m.content

-- `inboundMessageType`.
abbrev pub inbound_message_type : InboundMessage → IncomingType
inbound_message_type m = if m.ported then data_sms else sms

abbrev pub same_message : InboxRow → InboxRow → Bool
same_message row r = r.device_id == row.device_id && r.message_id == row.message_id

-- `newInboundModel`.
abbrev pub new_inbound_model : IncomingMessage → ℕ → InboxRow
new_inbound_model m now = record {
  id = 0;
  message_id = m.id;
  device_id = m.device_id;
  type = m.type;
  sender = m.sender;
  content = m.content;
  recipient = m.recipient;
  sim_number = m.sim_number;
  received_at = m.received_at;
  created_at = now;
  updated_at = now;
}

-- `Repository.Insert` on the table: the new table, and whether a row was written.
-- SQLite spends the next AUTOINCREMENT id on a conflict as well (`stored_row`).
unfoldable pub insert_row : InboxRow → ℕ → List InboxRow → List InboxRow × Bool
insert_row row next rows =
    if any_where (same_message row) rows
    then (rows, false)
    else (rows ++ record row { id = next } ∷ [], true)

abbrev stored_row : List InboxRow × Bool → InboxWorld → InboxWorld
stored_row (rows, true) w = record w {
  rows = rows;
  next_id = suc w.next_id;
  metrics = record (w.metrics) { stored = suc w.metrics.stored };
}
stored_row (rows, false) w = record w {
  next_id = suc w.next_id;
  metrics = record (w.metrics) { store_conflicts = suc w.metrics.store_conflicts };
}

-- `persistInbound`: a fault of the driver (or the timeout) is counted.
unfoldable pub persist_inbound : InboxEnv → IncomingMessage → InboxWorld → InboxWorld
unfolding insert_row
persist_inbound env m w =
    let next = record w { steps = suc w.steps } in
    if env.fault w.steps
    then record next { metrics = record (w.metrics) { store_failed = suc w.metrics.store_failed } }
    else stored_row (insert_row (new_inbound_model m (env.clock w.steps)) w.next_id w.rows) next

-- The marking loop of `emitInbound`: the webhooks whose queue item was stored.
unfoldable pub mark_results : List EnqueueResult → String → ℕ → Deduper → Deduper
mark_results [] id now d = d
mark_results (r ∷ rs) id now d =
    mark_results rs id now (if r.failed then d else mark d id r.webhook_id now)

-- `countPostRestartEmission`.
unfoldable pub count_post_restart : ℕ → ℕ → ℕ → InboxWorld → InboxWorld
count_post_restart emitted suppressed now w =
    if not w.post_restart
    then w
    else (if elapsed w.started_at w.pipeline.timeout now
        then record w { post_restart = false }
        else (if ltb 0 emitted && suppressed == 0
            then record w {
              metrics = record (w.metrics) {
                skipped_post_restart = suc w.metrics.skipped_post_restart;
              };
            }
            else w))

-- `lo.EmptyableToPtr`.
abbrev emptyable_to_ptr : String → Option String
emptyable_to_ptr s = if s == "" then none else some s

abbrev received_time : InboundMessage → ℕ → ℕ
received_time m now = if m.timestamp_valid then m.received_at else now

abbrev pub stored_message : InboxEnv → InboundMessage → ℕ → InboxWorld → IncomingMessage
stored_message env m now w = record {
  id = inbound_message_id env m;
  device_id = env.local_device;
  type = inbound_message_type m;
  sender = m.sender;
  recipient = emptyable_to_ptr (env.sim_phone w.steps);
  sim_number = some sim_number;
  content = inbound_content env m;
  received_at = received_time m now;
}

abbrev pub event_of : IncomingMessage → Bool → InboundEvent
event_of m ported = record {
  message_id = m.id;
  sender = m.sender;
  recipient = m.recipient;
  sim_number = m.sim_number;
  message = if ported then "" else m.content;
  data_content = if ported then m.content else "";
  at = m.received_at;
}

abbrev pub event_name : InboundMessage → EventName
event_name m = if m.ported then sms_data_received else sms_received

-- What `emitInbound` does with the answer of the emitter.
after_emission : TrackedEmission → String → ℕ → InboxWorld → InboxWorld
unfolding mark_results count_post_restart
after_emission out id now w =
    let blocked =
      if ltb 0 out.suppressed
      then record (w.metrics) { dedupe_blocked = suc w.metrics.dedupe_blocked }
      else w.metrics in
    let marked = record (w.pipeline) { dedup = mark_results out.results id now w.pipeline.dedup } in
    count_post_restart (length out.results) out.suppressed now
      (record w { metrics = blocked; pipeline = marked })

-- `emitInbound`.
unfoldable pub emit_inbound : InboxEnv → InboundMessage → ℕ → InboxWorld → InboxWorld
unfolding persist_inbound inbound_message_id after_emission
emit_inbound env m now w =
    let id = inbound_message_id env m in
    let known = served w.pipeline.dedup id now in
    let stored = stored_message env m now w in
    let kept = persist_inbound env stored w in
    let event = event_of stored m.ported in
    let out = env.emit kept.steps (event_name m) event known in
    after_emission out id now (record kept {
      steps = suc kept.steps;
      emitted = kept.emitted ++ (event_name m, event, known) ∷ [];
    })

-- `Repository.DeleteOlderThan`, with the cutoff of `cleanupInbox`.
abbrev pub is_recent : ℕ → ℕ → InboxRow → Bool
is_recent retention now r = leb now (r.received_at + retention)

-- `cleanupInbox`.
unfoldable pub cleanup_inbox : InboxEnv → ℕ → InboxWorld → InboxWorld
cleanup_inbox env now w =
    let rows = select_where (is_recent env.retention now) w.rows in
    if env.fault w.steps then record w { steps = suc w.steps } else record w {
      steps = suc w.steps;
      rows = rows;
      metrics = record (w.metrics) { cleaned = w.metrics.cleaned + (length w.rows - length rows) };
    }
