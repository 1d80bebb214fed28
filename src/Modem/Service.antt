-- ===== src/Modem/Service.antt =====
-- The inbound route of the modem service: store entry, decoding, hand-off and deletion, as
-- internal/modem/service.go does it. The consumer of the channel is not modelled, so a channel that is
-- full at one step may have room at the next: the states between two operations are arbitrary.
pub mod Deletes
use at_gateway.Prelude.{
  ℕ, zero, suc, ◌-◌, String, Bool, true, false, not, Option, none, some, List, [], ◌∷◌, ◌++◌, ◌==◌,
  string_eq, ltb, if◌then◌else◌, length, any_where,
}
use at_gateway.Inbox.Reassembly.{InboundPart}
use at_gateway.Modem.Domain.{ModemEnv, ModemWorld, ModemError, Result, done, failed, next_step}
use at_gateway.Modem.Store.{
  stored_memory_id, parse_stored_reference, read_stored_message, delete_stored_message,
  list_stored_messages,
}
use at_gateway.Modem.Inbound.{Deliver, decode_inbound_sms}
use at_gateway.Modem.Budget.{
  StoredRef, Budgets, sweep_budgets, spend_channel_full, forget_channel_full,
}

-- The labels of at_gateway_modem_inbound_parts_dropped_total.
pub data DropReason : Type 0 where
  malformed_head not_connected handler_saturated read_failed decode_failed : DropReason
  channel_full channel_full_exhausted handler_panic : DropReason

-- `inboundHandoff`.
pub data Handoff : Type 0 where
  handoff_delivered handoff_retry handoff_dropped : Handoff

-- The outside of the route, with the configured number of deletion attempts.
pub record RouteEnv : Type 0 where
  -- `time.Now()`.
  pub now : ℕ → ℕ
  -- `pdumode.UnmarshalHexString` and `sms.Unmarshal`.
  pub unmarshal : String → Option Deliver
  pub retry_attempts : ℕ

-- The part of `Service` that the route acts on.
pub record Intake : Type 0 where
  pub connection : ModemWorld
  -- `inboundParts`, oldest first.
  pub inbound : List InboundPart
  pub budgets : Budgets
  pub memories : List String
  -- Newest first.
  pub drops : List DropReason
  pub store_failures : ℕ
  pub store_sweeps : ℕ

abbrev count_drop : DropReason → Intake → Intake
count_drop r s = record s { drops = r ∷ s.drops }

-- `setStoreMemory`.
unfoldable pub set_store_memory : String → List String → List String
set_store_memory mem memories =
    if any_where (λ m. m == mem) memories then memories else memories ++ mem ∷ []

-- `trackedStoreMemories`.
abbrev pub tracked_store_memories : List String → List String
tracked_store_memories [] = "SM" ∷ []
tracked_store_memories (mem ∷ memories) = mem ∷ memories

abbrev refused_handoff : Bool × Budgets → Intake → Handoff × Intake
refused_handoff (true, m) s =
    (handoff_retry, record s { budgets = m; drops = channel_full ∷ s.drops })
refused_handoff (false, m) s =
    (handoff_dropped, record s { budgets = m; drops = channel_full_exhausted ∷ s.drops })

-- `handOffInboundPart`.
unfoldable pub hand_off_inbound_part : StoredRef → InboundPart → ℕ → Intake → Handoff × Intake
unfolding spend_channel_full forget_channel_full
hand_off_inbound_part ref part now s =
    if ltb (length s.inbound) 64
    then (
      handoff_delivered,
      record s { inbound = s.inbound ++ part ∷ []; budgets = forget_channel_full ref s.budgets },
    )
    else refused_handoff (spend_channel_full ref now s.budgets) s

abbrev pub memory_or_zero : Option ℕ → ℕ
memory_or_zero none = 0
memory_or_zero (some n) = n

deletion_over : Option ModemError × ModemWorld → Intake → Intake
deletion_over (none, w) s = record s { connection = w }
deletion_over (some e, w) s = record s { connection = w; store_failures = suc s.store_failures }

module _ {Tpdu : Type 0} (env : ModemEnv Tpdu) (route : RouteEnv) where
  retry_deletion : String → ℕ → ℕ → Option ModemError × ModemWorld → Option ModemError × ModemWorld
  unfolding delete_stored_message
  retry_deletion mem index n (none, w) = (none, w)
  retry_deletion mem index zero (some e, w) = (some e, w)
  retry_deletion mem index (suc n) (some e, w) =
      retry_deletion mem index n (delete_stored_message env mem index w)

  -- `deleteStoredMessage`, which `deleteStoredEntry` calls; the sleeps between the attempts are left out.
  unfoldable pub delete_stored_entry : String → ℕ → Intake → Intake
  unfolding delete_stored_message retry_deletion deletion_over
  delete_stored_entry mem index s =
      deletion_over
        (retry_deletion mem index (route.retry_attempts - 1)
          (delete_stored_message env mem index s.connection))
        s

  after_handoff : String → ℕ → Handoff × Intake → Intake
  unfolding delete_stored_entry
  after_handoff mem index (handoff_retry, s) = s
  after_handoff mem index (h, s) = delete_stored_entry mem index s

  route_part : String → ℕ → Bool → Option InboundPart → Intake → Intake
  unfolding delete_stored_entry after_handoff hand_off_inbound_part stored_memory_id
  route_part mem index delete_undecodable none s =
      let dropped = count_drop decode_failed s in
      if delete_undecodable then delete_stored_entry mem index dropped else dropped
  route_part mem index delete_undecodable (some part) s = after_handoff mem index (
      hand_off_inbound_part
        (record { memory = memory_or_zero (stored_memory_id mem); index = index }) part
        (route.now s.connection.steps) (record s { connection = next_step s.connection }))

  route_pdu : String → ℕ → Bool → Result String × ModemWorld → Intake → Intake
  unfolding route_part decode_inbound_sms
  route_pdu mem index delete_undecodable (failed e, w) s =
      count_drop read_failed (record s { connection = w })
  route_pdu mem index delete_undecodable (done pdu, w) s =
      route_part mem index delete_undecodable (decode_inbound_sms (route.unmarshal pdu))
        (record s { connection = w })

  -- `processStoredEntry`.
  unfoldable pub process_stored_entry : String → ℕ → Bool → Intake → Intake
  unfolding read_stored_message route_pdu
  process_stored_entry mem index delete_undecodable s =
      route_pdu mem index delete_undecodable (read_stored_message env mem index s.connection) s

  route_reference : Bool → Bool → Result (String × ℕ) → Intake → Intake
  unfolding set_store_memory process_stored_entry
  route_reference slot connected (failed e) s = count_drop malformed_head s
  route_reference slot connected (done (mem, index)) s =
      let known = record s { memories = set_store_memory mem s.memories } in
      if slot
      then if connected
        then process_stored_entry mem index false known
        else count_drop not_connected known
      else count_drop handler_saturated known

  -- `handleCMTI`: whether one of the four slots is free, whether there is a connection, and the lines.
  unfoldable pub handle_cmti : Bool → Bool → List String → Intake → Intake
  unfolding route_reference parse_stored_reference
  handle_cmti slot connected [] s = count_drop malformed_head s
  handle_cmti slot connected (head ∷ lines) s =
      route_reference slot connected (parse_stored_reference head) s

  -- The entries of one store, until the context is done. A context that is done stays so, so the check
  -- before the next store ends the sweep.
  sweep_entries : String → List ℕ → Intake → Intake
  unfolding process_stored_entry
  sweep_entries mem [] s = s
  sweep_entries mem (index ∷ indices) s =
      let ticked = record s { connection = next_step s.connection } in
      let rest = sweep_entries mem indices (process_stored_entry mem index true ticked) in
      if env.cancelled s.connection.steps then ticked else rest

  sweep_listed : String → Bool → Result (List ℕ) × ModemWorld → Intake → Bool × Intake
  unfolding sweep_entries
  sweep_listed mem recovered (failed e, w) s = (recovered, record s { connection = w })
  sweep_listed mem recovered (done [], w) s = (recovered, record s { connection = w })
  sweep_listed mem recovered (done (index ∷ indices), w) s =
      let counted : Intake = record s {
        connection = w;
        store_sweeps = if recovered then s.store_sweeps else suc s.store_sweeps;
      } in
      (true, sweep_entries mem (index ∷ indices) counted)

  sweep_memories : List String → Bool × Intake → Bool × Intake
  unfolding sweep_listed list_stored_messages
  sweep_memories [] (recovered, s) = (recovered, s)
  sweep_memories (mem ∷ memories) (recovered, s) =
      let ticked = record s { connection = next_step s.connection } in
      let rest =
        sweep_memories memories
          (sweep_listed mem recovered (list_stored_messages env mem ticked.connection) ticked) in
      if env.cancelled s.connection.steps then (recovered, ticked) else rest

  -- `sweepStore` on a connection.
  unfoldable pub sweep_store : Intake → Intake
  unfolding sweep_memories
  sweep_store s =
      let ticked = record s { connection = next_step s.connection } in
      if env.cancelled s.connection.steps
      then ticked
      else (sweep_memories (tracked_store_memories s.memories) (false, ticked)).1
