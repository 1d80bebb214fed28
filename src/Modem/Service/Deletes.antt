-- ===== src/Modem/Service/Deletes.antt =====
-- Why an entry of the message store is deleted: internal/modem/service.go.
use at_gateway.Prelude.{
  ℕ, zero, suc, ◌-◌, ◌≤◌, ◌≡◌, ◌⊎◌, String, Bool, true, false, Option, none, some, List, [], ◌∷◌,
  ◌++◌, length,
}
use at_gateway.Inbox.Reassembly.{InboundPart}
use at_gateway.Modem.Domain.{ModemWorld, Result, done, failed}
use at_gateway.Modem.Store.{stored_memory_id}
use at_gateway.Modem.Commands.Erases.{deletions}
use at_gateway.Modem.Inbound.{decode_inbound_sms}
use at_gateway.Modem.Budget.{StoredRef, spend_channel_full}
use at_gateway.Modem.Service.{
  decode_failed, channel_full_exhausted, RouteEnv, Intake, memory_or_zero,
}

-- So many deletions of an entry, on top of those before.
pub erased : String → ℕ → ℕ → List (String × ℕ) → List (String × ℕ)
erased mem index zero ds = ds
erased mem index (suc k) ds = (mem, index) ∷ erased mem index k ds

-- The deletions that were sent between two states are of one entry, and at most so many.
abbrev pub Erases : String → ℕ → ℕ → ModemWorld → ModemWorld → Type 0
Erases mem index most w v =
    (k : ℕ) × (k ≤ most) × (deletions v.wire ≡ erased mem index k (deletions w.wire))

-- The attempts of `deleteStoredMessage`: the configured number, and at least one.
abbrev pub attempts : RouteEnv → ℕ
attempts route = suc (route.retry_attempts - 1)

-- The reference under which the budget of an entry is kept.
abbrev pub slot : String → ℕ → StoredRef
slot mem index = record { memory = memory_or_zero (stored_memory_id mem); index = index }

-- What may have become of a store entry that decodes to a part or not. It is kept, and then it does not
-- decode, or the channel is full and its retry budget is not spent at the time; its part went into
-- the channel; the channel is full and its retry budget is spent; or the sweep found it undecodable. Only in the last three cases deletions are sent.
pub data Fate (route : RouteEnv) (mem : String) (index : ℕ) (sweeping : Bool) (now : ℕ)
    (decoded : Option InboundPart) (s t : Intake) : Type 0 where
  is_kept :
      ((decoded ≡ none)
        ⊎ ((64 ≤ length s.inbound)
            × ((spend_channel_full (slot mem index) now s.budgets).0 ≡ true)))
      → t.inbound ≡ s.inbound
      → deletions t.connection.wire ≡ deletions s.connection.wire
      → Fate route mem index sweeping now decoded s t
  is_taken :
      {part : InboundPart}
      → decoded ≡ some part
      → t.inbound ≡ s.inbound ++ part ∷ []
      → Erases mem index (attempts route) s.connection t.connection
      → Fate route mem index sweeping now decoded s t
  is_given_up :
      64 ≤ length s.inbound
      → (spend_channel_full (slot mem index) now s.budgets).0 ≡ false
      → t.drops ≡ channel_full_exhausted ∷ s.drops
      → Erases mem index (attempts route) s.connection t.connection
      → Fate route mem index sweeping now decoded s t
  is_unreadable :
      sweeping ≡ true
      → decoded ≡ none
      → t.drops ≡ decode_failed ∷ s.drops
      → Erases mem index (attempts route) s.connection t.connection
      → Fate route mem index sweeping now decoded s t

-- What the answer of a read decodes to.
abbrev pub decoded_part : RouteEnv → Result String → Option InboundPart
decoded_part route (failed e) = none
decoded_part route (done pdu) = decode_inbound_sms (route.unmarshal pdu)
