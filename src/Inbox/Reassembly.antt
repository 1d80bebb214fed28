-- ===== src/Inbox/Reassembly.antt =====
-- The reassembly of concatenated messages: `assembleInbound` and the group functions of
-- internal/inbox/service.go, with the parts of internal/modem/inbound.go.
pub mod Bounds
pub mod Complete
pub mod Order
pub mod Progress
pub mod Sweeps
use Prim.Native.String.{◌++◌ as append_text}
use at_gateway.Prelude.{
  ℕ, zero, suc, ◌+◌, String, ◌≡◌, refl, ◌↔◌, Bool, true, false, ◌&&◌, Option, none, some, List, [],
  ◌∷◌, ◌++◌, HasTest, ◌==◌, ==_iff, nat_eq, string_eq, arith, leb, ltb, if◌then◌else◌, length,
  select_where, find_key, put_key, drop_key,
}
use at_gateway.Inbox.Dedupe.{Deduper, sweep, elapsed}

-- `modem.ConcatRef`.
pub record ConcatRef : Type 0 where
  pub segments : ℕ
  pub sequence : ℕ
  pub ref : ℕ
  pub ref_width : ℕ

-- `modem.InboundPart`.
pub record InboundPart : Type 0 where
  pub sender : String
  pub received_at : ℕ
  pub timestamp_valid : Bool
  pub content : String
  pub port : ℕ
  pub ported : Bool
  pub concat : Option ConcatRef

-- `inboundKey`.
pub record InboundKey : Type 0 where
  pub sender : String
  pub ref_width : ℕ
  pub ref : ℕ

abbrev key_beq : InboundKey → InboundKey → Bool
key_beq a b = a.sender == b.sender && a.ref_width == b.ref_width && a.ref == b.ref

pub key_beq_iff : (a b : InboundKey) → (key_beq a b ≡ true) ↔ (a ≡ b)
key_beq_iff a b =
    ground (arith, ==_iff a.sender b.sender, ==_iff a.ref_width b.ref_width, ==_iff a.ref b.ref)

instance abbrev pub key_eq : HasTest InboundKey
key_eq = record { test = key_beq; test_iff = key_beq_iff }

-- `inboundGroup`.
pub record InboundGroup : Type 0 where
  pub segments : ℕ
  pub first_at : ℕ
  pub parts : List (ℕ × InboundPart)

-- `inboundMessage`.
pub record InboundMessage : Type 0 where
  pub sender : String
  pub content : String
  pub ported : Bool
  pub port : ℕ
  pub received_at : ℕ
  pub timestamp_valid : Bool
  pub concat : Option ConcatRef

abbrev pub Groups : Type 0
Groups = List (InboundKey × InboundGroup)

-- The state of `Service` that the reassembly acts on.
pub record Pipeline : Type 0 where
  pub groups : Groups
  pub dedup : Deduper
  -- `config.ReassemblyTimeout`.
  pub timeout : ℕ
  -- The counters of `IncReassemblyTimeout` and `IncReassemblyAborted`.
  pub timeouts : ℕ
  pub aborted : ℕ

-- `inboundMaxGroups`.
abbrev pub max_groups : ℕ
max_groups = 512

abbrev pub message_of : InboundPart → String → InboundMessage
message_of first body = record {
  sender = first.sender;
  content = body;
  ported = first.ported;
  port = first.port;
  received_at = first.received_at;
  timestamp_valid = first.timestamp_valid;
  concat = first.concat;
}

abbrev drop_counted : Groups × ℕ → Groups × ℕ
drop_counted (groups, n) = (groups, suc n)

abbrev keep_group : InboundKey × InboundGroup → Groups × ℕ → Groups × ℕ
keep_group kg (groups, n) = (kg ∷ groups, n)

-- The loop of `sweepInbound`: the groups that stay, and how many timed out.
unfoldable pub live_groups : ℕ → ℕ → Groups → Groups × ℕ
live_groups timeout now [] = ([], 0)
live_groups timeout now ((key, g) ∷ groups) =
    let rest = live_groups timeout now groups in
    if elapsed g.first_at timeout now then drop_counted rest else keep_group (key, g) rest

-- `sweepInbound`.
unfoldable pub sweep_inbound : Pipeline → ℕ → Pipeline
unfolding live_groups
sweep_inbound s now =
    let (groups, n) = live_groups s.timeout now s.groups in
    record s { groups = groups; timeouts = s.timeouts + n; dedup = sweep s.dedup now }

-- The loop of `evictOldestInboundGroup`; the first of equally old groups stays the candidate.
unfoldable pub oldest_group : Option (InboundKey × ℕ) → Groups → Option (InboundKey × ℕ)
oldest_group found [] = found
oldest_group none ((key, g) ∷ groups) = oldest_group (some (key, g.first_at)) groups
oldest_group (some (k, at)) ((key, g) ∷ groups) =
    oldest_group (if ltb g.first_at at then some (key, g.first_at) else some (k, at)) groups

evict_found : Option (InboundKey × ℕ) → Pipeline → Pipeline
evict_found none s = s
evict_found (some (key, at)) s = record s {
  groups = drop_key key s.groups;
  timeouts = suc s.timeouts;
}

-- `evictOldestInboundGroup`.
unfoldable pub evict_oldest_group : Pipeline → Pipeline
unfolding oldest_group evict_found
evict_oldest_group s = evict_found (oldest_group none s.groups) s

abbrev is_full : Pipeline → Bool
is_full s = leb max_groups (length s.groups)

-- The state after `newInboundGroup`, which returns an empty group.
unfoldable pub make_room : Pipeline → ℕ → Pipeline
unfolding sweep_inbound evict_oldest_group
make_room s now =
    let swept = if is_full s then sweep_inbound s now else s in
    if is_full swept then evict_oldest_group swept else swept

abbrev pub empty_group : ℕ → ℕ → InboundGroup
empty_group segments now = record { segments = segments; first_at = now; parts = [] }

-- The `switch` of `assembleInbound`: the group of a key, and the state that a new group leaves.
abbrev restart_group : Pipeline → ConcatRef → ℕ → InboundGroup × Pipeline
restart_group s c now = (empty_group c.segments now, make_room s now)

unfoldable pub group_for : Pipeline → ConcatRef → ℕ → Option InboundGroup → InboundGroup × Pipeline
unfolding make_room
group_for s c now none = restart_group s c now
group_for s c now (some g) = if g.segments == c.segments then (g, s) else restart_group s c now

-- The loop over the sequence numbers, from one of them on: the joined contents, if no part is missing.
unfoldable pub joined_parts : ℕ → ℕ → List (ℕ × InboundPart) → Option String
joined_parts sequence zero parts = some ""
joined_parts sequence (suc n) parts =
    let rest = joined_parts (suc sequence) n parts in
    elim (find_key sequence parts) [
      | none ↦ none
      | some p ↦ elim rest [ none ↦ none | some text ↦ some (append_text p.content text) ]
    ]

abbrev finished :
    InboundKey → Pipeline → Option String → Option InboundPart → Option InboundMessage × Pipeline
finished key s none first = (none, s)
finished key s (some body) none = (none, s)
finished key s (some body) (some first) =
    (some (message_of first body), record s { groups = drop_key key s.groups })

-- The part stored in its group: the group is complete or waits.
unfoldable pub complete_group :
    InboundKey → InboundGroup → Pipeline → Option InboundMessage × Pipeline
unfolding joined_parts
complete_group key g s =
    if ltb (length g.parts) g.segments
    then (none, s)
    else finished key s (joined_parts 1 g.segments g.parts) (find_key 1 g.parts)

-- `group.parts[sequence] = part`, in the group that the map shares.
abbrev pub store_part :
    InboundKey
    → ConcatRef
    → InboundPart
    → InboundGroup × Pipeline
    → Option InboundMessage × Pipeline
store_part key c part (g, s) =
    let filled = record g { parts = put_key c.sequence part g.parts } in
    complete_group key filled (record s { groups = put_key key filled s.groups })

abbrev pub key_of : InboundPart → ConcatRef → InboundKey
key_of part c = record { sender = part.sender; ref_width = c.ref_width; ref = c.ref }

assemble_concat : Pipeline → InboundPart → ℕ → Option ConcatRef → Option InboundMessage × Pipeline
unfolding group_for complete_group
assemble_concat s part now none = (some (message_of part part.content), s)
assemble_concat s part now (some c) =
    store_part (key_of part c) c part (group_for s c now (find_key (key_of part c) s.groups))

-- `assembleInbound`.
unfoldable pub assemble_inbound : Pipeline → InboundPart → ℕ → Option InboundMessage × Pipeline
unfolding assemble_concat
assemble_inbound s part now = assemble_concat s part now part.concat

-- `abortInbound`.
unfoldable pub abort_inbound : Pipeline → Pipeline
abort_inbound s = record s { groups = []; aborted = s.aborted + length s.groups }
