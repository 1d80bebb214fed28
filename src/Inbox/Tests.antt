-- ===== src/Inbox/Tests.antt =====
-- Concrete runs of the inbox component.
use at_gateway.Prelude.{
  nat_eq, string_eq, ℕ, String, ◌≡◌, refl, true, false, some, List, [], ◌∷◌, ◌++◌, find_key, arith,
}
use at_gateway.Inbox.Dedupe.{Deduper, new_deduper, served, mark, sweep}
use at_gateway.Inbox.Dedupe.Served.{among, served-sweep, served-mark}
use at_gateway.Inbox.Reassembly.{
  group_for, complete_group, joined_parts, assemble_inbound, ConcatRef, InboundPart, InboundKey,
  InboundGroup, InboundMessage, Pipeline, key_eq, key_of,
}
use at_gateway.Inbox.Reassembly.Progress.{assemble-completes}
use at_gateway.Inbox.Reassembly.Complete.{HasParts, Emitted, assemble-whole, assemble-other}
use at_gateway.Inbox.Emission.{inbound_message_id, emit_inbound, InboxEnv, EventName, InboundEvent}
use at_gateway.Inbox.Emission.Once.{emit_inbound-told}
use at_gateway.Inbox.Emission.Tidy.{IsTidy}
use at_gateway.Inbox.Pipeline.{part_arrives, sweep_ticks, run_loop, fresh}
use at_gateway.Inbox.Pipeline.Reach.{run_loop-IsTidy}

-- One webhook "w", which takes every message that it has not been served.
abbrev quiet : InboxEnv
quiet = record {
  fault = λ n. false;
  clock = λ n. n;
  local_device = "device";
  sim_phone = λ n. "";
  digest = λ s. s;
  base64 = λ s. s;
  itoa = λ n. "n";
  rfc3339 = λ n. "t";
  emit = λ n name event known. record {
    results = record { webhook_id = "w"; failed = false } ∷ [];
    suppressed = 0;
  };
  retention = 1000;
}

abbrev half : ℕ → ℕ → String → InboundPart
half width sequence text = record {
  sender = "+49";
  received_at = 5;
  timestamp_valid = true;
  content = text;
  port = 0;
  ported = false;
  concat = some (record { segments = 2; sequence = sequence; ref = 66; ref_width = width });
}

abbrev ref_of : ℕ → ℕ → ConcatRef
ref_of width sequence = record { segments = 2; sequence = sequence; ref = 66; ref_width = width }

abbrev wide_key : InboundKey
wide_key = record { sender = "+49"; ref_width = 16; ref = 66 }

-- The second half of a message waits, with an 8-bit reference.
abbrev half_way : Pipeline
half_way = record {
  groups =
      (
        record { sender = "+49"; ref_width = 8; ref = 66 },
        record { segments = 2; first_at = 10; parts = (2, half 8 2 "lo") ∷ [] },
      )
      ∷ [];
  dedup = new_deduper;
  timeout = 100;
  timeouts = 0;
  aborted = 0;
}

run_loop-IsTidy_example : IsTidy (
    run_loop quiet
      (fresh 100 0)
      (part_arrives (half 8 2 "lo") 10 ∷ part_arrives (half 8 1 "hel") 11 ∷ sweep_ticks 200 ∷ []))
run_loop-IsTidy_example =
    run_loop-IsTidy quiet 100 0
      (part_arrives (half 8 2 "lo") 10 ∷ part_arrives (half 8 1 "hel") 11 ∷ sweep_ticks 200 ∷ [])

abbrev whole : InboundMessage
whole = record {
  sender = "+49";
  content = "hello";
  ported = false;
  port = 0;
  received_at = 5;
  timestamp_valid = true;
  concat = some (ref_of 8 1);
}

assemble-whole_example :
    (g : InboundGroup) × (g.segments ≡ 2)
    × (g.parts ≡ (2, half 8 2 "lo") ∷ (1, half 8 1 "hel") ∷ [])
    × Emitted (key_of (half 8 1 "hel") (ref_of 8 1)) g whole (record half_way { groups = [] })
unfolding assemble_inbound group_for complete_group joined_parts
assemble-whole_example = assemble-whole half_way (half 8 1 "hel") 20 (ref_of 8 1) refl refl

assemble-other_example :
    find_key wide_key (assemble_inbound half_way (half 8 1 "hel") 20).1.groups
    ≡ find_key wide_key half_way.groups
assemble-other_example =
    assemble-other half_way (half 8 1 "hel") 20 (ref_of 8 1) wide_key refl (omega arith) refl

abbrev one_entry : Deduper
one_entry = record new_deduper {
  entries = ("id", record { webhooks = "w" ∷ []; seen_at = 0 }) ∷ [];
  order = "id" ∷ [];
}

served-sweep_example :
    served (sweep one_entry 600000000) "id" 600000001 ≡ served one_entry "id" 600000001
served-sweep_example = served-sweep one_entry "id" 600000000 600000001 (omega arith)

served-mark_example : among "v" (served (mark one_entry "id" "v" 50) "id" 60) ≡ true
served-mark_example = served-mark one_entry "id" "v" 50 60 (omega arith)

emit_inbound-told_example :
    let once = emit_inbound quiet whole 20 (fresh 100 0) in
    (name : EventName) × (event : InboundEvent) × (known : List String) × ((emit_inbound quiet whole
        600000019 once).emitted
      ≡ once.emitted ++ (name, event, known) ∷ [])
    × (event.message_id ≡ inbound_message_id quiet whole)
    × (among "w" known ≡ true)
emit_inbound-told_example =
    emit_inbound-told quiet whole 20 600000019 (fresh 100 0)
      (emit_inbound quiet whole 20 (fresh 100 0)) "w" (omega arith) (omega arith) refl refl

assemble-completes_example :
    (m : InboundMessage) × ((assemble_inbound half_way (half 8 1 "hel") 20).0 ≡ some m)
unfolding HasParts group_for
assemble-completes_example =
    assemble-completes half_way (half 8 1 "hel") 20 (ref_of 8 1) refl (omega arith)
      ((half 8 1 "hel", refl), ((half 8 2 "lo", refl), tt))
