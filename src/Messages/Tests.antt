-- ===== src/Messages/Tests.antt =====
-- Concrete runs of the messages component.
use at_gateway.Prelude.{
  ◌++◌, arith, ℕ, ◌≡◌, refl, ◌↔◌, inl, inr, true, false, Option, none, some, List, [], ◌∷◌,
  find_first, All,
}
use at_gateway.Messages.Result.{ok, sc_status}
use at_gateway.Messages.State.{
  ProcessingState, StateEntry, pending, sent, delivered, failed, cancelled, state_time, first_time,
  to_domain_map,
}
use at_gateway.Messages.State.Times.{to_domain_map-first}
use at_gateway.Messages.Domain.{text_type, Codec, MessageInput, Message, Recipient, content}
use at_gateway.Messages.Rows.{message_to_domain, new_message_model, RecipientRow, MessageRow}
use at_gateway.Messages.Statements.{
  claim, expire_messages, expire_recipients, message_by_ext_id, move_message_rows,
  move_all_recipients, move_reported,
}
use at_gateway.Messages.Statements.Sound.{IsSound}
use at_gateway.Messages.Statements.History.{Grows}
use at_gateway.Messages.World.{Env, World, accepted, mobile}
use at_gateway.Messages.Repository.{
  get_by_id, create, cancel, dequeue_next_pending, set_recipient_delivered_by_ref,
  set_recipient_failed_by_ref,
}
use at_gateway.Messages.Repository.Claims.{dequeue_next_pending-ready, ready}
use at_gateway.Messages.Repository.Cancels.{cancel_once, create_atomic}
use at_gateway.Messages.Repository.Reports.{IsApplied, delivered_by_ref-one, failed_by_ref-one}
use at_gateway.Messages.Worker.{validate_text, process_recipient, resolve_final_state}
use at_gateway.Messages.Worker.Final.{resolve_failed_iff, resolve_delivered_iff, resolve_mixed}
use at_gateway.Messages.Worker.Preflight.{validate_text_iff, IsSendable}
use at_gateway.Messages.Worker.Sends.{process_recipient-Handed, Handed}
use at_gateway.Messages.System.{Turn, enqueues, cancels, polls, run, start}
use at_gateway.Messages.System.Reach.{run-IsSound, run-Grows}

abbrev plain_codec : Codec
plain_codec = record {
  marshal_text = λ t. some t.text;
  marshal_data = λ d. some d;
  unmarshal_text = λ s. some (record { text = s });
  unmarshal_data = λ s. some s;
}

-- No faults; the clock is the count of steps; every text has one part and is sent with reference 7.
abbrev calm : Env
calm = record {
  fault = λ n. false;
  now = λ n. n;
  new_id = λ n. "generated";
  local_device = "device";
  codec = plain_codec;
  phone_parse = λ p region. some p;
  phone_is_valid = λ p. true;
  phone_type = λ p. mobile;
  phone_format = λ p. p;
  default_region = "DE";
  segments = λ t. some 1;
  max_segments = 10;
  send_sms = λ n phone text report. accepted (7 ∷ []);
  sim_phone = λ n. "+4915100000000";
}

abbrev hello : MessageInput
hello = record {
  message_content = record {
    text_content = some (record { text = "hello" });
    data_content = none;
    multimedia_content = none;
  };
  message_options = record {
    sim_number = none;
    with_delivery_report = none;
    valid_until = none;
    schedule_at = none;
    priority = 0;
  };
  ext_id = "m1";
  device_id = some "device";
  phone_numbers = "+4915111111111" ∷ [];
  is_encrypted = false;
}

abbrev requests : List Turn
requests = enqueues hello false ∷ polls ∷ cancels "m1" ∷ []

run-IsSound_example : IsSound (run calm start requests).db
run-IsSound_example = run-IsSound calm requests

run-Grows_example : Grows start.db (run calm start requests).db
run-Grows_example = run-Grows calm start requests

resolve_mixed_example : resolve_final_state (delivered ∷ failed ∷ []) ≡ sent
resolve_mixed_example = resolve_mixed (delivered ∷ failed ∷ []) (inl refl, (inr refl, tt)) refl refl

-- A message with one recipient, in a state.
abbrev row_in : ProcessingState → MessageRow
row_in s = record {
  id = 1;
  ext_id = "m1";
  device_id = "device";
  type = text_type;
  content = "hello";
  priority = 0;
  is_encrypted = false;
  valid_until = none;
  schedule_at = none;
  sim_number = none;
  with_delivery_report = none;
  state = s;
  states = record { state = s; at = 0 } ∷ [];
  is_hashed = false;
  created_at = 0;
  updated_at = 0;
}

abbrev recipient_in : ProcessingState → Option ℕ → RecipientRow
recipient_in s ref = record {
  id = 1;
  ref_id = ref;
  message_id = 1;
  phone = "+4915111111111";
  states = record { state = s; at = 0 } ∷ [];
  error = none;
}

abbrev world_in : ProcessingState → Option ℕ → World
world_in s ref = record start {
  db = record {
    messages = row_in s ∷ [];
    recipients = recipient_in s ref ∷ [];
    next_message_id = 2;
    next_recipient_id = 2;
  };
}

abbrev waiting : World
waiting = world_in pending none

abbrev reported_world : World
reported_world = world_in sent (some 7)

abbrev loaded : ProcessingState → Message
loaded s = record {
  state_content = record {
    message_content = record {
      text_content = some (record { text = "hello" });
      data_content = none;
      multimedia_content = none;
    };
    hashed_content = none;
  };
  message_options = hello.message_options;
  id = "m1";
  state = s;
  recipients = [];
  states = [];
  device_id = "device";
  is_hashed = false;
  is_encrypted = false;
}

abbrev waiting_recipient : Recipient
waiting_recipient = record {
  phone_number = "+4915111111111";
  state = pending;
  states = record { state = pending; at = 0 } ∷ [];
  ref_id = none;
  error = none;
}

dequeue_next_pending-ready_example :
    (m : MessageRow) × (find_first (ready 0) waiting.db.messages ≡ some m) × ("m1" ≡ m.ext_id)
unfolding dequeue_next_pending get_by_id message_to_domain claim expire_messages expire_recipients
    message_by_ext_id
dequeue_next_pending-ready_example = dequeue_next_pending-ready calm waiting refl

cancel_once_example :
    ¬ (cancel calm "m1" (cancel calm "m1" waiting).1 ≡ (ok (loaded cancelled), start))
unfolding cancel get_by_id message_to_domain move_message_rows message_by_ext_id move_all_recipients
cancel_once_example = cancel_once calm "m1" waiting refl

-- Every statement fails.
abbrev broken : Env
broken = record calm { fault = λ n. true }

create_atomic_example : (create broken hello waiting).1.db ≡ waiting.db
unfolding create new_message_model content
create_atomic_example = create_atomic broken hello waiting (λ u. λ e. ground arith)

process_recipient-Handed_example :
    Handed calm
      (loaded pending)
      waiting_recipient
      []
      (some (record { text = "hello" }))
      (process_recipient calm (loaded pending) waiting_recipient waiting).1
process_recipient-Handed_example =
    process_recipient-Handed calm (loaded pending) waiting_recipient waiting

reported_IsSound : IsSound reported_world.db
reported_IsSound = record {
  synced = (refl, tt);
  known = ((sent, refl, refl), tt);
  message_order = (omega arith, tt, tt);
  recipient_order = (omega arith, tt, tt);
}

delivered_by_ref-one_example :
    IsApplied 7 "4915111111111"
      (λ r. record r {
        states = r.states ++ record { state = delivered; at = calm.now reported_world.steps } ∷ [];
      })
      reported_world.db
      (set_recipient_delivered_by_ref calm 7 "4915111111111" reported_world).1.db
unfolding set_recipient_delivered_by_ref move_reported
delivered_by_ref-one_example =
    delivered_by_ref-one calm 7 "4915111111111" reported_world reported_IsSound refl

failed_by_ref-one_example :
    IsApplied 7 "4915111111111"
      (λ r. record r {
        states = r.states ++ record { state = failed; at = calm.now reported_world.steps } ∷ [];
        error = some (sc_status 70);
      })
      reported_world.db
      (set_recipient_failed_by_ref calm 7 "4915111111111" (sc_status 70) reported_world).1.db
unfolding set_recipient_failed_by_ref move_reported
failed_by_ref-one_example =
    failed_by_ref-one calm 7 "4915111111111" (sc_status 70) reported_world reported_IsSound refl

resolve_failed_iff_example :
    (resolve_final_state (failed ∷ []) ≡ failed) ↔ All (λ t. t ≡ failed) (failed ∷ [])
resolve_failed_iff_example = resolve_failed_iff (failed ∷ [])

resolve_delivered_iff_example :
    (resolve_final_state (delivered ∷ []) ≡ delivered) ↔ All (λ t. t ≡ delivered) (delivered ∷ [])
resolve_delivered_iff_example = resolve_delivered_iff delivered []

abbrev twice : List StateEntry
twice = record { state = sent; at = 3 } ∷ record { state = sent; at = 5 } ∷ []

to_domain_map-first_example : state_time sent (to_domain_map twice) ≡ first_time sent twice
to_domain_map-first_example = to_domain_map-first sent twice

validate_text_iff_example : (validate_text calm "hello" 10 ≡ none) ↔ IsSendable calm "hello" 10
validate_text_iff_example = validate_text_iff calm "hello" 10
