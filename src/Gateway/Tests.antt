-- ===== src/Gateway/Tests.antt =====
-- A concrete run of the inbox on top of the webhooks service.
use at_gateway.Prelude.{◌≡◌, refl, true, false, none, some, [], ◌∷◌, arith}
use at_gateway.Inbox.Dedupe.{served}
use at_gateway.Webhooks.Emission.{emit_tracked}
use at_gateway.Inbox.Reassembly.{InboundMessage}
use at_gateway.Inbox.Emission.{InboxEnv, InboxWorld, emit_inbound}
use at_gateway.Inbox.Emission.Once.{took, answer_of}
use at_gateway.Inbox.Pipeline.{fresh}
use at_gateway.Webhooks.Domain.{event_sms_received}
use at_gateway.Webhooks.World.{HookEnv, HookWorld, answered}
use at_gateway.Gateway.{with_webhooks}
use at_gateway.Gateway.Once.{emission_of, no_second_item}
use at_gateway.Webhooks.Emission.Untouched.{items_for}

abbrev inbox : InboxEnv
inbox = record {
  fault = λ n. false;
  clock = λ n. n;
  local_device = "device";
  sim_phone = λ n. "";
  digest = λ s. s;
  base64 = λ s. s;
  itoa = λ n. "n";
  rfc3339 = λ n. "t";
  emit = λ n name event known. record { results = []; suppressed = 0 };
  retention = 1000;
}

abbrev hooks : HookEnv
hooks = record {
  fault = λ n. false;
  now = λ n. n;
  new_id = λ n. "id";
  cancelled = λ n. false;
  local_device = "device";
  is_valid_event = λ e. true;
  marshal = λ e. some "body";
  unix_text = λ n. "0";
  hmac = λ key body time. "signature";
  post = λ n call. answered 200;
  retry_count = 2;
  retry_base_delay = 1;
  batch_size = 2;
  stuck_timeout = 1000;
  cleanup_retention = 1000;
}

-- One webhook "w" for the event of a received message.
abbrev one_webhook : HookWorld
one_webhook = record {
  registry = record {
    rows =
        record {
          id = 1;
          ext_id = "w";
          device_id = none;
          url = "https://localhost";
          event = event_sms_received;
          created_at = 0;
          updated_at = 0;
        }
        ∷ [];
    next_id = 2;
  };
  queue = [];
  steps = 0;
  posts = [];
  metrics = record { enqueued = 0; delivered = 0; failed = 0; permanently_failed = 0 };
}

abbrev short_message : InboundMessage
short_message = record {
  sender = "+49";
  content = "hello";
  ported = false;
  port = 0;
  received_at = 5;
  timestamp_valid = true;
  concat = none;
}

abbrev gateway : InboxEnv
gateway = with_webhooks inbox hooks (λ n. one_webhook)

abbrev after_first : InboxWorld
after_first = emit_inbound gateway short_message 20 (fresh 100 0)

no_second_item_example :
    took "w" (answer_of gateway short_message 90 after_first).results ≡ false
    × items_for "w"
        (emission_of gateway hooks (λ n. one_webhook) short_message 90 after_first).1.queue
      ≡ []
unfolding with_webhooks emit_tracked served
no_second_item_example =
    no_second_item inbox hooks (λ n. one_webhook) short_message 20 90 (fresh 100 0) after_first "w"
      (omega arith) (omega arith) refl refl
