-- ===== src/Webhooks/Registry.antt =====
-- The statements on the table webhooks: internal/webhooks/repository.go.
pub mod Laws
use at_gateway.Prelude.{
  ℕ, suc, String, Bool, not, Option, List, [], ◌∷◌, ◌++◌, map, ◌==◌, string_eq, if◌then◌else◌,
  update_where, select_where, any_where,
}
use at_gateway.Webhooks.Domain.{WebhookEvent, event_eq, Webhook, WebhookRow, webhook_to_domain}

-- The table, in the order of its ids, with the next AUTOINCREMENT id.
pub record Registry : Type 0 where
  pub rows : List WebhookRow
  pub next_id : ℕ

abbrev pub has_ext_id : String → WebhookRow → Bool
has_ext_id id r = r.ext_id == id

-- `ON CONFLICT (ext_id) DO UPDATE`.
abbrev pub take_over : WebhookRow → WebhookRow → WebhookRow
take_over new r = record r {
  device_id = new.device_id;
  url = new.url;
  event = new.event;
  updated_at = new.updated_at;
}

-- The statement of `Replace`. SQLite spends the next AUTOINCREMENT id on a conflict as well.
unfoldable pub upsert : WebhookRow → Registry → Registry
upsert new t =
    if any_where (has_ext_id new.ext_id) t.rows
    then record {
      rows = update_where (has_ext_id new.ext_id) (take_over new) t.rows;
      next_id = suc t.next_id;
    }
    else record { rows = t.rows ++ record new { id = t.next_id } ∷ []; next_id = suc t.next_id }

-- The statement of `Delete`.
unfoldable pub delete_rows : String → Registry → Registry
delete_rows id t = record t { rows = select_where (λ r. not (has_ext_id id r)) t.rows }

-- `selectWebhooks` without an event.
unfoldable pub select_webhooks : Registry → List Webhook
select_webhooks t = map webhook_to_domain t.rows

-- `selectWebhooks` with an event.
unfoldable pub select_by_event : WebhookEvent → Registry → List Webhook
select_by_event event t =
    map webhook_to_domain (select_where (λ (r : WebhookRow). r.event == event) t.rows)
