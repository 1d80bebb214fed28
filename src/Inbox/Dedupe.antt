-- ===== src/Inbox/Dedupe.antt =====
-- The dedupe of webhook emissions: internal/inbox/dedupe.go. Times are in microseconds.
pub mod Served
pub mod Bounds
use at_gateway.Prelude.{
  ℕ, ◌+◌, String, Bool, true, false, Option, none, some, List, [], ◌∷◌, ◌++◌, ◌==◌, string_eq, leb,
  if◌then◌else◌, length, any_where, find_key, put_key, drop_key,
}

-- `inboundDedupEntry`; the set of webhooks is a list without repetitions.
pub record Entry : Type 0 where
  pub webhooks : List String
  pub seen_at : ℕ

-- `inboundDeduper`.
pub record Deduper : Type 0 where
  pub entries : List (String × Entry)
  -- Oldest first.
  pub order : List String
  pub capacity : ℕ
  pub ttl : ℕ

-- `inboundDedupeCapacity`.
abbrev pub dedupe_capacity : ℕ
dedupe_capacity = 1024

-- `inboundDedupeTTL`, ten minutes.
abbrev pub dedupe_ttl : ℕ
dedupe_ttl = 600000000

-- `newInboundDeduper`.
abbrev pub new_deduper : Deduper
new_deduper = record { entries = []; order = []; capacity = dedupe_capacity; ttl = dedupe_ttl }

-- `now.Sub(seenAt) >= ttl`; the difference is negative when the clock went back.
abbrev pub elapsed : ℕ → ℕ → ℕ → Bool
elapsed since window now = leb (since + window) now

abbrev pub live_webhooks : ℕ → ℕ → Option Entry → List String
live_webhooks ttl now none = []
live_webhooks ttl now (some e) = if elapsed e.seen_at ttl now then [] else e.webhooks

-- `served`.
unfoldable pub served : Deduper → String → ℕ → List String
served d id now = live_webhooks d.ttl now (find_key id d.entries)

-- `webhooks[webhookID] = struct{}{}`.
abbrev pub add_webhook : String → List String → List String
add_webhook w ws = if any_where (λ x. x == w) ws then ws else ws ++ w ∷ []

-- The loop of `evictOldest`.
unfoldable pub evict_from :
    List String → List (String × Entry) → List String × List (String × Entry)
evict_from [] entries = ([], entries)
evict_from (oldest ∷ order) entries =
    let rest = evict_from order entries in
    elim (find_key oldest entries) [ none ↦ rest | some e ↦ (order, drop_key oldest entries) ]

-- `evictOldest`.
unfoldable pub evict_oldest : Deduper → Deduper
unfolding evict_from
evict_oldest d =
    let (order, entries) = evict_from d.order d.entries in
    record d { entries = entries; order = order }

-- The entry that `mark` works on, when there is one: an expired one starts afresh.
abbrev pub revived : ℕ → ℕ → Entry → Entry
revived ttl now e = if elapsed e.seen_at ttl now then record { webhooks = []; seen_at = now } else e

-- The last three statements of `mark`.
abbrev pub store_mark : String → String → ℕ → Entry → Deduper → Deduper
store_mark id webhook now e d = record d {
  entries =
      put_key id (record { webhooks = add_webhook webhook e.webhooks; seen_at = now }) d.entries;
}

-- The branch of `mark` for an id without an entry.
unfoldable pub with_room : Deduper → Deduper
unfolding evict_oldest
with_room d = if leb d.capacity (length d.entries) then evict_oldest d else d

abbrev pub push_fresh : String → ℕ → Deduper → Deduper
push_fresh id now d = record d {
  entries = put_key id (record { webhooks = []; seen_at = now }) d.entries;
  order = d.order ++ id ∷ [];
}

mark_entry : Option Entry → String → String → ℕ → Deduper → Deduper
unfolding with_room
mark_entry (some e) id webhook now d = store_mark id webhook now (revived d.ttl now e) d
mark_entry none id webhook now d =
    store_mark id webhook now (record { webhooks = []; seen_at = now })
      (push_fresh id now (with_room d))

-- `mark`.
unfoldable pub mark : Deduper → String → String → ℕ → Deduper
unfolding mark_entry
mark d id webhook now = mark_entry (find_key id d.entries) id webhook now d

abbrev keep_id : String → List String × List (String × Entry) → List String × List (String × Entry)
keep_id id (order, entries) = (id ∷ order, entries)

-- The loop of `sweep`.
unfoldable pub sweep_from :
    ℕ → ℕ → List String → List (String × Entry) → List String × List (String × Entry)
sweep_from ttl now [] entries = ([], entries)
sweep_from ttl now (id ∷ order) entries =
    let dropped = sweep_from ttl now order (drop_key id entries) in
    let kept = sweep_from ttl now order entries in
    elim (find_key id entries) [
      | none ↦ kept
      | some e ↦ if elapsed e.seen_at ttl now then dropped else keep_id id kept
    ]

-- `sweep`.
unfoldable pub sweep : Deduper → ℕ → Deduper
unfolding sweep_from
sweep d now =
    let (order, entries) = sweep_from d.ttl now d.order d.entries in
    record d { entries = entries; order = order }
