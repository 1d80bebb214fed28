-- ===== src/Inbox/Dedupe/Served.antt =====
-- What the dedupe answers after a mark and after a sweep: internal/inbox/dedupe.go.
use at_gateway.Prelude.{
  false, false, ℕ, ◌+◌, ◌≤◌, ◌<◌, String, ◌≡◌, refl, sym, Bool, true, Option, none, some, List, [],
  ◌∷◌, ◌++◌, ◌==◌, ==_iff, ==_refl, string_eq, any_where, find_key, drop_key, find-put, find-drop,
  find-drop-other, Bool-cases, Option-cases, arith, inl, inr,
}
use at_gateway.Inbox.Dedupe.{
  Entry, Deduper, elapsed, live_webhooks, served, add_webhook, revived, mark, mark_entry,
  push_fresh, with_room, evict_oldest, sweep, sweep_from,
}

-- The set of webhooks holds a webhook.
abbrev pub among : String → List String → Bool
among w ws = any_where (λ x. x == w) ws

among-append : (w : String) (ws : List String) → among w (ws ++ w ∷ []) ≡ true
among-append w [] = rw (==_refl w) refl
among-append w (x ∷ ws) = rw (among-append w ws) (ground arith)

among-left : (w v : String) (ws : List String) → among w ws ≡ true → among w (ws ++ v ∷ []) ≡ true
among-left w v [] h = absurd (ground arith)
among-left w v (x ∷ ws) h = ground (arith, among-left w v ws)

among-add : (w : String) (ws : List String) → among w (add_webhook w ws) ≡ true
among-add w ws = elim (Bool-cases (among w ws)) [
  | inl h ↦ rw (h) h
  | inr h ↦ rw (h) (among-append w ws)
]

module _ (ttl now : ℕ) where
  live_stored :
      (ws : List String) (later : ℕ)
      → later < now + ttl
      → live_webhooks ttl later (some (record { webhooks = ws; seen_at = now })) ≡ ws
  live_stored ws later h = ground arith

  -- An entry that a sweep drops serves nothing later either.
  live_expired :
      (e : Entry) (later : ℕ)
      → elapsed e.seen_at ttl now ≡ true
      → now ≤ later
      → live_webhooks ttl later (some e) ≡ []
  live_expired e later h n = ground arith

  sweep_from-live :
      (later : ℕ) (order : List String) (entries : List (String × Entry)) (id : String)
      → now ≤ later
      → live_webhooks ttl later (find_key id (sweep_from ttl now order entries).1)
        ≡ live_webhooks ttl later (find_key id entries)
  unfolding sweep_from
  sweep_from-live later [] entries id n = refl
  sweep_from-live later (o ∷ order) entries id n = elim (Option-cases (find_key o entries)) [
    | inl e ↦ rw (sweep_from, e) (sweep_from-live later order entries id n)
    | inr (x, e) ↦ elim (Bool-cases (elapsed x.seen_at ttl now)) [
      | inr young ↦ rw (sweep_from, e, young) (sweep_from-live later order entries id n)
      | inl old ↦
          let rest = sweep_from-live later order (drop_key o entries) id n in
          elim (Bool-cases (o == id)) [
            | inr other ↦ rw (sweep_from, e, old, rest, find-drop-other id o entries other) refl
            | inl same ↦
                let eq : o ≡ id = (==_iff o id).0 same in
                let gone = live_expired x later old n in
                rw (sweep_from, e, old, rest, sym eq, find-drop o entries, e, gone) refl
          ]
    ]
  ]

-- A sweep is not observable: at the time of the sweep and later, the dedupe serves for every message
-- what it would have served without it.
pub served-sweep :
    (d : Deduper) (id : String) (now later : ℕ)
    → now ≤ later
    → served (sweep d now) id later ≡ served d id later
unfolding served sweep
served-sweep d id now later n = sweep_from-live d.ttl now later d.order d.entries id n

mark_entry-found :
    (o : Option Entry) (d : Deduper) (id w : String) (now : ℕ)
    → (ws : List String) × (find_key id (mark_entry o id w now d).entries
        ≡ some (record { webhooks = add_webhook w ws; seen_at = now }))
unfolding mark_entry
mark_entry-found (some e) d id w now = ((revived d.ttl now e).webhooks, find-put id _ d.entries)
mark_entry-found none d id w now = ([], find-put id _ (push_fresh id now (with_room d)).entries)

with_room-ttl : (d : Deduper) → (with_room d).ttl ≡ d.ttl
unfolding with_room evict_oldest
with_room-ttl d = ground arith

mark_entry-ttl :
    (o : Option Entry) (d : Deduper) (id w : String) (now : ℕ)
    → (mark_entry o id w now d).ttl ≡ d.ttl
unfolding mark_entry
mark_entry-ttl (some e) d id w now = refl
mark_entry-ttl none d id w now = with_room-ttl d

-- A marked webhook is served for its message until the window of the dedupe has elapsed.
pub served-mark :
    (d : Deduper) (id w : String) (now later : ℕ)
    → later < now + d.ttl
    → among w (served (mark d id w now) id later) ≡ true
unfolding served mark
served-mark d id w now later n =
    let (ws, e) = mark_entry-found (find_key id d.entries) d id w now in
    let t = mark_entry-ttl (find_key id d.entries) d id w now in
    rw (e, t, live_stored d.ttl now (add_webhook w ws) later n) (among-add w ws)

-- The entry of a message is as old as a time and has a webhook.
abbrev pub Holds : Deduper → String → String → ℕ → Type 0
Holds d id w now =
    (ws : List String) × (find_key id d.entries ≡ some (record { webhooks = ws; seen_at = now }))
    × (among w ws ≡ true)

pub mark-Holds : (d : Deduper) (id w : String) (now : ℕ) → Holds (mark d id w now) id w now
unfolding mark
mark-Holds d id w now =
    let (ws, e) = mark_entry-found (find_key id d.entries) d id w now in
    (add_webhook w ws, e, among-add w ws)

among-add-other :
    (w v : String) (ws : List String) → among w ws ≡ true → among w (add_webhook v ws) ≡ true
among-add-other w v ws h = elim (Bool-cases (among v ws)) [
  | inl known ↦ rw known h
  | inr fresh ↦ rw fresh (among-left w v ws h)
]

pub mark-Holds-other :
    (d : Deduper) (id w v : String) (now : ℕ)
    → 1 ≤ d.ttl
    → Holds d id w now
    → Holds (mark d id v now) id w now
unfolding mark mark_entry
mark-Holds-other d id w v now t (ws, e, h) =
    let young : elapsed now d.ttl now ≡ false = ground arith in
    (
      add_webhook v ws,
      rw (e, young) (find-put id (record { webhooks = add_webhook v ws; seen_at = now }) d.entries),
      among-add-other w v ws h,
    )

pub mark-ttl : (d : Deduper) (id w : String) (now : ℕ) → (mark d id w now).ttl ≡ d.ttl
unfolding mark
mark-ttl d id w now = mark_entry-ttl (find_key id d.entries) d id w now

pub served-Holds :
    (d : Deduper) (id w : String) (now later : ℕ)
    → later < now + d.ttl
    → Holds d id w now
    → among w (served d id later) ≡ true
unfolding served
served-Holds d id w now later n (ws, e, h) = rw (e, live_stored d.ttl now ws later n) h
