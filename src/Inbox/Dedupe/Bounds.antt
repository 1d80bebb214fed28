-- ===== src/Inbox/Dedupe/Bounds.antt =====
-- The bound of the dedupe's memory: internal/inbox/dedupe.go.
use at_gateway.Prelude.{
  ◌∙◌, ℕ, suc, ◌≤◌, String, ◌≡◌, refl, sym, ◌⊎◌, inl, inr, Bool, true, ◌||◌, Option, none, some,
  List, [], ◌∷◌, ◌++◌, ◌==◌, ==_iff, ==_refl, string_eq, leb, any_where, length, find_key, put_key,
  drop_key, find-put, find-put-other, find-drop, find-drop-other, length-drop, length-drop-known,
  length-put, length-put-known, Bool-cases, Option-cases, arith,
}
use at_gateway.Inbox.Dedupe.{
  dedupe_capacity, add_webhook, Entry, Deduper, elapsed, revived, mark, mark_entry, store_mark,
  push_fresh, with_room, evict_from, evict_oldest, sweep, sweep_from,
}

abbrev listed : String → List String → Bool
listed id order = any_where (λ o. o == id) order

-- A message that has an entry stands in the order.
abbrev CoversAt : String → List String → List (String × Entry) → Type 0
CoversAt id order entries = (find_key id entries ≡ none) ⊎ (listed id order ≡ true)

abbrev pub Covers : List String → List (String × Entry) → Type 0
Covers order entries = (id : String) → CoversAt id order entries

drop-CoversAt :
    (o : String) (order : List String) (entries : List (String × Entry)) (id : String)
    → CoversAt id (o ∷ order) entries
    → CoversAt id order (drop_key o entries)
drop-CoversAt o order entries id h = elim (Bool-cases (o == id)) [
  | inl same ↦ let eq : o ≡ id = (==_iff o id).0 same in inl (rw (sym eq) (find-drop o entries))
  | inr other ↦
      rw (find-drop-other id o entries other)
        (elim h [ inl e ↦ inl e | inr k ↦ inr (rw other at k) ])
]

skip-CoversAt :
    (o : String) (order : List String) (entries : List (String × Entry))
    → find_key o entries ≡ none
    → (id : String) → CoversAt id (o ∷ order) entries
    → CoversAt id order entries
skip-CoversAt o order entries e id h = elim (Bool-cases (o == id)) [
  | inl same ↦ let eq : o ≡ id = (==_iff o id).0 same in inl (rw (sym eq) e)
  | inr other ↦ elim h [ inl e ↦ inl e | inr k ↦ inr (rw other at k) ]
]

evict_from-Covers :
    (order : List String) (entries : List (String × Entry))
    → Covers order entries
    → Covers (evict_from order entries).0 (evict_from order entries).1
unfolding evict_from
evict_from-Covers [] entries h = h
evict_from-Covers (o ∷ order) entries h = elim (Option-cases (find_key o entries)) [
  | inl e ↦
      rw (evict_from, e)
        (evict_from-Covers order entries (λ id. skip-CoversAt o order entries e id (h id)))
  | inr (x, e) ↦ rw (evict_from, e) (λ id. drop-CoversAt o order entries id (h id))
]

-- An eviction makes room, unless there are no entries.
evict_from-shrinks :
    (order : List String) (entries : List (String × Entry)) (id : String) (x : Entry)
    → find_key id entries ≡ some x
    → Covers order entries
    → suc (length (evict_from order entries).1) ≤ length entries
unfolding evict_from
evict_from-shrinks [] entries id x f h = elim (h id) [ inl e ↦ cc | inr k ↦ cc ]
evict_from-shrinks (o ∷ order) entries id x f h = elim (Option-cases (find_key o entries)) [
  | inl e ↦
      rw (evict_from, e)
        (evict_from-shrinks order entries id x f (λ id. skip-CoversAt o order entries e id (h id)))
  | inr (y, e) ↦ rw (evict_from, e) (length-drop-known o y entries e)
]

sweep_from-CoversAt :
    (ttl now : ℕ) (order : List String) (entries : List (String × Entry)) (id : String)
    → CoversAt id order entries
    → CoversAt id (sweep_from ttl now order entries).0 (sweep_from ttl now order entries).1
unfolding sweep_from
sweep_from-CoversAt ttl now [] entries id h = h
sweep_from-CoversAt ttl now (o ∷ order) entries id h = elim (Option-cases (find_key o entries)) [
  | inl e ↦
      rw (sweep_from, e)
        (sweep_from-CoversAt ttl now order entries id (skip-CoversAt o order entries e id h))
  | inr (x, e) ↦ elim (Bool-cases (elapsed x.seen_at ttl now)) [
    | inl old ↦
        rw (sweep_from, e, old)
          (sweep_from-CoversAt ttl now order (drop_key o entries) id
            (drop-CoversAt o order entries id h))
    | inr young ↦
        rw (sweep_from, e, young)
          (elim (Bool-cases (o == id)) [
            | inl same ↦ inr (rw same refl)
            | inr other ↦
                let tail : CoversAt id order entries = elim h [
                  | inl f ↦ inl f
                  | inr k ↦ inr (rw other at k)
                ] in
                elim (sweep_from-CoversAt ttl now order entries id tail) [
                  | inl f ↦ inl f
                  | inr k ↦ inr (rw (other, k) refl)
                ]
          ])
  ]
]

length-sweep_from :
    (ttl now : ℕ) (order : List String) (entries : List (String × Entry))
    → length (sweep_from ttl now order entries).1 ≤ length entries
unfolding sweep_from
length-sweep_from ttl now [] entries = omega arith
length-sweep_from ttl now (o ∷ order) entries = elim (Option-cases (find_key o entries)) [
  | inl e ↦ rw (sweep_from, e) (length-sweep_from ttl now order entries)
  | inr (x, e) ↦ elim (Bool-cases (elapsed x.seen_at ttl now)) [
    | inl old ↦
        rw (sweep_from, e, old)
          (omega
            (arith, length-sweep_from ttl now order (drop_key o entries), length-drop o entries))
    | inr young ↦ rw (sweep_from, e, young) (length-sweep_from ttl now order entries)
  ]
]

-- The state of a deduper: the order covers the entries, and they fit.
pub record IsBounded (d : Deduper) : Type 0 where
  pub covers : Covers d.order d.entries
  pub fits : length d.entries ≤ d.capacity
  pub sized : d.capacity ≡ dedupe_capacity

listed-append :
    (id k : String) (order : List String)
    → listed id (order ++ k ∷ []) ≡ (listed id order || k == id)
listed-append id k [] = ground arith
listed-append id k (o ∷ order) = rw (listed-append id k order) (ground arith)

known_or_empty :
    (entries : List (String × Entry))
    → (entries ≡ []) ⊎ ((id : String) × (x : Entry) × (find_key id entries ≡ some x))
known_or_empty [] = inl refl
known_or_empty ((k, x) ∷ m) = inr (k, x, rw (==_refl k) refl)

evict_fits :
    (d : Deduper)
    → IsBounded d
    → d.capacity ≤ length d.entries
    → suc (length (evict_from d.order d.entries).1) ≤ d.capacity
evict_fits d h full = elim (known_or_empty d.entries) [
  | inl e ↦ absurd (ground (arith, h.sized, full, e))
  | inr (id, x, e) ↦ omega (arith, evict_from-shrinks d.order d.entries id x e h.covers, h.fits)
]

with_room-Room :
    (d : Deduper)
    → IsBounded d
    → Covers (with_room d).order (with_room d).entries
      × (suc (length (with_room d).entries) ≤ d.capacity)
      × ((with_room d).capacity ≡ d.capacity)
unfolding with_room evict_oldest
with_room-Room d h = elim (Bool-cases (leb d.capacity (length d.entries))) [
  | inl full ↦
      rw full (evict_from-Covers d.order d.entries h.covers, evict_fits d h (ground arith), refl)
  | inr room ↦ rw room (h.covers, ground arith, refl)
]

push-Covers :
    (k : String) (v : Entry) (order : List String) (entries : List (String × Entry))
    → Covers order entries
    → Covers (order ++ k ∷ []) (put_key k v entries)
push-Covers k v order entries h id = elim (Bool-cases (k == id)) [
  | inl same ↦ inr (rw (listed-append id k order, same) (ground arith))
  | inr other ↦
      rw (find-put-other id k v entries other)
        (elim (h id) [ inl e ↦ inl e | inr l ↦ inr (rw (listed-append id k order, l) refl) ])
]

store-Covers :
    (k : String) (v u : Entry) (order : List String) (entries : List (String × Entry))
    → find_key k entries ≡ some u
    → Covers order entries
    → Covers order (put_key k v entries)
store-Covers k v u order entries e h id = elim (Bool-cases (k == id)) [
  | inl same ↦
      let eq : k ≡ id = (==_iff k id).0 same in
      elim (h k) [
        | inl none_there ↦ absurd (ground (arith, e, none_there))
        | inr l ↦ inr (rw eq at l)
      ]
  | inr other ↦ rw (find-put-other id k v entries other) (h id)
]

store_mark-IsBounded :
    (id w : String) (now : ℕ) (e u : Entry) (d : Deduper)
    → find_key id d.entries ≡ some u
    → IsBounded d
    → IsBounded (store_mark id w now e d)
store_mark-IsBounded id w now e u d f h = record {
  covers = store-Covers id _ u d.order d.entries f h.covers;
  fits =
      rw
        (length-put-known id (record { webhooks = add_webhook w e.webhooks; seen_at = now }) u
          d.entries f)
        h.fits;
  sized = h.sized;
}

push_fresh-IsBounded :
    (id : String) (now : ℕ) (d : Deduper)
    → Covers d.order d.entries
    → suc (length d.entries) ≤ d.capacity
    → d.capacity ≡ dedupe_capacity
    → IsBounded (push_fresh id now d)
push_fresh-IsBounded id now d h room z = record {
  covers = push-Covers id _ d.order d.entries h;
  fits = omega (arith, length-put id (record { webhooks = []; seen_at = now }) d.entries, room);
  sized = z;
}

mark_entry-IsBounded :
    (o : Option Entry) (d : Deduper) (id w : String) (now : ℕ)
    → find_key id d.entries ≡ o
    → IsBounded d
    → IsBounded (mark_entry o id w now d)
unfolding mark_entry
mark_entry-IsBounded (some e) d id w now f h =
    store_mark-IsBounded id w now (revived d.ttl now e) e d f h
mark_entry-IsBounded none d id w now f h =
    let (covers, room, same) = with_room-Room d h in
    store_mark-IsBounded id w now (record { webhooks = []; seen_at = now })
      (record { webhooks = []; seen_at = now }) (push_fresh id now (with_room d))
      (find-put id _ (with_room d).entries)
      (push_fresh-IsBounded id now (with_room d) covers (omega (arith, room, same))
        (same ∙ h.sized))

pub mark-IsBounded :
    (d : Deduper) (id w : String) (now : ℕ) → IsBounded d → IsBounded (mark d id w now)
unfolding mark
mark-IsBounded d id w now h = mark_entry-IsBounded (find_key id d.entries) d id w now refl h

pub sweep-IsBounded : (d : Deduper) (now : ℕ) → IsBounded d → IsBounded (sweep d now)
unfolding sweep
sweep-IsBounded d now h = record {
  covers = λ id. sweep_from-CoversAt d.ttl now d.order d.entries id (h.covers id);
  fits = omega (arith, length-sweep_from d.ttl now d.order d.entries, h.fits);
  sized = h.sized;
}
