-- ===== src/Inbox/Reassembly/Bounds.antt =====
-- The bound on the incomplete groups: internal/inbox/service.go.
use at_gateway.Prelude.{
  subst, ℕ, suc, ◌≤◌, String, ◌≡◌, refl, sym, ◌⊎◌, inl, inr, Option, none, some, [], ◌∷◌, ◌==◌,
  ==_refl, nat_eq, ltb, if◌then◌else◌, length, find_key, put_key, length-drop, length-drop-known,
  length-put, length-put-known, Bool-cases, arith,
}
use at_gateway.Inbox.Reassembly.{
  InboundKey, key_eq, InboundGroup, InboundPart, ConcatRef, Groups, Pipeline, max_groups, is_full,
  live_groups, sweep_inbound, oldest_group, evict_found, evict_oldest_group, make_room, group_for,
  complete_group, finished, key_of, assemble_concat, assemble_inbound, joined_parts,
}

length-live_groups :
    (timeout now : ℕ) (groups : Groups) → length (live_groups timeout now groups).0 ≤ length groups
unfolding live_groups
length-live_groups timeout now [] = omega arith
length-live_groups timeout now ((k, g) ∷ groups) =
    ground (arith, length-live_groups timeout now groups)

abbrev Known : InboundKey → Groups → Type 0
Known k groups = (g : InboundGroup) × (find_key k groups ≡ some g)

Known-head : (k : InboundKey) (g : InboundGroup) (groups : Groups) → Known k ((k, g) ∷ groups)
Known-head k g groups = (g, rw (==_refl k) refl)

Known-tail :
    (k j : InboundKey) (g : InboundGroup) (groups : Groups)
    → Known k groups
    → Known k ((j, g) ∷ groups)
Known-tail k j g groups (h, e) = elim (Bool-cases (j == k)) [
  | inl same ↦ (g, rw same refl)
  | inr other ↦ (h, rw other e)
]

-- The candidate of the search is the given one or a group of the map.
abbrev Candidate : InboundKey → ℕ → Groups → Type 0
Candidate k at groups =
    (j : InboundKey) × (n : ℕ) × (oldest_group (some (k, at)) groups ≡ some (j, n))
    × ((j ≡ k) ⊎ Known j groups)

oldest_group-Candidate : (groups : Groups) (k : InboundKey) (at : ℕ) → Candidate k at groups
unfolding oldest_group
oldest_group-Candidate [] k at = (k, at, refl, inl refl)
oldest_group-Candidate ((key, g) ∷ groups) k at = elim (Bool-cases (ltb g.first_at at)) [
  | inl older ↦
      let (j, n, e, from) = oldest_group-Candidate groups key g.first_at in
      (
        j,
        n,
        rw (oldest_group, older) e,
        inr (elim from [
          | inl same ↦ subst (λ x. Known x ((key, g) ∷ groups)) (sym same) (Known-head key g groups)
          | inr tail ↦ Known-tail j key g groups tail
        ]),
      )
  | inr younger ↦
      let (j, n, e, from) = oldest_group-Candidate groups k at in
      (
        j,
        n,
        rw (oldest_group, younger) e,
        elim from [ inl same ↦ inl same | inr tail ↦ inr (Known-tail j key g groups tail) ],
      )
]

found-shrinks :
    (o : Option (InboundKey × ℕ)) (s : Pipeline) (k : InboundKey) (n : ℕ)
    → o ≡ some (k, n)
    → Known k s.groups
    → suc (length (evict_found o s).groups) ≤ length s.groups
unfolding evict_found
found-shrinks none s k n e h = cc
found-shrinks (some (j, m)) s k n e (g, f) =
    let same : j ≡ k = ground (arith, e) in rw same (length-drop-known k g s.groups f)

-- An eviction drops a group, if there is one.
evict_shrinks :
    (groups : Groups) (s : Pipeline)
    → s.groups ≡ groups
    → 1 ≤ length groups
    → suc (length (evict_found (oldest_group none groups) s).groups) ≤ length s.groups
unfolding oldest_group
evict_shrinks [] s e h = absurd (ground arith)
evict_shrinks ((key, g) ∷ groups) s e h =
    let (j, n, f, from) = oldest_group-Candidate groups key g.first_at in
    found-shrinks (oldest_group (some (key, g.first_at)) groups) s j n f (
      rw e (elim from [
        | inl same ↦ subst (λ x. Known x ((key, g) ∷ groups)) (sym same) (Known-head key g groups)
        | inr tail ↦ Known-tail j key g groups tail
      ]))

sweep_inbound-fewer :
    (s : Pipeline) (now : ℕ) → length (sweep_inbound s now).groups ≤ length s.groups
unfolding sweep_inbound
sweep_inbound-fewer s now = length-live_groups s.timeout now s.groups

evict_oldest_group-fewer :
    (s : Pipeline)
    → 1 ≤ length s.groups
    → suc (length (evict_oldest_group s).groups) ≤ length s.groups
unfolding evict_oldest_group
evict_oldest_group-fewer s h = evict_shrinks s.groups s refl h

room_after :
    (s : Pipeline)
    → length s.groups ≤ max_groups
    → suc (length (if is_full s then evict_oldest_group s else s).groups) ≤ max_groups
room_after s h = elim (Bool-cases (is_full s)) [
  | inl full ↦ rw full (omega (arith, evict_oldest_group-fewer s (ground arith), h))
  | inr room ↦ rw room (ground arith)
]

make_room-Room :
    (s : Pipeline) (now : ℕ)
    → length s.groups ≤ max_groups
    → suc (length (make_room s now).groups) ≤ max_groups
unfolding make_room
make_room-Room s now h = elim (Bool-cases (is_full s)) [
  | inl full ↦
      rw full (room_after (sweep_inbound s now) (omega (arith, sweep_inbound-fewer s now, h)))
  | inr room ↦ rw (room, room) (ground arith)
]

-- Storing the part of a group leaves the bound, for a group of the map or after making room.
put_fits :
    (o : Option InboundGroup) (s : Pipeline) (c : ConcatRef) (now : ℕ) (k : InboundKey)
    (g : InboundGroup)
    → find_key k s.groups ≡ o
    → length s.groups ≤ max_groups
    → length (put_key k g (group_for s c now o).1.groups) ≤ max_groups
unfolding group_for
put_fits none s c now k g f h =
    omega (arith, length-put k g (make_room s now).groups, make_room-Room s now h)
put_fits (some x) s c now k g f h = elim (Bool-cases (x.segments == c.segments)) [
  | inl same ↦ rw same (rw (length-put-known k g x s.groups f) h)
  | inr other ↦
      rw other (omega (arith, length-put k g (make_room s now).groups, make_room-Room s now h))
]

finished-fewer :
    (k : InboundKey) (s : Pipeline) (body : Option String) (first : Option InboundPart)
    → length (finished k s body first).1.groups ≤ length s.groups
finished-fewer k s none first = omega arith
finished-fewer k s (some body) none = omega arith
finished-fewer k s (some body) (some first) = length-drop k s.groups

complete_group-fewer :
    (k : InboundKey) (g : InboundGroup) (s : Pipeline)
    → length (complete_group k g s).1.groups ≤ length s.groups
unfolding complete_group
complete_group-fewer k g s = elim (Bool-cases (ltb (length g.parts) g.segments)) [
  | inl waits ↦ rw waits (omega arith)
  | inr full ↦ rw full (finished-fewer k s (joined_parts 1 g.segments g.parts) (find_key 1 g.parts))
]

assemble_concat-fits :
    (s : Pipeline) (part : InboundPart) (now : ℕ) (o : Option ConcatRef)
    → length s.groups ≤ max_groups
    → length (assemble_concat s part now o).1.groups ≤ max_groups
unfolding assemble_concat
assemble_concat-fits s part now none h = h
assemble_concat-fits s part now (some c) h =
    let found = find_key (key_of part c) s.groups in
    let chosen = group_for s c now found in
    let filled = record (chosen.0) { parts = put_key c.sequence part chosen.0.parts } in
    let stored = record (chosen.1) { groups = put_key (key_of part c) filled chosen.1.groups } in
    omega (
      arith,
      complete_group-fewer (key_of part c) filled stored,
      put_fits found s c now (key_of part c) filled refl h,
    )

pub assemble_inbound-fits :
    (s : Pipeline) (part : InboundPart) (now : ℕ)
    → length s.groups ≤ max_groups
    → length (assemble_inbound s part now).1.groups ≤ max_groups
unfolding assemble_inbound
assemble_inbound-fits s part now h = assemble_concat-fits s part now part.concat h

pub sweep_inbound-fits :
    (s : Pipeline) (now : ℕ)
    → length s.groups ≤ max_groups
    → length (sweep_inbound s now).groups ≤ max_groups
sweep_inbound-fits s now h = omega (arith, sweep_inbound-fewer s now, h)
