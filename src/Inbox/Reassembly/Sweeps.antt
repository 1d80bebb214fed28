-- ===== src/Inbox/Reassembly/Sweeps.antt =====
-- What the reassembly does to the dedupe: nothing but sweeps (internal/inbox/service.go).
use at_gateway.Prelude.{
  sym, String, subst, ℕ, ◌≡◌, refl, Option, none, some, ◌==◌, nat_eq, ltb, if◌then◌else◌, length,
  find_key, put_key, Bool-cases, inl, inr,
}
use at_gateway.Inbox.Dedupe.{Deduper, sweep}
use at_gateway.Inbox.Reassembly.{
  InboundKey, key_eq, InboundGroup, InboundPart, ConcatRef, Pipeline, is_full, sweep_inbound,
  oldest_group, evict_found, evict_oldest_group, make_room, group_for, complete_group, finished,
  key_of, assemble_concat, assemble_inbound, joined_parts,
}

evict_found-dedup : (o : Option (InboundKey × ℕ)) (s : Pipeline) → (evict_found o s).dedup ≡ s.dedup
unfolding evict_found
evict_found-dedup none s = refl
evict_found-dedup (some (k, n)) s = refl

evict_oldest_group-dedup : (s : Pipeline) → (evict_oldest_group s).dedup ≡ s.dedup
unfolding evict_oldest_group
evict_oldest_group-dedup s = evict_found-dedup (oldest_group none s.groups) s

finished-dedup :
    (key : InboundKey) (s : Pipeline) (body : Option String) (first : Option InboundPart)
    → (finished key s body first).1.dedup ≡ s.dedup
finished-dedup key s none first = refl
finished-dedup key s (some body) none = refl
finished-dedup key s (some body) (some first) = refl

complete_group-dedup :
    (key : InboundKey) (g : InboundGroup) (s : Pipeline)
    → (complete_group key g s).1.dedup ≡ s.dedup
unfolding complete_group
complete_group-dedup key g s = elim (Bool-cases (ltb (length g.parts) g.segments)) [
  | inl waits ↦ rw waits refl
  | inr full ↦
      rw full (finished-dedup key s (joined_parts 1 g.segments g.parts) (find_key 1 g.parts))
]

module _ (P : Deduper → Type 0) (kept : (d : Deduper) (now : ℕ) → P d → P (sweep d now)) where
  pub sweep_inbound_keeps : (s : Pipeline) (now : ℕ) → P s.dedup → P (sweep_inbound s now).dedup
  unfolding sweep_inbound
  sweep_inbound_keeps s now h = kept s.dedup now h

  evict_if_full :
      (s : Pipeline) → P s.dedup → P (if is_full s then evict_oldest_group s else s).dedup
  evict_if_full s h = elim (Bool-cases (is_full s)) [
    | inl full ↦ rw full (rw (evict_oldest_group-dedup s) h)
    | inr room ↦ rw room h
  ]

  make_room_keeps : (s : Pipeline) (now : ℕ) → P s.dedup → P (make_room s now).dedup
  unfolding make_room
  make_room_keeps s now h = elim (Bool-cases (is_full s)) [
    | inl full ↦ rw full (evict_if_full (sweep_inbound s now) (sweep_inbound_keeps s now h))
    | inr room ↦ rw (room, room) h
  ]

  group_for_keeps :
      (s : Pipeline) (c : ConcatRef) (now : ℕ) (o : Option InboundGroup)
      → P s.dedup
      → P (group_for s c now o).1.dedup
  unfolding group_for
  group_for_keeps s c now none h = make_room_keeps s now h
  group_for_keeps s c now (some g) h = elim (Bool-cases (g.segments == c.segments)) [
    | inl same ↦ rw same h
    | inr other ↦ rw other (make_room_keeps s now h)
  ]

  assemble_concat_keeps :
      (s : Pipeline) (part : InboundPart) (now : ℕ) (o : Option ConcatRef)
      → P s.dedup
      → P (assemble_concat s part now o).1.dedup
  unfolding assemble_concat
  assemble_concat_keeps s part now none h = h
  assemble_concat_keeps s part now (some c) h =
      let chosen = group_for s c now (find_key (key_of part c) s.groups) in
      let filled = record (chosen.0) { parts = put_key c.sequence part chosen.0.parts } in
      let stored = record (chosen.1) { groups = put_key (key_of part c) filled chosen.1.groups } in
      subst P (sym (complete_group-dedup (key_of part c) filled stored))
        (group_for_keeps s c now (find_key (key_of part c) s.groups) h)

  pub assemble_inbound_keeps :
      (s : Pipeline) (part : InboundPart) (now : ℕ)
      → P s.dedup
      → P (assemble_inbound s part now).1.dedup
  unfolding assemble_inbound
  assemble_inbound_keeps s part now h = assemble_concat_keeps s part now part.concat h
