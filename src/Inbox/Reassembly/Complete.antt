-- ===== src/Inbox/Reassembly/Complete.antt =====
-- When a concatenated message is complete, and which groups a part leaves alone:
-- internal/inbox/service.go.
use at_gateway.Prelude.{
  ◌∙◌, ℕ, zero, suc, ◌<◌, String, ◌≡◌, refl, sym, subst, ap, inl, inr, false, Option, none, some,
  List, [], if◌then◌else◌, ◌==◌, nat_eq, ltb, length, find_key, put_key, drop_key, find-put-other,
  find-drop, find-drop-other, Bool-cases, Option-cases, arith,
}
use at_gateway.Inbox.Reassembly.{
  InboundKey, key_eq, InboundGroup, InboundPart, InboundMessage, ConcatRef, Pipeline, max_groups,
  is_full, make_room, group_for, complete_group, finished, key_of, assemble_concat,
  assemble_inbound, joined_parts,
}
use at_gateway.Inbox.Reassembly.Order.{contents_up_to, joined_parts-contents}

-- Every one of the sequence numbers from one on, as many as the count, has a part.
unfoldable pub HasParts : ℕ → ℕ → List (ℕ × InboundPart) → Type 0
HasParts sequence zero parts = Unit
HasParts sequence (suc n) parts =
    ((p : InboundPart) × (find_key sequence parts ≡ some p)) × HasParts (suc sequence) n parts

joined_parts-HasParts :
    (sequence n : ℕ) (parts : List (ℕ × InboundPart)) {text : String}
    → joined_parts sequence n parts ≡ some text
    → HasParts sequence n parts
unfolding joined_parts HasParts
joined_parts-HasParts sequence zero parts e = tt
joined_parts-HasParts sequence (suc n) parts e = elim (Option-cases (find_key sequence parts)) [
  | inl f ↦ absurd (ground (arith, e, f))
  | inr (p, f) ↦ elim (Option-cases (joined_parts (suc sequence) n parts)) [
    | inl g ↦ absurd (ground (arith, e, f, g))
    | inr (text, g) ↦ ((p, f), joined_parts-HasParts (suc sequence) n parts g)
  ]
]

-- What a complete group gives: its parts are all there, the content is theirs in the order of the
-- sequence numbers, the key is free.
abbrev pub Emitted : InboundKey → InboundGroup → InboundMessage → Pipeline → Type 0
Emitted key g m t =
    HasParts 1 g.segments g.parts
    × (m.content ≡ contents_up_to g.segments g.parts)
    × (find_key key t.groups ≡ none)

finished-Emitted :
    (key : InboundKey) (g : InboundGroup) (s : Pipeline) (body : Option String)
    (first : Option InboundPart)
    → joined_parts 1 g.segments g.parts ≡ body
    → {m : InboundMessage} {t : Pipeline} → finished key s body first ≡ (some m, t)
    → Emitted key g m t
finished-Emitted key g s none first j e = absurd (ground (arith, e))
finished-Emitted key g s (some body) none j e = absurd (ground (arith, e))
finished-Emitted key g s (some body) (some first) j {m} {t} e =
    let content : m.content ≡ body = ground (arith, e) in
    let groups : t.groups ≡ drop_key key s.groups = ground (arith, e) in
    (
      joined_parts-HasParts 1 g.segments g.parts j,
      content ∙ joined_parts-contents g.segments g.parts j,
      rw groups (find-drop key s.groups),
    )

complete_group-Emitted :
    (key : InboundKey) (g : InboundGroup) (s : Pipeline) {m : InboundMessage} {t : Pipeline}
    → complete_group key g s ≡ (some m, t)
    → Emitted key g m t
unfolding complete_group
complete_group-Emitted key g s e = elim (Bool-cases (ltb (length g.parts) g.segments)) [
  | inl waits ↦ absurd (ground (arith, e, waits))
  | inr full ↦
      finished-Emitted key g s (joined_parts 1 g.segments g.parts) (find_key 1 g.parts) refl
        (rw full at e)
]

pub group_for-segments :
    (s : Pipeline) (c : ConcatRef) (now : ℕ) (o : Option InboundGroup)
    → (group_for s c now o).0.segments ≡ c.segments
unfolding group_for
group_for-segments s c now none = refl
group_for-segments s c now (some g) = ground arith

-- The parts that wait under a key: none, if another count was announced before.
abbrev pub waiting_parts : ℕ → Option InboundGroup → List (ℕ × InboundPart)
waiting_parts segments none = []
waiting_parts segments (some g) = if g.segments == segments then g.parts else []

group_for-parts :
    (s : Pipeline) (c : ConcatRef) (now : ℕ) (o : Option InboundGroup)
    → (group_for s c now o).0.parts ≡ waiting_parts c.segments o
unfolding group_for
group_for-parts s c now none = refl
group_for-parts s c now (some g) = elim (Bool-cases (g.segments == c.segments)) [
  | inl same ↦ rw same refl
  | inr other ↦ rw other refl
]

-- A message that a part of a concatenation completes is whole: with the parts that wait under its key
-- for the announced count, or none, and this part under its sequence number, there is a part for
-- every sequence number from 1 to the count, the content is their contents in the order of those
-- numbers, and the group is gone.
pub assemble-whole :
    (s : Pipeline) (part : InboundPart) (now : ℕ) (c : ConcatRef) {m : InboundMessage}
    {t : Pipeline}
    → part.concat ≡ some c
    → assemble_inbound s part now ≡ (some m, t)
    → (g : InboundGroup) × (g.segments ≡ c.segments)
      × (g.parts
          ≡ put_key c.sequence part (waiting_parts c.segments (find_key (key_of part c) s.groups)))
      × Emitted (key_of part c) g m t
unfolding assemble_inbound assemble_concat
assemble-whole s part now c {m} {t} k e =
    let known = find_key (key_of part c) s.groups in
    let chosen = group_for s c now known in
    let filled = record (chosen.0) { parts = put_key c.sequence part chosen.0.parts } in
    let stored = record (chosen.1) { groups = put_key (key_of part c) filled chosen.1.groups } in
    (
      filled,
      group_for-segments s c now known,
      ap (put_key c.sequence part) (group_for-parts s c now known),
      complete_group-Emitted (key_of part c) filled stored {m = m} {t = t}
          (subst (λ o. assemble_concat s part now o ≡ (some m, t)) k e),
    )

-- Groups of other keys.
make_room-same : (s : Pipeline) (now : ℕ) → length s.groups < max_groups → make_room s now ≡ s
unfolding make_room
make_room-same s now h = let room : is_full s ≡ false = ground arith in rw (room, room) refl

group_for-same :
    (s : Pipeline) (c : ConcatRef) (now : ℕ) (o : Option InboundGroup)
    → length s.groups < max_groups
    → (group_for s c now o).1 ≡ s
unfolding group_for
group_for-same s c now none h = make_room-same s now h
group_for-same s c now (some g) h = elim (Bool-cases (g.segments == c.segments)) [
  | inl same ↦ rw same refl
  | inr other ↦ rw other (make_room-same s now h)
]

finished-other :
    (key other : InboundKey) (s : Pipeline) (body : Option String) (first : Option InboundPart)
    → (key == other) ≡ false
    → find_key other (finished key s body first).1.groups ≡ find_key other s.groups
finished-other key other s none first n = refl
finished-other key other s (some body) none n = refl
finished-other key other s (some body) (some first) n = find-drop-other other key s.groups n

complete_group-other :
    (key other : InboundKey) (g : InboundGroup) (s : Pipeline)
    → (key == other) ≡ false
    → find_key other (complete_group key g s).1.groups ≡ find_key other s.groups
unfolding complete_group
complete_group-other key other g s n = elim (Bool-cases (ltb (length g.parts) g.segments)) [
  | inl waits ↦ rw waits refl
  | inr full ↦
      rw full
        (finished-other key other s (joined_parts 1 g.segments g.parts) (find_key 1 g.parts) n)
]

concat-other :
    (s : Pipeline) (part : InboundPart) (now : ℕ) (c : ConcatRef) (other : InboundKey)
    → length s.groups < max_groups
    → (key_of part c == other) ≡ false
    → find_key other (assemble_concat s part now (some c)).1.groups ≡ find_key other s.groups
unfolding assemble_concat
concat-other s part now c other room n =
    let chosen = group_for s c now (find_key (key_of part c) s.groups) in
    let filled = record (chosen.0) { parts = put_key c.sequence part chosen.0.parts } in
    let stored = record (chosen.1) { groups = put_key (key_of part c) filled chosen.1.groups } in
    let same = group_for-same s c now (find_key (key_of part c) s.groups) room in
    let put = find-put-other other (key_of part c) filled chosen.1.groups n in
    complete_group-other (key_of part c) other filled stored n
    ∙ put
    ∙ ap (λ (x : Pipeline). find_key other x.groups) same

-- Below the bound on the groups, a part of a concatenation leaves the group of every key alone that
-- differs from its own in the sender, the reference or the reference width.
pub assemble-other :
    (s : Pipeline) (part : InboundPart) (now : ℕ) (c : ConcatRef) (other : InboundKey)
    → part.concat ≡ some c
    → length s.groups < max_groups
    → (key_of part c == other) ≡ false
    → find_key other (assemble_inbound s part now).1.groups ≡ find_key other s.groups
unfolding assemble_inbound assemble_concat
assemble-other s part now c other k room n =
    subst (λ o. find_key other (assemble_concat s part now o).1.groups ≡ find_key other s.groups)
      (sym k) (concat-other s part now c other room n)
