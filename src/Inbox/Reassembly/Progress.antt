-- ===== src/Inbox/Reassembly/Progress.antt =====
-- A group that has all its parts is emitted: internal/inbox/service.go.
use Prim.Native.String.{◌++◌ as append_text}
use at_gateway.Prelude.{
  ℕ, zero, suc, ◌≤◌, ◌<◌, String, ◌≡◌, refl, sym, subst, false, some, List, ◌==◌, nat_eq, ltb,
  length, find_key, put_key, drop_key, find-drop-other, length-drop-known, arith,
}
use at_gateway.Inbox.Reassembly.{
  InboundKey, key_eq, InboundGroup, InboundPart, InboundMessage, ConcatRef, Pipeline, message_of,
  group_for, complete_group, key_of, assemble_concat, assemble_inbound, joined_parts,
}
use at_gateway.Inbox.Reassembly.Complete.{HasParts, group_for-segments}

abbrev Parts : Type 0
Parts = List (ℕ × InboundPart)

HasParts-drop :
    (k sequence n : ℕ) (parts : Parts)
    → k < sequence
    → HasParts sequence n parts
    → HasParts sequence n (drop_key k parts)
unfolding HasParts
HasParts-drop k sequence zero parts l h = tt
HasParts-drop k sequence (suc n) parts l ((p, e), h) =
    let apart : (k == sequence) ≡ false = ground (arith, l) in
    (
      (p, rw (find-drop-other sequence k parts apart) e),
      HasParts-drop k (suc sequence) n parts (omega (arith, l)) h,
    )

-- Different sequence numbers are different parts.
HasParts-length : (sequence n : ℕ) (parts : Parts) → HasParts sequence n parts → n ≤ length parts
unfolding HasParts
HasParts-length sequence zero parts h = omega arith
HasParts-length sequence (suc n) parts ((p, e), h) = omega (
  arith,
  length-drop-known sequence p parts e,
  HasParts-length (suc sequence) n (drop_key sequence parts)
      (HasParts-drop sequence (suc sequence) n parts (omega arith) h),
)

HasParts-joined :
    (sequence n : ℕ) (parts : Parts)
    → HasParts sequence n parts
    → (text : String) × (joined_parts sequence n parts ≡ some text)
unfolding HasParts joined_parts
HasParts-joined sequence zero parts h = ("", refl)
HasParts-joined sequence (suc n) parts ((p, e), h) =
    let (text, f) = HasParts-joined (suc sequence) n parts h in
    (append_text p.content text, rw (joined_parts, e, f) refl)

HasParts-first :
    (n : ℕ) (parts : Parts)
    → 1 ≤ n
    → HasParts 1 n parts
    → (p : InboundPart) × (find_key 1 parts ≡ some p)
unfolding HasParts
HasParts-first zero parts l h = absurd (ground arith)
HasParts-first (suc n) parts l (first, h) = first

complete_group-some :
    (key : InboundKey) (g : InboundGroup) (s : Pipeline)
    → 1 ≤ g.segments
    → HasParts 1 g.segments g.parts
    → (m : InboundMessage) × ((complete_group key g s).0 ≡ some m)
unfolding complete_group
complete_group-some key g s l h =
    let (text, e) = HasParts-joined 1 g.segments g.parts h in
    let (first, f) = HasParts-first g.segments g.parts l h in
    let enough : ltb (length g.parts) g.segments ≡ false =
      ground (arith, HasParts-length 1 g.segments g.parts h) in
    (message_of first text, rw (enough, e, f) refl)

concat-completes :
    (s : Pipeline) (part : InboundPart) (now : ℕ) (c : ConcatRef)
    → 1 ≤ c.segments
    → HasParts 1 c.segments
        (put_key c.sequence part (group_for s c now (find_key (key_of part c) s.groups)).0.parts)
    → (m : InboundMessage) × ((assemble_concat s part now (some c)).0 ≡ some m)
unfolding assemble_concat
concat-completes s part now c l h =
    let chosen = group_for s c now (find_key (key_of part c) s.groups) in
    let filled = record (chosen.0) { parts = put_key c.sequence part chosen.0.parts } in
    let stored = record (chosen.1) { groups = put_key (key_of part c) filled chosen.1.groups } in
    let count = group_for-segments s c now (find_key (key_of part c) s.groups) in
    complete_group-some (key_of part c) filled stored (omega (arith, count, l))
      (subst (λ n. HasParts 1 n filled.parts) (sym count) h)

-- A part of a concatenation of at least one part completes the message, if with it the group of its
-- key has a part for every sequence number from 1 to the announced count.
pub assemble-completes :
    (s : Pipeline) (part : InboundPart) (now : ℕ) (c : ConcatRef)
    → part.concat ≡ some c
    → 1 ≤ c.segments
    → HasParts 1 c.segments
        (put_key c.sequence part (group_for s c now (find_key (key_of part c) s.groups)).0.parts)
    → (m : InboundMessage) × ((assemble_inbound s part now).0 ≡ some m)
unfolding assemble_inbound
assemble-completes s part now c k l h =
    subst (λ o. (m : InboundMessage) × ((assemble_concat s part now o).0 ≡ some m)) (sym k)
      (concat-completes s part now c l h)
