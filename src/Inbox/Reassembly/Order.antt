-- ===== src/Inbox/Reassembly/Order.antt =====
-- The order in which the parts of a message are joined: internal/inbox/service.go.
use Prim.Native.String.{◌++◌ as append_text}
use Prim.Native.String.append
use text.Mathlib.TextLemmas.{append-nil as append_text-nil, append_assoc as append_text_assoc}
use at_gateway.Prelude.{
  ℕ, zero, suc, ◌+◌, String, ◌≡◌, sym, ◌∙◌, ap, Option, none, some, List, nat_eq, find_key,
  Option-cases, inl, inr, arith,
}
use at_gateway.Inbox.Reassembly.{InboundPart, joined_parts}

-- The content of the part with a sequence number.
abbrev pub content_at : Option InboundPart → String
content_at none = ""
content_at (some p) = p.content

-- The contents of the first parts: each is appended to the contents of those with smaller numbers.
pub contents_up_to : ℕ → List (ℕ × InboundPart) → String
contents_up_to zero parts = ""
contents_up_to (suc n) parts =
    append_text (contents_up_to n parts) (content_at (find_key (suc n) parts))

joined_from :
    (k n : ℕ) (parts : List (ℕ × InboundPart)) {text : String}
    → joined_parts (suc k) n parts ≡ some text
    → contents_up_to (k + n) parts ≡ append_text (contents_up_to k parts) text
unfolding joined_parts contents_up_to
joined_from k zero parts {text} e =
    let nothing : "" ≡ text = ground (arith, e) in
    ap (λ i. contents_up_to i parts) (omega arith)
    ∙ sym (append_text-nil (contents_up_to k parts))
    ∙ ap (append_text (contents_up_to k parts)) nothing
joined_from k (suc n) parts {text} e = elim (Option-cases (find_key (suc k) parts)) [
  | inl f ↦ absurd (ground (arith, e, f))
  | inr (p, f) ↦ elim (Option-cases (joined_parts (suc (suc k)) n parts)) [
    | inl g ↦ absurd (ground (arith, e, f, g))
    | inr (later, g) ↦
        let joined : append_text p.content later ≡ text = ground (arith, e, f, g) in
        ap (λ i. contents_up_to i parts) (omega arith)
        ∙ joined_from (suc k) n parts g
        ∙ ap (λ o. append_text (append_text (contents_up_to k parts) (content_at o)) later) f
        ∙ append_text_assoc (contents_up_to k parts) p.content later
        ∙ ap (append_text (contents_up_to k parts)) joined
  ]
]

-- The joined contents are those of the parts from 1 on, in the order of the sequence numbers.
pub joined_parts-contents :
    (n : ℕ) (parts : List (ℕ × InboundPart)) {text : String}
    → joined_parts 1 n parts ≡ some text
    → text ≡ contents_up_to n parts
unfolding contents_up_to
joined_parts-contents n parts {text} e =
    sym (ap (λ i. contents_up_to i parts) (omega arith) ∙ joined_from 0 n parts e ∙ append.nil text)
