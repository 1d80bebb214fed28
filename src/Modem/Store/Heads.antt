-- ===== src/Modem/Store/Heads.antt =====
-- What is read from an answer of the message store: internal/modem/store.go.
use at_gateway.Prelude.{
  ◌≡◌, refl, ap, ◌∙◌, String, true, false, some, List, [], ◌∷◌, ◌++◌, ◌==◌, string_eq, select_where,
  All, arith,
}
use at_gateway.Modem.Text.{has_prefix, cut_prefix, trim_space}
use at_gateway.Modem.Store.{belongs, drop_urc_heads, stored_pdu, positional}

-- A line of another command or of an unsolicited result: it begins with a plus sign and not with the
-- prefix that is asked for.
abbrev pub Foreign : String → String → Type 0
Foreign want line = (has_prefix line "+" ≡ true) × (has_prefix line want ≡ false)

select-Foreign :
    (want : String) (lines rest : List String)
    → All (Foreign want) lines
    → select_where (belongs want) (lines ++ rest) ≡ select_where (belongs want) rest
select-Foreign want [] rest h = refl
select-Foreign want (x ∷ lines) rest ((plus, other), h) =
    let gone : belongs want x ≡ false = ground (arith, plus, other) in
    rw gone (select-Foreign want lines rest h)

select-kept :
    (want line : String) (rest : List String)
    → belongs want line ≡ true
    → select_where (belongs want) (line ∷ rest) ≡ line ∷ select_where (belongs want) rest
select-kept want line rest h = rw h refl

-- From an answer whose header is followed by a body, with any number of foreign lines in front of the
-- header and of the body and any lines after it, the body is read, if it does not begin with a plus
-- sign and is more than spaces.
pub stored_pdu-body :
    (want header rest body : String) (before between after : List String)
    → All (Foreign want) before
    → All (Foreign want) between
    → cut_prefix header want ≡ some rest
    → has_prefix body "+" ≡ false
    → (trim_space body == "") ≡ false
    → stored_pdu (before ++ (header ∷ (between ++ (body ∷ after)))) want ≡ some (trim_space body)
unfolding stored_pdu drop_urc_heads
stored_pdu-body want header rest body before between after b m head plain full =
    let own : belongs want header ≡ true = ground (arith, head) in
    let kept : belongs want body ≡ true = ground (arith, plain) in
    let lines =
      select-Foreign want before (header ∷ (between ++ (body ∷ after))) b
      ∙ select-kept want header (between ++ (body ∷ after)) own
      ∙ ap (λ ls. header ∷ ls)
          (select-Foreign want between (body ∷ after) m ∙ select-kept want body after kept) in
    ap (positional want) lines ∙ rw (head, full) refl
