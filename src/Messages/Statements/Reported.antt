-- ===== src/Messages/Statements/Reported.antt =====
-- A delivery report moves exactly one recipient, the first that matches.
use at_gateway.Prelude.{
  subst, ℕ, suc, ◌<◌, ◌≡◌, refl, ap, String, Bool, true, false, some, List, [], ◌∷◌, ◌++◌, arith,
  ◌==◌, ==_iff, nat_eq, string_eq, update_where, find_first, count_where, All, Bool-cases,
  Option-cases, inl, inr, last_of-append,
}
use at_gateway.Messages.Result.{ok}
use at_gateway.Messages.State.{ProcessingState, state_eq, sent, last_state, last_is}
use at_gateway.Messages.Rows.{MessageRow, RecipientRow, Db}
use at_gateway.Messages.Statements.{move_recipient, reported, by_ref_result, move_reported}
use at_gateway.Messages.Statements.Sound.{IsSound, Ascends, recipient_ids}

module _ (p : RecipientRow → Bool) (f : RecipientRow → RecipientRow) where
  -- Rows with later ids are left alone.
  update-later :
      (i : ℕ) (rs : List RecipientRow)
      → All (λ j. i < j) (recipient_ids rs)
      → update_where (λ q. q.id == i) f rs ≡ rs
  update-later i [] h = refl
  update-later i (r ∷ rs) h = ground (arith, update-later i rs h.1)

  find_first-later :
      (i : ℕ) (rs : List RecipientRow) (r : RecipientRow)
      → All (λ j. i < j) (recipient_ids rs)
      → find_first p rs ≡ some r
      → i < r.id
  find_first-later i [] r h e = cc
  find_first-later i (x ∷ rs) r h e = elim (Bool-cases (p x)) [
    | inl hit ↦ ground arith
    | inr miss ↦ find_first-later i rs r h.1 (rw miss at e)
  ]

  -- Moving the first match away takes one off the number of matches.
  pub count-move_first :
      ((r : RecipientRow) → p (f r) ≡ false)
      → (next : ℕ) (rs : List RecipientRow) (r : RecipientRow) → Ascends next (recipient_ids rs)
      → find_first p rs ≡ some r
      → count_where p rs ≡ suc (count_where p (update_where (λ q. q.id == r.id) f rs))
  count-move_first away next [] r h e = cc
  count-move_first away next (x ∷ rs) r (b, later, h) e = elim (Bool-cases (p x)) [
    | inl hit ↦
        let same : x ≡ r = ground arith in
        let here : (x.id == r.id) ≡ true =
          (==_iff x.id r.id).1 (ap (λ (q : RecipientRow). q.id) same) in
        let above : All (λ j. r.id < j) (recipient_ids rs) =
          subst (λ (q : RecipientRow). All (λ j. q.id < j) (recipient_ids rs)) same later in
        rw (hit, here, away x, update-later r.id rs above)
    | inr miss ↦
        let e' : find_first p rs ≡ some r = rw miss at e in
        let lt = find_first-later x.id rs r later e' in
        let there : (x.id == r.id) ≡ false = ground arith in
        rw (miss, there, miss) (count-move_first away next rs r h e')
  ]

-- A list around its first match.
pub record Around (p : RecipientRow → Bool) (rs : List RecipientRow) (r : RecipientRow)
    (before after : List RecipientRow) : Type 0 where
  pub whole : rs ≡ before ++ r ∷ after
  pub first : All (λ q. p q ≡ false) before
  pub matches : p r ≡ true

module _ (p : RecipientRow → Bool) (f : RecipientRow → RecipientRow) where
  -- The first match, and what an update of the row with its id leaves.
  pub update-first :
      (next : ℕ) (rs : List RecipientRow) (r : RecipientRow)
      → Ascends next (recipient_ids rs)
      → find_first p rs ≡ some r
      → (before after : List RecipientRow) × Around p rs r before after
        × (update_where (λ q. q.id == r.id) f rs ≡ before ++ f r ∷ after)
  update-first next [] r h e = absurd (ground (arith, e))
  update-first next (x ∷ rs) r (b, later, h) e = elim (Bool-cases (p x)) [
    | inl hit ↦
        let same : x ≡ r = ground arith in
        let here : (x.id == r.id) ≡ true =
          (==_iff x.id r.id).1 (ap (λ (q : RecipientRow). q.id) same) in
        let above : All (λ j. r.id < j) (recipient_ids rs) =
          subst (λ (q : RecipientRow). All (λ j. q.id < j) (recipient_ids rs)) same later in
        (
          [],
          rs,
          record {
            whole = ap (λ q. q ∷ rs) same;
            first = tt;
            matches = subst (λ q. p q ≡ true) same hit;
          },
          rw (here, update-later p f r.id rs above) (ap (λ q. f q ∷ rs) same),
        )
    | inr miss ↦
        let e' : find_first p rs ≡ some r = rw miss at e in
        let lt = find_first-later p f x.id rs r later e' in
        let there : (x.id == r.id) ≡ false = ground arith in
        let (before, after, around, updated) = update-first next rs r h e' in
        (
          x ∷ before,
          after,
          record {
            whole = ap (λ qs. x ∷ qs) around.whole;
            first = (miss, around.first);
            matches = around.matches;
          },
          rw there (ap (λ qs. x ∷ qs) updated),
        )
  ]

-- A recipient that has been moved away from Sent is reported no more.
moved_away :
    (ref : ℕ) (phone : String) (ms : List MessageRow) (s : ProcessingState) (now : ℕ)
    (set : RecipientRow → RecipientRow)
    → ((r : RecipientRow) → (set r).states ≡ r.states)
    → (s == sent) ≡ false
    → (r : RecipientRow) → reported ref phone ms (set (move_recipient s now r)) ≡ false
unfolding reported
moved_away ref phone ms s now set e ne r =
    let states = e (move_recipient s now r) in
    let last = last_of-append r.states (record { state = s; at = now }) in
    let gone : last_is (set (move_recipient s now r)).states sent ≡ false =
      rw (states, last_is, last_state, last) ne in
    ground (arith, gone)

module _ (s : ProcessingState) (ref : ℕ) (phone : String) (now : ℕ)
    (set : RecipientRow → RecipientRow) where
  -- The number of recipients that a report matches falls by one when it is applied, and is 0 when it
  -- is not.
  pub count-move_reported :
      ((r : RecipientRow) → (set r).states ≡ r.states)
      → (s == sent) ≡ false
      → (db : Db) → IsSound db
      → {id : String} → (move_reported s ref phone now set db).0 ≡ ok id
      → count_where (reported ref phone db.messages) db.recipients
        ≡ suc (
            count_where
              (reported ref phone db.messages)
              (move_reported s ref phone now set db).1.recipients)
  unfolding move_reported
  count-move_reported e ne db h {id} f =
      elim (Option-cases (find_first (reported ref phone db.messages) db.recipients)) [
        | inl missing ↦ absurd (ground arith)
        | inr (r, found) ↦
            rw (found, by_ref_result)
              (count-move_first (reported ref phone db.messages) (λ q. set (move_recipient s now q))
                (moved_away ref phone db.messages s now set e ne) db.next_recipient_id db.recipients
                r h.recipient_order found)
      ]

  -- A report touches no message.
  pub messages-move_reported :
      (db : Db) → (move_reported s ref phone now set db).1.messages ≡ db.messages
  unfolding move_reported
  messages-move_reported db =
      elim (Option-cases (find_first (reported ref phone db.messages) db.recipients)) [
        | inl missing ↦ rw (missing, by_ref_result)
        | inr (r, found) ↦ rw (found, by_ref_result)
      ]

  -- An applied report changes the first recipient that matches and no other.
  pub recipients-move_reported :
      (db : Db)
      → IsSound db
      → {id : String} → (move_reported s ref phone now set db).0 ≡ ok id
      → (r : RecipientRow) × (before after : List RecipientRow) × Around
          (reported ref phone db.messages)
          db.recipients
          r
          before
          after
        × ((move_reported s ref phone now set db).1.recipients
            ≡ before ++ set (move_recipient s now r) ∷ after)
  unfolding move_reported
  recipients-move_reported db h {id} f =
      elim (Option-cases (find_first (reported ref phone db.messages) db.recipients)) [
        | inl missing ↦ absurd (ground arith)
        | inr (r, found) ↦
            let (before, after, around, updated) =
              update-first (reported ref phone db.messages) (λ q. set (move_recipient s now q))
                db.next_recipient_id db.recipients r h.recipient_order found in
            rw (found, by_ref_result) (r, before, after, around, updated)
      ]
