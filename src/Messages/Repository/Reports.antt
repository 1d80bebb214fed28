-- ===== src/Messages/Repository/Reports.antt =====
-- `SetRecipientDeliveredByRef` and `SetRecipientFailedByRef`: one report, one recipient.
use at_gateway.Prelude.{
  List, [], ◌∷◌, ◌++◌, some, false, ◌==◌, ℕ, suc, ◌≡◌, refl, String, count_where,
}
use at_gateway.Messages.Result.{ok, Reason}
use at_gateway.Messages.State.{ProcessingState, state_eq, sent, delivered, failed}
use at_gateway.Messages.Rows.{RecipientRow, Db}
use at_gateway.Messages.Statements.{move_recipient, move_reported, reported}
use at_gateway.Messages.Statements.Sound.{IsSound}
use at_gateway.Messages.Statements.Reported.{
  Around, count-move_reported, messages-move_reported, recipients-move_reported,
}
use at_gateway.Messages.World.{Env, World, tick, statement}
use at_gateway.Messages.World.Keeps.{statement-eq-ok}
use at_gateway.Messages.Repository.{set_recipient_delivered_by_ref, set_recipient_failed_by_ref}

-- How many recipients a report with a reference and a phone number matches.
abbrev pub open_reports : ℕ → String → Db → ℕ
open_reports ref phone db = count_where (reported ref phone db.messages) db.recipients

-- The first recipient that a report matches is changed, and nothing else; the report matches one
-- recipient fewer.
pub record IsApplied (ref : ℕ) (phone : String) (change : RecipientRow → RecipientRow) (db new : Db)
    : Type 0 where
  pub recipient : RecipientRow
  pub before : List RecipientRow
  pub after : List RecipientRow
  pub around : Around (reported ref phone db.messages) db.recipients recipient before after
  pub changed : new.recipients ≡ before ++ change recipient ∷ after
  pub same_messages : new.messages ≡ db.messages
  pub one_fewer : open_reports ref phone db ≡ suc (open_reports ref phone new)

module _ (s : ProcessingState) (set : RecipientRow → RecipientRow) where
  statement-IsApplied :
      ((r : RecipientRow) → (set r).states ≡ r.states)
      → (s == sent) ≡ false
      → (env : Env) (ref : ℕ) (phone : String) (now : ℕ) (w : World) {id : String} {v : World}
      → IsSound w.db
      → statement env (move_reported s ref phone now set) w ≡ (ok id, v)
      → IsApplied ref phone (λ r. set (move_recipient s now r)) w.db v.db
  statement-IsApplied e ne env ref phone now w {id} {v} h f =
      let (answered, tables) = statement-eq-ok env (move_reported s ref phone now set) w f in
      let one = count-move_reported s ref phone now set e ne w.db h answered in
      let same = messages-move_reported s ref phone now set w.db in
      let (r, before, after, around, changed) =
        recipients-move_reported s ref phone now set w.db h answered in
      rw tables (record {
        recipient = r;
        before = before;
        after = after;
        around = around;
        changed = changed;
        same_messages = same;
        one_fewer = rw same one;
      })

-- On sound tables, a delivery report that is applied adds Delivered, at the time of the clock, to the
-- history of the first recipient that its reference and phone number match, and changes no other
-- recipient and no message; then it matches exactly one recipient fewer.
pub delivered_by_ref-one :
    (env : Env) (ref : ℕ) (phone : String) (w : World) {id : String} {v : World}
    → IsSound w.db
    → set_recipient_delivered_by_ref env ref phone w ≡ (ok id, v)
    → IsApplied ref phone
        (λ r. record r {
          states = r.states ++ record { state = delivered; at = env.now w.steps } ∷ [];
        })
        w.db
        v.db
unfolding set_recipient_delivered_by_ref
delivered_by_ref-one env ref phone w h e =
    statement-IsApplied delivered (λ r. r) (λ r. refl) refl env ref phone (env.now w.steps) (tick w)
      h e

-- On sound tables, a failure report that is applied adds Failed, at the time of the clock, to the
-- history of the first recipient that its reference and phone number match, stores the reason with
-- it, and changes no other recipient and no message; then it matches exactly one recipient fewer.
pub failed_by_ref-one :
    (env : Env) (ref : ℕ) (phone : String) (reason : Reason) (w : World) {id : String} {v : World}
    → IsSound w.db
    → set_recipient_failed_by_ref env ref phone reason w ≡ (ok id, v)
    → IsApplied ref phone
        (λ r. record r {
          states = r.states ++ record { state = failed; at = env.now w.steps } ∷ [];
          error = some reason;
        })
        w.db
        v.db
unfolding set_recipient_failed_by_ref
failed_by_ref-one env ref phone reason w h e =
    statement-IsApplied failed (λ r. record r { error = some reason }) (λ r. refl) refl env ref
      phone (env.now w.steps) (tick w) h e
