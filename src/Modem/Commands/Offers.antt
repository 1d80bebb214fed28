-- ===== src/Modem/Commands/Offers.antt =====
-- Which payloads a connection was given: internal/modem/sms.go.
use at_gateway.Prelude.{
  ◌≡◌, ◌⊎◌, refl, ◌∙◌, ap, String, Bool, true, false, Option, none, some, List, [], ◌∷◌, ◌++◌,
  if◌then◌else◌, inl, inr, arith,
}
use at_gateway.Modem.Domain.{
  Command, AtAnswer, responded, refused, deadline, rejected, other_error, Result, done, ModemEnv,
  Exchange, ModemWorld,
}
use at_gateway.Modem.Commands.{drained, answered, ask, behind_barrier, drain_locked, exec}

abbrev and_payload : Option String → List String → List String
and_payload none older = older
and_payload (some hex) older = older ++ hex ∷ []

-- The payloads that a connection was given, oldest first.
abbrev pub offered : List Exchange → List String
offered [] = []
offered (e ∷ older) = and_payload e.payload (offered older)

drained-offered :
    (answer : AtAnswer) (w : ModemWorld) → offered (drained answer w).1.wire ≡ offered w.wire
unfolding drained
drained-offered (responded lines) w = refl
drained-offered (refused deadline) w = refl
drained-offered (refused (rejected code)) w = refl
drained-offered (refused (other_error e)) w = refl

answered-offered :
    (c : Command) (hex : String) (answer : AtAnswer) (w : ModemWorld)
    → offered (answered c (some hex) answer w).1.wire ≡ offered w.wire ++ hex ∷ []
unfolding answered
answered-offered c hex (responded lines) w = refl
answered-offered c hex (refused deadline) w = refl
answered-offered c hex (refused (rejected code)) w = refl
answered-offered c hex (refused (other_error e)) w = refl

if_offered :
    (b : Bool) (x y : Bool × ModemWorld) (texts : List String)
    → offered x.1.wire ≡ texts
    → offered y.1.wire ≡ texts
    → offered (if b then x else y).1.wire ≡ texts
if_offered true x y texts left right = left
if_offered false x y texts left right = right

-- What sending one part does: it is given to the modem once or, if it failed, perhaps not at all.
pub record Tries (hex : String) (w : ModemWorld) {A : Type 0} (out : Result A × ModemWorld)
    : Type 0 where
  pub once : (a : A) → out.0 ≡ done a → offered out.1.wire ≡ offered w.wire ++ hex ∷ []
  pub at_most_once :
      (offered out.1.wire ≡ offered w.wire) ⊎ (offered out.1.wire ≡ offered w.wire ++ hex ∷ [])

module _ {Tpdu : Type 0} (env : ModemEnv Tpdu) where
  drain_locked-offered : (w : ModemWorld) → offered (drain_locked env w).1.wire ≡ offered w.wire
  unfolding drain_locked
  drain_locked-offered w =
      if_offered w.commands.pending_drain _ _ (offered w.wire)
        (drained-offered (env.command w.steps "") w) refl

  behind_barrier-Tries :
      (c : Command) (hex : String) (w : ModemWorld) (b : Bool) (v : ModemWorld)
      → offered v.wire ≡ offered w.wire
      → Tries hex w (behind_barrier env c (some hex) (b, v))
  unfolding behind_barrier
  behind_barrier-Tries c hex w true v h = record {
    once = λ a e. absurd (ground (arith, e));
    at_most_once = inl h;
  }
  behind_barrier-Tries c hex w false v h =
      let eq =
        answered-offered c hex (ask env c (some hex) v.steps) v ∙ ap (λ x. x ++ hex ∷ []) h in
      record { once = λ a e. eq; at_most_once = inr eq }

  pub exec-Tries :
      (c : Command) (hex : String) (w : ModemWorld) → Tries hex w (exec env c (some hex) w)
  unfolding exec
  exec-Tries c hex w =
      let d = drain_locked env w in behind_barrier-Tries c hex w d.0 d.1 (drain_locked-offered w)
