-- ===== src/Modem/Commands/Erases.antt =====
-- Which entries of the message store a connection was asked to delete: internal/modem/store.go.
use at_gateway.Prelude.{
  ℕ, ◌≡◌, ◌⊎◌, refl, ◌∙◌, ap, String, Bool, true, false, Option, List, [], ◌∷◌, if◌then◌else◌, inl,
  inr,
}
use at_gateway.Modem.Domain.{
  Command, delete_at, AtAnswer, responded, refused, deadline, rejected, other_error, ModemEnv,
  Exchange, ModemWorld,
}
use at_gateway.Modem.Commands.{drained, answered, ask, behind_barrier, drain_locked, exec}

abbrev pub erasing : Command → List (String × ℕ) → List (String × ℕ)
erasing (delete_at mem index) older = (mem, index) ∷ older
erasing c older = older

-- The deletions that were sent, newest first.
abbrev pub deletions : List Exchange → List (String × ℕ)
deletions [] = []
deletions (e ∷ older) = erasing e.command (deletions older)

drained-deletions :
    (answer : AtAnswer) (w : ModemWorld) → deletions (drained answer w).1.wire ≡ deletions w.wire
unfolding drained
drained-deletions (responded lines) w = refl
drained-deletions (refused deadline) w = refl
drained-deletions (refused (rejected code)) w = refl
drained-deletions (refused (other_error e)) w = refl

answered-deletions :
    (c : Command) (payload : Option String) (answer : AtAnswer) (w : ModemWorld)
    → deletions (answered c payload answer w).1.wire ≡ erasing c (deletions w.wire)
unfolding answered
answered-deletions c payload (responded lines) w = refl
answered-deletions c payload (refused deadline) w = refl
answered-deletions c payload (refused (rejected code)) w = refl
answered-deletions c payload (refused (other_error e)) w = refl

if_deletions :
    (b : Bool) (x y : Bool × ModemWorld) (ds : List (String × ℕ))
    → deletions x.1.wire ≡ ds
    → deletions y.1.wire ≡ ds
    → deletions (if b then x else y).1.wire ≡ ds
if_deletions true x y ds left right = left
if_deletions false x y ds left right = right

module _ {Tpdu : Type 0} (env : ModemEnv Tpdu) where
  drain_locked-deletions :
      (w : ModemWorld) → deletions (drain_locked env w).1.wire ≡ deletions w.wire
  unfolding drain_locked
  drain_locked-deletions w =
      if_deletions w.commands.pending_drain _ _ (deletions w.wire)
        (drained-deletions (env.command w.steps "") w) refl

  behind_barrier-deletions :
      (c : Command) (payload : Option String) (b : Bool) (v : ModemWorld)
      → (deletions (behind_barrier env c payload (b, v)).1.wire ≡ deletions v.wire)
        ⊎ (deletions (behind_barrier env c payload (b, v)).1.wire ≡ erasing c (deletions v.wire))
  unfolding behind_barrier
  behind_barrier-deletions c payload true v = inl refl
  behind_barrier-deletions c payload false v =
      inr (answered-deletions c payload (ask env c payload v.steps) v)

  -- A command asks for no deletion but its own.
  pub exec-deletions :
      (c : Command) (payload : Option String) (w : ModemWorld)
      → (deletions (exec env c payload w).1.wire ≡ deletions w.wire)
        ⊎ (deletions (exec env c payload w).1.wire ≡ erasing c (deletions w.wire))
  unfolding exec
  exec-deletions c payload w =
      let d = drain_locked env w in
      let same = drain_locked-deletions w in
      elim (behind_barrier-deletions c payload d.0 d.1) [
        | inl h ↦ inl (h ∙ same)
        | inr h ↦ inr (h ∙ ap (erasing c) same)
      ]

  -- A command that is no deletion.
  pub exec-deletions-none :
      (c : Command) (payload : Option String) (w : ModemWorld)
      → ((ds : List (String × ℕ)) → erasing c ds ≡ ds)
      → deletions (exec env c payload w).1.wire ≡ deletions w.wire
  exec-deletions-none c payload w other = elim (exec-deletions c payload w) [
    | inl h ↦ h
    | inr h ↦ h ∙ other (deletions w.wire)
  ]
