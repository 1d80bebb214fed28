-- ===== src/Modem/Commands/Barrier.antt =====
-- The drain barrier and the selected store over a connection: internal/modem/sms.go and store.go.
use at_gateway.Prelude.{
  ◌≡◌, refl, sym, ◌∙◌, ap, subst, String, Bool, true, false, Option, List, [], ◌∷◌, if◌then◌else◌,
  string_eq, Bool-cases, inl, inr, ◌⊎◌, arith,
}
use at_gateway.Modem.Domain.{
  Command, drain, select_store, read_at, delete_at, list_all, deadline, rejected, other_error,
  AtAnswer, responded, refused, Result, done, failed, ModemEnv, Outcome, accepted, timed_out,
  Exchange, ModemWorld, next_step,
}
use at_gateway.Modem.Commands.{drained, answered, ask, behind_barrier, drain_locked, exec}

abbrev is_timed_out : Outcome → Bool
is_timed_out timed_out = true
is_timed_out o = false

-- Whether the last exchange timed out, so that lines of its answer may still come.
abbrev pub is_stale : List Exchange → Bool
is_stale [] = false
is_stale (e ∷ older) = is_timed_out e.outcome

-- The store that the last accepted selection named.
abbrev pub named : Outcome → Command → String → String
named accepted (select_store mem) older = mem
named o c older = older

abbrev pub preferred : List Exchange → String
preferred [] = ""
preferred (e ∷ older) = named e.outcome e.command (preferred older)

-- A command on the message store finds the store that it means selected.
abbrev pub OnItsStore : Command → String → Type 0
OnItsStore (read_at mem index) selected = (mem ≡ "") ⊎ (selected ≡ mem)
OnItsStore (delete_at mem index) selected = (mem ≡ "") ⊎ (selected ≡ mem)
OnItsStore (list_all mem) selected = (mem ≡ "") ⊎ (selected ≡ mem)
OnItsStore c selected = Unit

-- After a time-out nothing but a drain is sent, and each store command is sent to its store.
abbrev pub Sound : List Exchange → Type 0
Sound [] = Unit
Sound (e ∷ older) =
    (is_stale older ≡ true → e.command ≡ drain)
    × OnItsStore e.command (preferred older)
    × Sound older

-- The invariant of a connection.
pub record IsSynced (w : ModemWorld) : Type 0 where
  pub pending : w.commands.pending_drain ≡ is_stale w.wire
  pub selected : w.commands.selected_store ≡ preferred w.wire
  pub sound : Sound w.wire

-- What a drain does to a synced connection.
record Drains (w : ModemWorld) (out : Bool × ModemWorld) : Type 0 where
  synced : IsSynced out.1
  clear : out.0 ≡ false → is_stale out.1.wire ≡ false
  same_store : preferred out.1.wire ≡ preferred w.wire

drained-Drains :
    (answer : AtAnswer) (w : ModemWorld)
    → w.commands.pending_drain ≡ true
    → IsSynced w
    → Drains w (drained answer w)
unfolding drained
drained-Drains (responded lines) w stale s = record {
  synced = record { pending = refl; selected = s.selected; sound = ((λ _. refl), tt, s.sound) };
  clear = λ _. refl;
  same_store = refl;
}
drained-Drains (refused (rejected code)) w stale s = record {
  synced = record { pending = refl; selected = s.selected; sound = ((λ _. refl), tt, s.sound) };
  clear = λ _. refl;
  same_store = refl;
}
drained-Drains (refused (other_error e)) w stale s = record {
  synced = record { pending = refl; selected = s.selected; sound = ((λ _. refl), tt, s.sound) };
  clear = λ _. refl;
  same_store = refl;
}
drained-Drains (refused deadline) w stale s = record {
  synced = record { pending = stale; selected = s.selected; sound = ((λ _. refl), tt, s.sound) };
  clear = λ h. absurd (ground (arith, h));
  same_store = refl;
}

drain_locked-Drains :
    {Tpdu : Type 0} (env : ModemEnv Tpdu) (w : ModemWorld)
    → IsSynced w
    → Drains w (drain_locked env w)
unfolding drain_locked
drain_locked-Drains env w s =
    let outcome : Bool → Bool × ModemWorld =
      λ b. if b then drained (env.command w.steps "") w else (false, w) in
    elim (Bool-cases w.commands.pending_drain) [
      | inl stale ↦
          subst (λ b. Drains w (outcome b)) (sym stale)
            (drained-Drains (env.command w.steps "") w stale s)
      | inr clean ↦
          subst (λ b. Drains w (outcome b)) (sym clean)
            (record { synced = s; clear = λ _. sym s.pending ∙ clean; same_store = refl })
    ]

-- The preferred store after a command.
abbrev store_after : Command → Result (List String) → String → String
store_after c (failed e) older = older
store_after c (done lines) older = named accepted c older

-- What a command does to a synced connection.
pub record Runs (c : Command) (w : ModemWorld) (out : Result (List String) × ModemWorld)
    : Type 0 where
  pub pending : out.1.commands.pending_drain ≡ is_stale out.1.wire
  pub selected : out.1.commands.selected_store ≡ w.commands.selected_store
  pub sound : Sound out.1.wire
  pub store : preferred out.1.wire ≡ store_after c out.0 (preferred w.wire)

answered-Runs :
    (c : Command) (payload : Option String) (answer : AtAnswer) (w : ModemWorld)
    → IsSynced w
    → is_stale w.wire ≡ false
    → OnItsStore c (preferred w.wire)
    → Runs c w (answered c payload answer w)
unfolding answered
answered-Runs c payload (responded lines) w s clear store = record {
  pending = s.pending ∙ clear;
  selected = refl;
  sound = ((λ h. absurd (ground (arith, h, clear))), store, s.sound);
  store = refl;
}
answered-Runs c payload (refused (rejected code)) w s clear store = record {
  pending = s.pending ∙ clear;
  selected = refl;
  sound = ((λ h. absurd (ground (arith, h, clear))), store, s.sound);
  store = refl;
}
answered-Runs c payload (refused (other_error e)) w s clear store = record {
  pending = s.pending ∙ clear;
  selected = refl;
  sound = ((λ h. absurd (ground (arith, h, clear))), store, s.sound);
  store = refl;
}
answered-Runs c payload (refused deadline) w s clear store = record {
  pending = refl;
  selected = refl;
  sound = ((λ h. absurd (ground (arith, h, clear))), store, s.sound);
  store = refl;
}

behind_barrier-Runs :
    {Tpdu : Type 0} (env : ModemEnv Tpdu) (c : Command) (payload : Option String) (w : ModemWorld)
    (b : Bool) (v : ModemWorld)
    → v.commands.selected_store ≡ w.commands.selected_store
    → OnItsStore c (preferred w.wire)
    → Drains w (b, v)
    → Runs c w (behind_barrier env c payload (b, v))
unfolding behind_barrier
behind_barrier-Runs env c payload w true v same store d = record {
  pending = d.synced.pending;
  selected = same;
  sound = d.synced.sound;
  store = d.same_store;
}
behind_barrier-Runs env c payload w false v same store d =
    let r =
      answered-Runs c payload (ask env c payload v.steps) v d.synced (d.clear refl)
        (subst (λ x. OnItsStore c x) (sym d.same_store) store) in
    record {
      pending = r.pending;
      selected = r.selected ∙ same;
      sound = r.sound;
      store =
          r.store
          ∙ ap (store_after c (answered c payload (ask env c payload v.steps) v).0) d.same_store;
    }

-- A command on a synced connection keeps the barrier and acts on its store.
pub exec-Runs :
    {Tpdu : Type 0} (env : ModemEnv Tpdu) (c : Command) (payload : Option String) (w : ModemWorld)
    → IsSynced w
    → OnItsStore c (preferred w.wire)
    → Runs c w (exec env c payload w)
unfolding exec
exec-Runs env c payload w s store =
    let d = drain_locked-Drains env w s in
    behind_barrier-Runs env c payload w (drain_locked env w).0 (drain_locked env w).1
      (d.synced.selected ∙ d.same_store ∙ sym s.selected) store d

store_after-named :
    (c : Command) (r : Result (List String)) (older : String)
    → named accepted c older ≡ older
    → store_after c r older ≡ older
store_after-named c (failed e) older h = refl
store_after-named c (done lines) older h = h

-- A command that selects no store.
pub exec-IsSynced :
    {Tpdu : Type 0} (env : ModemEnv Tpdu) (c : Command) (payload : Option String) (w : ModemWorld)
    → named accepted c (preferred w.wire) ≡ preferred w.wire
    → OnItsStore c (preferred w.wire)
    → IsSynced w
    → IsSynced (exec env c payload w).1
exec-IsSynced env c payload w keeps store s =
    let r = exec-Runs env c payload w s store in
    record {
      pending = r.pending;
      selected =
          r.selected
          ∙ s.selected
          ∙ sym (r.store ∙ store_after-named c (exec env c payload w).0 (preferred w.wire) keeps);
      sound = r.sound;
    }

pub next_step-IsSynced : (w : ModemWorld) → IsSynced w → IsSynced (next_step w)
next_step-IsSynced w s = record { pending = s.pending; selected = s.selected; sound = s.sound }
