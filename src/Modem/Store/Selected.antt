-- ===== src/Modem/Store/Selected.antt =====
-- The operations on the message store act on the store that they mean: internal/modem/store.go.
use at_gateway.Prelude.{
  subst, arith, ℕ, ◌≡◌, refl, sym, ◌∙◌, String, ◌||◌, Option, none, some, List, ◌==◌, ==_iff,
  string_eq, Bool-cases, inl, inr, ◌⊎◌,
}
use at_gateway.Modem.Domain.{
  accepted, Command, select_store, read_at, delete_at, list_all, ModemError, Result, done, failed,
  ModemEnv, ModemWorld,
}
use at_gateway.Modem.Commands.{exec}
use at_gateway.Modem.Commands.Barrier.{
  IsSynced, Runs, exec-Runs, exec-IsSynced, named, OnItsStore, preferred,
}
use at_gateway.Modem.Store.{
  select_store_locked, store_selected, on_store, read_stored_message, read_lines, delete_after,
  delete_lines, delete_stored_message, list_stored_messages, list_lines,
}

-- After the selection of a store the connection is in order, and unless the selection failed the store
-- is the preferred one.
pub record Selects (mem : String) (out : Option ModemError × ModemWorld) : Type 0 where
  pub synced : IsSynced out.1
  pub found : out.0 ≡ none → (mem ≡ "") ⊎ (preferred out.1.wire ≡ mem)

store_selected-Selects :
    (mem : String) (w : ModemWorld) (r : Result (List String)) (v : ModemWorld)
    → IsSynced w
    → Runs (select_store mem) w (r, v)
    → Selects mem (store_selected mem (r, v))
unfolding store_selected
store_selected-Selects mem w (failed e) v s r = record {
  synced = record {
    pending = r.pending;
    selected = r.selected ∙ s.selected ∙ sym r.store;
    sound = r.sound;
  };
  found = λ h. absurd (ground (arith, h));
}
store_selected-Selects mem w (done lines) v s r = record {
  synced = record { pending = r.pending; selected = sym r.store; sound = r.sound };
  found = λ _. inr r.store;
}

module _ {Tpdu : Type 0} (env : ModemEnv Tpdu) where
  select_store_locked-Selects :
      (mem : String) (w : ModemWorld) → IsSynced w → Selects mem (select_store_locked env mem w)
  unfolding select_store_locked
  select_store_locked-Selects mem w s =
      elim (Bool-cases (mem == "" || mem == w.commands.selected_store)) [
        | inl known ↦
            rw (select_store_locked, known)
              (record {
                synced = s;
                found = λ _. elim (Bool-cases (mem == "")) [
                  | inl none_named ↦ inl ((==_iff mem "").0 none_named)
                  | inr named_one ↦ inr (
                      sym s.selected
                      ∙ sym (
                          (==_iff mem w.commands.selected_store).0
                            (ground (arith, known, named_one))))
                ];
              })
        | inr new ↦
            rw (select_store_locked, new)
              (store_selected-Selects mem w (exec env (select_store mem) none w).0
                (exec env (select_store mem) none w).1 s
                (exec-Runs env (select_store mem) none w s tt))
      ]

  on_store-IsSynced :
      (c : Command) (mem : String) (e : Option ModemError) (w : ModemWorld)
      → ((older : String) → named accepted c older ≡ older)
      → ((mem ≡ "") ⊎ (preferred w.wire ≡ mem) → OnItsStore c (preferred w.wire))
      → Selects mem (e, w)
      → IsSynced (on_store env c (e, w)).1
  unfolding on_store
  on_store-IsSynced c mem (some e) w keeps store s = s.synced
  on_store-IsSynced c mem none w keeps store s =
      exec-IsSynced env c none w (keeps (preferred w.wire)) (store (s.found refl)) s.synced

  read_lines-world :
      (c : Command) (r : Result (List String)) (w : ModemWorld) → (read_lines c (r, w)).1 ≡ w
  unfolding read_lines
  read_lines-world c (failed e) w = refl
  read_lines-world c (done lines) w = refl

  list_lines-world : (r : Result (List String)) (w : ModemWorld) → (list_lines (r, w)).1 ≡ w
  unfolding list_lines
  list_lines-world (failed e) w = refl
  list_lines-world (done lines) w = refl

  delete_lines-world :
      (c : Command) (r : Result (List String)) (w : ModemWorld) → (delete_lines c (r, w)).1 ≡ w
  unfolding delete_lines
  delete_lines-world c (failed e) w = refl
  delete_lines-world c (done lines) w = refl

  delete_after-IsSynced :
      (mem : String) (index : ℕ) (e : Option ModemError) (w : ModemWorld)
      → Selects mem (e, w)
      → IsSynced (delete_after env mem index (e, w)).1
  unfolding delete_after
  delete_after-IsSynced mem index (some e) w s = s.synced
  delete_after-IsSynced mem index none w s =
      let out = exec env (delete_at mem index) none w in
      subst IsSynced (sym (delete_lines-world (delete_at mem index) out.0 out.1))
        (exec-IsSynced env (delete_at mem index) none w refl (s.found refl) s.synced)

  pub read_stored_message-IsSynced :
      (mem : String) (index : ℕ) (w : ModemWorld)
      → IsSynced w
      → IsSynced (read_stored_message env mem index w).1
  unfolding read_stored_message
  read_stored_message-IsSynced mem index w s =
      let picked = select_store_locked env mem w in
      let out = on_store env (read_at mem index) picked in
      subst IsSynced (sym (read_lines-world (read_at mem index) out.0 out.1)) (
        on_store-IsSynced (read_at mem index) mem picked.0 picked.1 (λ older. refl) (λ h. h)
          (select_store_locked-Selects mem w s))

  pub delete_stored_message-IsSynced :
      (mem : String) (index : ℕ) (w : ModemWorld)
      → IsSynced w
      → IsSynced (delete_stored_message env mem index w).1
  unfolding delete_stored_message
  delete_stored_message-IsSynced mem index w s =
      let picked = select_store_locked env mem w in
      delete_after-IsSynced mem index picked.0 picked.1 (select_store_locked-Selects mem w s)

  pub list_stored_messages-IsSynced :
      (mem : String) (w : ModemWorld) → IsSynced w → IsSynced (list_stored_messages env mem w).1
  unfolding list_stored_messages
  list_stored_messages-IsSynced mem w s =
      let picked = select_store_locked env mem w in
      let out = on_store env (list_all mem) picked in
      subst IsSynced (sym (list_lines-world out.0 out.1)) (
        on_store-IsSynced (list_all mem) mem picked.0 picked.1 (λ older. refl) (λ h. h)
          (select_store_locked-Selects mem w s))
