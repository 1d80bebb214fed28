-- ===== src/Modem/Store/Erases.antt =====
-- The deletions that the operations on the message store send: internal/modem/store.go.
use at_gateway.Prelude.{
  ap, inr, inl, ◌∷◌, ◌⊎◌, ℕ, ◌≡◌, refl, ◌∙◌, String, Bool, true, false, ◌||◌, Option, none, some,
  List, if◌then◌else◌, ◌==◌, string_eq,
}
use at_gateway.Modem.Domain.{
  delete_at, Command, select_store, read_at, ModemError, Result, done, failed, ModemEnv, ModemWorld,
}
use at_gateway.Modem.Commands.{exec}
use at_gateway.Modem.Commands.Erases.{exec-deletions, deletions, exec-deletions-none}
use at_gateway.Modem.Store.{
  delete_after, delete_lines, delete_stored_message, select_store_locked, store_selected, on_store,
  read_stored_message, read_lines,
}

read_lines-deletions :
    (c : Command) (r : Result (List String)) (w : ModemWorld)
    → deletions (read_lines c (r, w)).1.wire ≡ deletions w.wire
unfolding read_lines
read_lines-deletions c (failed e) w = refl
read_lines-deletions c (done lines) w = refl

store_selected-deletions :
    (mem : String) (r : Result (List String)) (w : ModemWorld)
    → deletions (store_selected mem (r, w)).1.wire ≡ deletions w.wire
unfolding store_selected
store_selected-deletions mem (failed e) w = refl
store_selected-deletions mem (done lines) w = refl

if_same :
    (b : Bool) (x y : Option ModemError × ModemWorld) (ds : List (String × ℕ))
    → deletions x.1.wire ≡ ds
    → deletions y.1.wire ≡ ds
    → deletions (if b then x else y).1.wire ≡ ds
if_same true x y ds left right = left
if_same false x y ds left right = right

module _ {Tpdu : Type 0} (env : ModemEnv Tpdu) where
  select-deletions :
      (mem : String) (w : ModemWorld)
      → deletions (select_store_locked env mem w).1.wire ≡ deletions w.wire
  unfolding select_store_locked
  select-deletions mem w =
      let out = exec env (select_store mem) none w in
      if_same (mem == "" || mem == w.commands.selected_store) _ _ (deletions w.wire) refl (
        store_selected-deletions mem out.0 out.1
        ∙ exec-deletions-none env (select_store mem) none w (λ ds. refl))

  on_store-deletions :
      (mem : String) (index : ℕ) (e : Option ModemError) (w : ModemWorld)
      → deletions (on_store env (read_at mem index) (e, w)).1.wire ≡ deletions w.wire
  unfolding on_store
  on_store-deletions mem index (some e) w = refl
  on_store-deletions mem index none w =
      exec-deletions-none env (read_at mem index) none w (λ ds. refl)

  -- Reading an entry deletes nothing.
  pub read-deletions :
      (mem : String) (index : ℕ) (w : ModemWorld)
      → deletions (read_stored_message env mem index w).1.wire ≡ deletions w.wire
  unfolding read_stored_message
  read-deletions mem index w =
      let picked = select_store_locked env mem w in
      let out = on_store env (read_at mem index) picked in
      read_lines-deletions (read_at mem index) out.0 out.1
      ∙ on_store-deletions mem index picked.0 picked.1
      ∙ select-deletions mem w

  delete_lines-deletions :
      (c : Command) (r : Result (List String)) (w : ModemWorld)
      → deletions (delete_lines c (r, w)).1.wire ≡ deletions w.wire
  unfolding delete_lines
  delete_lines-deletions c (failed e) w = refl
  delete_lines-deletions c (done lines) w = refl

  delete_after-deletions :
      (mem : String) (index : ℕ) (e : Option ModemError) (w : ModemWorld)
      → (deletions (delete_after env mem index (e, w)).1.wire ≡ deletions w.wire)
        ⊎ (deletions (delete_after env mem index (e, w)).1.wire ≡ (mem, index) ∷ deletions w.wire)
  unfolding delete_after
  delete_after-deletions mem index (some e) w = inl refl
  delete_after-deletions mem index none w =
      let out = exec env (delete_at mem index) none w in
      let same = delete_lines-deletions (delete_at mem index) out.0 out.1 in
      elim (exec-deletions env (delete_at mem index) none w) [
        | inl h ↦ inl (same ∙ h)
        | inr h ↦ inr (same ∙ h)
      ]

  -- Deleting an entry asks for no deletion, or for one of that entry.
  pub delete-deletions :
      (mem : String) (index : ℕ) (w : ModemWorld)
      → (deletions (delete_stored_message env mem index w).1.wire ≡ deletions w.wire)
        ⊎ (deletions (delete_stored_message env mem index w).1.wire
            ≡ (mem, index) ∷ deletions w.wire)
  unfolding delete_stored_message
  delete-deletions mem index w =
      let picked = select_store_locked env mem w in
      let same = select-deletions mem w in
      elim (delete_after-deletions mem index picked.0 picked.1) [
        | inl h ↦ inl (h ∙ same)
        | inr h ↦ inr (h ∙ ap (λ ds. (mem, index) ∷ ds) same)
      ]
