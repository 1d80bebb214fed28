-- ===== src/Modem/Commands/Kept.antt =====
-- The init sequence and the queries keep a connection in order: internal/modem/sms.go.
use at_gateway.Prelude.{
  ◌≡◌, refl, String, Option, none, some, List, [], ◌∷◌, Bool-cases, Option-cases, inl, inr, All,
}
use at_gateway.Modem.Domain.{
  Command, ModemError, Result, done, failed, ModemEnv, ModemWorld, next_step,
}
use at_gateway.Modem.Commands.{
  accepted, exec, init_modem, next_row, run_row, row_over, row_problem, init_rows,
}
use at_gateway.Modem.Commands.Barrier.{
  IsSynced, exec-IsSynced, next_step-IsSynced, named, OnItsStore, preferred,
}

-- A command that has nothing to do with the message store.
abbrev pub IsPlain : Command → Type 0
IsPlain c = (older : String) → (named accepted c older ≡ older) × OnItsStore c older

row_over-IsSynced :
    (c : Command) (r : Result (List String)) (w : ModemWorld)
    → IsSynced w
    → IsSynced (row_over c (r, w)).1
unfolding row_over
row_over-IsSynced c (failed e) w s = record {
  pending = s.pending;
  selected = s.selected;
  sound = s.sound;
}
row_over-IsSynced c (done lines) w s = elim (Option-cases (row_problem c lines)) [
  | inl fine ↦ rw (row_over, fine) s
  | inr (e, bad) ↦
      rw (row_over, bad) (record { pending = s.pending; selected = s.selected; sound = s.sound })
]

module _ {Tpdu : Type 0} (env : ModemEnv Tpdu) where
  pub plain-IsSynced :
      (c : Command) (payload : Option String) (w : ModemWorld)
      → IsPlain c
      → IsSynced w
      → IsSynced (exec env c payload w).1
  plain-IsSynced c payload w plain s =
      exec-IsSynced env c payload w (plain (preferred w.wire)).0 (plain (preferred w.wire)).1 s

  run_row-IsSynced :
      (c : Command) (w : ModemWorld) → IsPlain c → IsSynced w → IsSynced (run_row env c w).1
  unfolding run_row
  run_row-IsSynced c w plain s = elim (Bool-cases (env.cancelled w.steps)) [
    | inl late ↦
        rw (run_row, late) (record { pending = s.pending; selected = s.selected; sound = s.sound })
    | inr on_time ↦
        rw (run_row, on_time)
          (row_over-IsSynced c (exec env c none (next_step w)).0 (exec env c none (next_step w)).1
            (plain-IsSynced c none (next_step w) plain (next_step-IsSynced w s)))
  ]

  next_row-IsSynced :
      (rows : List Command) (e : Option ModemError) (w : ModemWorld)
      → All IsPlain rows
      → IsSynced w
      → IsSynced (next_row env rows (e, w)).1
  unfolding next_row
  next_row-IsSynced rows (some e) w plain s = s
  next_row-IsSynced [] none w plain s = record {
    pending = s.pending;
    selected = s.selected;
    sound = s.sound;
  }
  next_row-IsSynced (c ∷ rows) none w plain s =
      next_row-IsSynced rows (run_row env c w).0 (run_row env c w).1 plain.1
        (run_row-IsSynced c w plain.0 s)

  pub init_modem-IsSynced : (w : ModemWorld) → IsSynced w → IsSynced (init_modem env w).1
  unfolding init_modem
  init_modem-IsSynced w s =
      let row : (older : String) → (older ≡ older) × Unit = λ older. (refl, tt) in
      next_row-IsSynced init_rows none w (row, (row, (row, (row, (row, (row, tt)))))) s
