-- ===== src/Modem/Budget/Limits.antt =====
-- How many retry budgets are kept, and how much each may hold: internal/modem/service.go.
use at_gateway.Prelude.{
  ℕ, suc, ◌<◌, ◌≤◌, ◌≡◌, ◌⊎◌, refl, subst, Bool, true, false, Option, none, some, List, [], ◌∷◌,
  ◌==◌, ==_refl, if◌then◌else◌, length, All, leb, ltb, select_where, find_key, put_key, drop_key,
  length-drop, length-drop-known, length-put, length-put-known, Bool-cases, Option-cases, inl, inr,
  arith,
}
use at_gateway.Modem.Budget.{
  StoredRef, ref_eq, Spent, Budgets, max_refs, max_attempts, is_live, sweep_budgets, oldest,
  evict_oldest, settle, book, spend_channel_full, forget_channel_full,
}

-- A budget that is kept has been spent at least once and leaves a last attempt.
abbrev pub IsOpen : StoredRef × Spent → Type 0
IsOpen (ref, b) = (1 ≤ b.attempts) × (b.attempts < max_attempts)

pub record IsWithinLimits (m : Budgets) : Type 0 where
  pub few : length m ≤ max_refs
  pub unspent : All IsOpen m

-- What happens to the budgets.
pub data BudgetStep : Type 0 where
  spends : StoredRef → ℕ → BudgetStep
  forgets : StoredRef → BudgetStep
  sweeps : ℕ → BudgetStep

unfoldable pub budget_step : Budgets → BudgetStep → Budgets
unfolding spend_channel_full forget_channel_full sweep_budgets
budget_step m (spends ref now) = (spend_channel_full ref now m).1
budget_step m (forgets ref) = forget_channel_full ref m
budget_step m (sweeps now) = sweep_budgets now m

unfoldable pub run_budgets : Budgets → List BudgetStep → Budgets
unfolding budget_step
run_budgets m [] = m
run_budgets m (s ∷ ss) = run_budgets (budget_step m s) ss

abbrev Known : StoredRef → Budgets → Type 0
Known ref m = (b : Spent) × (find_key ref m ≡ some b)

Known-later : (ref r : StoredRef) (b : Spent) (m : Budgets) → Known ref m → Known ref ((r, b) ∷ m)
Known-later ref r b m (c, h) = elim (Bool-cases (r == ref)) [
  | inl same ↦ (b, rw same refl)
  | inr other ↦ (c, rw other h)
]

if_Known :
    (c : Bool) (ref x y : StoredRef) (m : Budgets)
    → ((x ≡ ref) ⊎ Known x m)
    → ((y ≡ ref) ⊎ Known y m)
    → ((if c then x else y) ≡ ref) ⊎ Known (if c then x else y) m
if_Known true ref x y m left right = left
if_Known false ref x y m left right = right

oldest-Known :
    (ref : StoredRef) (at : ℕ) (m : Budgets) → (oldest ref at m ≡ ref) ⊎ Known (oldest ref at m) m
oldest-Known ref at [] = inl refl
oldest-Known ref at ((r, b) ∷ m) =
    if_Known (ltb b.seen_at at) ref (oldest r b.seen_at m) (oldest ref at m) ((r, b) ∷ m)
      (inr (elim (oldest-Known r b.seen_at m) [
        | inl this ↦ (b, rw (this, ==_refl r) refl)
        | inr later ↦ Known-later (oldest r b.seen_at m) r b m later
      ]))
      (elim (oldest-Known ref at m) [
        | inl this ↦ inl this
        | inr later ↦ inr (Known-later (oldest ref at m) r b m later)
      ])

-- The eviction makes room.
evict_oldest-length : (m : Budgets) (n : ℕ) → length m ≤ suc n → length (evict_oldest m) ≤ n
unfolding evict_oldest
evict_oldest-length [] n h = omega arith
evict_oldest-length ((r, b) ∷ m) n h =
    let ref = oldest r b.seen_at m in
    let (c, known) : Known ref ((r, b) ∷ m) = elim (oldest-Known r b.seen_at m) [
      | inl this ↦ (b, rw (this, ==_refl r) refl)
      | inr later ↦ Known-later ref r b m later
    ] in
    omega (arith, length-drop-known ref c ((r, b) ∷ m) known, h)

All-drop : (ref : StoredRef) (m : Budgets) → All IsOpen m → All IsOpen (drop_key ref m)
All-drop ref [] h = tt
All-drop ref ((r, b) ∷ m) h = elim (Bool-cases (r == ref)) [
  | inl same ↦ rw same (All-drop ref m h.1)
  | inr other ↦ rw other (h.0, All-drop ref m h.1)
]

All-drop-put :
    (ref : StoredRef) (b : Spent) (m : Budgets)
    → All IsOpen m
    → All IsOpen (drop_key ref (put_key ref b m))
All-drop-put ref b [] h = rw (==_refl ref) tt
All-drop-put ref b ((r, c) ∷ m) h = elim (Bool-cases (r == ref)) [
  | inl same ↦ rw (same, drop_key, same) (All-drop ref m h.1)
  | inr other ↦ rw (other, drop_key, other) (h.0, All-drop-put ref b m h.1)
]

All-put :
    (ref : StoredRef) (b : Spent) (m : Budgets)
    → IsOpen (ref, b)
    → All IsOpen m
    → All IsOpen (put_key ref b m)
All-put ref b [] o h = (o, tt)
All-put ref b ((r, c) ∷ m) o h = elim (Bool-cases (r == ref)) [
  | inl same ↦ rw same (o, h.1)
  | inr other ↦ rw other (h.0, All-put ref b m o h.1)
]

abbrev OptionOpen : Option Spent → Type 0
OptionOpen none = Unit
OptionOpen (some b) = (1 ≤ b.attempts) × (b.attempts < max_attempts)

All-find :
    (ref : StoredRef) (b : Spent) (m : Budgets)
    → find_key ref m ≡ some b
    → All IsOpen m
    → IsOpen (ref, b)
All-find ref b [] f h = absurd (ground (arith, f))
All-find ref b ((r, c) ∷ m) f h = elim (Bool-cases (r == ref)) [
  | inl same ↦ let found : some c ≡ some b = rw same at f in subst (λ o. OptionOpen o) found h.0
  | inr other ↦ All-find ref b m (rw other at f) h.1
]

All-select : (now : ℕ) (m : Budgets) → All IsOpen m → All IsOpen (select_where (is_live now) m)
All-select now [] h = tt
All-select now (e ∷ m) h = elim (Bool-cases (is_live now e)) [
  | inl kept ↦ rw kept (h.0, All-select now m h.1)
  | inr gone ↦ rw gone (All-select now m h.1)
]

length-select : (now : ℕ) (m : Budgets) → length (select_where (is_live now) m) ≤ length m
length-select now [] = omega arith
length-select now (e ∷ m) = elim (Bool-cases (is_live now e)) [
  | inl kept ↦ rw kept (omega (arith, length-select now m))
  | inr gone ↦ rw gone (omega (arith, length-select now m))
]

sweep_budgets-IsWithinLimits :
    (now : ℕ) (m : Budgets) → IsWithinLimits m → IsWithinLimits (sweep_budgets now m)
unfolding sweep_budgets
sweep_budgets-IsWithinLimits now m w = record {
  few = omega (arith, length-select now m, w.few);
  unspent = All-select now m w.unspent;
}

forget-IsWithinLimits :
    (ref : StoredRef) (m : Budgets) → IsWithinLimits m → IsWithinLimits (forget_channel_full ref m)
unfolding forget_channel_full
forget-IsWithinLimits ref m w = record {
  few = omega (arith, length-drop ref m, w.few);
  unspent = All-drop ref m w.unspent;
}

All-evict : (m : Budgets) → All IsOpen m → All IsOpen (evict_oldest m)
unfolding evict_oldest
All-evict [] h = tt
All-evict ((r, b) ∷ m) h = All-drop (oldest r b.seen_at m) ((r, b) ∷ m) h

-- A reference that is tracked, whose budget is replaced or removed.
book-tracked :
    (ref : StoredRef) (now : ℕ) (b : Spent) (m : Budgets)
    → find_key ref m ≡ some b
    → IsWithinLimits m
    → IsWithinLimits (book ref now (some b) m).1
unfolding book settle
book-tracked ref now b m found w =
    let next : Spent = record { attempts = suc b.attempts; seen_at = now } in
    let same = length-put-known ref next b m found in
    let was = All-find ref b m found w.unspent in
    elim (Bool-cases (leb max_attempts (suc b.attempts))) [
      | inl spent ↦
          rw (book, settle, spent)
            (record {
              few = omega (arith, length-drop ref (put_key ref next m), same, w.few);
              unspent = All-drop-put ref next m w.unspent;
            })
      | inr left ↦
          rw (book, settle, left)
            (record {
              few = omega (arith, same, w.few);
              unspent = All-put ref next m (omega arith, ground (arith, left)) w.unspent;
            })
    ]

book-new :
    (ref : StoredRef) (now : ℕ) (m : Budgets)
    → IsWithinLimits m
    → IsWithinLimits (book ref now none m).1
unfolding book settle
book-new ref now m w =
    let next : Spent = record { attempts = 1; seen_at = now } in
    elim (Bool-cases (leb max_refs (length m))) [
      | inl full ↦
          rw (book, settle, full)
            (record {
              few = omega (
                arith,
                length-put ref next (evict_oldest m),
                evict_oldest-length m 63 (omega (arith, w.few)),
              );
              unspent =
                  All-put ref next (evict_oldest m) (omega arith, omega arith)
                    (All-evict m w.unspent);
            })
      | inr room ↦
          rw (book, settle, room)
            (record {
              few = ground (arith, length-put ref next m, room);
              unspent = All-put ref next m (omega arith, omega arith) w.unspent;
            })
    ]

spend-IsWithinLimits :
    (ref : StoredRef) (now : ℕ) (m : Budgets)
    → IsWithinLimits m
    → IsWithinLimits (spend_channel_full ref now m).1
unfolding spend_channel_full
spend-IsWithinLimits ref now m w =
    let live = sweep_budgets now m in
    let kept = sweep_budgets-IsWithinLimits now m w in
    elim (Option-cases (find_key ref live)) [
      | inl new ↦ rw new (book-new ref now live kept)
      | inr (b, found) ↦ rw found (book-tracked ref now b live found kept)
    ]

budget_step-IsWithinLimits :
    (m : Budgets) (s : BudgetStep) → IsWithinLimits m → IsWithinLimits (budget_step m s)
unfolding budget_step
budget_step-IsWithinLimits m (spends ref now) w = spend-IsWithinLimits ref now m w
budget_step-IsWithinLimits m (forgets ref) w = forget-IsWithinLimits ref m w
budget_step-IsWithinLimits m (sweeps now) w = sweep_budgets-IsWithinLimits now m w

run_keeps_limits :
    (ss : List BudgetStep) (m : Budgets) → IsWithinLimits m → IsWithinLimits (run_budgets m ss)
unfolding run_budgets
run_keeps_limits [] m w = w
run_keeps_limits (s ∷ ss) m w =
    run_keeps_limits ss (budget_step m s) (budget_step-IsWithinLimits m s w)

-- After any sequence of refused hand-offs, accepted ones and reclamations, at any times, at most 64
-- entries are tracked, and each has been refused once or twice.
pub run_budgets-IsWithinLimits : (ss : List BudgetStep) → IsWithinLimits (run_budgets [] ss)
run_budgets-IsWithinLimits ss = run_keeps_limits ss [] (record { few = omega arith; unspent = tt })
