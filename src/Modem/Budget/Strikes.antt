-- ===== src/Modem/Budget/Strikes.antt =====
-- How often a store entry is kept for another hand-off: internal/modem/service.go.
use at_gateway.Prelude.{
  ℕ, ◌+◌, ◌<◌, ◌≡◌, refl, ◌∙◌, ap, Bool, true, false, Option, none, some, [], ◌∷◌, ◌==◌,
  if◌then◌else◌, length, leb, find_key, put_key, find-put, find-drop, Bool-cases, inl, inr, arith,
}
use at_gateway.Modem.Budget.{
  StoredRef, ref_eq, Spent, Budgets, budget_window, max_refs, is_fresh, is_live, sweep_budgets,
  evict_oldest, settle, book, spend_channel_full,
}

abbrev option_fresh : ℕ → Option Spent → Bool
option_fresh now none = true
option_fresh now (some b) = is_fresh now b

-- A live budget survives the reclamation.
find-sweep :
    (ref : StoredRef) (b : Spent) (now : ℕ) (m : Budgets)
    → find_key ref m ≡ some b
    → is_fresh now b ≡ true
    → find_key ref (sweep_budgets now m) ≡ some b
unfolding sweep_budgets
find-sweep ref b now [] h live = cc
find-sweep ref b now ((r, c) ∷ m) h live = elim (Bool-cases (r == ref)) [
  | inl same ↦
      let found : some c ≡ some b = rw same at h in
      let kept : is_live now (r, c) ≡ true = ap (option_fresh now) found ∙ live in
      rw (kept, find_key, same) found
  | inr other ↦
      let later = find-sweep ref b now m (rw other at h) live in
      elim (Bool-cases (is_live now (r, c))) [
        | inl kept ↦ rw (kept, find_key, other) later
        | inr gone ↦ rw gone later
      ]
]

book-first :
    (ref : StoredRef) (now : ℕ) (m : Budgets)
    → ((book ref now none m).0 ≡ true)
      × (find_key ref (book ref now none m).1 ≡ some (record { attempts = 1; seen_at = now }))
unfolding book settle
book-first ref now m = (
  refl,
  find-put ref (record { attempts = 1; seen_at = now })
      (if leb max_refs (length m) then evict_oldest m else m),
)

book-second :
    (ref : StoredRef) (now at : ℕ) (m : Budgets)
    → ((book ref now (some (record { attempts = 1; seen_at = at })) m).0 ≡ true)
      × (find_key ref (book ref now (some (record { attempts = 1; seen_at = at })) m).1
          ≡ some (record { attempts = 2; seen_at = now }))
unfolding book settle
book-second ref now at m = (refl, find-put ref (record { attempts = 2; seen_at = now }) m)

book-third :
    (ref : StoredRef) (now at : ℕ) (m : Budgets)
    → ((book ref now (some (record { attempts = 2; seen_at = at })) m).0 ≡ false)
      × (find_key ref (book ref now (some (record { attempts = 2; seen_at = at })) m).1 ≡ none)
unfolding book settle
book-third ref now at m =
    (refl, find-drop ref (put_key ref (record { attempts = 3; seen_at = now }) m))

-- A store entry without a live budget is kept after the first and the second refused hand-off and given
-- up after the third, if each follows the one before within the window; then it has no budget.
pub spend-three_times :
    (ref : StoredRef) (t1 t2 t3 : ℕ) (m : Budgets)
    → find_key ref (sweep_budgets t1 m) ≡ none
    → t2 < t1 + budget_window
    → t3 < t2 + budget_window
    → let first = spend_channel_full ref t1 m in
      let second = spend_channel_full ref t2 first.1 in
      let third = spend_channel_full ref t3 second.1 in
      (first.0 ≡ true) × (second.0 ≡ true) × (third.0 ≡ false) × (find_key ref third.1 ≡ none)
unfolding spend_channel_full
spend-three_times ref t1 t2 t3 m new w2 w3 =
    let live1 = sweep_budgets t1 m in
    let m1 = (book ref t1 none live1).1 in
    let s1 : Spent = record { attempts = 1; seen_at = t1 } in
    let live2 = sweep_budgets t2 m1 in
    let found2 : find_key ref live2 ≡ some s1 =
      find-sweep ref s1 t2 m1 (book-first ref t1 live1).1 (ground (arith, w2)) in
    let m2 = (book ref t2 (some s1) live2).1 in
    let s2 : Spent = record { attempts = 2; seen_at = t2 } in
    let live3 = sweep_budgets t3 m2 in
    let found3 : find_key ref live3 ≡ some s2 =
      find-sweep ref s2 t3 m2 (book-second ref t2 t1 live2).1 (ground (arith, w3)) in
    rw (new, found2, found3)
      (
        (book-first ref t1 live1).0,
        (book-second ref t2 t1 live2).0,
        (book-third ref t3 t2 live3).0,
        (book-third ref t3 t2 live3).1,
      )
