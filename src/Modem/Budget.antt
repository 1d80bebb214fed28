-- ===== src/Modem/Budget.antt =====
-- The retry budget of the entries of the message store whose part the consumer did not take:
-- `spendChannelFull` and its siblings in internal/modem/service.go.
pub mod Strikes
pub mod Limits
use at_gateway.Prelude.{
  ℕ, suc, ◌≡◌, ◌↔◌, Bool, true, false, not, ◌&&◌, Option, none, some, List, [], ◌∷◌, HasTest, ◌==◌,
  ==_iff, nat_eq, ltb, leb, if◌then◌else◌, length, select_where, find_key, put_key, drop_key, arith,
}
use at_gateway.Inbox.Dedupe.{elapsed}

-- `storedRef`.
pub record StoredRef : Type 0 where
  pub memory : ℕ
  pub index : ℕ

abbrev ref_test : StoredRef → StoredRef → Bool
ref_test a b = a.memory == b.memory && a.index == b.index

pub ref_test_iff : (a b : StoredRef) → (ref_test a b ≡ true) ↔ (a ≡ b)
ref_test_iff a b = ground (arith, ==_iff a.memory b.memory, ==_iff a.index b.index)

instance abbrev pub ref_eq : HasTest StoredRef
ref_eq = record { test = ref_test; test_iff = ref_test_iff }

-- `channelFullBudget`.
pub record Spent : Type 0 where
  pub attempts : ℕ
  pub seen_at : ℕ

-- `channelFullDrops`.
abbrev pub Budgets : Type 0
Budgets = List (StoredRef × Spent)

-- `inboundChannelFullBudgetWindow`, in the unit of the clock (a nanosecond).
abbrev pub budget_window : ℕ
budget_window = 300000000000

-- `inboundChannelFullRefs` and `inboundChannelFullRetries`.
abbrev pub max_refs : ℕ
max_refs = 64

abbrev pub max_attempts : ℕ
max_attempts = 3

abbrev pub is_fresh : ℕ → Spent → Bool
is_fresh now b = not (elapsed b.seen_at budget_window now)

abbrev pub is_live : ℕ → StoredRef × Spent → Bool
is_live now (ref, b) = is_fresh now b

-- `sweepChannelFullBudgets`.
unfoldable pub sweep_budgets : ℕ → Budgets → Budgets
sweep_budgets now m = select_where (is_live now) m

-- The first of the oldest entries, in the order of the walk.
abbrev pub oldest : StoredRef → ℕ → Budgets → StoredRef
oldest ref at [] = ref
oldest ref at ((r, b) ∷ m) =
    let older = oldest r b.seen_at m in
    let same = oldest ref at m in if ltb b.seen_at at then older else same

-- `evictOldestChannelFullBudgetLocked`.
unfoldable pub evict_oldest : Budgets → Budgets
evict_oldest [] = []
evict_oldest ((r, b) ∷ m) = drop_key (oldest r b.seen_at m) ((r, b) ∷ m)

unfoldable settle : StoredRef → Spent → Budgets → Bool × Budgets
settle ref b m =
    if leb max_attempts b.attempts
    then (false, drop_key ref (put_key ref b m))
    else (true, put_key ref b m)

unfoldable book : StoredRef → ℕ → Option Spent → Budgets → Bool × Budgets
unfolding settle evict_oldest
book ref now (some b) m = settle ref (record { attempts = suc b.attempts; seen_at = now }) m
book ref now none m =
    settle ref (record { attempts = 1; seen_at = now })
      (if leb max_refs (length m) then evict_oldest m else m)

-- `spendChannelFull`: whether a retry is still allowed.
unfoldable pub spend_channel_full : StoredRef → ℕ → Budgets → Bool × Budgets
unfolding sweep_budgets book
spend_channel_full ref now m =
    book ref now (find_key ref (sweep_budgets now m)) (sweep_budgets now m)

-- `forgetChannelFull`.
unfoldable pub forget_channel_full : StoredRef → Budgets → Budgets
forget_channel_full ref m = drop_key ref m
