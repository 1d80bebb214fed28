-- ===== src/Messages/Worker/Final.antt =====
-- `resolveFinalState` against a description of the recipients' states.
use at_gateway.Prelude.{
  ◌≤◌, ◌≡◌, refl, ◌↔◌, ◌⊎◌, inl, inr, true, false, List, [], ◌∷◌, arith, ◌==◌, nat_eq, ==_iff,
  length, count_where, All, Bool-cases,
}
use at_gateway.Messages.State.{
  ProcessingState, state_eq, pending, processed, cancelled, sent, delivered, failed,
}
use at_gateway.Messages.Worker.{has_state, all_state, resolve_final_state}

count-le-length :
    (s : ProcessingState) (ts : List ProcessingState) → count_where (λ t. t == s) ts ≤ length ts
count-le-length s [] = omega arith
count-le-length s (t ∷ ts) = ground (arith, count-le-length s ts)

-- The count reaches the length exactly when every entry is the state.
pub all_state-All :
    (s : ProcessingState) (ts : List ProcessingState) → all_state s ts ≡ true → All (λ t. t ≡ s) ts
all_state-All s [] h = tt
all_state-All s (t ∷ ts) h = (
  ground (arith, ==_iff t s, count-le-length s ts),
  all_state-All s ts (ground (arith, count-le-length s ts)),
)

All-all_state :
    (s : ProcessingState) (ts : List ProcessingState) → All (λ t. t ≡ s) ts → all_state s ts ≡ true
All-all_state s [] h = refl
All-all_state s (t ∷ ts) h = ground (arith, ==_iff t s, All-all_state s ts h.1)

-- A state that no entry equals is not among them.
has_state_absent :
    (s u : ProcessingState) (ts : List ProcessingState)
    → (u == s) ≡ false
    → All (λ t. t ≡ u) ts
    → has_state s ts ≡ false
has_state_absent s u [] e h = refl
has_state_absent s u (t ∷ ts) e h = rw (h.0, e) (has_state_absent s u ts e h.1)

-- A message resolves to Failed exactly when every recipient has failed (so also when it has none).
pub resolve_failed_iff :
    (ts : List ProcessingState) → (resolve_final_state ts ≡ failed) ↔ All (λ t. t ≡ failed) ts
unfolding resolve_final_state
resolve_failed_iff ts = (
  (λ e. all_state-All failed ts (ground arith)),
  (λ h. rw (
    has_state_absent pending failed ts refl h,
    has_state_absent cancelled failed ts refl h,
    has_state_absent processed failed ts refl h,
    All-all_state failed ts h,
  )),
)

-- A message with a recipient resolves to Delivered exactly when every recipient is Delivered.
pub resolve_delivered_iff :
    (t : ProcessingState) (ts : List ProcessingState)
    → (resolve_final_state (t ∷ ts) ≡ delivered) ↔ All (λ u. u ≡ delivered) (t ∷ ts)
unfolding resolve_final_state
resolve_delivered_iff t ts = (
  (λ e. all_state-All delivered (t ∷ ts) (ground arith)),
  (λ h.
      rw
        (
          has_state_absent pending delivered (t ∷ ts) refl h,
          has_state_absent cancelled delivered (t ∷ ts) refl h,
          has_state_absent processed delivered (t ∷ ts) refl h,
        )
        (ground (arith, h.0, count-le-length failed ts, All-all_state delivered (t ∷ ts) h))),
)

abbrev IsFinal : ProcessingState → Type 0
IsFinal t = (t ≡ delivered) ⊎ (t ≡ failed)

not_among_final :
    (s : ProcessingState) (ts : List ProcessingState)
    → (delivered == s) ≡ false
    → (failed == s) ≡ false
    → All IsFinal ts
    → has_state s ts ≡ false
not_among_final s [] d f h = refl
not_among_final s (t ∷ ts) d f (inl e, h) = rw (e, d) (not_among_final s ts d f h)
not_among_final s (t ∷ ts) d f (inr e, h) = rw (e, f) (not_among_final s ts d f h)

-- An entry that differs keeps the count below the length.
all_state_broken :
    (s u : ProcessingState) (ts : List ProcessingState)
    → (u == s) ≡ false
    → has_state u ts ≡ true
    → all_state s ts ≡ false
all_state_broken s u ts e h = elim (Bool-cases (all_state s ts)) [
  | inl all ↦ absurd (go ts h (all_state-All s ts all))
  | inr some_other ↦ some_other
]
  where
    go : (ts : List ProcessingState) → has_state u ts ≡ true → All (λ t. t ≡ s) ts → ⊥
    go [] h a = cc
    go (t ∷ ts) h a = elim (Bool-cases (t == u)) [
      | inl same ↦
          let t_u : t ≡ u = (==_iff t u).0 same in
          let u_s : (u == s) ≡ true = (==_iff u s).1 (cc (t_u, a.0)) in cc
      | inr different ↦ go ts (rw different at h) a.1
    ]

-- Recipients that have all ended, some Delivered and some Failed, leave the message Sent.
pub resolve_mixed :
    (ts : List ProcessingState)
    → All (λ t. (t ≡ delivered) ⊎ (t ≡ failed)) ts
    → has_state delivered ts ≡ true
    → has_state failed ts ≡ true
    → resolve_final_state ts ≡ sent
unfolding resolve_final_state
resolve_mixed ts h d f = rw (
  not_among_final pending ts refl refl h,
  not_among_final cancelled ts refl refl h,
  not_among_final processed ts refl refl h,
  all_state_broken failed delivered ts refl d,
  all_state_broken delivered failed ts refl f,
)
