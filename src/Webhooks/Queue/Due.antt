-- ===== src/Webhooks/Queue/Due.antt =====
-- The selection of due items: `DueItems` of internal/webhooks/repository.go.
use at_gateway.Prelude.{
  ap, ℕ, zero, suc, ◌≤◌, ◌≡◌, refl, subst, ◌⊎◌, inl, inr, Bool, true, false, List, [], ◌∷◌, leb,
  length, select_where, All, Bool-cases, arith,
}
use at_gateway.Webhooks.Domain.{QueueItem}
use at_gateway.Webhooks.Queue.{is_due, insert_by_time, order_by_time, first_items, due_items}

-- Ascending in the next attempt.
abbrev pub Ordered : List QueueItem → Type 0
Ordered [] = Unit
Ordered (q ∷ qs) = All (λ r. q.next_attempt ≤ r.next_attempt) qs × Ordered qs

module _ (P : QueueItem → Type 0) where
  pub All-insert_by_time :
      (q : QueueItem) (qs : List QueueItem) → P q → All P qs → All P (insert_by_time q qs)
  unfolding insert_by_time
  All-insert_by_time q [] h hs = (h, tt)
  All-insert_by_time q (r ∷ rs) h hs = elim (Bool-cases (leb q.next_attempt r.next_attempt)) [
    | inl le ↦ rw (insert_by_time, le) (h, hs)
    | inr gt ↦ rw (insert_by_time, gt) (hs.0, All-insert_by_time q rs h hs.1)
  ]

  pub All-order_by_time : (qs : List QueueItem) → All P qs → All P (order_by_time qs)
  unfolding order_by_time
  All-order_by_time [] hs = tt
  All-order_by_time (q ∷ qs) hs =
      All-insert_by_time q (order_by_time qs) hs.0 (All-order_by_time qs hs.1)

  pub All-first_items : (n : ℕ) (qs : List QueueItem) → All P qs → All P (first_items n qs)
  All-first_items zero qs hs = tt
  All-first_items (suc n) [] hs = tt
  All-first_items (suc n) (q ∷ qs) hs = (hs.0, All-first_items n qs hs.1)

  pub All-select_where :
      (p : QueueItem → Bool) (qs : List QueueItem) → All P qs → All P (select_where p qs)
  All-select_where p [] hs = tt
  All-select_where p (q ∷ qs) hs = elim (Bool-cases (p q)) [
    | inl kept ↦ rw (select_where, kept) (hs.0, All-select_where p qs hs.1)
    | inr gone ↦ rw (select_where, gone) (All-select_where p qs hs.1)
  ]

  pub All-due_items :
      (now limit : ℕ) (qs : List QueueItem) → All P qs → All P (due_items now limit qs)
  unfolding due_items
  All-due_items now limit qs hs =
      All-first_items limit (order_by_time (select_where (is_due now) qs))
        (All-order_by_time (select_where (is_due now) qs) (All-select_where (is_due now) qs hs))

select_where-due :
    (now : ℕ) (qs : List QueueItem) → All (λ q. is_due now q ≡ true) (select_where (is_due now) qs)
select_where-due now [] = tt
select_where-due now (q ∷ qs) = elim (Bool-cases (is_due now q)) [
  | inl due ↦ rw (select_where, due) (due, select_where-due now qs)
  | inr not_due ↦ rw (select_where, not_due) (select_where-due now qs)
]

All-later :
    (n m : ℕ) (qs : List QueueItem)
    → n ≤ m
    → All (λ r. m ≤ r.next_attempt) qs
    → All (λ r. n ≤ r.next_attempt) qs
All-later n m [] l h = tt
All-later n m (q ∷ qs) l h = (omega (arith, l, h.0), All-later n m qs l h.1)

Ordered-insert : (q : QueueItem) (qs : List QueueItem) → Ordered qs → Ordered (insert_by_time q qs)
unfolding insert_by_time
Ordered-insert q [] h = (tt, tt)
Ordered-insert q (r ∷ rs) h = elim (Bool-cases (leb q.next_attempt r.next_attempt)) [
  | inl le ↦
      let l : q.next_attempt ≤ r.next_attempt = ground (arith, le) in
      rw (insert_by_time, le) ((l, All-later q.next_attempt r.next_attempt rs l h.0), h)
  | inr gt ↦
      let l : r.next_attempt ≤ q.next_attempt = ground (arith, gt) in
      rw (insert_by_time, gt)
        (
          All-insert_by_time (λ x. r.next_attempt ≤ x.next_attempt) q rs l h.0,
          Ordered-insert q rs h.1,
        )
]

Ordered-order : (qs : List QueueItem) → Ordered (order_by_time qs)
unfolding order_by_time
Ordered-order [] = tt
Ordered-order (q ∷ qs) = Ordered-insert q (order_by_time qs) (Ordered-order qs)

Ordered-first_items : (n : ℕ) (qs : List QueueItem) → Ordered qs → Ordered (first_items n qs)
Ordered-first_items zero qs h = tt
Ordered-first_items (suc n) [] h = tt
Ordered-first_items (suc n) (q ∷ qs) h =
    (All-first_items (λ r. q.next_attempt ≤ r.next_attempt) n qs h.0, Ordered-first_items n qs h.1)

length-first_items : (n : ℕ) (qs : List QueueItem) → length (first_items n qs) ≤ n
length-first_items zero qs = omega arith
length-first_items (suc n) [] = omega arith
length-first_items (suc n) (q ∷ qs) = omega (arith, length-first_items n qs)

-- An item of a list.
abbrev pub In : QueueItem → List QueueItem → Type 0
In q [] = ⊥
In q (r ∷ rs) = (r ≡ q) ⊎ In q rs

In-insert-head : (q : QueueItem) (qs : List QueueItem) → In q (insert_by_time q qs)
unfolding insert_by_time
In-insert-head q [] = inl refl
In-insert-head q (r ∷ rs) = elim (Bool-cases (leb q.next_attempt r.next_attempt)) [
  | inl le ↦ rw (insert_by_time, le) (inl refl)
  | inr gt ↦ rw (insert_by_time, gt) (inr (In-insert-head q rs))
]

In-insert : (x q : QueueItem) (qs : List QueueItem) → In x qs → In x (insert_by_time q qs)
unfolding insert_by_time
In-insert x q [] h = absurd h
In-insert x q (r ∷ rs) h = elim (Bool-cases (leb q.next_attempt r.next_attempt)) [
  | inl le ↦ rw (insert_by_time, le) (inr h)
  | inr gt ↦ rw (insert_by_time, gt) (elim h [ inl e ↦ inl e | inr k ↦ inr (In-insert x q rs k) ])
]

In-order : (x : QueueItem) (qs : List QueueItem) → In x qs → In x (order_by_time qs)
unfolding order_by_time
In-order x [] h = absurd h
In-order x (q ∷ qs) h = elim h [
  | inl e ↦
      subst (λ y. In y (insert_by_time q (order_by_time qs))) e
        (In-insert-head q (order_by_time qs))
  | inr k ↦ In-insert x q (order_by_time qs) (In-order x qs k)
]

In-select :
    (x : QueueItem) (now : ℕ) (qs : List QueueItem)
    → is_due now x ≡ true
    → In x qs
    → In x (select_where (is_due now) qs)
In-select x now [] d h = absurd h
In-select x now (q ∷ qs) d h = elim (Bool-cases (is_due now q)) [
  | inl due ↦
      rw (select_where, due) (elim h [ inl e ↦ inl e | inr k ↦ inr (In-select x now qs d k) ])
  | inr not_due ↦
      rw (select_where, not_due)
        (elim h [
          | inl e ↦ absurd (ground (arith, subst (λ y. is_due now y ≡ false) e not_due, d))
          | inr k ↦ In-select x now qs d k
        ])
]

-- The first items of an ordered list miss an item only if they are as many as allowed and all earlier.
abbrev pub Waits : ℕ → QueueItem → List QueueItem → Type 0
Waits n x batch = (length batch ≡ n) × All (λ b. b.next_attempt ≤ x.next_attempt) batch

In-later :
    (x : QueueItem) (n : ℕ) (qs : List QueueItem)
    → All (λ r. n ≤ r.next_attempt) qs
    → In x qs
    → n ≤ x.next_attempt
In-later x n [] h k = absurd k
In-later x n (q ∷ qs) h k = elim k [
  | inl e ↦ subst (λ y. n ≤ y.next_attempt) e h.0
  | inr t ↦ In-later x n qs h.1 t
]

In-first_items :
    (x : QueueItem) (n : ℕ) (qs : List QueueItem)
    → Ordered qs
    → In x qs
    → In x (first_items n qs) ⊎ Waits n x (first_items n qs)
In-first_items x zero qs o h = inr (refl, tt)
In-first_items x (suc n) [] o h = absurd h
In-first_items x (suc n) (q ∷ qs) o h = elim h [
  | inl e ↦ inl (inl e)
  | inr k ↦ elim (In-first_items x n qs o.1 k) [
    | inl i ↦ inl (inr i)
    | inr (full, earlier) ↦ inr (ap suc full, (In-later x q.next_attempt qs o.0 k, earlier))
  ]
]

-- What a selected batch satisfies.
pub record IsBatch (now limit : ℕ) (batch : List QueueItem) : Type 0 where
  pub within : length batch ≤ limit
  pub all_due : All (λ q. is_due now q ≡ true) batch
  pub ordered : Ordered batch

-- The selected rows are at most as many as the limit, all of them are due, and they are ordered by the
-- time of their next attempt.
pub due_items-IsBatch :
    (now limit : ℕ) (items : List QueueItem) → IsBatch now limit (due_items now limit items)
unfolding due_items
due_items-IsBatch now limit items =
    let due = select_where (is_due now) items in
    record {
      within = length-first_items limit (order_by_time due);
      all_due =
          All-first_items (λ q. is_due now q ≡ true) limit (order_by_time due)
            (All-order_by_time (λ q. is_due now q ≡ true) due (select_where-due now items));
      ordered = Ordered-first_items limit (order_by_time due) (Ordered-order due);
    }

-- A due row of the table is selected, unless the batch is full and all of it is to be tried no later.
pub due_items-fair :
    (now limit : ℕ) (items : List QueueItem) (x : QueueItem)
    → In x items
    → is_due now x ≡ true
    → In x (due_items now limit items) ⊎ Waits limit x (due_items now limit items)
unfolding due_items
due_items-fair now limit items x h d =
    let due = select_where (is_due now) items in
    In-first_items x limit (order_by_time due) (Ordered-order due)
      (In-order x due (In-select x now items d h))
