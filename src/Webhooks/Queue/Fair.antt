-- ===== src/Webhooks/Queue/Fair.antt =====
-- The ids of the queue, and how the statements on one id act on its rows.
use at_gateway.Prelude.{
  zero, leb, ℕ, suc, ◌≤◌, String, ◌≡◌, sym, subst, ◌⊎◌, inl, inr, Bool, true, false, List, [], ◌∷◌,
  ◌++◌, ◌==◌, ==_sym, string_eq, any_where, update_where, select_where, All, Bool-cases, arith,
}
use at_gateway.Webhooks.Domain.{QueueItem, queue_pending, queue_failed, status_eq}
use at_gateway.Webhooks.Queue.{
  has_id, insert_by_time, order_by_time, first_items, due_items, is_due,
}
use at_gateway.Webhooks.Queue.Due.{
  All-insert_by_time, All-order_by_time, All-first_items, All-select_where,
}

-- Rows with another id.
abbrev pub Others : String → List QueueItem → Type 0
Others id qs = All (λ r. (r.id == id) ≡ false) qs

-- No two rows have the same id.
abbrev pub DistinctIds : List QueueItem → Type 0
DistinctIds [] = Unit
DistinctIds (q ∷ qs) = Others q.id qs × DistinctIds qs

flip : (a b : String) → (a == b) ≡ false → (b == a) ≡ false
flip a b h = rw (==_sym b a) h

DistinctIds-insert :
    (q : QueueItem) (qs : List QueueItem)
    → Others q.id qs
    → DistinctIds qs
    → DistinctIds (insert_by_time q qs)
unfolding insert_by_time
DistinctIds-insert q [] o h = (tt, tt)
DistinctIds-insert q (r ∷ rs) o h = elim (Bool-cases (leb q.next_attempt r.next_attempt)) [
  | inl le ↦ rw (insert_by_time, le) (o, h)
  | inr gt ↦
      rw (insert_by_time, gt)
        (
          All-insert_by_time (λ x. (x.id == r.id) ≡ false) q rs (flip r.id q.id o.0) h.0,
          DistinctIds-insert q rs o.1 h.1,
        )
]

DistinctIds-order : (qs : List QueueItem) → DistinctIds qs → DistinctIds (order_by_time qs)
unfolding order_by_time
DistinctIds-order [] h = tt
DistinctIds-order (q ∷ qs) h =
    DistinctIds-insert q (order_by_time qs) (All-order_by_time (λ r. (r.id == q.id) ≡ false) qs h.0)
      (DistinctIds-order qs h.1)

DistinctIds-first : (n : ℕ) (qs : List QueueItem) → DistinctIds qs → DistinctIds (first_items n qs)
DistinctIds-first zero qs h = tt
DistinctIds-first (suc n) [] h = tt
DistinctIds-first (suc n) (q ∷ qs) h =
    (All-first_items (λ r. (r.id == q.id) ≡ false) n qs h.0, DistinctIds-first n qs h.1)

pub DistinctIds-select :
    (p : QueueItem → Bool) (qs : List QueueItem) → DistinctIds qs → DistinctIds (select_where p qs)
DistinctIds-select p [] h = tt
DistinctIds-select p (q ∷ qs) h = elim (Bool-cases (p q)) [
  | inl kept ↦
      rw (select_where, kept)
        (All-select_where (λ r. (r.id == q.id) ≡ false) p qs h.0, DistinctIds-select p qs h.1)
  | inr gone ↦ rw (select_where, gone) (DistinctIds-select p qs h.1)
]

pub DistinctIds-due :
    (now limit : ℕ) (qs : List QueueItem) → DistinctIds qs → DistinctIds (due_items now limit qs)
unfolding due_items
DistinctIds-due now limit qs h =
    DistinctIds-first limit (order_by_time (select_where (is_due now) qs))
      (DistinctIds-order (select_where (is_due now) qs) (DistinctIds-select (is_due now) qs h))

Others-update :
    (id : String) (p : QueueItem → Bool) (f : QueueItem → QueueItem)
    → ((q : QueueItem) → (f q).id ≡ q.id)
    → (qs : List QueueItem) → Others id qs
    → Others id (update_where p f qs)
Others-update id p f e [] h = tt
Others-update id p f e (q ∷ qs) h = elim (Bool-cases (p q)) [
  | inl hit ↦ rw (update_where, hit) (rw (e q) h.0, Others-update id p f e qs h.1)
  | inr miss ↦ rw (update_where, miss) (h.0, Others-update id p f e qs h.1)
]

pub DistinctIds-update :
    (p : QueueItem → Bool) (f : QueueItem → QueueItem)
    → ((q : QueueItem) → (f q).id ≡ q.id)
    → (qs : List QueueItem) → DistinctIds qs
    → DistinctIds (update_where p f qs)
DistinctIds-update p f e [] h = tt
DistinctIds-update p f e (q ∷ qs) h = elim (Bool-cases (p q)) [
  | inl hit ↦
      rw (update_where, hit)
        (
          subst (λ i. Others i (update_where p f qs)) (sym (e q)) (Others-update q.id p f e qs h.0),
          DistinctIds-update p f e qs h.1,
        )
  | inr miss ↦
      rw (update_where, miss) (Others-update q.id p f e qs h.0, DistinctIds-update p f e qs h.1)
]

Others-append :
    (id : String) (q : QueueItem) (qs : List QueueItem)
    → (q.id == id) ≡ false
    → Others id qs
    → Others id (qs ++ q ∷ [])
Others-append id q [] n h = (n, tt)
Others-append id q (r ∷ rs) n h = (h.0, Others-append id q rs n h.1)

pub DistinctIds-append :
    (q : QueueItem) (qs : List QueueItem)
    → any_where (has_id q.id) qs ≡ false
    → DistinctIds qs
    → DistinctIds (qs ++ q ∷ [])
DistinctIds-append q [] n h = (tt, tt)
DistinctIds-append q (r ∷ rs) n h =
    let apart : (r.id == q.id) ≡ false = ground arith in
    let rest : any_where (has_id q.id) rs ≡ false = ground arith in
    (Others-append r.id q rs (flip r.id q.id apart) h.0, DistinctIds-append q rs rest h.1)

-- An item that is still to be tried: pending or failed.
abbrev pub IsOpen : QueueItem → Type 0
IsOpen q = (q.status ≡ queue_pending) ⊎ (q.status ≡ queue_failed)

-- The rows with the id of an item that was selected: still to be tried, and not tried more often.
abbrev pub Matches : List QueueItem → QueueItem → Type 0
Matches rows item =
    All (λ r. (r.id == item.id) ≡ true → (r.retry_count ≤ item.retry_count) × IsOpen r) rows

Others-Matches :
    (item : QueueItem) (rows : List QueueItem) → Others item.id rows → Matches rows item
Others-Matches item [] h = tt
Others-Matches item (r ∷ rows) h =
    ((λ e. absurd (ground (arith, e, h.0))), Others-Matches item rows h.1)

add_other :
    (r : QueueItem) (rows qs : List QueueItem)
    → Others r.id qs
    → All (λ q. IsOpen q → Matches rows q) qs
    → All (λ q. IsOpen q → Matches (r ∷ rows) q) qs
add_other r rows [] o h = tt
add_other r rows (q ∷ qs) o h =
    let apart : (r.id == q.id) ≡ false = flip q.id r.id o.0 in
    (
      (λ open_q. ((λ e. absurd (ground (arith, e, apart))), h.0 open_q)),
      add_other r rows qs o.1 h.1,
    )

-- Of distinct rows, those that are to be tried match themselves.
pub own-Matches :
    (rows : List QueueItem) → DistinctIds rows → All (λ q. IsOpen q → Matches rows q) rows
own-Matches [] h = tt
own-Matches (r ∷ rows) h = (
  (λ o. ((λ e. (omega arith, o)), Others-Matches r rows h.0)),
  add_other r rows rows h.0 (own-Matches rows h.1),
)
