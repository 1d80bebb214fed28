-- ===== src/Webhooks/System/Rows.antt =====
-- How the parts of the system act on the rows of the queue.
use at_gateway.Prelude.{
  ◌∙◌, ℕ, ◌≤◌, ◌≡◌, refl, sym, Bool, true, false, List, [], ◌∷◌, ◌++◌, ◌==◌, ==_iff, string_eq,
  update_where, select_where, All, Bool-cases, inl, inr, arith,
}
use at_gateway.Webhooks.Domain.{QueueItem, queue_pending, queue_processing}
use at_gateway.Webhooks.Lifecycle.{
  Follows, added, removed, changed, stays, moves, give_back, IsFinalStatus,
}
use at_gateway.Webhooks.Queue.{has_id, is_due}
use at_gateway.Webhooks.Queue.Fair.{Matches, Others, IsOpen}
use at_gateway.Webhooks.Delivery.Touch.{Touch, OpenStatus}
use at_gateway.Webhooks.World.{HookEnv}
use at_gateway.Webhooks.System.Passed.{give_back_row}

-- Rows that are tried at most so often.
abbrev pub Bounded : ℕ → List QueueItem → Type 0
Bounded most rows = All (λ r. r.retry_count ≤ most) rows

module _ (env : HookEnv) (item : QueueItem) {old new : List QueueItem}
    (t : Touch env item OpenStatus old new) where
  pub Bounded-touched :
      (rows : List QueueItem)
      → Matches rows item
      → Bounded env.retry_count rows
      → Bounded env.retry_count (update_where (has_id item.id) t.change rows)
  Bounded-touched [] m b = tt
  Bounded-touched (r ∷ rows) m b = elim (Bool-cases (r.id == item.id)) [
    | inl hit ↦ rw (update_where, hit) (t.in_bounds r (m.0 hit).0 b.0, Bounded-touched rows m.1 b.1)
    | inr miss ↦ rw (update_where, miss) (b.0, Bounded-touched rows m.1 b.1)
  ]

  Matches-touched :
      (other : QueueItem) (rows : List QueueItem)
      → (other.id == item.id) ≡ false
      → Matches rows other
      → Matches (update_where (has_id item.id) t.change rows) other
  Matches-touched other [] n m = tt
  Matches-touched other (r ∷ rows) n m = elim (Bool-cases (r.id == item.id)) [
    | inl hit ↦
        let same : r.id ≡ item.id = (==_iff r.id item.id).0 hit in
        rw (update_where, hit)
          (
            (λ e.
                let both : (t.change r).id ≡ other.id = (==_iff (t.change r).id other.id).0 e in
                let equal : other.id ≡ item.id = sym both ∙ t.keeps_id r ∙ same in
                absurd (ground (arith, n, (==_iff other.id item.id).1 equal))),
            Matches-touched other rows n m.1,
          )
    | inr miss ↦ rw (update_where, miss) (m.0, Matches-touched other rows n m.1)
  ]

  pub All-Matches-touched :
      (batch rows : List QueueItem)
      → Others item.id batch
      → All (Matches rows) batch
      → All (Matches (update_where (has_id item.id) t.change rows)) batch
  All-Matches-touched [] rows o h = tt
  All-Matches-touched (q ∷ batch) rows o h =
      (Matches-touched q rows o.0 h.0, All-Matches-touched batch rows o.1 h.1)

  pub Follows-touched :
      (rows : List QueueItem)
      → Matches rows item
      → Follows rows (update_where (has_id item.id) t.change rows)
  Follows-touched [] m = added [] tt
  Follows-touched (r ∷ rows) m = elim (Bool-cases (r.id == item.id)) [
    | inl hit ↦
        rw (update_where, hit)
          (changed (t.keeps_id r) (t.keeps_url r) (t.keeps_payload r) (t.allowed r (m.0 hit).1)
            (Follows-touched rows m.1))
    | inr miss ↦ rw (update_where, miss) (changed refl refl refl stays (Follows-touched rows m.1))
  ]

-- A new row.
pub Matches-append :
    (item new : QueueItem) (rows : List QueueItem)
    → new.status ≡ queue_pending
    → new.retry_count ≡ 0
    → Matches rows item
    → Matches (rows ++ new ∷ []) item
Matches-append item new [] s z m = ((λ e. (omega (arith, z), inl s)), tt)
Matches-append item new (r ∷ rows) s z m = (m.0, Matches-append item new rows s z m.1)

pub All-Matches-append :
    (batch : List QueueItem) (new : QueueItem) (rows : List QueueItem)
    → new.status ≡ queue_pending
    → new.retry_count ≡ 0
    → All (Matches rows) batch
    → All (Matches (rows ++ new ∷ [])) batch
All-Matches-append [] new rows s z h = tt
All-Matches-append (q ∷ batch) new rows s z h =
    (Matches-append q new rows s z h.0, All-Matches-append batch new rows s z h.1)

pub Bounded-append :
    (most : ℕ) (new : QueueItem) (rows : List QueueItem)
    → new.retry_count ≡ 0
    → Bounded most rows
    → Bounded most (rows ++ new ∷ [])
Bounded-append most new [] z b = (omega (arith, z), tt)
Bounded-append most new (r ∷ rows) z b = (b.0, Bounded-append most new rows z b.1)

pending-append :
    (new : QueueItem) (rows : List QueueItem)
    → new.status ≡ queue_pending
    → All (λ q. q.status ≡ queue_pending) rows
    → All (λ q. q.status ≡ queue_pending) (rows ++ new ∷ [])
pending-append new [] s h = (s, tt)
pending-append new (r ∷ rows) s h = (h.0, pending-append new rows s h.1)

pub Follows-append :
    {old rows : List QueueItem} (new : QueueItem)
    → new.status ≡ queue_pending
    → Follows old rows
    → Follows old (rows ++ new ∷ [])
Follows-append new s (added rows h) = added (rows ++ new ∷ []) (pending-append new rows s h)
Follows-append new s (removed f h) = removed f (Follows-append new s h)
Follows-append new s (changed i u p c h) = changed i u p c (Follows-append new s h)

-- The beginning of a pass.
module _ (stuck : QueueItem → Bool)
    (claimed : (q : QueueItem) → stuck q ≡ true → q.status ≡ queue_processing)
    (keep : QueueItem → Bool)
    (final : (q : QueueItem) → keep q ≡ false → IsFinalStatus q.status) where
  pub Follows-passed :
      (rows : List QueueItem)
      → Follows rows (select_where keep (update_where stuck give_back_row rows))
  Follows-passed [] = added [] tt
  Follows-passed (r ∷ rows) = elim (Bool-cases (stuck r)) [
    | inl hit ↦ elim (Bool-cases (keep (give_back_row r))) [
      | inl kept ↦
          rw (update_where, hit, select_where, kept)
            (changed refl refl refl (rw (claimed r hit) (moves stays give_back))
              (Follows-passed rows))
      | inr gone ↦ absurd (ground (arith, final (give_back_row r) gone))
    ]
    | inr miss ↦ elim (Bool-cases (keep r)) [
      | inl kept ↦
          rw (update_where, miss, select_where, kept)
            (changed refl refl refl stays (Follows-passed rows))
      | inr gone ↦
          rw (update_where, miss, select_where, gone) (removed (final r gone) (Follows-passed rows))
    ]
  ]

  pub Bounded-passed :
      (most : ℕ) (rows : List QueueItem)
      → Bounded most rows
      → Bounded most (select_where keep (update_where stuck give_back_row rows))
  Bounded-passed most [] b = tt
  Bounded-passed most (r ∷ rows) b = ground (arith, Bounded-passed most rows b.1)

-- Due items of distinct rows match the rows.
pub open-Matches :
    (rows due : List QueueItem) (now : ℕ)
    → All (λ q. is_due now q ≡ true) due
    → All (λ q. IsOpen q → Matches rows q) due
    → All (Matches rows) due
open-Matches rows [] now d h = tt
open-Matches rows (q ∷ due) now d h = (h.0 (ground (arith, d.0)), open-Matches rows due now d.1 h.1)
