-- ===== src/Webhooks/Lifecycle.antt =====
-- What the webhooks service promises of a queue item: the life of its status, as an abstract
-- description of internal/webhooks/service.go and repository.go.
use at_gateway.Prelude.{refl, ◌≡◌, ◌⊎◌, List, [], ◌∷◌, All}
use at_gateway.Webhooks.Domain.{
  QueueStatus, queue_pending, queue_processing, queue_completed, queue_failed,
  queue_permanently_failed, QueueItem,
}

-- The changes of a status: it is claimed, ends in one of three ways, or its claim is given back.
pub data Change : QueueStatus → QueueStatus → Type 0 where
  claim_new : Change queue_pending queue_processing
  claim_again : Change queue_failed queue_processing
  complete : Change queue_processing queue_completed
  fail_once : Change queue_processing queue_failed
  fail_for_good : Change queue_processing queue_permanently_failed
  give_back : Change queue_processing queue_pending

-- Any number of changes.
pub data Changes (s : QueueStatus) : QueueStatus → Type 0 where
  stays : Changes s s
  moves : {t u : QueueStatus} → Changes s t → Change t u → Changes s u

-- A status that no change leaves.
abbrev pub IsFinalStatus : QueueStatus → Type 0
IsFinalStatus s = (s ≡ queue_completed) ⊎ (s ≡ queue_permanently_failed)

-- A later queue: a row is changed, or removed if its status is final; new rows are pending.
pub data Follows : List QueueItem → List QueueItem → Type 0 where
  added : (new : List QueueItem) → All (λ q. q.status ≡ queue_pending) new → Follows [] new
  removed :
      {q : QueueItem} {old new : List QueueItem}
      → IsFinalStatus q.status
      → Follows old new
      → Follows (q ∷ old) new
  changed :
      {q r : QueueItem} {old new : List QueueItem}
      → r.id ≡ q.id
      → r.url ≡ q.url
      → r.payload ≡ q.payload
      → Changes q.status r.status
      → Follows old new
      → Follows (q ∷ old) (r ∷ new)

pub Follows-refl : (qs : List QueueItem) → Follows qs qs
Follows-refl [] = added [] tt
Follows-refl (q ∷ qs) = changed refl refl refl stays (Follows-refl qs)
