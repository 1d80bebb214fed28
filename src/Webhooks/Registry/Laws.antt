-- ===== src/Webhooks/Registry/Laws.antt =====
-- Registration: `Replace` and `Delete` of internal/webhooks/repository.go.
use at_gateway.Prelude.{
  subst, sym, ◌∙◌, ℕ, ◌≡◌, refl, ap, String, true, false, not, Option, none, some, List, [], ◌∷◌,
  ◌++◌, map, ◌==◌, ==_refl, ==_iff, ==_sym, string_eq, any_where, update_where, select_where,
  find_first, if◌then◌else◌, Bool-cases, inl, inr, arith,
}
use at_gateway.Webhooks.Domain.{Webhook, WebhookRow, webhook_to_domain, new_webhook_model}
use at_gateway.Webhooks.Registry.{
  Registry, has_ext_id, take_over, upsert, delete_rows, select_webhooks,
}

-- The registered webhook with an id.
abbrev pub registered : String → Registry → Option Webhook
registered id t = find_first (λ (h : Webhook). h.id == id) (select_webhooks t)

-- The row with an id.
abbrev pub row_with : String → Registry → Option WebhookRow
row_with id t = find_first (has_ext_id id) t.rows

find-take_over :
    (new : WebhookRow) (rows : List WebhookRow) {q : WebhookRow}
    → find_first (has_ext_id new.ext_id) rows ≡ some q
    → find_first (has_ext_id new.ext_id) (update_where (has_ext_id new.ext_id) (take_over new) rows)
      ≡ some (record new { id = q.id; created_at = q.created_at })
find-take_over new [] {q} e = absurd (ground (arith, e))
find-take_over new (r ∷ rs) {q} e = elim (Bool-cases (has_ext_id new.ext_id r)) [
  | inl hit ↦
      let same : r ≡ q = ground (arith, e, hit) in
      let id : r.ext_id ≡ new.ext_id = (==_iff r.ext_id new.ext_id).0 hit in
      rw (update_where, hit, find_first, hit)
        (ap (λ x. some (record (take_over new r) { ext_id = x })) id
          ∙ ap (λ (x : WebhookRow). some (record new { id = x.id; created_at = x.created_at }))
              same)
  | inr miss ↦
      rw (update_where, miss, find_first, miss)
        (find-take_over new rs (
          subst (λ b. (if b then some r else find_first (has_ext_id new.ext_id) rs) ≡ some q) miss
            e))
]

find-take_over-other :
    (new : WebhookRow) (other : String) (rows : List WebhookRow)
    → (new.ext_id == other) ≡ false
    → find_first (has_ext_id other) (update_where (has_ext_id new.ext_id) (take_over new) rows)
      ≡ find_first (has_ext_id other) rows
find-take_over-other new other [] n = refl
find-take_over-other new other (r ∷ rs) n = elim (Bool-cases (has_ext_id new.ext_id r)) [
  | inl hit ↦
      let id : r.ext_id ≡ new.ext_id = (==_iff r.ext_id new.ext_id).0 hit in
      let apart : (r.ext_id == other) ≡ false = subst (λ x. (x == other) ≡ false) (sym id) n in
      rw (update_where, hit, find_first, apart) (find-take_over-other new other rs n)
  | inr miss ↦ rw (update_where, miss, find_first) (rw (find-take_over-other new other rs n) refl)
]

any-found :
    (id : String) (rows : List WebhookRow) {q : WebhookRow}
    → find_first (has_ext_id id) rows ≡ some q
    → any_where (has_ext_id id) rows ≡ true
any-found id [] {q} e = absurd (ground (arith, e))
any-found id (r ∷ rs) {q} e = elim (Bool-cases (has_ext_id id r)) [
  | inl hit ↦ rw hit refl
  | inr miss ↦ rw miss (
      any-found id rs
        (subst (λ b. (if b then some r else find_first (has_ext_id id) rs) ≡ some q) miss e))
]

-- A registration under an id that is registered gives its row every column of the new one, the time
-- of the update included, and keeps its id and the time of its creation; the rows of other ids are
-- as they were.
pub row_with-upsert :
    (new : WebhookRow) (other : String) (t : Registry) {q : WebhookRow}
    → row_with new.ext_id t ≡ some q
    → (new.ext_id == other) ≡ false
    → (row_with new.ext_id (upsert new t)
        ≡ some (record new { id = q.id; created_at = q.created_at }))
      × (row_with other (upsert new t) ≡ row_with other t)
unfolding upsert
row_with-upsert new other t {q} e n =
    let known = any-found new.ext_id t.rows e in
    rw (upsert, known) (find-take_over new t.rows e, find-take_over-other new other t.rows n)

-- The first registered webhook with an id, among rows.
abbrev lookup : String → List WebhookRow → Option Webhook
lookup id rows = find_first (λ (h : Webhook). h.id == id) (map webhook_to_domain rows)

lookup-take_over :
    (new : WebhookRow) (rows : List WebhookRow)
    → any_where (has_ext_id new.ext_id) rows ≡ true
    → lookup new.ext_id (update_where (has_ext_id new.ext_id) (take_over new) rows)
      ≡ some (webhook_to_domain new)
lookup-take_over new [] h = absurd (ground arith)
lookup-take_over new (r ∷ rs) h = elim (Bool-cases (has_ext_id new.ext_id r)) [
  | inl hit ↦
      let same : r.ext_id ≡ new.ext_id = (==_iff r.ext_id new.ext_id).0 hit in
      rw (update_where, hit, find_first, hit)
        (ap
          (λ x.
            some (record { id = x; device_id = new.device_id; url = new.url; event = new.event }))
          same)
  | inr miss ↦
      rw (update_where, miss, find_first, miss) (lookup-take_over new rs (ground (arith, h, miss)))
]

lookup-append :
    (new : WebhookRow) (rows : List WebhookRow)
    → any_where (has_ext_id new.ext_id) rows ≡ false
    → lookup new.ext_id (rows ++ new ∷ []) ≡ some (webhook_to_domain new)
lookup-append new [] h = rw (==_refl new.ext_id) refl
lookup-append new (r ∷ rs) h =
    let miss : has_ext_id new.ext_id r ≡ false = ground arith in
    let rest : any_where (has_ext_id new.ext_id) rs ≡ false = ground arith in
    rw miss (lookup-append new rs rest)

-- A registration can be read back: the webhook that is selected under its id is the one registered.
pub registered-upsert :
    (hook : Webhook) (now : ℕ) (t : Registry)
    → registered hook.id (upsert (new_webhook_model hook now) t) ≡ some hook
unfolding upsert select_webhooks
registered-upsert hook now t =
    let new = new_webhook_model hook now in
    elim (Bool-cases (any_where (has_ext_id hook.id) t.rows)) [
      | inl known ↦ rw (upsert, known) (lookup-take_over new t.rows known)
      | inr fresh ↦ rw (upsert, fresh) (lookup-append (record new { id = t.next_id }) t.rows fresh)
    ]

lookup-delete :
    (id other : String) (rows : List WebhookRow)
    → lookup other (select_where (λ r. not (has_ext_id id r)) rows)
      ≡ (if id == other then none else lookup other rows)
lookup-delete id other [] = ground arith
lookup-delete id other (r ∷ rs) = elim (Bool-cases (has_ext_id id r)) [
  | inl hit ↦
      let same : r.ext_id ≡ id = (==_iff r.ext_id id).0 hit in
      rw (select_where, hit, lookup-delete id other rs, find_first, same) (ground arith)
  | inr miss ↦ elim (Bool-cases (r.ext_id == other)) [
    | inl found ↦
        let eq : r.ext_id ≡ other = (==_iff r.ext_id other).0 found in
        let apart : (id == other) ≡ false =
          ground (arith, miss, ==_sym id other, subst (λ x. (x == id) ≡ false) eq miss) in
        rw (select_where, miss, find_first, found, apart) refl
    | inr lost ↦ rw (select_where, miss, find_first, lost) (lookup-delete id other rs)
  ]
]

-- After a deletion the id is not registered any more, and every other id is registered as before.
pub registered-delete :
    (id other : String) (t : Registry)
    → registered other (delete_rows id t) ≡ (if id == other then none else registered other t)
unfolding delete_rows select_webhooks
registered-delete id other t = lookup-delete id other t.rows
