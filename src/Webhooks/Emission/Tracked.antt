-- ===== src/Webhooks/Emission/Tracked.antt =====
-- The verdicts of a tracked emission: `emitTracked` of internal/webhooks/service.go.
use at_gateway.Prelude.{
  any_where, All, ℕ, suc, ◌≡◌, refl, ap, String, false, not, List, [], ◌∷◌, map, count_where,
  select_where, Bool-cases, inl, inr, ◌==◌, string_eq,
}
use at_gateway.Inbox.Emission.{EnqueueResult, TrackedEmission}
use at_gateway.Webhooks.Domain.{WebhookEvent, Webhook, Payload}
use at_gateway.Webhooks.Registry.{select_by_event}
use at_gateway.Webhooks.World.{HookEnv, HookWorld, tick}
use at_gateway.Webhooks.Emission.{is_served, track, emit_tracked, enqueue_hook, count_enqueued}

-- The webhooks that an emission is to reach.
abbrev pub unserved : List String → List Webhook → List Webhook
unserved served hooks = select_where (λ hook. not (is_served served hook)) hooks

abbrev pub result_ids : List EnqueueResult → List String
result_ids rs = map (λ r. r.webhook_id) rs

abbrev pub hook_ids : List Webhook → List String
hook_ids hooks = map (λ h. h.id) hooks

-- The verdicts are those of the webhooks to reach, and the others are counted.
abbrev pub Accounts : List String → List Webhook → TrackedEmission → Type 0
Accounts served hooks out =
    (result_ids out.results ≡ hook_ids (unserved served hooks))
    × (out.suppressed ≡ count_where (is_served served) hooks)

track-Accounts :
    (env : HookEnv) (event : WebhookEvent) (payload : Payload) (served : List String) (now : ℕ)
    (hooks : List Webhook) (w : HookWorld)
    → Accounts served hooks (track env event payload served now hooks w).0
unfolding track
track-Accounts env event payload served now [] w = (refl, refl)
track-Accounts env event payload served now (hook ∷ hooks) w =
    elim (Bool-cases (is_served served hook)) [
      | inl old ↦
          let (ids, count) = track-Accounts env event payload served now hooks w in
          rw (track, old) (ids, ap suc count)
      | inr new ↦
          let stored = enqueue_hook env hook event payload now w in
          let (ids, count) =
            track-Accounts env event payload served now hooks (count_enqueued stored) in
          rw (track, new) (ap (λ is. hook.id ∷ is) ids, count)
    ]

-- If the registry can be read, a tracked emission gives one verdict to each webhook that is registered
-- for the event and not served yet, in the order of the registry, none to another, and counts the
-- served ones as suppressed.
pub emit_tracked-Accounts :
    (env : HookEnv) (event : WebhookEvent) (payload : Payload) (served : List String)
    (w : HookWorld)
    → env.fault w.steps ≡ false
    → Accounts served (select_by_event event w.registry) (emit_tracked env event payload served w).0
unfolding emit_tracked
emit_tracked-Accounts env event payload served w works = rw works (
    track-Accounts env event payload served (env.now (suc w.steps))
      (select_by_event event w.registry) (tick (tick w)))

-- No verdict is about a webhook that is served already.
abbrev pub Untold : List String → List EnqueueResult → Type 0
Untold served rs =
    All (λ (r : EnqueueResult). any_where (λ id. id == r.webhook_id) served ≡ false) rs

track-Untold :
    (env : HookEnv) (event : WebhookEvent) (payload : Payload) (served : List String) (now : ℕ)
    (hooks : List Webhook) (w : HookWorld)
    → Untold served (track env event payload served now hooks w).0.results
unfolding track
track-Untold env event payload served now [] w = tt
track-Untold env event payload served now (hook ∷ hooks) w =
    elim (Bool-cases (is_served served hook)) [
      | inl old ↦ rw (track, old) (track-Untold env event payload served now hooks w)
      | inr new ↦
          let stored = enqueue_hook env hook event payload now w in
          rw (track, new)
            (new, track-Untold env event payload served now hooks (count_enqueued stored))
    ]

pub emit_tracked-Untold :
    (env : HookEnv) (event : WebhookEvent) (payload : Payload) (served : List String)
    (w : HookWorld)
    → Untold served (emit_tracked env event payload served w).0.results
unfolding emit_tracked
emit_tracked-Untold env event payload served w = elim (Bool-cases (env.fault w.steps)) [
  | inl broken ↦ rw (emit_tracked, broken) tt
  | inr works ↦
      rw (emit_tracked, works)
        (track-Untold env event payload served (env.now (suc w.steps))
          (select_by_event event w.registry) (tick (tick w)))
]
