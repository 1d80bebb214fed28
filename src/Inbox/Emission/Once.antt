-- ===== src/Inbox/Emission/Once.antt =====
-- A webhook that took a message is not asked again within the window: internal/inbox/service.go.
use at_gateway.Prelude.{
  ap, ℕ, suc, ◌+◌, ◌≤◌, ◌<◌, String, ◌≡◌, refl, sym, ◌∙◌, subst, Bool, true, not, ◌&&◌, List, [],
  ◌∷◌, ◌++◌, ◌==◌, ==_iff, string_eq, ltb, if◌then◌else◌, length, any_where, Bool-cases, inl, inr,
  arith,
}
use at_gateway.Inbox.Dedupe.{Deduper, served, mark}
use at_gateway.Inbox.Dedupe.Served.{
  among, Holds, mark-Holds, mark-Holds-other, mark-ttl, served-Holds,
}
use at_gateway.Inbox.Reassembly.{InboundMessage, Pipeline}
use at_gateway.Inbox.Emission.{
  InboxEnv, InboxWorld, EventName, InboundEvent, EnqueueResult, TrackedEmission, mark_results,
  after_emission, emit_inbound, persist_inbound, stored_message, inbound_message_id, event_of,
  event_name,
}
use at_gateway.Inbox.Emission.Tidy.{
  count_post_restart-pipeline, persist_inbound-pipeline, count_post_restart-emitted,
  persist_inbound-emitted,
}

-- A result reports that the webhook's queue item was stored.
abbrev pub took : String → List EnqueueResult → Bool
took w rs = any_where (λ (r : EnqueueResult). not r.failed && r.webhook_id == w) rs

mark_results-ttl :
    (rs : List EnqueueResult) (id : String) (now : ℕ) (d : Deduper)
    → (mark_results rs id now d).ttl ≡ d.ttl
unfolding mark_results
mark_results-ttl [] id now d = refl
mark_results-ttl (r ∷ rs) id now d = elim (Bool-cases r.failed) [
  | inl failed ↦ rw failed (mark_results-ttl rs id now d)
  | inr stored ↦
      rw stored
        (mark_results-ttl rs id now (mark d id r.webhook_id now) ∙ mark-ttl d id r.webhook_id now)
]

mark_results-Holds :
    (rs : List EnqueueResult) (id w : String) (now : ℕ) (d : Deduper)
    → 1 ≤ d.ttl
    → Holds d id w now
    → Holds (mark_results rs id now d) id w now
unfolding mark_results
mark_results-Holds [] id w now d t h = h
mark_results-Holds (r ∷ rs) id w now d t h = elim (Bool-cases r.failed) [
  | inl failed ↦ rw failed (mark_results-Holds rs id w now d t h)
  | inr stored ↦ rw stored (
      mark_results-Holds rs id w now (mark d id r.webhook_id now)
        (omega (arith, mark-ttl d id r.webhook_id now, t))
        (mark-Holds-other d id w r.webhook_id now t h))
]

mark_results-took :
    (rs : List EnqueueResult) (id w : String) (now : ℕ) (d : Deduper)
    → 1 ≤ d.ttl
    → took w rs ≡ true
    → Holds (mark_results rs id now d) id w now
unfolding mark_results
mark_results-took [] id w now d t h = absurd (ground arith)
mark_results-took (r ∷ rs) id w now d t h = elim (Bool-cases r.failed) [
  | inl failed ↦ rw failed (mark_results-took rs id w now d t (rw failed at h))
  | inr stored ↦ rw stored (
      let t2 : 1 ≤ (mark d id r.webhook_id now).ttl =
        omega (arith, mark-ttl d id r.webhook_id now, t) in
      elim (Bool-cases (r.webhook_id == w)) [
        | inl same ↦
            let eq : r.webhook_id ≡ w = (==_iff r.webhook_id w).0 same in
            mark_results-Holds rs id w now (mark d id r.webhook_id now) t2
              (subst (λ x. Holds (mark d id x now) id w now) (sym eq) (mark-Holds d id w now))
        | inr other ↦
            mark_results-took rs id w now (mark d id r.webhook_id now) t2
              (ground (arith, h, stored, other))
      ])
]

-- What the webhooks service answers to an emission.
abbrev pub answer_of : InboxEnv → InboundMessage → ℕ → InboxWorld → TrackedEmission
answer_of env m now w =
    let stored = stored_message env m now w in
    env.emit (persist_inbound env stored w).steps (event_name m) (event_of stored m.ported)
      (served w.pipeline.dedup (inbound_message_id env m) now)

after_emission-dedup :
    (out : TrackedEmission) (id : String) (now : ℕ) (w : InboxWorld)
    → (after_emission out id now w).pipeline.dedup
      ≡ mark_results out.results id now w.pipeline.dedup
unfolding after_emission
after_emission-dedup out id now w =
    let marked = record w {
      metrics =
          if ltb 0 out.suppressed
          then record (w.metrics) { dedupe_blocked = suc w.metrics.dedupe_blocked }
          else w.metrics;
      pipeline = record (w.pipeline) { dedup = mark_results out.results id now w.pipeline.dedup };
    } in
    ap (λ (x : Pipeline). x.dedup)
      (count_post_restart-pipeline (length out.results) out.suppressed now marked)

emit_inbound-dedup :
    (env : InboxEnv) (m : InboundMessage) (now : ℕ) (w : InboxWorld)
    → (emit_inbound env m now w).pipeline.dedup
      ≡ mark_results (answer_of env m now w).results (inbound_message_id env m) now w.pipeline.dedup
unfolding emit_inbound
emit_inbound-dedup env m now w =
    let stored = stored_message env m now w in
    let kept = persist_inbound env stored w in
    let known = served w.pipeline.dedup (inbound_message_id env m) now in
    after_emission-dedup (answer_of env m now w) (inbound_message_id env m) now (record kept {
      steps = suc kept.steps;
      emitted = kept.emitted ++ (event_name m, event_of stored m.ported, known) ∷ [];
    })
    ∙ ap
        (λ (x : Pipeline).
          mark_results (answer_of env m now w).results (inbound_message_id env m) now x.dedup)
        (persist_inbound-pipeline env stored w)

-- Right after the emission of a message, the dedupe serves each webhook whose queue item was stored,
-- at any time until the window has elapsed.
pub emit_inbound-served :
    (env : InboxEnv) (m : InboundMessage) (now later : ℕ) (w : InboxWorld) (webhook : String)
    → 1 ≤ w.pipeline.dedup.ttl
    → later < now + w.pipeline.dedup.ttl
    → took webhook (answer_of env m now w).results ≡ true
    → among webhook
        (served (emit_inbound env m now w).pipeline.dedup (inbound_message_id env m) later)
      ≡ true
emit_inbound-served env m now later w webhook t n h =
    let id = inbound_message_id env m in
    let rs = (answer_of env m now w).results in
    subst (λ d. among webhook (served d id later) ≡ true) (sym (emit_inbound-dedup env m now w))
      (served-Holds (mark_results rs id now w.pipeline.dedup) id webhook now later
        (omega (arith, mark_results-ttl rs id now w.pipeline.dedup, n))
        (mark_results-took rs id webhook now w.pipeline.dedup t h))

emit_inbound-emitted :
    (env : InboxEnv) (m : InboundMessage) (now : ℕ) (w : InboxWorld)
    → (emit_inbound env m now w).emitted
      ≡ w.emitted
        ++ (
          event_name m,
          event_of (stored_message env m now w) m.ported,
          served w.pipeline.dedup (inbound_message_id env m) now,
        )
          ∷ []
unfolding emit_inbound after_emission
emit_inbound-emitted env m now w =
    let stored = stored_message env m now w in
    let kept = persist_inbound env stored w in
    let out = answer_of env m now w in
    count_post_restart-emitted (length out.results) out.suppressed now _
    ∙ ap
        (λ es.
          es
          ++ (
            event_name m,
            event_of stored m.ported,
            served w.pipeline.dedup (inbound_message_id env m) now,
          )
            ∷ [])
        (persist_inbound-emitted env stored w)

-- A later emission of the same message within the window, which is not empty, hands each webhook
-- whose queue item was stored by the earlier emission to the webhooks service as served, if the
-- dedupe is then as the earlier emission left it.
pub emit_inbound-told :
    (env : InboxEnv) (m : InboundMessage) (now later : ℕ) (w v : InboxWorld) (webhook : String)
    → 1 ≤ w.pipeline.dedup.ttl
    → later < now + w.pipeline.dedup.ttl
    → took webhook (answer_of env m now w).results ≡ true
    → v.pipeline.dedup ≡ (emit_inbound env m now w).pipeline.dedup
    → (name : EventName) × (event : InboundEvent) × (known : List String) × ((emit_inbound env m
          later v).emitted
        ≡ v.emitted ++ (name, event, known) ∷ [])
      × (event.message_id ≡ inbound_message_id env m)
      × (among webhook known ≡ true)
emit_inbound-told env m now later w v webhook t n h same = (
  event_name m,
  event_of (stored_message env m later v) m.ported,
  served v.pipeline.dedup (inbound_message_id env m) later,
  emit_inbound-emitted env m later v,
  refl,
  subst (λ d. among webhook (served d (inbound_message_id env m) later) ≡ true) (sym same)
      (emit_inbound-served env m now later w webhook t n h),
)
