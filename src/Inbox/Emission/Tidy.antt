-- ===== src/Inbox/Emission/Tidy.antt =====
-- The invariant of the inbox service, and that an emission and a clean-up keep it:
-- internal/inbox/service.go.
use at_gateway.Prelude.{
  ℕ, suc, ◌≤◌, ◌≡◌, refl, sym, subst, String, Bool, true, false, List, [], ◌∷◌, ◌++◌, nat_eq, ltb,
  if◌then◌else◌, length, Bool-cases, inl, inr, arith,
}
use at_gateway.Inbox.Dedupe.{Deduper, mark, served}
use at_gateway.Inbox.Dedupe.Bounds.{IsBounded, mark-IsBounded}
use at_gateway.Inbox.Reassembly.{InboundMessage, Pipeline, max_groups}
use at_gateway.Inbox.Emission.{
  InboxEnv, InboxWorld, InboxRow, EnqueueResult, TrackedEmission, IncomingMessage, mark_results,
  count_post_restart, after_emission, emit_inbound, persist_inbound, cleanup_inbox, stored_message,
  stored_row, insert_row, inbound_message_id, event_of, event_name, new_inbound_model,
}
use at_gateway.Inbox.Emission.Stored.{Distinct, persist_inbound-Distinct, cleanup_inbox-Distinct}

pub record IsTidy (w : InboxWorld) : Type 0 where
  pub groups_fit : length w.pipeline.groups ≤ max_groups
  pub dedupe_fits : IsBounded w.pipeline.dedup
  pub rows_differ : Distinct w.rows

pub count_post_restart-pipeline :
    (n k now : ℕ) (w : InboxWorld) → (count_post_restart n k now w).pipeline ≡ w.pipeline
unfolding count_post_restart
count_post_restart-pipeline n k now w = ground arith

count_post_restart-rows :
    (n k now : ℕ) (w : InboxWorld) → (count_post_restart n k now w).rows ≡ w.rows
unfolding count_post_restart
count_post_restart-rows n k now w = ground arith

pub count_post_restart-emitted :
    (n k now : ℕ) (w : InboxWorld) → (count_post_restart n k now w).emitted ≡ w.emitted
unfolding count_post_restart
count_post_restart-emitted n k now w = ground arith

mark_results-IsBounded :
    (rs : List EnqueueResult) (id : String) (now : ℕ) (d : Deduper)
    → IsBounded d
    → IsBounded (mark_results rs id now d)
unfolding mark_results
mark_results-IsBounded [] id now d h = h
mark_results-IsBounded (r ∷ rs) id now d h = elim (Bool-cases r.failed) [
  | inl failed ↦ rw failed (mark_results-IsBounded rs id now d h)
  | inr stored ↦ rw stored (
      mark_results-IsBounded rs id now (mark d id r.webhook_id now)
        (mark-IsBounded d id r.webhook_id now h))
]

after_emission-IsTidy :
    (out : TrackedEmission) (id : String) (now : ℕ) (w : InboxWorld)
    → IsTidy w
    → IsTidy (after_emission out id now w)
unfolding after_emission
after_emission-IsTidy out id now w h =
    let marked = record w {
      metrics =
          if ltb 0 out.suppressed
          then record (w.metrics) { dedupe_blocked = suc w.metrics.dedupe_blocked }
          else w.metrics;
      pipeline = record (w.pipeline) { dedup = mark_results out.results id now w.pipeline.dedup };
    } in
    let p = count_post_restart-pipeline (length out.results) out.suppressed now marked in
    let r = count_post_restart-rows (length out.results) out.suppressed now marked in
    record {
      groups_fit = subst (λ (x : Pipeline). length x.groups ≤ max_groups) (sym p) h.groups_fit;
      dedupe_fits =
          subst (λ (x : Pipeline). IsBounded x.dedup) (sym p)
            (mark_results-IsBounded out.results id now w.pipeline.dedup h.dedupe_fits);
      rows_differ = subst Distinct (sym r) h.rows_differ;
    }

stored_row-pipeline :
    (x : List InboxRow × Bool) (w : InboxWorld) → (stored_row x w).pipeline ≡ w.pipeline
stored_row-pipeline (rows, true) w = refl
stored_row-pipeline (rows, false) w = refl

pub persist_inbound-pipeline :
    (env : InboxEnv) (m : IncomingMessage) (w : InboxWorld)
    → (persist_inbound env m w).pipeline ≡ w.pipeline
unfolding persist_inbound
persist_inbound-pipeline env m w = elim (Bool-cases (env.fault w.steps)) [
  | inl broken ↦ rw broken refl
  | inr works ↦ rw works (
      stored_row-pipeline (insert_row (new_inbound_model m (env.clock w.steps)) w.next_id w.rows)
        (record w { steps = suc w.steps }))
]

stored_row-emitted :
    (x : List InboxRow × Bool) (w : InboxWorld) → (stored_row x w).emitted ≡ w.emitted
stored_row-emitted (rows, true) w = refl
stored_row-emitted (rows, false) w = refl

pub persist_inbound-emitted :
    (env : InboxEnv) (m : IncomingMessage) (w : InboxWorld)
    → (persist_inbound env m w).emitted ≡ w.emitted
unfolding persist_inbound
persist_inbound-emitted env m w = elim (Bool-cases (env.fault w.steps)) [
  | inl broken ↦ rw broken refl
  | inr works ↦ rw works (
      stored_row-emitted (insert_row (new_inbound_model m (env.clock w.steps)) w.next_id w.rows)
        (record w { steps = suc w.steps }))
]

persist_inbound-IsTidy :
    (env : InboxEnv) (m : IncomingMessage) (w : InboxWorld)
    → IsTidy w
    → IsTidy (persist_inbound env m w)
persist_inbound-IsTidy env m w h =
    let p = persist_inbound-pipeline env m w in
    record {
      groups_fit = subst (λ (x : Pipeline). length x.groups ≤ max_groups) (sym p) h.groups_fit;
      dedupe_fits = subst (λ (x : Pipeline). IsBounded x.dedup) (sym p) h.dedupe_fits;
      rows_differ = persist_inbound-Distinct env m w h.rows_differ;
    }

pub emit_inbound-IsTidy :
    (env : InboxEnv) (m : InboundMessage) (now : ℕ) (w : InboxWorld)
    → IsTidy w
    → IsTidy (emit_inbound env m now w)
unfolding emit_inbound
emit_inbound-IsTidy env m now w h =
    let stored = stored_message env m now w in
    let kept = persist_inbound env stored w in
    let event = event_of stored m.ported in
    let known = served w.pipeline.dedup (inbound_message_id env m) now in
    let tidy = persist_inbound-IsTidy env stored w h in
    after_emission-IsTidy (env.emit kept.steps (event_name m) event known)
      (inbound_message_id env m) now
      (record kept {
        steps = suc kept.steps;
        emitted = kept.emitted ++ (event_name m, event, known) ∷ [];
      })
      (record {
        groups_fit = tidy.groups_fit;
        dedupe_fits = tidy.dedupe_fits;
        rows_differ = tidy.rows_differ;
      })

cleanup_inbox-pipeline :
    (env : InboxEnv) (now : ℕ) (w : InboxWorld) → (cleanup_inbox env now w).pipeline ≡ w.pipeline
unfolding cleanup_inbox
cleanup_inbox-pipeline env now w = ground arith

pub cleanup_inbox-IsTidy :
    (env : InboxEnv) (now : ℕ) (w : InboxWorld) → IsTidy w → IsTidy (cleanup_inbox env now w)
cleanup_inbox-IsTidy env now w h =
    let p = cleanup_inbox-pipeline env now w in
    record {
      groups_fit = subst (λ (x : Pipeline). length x.groups ≤ max_groups) (sym p) h.groups_fit;
      dedupe_fits = subst (λ (x : Pipeline). IsBounded x.dedup) (sym p) h.dedupe_fits;
      rows_differ = cleanup_inbox-Distinct env now w h.rows_differ;
    }
