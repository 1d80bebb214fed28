-- ===== src/Modem/Sending/Kept.antt =====
-- Sending keeps a connection in order: internal/modem/sms.go.
use at_gateway.Prelude.{
  ℕ, suc, ◌≡◌, refl, sym, subst, String, Bool, true, false, Option, none, some, List, [], ◌∷◌,
  if◌then◌else◌, ◌==◌, nat_eq, ltb, length, Bool-cases, inl, inr,
}
use at_gateway.Modem.Text.{ℤ}
use at_gateway.Modem.Domain.{
  Command, send_length, ModemError, context_done, Result, done, failed, ModemEnv, ModemWorld,
  next_step,
}
use at_gateway.Modem.Commands.{exec}
use at_gateway.Modem.Commands.Barrier.{IsSynced, next_step-IsSynced}
use at_gateway.Modem.Commands.Kept.{plain-IsSynced}
use at_gateway.Modem.Sending.{
  Sent, reference_lines, partial_refs, part_over, send_marshalled, send_pdu, try_part, send_parts,
  refused_send, with_report, send_encoded, send_sms,
}

reference_lines-world :
    (c : Command) (r : Result (List String)) (w : ModemWorld) → (reference_lines c (r, w)).1 ≡ w
unfolding reference_lines
reference_lines-world c (failed e) w = refl
reference_lines-world c (done lines) w = refl

pub partial_refs-world :
    (refs : List ℤ) (i total : ℕ) (e : ModemError) (w : ModemWorld)
    → (partial_refs refs i total e w).world ≡ w
partial_refs-world refs i total e w = elim (Bool-cases (total == 1)) [
  | inl one ↦ rw one refl
  | inr more ↦ rw more refl
]

part_over-world :
    (refs : List ℤ) (i total : ℕ) (r : Result ℤ) (w : ModemWorld)
    → (part_over refs i total (r, w)).world ≡ w
unfolding part_over
part_over-world refs i total (failed e) w = partial_refs-world refs i total e w
part_over-world refs i total (done ref) w = refl

if_IsSynced :
    (b : Bool) (x y : Sent)
    → IsSynced x.world
    → IsSynced y.world
    → IsSynced (if b then x else y).world
if_IsSynced true x y left right = left
if_IsSynced false x y left right = right

module _ {Tpdu : Type 0} (env : ModemEnv Tpdu) where
  send_marshalled-IsSynced :
      (o : Option (ℕ × String)) (w : ModemWorld) → IsSynced w → IsSynced (send_marshalled env o w).1
  unfolding send_marshalled
  send_marshalled-IsSynced none w s = s
  send_marshalled-IsSynced (some (len, hex)) w s =
      let out = exec env (send_length len) (some hex) w in
      subst IsSynced (sym (reference_lines-world (send_length len) out.0 out.1))
        (plain-IsSynced env (send_length len) (some hex) w (λ older. (refl, tt)) s)

  try_part-IsSynced :
      (total i : ℕ) (p : Tpdu) (refs : List ℤ) (e : Option ModemError) (w : ModemWorld)
      → IsSynced w
      → IsSynced (try_part env total i p refs e w).world
  unfolding try_part send_pdu
  try_part-IsSynced total i p refs (some e) w s = s
  try_part-IsSynced total i p refs none w s =
      let out = send_pdu env p (next_step w) in
      elim (Bool-cases (env.cancelled w.steps)) [
        | inl late ↦
            rw (try_part, late)
              (subst IsSynced (sym (partial_refs-world refs i total context_done (next_step w)))
                (next_step-IsSynced w s))
        | inr on_time ↦
            rw (try_part, on_time)
              (subst IsSynced (sym (part_over-world refs i total out.0 out.1))
                (send_marshalled-IsSynced (env.marshal p) (next_step w) (next_step-IsSynced w s)))
      ]

  send_parts-IsSynced :
      (total i : ℕ) (ps : List Tpdu) (sent : Sent)
      → IsSynced sent.world
      → IsSynced (send_parts env total i ps sent).world
  unfolding send_parts
  send_parts-IsSynced total i [] sent s = s
  send_parts-IsSynced total i (p ∷ ps) sent s =
      send_parts-IsSynced total (suc i) ps (try_part env total i p sent.refs sent.error sent.world)
        (try_part-IsSynced total i p sent.refs sent.error sent.world s)

  send_encoded-IsSynced :
      (o : Option (List Tpdu)) (report : Bool) (w : ModemWorld)
      → IsSynced w
      → IsSynced (send_encoded env o report w).world
  unfolding send_encoded refused_send
  send_encoded-IsSynced none report w s = s
  send_encoded-IsSynced (some []) report w s = s
  send_encoded-IsSynced (some (p ∷ ps)) report w s = elim (Bool-cases (ltb 255 (length (p ∷ ps)))) [
    | inl long ↦ rw (send_encoded, long) s
    | inr short ↦
        rw (send_encoded, short)
          (send_parts-IsSynced (length (p ∷ ps)) 0 (with_report env report (p ∷ ps))
            (record { refs = []; error = none; world = w }) s)
  ]

  pub send_sms-IsSynced :
      (phone text : String) (report : Bool) (w : ModemWorld)
      → IsSynced w
      → IsSynced (send_sms env phone text report w).world
  unfolding send_sms refused_send
  send_sms-IsSynced phone text report w s =
      if_IsSynced (env.cancelled w.steps) _ _ (next_step-IsSynced w s) (
        if_IsSynced w.commands.initialized _ _
          (send_encoded-IsSynced (env.encode (suc w.steps) text phone) report
            (next_step (next_step w)) (next_step-IsSynced (next_step w) (next_step-IsSynced w s)))
          (next_step-IsSynced w s))
