-- ===== src/Modem/Sending/Parts.antt =====
-- Which parts of a message reach the modem, and what the caller learns: `SendSMS` of
-- internal/modem/sms.go.
use at_gateway.Prelude.{
  length-append, ℕ, zero, suc, ◌+◌, ◌≤◌, ◌≡◌, ◌≢◌, ◌⊎◌, refl, sym, ◌∙◌, ap, subst, String, Bool,
  true, false, Option, none, some, List, [], ◌∷◌, ◌++◌, if◌then◌else◌, ◌==◌, ==_iff, nat_eq, ltb,
  length, Bool-cases, inl, inr, arith,
}
use mathlib.Core.List.{append_assoc, append-nil}
use at_gateway.Modem.Text.{ℤ}
use at_gateway.Modem.Domain.{
  Command, send_length, ModemError, context_done, of_part, modem_not_started, text_too_long, Result,
  done, failed, ModemEnv, ModemWorld, next_step,
}
use at_gateway.Modem.Commands.{exec}
use at_gateway.Modem.Commands.Offers.{offered, Tries, exec-Tries}
use at_gateway.Modem.Sending.Kept.{partial_refs-world}
use at_gateway.Modem.Sending.{
  Sent, reference_lines, partial_refs, part_over, send_marshalled, send_pdu, try_part, send_parts,
  refused_send, with_report, request_last, send_encoded, send_sms,
}

abbrev hex_text : Option (ℕ × String) → String
hex_text none = ""
hex_text (some (len, hex)) = hex

module _ {Tpdu : Type 0} (env : ModemEnv Tpdu) where
  -- The hex texts of the first parts.
  abbrev pub first_payloads : ℕ → List Tpdu → List String
  first_payloads zero ps = []
  first_payloads (suc n) [] = []
  first_payloads (suc n) (p ∷ ps) = hex_text (env.marshal p) ∷ first_payloads n ps

  -- The modem was given the first parts, in order, each once.
  abbrev Gave : ℕ → List Tpdu → ModemWorld → ModemWorld → Type 0
  Gave n ps before after = offered after.wire ≡ offered before.wire ++ first_payloads n ps

-- How a message ended: all parts are accepted, or a part failed.
pub data Ending (parts given refs : ℕ) : Option ModemError → Type 0 where
  all_accepted : given ≡ parts → refs ≡ parts → Ending parts given refs none
  only_part : {e : ModemError} → parts ≡ 1 → refs ≡ 0 → given ≤ 1 → Ending parts given refs (some e)
  cut_short :
      {e : ModemError}
      → parts ≢ 1
      → refs ≤ given
      → given ≤ suc refs
      → refs ≤ parts
      → Ending parts given refs (some e)

module _ {Tpdu : Type 0} (env : ModemEnv Tpdu) where
  reference_lines-Tries :
      (c : Command) (hex : String) (w : ModemWorld) (r : Result (List String)) (v : ModemWorld)
      → Tries hex w (r, v)
      → Tries hex w (reference_lines c (r, v))
  unfolding reference_lines
  reference_lines-Tries c hex w (failed e) v t = record {
    once = λ a h. absurd (ground (arith, h));
    at_most_once = t.at_most_once;
  }
  reference_lines-Tries c hex w (done lines) v t = record {
    once = λ a h. t.once lines refl;
    at_most_once = t.at_most_once;
  }

  send_marshalled-Tries :
      (o : Option (ℕ × String)) (w : ModemWorld) → Tries (hex_text o) w (send_marshalled env o w)
  unfolding send_marshalled
  send_marshalled-Tries none w = record {
    once = λ a h. absurd (ground (arith, h));
    at_most_once = inl refl;
  }
  send_marshalled-Tries (some (len, hex)) w =
      let out = exec env (send_length len) (some hex) w in
      reference_lines-Tries (send_length len) hex w out.0 out.1
        (exec-Tries env (send_length len) hex w)

stops :
    (refs : List ℤ) (i total given : ℕ) (e : ModemError) (w : ModemWorld)
    → length refs ≡ i
    → suc i ≤ total
    → i ≤ given
    → given ≤ suc i
    → Ending total given
        (length (partial_refs refs i total e w).refs)
        (partial_refs refs i total e w).error
stops refs i total given e w n more low high = elim (Bool-cases (total == 1)) [
  | inl one ↦
      let eq = (==_iff total 1).0 one in rw one (only_part eq refl (omega (arith, eq, more, high)))
  | inr several ↦ rw several (
      cut_short (λ eq. absurd (ground (arith, several, eq))) (omega (arith, n, low))
        (omega (arith, n, high)) (omega (arith, n, more)))
]

Ending-given :
    {parts given more refs : ℕ} {e : Option ModemError}
    → given ≡ more
    → Ending parts given refs e
    → Ending parts more refs e
Ending-given {parts = p} {refs = r} {e = o} eq ending = subst (λ n. Ending p n r o) eq ending

later-Tries :
    {hex : String} {w : ModemWorld} {out : Result ℤ × ModemWorld}
    → Tries hex (next_step w) out
    → Tries hex w out
later-Tries t = record { once = t.once; at_most_once = t.at_most_once }

-- Where the modem was given the first `n` of some parts, and with them `given` parts of the message.
abbrev Ends : {Tpdu : Type 0} → ModemEnv Tpdu → ℕ → ℕ → List Tpdu → ModemWorld → Sent → Type 0
Ends env total i ps w out =
    (n : ℕ) × (offered out.world.wire ≡ offered w.wire ++ first_payloads env n ps)
    × Ending total (i + n) (length out.refs) out.error

module _ {Tpdu : Type 0} (env : ModemEnv Tpdu) where
  send_parts-failed :
      (total i : ℕ) (ps : List Tpdu) (refs : List ℤ) (e : ModemError) (w : ModemWorld)
      → send_parts env total i ps (record { refs = refs; error = some e; world = w })
        ≡ record { refs = refs; error = some e; world = w }
  unfolding send_parts try_part
  send_parts-failed total i [] refs e w = refl
  send_parts-failed total i (p ∷ ps) refs e w = send_parts-failed total (suc i) ps refs e w

  send_parts-stopped :
      (total i j : ℕ) (ps : List Tpdu) (refs : List ℤ) (e : ModemError) (w : ModemWorld)
      → send_parts env total j ps (partial_refs refs i total e w) ≡ partial_refs refs i total e w
  send_parts-stopped total i j ps refs e w = elim (Bool-cases (total == 1)) [
    | inl one ↦ rw one (send_parts-failed total j ps [] e w)
    | inr several ↦ rw several (send_parts-failed total j ps refs (of_part (suc i) total e) w)
  ]

  -- A failed part ends the loop.
  stopped-Ends :
      (total i : ℕ) (p : Tpdu) (ps : List Tpdu) (refs : List ℤ) (e : ModemError) (w v : ModemWorld)
      → length refs ≡ i
      → i + suc (length ps) ≡ total
      → (offered v.wire ≡ offered w.wire)
        ⊎ (offered v.wire ≡ offered w.wire ++ hex_text (env.marshal p) ∷ [])
      → Ends env total i
          (p ∷ ps)
          w
          (send_parts env total (suc i) ps (partial_refs refs i total e v))
  stopped-Ends total i p ps refs e w v n more given =
      rw (send_parts-stopped total i (suc i) ps refs e v) (
        let there : (partial_refs refs i total e v).world ≡ v =
          partial_refs-world refs i total e v in
        elim given [
          | inl same ↦ (
            0,
            ap (λ x. offered x.wire) there ∙ same ∙ sym (append-nil (offered w.wire)),
            stops refs i total (i + 0) e v n (omega (arith, more)) (omega arith) (omega arith),
          )
          | inr one ↦ (
            1,
            ap (λ x. offered x.wire) there ∙ one,
            stops refs i total (i + 1) e v n (omega (arith, more)) (omega arith) (omega arith),
          )
        ])

  -- What follows the answer to a part, if the rest of the loop ends well.
  answered-Ends :
      (total i : ℕ) (p : Tpdu) (ps : List Tpdu) (refs : List ℤ) (w : ModemWorld) (r : Result ℤ)
      (v : ModemWorld)
      → length refs ≡ i
      → i + suc (length ps) ≡ total
      → Tries (hex_text (env.marshal p)) w (r, v)
      → ((more : List ℤ)
          → length more ≡ suc i
          → Ends env total
              (suc i)
              ps
              v
              (send_parts env total (suc i) ps (record { refs = more; error = none; world = v })))
      → Ends env total i
          (p ∷ ps)
          w
          (send_parts env total (suc i) ps (part_over refs i total (r, v)))
  unfolding part_over
  answered-Ends total i p ps refs w (failed e) v n more t rest =
      stopped-Ends total i p ps refs e w v n more t.at_most_once
  answered-Ends total i p ps refs w (done ref) v n more t rest =
      let (k, given, ending) =
        rest (refs ++ ref ∷ []) (omega (arith, length-append refs (ref ∷ []), n)) in
      let hex = hex_text (env.marshal p) in
      let joined = append_assoc (offered w.wire) (hex ∷ []) (first_payloads env k ps) in
      (
        suc k,
        given ∙ ap (λ x. x ++ first_payloads env k ps) (t.once ref refl) ∙ joined,
        Ending-given (omega arith) ending,
      )

  send_parts-Ends :
      (total i : ℕ) (ps : List Tpdu) (refs : List ℤ) (w : ModemWorld)
      → length refs ≡ i
      → i + length ps ≡ total
      → Ends env total i ps w
          (send_parts env total i ps (record { refs = refs; error = none; world = w }))
  unfolding send_parts try_part send_pdu
  send_parts-Ends total i [] refs w n more = (
    0,
    sym (append-nil (offered w.wire)),
    all_accepted (omega (arith, more)) (omega (arith, n, more)),
  )
  send_parts-Ends total i (p ∷ ps) refs w n more =
      let out = send_pdu env p (next_step w) in
      let turn : Bool → Sent = λ b.
        if b
        then partial_refs refs i total context_done (next_step w)
        else part_over refs i total out in
      let Goal : Bool → Type 0 =
        λ b. Ends env total i (p ∷ ps) w (send_parts env total (suc i) ps (turn b)) in
      elim (Bool-cases (env.cancelled w.steps)) [
        | inl late ↦
            subst Goal (sym late)
              (stopped-Ends total i p ps refs context_done w (next_step w) n more (inl refl))
        | inr on_time ↦ subst Goal (sym on_time) (
            answered-Ends total i p ps refs w out.0 out.1 n more
              (later-Tries (send_marshalled-Tries env (env.marshal p) (next_step w)))
              (λ more_refs h.
                send_parts-Ends total (suc i) ps more_refs out.1 h (omega (arith, more))))
      ]

request_last-length :
    {Tpdu : Type 0} (env : ModemEnv Tpdu) (p : Tpdu) (ps : List Tpdu)
    → length (request_last env (p ∷ ps)) ≡ length (p ∷ ps)
request_last-length env p [] = refl
request_last-length env p (q ∷ ps) = ap suc (request_last-length env q ps)

with_report-length :
    {Tpdu : Type 0} (env : ModemEnv Tpdu) (report : Bool) (p : Tpdu) (ps : List Tpdu)
    → length (with_report env report (p ∷ ps)) ≡ length (p ∷ ps)
with_report-length env true p ps = request_last-length env p ps
with_report-length env false p ps = refl

-- If the context is live, the connection is initialized and the encoder answers with one to 255 parts,
-- then the modem is given a prefix of those parts, in order and each once. Without an error these are
-- all the parts and there is one reference for each. With an error, a message of a single part leaves
-- no reference and gives at most that part, and a longer message leaves one reference for each part
-- given, the last one perhaps excepted.
pub send_sms-Ends :
    {Tpdu : Type 0} (env : ModemEnv Tpdu) (phone text : String) (report : Bool) (w : ModemWorld)
    (p : Tpdu) (ps : List Tpdu)
    → env.cancelled w.steps ≡ false
    → w.commands.initialized ≡ true
    → env.encode (suc w.steps) text phone ≡ some (p ∷ ps)
    → length (p ∷ ps) ≤ 255
    → (n : ℕ) × (offered (send_sms env phone text report w).world.wire
        ≡ offered w.wire ++ first_payloads env n (with_report env report (p ∷ ps)))
      × Ending
          (length (p ∷ ps))
          n
          (length (send_sms env phone text report w).refs)
          (send_sms env phone text report w).error
unfolding send_sms send_encoded
send_sms-Ends env phone text report w p ps live started coded fits =
    let Goal : Sent → Type 0 = λ out.
      (n : ℕ) × (offered out.world.wire
        ≡ offered w.wire ++ first_payloads env n (with_report env report (p ∷ ps)))
      × Ending (length (p ∷ ps)) n (length out.refs) out.error in
    let v = next_step (next_step w) in
    let go = refused_send context_done (next_step w) in
    let closed = refused_send modem_not_started (next_step w) in
    let loop =
      send_parts env (length (p ∷ ps)) 0 (with_report env report (p ∷ ps))
        (record { refs = []; error = none; world = v }) in
    let (n, given, ending) =
      send_parts-Ends env (length (p ∷ ps)) 0 (with_report env report (p ∷ ps)) [] v refl
        (omega (arith, with_report-length env report p ps)) in
    let short : ltb 255 (length (p ∷ ps)) ≡ false = ground (arith, fits) in
    subst
      (λ b. Goal (
        if b
        then go
        else if w.commands.initialized
        then send_encoded env (env.encode (suc w.steps) text phone) report v
        else closed))
      (sym live)
      (subst
        (λ b.
          Goal
            (if b then send_encoded env (env.encode (suc w.steps) text phone) report v else closed))
        (sym started)
        (subst (λ o. Goal (send_encoded env o report v)) (sym coded)
          (subst (λ b. Goal (if b then refused_send (text_too_long (length (p ∷ ps))) v else loop))
            (sym short) (n, given, Ending-given (omega arith) ending))))
