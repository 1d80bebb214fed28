-- ===== src/Modem/Sending.antt =====
-- Sending an SMS: `Commands.SendSMS` of internal/modem/sms.go.
pub mod Kept
pub mod Parts
use at_gateway.Prelude.{
  ℕ, zero, suc, ◌≡◌, String, Bool, true, false, not, Option, none, some, List, [], ◌∷◌, ◌++◌,
  if◌then◌else◌, ◌==◌, nat_eq, string_eq, ltb, length,
}
use at_gateway.Modem.Text.{ℤ, cut_prefix, trim_space, atoi}
use at_gateway.Modem.Domain.{
  Command, send_length, ModemError, context_done, modem_not_started, encode_failed, text_empty,
  text_too_long, marshal_failed, no_cmgs_line, bad_reference, of_command, of_part, Result, done,
  failed, ModemEnv, ModemWorld, next_step,
}
use at_gateway.Modem.Commands.{exec}
use at_gateway.Modem.Store.{drop_urc_heads}

abbrev reference_of : Command → Option ℤ → Result ℤ
reference_of c none = failed (of_command c bad_reference)
reference_of c (some mr) = done mr

abbrev reference_line : Command → Option String → Result ℤ → Result ℤ
reference_line c none later = later
reference_line c (some suffix) later = reference_of c (atoi (trim_space suffix))

-- The message reference in an answer to +CMGS.
abbrev reference_in : Command → List String → Result ℤ
reference_in c [] = failed (of_command c no_cmgs_line)
reference_in c (line ∷ lines) = reference_line c (cut_prefix line "+CMGS:") (reference_in c lines)

reference_lines : Command → Result (List String) × ModemWorld → Result ℤ × ModemWorld
unfolding drop_urc_heads
reference_lines c (failed e, w) = (failed e, w)
reference_lines c (done lines, w) = (reference_in c (drop_urc_heads lines "+CMGS:"), w)

-- The references of the accepted parts, the error and the connection after it.
pub record Sent : Type 0 where
  pub refs : List ℤ
  pub error : Option ModemError
  pub world : ModemWorld

-- `partialRefs` for the failure of a part.
abbrev partial_refs : List ℤ → ℕ → ℕ → ModemError → ModemWorld → Sent
partial_refs refs failing total cause w =
    if total == 1
    then record { refs = []; error = some cause; world = w }
    else record { refs = refs; error = some (of_part (suc failing) total cause); world = w }

part_over : List ℤ → ℕ → ℕ → Result ℤ × ModemWorld → Sent
part_over refs i total (failed e, w) = partial_refs refs i total e w
part_over refs i total (done ref, w) = record { refs = refs ++ ref ∷ []; error = none; world = w }

refused_send : ModemError → ModemWorld → Sent
refused_send e w = record { refs = []; error = some e; world = w }

module _ {Tpdu : Type 0} (env : ModemEnv Tpdu) where
  send_marshalled : Option (ℕ × String) → ModemWorld → Result ℤ × ModemWorld
  unfolding exec reference_lines
  send_marshalled none w = (failed marshal_failed, w)
  send_marshalled (some (len, hex)) w =
      reference_lines (send_length len) (exec env (send_length len) (some hex) w)

  -- `sendPDU`.
  unfoldable send_pdu : Tpdu → ModemWorld → Result ℤ × ModemWorld
  unfolding send_marshalled
  send_pdu p w = send_marshalled (env.marshal p) w

  -- One turn of the loop over the parts, which a failure has ended.
  try_part : ℕ → ℕ → Tpdu → List ℤ → Option ModemError → ModemWorld → Sent
  unfolding send_pdu part_over
  try_part total i p refs (some e) w = record { refs = refs; error = some e; world = w }
  try_part total i p refs none w =
      if env.cancelled w.steps
      then partial_refs refs i total context_done (next_step w)
      else part_over refs i total (send_pdu p (next_step w))

  unfoldable send_parts : ℕ → ℕ → List Tpdu → Sent → Sent
  unfolding try_part
  send_parts total i [] s = s
  send_parts total i (p ∷ ps) s =
      send_parts total (suc i) ps (try_part total i p s.refs s.error s.world)

  -- The request of a status report, in the last part.
  abbrev pub request_last : List Tpdu → List Tpdu
  request_last [] = []
  request_last (p ∷ []) = env.request_report p ∷ []
  request_last (p ∷ q ∷ ps) = p ∷ request_last (q ∷ ps)

  abbrev pub with_report : Bool → List Tpdu → List Tpdu
  with_report true pdus = request_last pdus
  with_report false pdus = pdus

  unfoldable send_encoded : Option (List Tpdu) → Bool → ModemWorld → Sent
  unfolding send_parts refused_send
  send_encoded none report w = refused_send encode_failed w
  send_encoded (some []) report w = refused_send text_empty w
  send_encoded (some (p ∷ ps)) report w =
      if ltb 255 (length (p ∷ ps))
      then refused_send (text_too_long (length (p ∷ ps))) w
      else send_parts (length (p ∷ ps)) 0 (with_report report (p ∷ ps))
          (record { refs = []; error = none; world = w })

  -- `Commands.SendSMS`.
  unfoldable pub send_sms : String → String → Bool → ModemWorld → Sent
  unfolding send_encoded
  send_sms phone text report w =
      if env.cancelled w.steps
      then refused_send context_done (next_step w)
      else if w.commands.initialized
      then send_encoded (env.encode (suc w.steps) text phone) report (next_step (next_step w))
      else refused_send modem_not_started (next_step w)
