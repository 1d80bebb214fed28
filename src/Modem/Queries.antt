-- ===== src/Modem/Queries.antt =====
-- The queries of one connection: `GetModemInfo`, `GetSimInfo` and `GetSignal` of internal/modem/sms.go.
pub mod Kept
use at_gateway.Prelude.{
  arith, ◌≤◌, ◌≡◌, ℕ, suc, ◌*◌, ◌/◌, String, Bool, true, false, not, ◌&&◌, ◌||◌, Option, none, some,
  List, [], ◌∷◌, if◌then◌else◌, ◌==◌, string_eq, ltb, leb,
}
use at_gateway.Modem.Text.{ℤ, pos, negsuc, cut_after, split_commas, trim_space, trim_quotes, atoi}
use at_gateway.Modem.Domain.{
  Info, SimInfo, Command, query, ModemError, context_done, no_csq_line, bad_rssi, Result, done,
  failed, ModemEnv, ModemWorld, next_step,
}
use at_gateway.Modem.Commands.{exec}

-- The answer of a query whose line is searched for: what follows the mark in the first line that has it
-- and that the reader accepts.
abbrev pub first_marked {ℓ} : {A : Type ℓ} → String → (String → Option A) → List String → Option A
first_marked mark read [] = none
first_marked mark read (line ∷ lines) =
    let later = first_marked mark read lines in
    elim (cut_after line mark) [
      | none ↦ later
      | some after ↦ elim (read after) [ none ↦ later | some a ↦ some a ]
    ]

abbrev second_field : List String → Option String
second_field (a ∷ b ∷ fields) = some b
second_field _ = none

abbrev third_field : List String → Option String
third_field (a ∷ b ∷ c ∷ fields) = some c
third_field _ = none

abbrev unquoted : Option String → Option String
unquoted none = none
unquoted (some s) = some (trim_quotes s)

abbrev is_registered : Option String → Option Bool
is_registered none = none
is_registered (some s) = some (trim_space s == "1" || trim_space s == "5")

abbrev first_field : List String → String
first_field [] = ""
first_field (s ∷ fields) = s

abbrev rated : Option ℤ → Result (ℤ × ℕ)
rated none = failed bad_rssi
rated (some (negsuc n)) = done (negsuc n, 0)
rated (some (pos n)) = done (pos n, (if ltb 31 n then 0 else n * 100 / 31))

-- `parseCSQ`.
unfoldable pub parse_csq : String → Result (ℤ × ℕ)
parse_csq raw = rated (atoi (trim_space (first_field (split_commas raw))))

abbrev or_empty : Option String → String
or_empty none = ""
or_empty (some s) = s

abbrev or_false : Option Bool → Bool
or_false none = false
or_false (some b) = b

abbrev or_zero : Result (ℤ × ℕ) → ℤ × ℕ
or_zero (failed e) = (pos 0, 0)
or_zero (done signal) = signal

unfoldable pub csq_line : String → Option (Result (ℤ × ℕ))
unfolding parse_csq
csq_line after = some (parse_csq after)

abbrev signal_of : Option (Result (ℤ × ℕ)) → Result (ℤ × ℕ)
signal_of none = failed no_csq_line
signal_of (some r) = r

unfoldable pub signal_lines : Result (List String) → Result (ℤ × ℕ)
unfolding csq_line
signal_lines (failed e) = failed e
signal_lines (done lines) = signal_of (first_marked "+CSQ:" csq_line lines)

-- The first line of an answer.
abbrev first_line : Result (List String) → Result String
first_line (failed e) = failed e
first_line (done []) = done ""
first_line (done (line ∷ lines)) = done (trim_space line)

abbrev lines_of : Result (List String) → List String
lines_of (failed e) = []
lines_of (done lines) = lines

module _ {Tpdu : Type 0} (env : ModemEnv Tpdu) where
  -- A query behind the check of the context.
  unfoldable pub ask_query : String → ModemWorld → Result (List String) × ModemWorld
  unfolding exec
  ask_query s w =
      if env.cancelled w.steps
      then (failed context_done, next_step w)
      else exec env (query s) none (next_step w)

  -- `atGetString`.
  at_get_string : String → ModemWorld → Result String × ModemWorld
  unfolding ask_query
  at_get_string s w = let (r, v) = ask_query s w in (first_line r, v)

  got_imei : Info → Result String × ModemWorld → Info × Option ModemError × ModemWorld
  got_imei i (failed e, w) = (i, some e, w)
  got_imei i (done s, w) = (record i { imei = s }, none, w)

  got_model : Info → Result String × ModemWorld → Info × Option ModemError × ModemWorld
  unfolding at_get_string got_imei
  got_model i (failed e, w) = (i, some e, w)
  got_model i (done s, w) = got_imei (record i { model = s }) (at_get_string "+GSN" w)

  got_manufacturer : Info → Result String × ModemWorld → Info × Option ModemError × ModemWorld
  unfolding at_get_string got_model
  got_manufacturer i (failed e, w) = (i, some e, w)
  got_manufacturer i (done s, w) =
      got_model (record i { manufacturer = s }) (at_get_string "+GMM" w)

  -- `GetModemInfo`.
  unfoldable pub get_modem_info : ModemWorld → Info × Option ModemError × ModemWorld
  unfolding at_get_string got_manufacturer
  get_modem_info w =
      got_manufacturer (record { manufacturer = ""; model = ""; imei = "" })
        (at_get_string "+GMI" w)

  -- `atGetCNUM`, `atGetCCID`, `atGetCOPS`, `atGetCSQ` and `atGetCREG`, as the parts of `GetSimInfo`.
  unfoldable pub get_sim_info : ModemWorld → SimInfo × ModemWorld
  unfolding ask_query signal_lines
  get_sim_info w =
      let (number, w1) = ask_query "+CNUM" w in
      let (card, w2) = ask_query "+CCID" w1 in
      let (operator, w3) = ask_query "+COPS?" w2 in
      let (signal, w4) = ask_query "+CSQ" w3 in
      let (registration, w5) = ask_query "+CREG?" w4 in
      let (quality, percent) = or_zero (signal_lines signal) in
      (
        record {
          phone_number = or_empty (
              first_marked "+CNUM:" (λ s. unquoted (second_field (split_commas s)))
                (lines_of number));
          iccid = or_empty (first_marked "+CCID:" (λ s. some (trim_space s)) (lines_of card));
          carrier = or_empty (
              first_marked "+COPS:" (λ s. unquoted (third_field (split_commas s)))
                (lines_of operator));
          network_registered = or_false (
              first_marked "+CREG:" (λ s. is_registered (second_field (split_commas s)))
                (lines_of registration));
          signal_quality = quality;
          signal_percent = percent;
        },
        w5,
      )

  -- `GetSignal`.
  unfoldable pub get_signal : ModemWorld → Result (ℤ × ℕ) × ModemWorld
  unfolding ask_query signal_lines
  get_signal w = let (r, v) = ask_query "+CSQ" w in (signal_lines r, v)

rated-percent :
    (o : Option ℤ) (quality : ℤ) (percent : ℕ) → rated o ≡ done (quality, percent) → percent ≤ 100
rated-percent none quality percent h = absurd (ground (arith, h))
rated-percent (some (negsuc n)) quality percent h = ground (arith, h)
rated-percent (some (pos n)) quality percent h = ground (arith, h)

-- A signal that can be read has a percentage of at most 100.
pub parse_csq-percent :
    (raw : String) (quality : ℤ) (percent : ℕ)
    → parse_csq raw ≡ done (quality, percent)
    → percent ≤ 100
unfolding parse_csq
parse_csq-percent raw quality percent h =
    rated-percent (atoi (trim_space (first_field (split_commas raw)))) quality percent h
