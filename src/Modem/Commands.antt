-- ===== src/Modem/Commands.antt =====
-- The commands of one connection: the drain barrier, the init sequence and the message store
-- (internal/modem/sms.go and store.go). The mutex of `Commands` makes each command atomic with its drain, and
-- each store command with the selection of its store.
pub mod Barrier
pub mod Kept
pub mod Offers
pub mod Erases
use Prim.Native.String.{◌++◌ as ◌+++◌}
use at_gateway.Prelude.{
  ℕ, suc, String, Bool, true, false, not, ◌&&◌, ◌||◌, Option, none, some, List, [], ◌∷◌,
  if◌then◌else◌, ◌==◌, string_eq, nat_eq, select_where, ltb, leb,
}
use at_gateway.Modem.Text.{
  ℤ, pos, negsuc, cut_prefix, has_prefix, cut_after, split_commas, trim_space, trim_quotes, atoi,
  is_hex, upper_is,
}
use at_gateway.Modem.Domain.{
  Command, drain, test_row, echo_row, errors_row, pdu_row, routing_row, pin_row, query, send_length,
  select_store, read_at, delete_at, list_all, AtError, deadline, rejected, other_error, AtAnswer,
  responded, refused, ModemError, context_done, sim_not_ready, modem_timeout, no_stored_line,
  not_stored_reference, init_failed, send_failed, library_error, of_command, Result, done, failed,
  ModemEnv, Outcome, accepted, turned_down, timed_out, Exchange, Commands, ModemWorld, next_step,
}

-- The `cmd` of a command.
abbrev pub command_text : (ℕ → String) → Command → String
command_text itoa drain = ""
command_text itoa test_row = ""
command_text itoa echo_row = "E0"
command_text itoa errors_row = "+CMEE=1"
command_text itoa pdu_row = "+CMGF=0"
command_text itoa routing_row = "+CNMI=2,1,0,1,0"
command_text itoa pin_row = "+CPIN?"
command_text itoa (query s) = s
command_text itoa (send_length n) = "+CMGS=" +++ itoa n
command_text itoa (select_store mem) = "+CPMS=\"" +++ (mem +++ "\"")
command_text itoa (read_at mem index) = "+CMGR=" +++ itoa index
command_text itoa (delete_at mem index) = "+CMGD=" +++ itoa index
command_text itoa (list_all mem) = "+CMGL=4"

abbrev outcome_of : AtAnswer → Outcome
outcome_of (responded lines) = accepted
outcome_of (refused deadline) = timed_out
outcome_of (refused e) = turned_down

abbrev set_pending : Bool → ModemWorld → ModemWorld
set_pending b w = record w { commands = record (w.commands) { pending_drain = b } }

-- An exchange is over.
abbrev exchanged : Command → Option String → AtAnswer → ModemWorld → ModemWorld
exchanged c payload answer w = record (next_step w) {
  wire = record { command = c; payload = payload; outcome = outcome_of answer } ∷ w.wire;
}

drained : AtAnswer → ModemWorld → Bool × ModemWorld
drained (refused deadline) w = (true, exchanged drain none (refused deadline) w)
drained answer w = (false, set_pending false (exchanged drain none answer w))

-- `mapCommandError` for a command and `mapSMSError` for a command with a payload.
abbrev map_error : Option String → AtError → ModemError
map_error payload deadline = modem_timeout
map_error none (rejected code) = init_failed (rejected code)
map_error (some payload) (rejected code) = send_failed (rejected code)
map_error payload (other_error e) = library_error (other_error e)

answered : Command → Option String → AtAnswer → ModemWorld → Result (List String) × ModemWorld
answered c payload (responded lines) w = (done lines, exchanged c payload (responded lines) w)
answered c payload (refused deadline) w = (
  failed (of_command c (map_error payload deadline)),
  set_pending true (exchanged c payload (refused deadline) w),
)
answered c payload (refused e) w =
    (failed (of_command c (map_error payload e)), exchanged c payload (refused e) w)

module _ {Tpdu : Type 0} (env : ModemEnv Tpdu) where
  -- `drainLocked`: whether the drain timed out.
  unfoldable pub drain_locked : ModemWorld → Bool × ModemWorld
  unfolding drained
  drain_locked w =
      if w.commands.pending_drain then drained (env.command w.steps "") w else (false, w)

  ask : Command → Option String → ℕ → AtAnswer
  ask c none n = env.command n (command_text env.itoa c)
  ask c (some payload) n = env.sms_command n (command_text env.itoa c) payload

  behind_barrier : Command → Option String → Bool × ModemWorld → Result (List String) × ModemWorld
  unfolding ask answered
  behind_barrier c payload (true, w) = (failed (of_command c modem_timeout), w)
  behind_barrier c payload (false, w) = answered c payload (ask c payload w.steps) w

  -- `execLocked` for a command, and `execSMS` for a command with a payload.
  unfoldable pub exec : Command → Option String → ModemWorld → Result (List String) × ModemWorld
  unfolding drain_locked behind_barrier
  exec c payload w = behind_barrier c payload (drain_locked w)

abbrev init_rows : List Command
init_rows = test_row ∷ echo_row ∷ errors_row ∷ pdu_row ∷ routing_row ∷ pin_row ∷ []

abbrev wrong_status : String → Option ModemError → Option ModemError
wrong_status status later =
    if status == "READY" then later else some (of_command pin_row (sim_not_ready status))

abbrev pin_line : Option String → Option ModemError → Option ModemError
pin_line none later = later
pin_line (some suffix) later = wrong_status (trim_space suffix) later

-- The gate of `Init` on the answer to +CPIN?.
abbrev pub pin_problem : List String → Option ModemError
pin_problem [] = none
pin_problem (line ∷ lines) = pin_line (cut_prefix line "+CPIN:") (pin_problem lines)

abbrev row_problem : Command → List String → Option ModemError
row_problem pin_row lines = pin_problem lines
row_problem c lines = none

abbrev inc_init_failure : Command → ModemWorld → ModemWorld
inc_init_failure c w = record w { init_failures = c ∷ w.init_failures }

abbrev set_initialized : ModemWorld → ModemWorld
set_initialized w = record w { commands = record (w.commands) { initialized = true } }

row_over : Command → Result (List String) × ModemWorld → Option ModemError × ModemWorld
row_over c (failed e, w) = (some e, inc_init_failure c w)
row_over c (done lines, w) = elim (row_problem c lines) [
  | some e ↦ (some e, inc_init_failure c w)
  | none ↦ (none, w)
]

module _ {Tpdu : Type 0} (env : ModemEnv Tpdu) where
  run_row : Command → ModemWorld → Option ModemError × ModemWorld
  unfolding row_over exec
  run_row c w =
      if env.cancelled w.steps
      then (some (of_command c modem_timeout), inc_init_failure c (next_step w))
      else row_over c (exec env c none (next_step w))

  next_row : List Command → Option ModemError × ModemWorld → Option ModemError × ModemWorld
  unfolding run_row
  next_row rows (some e, w) = (some e, w)
  next_row [] (none, w) = (none, set_initialized w)
  next_row (c ∷ rows) (none, w) = next_row rows (run_row c w)

  -- `Init`.
  unfoldable pub init_modem : ModemWorld → Option ModemError × ModemWorld
  unfolding next_row
  init_modem w = next_row init_rows (none, w)
