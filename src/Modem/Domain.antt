-- ===== src/Modem/Domain.antt =====
-- Values of the modem component (internal/modem/domain.go, errors.go, sms.go and metrics.go) and what it
-- asks of the AT library, the SMS encoder and the context.
use at_gateway.Prelude.{ℕ, suc, String, Bool, false, Option, List, []}
use at_gateway.Modem.Text.{ℤ}

-- `State`.
pub data State : Type 0 where
  disconnected connecting ready error_state : State

-- `State.String`.
abbrev pub state_text : State → String
state_text disconnected = "disconnected"
state_text connecting = "connecting"
state_text ready = "ready"
state_text error_state = "error"

-- `Info`.
pub record Info : Type 0 where
  pub manufacturer : String
  pub model : String
  pub imei : String

-- `SimInfo`.
pub record SimInfo : Type 0 where
  pub phone_number : String
  pub iccid : String
  pub carrier : String
  pub network_registered : Bool
  pub signal_quality : ℤ
  pub signal_percent : ℕ

-- The commands that the code builds (`initCommand`). The memory of the last three is the store that the
-- caller means; it is no part of their text.
pub data Command : Type 0 where
  drain test_row echo_row errors_row pdu_row routing_row pin_row : Command
  query : String → Command
  send_length : ℕ → Command
  select_store : String → Command
  read_at delete_at : String → ℕ → Command
  list_all : String → Command

-- How an AT command fails: `at.ErrDeadlineExceeded`, a status of the modem (ERROR, +CME ERROR and
-- +CMS ERROR), or any other error.
pub data AtError : Type 0 where
  deadline : AtError
  rejected other_error : String → AtError

pub data AtAnswer : Type 0 where
  responded : List String → AtAnswer
  refused : AtError → AtAnswer

-- The errors of the package, with what they wrap.
pub data ModemError : Type 0 where
  context_done modem_not_started encode_failed text_empty no_csq_line bad_rssi : ModemError
  text_too_long : ℕ → ModemError
  sim_not_ready : String → ModemError
  marshal_failed : ModemError
  modem_timeout no_cmgs_line bad_reference no_stored_line not_stored_reference : ModemError
  init_failed send_failed library_error : AtError → ModemError
  of_command : Command → ModemError → ModemError
  of_part : ℕ → ℕ → ModemError → ModemError

pub data Result {ℓ} (A : Type ℓ) : Type ℓ where
  done : A → Result A
  failed : ModemError → Result A

-- The outside, asked at a numbered step. `Tpdu` is the encoder's `tpdu.TPDU`.
pub record ModemEnv (Tpdu : Type 0) : Type 0 where
  -- `at.Command(cmd)` and `at.SMSCommand(cmd, payload)`.
  pub command : ℕ → String → AtAnswer
  pub sms_command : ℕ → String → String → AtAnswer
  -- `ctx.Err() != nil`.
  pub cancelled : ℕ → Bool
  -- `encoder.Encode([]byte(text), sms.To(phone))`; the encoder has a state of its own.
  pub encode : ℕ → String → String → Option (List Tpdu)
  -- `FirstOctet |= tpdu.FoSRR`.
  pub request_report : Tpdu → Tpdu
  -- `MarshalBinary` and `MarshalHexString`: the length of the TPDU and the hex text of the PDU.
  pub marshal : Tpdu → Option (ℕ × String)
  -- `strconv.Itoa`.
  pub itoa : ℕ → String

-- How an exchange with the modem ended.
pub data Outcome : Type 0 where
  accepted turned_down timed_out : Outcome

pub record Exchange : Type 0 where
  pub command : Command
  pub payload : Option String
  pub outcome : Outcome

-- `Commands`, without its handles.
pub record Commands : Type 0 where
  pub pending_drain : Bool
  pub initialized : Bool
  pub selected_store : String

-- A connection to the modem. The exchanges, newest first, are what at_gateway_modem_commands_total
-- counts, by the tag of the command and by whether it was accepted.
pub record ModemWorld : Type 0 where
  pub commands : Commands
  pub steps : ℕ
  pub wire : List Exchange
  -- The stages of at_gateway_modem_init_failures_total, newest first.
  pub init_failures : List Command

-- `NewCommands`.
unfoldable pub new_commands : ModemWorld
new_commands = record {
  commands = record { pending_drain = false; initialized = false; selected_store = "" };
  steps = 0;
  wire = [];
  init_failures = [];
}

abbrev pub next_step : ModemWorld → ModemWorld
next_step w = record w { steps = suc w.steps }
