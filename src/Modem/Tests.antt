-- ===== src/Modem/Tests.antt =====
-- Concrete runs of the modem component.
use at_gateway.Prelude.{
  ◌==◌, nat_eq, if◌then◌else◌, ℕ, ◌≤◌, ◌≡◌, refl, String, true, false, none, some, List, [], ◌∷◌,
  ◌++◌, length, find_key, arith,
}
use at_gateway.Modem.Text.{pos}
use at_gateway.Modem.Domain.{
  ModemEnv, ModemWorld, AtAnswer, responded, refused, deadline, new_commands,
}
use at_gateway.Modem.Commands.Barrier.{IsSynced}
use at_gateway.Modem.Commands.Offers.{offered}
use at_gateway.Modem.Queries.{parse_csq, parse_csq-percent}
use at_gateway.Modem.Store.{stored_pdu}
use at_gateway.Modem.Store.Heads.{stored_pdu-body}
use at_gateway.Modem.Sending.{with_report, send_sms}
use at_gateway.Modem.Sending.Parts.{first_payloads, Ending, send_sms-Ends}
use at_gateway.Modem.Calls.{
  Call, calls_init, calls_sim_info, calls_send, calls_read, calls_delete, run_calls,
}
use at_gateway.Modem.Calls.Reach.{run_calls-IsSynced}
use at_gateway.Modem.Budget.{sweep_budgets, StoredRef, ref_eq, spend_channel_full}
use at_gateway.Modem.Budget.Strikes.{spend-three_times}
use at_gateway.Modem.Budget.Limits.{
  BudgetStep, spends, forgets, sweeps, run_budgets, IsWithinLimits, run_budgets-IsWithinLimits,
}
use at_gateway.Modem.Service.{RouteEnv, Intake}

-- The third command runs into the deadline, every other is answered; a TPDU is its hex text.
abbrev answer_at : ℕ → AtAnswer
answer_at n = if n == 3 then refused deadline else responded ("+CMGS: 7" ∷ [])

abbrev flaky : ModemEnv String
flaky = record {
  command = λ n text. answer_at n;
  sms_command = λ n text hex. answer_at n;
  cancelled = λ n. false;
  encode = λ n text phone. some ("aa" ∷ "bb" ∷ []);
  request_report = λ p. "cc";
  marshal = λ p. some (1, p);
  itoa = λ n. "1";
}

abbrev calls : List Call
calls =
    calls_init
    ∷ calls_sim_info
    ∷ calls_read "SM" 1
    ∷ calls_send "+49" "hi" true
    ∷ calls_delete "ME" 1
    ∷ []

run_calls-IsSynced_example : IsSynced (run_calls flaky calls new_commands)
run_calls-IsSynced_example = run_calls-IsSynced flaky calls

abbrev started : ModemWorld
started = record {
  commands = record { pending_drain = false; initialized = true; selected_store = "" };
  steps = 10;
  wire = [];
  init_failures = [];
}

send_sms-Ends_example :
    (n : ℕ) × (offered (send_sms flaky "+49" "hi" true started).world.wire
      ≡ [] ++ first_payloads flaky n (with_report flaky true ("aa" ∷ "bb" ∷ [])))
    × Ending 2 n
        (length (send_sms flaky "+49" "hi" true started).refs)
        (send_sms flaky "+49" "hi" true started).error
send_sms-Ends_example =
    send_sms-Ends flaky "+49" "hi" true started "aa" ("bb" ∷ []) refl refl refl (omega arith)

stored_pdu-body_example :
    stored_pdu ("+CREG: 1" ∷ "+CMGR: 1,\"\",23" ∷ "+CBM: 2" ∷ " 07AA " ∷ "OK" ∷ []) "+CMGR:"
    ≡ some "07AA"
stored_pdu-body_example =
    stored_pdu-body "+CMGR:" "+CMGR: 1,\"\",23" " 1,\"\",23" " 07AA " ("+CREG: 1" ∷ [])
      ("+CBM: 2" ∷ []) ("OK" ∷ []) ((refl, refl), tt) ((refl, refl), tt) refl refl refl

parse_csq-percent_example : 64 ≤ 100
unfolding parse_csq
parse_csq-percent_example = parse_csq-percent " 20,0" (pos 20) 64 refl

abbrev entry : StoredRef
entry = record { memory = 0; index = 4 }

spend-three_times_example :
    let first = spend_channel_full entry 100 [] in
    let second = spend_channel_full entry 200 first.1 in
    let third = spend_channel_full entry 300 second.1 in
    (first.0 ≡ true) × (second.0 ≡ true) × (third.0 ≡ false) × (find_key entry third.1 ≡ none)
unfolding sweep_budgets
spend-three_times_example = spend-three_times entry 100 200 300 [] refl (omega arith) (omega arith)

abbrev budget_steps : List BudgetStep
budget_steps = spends entry 100 ∷ spends entry 200 ∷ sweeps 300 ∷ forgets entry ∷ []

run_budgets-IsWithinLimits_example : IsWithinLimits (run_budgets [] budget_steps)
run_budgets-IsWithinLimits_example = run_budgets-IsWithinLimits budget_steps

abbrev route : RouteEnv
route = record { now = λ n. n; unmarshal = λ hex. none; retry_attempts = 3 }

abbrev idle : Intake
idle = record {
  connection = started;
  inbound = [];
  budgets = [];
  memories = "SM" ∷ [];
  drops = [];
  store_failures = 0;
  store_sweeps = 0;
}
