-- ===== src/Modem/Calls.antt =====
-- Every use of one connection: the methods of `Commands` (internal/modem/sms.go and store.go) in any
-- order.
pub mod Reach
use at_gateway.Prelude.{ℕ, String, Bool, List, [], ◌∷◌}
use at_gateway.Modem.Domain.{ModemEnv, ModemWorld}
use at_gateway.Modem.Commands.{init_modem}
use at_gateway.Modem.Queries.{get_modem_info, get_sim_info, get_signal}
use at_gateway.Modem.Store.{read_stored_message, delete_stored_message, list_stored_messages}
use at_gateway.Modem.Sending.{send_sms}

pub data Call : Type 0 where
  calls_init calls_modem_info calls_sim_info calls_signal : Call
  calls_send : String → String → Bool → Call
  calls_read calls_delete : String → ℕ → Call
  calls_list : String → Call

module _ {Tpdu : Type 0} (env : ModemEnv Tpdu) where
  unfoldable pub call : Call → ModemWorld → ModemWorld
  unfolding init_modem get_modem_info get_sim_info get_signal send_sms read_stored_message
      delete_stored_message list_stored_messages
  call calls_init w = (init_modem env w).1
  call calls_modem_info w = (get_modem_info env w).2
  call calls_sim_info w = (get_sim_info env w).1
  call calls_signal w = (get_signal env w).1
  call (calls_send phone text report) w = (send_sms env phone text report w).world
  call (calls_read mem index) w = (read_stored_message env mem index w).1
  call (calls_delete mem index) w = (delete_stored_message env mem index w).1
  call (calls_list mem) w = (list_stored_messages env mem w).1

  unfoldable pub run_calls : List Call → ModemWorld → ModemWorld
  unfolding call
  run_calls [] w = w
  run_calls (c ∷ cs) w = run_calls cs (call c w)
