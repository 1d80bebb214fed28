-- ===== src/Modem/Calls/Reach.antt =====
-- What holds of a connection after any sequence of calls: internal/modem/sms.go and store.go.
use at_gateway.Prelude.{refl, List, [], ◌∷◌}
use at_gateway.Modem.Domain.{ModemEnv, ModemWorld, new_commands}
use at_gateway.Modem.Commands.Barrier.{IsSynced}
use at_gateway.Modem.Commands.Kept.{init_modem-IsSynced}
use at_gateway.Modem.Queries.Kept.{
  get_modem_info-IsSynced, get_sim_info-IsSynced, get_signal-IsSynced,
}
use at_gateway.Modem.Store.Selected.{
  read_stored_message-IsSynced, delete_stored_message-IsSynced, list_stored_messages-IsSynced,
}
use at_gateway.Modem.Sending.Kept.{send_sms-IsSynced}
use at_gateway.Modem.Calls.{
  Call, calls_init, calls_modem_info, calls_sim_info, calls_signal, calls_send, calls_read,
  calls_delete, calls_list, call, run_calls,
}

new_commands-IsSynced : IsSynced new_commands
unfolding new_commands
new_commands-IsSynced = record { pending = refl; selected = refl; sound = tt }

module _ {Tpdu : Type 0} (env : ModemEnv Tpdu) where
  call-IsSynced : (c : Call) (w : ModemWorld) → IsSynced w → IsSynced (call env c w)
  unfolding call
  call-IsSynced calls_init w s = init_modem-IsSynced env w s
  call-IsSynced calls_modem_info w s = get_modem_info-IsSynced env w s
  call-IsSynced calls_sim_info w s = get_sim_info-IsSynced env w s
  call-IsSynced calls_signal w s = get_signal-IsSynced env w s
  call-IsSynced (calls_send phone text report) w s = send_sms-IsSynced env phone text report w s
  call-IsSynced (calls_read mem index) w s = read_stored_message-IsSynced env mem index w s
  call-IsSynced (calls_delete mem index) w s = delete_stored_message-IsSynced env mem index w s
  call-IsSynced (calls_list mem) w s = list_stored_messages-IsSynced env mem w s

  run_keeps_IsSynced :
      (cs : List Call) (w : ModemWorld) → IsSynced w → IsSynced (run_calls env cs w)
  unfolding run_calls
  run_keeps_IsSynced [] w s = s
  run_keeps_IsSynced (c ∷ cs) w s = run_keeps_IsSynced cs (call env c w) (call-IsSynced c w s)

-- After any sequence of calls on a new connection, in any environment: the barrier is set exactly if the
-- last exchange timed out, nothing but a drain was ever sent after a time-out, and every command on
-- the message store was sent while the last accepted selection named the store that it means, or it
-- means none.
pub run_calls-IsSynced :
    {Tpdu : Type 0} (env : ModemEnv Tpdu) (cs : List Call)
    → IsSynced (run_calls env cs new_commands)
run_calls-IsSynced env cs = run_keeps_IsSynced env cs new_commands new_commands-IsSynced
