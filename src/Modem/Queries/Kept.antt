-- ===== src/Modem/Queries/Kept.antt =====
-- The queries keep a connection in order: internal/modem/sms.go.
use at_gateway.Prelude.{refl, String, none, Bool-cases, inl, inr}
use at_gateway.Modem.Domain.{Info, query, Result, done, failed, ModemEnv, ModemWorld, next_step}
use at_gateway.Modem.Queries.{
  ask_query, at_get_string, got_imei, got_model, got_manufacturer, get_modem_info, get_sim_info,
  get_signal,
}
use at_gateway.Modem.Commands.Barrier.{IsSynced, next_step-IsSynced}
use at_gateway.Modem.Commands.Kept.{plain-IsSynced}

module _ {Tpdu : Type 0} (env : ModemEnv Tpdu) where
  pub ask_query-IsSynced :
      (q : String) (w : ModemWorld) → IsSynced w → IsSynced (ask_query env q w).1
  unfolding ask_query
  ask_query-IsSynced q w s = elim (Bool-cases (env.cancelled w.steps)) [
    | inl late ↦ rw (ask_query, late) (next_step-IsSynced w s)
    | inr on_time ↦
        rw (ask_query, on_time)
          (plain-IsSynced env (query q) none (next_step w) (λ older. (refl, tt))
            (next_step-IsSynced w s))
  ]

  at_get_string-IsSynced :
      (q : String) (w : ModemWorld) → IsSynced w → IsSynced (at_get_string env q w).1
  unfolding at_get_string
  at_get_string-IsSynced q w s = ask_query-IsSynced q w s

  got_imei-IsSynced :
      (i : Info) (r : Result String) (w : ModemWorld)
      → IsSynced w
      → IsSynced (got_imei env i (r, w)).2
  unfolding got_imei
  got_imei-IsSynced i (failed e) w s = s
  got_imei-IsSynced i (done t) w s = s

  got_model-IsSynced :
      (i : Info) (r : Result String) (w : ModemWorld)
      → IsSynced w
      → IsSynced (got_model env i (r, w)).2
  unfolding got_model
  got_model-IsSynced i (failed e) w s = s
  got_model-IsSynced i (done t) w s =
      let out = at_get_string env "+GSN" w in
      got_imei-IsSynced (record i { model = t }) out.0 out.1 (at_get_string-IsSynced "+GSN" w s)

  got_manufacturer-IsSynced :
      (i : Info) (r : Result String) (w : ModemWorld)
      → IsSynced w
      → IsSynced (got_manufacturer env i (r, w)).2
  unfolding got_manufacturer
  got_manufacturer-IsSynced i (failed e) w s = s
  got_manufacturer-IsSynced i (done t) w s =
      let out = at_get_string env "+GMM" w in
      got_model-IsSynced (record i { manufacturer = t }) out.0 out.1
        (at_get_string-IsSynced "+GMM" w s)

  pub get_modem_info-IsSynced : (w : ModemWorld) → IsSynced w → IsSynced (get_modem_info env w).2
  unfolding get_modem_info
  get_modem_info-IsSynced w s =
      let out = at_get_string env "+GMI" w in
      got_manufacturer-IsSynced (record { manufacturer = ""; model = ""; imei = "" }) out.0 out.1
        (at_get_string-IsSynced "+GMI" w s)

  pub get_sim_info-IsSynced : (w : ModemWorld) → IsSynced w → IsSynced (get_sim_info env w).1
  unfolding get_sim_info
  get_sim_info-IsSynced w s =
      let w1 = (ask_query env "+CNUM" w).1 in
      let w2 = (ask_query env "+CCID" w1).1 in
      let w3 = (ask_query env "+COPS?" w2).1 in
      let w4 = (ask_query env "+CSQ" w3).1 in
      ask_query-IsSynced "+CREG?" w4 (
        ask_query-IsSynced "+CSQ" w3 (
          ask_query-IsSynced "+COPS?" w2
            (ask_query-IsSynced "+CCID" w1 (ask_query-IsSynced "+CNUM" w s))))

  pub get_signal-IsSynced : (w : ModemWorld) → IsSynced w → IsSynced (get_signal env w).1
  unfolding get_signal
  get_signal-IsSynced w s = ask_query-IsSynced "+CSQ" w s
