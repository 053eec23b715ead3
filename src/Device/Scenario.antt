-- ===== src/Device/Scenario.antt =====
-- A command that is polled, polled again, answered, and answered again.
use hackaton_open_ai.Prelude.{true, none, List, [], ◌∷◌}
use hackaton_open_ai.Store.Tables.{pending}
use hackaton_open_ai.Device.{DevicePrincipal}
use hackaton_open_ai.Device.Commands.{Command, CommandAcknowledgement}
use hackaton_open_ai.Device.Delivery.{Call, poll, acknowledge}

abbrev principal : DevicePrincipal
principal = record {
  credential_id = "cred-1";
  device_id = "mac";
  family_id = "family";
  child_id = "child";
}

abbrev command : Command
command = record {
  id = 1;
  family_id = "family";
  device_id = "mac";
  status = pending;
  created_at = 0;
  expires_at = none;
  next_attempt_at = none;
  attempt_count = 0;
  delivered_at = none;
  acknowledged_at = none;
  terminal_error = none;
}

abbrev executed : CommandAcknowledgement
executed = record { executed = true; error_code = none }

abbrev calls : List Call
calls =
    poll principal 0 1000000
    ∷ poll principal 0 3000000
    ∷ acknowledge principal 1 executed 4000000
    ∷ acknowledge principal 1 executed 5000000
    ∷ []
