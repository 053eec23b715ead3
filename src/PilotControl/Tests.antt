-- ===== src/PilotControl/Tests.antt =====
-- A configuration that is activated, stopped by a kill switch and rolled back.
use hackaton_open_ai.Prelude.{
  ◌≡◌, refl, String, Bool, true, false, Option, none, some, List, [], ◌∷◌, err,
}
use hackaton_open_ai.Model.{EnforcementAction}
use hackaton_open_ai.Samples.{rollout}
use hackaton_open_ai.Pilot.{PilotRolloutConfig, PilotKillSwitch, technical_shadow}
use hackaton_open_ai.PilotControl.{
  PilotExternals, PilotConfigChange, disk_error, ChangeRequest, Files, activation, is_shadow,
  current, changes, activate, commit, plan_change, snapshot_update, pilot_config_digest,
  pilot_config_json, is_valid_change, is_digest,
}
use hackaton_open_ai.PilotControl.Canonical.{canonical_payload, sort_by, insert_by, text_le}
use hackaton_open_ai.PilotControl.Transaction.{
  snapshot_path, apply_transaction, write_each, restore_each,
}
use hackaton_open_ai.PilotControl.Run.{
  Call, activate_call, switch_call, rollback_call, step, run, failed_change_kept,
}

-- What a file holds.
data Content : Type 0 where
  config_file : PilotRolloutConfig → Content
  log_file : List PilotConfigChange → Content

abbrev as_config : Content → Option PilotRolloutConfig
as_config (config_file c) = some c
as_config (log_file cs) = none

abbrev as_log : Content → Option (List PilotConfigChange)
as_log (config_file c) = none
as_log (log_file cs) = some cs

abbrev shadow_digest : String
shadow_digest = "aaaaaaaaaaaaaaaaaaaaaaaaaaaaaaaaaaaaaaaaaaaaaaaaaaaaaaaaaaaaaaaa"

abbrev open_digest : String
open_digest = "bbbbbbbbbbbbbbbbbbbbbbbbbbbbbbbbbbbbbbbbbbbbbbbbbbbbbbbbbbbbbbbb"

abbrev stopped_digest : String
stopped_digest = "cccccccccccccccccccccccccccccccccccccccccccccccccccccccccccccccc"

abbrev digest_by : Bool → List PilotKillSwitch → String
digest_by true switches = shadow_digest
digest_by false [] = open_digest
digest_by false (s ∷ switches) = stopped_digest

abbrev externals : PilotExternals Content
externals = record {
  dump = config_file;
  load = as_config;
  hash = λ c. digest_by (is_shadow c.mode) c.kill_switches;
  dump_changes = log_file;
  load_changes = as_log;
}

abbrev no_files : Files Content
no_files path = none

abbrev asks : Option String → ChangeRequest
asks expected = record {
  actor_subject_digest = shadow_digest;
  change_reference = "CHG-1";
  changed_at = 5;
  is_aware = true;
  expected_active_digest = expected;
}

abbrev stop : PilotKillSwitch
stop = record {
  switch_id = "K-1";
  enabled = true;
  category = none;
  cohort_id = some "c-1";
  ceiling = EnforcementAction.log;
  reason = "incident";
}

abbrev all_written : List Bool
all_written = true ∷ true ∷ true ∷ []

abbrev first_call : Call
first_call = activate_call true all_written rollout (asks none)

abbrev calls : List Call
calls =
    first_call
    ∷ switch_call true all_written stop (asks (some open_digest))
    ∷ activate_call true (true ∷ false ∷ []) rollout (asks (some stopped_digest))
    ∷ activate_call true all_written (record rollout { mode = technical_shadow })
        (asks (some stopped_digest))
    ∷ rollback_call true all_written shadow_digest (asks (some open_digest))
    ∷ []

abbrev first_change : PilotConfigChange
first_change = record {
  action = activation;
  previous_digest = none;
  active_digest = open_digest;
  actor_subject_digest = shadow_digest;
  change_reference = "CHG-1";
  changed_at = 5;
}

abbrev torn_call : Call
torn_call = activate_call true (true ∷ false ∷ []) rollout (asks none)

torn : (step externals torn_call no_files).0 ≡ err disk_error
unfolding step activate commit plan_change current changes snapshot_update pilot_config_digest
    pilot_config_json is_valid_change is_digest canonical_payload sort_by insert_by text_le
    apply_transaction write_each restore_each
torn = refl

failed_change_kept_example :
    (step externals torn_call no_files).1 (snapshot_path open_digest) ≡ none
failed_change_kept_example =
    failed_change_kept externals torn_call no_files disk_error torn (snapshot_path open_digest)

abbrev open_files : Files Content
open_files = run externals (first_call ∷ []) no_files

abbrev stop_all : PilotKillSwitch
stop_all = record stop { cohort_id = none }

abbrev stopped : PilotRolloutConfig
stopped = record rollout { kill_switches = stop_all ∷ [] }

-- The rollout is stopped, and activated again without the switch.
abbrev again_files : Files Content
again_files =
    run externals
      (first_call
        ∷ switch_call true all_written stop_all (asks (some open_digest))
        ∷ activate_call true all_written rollout (asks (some stopped_digest))
        ∷ [])
      no_files
