-- ===== src/Agent/Tests.antt =====
-- An insult that the remote provider found, a Mac with one blockable application, and an outbox.
use hackaton_open_ai.Prelude.{
  ◌≡◌, ◌≢◌, ◌↔◌, refl, String, Bool, true, false, none, some, Option, List, [], ◌∷◌, contains,
  string_eq, ◌==◌, if◌then◌else◌, ok, err,
}
use hackaton_open_ai.Model.{PolicyDecision, EnforcementAction, hate_speech}
use hackaton_open_ai.Policy.{apply_policy, enforce}
use hackaton_open_ai.Gate.{apply_runtime_release_gate}
use hackaton_open_ai.Gate.Laws.{MayBlock}
use hackaton_open_ai.Pilot.{PilotActionDecision, is_intervention, apply_pilot_rollout}
use hackaton_open_ai.Agent.{
  apply_authenticated_pipeline_policy, observer_decision, observer_versions, observer_effects,
  create_incident, downgrade_ineligible, reject_invalid_pipeline_output,
}
use hackaton_open_ai.Agent.Decision.{authenticated-block_iff, observer_never_blocks}
use hackaton_open_ai.Agent.Enforcer.{
  Enforcer, IsSafe, do_block, do_enforce, not_blockable, start, block, enforce as enforcement, run,
}
use hackaton_open_ai.Agent.Safety.{enforcer_spares_protected, block_unlisted}
use hackaton_open_ai.Agent.Outbox.{OutboxItem, Credential, incident}
use hackaton_open_ai.Samples.{block_decision, remote_result, rules, settings, rollout}

authenticated-block_iff_example :
    ((apply_authenticated_pipeline_policy remote_result rules settings false).1.action
      ≡ EnforcementAction.block)
    ↔ (((apply_policy remote_result.assessment rules).action ≡ EnforcementAction.block)
        × (remote_result.eligible_for_automatic_block ≡ true)
        × MayBlock settings false)
authenticated-block_iff_example = authenticated-block_iff remote_result rules settings false

abbrev alerted : PolicyDecision × PilotActionDecision
alerted =
    apply_pilot_rollout block_decision (some hate_speech) "c-1" (observer_versions remote_result)
      rollout none

decided : observer_decision remote_result rules settings "c-1" rollout ≡ ok (alerted.0, alerted.1)
unfolding observer_decision reject_invalid_pipeline_output apply_authenticated_pipeline_policy
    downgrade_ineligible apply_policy apply_runtime_release_gate
decided = refl

observer_never_blocks_example :
    (alerted.0.action ≢ EnforcementAction.block)
    × (observer_effects "Chat" alerted.0
        ≡ (if is_intervention alerted.0.action then create_incident alerted.0 ∷ [] else []))
observer_never_blocks_example =
    observer_never_blocks remote_result rules settings "c-1" rollout alerted.0 alerted.1 "Chat"
      decided

abbrev essential : String → Bool
essential app = app == "Finder"

abbrev running : String → Bool
running app = true

enforcer_spares_protected_example : IsSafe essential (
    run essential running
      (do_block "Finder" ∷ do_block "Chat" ∷ do_enforce ∷ [])
      (start essential running ("Finder" ∷ []) ("Chat" ∷ "Finder" ∷ [])))
enforcer_spares_protected_example =
    enforcer_spares_protected essential running ("Finder" ∷ []) ("Chat" ∷ "Finder" ∷ [])
      (do_block "Finder" ∷ do_block "Chat" ∷ do_enforce ∷ [])

abbrev mac : Enforcer
mac = record { blocked_apps = []; saved = []; allowed_apps = "Chat" ∷ []; quits = [] }

block_unlisted_example :
    let (result, e') = block essential running "Game" mac in
    (result ≡ err (not_blockable "Game"))
    × (contains "Game" e'.saved ≡ true)
    × ((enforcement essential running e').0 ≢ ok tt)
block_unlisted_example = block_unlisted essential running "Game" mac refl refl

abbrev credential : Option Credential
credential = some (record { credential_id = "cred-2"; device_id = "mac" })

abbrev item : String → String → OutboxItem
item id credential_id = record {
  id = id;
  kind = incident;
  device_id = "mac";
  payload = "{}";
  created_at = "2026-01-01";
  credential_id = some credential_id;
  attempts = 0;
}

abbrev queue : List OutboxItem
queue = item "1" "cred-2" ∷ item "2" "cred-1" ∷ item "3" "cred-2" ∷ []

abbrev send : OutboxItem → Bool
send i = true
