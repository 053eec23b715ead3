-- ===== src/Agent.antt =====
-- agent/main.py: how the observer comes from a pipeline's result to a decision. The family's rules and
-- the rollout configuration are arguments. `model_validate` of an assessment that already is one
-- returns it, so the pipeline's assessment is taken as it is.
pub mod Decision
pub mod Enforcer
pub mod Safety
pub mod Outbox
mod Tests
use hackaton_open_ai.Prelude.{
  String, Bool, true, false, not, ◌&&◌, ◌||◌, List, [], ◌∷◌, Option, none, some, format, contains,
  string_eq, ◌==◌, if◌then◌else◌, Result, ok, err, ◌>>=◌, ◌>>◌, raise_if,
}
use hackaton_open_ai.Model.{
  RiskAssessment, PolicyRule, PolicyDecision, EnforcementAction, action_eq, validate_safe_semantics,
}
use hackaton_open_ai.Policy.{apply_policy}
use hackaton_open_ai.Gate.{GuardianSettings, apply_runtime_release_gate}
use hackaton_open_ai.Controls.{VersionSet}
use hackaton_open_ai.Pilot.{
  PilotRolloutConfig, fail_safe_pilot_rollout, PilotMode, technical_shadow, PilotActionDecision,
  apply_pilot_rollout, is_intervention,
}
use hackaton_open_ai.Pipeline.{PipelineResult}

pub data AgentError : Type 0 where
  invalid_assessment : AgentError

unfoldable pub apply_validated_policy :
    RiskAssessment
    → List PolicyRule
    → GuardianSettings
    → Bool
    → Result AgentError (RiskAssessment × PolicyDecision)
apply_validated_policy raw rules settings fixture_input = do
  raise_if (not (validate_safe_semantics raw)) invalid_assessment
  ok (raw, apply_runtime_release_gate (apply_policy raw rules) settings fixture_input)

unfoldable pub reject_invalid_pipeline_output : List String → Result AgentError (Unit {0})
reject_invalid_pipeline_output errors =
    raise_if
      (contains "ProviderInvalidOutputError" errors || contains "OpenAIInvalidRiskError" errors)
      invalid_assessment

-- The `if` of `apply_authenticated_pipeline_policy`.
unfoldable pub downgrade_ineligible : PipelineResult → PolicyDecision → PolicyDecision
downgrade_ineligible result d =
    if (d.action == EnforcementAction.block) && not result.eligible_for_automatic_block
    then record d {
      action = EnforcementAction.alert;
      reason =
          format
            (d.reason ∷ "; downgraded to ALERT because the pipeline is not block-eligible" ∷ []);
    }
    else d

unfoldable pub apply_authenticated_pipeline_policy :
    PipelineResult → List PolicyRule → GuardianSettings → Bool → RiskAssessment × PolicyDecision
apply_authenticated_pipeline_policy result rules settings fixture_input = (
  result.assessment,
  apply_runtime_release_gate (downgrade_ineligible result (apply_policy result.assessment rules))
      settings fixture_input,
)

-- The versions that `run_observer` passes to the rollout, the interface's by default.
abbrev pub observer_versions : PipelineResult → VersionSet
observer_versions result = record {
  model = result.descriptor.model_version;
  prompt = result.descriptor.prompt_version;
  dataset = "runtime-observation-unapproved";
  classifier_interface = "guardian.classifier.v1";
}

-- The decision of one cycle of `run_observer`.
unfoldable pub observer_decision :
    PipelineResult
    → List PolicyRule
    → GuardianSettings
    → String
    → PilotRolloutConfig
    → Result AgentError (PolicyDecision × PilotActionDecision)
observer_decision result rules settings cohort config = do
  reject_invalid_pipeline_output result.errors
  let (assessment, decision) = apply_authenticated_pipeline_policy result rules settings false
  ok (
      apply_pilot_rollout decision assessment.category cohort (observer_versions result) config
        none)

-- What the cycle then does on the device and on the server.
pub data Effect : Type 0 where
  create_incident : PolicyDecision → Effect
  block_application : String → Effect

unfoldable pub observer_effects : String → PolicyDecision → List Effect
observer_effects application d =
    if is_intervention d.action
    then create_incident d
      ∷ (if d.action == EnforcementAction.block then block_application application ∷ [] else [])
    else []

-- The active file of the configuration store, if a state directory is given and the file exists: it
-- holds a configuration or cannot be read.
pub data ActiveFile : Type 0 where
  absent corrupt : ActiveFile
  readable : PilotRolloutConfig → ActiveFile

-- `load_runtime_pilot_rollout`, with what `load_pilot_rollout` reads, an `OSError` or a `ValueError` being
-- `none`.
unfoldable pub load_runtime_pilot_rollout :
    ActiveFile → Option PilotRolloutConfig → PilotRolloutConfig
load_runtime_pilot_rollout (readable config) file = config
load_runtime_pilot_rollout corrupt file = fail_safe_pilot_rollout
load_runtime_pilot_rollout absent (some config) = config
load_runtime_pilot_rollout absent none = fail_safe_pilot_rollout
