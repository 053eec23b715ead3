-- ===== src/Samples.antt =====
-- Values that the tests of the modules share.
use hackaton_open_ai.Prelude.{true, false, none, some, List, [], ◌∷◌}
use hackaton_open_ai.Model.{
  RiskAssessment, PolicyRule, PolicyDecision, PolicyAction, EnforcementAction, high, medium,
  hate_speech, child_as_target,
}
use hackaton_open_ai.Gate.{GuardianSettings, production}
use hackaton_open_ai.Controls.{VersionSet}
use hackaton_open_ai.Pilot.{PilotRolloutConfig, BlockPilotApproval, AlertApproval, limited_block}
use hackaton_open_ai.Pipeline.{PipelineResult, ProviderDescriptor, remote}

abbrev pub insult : RiskAssessment
insult = record {
  risk = high;
  category = some hate_speech;
  direction = some child_as_target;
  confidence = 3;
  evidence = "message" ∷ [];
  explanation = "An insult";
}

abbrev pub block_rule : PolicyRule
block_rule = record {
  category = hate_speech;
  action = PolicyAction.block;
  minimum_risk = medium;
  minimum_confidence = 2;
}

abbrev pub rules : List PolicyRule
rules = block_rule ∷ []

abbrev pub block_decision : PolicyDecision
block_decision = record {
  action = EnforcementAction.block;
  matched_rule = some block_rule;
  reason = "Parental policy matched";
}

abbrev pub settings : GuardianSettings
settings = record {
  environment = production;
  api_url = "https://guardian";
  automatic_blocking_enabled = true;
  real_enforcement_enabled = false;
  release_gate_approved = true;
  demo_mode = false;
}

abbrev pub versions : VersionSet
versions = record {
  classifier_interface = "guardian.classifier.v1";
  model = "m";
  prompt = "p";
  dataset = "d";
}

-- The versions that the observer passes.
abbrev pub live_versions : VersionSet
live_versions = record versions { dataset = "runtime-observation-unapproved" }

abbrev pub approval : BlockPilotApproval
approval = record {
  approval_id = "B-1";
  category = hate_speech;
  cohort_ids = "c-1" ∷ [];
  versions = versions;
  shadow_window_id = "w";
  alert_pilot_window_id = "w";
  eval_gate_passed = true;
  shadow_gate_passed = true;
  alert_pilot_gate_passed = true;
  product_safety_approved = true;
  engineering_approved = true;
  rollback_tested = true;
}

abbrev pub alert_approval : AlertApproval
alert_approval = record {
  approval_id = "A-1";
  category = hate_speech;
  cohort_ids = "c-1" ∷ [];
  versions = live_versions;
  shadow_window_id = "w";
  eval_gate_passed = true;
  shadow_gate_passed = true;
  product_safety_approved = true;
  engineering_approved = true;
}

abbrev pub rollout : PilotRolloutConfig
rollout = record {
  rollout_id = "r-1";
  mode = limited_block;
  cohort_ids = "c-1" ∷ [];
  technical_telemetry_fields = [];
  alert_approvals = alert_approval ∷ [];
  block_approvals = approval ∷ [];
  kill_switches = [];
}

abbrev pub provider : ProviderDescriptor
provider = record { provider_version = "1"; model_version = "m"; prompt_version = "p" }

abbrev pub remote_result : PipelineResult
remote_result = record {
  assessment = insult;
  local_assessment = insult;
  source = remote;
  context_digest = "digest";
  descriptor = provider;
  remote_attempted = true;
  attempts = 1;
  eligible_for_automatic_block = true;
  trusted_safe_rule = none;
  errors = [];
}
