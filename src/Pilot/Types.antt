-- ===== src/Pilot/Types.antt =====
-- The configuration and the records of guardian_core/pilot.py, with their validators and properties.
use hackaton_open_ai.Prelude.{String, Bool, ◌&&◌, ◌||◌, Option, List, ◌==◌}
use hackaton_open_ai.Model.{RiskCategory, EnforcementAction, action_eq}
use hackaton_open_ai.Controls.{VersionSet}

pub data PilotMode : Type 0 where
  technical_shadow alert_only limited_block : PilotMode

pub record AlertApproval : Type 0 where
  pub approval_id : String
  pub category : RiskCategory
  pub cohort_ids : List String
  pub versions : VersionSet
  pub shadow_window_id : String
  pub eval_gate_passed : Bool
  pub shadow_gate_passed : Bool
  pub product_safety_approved : Bool
  pub engineering_approved : Bool

-- The property `AlertApproval.approved`.
abbrev pub alert_approved : AlertApproval → Bool
alert_approved a =
    a.eval_gate_passed && a.shadow_gate_passed && a.product_safety_approved
    && a.engineering_approved

pub record BlockPilotApproval : Type 0 where
  pub approval_id : String
  pub category : RiskCategory
  pub cohort_ids : List String
  pub versions : VersionSet
  pub shadow_window_id : String
  pub alert_pilot_window_id : String
  pub eval_gate_passed : Bool
  pub shadow_gate_passed : Bool
  pub alert_pilot_gate_passed : Bool
  pub product_safety_approved : Bool
  pub engineering_approved : Bool
  pub rollback_tested : Bool

-- The property `BlockPilotApproval.approved`.
abbrev pub block_approved : BlockPilotApproval → Bool
block_approved a =
    a.eval_gate_passed && a.shadow_gate_passed && a.alert_pilot_gate_passed
    && a.product_safety_approved && a.engineering_approved && a.rollback_tested

pub record PilotKillSwitch : Type 0 where
  pub switch_id : String
  pub enabled : Bool
  pub category : Option RiskCategory
  pub cohort_id : Option String
  pub ceiling : EnforcementAction
  pub reason : String

-- `PilotKillSwitch.validate_ceiling`: whether the validator returns.
abbrev pub validate_ceiling : PilotKillSwitch → Bool
validate_ceiling s = (s.ceiling == EnforcementAction.log) || (s.ceiling == EnforcementAction.alert)

pub record PilotRolloutConfig : Type 0 where
  pub rollout_id : String
  pub mode : PilotMode
  pub cohort_ids : List String
  pub technical_telemetry_fields : List String
  pub alert_approvals : List AlertApproval
  pub block_approvals : List BlockPilotApproval
  pub kill_switches : List PilotKillSwitch

pub record PilotActionDecision : Type 0 where
  pub rollout_id : String
  pub mode : PilotMode
  pub proposed_action : EnforcementAction
  pub effective_action : EnforcementAction
  pub simulated_action : EnforcementAction
  pub actual_intervention : Bool
  pub approval_id : Option String
  pub kill_switch_id : Option String
  pub reason : String
