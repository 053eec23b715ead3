-- ===== src/Pilot.antt =====
-- guardian_core/pilot.py: the last gate before an action reaches the device. A frozenset is a list
-- that is only searched.
mod Types
pub use Types.*
pub mod Switches
pub mod Laws
mod Tests
pub mod Block
use hackaton_open_ai.Prelude.{
  ℕ, String, Bool, true, false, not, ◌&&◌, ◌||◌, Option, none, some, List, [], ◌∷◌, format, ◌==◌,
  ltb, find, keep, contains, if◌then◌else◌, string_eq,
}
use hackaton_open_ai.Model.{
  RiskCategory, PolicyDecision, EnforcementAction, category_eq, action_eq, action_order, is_none,
}
use hackaton_open_ai.Controls.{VersionSet, versions_eq, RiskControlDecision}

-- `item is None or item == value`, with `value` a category that may itself be None.
abbrev pub category_matches : Option RiskCategory → Option RiskCategory → Bool
category_matches none category = true
category_matches (some c) none = false
category_matches (some c) (some d) = c == d

abbrev pub cohort_matches : Option String → String → Bool
cohort_matches none cohort = true
cohort_matches (some c) cohort = c == cohort

-- Whether an enabled switch stands over a category and a cohort.
abbrev pub switch_matches : Option RiskCategory → String → PilotKillSwitch → Bool
switch_matches category cohort s =
    s.enabled && category_matches s.category category && cohort_matches s.cohort_id cohort

-- `min(matches, key=..., default=None)`: the first of those with the lowest ceiling.
unfoldable pub lowest : List PilotKillSwitch → Option PilotKillSwitch
lowest [] = none
lowest (s ∷ rest) = elim (lowest rest) [
  | none ↦ some s
  | some t ↦ if ltb (action_order t.ceiling) (action_order s.ceiling) then some t else some s
]

unfoldable pub active_kill_switch :
    PilotRolloutConfig → Option RiskCategory → String → Option PilotKillSwitch
active_kill_switch config category cohort =
    lowest (keep (switch_matches category cohort) config.kill_switches)

abbrev pub alert_matches : RiskCategory → String → VersionSet → AlertApproval → Bool
alert_matches category cohort versions a =
    alert_approved a
    && (a.category == category)
    && contains cohort a.cohort_ids
    && (a.versions == versions)

unfoldable pub matching_alert_approval :
    PilotRolloutConfig → Option RiskCategory → String → VersionSet → Option AlertApproval
matching_alert_approval config none cohort versions = none
matching_alert_approval config (some c) cohort versions =
    find (alert_matches c cohort versions) config.alert_approvals

abbrev pub block_matches : RiskCategory → String → VersionSet → BlockPilotApproval → Bool
block_matches category cohort versions a =
    block_approved a
    && (a.category == category)
    && contains cohort a.cohort_ids
    && (a.versions == versions)

unfoldable pub matching_block_approval :
    PilotRolloutConfig → Option RiskCategory → String → VersionSet → Option BlockPilotApproval
matching_block_approval config none cohort versions = none
matching_block_approval config (some c) cohort versions =
    find (block_matches c cohort versions) config.block_approvals

-- The action so far, the id of the approval that it rests on, and the reason.
pub record Gated : Type 0 where
  pub effective : EnforcementAction
  pub approval_id : Option String
  pub reason : String

-- `LOG if decision.action != IGNORE else decision.action`
abbrev pub log_only : EnforcementAction → EnforcementAction
log_only action = if not (action == EnforcementAction.ignore) then EnforcementAction.log else action

abbrev pub is_intervention : EnforcementAction → Bool
is_intervention action = (action == EnforcementAction.alert) || (action == EnforcementAction.block)

abbrev alert_id : Option AlertApproval → Option String
alert_id none = none
alert_id (some a) = some a.approval_id

-- The branch for ALERT_ONLY.
unfoldable pub gate_alert_only : EnforcementAction → Option AlertApproval → Gated
gate_alert_only action approval =
    if not (is_intervention action)
    then record {
      effective = action;
      approval_id = alert_id approval;
      reason = "Non-intervention action is within the alert-only ceiling";
    }
    else elim approval [
      | none ↦ record {
        effective = EnforcementAction.log;
        approval_id = none;
        reason = "Category, cohort and exact versions lack an approved alert gate";
      }
      | some a ↦ record {
        effective = EnforcementAction.alert;
        approval_id = some a.approval_id;
        reason = "Approved category, cohort and exact versions permit ALERT but never BLOCK";
      }
    ]

abbrev pub upstream_allows_block : Option RiskControlDecision → Bool
upstream_allows_block none = false
upstream_allows_block (some d) =
    (d.maximum_action == EnforcementAction.block)
    && d.block_gate_approved
    && not d.kill_switch_active

-- ALERT as far as an alert approval goes, with the reason for either case.
abbrev alert_or_log : Option AlertApproval → String → String → Gated
alert_or_log none permitted refused = record {
  effective = EnforcementAction.log;
  approval_id = none;
  reason = refused;
}
alert_or_log (some a) permitted refused = record {
  effective = EnforcementAction.alert;
  approval_id = some a.approval_id;
  reason = permitted;
}

abbrev block_or_less :
    Option BlockPilotApproval → Option AlertApproval → Option RiskControlDecision → Gated
block_or_less none alert controls =
    alert_or_log alert "BLOCK gate failed; exact alert approval limits the action to ALERT"
      "BLOCK gate failed and no exact alert approval exists"
block_or_less (some b) alert controls =
    if upstream_allows_block controls
    then record {
      effective = EnforcementAction.block;
      approval_id = some b.approval_id;
      reason = "Exact R3 and pilot category/cohort gates permit limited BLOCK";
    }
    else alert_or_log alert "BLOCK gate failed; exact alert approval limits the action to ALERT"
        "BLOCK gate failed and no exact alert approval exists"

-- The branch for LIMITED_BLOCK.
unfoldable pub gate_limited_block :
    EnforcementAction
    → Option AlertApproval
    → Option BlockPilotApproval
    → Option RiskControlDecision
    → Gated
gate_limited_block action alert block controls =
    if not (is_intervention action)
    then record {
      effective = action;
      approval_id = none;
      reason = "Non-intervention action is within the limited-block ceiling";
    }
    else if action == EnforcementAction.alert
    then alert_or_log alert "Exact pilot alert approval permits ALERT"
        "Category, cohort and exact versions lack an approved alert gate"
    else block_or_less block alert controls

gate_mode :
    PilotMode
    → EnforcementAction
    → Option AlertApproval
    → Option BlockPilotApproval
    → Option RiskControlDecision
    → Gated
unfolding gate_alert_only gate_limited_block
gate_mode technical_shadow action alert block controls = record {
  effective = log_only action;
  approval_id = none;
  reason = "Technical shadow mode records the proposal without a real intervention";
}
gate_mode alert_only action alert block controls = gate_alert_only action alert
gate_mode limited_block action alert block controls = gate_limited_block action alert block controls

-- The chain of branches that ends above the kill switch.
unfoldable pub gate :
    EnforcementAction
    → Option RiskCategory
    → String
    → VersionSet
    → PilotRolloutConfig
    → Option RiskControlDecision
    → Gated
unfolding gate_mode
gate action category cohort versions config controls =
    if not (contains cohort config.cohort_ids)
    then record {
      effective = log_only action;
      approval_id = none;
      reason = "Cohort is outside the active pilot rollout";
    }
    else gate_mode config.mode action (matching_alert_approval config category cohort versions)
        (matching_block_approval config category cohort versions) controls

unfoldable pub apply_kill_switch : Option PilotKillSwitch → Gated → Gated
apply_kill_switch none g = g
apply_kill_switch (some s) g =
    if ltb (action_order s.ceiling) (action_order g.effective)
    then record g {
      effective = s.ceiling;
      reason =
          format (g.reason ∷ "; pilot kill switch " ∷ s.switch_id ∷ " applies: " ∷ s.reason ∷ []);
    }
    else g

abbrev switch_id? : Option PilotKillSwitch → Option String
switch_id? none = none
switch_id? (some s) = some s.switch_id

-- The decision and the record of it, from the gated action.
unfoldable pub conclude :
    PolicyDecision
    → PilotRolloutConfig
    → Option PilotKillSwitch
    → Gated
    → PolicyDecision × PilotActionDecision
conclude d config switch g = (
  if not (g.effective == d.action)
      then record d { action = g.effective; reason = format (d.reason ∷ "; " ∷ g.reason ∷ []) }
      else d,
  record {
    rollout_id = config.rollout_id;
    mode = config.mode;
    proposed_action = d.action;
    effective_action = g.effective;
    simulated_action = d.action;
    actual_intervention = is_intervention g.effective;
    approval_id = g.approval_id;
    kill_switch_id = switch_id? switch;
    reason = g.reason;
  },
)

unfoldable pub apply_pilot_rollout :
    PolicyDecision
    → Option RiskCategory
    → String
    → VersionSet
    → PilotRolloutConfig
    → Option RiskControlDecision
    → PolicyDecision × PilotActionDecision
unfolding conclude apply_kill_switch gate
apply_pilot_rollout d category cohort versions config controls =
    let switch = active_kill_switch config category cohort in
    conclude d config switch
      (apply_kill_switch switch (gate d.action category cohort versions config controls))

-- `TECHNICAL_TELEMETRY_FIELDS`
abbrev technical_telemetry_fields_all : List String
technical_telemetry_fields_all =
    "agent_version" ∷ "api_latency_ms" ∷ "battery_impact_percent" ∷ "command_latency_ms"
    ∷ "cpu_percent" ∷ "memory_mb" ∷ "offline_queue_depth" ∷ "permission_state" ∷ []

-- `fail_safe_pilot_rollout`, with the fields that it leaves out at their defaults.
abbrev pub fail_safe_pilot_rollout : PilotRolloutConfig
fail_safe_pilot_rollout = record {
  rollout_id = "runtime-fail-safe";
  mode = technical_shadow;
  cohort_ids = "__fail_safe__" ∷ [];
  technical_telemetry_fields = technical_telemetry_fields_all;
  alert_approvals = [];
  block_approvals = [];
  kill_switches =
      record {
        switch_id = "runtime-fail-safe";
        enabled = true;
        category = none;
        cohort_id = none;
        ceiling = EnforcementAction.log;
        reason = "No validated pilot rollout configuration is available";
      }
      ∷ [];
}
