-- ===== src/Controls.antt =====
-- risk_engine/calibration.py: calibrated confidence, thresholds, kill switches and exact-version
-- approvals cap the action of the policy.
pub mod Calibrate
pub mod Bounds
pub mod Laws
mod Tests
use hackaton_open_ai.Prelude.{
  ℕ, String, Bool, true, false, not, ◌&&◌, ◌||◌, Option, none, some, List, [], ◌∷◌, format, ◌==◌,
  ltb, leb, any, if◌then◌else◌, Result, ok, err, ◌>>=◌, or_raise, Equality, ◌↔◌, ◌≡◌, arith, eq_iff,
  str_eq, string_eq,
}
use hackaton_open_ai.Model.{
  RiskAssessment, RiskCategory, RiskLevel, PolicyDecision, EnforcementAction, category_eq, risk_eq,
  action_order, safe, low, high,
}
use Calibrate.{CategoryControls, FloatOps, calibrate_confidence}

pub record VersionSet : Type 0 where
  pub classifier_interface : String
  pub model : String
  pub prompt : String
  pub dataset : String

abbrev pub versions_beq : VersionSet → VersionSet → Bool
versions_beq a b =
    str_eq a.classifier_interface b.classifier_interface
    && str_eq a.model b.model
    && str_eq a.prompt b.prompt
    && str_eq a.dataset b.dataset

pub versions_eq_iff : (a b : VersionSet) → (versions_beq a b ≡ true) ↔ (a ≡ b)
versions_eq_iff a b = ground (
  arith,
  eq_iff a.classifier_interface b.classifier_interface,
  eq_iff a.model b.model,
  eq_iff a.prompt b.prompt,
  eq_iff a.dataset b.dataset,
)

instance abbrev pub versions_eq : Equality VersionSet
versions_eq = record { equal = versions_beq; equal_iff = versions_eq_iff }

pub record KillSwitch : Type 0 where
  pub category : RiskCategory
  pub model_version : String
  pub enabled : Bool
  pub reason : String

pub record BlockApproval : Type 0 where
  pub category : RiskCategory
  pub versions : VersionSet
  pub shadow_window_id : String
  pub shadow_gate_passed : Bool
  pub product_safety_approved : Bool
  pub engineering_approved : Bool

-- The property `BlockApproval.approved`.
abbrev pub approved : BlockApproval → Bool
approved a = a.shadow_gate_passed && a.product_safety_approved && a.engineering_approved

-- `categories` is a dict: a key that is missing is `none`.
pub record RiskControlConfig : Type 0 where
  pub categories : RiskCategory → Option CategoryControls
  pub kill_switches : List KillSwitch
  pub block_approvals : List BlockApproval

pub record RiskControlDecision : Type 0 where
  pub maximum_action : EnforcementAction
  pub calibrated_confidence : ℕ
  pub ambiguous : Bool
  pub block_gate_approved : Bool
  pub kill_switch_active : Bool
  pub reason : String

pub data ControlsError : Type 0 where
  missing_controls uncovered_score : ControlsError

unfoldable pub kill_switch_active : RiskControlConfig → RiskCategory → String → Bool
kill_switch_active config c model_version =
    any
      (λ s.
        s.enabled
        && (s.category == c)
        && ((s.model_version == "*") || (s.model_version == model_version)))
      config.kill_switches

unfoldable pub block_gate_approved : RiskControlConfig → RiskCategory → VersionSet → Bool
block_gate_approved config c versions =
    any (λ a. (a.category == c) && (a.versions == versions) && approved a) config.block_approvals

abbrev safe_decision : ℕ → RiskControlDecision
safe_decision confidence = record {
  maximum_action = EnforcementAction.ignore;
  calibrated_confidence = confidence;
  ambiguous = false;
  block_gate_approved = false;
  kill_switch_active = false;
  reason = "SAFE assessments cannot trigger an intervention";
}

-- The ladder of conditions: the maximum action and its reason.
unfoldable pub ladder :
    CategoryControls → ℕ → RiskLevel → Bool → Bool → Bool → EnforcementAction × String
ladder controls calibrated risk eligible kill_switch block_approved =
    if ltb calibrated controls.log_threshold
    then (EnforcementAction.ignore, "Confidence is below the LOG threshold")
    else if ltb calibrated controls.alert_threshold || (risk == low)
    then (EnforcementAction.log, "Signal is in the low-confidence review band")
    else if ltb calibrated controls.block_threshold || not (risk == high)
    then (EnforcementAction.alert, "Signal is in the ambiguous no-auto-block band")
    else if not eligible
    then (EnforcementAction.alert, "Pipeline fallback is ineligible for automatic blocking")
    else if kill_switch
    then (EnforcementAction.alert, "Category/model kill switch prevents automatic blocking")
    else if not block_approved
    then (
      EnforcementAction.alert,
      "Exact model, prompt and dataset versions do not have a BLOCK approval",
    )
    else (
      EnforcementAction.block, "Calibrated threshold and exact-version release gate are approved",
    )

-- `evaluate_risk_controls` once the category's controls and the calibrated score are there.
unfoldable pub decide : CategoryControls → ℕ → RiskLevel → Bool → Bool → Bool → RiskControlDecision
unfolding ladder
decide controls calibrated risk eligible kill_switch block_approved =
    let (maximum, reason) = ladder controls calibrated risk eligible kill_switch block_approved in
    record {
      maximum_action = maximum;
      calibrated_confidence = calibrated;
      ambiguous = leb controls.log_threshold calibrated && ltb calibrated controls.block_threshold;
      block_gate_approved = block_approved;
      kill_switch_active = kill_switch;
      reason = reason;
    }

-- The cap that `apply_risk_controls` puts on the policy's action.
unfoldable pub cap : PolicyDecision → RiskControlDecision → PolicyDecision
cap policy controls =
    if leb (action_order policy.action) (action_order controls.maximum_action)
    then policy
    else record policy {
      action = controls.maximum_action;
      reason = format (policy.reason ∷ "; " ∷ controls.reason ∷ []);
    }

module _ (f : FloatOps) where
  unfoldable pub evaluate_category :
      RiskAssessment
      → RiskCategory
      → VersionSet
      → RiskControlConfig
      → Bool
      → Result ControlsError RiskControlDecision
  evaluate_category a c versions config eligible = do
    controls ← or_raise (config.categories c) missing_controls
    calibrated ← or_raise (calibrate_confidence f a.confidence controls) uncovered_score
    ok (
        decide controls calibrated a.risk eligible (kill_switch_active config c versions.model)
          (block_gate_approved config c versions))

  unfoldable pub evaluate_risk_controls :
      RiskAssessment
      → VersionSet
      → RiskControlConfig
      → Bool
      → Result ControlsError RiskControlDecision
  unfolding evaluate_category
  evaluate_risk_controls a versions config eligible = elim a.category [
    | none ↦ ok (safe_decision a.confidence)
    | some c ↦
        if a.risk == safe
        then ok (safe_decision a.confidence)
        else evaluate_category a c versions config eligible
  ]

  unfoldable pub apply_risk_controls :
      PolicyDecision
      → RiskAssessment
      → Bool
      → VersionSet
      → RiskControlConfig
      → Result ControlsError (PolicyDecision × RiskControlDecision)
  unfolding cap
  apply_risk_controls policy assessment eligible versions config = do
    controls ← evaluate_risk_controls assessment versions config eligible
    ok (cap policy controls, controls)
