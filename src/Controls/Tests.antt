-- ===== src/Controls/Tests.antt =====
-- Controls with one curve, an approval and an insult. The sums are those of small whole numbers.
use hackaton_open_ai.Prelude.{◌+◌, ◌-◌, ◌*◌, ◌/◌, ◌≡◌, refl, true, false, some, [], ◌∷◌, ok}
use hackaton_open_ai.Model.{RiskCategory, EnforcementAction, hate_speech}
use hackaton_open_ai.Controls.Calibrate.{CategoryControls, FloatOps, calibrate_confidence}
use hackaton_open_ai.Controls.{
  cap, apply_risk_controls, RiskControlConfig, RiskControlDecision, kill_switch_active,
  block_gate_approved, decide, evaluate_risk_controls,
}
use hackaton_open_ai.Controls.Laws.{BlockGates, apply_risk_controls-block_gated}
use hackaton_open_ai.Samples.{block_decision, insult, versions}

abbrev ops : FloatOps
ops = record { add = λ a b. a + b; sub = λ a b. a - b; mul = λ a b. a * b; div = λ a b. a / b }

abbrev controls : CategoryControls
controls = record {
  calibration =
      record { raw = 1; calibrated = 1 }
      ∷ record { raw = 2; calibrated = 5 }
      ∷ record { raw = 4; calibrated = 9 }
      ∷ [];
  log_threshold = 2;
  alert_threshold = 3;
  block_threshold = 4;
}

abbrev config : RiskControlConfig
config = record {
  categories = λ c. some controls;
  kill_switches = [];
  block_approvals =
      record {
        category = hate_speech;
        versions = versions;
        shadow_window_id = "w";
        shadow_gate_passed = true;
        product_safety_approved = true;
        engineering_approved = true;
      }
      ∷ [];
}

abbrev permitted : RiskControlDecision
permitted = record {
  maximum_action = EnforcementAction.block;
  calibrated_confidence = 5;
  ambiguous = false;
  block_gate_approved = true;
  kill_switch_active = false;
  reason = "Calibrated threshold and exact-version release gate are approved";
}

applied :
    apply_risk_controls ops block_decision insult true versions config
    ≡ ok (block_decision, permitted)
unfolding apply_risk_controls evaluate_risk_controls calibrate_confidence decide kill_switch_active
    block_gate_approved cap
applied = refl

apply_risk_controls-block_gated_example :
    (block_decision.action ≡ EnforcementAction.block)
    × ((c : RiskCategory) × (k : CategoryControls) × BlockGates ops insult versions config true c k
          permitted.calibrated_confidence)
apply_risk_controls-block_gated_example =
    apply_risk_controls-block_gated ops insult versions config true block_decision block_decision
      permitted applied refl
