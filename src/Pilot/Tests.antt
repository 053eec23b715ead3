-- ===== src/Pilot/Tests.antt =====
-- A BLOCK in a rollout that permits it, and in the same rollout under a kill switch.
use hackaton_open_ai.Prelude.{◌≡◌, ◌↔◌, true, false, some, string_eq}
use hackaton_open_ai.Model.{EnforcementAction, hate_speech}
use hackaton_open_ai.Controls.{RiskControlDecision}
use hackaton_open_ai.Pilot.{apply_pilot_rollout}
use hackaton_open_ai.Pilot.Block.{BlockGates, rollout-block_iff}
use hackaton_open_ai.Samples.{block_decision, versions, rollout}

abbrev permitted : RiskControlDecision
permitted = record {
  maximum_action = EnforcementAction.block;
  calibrated_confidence = 5;
  ambiguous = false;
  block_gate_approved = true;
  kill_switch_active = false;
  reason = "approved";
}

rollout-block_iff_example :
    ((apply_pilot_rollout block_decision
        (some hate_speech)
        "c-1"
        versions
        rollout
        (some permitted)).0.action
      ≡ EnforcementAction.block)
    ↔ BlockGates block_decision (some hate_speech) "c-1" versions rollout (some permitted)
rollout-block_iff_example =
    rollout-block_iff block_decision (some hate_speech) "c-1" versions rollout (some permitted) tt
