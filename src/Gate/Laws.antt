-- ===== src/Gate/Laws.antt =====
-- When guardian_core/gates.py lets a BLOCK through.
use hackaton_open_ai.Prelude.{◌≡◌, ◌≤◌, ◌↔◌, ◌⊎◌, Bool, true, false, arith, ok}
use hackaton_open_ai.Model.{PolicyDecision, EnforcementAction, action_order}
use hackaton_open_ai.Gate.{GuardianSettings, is_managed, validate, apply_runtime_release_gate}

-- The reasons for which a BLOCK may pass.
abbrev pub MayBlock : GuardianSettings → Bool → Type 0
MayBlock s fixture_input =
    (s.automatic_blocking_enabled ≡ true)
    × ((s.release_gate_approved ≡ true)
        ⊎ ((fixture_input ≡ true) × (is_managed s.environment ≡ false)))

module _ (d : PolicyDecision) (s : GuardianSettings) (fixture_input : Bool) where
  -- The gate's result is BLOCK exactly when the decision was BLOCK, blocking is enabled, and either
  -- the release gate is approved or a fixture runs in development or test.
  pub gate-block_iff :
      ((apply_runtime_release_gate d s fixture_input).action ≡ EnforcementAction.block)
      ↔ ((d.action ≡ EnforcementAction.block) × MayBlock s fixture_input)
  unfolding apply_runtime_release_gate
  gate-block_iff = (λ h. ground arith, λ h. ground arith)

  -- The gate never raises an action, and keeps the rule that the policy matched.
  pub gate_lowers :
      (action_order (apply_runtime_release_gate d s fixture_input).action ≤ action_order d.action)
      × ((apply_runtime_release_gate d s fixture_input).matched_rule ≡ d.matched_rule)
  unfolding apply_runtime_release_gate
  gate_lowers = ground arith

  -- With settings that `validate` accepts, in staging and production a BLOCK passes exactly when
  -- automatic blocking is enabled: an enabled but unapproved release does not start.
  gate_in_production :
      validate s ≡ ok tt
      → is_managed s.environment ≡ true
      → d.action ≡ EnforcementAction.block
      → ((apply_runtime_release_gate d s fixture_input).action ≡ EnforcementAction.block)
        ↔ (s.automatic_blocking_enabled ≡ true)
  unfolding apply_runtime_release_gate validate
  gate_in_production v m b = (λ h. ground arith, λ h. ground arith)
