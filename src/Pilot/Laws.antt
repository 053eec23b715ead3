-- ===== src/Pilot/Laws.antt =====
-- What guardian_core/pilot.py never does: raise an action, or intervene outside its mode.
use hackaton_open_ai.Prelude.{
  ℕ, ◌≤◌, ◌≡◌, ◌≢◌, true, false, Option, some, String, arith, get_elem?, contains, string_eq,
}
use hackaton_open_ai.Model.{RiskCategory, PolicyDecision, EnforcementAction, action_order}
use hackaton_open_ai.Controls.{VersionSet, RiskControlDecision}
use hackaton_open_ai.Pilot.{
  PilotMode, technical_shadow, alert_only, limited_block, PilotKillSwitch, PilotRolloutConfig,
  Gated, AlertApproval, BlockPilotApproval, gate, gate_mode, apply_kill_switch, conclude,
  apply_pilot_rollout, active_kill_switch, matching_alert_approval, matching_block_approval,
  switch_matches, is_intervention,
}
use hackaton_open_ai.Pilot.Switches.{active_kill_switch_le}

gate_mode-le :
    (mode : PilotMode) (action : EnforcementAction) (alert : Option AlertApproval)
    (block : Option BlockPilotApproval) (controls : Option RiskControlDecision)
    → action_order (gate_mode mode action alert block controls).effective ≤ action_order action
unfolding gate_mode
gate_mode-le technical_shadow action alert block controls = ground arith
gate_mode-le alert_only action alert block controls = ground arith
gate_mode-le limited_block action alert block controls = ground arith

apply_kill_switch-le :
    (switch : Option PilotKillSwitch) (g : Gated)
    → action_order (apply_kill_switch switch g).effective ≤ action_order g.effective
unfolding apply_kill_switch
apply_kill_switch-le switch g = ground arith

conclude-action :
    (d : PolicyDecision) (config : PilotRolloutConfig) (switch : Option PilotKillSwitch) (g : Gated)
    → (conclude d config switch g).0.action ≡ g.effective
unfolding conclude
conclude-action d config switch g = ground arith

module _ (d : PolicyDecision) (category : Option RiskCategory) (cohort : String)
    (versions : VersionSet) (config : PilotRolloutConfig)
    (controls : Option RiskControlDecision) where
  abbrev pub switch : Option PilotKillSwitch
  switch = active_kill_switch config category cohort

  abbrev pub gated : Gated
  gated = gate d.action category cohort versions config controls

  pub rollout-action :
      (apply_pilot_rollout d category cohort versions config controls).0.action
      ≡ (apply_kill_switch switch gated).effective
  unfolding apply_pilot_rollout
  rollout-action = conclude-action d config switch (apply_kill_switch switch gated)

  gate-le : action_order gated.effective ≤ action_order d.action
  unfolding gate
  gate-le = ground (
    arith,
    gate_mode-le config.mode d.action (matching_alert_approval config category cohort versions)
        (matching_block_approval config category cohort versions) controls,
  )

  -- The rollout never raises an action above the one that was proposed.
  pub rollout_lowers :
      action_order (apply_pilot_rollout d category cohort versions config controls).0.action
      ≤ action_order d.action
  rollout_lowers = rw rollout-action (omega (arith, gate-le, apply_kill_switch-le switch gated))

  -- Every enabled kill switch over the category and the cohort is a ceiling on the result.
  pub rollout_kill_switch :
      (i : ℕ) (s : PilotKillSwitch)
      → get_elem? config.kill_switches i ≡ some s
      → switch_matches category cohort s ≡ true
      → action_order (apply_pilot_rollout d category cohort versions config controls).0.action
        ≤ action_order s.ceiling
  rollout_kill_switch i s at match =
      let (t, active, below) = active_kill_switch_le config category cohort i s at match in
      rw (rollout-action, active) (unfold apply_kill_switch in ground arith)

  gate_mode_bounds :
      ((contains cohort config.cohort_ids ≡ false) → action_order gated.effective ≤ 1)
      × ((config.mode ≡ technical_shadow) → action_order gated.effective ≤ 1)
      × ((config.mode ≡ alert_only) → action_order gated.effective ≤ 2)
  unfolding gate gate_mode
  gate_mode_bounds = (λ h. ground arith, λ h. ground arith, λ h. ground arith)

  -- Nothing reaches the device as ALERT or BLOCK from outside the rollout's cohorts or in technical
  -- shadow mode, and nothing as BLOCK in alert-only mode.
  pub rollout_modes :
      let action = (apply_pilot_rollout d category cohort versions config controls).0.action in
      ((contains cohort config.cohort_ids ≡ false) → is_intervention action ≡ false)
      × ((config.mode ≡ technical_shadow) → is_intervention action ≡ false)
      × ((config.mode ≡ alert_only) → action ≢ EnforcementAction.block)
  rollout_modes = rw rollout-action (
    λ h. ground (arith, gate_mode_bounds.0 h, apply_kill_switch-le switch gated),
    λ h. ground (arith, gate_mode_bounds.1 h, apply_kill_switch-le switch gated),
    λ h b. ground (arith, gate_mode_bounds.2 h, apply_kill_switch-le switch gated),
  )
