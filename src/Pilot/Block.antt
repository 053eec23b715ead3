-- ===== src/Pilot/Block.antt =====
-- The gates that a BLOCK of guardian_core/pilot.py has passed.
use hackaton_open_ai.Prelude.{
  sym, ◌∙◌, true≢false, ℕ, ◌≡◌, ◌↔◌, ◌≢◌, true, Option, none, some, String, arith, All, contains,
  string_eq, Option-cases, inl, inr, get_elem?, find, find_elem, find-some, find_at,
}
use hackaton_open_ai.Model.{RiskCategory, PolicyDecision, EnforcementAction}
use hackaton_open_ai.Controls.{VersionSet, RiskControlDecision}
use hackaton_open_ai.Pilot.{
  limited_block, PilotRolloutConfig, BlockPilotApproval, Gated, gate, gate_mode, apply_kill_switch,
  apply_pilot_rollout, active_kill_switch, matching_block_approval, upstream_allows_block,
  validate_ceiling, PilotKillSwitch, block_matches,
}
use hackaton_open_ai.Pilot.Switches.{active_kill_switch_valid}
use hackaton_open_ai.Pilot.Laws.{rollout-action, gated}

-- The rollout has an approval, with all six of its gates passed, for the category, the cohort and
-- the exact versions.
pub record Approved (config : PilotRolloutConfig) (category : Option RiskCategory) (cohort : String)
    (versions : VersionSet) : Type 0 where
  pub risk_category : RiskCategory
  pub same_category : category ≡ some risk_category
  pub index : ℕ
  pub approval : BlockPilotApproval
  pub listed : get_elem? config.block_approvals index ≡ some approval
  pub matches : block_matches risk_category cohort versions approval ≡ true

module _ (config : PilotRolloutConfig) (category : Option RiskCategory) (cohort : String)
    (versions : VersionSet) where
  approved_of_matching :
      (b : BlockPilotApproval)
      → matching_block_approval config category cohort versions ≡ some b
      → Approved config category cohort versions
  unfolding matching_block_approval
  approved_of_matching b h = elim (Option-cases category) [
    | inl e ↦ absurd (ground arith)
    | inr (c, e) ↦
        let found : find (block_matches c cohort versions) config.block_approvals ≡ some b =
          rw e at h in
        let (i, at) = find_elem (block_matches c cohort versions) config.block_approvals b found in
        record {
          risk_category = c;
          same_category = e;
          index = i;
          approval = b;
          listed = at;
          matches = find-some (block_matches c cohort versions) config.block_approvals b found;
        }
  ]

  matching_of_approved :
      Approved config category cohort versions
      → matching_block_approval config category cohort versions ≢ none
  unfolding matching_block_approval
  matching_of_approved a = rw a.same_category (
      find_at (block_matches a.risk_category cohort versions) config.block_approvals a.index
        a.approval a.listed a.matches)

module _ (d : PolicyDecision) (category : Option RiskCategory) (cohort : String)
    (versions : VersionSet) (config : PilotRolloutConfig)
    (controls : Option RiskControlDecision) where
  -- What a BLOCK rests on.
  pub record BlockGates : Type 0 where
    pub proposed : d.action ≡ EnforcementAction.block
    pub enrolled : contains cohort config.cohort_ids ≡ true
    pub mode : config.mode ≡ limited_block
    pub approved : Approved config category cohort versions
    pub upstream : upstream_allows_block controls ≡ true
    pub unswitched : active_kill_switch config category cohort ≡ none

  gate-block :
      (gated d category cohort versions config controls).effective ≡ EnforcementAction.block
      → (d.action ≡ EnforcementAction.block)
        × (contains cohort config.cohort_ids ≡ true)
        × (config.mode ≡ limited_block)
        × ((b : BlockPilotApproval) × (matching_block_approval config category cohort versions
              ≡ some b))
        × (upstream_allows_block controls ≡ true)
  unfolding gate gate_mode
  gate-block h = elim (Option-cases (matching_block_approval config category cohort versions)) [
    | inl e ↦ absurd (ground arith)
    | inr (b, e) ↦ (ground arith, ground arith, ground arith, (b, e), ground arith)
  ]

  unswitched_block :
      All (λ s. validate_ceiling s ≡ true) config.kill_switches
      → (apply_pilot_rollout d category cohort versions config controls).0.action
        ≡ EnforcementAction.block
      → (active_kill_switch config category cohort ≡ none)
        × ((gated d category cohort versions config controls).effective ≡ EnforcementAction.block)
  unfolding apply_kill_switch
  unswitched_block valid h =
      let e = rollout-action d category cohort versions config controls in
      elim (Option-cases (active_kill_switch config category cohort)) [
        | inl none_active ↦ (none_active, ground (arith, e))
        | inr (t, active) ↦
            absurd
              (ground (arith, e, active_kill_switch_valid config category cohort t valid active))
      ]

  gates_of_block :
      All (λ s. validate_ceiling s ≡ true) config.kill_switches
      → (apply_pilot_rollout d category cohort versions config controls).0.action
        ≡ EnforcementAction.block
      → BlockGates
  gates_of_block valid h =
      let (unswitched, blocked) = unswitched_block valid h in
      let (proposed, enrolled, mode, (b, found), upstream) = gate-block blocked in
      record {
        proposed = proposed;
        enrolled = enrolled;
        mode = mode;
        approved = approved_of_matching config category cohort versions b found;
        upstream = upstream;
        unswitched = unswitched;
      }

  block_of_gates :
      BlockGates
      → (apply_pilot_rollout d category cohort versions config controls).0.action
        ≡ EnforcementAction.block
  unfolding gate gate_mode apply_kill_switch
  block_of_gates g =
      let e = rollout-action d category cohort versions config controls in
      ground (arith, e, matching_of_approved config category cohort versions g.approved)

  -- With switches that the validator accepts, the rollout's result is BLOCK exactly when BLOCK was
  -- proposed, the cohort is enrolled in a rollout in limited-block mode, an approval of the exact
  -- category, cohort and versions is in force, the risk controls allow BLOCK, and no kill switch
  -- stands over the category and the cohort.
  pub rollout-block_iff :
      All (λ s. validate_ceiling s ≡ true) config.kill_switches
      → ((apply_pilot_rollout d category cohort versions config controls).0.action
          ≡ EnforcementAction.block)
        ↔ BlockGates
  rollout-block_iff valid = (gates_of_block valid, block_of_gates)

switched_block :
    (switch : Option PilotKillSwitch) (g : Gated)
    → (apply_kill_switch switch g).effective ≡ EnforcementAction.block
    → g.effective ≡ EnforcementAction.block
unfolding apply_kill_switch
switched_block switch g h = ground arith

-- Without a decision of the risk controls the rollout's result is never BLOCK.
pub rollout_without_controls :
    (d : PolicyDecision) (category : Option RiskCategory) (cohort : String) (versions : VersionSet)
    (config : PilotRolloutConfig)
    → (apply_pilot_rollout d category cohort versions config none).0.action
      ≢ EnforcementAction.block
rollout_without_controls d category cohort versions config h =
    let e = rollout-action d category cohort versions config none in
    let (proposed, enrolled, mode, found, upstream) =
      gate-block d category cohort versions config none (
        switched_block (active_kill_switch config category cohort)
          (gated d category cohort versions config none) (sym e ∙ h)) in
    true≢false (sym upstream)
