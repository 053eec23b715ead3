-- ===== src/Agent/Decision.antt =====
-- What the decisions of agent/main.py rest on.
use hackaton_open_ai.Prelude.{
  Option, refl, ◌⊎◌, ap, subst, ◌∙◌, if◌then◌else◌, [], ◌∷◌, inl, inr, ◌≡◌, ◌≢◌, ◌↔◌, String, Bool,
  true, false, List, none, ok, arith, string_eq,
}
use hackaton_open_ai.Model.{PolicyRule, PolicyDecision, EnforcementAction}
use hackaton_open_ai.Policy.{apply_policy}
use hackaton_open_ai.Gate.{GuardianSettings}
use hackaton_open_ai.Gate.Laws.{MayBlock, gate-block_iff}
use hackaton_open_ai.Pilot.{
  fail_safe_pilot_rollout, is_intervention, PilotRolloutConfig, PilotActionDecision,
  apply_pilot_rollout,
}
use hackaton_open_ai.Pilot.Block.{rollout_without_controls}
use hackaton_open_ai.Pilot.Laws.{rollout_modes}
use hackaton_open_ai.Pipeline.{PipelineResult}
use hackaton_open_ai.Agent.{
  ActiveFile, absent, corrupt, load_runtime_pilot_rollout, create_incident, observer_decision,
  observer_effects, observer_versions, apply_authenticated_pipeline_policy, downgrade_ineligible,
  reject_invalid_pipeline_output,
}

module _ (result : PipelineResult) (rules : List PolicyRule) (settings : GuardianSettings)
    (fixture_input : Bool) where
  -- The authenticated decision is BLOCK exactly when the family's policy says BLOCK, the pipeline's
  -- result is eligible for it, and the runtime gate may let a BLOCK through.
  pub authenticated-block_iff :
      ((apply_authenticated_pipeline_policy result rules settings fixture_input).1.action
        ≡ EnforcementAction.block)
      ↔ (((apply_policy result.assessment rules).action ≡ EnforcementAction.block)
          × (result.eligible_for_automatic_block ≡ true)
          × MayBlock settings fixture_input)
  unfolding apply_authenticated_pipeline_policy downgrade_ineligible
  authenticated-block_iff =
      let (there, back) =
        gate-block_iff (downgrade_ineligible result (apply_policy result.assessment rules)) settings
          fixture_input in
      (λ h. ground (arith, there h), λ h. back (ground arith))

module _ (result : PipelineResult) (rules : List PolicyRule) (settings : GuardianSettings)
    (cohort : String) (config : PilotRolloutConfig) where
  abbrev decided : PolicyDecision
  decided = (apply_authenticated_pipeline_policy result rules settings false).1

  observer_rollout :
      (d : PolicyDecision) (pilot : PilotActionDecision)
      → observer_decision result rules settings cohort config ≡ ok (d, pilot)
      → (apply_pilot_rollout decided result.assessment.category cohort
          (observer_versions result)
          config
          none).0
        ≡ d
  unfolding observer_decision apply_authenticated_pipeline_policy reject_invalid_pipeline_output
  observer_rollout d pilot h = ground arith

  -- Whatever the rules, the settings and the rollout configuration, the observer's decision is never
  -- BLOCK and no application is blocked: the rollout is called without the risk controls' decision.
  pub observer_never_blocks :
      (d : PolicyDecision) (pilot : PilotActionDecision) (application : String)
      → observer_decision result rules settings cohort config ≡ ok (d, pilot)
      → (d.action ≢ EnforcementAction.block)
        × (observer_effects application d
            ≡ (if is_intervention d.action then create_incident d ∷ [] else []))
  unfolding observer_effects
  observer_never_blocks d pilot application h =
      let e = observer_rollout d pilot h in
      let no_block : d.action ≢ EnforcementAction.block = λ b.
        rollout_without_controls decided result.assessment.category cohort
          (observer_versions result) config (ap (λ x. x.action) e ∙ b) in
      (no_block, ground (arith, no_block))

-- Nothing trustworthy is configured: the active file cannot be read, or there is none and the default
-- file cannot be read.
abbrev pub Untrusted : ActiveFile → Option PilotRolloutConfig → Type 0
Untrusted active file = (active ≡ corrupt) ⊎ ((active ≡ absent) × (file ≡ none))

Untrusted-fails_safe :
    (active : ActiveFile) (file : Option PilotRolloutConfig)
    → Untrusted active file
    → load_runtime_pilot_rollout active file ≡ fail_safe_pilot_rollout
unfolding load_runtime_pilot_rollout
Untrusted-fails_safe active file (inl e) = rw e refl
Untrusted-fails_safe active file (inr (e, f)) = rw (e, f) refl

-- Where the rollout's active file cannot be read, or there is none and the default file cannot be
-- read, the observer creates no incident and blocks nothing, whatever the pipeline's result, the rules,
-- the settings and the cohort are.
observer_fails_safe :
    (active : ActiveFile) (file : Option PilotRolloutConfig) (result : PipelineResult)
    (rules : List PolicyRule) (settings : GuardianSettings) (cohort application : String)
    (d : PolicyDecision) (pilot : PilotActionDecision)
    → Untrusted active file
    → observer_decision result rules settings cohort (load_runtime_pilot_rollout active file)
      ≡ ok (d, pilot)
    → observer_effects application d ≡ []
unfolding observer_effects
observer_fails_safe active file result rules settings cohort application d pilot bad h =
    let safe = fail_safe_pilot_rollout in
    let decided_safe : observer_decision result rules settings cohort safe ≡ ok (d, pilot) =
      subst (λ c. observer_decision result rules settings cohort c ≡ ok (d, pilot))
        (Untrusted-fails_safe active file bad) h in
    let rolled = observer_rollout result rules settings cohort safe d pilot decided_safe in
    let shadow =
      rollout_modes (decided result rules settings cohort safe) result.assessment.category cohort
        (observer_versions result) safe none in
    let passive : is_intervention d.action ≡ false =
      subst (λ x. is_intervention x.action ≡ false) rolled (shadow.1 refl) in
    rw passive refl
