-- ===== src/Controls/Laws.antt =====
-- What the risk controls of risk_engine/calibration.py let through.
use hackaton_open_ai.Prelude.{
  Result-cases, ℕ, ◌≤◌, ◌≡◌, Bool, true, false, some, arith, ok, ==_cases, Option-cases, inl, inr,
  string_eq, subst,
}
use hackaton_open_ai.Model.{
  PolicyDecision, RiskAssessment, RiskCategory, EnforcementAction, safe, high, risk_eq,
}
use hackaton_open_ai.Controls.Calibrate.{CategoryControls, FloatOps, calibrate_confidence}
use hackaton_open_ai.Controls.{
  cap, apply_risk_controls, VersionSet, RiskControlConfig, RiskControlDecision, kill_switch_active,
  block_gate_approved, decide, evaluate_category, evaluate_risk_controls,
}

-- Everything that a BLOCK rests on.
pub record BlockGates (f : FloatOps) (a : RiskAssessment) (versions : VersionSet)
    (config : RiskControlConfig) (eligible : Bool) (c : RiskCategory) (controls : CategoryControls)
    (calibrated : ℕ) : Type 0 where
  pub category : a.category ≡ some c
  pub configured : config.categories c ≡ some controls
  pub score : calibrate_confidence f a.confidence controls ≡ some calibrated
  pub high_risk : a.risk ≡ high
  pub threshold : controls.block_threshold ≤ calibrated
  pub pipeline : eligible ≡ true
  pub unswitched : kill_switch_active config c versions.model ≡ false
  pub approval : block_gate_approved config c versions ≡ true

module _ (f : FloatOps) (a : RiskAssessment) (versions : VersionSet) (config : RiskControlConfig)
    (eligible : Bool) where
  category_gates :
      (c : RiskCategory) (controls : CategoryControls) (calibrated : ℕ) {d : RiskControlDecision}
      → a.category ≡ some c
      → config.categories c ≡ some controls
      → calibrate_confidence f a.confidence controls ≡ some calibrated
      → evaluate_category f a c versions config eligible ≡ ok d
      → d.maximum_action ≡ EnforcementAction.block
      → BlockGates f a versions config eligible c controls calibrated
  unfolding evaluate_category decide
  category_gates c controls calibrated cat conf score h b = record {
    category = cat;
    configured = conf;
    score = score;
    high_risk = ground arith;
    threshold = ground arith;
    pipeline = ground arith;
    unswitched = ground arith;
    approval = ground arith;
  }

  abbrev Gated : RiskControlDecision → Type 0
  Gated d =
      (c : RiskCategory) × (controls : CategoryControls) × BlockGates f a versions config eligible c
        controls d.calibrated_confidence

  evaluate_category_gated :
      (c : RiskCategory) {d : RiskControlDecision}
      → a.category ≡ some c
      → evaluate_category f a c versions config eligible ≡ ok d
      → d.maximum_action ≡ EnforcementAction.block
      → Gated d
  evaluate_category_gated c {d} cat h b = elim (Option-cases (config.categories c)) [
    | inl missing ↦ absurd (unfold evaluate_category in ground arith)
    | inr (controls, conf) ↦ elim (Option-cases (calibrate_confidence f a.confidence controls)) [
      | inl uncovered ↦ absurd (unfold evaluate_category in ground arith)
      | inr (calibrated, score) ↦
          let e : calibrated ≡ d.calibrated_confidence =
            unfold evaluate_category decide in ground arith in
          (
            c,
            controls,
            subst (BlockGates f a versions config eligible c controls) e
                (category_gates c controls calibrated cat conf score h b),
          )
    ]
  ]

  -- The controls' maximum is BLOCK only if the category has controls, the calibrated confidence
  -- reaches their BLOCK threshold, the risk is HIGH, the pipeline's result is eligible, no kill switch
  -- is active, and an approval of the exact versions is in force.
  pub evaluate-block_gated :
      {d : RiskControlDecision}
      → evaluate_risk_controls f a versions config eligible ≡ ok d
      → d.maximum_action ≡ EnforcementAction.block
      → Gated d
  unfolding evaluate_risk_controls
  evaluate-block_gated {d} h b = elim (Option-cases a.category) [
    | inl e ↦ absurd (ground arith)
    | inr (c, e) ↦ elim (==_cases a.risk safe) [
      | inl (t, is_safe) ↦ absurd (ground arith)
      | inr (t, unsafe) ↦ evaluate_category_gated c {d = d} e (ground arith) b
    ]
  ]

  cap-block :
      (p : PolicyDecision) (k : RiskControlDecision)
      → (cap p k).action ≡ EnforcementAction.block
      → (p.action ≡ EnforcementAction.block) × (k.maximum_action ≡ EnforcementAction.block)
  unfolding cap
  cap-block p k h = ground arith

  -- The controls leave a decision at BLOCK only if the policy said BLOCK, the category has controls, the
  -- calibrated confidence reaches their BLOCK threshold, the risk is HIGH, the pipeline's result is
  -- eligible, no kill switch is active, and an approval of the exact versions is in force.
  pub apply_risk_controls-block_gated :
      (p d : PolicyDecision) (k : RiskControlDecision)
      → apply_risk_controls f p a eligible versions config ≡ ok (d, k)
      → d.action ≡ EnforcementAction.block
      → (p.action ≡ EnforcementAction.block) × Gated k
  unfolding apply_risk_controls
  apply_risk_controls-block_gated p d k h b =
      elim (Result-cases (evaluate_risk_controls f a versions config eligible)) [
        | inl (x, e) ↦ absurd (ground (arith, e))
        | inr (controls, e) ↦
            let same : controls ≡ k = ground (arith, e) in
            let (said, maximum) = cap-block p controls (ground (arith, e)) in
            (said, subst Gated same (evaluate-block_gated {d = controls} e maximum))
      ]
