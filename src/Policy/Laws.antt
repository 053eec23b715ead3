-- ===== src/Policy/Laws.antt =====
-- What a decision of guardian_core/policy.py says of the assessment and the rules.
use hackaton_open_ai.Prelude.{
  ◌≤◌, ◌≡◌, ◌≢◌, ◌⊎◌, inl, inr, List, Option, some, find, arith, find-some, Option-cases, ==_cases,
  ◌==◌, subst, sym,
}
use hackaton_open_ai.Model.{
  RiskAssessment, RiskCategory, PolicyRule, EnforcementAction, safe, risk_order, category_eq,
  category_eq_iff, risk_eq,
}
use hackaton_open_ai.Policy.{apply_policy, apply_rule, apply_category, enforce}

-- The rule of the assessment's category that the family listed first.
abbrev pub first_rule : RiskCategory → List PolicyRule → Option PolicyRule
first_rule c rules = find (λ r. r.category == c) rules

-- The family's rule covers the assessment: it is the first of its category, and the assessment
-- reaches both of its thresholds.
pub record Covers (a : RiskAssessment) (rules : List PolicyRule) (rule : PolicyRule) : Type 0 where
  pub not_safe : a.risk ≢ safe
  pub same_category : a.category ≡ some rule.category
  pub listed_first : first_rule rule.category rules ≡ some rule
  pub risk_reached : risk_order rule.minimum_risk ≤ risk_order a.risk
  pub confidence_reached : rule.minimum_confidence ≤ a.confidence

abbrev pub Intervenes : EnforcementAction → Type 0
Intervenes e = (e ≡ EnforcementAction.alert) ⊎ (e ≡ EnforcementAction.block)

module _ (a : RiskAssessment) (rules : List PolicyRule) (rule : PolicyRule) where
  -- A rule that covers the assessment decides.
  apply_policy_covered : Covers a rules rule → (apply_policy a rules).action ≡ enforce rule.action
  unfolding apply_policy
  apply_policy_covered h = rw (h.same_category, h.listed_first) (ground (arith, h.not_safe))

rule_of_category :
    (c : RiskCategory) (rules : List PolicyRule) (rule : PolicyRule)
    → first_rule c rules ≡ some rule
    → rule.category ≡ c
rule_of_category c rules rule h =
    (category_eq_iff rule.category c).0 (find-some (λ r. r.category == c) rules rule h)

covered_by_first :
    (a : RiskAssessment) (c : RiskCategory) (rules : List PolicyRule) (rule : PolicyRule)
    → first_rule c rules ≡ some rule
    → a.category ≡ some c
    → a.risk ≢ safe
    → Intervenes (apply_rule a (some rule)).action
    → Covers a rules rule × (enforce rule.action ≡ (apply_rule a (some rule)).action)
unfolding apply_rule
covered_by_first a c rules rule found cat unsafe h = (
  record {
    not_safe = unsafe;
    same_category = cc (rule_of_category c rules rule found);
    listed_first =
        subst (λ k. first_rule k rules ≡ some rule) (sym (rule_of_category c rules rule found))
          found;
    risk_reached = ground arith;
    confidence_reached = ground arith;
  },
  ground arith,
)

covered_by_category :
    (a : RiskAssessment) (c : RiskCategory) (rules : List PolicyRule)
    → a.category ≡ some c
    → Intervenes (apply_category a (some c) rules).action
    → (rule : PolicyRule) × Covers a rules rule
      × (enforce rule.action ≡ (apply_category a (some c) rules).action)
unfolding apply_category
covered_by_category a c rules cat h = elim (==_cases a.risk safe) [
  | inl (is_safe, e) ↦ absurd (ground arith)
  | inr (unsafe, ne) ↦ elim (Option-cases (first_rule c rules)) [
    | inl e ↦ absurd (unfold apply_rule in ground arith)
    | inr (rule, e) ↦
        let (covers, same) = covered_by_first a c rules rule e cat ne (ground arith) in
        (rule, covers, ground arith)
  ]
]

-- No intervention without a rule that covers the assessment and asks for that intervention.
pub apply_policy_sound :
    (a : RiskAssessment) (rules : List PolicyRule)
    → Intervenes (apply_policy a rules).action
    → (rule : PolicyRule) × Covers a rules rule
      × (enforce rule.action ≡ (apply_policy a rules).action)
unfolding apply_policy
apply_policy_sound a rules h = elim (Option-cases a.category) [
  | inl e ↦ absurd (ground arith)
  | inr (c, e) ↦
      let (rule, covers, same) = covered_by_category a c rules e (rw (e) at h) in
      (rule, covers, rw e same)
]
