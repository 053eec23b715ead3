-- ===== src/Policy.antt =====
-- guardian_core/policy.py: the family's rules decide the action; the classifier does not.
pub mod Laws
mod Tests
use hackaton_open_ai.Prelude.{
  List, [], ◌∷◌, Option, none, some, ◌||◌, ltb, find, format, ◌==◌, if◌then◌else◌,
}
use hackaton_open_ai.Model.{
  RiskAssessment, RiskCategory, PolicyRule, PolicyDecision, PolicyAction, EnforcementAction, safe,
  risk_order, risk_name, category_eq, risk_eq,
}

-- The table in `apply_policy` from the rule's action to the enforcement.
unfoldable pub enforce : PolicyAction → EnforcementAction
enforce PolicyAction.allow = EnforcementAction.ignore
enforce PolicyAction.alert = EnforcementAction.alert
enforce PolicyAction.block = EnforcementAction.block

abbrev below_risk : RiskAssessment → PolicyRule → PolicyDecision
below_risk a rule = record {
  action = EnforcementAction.log;
  matched_rule = some rule;
  reason = format (
      "Risk "
      ∷ risk_name a.risk
      ∷ " is below the configured threshold "
      ∷ risk_name rule.minimum_risk
      ∷ []);
}

-- What follows the look-up of the rule.
unfoldable pub apply_rule : RiskAssessment → Option PolicyRule → PolicyDecision
unfolding enforce
apply_rule a none = record {
  action = EnforcementAction.log;
  matched_rule = none;
  reason = "No matching parental policy; event logged";
}
apply_rule a (some rule) =
    if ltb (risk_order a.risk) (risk_order rule.minimum_risk)
    then below_risk a rule
    else if ltb a.confidence rule.minimum_confidence
    then record {
      action = EnforcementAction.log;
      matched_rule = some rule;
      reason = "Confidence is below the configured threshold";
    }
    else record {
      action = enforce rule.action;
      matched_rule = some rule;
      reason = "Parental policy matched";
    }

abbrev pub ignored : PolicyDecision
ignored = record {
  action = EnforcementAction.ignore;
  matched_rule = none;
  reason = "No risk requiring policy evaluation";
}

apply_category : RiskAssessment → Option RiskCategory → List PolicyRule → PolicyDecision
unfolding apply_rule
apply_category a none rules = ignored
apply_category a (some c) rules =
    if a.risk == safe then ignored else apply_rule a (find (λ r. r.category == c) rules)

unfoldable pub apply_policy : RiskAssessment → List PolicyRule → PolicyDecision
unfolding apply_category
apply_policy a rules = apply_category a a.category rules
