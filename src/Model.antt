-- ===== src/Model.antt =====
-- guardian_core/models.py: the contracts that classifier, policy and gates share. A confidence is a
-- finite non-negative IEEE double, and so a whole number of units of 2 ^ -1074: it is modelled by
-- that number, and comparisons of confidences are exact.
use hackaton_open_ai.Prelude.{
  ℕ, ◌^◌, ◌≡◌, ◌↔◌, ◌≢◌, Bool, true, false, ◌&&◌, ◌||◌, not, String, List, Option, none, some,
  arith, nat_beq, Equality, ◌==◌, if◌then◌else◌,
}

pub data RiskLevel : Type 0 where
  safe low medium high : RiskLevel

pub data RiskCategory : Type 0 where
  adult_content hate_speech dangerous_contact other : RiskCategory

pub data RiskDirection : Type 0 where
  content_consumption child_as_target child_as_actor : RiskDirection

pub data PolicyAction : Type 0 where
  allow alert block : PolicyAction

pub data EnforcementAction : Type 0 where
  ignore log alert block : EnforcementAction

-- `RISK_ORDER` of guardian_core/policy.py.
abbrev pub risk_order : RiskLevel → ℕ
risk_order safe = 0
risk_order low = 1
risk_order medium = 2
risk_order high = 3

-- `ACTION_ORDER` of risk_engine/calibration.py, `PILOT_ACTION_ORDER` of guardian_core/pilot.py.
abbrev pub action_order : EnforcementAction → ℕ
action_order EnforcementAction.ignore = 0
action_order EnforcementAction.log = 1
action_order EnforcementAction.alert = 2
action_order EnforcementAction.block = 3

-- What an f-string shows of a StrEnum is its value.
pub risk_name : RiskLevel → String
risk_name safe = "SAFE"
risk_name low = "LOW"
risk_name medium = "MEDIUM"
risk_name high = "HIGH"

abbrev category_index : RiskCategory → ℕ
category_index adult_content = 0
category_index hate_speech = 1
category_index dangerous_contact = 2
category_index other = 3

pub category_eq_iff :
    (a b : RiskCategory) → (nat_beq (category_index a) (category_index b) ≡ true) ↔ (a ≡ b)
category_eq_iff a b = ground arith

pub risk_eq_iff : (a b : RiskLevel) → (nat_beq (risk_order a) (risk_order b) ≡ true) ↔ (a ≡ b)
risk_eq_iff a b = ground arith

pub action_eq_iff :
    (a b : EnforcementAction) → (nat_beq (action_order a) (action_order b) ≡ true) ↔ (a ≡ b)
action_eq_iff a b = ground arith

instance abbrev pub category_eq : Equality RiskCategory
category_eq = record {
  equal = λ a b. nat_beq (category_index a) (category_index b);
  equal_iff = category_eq_iff;
}

instance abbrev pub risk_eq : Equality RiskLevel
risk_eq = record { equal = λ a b. nat_beq (risk_order a) (risk_order b); equal_iff = risk_eq_iff }

instance abbrev pub action_eq : Equality EnforcementAction
action_eq = record {
  equal = λ a b. nat_beq (action_order a) (action_order b);
  equal_iff = action_eq_iff;
}

-- The double 1.0.
abbrev pub one : ℕ
one = 2 ^ 1074

pub record RiskAssessment : Type 0 where
  pub risk : RiskLevel
  pub category : Option RiskCategory
  pub direction : Option RiskDirection
  pub confidence : ℕ
  pub evidence : List String
  pub explanation : String

pub record PolicyRule : Type 0 where
  pub category : RiskCategory
  pub action : PolicyAction
  pub minimum_risk : RiskLevel
  pub minimum_confidence : ℕ

pub record PolicyDecision : Type 0 where
  pub action : EnforcementAction
  pub matched_rule : Option PolicyRule
  pub reason : String

abbrev pub is_none {ℓ} : {A : Type ℓ} → Option A → Bool
is_none none = true
is_none (some a) = false

-- `RiskAssessment.validate_safe_semantics`: whether the validator returns.
unfoldable pub validate_safe_semantics : RiskAssessment → Bool
validate_safe_semantics a =
    if (a.risk == safe) && (not (is_none a.category) || not (is_none a.direction))
    then false
    else if not (a.risk == safe) && (is_none a.category || is_none a.direction)
    then false
    else true

-- The validator accepts exactly the assessments where category and direction are both absent from a
-- SAFE assessment, and both present in any other.
abbrev pub HasSafeSemantics : RiskAssessment → Type 0
HasSafeSemantics a =
    (a.risk ≡ safe → (a.category ≡ none) × (a.direction ≡ none))
    × (a.risk ≢ safe → (a.category ≢ none) × (a.direction ≢ none))

pub validate_sound : (a : RiskAssessment) → validate_safe_semantics a ≡ true → HasSafeSemantics a
unfolding validate_safe_semantics
validate_sound a h = ground arith

pub validate_complete : (a : RiskAssessment) → HasSafeSemantics a → validate_safe_semantics a ≡ true
unfolding validate_safe_semantics
validate_complete a h = ground arith
