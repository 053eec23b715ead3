-- ===== src/Policy/Tests.antt =====
-- A family that blocks hate speech, and an insult.
use hackaton_open_ai.Prelude.{◌≡◌, refl, inr}
use hackaton_open_ai.Model.{PolicyRule, EnforcementAction}
use hackaton_open_ai.Policy.{apply_policy, enforce}
use hackaton_open_ai.Policy.Laws.{Covers, apply_policy_sound}
use hackaton_open_ai.Samples.{insult, rules}

blocks : (apply_policy insult rules).action ≡ EnforcementAction.block
unfolding apply_policy
blocks = refl

apply_policy_sound_example :
    (rule : PolicyRule) × Covers insult rules rule
    × (enforce rule.action ≡ (apply_policy insult rules).action)
apply_policy_sound_example = apply_policy_sound insult rules (inr blocks)
