-- ===== src/Pipeline/Tests.antt =====
-- A provider that times out once and then answers, and one that is always unavailable.
use hackaton_open_ai.Prelude.{
  ℕ, zero, suc, String, ◌≡◌, refl, Bool, true, Option, none, leb, arith, ◌-◌,
}
use hackaton_open_ai.Model.{risk_eq, validate_safe_semantics}
use hackaton_open_ai.Pipeline.{
  Pipeline, Outcome, returned, provider_error, remote, ask_remote, assess,
}
use hackaton_open_ai.Pipeline.Breaker.{CircuitBreaker, IsConsistent, allow_request}
use hackaton_open_ai.Pipeline.Laws.{Answer, assess-eligible}
use hackaton_open_ai.Samples.{insult, provider}

abbrev flaky : ℕ → Outcome
flaky zero = provider_error "ProviderTimeoutError" true
flaky (suc n) = returned insult

abbrev pipeline : Pipeline ℕ
pipeline = record {
  remote = flaky;
  remote_descriptor = provider;
  local_descriptor = provider;
  fallback_descriptor = provider;
  clock = λ i. i;
  max_attempts = 2;
}

abbrev due : ℕ → ℕ → Bool
due opened now = leb 60 (now - opened)

abbrev no_rule : Option String
no_rule = none

abbrev closed : CircuitBreaker ℕ
closed = record { failure_threshold = 3; consecutive_failures = 0; opened_at = none }

closed-IsConsistent : IsConsistent closed
closed-IsConsistent = record {
  positive = omega arith;
  open_full = λ h. absurd (h refl);
  full_open = λ h. ground arith;
}

eligible :
    (assess pipeline due true insult no_rule "digest" closed).0.eligible_for_automatic_block ≡ true
unfolding assess ask_remote allow_request validate_safe_semantics
eligible = refl

assess-eligible_example :
    ((assess pipeline due true insult no_rule "digest" closed).0.source ≡ remote)
    × (no_rule ≡ none)
    × Answer pipeline pipeline.max_attempts
        (assess pipeline due true insult no_rule "digest" closed).0.assessment
        (assess pipeline due true insult no_rule "digest" closed).0.attempts
assess-eligible_example =
    assess-eligible pipeline due true insult no_rule "digest" closed closed-IsConsistent eligible
