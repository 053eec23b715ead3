-- ===== src/Pipeline.antt =====
-- risk_engine/pipeline.py, with the fallback of risk_engine/providers.py. The providers are fields
-- of the pipeline: the local one gives an assessment and the name of a safe rule, the remote one an
-- outcome per attempt. A time is read from the clock only to be compared, so the type of times is a
-- parameter with the test that a breaker opened at one is due at another.
pub mod Breaker
pub mod Laws
mod Tests
use hackaton_open_ai.Prelude.{
  ℕ, zero, suc, ◌+◌, ◌^◌, ◌*◌, min, ltb, String, Bool, true, false, not, Option, none, some, List,
  [], ◌∷◌, ◌++◌, format, if◌then◌else◌, ◌==◌,
}
use hackaton_open_ai.Model.{RiskAssessment, validate_safe_semantics, safe, medium, risk_eq}
use hackaton_open_ai.Pipeline.Breaker.{
  CircuitBreaker, allow_request, record_success, record_failure,
}

pub data AnalysisSource : Type 0 where
  local remote fallback : AnalysisSource

-- The fields of `ProviderDescriptor` that a result takes.
pub record ProviderDescriptor : Type 0 where
  pub provider_version : String
  pub model_version : String
  pub prompt_version : String

-- What `classify` of the remote provider does: it returns an assessment, which `model_validate` then
-- checks, or something that is none, or it raises a `ProviderError` or another exception.
pub data Outcome : Type 0 where
  returned : RiskAssessment → Outcome
  malformed : Outcome
  provider_error : String → Bool → Outcome
  unexpected : Outcome

pub record PipelineResult : Type 0 where
  pub assessment : RiskAssessment
  pub local_assessment : RiskAssessment
  pub source : AnalysisSource
  pub context_digest : String
  pub descriptor : ProviderDescriptor
  pub remote_attempted : Bool
  pub attempts : ℕ
  pub eligible_for_automatic_block : Bool
  pub trusted_safe_rule : Option String
  pub errors : List String

-- `RiskAssessment.model_validate(raw)`: an assessment of the wrong shape is malformed.
unfoldable pub model_validate : Outcome → Outcome
model_validate (returned a) = if validate_safe_semantics a then returned a else malformed
model_validate malformed = malformed
model_validate (provider_error name retryable) = provider_error name retryable
model_validate unexpected = unexpected

-- The doubles 0.5 and 0.69.
abbrev pub half : ℕ
half = 2 ^ 1073

abbrev pub sixty_nine : ℕ
sixty_nine = 1553741871442821 * 2 ^ 1023

-- `classify_from_local`
unfoldable pub classify_from_local : RiskAssessment → RiskAssessment
classify_from_local a =
    if a.risk == safe
    then record a {
      confidence = min a.confidence half;
      explanation =
          "Remote context analysis was unavailable; no supported local risk signal was found. Automatic intervention is disabled for this fallback result.";
    }
    else record a {
      risk = medium;
      confidence = min a.confidence sixty_nine;
      explanation = format (
          a.explanation
          ∷ " Remote confirmation was unavailable, so the signal was kept for review and made ineligible for automatic blocking."
          ∷ []);
    }

-- How the loop of attempts ends: with an assessment after some attempts, or with the errors.
pub data Ended (Time : Type 0) : Type 0 where
  answered : RiskAssessment → ℕ → CircuitBreaker Time → Ended Time
  gave_up : ℕ → List String → CircuitBreaker Time → Ended Time

-- The pipeline's fields, with the provider's outcome and the clock at each attempt.
pub record Pipeline (Time : Type 0) : Type 0 where
  pub remote : ℕ → Outcome
  pub remote_descriptor : ProviderDescriptor
  pub local_descriptor : ProviderDescriptor
  pub fallback_descriptor : ProviderDescriptor
  pub clock : ℕ → Time
  pub max_attempts : ℕ

module _ {Time : Type 0} (p : Pipeline Time) where
  -- `for _ in range(self.max_attempts)`, with the iterations left and the attempts made.
  unfoldable pub try_remote : ℕ → ℕ → List String → CircuitBreaker Time → Ended Time
  unfolding model_validate
  try_remote zero attempts errors b = gave_up attempts errors b
  try_remote (suc left) attempts errors b =
      let failed = record_failure (p.clock (suc attempts)) b in
      elim (model_validate (p.remote attempts)) [
        | returned a ↦ answered a (suc attempts) (record_success b)
        | malformed ↦ gave_up (suc attempts) (errors ++ "ProviderInvalidOutputError" ∷ []) failed
        | provider_error name retryable ↦
            let rest = try_remote left (suc attempts) (errors ++ name ∷ []) failed in
            if retryable then rest else gave_up (suc attempts) (errors ++ name ∷ []) failed
        | unexpected ↦ gave_up (suc attempts) (errors ++ "UnexpectedProviderError" ∷ []) failed
      ]

  -- The two returns of the second half of `assess`.
  abbrev conclude : RiskAssessment → String → Ended Time → PipelineResult × CircuitBreaker Time
  conclude a digest (answered remote_assessment attempts b) = (
    record {
      assessment = remote_assessment;
      local_assessment = a;
      source = remote;
      context_digest = digest;
      descriptor = p.remote_descriptor;
      remote_attempted = true;
      attempts = attempts;
      eligible_for_automatic_block = true;
      trusted_safe_rule = none;
      errors = [];
    },
    b,
  )
  conclude a digest (gave_up attempts errors b) = (
    record {
      assessment = classify_from_local a;
      local_assessment = a;
      source = fallback;
      context_digest = digest;
      descriptor = p.fallback_descriptor;
      remote_attempted = ltb 0 attempts;
      attempts = attempts;
      eligible_for_automatic_block = false;
      trusted_safe_rule = none;
      errors = errors;
    },
    b,
  )

  -- `if self.remote_provider is not None and self.circuit_breaker.allow_request()` and its `elif`.
  unfoldable pub ask_remote : (Time → Time → Bool) → Bool → CircuitBreaker Time → Ended Time
  unfolding try_remote
  ask_remote due has_remote b =
      if has_remote
      then (let (allowed, b') = allow_request due (p.clock 0) b in
          if allowed
          then try_remote p.max_attempts 0 [] b'
          else gave_up 0 ("CircuitBreakerOpen" ∷ []) b')
      else gave_up 0 [] b

  -- `assess`, with what the local provider says of the context.
  unfoldable pub assess :
      (Time → Time → Bool)
      → Bool
      → RiskAssessment
      → Option String
      → String
      → CircuitBreaker Time
      → PipelineResult × CircuitBreaker Time
  unfolding ask_remote
  assess due has_remote a none digest b = conclude a digest (ask_remote due has_remote b)
  assess due has_remote a (some rule) digest b = (
    record {
      assessment = a;
      local_assessment = a;
      source = local;
      context_digest = digest;
      descriptor = p.local_descriptor;
      remote_attempted = false;
      attempts = 0;
      eligible_for_automatic_block = false;
      trusted_safe_rule = some rule;
      errors = [];
    },
    b,
  )
