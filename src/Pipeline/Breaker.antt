-- ===== src/Pipeline/Breaker.antt =====
-- `CircuitBreaker` of risk_engine/pipeline.py.
use hackaton_open_ai.Prelude.{
  ℕ, suc, ◌≤◌, ◌≢◌, refl, Bool, true, false, Option, none, some, leb, arith, Bool-cases, inl, inr,
  if◌then◌else◌,
}

pub record CircuitBreaker (Time : Type 0) : Type 0 where
  pub failure_threshold : ℕ
  pub consecutive_failures : ℕ
  pub opened_at : Option Time

module _ {Time : Type 0} where
  abbrev reset : CircuitBreaker Time → CircuitBreaker Time
  reset b = record b { consecutive_failures = 0; opened_at = none }

  abbrev allow_since :
      (Time → Time → Bool) → Time → Option Time → CircuitBreaker Time → Bool × CircuitBreaker Time
  allow_since due now none b = (true, b)
  allow_since due now (some opened) b = if due opened now then (true, reset b) else (false, b)

  unfoldable pub allow_request :
      (Time → Time → Bool) → Time → CircuitBreaker Time → Bool × CircuitBreaker Time
  allow_request due now b = allow_since due now b.opened_at b

  unfoldable pub record_success : CircuitBreaker Time → CircuitBreaker Time
  record_success b = reset b

  unfoldable pub record_failure : Time → CircuitBreaker Time → CircuitBreaker Time
  record_failure now b =
      let failures = suc b.consecutive_failures in
      if leb b.failure_threshold failures
      then record b { consecutive_failures = failures; opened_at = some now }
      else record b { consecutive_failures = failures }

  -- The breaker is open exactly when it has counted the threshold's number of failures.
  pub record IsConsistent (b : CircuitBreaker Time) : Type 0 where
    pub positive : 1 ≤ b.failure_threshold
    pub open_full : b.opened_at ≢ none → b.failure_threshold ≤ b.consecutive_failures
    pub full_open : b.failure_threshold ≤ b.consecutive_failures → b.opened_at ≢ none

  reset-IsConsistent : (b : CircuitBreaker Time) → IsConsistent b → IsConsistent (reset b)
  reset-IsConsistent b c = record {
    positive = c.positive;
    open_full = λ h. absurd (h refl);
    full_open = λ h. ground (arith, c.positive);
  }

  allow_since-IsConsistent :
      (due : Time → Time → Bool) (now : Time) (opened : Option Time) (b : CircuitBreaker Time)
      → IsConsistent b
      → IsConsistent (allow_since due now opened b).1
  allow_since-IsConsistent due now none b c = c
  allow_since-IsConsistent due now (some opened) b c = elim (Bool-cases (due opened now)) [
    | inl t ↦ rw t (reset-IsConsistent b c)
    | inr t ↦ rw t c
  ]

  pub allow_request-IsConsistent :
      (due : Time → Time → Bool) (now : Time) (b : CircuitBreaker Time)
      → IsConsistent b
      → IsConsistent (allow_request due now b).1
  unfolding allow_request
  allow_request-IsConsistent due now b c = allow_since-IsConsistent due now b.opened_at b c

  pub record_success-IsConsistent :
      (b : CircuitBreaker Time) → IsConsistent b → IsConsistent (record_success b)
  unfolding record_success
  record_success-IsConsistent b c = reset-IsConsistent b c

  pub record_failure-IsConsistent :
      (now : Time) (b : CircuitBreaker Time) → IsConsistent b → IsConsistent (record_failure now b)
  unfolding record_failure
  record_failure-IsConsistent now b c = record {
    positive = ground (arith, c.positive);
    open_full = λ h. ground (arith, c.open_full);
    full_open = λ h. ground arith;
  }
