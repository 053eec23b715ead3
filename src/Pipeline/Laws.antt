-- ===== src/Pipeline/Laws.antt =====
-- What a result of risk_engine/pipeline.py rests on, and what an attempt leaves of the breaker.
use hackaton_open_ai.Prelude.{
  ℕ, zero, suc, ◌+◌, ◌==◌, ◌≤◌, ◌≡◌, ◌⊎◌, refl, subst, String, Bool, true, false, Option, none,
  List, [], ◌∷◌, ◌++◌, arith, Bool-cases, Option-cases, inl, inr, if◌then◌else◌,
}
use hackaton_open_ai.Model.{RiskAssessment, safe, medium, risk_eq}
use hackaton_open_ai.Pipeline.{
  Pipeline, Outcome, returned, malformed, provider_error, unexpected, remote, fallback, Ended,
  answered, gave_up, model_validate, classify_from_local, try_remote, ask_remote, assess,
  sixty_nine,
}
use hackaton_open_ai.Pipeline.Breaker.{
  CircuitBreaker, IsConsistent, allow_request, record_failure, allow_request-IsConsistent,
  record_success-IsConsistent, record_failure-IsConsistent,
}

-- Attempt `i`, within a bound, returned the assessment, and it was valid.
pub record Answer {Time : Type 0} (p : Pipeline Time) (bound : ℕ) (a : RiskAssessment) (n : ℕ)
    : Type 0 where
  pub attempt : ℕ
  pub last : n ≡ suc attempt
  pub within : n ≤ bound
  pub valid : model_validate (p.remote attempt) ≡ returned a

module _ {Time : Type 0} (p : Pipeline Time) where
  abbrev EndsWell : ℕ → Ended Time → Type 0
  EndsWell bound (answered a n b) = Answer p bound a n × IsConsistent b
  EndsWell bound (gave_up n errors b) = (n ≤ bound) × IsConsistent b

  data Validated (o : Outcome) : Type 0 where
    is_returned : (a : RiskAssessment) → model_validate o ≡ returned a → Validated o
    is_malformed : model_validate o ≡ malformed → Validated o
    is_error :
        (name : String) (retryable : Bool)
        → model_validate o ≡ provider_error name retryable
        → Validated o
    is_unexpected : model_validate o ≡ unexpected → Validated o

  validated : (o : Outcome) → Validated o
  validated o = go (model_validate o) refl
    where
      go : (v : Outcome) → model_validate o ≡ v → Validated o
      go (returned a) e = is_returned a e
      go malformed e = is_malformed e
      go (provider_error name retryable) e = is_error name retryable e
      go unexpected e = is_unexpected e

  try_remote-EndsWell :
      (left attempts bound : ℕ) (errors : List String) (b : CircuitBreaker Time)
      → attempts + left ≡ bound
      → IsConsistent b
      → EndsWell bound (try_remote p left attempts errors b)
  unfolding try_remote
  try_remote-EndsWell zero attempts bound errors b e c = (omega (arith, e), c)
  try_remote-EndsWell (suc left) attempts bound errors b e c =
      let failed = record_failure-IsConsistent (p.clock (suc attempts)) b c in
      elim (validated (p.remote attempts)) [
        | is_returned a v ↦
            rw (v, EndsWell)
              (
                record { attempt = attempts; last = refl; within = omega (arith, e); valid = v },
                record_success-IsConsistent b c,
              )
        | is_malformed v ↦ rw (v, EndsWell) (omega (arith, e), failed)
        | is_error name retryable v ↦ elim (Bool-cases retryable) [
          | inl t ↦
              rw (v, t, EndsWell)
                (try_remote-EndsWell left (suc attempts) bound (errors ++ name ∷ [])
                  (record_failure (p.clock (suc attempts)) b) (omega (arith, e)) failed)
          | inr t ↦ rw (v, t, EndsWell) (omega (arith, e), failed)
        ]
        | is_unexpected v ↦ rw (v, EndsWell) (omega (arith, e), failed)
      ]

  ask_remote-EndsWell :
      (due : Time → Time → Bool) (has_remote : Bool) (b : CircuitBreaker Time)
      → IsConsistent b
      → EndsWell p.max_attempts (ask_remote p due has_remote b)
  unfolding ask_remote
  ask_remote-EndsWell due false b c = (ground arith, c)
  ask_remote-EndsWell due true b c =
      let allowed = allow_request-IsConsistent due (p.clock 0) b c in
      elim (Bool-cases (allow_request due (p.clock 0) b).0) [
        | inl t ↦
            rw (t, EndsWell)
              (try_remote-EndsWell p.max_attempts 0 p.max_attempts []
                (allow_request due (p.clock 0) b).1 (omega arith) allowed)
        | inr t ↦ rw (t, EndsWell) (ground arith, allowed)
      ]

  ended :
      (e : Ended Time)
      → ((a : RiskAssessment) × (n : ℕ) × (b : CircuitBreaker Time) × (e ≡ answered a n b))
        ⊎ ((n : ℕ) × (errors : List String) × (b : CircuitBreaker Time) × (e ≡ gave_up n errors b))
  ended (answered a n b) = inl (a, n, b, refl)
  ended (gave_up n errors b) = inr (n, errors, b, refl)

  module _ (due : Time → Time → Bool) (has_remote : Bool) (a : RiskAssessment)
      (rule : Option String) (digest : String) (b : CircuitBreaker Time) (c : IsConsistent b) where
    -- The breaker is consistent. A result that is eligible for an automatic block has the remote
    -- provider as its source; no safe rule applied, and the last of the permitted attempts made
    -- returned the assessment, which is valid.
    pub assess-eligible :
        (assess p due has_remote a rule digest b).0.eligible_for_automatic_block ≡ true
        → ((assess p due has_remote a rule digest b).0.source ≡ remote)
          × (rule ≡ none)
          × Answer p p.max_attempts
              (assess p due has_remote a rule digest b).0.assessment
              (assess p due has_remote a rule digest b).0.attempts
    unfolding assess
    assess-eligible h = elim (Option-cases rule) [
      | inr (name, e) ↦ absurd (ground (arith, e))
      | inl e ↦ elim (ended (ask_remote p due has_remote b)) [
        | inl (x, n, b', y) ↦
            let good : Answer p p.max_attempts x n =
              (subst (EndsWell p.max_attempts) y (ask_remote-EndsWell due has_remote b c)).0 in
            rw (e, y) (refl, refl, good)
        | inr (n, errors, b', y) ↦ absurd (ground (arith, e, y))
      ]
    ]

    -- The breaker is consistent. A result of the fallback is not eligible for an automatic block; it is
    -- SAFE if the local assessment was and MEDIUM otherwise, with a confidence of at most 0.69 and at
    -- most the local one.
    assess-fallback :
        (assess p due has_remote a rule digest b).0.source ≡ fallback
        → ((assess p due has_remote a rule digest b).0.eligible_for_automatic_block ≡ false)
          × ((assess p due has_remote a rule digest b).0.assessment.risk
              ≡ (if a.risk == safe then safe else medium))
          × ((assess p due has_remote a rule digest b).0.assessment.confidence ≤ sixty_nine)
          × ((assess p due has_remote a rule digest b).0.assessment.confidence ≤ a.confidence)
    unfolding assess classify_from_local
    assess-fallback h = elim (Option-cases rule) [
      | inr (name, e) ↦ absurd (ground (arith, e))
      | inl e ↦ elim (ended (ask_remote p due has_remote b)) [
        | inl (x, n, b', y) ↦ absurd (ground (arith, e, y))
        | inr (n, errors, b', y) ↦ rw (e, y) (ground arith)
      ]
    ]

    -- A consistent breaker stays consistent, open exactly when it has counted the threshold's number of
    -- failures, and the attempts stay within the maximum.
    assess-IsConsistent :
        IsConsistent (assess p due has_remote a rule digest b).1
        × ((assess p due has_remote a rule digest b).0.attempts ≤ p.max_attempts)
    unfolding assess
    assess-IsConsistent = elim (Option-cases rule) [
      | inr (name, e) ↦ rw e (c, ground arith)
      | inl e ↦
          let well = ask_remote-EndsWell due has_remote b c in
          elim (ended (ask_remote p due has_remote b)) [
            | inl (x, n, b', y) ↦
                let good : Answer p p.max_attempts x n × IsConsistent b' =
                  subst (EndsWell p.max_attempts) y well in
                rw (e, y) (good.1, good.0.within)
            | inr (n, errors, b', y) ↦
                let good : (n ≤ p.max_attempts) × IsConsistent b' =
                  subst (EndsWell p.max_attempts) y well in
                rw (e, y) (good.1, good.0)
          ]
    ]
