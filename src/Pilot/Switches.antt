-- ===== src/Pilot/Switches.antt =====
-- The kill switch that guardian_core/pilot.py picks has the lowest ceiling of those that match.
use hackaton_open_ai.Prelude.{
  ℕ, ◌≤◌, ◌≡◌, true, List, [], ◌∷◌, Option, none, some, String, arith, All, keep, keep_at, All-keep,
  get_elem?, Option-cases, Bool-cases, ltb, inl, inr, subst, sym,
}
use hackaton_open_ai.Model.{RiskCategory, action_order}
use hackaton_open_ai.Pilot.{
  PilotKillSwitch, PilotRolloutConfig, lowest, active_kill_switch, switch_matches, validate_ceiling,
}

abbrev AtLeast : PilotKillSwitch → PilotKillSwitch → Type 0
AtLeast s t = action_order s.ceiling ≤ action_order t.ceiling

All-AtLeast :
    (s t : PilotKillSwitch) (xs : List PilotKillSwitch)
    → AtLeast s t
    → All (AtLeast t) xs
    → All (AtLeast s) xs
All-AtLeast s t [] h all = tt
All-AtLeast s t (x ∷ xs) h all = (omega arith, All-AtLeast s t xs h all.1)

lowest-none : (xs : List PilotKillSwitch) → lowest xs ≡ none → xs ≡ []
unfolding lowest
lowest-none [] h = ground arith
lowest-none (x ∷ xs) h = elim (Option-cases (lowest xs)) [
  | inl e ↦ ground arith
  | inr (t, e) ↦ ground arith
]

lowest_le :
    (xs : List PilotKillSwitch) (s : PilotKillSwitch) → lowest xs ≡ some s → All (AtLeast s) xs
unfolding lowest
lowest_le [] s h = cc
lowest_le (x ∷ xs) s h = elim (Option-cases (lowest xs)) [
  | inl e ↦ (ground arith, subst (All (AtLeast s)) (sym (lowest-none xs e)) tt)
  | inr (t, e) ↦ (ground arith, All-AtLeast s t xs (ground arith) (lowest_le xs t e))
]

-- What all switches have, the lowest has.
pub lowest_all {ℓ} :
    (P : PilotKillSwitch → Type ℓ) (xs : List PilotKillSwitch) (s : PilotKillSwitch)
    → All P xs
    → lowest xs ≡ some s
    → P s
unfolding lowest
lowest_all P [] s all h = cc
lowest_all P (x ∷ xs) s all h = elim (Option-cases (lowest xs)) [
  | inl e ↦ subst P (ground arith) all.0
  | inr (t, e) ↦ elim (Bool-cases (ltb (action_order t.ceiling) (action_order x.ceiling))) [
    | inl below ↦ subst P (ground arith) (lowest_all P xs t all.1 e)
    | inr above ↦ subst P (ground arith) all.0
  ]
]

module _ (config : PilotRolloutConfig) (category : Option RiskCategory) (cohort : String) where
  -- A switch that stands over the category and the cohort is no lower than the one that is picked.
  pub active_kill_switch_le :
      (i : ℕ) (s : PilotKillSwitch)
      → get_elem? config.kill_switches i ≡ some s
      → switch_matches category cohort s ≡ true
      → (t : PilotKillSwitch) × (active_kill_switch config category cohort ≡ some t)
        × (action_order t.ceiling ≤ action_order s.ceiling)
  unfolding active_kill_switch
  active_kill_switch_le i s at match =
      let kept = keep (switch_matches category cohort) config.kill_switches in
      elim (Option-cases (lowest kept)) [
        | inl e ↦ absurd (
            keep_at (λ t. ⊥) (switch_matches category cohort) config.kill_switches i s at match
              (subst (All (λ t. ⊥)) (sym (lowest-none kept e)) tt))
        | inr (t, e) ↦ (
          t,
          e,
          keep_at (AtLeast t) (switch_matches category cohort) config.kill_switches i s at match
              (lowest_le kept t e),
        )
      ]

  -- Switches that the validator accepts all have a ceiling below BLOCK, the active one too.
  pub active_kill_switch_valid :
      (t : PilotKillSwitch)
      → All (λ s. validate_ceiling s ≡ true) config.kill_switches
      → active_kill_switch config category cohort ≡ some t
      → action_order t.ceiling ≤ 2
  unfolding active_kill_switch
  active_kill_switch_valid t valid active =
      let v : validate_ceiling t ≡ true =
        lowest_all (λ s. validate_ceiling s ≡ true)
          (keep (switch_matches category cohort) config.kill_switches) t
          (All-keep (λ s. validate_ceiling s ≡ true) (switch_matches category cohort)
            config.kill_switches valid)
          active in
      ground arith
