-- ===== src/PilotControl/Brake.antt =====
-- What a kill switch of `PilotConfigStore` does to the actions of the pilot rollout.
use hackaton_open_ai.Prelude.{
  ℕ, zero, suc, ◌≡◌, ◌∙◌, refl, ap, subst, String, Bool, true, false, none, some, List, [], ◌∷◌,
  get_elem?, Result, ok, arith, Bool-cases, Result-cases, inl, inr, string_eq,
}
use hackaton_open_ai.Pilot.{PilotRolloutConfig, PilotKillSwitch}
use hackaton_open_ai.PilotControl.{
  PilotExternals, PilotConfigChange, PilotStoreError, Files, current, set_kill_switch, commit,
  plan_change, with_switch, kill_switch_set, ChangeRequest,
}
use hackaton_open_ai.PilotControl.Run.{commit-IsSettledBy}
use hackaton_open_ai.PilotControl.History.{IsReadBack, IsConsistent, active_now}
use hackaton_open_ai.PilotControl.Canonical.{insert_by, sort_by, canonical_payload, text_le}

module _ {ℓ} {A : Type ℓ} (key : A → String) where
  abbrev pub IsIn : A → List A → Type ℓ
  IsIn x xs = (i : ℕ) × (get_elem? xs i ≡ some x)

  inserted_at : (x : A) (ys : List A) → IsIn x (insert_by key x ys)
  unfolding insert_by
  inserted_at x [] = (zero, refl)
  inserted_at x (y ∷ ys) = elim (Bool-cases (text_le (key x) (key y))) [
    | inl e ↦ (zero, rw e refl)
    | inr e ↦ let (i, at) = inserted_at x ys in (suc i, rw e at)
  ]

  insert_by-IsIn : (x z : A) (ys : List A) → IsIn z ys → IsIn z (insert_by key x ys)
  unfolding insert_by
  insert_by-IsIn x z [] (i, at) = cc
  insert_by-IsIn x z (y ∷ ys) (zero, at) = elim (Bool-cases (text_le (key x) (key y))) [
    | inl e ↦ (suc zero, rw e at)
    | inr e ↦ (zero, rw e at)
  ]
  insert_by-IsIn x z (y ∷ ys) (suc i, at) = elim (Bool-cases (text_le (key x) (key y))) [
    | inl e ↦ (suc (suc i), rw e at)
    | inr e ↦ let (j, there) = insert_by-IsIn x z ys (i, at) in (suc j, rw e there)
  ]

  pub sort_by-IsIn : (x : A) (xs : List A) → IsIn x xs → IsIn x (sort_by key xs)
  unfolding sort_by
  sort_by-IsIn x [] (i, at) = cc
  sort_by-IsIn x (y ∷ ys) (zero, at) =
      let same : y ≡ x = cc in
      subst (λ k. IsIn k (insert_by key y (sort_by key ys))) same (inserted_at y (sort_by key ys))
  sort_by-IsIn x (y ∷ ys) (suc i, at) =
      insert_by-IsIn y x (sort_by key ys) (sort_by-IsIn x ys (i, at))

-- The configuration that a kill switch leaves active is the one before, with the switch.
pub switch_active :
    {Text : Type 0} (x : PilotExternals Text) (back : IsReadBack x) (free : Bool) (disk : List Bool)
    (switch : PilotKillSwitch) (q : ChangeRequest) (files : Files Text) (change : PilotConfigChange)
    → IsConsistent x files
    → (set_kill_switch x free disk switch q files).0 ≡ ok change
    → (config : PilotRolloutConfig) × (current x files ≡ ok (some config))
      × (current x (set_kill_switch x free disk switch q files).1
          ≡ ok (some (canonical_payload (with_switch switch config))))
unfolding set_kill_switch
switch_active x back false disk switch q files change v done = cc
switch_active x back true disk switch q files change v done =
    elim (Result-cases (current x files)) [
      | inl (e, c) ↦ absurd (ground (arith, c, done))
      | inr (none, c) ↦ absurd (ground (arith, c, done))
      | inr (some config, c) ↦
          let updated = with_switch switch config in
          let plan = plan_change x updated kill_switch_set q files in
          let same : set_kill_switch x true disk switch q files ≡ commit x disk plan files =
            rw (set_kill_switch, c) refl in
          elim (commit-IsSettledBy x disk updated kill_switch_set q files) [
            | inl (e, at, kept) ↦ absurd (cc (same, at, done))
            | inr (made, at, w) ↦ (
              config,
              c,
              ap (λ (r : Result PilotStoreError PilotConfigChange × Files _). current x r.1) same
                  ∙ active_now x back files v q made (commit x disk plan files).1 updated w,
            )
          ]
    ]
