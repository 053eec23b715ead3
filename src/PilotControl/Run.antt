-- ===== src/PilotControl/Run.antt =====
-- Calls of `PilotConfigStore`, and what a change that succeeds or fails does to the files.
use hackaton_open_ai.Prelude.{
  ◌≡◌, ◌⊎◌, refl, sym, ap, subst, String, Bool, true, false, not, Option, List, [], ◌∷◌, ◌++◌,
  Result, ok, err, ◌>>=◌, arith, Bool-cases, Result-cases, inl, inr, string_eq,
}
use hackaton_open_ai.Pilot.{PilotRolloutConfig, PilotKillSwitch}
use hackaton_open_ai.PilotControl.{
  PilotExternals, PilotConfigChange, PilotChangeAction, PilotStoreError, disk_error,
  concurrent_update, ChangeRequest, Files, activate, rollback, set_kill_switch, commit, plan_change,
  current, changes, snapshot_update, digest_of, pilot_config_digest, pilot_config_json,
  is_valid_change, same_digest, rollback_target, switched, activation, rollback_to, kill_switch_set,
}
use hackaton_open_ai.PilotControl.Transaction.{
  FilePath, active_path, audit_path, os_error, apply_transaction, put_all,
  apply_transaction_rolled_back, apply_transaction_written,
}

-- One call, with whether the lock is free and what the disk carries out.
pub data Call : Type 0 where
  activate_call : Bool → List Bool → PilotRolloutConfig → ChangeRequest → Call
  rollback_call : Bool → List Bool → String → ChangeRequest → Call
  switch_call : Bool → List Bool → PilotKillSwitch → ChangeRequest → Call

abbrev pub request_of : Call → ChangeRequest
request_of (activate_call free disk config q) = q
request_of (rollback_call free disk digest q) = q
request_of (switch_call free disk switch q) = q

module _ {Text : Type 0} (x : PilotExternals Text) where
  unfoldable pub step : Call → Files Text → Result PilotStoreError PilotConfigChange × Files Text
  unfolding activate rollback set_kill_switch
  step (activate_call free disk config q) files = activate x free disk config q files
  step (rollback_call free disk digest q) files = rollback x free disk digest q files
  step (switch_call free disk switch q) files = set_kill_switch x free disk switch q files

  unfoldable pub run : List Call → Files Text → Files Text
  run [] files = files
  run (call ∷ calls) files = run calls (step call files).1

  -- The change of a plan that was made, and what was read for it.
  pub record IsPlanned (config : PilotRolloutConfig) (q : ChangeRequest) (files : Files Text)
      (change : PilotConfigChange) (updates : List (FilePath × Text)) : Type 0 where
    pub previous : Option PilotRolloutConfig
    pub was : current x files ≡ ok previous
    pub linked : change.previous_digest ≡ digest_of x previous
    pub expected : same_digest (digest_of x previous) q.expected_active_digest ≡ true
    pub digest : change.active_digest ≡ pilot_config_digest x config
    pub existing : List PilotConfigChange
    pub read : changes x files ≡ ok existing
    pub snapshot : List (FilePath × Text)
    pub stored : snapshot_update x config files ≡ ok snapshot
    pub writes :
        updates
        ≡ snapshot
          ++ (audit_path, x.dump_changes (existing ++ change ∷ []))
            ∷ (active_path, pilot_config_json x config)
            ∷ []

  -- What a call writes: a plan for a configuration, or nothing.
  pub record IsWritten (config : PilotRolloutConfig) (request : ChangeRequest) (files : Files Text)
      (change : PilotConfigChange) (files' : Files Text) : Type 0 where
    pub updates : List (FilePath × Text)
    pub planned : IsPlanned config request files change updates
    pub applied : files' ≡ put_all updates files

  plan_change-IsPlanned :
      (config : PilotRolloutConfig) (action : PilotChangeAction) (q : ChangeRequest)
      (files : Files Text) (change : PilotConfigChange) (updates : List (FilePath × Text))
      → plan_change x config action q files ≡ ok (change, updates)
      → IsPlanned config q files change updates
  unfolding plan_change
  plan_change-IsPlanned config action q files change updates h =
      let made : Option PilotRolloutConfig → PilotConfigChange = λ previous. record {
        action = action;
        previous_digest = digest_of x previous;
        active_digest = pilot_config_digest x config;
        actor_subject_digest = q.actor_subject_digest;
        change_reference = q.change_reference;
        changed_at = q.changed_at;
      } in
      elim (Bool-cases (not q.is_aware)) [
        | inl a ↦ absurd (ground (arith, a, h))
        | inr a ↦ elim (Result-cases (current x files)) [
          | inl (e, b) ↦ absurd (ground (arith, a, b, h))
          | inr (previous, b) ↦
              elim (Bool-cases (same_digest (digest_of x previous) q.expected_active_digest)) [
                | inr c ↦ absurd (ground (arith, a, b, c, h))
                | inl c ↦ elim (Bool-cases (is_valid_change (made previous))) [
                  | inr d ↦ absurd (ground (arith, a, b, c, d, h))
                  | inl d ↦ elim (Result-cases (changes x files)) [
                    | inl (e, f) ↦ absurd (ground (arith, a, b, c, d, f, h))
                    | inr (existing, f) ↦ elim (Result-cases (snapshot_update x config files)) [
                      | inl (e, g) ↦ absurd (ground (arith, a, b, c, d, f, g, h))
                      | inr (snapshot, g) ↦
                          let same : made previous ≡ change = ground (arith, a, b, c, d, f, g, h) in
                          let wrote : snapshot
                                ++ (audit_path, x.dump_changes (existing ++ made previous ∷ []))
                                  ∷ (active_path, pilot_config_json x config)
                                  ∷ []
                              ≡ updates =
                            ground (arith, a, b, c, d, f, g, h) in
                          record {
                            previous = previous;
                            was = b;
                            linked = ap (λ (k : PilotConfigChange). k.previous_digest) (sym same);
                            expected = c;
                            digest = ap (λ (k : PilotConfigChange). k.active_digest) (sym same);
                            existing = existing;
                            read = f;
                            snapshot = snapshot;
                            stored = g;
                            writes =
                                subst
                                  (λ k.
                                    updates
                                    ≡ snapshot
                                      ++ (audit_path, x.dump_changes (existing ++ k ∷ []))
                                        ∷ (active_path, pilot_config_json x config)
                                        ∷ [])
                                  same (sym wrote);
                          }
                    ]
                  ]
                ]
              ]
        ]
      ]

  -- A call that raises leaves every file; one that returns has written a plan.
  abbrev pub IsSettled :
      ChangeRequest → Files Text → Result PilotStoreError PilotConfigChange × Files Text → Type 0
  IsSettled q files (result, files') =
      ((e : PilotStoreError) × (result ≡ err e) × ((q : FilePath) → files' q ≡ files q))
      ⊎ ((change : PilotConfigChange) × (result ≡ ok change)
          × (config : PilotRolloutConfig) × IsWritten config q files change files')

  abbrev pub IsSettledBy :
      PilotRolloutConfig
      → ChangeRequest
      → Files Text
      → Result PilotStoreError PilotConfigChange × Files Text
      → Type 0
  IsSettledBy config q files (result, files') =
      ((e : PilotStoreError) × (result ≡ err e) × ((path : FilePath) → files' path ≡ files path))
      ⊎ ((change : PilotConfigChange) × (result ≡ ok change)
          × IsWritten config q files change files')

  settled :
      (config : PilotRolloutConfig) (q : ChangeRequest) (files : Files Text)
      (r : Result PilotStoreError PilotConfigChange × Files Text)
      → IsSettledBy config q files r
      → IsSettled q files r
  settled config q files (result, files') (inl kept) = inl kept
  settled config q files (result, files') (inr (change, at, w)) = inr (change, at, config, w)

  pub commit-IsSettledBy :
      (disk : List Bool) (config : PilotRolloutConfig) (action : PilotChangeAction)
      (q : ChangeRequest) (files : Files Text)
      → IsSettledBy config q files (commit x disk (plan_change x config action q files) files)
  unfolding commit
  commit-IsSettledBy disk config action q files =
      elim (Result-cases (plan_change x config action q files)) [
        | inl (e, p) ↦ rw p (inl (e, refl, λ r. refl))
        | inr ((change, updates), p) ↦
            elim (Result-cases (apply_transaction disk updates files).0) [
              | inl (os_error, t) ↦
                  rw (p, t)
                    (inl (disk_error, refl, apply_transaction_rolled_back disk updates files t))
              | inr (done, t) ↦
                  rw (p, t)
                    (inr (
                      change,
                      refl,
                      record {
                        updates = updates;
                        planned = plan_change-IsPlanned config action q files change updates p;
                        applied = apply_transaction_written disk updates files t;
                      },
                    ))
            ]
      ]

  pub step-IsSettled :
      (call : Call) (files : Files Text) → IsSettled (request_of call) files (step call files)
  unfolding step activate rollback set_kill_switch commit
  step-IsSettled (activate_call false disk config q) files =
      inl (concurrent_update, refl, λ r. refl)
  step-IsSettled (activate_call true disk config q) files =
      settled config q files _ (commit-IsSettledBy disk config activation q files)
  step-IsSettled (rollback_call false disk digest q) files =
      inl (concurrent_update, refl, λ r. refl)
  step-IsSettled (rollback_call true disk digest q) files =
      elim (Result-cases (rollback_target x digest files)) [
        | inl (e, t) ↦ rw t (inl (e, refl, λ r. refl))
        | inr (target, t) ↦
            rw t (settled target q files _ (commit-IsSettledBy disk target rollback_to q files))
      ]
  step-IsSettled (switch_call false disk switch q) files = inl (concurrent_update, refl, λ r. refl)
  step-IsSettled (switch_call true disk switch q) files =
      elim (Result-cases (current x files >>= switched switch)) [
        | inl (e, t) ↦ rw t (inl (e, refl, λ r. refl))
        | inr (config, t) ↦
            rw t (settled config q files _ (commit-IsSettledBy disk config kill_switch_set q files))
      ]

-- A call that raises leaves every file as it was: where the lock is taken, the active digest is another
-- than was expected, something that is read is invalid, or the disk fails at any of the writes, as long as
-- the files that were written can be restored.
pub failed_change_kept :
    {Text : Type 0} (x : PilotExternals Text) (call : Call) (files : Files Text)
    (e : PilotStoreError)
    → (step x call files).0 ≡ err e
    → (path : FilePath) → (step x call files).1 path ≡ files path
failed_change_kept x call files e failed = elim (step-IsSettled x call files) [
  | inl (raised, at, kept) ↦ kept
  | inr (change, at, config, wrote) ↦ λ path. absurd (cc (failed, at))
]
