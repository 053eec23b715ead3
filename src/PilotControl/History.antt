-- ===== src/PilotControl/History.antt =====
-- What `PilotConfigStore` keeps: a chain of changes that ends at the active configuration, and a snapshot
-- of each configuration that was ever active.
use hackaton_open_ai.Prelude.{
  ◌≡◌, ◌∙◌, ◌⊎◌, refl, ap, String, Option, none, some, List, [], ◌∷◌, ◌++◌, All, ok, arith,
  Bool-cases, Option-cases, inl, inr, ◌==◌, string_eq, eq_iff, ==_refl,
}
use hackaton_open_ai.Pilot.{PilotRolloutConfig}
use hackaton_open_ai.PilotControl.{
  PilotExternals, PilotConfigChange, Files, current, changes, snapshot_update, digest_of,
  pilot_config_digest, pilot_config_json, ChangeRequest,
}
use hackaton_open_ai.PilotControl.Canonical.{canonical_payload}
use hackaton_open_ai.PilotControl.Transaction.{
  FilePath, active_path, audit_path, snapshot_path, put_all,
}
use hackaton_open_ai.PilotControl.Run.{IsWritten}

-- Each change starts from the digest that the one before it made active.
abbrev pub IsChained : Option String → List PilotConfigChange → Type 0
IsChained previous [] = Unit
IsChained previous (c ∷ log) = (c.previous_digest ≡ previous) × IsChained (some c.active_digest) log

abbrev pub latest : Option String → List PilotConfigChange → Option String
latest previous [] = previous
latest previous (c ∷ log) = latest (some c.active_digest) log

module _ {Text : Type 0} (x : PilotExternals Text) where
  -- What JSON and pydantic write, they read.
  pub record IsReadBack : Type 0 where
    pub config : (c : PilotRolloutConfig) → x.load (x.dump c) ≡ some c
    pub log : (cs : List PilotConfigChange) → x.load_changes (x.dump_changes cs) ≡ some cs

  -- A snapshot is of the configuration that its name is the digest of.
  abbrev pub IsSnapshot : String → Option Text → Type 0
  IsSnapshot digest none = Unit
  IsSnapshot digest (some text) =
      (c : PilotRolloutConfig) × (x.load text ≡ some c) × (pilot_config_digest x c ≡ digest)

  pub record IsConsistent (files : Files Text) : Type 0 where
    pub log : List PilotConfigChange
    pub read : changes x files ≡ ok log
    pub chain : IsChained none log
    pub active : Option PilotRolloutConfig
    pub loaded : current x files ≡ ok active
    pub newest : digest_of x active ≡ latest none log
    pub snapshots : (digest : String) → IsSnapshot digest (files (snapshot_path digest))
    pub stored : All (λ c. (text : Text) × (files (snapshot_path c.active_digest) ≡ some text)) log

  -- Whether the snapshot is there already, or is the first thing to write.
  snapshot-cases :
      (config : PilotRolloutConfig) (files : Files Text) (updates : List (FilePath × Text))
      → snapshot_update x config files ≡ ok updates
      → ((updates ≡ [])
          × ((text : Text) × (files (snapshot_path (pilot_config_digest x config)) ≡ some text)))
        ⊎ (updates
            ≡ (snapshot_path (pilot_config_digest x config), pilot_config_json x config) ∷ [])
  unfolding snapshot_update
  snapshot-cases config files updates h =
      let digest = pilot_config_digest x config in
      elim (Option-cases (files (snapshot_path digest))) [
        | inl e ↦ inr (ground (arith, e, h))
        | inr (text, e) ↦ elim (Option-cases (x.load text)) [
          | inl f ↦ absurd (ground (arith, e, f, h))
          | inr (existing, f) ↦ elim (Bool-cases (pilot_config_digest x existing == digest)) [
            | inr g ↦ absurd (ground (arith, e, f, g, h))
            | inl g ↦ inl (ground (arith, e, f, g, h), (text, e))
          ]
        ]
      ]

  module _ (back : IsReadBack) (files : Files Text) (v : IsConsistent files) (q : ChangeRequest)
      (change : PilotConfigChange) (files' : Files Text) (config : PilotRolloutConfig)
      (w : IsWritten x config q files change files') where
    abbrev json : Text
    json = pilot_config_json x config

    abbrev digest_new : String
    digest_new = pilot_config_digest x config

    abbrev log_text : Text
    log_text = x.dump_changes (w.planned.existing ++ change ∷ [])

    ends :
        (files' active_path ≡ some json)
        × (files' audit_path ≡ some log_text)
        × ((digest : String)
            → (files' (snapshot_path digest) ≡ files (snapshot_path digest))
              ⊎ ((files' (snapshot_path digest) ≡ some json) × (digest ≡ digest_new)))
        × ((text : Text) × (files' (snapshot_path change.active_digest) ≡ some text))
    ends = elim (snapshot-cases config files w.planned.snapshot w.planned.stored) [
      | inl (none_new, (text, there)) ↦
          let made : files' ≡ put_all ((audit_path, log_text) ∷ (active_path, json) ∷ []) files =
            w.applied
            ∙ ap (λ u. put_all u files)
                (w.planned.writes
                  ∙ ap (λ s. s ++ (audit_path, log_text) ∷ (active_path, json) ∷ []) none_new) in
          (
            ap (λ f. f active_path) made,
            ap (λ f. f audit_path) made,
            (λ digest. inl (ap (λ f. f (snapshot_path digest)) made)),
            (
              text,
              ap (λ f. f (snapshot_path change.active_digest)) made
                  ∙ ap (λ d. files (snapshot_path d)) w.planned.digest
                  ∙ there,
            ),
          )
      | inr new ↦
          let made : files'
              ≡ put_all
                  ((snapshot_path digest_new, json)
                    ∷ (audit_path, log_text)
                    ∷ (active_path, json)
                    ∷ [])
                  files =
            w.applied
            ∙ ap (λ u. put_all u files)
                (w.planned.writes
                  ∙ ap (λ s. s ++ (audit_path, log_text) ∷ (active_path, json) ∷ []) new) in
          (
            ap (λ f. f active_path) made,
            ap (λ f. f audit_path) made,
            (λ digest. elim (Bool-cases (digest == digest_new)) [
              | inl e ↦ inr (
                ap (λ f. f (snapshot_path digest)) made ∙ rw e refl,
                (eq_iff digest digest_new).0 e,
              )
              | inr e ↦ inl (ap (λ f. f (snapshot_path digest)) made ∙ rw e refl)
            ]),
            (
              json,
              ap (λ f. f (snapshot_path change.active_digest)) made
                  ∙ rw (w.planned.digest, ==_refl digest_new) refl,
            ),
          )
    ]

    json_loads : x.load json ≡ some (canonical_payload config)
    unfolding pilot_config_json
    json_loads = back.config (canonical_payload config)

    pub active_now : current x files' ≡ ok (some (canonical_payload config))
    unfolding current
    active_now = rw (current, ends.0, json_loads) refl
