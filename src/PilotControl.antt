-- ===== src/PilotControl.antt =====
-- guardian_core/pilot_control.py: the active pilot configuration, its snapshots and the file of changes.
-- The files' contents are of a type `Text`: what JSON and pydantic write and read is an argument. An
-- operation runs under an exclusive lock, so it is one step.
pub mod Canonical
pub mod Transaction
pub mod Run
pub mod History
pub mod Brake
pub mod Safe
mod Tests
use Prim.Native.String.{[] as empty, ◌∷◌ as after_char}
use Prim.Native.String
use hackaton_open_ai.Prelude.{
  ℕ, String, Bool, true, false, not, ◌&&◌, ◌||◌, Option, none, some, List, [], ◌∷◌, ◌++◌, nat_beq,
  ltb, ◌==◌, string_eq, contains, any, keep, if◌then◌else◌, Result, ok, err, ◌>>=◌, ◌>>◌, raise_if,
  or_raise,
}
use hackaton_open_ai.Pilot.{
  PilotRolloutConfig, PilotKillSwitch, PilotMode, technical_shadow, alert_only, limited_block,
  fail_safe_pilot_rollout,
}
use hackaton_open_ai.Model.{is_none}
use Canonical.{canonical_payload}
use Transaction.{FilePath, active_path, audit_path, snapshot_path, DiskError, apply_transaction}

pub data PilotChangeAction : Type 0 where
  activation rollback_to kill_switch_set : PilotChangeAction

pub record PilotConfigChange : Type 0 where
  pub action : PilotChangeAction
  pub previous_digest : Option String
  pub active_digest : String
  pub actor_subject_digest : String
  pub change_reference : String
  pub changed_at : ℕ

-- A ValueError, which a ValidationError is, `PilotConcurrentUpdateError`, and an OSError.
pub data PilotStoreError : Type 0 where
  value_error concurrent_update disk_error : PilotStoreError

-- What each operation is given. A naive time is one without a time zone.
pub record ChangeRequest : Type 0 where
  pub actor_subject_digest : String
  pub change_reference : String
  pub changed_at : ℕ
  pub is_aware : Bool
  pub expected_active_digest : Option String

-- `json.dumps` with indentation and the reading of a configuration, SHA-256 of the compact JSON, and
-- the lines of the changes.
pub record PilotExternals (Text : Type 0) : Type 0 where
  pub dump : PilotRolloutConfig → Text
  pub load : Text → Option PilotRolloutConfig
  pub hash : PilotRolloutConfig → String
  pub dump_changes : List PilotConfigChange → Text
  pub load_changes : Text → Option (List PilotConfigChange)

abbrev pub Files : Type 0 → Type 0
Files Text = FilePath → Option Text

abbrev hex_digits : List String
hex_digits =
    "0" ∷ "1" ∷ "2" ∷ "3" ∷ "4" ∷ "5" ∷ "6" ∷ "7" ∷ "8" ∷ "9" ∷ "a" ∷ "b" ∷ "c" ∷ "d" ∷ "e" ∷ "f"
    ∷ []

abbrev all_hex : String → Bool
all_hex empty = true
all_hex (after_char c rest) =
    let others = all_hex rest in contains (after_char c empty) hex_digits && others

unfoldable pub is_digest : String → Bool
is_digest text = nat_beq (String.count text) 64 && all_hex text

abbrev pub is_shadow : PilotMode → Bool
is_shadow technical_shadow = true
is_shadow alert_only = false
is_shadow limited_block = false

abbrev pub same_digest : Option String → Option String → Bool
same_digest none none = true
same_digest none (some e) = false
same_digest (some d) none = false
same_digest (some d) (some e) = d == e

abbrev is_valid_digest : Option String → Bool
is_valid_digest none = true
is_valid_digest (some d) = is_digest d

-- The constraints on the fields of `PilotConfigChange`.
unfoldable pub is_valid_change : PilotConfigChange → Bool
unfolding is_digest
is_valid_change c =
    is_valid_digest c.previous_digest
    && is_digest c.active_digest
    && is_digest c.actor_subject_digest
    && ltb 0 (String.count c.change_reference)
    && ltb (String.count c.change_reference) 121

-- Enabled, and over every category and cohort.
abbrev pub is_global : PilotKillSwitch → Bool
is_global s = s.enabled && is_none s.category && is_none s.cohort_id

-- The switch replaces the one with its id.
abbrev pub with_switch : PilotKillSwitch → PilotRolloutConfig → PilotRolloutConfig
with_switch switch config = record config {
  kill_switches =
      keep (λ s. not (s.switch_id == switch.switch_id)) config.kill_switches ++ switch ∷ [];
}

abbrev pub switched :
    PilotKillSwitch → Option PilotRolloutConfig → Result PilotStoreError PilotRolloutConfig
switched switch none = err value_error
switched switch (some config) = ok (with_switch switch config)

module _ {Text : Type 0} (x : PilotExternals Text) where
  unfoldable pub pilot_config_json : PilotRolloutConfig → Text
  unfolding canonical_payload
  pilot_config_json config = x.dump (canonical_payload config)

  unfoldable pub pilot_config_digest : PilotRolloutConfig → String
  unfolding canonical_payload
  pilot_config_digest config = x.hash (canonical_payload config)

  abbrev pub load_file : Option Text → Result PilotStoreError (Option PilotRolloutConfig)
  load_file none = ok none
  load_file (some text) = or_raise (x.load text) value_error >>= λ config. ok (some config)

  unfoldable pub current : Files Text → Result PilotStoreError (Option PilotRolloutConfig)
  current files = load_file (files active_path)

  unfoldable pub current_or_fail_safe : Files Text → PilotRolloutConfig
  unfolding current
  current_or_fail_safe files = elim (current files) [
    | ok (some config) ↦ config
    | ok none ↦ fail_safe_pilot_rollout
    | err e ↦ fail_safe_pilot_rollout
  ]

  unfoldable pub changes : Files Text → Result PilotStoreError (List PilotConfigChange)
  changes files = elim (files audit_path) [
    | none ↦ ok []
    | some text ↦ or_raise (x.load_changes text) value_error
  ]

  abbrev pub digest_of : Option PilotRolloutConfig → Option String
  digest_of none = none
  digest_of (some config) = some (pilot_config_digest config)

  -- The write of the snapshot, unless it is there already.
  unfoldable pub snapshot_update :
      PilotRolloutConfig → Files Text → Result PilotStoreError (List (FilePath × Text))
  unfolding pilot_config_digest pilot_config_json
  snapshot_update config files =
      let digest = pilot_config_digest config in
      elim (files (snapshot_path digest)) [
        | none ↦ ok ((snapshot_path digest, pilot_config_json config) ∷ [])
        | some text ↦ do
          existing ← or_raise (x.load text) value_error
          raise_if (not (pilot_config_digest existing == digest)) value_error
          ok []
      ]

  -- `_write_change` until the transaction: the change, and the files to write.
  unfoldable pub plan_change :
      PilotRolloutConfig
      → PilotChangeAction
      → ChangeRequest
      → Files Text
      → Result PilotStoreError (PilotConfigChange × List (FilePath × Text))
  unfolding current changes snapshot_update pilot_config_digest pilot_config_json is_valid_change
  plan_change config action q files = do
    raise_if (not q.is_aware) value_error
    previous ← current files
    raise_if (not (same_digest (digest_of previous) q.expected_active_digest)) concurrent_update
    let change : PilotConfigChange = record {
      action = action;
      previous_digest = digest_of previous;
      active_digest = pilot_config_digest config;
      actor_subject_digest = q.actor_subject_digest;
      change_reference = q.change_reference;
      changed_at = q.changed_at;
    } in
        do
          raise_if (not (is_valid_change change)) value_error
          existing ← changes files
          snapshot ← snapshot_update config files
          ok (
            change,
            snapshot
                ++ (audit_path, x.dump_changes (existing ++ change ∷ []))
                  ∷ (active_path, pilot_config_json config)
                  ∷ [],
          )

  abbrev pub written :
      PilotConfigChange
      → Result DiskError (Unit {0}) × Files Text
      → Result PilotStoreError PilotConfigChange × Files Text
  written change (ok done, files) = (ok change, files)
  written change (err e, files) = (err disk_error, files)

  unfoldable pub commit :
      List Bool
      → Result PilotStoreError (PilotConfigChange × List (FilePath × Text))
      → Files Text
      → Result PilotStoreError PilotConfigChange × Files Text
  commit disk (err e) files = (err e, files)
  commit disk (ok (change, updates)) files = written change (apply_transaction disk updates files)

  unfoldable pub rollback_target : String → Files Text → Result PilotStoreError PilotRolloutConfig
  unfolding is_digest pilot_config_digest
  rollback_target digest files = do
    raise_if (not (is_digest digest)) value_error
    text ← or_raise (files (snapshot_path digest)) value_error
    target ← or_raise (x.load text) value_error
    raise_if (not (pilot_config_digest target == digest)) value_error
    raise_if (not (is_shadow target.mode) && not (any is_global target.kill_switches)) value_error
    ok target

  -- A call, with whether the lock is free and what the disk carries out.
  unfoldable pub activate :
      Bool
      → List Bool
      → PilotRolloutConfig
      → ChangeRequest
      → Files Text
      → Result PilotStoreError PilotConfigChange × Files Text
  unfolding commit plan_change
  activate free disk config q files =
      if not free
      then (err concurrent_update, files)
      else commit disk (plan_change config activation q files) files

  unfoldable pub rollback :
      Bool
      → List Bool
      → String
      → ChangeRequest
      → Files Text
      → Result PilotStoreError PilotConfigChange × Files Text
  unfolding commit plan_change rollback_target
  rollback free disk digest q files =
      if not free
      then (err concurrent_update, files)
      else commit disk
          (rollback_target digest files >>= λ target. plan_change target rollback_to q files) files

  unfoldable pub set_kill_switch :
      Bool
      → List Bool
      → PilotKillSwitch
      → ChangeRequest
      → Files Text
      → Result PilotStoreError PilotConfigChange × Files Text
  unfolding commit plan_change current
  set_kill_switch free disk switch q files =
      if not free
      then (err concurrent_update, files)
      else commit disk
          (current files >>= switched switch >>= λ config.
            plan_change config kill_switch_set q files)
          files
