-- ===== src/Audit.antt =====
-- api/data_security/audit.py: an append-only trail in which each record carries the hash of the one
-- before it and an HMAC of its own fields. `_sign` (json.dumps and hmac) is the parameter `sign`, the
-- type of its digests and `ZERO_HASH` are parameters too; the clock and `uuid4` are arguments.
pub mod Keyring
pub mod Chain
pub mod Tamper
mod Symbolic
mod Tests
use hackaton_open_ai.Prelude.{
  ℕ, suc, ◌+◌, ◌-◌, String, Bool, true, false, not, ◌&&◌, ◌||◌, Option, none, some, List, [], ◌∷◌,
  ◌++◌, length, last?, get_elem?, Equality, ◌==◌, nat_eq, ltb, if◌then◌else◌, Result, ok, err,
  ◌>>=◌, or_raise,
}
use Keyring.{AuditKeyring, get, current_secret, KeyError}

pub data AuditActorType : Type 0 where
  account device system support : AuditActorType

pub data AuditAction : Type 0 where
  policy_viewed policy_updated evidence_stored evidence_accessed evidence_access_denied
        evidence_deleted incident_decided family_exported family_deletion_requested rate_limited :
      AuditAction

pub data AuditTargetType : Type 0 where
  policy evidence incident family command session : AuditTargetType

pub data AuditResult : Type 0 where
  success denied error : AuditResult

pub record AuditInput : Type 0 where
  pub family_id : String
  pub actor_type : AuditActorType
  pub actor_id : String
  pub action : AuditAction
  pub target_type : AuditTargetType
  pub target_id : String
  pub result : AuditResult
  pub correlation_id : String

-- The dict `unsigned`: the fields of a record that its hash covers.
pub record Unsigned (D : Type 0) : Type 0 where
  pub sequence : ℕ
  pub event_id : String
  pub occurred_at : ℕ
  pub event : AuditInput
  pub key_id : String
  pub previous_hash : D

-- An `AuditRecord` is those fields and the hash.
pub record AuditRecord (D : Type 0) : Type 0 where
  pub unsigned : Unsigned D
  pub open unsigned use *
  pub event_hash : D

pub record CheckpointFields (D : Type 0) : Type 0 where
  pub sequence : ℕ
  pub event_hash : D
  pub key_id : String
  pub created_at : ℕ

pub record AuditCheckpoint (D : Type 0) : Type 0 where
  pub fields : CheckpointFields D
  pub open fields use *
  pub checkpoint_hash : D

-- What `_sign` is called on.
pub data Payload (D : Type 0) : Type 0 where
  record_payload : Unsigned D → Payload D
  checkpoint_payload : CheckpointFields D → Payload D

pub record AuditVerification : Type 0 where
  pub valid : Bool
  pub checked_records : ℕ
  pub reason : Option String

abbrev failed : ℕ → String → AuditVerification
failed checked reason = record { valid = false; checked_records = checked; reason = some reason }

module _ {D : Type 0} ⦃eq : Equality D⦄ (sign : String → Payload D → D) (zero_hash : D) where
  -- `self.records[-1].event_hash if self.records else ZERO_HASH`
  abbrev pub latest_hash : List (AuditRecord D) → D
  latest_hash records = elim (last? records) [ none ↦ zero_hash | some r ↦ r.event_hash ]

  -- The closure `build` of `AuditTrail.append`.
  abbrev pub build : String → Unsigned D → AuditRecord D
  build secret u = record { unsigned = u; event_hash = sign secret (record_payload u) }

  -- `AuditTrail.append` over `InMemoryAuditRepository.append_atomic`: the repository's records after.
  unfoldable pub append :
      AuditKeyring
      → ℕ
      → String
      → AuditInput
      → List (AuditRecord D)
      → Result KeyError (List (AuditRecord D))
  append ring now event_id event records = do
    secret ← or_raise (current_secret ring) KeyError.current_key_unavailable
    ok (
        records
        ++ build secret (record {
          sequence = length records + 1;
          event_id = event_id;
          occurred_at = now;
          event = event;
          key_id = ring.current_key_id;
          previous_hash = latest_hash records;
        })
          ∷ [])

  -- `AuditTrail.checkpoint`; `none` is the error on an empty trail or a missing key.
  unfoldable pub checkpoint : AuditKeyring → ℕ → List (AuditRecord D) → Option (AuditCheckpoint D)
  checkpoint ring now records = elim (last? records) [
    | none ↦ none
    | some latest ↦ elim (current_secret ring) [
      | none ↦ none
      | some secret ↦
          let fields : CheckpointFields D = record {
            sequence = latest.sequence;
            event_hash = latest.event_hash;
            key_id = ring.current_key_id;
            created_at = now;
          } in
          some
            (record { fields = fields; checkpoint_hash = sign secret (checkpoint_payload fields) })
    ]
  ]

  -- The checks on one record: `none` where the loop goes on.
  unfoldable pub check_record : AuditKeyring → ℕ → D → AuditRecord D → Option AuditVerification
  check_record ring expected previous r =
      if not (r.sequence == expected) || not (r.previous_hash == previous)
      then some (failed (expected - 1) "sequence or link mismatch")
      else elim (get ring r.key_id) [
        | none ↦ some (failed (expected - 1) "verification key unavailable")
        | some secret ↦
            if not (r.event_hash == sign secret (record_payload r.unsigned))
            then some (failed (expected - 1) "event hash mismatch")
            else none
      ]

  -- The `for` loop of `verify`, from an expected sequence and the hash before it.
  unfoldable pub check_records :
      AuditKeyring → ℕ → D → List (AuditRecord D) → Option AuditVerification
  check_records ring expected previous [] = none
  check_records ring expected previous (r ∷ records) =
      let rest = check_records ring (suc expected) r.event_hash records in
      elim (check_record ring expected previous r) [ none ↦ rest | some failure ↦ some failure ]

  -- `_verify_checkpoint`.
  unfoldable pub verify_checkpoint : AuditKeyring → List (AuditRecord D) → AuditCheckpoint D → Bool
  verify_checkpoint ring records c =
      if ltb c.sequence 1 || ltb (length records) c.sequence
      then false
      else elim (get_elem? records (c.sequence - 1)) [
        | none ↦ false
        | some r ↦ if not (r.event_hash == c.event_hash) then false else elim (get ring c.key_id) [
          | none ↦ false
          | some secret ↦ c.checkpoint_hash == sign secret (checkpoint_payload c.fields)
        ]
      ]

  abbrev checkpoint_holds : AuditKeyring → List (AuditRecord D) → Option (AuditCheckpoint D) → Bool
  checkpoint_holds ring records none = true
  checkpoint_holds ring records (some c) = verify_checkpoint ring records c

  -- `AuditTrail.verify`.
  unfoldable pub verify :
      AuditKeyring → List (AuditRecord D) → Option (AuditCheckpoint D) → AuditVerification
  verify ring records c = elim (check_records ring 1 zero_hash records) [
    | some failure ↦ failure
    | none ↦
        if not (checkpoint_holds ring records c)
        then failed (length records) "checkpoint mismatch"
        else record { valid = true; checked_records = length records; reason = none }
  ]
