-- ===== src/Device/Pairing.antt =====
-- Pairing, revocation and rotation of device credentials in api/device_identity.py. A table is the list
-- of its rows, the last one inserted first; times are microseconds. The ids, the code and the clock that
-- a call reads are arguments. A transaction that raises leaves the tables.
pub mod Complete
pub mod Rotate
pub mod Run
pub mod Changes
pub mod Completed
pub mod Once
pub mod Revoked
pub mod Single
pub mod Retry
pub mod Issue
mod Tests
use Prim.Native.String
use hackaton_open_ai.Prelude.{
  ℕ, ◌+◌, ◌*◌, String, Bool, true, false, not, ◌&&◌, ◌||◌, Option, none, some, List, [], ◌∷◌,
  format, leb, nat_beq, ◌==◌, string_eq, if◌then◌else◌, find, any, Result, ok, err, ◌>>=◌, ◌>>◌,
  raise_if, or_raise,
}
use hackaton_open_ai.Store.Tables.{ChildRow}
use hackaton_open_ai.Store.Where.{update_where, count_where}
use hackaton_open_ai.Device.{
  DeviceCredentialStatus, active, rotating, revoked, CredentialRecord, DevicePrincipal, second,
  is_revoked,
}

pub data DeviceLifecycleStatus : Type 0 where
  in_use withdrawn : DeviceLifecycleStatus

pub record Challenge : Type 0 where
  pub id : String
  pub family_id : String
  pub child_id : String
  pub code_digest : String
  pub created_at : ℕ
  pub expires_at : ℕ
  pub consumed_at : Option ℕ
  pub failed_attempts : ℕ

pub record Credential : Type 0 where
  pub credential_id : String
  pub family_id : String
  pub child_id : String
  pub device_id : String
  pub public_key : String
  pub status : DeviceCredentialStatus
  pub issued_at : ℕ
  pub expires_at : ℕ
  pub revoked_at : Option ℕ
  pub rotated_from : Option String

pub record PairedDevice : Type 0 where
  pub id : String
  pub family_id : String
  pub child_id : String
  pub name : String
  pub platform : String
  pub paired_at : ℕ
  pub lifecycle_status : DeviceLifecycleStatus

pub record Installation : Type 0 where
  pub installation_id : String
  pub device_id : String
  pub updated_at : ℕ

pub record Rotation : Type 0 where
  pub old_credential_id : String
  pub idempotency_key : String
  pub new_credential_id : String

-- The tables that the operations read or write.
pub record Identity : Type 0 where
  pub children : List ChildRow
  pub challenges : List Challenge
  pub devices : List PairedDevice
  pub credentials : List Credential
  pub installations : List Installation
  pub rotations : List Rotation

-- The codes of `PairingError`, with `KeyError` and sqlite's `IntegrityError`.
pub data IdentityError : Type 0 where
  invalid_pairing invalid_or_expired_pairing idempotency_conflict rotation_not_allowed missing
        integrity_error :
      IdentityError

pub record PairingConfirmation : Type 0 where
  pub challenge_id : String
  pub code : String
  pub public_key : String
  pub installation_id : String
  pub device_name : String
  pub platform : String

pub record DeviceCredentialIssued : Type 0 where
  pub credential_id : String
  pub device_id : String
  pub expires_at : ℕ

-- `hmac.new(pepper, _, sha256)`, `replace("-", "")` then `upper`, and the number of bytes that a key
-- decodes to, `none` being a `ValueError`.
pub record PairingExternals : Type 0 where
  pub hmac : String → String
  pub normalize : String → String
  pub decoded_length : String → Option ℕ

abbrev pub pairing_ttl : ℕ
pairing_ttl = 10 * 60 * second

abbrev pub credential_ttl : ℕ
credential_ttl = 90 * 24 * 3600 * second

abbrev pub rotation_grace : ℕ
rotation_grace = 5 * 60 * second

abbrev pub max_pairing_attempts : ℕ
max_pairing_attempts = 5

abbrev pub is_active : DeviceCredentialStatus → Bool
is_active active = true
is_active rotating = false
is_active revoked = false

abbrev pub is_withdrawn : DeviceLifecycleStatus → Bool
is_withdrawn in_use = false
is_withdrawn withdrawn = true

abbrev pub is_set {ℓ} : {A : Type ℓ} → Option A → Bool
is_set none = false
is_set (some a) = true

abbrev pub revoke_credential : ℕ → Credential → Credential
revoke_credential now c = record c { status = revoked; revoked_at = some now }

abbrev pub withdraw : PairedDevice → PairedDevice
withdraw d = record d { lifecycle_status = withdrawn }

-- The two UPDATEs of a revocation.
unfoldable pub revoke_rows : String → String → ℕ → Identity → Identity
revoke_rows family device now s = record s {
  credentials =
      update_where
        (λ c. (c.family_id == family) && (c.device_id == device) && not (is_revoked c.status))
        (revoke_credential now) s.credentials;
  devices = update_where (λ d. (d.family_id == family) && (d.id == device)) withdraw s.devices;
}

unfoldable pub revoke_device : String → String → ℕ → Identity → Result IdentityError Identity
unfolding revoke_rows
revoke_device family device now s =
    if any (λ d. (d.family_id == family) && (d.id == device)) s.devices
    then ok (revoke_rows family device now s)
    else err missing

-- credential_id is the primary key, and public_key is UNIQUE.
unfoldable pub insert_credential :
    Credential → List Credential → Result IdentityError (List Credential)
insert_credential c rows =
    if any (λ r. (r.credential_id == c.credential_id) || (r.public_key == c.public_key)) rows
    then err integrity_error
    else ok (c ∷ rows)

unfoldable pub insert_device :
    PairedDevice → List PairedDevice → Result IdentityError (List PairedDevice)
insert_device d rows = if any (λ r. r.id == d.id) rows then err integrity_error else ok (d ∷ rows)

-- INSERT … ON CONFLICT(installation_id) DO UPDATE
unfoldable pub upsert_installation : Installation → List Installation → List Installation
upsert_installation i rows =
    if any (λ r. r.installation_id == i.installation_id) rows
    then update_where (λ r. r.installation_id == i.installation_id) (λ r. i) rows
    else i ∷ rows

-- The credential with the state of its device.
unfoldable pub get_credential : String → Identity → Option CredentialRecord
get_credential id s = elim (find (λ c. c.credential_id == id) s.credentials) [
  | none ↦ none
  | some c ↦ elim (find (λ d. d.id == c.device_id) s.devices) [
    | none ↦ none
    | some d ↦ some (record {
      credential_id = c.credential_id;
      device_id = c.device_id;
      family_id = c.family_id;
      child_id = c.child_id;
      public_key = c.public_key;
      status = if is_withdrawn d.lifecycle_status then revoked else c.status;
      expires_at = c.expires_at;
    })
  ]
]

abbrev pub rolled_back {ℓ} :
    {A : Type ℓ}
    → Result IdentityError (A × Identity)
    → Identity
    → Result IdentityError A × Identity
rolled_back (ok (a, s')) s = (ok a, s')
rolled_back (err e) s = (err e, s)

module _ (x : PairingExternals) where
  unfoldable pub validate_public_key : String → Result IdentityError (Unit {0})
  validate_public_key value = do
    length ← or_raise (x.decoded_length value) invalid_pairing
    raise_if (not (nat_beq length 32)) invalid_pairing
