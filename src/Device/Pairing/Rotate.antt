-- ===== src/Device/Pairing/Rotate.antt =====
-- `rotate_credential` of api/device_identity.py.
use hackaton_open_ai.Prelude.{
  ℕ, ◌+◌, String, Bool, not, ◌&&◌, Option, none, some, ◌∷◌, nat_beq, ◌==◌, string_eq, if◌then◌else◌,
  find, Result, ok, err, ◌>>=◌, ◌>>◌, raise_if,
}
use hackaton_open_ai.Store.Where.{update_where, count_where}
use hackaton_open_ai.Device.{active, rotating, DevicePrincipal}
use hackaton_open_ai.Device.Pairing.{
  Identity, IdentityError, idempotency_conflict, rotation_not_allowed, Credential, Rotation,
  PairingExternals, DeviceCredentialIssued, credential_ttl, rotation_grace, is_active, rolled_back,
  insert_credential, validate_public_key,
}

-- A rotation that was made under the same key, with the credential that it issued.
unfoldable pub find_rotation : String → String → Identity → Option Credential
find_rotation credential_id key s =
    elim (find
      (λ (r : Rotation). (r.old_credential_id == credential_id) && (r.idempotency_key == key))
      s.rotations) [
        | none ↦ none
        | some r ↦ find (λ c. c.credential_id == r.new_credential_id) s.credentials
      ]

abbrev pub rotate_out : ℕ → Credential → Credential
rotate_out now c = record c { status = rotating; expires_at = now + rotation_grace }

abbrev pub is_rotated : String → Credential → Bool
is_rotated id c = (c.credential_id == id) && is_active c.status

abbrev pub rotated_in : DevicePrincipal → String → String → ℕ → Credential
rotated_in p public_key new_id now = record {
  credential_id = new_id;
  family_id = p.family_id;
  child_id = p.child_id;
  device_id = p.device_id;
  public_key = public_key;
  status = active;
  issued_at = now;
  expires_at = now + credential_ttl;
  revoked_at = none;
  rotated_from = some p.credential_id;
}

-- The first rotation under a key.
unfoldable pub rotate_new :
    DevicePrincipal
    → String
    → String
    → String
    → ℕ
    → Identity
    → Result IdentityError (DeviceCredentialIssued × Identity)
unfolding insert_credential
rotate_new p public_key key new_id now s = do
  raise_if (not (nat_beq (count_where (is_rotated p.credential_id) s.credentials) 1))
      rotation_not_allowed
  credentials ←
      insert_credential (rotated_in p public_key new_id now)
        (update_where (is_rotated p.credential_id) (rotate_out now) s.credentials)
  ok (
    record { credential_id = new_id; device_id = p.device_id; expires_at = now + credential_ttl },
    record s {
      credentials = credentials;
      rotations =
          record {
            old_credential_id = p.credential_id;
            idempotency_key = key;
            new_credential_id = new_id;
          }
          ∷ s.rotations;
    },
  )

module _ (x : PairingExternals) where
  unfoldable pub rotate_credential :
      DevicePrincipal
      → String
      → String
      → String
      → ℕ
      → Identity
      → Result IdentityError DeviceCredentialIssued × Identity
  rotate_credential p public_key key new_id now s = elim (validate_public_key x public_key) [
    | err e ↦ (err e, s)
    | ok checked ↦ elim (find_rotation p.credential_id key s) [
      | some c ↦ if not (c.public_key == public_key) then (err idempotency_conflict, s) else (
        ok (record {
          credential_id = c.credential_id;
          device_id = c.device_id;
          expires_at = c.expires_at;
        }),
        s,
      )
      | none ↦ rolled_back (rotate_new p public_key key new_id now s) s
    ]
  ]
