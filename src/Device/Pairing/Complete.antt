-- ===== src/Device/Pairing/Complete.antt =====
-- `create_pairing_challenge` and `complete_pairing` of api/device_identity.py.
use hackaton_open_ai.Prelude.{
  ℕ, ◌+◌, String, Bool, not, ◌&&◌, ◌||◌, none, some, [], ◌∷◌, format, leb, ◌==◌, string_eq,
  if◌then◌else◌, find, any, Result, ok, err, ◌>>=◌, ◌>>◌, raise_if,
}
use hackaton_open_ai.Store.Tables.{ChildRow}
use hackaton_open_ai.Store.Where.{update_where}
use hackaton_open_ai.Device.{active}
use hackaton_open_ai.Device.Pairing.{
  Identity, IdentityError, PairedDevice, Installation, Credential, invalid_pairing,
  invalid_or_expired_pairing, missing, integrity_error, Challenge, PairingConfirmation,
  PairingExternals, DeviceCredentialIssued, in_use, pairing_ttl, credential_ttl,
  max_pairing_attempts, is_set, rolled_back, insert_credential, insert_device, upsert_installation,
  revoke_rows, validate_public_key,
}

-- What the installation was paired as before: its device goes, if it is of the same family.
unfoldable pub replace_previous : Challenge → String → ℕ → Identity → Result IdentityError Identity
unfolding revoke_rows
replace_previous c installation now s =
    elim (find (λ i. i.installation_id == installation) s.installations) [
      | none ↦ ok s
      | some i ↦ elim (find (λ d. d.id == i.device_id) s.devices) [
        | none ↦ ok s
        | some d ↦
            if not (d.family_id == c.family_id)
            then err invalid_pairing
            else ok (revoke_rows c.family_id i.device_id now s)
      ]
    ]

abbrev pub consume_challenge : ℕ → Challenge → Challenge
consume_challenge now c = record c { consumed_at = some now }

abbrev pub fail_challenge : Challenge → Challenge
fail_challenge c = record c { failed_attempts = c.failed_attempts + 1 }

abbrev pub paired_device : Challenge → PairingConfirmation → String → ℕ → PairedDevice
paired_device c q device_id now = record {
  id = device_id;
  family_id = c.family_id;
  child_id = c.child_id;
  name = q.device_name;
  platform = q.platform;
  paired_at = now;
  lifecycle_status = in_use;
}

abbrev pub paired_credential : Challenge → String → String → String → ℕ → Credential
paired_credential c public_key device_id credential_id now = record {
  credential_id = credential_id;
  family_id = c.family_id;
  child_id = c.child_id;
  device_id = device_id;
  public_key = public_key;
  status = active;
  issued_at = now;
  expires_at = now + credential_ttl;
  revoked_at = none;
  rotated_from = none;
}

abbrev pub paired_installation : PairingConfirmation → String → ℕ → Installation
paired_installation q device_id now = record {
  installation_id = q.installation_id;
  device_id = device_id;
  updated_at = now;
}

-- The INSERTs of a pairing, and the challenge's consumption.
unfoldable pub pair :
    Challenge → PairingConfirmation → String → String → ℕ → Identity → Result IdentityError Identity
unfolding insert_credential insert_device upsert_installation
pair c q device_id credential_id now s = do
  devices ← insert_device (paired_device c q device_id now) s.devices
  credentials ←
      insert_credential (paired_credential c q.public_key device_id credential_id now) s.credentials
  ok (record s {
    devices = devices;
    credentials = credentials;
    installations = upsert_installation (paired_installation q device_id now) s.installations;
    challenges =
        update_where (λ r. (r.id == q.challenge_id) && not (is_set r.consumed_at))
          (consume_challenge now) s.challenges;
  })

-- A challenge that can no longer be used.
abbrev pub is_invalid : ℕ → Challenge → Bool
is_invalid now c =
    is_set c.consumed_at || leb c.expires_at now || leb max_pairing_attempts c.failed_attempts

module _ (x : PairingExternals) where
  unfoldable pub pairing_digest : String → String → String
  pairing_digest challenge_id code = x.hmac (format (challenge_id ∷ ":" ∷ x.normalize code ∷ []))

  -- `front` and `back` are the halves of the random code; the challenge's id is the primary key.
  unfoldable pub create_pairing_challenge :
      String
      → String
      → String
      → String
      → String
      → ℕ
      → Identity
      → Result IdentityError (String × Identity)
  unfolding pairing_digest
  create_pairing_challenge family child challenge_id front back now s =
      let code = format (front ∷ "-" ∷ back ∷ []) in
      do
        raise_if
            (not (any (λ (r : ChildRow). (r.family_id == family) && (r.id == child)) s.children))
            missing
        raise_if (any (λ (r : Challenge). r.id == challenge_id) s.challenges) integrity_error
        ok (
          code,
          record s {
            challenges =
                record {
                  id = challenge_id;
                  family_id = family;
                  child_id = child;
                  code_digest = pairing_digest challenge_id code;
                  created_at = now;
                  expires_at = now + pairing_ttl;
                  consumed_at = none;
                  failed_attempts = 0;
                }
                ∷ s.challenges;
          },
        )

  -- Once the challenge is found: a wrong code is counted, and the count is committed.
  unfoldable pub confirm :
      Challenge
      → PairingConfirmation
      → String
      → String
      → ℕ
      → Identity
      → Result IdentityError DeviceCredentialIssued × Identity
  confirm c q device_id credential_id now s =
      if is_invalid now c
      then (err invalid_or_expired_pairing, s)
      else if not (c.code_digest == pairing_digest q.challenge_id q.code)
      then (
        err invalid_or_expired_pairing,
        record s {
          challenges = update_where (λ r. r.id == q.challenge_id) fail_challenge s.challenges;
        },
      )
      else rolled_back
          (do
            replaced ← replace_previous c q.installation_id now s
            paired ← pair c q device_id credential_id now replaced
            ok (
              record {
                credential_id = credential_id;
                device_id = device_id;
                expires_at = now + credential_ttl;
              },
              paired,
            ))
          s

  unfoldable pub complete_pairing :
      PairingConfirmation
      → String
      → String
      → ℕ
      → Identity
      → Result IdentityError DeviceCredentialIssued × Identity
  complete_pairing q device_id credential_id now s = elim (validate_public_key x q.public_key) [
    | err e ↦ (err e, s)
    | ok checked ↦ elim (find (λ (c : Challenge). c.id == q.challenge_id) s.challenges) [
      | none ↦ (err invalid_or_expired_pairing, s)
      | some c ↦ confirm c q device_id credential_id now s
    ]
  ]
