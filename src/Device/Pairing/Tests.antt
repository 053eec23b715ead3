-- ===== src/Device/Pairing/Tests.antt =====
-- A family that pairs a Mac, replaces it, and revokes what is left.
use hackaton_open_ai.Prelude.{
  ◌≡◌, ◌≢◌, ◌&&◌, apart, format, refl, String, true, false, none, some, ok, err, List, [], ◌∷◌,
  arith, ◌==◌, string_eq,
}
use hackaton_open_ai.Store.Where.{update_where, count_where}
use hackaton_open_ai.Device.{
  Externals, DeviceRequest, DevicePrincipal, active, rotating, revoked, authenticate,
  parse_authorization, check_credential, signed_headers, check_signed, check_request,
}
use hackaton_open_ai.Device.Pairing.{
  Identity, IdentityError, idempotency_conflict, Credential, PairedDevice, PairingConfirmation,
  PairingExternals, DeviceCredentialIssued, in_use, withdrawn, get_credential, revoke_device,
  revoke_rows, validate_public_key, insert_credential, insert_device, upsert_installation,
}
use hackaton_open_ai.Device.Pairing.Complete.{
  create_pairing_challenge, complete_pairing, confirm, replace_previous, pair, pairing_digest,
}
use hackaton_open_ai.Device.Pairing.Rotate.{rotate_credential, rotate_new, find_rotation}
use hackaton_open_ai.Device.Pairing.Run.{Call, challenge, complete, revoke, rotate, step, run}
use hackaton_open_ai.Device.Pairing.Once.{IsBounded, run-IsBounded, paired_once}
use hackaton_open_ai.Device.Pairing.Single.{IsSound, run-IsSound}
use hackaton_open_ai.Device.Pairing.Revoked.{revoked_forever}
use hackaton_open_ai.Device.Pairing.Retry.{rotate_retry}
use hackaton_open_ai.Device.Pairing.Issue.{IsNew, pairing_round_trip}

abbrev keys : PairingExternals
keys = record { hmac = λ m. m; normalize = λ c. c; decoded_length = λ k. some 32 }

abbrev empty : Identity
empty = record {
  children = record { id = "ana"; family_id = "family" } ∷ [];
  challenges = [];
  devices = [];
  credentials = [];
  installations = [];
  rotations = [];
}

abbrev mac : PairingConfirmation
mac = record {
  challenge_id = "pair-1";
  code = "ABCD-2345";
  public_key = "key-1";
  installation_id = "install-1";
  device_name = "Mac";
  platform = "macOS";
}

abbrev calls : List Call
calls =
    challenge "family" "ana" "pair-1" "ABCD" "2345" 0
    ∷ complete (record mac { code = "ABCD-9999" }) "device-0" "cred-0" 1
    ∷ complete mac "device-1" "cred-1" 2
    ∷ rotate "cred-1" "key-2" "once" "cred-2" 3
    ∷ challenge "family" "ana" "pair-2" "EFGH" "6789" 4
    ∷ complete (record mac { challenge_id = "pair-2"; code = "EFGH-6789"; public_key = "key-3" })
        "device-2" "cred-3" 5
    ∷ []

empty-IsSound : IsSound empty
unfolding count_where
empty-IsSound = record {
  devices_once = λ id. omega arith;
  credentials_once = λ id. omega arith;
  known = tt;
  single = λ d. omega arith;
}

run-IsSound_example : IsSound (run keys calls empty)
run-IsSound_example = run-IsSound keys calls empty empty-IsSound

empty-IsBounded : IsBounded empty
unfolding count_where
empty-IsBounded = record { once = λ id. omega arith; bounded = tt }

run-IsBounded_example : IsBounded (run keys calls empty)
run-IsBounded_example = run-IsBounded keys calls empty empty-IsBounded

abbrev opened_tables : Identity
opened_tables = record empty {
  challenges =
      record {
        id = "pair-1";
        family_id = "family";
        child_id = "ana";
        code_digest = "pair-1:ABCD-2345";
        created_at = 0;
        expires_at = 600000000;
        consumed_at = none;
        failed_attempts = 0;
      }
      ∷ [];
}

abbrev credential : Credential
credential = record {
  credential_id = "cred-1";
  family_id = "family";
  child_id = "ana";
  device_id = "device-1";
  public_key = "key-1";
  status = active;
  issued_at = 2;
  expires_at = 7776000000002;
  revoked_at = none;
  rotated_from = none;
}

abbrev paired_device : PairedDevice
paired_device = record {
  id = "device-1";
  family_id = "family";
  child_id = "ana";
  name = "Mac";
  platform = "macOS";
  paired_at = 2;
  lifecycle_status = in_use;
}

abbrev paired_tables : Identity
paired_tables = record empty {
  challenges =
      record {
        id = "pair-1";
        family_id = "family";
        child_id = "ana";
        code_digest = "pair-1:ABCD-2345";
        created_at = 0;
        expires_at = 600000000;
        consumed_at = some 2;
        failed_attempts = 0;
      }
      ∷ [];
  devices = paired_device ∷ [];
  credentials = credential ∷ [];
  installations =
      record { installation_id = "install-1"; device_id = "device-1"; updated_at = 2 } ∷ [];
}

abbrev issued : DeviceCredentialIssued
issued = record { credential_id = "cred-1"; device_id = "device-1"; expires_at = 7776000000002 }

opened_run :
    create_pairing_challenge keys "family" "ana" "pair-1" "ABCD" "2345" 0 empty
    ≡ ok ("ABCD-2345", opened_tables)
unfolding create_pairing_challenge pairing_digest format
opened_run = refl

paired_run :
    complete_pairing keys mac "device-1" "cred-1" 2 opened_tables ≡ (ok issued, paired_tables)
unfolding complete_pairing validate_public_key confirm pairing_digest format replace_previous pair
    insert_device insert_credential upsert_installation update_where
paired_run = refl

paired_once_example :
    (e : IdentityError) × (complete_pairing keys mac "device-9" "cred-9" 9
        (run keys calls paired_tables)
      ≡ (err e, run keys calls paired_tables))
paired_once_example =
    paired_once keys mac mac "device-1" "cred-1" "device-9" "cred-9" 2 9 issued calls opened_tables
      paired_tables paired_run refl

abbrev principal : DevicePrincipal
principal = record {
  credential_id = "cred-1";
  device_id = "device-1";
  family_id = "family";
  child_id = "ana";
}

abbrev rotated_tables : Identity
rotated_tables = record paired_tables {
  credentials =
      record credential {
        credential_id = "cred-2";
        public_key = "key-2";
        issued_at = 3;
        expires_at = 7776000000003;
        rotated_from = some "cred-1";
      }
      ∷ record credential { status = rotating; expires_at = 300000003 }
      ∷ [];
  rotations =
      record {
        old_credential_id = "cred-1";
        idempotency_key = "once";
        new_credential_id = "cred-2";
      }
      ∷ [];
}

abbrev issued_again : DeviceCredentialIssued
issued_again = record {
  credential_id = "cred-2";
  device_id = "device-1";
  expires_at = 7776000000003;
}

rotated_run :
    rotate_credential keys principal "key-2" "once" "cred-2" 3 paired_tables
    ≡ (ok issued_again, rotated_tables)
unfolding rotate_credential validate_public_key find_rotation rotate_new insert_credential
    update_where count_where
rotated_run = refl

key_ok : validate_public_key keys "key-4" ≡ ok tt
unfolding validate_public_key
key_ok = refl

rotate_retry_example :
    rotate_credential keys principal "key-4" "once" "cred-5" 8 rotated_tables
    ≡ (err idempotency_conflict, rotated_tables)
rotate_retry_example =
    rotate_retry keys principal "key-2" "key-4" "once" "cred-2" "cred-5" 3 8 issued_again
      paired_tables rotated_tables rotated_run key_ok

new : IsNew mac "device-1" "cred-1" empty
new = record { device = refl; credential = refl; installation = refl }

mac_key_ok : validate_public_key keys mac.public_key ≡ ok tt
unfolding validate_public_key
mac_key_ok = refl

pairing_round_trip_example :
    (u : Identity) × (complete_pairing keys mac "device-1" "cred-1" 2 opened_tables
      ≡ (ok issued, u))
    × (get_credential "cred-1" u
        ≡ some (record {
          credential_id = "cred-1";
          device_id = "device-1";
          family_id = "family";
          child_id = "ana";
          public_key = "key-1";
          status = active;
          expires_at = 7776000000002;
        }))
pairing_round_trip_example =
    pairing_round_trip keys "family" "ana" "pair-1" "ABCD" "2345" "ABCD-2345" 0 empty opened_tables
      opened_run mac "device-1" "cred-1" 2 refl refl mac_key_ok (omega arith) new

abbrev externals : Externals
externals = record {
  fullmatch = λ p s. true;
  split_once = λ s. some ("GuardianDevice", "cred-1");
  to_int = λ s. 100;
  to_str = λ n. "100";
  upper = λ s. s;
  body_digest = λ s. s;
  canonicalize_target = λ s. some s;
  verify = λ k c s. true;
}

abbrev request : DeviceRequest
request = record {
  method = "GET";
  target = "/api";
  body = "digest";
  headers = record {
    authorization = some "GuardianDevice cred-1";
    protocol_version = some "1.0";
    timestamp = some "100";
    nonce = some "nonce-1";
    content_sha256 = some "digest";
    signature = some "signature";
  };
}

-- Two paired devices, the second of which is then revoked.
abbrev two_devices : Identity
two_devices = record paired_tables {
  devices = record paired_device { id = "device-2" } ∷ paired_device ∷ [];
  credentials =
      record credential { credential_id = "cred-2"; device_id = "device-2"; public_key = "key-2" }
      ∷ credential
      ∷ [];
}

abbrev one_revoked : Identity
one_revoked = record paired_tables {
  devices =
      record paired_device { id = "device-2"; lifecycle_status = withdrawn } ∷ paired_device ∷ [];
  credentials =
      record credential {
        credential_id = "cred-2";
        device_id = "device-2";
        public_key = "key-2";
        status = revoked;
        revoked_at = some 9;
      }
      ∷ credential
      ∷ [];
}

distinct :
    (id : String)
    → ((("device-1" == id) && ("device-2" == id)) ≡ false)
      × ((("cred-1" == id) && ("cred-2" == id)) ≡ false)
distinct id = (apart "device-1" "device-2" id refl, apart "cred-1" "cred-2" id refl)

two_devices-IsSound : IsSound two_devices
unfolding count_where
two_devices-IsSound = record {
  devices_once = λ id. ground (arith, distinct id);
  credentials_once = λ id. ground (arith, distinct id);
  known = (refl, (refl, tt));
  single = λ id. ground (arith, distinct id);
}

revoked_run : revoke_device "family" "device-2" 9 two_devices ≡ ok one_revoked
unfolding revoke_device revoke_rows update_where
revoked_run = refl

authenticated_run :
    (authenticate externals
      (λ id. get_credential id (run keys (revoke "family" "device-9" 10 ∷ []) one_revoked))
      request
      100000000
      100000000
      []).0
    ≡ ok principal
unfolding run step revoke_device get_credential authenticate check_request parse_authorization
    check_credential signed_headers check_signed
authenticated_run = refl

revoked_forever_example : principal.device_id ≢ "device-2"
revoked_forever_example =
    revoked_forever keys externals "family" "device-2" 9 (revoke "family" "device-9" 10 ∷ [])
      request 100000000 100000000 [] principal two_devices one_revoked two_devices-IsSound
      revoked_run authenticated_run
