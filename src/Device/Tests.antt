-- ===== src/Device/Tests.antt =====
-- One signed request at second 100, again at second 150, and again at second 220.
use hackaton_open_ai.Prelude.{◌≡◌, refl, String, Option, true, some, ok, err, [], ◌∷◌, arith}
use hackaton_open_ai.Device.{
  Externals, DeviceRequest, CredentialRecord, DevicePrincipal, Signed, replay_detected, active,
  parse_authorization, check_credential, signed_headers, check_signed, check_request, authenticate,
}
use hackaton_open_ai.Device.Replay.{Attempt, serve, no_replay, replayed_at_expiry}

abbrev externals : Externals
externals = record {
  fullmatch = λ p s. true;
  split_once = λ s. some ("GuardianDevice", "cred-1");
  to_int = λ s. 100;
  to_str = λ n. "100";
  upper = λ s. s;
  body_digest = λ s. s;
  canonicalize_target = λ s. some s;
  verify = λ k c s. true;
}

abbrev credential : CredentialRecord
credential = record {
  credential_id = "cred-1";
  device_id = "mac";
  family_id = "family";
  child_id = "child";
  public_key = "key";
  status = active;
  expires_at = 1000000000;
}

abbrev credentials : String → Option CredentialRecord
credentials id = some credential

abbrev request : DeviceRequest
request = record {
  method = "GET";
  target = "/api";
  body = "digest";
  headers = record {
    authorization = some "GuardianDevice cred-1";
    protocol_version = some "1.0";
    timestamp = some "100";
    nonce = some "nonce-1";
    content_sha256 = some "digest";
    signature = some "signature";
  };
}

abbrev signed : Signed
signed = record {
  timestamp = 100;
  nonce = "nonce-1";
  body_digest = "digest";
  signature = "signature";
}

abbrev principal : DevicePrincipal
principal = record {
  credential_id = "cred-1";
  device_id = "mac";
  family_id = "family";
  child_id = "child";
}

checked : check_request externals credentials request 100000000 ≡ ok ("cred-1", credential, signed)
unfolding check_request parse_authorization check_credential signed_headers check_signed
checked = refl

checked_later :
    check_request externals credentials request 150000000 ≡ ok ("cred-1", credential, signed)
unfolding check_request parse_authorization check_credential signed_headers check_signed
checked_later = refl

accepted : (authenticate externals credentials request 100000000 100000000 []).0 ≡ ok principal
unfolding authenticate check_request parse_authorization check_credential signed_headers
    check_signed
accepted = refl

abbrev first : Attempt
first = record { request = request; now = 100000000; later = 100000000 }

abbrev retry : Attempt
retry = record { request = request; now = 150000000; later = 150000000 }

no_replay_example :
    (authenticate externals credentials request 150000000 150000000 (
      serve externals credentials
        (retry ∷ [])
        (authenticate externals credentials request 100000000 100000000 []).1)).0
    ≡ err replay_detected
no_replay_example =
    no_replay externals credentials first retry (retry ∷ []) [] "cred-1" credential credential
      signed signed principal 200000000 checked accepted (omega arith) (omega arith, tt)
      checked_later refl (omega arith)

replayed_at_expiry_example :
    (authenticate externals credentials request 220000000 220000000
      (authenticate externals credentials request 100000000 100000000 []).1).0
    ≡ ok principal
replayed_at_expiry_example =
    replayed_at_expiry externals credentials request 100000000 100000000 220000000 "cred-1"
      credential signed principal checked accepted (omega arith) (omega arith) (omega arith)
