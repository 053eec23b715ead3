-- ===== src/Device.antt =====
-- guardian_core/device_protocol.py: the authentication of a signed device request, with the replay
-- protection of api/device_identity.py. Times are microseconds since the epoch.
pub mod Nonces
pub mod Commands
pub mod Delivery
pub mod Attempts
pub mod Pairing
pub mod Checks
pub mod Replay
mod Tests
mod Scenario
use Prim.Native.String
use hackaton_open_ai.Prelude.{
  ℕ, ◌+◌, ◌-◌, ◌*◌, ◌/◌, String, Bool, true, false, not, ◌&&◌, ◌||◌, Option, none, some, List, [],
  ◌∷◌, format, ltb, leb, ◌==◌, string_eq, if◌then◌else◌, Result, ok, err, ◌>>=◌, ◌>>◌, raise_if,
  or_raise,
}
use hackaton_open_ai.Device.Nonces.{NonceRow, consume}

pub data DeviceCredentialStatus : Type 0 where
  active rotating revoked : DeviceCredentialStatus

pub data DeviceAuthError : Type 0 where
  invalid_credential unsupported_protocol credential_revoked credential_expired malformed_request
        stale_request content_digest_mismatch invalid_target invalid_signature replay_detected :
      DeviceAuthError

pub record CredentialRecord : Type 0 where
  pub credential_id : String
  pub device_id : String
  pub family_id : String
  pub child_id : String
  pub public_key : String
  pub status : DeviceCredentialStatus
  pub expires_at : ℕ

pub record DevicePrincipal : Type 0 where
  pub credential_id : String
  pub device_id : String
  pub family_id : String
  pub child_id : String

-- The headers that are read, a missing one being `none`.
pub record Headers : Type 0 where
  pub authorization : Option String
  pub protocol_version : Option String
  pub timestamp : Option String
  pub nonce : Option String
  pub content_sha256 : Option String
  pub signature : Option String

pub record DeviceRequest : Type 0 where
  pub method : String
  pub target : String
  pub body : String
  pub headers : Headers

pub data Pattern : Type 0 where
  credential_id_pattern nonce_pattern body_digest_pattern signature_pattern timestamp_pattern :
      Pattern

-- What the code calls: `fullmatch` of its patterns, `split(" ", 1)`, `int`, `str`, `upper`, SHA-256, the
-- canonical target, which may be refused, and the verification of an Ed25519 signature.
pub record Externals : Type 0 where
  pub fullmatch : Pattern → String → Bool
  pub split_once : String → Option (String × String)
  pub to_int : String → ℕ
  pub to_str : ℕ → String
  pub upper : String → String
  pub body_digest : String → String
  pub canonicalize_target : String → Option String
  pub verify : String → String → String → Bool

abbrev pub second : ℕ
second = 1000000

abbrev pub max_clock_skew_seconds : ℕ
max_clock_skew_seconds = 120

abbrev pub distance : ℕ → ℕ → ℕ
distance a b = (a - b) + (b - a)

abbrev pub is_revoked : DeviceCredentialStatus → Bool
is_revoked active = false
is_revoked rotating = false
is_revoked revoked = true

-- The four headers that the signature covers, once they are there and well formed.
pub record Signed : Type 0 where
  pub timestamp : ℕ
  pub nonce : String
  pub body_digest : String
  pub signature : String

module _ (x : Externals) where
  unfoldable pub canonical_request : DeviceRequest → Signed → String → Option String
  canonical_request q s credential_id = elim (x.canonicalize_target q.target) [
    | none ↦ none
    | some target ↦ some (
        format (
          "GUARDIAN-DEVICE-REQUEST-V1"
          ∷ "\n"
          ∷ x.upper q.method
          ∷ "\n"
          ∷ target
          ∷ "\n"
          ∷ x.to_str s.timestamp
          ∷ "\n"
          ∷ s.nonce
          ∷ "\n"
          ∷ s.body_digest
          ∷ "\n"
          ∷ credential_id
          ∷ []))
  ]

  -- From the Authorization header to the credential's id.
  unfoldable pub parse_authorization : Option String → Result DeviceAuthError String
  parse_authorization header = do
    authorization ← or_raise header invalid_credential
    (scheme, credential_id) ← or_raise (x.split_once authorization) invalid_credential
    raise_if
        (not (scheme == "GuardianDevice")
          || not (x.fullmatch credential_id_pattern credential_id)
          || ltb 96 (String.count authorization))
        invalid_credential
    ok credential_id

  -- The version of the protocol, and the state of the credential.
  unfoldable pub check_credential :
      Headers → CredentialRecord → ℕ → Result DeviceAuthError (Unit {0})
  check_credential h c now = do
    version ← or_raise h.protocol_version unsupported_protocol
    raise_if (not (version == "1.0")) unsupported_protocol
    raise_if (is_revoked c.status) credential_revoked
    raise_if (leb c.expires_at now) credential_expired

  unfoldable pub signed_headers : Headers → Result DeviceAuthError Signed
  signed_headers h = do
    timestamp ← or_raise h.timestamp malformed_request
    nonce ← or_raise h.nonce malformed_request
    digest ← or_raise h.content_sha256 malformed_request
    signature ← or_raise h.signature malformed_request
    raise_if
        (not (x.fullmatch timestamp_pattern timestamp)
          || not (x.fullmatch nonce_pattern nonce)
          || not (x.fullmatch body_digest_pattern digest)
          || not (x.fullmatch signature_pattern signature))
        malformed_request
    ok (record {
      timestamp = x.to_int timestamp;
      nonce = nonce;
      body_digest = digest;
      signature = signature;
    })

  -- The checks of the clock, the body and the signature.
  unfoldable pub check_signed :
      DeviceRequest → CredentialRecord → String → Signed → ℕ → Result DeviceAuthError (Unit {0})
  unfolding canonical_request
  check_signed q c credential_id s now = do
    raise_if (ltb max_clock_skew_seconds (distance (now / second) s.timestamp)) stale_request
    raise_if (not (s.body_digest == x.body_digest q.body)) content_digest_mismatch
    canonical ← or_raise (canonical_request q s credential_id) invalid_target
    raise_if (not (x.verify c.public_key canonical s.signature)) invalid_signature

  -- The request's checks before the nonce is consumed: the credential and the signed headers.
  unfoldable pub check_request :
      (String → Option CredentialRecord)
      → DeviceRequest
      → ℕ
      → Result DeviceAuthError (String × CredentialRecord × Signed)
  check_request credentials q now = do
    credential_id ← parse_authorization q.headers.authorization
    c ← or_raise (credentials credential_id) invalid_credential
    check_credential q.headers c now
    s ← signed_headers q.headers
    check_signed q c credential_id s now
    ok (credential_id, c, s)

  -- `authenticate`, with the clock read by the authenticator and then by the nonce store.
  unfoldable pub authenticate :
      (String → Option CredentialRecord)
      → DeviceRequest
      → ℕ
      → ℕ
      → List NonceRow
      → Result DeviceAuthError DevicePrincipal × List NonceRow
  unfolding consume
  authenticate credentials q now later nonces = elim (check_request credentials q now) [
    | err e ↦ (err e, nonces)
    | ok (credential_id, c, s) ↦
        let (fresh, rest) =
          consume credential_id s.nonce ((s.timestamp + max_clock_skew_seconds) * second) later
            nonces in
        if not fresh then (err replay_detected, rest) else (
          ok (record {
            credential_id = credential_id;
            device_id = c.device_id;
            family_id = c.family_id;
            child_id = c.child_id;
          }),
          rest,
        )
  ]
