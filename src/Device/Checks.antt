-- ===== src/Device/Checks.antt =====
-- What a request that guardian_core/device_protocol.py accepts has shown.
use hackaton_open_ai.Prelude.{
  ℕ, ◌/◌, ◌≤◌, ◌<◌, ◌≡◌, String, true, false, Option, some, ok, List, Result-cases, Option-cases,
  inl, inr, arith, eq_iff, string_eq,
}
use hackaton_open_ai.Device.Nonces.{NonceRow}
use hackaton_open_ai.Device.{
  Externals, DeviceRequest, CredentialRecord, DevicePrincipal, Signed, is_revoked, distance, second,
  max_clock_skew_seconds, canonical_request, parse_authorization, check_credential, signed_headers,
  check_signed, check_request, authenticate,
}

module _ (x : Externals) (credentials : String → Option CredentialRecord) (q : DeviceRequest)
    (now : ℕ) where
  -- The credential is known, not revoked and not expired; the timestamp is within 120 seconds of the
  -- clock; the digest is the body's; and the signature is valid, under the credential's key, for the
  -- request's method, target, timestamp, nonce, digest and credential.
  pub record Authentic (credential_id : String) (c : CredentialRecord) (s : Signed) : Type 0 where
    pub known : credentials credential_id ≡ some c
    pub unrevoked : is_revoked c.status ≡ false
    pub unexpired : now < c.expires_at
    pub recent : distance (now / second) s.timestamp ≤ max_clock_skew_seconds
    pub digest : s.body_digest ≡ x.body_digest q.body
    pub canonical : String
    pub covers : canonical_request x q s credential_id ≡ some canonical
    pub signed : x.verify c.public_key canonical s.signature ≡ true

  credential_checked :
      (c : CredentialRecord)
      → check_credential x q.headers c now ≡ ok tt
      → (is_revoked c.status ≡ false) × (now < c.expires_at)
  unfolding check_credential
  credential_checked c h = elim (Option-cases q.headers.protocol_version) [
    | inl e ↦ absurd (ground (arith, e))
    | inr (v, e) ↦ ground (arith, e)
  ]

  signed_checked :
      (credential_id : String) (c : CredentialRecord) (s : Signed)
      → check_signed x q c credential_id s now ≡ ok tt
      → (distance (now / second) s.timestamp ≤ max_clock_skew_seconds)
        × (s.body_digest ≡ x.body_digest q.body)
        × ((canonical : String) × (canonical_request x q s credential_id ≡ some canonical)
            × (x.verify c.public_key canonical s.signature ≡ true))
  unfolding check_signed
  signed_checked credential_id c s h = elim (Option-cases (canonical_request x q s credential_id)) [
    | inl e ↦ absurd (ground (arith, e))
    | inr (text, e) ↦ (
      ground arith,
      ground (arith, eq_iff s.body_digest (x.body_digest q.body)),
      (text, e, ground (arith, e)),
    )
  ]

  pub stages :
      (credential_id : String) (c : CredentialRecord) (s : Signed)
      → check_request x credentials q now ≡ ok (credential_id, c, s)
      → (parse_authorization x q.headers.authorization ≡ ok credential_id)
        × (credentials credential_id ≡ some c)
        × (check_credential x q.headers c now ≡ ok tt)
        × (signed_headers x q.headers ≡ ok s)
        × (check_signed x q c credential_id s now ≡ ok tt)
  unfolding check_request
  stages credential_id c s h = elim (Result-cases (parse_authorization x q.headers.authorization)) [
    | inl (e, p) ↦ absurd (ground (arith, p))
    | inr (id, p) ↦ elim (Option-cases (credentials id)) [
      | inl k ↦ absurd (ground (arith, p, k))
      | inr (c', k) ↦ elim (Result-cases (check_credential x q.headers c' now)) [
        | inl (e, v) ↦ absurd (ground (arith, p, k, v))
        | inr (u, v) ↦ elim (Result-cases (signed_headers x q.headers)) [
          | inl (e, w) ↦ absurd (ground (arith, p, k, v, w))
          | inr (s', w) ↦ elim (Result-cases (check_signed x q c' id s' now)) [
            | inl (e, y) ↦ absurd (ground (arith, p, k, v, w, y))
            | inr (u', y) ↦ ground (arith, p, k, v, w, y)
          ]
        ]
      ]
    ]
  ]

  pub check_request-Authentic :
      (credential_id : String) (c : CredentialRecord) (s : Signed)
      → check_request x credentials q now ≡ ok (credential_id, c, s)
      → Authentic credential_id c s
  check_request-Authentic credential_id c s h =
      let (a, k, v, w, y) = stages credential_id c s h in
      let (unrevoked, unexpired) = credential_checked c v in
      let (recent, digest, (text, covers, valid)) = signed_checked credential_id c s y in
      record {
        known = k;
        unrevoked = unrevoked;
        unexpired = unexpired;
        recent = recent;
        digest = digest;
        canonical = text;
        covers = covers;
        signed = valid;
      }

  pub authenticate-Authentic :
      (later : ℕ) (nonces : List NonceRow) (p : DevicePrincipal)
      → (authenticate x credentials q now later nonces).0 ≡ ok p
      → (c : CredentialRecord) × (s : Signed) × Authentic p.credential_id c s
        × (p.device_id ≡ c.device_id)
        × (p.family_id ≡ c.family_id)
        × (p.child_id ≡ c.child_id)
  unfolding authenticate
  authenticate-Authentic later nonces p h =
      elim (Result-cases (check_request x credentials q now)) [
        | inl (e, r) ↦ absurd (ground (arith, r))
        | inr ((id, c, s), r) ↦
            let own : p.credential_id ≡ id = ground (arith, r) in
            (
              c,
              s,
              check_request-Authentic p.credential_id c s (ground (arith, r, own)),
              ground (arith, r),
              ground (arith, r),
              ground (arith, r),
            )
      ]
