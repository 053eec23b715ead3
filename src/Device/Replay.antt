-- ===== src/Device/Replay.antt =====
-- Replays of a request that guardian_core/device_protocol.py has accepted.
use hackaton_open_ai.Prelude.{
  ℕ, ◌+◌, ◌*◌, ◌/◌, ◌≤◌, ◌<◌, ◌≡◌, String, true, false, Option, ok, err, List, [], ◌∷◌, All, Result,
  Result-cases, Option-cases, inl, inr, arith, string_eq, subst, sym,
}
use hackaton_open_ai.Device.Nonces.{
  NonceRow, consume, holds, holds-consume, consume-stale, consume-holds,
}
use hackaton_open_ai.Device.{
  Externals, DeviceRequest, CredentialRecord, DevicePrincipal, Signed, DeviceAuthError,
  replay_detected, second, max_clock_skew_seconds, check_credential, check_signed, check_request,
  authenticate, canonical_request, distance,
}
use hackaton_open_ai.Device.Checks.{stages}

-- A request with the clock as the authenticator and the nonce store would read it.
pub record Attempt : Type 0 where
  pub request : DeviceRequest
  pub now : ℕ
  pub later : ℕ

module _ (x : Externals) (credentials : String → Option CredentialRecord) where
  abbrev attempt : Attempt → List NonceRow → Result DeviceAuthError DevicePrincipal × List NonceRow
  attempt a nonces = authenticate x credentials a.request a.now a.later nonces

  -- The nonces after a sequence of requests.
  unfoldable pub serve : List Attempt → List NonceRow → List NonceRow
  serve [] nonces = nonces
  serve (a ∷ attempts) nonces = serve attempts (attempt a nonces).1

  holds-attempt :
      (credential nonce : String) (until : ℕ) (a : Attempt) (nonces : List NonceRow)
      → a.later ≤ until
      → holds credential nonce until nonces ≡ true
      → holds credential nonce until (attempt a nonces).1 ≡ true
  unfolding authenticate
  holds-attempt credential nonce until a nonces below h =
      elim (Result-cases (check_request x credentials a.request a.now)) [
        | inl (e, r) ↦ ground (arith, r, h)
        | inr ((id, c, s), r) ↦
            let kept =
              holds-consume credential nonce id s.nonce until
                ((s.timestamp + max_clock_skew_seconds) * second) a.later nonces below h in
            ground (arith, r, kept)
      ]

  holds-serve :
      (credential nonce : String) (until : ℕ) (attempts : List Attempt) (nonces : List NonceRow)
      → All (λ a. a.later ≤ until) attempts
      → holds credential nonce until nonces ≡ true
      → holds credential nonce until (serve attempts nonces) ≡ true
  unfolding serve
  holds-serve credential nonce until [] nonces all h = h
  holds-serve credential nonce until (a ∷ attempts) nonces all h =
      holds-serve credential nonce until attempts (attempt a nonces).1 all.1
        (holds-attempt credential nonce until a nonces all.0 h)

  accepted_holds :
      (a : Attempt) (nonces : List NonceRow) (id : String) (c : CredentialRecord) (s : Signed)
      (p : DevicePrincipal) (until : ℕ)
      → check_request x credentials a.request a.now ≡ ok (id, c, s)
      → (attempt a nonces).0 ≡ ok p
      → until < (s.timestamp + max_clock_skew_seconds) * second
      → holds id s.nonce until (attempt a nonces).1 ≡ true
  unfolding authenticate
  accepted_holds a nonces id c s p until r h below =
      let fresh : (consume id s.nonce ((s.timestamp + max_clock_skew_seconds) * second) a.later
            nonces).0
          ≡ true =
        ground (arith, r) in
      ground (
        arith,
        r,
        fresh,
        consume-holds id s.nonce until ((s.timestamp + max_clock_skew_seconds) * second) a.later
            nonces below fresh,
      )

  refused :
      (a : Attempt) (rows : List NonceRow) (id : String) (d : CredentialRecord) (r : Signed)
      → check_request x credentials a.request a.now ≡ ok (id, d, r)
      → (consume id r.nonce ((r.timestamp + max_clock_skew_seconds) * second) a.later rows).0
        ≡ false
      → (attempt a rows).0 ≡ err replay_detected
  unfolding authenticate
  refused a rows id d r h stale = ground (arith, h, stale)

  -- After a request was accepted, and after any further requests, a request with the same credential
  -- and nonce that passes the checks is refused as a replay, as long as the nonce store has read times
  -- up to a moment before the first request's timestamp plus 120 seconds.
  pub no_replay :
      (first second_try : Attempt) (between : List Attempt) (nonces : List NonceRow) (id : String)
      (c d : CredentialRecord) (s r : Signed) (p : DevicePrincipal) (until : ℕ)
      → check_request x credentials first.request first.now ≡ ok (id, c, s)
      → (authenticate x credentials first.request first.now first.later nonces).0 ≡ ok p
      → until < (s.timestamp + max_clock_skew_seconds) * second
      → All (λ a. a.later ≤ until) between
      → check_request x credentials second_try.request second_try.now ≡ ok (id, d, r)
      → r.nonce ≡ s.nonce
      → second_try.later ≤ until
      → (authenticate x credentials second_try.request second_try.now second_try.later (
          serve between
            (authenticate x credentials first.request first.now first.later nonces).1)).0
        ≡ err replay_detected
  no_replay first second_try between nonces id c d s r p until h accepted below all h' same late =
      let held =
        holds-serve id s.nonce until between (attempt first nonces).1 all
          (accepted_holds first nonces id c s p until h accepted below) in
      refused second_try (serve between (attempt first nonces).1) id d r h' (
        subst
          (λ n.
            (consume id n ((r.timestamp + max_clock_skew_seconds) * second) second_try.later
              (serve between (attempt first nonces).1)).0
            ≡ false)
          (sym same)
          (consume-stale id s.nonce until ((r.timestamp + max_clock_skew_seconds) * second)
            second_try.later (serve between (attempt first nonces).1) late held))

  credential_again :
      (q : DeviceRequest) (now now' : ℕ) (c : CredentialRecord)
      → check_credential x q.headers c now ≡ ok tt
      → now' < c.expires_at
      → check_credential x q.headers c now' ≡ ok tt
  unfolding check_credential
  credential_again q now now' c h alive = elim (Option-cases q.headers.protocol_version) [
    | inl e ↦ absurd (ground (arith, e))
    | inr (v, e) ↦ ground (arith, e)
  ]

  signed_again :
      (q : DeviceRequest) (now now' : ℕ) (id : String) (c : CredentialRecord) (s : Signed)
      → check_signed x q c id s now ≡ ok tt
      → distance (now' / second) s.timestamp ≤ max_clock_skew_seconds
      → check_signed x q c id s now' ≡ ok tt
  unfolding check_signed
  signed_again q now now' id c s h recent = elim (Option-cases (canonical_request x q s id)) [
    | inl e ↦ absurd (ground (arith, e))
    | inr (text, e) ↦ ground (arith, e)
  ]

  -- The checks of a request that has passed them pass again while its credential is not expired and
  -- its timestamp is within 120 seconds of the clock.
  checks_again :
      (q : DeviceRequest) (now now' : ℕ) (id : String) (c : CredentialRecord) (s : Signed)
      → check_request x credentials q now ≡ ok (id, c, s)
      → now' < c.expires_at
      → distance (now' / second) s.timestamp ≤ max_clock_skew_seconds
      → check_request x credentials q now' ≡ ok (id, c, s)
  unfolding check_request
  checks_again q now now' id c s h alive recent =
      let (a, k, v, w, y) = stages x credentials q now id c s h in
      ground (
        arith,
        a,
        k,
        w,
        credential_again q now now' c v alive,
        signed_again q now now' id c s y recent,
      )

  -- A request is accepted on an empty table of nonces. The very same request is accepted once more when
  -- the clock has reached its timestamp plus 120 seconds, and not yet plus 121, while its credential
  -- is not expired: it still counts as recent, and its nonce has been deleted.
  pub replayed_at_expiry :
      (q : DeviceRequest) (now later now' : ℕ) (id : String) (c : CredentialRecord) (s : Signed)
      (p : DevicePrincipal)
      → check_request x credentials q now ≡ ok (id, c, s)
      → (authenticate x credentials q now later []).0 ≡ ok p
      → (s.timestamp + max_clock_skew_seconds) * second ≤ now'
      → now' < (s.timestamp + max_clock_skew_seconds + 1) * second
      → now' < c.expires_at
      → (authenticate x credentials q now' now' (authenticate x credentials q now later []).1).0
        ≡ ok p
  unfolding authenticate consume
  replayed_at_expiry q now later now' id c s p h accepted from to alive =
      let same : now' / second ≡ s.timestamp + max_clock_skew_seconds = omega (arith, from, to) in
      let again = checks_again q now now' id c s h alive (omega (arith, same)) in
      ground (arith, h, again)
