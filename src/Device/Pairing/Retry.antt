-- ===== src/Device/Pairing/Retry.antt =====
-- `rotate_credential` of api/device_identity.py, repeated under the same idempotency key.
use hackaton_open_ai.Prelude.{
  ℕ, ◌≡◌, refl, String, true, ◌==◌, string_eq, nat_beq, sym, subst, ◌∙◌, if◌then◌else◌, ==_cases,
  eq_iff, arith, ==_refl, Bool-cases, Option-cases, Result-cases, inl, inr, ok, err, some,
}
use hackaton_open_ai.Store.Where.{update_where, count_where}
use hackaton_open_ai.Device.{DevicePrincipal}
use hackaton_open_ai.Device.Pairing.{
  Identity, idempotency_conflict, Credential, PairingExternals, DeviceCredentialIssued,
  validate_public_key, insert_credential,
}
use hackaton_open_ai.Device.Pairing.Rotate.{
  rotate_credential, rotate_new, find_rotation, is_rotated, rotated_in, rotate_out,
}
use hackaton_open_ai.Device.Pairing.Changes.{has_credential}

-- The rotation that stands under the key in the tables.
record IsRotated (p : DevicePrincipal) (public_key key : String) (issued : DeviceCredentialIssued)
    (t : Identity) : Type 0 where
  pub credential : Credential
  pub at : find_rotation p.credential_id key t ≡ some credential
  pub same_key : (credential.public_key == public_key) ≡ true
  pub same_id : credential.credential_id ≡ issued.credential_id
  pub same_device : credential.device_id ≡ issued.device_id
  pub same_expiry : credential.expires_at ≡ issued.expires_at

module _ (p : DevicePrincipal) (public_key key new_id : String) (now : ℕ)
    (issued : DeviceCredentialIssued) (s t : Identity) where
  rotate_new-IsRotated :
      rotate_new p public_key key new_id now s ≡ ok (issued, t)
      → IsRotated p public_key key issued t
  unfolding rotate_new insert_credential find_rotation
  rotate_new-IsRotated h =
      let test = is_rotated p.credential_id in
      let new = rotated_in p public_key new_id now in
      elim (Bool-cases (nat_beq (count_where test s.credentials) 1)) [
        | inr n ↦ absurd (ground (arith, n, h))
        | inl n ↦
            elim (Bool-cases
              (has_credential new (update_where test (rotate_out now) s.credentials))) [
                | inl e ↦ absurd (ground (arith, n, e, h))
                | inr e ↦ record {
                  credential = new;
                  at =
                      ground (arith, n, e, h, ==_refl p.credential_id, ==_refl key, ==_refl new_id);
                  same_key = ==_refl public_key;
                  same_id = ground (arith, n, e, h);
                  same_device = ground (arith, n, e, h);
                  same_expiry = ground (arith, n, e, h);
                }
              ]
      ]

  rotate_credential-IsRotated :
      (x : PairingExternals)
      → rotate_credential x p public_key key new_id now s ≡ (ok issued, t)
      → IsRotated p public_key key issued t
  unfolding rotate_credential
  rotate_credential-IsRotated x h = elim (Result-cases (validate_public_key x public_key)) [
    | inl (e, v) ↦ absurd (ground (arith, v, h))
    | inr (done, v) ↦ elim (Option-cases (find_rotation p.credential_id key s)) [
      | inl f ↦ elim (Result-cases (rotate_new p public_key key new_id now s)) [
        | inl (e, r) ↦ absurd (ground (arith, v, f, r, h))
        | inr (made, r) ↦ rotate_new-IsRotated (r ∙ ground (arith, v, f, r, h))
      ]
      | inr (c, f) ↦ elim (Bool-cases (c.public_key == public_key)) [
        | inr k ↦ absurd (ground (arith, v, f, k, h))
        | inl k ↦ record {
          credential = c;
          at =
              let same : s ≡ t = ground (arith, v, f, k, h) in
              subst (λ u. find_rotation p.credential_id key u ≡ some c) same f;
          same_key = k;
          same_id = ground (arith, v, f, k, h);
          same_device = ground (arith, v, f, k, h);
          same_expiry = ground (arith, v, f, k, h);
        }
      ]
    ]
  ]

-- A rotation that succeeded, repeated under the same idempotency key with whatever new id and clock,
-- changes nothing: with the same public key it returns the same credential, device and expiry, and with
-- another valid key it raises a conflict.
pub rotate_retry :
    (x : PairingExternals) (p : DevicePrincipal) (public_key other key new_id next_id : String)
    (now later : ℕ) (issued : DeviceCredentialIssued) (s t : Identity)
    → rotate_credential x p public_key key new_id now s ≡ (ok issued, t)
    → validate_public_key x other ≡ ok tt
    → rotate_credential x p other key next_id later t
      ≡ (if other == public_key then ok issued else err idempotency_conflict, t)
unfolding rotate_credential
rotate_retry x p public_key other key new_id next_id now later issued s t done valid =
    let r = rotate_credential-IsRotated p public_key key new_id now issued s t x done in
    let held = (eq_iff r.credential.public_key public_key).0 r.same_key in
    elim (==_cases other public_key) [
      | inl (e, same) ↦
          rw (valid, rotate_credential, r.at, held, same, ==_refl public_key)
            (ground (arith, r.same_id, r.same_device, r.same_expiry))
      | inr (e, differ) ↦ elim (==_cases public_key other) [
        | inl (f, same) ↦ absurd (differ (sym same))
        | inr (f, other_way) ↦ rw (valid, rotate_credential, r.at, held, f, e) refl
      ]
    ]
