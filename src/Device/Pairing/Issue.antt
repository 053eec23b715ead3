-- ===== src/Device/Pairing/Issue.antt =====
-- The round trip of a pairing in api/device_identity.py: from the code that the guardian is shown to the
-- credential that the device holds.
use hackaton_open_ai.Prelude.{
  ℕ, ◌+◌, ◌<◌, ◌≡◌, refl, sym, ap, subst, String, true, false, ◌&&◌, ◌||◌, [], ◌∷◌, find, any,
  format, ◌==◌, string_eq, eq_iff, arith, ==_refl, Bool-cases, inl, inr, ok, none, some,
}
use hackaton_open_ai.Store.Tables.{ChildRow}
use hackaton_open_ai.Device.{active}
use hackaton_open_ai.Device.Pairing.{
  Identity, Challenge, PairingConfirmation, PairingExternals, DeviceCredentialIssued, pairing_ttl,
  credential_ttl, validate_public_key, insert_device, insert_credential, get_credential,
}
use hackaton_open_ai.Device.Pairing.Complete.{
  create_pairing_challenge, complete_pairing, confirm, is_invalid, pairing_digest, replace_previous,
  pair,
}
use hackaton_open_ai.Device.Pairing.Completed.{paired_tables}
use hackaton_open_ai.Device.Pairing.Single.{has_device}

-- What the device sends, and the ids that are drawn for it, are new to the tables.
pub record IsNew (q : PairingConfirmation) (device_id credential_id : String) (s : Identity)
    : Type 0 where
  pub device : has_device device_id s.devices ≡ false
  pub credential :
      any (λ r. (r.credential_id == credential_id) || (r.public_key == q.public_key)) s.credentials
      ≡ false
  pub installation : find (λ i. i.installation_id == q.installation_id) s.installations ≡ none

module _ (x : PairingExternals) (family child id front back code : String) (now : ℕ)
    (s t : Identity)
    (shown : create_pairing_challenge x family child id front back now s ≡ ok (code, t)) where
  abbrev opened_challenge : Challenge
  opened_challenge = record {
    id = id;
    family_id = family;
    child_id = child;
    code_digest = pairing_digest x id code;
    created_at = now;
    expires_at = now + pairing_ttl;
    consumed_at = none;
    failed_attempts = 0;
  }

  challenge_lem : t ≡ record s { challenges = opened_challenge ∷ s.challenges }
  unfolding create_pairing_challenge
  challenge_lem =
      elim (Bool-cases
        (any (λ (r : ChildRow). (r.family_id == family) && (r.id == child)) s.children)) [
          | inr c ↦ absurd (ground (arith, c, shown))
          | inl c ↦ elim (Bool-cases (any (λ (r : Challenge). r.id == id) s.challenges)) [
            | inl d ↦ absurd (ground (arith, c, d, shown))
            | inr d ↦
                let same : format (front ∷ "-" ∷ back ∷ []) ≡ code = ground (arith, c, d, shown) in
                subst
                  (λ k. t ≡ record s {
                    challenges =
                        record opened_challenge { code_digest = pairing_digest x id k }
                        ∷ s.challenges;
                  })
                  same (ground (arith, c, d, shown))
          ]
        ]

  module _ (q : PairingConfirmation) (device_id credential_id : String) (later : ℕ)
      (same_id : q.challenge_id ≡ id) (same_code : x.normalize q.code ≡ x.normalize code)
      (valid : validate_public_key x q.public_key ≡ ok tt) (soon : later < now + pairing_ttl)
      (new : IsNew q device_id credential_id s) where
    digest_lem : pairing_digest x q.challenge_id q.code ≡ pairing_digest x id code
    unfolding pairing_digest
    digest_lem = rw (same_id) (ap (λ k. x.hmac (format (id ∷ ":" ∷ k ∷ []))) same_code)

    -- The device enters the code that the guardian was shown, with or without its dash and in capitals
    -- or not, before the challenge expires and with ids, a key and an installation that are new. The
    -- pairing succeeds, and the credential that it returns is read as an active one of the challenge's
    -- family and child, with the device's key and a life of 90 days.
    pub pairing_round_trip :
        (u : Identity) × (complete_pairing x q device_id credential_id later t ≡ (
          ok (record {
            credential_id = credential_id;
            device_id = device_id;
            expires_at = later + credential_ttl;
          }),
          u,
        ))
        × (get_credential credential_id u
            ≡ some (record {
              credential_id = credential_id;
              device_id = device_id;
              family_id = family;
              child_id = child;
              public_key = q.public_key;
              status = active;
              expires_at = later + credential_ttl;
            }))
    unfolding complete_pairing confirm replace_previous pair insert_device insert_credential
        get_credential
    pairing_round_trip =
        let open_tables = record s { challenges = opened_challenge ∷ s.challenges } in
        let issued : DeviceCredentialIssued = record {
          credential_id = credential_id;
          device_id = device_id;
          expires_at = later + credential_ttl;
        } in
        let paired = paired_tables opened_challenge q device_id credential_id later open_tables in
        let found : (opened_challenge.id == q.challenge_id) ≡ true =
          (eq_iff id q.challenge_id).1 (sym same_id) in
        let right : (opened_challenge.code_digest == pairing_digest x q.challenge_id q.code)
            ≡ true =
          (eq_iff _ _).1 (sym digest_lem) in
        let invalid : is_invalid later opened_challenge ≡ false = ground (arith, soon) in
        let steps : complete_pairing x q device_id credential_id later open_tables
            ≡ (ok issued, paired) =
          rw
            (
              valid, complete_pairing, found, confirm, invalid, right, new.installation,
              replace_previous, new.device, pair, insert_device, new.credential, insert_credential,
            )
            refl in
        (
          paired_tables opened_challenge q device_id credential_id later open_tables,
          subst (λ k. complete_pairing x q device_id credential_id later k ≡ (ok issued, paired))
              (sym challenge_lem) steps,
          ground (arith, ==_refl credential_id, ==_refl device_id),
        )
