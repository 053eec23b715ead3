-- ===== src/Device/Pairing/Completed.antt =====
-- What a pairing that succeeded has checked and written.
use hackaton_open_ai.Prelude.{
  ℕ, ◌≡◌, String, true, false, not, ◌&&◌, ◌||◌, ◌∷◌, find, any, ◌==◌, string_eq, arith, Bool-cases,
  Option-cases, Result-cases, inl, inr, ok, some,
}
use hackaton_open_ai.Store.Where.{update_where}
use hackaton_open_ai.Device.Pairing.{
  Identity, Challenge, PairingConfirmation, PairingExternals, DeviceCredentialIssued, is_set,
  validate_public_key, insert_device, insert_credential, upsert_installation, revoke_rows,
}
use hackaton_open_ai.Device.Pairing.Complete.{
  complete_pairing, confirm, is_invalid, consume_challenge, pairing_digest, replace_previous, pair,
  paired_device, paired_credential, paired_installation,
}

abbrev pub paired_tables :
    Challenge → PairingConfirmation → String → String → ℕ → Identity → Identity
paired_tables c q device_id credential_id now s = record s {
  devices = paired_device c q device_id now ∷ s.devices;
  credentials = paired_credential c q.public_key device_id credential_id now ∷ s.credentials;
  installations = upsert_installation (paired_installation q device_id now) s.installations;
  challenges =
      update_where (λ r. (r.id == q.challenge_id) && not (is_set r.consumed_at))
        (consume_challenge now) s.challenges;
}

pub record IsPaired (x : PairingExternals) (q : PairingConfirmation)
    (device_id credential_id : String) (now : ℕ) (issued : DeviceCredentialIssued) (s t : Identity)
    : Type 0 where
  pub challenge : Challenge
  pub replaced : Identity
  pub at : find (λ (r : Challenge). r.id == q.challenge_id) s.challenges ≡ some challenge
  pub open_still : is_invalid now challenge ≡ false
  pub code : (challenge.code_digest == pairing_digest x q.challenge_id q.code) ≡ true
  pub replacing : replace_previous challenge q.installation_id now s ≡ ok replaced
  pub new_device : any (λ r. r.id == device_id) replaced.devices ≡ false
  pub tables : t ≡ paired_tables challenge q device_id credential_id now replaced
  pub credential : issued.credential_id ≡ credential_id
  pub device : issued.device_id ≡ device_id

pair_lem :
    (c : Challenge) (q : PairingConfirmation) (device_id credential_id : String) (now : ℕ)
    (s t : Identity)
    → pair c q device_id credential_id now s ≡ ok t
    → (any (λ r. r.id == device_id) s.devices ≡ false)
      × (t ≡ paired_tables c q device_id credential_id now s)
unfolding pair insert_device insert_credential
pair_lem c q device_id credential_id now s t h =
    elim (Bool-cases (any (λ r. r.id == device_id) s.devices)) [
      | inl d ↦ absurd (ground (arith, d, h))
      | inr d ↦
          elim (Bool-cases (
            any (λ r. (r.credential_id == credential_id) || (r.public_key == q.public_key))
              s.credentials)) [
                | inl e ↦ absurd (ground (arith, d, e, h))
                | inr e ↦ (d, ground (arith, d, e, h))
              ]
    ]

module _ (x : PairingExternals) (q : PairingConfirmation) (device_id credential_id : String)
    (now : ℕ) (issued : DeviceCredentialIssued) (s t : Identity) where
  confirm_lem :
      (c : Challenge)
      → find (λ (r : Challenge). r.id == q.challenge_id) s.challenges ≡ some c
      → confirm x c q device_id credential_id now s ≡ (ok issued, t)
      → IsPaired x q device_id credential_id now issued s t
  unfolding confirm
  confirm_lem c at h = elim (Bool-cases (is_invalid now c)) [
    | inl i ↦ absurd (ground (arith, i, h))
    | inr i ↦ elim (Bool-cases (c.code_digest == pairing_digest x q.challenge_id q.code)) [
      | inr w ↦ absurd (ground (arith, i, w, h))
      | inl w ↦ elim (Result-cases (replace_previous c q.installation_id now s)) [
        | inl (e, r) ↦ absurd (ground (arith, i, w, r, h))
        | inr (replaced, r) ↦ elim (Result-cases (pair c q device_id credential_id now replaced)) [
          | inl (e, p) ↦ absurd (ground (arith, i, w, r, p, h))
          | inr (u, p) ↦
              let (free, written) = pair_lem c q device_id credential_id now replaced u p in
              record {
                challenge = c;
                replaced = replaced;
                at = at;
                open_still = i;
                code = w;
                replacing = r;
                new_device = free;
                tables = ground (arith, i, w, r, p, h, written);
                credential = ground (arith, i, w, r, p, h);
                device = ground (arith, i, w, r, p, h);
              }
        ]
      ]
    ]
  ]

  pub complete_pairing_lem :
      complete_pairing x q device_id credential_id now s ≡ (ok issued, t)
      → IsPaired x q device_id credential_id now issued s t
  unfolding complete_pairing
  complete_pairing_lem h = elim (Result-cases (validate_public_key x q.public_key)) [
    | inl (e, v) ↦ absurd (ground (arith, v, h))
    | inr (done, v) ↦
        elim (Option-cases (find (λ (r : Challenge). r.id == q.challenge_id) s.challenges)) [
          | inl f ↦ absurd (ground (arith, v, f, h))
          | inr (c, f) ↦ confirm_lem c f (ground (arith, v, f, h))
        ]
  ]

-- A replacement leaves the challenges.
pub replaced_challenges :
    (c : Challenge) (installation : String) (now : ℕ) (s t : Identity)
    → replace_previous c installation now s ≡ ok t
    → t.challenges ≡ s.challenges
unfolding replace_previous revoke_rows
replaced_challenges c installation now s t h = ground (arith, h)
