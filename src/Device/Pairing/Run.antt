-- ===== src/Device/Pairing/Run.antt =====
-- Sequences of calls of the pairing, revocation and rotation operations.
use hackaton_open_ai.Prelude.{ℕ, String, List, [], ◌∷◌, none, some, Result, ok, err}
use hackaton_open_ai.Device.{CredentialRecord, DevicePrincipal}
use hackaton_open_ai.Device.Pairing.{
  Identity, IdentityError, PairingConfirmation, PairingExternals, revoke_device, get_credential,
}
use hackaton_open_ai.Device.Pairing.Complete.{create_pairing_challenge, complete_pairing}
use hackaton_open_ai.Device.Pairing.Rotate.{rotate_credential}

-- One call, with what it would read. A rotation is by a principal that `authenticate` returned, which
-- has the ids of the credential that `get_credential` returned.
pub data Call : Type 0 where
  challenge : String → String → String → String → String → ℕ → Call
  complete : PairingConfirmation → String → String → ℕ → Call
  revoke : String → String → ℕ → Call
  rotate : String → String → String → String → ℕ → Call

abbrev pub principal_of : CredentialRecord → DevicePrincipal
principal_of c = record {
  credential_id = c.credential_id;
  device_id = c.device_id;
  family_id = c.family_id;
  child_id = c.child_id;
}

abbrev pub challenged : Result IdentityError (String × Identity) → Identity → Identity
challenged (ok (code, s')) s = s'
challenged (err e) s = s

abbrev pub revoked_in : Result IdentityError Identity → Identity → Identity
revoked_in (ok s') s = s'
revoked_in (err e) s = s

module _ (x : PairingExternals) where
  unfoldable pub step : Call → Identity → Identity
  step (challenge family child id front back now) s =
      challenged (create_pairing_challenge x family child id front back now s) s
  step (complete q device_id credential_id now) s =
      (complete_pairing x q device_id credential_id now s).1
  step (revoke family device now) s = revoked_in (revoke_device family device now s) s
  step (rotate id public_key key new_id now) s = elim (get_credential id s) [
    | none ↦ s
    | some c ↦ (rotate_credential x (principal_of c) public_key key new_id now s).1
  ]

  unfoldable pub run : List Call → Identity → Identity
  run [] s = s
  run (call ∷ calls) s = run calls (step call s)
