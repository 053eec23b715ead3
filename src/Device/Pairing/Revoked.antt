-- ===== src/Device/Pairing/Revoked.antt =====
-- A revoked device in api/device_identity.py authenticates no request, ever again.
use hackaton_open_ai.Prelude.{
  ℕ, ◌≡◌, ◌≢◌, ◌∙◌, refl, sym, subst, String, Bool, true, true≢false, ◌&&◌, List, [], ◌∷◌, find,
  find-some, find_all, any, All, ◌==◌, string_eq, eq_iff, arith, Bool-cases, Option-cases, inl, inr,
  ok, some,
}
use hackaton_open_ai.Store.Where.{any-update_same, once_all, All-update_where, All-updated}
use hackaton_open_ai.Device.{
  CredentialRecord, DevicePrincipal, DeviceRequest, Externals, authenticate, is_revoked,
}
use hackaton_open_ai.Device.Nonces.{NonceRow}
use hackaton_open_ai.Device.Checks.{authenticate-Authentic}
use hackaton_open_ai.Device.Pairing.{
  Identity, PairedDevice, PairingExternals, is_withdrawn, revoke_rows, revoke_device, withdraw,
  get_credential,
}
use hackaton_open_ai.Device.Pairing.Single.{IsSound, has_device}
use hackaton_open_ai.Device.Pairing.Run.{Call, run}
use hackaton_open_ai.Device.Pairing.Changes.{
  Change, opened, refused, withdrawn_device, paired, rotated, run-keeps,
}

-- The device is there, and its lifecycle is over.
pub record IsWithdrawn (id : String) (s : Identity) : Type 0 where
  pub present : has_device id s.devices ≡ true
  pub over : All (λ d. (d.id == id) ≡ true → is_withdrawn d.lifecycle_status ≡ true) s.devices

module _ (id : String) where
  revoke_rows-IsWithdrawn :
      (family device : String) (now : ℕ) (s : Identity)
      → IsWithdrawn id s
      → IsWithdrawn id (revoke_rows family device now s)
  unfolding revoke_rows
  revoke_rows-IsWithdrawn family device now s v =
      let gone : PairedDevice → Bool = λ d. (d.family_id == family) && (d.id == device) in
      record {
        present = any-update_same (λ d. d.id == id) gone withdraw s.devices (λ r. refl) ∙ v.present;
        over =
            All-update_where (λ d. (d.id == id) ≡ true → is_withdrawn d.lifecycle_status ≡ true)
              gone withdraw s.devices (λ d h k t. refl) v.over;
      }

  Change-IsWithdrawn : (s t : Identity) → Change s t → IsWithdrawn id s → IsWithdrawn id t
  Change-IsWithdrawn s t (opened c new a b) v = record { present = v.present; over = v.over }
  Change-IsWithdrawn s t (refused other c at below) v = record {
    present = v.present;
    over = v.over;
  }
  Change-IsWithdrawn s t (withdrawn_device family device now) v =
      revoke_rows-IsWithdrawn family device now s v
  Change-IsWithdrawn s t (paired d c other now installations free new same) v = record {
    present = ground (arith, v.present);
    over = (
      λ h. absurd (
          cc (
            free,
            subst (λ k. has_device k s.devices ≡ true) (sym ((eq_iff d.id id).0 h)) v.present,
          )),
      v.over,
    );
  }
  Change-IsWithdrawn s t (rotated c other now found rotations at same named once new) v = record {
    present = v.present;
    over = v.over;
  }

  -- A credential of a withdrawn device is read as revoked.
  pub withdrawn-revoked :
      (s : Identity) (credential_id : String) (found : CredentialRecord)
      → IsWithdrawn id s
      → get_credential credential_id s ≡ some found
      → found.device_id ≡ id
      → is_revoked found.status ≡ true
  unfolding get_credential
  withdrawn-revoked s credential_id found v at on =
      elim (Option-cases (find (λ c. c.credential_id == credential_id) s.credentials)) [
        | inl e ↦ absurd (ground (arith, e, at))
        | inr (c, e) ↦ elim (Option-cases (find (λ d. d.id == c.device_id) s.devices)) [
          | inl f ↦ absurd (ground (arith, e, f, at))
          | inr (d, f) ↦
              let hit =
                (eq_iff d.id c.device_id).0 (find-some (λ d. d.id == c.device_id) s.devices d f) in
              let here : c.device_id ≡ id = ground (arith, e, f, at, on) in
              let over : is_withdrawn d.lifecycle_status ≡ true =
                find_all (λ d. (d.id == id) ≡ true → is_withdrawn d.lifecycle_status ≡ true)
                  (λ d. d.id == c.device_id) s.devices d v.over f
                  ((eq_iff d.id id).1 (hit ∙ here)) in
              ground (arith, e, f, at, over)
        ]
      ]

any_weaker :
    (family device : String) (devices : List PairedDevice)
    → any (λ d. (d.family_id == family) && (d.id == device)) devices ≡ true
    → has_device device devices ≡ true
any_weaker family device [] h = h
any_weaker family device (d ∷ devices) h = ground (arith, h, any_weaker family device devices)

-- A revocation that succeeds withdraws the device.
revoked-IsWithdrawn :
    (family device : String) (now : ℕ) (s t : Identity)
    → IsSound s
    → revoke_device family device now s ≡ ok t
    → IsWithdrawn device t
unfolding revoke_device revoke_rows
revoked-IsWithdrawn family device now s t v h =
    let gone : PairedDevice → Bool = λ d. (d.family_id == family) && (d.id == device) in
    elim (Bool-cases (any gone s.devices)) [
      | inr e ↦ absurd (ground (arith, e, h))
      | inl e ↦
          let same : revoke_rows family device now s ≡ t = ground (arith, e, h) in
          subst (IsWithdrawn device) same (record {
            present =
                any-update_same (λ d. d.id == device) gone withdraw s.devices (λ r. refl)
                ∙ any_weaker family device s.devices e;
            over =
                All-updated (λ d. (d.id == device) ≡ true → gone d ≡ true)
                  (λ d. (d.id == device) ≡ true → is_withdrawn d.lifecycle_status ≡ true) gone
                  withdraw s.devices (λ d g k i. refl) (λ d g k i. absurd (ground (arith, g, k i)))
                  (once_all (λ d. d.id == device) gone s.devices (λ d g. ground (arith, g))
                    (v.devices_once device) e);
          })
    ]

-- Once a device is revoked, no request is authenticated as it again, whatever calls follow the
-- revocation, whatever the request, the nonces and the clocks are: its credentials, those issued by
-- rotations included, are read as revoked.
pub revoked_forever :
    (y : PairingExternals) (x : Externals) (family device : String) (now : ℕ) (calls : List Call)
    (request : DeviceRequest) (at later : ℕ) (nonces : List NonceRow) (p : DevicePrincipal)
    (s t : Identity)
    → IsSound s
    → revoke_device family device now s ≡ ok t
    → (authenticate x (λ id. get_credential id (run y calls t)) request at later nonces).0 ≡ ok p
    → p.device_id ≢ device
revoked_forever y x family device now calls request at later nonces p s t v h done same =
    let (c, signed, authentic, on, _, _) =
      authenticate-Authentic x (λ id. get_credential id (run y calls t)) request at later nonces p
        done in
    let gone =
      run-keeps y (IsWithdrawn device) (Change-IsWithdrawn device) calls t
        (revoked-IsWithdrawn family device now s t v h) in
    true≢false (
      sym (
        withdrawn-revoked device (run y calls t) p.credential_id c gone authentic.known
          (sym on ∙ same))
      ∙ authentic.unrevoked)
