-- ===== src/Device/Pairing/Single.antt =====
-- The keys of the tables of api/device_identity.py, and the one active credential of each device.
use hackaton_open_ai.Prelude.{
  find-any, ℕ, ◌≤◌, ◌≡◌, ◌∙◌, refl, sym, subst, String, Bool, true, false, not, ◌&&◌, ◌||◌, some,
  List, [], ◌∷◌, find, find-some, any, All, All-map, ◌==◌, string_eq, eq_iff, arith, Bool-cases,
  Option-cases, inl, inr,
}
use hackaton_open_ai.Store.Where.{
  update_where, count_where, count_where-update_same, any-update_same, count_where-update_le,
  count_where-update_drop, count_where_none, once_all, All-update_where,
}
use hackaton_open_ai.Device.{CredentialRecord, is_revoked}
use hackaton_open_ai.Device.Pairing.{
  Identity, Credential, PairedDevice, PairingExternals, is_active, get_credential, revoke_rows,
  withdraw, revoke_credential,
}
use hackaton_open_ai.Device.Pairing.Rotate.{rotate_out, is_rotated}
use hackaton_open_ai.Device.Pairing.Run.{Call, run}
use hackaton_open_ai.Device.Pairing.Changes.{
  Change, opened, refused, withdrawn_device, paired, rotated, has_credential, run-keeps,
}

abbrev pub has_device : String → List PairedDevice → Bool
has_device id devices = any (λ d. d.id == id) devices

abbrev pub is_active_on : String → Credential → Bool
is_active_on device c = (c.device_id == device) && is_active c.status

-- The primary keys and the foreign key of the tables, and that a device has one active credential at
-- most.
pub record IsSound (s : Identity) : Type 0 where
  pub devices_once : (id : String) → count_where (λ d. d.id == id) s.devices ≤ 1
  pub credentials_once : (id : String) → count_where (λ c. c.credential_id == id) s.credentials ≤ 1
  pub known : All (λ c. has_device c.device_id s.devices ≡ true) s.credentials
  pub single : (device : String) → count_where (is_active_on device) s.credentials ≤ 1

All_known :
    (devices more : List PairedDevice) (rows : List Credential)
    → ((id : String) → has_device id devices ≡ true → has_device id more ≡ true)
    → All (λ c. has_device c.device_id devices ≡ true) rows
    → All (λ c. has_device c.device_id more ≡ true) rows
All_known devices more [] f all = tt
All_known devices more (c ∷ rows) f all = (f c.device_id all.0, All_known devices more rows f all.1)

-- A device without a row has no credential.
none_on :
    (id : String) (devices : List PairedDevice) (rows : List Credential)
    → has_device id devices ≡ false
    → All (λ c. has_device c.device_id devices ≡ true) rows
    → count_where (is_active_on id) rows ≡ 0
unfolding count_where
none_on id devices [] h all = refl
none_on id devices (c ∷ rows) h all = elim (Bool-cases (c.device_id == id)) [
  | inl e ↦
      let same = (eq_iff c.device_id id).0 e in
      absurd (cc (h, subst (λ d. has_device d devices ≡ true) same all.0))
  | inr e ↦ ground (arith, e, none_on id devices rows h all.1)
]

same_rows-IsSound :
    (s t : Identity) → t.devices ≡ s.devices → t.credentials ≡ s.credentials → IsSound s → IsSound t
same_rows-IsSound s t d c v = record {
  devices_once = λ id. rw d (v.devices_once id);
  credentials_once = λ id. rw c (v.credentials_once id);
  known = rw (d, c) v.known;
  single = λ device. rw c (v.single device);
}

withdrawn-IsSound :
    (family device : String) (now : ℕ) (s : Identity)
    → IsSound s
    → IsSound (revoke_rows family device now s)
unfolding revoke_rows
withdrawn-IsSound family device now s v =
    let gone : PairedDevice → Bool = λ d. (d.family_id == family) && (d.id == device) in
    let held : Credential → Bool =
      λ c. (c.family_id == family) && (c.device_id == device) && not (is_revoked c.status) in
    record {
      devices_once = λ id.
          rw (count_where-update_same (λ d. d.id == id) gone withdraw s.devices (λ r. refl))
            (v.devices_once id);
      credentials_once = λ id.
          rw
            (count_where-update_same (λ c. c.credential_id == id) held (revoke_credential now)
              s.credentials (λ r. refl))
            (v.credentials_once id);
      known =
          All_known s.devices (update_where gone withdraw s.devices)
            (update_where held (revoke_credential now) s.credentials)
            (λ id h. any-update_same (λ d. d.id == id) gone withdraw s.devices (λ r. refl) ∙ h)
            (All-update_where (λ c. has_device c.device_id s.devices ≡ true) held
              (revoke_credential now) s.credentials (λ r t k. k) v.known);
      single = λ d. omega (
        arith,
        v.single d,
        count_where-update_le (is_active_on d) held (revoke_credential now) s.credentials
            (λ r h. ground (arith, h)),
      );
    }

module _ (d : PairedDevice) (c : Credential) (s : Identity)
    (free : has_device d.id s.devices ≡ false) (new : has_credential c s.credentials ≡ false)
    (same : c.device_id ≡ d.id) (v : IsSound s) where
  paired_devices : (id : String) → count_where (λ r. r.id == id) (d ∷ s.devices) ≤ 1
  unfolding count_where
  paired_devices id = elim (Bool-cases (d.id == id)) [
    | inl e ↦ ground (
      arith,
      e,
      count_where_none (λ r. r.id == id) (λ r. r.id == d.id) s.devices
          (λ r h. subst (λ k. (r.id == k) ≡ true) (sym ((eq_iff d.id id).0 e)) h) free,
    )
    | inr e ↦ ground (arith, e, v.devices_once id)
  ]

  paired_single : (device : String) → count_where (is_active_on device) (c ∷ s.credentials) ≤ 1
  unfolding count_where
  paired_single device = elim (Bool-cases (c.device_id == device)) [
    | inl e ↦
        let on = sym same ∙ (eq_iff c.device_id device).0 e in
        ground (
          arith,
          e,
          none_on device s.devices s.credentials
              (subst (λ k. has_device k s.devices ≡ false) on free) v.known,
        )
    | inr e ↦ ground (arith, e, v.single device)
  ]

  paired_known : All (λ r. has_device r.device_id (d ∷ s.devices) ≡ true) (c ∷ s.credentials)
  paired_known = (
    ground (arith, eq_iff d.id c.device_id, sym same),
    All_known s.devices (d ∷ s.devices) s.credentials (λ id h. ground (arith, h)) v.known,
  )

-- A credential with a new key leaves the keys unique.
new_once :
    (c : Credential) (rows : List Credential) (id : String)
    → has_credential c rows ≡ false
    → count_where (λ r. r.credential_id == id) rows ≤ 1
    → count_where (λ r. r.credential_id == id) (c ∷ rows) ≤ 1
unfolding count_where
new_once c rows id new once = elim (Bool-cases (c.credential_id == id)) [
  | inl e ↦ ground (
    arith,
    e,
    count_where_none (λ r. r.credential_id == id)
        (λ r. (r.credential_id == c.credential_id) || (r.public_key == c.public_key)) rows
        (λ r h.
          let hit =
            subst (λ k. (r.credential_id == k) ≡ true) (sym ((eq_iff c.credential_id id).0 e)) h in
          rw hit refl)
        new,
  )
  | inr e ↦ ground (arith, e, once)
]

-- A credential that is found is the one with the id, and its device is there.
pub get_credential_lem :
    (id : String) (s : Identity) (found : CredentialRecord)
    → get_credential id s ≡ some found
    → (c : Credential) × (d : PairedDevice) × (find (λ c. c.credential_id == id) s.credentials
        ≡ some c)
      × (find (λ d. d.id == c.device_id) s.devices ≡ some d)
      × (found.device_id ≡ c.device_id)
unfolding get_credential
get_credential_lem id s found at =
    elim (Option-cases (find (λ c. c.credential_id == id) s.credentials)) [
      | inl e ↦ absurd (ground (arith, e, at))
      | inr (c, e) ↦ elim (Option-cases (find (λ d. d.id == c.device_id) s.devices)) [
        | inl f ↦ absurd (ground (arith, e, f, at))
        | inr (d, f) ↦ (c, d, e, f, ground (arith, e, f, at))
      ]
    ]

rotated_known :
    (c : Credential) (id : String) (found : CredentialRecord) (s : Identity)
    → get_credential id s ≡ some found
    → found.device_id ≡ c.device_id
    → has_device c.device_id s.devices ≡ true
rotated_known c id found s at same =
    let (r, d, f, g, on) = get_credential_lem id s found at in
    subst (λ k. has_device k s.devices ≡ true) (sym on ∙ same)
      (find-any (λ d. d.id == r.device_id) _ s.devices d g
        (find-some (λ d. d.id == r.device_id) s.devices d g))

module _ (c : Credential) (id : String) (now : ℕ) (found : CredentialRecord) (s : Identity)
    (at : get_credential id s ≡ some found) (same : found.device_id ≡ c.device_id)
    (once : count_where (is_rotated id) s.credentials ≡ 1)
    (new : has_credential c (update_where (is_rotated id) (rotate_out now) s.credentials) ≡ false)
    (v : IsSound s) where
  -- All credentials with the id are on the new one's device.
  rotated_on :
      All (λ r. (r.credential_id == id) ≡ true → (r.device_id == c.device_id) ≡ true) s.credentials
  rotated_on =
      let (r, d, f, g, on) = get_credential_lem id s found at in
      let hit = find-some (λ c. c.credential_id == id) s.credentials r f in
      All-map _ _ s.credentials (λ r h k. ground (arith, h k))
        (once_all (λ r. r.credential_id == id)
          (λ r. (r.credential_id == id) && (r.device_id == c.device_id)) s.credentials
          (λ r h. ground (arith, h)) (v.credentials_once id)
          (find-any (λ c. c.credential_id == id) _ s.credentials r f
            (ground (arith, hit, eq_iff r.device_id c.device_id, on, same))))

  rotated_single :
      (device : String)
      → count_where
          (is_active_on device)
          (c ∷ update_where (is_rotated id) (rotate_out now) s.credentials)
        ≤ 1
  unfolding count_where
  rotated_single device = elim (Bool-cases (c.device_id == device)) [
    | inl e ↦ ground (
      arith,
      e,
      v.single device,
      once,
      count_where-update_drop (is_active_on device) (is_rotated id) (rotate_out now) s.credentials
          (λ r. ground arith)
          (All-map _ _ s.credentials (λ r h t. ground (arith, h, t))
            (subst
              (λ k.
                All (λ r. (r.credential_id == id) ≡ true → (r.device_id == k) ≡ true) s.credentials)
              ((eq_iff c.device_id device).0 e) rotated_on)),
    )
    | inr e ↦ ground (
      arith,
      e,
      v.single device,
      count_where-update_le (is_active_on device) (is_rotated id) (rotate_out now) s.credentials
          (λ r h. ground (arith, h)),
    )
  ]

-- Every change keeps the keys, and a device's one active credential.
pub Change-IsSound : (s t : Identity) → Change s t → IsSound s → IsSound t
Change-IsSound s t (opened c a b d) v = same_rows-IsSound s t refl refl v
Change-IsSound s t (refused id c a b) v = same_rows-IsSound s t refl refl v
Change-IsSound s t (withdrawn_device family device now) v = withdrawn-IsSound family device now s v
Change-IsSound s t (paired d c id now installations free new same) v = record {
  devices_once = paired_devices d c s free new same v;
  credentials_once = λ k. new_once c s.credentials k new (v.credentials_once k);
  known = paired_known d c s free new same v;
  single = paired_single d c s free new same v;
}
Change-IsSound s t (rotated c id now found rotations at same named once new) v = record {
  devices_once = v.devices_once;
  credentials_once = λ k.
      new_once c (update_where (is_rotated id) (rotate_out now) s.credentials) k new (
        rw
          (count_where-update_same (λ r. r.credential_id == k) (is_rotated id) (rotate_out now)
            s.credentials (λ r. refl))
          (v.credentials_once k));
  known = (
    rotated_known c id found s at same,
    All-update_where (λ r. has_device r.device_id s.devices ≡ true) (is_rotated id) (rotate_out now)
        s.credentials (λ r h k. k) v.known,
  );
  single = rotated_single c id now found s at same once new v;
}

-- Where each key is held once, each credential's device is there and no device has two active
-- credentials, the same is true after any sequence of challenges, pairings, revocations and rotations,
-- with whatever ids, codes, keys and times.
pub run-IsSound :
    (x : PairingExternals) (calls : List Call) (s : Identity) → IsSound s → IsSound (run x calls s)
run-IsSound x calls s v = run-keeps x IsSound Change-IsSound calls s v
