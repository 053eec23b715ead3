-- ===== src/Device/Pairing/Changes.antt =====
-- What one call can do to the tables, as a relation that the invariants are proved along.
use hackaton_open_ai.Prelude.{
  ℕ, ◌<◌, ◌≡◌, refl, sym, subst, String, Bool, false, not, ◌&&◌, ◌||◌, none, some, List, [], ◌∷◌,
  find, find-some, eq_iff, any, ◌==◌, string_eq, nat_beq, nat_beq_iff, ok, arith, Bool-cases,
  Option-cases, Result-cases, inl, inr,
}
use hackaton_open_ai.Store.Tables.{ChildRow}
use hackaton_open_ai.Store.Where.{update_where, count_where}
use hackaton_open_ai.Device.{CredentialRecord}
use hackaton_open_ai.Device.Pairing.{
  Identity, Challenge, Credential, PairedDevice, Installation, Rotation, PairingConfirmation,
  PairingExternals, is_set, revoke_rows, revoke_device, rolled_back, upsert_installation,
  get_credential, insert_credential, insert_device, validate_public_key,
}
use hackaton_open_ai.Device.Pairing.Complete.{
  create_pairing_challenge, complete_pairing, confirm, pair, replace_previous, is_invalid,
  fail_challenge, consume_challenge, pairing_digest, paired_installation, paired_device,
  paired_credential,
}
use hackaton_open_ai.Device.Pairing.Rotate.{
  rotate_credential, rotate_new, rotate_out, find_rotation, is_rotated, rotated_in,
}
use hackaton_open_ai.Device.Pairing.Run.{
  Call, challenge, complete, revoke, rotate, step, run, principal_of, challenged, revoked_in,
}

abbrev pub has_credential : Credential → List Credential → Bool
has_credential c rows =
    any (λ r. (r.credential_id == c.credential_id) || (r.public_key == c.public_key)) rows

-- A row is new where no row has its key.
pub data Change (s : Identity) : Identity → Type 0 where
  opened :
      (c : Challenge)
      → any (λ r. r.id == c.id) s.challenges ≡ false
      → c.failed_attempts ≡ 0
      → c.consumed_at ≡ none
      → Change s (record s { challenges = c ∷ s.challenges })
  refused :
      (id : String) (c : Challenge)
      → find (λ r. r.id == id) s.challenges ≡ some c
      → c.failed_attempts < 5
      → Change s
          (record s { challenges = update_where (λ r. r.id == id) fail_challenge s.challenges })
  withdrawn_device : (family device : String) (now : ℕ) → Change s (revoke_rows family device now s)
  paired :
      (d : PairedDevice) (c : Credential) (id : String) (now : ℕ)
      (installations : List Installation)
      → any (λ r. r.id == d.id) s.devices ≡ false
      → has_credential c s.credentials ≡ false
      → c.device_id ≡ d.id
      → Change s (record s {
        devices = d ∷ s.devices;
        credentials = c ∷ s.credentials;
        installations = installations;
        challenges =
            update_where
              (λ r. (r.id == id) && not (is_set r.consumed_at))
              (consume_challenge now)
              s.challenges;
      })
  rotated :
      (c : Credential) (id : String) (now : ℕ) (found : CredentialRecord)
      (rotations : List Rotation)
      → get_credential id s ≡ some found
      → found.device_id ≡ c.device_id
      → found.credential_id ≡ id
      → count_where (is_rotated id) s.credentials ≡ 1
      → has_credential c (update_where (is_rotated id) (rotate_out now) s.credentials) ≡ false
      → Change s (record s {
        credentials = c ∷ update_where (is_rotated id) (rotate_out now) s.credentials;
        rotations = rotations;
      })

pub data Changes (s : Identity) : Identity → Type 0 where
  unchanged : Changes s s
  changed : {t u : Identity} → Changes s t → Change t u → Changes s u

-- An invariant of the changes is one of their sequences.
Changes-keep {κ} :
    (P : Identity → Type κ)
    → ((s t : Identity) → Change s t → P s → P t)
    → (s t : Identity) → Changes s t
    → P s
    → P t
Changes-keep P keep s t unchanged p = p
Changes-keep P keep s t (changed {t = u} cs c) p = keep u t c (Changes-keep P keep s u cs p)

replace-Changes :
    (c : Challenge) (installation : String) (now : ℕ) (s t : Identity)
    → replace_previous c installation now s ≡ ok t
    → Changes s t
unfolding replace_previous
replace-Changes c installation now s t h =
    elim (Option-cases (find (λ i. i.installation_id == installation) s.installations)) [
      | inl e ↦ let same : s ≡ t = ground (arith, e, h) in subst (Changes s) same unchanged
      | inr (i, e) ↦ elim (Option-cases (find (λ d. d.id == i.device_id) s.devices)) [
        | inl f ↦ let same : s ≡ t = ground (arith, e, f, h) in subst (Changes s) same unchanged
        | inr (d, f) ↦ elim (Bool-cases (d.family_id == c.family_id)) [
          | inl g ↦
              let same : revoke_rows c.family_id i.device_id now s ≡ t =
                ground (arith, e, f, g, h) in
              subst (Changes s) same
                (changed unchanged (withdrawn_device c.family_id i.device_id now))
          | inr g ↦ absurd (ground (arith, e, f, g, h))
        ]
      ]
    ]

pair-Change :
    (c : Challenge) (q : PairingConfirmation) (device_id credential_id : String) (now : ℕ)
    (s t : Identity)
    → pair c q device_id credential_id now s ≡ ok t
    → Change s t
unfolding pair insert_device insert_credential
pair-Change c q device_id credential_id now s t h =
    elim (Bool-cases (any (λ r. r.id == device_id) s.devices)) [
      | inl d ↦ absurd (ground (arith, d, h))
      | inr d ↦
          let new = paired_credential c q.public_key device_id credential_id now in
          elim (Bool-cases (has_credential new s.credentials)) [
            | inl e ↦ absurd (ground (arith, d, e, h))
            | inr e ↦ subst (Change s) (ground (arith, d, e, h)) (
                paired (paired_device c q device_id now) new q.challenge_id now
                  (upsert_installation (paired_installation q device_id now) s.installations) d e
                  refl)
          ]
    ]

confirm-Changes :
    (x : PairingExternals) (c : Challenge) (q : PairingConfirmation)
    (device_id credential_id : String) (now : ℕ) (s : Identity)
    → find (λ (r : Challenge). r.id == q.challenge_id) s.challenges ≡ some c
    → Changes s (confirm x c q device_id credential_id now s).1
unfolding confirm
confirm-Changes x c q device_id credential_id now s at = elim (Bool-cases (is_invalid now c)) [
  | inl i ↦ rw i unchanged
  | inr i ↦ elim (Bool-cases (c.code_digest == pairing_digest x q.challenge_id q.code)) [
    | inr w ↦ rw (i, w) (changed unchanged (refused q.challenge_id c at (ground (arith, i))))
    | inl w ↦ elim (Result-cases (replace_previous c q.installation_id now s)) [
      | inl (e, r) ↦ rw (i, w, r) unchanged
      | inr (replaced, r) ↦ elim (Result-cases (pair c q device_id credential_id now replaced)) [
        | inl (e, p) ↦ rw (i, w, r, p) unchanged
        | inr (t, p) ↦
            rw (i, w, r, p)
              (changed (replace-Changes c q.installation_id now s replaced r)
                (pair-Change c q device_id credential_id now replaced t p))
      ]
    ]
  ]
]

complete-Changes :
    (x : PairingExternals) (q : PairingConfirmation) (device_id credential_id : String) (now : ℕ)
    (s : Identity)
    → Changes s (complete_pairing x q device_id credential_id now s).1
unfolding complete_pairing
complete-Changes x q device_id credential_id now s =
    elim (Result-cases (validate_public_key x q.public_key)) [
      | inl (e, v) ↦ rw (v, complete_pairing) unchanged
      | inr (done, v) ↦
          elim (Option-cases (find (λ (c : Challenge). c.id == q.challenge_id) s.challenges)) [
            | inl f ↦ rw (v, complete_pairing, f) unchanged
            | inr (c, f) ↦
                rw (v, complete_pairing, f) (confirm-Changes x c q device_id credential_id now s f)
          ]
    ]

challenge-Changes :
    (x : PairingExternals) (family child id front back : String) (now : ℕ) (s : Identity)
    → Changes s (challenged (create_pairing_challenge x family child id front back now s) s)
unfolding create_pairing_challenge
challenge-Changes x family child id front back now s =
    elim (Bool-cases
      (any (λ (r : ChildRow). (r.family_id == family) && (r.id == child)) s.children)) [
        | inr c ↦ rw c unchanged
        | inl c ↦ elim (Bool-cases (any (λ (r : Challenge). r.id == id) s.challenges)) [
          | inl d ↦ rw (c, d) unchanged
          | inr d ↦ rw (c, d) (changed unchanged (opened _ d refl refl))
        ]
      ]

revoke-Changes :
    (family device : String) (now : ℕ) (s : Identity)
    → Changes s (revoked_in (revoke_device family device now s) s)
unfolding revoke_device
revoke-Changes family device now s =
    elim (Bool-cases (any (λ d. (d.family_id == family) && (d.id == device)) s.devices)) [
      | inl d ↦ rw d (changed unchanged (withdrawn_device family device now))
      | inr d ↦ rw d unchanged
    ]

rotate_new-Changes :
    (id public_key key new_id : String) (now : ℕ) (s : Identity) (found : CredentialRecord)
    → get_credential id s ≡ some found
    → found.credential_id ≡ id
    → Changes s (rolled_back (rotate_new (principal_of found) public_key key new_id now s) s).1
unfolding rotate_new insert_credential
rotate_new-Changes id public_key key new_id now s found at same =
    let test = is_rotated found.credential_id in
    elim (Bool-cases (nat_beq (count_where test s.credentials) 1)) [
      | inr n ↦ rw n unchanged
      | inl n ↦
          elim (Bool-cases (
            has_credential (rotated_in (principal_of found) public_key new_id now)
              (update_where test (rotate_out now) s.credentials))) [
                | inl h ↦ rw (n, h) unchanged
                | inr h ↦
                    rw (n, h)
                      (changed unchanged (
                        rotated (rotated_in (principal_of found) public_key new_id now)
                          found.credential_id now found _
                          (subst (λ k. get_credential k s ≡ some found) (sym same) at) refl refl
                          ((nat_beq_iff _ 1).0 n) h))
              ]
    ]

find_id :
    (id : String) (s : Identity) (found : CredentialRecord)
    → get_credential id s ≡ some found
    → found.credential_id ≡ id
unfolding get_credential
find_id id s found at = elim (Option-cases (find (λ c. c.credential_id == id) s.credentials)) [
  | inl e ↦ absurd (ground (arith, e, at))
  | inr (c, e) ↦ elim (Option-cases (find (λ d. d.id == c.device_id) s.devices)) [
    | inl f ↦ absurd (ground (arith, e, f, at))
    | inr (d, f) ↦
        let same =
          (eq_iff c.credential_id id).0
            (find-some (λ c. c.credential_id == id) s.credentials c e) in
        ground (arith, e, f, at, same)
  ]
]

rotate-Changes :
    (x : PairingExternals) (id public_key key new_id : String) (now : ℕ) (s : Identity)
    (found : CredentialRecord)
    → get_credential id s ≡ some found
    → Changes s (rotate_credential x (principal_of found) public_key key new_id now s).1
unfolding rotate_credential
rotate-Changes x id public_key key new_id now s found at =
    elim (Result-cases (validate_public_key x public_key)) [
      | inl (e, v) ↦ rw (v, rotate_credential) unchanged
      | inr (done, v) ↦ elim (Option-cases (find_rotation found.credential_id key s)) [
        | inl f ↦
            rw (v, rotate_credential, f)
              (rotate_new-Changes id public_key key new_id now s found at (find_id id s found at))
        | inr (c, f) ↦ elim (Bool-cases (c.public_key == public_key)) [
          | inl k ↦ rw (v, rotate_credential, f, k) unchanged
          | inr k ↦ rw (v, rotate_credential, f, k) unchanged
        ]
      ]
    ]

pub step-Changes : (x : PairingExternals) (call : Call) (s : Identity) → Changes s (step x call s)
unfolding step
step-Changes x (challenge family child id front back now) s =
    challenge-Changes x family child id front back now s
step-Changes x (complete q device_id credential_id now) s =
    complete-Changes x q device_id credential_id now s
step-Changes x (revoke family device now) s = revoke-Changes family device now s
step-Changes x (rotate id public_key key new_id now) s = elim (Option-cases (get_credential id s)) [
  | inl e ↦ rw (e, step) unchanged
  | inr (found, e) ↦ rw (e, step) (rotate-Changes x id public_key key new_id now s found e)
]

-- An invariant of the changes holds after any sequence of calls.
pub run-keeps {κ} :
    (x : PairingExternals) (P : Identity → Type κ)
    → ((s t : Identity) → Change s t → P s → P t)
    → (calls : List Call) (s : Identity) → P s
    → P (run x calls s)
unfolding run
run-keeps x P keep [] s p = p
run-keeps x P keep (call ∷ calls) s p =
    run-keeps x P keep calls (step x call s)
      (Changes-keep P keep s (step x call s) (step-Changes x call s) p)
