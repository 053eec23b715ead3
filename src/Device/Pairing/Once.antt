-- ===== src/Device/Pairing/Once.antt =====
-- A pairing challenge in api/device_identity.py is used once, and its wrong codes are counted.
use hackaton_open_ai.Prelude.{
  find-any, ℕ, ◌≤◌, ◌∙◌, ap, ◌≡◌, refl, sym, subst, String, Bool, true, false, not, ◌&&◌, ◌||◌,
  List, [], ◌∷◌, find, find-some, find_all, any, All, All-zip, ◌==◌, string_eq, eq_iff, arith,
  Bool-cases, Result-cases, inl, inr, leb, ltb, ok, err, some,
}
use hackaton_open_ai.Store.Where.{
  update_where, count_where, count_where-update_same, any-update_same, count_where_none, once_all,
  All-update_where, All-updated,
}
use hackaton_open_ai.Device.Pairing.{
  Identity, IdentityError, Challenge, PairingConfirmation, PairingExternals, DeviceCredentialIssued,
  is_set, max_pairing_attempts, validate_public_key, revoke_rows, invalid_or_expired_pairing,
}
use hackaton_open_ai.Device.Pairing.Complete.{
  complete_pairing, confirm, is_invalid, fail_challenge, consume_challenge,
}
use hackaton_open_ai.Device.Pairing.Completed.{IsPaired, complete_pairing_lem, replaced_challenges}
use hackaton_open_ai.Device.Pairing.Run.{Call, run}
use hackaton_open_ai.Device.Pairing.Changes.{
  Change, opened, refused, withdrawn_device, paired, rotated, run-keeps,
}

abbrev pub has_challenge : String → List Challenge → Bool
has_challenge id rows = any (λ r. r.id == id) rows

abbrev pub is_spent : Challenge → Bool
is_spent r = is_set r.consumed_at || leb max_pairing_attempts r.failed_attempts

-- The challenge is there, and it was consumed or has met the limit of wrong codes.
pub record IsSpent (id : String) (s : Identity) : Type 0 where
  pub present : has_challenge id s.challenges ≡ true
  pub spent : All (λ r. (r.id == id) ≡ true → is_spent r ≡ true) s.challenges

module _ (id : String) where
  updated-IsSpent :
      (s t : Identity) (test : Challenge → Bool) (change : Challenge → Challenge)
      → t.challenges ≡ update_where test change s.challenges
      → ((r : Challenge) → (change r).id ≡ r.id)
      → ((r : Challenge) → is_spent r ≡ true → is_spent (change r) ≡ true)
      → IsSpent id s
      → IsSpent id t
  updated-IsSpent s t test change e same keeps v = record {
    present = rw e (
        any-update_same (λ r. r.id == id) test change s.challenges (λ r. ap (λ k. k == id) (same r))
        ∙ v.present);
    spent = rw e (
        All-update_where (λ r. (r.id == id) ≡ true → is_spent r ≡ true) test change s.challenges
          (λ r h k g. keeps r (k (subst (λ j. (j == id) ≡ true) (same r) g))) v.spent);
  }

  Change-IsSpent : (s t : Identity) → Change s t → IsSpent id s → IsSpent id t
  unfolding revoke_rows
  Change-IsSpent s t (opened c new a b) v = record {
    present = ground (arith, v.present);
    spent = (
      λ h. absurd (
          cc (
            new,
            subst (λ k. has_challenge k s.challenges ≡ true) (sym ((eq_iff c.id id).0 h)) v.present,
          )),
      v.spent,
    );
  }
  Change-IsSpent s t (refused other c at below) v =
      updated-IsSpent s t _ fail_challenge refl (λ r. refl) (λ r h. ground (arith, h)) v
  Change-IsSpent s t (withdrawn_device family device now) v = record {
    present = v.present;
    spent = v.spent;
  }
  Change-IsSpent s t (paired d c other now installations free new same) v =
      updated-IsSpent s t _ (consume_challenge now) refl (λ r. refl) (λ r h. ground (arith, h)) v
  Change-IsSpent s t (rotated c other now found rotations at same named once new) v = record {
    present = v.present;
    spent = v.spent;
  }

find_present :
    (id : String) (rows : List Challenge)
    → has_challenge id rows ≡ true
    → (c : Challenge) × (find (λ c. c.id == id) rows ≡ some c)
find_present id [] h = cc
find_present id (r ∷ rows) h = elim (Bool-cases (r.id == id)) [
  | inl e ↦ (r, rw e refl)
  | inr e ↦ let (c, at) = find_present id rows (ground (arith, e, h)) in (c, rw e at)
]

-- A spent challenge pairs no device.
spent_refused :
    (x : PairingExternals) (q : PairingConfirmation) (device_id credential_id : String) (now : ℕ)
    (s : Identity)
    → IsSpent q.challenge_id s
    → (e : IdentityError) × (complete_pairing x q device_id credential_id now s ≡ (err e, s))
unfolding complete_pairing confirm
spent_refused x q device_id credential_id now s v =
    elim (Result-cases (validate_public_key x q.public_key)) [
      | inl (e, h) ↦ (e, rw (h, complete_pairing) refl)
      | inr (done, h) ↦
          let (c, at) = find_present q.challenge_id s.challenges v.present in
          let over : is_spent c ≡ true =
            find_all (λ r. (r.id == q.challenge_id) ≡ true → is_spent r ≡ true)
              (λ r. r.id == q.challenge_id) s.challenges c v.spent at
              (find-some (λ r. r.id == q.challenge_id) s.challenges c at) in
          let invalid : is_invalid now c ≡ true = ground (arith, over) in
          (invalid_or_expired_pairing, rw (h, complete_pairing, at, invalid) refl)
    ]

consumed_all :
    (id : String) (now : ℕ) (rows : List Challenge)
    → All
        (λ r. (r.id == id) ≡ true → is_spent r ≡ true)
        (update_where
          (λ r. (r.id == id) && not (is_set r.consumed_at))
          (consume_challenge now)
          rows)
unfolding update_where
consumed_all id now [] = tt
consumed_all id now (r ∷ rows) = (λ h. ground (arith, h), consumed_all id now rows)

-- A pairing that succeeds spends its challenge.
paired-IsSpent :
    (x : PairingExternals) (q : PairingConfirmation) (device_id credential_id : String) (now : ℕ)
    (issued : DeviceCredentialIssued) (s t : Identity)
    → IsPaired x q device_id credential_id now issued s t
    → IsSpent q.challenge_id t
paired-IsSpent x q device_id credential_id now issued s t p =
    let same = replaced_challenges p.challenge q.installation_id now s p.replaced p.replacing in
    subst (IsSpent q.challenge_id) (sym p.tables) (record {
      present =
          any-update_same (λ r. r.id == q.challenge_id) _ (consume_challenge now)
            p.replaced.challenges (λ r. refl)
          ∙ rw same (
              find-any (λ r. r.id == q.challenge_id) _ s.challenges p.challenge p.at
                (find-some (λ r. r.id == q.challenge_id) s.challenges p.challenge p.at));
      spent = consumed_all q.challenge_id now p.replaced.challenges;
    })

-- After a pairing that succeeds, whatever calls follow it, a pairing with the same challenge raises and
-- changes nothing, with whatever code, key, installation and time.
pub paired_once :
    (x : PairingExternals) (q again : PairingConfirmation)
    (device_id credential_id device_id' credential_id' : String) (now later : ℕ)
    (issued : DeviceCredentialIssued) (calls : List Call) (s t : Identity)
    → complete_pairing x q device_id credential_id now s ≡ (ok issued, t)
    → again.challenge_id ≡ q.challenge_id
    → (e : IdentityError) × (complete_pairing x again device_id' credential_id' later
          (run x calls t)
        ≡ (err e, run x calls t))
paired_once x q again device_id credential_id device_id' credential_id' now later issued calls s t
      done same =
    spent_refused x again device_id' credential_id' later (run x calls t) (
      subst (λ id. IsSpent id (run x calls t)) (sym same)
        (run-keeps x (IsSpent q.challenge_id) (Change-IsSpent q.challenge_id) calls t (
          paired-IsSpent x q device_id credential_id now issued s t
            (complete_pairing_lem x q device_id credential_id now issued s t done))))

-- Each challenge's id is held once, and no challenge has more wrong codes than the limit.
pub record IsBounded (s : Identity) : Type 0 where
  pub once : (id : String) → count_where (λ r. r.id == id) s.challenges ≤ 1
  pub bounded : All (λ r. r.failed_attempts ≤ max_pairing_attempts) s.challenges

opened_once :
    (c : Challenge) (rows : List Challenge) (id : String)
    → has_challenge c.id rows ≡ false
    → count_where (λ r. r.id == id) rows ≤ 1
    → count_where (λ r. r.id == id) (c ∷ rows) ≤ 1
unfolding count_where
opened_once c rows id new once = elim (Bool-cases (c.id == id)) [
  | inl e ↦ ground (
    arith,
    e,
    count_where_none (λ r. r.id == id) (λ r. r.id == c.id) rows
        (λ r h. subst (λ k. (r.id == k) ≡ true) (sym ((eq_iff c.id id).0 e)) h) new,
  )
  | inr e ↦ ground (arith, e, once)
]

Change-IsBounded : (s t : Identity) → Change s t → IsBounded s → IsBounded t
unfolding revoke_rows
Change-IsBounded s t (opened c new a b) v = record {
  once = λ id. opened_once c s.challenges id new (v.once id);
  bounded = (omega (arith, a), v.bounded);
}
Change-IsBounded s t (refused id c at below) v =
    let open_one : Challenge → Bool = λ r. (r.id == id) && ltb r.failed_attempts 5 in
    let all_open : All (λ r. (r.id == id) ≡ true → open_one r ≡ true) s.challenges =
      once_all (λ r. r.id == id) open_one s.challenges (λ r h. ground (arith, h)) (v.once id)
        (find-any (λ r. r.id == id) open_one s.challenges c at
          (ground (arith, below, find-some (λ r. r.id == id) s.challenges c at))) in
    record {
      once = λ k.
          rw
            (count_where-update_same (λ r. r.id == k) (λ r. r.id == id) fail_challenge s.challenges
              (λ r. refl))
            (v.once k);
      bounded =
          All-updated (λ r. (r.failed_attempts ≤ 5) × ((r.id == id) ≡ true → open_one r ≡ true))
            (λ r. r.failed_attempts ≤ 5) (λ r. r.id == id) fail_challenge s.challenges
            (λ r h p. ground (arith, h, p.1 h)) (λ r h p. p.0)
            (All-zip _ _ s.challenges v.bounded all_open);
    }
Change-IsBounded s t (withdrawn_device family device now) v = record {
  once = v.once;
  bounded = v.bounded;
}
Change-IsBounded s t (paired d c id now installations free new same) v =
    let unused : Challenge → Bool = λ r. (r.id == id) && not (is_set r.consumed_at) in
    record {
      once = λ k.
          rw
            (count_where-update_same (λ r. r.id == k) unused (consume_challenge now) s.challenges
              (λ r. refl))
            (v.once k);
      bounded =
          All-update_where (λ r. r.failed_attempts ≤ 5) unused (consume_challenge now) s.challenges
            (λ r h k. k) v.bounded;
    }
Change-IsBounded s t (rotated c id now found rotations at same named once new) v = record {
  once = v.once;
  bounded = v.bounded;
}

-- Where each challenge's id is held once and no challenge has more than five wrong codes, the same is
-- true after any sequence of calls.
pub run-IsBounded :
    (x : PairingExternals) (calls : List Call) (s : Identity)
    → IsBounded s
    → IsBounded (run x calls s)
run-IsBounded x calls s v = run-keeps x IsBounded Change-IsBounded calls s v
