-- ===== src/Audit/Tamper.antt =====
-- A checkpoint of api/data_security/audit.py pins the trail that it was taken of: records before it
-- can neither be rewritten nor dropped, as far as the HMAC has no collisions.
use hackaton_open_ai.Prelude.{
  ℕ, suc, ◌+◌, ◌-◌, ◌≡◌, refl, String, true, some, List, [], ◌∷◌, ◌++◌, length, last?, get_elem?,
  Equality, arith, Option-cases, inl, inr, ap, sym, ◌∙◌, subst,
}
use hackaton_open_ai.Audit.Keyring.{AuditKeyring, current_secret}
use hackaton_open_ai.Audit.{
  AuditRecord, Unsigned, Payload, record_payload, checkpoint, AuditCheckpoint, check_records,
  verify, verify_checkpoint,
}
use hackaton_open_ai.Audit.Chain.{Chain, IsSigned, check_records_sound, check_records-invalid}

-- No two payloads have one digest, under whatever keys.
abbrev pub CollisionFree : {D : Type 0} → (String → Payload D → D) → Type 0
CollisionFree sign = (k l : String) (u v : Payload _) → sign k u ≡ sign l v → u ≡ v

payload_unsigned : {D : Type 0} (u v : Unsigned D) → record_payload u ≡ record_payload v → u ≡ v
payload_unsigned u v h = cc

record_eq :
    {D : Type 0} (r s : AuditRecord D)
    → r.unsigned ≡ s.unsigned
    → r.event_hash ≡ s.event_hash
    → r ≡ s
record_eq r s p q = λ i. record { unsigned = p i; event_hash = q i }

module _ {D : Type 0} ⦃eq : Equality D⦄ (sign : String → Payload D → D) (free : CollisionFree sign)
    (ring later : AuditKeyring) where
  -- Two signed records with one hash are one record.
  signed_eq :
      (r s : AuditRecord D)
      → IsSigned sign ring r
      → IsSigned sign later s
      → r.event_hash ≡ s.event_hash
      → r ≡ s
  signed_eq r s (k, found, signed) (l, found', signed') h =
      record_eq r s
        (payload_unsigned r.unsigned s.unsigned (
          free k l (record_payload r.unsigned) (record_payload s.unsigned)
            (sym signed ∙ h ∙ signed')))
        h

  -- A chain is a prefix of every chain that has its last hash at the same place.
  prefix :
      (n : ℕ) (p q : D) (x : AuditRecord D) (xs ys : List (AuditRecord D)) (end r : AuditRecord D)
      → Chain sign ring n p (x ∷ xs)
      → Chain sign later n q ys
      → last? (x ∷ xs) ≡ some end
      → get_elem? ys (length xs) ≡ some r
      → end.event_hash ≡ r.event_hash
      → (p ≡ q) × ((rest : List (AuditRecord D)) × (ys ≡ (x ∷ xs) ++ rest))
  prefix n p q x xs [] end r c d last at same = cc
  prefix n p q x [] (y ∷ ys) end r (cs, cp, csign, crest) (ds, dp, dsign, drest) last at same =
      let e : x ≡ y = signed_eq x y csign dsign (cc) in
      (sym cp ∙ ap (λ (z : AuditRecord D). z.previous_hash) e ∙ dp, (ys, rw e refl))
  prefix n p q x (x' ∷ xs) (y ∷ ys) end r (cs, cp, csign, crest) (ds, dp, dsign, drest) last at
        same =
      let (linked, (rest, tail)) =
        prefix (suc n) x.event_hash y.event_hash x' xs ys end r crest drest last at same in
      let e : x ≡ y = signed_eq x y csign dsign linked in
      (sym cp ∙ ap (λ (z : AuditRecord D). z.previous_hash) e ∙ dp, (rest, rw (e, tail) refl))

module _ {D : Type 0} ⦃eq : Equality D⦄ (sign : String → Payload D → D) (zero_hash : D) where
  -- A chain's last record is numbered by its length.
  last-sequence :
      (ring : AuditKeyring) (n : ℕ) (p : D) (xs : List (AuditRecord D)) (end : AuditRecord D)
      → Chain sign ring n p xs
      → last? xs ≡ some end
      → suc end.sequence ≡ n + length xs
  last-sequence ring n p [] end c last = cc
  last-sequence ring n p (x ∷ []) end c last = ground arith
  last-sequence ring n p (x ∷ y ∷ xs) end c last =
      omega (arith, last-sequence ring (suc n) x.event_hash (y ∷ xs) end c.3 last)

  checkpoint_of_last :
      (ring : AuditKeyring) (now : ℕ) (xs : List (AuditRecord D)) (c : AuditCheckpoint D)
      → checkpoint sign zero_hash ring now xs ≡ some c
      → (end : AuditRecord D) × (last? xs ≡ some end)
        × (c.sequence ≡ end.sequence)
        × (c.event_hash ≡ end.event_hash)
  unfolding checkpoint
  checkpoint_of_last ring now xs c h = elim (Option-cases (last? xs)) [
    | inl e ↦ absurd (ground arith)
    | inr (end, e) ↦ elim (Option-cases (current_secret ring)) [
      | inl m ↦ absurd (ground arith)
      | inr (secret, m) ↦ (end, e, ground arith, ground arith)
    ]
  ]

  verify_checkpoint_at :
      (later : AuditKeyring) (ys : List (AuditRecord D)) (c : AuditCheckpoint D)
      → verify_checkpoint sign zero_hash later ys c ≡ true
      → (r : AuditRecord D) × (get_elem? ys (c.sequence - 1) ≡ some r)
        × (r.event_hash ≡ c.event_hash)
  unfolding verify_checkpoint
  verify_checkpoint_at later ys c h = elim (Option-cases (get_elem? ys (c.sequence - 1))) [
    | inl e ↦ absurd (ground arith)
    | inr (r, e) ↦ (r, e, ground (arith, eq.equal_iff r.event_hash c.event_hash))
  ]

  verified_parts :
      (later : AuditKeyring) (ys : List (AuditRecord D)) (c : AuditCheckpoint D)
      → (verify sign zero_hash later ys (some c)).valid ≡ true
      → Chain sign later 1 zero_hash ys × (verify_checkpoint sign zero_hash later ys c ≡ true)
  unfolding verify
  verified_parts later ys c h =
      elim (Option-cases (check_records sign zero_hash later 1 zero_hash ys)) [
        | inl passed ↦
            (check_records_sound sign later zero_hash 1 zero_hash ys passed, ground arith)
        | inr (v, e) ↦
            absurd (ground (arith, check_records-invalid sign later zero_hash 1 zero_hash ys v e))
      ]

  module _ (free : CollisionFree sign) where
    -- If a checkpoint was taken of a valid trail, a trail that `verify` accepts with that checkpoint,
    -- under whatever keys, begins with all the records of the first: none was changed, reordered or
    -- dropped. It is assumed that the HMAC has no collisions.
    pub checkpoint_pins :
        (ring later : AuditKeyring) (now : ℕ) (xs ys : List (AuditRecord D)) (c : AuditCheckpoint D)
        → Chain sign ring 1 zero_hash xs
        → checkpoint sign zero_hash ring now xs ≡ some c
        → (verify sign zero_hash later ys (some c)).valid ≡ true
        → (rest : List (AuditRecord D)) × (ys ≡ xs ++ rest)
    checkpoint_pins ring later now [] ys c chain taken valid = (ys, refl)
    checkpoint_pins ring later now (x ∷ xs) ys c chain taken valid =
        let (end, last, seq, hash) = checkpoint_of_last ring now (x ∷ xs) c taken in
        let (chain', holds) = verified_parts later ys c valid in
        let (r, at, same) = verify_checkpoint_at later ys c holds in
        let place : c.sequence - 1 ≡ length xs =
          omega (arith, last-sequence ring 1 zero_hash (x ∷ xs) end chain last, seq) in
        let (linked, result) =
          prefix sign free ring later 1 zero_hash zero_hash x xs ys end r chain chain' last
            (subst (λ i. get_elem? ys i ≡ some r) place at) (cc) in
        result
