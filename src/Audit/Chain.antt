-- ===== src/Audit/Chain.antt =====
-- The trail that `verify` of api/data_security/audit.py accepts is a chain, and `append` extends it.
use hackaton_open_ai.Prelude.{
  ℕ, suc, ◌+◌, ◌≡◌, ◌↔◌, refl, String, true, false, none, some, List, [], ◌∷◌, ◌++◌, length,
  Equality, ok, arith, Option-cases, inl, inr, sym, subst, nat_eq,
}
use hackaton_open_ai.Audit.Keyring.{AuditKeyring, get, current_secret}
use hackaton_open_ai.Audit.{
  AuditRecord, AuditInput, Unsigned, Payload, record_payload, AuditVerification, append,
  latest_hash, check_record, check_records, verify, build,
}

module _ {D : Type 0} ⦃eq : Equality D⦄ (sign : String → Payload D → D) (ring : AuditKeyring) where
  -- The record's hash is the HMAC of its fields under the key that it names.
  abbrev pub IsSigned : AuditRecord D → Type 0
  IsSigned r =
      (secret : String) × (get ring r.key_id ≡ some secret)
      × (r.event_hash ≡ sign secret (record_payload r.unsigned))

  -- Records numbered from `n`, each with the hash before it, all signed.
  abbrev pub Chain : ℕ → D → List (AuditRecord D) → Type 0
  Chain n previous [] = Unit
  Chain n previous (r ∷ records) =
      (r.sequence ≡ n)
      × (r.previous_hash ≡ previous)
      × IsSigned r
      × Chain (suc n) r.event_hash records

  check_record_sound :
      (zero_hash : D) (n : ℕ) (previous : D) (r : AuditRecord D)
      → check_record sign zero_hash ring n previous r ≡ none
      → (r.sequence ≡ n) × (r.previous_hash ≡ previous) × IsSigned r
  unfolding check_record
  check_record_sound zero_hash n previous r h = elim (Option-cases (get ring r.key_id)) [
    | inl missing ↦ absurd (ground arith)
    | inr (secret, found) ↦ (
      ground arith,
      ground (arith, eq.equal_iff r.previous_hash previous),
      (
        secret,
        found,
        ground (arith, eq.equal_iff r.event_hash (sign secret (record_payload r.unsigned))),
      ),
    )
  ]

  check_record_complete :
      (zero_hash : D) (n : ℕ) (previous : D) (r : AuditRecord D)
      → r.sequence ≡ n
      → r.previous_hash ≡ previous
      → IsSigned r
      → check_record sign zero_hash ring n previous r ≡ none
  unfolding check_record
  check_record_complete zero_hash n previous r s p (secret, found, signed) = ground (
    arith,
    eq.equal_iff r.previous_hash previous,
    eq.equal_iff r.event_hash (sign secret (record_payload r.unsigned)),
  )

  pub check_records_sound :
      (zero_hash : D) (n : ℕ) (previous : D) (records : List (AuditRecord D))
      → check_records sign zero_hash ring n previous records ≡ none
      → Chain n previous records
  unfolding check_records
  check_records_sound zero_hash n previous [] h = tt
  check_records_sound zero_hash n previous (r ∷ records) h =
      elim (Option-cases (check_record sign zero_hash ring n previous r)) [
        | inl passed ↦
            let (s, p, signed) = check_record_sound zero_hash n previous r passed in
            (
              s,
              p,
              signed,
              check_records_sound zero_hash (suc n) r.event_hash records
                  (rw (passed, check_records) at h),
            )
        | inr (failure, e) ↦ absurd (ground arith)
      ]

  pub check_records_complete :
      (zero_hash : D) (n : ℕ) (previous : D) (records : List (AuditRecord D))
      → Chain n previous records
      → check_records sign zero_hash ring n previous records ≡ none
  unfolding check_records
  check_records_complete zero_hash n previous [] c = refl
  check_records_complete zero_hash n previous (r ∷ records) (s, p, signed, rest) =
      rw (check_record_complete zero_hash n previous r s p signed, check_records)
        (check_records_complete zero_hash (suc n) r.event_hash records rest)

  pub check_records-invalid :
      (zero_hash : D) (n : ℕ) (previous : D) (records : List (AuditRecord D))
      (v : AuditVerification)
      → check_records sign zero_hash ring n previous records ≡ some v
      → v.valid ≡ false
  unfolding check_records check_record
  check_records-invalid zero_hash n previous [] v h = cc
  check_records-invalid zero_hash n previous (r ∷ records) v h =
      ground (arith, check_records-invalid zero_hash (suc n) r.event_hash records v)

  abbrev end_hash : D → List (AuditRecord D) → D
  end_hash previous [] = previous
  end_hash previous (r ∷ records) = end_hash r.event_hash records

  latest_hash-cons :
      (zero_hash : D) (r : AuditRecord D) (records : List (AuditRecord D))
      → latest_hash sign zero_hash (r ∷ records) ≡ end_hash r.event_hash records
  latest_hash-cons zero_hash r [] = refl
  latest_hash-cons zero_hash r (s ∷ records) = latest_hash-cons zero_hash s records

  latest-end_hash :
      (zero_hash : D) (records : List (AuditRecord D))
      → latest_hash sign zero_hash records ≡ end_hash zero_hash records
  latest-end_hash zero_hash [] = refl
  latest-end_hash zero_hash (r ∷ records) = latest_hash-cons zero_hash r records

  Chain-snoc :
      (n : ℕ) (previous : D) (records : List (AuditRecord D)) (r : AuditRecord D)
      → Chain n previous records
      → r.sequence ≡ n + length records
      → r.previous_hash ≡ end_hash previous records
      → IsSigned r
      → Chain n previous (records ++ r ∷ [])
  Chain-snoc n previous [] r c s p signed = (omega arith, p, signed, tt)
  Chain-snoc n previous (x ∷ records) r (xs, xp, xsigned, rest) s p signed =
      (xs, xp, xsigned, Chain-snoc (suc n) x.event_hash records r rest (omega arith) p signed)

  -- `verify` reports a valid trail, of all its records, exactly when they form a chain from the zero
  -- hash: numbered 1, 2, …, each with the hash of the one before, and each signed under its key.
  pub verify-valid_iff :
      (zero_hash : D) (records : List (AuditRecord D))
      → (verify sign zero_hash ring records none
          ≡ record { valid = true; checked_records = length records; reason = none })
        ↔ Chain 1 zero_hash records
  unfolding verify
  verify-valid_iff zero_hash records = (
    λ h. elim (Option-cases (check_records sign zero_hash ring 1 zero_hash records)) [
      | inl passed ↦ check_records_sound zero_hash 1 zero_hash records passed
      | inr (v, e) ↦
          absurd (ground (arith, e, check_records-invalid zero_hash 1 zero_hash records v e))
    ],
    λ c. rw (check_records_complete zero_hash 1 zero_hash records c, verify),
  )

  -- An append to a valid trail gives a valid trail, one record longer, with the old one in front.
  pub append-Chain :
      (zero_hash : D) (now : ℕ) (event_id : String) (event : AuditInput)
      (records next : List (AuditRecord D))
      → Chain 1 zero_hash records
      → append sign zero_hash ring now event_id event records ≡ ok next
      → Chain 1 zero_hash next
        × ((r : AuditRecord D) × (next ≡ records ++ r ∷ []) × (r.event ≡ event))
  unfolding append current_secret
  append-Chain zero_hash now event_id event records next c h =
      elim (Option-cases (get ring ring.current_key_id)) [
        | inl missing ↦ absurd (ground arith)
        | inr (secret, found) ↦
            let u : Unsigned D = record {
              sequence = length records + 1;
              event_id = event_id;
              occurred_at = now;
              event = event;
              key_id = ring.current_key_id;
              previous_hash = latest_hash sign zero_hash records;
            } in
            let e : records ++ build sign zero_hash secret u ∷ [] ≡ next = ground arith in
            (
              subst (Chain 1 zero_hash) e (
                  Chain-snoc 1 zero_hash records (build sign zero_hash secret u) c (omega arith)
                    (latest-end_hash zero_hash records) (secret, found, refl)),
              (build sign zero_hash secret u, sym e, refl),
            )
      ]
