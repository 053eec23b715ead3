-- ===== src/Lifecycle/Backup.antt =====
-- No resurrection: what api/data_security/lifecycle.py deleted stays out of a backup that is restored.
use hackaton_open_ai.Prelude.{
  ℕ, leb, ◌≡◌, ◌∙◌, refl, sym, ap, subst, String, Bool, true, false, not, ◌&&◌, ◌||◌, List, [], ◌∷◌,
  ◌++◌, length, any, ◌==◌, string_eq, arith, Bool-cases, inl, inr, append-nil, append_assoc,
}
use hackaton_open_ai.Lifecycle.{
  DeletionTombstone, DeletionTarget, family_target, evidence_target, same_target, EvidenceRecord,
  Repository, World, has_key, is_at, append, after, is_evidence_accessible, expired_evidence,
}
use hackaton_open_ai.Lifecycle.Ledger.{
  tombstoned, Numbered, append-Numbered, append_added, after_watermark,
}
use hackaton_open_ai.Lifecycle.Retention.{expire-IsExpired}
use hackaton_open_ai.Lifecycle.Restore.{
  is_family_target, covers, covers_family, reconcile-IsReconciled,
}
use hackaton_open_ai.Lifecycle.Services.{
  RetentionResult, expire, expire_one, expire_each, reconcile,
}

any-append :
    (p : DeletionTombstone → Bool) (xs ys : List DeletionTombstone)
    → any p (xs ++ ys) ≡ (any p xs || any p ys)
any-append p [] ys = refl
any-append p (x ∷ xs) ys = ground (arith, any-append p xs ys)

covered :
    (f i : String) (u : DeletionTarget) (list : List DeletionTombstone)
    → any (has_key f u i) list ≡ true
    → any (covers f i) list ≡ true
covered f i u [] h = h
covered f i u (t ∷ list) h = ground (arith, h, covered f i u list)

family_covered :
    (f : String) (u : DeletionTarget) (g j : String) (rest more : Bool)
    → (rest ≡ true → more ≡ true)
    → ((same_target u family_target && (g == f) && (j == f)) || rest) ≡ true
    → ((is_family_target u && (g == f)) || more) ≡ true
family_covered f family_target g j rest more later h = ground (arith, h, later)
family_covered f evidence_target g j rest more later h = ground (arith, h, later)

covered_family :
    (f : String) (list : List DeletionTombstone)
    → any (has_key f family_target f) list ≡ true
    → any (covers_family f) list ≡ true
covered_family f [] h = h
covered_family f (t ∷ list) h =
    family_covered f t.target_type t.family_id t.target_id _ _ (covered_family f list) h

-- What a call has added to a ledger.
Grown : List DeletionTombstone → List DeletionTombstone → Type 0
Grown ledger ledger' =
    Numbered 1 ledger' × ((more : List DeletionTombstone) × (ledger' ≡ ledger ++ more))

module _ (deletes : String → Bool) (now : ℕ) where
  expire_one_ledger :
      (e : EvidenceRecord) (r : RetentionResult) (w : World)
      → (expire_one deletes now e (r, w)).1.ledger
        ≡ (append e.family_id evidence_target e.id now "TTL_EXPIRED" w.ledger).1
  unfolding expire_one
  expire_one_ledger e r w = elim (Bool-cases (deletes e.object_key)) [
    | inl d ↦ rw d refl
    | inr d ↦ rw d refl
  ]

  expire_each-Grown :
      (list : List EvidenceRecord) (s : RetentionResult × World)
      → Numbered 1 s.1.ledger
      → Grown s.1.ledger (expire_each deletes now list s).1.ledger
  unfolding expire_each Grown
  expire_each-Grown [] s v = (v, ([], sym (append-nil s.1.ledger)))
  expire_each-Grown (e ∷ list) (r, w) v =
      let one = append e.family_id evidence_target e.id now "TTL_EXPIRED" w.ledger in
      let same = expire_one_ledger e r w in
      let (more, p) = append_added e.family_id evidence_target e.id now "TTL_EXPIRED" w.ledger in
      let (numbered, (rest, q)) =
        expire_each-Grown list (expire_one deletes now e (r, w)) (
          rw same
            (append-Numbered e.family_id evidence_target e.id now "TTL_EXPIRED" w.ledger v)) in
      (
        numbered,
        (more ++ rest, q ∙ ap (λ l. l ++ rest) (same ∙ p) ∙ append_assoc w.ledger more rest),
      )

-- A tombstone that a ledger had not before the watermark follows the watermark.
Grown-after :
    (p : DeletionTombstone → Bool) (ledger ledger' : List DeletionTombstone)
    → Grown ledger ledger'
    → any p ledger ≡ false
    → any p ledger' ≡ true
    → any p (after (length ledger) ledger') ≡ true
unfolding Grown
Grown-after p ledger ledger' (numbered, (more, same)) before now =
    let cut : after (length ledger) ledger' ≡ more =
      subst (λ l. after (length ledger) l ≡ more) (sym same)
        (after_watermark 1 (length ledger) ledger more (subst (Numbered 1) same numbered)
          (omega arith)) in
    rw cut (ground (arith, before, any-append p ledger more, subst (λ l. any p l ≡ true) same now))

and_false : (a b : Bool) → b ≡ true → (a && not b) ≡ false
and_false true b h = ground (arith, h)
and_false false b h = refl

-- After a pass of the retention, whatever fails in it, any backup that is restored and reconciled with
-- the ledger from the watermark before the pass gives no access to an evidence that had expired and had
-- no tombstone then.
pub expired_stays_gone :
    (deletes : String → Bool) (now : ℕ) (f i : String) (w : World) (backup : Repository)
    → Numbered 1 w.ledger
    → tombstoned f evidence_target i w.ledger ≡ false
    → any (λ e. is_at f i e && leb e.expires_at now) w.repository.evidence ≡ true
    → is_evidence_accessible f i
        (reconcile (expire deletes now w).1.ledger (length w.ledger) backup).1
      ≡ false
unfolding expire
expired_stays_gone deletes now f i w backup numbered before expired =
    let ledger = (expire deletes now w).1.ledger in
    let recorded = (expire-IsExpired deletes now f i w).tombstone ∙ rw (before, expired) refl in
    let later =
      Grown-after (has_key f evidence_target i) w.ledger ledger
        (expire_each-Grown deletes now (expired_evidence now w.repository)
          (record { deleted = 0; failed = 0 }, w) numbered)
        before recorded in
    (reconcile-IsReconciled f i ledger (length w.ledger) backup).accessible
    ∙ and_false _ _ (covered f i evidence_target _ later)
