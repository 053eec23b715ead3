-- ===== src/Lifecycle/Restore.antt =====
-- What a restored backup holds after `RestoreReconciler` of api/data_security/lifecycle.py.
use hackaton_open_ai.Prelude.{
  ℕ, ◌≡◌, ◌∙◌, refl, String, Bool, true, false, not, ◌&&◌, ◌||◌, List, [], ◌∷◌, keep, any, ◌==◌,
  string_eq, eq_iff, arith, Bool-cases, inl, inr, any-keep, any-drop, and_true, and_not, and_never,
  ==_refl,
}
use hackaton_open_ai.Lifecycle.{
  DeletionTombstone, DeletionTarget, family_target, evidence_target, Family, EvidenceRecord,
  Repository, is_at, after, is_evidence_accessible, family_exists, delete_for_restore,
  is_target_absent,
}
use hackaton_open_ai.Lifecycle.Services.{
  ReconciliationResult, reconcile_one, reconcile_each, reconcile,
}

abbrev pub is_family_target : DeletionTarget → Bool
is_family_target family_target = true
is_family_target evidence_target = false

-- The tombstone is of the evidence, or of its family.
abbrev pub covers : String → String → DeletionTombstone → Bool
covers f i t = (t.family_id == f) && (is_family_target t.target_type || (t.target_id == i))

abbrev pub covers_family : String → DeletionTombstone → Bool
covers_family f t = is_family_target t.target_type && (t.family_id == f)

-- The evidence with the key that a restore drops.
module _ (f i : String) (rows : List EvidenceRecord) where
  kept_family :
      (g : String)
      → any (is_at f i) (keep (λ e. not (e.family_id == g)) rows)
        ≡ (any (is_at f i) rows && not (g == f))
  kept_family g = elim (Bool-cases (g == f)) [
    | inl h ↦ ground (
      arith,
      h,
      any-drop (is_at f i) (λ e. not (e.family_id == g)) rows
          (λ e k. ground (arith, k, h, eq_iff e.family_id f, eq_iff e.family_id g, eq_iff g f)),
    )
    | inr h ↦ ground (
      arith,
      h,
      any-keep (is_at f i) (λ e. not (e.family_id == g)) rows
          (λ e k. ground (arith, k, h, eq_iff e.family_id f, eq_iff e.family_id g, eq_iff g f)),
    )
  ]

  kept_evidence :
      (g j : String)
      → any (is_at f i) (keep (λ e. not (is_at g j e)) rows)
        ≡ (any (is_at f i) rows && not ((g == f) && (j == i)))
  kept_evidence g j = elim (Bool-cases ((g == f) && (j == i))) [
    | inl h ↦ ground (
      arith,
      h,
      any-drop (is_at f i) (λ e. not (is_at g j e)) rows
          (λ e k. ground (
            arith,
            k,
            h,
            eq_iff e.family_id f,
            eq_iff e.family_id g,
            eq_iff g f,
            eq_iff e.id i,
            eq_iff e.id j,
            eq_iff j i,
          )),
    )
    | inr h ↦ ground (
      arith,
      h,
      any-keep (is_at f i) (λ e. not (is_at g j e)) rows
          (λ e k. ground (
            arith,
            k,
            h,
            eq_iff e.family_id f,
            eq_iff e.family_id g,
            eq_iff g f,
            eq_iff e.id i,
            eq_iff e.id j,
            eq_iff j i,
          )),
    )
  ]

module _ (f : String) (families : List Family) where
  kept_families :
      (g : String)
      → any (λ (x : Family). x.id == f) (keep (λ (x : Family). not (x.id == g)) families)
        ≡ (any (λ (x : Family). x.id == f) families && not (g == f))
  kept_families g = elim (Bool-cases (g == f)) [
    | inl h ↦ ground (
      arith,
      h,
      any-drop (λ (x : Family). x.id == f) (λ (x : Family). not (x.id == g)) families
          (λ x k. ground (arith, k, h, eq_iff x.id f, eq_iff x.id g, eq_iff g f)),
    )
    | inr h ↦ ground (
      arith,
      h,
      any-keep (λ (x : Family). x.id == f) (λ (x : Family). not (x.id == g)) families
          (λ x k. ground (arith, k, h, eq_iff x.id f, eq_iff x.id g, eq_iff g f)),
    )
  ]

-- One tombstone closes what it covers, and nothing else.
module _ (f i g j : String) (r : Repository) where
  restored_present :
      (u : DeletionTarget)
      → any (is_at f i) (delete_for_restore u g j r).evidence
        ≡ (any (is_at f i) r.evidence && not ((g == f) && (is_family_target u || (j == i))))
  unfolding delete_for_restore
  restored_present family_target = ground (arith, kept_family f i r.evidence g)
  restored_present evidence_target = kept_evidence f i r.evidence g j

  restored_accessible :
      (u : DeletionTarget)
      → is_evidence_accessible f i (delete_for_restore u g j r)
        ≡ (is_evidence_accessible f i r && not ((g == f) && (is_family_target u || (j == i))))
  unfolding delete_for_restore is_evidence_accessible
  restored_accessible family_target =
      ground (arith, kept_family f i r.evidence g, eq_iff f g, eq_iff g f)
  restored_accessible evidence_target =
      ground
        (arith, kept_evidence f i r.evidence g j, eq_iff f g, eq_iff g f, eq_iff i j, eq_iff j i)

  restored_family :
      (u : DeletionTarget)
      → family_exists f (delete_for_restore u g j r)
        ≡ (family_exists f r && not (is_family_target u && (g == f)))
  unfolding delete_for_restore family_exists
  restored_family family_target = kept_families f r.families g
  restored_family evidence_target = and_true _

absent_after :
    (u : DeletionTarget) (g j : String) (r : Repository)
    → is_target_absent u g j (delete_for_restore u g j r) ≡ true
unfolding delete_for_restore
absent_after family_target g j r =
    rw (kept_families g r.families g, ==_refl g) (and_never (any _ r.families))
absent_after evidence_target g j r =
    rw (kept_evidence g j r.evidence g j, ==_refl g, ==_refl j) (and_never (any _ r.evidence))

abbrev State : Type 0
State = ℕ × List String × Repository

module _ (f i : String) where
  each_present :
      (list : List DeletionTombstone) (s : State)
      → any (is_at f i) (reconcile_each list s).2.evidence
        ≡ (any (is_at f i) s.2.evidence && not (any (covers f i) list))
  unfolding reconcile_each
  each_present [] s = and_true _
  each_present (t ∷ list) s =
      each_present list (reconcile_one t s)
      ∙ rw (restored_present f i t.family_id t.target_id s.2 t.target_type)
          (and_not _ (covers f i t) _)

  each_accessible :
      (list : List DeletionTombstone) (s : State)
      → is_evidence_accessible f i (reconcile_each list s).2
        ≡ (is_evidence_accessible f i s.2 && not (any (covers f i) list))
  unfolding reconcile_each
  each_accessible [] s = and_true _
  each_accessible (t ∷ list) s =
      each_accessible list (reconcile_one t s)
      ∙ rw (restored_accessible f i t.family_id t.target_id s.2 t.target_type)
          (and_not _ (covers f i t) _)

each_family :
    (f : String) (list : List DeletionTombstone) (s : State)
    → family_exists f (reconcile_each list s).2
      ≡ (family_exists f s.2 && not (any (covers_family f) list))
unfolding reconcile_each
each_family f [] s = and_true _
each_family f (t ∷ list) s =
    each_family f list (reconcile_one t s)
    ∙ rw (restored_family f f t.family_id t.target_id s.2 t.target_type)
        (and_not _ (covers_family f t) _)

each_failures : (list : List DeletionTombstone) (s : State) → (reconcile_each list s).1 ≡ s.1
unfolding reconcile_each
each_failures [] s = refl
each_failures (t ∷ list) s =
    each_failures list (reconcile_one t s)
    ∙ rw (absent_after t.target_type t.family_id t.target_id s.2) refl

-- What a restored repository holds once it is reconciled, for each family and evidence id: what it held
-- and no tombstone after the watermark covers. It is safe to open, with no failures.
pub record IsReconciled (f i : String) (list : List DeletionTombstone) (r : Repository)
    (result : ReconciliationResult × Repository) : Type 0 where
  pub safe : result.0.safe_to_open ≡ true
  pub present :
      any (is_at f i) result.1.evidence
      ≡ (any (is_at f i) r.evidence && not (any (covers f i) list))
  pub accessible :
      is_evidence_accessible f i result.1
      ≡ (is_evidence_accessible f i r && not (any (covers f i) list))
  pub family : family_exists f result.1 ≡ (family_exists f r && not (any (covers_family f) list))

-- A reconciliation of any restored repository is safe to open. For each family and evidence id, the
-- evidence is there, or can be read, exactly if it was and no tombstone after the watermark is its own
-- or its family's; and the family is there exactly if it was and no tombstone after it is the family's.
pub reconcile-IsReconciled :
    (f i : String) (ledger : List DeletionTombstone) (watermark : ℕ) (r : Repository)
    → IsReconciled f i (after watermark ledger) r (reconcile ledger watermark r)
unfolding reconcile
reconcile-IsReconciled f i ledger watermark r =
    let list = after watermark ledger in
    let start : State = (watermark, [], r) in
    record {
      safe = rw (each_failures list start) refl;
      present = each_present f i list start;
      accessible = each_accessible f i list start;
      family = each_family f list start;
    }
