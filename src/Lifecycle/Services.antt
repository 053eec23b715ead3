-- ===== src/Lifecycle/Services.antt =====
-- `RetentionCoordinator`, `FamilyPrivacyService` and `RestoreReconciler` of
-- api/data_security/lifecycle.py.
use hackaton_open_ai.Prelude.{
  ℕ, ◌+◌, String, Bool, true, false, not, Option, none, some, List, [], ◌∷◌, ◌++◌, keep, contains,
  ◌==◌, string_eq, if◌then◌else◌,
}
use hackaton_open_ai.Lifecycle.{
  DeletionTombstone, family_target, evidence_target, EvidenceRecord, Repository, World, append,
  after, expired_evidence, family_evidence, mark_evidence_inaccessible, purge_evidence,
  family_exists, mark_family_inaccessible, delete_family_rows, is_tombstone_applied,
  apply_tombstone,
}

unfoldable pub remove_object : String → List String → List String
remove_object key objects = keep (λ k. not (k == key)) objects

pub record RetentionResult : Type 0 where
  pub deleted : ℕ
  pub failed : ℕ

unfoldable pub expire_one :
    (String → Bool) → ℕ → EvidenceRecord → RetentionResult × World → RetentionResult × World
unfolding append mark_evidence_inaccessible purge_evidence remove_object
expire_one deletes now e (r, w) =
    let marked = record w {
      ledger = (append e.family_id evidence_target e.id now "TTL_EXPIRED" w.ledger).1;
      repository = mark_evidence_inaccessible e.family_id e.id w.repository;
    } in
    if deletes e.object_key
    then (
      record r { deleted = r.deleted + 1 },
      record marked {
        repository = purge_evidence e.family_id e.id marked.repository;
        objects = remove_object e.object_key w.objects;
      },
    )
    else (record r { failed = r.failed + 1 }, marked)

unfoldable pub expire_each :
    (String → Bool) → ℕ → List EvidenceRecord → RetentionResult × World → RetentionResult × World
expire_each deletes now [] s = s
expire_each deletes now (e ∷ rest) s = expire_each deletes now rest (expire_one deletes now e s)

unfoldable pub expire : (String → Bool) → ℕ → World → RetentionResult × World
unfolding expire_each expired_evidence
expire deletes now w =
    expire_each deletes now (expired_evidence now w.repository)
      (record { deleted = 0; failed = 0 }, w)

pub record FamilyDeletionResult : Type 0 where
  pub completed : Bool
  pub failed_objects : List String

unfoldable pub delete_one :
    (String → Bool) → String → EvidenceRecord → List String × World → List String × World
unfolding mark_evidence_inaccessible purge_evidence remove_object
delete_one deletes family e (failed, w) =
    let marked = mark_evidence_inaccessible family e.id w.repository in
    if deletes e.object_key
    then (
      failed,
      record w {
        repository = purge_evidence family e.id marked;
        objects = remove_object e.object_key w.objects;
      },
    )
    else (failed ++ e.id ∷ [], record w { repository = marked })

unfoldable pub delete_each :
    (String → Bool) → String → List EvidenceRecord → List String × World → List String × World
delete_each deletes family [] s = s
delete_each deletes family (e ∷ rest) s =
    delete_each deletes family rest (delete_one deletes family e s)

-- `revoke_family` of the one revoker.
unfoldable pub revoke_family : String → List String → List String
revoke_family family revoked = if contains family revoked then revoked else revoked ++ family ∷ []

abbrev pub is_empty : List String → Bool
is_empty [] = true
is_empty (x ∷ xs) = false

abbrev pub finish_deletion : String → List String × World → FamilyDeletionResult × World
finish_deletion family ([], w) = (
  record { completed = true; failed_objects = [] },
  record w { repository = delete_family_rows family w.repository },
)
finish_deletion family (e ∷ failed, w) =
    (record { completed = false; failed_objects = e ∷ failed }, w)

-- `FamilyPrivacyService.delete`; `none` is the LookupError.
unfoldable pub delete : (String → Bool) → String → ℕ → World → Option (FamilyDeletionResult × World)
unfolding append family_exists mark_family_inaccessible revoke_family family_evidence delete_each
    delete_family_rows
delete deletes family now w =
    if not (family_exists family w.repository)
    then none
    else let closed = record w {
      ledger = (append family family_target family now "REQUESTED" w.ledger).1;
      repository = mark_family_inaccessible family w.repository;
      revoked_families = revoke_family family w.revoked_families;
    } in
      some (
        finish_deletion family
          (delete_each deletes family (family_evidence family closed.repository) ([], closed)))

pub record ReconciliationResult : Type 0 where
  pub safe_to_open : Bool
  pub last_sequence : ℕ
  pub failures : List String

-- One tombstone of the loop. The repository in memory raises nothing.
abbrev pub reconcile_one :
    DeletionTombstone → ℕ × List String × Repository → ℕ × List String × Repository
reconcile_one t (last, failures, r) =
    let r' = apply_tombstone t r in
    (t.sequence, if is_tombstone_applied t r' then failures else failures ++ t.target_id ∷ [], r')

unfoldable pub reconcile_each :
    List DeletionTombstone → ℕ × List String × Repository → ℕ × List String × Repository
reconcile_each [] s = s
reconcile_each (t ∷ rest) s = reconcile_each rest (reconcile_one t s)

abbrev pub concluded : ℕ × List String × Repository → ReconciliationResult × Repository
concluded (last, failures, r) =
    (record { safe_to_open = is_empty failures; last_sequence = last; failures = failures }, r)

-- `reconcile_before_access`
unfoldable pub reconcile :
    List DeletionTombstone → ℕ → Repository → ReconciliationResult × Repository
unfolding reconcile_each after
reconcile ledger watermark restored =
    concluded (reconcile_each (after watermark ledger) (watermark, [], restored))
