-- ===== src/Lifecycle.antt =====
-- api/data_security/lifecycle.py: the ledger of tombstones, the retention of evidence, the deletion of a
-- family and the reconciliation of a restored backup. A dict is the list of its entries in the order of
-- their insertion; times are microseconds. Which object keys the object store deletes without raising is
-- an argument of each call.
pub mod Services
pub mod Ledger
pub mod Retention
pub mod Deletion
pub mod Restore
pub mod Backup
mod Tests
use hackaton_open_ai.Prelude.{
  ℕ, ◌+◌, suc, ltb, leb, nat_beq, String, Bool, true, false, not, ◌&&◌, ◌||◌, Option, none, some,
  List, [], ◌∷◌, ◌++◌, length, keep, find, any, all, contains, map, ◌==◌, string_eq, if◌then◌else◌,
  last?, Result, ok, err,
}
use hackaton_open_ai.Store.Where.{update_where}

pub data DeletionTarget : Type 0 where
  family_target evidence_target : DeletionTarget

pub record DeletionTombstone : Type 0 where
  pub sequence : ℕ
  pub family_id : String
  pub target_type : DeletionTarget
  pub target_id : String
  pub deleted_at : ℕ
  pub reason : String

pub record EvidenceRecord : Type 0 where
  pub family_id : String
  pub id : String
  pub incident_id : String
  pub object_key : String
  pub content_type : String
  pub sha256 : String
  pub size_bytes : ℕ
  pub created_at : ℕ
  pub expires_at : ℕ
  pub deleted_at : Option ℕ

-- A record that a family can export is its fields.
pub record Family : Type 0 where
  pub id : String
  pub records : List (List (String × String))

-- `InMemoryLifecycleRepository`; the two sets are lists.
pub record Repository : Type 0 where
  pub families : List Family
  pub inaccessible_families : List String
  pub evidence : List EvidenceRecord
  pub inaccessible_evidence : List (String × String)

-- The ledger, the repository, the families that a revoker was told of, and the keys of the objects.
pub record World : Type 0 where
  pub ledger : List DeletionTombstone
  pub repository : Repository
  pub revoked_families : List String
  pub objects : List String

abbrev pub same_target : DeletionTarget → DeletionTarget → Bool
same_target family_target family_target = true
same_target family_target evidence_target = false
same_target evidence_target family_target = false
same_target evidence_target evidence_target = true

abbrev pub has_key : String → DeletionTarget → String → DeletionTombstone → Bool
has_key family target id t =
    same_target t.target_type target && (t.family_id == family) && (t.target_id == id)

abbrev pub new_tombstone :
    String → DeletionTarget → String → ℕ → String → List DeletionTombstone → DeletionTombstone
new_tombstone family target id now reason ledger = record {
  sequence = length ledger + 1;
  family_id = family;
  target_type = target;
  target_id = id;
  deleted_at = now;
  reason = reason;
}

-- `InMemoryTombstoneLedger.append`: one tombstone for each target.
unfoldable pub append :
    String
    → DeletionTarget
    → String
    → ℕ
    → String
    → List DeletionTombstone
    → DeletionTombstone × List DeletionTombstone
append family target id now reason ledger = elim (find (has_key family target id) ledger) [
  | some existing ↦ (existing, ledger)
  | none ↦
      let tombstone = new_tombstone family target id now reason ledger in
      (tombstone, ledger ++ tombstone ∷ [])
]

unfoldable pub after : ℕ → List DeletionTombstone → List DeletionTombstone
after sequence ledger = keep (λ t. ltb sequence t.sequence) ledger

abbrev pub is_at : String → String → EvidenceRecord → Bool
is_at family id e = (e.family_id == family) && (e.id == id)

abbrev pub has_pair : String → String → List (String × String) → Bool
has_pair family id pairs = any (λ p. (p.0 == family) && (p.1 == id)) pairs

unfoldable pub get_evidence : String → String → Repository → Option EvidenceRecord
get_evidence family id r = find (is_at family id) r.evidence

unfoldable pub expired_evidence : ℕ → Repository → List EvidenceRecord
expired_evidence now r = keep (λ e. leb e.expires_at now) r.evidence

unfoldable pub family_evidence : String → Repository → List EvidenceRecord
family_evidence family r = keep (λ e. e.family_id == family) r.evidence

unfoldable pub mark_evidence_inaccessible : String → String → Repository → Repository
mark_evidence_inaccessible family id r = record r {
  inaccessible_evidence = (family, id) ∷ r.inaccessible_evidence;
}

unfoldable pub purge_evidence : String → String → Repository → Repository
purge_evidence family id r = record r {
  evidence = keep (λ e. not (is_at family id e)) r.evidence;
  inaccessible_evidence = (family, id) ∷ r.inaccessible_evidence;
}

unfoldable pub is_evidence_accessible : String → String → Repository → Bool
is_evidence_accessible family id r =
    any (is_at family id) r.evidence
    && not (has_pair family id r.inaccessible_evidence)
    && not (contains family r.inaccessible_families)

unfoldable pub family_exists : String → Repository → Bool
family_exists family r = any (λ (f : Family). f.id == family) r.families

unfoldable pub mark_family_inaccessible : String → Repository → Repository
mark_family_inaccessible family r = record r {
  inaccessible_families = family ∷ r.inaccessible_families;
}

unfoldable pub delete_family_rows : String → Repository → Repository
delete_family_rows family r = record r {
  families = keep (λ (f : Family). not (f.id == family)) r.families;
  evidence = keep (λ e. not (e.family_id == family)) r.evidence;
}

abbrev pub is_target_absent : DeletionTarget → String → String → Repository → Bool
is_target_absent family_target family id r = not (any (λ (f : Family). f.id == family) r.families)
is_target_absent evidence_target family id r = not (any (is_at family id) r.evidence)

abbrev pub is_tombstone_applied : DeletionTombstone → Repository → Bool
is_tombstone_applied t r = is_target_absent t.target_type t.family_id t.target_id r

-- `delete_family_for_restore` and `delete_evidence_for_restore`.
unfoldable pub delete_for_restore : DeletionTarget → String → String → Repository → Repository
unfolding mark_family_inaccessible delete_family_rows mark_evidence_inaccessible purge_evidence
delete_for_restore family_target family id r =
    delete_family_rows family (mark_family_inaccessible family r)
delete_for_restore evidence_target family id r =
    purge_evidence family id (mark_evidence_inaccessible family id r)

abbrev pub apply_tombstone : DeletionTombstone → Repository → Repository
apply_tombstone t r = delete_for_restore t.target_type t.family_id t.target_id r
