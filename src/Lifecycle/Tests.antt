-- ===== src/Lifecycle/Tests.antt =====
-- Two families with evidence, one object that cannot be deleted, and a backup from before.
use hackaton_open_ai.Prelude.{
  ◌≡◌, refl, String, Bool, true, false, not, none, some, List, [], ◌∷◌, ◌==◌, string_eq,
}
use hackaton_open_ai.Lifecycle.{
  family_target, evidence_target, EvidenceRecord, Repository, World, is_evidence_accessible,
  family_exists,
}
use hackaton_open_ai.Lifecycle.Ledger.{Entry, append_all, recorded, replay, append_all_refines}
use hackaton_open_ai.Lifecycle.Deletion.{IsDeleted, delete_lem}
use hackaton_open_ai.Lifecycle.Backup.{expired_stays_gone}
use hackaton_open_ai.Lifecycle.Services.{FamilyDeletionResult, expire, delete, reconcile}

abbrev evidence : EvidenceRecord
evidence = record {
  family_id = "family";
  id = "ev-1";
  incident_id = "incident-1";
  object_key = "evidence/1";
  content_type = "image/png";
  sha256 = "digest";
  size_bytes = 10;
  created_at = 0;
  expires_at = 100;
  deleted_at = none;
}

abbrev repository : Repository
repository = record {
  families = record { id = "family"; records = [] } ∷ record { id = "others"; records = [] } ∷ [];
  inaccessible_families = [];
  evidence =
      evidence
      ∷ record evidence { id = "ev-2"; object_key = "evidence/2" }
      ∷ record evidence { family_id = "others"; object_key = "evidence/3"; expires_at = 900 }
      ∷ [];
  inaccessible_evidence = [];
}

abbrev world : World
world = record {
  ledger = [];
  repository = repository;
  revoked_families = [];
  objects = "evidence/1" ∷ "evidence/2" ∷ "evidence/3" ∷ [];
}

-- The object store fails on one key.
abbrev deletes : String → Bool
deletes key = not (key == "evidence/2")

abbrev entries : List Entry
entries =
    record {
      family_id = "family";
      target_type = evidence_target;
      target_id = "ev-1";
      deleted_at = 200;
      reason = "TTL_EXPIRED";
    }
    ∷ record {
      family_id = "family";
      target_type = family_target;
      target_id = "family";
      deleted_at = 300;
      reason = "REQUESTED";
    }
    ∷ []

append_all_refines_example : recorded (append_all entries []) ≡ replay entries (recorded [])
append_all_refines_example = append_all_refines entries []

delete_lem_example :
    (family_exists "family" repository ≡ false → delete deletes "family" 300 world ≡ none)
    × (family_exists "family" repository ≡ true
        → (result : FamilyDeletionResult) × (w' : World) × (delete deletes "family" 300 world
            ≡ some (result, w'))
          × IsDeleted deletes "family" world result w')
delete_lem_example = delete_lem deletes "family" 300 world

expired_stays_gone_example :
    is_evidence_accessible "family" "ev-2"
      (reconcile (expire deletes 200 world).1.ledger 0 repository).1
    ≡ false
expired_stays_gone_example =
    expired_stays_gone deletes 200 "family" "ev-2" world repository tt refl refl
