-- ===== src/Store/Duplicates.antt =====
-- What `create_incident` of api/storage.py answers to a new key and to a key that it has seen.
use hackaton_open_ai.Prelude.{
  ℕ, ◌≡◌, ◌≢◌, String, Bool, true, false, List, [], ◌∷◌, some, ok, arith, any, find, find-some,
  find_all, Bool-cases, inl, inr, ◌==◌, string_eq, eq_iff, ==_refl,
}
use hackaton_open_ai.Model.{RiskCategory, RiskDirection}
use hackaton_open_ai.Store.Tables.{Store, IncidentRow, unlocked, status_eq}
use hackaton_open_ai.Store.Incidents.{
  IncidentCreate, insert_incident, resolve_duplicate, insert_or_resolve, create_incident,
  incident_values, device_child, child_exists, get_incident, has_key, find_incident, names,
}
use hackaton_open_ai.Store.Commands.{Distinct}

-- The first row that passes a test is the one that its id names.
find-Distinct :
    (test : IncidentRow → Bool) (family : String) (rows : List IncidentRow) (row : IncidentRow)
    → Distinct rows
    → row.family_id ≡ family
    → find test rows ≡ some row
    → find (names family row.id) rows ≡ some row
find-Distinct test family [] row d own h = cc
find-Distinct test family (r ∷ rows) row d own h = elim (Bool-cases (test r)) [
  | inl t ↦ ground (arith, ==_refl row.id, ==_refl family)
  | inr t ↦
      let later : find test rows ≡ some row = ground arith in
      ground (
        arith,
        find-Distinct test family rows row d.1 own later,
        find_all (λ x. x.id ≢ r.id) test rows row d.0 later,
        eq_iff r.id row.id,
      )
]

find-any :
    (test : IncidentRow → Bool) (rows : List IncidentRow) (row : IncidentRow)
    → find test rows ≡ some row
    → any test rows ≡ true
find-any test [] row h = cc
find-any test (r ∷ rows) row h = ground (arith, find-any test rows row)

module _ (family id second_id suffix : String) (request : IncidentCreate) (now : ℕ)
    (c : RiskCategory) (d : RiskDirection) (s : Store)
    (category : request.assessment.category ≡ some c)
    (direction : request.assessment.direction ≡ some d)
    (device : device_child family request.device_id s ≡ ok request.child_id)
    (child : child_exists family request.child_id s ≡ true) where
  -- The event passes the checks before the insertion: its assessment has a category and a direction,
  -- and its device and its child are the family's. If no incident of the device has its key,
  -- and the id is new, the incident is created and stands in the table, with the rest unchanged.
  create_incident_new :
      any (λ r. r.id == id) s.incidents ≡ false
      → any (has_key family request.device_id request.deduplication_key) s.incidents ≡ false
      → create_incident family request id second_id suffix now s
        ≡ ok (
          incident_values family request c d id now request.deduplication_key,
          true,
          record s {
            incidents =
                incident_values family request c d id now request.deduplication_key ∷ s.incidents;
          },
        )
  unfolding create_incident insert_or_resolve insert_incident get_incident find_incident
  create_incident_new fresh unseen = ground (
    arith,
    category,
    direction,
    device,
    child,
    fresh,
    unseen,
    ==_refl request.child_id,
    ==_refl family,
    ==_refl id,
  )

  -- If an incident of the device has its key and is not UNLOCKED, and no two incidents share an id,
  -- that incident is returned, nothing is created and nothing is written.
  create_incident_duplicate :
      (duplicate : IncidentRow)
      → Distinct s.incidents
      → find (has_key family request.device_id request.deduplication_key) s.incidents
        ≡ some duplicate
      → (duplicate.status == unlocked) ≡ false
      → create_incident family request id second_id suffix now s ≡ ok (duplicate, false, s)
  unfolding create_incident insert_or_resolve insert_incident resolve_duplicate get_incident
      find_incident
  create_incident_duplicate duplicate distinct seen closed =
      let own : duplicate.family_id ≡ family = ground (
        arith,
        eq_iff duplicate.family_id family,
        find-some (has_key family request.device_id request.deduplication_key) s.incidents duplicate
            seen,
      ) in
      ground (
        arith,
        category,
        direction,
        device,
        child,
        ==_refl request.child_id,
        seen,
        find-any (has_key family request.device_id request.deduplication_key) s.incidents duplicate
            seen,
        find-Distinct (has_key family request.device_id request.deduplication_key) family
            s.incidents duplicate distinct own seen,
      )
