-- ===== src/Store/Incidents.antt =====
-- The incident operations of `GuardianStore` in api/storage.py.
use hackaton_open_ai.Prelude.{
  ℕ, ◌+◌, String, Bool, true, false, not, ◌&&◌, ◌||◌, [], ◌∷◌, ◌++◌, Option, none, some, any, find,
  format, ◌==◌, string_eq, if◌then◌else◌, Result, ok, ◌>>=◌, ◌>>◌, raise_if, or_raise,
}
use hackaton_open_ai.Model.{
  RiskAssessment, RiskCategory, RiskDirection, PolicyDecision, EnforcementAction, action_eq,
}
use hackaton_open_ai.Store.Tables.{
  Store, StoreError, key_error, value_error, integrity_error, IncidentRow, IncidentStatus, detected,
  blocked, unlock_requested, unlocked, kept_blocked, status_eq, DeviceRow, pending,
}
use hackaton_open_ai.Store.Where.{update_where}

-- `IncidentCreate` of guardian_core/models.py.
pub record IncidentCreate : Type 0 where
  pub child_id : String
  pub device_id : String
  pub application : String
  pub occurred_at : ℕ
  pub assessment : RiskAssessment
  pub decision : PolicyDecision
  pub deduplication_key : String

-- WHERE family_id = ? AND id = ?
abbrev pub names : String → String → IncidentRow → Bool
names family id row = (row.family_id == family) && (row.id == id)

-- UNIQUE(family_id, device_id, deduplication_key)
abbrev pub has_key : String → String → String → IncidentRow → Bool
has_key family device key row =
    (row.family_id == family) && (row.device_id == device) && (row.deduplication_key == key)

unfoldable pub child_exists : String → String → Store → Bool
child_exists family child s = any (λ c. (c.family_id == family) && (c.id == child)) s.children

abbrev device_row : String → String → Store → Option DeviceRow
device_row family device s = find (λ d. (d.family_id == family) && (d.id == device)) s.devices

-- `_device_child`
unfoldable pub device_child : String → String → Store → Result StoreError String
device_child family device s = do
  d ← or_raise (device_row family device s) (key_error device)
  ok d.child_id

unfoldable pub find_incident : String → String → Store → Option IncidentRow
find_incident family id s = find (names family id) s.incidents

-- `get_incident`, less the addresses of the screenshots.
unfoldable pub get_incident : String → String → Store → Result StoreError IncidentRow
unfolding find_incident
get_incident family id s = or_raise (find_incident family id s) (key_error id)

-- `values(key)` of `create_incident`, for a category and a direction that are there.
abbrev pub incident_values :
    String → IncidentCreate → RiskCategory → RiskDirection → String → ℕ → String → IncidentRow
incident_values family request category direction id now key = record {
  id = id;
  family_id = family;
  child_id = request.child_id;
  device_id = request.device_id;
  application = request.application;
  occurred_at = request.occurred_at;
  category = category;
  direction = direction;
  severity = request.assessment.risk;
  confidence = request.assessment.confidence;
  explanation = request.assessment.explanation;
  evidence = request.assessment.evidence;
  policy_action = request.decision.action;
  status = if request.decision.action == EnforcementAction.block then blocked else detected;
  child_explanation = none;
  deduplication_key = key;
  created_at = now;
  updated_at = now;
}

-- INSERT INTO incidents: a row that breaks a key is an `IntegrityError`, `none`. The device and the
-- child were looked up before, so the foreign key holds.
unfoldable pub insert_incident : IncidentRow → Store → Option Store
insert_incident row s =
    if any (λ r. r.id == row.id) s.incidents
      || any (has_key row.family_id row.device_id row.deduplication_key) s.incidents
    then none
    else some (record s { incidents = row ∷ s.incidents })

-- The handler of the `IntegrityError`: the id of the incident, whether it was created, the tables.
unfoldable pub resolve_duplicate :
    (String → String → IncidentRow)
    → String
    → IncidentCreate
    → String
    → String
    → Store
    → Result StoreError (String × Bool × Store)
unfolding insert_incident
resolve_duplicate values family request second_id suffix s = do
  duplicate ←
      or_raise (find (has_key family request.device_id request.deduplication_key) s.incidents)
        integrity_error
  if duplicate.status == unlocked
      then (do
        s' ←
            or_raise
              (insert_incident
                (values second_id (format (request.deduplication_key ∷ ":" ∷ suffix ∷ []))) s)
              integrity_error
        ok (second_id, true, s'))
      else ok (duplicate.id, false, s)

unfoldable pub insert_or_resolve :
    (String → String → IncidentRow)
    → String
    → IncidentCreate
    → String
    → String
    → String
    → Store
    → Result StoreError (String × Bool × Store)
unfolding insert_incident
insert_or_resolve values family request id second_id suffix s =
    elim (insert_incident (values id request.deduplication_key) s) [
      | some s' ↦ ok (id, true, s')
      | none ↦ resolve_duplicate values family request second_id suffix s
    ]

-- `create_incident`, with the two ids and the suffix that uuid4 would give.
unfoldable pub create_incident :
    String
    → IncidentCreate
    → String
    → String
    → String
    → ℕ
    → Store
    → Result StoreError (IncidentRow × Bool × Store)
create_incident family request id second_id suffix now s = do
  category ←
      or_raise request.assessment.category (value_error "SAFE assessments cannot create incidents")
  direction ←
      or_raise request.assessment.direction (value_error "SAFE assessments cannot create incidents")
  device_child_id ← device_child family request.device_id s
  raise_if
      (not (device_child_id == request.child_id) || not (child_exists family request.child_id s))
      (key_error request.child_id)
  (found, created, s') ←
      insert_or_resolve (λ i k. incident_values family request category direction i now k) family
        request id second_id suffix s
  row ← get_incident family found s'
  ok (row, created, s')

-- The `return self.get_incident(family_id, incident_id)` that ends an operation.
unfoldable pub returning : String → String → Store → Result StoreError (IncidentRow × Store)
returning family id s = do row ← get_incident family id s; ok (row, s)

abbrev pub is_open : IncidentStatus → Bool
is_open status = (status == blocked) || (status == unlock_requested)

-- UPDATE incidents SET … WHERE family_id = ? AND id = ?
abbrev pub set_incident : String → String → (IncidentRow → IncidentRow) → Store → Store
set_incident family id change s = record s {
  incidents = update_where (names family id) change s.incidents;
}

abbrev pub request_row : String → ℕ → IncidentRow → IncidentRow
request_row explanation now r = record r {
  status = unlock_requested;
  child_explanation = some explanation;
  updated_at = now;
}

unfoldable pub request_unlock :
    String → String → String → ℕ → Store → Result StoreError (IncidentRow × Store)
request_unlock family id explanation now s = do
  row ← or_raise (find_incident family id s) (key_error id)
  raise_if (not (is_open row.status)) (value_error "Cannot request unlock from status")
  let s' = set_incident family id (request_row explanation now) s
  returning family id s'

-- INSERT INTO device_commands
abbrev pub insert_command : IncidentRow → String → ℕ → Store → Store
insert_command row incident_id now s = record s {
  commands =
      s.commands
      ++ record {
        id = s.next_command;
        family_id = row.family_id;
        device_id = row.device_id;
        incident_id = incident_id;
        application = row.application;
        status = pending;
        created_at = now;
      }
        ∷ [];
  next_command = s.next_command + 1;
}

-- A `datetime` that is given, and whether it has a time zone.
pub record Moment : Type 0 where
  pub at : ℕ
  pub aware : Bool

abbrev pub is_naive : Option Moment → Bool
is_naive none = false
is_naive (some m) = not m.aware

-- `command_created_at or datetime.now(UTC)`
abbrev pub moment_or : Option Moment → ℕ → ℕ
moment_or none clock = clock
moment_or (some m) clock = m.at

abbrev pub status_row : IncidentStatus → ℕ → IncidentRow → IncidentRow
status_row status now r = record r { status = status; updated_at = now }

-- The two writes of `unlock_incident`.
unfoldable pub unlock_row : IncidentRow → String → String → ℕ → Store → Store
unlock_row row family id now s =
    insert_command row id now (set_incident family id (status_row unlocked now) s)

-- What follows the test for UNLOCKED in `unlock_incident`.
unfoldable pub unlock_open :
    IncidentRow
    → String
    → String
    → Option Moment
    → ℕ
    → Store
    → Result StoreError (IncidentRow × Store)
unfolding unlock_row
unlock_open row family id command_created_at clock s = do
  raise_if (not (is_open row.status)) (value_error "Cannot unlock incident from status")
  raise_if (is_naive command_created_at) (value_error "Command timestamp must be timezone-aware")
  let s' = unlock_row row family id (moment_or command_created_at clock) s
  returning family id s'

unfoldable pub unlock_incident :
    String → String → Option Moment → ℕ → Store → Result StoreError (IncidentRow × Store)
unfolding unlock_open
unlock_incident family id command_created_at clock s = do
  row ← or_raise (find_incident family id s) (key_error id)
  if row.status == unlocked
      then ok (row, s)
      else unlock_open row family id command_created_at clock s

unfoldable pub keep_blocked : String → String → ℕ → Store → Result StoreError (IncidentRow × Store)
keep_blocked family id now s = do
  row ← or_raise (find_incident family id s) (key_error id)
  raise_if (not (is_open row.status)) (value_error "Cannot keep blocked from status")
  let s' = set_incident family id (status_row kept_blocked now) s
  returning family id s'
