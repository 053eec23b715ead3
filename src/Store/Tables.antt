-- ===== src/Store/Tables.antt =====
-- Rows of the tables of api/storage.py (TABLE_SCHEMA), with the columns that the operations read.
use hackaton_open_ai.Prelude.{ℕ, String, List, Option, Equality, ◌≡◌, ◌↔◌, true, arith, nat_beq}
use hackaton_open_ai.Model.{RiskCategory, RiskDirection, RiskLevel, EnforcementAction}

pub data IncidentStatus : Type 0 where
  detected blocked unlock_requested unlocked kept_blocked : IncidentStatus

pub data CommandStatus : Type 0 where
  pending delivered acknowledged expired failed : CommandStatus

abbrev pub status_index : IncidentStatus → ℕ
status_index detected = 0
status_index blocked = 1
status_index unlock_requested = 2
status_index unlocked = 3
status_index kept_blocked = 4

pub status_eq_iff :
    (a b : IncidentStatus) → (nat_beq (status_index a) (status_index b) ≡ true) ↔ (a ≡ b)
status_eq_iff a b = ground arith

instance abbrev pub status_eq : Equality IncidentStatus
status_eq = record {
  equal = λ a b. nat_beq (status_index a) (status_index b);
  equal_iff = status_eq_iff;
}

pub record ChildRow : Type 0 where
  pub id : String
  pub family_id : String

pub record DeviceRow : Type 0 where
  pub id : String
  pub family_id : String
  pub child_id : String

pub record IncidentRow : Type 0 where
  pub id : String
  pub family_id : String
  pub child_id : String
  pub device_id : String
  pub application : String
  pub occurred_at : ℕ
  pub category : RiskCategory
  pub direction : RiskDirection
  pub severity : RiskLevel
  pub confidence : ℕ
  pub explanation : String
  pub evidence : List String
  pub policy_action : EnforcementAction
  pub status : IncidentStatus
  pub child_explanation : Option String
  pub deduplication_key : String
  pub created_at : ℕ
  pub updated_at : ℕ

-- All commands have the type UNLOCK_APPLICATION.
pub record CommandRow : Type 0 where
  pub id : ℕ
  pub family_id : String
  pub device_id : String
  pub incident_id : String
  pub application : String
  pub status : CommandStatus
  pub created_at : ℕ

-- `next_command` is AUTOINCREMENT's next id.
pub record Store : Type 0 where
  pub children : List ChildRow
  pub devices : List DeviceRow
  pub incidents : List IncidentRow
  pub commands : List CommandRow
  pub next_command : ℕ

pub data StoreError : Type 0 where
  key_error : String → StoreError
  value_error : String → StoreError
  integrity_error : StoreError
