-- ===== src/Auth.antt =====
-- The accounts, memberships, sessions, login attempts and reset tokens of api/storage.py, and the rows
-- that api/auth.py reads. A table is the list of its rows, the last one inserted first; times are
-- microseconds. Ids, tokens and the clock are arguments; a transaction that raises leaves the tables.
pub mod Sessions
pub mod Members
pub mod Login
pub mod Run
pub mod Moves
pub mod Ended
pub mod Dismissed
pub mod Owners
pub mod Scopes
pub mod Entry
pub mod Lockout
pub mod Requests
mod Tests
use Prim.Native.Nat.{Ordering}
use Prim.Native.String
use hackaton_open_ai.Prelude.{
  ℕ, ◌+◌, ◌*◌, String, Bool, true, false, not, ◌&&◌, ◌||◌, Option, none, some, List, [], ◌∷◌, ltb,
  leb, nat_beq, ◌==◌, string_eq, if◌then◌else◌, find, any, keep,
}

pub data MembershipRole : Type 0 where
  owner guardian : MembershipRole

pub data MembershipStatus : Type 0 where
  active revoked : MembershipStatus

-- Accounts and families are active, or disabled and waiting for their deletion.
pub record AccountRow : Type 0 where
  pub id : String
  pub email : String
  pub password_hash : Option String
  pub auth_enabled : Bool
  pub is_active : Bool
  pub created_at : ℕ

pub record FamilyRow : Type 0 where
  pub id : String
  pub name : String
  pub is_active : Bool
  pub created_at : ℕ

pub record MembershipRow : Type 0 where
  pub id : String
  pub account_id : String
  pub family_id : String
  pub role : MembershipRole
  pub status : MembershipStatus
  pub created_at : ℕ
  pub revoked_at : Option ℕ

pub record SessionRow : Type 0 where
  pub id : String
  pub token_hash : String
  pub csrf_hash : String
  pub account_id : String
  pub family_id : String
  pub membership_id : String
  pub created_at : ℕ
  pub expires_at : ℕ
  pub last_seen_at : ℕ
  pub revoked_at : Option ℕ

pub record AttemptRow : Type 0 where
  pub identifier_hash : String
  pub attempted_at : ℕ

pub record ResetRow : Type 0 where
  pub id : String
  pub account_id : String
  pub token_hash : String
  pub created_at : ℕ
  pub expires_at : ℕ
  pub used_at : Option ℕ

pub record Accounts : Type 0 where
  pub accounts : List AccountRow
  pub families : List FamilyRow
  pub memberships : List MembershipRow
  pub sessions : List SessionRow
  pub attempts : List AttemptRow
  pub resets : List ResetRow

pub data AccountError : Type 0 where
  key_error value_error integrity_error : AccountError

pub record FamilyScope : Type 0 where
  pub account_id : String
  pub family_id : String
  pub membership_id : String
  pub role : MembershipRole

abbrev pub is_owner : MembershipRole → Bool
is_owner owner = true
is_owner guardian = false

abbrev pub is_current : MembershipStatus → Bool
is_current active = true
is_current revoked = false

abbrev pub is_set {ℓ} : {A : Type ℓ} → Option A → Bool
is_set none = false
is_set (some a) = true

abbrev pub account_active : String → List AccountRow → Bool
account_active id rows = any (λ a. (a.id == id) && a.is_active) rows

abbrev pub family_active : String → List FamilyRow → Bool
family_active id rows = any (λ f. (f.id == id) && f.is_active) rows

-- The rows that the membership's JOIN finds: its primary key is its id.
abbrev pub member_named : String → String → String → MembershipRow → Bool
member_named account family id m =
    (m.id == id) && (m.account_id == account) && (m.family_id == family)
