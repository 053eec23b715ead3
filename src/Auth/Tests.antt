-- ===== src/Auth/Tests.antt =====
-- A family with an owner and a guardian, and a password that is forgotten.
use hackaton_open_ai.Prelude.{
  ℕ, ◌+◌, ◌≡◌, ◌≢◌, ◌≤◌, refl, String, true, false, none, some, List, [], ◌∷◌, map, ◌==◌, string_eq,
  apart, ok, arith,
}
use hackaton_open_ai.Store.Where.{count_where, update_where}
use hackaton_open_ai.Auth.{
  Accounts, AccountRow, MembershipRow, SessionRow, ResetRow, owner, guardian, active,
}
use hackaton_open_ai.Auth.Members.{
  Texts, revoke_membership, revoke_member, get_login_credentials, active_family_scope, first_member,
}
use hackaton_open_ai.Auth.Sessions.{
  resolve_family_scope, revoke_session, auth_session_csrf_hash, revoke_account_sessions,
  login_attempt_count, clear_login_attempts, create_auth_session, consume_password_reset_token,
}
use hackaton_open_ai.Auth.Login.{
  Secrets, WebRequest, require_family_scope, require_mutation_scope, LoginRequest, NewSession,
  login, check_login, enter, complete_password_reset, session_ttl,
}
use hackaton_open_ai.Auth.Run.{Call, run, step, dismiss, resolve, member, family}
use hackaton_open_ai.Auth.Ended.{reset_ends_sessions}
use hackaton_open_ai.Auth.Dismissed.{dismissed_forever}
use hackaton_open_ai.Auth.Owners.{IsOwned, run-IsOwned}
use hackaton_open_ai.Auth.Entry.{IsEntered, login_resolves}

abbrev texts : Texts
texts = record { normalize = λ t. t; strip = λ t. t; has_at = λ t. true; has_space = λ t. false }

abbrev secrets : Secrets
secrets = record {
  texts = texts;
  token_hash = λ t. t;
  verify_password = λ password hash. password == hash;
}

abbrev parent : AccountRow
parent = record {
  id = "account-1";
  email = "parent@home";
  password_hash = some "secret";
  auth_enabled = true;
  is_active = true;
  created_at = 0;
}

abbrev mother : MembershipRow
mother = record {
  id = "member-1";
  account_id = "account-1";
  family_id = "family-1";
  role = owner;
  status = active;
  created_at = 0;
  revoked_at = none;
}

abbrev helper : MembershipRow
helper = record mother { id = "member-2"; account_id = "account-2"; role = guardian }

abbrev start : Accounts
start = record {
  accounts = parent ∷ record parent { id = "account-2"; email = "helper@home" } ∷ [];
  families = record { id = "family-1"; name = "Home"; is_active = true; created_at = 0 } ∷ [];
  memberships = helper ∷ mother ∷ [];
  sessions = [];
  attempts = [];
  resets = [];
}

abbrev asks : String → String → LoginRequest
asks email password = record { email = email; password = password; family_id = none }

abbrev session : NewSession
session = record {
  scope = record {
    account_id = "account-1";
    family_id = "family-1";
    membership_id = "member-1";
    role = owner;
  };
  token = "t-1";
  csrf_token = "c-1";
  expires_at = 5 + session_ttl;
}

once_each : (id : String) → count_where (λ (m : MembershipRow). m.id == id) start.memberships ≤ 1
unfolding count_where
once_each id = ground (arith, apart "member-2" "member-1" id refl)

abbrev inside : Accounts
inside = record start {
  sessions =
      record {
        id = "s-1";
        token_hash = "t-1";
        csrf_hash = "c-1";
        account_id = "account-1";
        family_id = "family-1";
        membership_id = "member-1";
        created_at = 5;
        expires_at = 5 + session_ttl;
        last_seen_at = 5;
        revoked_at = none;
      }
      ∷ [];
}

abbrev calls : List Call
calls =
    resolve "t-1" 20
    ∷ Call.enter (asks "parent@home" "secret") "t-2" "c-2" "s-2" 30
    ∷ member "account-1" "family-1" guardian "member-3" 40
    ∷ []

entered :
    login secrets (asks "parent@home" "secret") "t-1" "c-1" "s-1" 5 start ≡ (ok session, inside)
unfolding login check_login enter login_attempt_count get_login_credentials active_family_scope
    first_member clear_login_attempts create_auth_session count_where
entered = refl

login_resolves_example :
    IsEntered secrets (asks "parent@home" "secret") "t-1" "c-1" "s-1" 5 session start inside
    × ((resolve_family_scope "t-1" 900 inside).0 ≡ some session.scope)
login_resolves_example =
    login_resolves secrets (asks "parent@home" "secret") "t-1" "c-1" "s-1" 5 900 session start
      inside once_each entered (omega arith)

abbrev reset_row : ResetRow
reset_row = record {
  id = "r-1";
  account_id = "account-1";
  token_hash = "reset-1";
  created_at = 6;
  expires_at = 600;
  used_at = none;
}

abbrev forgotten : Accounts
forgotten = record inside { resets = reset_row ∷ [] }

abbrev recovered : Accounts
recovered = record inside {
  accounts =
      record parent { password_hash = some "other" }
      ∷ record parent { id = "account-2"; email = "helper@home" }
      ∷ [];
  sessions = map (revoke_session 7) inside.sessions;
  resets = record reset_row { used_at = some 7 } ∷ [];
}

reset_run : complete_password_reset secrets "reset-1" "other" 7 forgotten ≡ (true, recovered)
unfolding complete_password_reset consume_password_reset_token revoke_account_sessions update_where
reset_run = refl

reset_once : count_where (λ (r : SessionRow). r.token_hash == "t-1") forgotten.sessions ≤ 1
unfolding count_where
reset_once = omega arith

reset_ends_sessions_example : (resolve_family_scope "t-1" 90 (run secrets calls recovered)).0 ≡ none
reset_ends_sessions_example =
    reset_ends_sessions secrets "reset-1" "other" "t-1" 7 90 reset_row calls forgotten recovered
      refl reset_run reset_once refl

abbrev dismissed_rows : Accounts
dismissed_rows = record inside { memberships = revoke_member 8 helper ∷ mother ∷ [] }

dismissed_run : revoke_membership "family-1" "member-2" 8 inside ≡ ok dismissed_rows
unfolding revoke_membership update_where
dismissed_run = refl

resolved_run :
    (resolve_family_scope "t-1" 90 (run secrets (resolve "t-1" 20 ∷ []) dismissed_rows)).0
    ≡ some session.scope
unfolding run step resolve_family_scope update_where
resolved_run = refl

dismissed_forever_example : session.scope.membership_id ≢ "member-2"
dismissed_forever_example =
    dismissed_forever secrets "family-1" "member-2" "t-1" 8 90 (resolve "t-1" 20 ∷ []) session.scope
      inside dismissed_rows (once_each "member-2") dismissed_run resolved_run

start-IsOwned : IsOwned start.families start.memberships
start-IsOwned = record { once = once_each; owned = (refl, tt) }

abbrev changes : List Call
changes =
    family "account-2" "Second home" "family-2" "member-4" 10
    ∷ dismiss "family-1" "member-1" 20
    ∷ dismiss "family-1" "member-2" 30
    ∷ calls

run-IsOwned_example :
    IsOwned (run secrets changes start).families (run secrets changes start).memberships
run-IsOwned_example = run-IsOwned secrets changes start start-IsOwned

abbrev guess : LoginRequest
guess = asks "parent@home" "guess"

-- The accounts after failed attempts at these times.
abbrev tried : List ℕ → Accounts
tried times = record start {
  attempts = map (λ t. record { identifier_hash = "parent@home"; attempted_at = t }) times;
}

abbrev change_request : WebRequest
change_request = record {
  client_host = "10.0.0.7";
  demo_header = true;
  session_cookie = some "t-1";
  csrf_cookie = some "c-1";
  csrf_header = some "c-1";
}

permitted_run :
    (require_mutation_scope secrets true change_request 20 21 inside).0 ≡ ok session.scope
unfolding require_mutation_scope require_family_scope resolve_family_scope auth_session_csrf_hash
    update_where
permitted_run = refl
