-- ===== src/Auth/Login.antt =====
-- api/auth.py: login, password recovery, and the scope of a request.
use hackaton_open_ai.Prelude.{
  ℕ, ◌+◌, ◌*◌, String, Bool, false, not, ◌&&◌, ◌||◌, Option, none, some, [], ◌∷◌, leb, contains,
  ◌==◌, string_eq, if◌then◌else◌, Result, ok, err,
}
use hackaton_open_ai.Auth.{Accounts, AccountError, FamilyScope, owner}
use hackaton_open_ai.Auth.Members.{
  Texts, get_login_credentials, active_family_scope, account_id_for_recovery,
}
use hackaton_open_ai.Auth.Sessions.{
  create_auth_session, resolve_family_scope, auth_session_csrf_hash, revoke_auth_session,
  login_attempt_count, record_login_attempt, clear_login_attempts, create_password_reset_token,
  consume_password_reset_token,
}

abbrev second : ℕ
second = 1000000

abbrev pub session_ttl : ℕ
session_ttl = 8 * 3600 * second

abbrev pub max_login_attempts : ℕ
max_login_attempts = 5

abbrev pub login_window : ℕ
login_window = 15 * 60 * second

abbrev pub password_reset_ttl : ℕ
password_reset_ttl = 30 * 60 * second

-- SHA-256 of a token, and the check of a password against its scrypt hash.
pub record Secrets : Type 0 where
  pub texts : Texts
  pub token_hash : String → String
  pub verify_password : String → String → Bool

pub record LoginRequest : Type 0 where
  pub email : String
  pub password : String
  pub family_id : Option String

pub record NewSession : Type 0 where
  pub scope : FamilyScope
  pub token : String
  pub csrf_token : String
  pub expires_at : ℕ

pub data LoginError : Type 0 where
  authentication_failed login_rate_limited : LoginError
  store_error : AccountError → LoginError

abbrev pub opened_session :
    NewSession → Accounts → Result AccountError Accounts → Result LoginError NewSession × Accounts
opened_session session s (ok s') = (ok session, s')
opened_session session s (err e) = (err (store_error e), s)

module _ (x : Secrets) where
  -- Once the password is checked: the scope, the attempts, and the session.
  unfoldable pub enter :
      LoginRequest
      → String
      → String
      → String
      → String
      → String
      → ℕ
      → Accounts
      → Result LoginError NewSession × Accounts
  enter q identifier account token csrf_token id now s =
      elim (active_family_scope account q.family_id s) [
        | none ↦ (err authentication_failed, record_login_attempt identifier now s)
        | some scope ↦
            let cleared = clear_login_attempts identifier s in
            let session : NewSession = record {
              scope = scope;
              token = token;
              csrf_token = csrf_token;
              expires_at = now + session_ttl;
            } in
            opened_session session cleared (
              create_auth_session scope (x.token_hash token) (x.token_hash csrf_token)
                (now + session_ttl) id now cleared)
      ]

  -- What follows the look-up of the account. The password of an unknown account is checked against a
  -- dummy hash, and the answer is not used.
  unfoldable pub check_login :
      LoginRequest
      → String
      → String
      → String
      → String
      → ℕ
      → Accounts
      → Option (String × String × Bool)
      → Result LoginError NewSession × Accounts
  check_login q identifier token csrf_token id now s none =
      (err authentication_failed, record_login_attempt identifier now s)
  check_login q identifier token csrf_token id now s (some (account, hash, enabled)) =
      if not enabled || not (x.verify_password q.password hash)
      then (err authentication_failed, record_login_attempt identifier now s)
      else enter q identifier account token csrf_token id now s

  -- `login`, with the tokens and the id that it draws; each read of the clock gives `now`.
  unfoldable pub login :
      LoginRequest
      → String
      → String
      → String
      → ℕ
      → Accounts
      → Result LoginError NewSession × Accounts
  login q token csrf_token id now s =
      let normalized = x.texts.normalize q.email in
      let identifier = x.token_hash normalized in
      let (count, recent) = login_attempt_count identifier login_window now s in
      if leb max_login_attempts count
      then (err login_rate_limited, recent)
      else check_login q identifier token csrf_token id now recent
          (get_login_credentials x.texts normalized recent)

  -- What the notifier is told, if there is one: nothing where the email has no account.
  unfoldable pub request_password_reset :
      String
      → Bool
      → String
      → String
      → ℕ
      → Accounts
      → Result AccountError (Option (String × String) × Accounts)
  request_password_reset email has_notifier token id now s =
      if not has_notifier
      then ok (none, s)
      else let normalized = x.texts.normalize email in
        elim (account_id_for_recovery x.texts normalized s) [
          | none ↦ ok (none, s)
          | some account ↦
              elim (create_password_reset_token account (x.token_hash token)
                (now + password_reset_ttl) id now s) [
                  | err e ↦ err e
                  | ok s' ↦ ok (some (normalized, token), s')
                ]
        ]

  -- `hash` is what `hash_password` makes of the new password.
  unfoldable pub complete_password_reset : String → String → ℕ → Accounts → Bool × Accounts
  complete_password_reset token hash now s =
      consume_password_reset_token (x.token_hash token) hash now s

-- What `require_family_scope` reads of a request; a missing cookie is `none`.
pub record WebRequest : Type 0 where
  pub client_host : String
  pub demo_header : Bool
  pub session_cookie : Option String
  pub csrf_cookie : Option String
  pub csrf_header : Option String

pub data HttpError : Type 0 where
  unauthorized forbidden : HttpError

abbrev pub demo_scope : FamilyScope
demo_scope = record {
  account_id = "account-demo";
  family_id = "family-demo";
  membership_id = "membership-demo";
  role = owner;
}

abbrev pub is_demo : Bool → WebRequest → Bool
is_demo demo_mode q =
    demo_mode && q.demo_header && contains q.client_host ("127.0.0.1" ∷ "::1" ∷ "testclient" ∷ [])

abbrev pub text_or_empty : Option String → String
text_or_empty none = ""
text_or_empty (some t) = t

module _ (x : Secrets) where
  -- `none` stands for the 401 response.
  unfoldable pub require_family_scope :
      Bool → WebRequest → ℕ → Accounts → Option FamilyScope × Accounts
  require_family_scope demo_mode q now s =
      if is_demo demo_mode q
      then (some demo_scope, s)
      else if text_or_empty q.session_cookie == ""
      then (none, s)
      else resolve_family_scope (x.token_hash (text_or_empty q.session_cookie)) now s

  -- `compare_digest` is an equality; on a text that is not ASCII it raises, which is not modelled.
  abbrev pub csrf_valid : WebRequest → Option String → Bool
  csrf_valid q none = false
  csrf_valid q (some expected) =
      not (text_or_empty q.csrf_cookie == "")
      && not (text_or_empty q.csrf_header == "")
      && (text_or_empty q.csrf_cookie == text_or_empty q.csrf_header)
      && (expected == x.token_hash (text_or_empty q.csrf_header))

  unfoldable pub require_mutation_scope :
      Bool → WebRequest → ℕ → ℕ → Accounts → Result HttpError FamilyScope × Accounts
  require_mutation_scope demo_mode q now later s =
      let (found, s') = require_family_scope demo_mode q now s in
      elim found [
        | none ↦ (err unauthorized, s')
        | some scope ↦
            if is_demo demo_mode q
            then (ok scope, s')
            else if csrf_valid q
                (auth_session_csrf_hash (x.token_hash (text_or_empty q.session_cookie)) later s')
            then (ok scope, s')
            else (err forbidden, s')
      ]

  unfoldable pub revoke_current_session : WebRequest → ℕ → Accounts → Accounts
  revoke_current_session q now s =
      if text_or_empty q.session_cookie == ""
      then s
      else revoke_auth_session (x.token_hash (text_or_empty q.session_cookie)) now s
