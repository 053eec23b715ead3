-- ===== src/Auth/Requests.antt =====
-- `require_mutation_scope` of api/auth.py: which requests may change a family's data.
use hackaton_open_ai.Prelude.{ℕ, ◌≡◌, String, false, some, ◌==◌, string_eq}
use hackaton_open_ai.Auth.{Accounts, FamilyScope}
use hackaton_open_ai.Auth.Sessions.{resolve_family_scope, auth_session_csrf_hash}
use hackaton_open_ai.Auth.Login.{Secrets, WebRequest}

-- A request with the cookies of a live session, and a header that repeats the csrf cookie.
pub record IsPermitted (x : Secrets) (q : WebRequest) (now later : ℕ) (s : Accounts)
    (scope : FamilyScope) : Type 0 where
  pub token : String
  pub csrf : String
  pub cookie : q.session_cookie ≡ some token
  pub csrf_cookie : q.csrf_cookie ≡ some csrf
  pub csrf_header : q.csrf_header ≡ some csrf
  pub token_set : (token == "") ≡ false
  pub csrf_set : (csrf == "") ≡ false
  pub resolved : (resolve_family_scope (x.token_hash token) now s).0 ≡ some scope
  pub bound :
      auth_session_csrf_hash
        (x.token_hash token)
        later
        (resolve_family_scope (x.token_hash token) now s).1
      ≡ some (x.token_hash csrf)
