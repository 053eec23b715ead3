-- ===== src/Auth/Lockout.antt =====
-- The attempts that `login` of api/auth.py counts: five that fail lock an email.
use hackaton_open_ai.Prelude.{
  ℕ, zero, suc, ◌+◌, ◌≤◌, ◌≡◌, String, Bool, ◌&&◌, leb, ◌==◌, string_eq, err,
}
use hackaton_open_ai.Store.Where.{count_where}
use hackaton_open_ai.Auth.{Accounts, AttemptRow}
use hackaton_open_ai.Auth.Login.{Secrets, LoginRequest, authentication_failed, login, login_window}

-- The attempts of an identifier since a time.
abbrev since : String → ℕ → AttemptRow → Bool
since identifier start a = (a.identifier_hash == identifier) && leb start a.attempted_at

module _ (x : Secrets) (email : String) (start : ℕ) where
  abbrev failed_since : Accounts → ℕ
  failed_since s = count_where (since (x.token_hash email) start) s.attempts

  -- Attempts that fail, each after `start` and in the window that begins there.
  pub data Failing (s : Accounts) : ℕ → Accounts → Type 0 where
    none_yet : Failing s zero s
    again :
        (n : ℕ) (u t : Accounts) (q : LoginRequest) (token csrf_token id : String) (now : ℕ)
        → Failing s n u
        → x.texts.normalize q.email ≡ email
        → start ≤ now
        → now ≤ start + login_window
        → login x q token csrf_token id now u ≡ (err authentication_failed, t)
        → Failing s (suc n) t
