-- ===== src/Auth/Sessions.antt =====
-- Sessions, login attempts and reset tokens of api/storage.py.
use hackaton_open_ai.Prelude.{
  ℕ, ◌-◌, String, Bool, true, false, not, ◌&&◌, ◌||◌, Option, none, some, ◌∷◌, ltb, leb, ◌==◌,
  string_eq, if◌then◌else◌, find, any, keep, Result, ok, err,
}
use hackaton_open_ai.Store.Where.{update_where, count_where}
use hackaton_open_ai.Auth.{
  Accounts, AccountError, integrity_error, SessionRow, AccountRow, MembershipRow, ResetRow,
  FamilyScope, is_set, is_current, account_active, family_active, member_named,
}

-- token_hash is UNIQUE, and the membership is a foreign key.
unfoldable pub create_auth_session :
    FamilyScope → String → String → ℕ → String → ℕ → Accounts → Result AccountError Accounts
create_auth_session scope token_hash csrf_hash expires_at id now s =
    if any (λ (r : SessionRow). (r.token_hash == token_hash) || (r.id == id)) s.sessions
      || not (any (member_named scope.account_id scope.family_id scope.membership_id) s.memberships)
    then err integrity_error
    else ok (record s {
      sessions =
          record {
            id = id;
            token_hash = token_hash;
            csrf_hash = csrf_hash;
            account_id = scope.account_id;
            family_id = scope.family_id;
            membership_id = scope.membership_id;
            created_at = now;
            expires_at = expires_at;
            last_seen_at = now;
            revoked_at = none;
          }
          ∷ s.sessions;
    })

-- The session's own conditions, and those of the rows that it is joined with.
abbrev pub is_live : String → ℕ → SessionRow → Bool
is_live token_hash now r =
    (r.token_hash == token_hash) && not (is_set r.revoked_at) && ltb now r.expires_at

abbrev pub member_of : SessionRow → MembershipRow → Bool
member_of r m = member_named r.account_id r.family_id r.membership_id m && is_current m.status

abbrev pub is_joined : Accounts → SessionRow → Bool
is_joined s r =
    account_active r.account_id s.accounts
    && family_active r.family_id s.families
    && any (member_of r) s.memberships

abbrev pub seen : ℕ → SessionRow → SessionRow
seen now r = record r { last_seen_at = now }

unfoldable pub resolve_family_scope : String → ℕ → Accounts → Option FamilyScope × Accounts
resolve_family_scope token_hash now s =
    elim (find (λ r. is_live token_hash now r && is_joined s r) s.sessions) [
      | none ↦ (none, s)
      | some r ↦ elim (find (member_of r) s.memberships) [
        | none ↦ (none, s)
        | some m ↦ (
          some (record {
            account_id = r.account_id;
            family_id = r.family_id;
            membership_id = r.membership_id;
            role = m.role;
          }),
          record s {
            sessions =
                update_where (λ (x : SessionRow). x.token_hash == token_hash) (seen now) s.sessions;
          },
        )
      ]
    ]

unfoldable pub auth_session_csrf_hash : String → ℕ → Accounts → Option String
auth_session_csrf_hash token_hash now s = elim (find (is_live token_hash now) s.sessions) [
  | none ↦ none
  | some r ↦ some r.csrf_hash
]

abbrev pub revoke_session : ℕ → SessionRow → SessionRow
revoke_session now r = record r { revoked_at = some now }

unfoldable pub revoke_auth_session : String → ℕ → Accounts → Accounts
revoke_auth_session token_hash now s = record s {
  sessions =
      update_where (λ r. (r.token_hash == token_hash) && not (is_set r.revoked_at))
        (revoke_session now) s.sessions;
}

unfoldable pub revoke_account_sessions : String → ℕ → Accounts → Accounts
revoke_account_sessions account now s = record s {
  sessions =
      update_where (λ r. (r.account_id == account) && not (is_set r.revoked_at))
        (revoke_session now) s.sessions;
}

-- The attempts before the window are deleted, those of others too.
unfoldable pub login_attempt_count : String → ℕ → ℕ → Accounts → ℕ × Accounts
login_attempt_count identifier window now s =
    let kept = keep (λ a. leb (now - window) a.attempted_at) s.attempts in
    (count_where (λ a. a.identifier_hash == identifier) kept, record s { attempts = kept })

unfoldable pub record_login_attempt : String → ℕ → Accounts → Accounts
record_login_attempt identifier now s = record s {
  attempts = record { identifier_hash = identifier; attempted_at = now } ∷ s.attempts;
}

unfoldable pub clear_login_attempts : String → Accounts → Accounts
clear_login_attempts identifier s = record s {
  attempts = keep (λ a. not (a.identifier_hash == identifier)) s.attempts;
}

abbrev pub use_reset : ℕ → ResetRow → ResetRow
use_reset now r = record r { used_at = some now }

-- The account's other tokens are used up; token_hash is UNIQUE, and the account is a foreign key.
unfoldable pub create_password_reset_token :
    String → String → ℕ → String → ℕ → Accounts → Result AccountError Accounts
create_password_reset_token account token_hash expires_at id now s =
    if any (λ (r : ResetRow). (r.token_hash == token_hash) || (r.id == id)) s.resets
      || not (any (λ (a : AccountRow). a.id == account) s.accounts)
    then err integrity_error
    else ok (record s {
      resets =
          record {
            id = id;
            account_id = account;
            token_hash = token_hash;
            created_at = now;
            expires_at = expires_at;
            used_at = none;
          }
          ∷ update_where (λ r. (r.account_id == account) && not (is_set r.used_at)) (use_reset now)
              s.resets;
    })

abbrev pub can_reset : String → ℕ → ResetRow → Bool
can_reset token_hash now r =
    (r.token_hash == token_hash) && not (is_set r.used_at) && ltb now r.expires_at

abbrev pub set_password : String → AccountRow → AccountRow
set_password password_hash a = record a { password_hash = some password_hash }

-- The row's id is the primary key, so the UPDATE by it finds the row that was read.
unfoldable pub consume_password_reset_token : String → String → ℕ → Accounts → Bool × Accounts
unfolding revoke_account_sessions
consume_password_reset_token token_hash password_hash now s =
    elim (find (can_reset token_hash now) s.resets) [
      | none ↦ (false, s)
      | some row ↦ (
        true,
        revoke_account_sessions row.account_id now (record s {
          resets =
              update_where (λ r. (r.id == row.id) && not (is_set r.used_at) && ltb now r.expires_at)
                (use_reset now) s.resets;
          accounts =
              update_where (λ a. (a.id == row.account_id) && a.auth_enabled)
                (set_password password_hash) s.accounts;
        }),
      )
    ]
