-- ===== src/Auth/Run.antt =====
-- Sequences of calls of the account operations of api/storage.py and api/auth.py, and what a call can do
-- to the sessions and the memberships.
use hackaton_open_ai.Prelude.{
  ℕ, ◌≡◌, String, Bool, true, false, not, ◌&&◌, Option, some, List, [], ◌∷◌, any, find, ◌==◌,
  string_eq, Result, ok, err,
}
use hackaton_open_ai.Store.Where.{update_where}
use hackaton_open_ai.Auth.{
  Accounts, AccountError, SessionRow, FamilyRow, MembershipRow, is_owner, MembershipRole, is_set,
  is_current,
}
use hackaton_open_ai.Auth.Members.{
  create_account, create_family_with_owner, add_membership, revoke_membership, names_member,
  revoke_member, is_active_owner,
}
use hackaton_open_ai.Auth.Sessions.{
  resolve_family_scope, revoke_auth_session, revoke_account_sessions,
}
use hackaton_open_ai.Auth.Login.{
  Secrets, LoginRequest, login, request_password_reset, complete_password_reset,
}

-- One call, with what it would draw and the clock.
pub data Call : Type 0 where
  account : String → String → String → ℕ → Call
  family : String → String → String → String → ℕ → Call
  member : String → String → MembershipRole → String → ℕ → Call
  dismiss : String → String → ℕ → Call
  enter : LoginRequest → String → String → String → ℕ → Call
  resolve : String → ℕ → Call
  leave : String → ℕ → Call
  leave_all : String → ℕ → Call
  ask_reset : String → Bool → String → String → ℕ → Call
  reset : String → String → ℕ → Call

abbrev pub kept_on_error : Result AccountError Accounts → Accounts → Accounts
kept_on_error (ok s') s = s'
kept_on_error (err e) s = s

abbrev pub asked : Result AccountError (Option (String × String) × Accounts) → Accounts → Accounts
asked (ok (notified, s')) s = s'
asked (err e) s = s

module _ (x : Secrets) where
  unfoldable pub step : Call → Accounts → Accounts
  step (account email hash id now) s = kept_on_error (create_account x.texts email hash id now s) s
  step (family owner_id name family_id membership_id now) s =
      kept_on_error (create_family_with_owner x.texts owner_id name family_id membership_id now s) s
  step (member account_id family_id role id now) s =
      kept_on_error (add_membership account_id family_id role id now s) s
  step (dismiss family_id id now) s = kept_on_error (revoke_membership family_id id now s) s
  step (enter q token csrf_token id now) s = (login x q token csrf_token id now s).1
  step (resolve token_hash now) s = (resolve_family_scope token_hash now s).1
  step (leave token_hash now) s = revoke_auth_session token_hash now s
  step (leave_all account_id now) s = revoke_account_sessions account_id now s
  step (ask_reset email has_notifier token id now) s =
      asked (request_password_reset x email has_notifier token id now s) s
  step (reset token hash now) s = (complete_password_reset x token hash now s).1

  unfoldable pub run : List Call → Accounts → Accounts
  run [] s = s
  run (call ∷ calls) s = run calls (step call s)

-- A session is new, with a new token, or keeps its token and its end.
pub data SessionMove (rows : List SessionRow) : List SessionRow → Type 0 where
  unmoved : SessionMove rows rows
  opened :
      (c : SessionRow)
      → any (λ r. r.token_hash == c.token_hash) rows ≡ false
      → SessionMove rows (c ∷ rows)
  moved :
      (test : SessionRow → Bool) (change : SessionRow → SessionRow)
      → ((r : SessionRow) → (change r).token_hash ≡ r.token_hash)
      → ((r : SessionRow) → (change r).membership_id ≡ r.membership_id)
      → ((r : SessionRow) → is_set r.revoked_at ≡ true → is_set (change r).revoked_at ≡ true)
      → SessionMove rows (update_where test change rows)

-- A family is founded by its owner, a membership is new, with a new id, or one is revoked that is not the
-- last active owner's.
pub data MemberMove (families : List FamilyRow) (rows : List MembershipRow)
    : List FamilyRow → List MembershipRow → Type 0 where
  unmoved : MemberMove families rows families rows
  founded :
      (f : FamilyRow) (m : MembershipRow)
      → any (λ r. r.id == m.id) rows ≡ false
      → m.family_id ≡ f.id
      → (is_owner m.role && is_current m.status) ≡ true
      → MemberMove families rows (f ∷ families) (m ∷ rows)
  joined :
      (m : MembershipRow)
      → any (λ r. r.id == m.id) rows ≡ false
      → MemberMove families rows families (m ∷ rows)
  dismissed :
      (family id : String) (now : ℕ) (m : MembershipRow)
      → find (λ r. names_member family id r && is_current r.status) rows ≡ some m
      → (is_owner m.role && not (any (λ o. is_active_owner family o && not (o.id == id)) rows))
        ≡ false
      → MemberMove families rows families
          (update_where (names_member family id) (revoke_member now) rows)

pub record Moves (s t : Accounts) : Type 0 where
  pub sessions : SessionMove s.sessions t.sessions
  pub members : MemberMove s.families s.memberships t.families t.memberships
