-- ===== src/Auth/Moves.antt =====
-- Each call of the account operations moves the sessions and the memberships as their relations say.
use Prim.Native.String
use hackaton_open_ai.Prelude.{
  ℕ, ◌+◌, ◌≡◌, refl, subst, String, Bool, true, false, not, ◌&&◌, ◌||◌, Option, none, some, List,
  ◌∷◌, any, find, leb, ◌==◌, string_eq, Result, ok, err, arith, Bool-cases, Option-cases,
  Result-cases, inl, inr, ◌⊎◌, ltb, any_none,
}
use hackaton_open_ai.Auth.{
  Accounts, AccountError, AccountRow, FamilyRow, ResetRow, SessionRow, MembershipRow, FamilyScope,
  is_set, is_current, account_active, member_named, owner, is_owner, MembershipRole,
  integrity_error,
}
use hackaton_open_ai.Auth.Members.{
  Texts, create_account, create_family_with_owner, add_membership, revoke_membership,
  insert_membership, names_member, new_member, get_login_credentials, is_active_owner,
  active_family_scope, account_id_for_recovery,
}
use hackaton_open_ai.Auth.Sessions.{
  resolve_family_scope, revoke_auth_session, revoke_account_sessions, create_auth_session, seen,
  revoke_session, is_live, is_joined, member_of, create_password_reset_token,
  consume_password_reset_token, can_reset, login_attempt_count, record_login_attempt,
  clear_login_attempts,
}
use hackaton_open_ai.Auth.Login.{
  Secrets, LoginRequest, NewSession, login, check_login, enter, opened_session,
  request_password_reset, complete_password_reset, max_login_attempts, login_window, session_ttl,
  password_reset_ttl,
}
use hackaton_open_ai.Auth.Run.{
  Call, account, family, member, dismiss, resolve, leave, leave_all, ask_reset, reset,
  kept_on_error, asked, step, Moves, SessionMove, MemberMove, opened, moved, founded, joined,
  dismissed,
}

abbrev still : {s : Accounts} → Moves s s
still = record { sessions = SessionMove.unmoved; members = MemberMove.unmoved }

insert_cases :
    (m : MembershipRow) (rows : List MembershipRow)
    → ((e : AccountError) × (insert_membership m rows ≡ err e))
      ⊎ ((insert_membership m rows ≡ ok (m ∷ rows)) × (any (λ r. r.id == m.id) rows ≡ false))
unfolding insert_membership
insert_cases m rows =
    let taken : MembershipRow → Bool =
      λ r. (r.id == m.id) || ((r.account_id == m.account_id) && (r.family_id == m.family_id)) in
    elim (Bool-cases (any taken rows)) [
      | inl e ↦ inl (integrity_error, rw e refl)
      | inr e ↦
          inr (rw e refl, any_none (λ r. r.id == m.id) taken rows (λ r h. ground (arith, h)) e)
    ]

account-Moves :
    (x : Texts) (email hash id : String) (now : ℕ) (s : Accounts)
    → Moves s (kept_on_error (create_account x email hash id now s) s)
unfolding create_account
account-Moves x email hash id now s =
    let normalized = x.normalize email in
    elim (Bool-cases ((normalized == "") || not (x.has_at normalized) || x.has_space normalized)) [
      | inl a ↦ rw a still
      | inr a ↦ elim (Bool-cases (hash == "")) [
        | inl b ↦ rw (a, b) still
        | inr b ↦
            elim (Bool-cases
              (any (λ (r : AccountRow). (r.id == id) || (r.email == normalized)) s.accounts)) [
                | inl c ↦ rw (a, b, c) still
                | inr c ↦
                    rw (a, b, c)
                      (record { sessions = SessionMove.unmoved; members = MemberMove.unmoved })
              ]
      ]
    ]

family-Moves :
    (x : Texts) (owner_id name family_id id : String) (now : ℕ) (s : Accounts)
    → Moves s (kept_on_error (create_family_with_owner x owner_id name family_id id now s) s)
unfolding create_family_with_owner
family-Moves x owner_id name family_id id now s = elim (Bool-cases (x.strip name == "")) [
  | inl a ↦ rw a still
  | inr a ↦ elim (Bool-cases (account_active owner_id s.accounts)) [
    | inr b ↦ rw (a, b) still
    | inl b ↦
        elim (Bool-cases (
          any (λ (f : FamilyRow). f.id == family_id) s.families
          || ltb 120 (String.count (x.strip name)))) [
            | inl c ↦ rw (a, b, c) still
            | inr c ↦
                elim (insert_cases (new_member id owner_id family_id owner now) s.memberships) [
                  | inl (e, d) ↦ rw (a, b, c, d) still
                  | inr (d, free) ↦
                      rw (a, b, c, d)
                        (record {
                          sessions = SessionMove.unmoved;
                          members = founded _ _ free refl refl;
                        })
                ]
          ]
  ]
]

member-Moves :
    (account_id family_id : String) (role : MembershipRole) (id : String) (now : ℕ) (s : Accounts)
    → Moves s (kept_on_error (add_membership account_id family_id role id now s) s)
unfolding add_membership
member-Moves account_id family_id role id now s =
    elim (Bool-cases (
      not (any (λ (a : AccountRow). a.id == account_id) s.accounts)
      || not (any (λ (f : FamilyRow). f.id == family_id) s.families))) [
        | inl a ↦ rw a still
        | inr a ↦ elim (insert_cases (new_member id account_id family_id role now) s.memberships) [
          | inl (e, d) ↦ rw (a, d) still
          | inr (d, free) ↦
              rw (a, d) (record { sessions = SessionMove.unmoved; members = joined _ free })
        ]
      ]

dismiss-Moves :
    (family_id id : String) (now : ℕ) (s : Accounts)
    → Moves s (kept_on_error (revoke_membership family_id id now s) s)
unfolding revoke_membership
dismiss-Moves family_id id now s =
    elim (Option-cases
      (find (λ m. names_member family_id id m && is_current m.status) s.memberships)) [
        | inl a ↦ rw (a, revoke_membership) still
        | inr (m, a) ↦
            elim (Bool-cases (
              is_owner m.role
              && not (any (λ o. is_active_owner family_id o && not (o.id == id)) s.memberships))) [
                | inl b ↦ rw (a, revoke_membership, b) still
                | inr b ↦
                    rw (a, revoke_membership, b)
                      (record {
                        sessions = SessionMove.unmoved;
                        members = dismissed family_id id now m a b;
                      })
              ]
      ]

resolve-Moves :
    (token_hash : String) (now : ℕ) (s : Accounts)
    → Moves s (resolve_family_scope token_hash now s).1
unfolding resolve_family_scope
resolve-Moves token_hash now s =
    elim (Option-cases (find (λ r. is_live token_hash now r && is_joined s r) s.sessions)) [
      | inl a ↦ rw (a, resolve_family_scope) still
      | inr (r, a) ↦ elim (Option-cases (find (member_of r) s.memberships)) [
        | inl b ↦ rw (a, resolve_family_scope, b) still
        | inr (m, b) ↦
            rw (a, resolve_family_scope, b)
              (record {
                sessions = moved _ (seen now) (λ r. refl) (λ r. refl) (λ r h. h);
                members = MemberMove.unmoved;
              })
      ]
    ]

create-Moves :
    (scope : FamilyScope) (token_hash csrf_hash : String) (expires : ℕ) (id : String) (now : ℕ)
    (s : Accounts)
    → Moves s (kept_on_error (create_auth_session scope token_hash csrf_hash expires id now s) s)
unfolding create_auth_session
create-Moves scope token_hash csrf_hash expires id now s =
    let taken : SessionRow → Bool = λ r. (r.token_hash == token_hash) || (r.id == id) in
    elim (Bool-cases (
      any taken s.sessions
      || not (
          any (member_named scope.account_id scope.family_id scope.membership_id) s.memberships))) [
            | inl a ↦ rw a still
            | inr a ↦ rw a (record {
              sessions = opened _ (
                  any_none (λ r. r.token_hash == token_hash) taken s.sessions
                    (λ r h. ground (arith, h)) (ground (arith, a)));
              members = MemberMove.unmoved;
            })
          ]

revoke_account-Moves :
    (id : String) (now : ℕ) (s : Accounts) → Moves s (revoke_account_sessions id now s)
unfolding revoke_account_sessions
revoke_account-Moves id now s = record {
  sessions = moved _ (revoke_session now) (λ r. refl) (λ r. refl) (λ r h. refl);
  members = MemberMove.unmoved;
}

leave-Moves :
    (token_hash : String) (now : ℕ) (s : Accounts) → Moves s (revoke_auth_session token_hash now s)
unfolding revoke_auth_session
leave-Moves token_hash now s = record {
  sessions = moved _ (revoke_session now) (λ r. refl) (λ r. refl) (λ r h. refl);
  members = MemberMove.unmoved;
}

-- What follows the clearing of the attempts.
opened-Moves :
    (session : NewSession) (s : Accounts) (made : Result AccountError Accounts)
    → Moves s (kept_on_error made s)
    → Moves s (opened_session session s made).1
opened-Moves session s (ok t) m = m
opened-Moves session s (err e) m = m

enter-Moves :
    (x : Secrets) (q : LoginRequest) (identifier account_id token csrf_token id : String) (now : ℕ)
    (s : Accounts)
    → Moves s (enter x q identifier account_id token csrf_token id now s).1
unfolding enter record_login_attempt clear_login_attempts
enter-Moves x q identifier account_id token csrf_token id now s =
    elim (Option-cases (active_family_scope account_id q.family_id s)) [
      | inl a ↦
          rw (a, enter) (record { sessions = SessionMove.unmoved; members = MemberMove.unmoved })
      | inr (scope, a) ↦
          let cleared = clear_login_attempts identifier s in
          let moves =
            opened-Moves
              (record {
                scope = scope;
                token = token;
                csrf_token = csrf_token;
                expires_at = now + session_ttl;
              })
              cleared
              (create_auth_session scope (x.token_hash token) (x.token_hash csrf_token)
                (now + session_ttl) id now cleared)
              (create-Moves scope (x.token_hash token) (x.token_hash csrf_token) (now + session_ttl)
                id now cleared) in
          rw (a, enter) (record { sessions = moves.sessions; members = moves.members })
    ]

check-Moves :
    (x : Secrets) (q : LoginRequest) (identifier token csrf_token id : String) (now : ℕ)
    (s : Accounts) (found : Option (String × String × Bool))
    → Moves s (check_login x q identifier token csrf_token id now s found).1
unfolding check_login record_login_attempt
check-Moves x q identifier token csrf_token id now s none = record {
  sessions = SessionMove.unmoved;
  members = MemberMove.unmoved;
}
check-Moves x q identifier token csrf_token id now s (some (account_id, hash, enabled)) =
    elim (Bool-cases (not enabled || not (x.verify_password q.password hash))) [
      | inl c ↦ rw c (record { sessions = SessionMove.unmoved; members = MemberMove.unmoved })
      | inr c ↦ rw c (enter-Moves x q identifier account_id token csrf_token id now s)
    ]

login-Moves :
    (x : Secrets) (q : LoginRequest) (token csrf_token id : String) (now : ℕ) (s : Accounts)
    → Moves s (login x q token csrf_token id now s).1
unfolding login login_attempt_count
login-Moves x q token csrf_token id now s =
    let identifier = x.token_hash (x.texts.normalize q.email) in
    let counted = login_attempt_count identifier login_window now s in
    elim (Bool-cases (leb max_login_attempts counted.0)) [
      | inl a ↦ rw a (record { sessions = SessionMove.unmoved; members = MemberMove.unmoved })
      | inr a ↦
          let moves =
            check-Moves x q identifier token csrf_token id now counted.1
              (get_login_credentials x.texts (x.texts.normalize q.email) counted.1) in
          rw a (record { sessions = moves.sessions; members = moves.members })
    ]

-- A reset token leaves the sessions and the memberships.
reset_kept :
    (account_id token_hash id : String) (now : ℕ) (s t : Accounts)
    → create_password_reset_token account_id token_hash (now + password_reset_ttl) id now s ≡ ok t
    → Moves s t
unfolding create_password_reset_token
reset_kept account_id token_hash id now s t h =
    elim (Bool-cases (
      any (λ (r : ResetRow). (r.token_hash == token_hash) || (r.id == id)) s.resets
      || not (any (λ (a : AccountRow). a.id == account_id) s.accounts))) [
        | inl a ↦ absurd (ground (arith, a, h))
        | inr a ↦
            let sessions : s.sessions ≡ t.sessions = ground (arith, a, h) in
            let families : s.families ≡ t.families = ground (arith, a, h) in
            let members : s.memberships ≡ t.memberships = ground (arith, a, h) in
            record {
              sessions = subst (SessionMove s.sessions) sessions SessionMove.unmoved;
              members =
                  subst (λ f. MemberMove s.families s.memberships f t.memberships) families
                    (subst (MemberMove s.families s.memberships s.families) members
                      MemberMove.unmoved);
            }
      ]

ask_reset-Moves :
    (x : Secrets) (email : String) (has_notifier : Bool) (token id : String) (now : ℕ)
    (s : Accounts)
    → Moves s (asked (request_password_reset x email has_notifier token id now s) s)
unfolding request_password_reset create_password_reset_token
ask_reset-Moves x email false token id now s = still
ask_reset-Moves x email true token id now s =
    elim (Option-cases (account_id_for_recovery x.texts (x.texts.normalize email) s)) [
      | inl a ↦ rw (a, request_password_reset) still
      | inr (found, a) ↦
          elim (Result-cases (
            create_password_reset_token found (x.token_hash token) (now + password_reset_ttl) id now
              s)) [
                | inl (e, b) ↦ rw (a, request_password_reset, b) still
                | inr (t, b) ↦
                    rw (a, request_password_reset, b)
                      (reset_kept found (x.token_hash token) id now s t b)
              ]
    ]

reset-Moves :
    (x : Secrets) (token hash : String) (now : ℕ) (s : Accounts)
    → Moves s (complete_password_reset x token hash now s).1
unfolding complete_password_reset consume_password_reset_token revoke_account_sessions
reset-Moves x token hash now s =
    elim (Option-cases (find (can_reset (x.token_hash token) now) s.resets)) [
      | inl a ↦ rw (a, complete_password_reset, consume_password_reset_token) still
      | inr (row, a) ↦
          rw (a, complete_password_reset, consume_password_reset_token)
            (record {
              sessions =
                  moved (λ r. (r.account_id == row.account_id) && not (is_set r.revoked_at))
                    (revoke_session now) (λ r. refl) (λ r. refl) (λ r h. refl);
              members = MemberMove.unmoved;
            })
    ]

pub step-Moves : (x : Secrets) (call : Call) (s : Accounts) → Moves s (step x call s)
unfolding step
step-Moves x (account email hash id now) s = account-Moves x.texts email hash id now s
step-Moves x (family owner_id name family_id id now) s =
    family-Moves x.texts owner_id name family_id id now s
step-Moves x (member account_id family_id role id now) s =
    member-Moves account_id family_id role id now s
step-Moves x (dismiss family_id id now) s = dismiss-Moves family_id id now s
step-Moves x (Call.enter q token csrf_token id now) s = login-Moves x q token csrf_token id now s
step-Moves x (resolve token_hash now) s = resolve-Moves token_hash now s
step-Moves x (leave token_hash now) s = leave-Moves token_hash now s
step-Moves x (leave_all account_id now) s = revoke_account-Moves account_id now s
step-Moves x (ask_reset email has_notifier token id now) s =
    ask_reset-Moves x email has_notifier token id now s
step-Moves x (reset token hash now) s = reset-Moves x token hash now s
