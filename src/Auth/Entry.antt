-- ===== src/Auth/Entry.antt =====
-- `login` of api/auth.py: what a session stands for, and how failed attempts lock it.
use hackaton_open_ai.Prelude.{
  ℕ, ◌+◌, ◌≤◌, ◌<◌, ◌≡◌, ◌∙◌, refl, sym, ap, subst, String, Bool, true, false, not, ◌&&◌, ◌||◌,
  Option, none, some, ◌∷◌, any, find-some, find_all, find-any, leb, ◌==◌, string_eq, eq_iff,
  ==_refl, Result, ok, err, arith, Bool-cases, Option-cases, inl, inr,
}
use hackaton_open_ai.Store.Where.{count_where}
use hackaton_open_ai.Auth.{
  Accounts, AccountError, SessionRow, MembershipRow, FamilyScope, member_named,
}
use hackaton_open_ai.Auth.Members.{get_login_credentials, active_family_scope}
use hackaton_open_ai.Auth.Sessions.{
  resolve_family_scope, create_auth_session, is_live, is_joined, member_of, login_attempt_count,
  clear_login_attempts,
}
use hackaton_open_ai.Auth.Login.{
  Secrets, LoginRequest, NewSession, login, check_login, enter, opened_session, max_login_attempts,
  login_window, session_ttl,
}
use hackaton_open_ai.Auth.Scopes.{once_unique, find_present, scoped_member}

-- What a login that succeeds has checked.
pub record IsEntered (x : Secrets) (q : LoginRequest) (token csrf_token id : String) (now : ℕ)
    (session : NewSession) (s t : Accounts) : Type 0 where
  pub account : String
  pub hash : String
  pub known :
      get_login_credentials x.texts (x.texts.normalize q.email) s ≡ some (account, hash, true)
  pub verified : x.verify_password q.password hash ≡ true
  pub scoped : active_family_scope account q.family_id s ≡ some session.scope
  pub unlocked :
      (login_attempt_count (x.token_hash (x.texts.normalize q.email)) login_window now s).0
      < max_login_attempts
  pub opened :
      (u : Accounts) × (u.accounts ≡ s.accounts)
      × (u.families ≡ s.families)
      × (u.memberships ≡ s.memberships)
      × (active_family_scope account q.family_id u ≡ some session.scope)
      × (create_auth_session session.scope
            (x.token_hash token)
            (x.token_hash csrf_token)
            (now + session_ttl)
            id
            now
            u
          ≡ ok t)

opened_ok :
    (session made : NewSession) (s t : Accounts) (result : Result AccountError Accounts)
    → opened_session made s result ≡ (ok session, t)
    → (made ≡ session) × (result ≡ ok t)
opened_ok session made s t (ok u) h = ground (arith, h)
opened_ok session made s t (err e) h = cc

module _ (x : Secrets) (q : LoginRequest) (token csrf_token id : String) (now : ℕ)
    (session : NewSession) (t : Accounts) where
  enter_ok :
      (identifier account : String) (s : Accounts)
      → enter x q identifier account token csrf_token id now s ≡ (ok session, t)
      → (active_family_scope account q.family_id s ≡ some session.scope)
        × (create_auth_session session.scope
              (x.token_hash token)
              (x.token_hash csrf_token)
              (now + session_ttl)
              id
              now
              (clear_login_attempts identifier s)
            ≡ ok t)
  unfolding enter
  enter_ok identifier account s h =
      elim (Option-cases (active_family_scope account q.family_id s)) [
        | inl e ↦ absurd (ground (arith, e, h))
        | inr (scope, e) ↦
            let made : NewSession = record {
              scope = scope;
              token = token;
              csrf_token = csrf_token;
              expires_at = now + session_ttl;
            } in
            let cleared = clear_login_attempts identifier s in
            let (same, written) =
              opened_ok session made cleared t
                (create_auth_session scope (x.token_hash token) (x.token_hash csrf_token)
                  (now + session_ttl) id now cleared)
                (ground (arith, e, h)) in
            let scopes : scope ≡ session.scope = ap (λ (k : NewSession). k.scope) same in
            (
              e ∙ ap some scopes,
              subst
                  (λ k.
                    create_auth_session k (x.token_hash token) (x.token_hash csrf_token)
                      (now + session_ttl) id now cleared
                    ≡ ok t)
                  scopes written,
            )
      ]

  check_ok :
      (identifier : String) (s : Accounts) (found : Option (String × String × Bool))
      → check_login x q identifier token csrf_token id now s found ≡ (ok session, t)
      → (account : String) × (hash : String) × (found ≡ some (account, hash, true))
        × (x.verify_password q.password hash ≡ true)
        × (enter x q identifier account token csrf_token id now s ≡ (ok session, t))
  unfolding check_login
  check_ok identifier s none h = absurd (ground (arith, h))
  check_ok identifier s (some (account, hash, false)) h = absurd (ground (arith, h))
  check_ok identifier s (some (account, hash, true)) h =
      elim (Bool-cases (x.verify_password q.password hash)) [
        | inr v ↦ absurd (ground (arith, v, h))
        | inl v ↦ (account, hash, refl, v, ground (arith, v, h))
      ]

  login_ok :
      (s : Accounts)
      → login x q token csrf_token id now s ≡ (ok session, t)
      → IsEntered x q token csrf_token id now session s t
  unfolding login login_attempt_count get_login_credentials active_family_scope clear_login_attempts
  login_ok s h =
      let identifier = x.token_hash (x.texts.normalize q.email) in
      let counted = login_attempt_count identifier login_window now s in
      elim (Bool-cases (leb max_login_attempts counted.0)) [
        | inl a ↦ absurd (ground (arith, a, h))
        | inr a ↦
            let (account, hash, known, verified, entered) =
              check_ok identifier counted.1
                (get_login_credentials x.texts (x.texts.normalize q.email) counted.1)
                (ground (arith, a, h)) in
            let (scoped, written) = enter_ok identifier account counted.1 entered in
            record {
              account = account;
              hash = hash;
              known = known;
              verified = verified;
              scoped = scoped;
              unlocked = ground (arith, a);
              opened =
                  (clear_login_attempts identifier counted.1, refl, refl, refl, scoped, written);
            }
      ]

created :
    (scope : FamilyScope) (token_hash csrf_hash : String) (expires : ℕ) (id : String) (now : ℕ)
    (u t : Accounts)
    → create_auth_session scope token_hash csrf_hash expires id now u ≡ ok t
    → t ≡ record u {
      sessions =
          record {
            id = id;
            token_hash = token_hash;
            csrf_hash = csrf_hash;
            account_id = scope.account_id;
            family_id = scope.family_id;
            membership_id = scope.membership_id;
            created_at = now;
            expires_at = expires;
            last_seen_at = now;
            revoked_at = none;
          }
          ∷ u.sessions;
    }
unfolding create_auth_session
created scope token_hash csrf_hash expires id now u t h =
    elim (Bool-cases (
      any (λ (r : SessionRow). (r.token_hash == token_hash) || (r.id == id)) u.sessions
      || not (
          any (member_named scope.account_id scope.family_id scope.membership_id) u.memberships))) [
            | inl a ↦ absurd (ground (arith, a, h))
            | inr a ↦ ground (arith, a, h)
          ]

-- A new session of a membership that may enter resolves to that membership's scope.
new_session_resolves :
    (account : String) (family : Option String) (u : Accounts) (scope : FamilyScope)
    (row : SessionRow) (later : ℕ)
    → active_family_scope account family u ≡ some scope
    → ((id : String) → count_where (λ (m : MembershipRow). m.id == id) u.memberships ≤ 1)
    → (row.account_id ≡ scope.account_id)
      × (row.family_id ≡ scope.family_id)
      × (row.membership_id ≡ scope.membership_id)
    → is_live row.token_hash later row ≡ true
    → (resolve_family_scope row.token_hash later (record u { sessions = row ∷ u.sessions })).0
      ≡ some scope
unfolding resolve_family_scope
new_session_resolves account family u scope row later scoped once (a, f, k) live =
    let (m, pass, (i, at), same) = scoped_member account family u scope scoped in
    let ids : (row.account_id ≡ account)
        × (row.family_id ≡ m.family_id)
        × (row.membership_id ≡ m.id) =
      ground (arith, a, f, k, same) in
    let mine : member_of row m ≡ true = ground (
      arith,
      ids,
      pass,
      eq_iff m.id row.membership_id,
      eq_iff m.account_id row.account_id,
      eq_iff m.account_id account,
      eq_iff m.family_id row.family_id,
    ) in
    let (n, found) = find_present (member_of row) u.memberships i m at mine in
    let hit = find-some (member_of row) u.memberships n found in
    let unique = once_unique (λ r. r.id == m.id) u.memberships i m at (==_refl m.id) (once m.id) in
    let only : n ≡ m =
      find_all (λ r. (r.id == m.id) ≡ true → r ≡ m) (member_of row) u.memberships n unique found
        (ground (arith, hit, ids)) in
    let joined : is_joined (record u { sessions = row ∷ u.sessions }) row ≡ true =
      ground
        (arith, pass, ids, find-any (member_of row) (member_of row) u.memberships n found hit) in
    let both : (is_live row.token_hash later row
          && is_joined (record u { sessions = row ∷ u.sessions }) row)
        ≡ true =
      ground (arith, live, joined) in
    rw (both, resolve_family_scope, found) (ground (arith, only, ids, same))

-- A login that succeeds, where the ids of memberships are held once: the email has an active account
-- that may log in, the password is verified against its hash, and fewer than five attempts were recorded
-- in the window. Its token then gives the session's scope, of that account, until eight hours are over.
pub login_resolves :
    (x : Secrets) (q : LoginRequest) (token csrf_token id : String) (now later : ℕ)
    (session : NewSession) (s t : Accounts)
    → ((k : String) → count_where (λ (m : MembershipRow). m.id == k) s.memberships ≤ 1)
    → login x q token csrf_token id now s ≡ (ok session, t)
    → later < now + session_ttl
    → IsEntered x q token csrf_token id now session s t
      × ((resolve_family_scope (x.token_hash token) later t).0 ≡ some session.scope)
login_resolves x q token csrf_token id now later session s t once done soon =
    let entered = login_ok x q token csrf_token id now session t s done in
    let (u, accounts, families, members, scoped, made) = entered.opened in
    let once_in : (k : String) → count_where (λ (m : MembershipRow). m.id == k) u.memberships ≤ 1 =
      λ k.
        subst (λ rows. count_where (λ (m : MembershipRow). m.id == k) rows ≤ 1) (sym members)
          (once k) in
    let row : SessionRow = record {
      id = id;
      token_hash = x.token_hash token;
      csrf_hash = x.token_hash csrf_token;
      account_id = session.scope.account_id;
      family_id = session.scope.family_id;
      membership_id = session.scope.membership_id;
      created_at = now;
      expires_at = now + session_ttl;
      last_seen_at = now;
      revoked_at = none;
    } in
    let live : is_live (x.token_hash token) later row ≡ true =
      ground (arith, soon, ==_refl (x.token_hash token)) in
    (
      entered,
      subst (λ k. (resolve_family_scope (x.token_hash token) later k).0 ≡ some session.scope)
          (sym (
            created session.scope (x.token_hash token) (x.token_hash csrf_token) (now + session_ttl)
              id now u t made))
          (new_session_resolves entered.account q.family_id u session.scope row later scoped once_in
            (refl, refl, refl) live),
    )
