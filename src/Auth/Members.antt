-- ===== src/Auth/Members.antt =====
-- Accounts, families and memberships of api/storage.py.
use Prim.Native.String
use Prim.Native.Nat.{Ordering}
use hackaton_open_ai.Prelude.{
  ℕ, String, Bool, true, false, not, ◌&&◌, ◌||◌, Option, none, some, List, [], ◌∷◌, ltb, nat_beq,
  ◌==◌, string_eq, if◌then◌else◌, find, any, Result, ok, err, ◌>>=◌, ◌>>◌, raise_if,
}
use hackaton_open_ai.Store.Where.{update_where}
use hackaton_open_ai.Auth.{
  Accounts, AccountError, key_error, value_error, integrity_error, AccountRow, FamilyRow,
  MembershipRow, MembershipRole, owner, active, revoked, FamilyScope, is_owner, is_current,
  account_active, family_active,
}

-- `strip().casefold()` of an email, `strip()` of a name, `"@" in` and `isspace` of a character.
pub record Texts : Type 0 where
  pub normalize : String → String
  pub strip : String → String
  pub has_at : String → Bool
  pub has_space : String → Bool

-- The primary key of an account is its id, and its email is UNIQUE; both emails are case-folded.
unfoldable pub create_account :
    Texts → String → String → String → ℕ → Accounts → Result AccountError Accounts
create_account x email password_hash id now s =
    let normalized = x.normalize email in
    do
      raise_if ((normalized == "") || not (x.has_at normalized) || x.has_space normalized)
          value_error
      raise_if (password_hash == "") value_error
      raise_if (any (λ (a : AccountRow). (a.id == id) || (a.email == normalized)) s.accounts)
          integrity_error
      ok (record s {
        accounts =
            record {
              id = id;
              email = normalized;
              password_hash = some password_hash;
              auth_enabled = true;
              is_active = true;
              created_at = now;
            }
            ∷ s.accounts;
      })

abbrev pub new_member : String → String → String → MembershipRole → ℕ → MembershipRow
new_member id account family role now = record {
  id = id;
  account_id = account;
  family_id = family;
  role = role;
  status = active;
  created_at = now;
  revoked_at = none;
}

-- The primary key, and UNIQUE(account_id, family_id).
unfoldable pub insert_membership :
    MembershipRow → List MembershipRow → Result AccountError (List MembershipRow)
insert_membership m rows =
    if any
      (λ (r : MembershipRow).
        (r.id == m.id) || ((r.account_id == m.account_id) && (r.family_id == m.family_id)))
      rows
    then err integrity_error
    else ok (m ∷ rows)

unfoldable pub create_family_with_owner :
    Texts → String → String → String → String → ℕ → Accounts → Result AccountError Accounts
unfolding insert_membership
create_family_with_owner x account name family_id membership_id now s = do
  raise_if (x.strip name == "") value_error
  raise_if (not (account_active account s.accounts)) key_error
  raise_if
      (any (λ (f : FamilyRow). f.id == family_id) s.families
        || ltb 120 (String.count (x.strip name)))
      integrity_error
  memberships ←
      insert_membership (new_member membership_id account family_id owner now) s.memberships
  ok (record s {
    families =
        record { id = family_id; name = x.strip name; is_active = true; created_at = now }
        ∷ s.families;
    memberships = memberships;
  })

-- The account and the family are foreign keys.
unfoldable pub add_membership :
    String → String → MembershipRole → String → ℕ → Accounts → Result AccountError Accounts
unfolding insert_membership
add_membership account family role id now s = do
  raise_if
      (not (any (λ (a : AccountRow). a.id == account) s.accounts)
        || not (any (λ (f : FamilyRow). f.id == family) s.families))
      integrity_error
  memberships ← insert_membership (new_member id account family role now) s.memberships
  ok (record s { memberships = memberships })

abbrev pub names_member : String → String → MembershipRow → Bool
names_member family id m = (m.family_id == family) && (m.id == id)

abbrev pub is_active_owner : String → MembershipRow → Bool
is_active_owner family m = (m.family_id == family) && is_owner m.role && is_current m.status

abbrev pub revoke_member : ℕ → MembershipRow → MembershipRow
revoke_member now m = record m { status = revoked; revoked_at = some now }

-- The last active owner of a family stays.
unfoldable pub revoke_membership : String → String → ℕ → Accounts → Result AccountError Accounts
revoke_membership family id now s =
    elim (find (λ m. names_member family id m && is_current m.status) s.memberships) [
      | none ↦ err key_error
      | some m ↦
          if is_owner m.role
            && not (any (λ o. is_active_owner family o && not (o.id == id)) s.memberships)
          then err value_error
          else ok (record s {
            memberships = update_where (names_member family id) (revoke_member now) s.memberships;
          })
    ]

-- The id, the password's hash and whether the account may log in.
unfoldable pub get_login_credentials : Texts → String → Accounts → Option (String × String × Bool)
get_login_credentials x email s =
    elim (find (λ (a : AccountRow). (a.email == x.normalize email) && a.is_active) s.accounts) [
      | none ↦ none
      | some a ↦ elim a.password_hash [
        | none ↦ none
        | some hash ↦ some (a.id, hash, a.auth_enabled)
      ]
    ]

unfoldable pub account_id_for_recovery : Texts → String → Accounts → Option String
account_id_for_recovery x email s =
    elim (find (λ (a : AccountRow). (a.email == x.normalize email) && a.is_active && a.auth_enabled)
      s.accounts) [ none ↦ none | some a ↦ some a.id ]

abbrev text_lt : String → String → Bool
text_lt a b = elim (String.compare a b) [ Ordering.lt ↦ true | _ ↦ false ]

-- ORDER BY membership.created_at, membership.id
abbrev pub is_before : MembershipRow → MembershipRow → Bool
is_before m n =
    ltb m.created_at n.created_at || (nat_beq m.created_at n.created_at && text_lt m.id n.id)

abbrev pub earlier : MembershipRow → Option MembershipRow → MembershipRow
earlier m none = m
earlier m (some n) = if is_before n m then n else m

-- LIMIT 1
unfoldable pub first_member : (MembershipRow → Bool) → List MembershipRow → Option MembershipRow
first_member test [] = none
first_member test (m ∷ rows) =
    let rest = first_member test rows in if test m then some (earlier m rest) else rest

abbrev pub in_family : Option String → MembershipRow → Bool
in_family none m = true
in_family (some family) m = m.family_id == family

abbrev pub can_enter : String → Option String → Accounts → MembershipRow → Bool
can_enter account family s m =
    (m.account_id == account)
    && is_current m.status
    && account_active account s.accounts
    && family_active m.family_id s.families
    && in_family family m

unfoldable pub active_family_scope : String → Option String → Accounts → Option FamilyScope
unfolding first_member
active_family_scope account family s =
    elim (first_member (can_enter account family s) s.memberships) [
      | none ↦ none
      | some m ↦ some (record {
        account_id = account;
        family_id = m.family_id;
        membership_id = m.id;
        role = m.role;
      })
    ]
