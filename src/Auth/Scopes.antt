-- ===== src/Auth/Scopes.antt =====
-- The membership that `active_family_scope` of api/storage.py chooses.
use hackaton_open_ai.Prelude.{
  ℕ, zero, suc, ◌≤◌, ◌<◌, ◌≡◌, ◌∙◌, refl, sym, ap, subst, String, Bool, true, Option, some, List,
  [], ◌∷◌, find, All, get_elem?, string_eq, arith, Bool-cases, Option-cases, inl, inr,
}
use hackaton_open_ai.Store.Where.{count_where}
use hackaton_open_ai.Auth.{Accounts, MembershipRow, FamilyScope}
use hackaton_open_ai.Auth.Members.{active_family_scope, first_member, can_enter, is_before}

first_elem :
    (test : MembershipRow → Bool) (rows : List MembershipRow) (m : MembershipRow)
    → first_member test rows ≡ some m
    → (test m ≡ true) × ((i : ℕ) × (get_elem? rows i ≡ some m))
unfolding first_member
first_elem test [] m h = cc
first_elem test (r ∷ rows) m h = elim (Bool-cases (test r)) [
  | inr t ↦
      let (pass, (i, at)) = first_elem test rows m (ground (arith, t, h)) in (pass, (suc i, at))
  | inl t ↦ elim (Option-cases (first_member test rows)) [
    | inl e ↦
        let same : r ≡ m = ground (arith, t, e, h) in
        (subst (λ k. test k ≡ true) same t, (zero, ground (arith, same)))
    | inr (n, e) ↦ elim (Bool-cases (is_before n r)) [
      | inr b ↦
          let same : r ≡ m = ground (arith, t, e, b, h) in
          (subst (λ k. test k ≡ true) same t, (zero, ground (arith, same)))
      | inl b ↦
          let same : n ≡ m = ground (arith, t, e, b, h) in
          let (pass, (i, at)) = first_elem test rows m (e ∙ ap some same) in (pass, (suc i, at))
    ]
  ]
]

none_unique :
    (p : MembershipRow → Bool) (rows : List MembershipRow) (m : MembershipRow)
    → count_where p rows ≡ 0
    → All (λ r. p r ≡ true → r ≡ m) rows
unfolding count_where
none_unique p [] m h = tt
none_unique p (r ∷ rows) m h =
    (λ t. absurd (ground (arith, t, h)), none_unique p rows m (ground (arith, h)))

count_elem :
    (p : MembershipRow → Bool) (rows : List MembershipRow) (i : ℕ) (m : MembershipRow)
    → get_elem? rows i ≡ some m
    → p m ≡ true
    → 0 < count_where p rows
unfolding count_where
count_elem p [] i m at t = cc
count_elem p (r ∷ rows) zero m at t = ground (arith, at, t)
count_elem p (r ∷ rows) (suc i) m at t = ground (arith, count_elem p rows i m at t)

-- Where one row meets a condition at most, each that meets it is the same.
pub once_unique :
    (p : MembershipRow → Bool) (rows : List MembershipRow) (i : ℕ) (m : MembershipRow)
    → get_elem? rows i ≡ some m
    → p m ≡ true
    → count_where p rows ≤ 1
    → All (λ r. p r ≡ true → r ≡ m) rows
unfolding count_where
once_unique p [] i m at t once = tt
once_unique p (r ∷ rows) zero m at t once =
    let same : r ≡ m = cc in
    (
      λ k. same,
      none_unique p rows m (
          let hit : p r ≡ true = subst (λ k. p k ≡ true) (sym same) t in ground (arith, hit, once)),
    )
once_unique p (r ∷ rows) (suc i) m at t once = (
  λ k. absurd (ground (arith, k, once, count_elem p rows i m at t)),
  once_unique p rows i m at t (ground (arith, once)),
)

pub find_present :
    (p : MembershipRow → Bool) (rows : List MembershipRow) (i : ℕ) (m : MembershipRow)
    → get_elem? rows i ≡ some m
    → p m ≡ true
    → (n : MembershipRow) × (find p rows ≡ some n)
find_present p [] i m at t = cc
find_present p (r ∷ rows) zero m at t = (r, ground (arith, at, t))
find_present p (r ∷ rows) (suc i) m at t = elim (Bool-cases (p r)) [
  | inl e ↦ (r, rw e refl)
  | inr e ↦ let (n, found) = find_present p rows i m at t in (n, rw e found)
]

pub scoped_member :
    (account : String) (family : Option String) (s : Accounts) (scope : FamilyScope)
    → active_family_scope account family s ≡ some scope
    → (m : MembershipRow) × (can_enter account family s m ≡ true)
      × ((i : ℕ) × (get_elem? s.memberships i ≡ some m))
      × (scope ≡ record {
        account_id = account;
        family_id = m.family_id;
        membership_id = m.id;
        role = m.role;
      })
unfolding active_family_scope
scoped_member account family s scope h =
    elim (Option-cases (first_member (can_enter account family s) s.memberships)) [
      | inl e ↦ absurd (ground (arith, e, h))
      | inr (m, e) ↦
          let (pass, at) = first_elem (can_enter account family s) s.memberships m e in
          (m, pass, at, ground (arith, e, h))
    ]
