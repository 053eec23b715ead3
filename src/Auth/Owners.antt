-- ===== src/Auth/Owners.antt =====
-- Each family has an active owner.
use hackaton_open_ai.Prelude.{
  ℕ, ◌≤◌, ◌≡◌, refl, sym, subst, String, Bool, true, false, not, ◌&&◌, some, List, [], ◌∷◌, any,
  find, find-some, find-any, All, All-map, ◌==◌, string_eq, eq_iff, arith, Bool-cases, inl, inr,
}
use hackaton_open_ai.Store.Where.{
  update_where, count_where, count_where-update_same, count_where_none, once_all,
}
use hackaton_open_ai.Auth.{Accounts, FamilyRow, MembershipRow, is_owner, is_current}
use hackaton_open_ai.Auth.Members.{names_member, revoke_member, is_active_owner}
use hackaton_open_ai.Auth.Login.{Secrets}
use hackaton_open_ai.Auth.Run.{Call, step, run, MemberMove, founded, joined, dismissed}
use hackaton_open_ai.Auth.Moves.{step-Moves}

abbrev pub HasOwner : List MembershipRow → FamilyRow → Type 0
HasOwner rows f = any (is_active_owner f.id) rows ≡ true

-- The ids of memberships are held once, and each family has an active owner.
pub record IsOwned (families : List FamilyRow) (rows : List MembershipRow) : Type 0 where
  pub once : (id : String) → count_where (λ (m : MembershipRow). m.id == id) rows ≤ 1
  pub owned : All (HasOwner rows) families

more_owned :
    (rows more : List MembershipRow) (families : List FamilyRow)
    → ((f : FamilyRow) → HasOwner rows f → HasOwner more f)
    → All (HasOwner rows) families
    → All (HasOwner more) families
more_owned rows more [] keep all = tt
more_owned rows more (f ∷ families) keep all =
    (keep f all.0, more_owned rows more families keep all.1)

added_once :
    (m : MembershipRow) (rows : List MembershipRow) (id : String)
    → any (λ (r : MembershipRow). r.id == m.id) rows ≡ false
    → count_where (λ (r : MembershipRow). r.id == id) rows ≤ 1
    → count_where (λ (r : MembershipRow). r.id == id) (m ∷ rows) ≤ 1
unfolding count_where
added_once m rows id new once = elim (Bool-cases (m.id == id)) [
  | inl e ↦ ground (
    arith,
    e,
    count_where_none (λ (r : MembershipRow). r.id == id) (λ r. r.id == m.id) rows
        (λ r h. subst (λ k. (r.id == k) ≡ true) (sym ((eq_iff m.id id).0 e)) h) new,
  )
  | inr e ↦ ground (arith, e, once)
]

-- An owner with another id is not touched by a revocation.
spared :
    (g family id : String) (now : ℕ) (rows : List MembershipRow)
    → any (λ o. is_active_owner g o && not (names_member family id o)) rows ≡ true
    → any (is_active_owner g) (update_where (names_member family id) (revoke_member now) rows)
      ≡ true
unfolding update_where
spared g family id now [] h = h
spared g family id now (r ∷ rows) h = ground (arith, h, spared g family id now rows)

any_all :
    (p q : MembershipRow → Bool) (rows : List MembershipRow)
    → All (λ r. p r ≡ true → q r ≡ true) rows
    → any p rows ≡ true
    → any q rows ≡ true
any_all p q [] all h = h
any_all p q (r ∷ rows) all h = ground (arith, all.0, h, any_all p q rows all.1)

All_every :
    (p q : MembershipRow → Bool) (rows : List MembershipRow)
    → ((r : MembershipRow) → p r ≡ true → q r ≡ true)
    → All (λ r. p r ≡ true → q r ≡ true) rows
All_every p q [] f = tt
All_every p q (r ∷ rows) f = (f r, All_every p q rows f)

-- The owner of a family that a revocation does not touch.
module _ (g family id : String) (m : MembershipRow) (rows : List MembershipRow)
    (once : count_where (λ (r : MembershipRow). r.id == id) rows ≤ 1)
    (at : find (λ r. names_member family id r && is_current r.status) rows ≡ some m)
    (left : (is_owner m.role && not (any (λ o. is_active_owner family o && not (o.id == id)) rows))
      ≡ false) where
  abbrev untouched : MembershipRow → Bool
  untouched o = is_active_owner g o && not (names_member family id o)

  guardian_revoked :
      is_owner m.role ≡ false → any (is_active_owner g) rows ≡ true → any untouched rows ≡ true
  guardian_revoked role =
      let held = find-some (λ r. names_member family id r && is_current r.status) rows m at in
      any_all (is_active_owner g) untouched rows (
        All-map _ _ rows (λ r k owns. ground (arith, k, owns))
          (once_all (λ (r : MembershipRow). r.id == id) (λ r. (r.id == id) && not (is_owner r.role))
            rows (λ r k. ground (arith, k)) once
            (find-any _ (λ r. (r.id == id) && not (is_owner r.role)) rows m at
              (ground (arith, held, role)))))

  owner_revoked :
      is_owner m.role ≡ true → any (is_active_owner g) rows ≡ true → any untouched rows ≡ true
  owner_revoked role h = elim (Bool-cases (g == family)) [
    | inl e ↦
        any_all (λ o. is_active_owner family o && not (o.id == id)) untouched rows
          (All_every _ untouched rows (λ r k.
            ground (arith, k, e, eq_iff g family, eq_iff r.family_id g, eq_iff r.family_id family)))
          (ground (arith, left, role))
    | inr e ↦
        any_all (is_active_owner g) untouched rows
          (All_every _ untouched rows (λ r k.
            ground (arith, k, e, eq_iff g family, eq_iff r.family_id g, eq_iff r.family_id family)))
          h
  ]

  another : any (is_active_owner g) rows ≡ true → any untouched rows ≡ true
  another h = elim (Bool-cases (is_owner m.role)) [
    | inl role ↦ owner_revoked role h
    | inr role ↦ guardian_revoked role h
  ]

move-IsOwned :
    (f g : List FamilyRow) (rows more : List MembershipRow)
    → MemberMove f rows g more
    → IsOwned f rows
    → IsOwned g more
move-IsOwned f g rows more MemberMove.unmoved v = v
move-IsOwned f g rows more (founded family m new same role) v = record {
  once = λ id. added_once m rows id new (v.once id);
  owned = (
    ground (arith, role, same, eq_iff m.family_id family.id),
    more_owned rows (m ∷ rows) f (λ k h. ground (arith, h)) v.owned,
  );
}
move-IsOwned f g rows more (joined m new) v = record {
  once = λ id. added_once m rows id new (v.once id);
  owned = more_owned rows (m ∷ rows) f (λ k h. ground (arith, h)) v.owned;
}
move-IsOwned f g rows more (dismissed family id now m at left) v = record {
  once = λ k.
      rw
        (count_where-update_same (λ (r : MembershipRow). r.id == k) (names_member family id)
          (revoke_member now) rows (λ r. refl))
        (v.once k);
  owned =
      more_owned rows (update_where (names_member family id) (revoke_member now) rows) f
        (λ k h.
          spared k.id family id now rows (another k.id family id m rows (v.once id) at left h))
        v.owned;
}

-- Where the ids of memberships are held once and each family has an active owner, the same is true after
-- any sequence of calls: of new accounts, families and members, revocations, logins, logouts and resets.
pub run-IsOwned :
    (x : Secrets) (calls : List Call) (s : Accounts)
    → IsOwned s.families s.memberships
    → IsOwned (run x calls s).families (run x calls s).memberships
unfolding run
run-IsOwned x [] s v = v
run-IsOwned x (call ∷ calls) s v = run-IsOwned x calls (step x call s) (
    move-IsOwned s.families (step x call s).families s.memberships (step x call s).memberships
      (step-Moves x call s).members v)
