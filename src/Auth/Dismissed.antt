-- ===== src/Auth/Dismissed.antt =====
-- A membership that was revoked gives no scope again.
use hackaton_open_ai.Prelude.{
  ℕ, ◌≤◌, ◌≡◌, ◌≢◌, ◌∙◌, refl, sym, subst, String, Bool, true, false, true≢false, not, ◌&&◌, some,
  List, [], ◌∷◌, any, find, find-some, find_all, find-any, All, ◌==◌, string_eq, eq_iff, ok, arith,
  Bool-cases, Option-cases, inl, inr,
}
use hackaton_open_ai.Store.Where.{
  update_where, count_where, any-update_same, once_all, All-update_where, All-updated,
}
use hackaton_open_ai.Auth.{Accounts, FamilyRow, MembershipRow, FamilyScope, is_current, is_owner}
use hackaton_open_ai.Auth.Members.{revoke_membership, names_member, revoke_member, is_active_owner}
use hackaton_open_ai.Auth.Sessions.{resolve_family_scope, is_live, is_joined, member_of}
use hackaton_open_ai.Auth.Login.{Secrets}
use hackaton_open_ai.Auth.Run.{Call, step, run, MemberMove, founded, joined, dismissed}
use hackaton_open_ai.Auth.Moves.{step-Moves}

any_of_named :
    (family id : String) (rows : List MembershipRow)
    → any (names_member family id) rows ≡ true
    → any (λ (m : MembershipRow). m.id == id) rows ≡ true
any_of_named family id [] k = k
any_of_named family id (r ∷ rows) k = ground (arith, k, any_of_named family id rows)

-- The membership is there, and it was revoked.
record IsDismissed (id : String) (rows : List MembershipRow) : Type 0 where
  pub present : any (λ (m : MembershipRow). m.id == id) rows ≡ true
  pub dismissed_all :
      All (λ (m : MembershipRow). (m.id == id) ≡ true → is_current m.status ≡ false) rows

module _ (id : String) where
  added-IsDismissed :
      (rows : List MembershipRow) (m : MembershipRow)
      → any (λ (r : MembershipRow). r.id == m.id) rows ≡ false
      → IsDismissed id rows
      → IsDismissed id (m ∷ rows)
  added-IsDismissed rows m new v = record {
    present = ground (arith, v.present);
    dismissed_all = (
      λ k. absurd (
          true≢false (
            sym (
              subst (λ t. any (λ (r : MembershipRow). r.id == t) rows ≡ true)
                (sym ((eq_iff m.id id).0 k)) v.present)
            ∙ new)),
      v.dismissed_all,
    );
  }

  move-IsDismissed :
      (f g : List FamilyRow) (rows more : List MembershipRow)
      → MemberMove f rows g more
      → IsDismissed id rows
      → IsDismissed id more
  move-IsDismissed f g rows more MemberMove.unmoved v = v
  move-IsDismissed f g rows more (founded family m new same role) v = added-IsDismissed rows m new v
  move-IsDismissed f g rows more (joined m new) v = added-IsDismissed rows m new v
  move-IsDismissed f g rows more (dismissed family other now m at left) v = record {
    present =
        any-update_same (λ (m : MembershipRow). m.id == id) (names_member family other)
          (revoke_member now) rows (λ r. refl)
        ∙ v.present;
    dismissed_all =
        All-update_where (λ (m : MembershipRow). (m.id == id) ≡ true → is_current m.status ≡ false)
          (names_member family other) (revoke_member now) rows (λ r t k g. refl) v.dismissed_all;
  }

  run-IsDismissed :
      (x : Secrets) (calls : List Call) (s : Accounts)
      → IsDismissed id s.memberships
      → IsDismissed id (run x calls s).memberships
  unfolding run
  run-IsDismissed x [] s v = v
  run-IsDismissed x (call ∷ calls) s v = run-IsDismissed x calls (step x call s) (
      move-IsDismissed s.families (step x call s).families s.memberships (step x call s).memberships
        (step-Moves x call s).members v)

  -- A scope is of a current membership.
  dismissed_unresolved :
      (h : String) (now : ℕ) (s : Accounts) (scope : FamilyScope)
      → IsDismissed id s.memberships
      → (resolve_family_scope h now s).0 ≡ some scope
      → scope.membership_id ≢ id
  unfolding resolve_family_scope
  dismissed_unresolved h now s scope v found same =
      elim (Option-cases (find (λ r. is_live h now r && is_joined s r) s.sessions)) [
        | inl e ↦ absurd (ground (arith, e, found))
        | inr (r, e) ↦ elim (Option-cases (find (member_of r) s.memberships)) [
          | inl f ↦ absurd (ground (arith, e, f, found))
          | inr (m, f) ↦
              let current = find-some (member_of r) s.memberships m f in
              let named : r.membership_id ≡ id = ground (arith, e, f, found, same) in
              let hit : (m.id == id) ≡ true =
                subst (λ k. (m.id == k) ≡ true) named (ground (arith, current)) in
              let over =
                find_all (λ (n : MembershipRow). (n.id == id) ≡ true → is_current n.status ≡ false)
                  (member_of r) s.memberships m v.dismissed_all f hit in
              absurd (ground (arith, current, over))
        ]
      ]

dismissed_rows :
    (family id : String) (now : ℕ) (s t : Accounts)
    → revoke_membership family id now s ≡ ok t
    → (any (names_member family id) s.memberships ≡ true)
      × (t.memberships ≡ update_where (names_member family id) (revoke_member now) s.memberships)
unfolding revoke_membership
dismissed_rows family id now s t h =
    elim (Option-cases
      (find (λ m. names_member family id m && is_current m.status) s.memberships)) [
        | inl e ↦ absurd (ground (arith, e, h))
        | inr (m, e) ↦
            let hit =
              find-some (λ m. names_member family id m && is_current m.status) s.memberships m e in
            elim (Bool-cases (
              is_owner m.role
              && not (any (λ o. is_active_owner family o && not (o.id == id)) s.memberships))) [
                | inl b ↦ absurd (ground (arith, e, b, h))
                | inr b ↦ (
                  find-any _ (names_member family id) s.memberships m e (ground (arith, hit)),
                  ground (arith, e, b, h),
                )
              ]
      ]

-- After a membership is revoked, no session gives its scope again, whatever calls follow and whatever
-- the session is, where the ids of memberships are held once.
pub dismissed_forever :
    (x : Secrets) (family id h : String) (now later : ℕ) (calls : List Call) (scope : FamilyScope)
    (s t : Accounts)
    → count_where (λ (m : MembershipRow). m.id == id) s.memberships ≤ 1
    → revoke_membership family id now s ≡ ok t
    → (resolve_family_scope h later (run x calls t)).0 ≡ some scope
    → scope.membership_id ≢ id
dismissed_forever x family id h now later calls scope s t once done found =
    let (held, rows) = dismissed_rows family id now s t done in
    let id_of : MembershipRow → Bool = λ (m : MembershipRow). m.id == id in
    let gone : IsDismissed id
        (update_where (names_member family id) (revoke_member now) s.memberships) =
      record {
        present =
            any-update_same id_of (names_member family id) (revoke_member now) s.memberships
              (λ r. refl)
            ∙ any_of_named family id s.memberships held;
        dismissed_all =
            All-updated (λ m. id_of m ≡ true → names_member family id m ≡ true)
              (λ m. id_of m ≡ true → is_current m.status ≡ false) (names_member family id)
              (revoke_member now) s.memberships (λ r g k i. refl)
              (λ r g k i. absurd (ground (arith, g, k i)))
              (once_all id_of (names_member family id) s.memberships (λ r g. ground (arith, g)) once
                held);
      } in
    dismissed_unresolved id h later (run x calls t) scope
      (run-IsDismissed id x calls t (subst (IsDismissed id) (sym rows) gone)) found
