-- ===== src/Store/Where.antt =====
-- SELECT and UPDATE by a condition on a row.
use hackaton_open_ai.Prelude.{
  ℕ, suc, ◌+◌, ◌≤◌, ◌<◌, refl, any, ◌≡◌, Bool, true, false, List, [], ◌∷◌, ◌++◌, some, arith,
  if◌then◌else◌, All, find, Bool-cases, inl, inr,
}

module _ {ℓ} {A : Type ℓ} where
  -- UPDATE … SET … WHERE …
  unfoldable pub update_where : (A → Bool) → (A → A) → List A → List A
  update_where test change [] = []
  update_where test change (row ∷ rows) =
      (if test row then change row else row) ∷ update_where test change rows

  -- SELECT COUNT(*) … WHERE …
  unfoldable pub count_where : (A → Bool) → List A → ℕ
  count_where test [] = 0
  count_where test (row ∷ rows) =
      let rest = count_where test rows in if test row then suc rest else rest

  -- A search by the condition of the update finds the changed row.
  pub find-update_where :
      (test : A → Bool) (change : A → A) (rows : List A) (row : A)
      → ((r : A) → test (change r) ≡ test r)
      → find test rows ≡ some row
      → find test (update_where test change rows) ≡ some (change row)
  unfolding update_where
  find-update_where test change [] row keeps h = cc
  find-update_where test change (r ∷ rows) row keeps h =
      ground (arith, keeps r, find-update_where test change rows row keeps)

  -- What an update of all rows keeps true of all rows.
  pub All-update_where {κ} :
      (P : A → Type κ) (test : A → Bool) (change : A → A) (rows : List A)
      → ((r : A) → test r ≡ true → P r → P (change r))
      → All P rows
      → All P (update_where test change rows)
  unfolding update_where
  All-update_where P test change [] keeps all = tt
  All-update_where P test change (r ∷ rows) keeps all = elim (Bool-cases (test r)) [
    | inl t ↦ rw t (keeps r t all.0, All-update_where P test change rows keeps all.1)
    | inr t ↦ rw t (all.0, All-update_where P test change rows keeps all.1)
  ]

  pub count_where-append :
      (test : A → Bool) (xs : List A) (x : A)
      → count_where test (xs ++ x ∷ []) ≡ count_where test xs + (if test x then 1 else 0)
  unfolding count_where
  count_where-append test [] x = ground arith
  count_where-append test (y ∷ ys) x = ground (arith, count_where-append test ys x)

  -- What an update makes true of all rows.
  pub All-updated {κ μ} :
      (P : A → Type κ) (Q : A → Type μ) (test : A → Bool) (change : A → A) (rows : List A)
      → ((r : A) → test r ≡ true → P r → Q (change r))
      → ((r : A) → test r ≡ false → P r → Q r)
      → All P rows
      → All Q (update_where test change rows)
  unfolding update_where
  All-updated P Q test change [] hit miss all = tt
  All-updated P Q test change (r ∷ rows) hit miss all = elim (Bool-cases (test r)) [
    | inl t ↦ rw t (hit r t all.0, All-updated P Q test change rows hit miss all.1)
    | inr t ↦ rw t (miss r t all.0, All-updated P Q test change rows hit miss all.1)
  ]

  -- A condition that the update does not touch is met by as many rows.
  pub count_where-update_same :
      (p test : A → Bool) (change : A → A) (rows : List A)
      → ((r : A) → p (change r) ≡ p r)
      → count_where p (update_where test change rows) ≡ count_where p rows
  unfolding update_where count_where
  count_where-update_same p test change [] same = refl
  count_where-update_same p test change (r ∷ rows) same =
      ground (arith, same r, count_where-update_same p test change rows same)

  pub any-update_same :
      (p test : A → Bool) (change : A → A) (rows : List A)
      → ((r : A) → p (change r) ≡ p r)
      → any p (update_where test change rows) ≡ any p rows
  unfolding update_where
  any-update_same p test change [] same = refl
  any-update_same p test change (r ∷ rows) same =
      ground (arith, same r, any-update_same p test change rows same)

  -- An update that makes no row meet a condition leaves no more rows that do.
  pub count_where-update_le :
      (p test : A → Bool) (change : A → A) (rows : List A)
      → ((r : A) → p (change r) ≡ true → p r ≡ true)
      → count_where p (update_where test change rows) ≤ count_where p rows
  unfolding update_where count_where
  count_where-update_le p test change [] fewer = omega arith
  count_where-update_le p test change (r ∷ rows) fewer =
      ground (arith, fewer r, count_where-update_le p test change rows fewer)

  -- An update that takes a condition from the rows that it finds.
  pub count_where-update_drop :
      (p test : A → Bool) (change : A → A) (rows : List A)
      → ((r : A) → p (change r) ≡ false)
      → All (λ r. test r ≡ true → p r ≡ true) rows
      → count_where p (update_where test change rows) + count_where test rows ≡ count_where p rows
  unfolding update_where count_where
  count_where-update_drop p test change [] drop all = omega arith
  count_where-update_drop p test change (r ∷ rows) drop all =
      ground (arith, drop r, all.0, count_where-update_drop p test change rows drop all.1)

  pub count_where_none :
      (p q : A → Bool) (rows : List A)
      → ((r : A) → p r ≡ true → q r ≡ true)
      → any q rows ≡ false
      → count_where p rows ≡ 0
  unfolding count_where
  count_where_none p q [] within h = refl
  count_where_none p q (r ∷ rows) within h =
      ground (arith, within r, count_where_none p q rows within)

  none_all :
      (p q : A → Bool) (rows : List A)
      → count_where p rows ≡ 0
      → All (λ r. p r ≡ true → q r ≡ true) rows
  unfolding count_where
  none_all p q [] h = tt
  none_all p q (r ∷ rows) h =
      (λ t. absurd (ground (arith, t, h)), none_all p q rows (ground (arith, h)))

  count_where-any :
      (p q : A → Bool) (rows : List A)
      → ((r : A) → q r ≡ true → p r ≡ true)
      → any q rows ≡ true
      → 0 < count_where p rows
  unfolding count_where
  count_where-any p q [] within h = cc
  count_where-any p q (r ∷ rows) within h =
      ground (arith, within r, count_where-any p q rows within)

  -- Where at most one row meets a condition, and some row meets a stronger one, each row that meets the
  -- condition meets the stronger one.
  pub once_all :
      (p q : A → Bool) (rows : List A)
      → ((r : A) → q r ≡ true → p r ≡ true)
      → count_where p rows ≤ 1
      → any q rows ≡ true
      → All (λ r. p r ≡ true → q r ≡ true) rows
  unfolding count_where
  once_all p q [] within once h = tt
  once_all p q (r ∷ rows) within once h = elim (Bool-cases (q r)) [
    | inl t ↦ (λ s. t, none_all p q rows (ground (arith, within r t, once)))
    | inr t ↦ (
      λ s. absurd (ground (arith, s, once, count_where-any p q rows within (ground (arith, t, h)))),
      once_all p q rows within (ground (arith, once)) (ground (arith, t, h)),
    )
  ]
