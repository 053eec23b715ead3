-- ===== src/Prelude/Lists.antt =====
-- Lists measured and searched the way the program does it.
use Prim.Native.Nat.{ℕ, zero, suc, ◌+◌}
use mathlib.Core.Path.{◌≡◌, refl, subst}
use mathlib.Core.Bool.{Bool, true, false, ◌&&◌, ◌||◌}
use mathlib.Core.List.{List, [], ◌∷◌, ◌++◌}
use mathlib.Core.Option.{Option, none, some}
use native.Mathlib.Omega.{arith}
use mathlib.Core.Logic.{inl, inr, ◌≢◌}
use hackaton_open_ai.Prelude.Tests.{if◌then◌else◌, Equality, ◌==◌, Bool-cases}

module _ {ℓ} {A : Type ℓ} where
  abbrev pub length : List A → ℕ
  length [] = 0
  length (x ∷ xs) = suc (length xs)

  pub length-append : (xs ys : List A) → length (xs ++ ys) ≡ length xs + length ys
  length-append [] ys = omega arith
  length-append (x ∷ xs) ys = omega (arith, length-append xs ys)

  -- `any(test(x) for x in xs)`
  abbrev pub any : (A → Bool) → List A → Bool
  any test [] = false
  any test (x ∷ xs) = test x || any test xs

  -- `all(test(x) for x in xs)`
  abbrev pub all : (A → Bool) → List A → Bool
  all test [] = true
  all test (x ∷ xs) = test x && all test xs

  -- `next((x for x in xs if test(x)), None)`
  abbrev pub find : (A → Bool) → List A → Option A
  find test [] = none
  find test (x ∷ xs) = if test x then some x else find test xs

  -- `[x for x in xs if test(x)]`
  abbrev pub keep : (A → Bool) → List A → List A
  keep test [] = []
  keep test (x ∷ xs) = let rest = keep test xs in if test x then x ∷ rest else rest

  abbrev pub All {κ} : (A → Type κ) → List A → Type κ
  All P [] = Unit
  All P (x ∷ xs) = P x × All P xs

  abbrev pub get_elem? : List A → ℕ → Option A
  get_elem? [] i = none
  get_elem? (x ∷ xs) zero = some x
  get_elem? (x ∷ xs) (suc i) = get_elem? xs i

  abbrev pub last? : List A → Option A
  last? [] = none
  last? (x ∷ []) = some x
  last? (x ∷ y ∷ xs) = last? (y ∷ xs)

  -- What `find` returns passes the test.
  pub find-some : (test : A → Bool) (xs : List A) (x : A) → find test xs ≡ some x → test x ≡ true
  find-some test [] x h = cc
  find-some test (y ∷ ys) x h = ground (arith, find-some test ys x)

  pub find_elem :
      (test : A → Bool) (xs : List A) (x : A)
      → find test xs ≡ some x
      → (i : ℕ) × (get_elem? xs i ≡ some x)
  find_elem test [] x h = cc
  find_elem test (y ∷ ys) x h = elim (Bool-cases (test y)) [
    | inl t ↦ (zero, ground arith)
    | inr t ↦ let (i, at) = find_elem test ys x (ground arith) in (suc i, at)
  ]

  -- Where an element passes, `find` returns one.
  pub find_at :
      (test : A → Bool) (xs : List A) (i : ℕ) (x : A)
      → get_elem? xs i ≡ some x
      → test x ≡ true
      → find test xs ≢ none
  find_at test [] i x h t e = cc
  find_at test (y ∷ ys) zero x h t e = ground arith
  find_at test (y ∷ ys) (suc i) x h t e = ground (arith, find_at test ys i x h t)

  -- And `any` is true only of such a list.
  pub any_witness :
      (test : A → Bool) (xs : List A)
      → any test xs ≡ true
      → (i : ℕ) × (x : A) × (get_elem? xs i ≡ some x) × (test x ≡ true)
  any_witness test [] h = cc
  any_witness test (y ∷ ys) h = elim (Bool-cases (test y)) [
    | inl t ↦ (zero, y, refl, t)
    | inr t ↦ let (i, x, at, pass) = any_witness test ys (ground arith) in (suc i, x, at, pass)
  ]

module _ {ℓ} {A : Type ℓ} where
  pub any-keep :
      (p q : A → Bool) (rows : List A)
      → ((r : A) → p r ≡ true → q r ≡ true)
      → any p (keep q rows) ≡ any p rows
  any-keep p q [] within = refl
  any-keep p q (r ∷ rows) within = ground (arith, within r, any-keep p q rows within)

  pub any-drop :
      (p q : A → Bool) (rows : List A)
      → ((r : A) → p r ≡ true → q r ≡ false)
      → any p (keep q rows) ≡ false
  any-drop p q [] without = refl
  any-drop p q (r ∷ rows) without = ground (arith, without r, any-drop p q rows without)

  -- Where none passes a test, none passes a stronger one.
  pub any_none :
      (p q : A → Bool) (rows : List A)
      → ((r : A) → p r ≡ true → q r ≡ true)
      → any q rows ≡ false
      → any p rows ≡ false
  any_none p q [] within h = refl
  any_none p q (r ∷ rows) within h = ground (arith, within r, h, any_none p q rows within)

  -- The one that is found passes.
  pub find-any :
      (test more : A → Bool) (xs : List A) (x : A)
      → find test xs ≡ some x
      → more x ≡ true
      → any more xs ≡ true
  find-any test more [] x h m = cc
  find-any test more (y ∷ ys) x h m = ground (arith, find-any test more ys x)

  -- What is left of those that pass both tests.
  pub any-keep_both :
      (p q : A → Bool) (rows : List A) → any p (keep q rows) ≡ any (λ r. p r && q r) rows
  any-keep_both p q [] = refl
  any-keep_both p q (r ∷ rows) = ground (arith, any-keep_both p q rows)

  pub any-snoc :
      (p : A → Bool) (rows : List A) (x : A) → any p (rows ++ x ∷ []) ≡ (any p rows || p x)
  any-snoc p [] x = ground arith
  any-snoc p (r ∷ rows) x = ground (arith, any-snoc p rows x)

  pub any_of_find :
      (p : A → Bool) (rows : List A)
      → any p rows ≡ (elim (find p rows) [ none ↦ false | some x ↦ true ])
  any_of_find p [] = refl
  any_of_find p (r ∷ rows) = ground (arith, any_of_find p rows)

module _ {ℓ} {A : Type ℓ} ⦃e : Equality A⦄ where
  -- `a in xs`
  abbrev pub contains : A → List A → Bool
  contains a [] = false
  contains a (x ∷ xs) = (a == x) || contains a xs

module _ {ℓ κ} {A : Type ℓ} (P : A → Type κ) where
  -- An element that passes the test is kept, so it has what all kept elements have.
  pub keep_at :
      (test : A → Bool) (xs : List A) (i : ℕ) (x : A)
      → get_elem? xs i ≡ some x
      → test x ≡ true
      → All P (keep test xs)
      → P x
  keep_at test [] i x h t all = cc
  keep_at test (y ∷ ys) zero x h t all =
      let e : y ≡ x = cc in
      let kept : All P (y ∷ keep test ys) = rw e (rw t at (rw e at all)) in subst P e kept.0
  keep_at test (y ∷ ys) (suc i) x h t all = elim (Bool-cases (test y)) [
    | inl e ↦ keep_at test ys i x h t ((rw e at all).1)
    | inr e ↦ keep_at test ys i x h t (rw e at all)
  ]

  -- What holds of all holds of those kept.
  pub All-keep : (test : A → Bool) (xs : List A) → All P xs → All P (keep test xs)
  All-keep test [] all = tt
  All-keep test (y ∷ ys) all = elim (Bool-cases (test y)) [
    | inl e ↦ rw e (all.0, All-keep test ys all.1)
    | inr e ↦ rw e (All-keep test ys all.1)
  ]

  -- What all have, the one that is found has.
  pub find_all : (test : A → Bool) (xs : List A) (x : A) → All P xs → find test xs ≡ some x → P x
  find_all test [] x all h = cc
  find_all test (y ∷ ys) x all h = elim (Bool-cases (test y)) [
    | inl e ↦ subst P (ground arith) all.0
    | inr e ↦ find_all test ys x all.1 (ground arith)
  ]

  pub All-snoc : (xs : List A) (x : A) → All P xs → P x → All P (xs ++ x ∷ [])
  All-snoc [] x all p = (p, tt)
  All-snoc (y ∷ ys) x all p = (all.0, All-snoc ys x all.1 p)

pub All-map {ℓ κ μ} :
    {A : Type ℓ} (P : A → Type κ) (Q : A → Type μ) (xs : List A)
    → ((x : A) → P x → Q x)
    → All P xs
    → All Q xs
All-map P Q [] f all = tt
All-map P Q (x ∷ xs) f all = (f x all.0, All-map P Q xs f all.1)

pub All-zip {ℓ κ μ} :
    {A : Type ℓ} (P : A → Type κ) (Q : A → Type μ) (xs : List A)
    → All P xs
    → All Q xs
    → All (λ x. P x × Q x) xs
All-zip P Q [] ps qs = tt
All-zip P Q (x ∷ xs) ps qs = ((ps.0, qs.0), All-zip P Q xs ps.1 qs.1)
