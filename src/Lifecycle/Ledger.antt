-- ===== src/Lifecycle/Ledger.antt =====
-- The ledger of tombstones of api/data_security/lifecycle.py.
use mathlib.Core.Path.{fun_ext}
use hackaton_open_ai.Prelude.{
  ℕ, ◌+◌, ◌<◌, ◌≡◌, ◌∙◌, refl, sym, subst, String, Bool, true, ◌&&◌, ◌||◌, Option, none, some, List,
  [], ◌∷◌, ◌++◌, length, find, any, ◌==◌, string_eq, eq_iff, arith, Bool-cases, Option-cases, inl,
  inr, ap, append-nil, if◌then◌else◌, any-snoc, any_of_find, or_true, or_false,
}
use hackaton_open_ai.Lifecycle.{
  DeletionTombstone, DeletionTarget, family_target, evidence_target, same_target, append, has_key,
  after, new_tombstone,
}

-- The ledger has a tombstone for the target.
abbrev pub tombstoned : String → DeletionTarget → String → List DeletionTombstone → Bool
tombstoned family target id ledger = any (has_key family target id) ledger

abbrev pub same_key : String → DeletionTarget → String → String → DeletionTarget → String → Bool
same_key f t i g u j = same_target t u && (f == g) && (i == j)

same_target_eq : (t u : DeletionTarget) → same_target t u ≡ true → t ≡ u
same_target_eq family_target family_target h = refl
same_target_eq family_target evidence_target h = cc
same_target_eq evidence_target family_target h = cc
same_target_eq evidence_target evidence_target h = refl

has_key_same :
    (f g : String) (t u : DeletionTarget) (i j : String)
    → same_key f t i g u j ≡ true
    → has_key f t i ≡ has_key g u j
has_key_same f g t u i j h =
    let a = (eq_iff f g).0 (ground (arith, h)) in
    let b = same_target_eq t u (ground (arith, h)) in
    let c = (eq_iff i j).0 (ground (arith, h)) in cc (a, b, c)

-- An append adds its target to those that have a tombstone, and no other.
pub tombstoned-append :
    (f g : String) (t u : DeletionTarget) (i j : String) (now : ℕ) (reason : String)
    (ledger : List DeletionTombstone)
    → tombstoned g u j (append f t i now reason ledger).1
      ≡ (tombstoned g u j ledger || same_key f t i g u j)
unfolding append
tombstoned-append f g t u i j now reason ledger =
    elim (Option-cases (find (has_key f t i) ledger)) [
      | inl e ↦ rw (e, append) (any-snoc (has_key g u j) ledger _)
      | inr (x, e) ↦ elim (Bool-cases (same_key f t i g u j)) [
        | inr n ↦ rw (e, append, n) (or_false _)
        | inl k ↦
            rw (e, append, k)
              (or_true _ (
                subst (λ (p : DeletionTombstone → Bool). any p ledger ≡ true)
                  (has_key_same f g t u i j k) (any_of_find (has_key f t i) ledger ∙ rw e refl)))
      ]
    ]

-- When and why a target was deleted, according to the ledger.
abbrev pub recorded :
    List DeletionTombstone → String → DeletionTarget → String → Option (ℕ × String)
recorded ledger family target id = elim (find (has_key family target id) ledger) [
  | none ↦ none
  | some t ↦ some (t.deleted_at, t.reason)
]

pub record Entry : Type 0 where
  pub family_id : String
  pub target_type : DeletionTarget
  pub target_id : String
  pub deleted_at : ℕ
  pub reason : String

unfoldable pub append_all : List Entry → List DeletionTombstone → List DeletionTombstone
append_all [] ledger = ledger
append_all (e ∷ entries) ledger =
    append_all entries (append e.family_id e.target_type e.target_id e.deleted_at e.reason ledger).1

-- The contract: a partial function of the target, where the first entry for a target stays.
abbrev pub first_kept {ℓ} : {A : Type ℓ} → Option A → A → Option A
first_kept none new = some new
first_kept (some old) new = some old

abbrev pub replay :
    List Entry
    → (String → DeletionTarget → String → Option (ℕ × String))
    → String
    → DeletionTarget
    → String
    → Option (ℕ × String)
replay [] f = f
replay (e ∷ entries) f = replay entries λ g u j.
    if same_key e.family_id e.target_type e.target_id g u j
    then first_kept (f g u j) (e.deleted_at, e.reason)
    else f g u j

recorded-snoc :
    (g : String) (u : DeletionTarget) (j : String) (ledger : List DeletionTombstone)
    (x : DeletionTombstone)
    → recorded (ledger ++ x ∷ []) g u j ≡ (
        if has_key g u j x
        then first_kept (recorded ledger g u j) (x.deleted_at, x.reason)
        else recorded ledger g u j)
recorded-snoc g u j [] x = ground arith
recorded-snoc g u j (y ∷ ledger) x = ground (arith, recorded-snoc g u j ledger x)

recorded-append :
    (f g : String) (t u : DeletionTarget) (i j : String) (now : ℕ) (reason : String)
    (ledger : List DeletionTombstone)
    → recorded (append f t i now reason ledger).1 g u j ≡ (
        if same_key f t i g u j
        then first_kept (recorded ledger g u j) (now, reason)
        else recorded ledger g u j)
unfolding append
recorded-append f g t u i j now reason ledger = elim (Option-cases (find (has_key f t i) ledger)) [
  | inl e ↦ rw (e, append) (recorded-snoc g u j ledger _)
  | inr (x, e) ↦ elim (Bool-cases (same_key f t i g u j)) [
    | inr n ↦ rw (e, append, n) refl
    | inl k ↦
        let there : find (has_key g u j) ledger ≡ some x =
          subst (λ p. find p ledger ≡ some x) (has_key_same f g t u i j k) e in
        let entry : recorded ledger g u j ≡ some (x.deleted_at, x.reason) = ground (arith, there) in
        rw (e, append, k, entry) refl
  ]
]

-- The ledger implements its contract: after any sequence of appends, to whatever ledger, what it has for
-- each target is what the same entries give on a partial function that keeps the first for a target.
pub append_all_refines :
    (entries : List Entry) (ledger : List DeletionTombstone)
    → recorded (append_all entries ledger) ≡ replay entries (recorded ledger)
unfolding append_all
append_all_refines [] ledger = refl
append_all_refines (e ∷ entries) ledger =
    append_all_refines entries
      (append e.family_id e.target_type e.target_id e.deleted_at e.reason ledger).1
    ∙ ap (replay entries) (
        fun_ext λ g. fun_ext λ u. fun_ext λ j.
          recorded-append e.family_id g e.target_type u e.target_id j e.deleted_at e.reason ledger)

-- The sequence of a tombstone is its place in the ledger, from a first number on.
abbrev pub Numbered : ℕ → List DeletionTombstone → Type 0
Numbered n [] = Unit {0}
Numbered n (t ∷ ledger) = (t.sequence ≡ n) × Numbered (n + 1) ledger

Numbered-snoc :
    (n : ℕ) (ledger : List DeletionTombstone) (x : DeletionTombstone)
    → Numbered n ledger
    → x.sequence ≡ n + length ledger
    → Numbered n (ledger ++ x ∷ [])
Numbered-snoc n [] x v e = (omega (arith, e), tt)
Numbered-snoc n (y ∷ ledger) x v e = (v.0, Numbered-snoc (n + 1) ledger x v.1 (omega (arith, e)))

pub append-Numbered :
    (f : String) (t : DeletionTarget) (i : String) (now : ℕ) (reason : String)
    (ledger : List DeletionTombstone)
    → Numbered 1 ledger
    → Numbered 1 (append f t i now reason ledger).1
unfolding append
append-Numbered f t i now reason ledger v = elim (Option-cases (find (has_key f t i) ledger)) [
  | inl e ↦ rw (e, append) (Numbered-snoc 1 ledger _ v (omega arith))
  | inr (x, e) ↦ rw (e, append) v
]

pub append_added :
    (f : String) (t : DeletionTarget) (i : String) (now : ℕ) (reason : String)
    (ledger : List DeletionTombstone)
    → (more : List DeletionTombstone) × ((append f t i now reason ledger).1 ≡ ledger ++ more)
unfolding append
append_added f t i now reason ledger = elim (Option-cases (find (has_key f t i) ledger)) [
  | inl e ↦ (new_tombstone f t i now reason ledger ∷ [], rw (e, append) refl)
  | inr (x, e) ↦ ([], rw (e, append) (sym (append-nil ledger)))
]

after_all :
    (n w : ℕ) (more : List DeletionTombstone) → Numbered n more → w < n → after w more ≡ more
unfolding after
after_all n w [] v below = refl
after_all n w (x ∷ more) v below = ground (arith, v.0, after_all (n + 1) w more v.1)

-- What follows a watermark is what was added since.
pub after_watermark :
    (n w : ℕ) (ledger more : List DeletionTombstone)
    → Numbered n (ledger ++ more)
    → n + length ledger ≡ w + 1
    → after w (ledger ++ more) ≡ more
unfolding after
after_watermark n w [] more v e = after_all n w more v (omega (arith, e))
after_watermark n w (x ∷ ledger) more v e =
    ground (arith, v.0, e, after_watermark (n + 1) w ledger more v.1 (omega (arith, e)))
