-- ===== src/Prelude/Tests.antt =====
-- Boolean tests, the conditional, and equality as an interface.
use Prim.Native.Nat.{ℕ, compare, Ordering}
use Prim.Native.String.{String}
use mathlib.Core.Path.{◌≡◌, refl}
use mathlib.Core.Logic.{◌↔◌, ◌⊎◌, inl, inr, ◌≢◌}
use mathlib.Core.Bool.{Bool, true, false, not, ◌&&◌, ◌||◌}
use mathlib.Core.Option.{Option, none, some}
use native.Mathlib.Omega.{arith}
use text.Mathlib.Text.{◌==◌ as str_eq}
use text.Mathlib.TextEquality.{eq_iff}

abbrev pub ltb : ℕ → ℕ → Bool
ltb a b = elim (compare a b) [ Ordering.lt ↦ true | _ ↦ false ]

abbrev pub leb : ℕ → ℕ → Bool
leb a b = elim (compare a b) [ Ordering.gt ↦ false | _ ↦ true ]

abbrev pub nat_beq : ℕ → ℕ → Bool
nat_beq a b = elim (compare a b) [ Ordering.eq ↦ true | _ ↦ false ]

infix 1 if◌then◌else◌
abbrev pub if◌then◌else◌ {ℓ} : {A : Type ℓ} → Bool → A → A → A
if true then x else y = x
if false then x else y = y

pub nat_beq_iff : (a b : ℕ) → (nat_beq a b ≡ true) ↔ (a ≡ b)
nat_beq_iff a b = ground arith

pub Bool-cases : (b : Bool) → (b ≡ true) ⊎ (b ≡ false)
Bool-cases true = inl refl
Bool-cases false = inr refl

pub Option-cases {ℓ} : {A : Type ℓ} (o : Option A) → (o ≡ none) ⊎ ((a : A) × (o ≡ some a))
Option-cases none = inl refl
Option-cases (some a) = inr (a, refl)

-- What Python's `==` decides on the values that the program compares.
pub record Equality {ℓ} (A : Type ℓ) : Type ℓ where
  pub equal : (left right : A) → Bool
  pub equal_iff : (left right : A) → (equal left right ≡ true) ↔ (left ≡ right)

instance abbrev pub string_eq : Equality String
string_eq = record { equal_iff = eq_iff; equal = str_eq }

infix 50 ◌==◌
abbrev pub ◌==◌ {ℓ} : {A : Type ℓ} ⦃same : Equality A⦄ → (left right : A) → Bool
◌==◌ ⦃same⦄ left right = same.equal left right

instance abbrev pub nat_eq : Equality ℕ
nat_eq = record { equal_iff = nat_beq_iff; equal = nat_beq }

pub ==_refl {ℓ} : {A : Type ℓ} ⦃e : Equality A⦄ (a : A) → (a == a) ≡ true
==_refl ⦃e⦄ a = (e.equal_iff a a).1 refl

-- The two answers of a comparison, with what each says.
pub ==_cases {ℓ} :
    {A : Type ℓ} ⦃e : Equality A⦄ (a b : A)
    → (((a == b) ≡ true) × (a ≡ b)) ⊎ (((a == b) ≡ false) × (a ≢ b))
==_cases ⦃e⦄ a b = elim (Bool-cases (e.equal a b)) [
  | inl p ↦ inl (p, (e.equal_iff a b).0 p)
  | inr p ↦ inr (p, λ q. cc (p, (e.equal_iff a b).1 q))
]

pub or_true : (b : Bool) → b ≡ true → b ≡ (b || true)
or_true true h = refl
or_true false h = cc

pub and_true : (b : Bool) → b ≡ (b && not false)
and_true true = refl
and_true false = refl

pub and_not : (a b c : Bool) → ((a && not b) && not c) ≡ (a && not (b || c))
and_not true true c = refl
and_not true false c = refl
and_not false b c = refl

pub or_assoc : (a b c : Bool) → ((a || b) || c) ≡ (a || (b || c))
or_assoc true b c = refl
or_assoc false b c = refl

pub or_false : (b : Bool) → b ≡ (b || false)
or_false true = refl
or_false false = refl

pub and_never : (a : Bool) → not (a && false) ≡ true
and_never true = refl
and_never false = refl

-- A value is not two others at once.
pub apart {ℓ} :
    {A : Type ℓ} ⦃e : Equality A⦄ (a b c : A) → (a == b) ≡ false → ((a == c) && (b == c)) ≡ false
apart a b c differ = elim (==_cases a c) [
  | inr (h, n) ↦ rw h refl
  | inl (h, same) ↦
      rw h (elim (==_cases b c) [ inr (f, n) ↦ f | inl (f, too) ↦ absurd (cc (differ, h, too)) ])
]
