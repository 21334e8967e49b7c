-- ===== src/Common/Tests.antt =====
-- Boolean tests on native numbers, the conditional, and the option monad.
use Prim.Native.Nat.{ℕ, ◌≤◌, ◌<◌, compare, Ordering}
use mathlib.Core.Path.{◌≡◌, refl, ap}
use mathlib.Core.Logic.{◌↔◌, ◌⊎◌, inl, inr}
use mathlib.Core.Bool.{Bool, true, false, not, ◌&&◌, ◌||◌}
use mathlib.Core.Option.{Option, none, some}
use native.Mathlib.Omega.{arith}

abbrev pub ltb : ℕ → ℕ → Bool
ltb a b = elim (compare a b) [ Ordering.lt ↦ true | _ ↦ false ]

abbrev pub leb : ℕ → ℕ → Bool
leb a b = elim (compare a b) [ Ordering.gt ↦ false | _ ↦ true ]

infix 50 ◌==◌
abbrev pub ◌==◌ : ℕ → ℕ → Bool
a == b = elim (compare a b) [ Ordering.eq ↦ true | _ ↦ false ]

infix 1 if◌then◌else◌
abbrev pub if◌then◌else◌ {ℓ} : {A : Type ℓ} → Bool → A → A → A
if true then x else y = x
if false then x else y = y

pub ==_iff : (a b : ℕ) → ((a == b) ≡ true) ↔ (a ≡ b)
==_iff a b = ground arith

pub Bool-cases : (b : Bool) → (b ≡ true) ⊎ (b ≡ false)
Bool-cases true = inl refl
Bool-cases false = inr refl

-- A property of both branches holds of the conditional.
pub if_either {ℓ κ} :
    {A : Type ℓ} (P : A → Type κ) (b : Bool) (x y : A)
    → (b ≡ true → P x)
    → (b ≡ false → P y)
    → P (if b then x else y)
if_either P true x y l r = l refl
if_either P false x y l r = r refl

pub Option-cases {ℓ} : {A : Type ℓ} (o : Option A) → (o ≡ none) ⊎ ((a : A) × (o ≡ some a))
Option-cases none = inl refl
Option-cases (some a) = inr (a, refl)

abbrev pub or_else {ℓ} : {A : Type ℓ} → Option A → Option A → Option A
or_else none y = y
or_else (some x) y = some x

pub or_else-none {ℓ} : {A : Type ℓ} (v : Option A) → or_else v none ≡ v
or_else-none none = refl
or_else-none (some v) = refl

pub or_else-absent {ℓ} :
    {A : Type ℓ} (x y : Option A) → or_else x y ≡ none → (x ≡ none) × (y ≡ none)
or_else-absent none y h = (refl, h)
or_else-absent (some x) y h = cc h

-- Two tests that do not hold at once, in either order.
pub swap_tests {ℓ} :
    {A : Type ℓ} (a b : Bool) (x y z : A)
    → (a ≡ true → b ≡ true → ⊥)
    → (if a then x else if b then y else z) ≡ (if b then y else if a then x else z)
swap_tests true true x y z h = absurd (h refl refl)
swap_tests true false x y z h = refl
swap_tests false b x y z h = refl

-- The monad of partial results: `none` is a panic, or input that cannot be read.
infixl 5 ◌>>=◌
abbrev pub ◌>>=◌ {ℓ κ} : {A : Type ℓ} {B : Type κ} → Option A → (A → Option B) → Option B
none >>= f = none
some a >>= f = f a

abbrev pub guard : Bool → Option (Unit {0})
guard true = some tt
guard false = none

infixl 5 ◌>>◌
abbrev pub ◌>>◌ {ℓ} : {B : Type ℓ} → Option (Unit {0}) → Option B → Option B
m >> k = m >>= λ _. k

-- Inversion of a bind that yields a value.
pub >>=-eq-some {ℓ κ} :
    {A : Type ℓ} {B : Type κ} (m : Option A) (f : A → Option B) {b : B}
    → (m >>= f) ≡ some b
    → (a : A) × (m ≡ some a) × (f a ≡ some b)
>>=-eq-some none f h = cc
>>=-eq-some (some a) f h = (a, refl, h)

pub le→leb : (a b : ℕ) → a ≤ b → leb a b ≡ true
le→leb a b h = ground arith

pub lt→not-leb : (a b : ℕ) → b < a → leb a b ≡ false
lt→not-leb a b h = ground arith

-- Conditionals and tests at a known value.
pub if_true {ℓ} : {A : Type ℓ} (b : Bool) (x y : A) → b ≡ true → (if b then x else y) ≡ x
if_true true x y h = refl
if_true false x y h = cc h

pub or_true : (a b : Bool) → b ≡ true → (a || b) ≡ true
or_true true b h = refl
or_true false b h = h

pub true_or : (a b : Bool) → a ≡ true → (a || b) ≡ true
true_or true b h = refl
true_or false b h = cc h

pub if_false {ℓ} : {A : Type ℓ} (b : Bool) (x y : A) → b ≡ false → (if b then x else y) ≡ y
if_false true x y h = cc h
if_false false x y h = refl

pub and_not : (a b : Bool) → b ≡ true → (a && not b) ≡ false
and_not true b h = ap not h
and_not false b h = refl

pub or_false : (a b : Bool) → a ≡ false → b ≡ false → (a || b) ≡ false
or_false true b h k = cc h
or_false false b h k = k
