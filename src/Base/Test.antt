-- ===== src/Base/Test.antt =====
-- The comparisons of C on native numbers, the conditional, and splits that keep the equation.
use Prim.Native.Nat.{ℕ, ◌≤◌, ◌<◌, compare, Ordering}
use mathlib.Core.Path.{◌≡◌, refl}
use mathlib.Core.Logic.{◌≢◌, ◌⊎◌, inl, inr}
use mathlib.Core.Bool.{Bool, true, false, ◌||◌, true≢false, false≢true}
use native.Mathlib.Omega.{arith}

abbrev pub ltb : ℕ → ℕ → Bool
ltb a b = elim (compare a b) [ Ordering.lt ↦ true | _ ↦ false ]

abbrev pub leb : ℕ → ℕ → Bool
leb a b = elim (compare a b) [ Ordering.gt ↦ false | _ ↦ true ]

infix 50 ◌==◌
abbrev pub ◌==◌ : ℕ → ℕ → Bool
a == b = elim (compare a b) [ Ordering.eq ↦ true | _ ↦ false ]

infix 1 if◌then◌else◌
abbrev pub if◌then◌else◌ {ℓ} : {A : Type ℓ} → Bool → A → A → A
if true then x else y = x
if false then x else y = y

pub ltb-false_of_le : (a b : ℕ) → b ≤ a → ltb a b ≡ false
ltb-false_of_le a b h = ground arith

pub ltb-true_of_lt : (a b : ℕ) → a < b → ltb a b ≡ true
ltb-true_of_lt a b h = ground arith

pub lt_of_ltb-true : (a b : ℕ) → ltb a b ≡ true → a < b
lt_of_ltb-true a b h = ground arith

pub le_of_ltb-false : (a b : ℕ) → ltb a b ≡ false → b ≤ a
le_of_ltb-false a b h = ground arith

pub eq_of_==-true : (a b : ℕ) → (a == b) ≡ true → a ≡ b
eq_of_==-true a b h = ground arith

pub ==_self : (a : ℕ) → (a == a) ≡ true
==_self a = ground arith

pub ne_of_==-false : (a b : ℕ) → (a == b) ≡ false → a ≢ b
ne_of_==-false a b h = ground arith

pub Bool-cases : (b : Bool) → (b ≡ true) ⊎ (b ≡ false)
Bool-cases true = inl refl
Bool-cases false = inr refl

pub if_true {ℓ} : {A : Type ℓ} (b : Bool) → b ≡ true → (x y : A) → (if b then x else y) ≡ x
if_true true e x y = refl
if_true false e x y = absurd (false≢true e)

pub if_false {ℓ} : {A : Type ℓ} (b : Bool) → b ≡ false → (x y : A) → (if b then x else y) ≡ y
if_false true e x y = absurd (true≢false e)
if_false false e x y = refl

pub or_false : (a b : Bool) → (a || b) ≡ false → (a ≡ false) × (b ≡ false)
or_false true b h = absurd (true≢false h)
or_false false b h = (refl, h)
