-- ===== src/Prelude/Tests.antt =====
-- Boolean tests, the conditional, and the case lemmas that keep an equation.
use Prim.Native.Nat.{ℕ, ◌≤◌, ◌<◌, compare, Ordering}
use Prim.Native.String.{String}
use mathlib.Core.Path.{◌≡◌, refl}
use mathlib.Core.Logic.{◌↔◌, ◌⊎◌, inl, inr}
use mathlib.Core.Bool.{Bool, true, false}
use mathlib.Core.Option.{Option, none, some}
use native.Mathlib.Omega.{arith}
use text.Mathlib.Text.{◌==◌ as text_eq}
use text.Mathlib.TextEquality.{eq_iff}

abbrev pub ltb : ℕ → ℕ → Bool
ltb a b = elim (compare a b) [ Ordering.lt ↦ true | _ ↦ false ]

abbrev pub leb : ℕ → ℕ → Bool
leb a b = elim (compare a b) [ Ordering.gt ↦ false | _ ↦ true ]

infix 50 ◌==◌
abbrev pub ◌==◌ : ℕ → ℕ → Bool
a == b = elim (compare a b) [ Ordering.eq ↦ true | _ ↦ false ]

-- `===` on two strings
abbrev pub str_eq : String → String → Bool
str_eq s t = text_eq s t

-- `===` on two values that are a string or null
abbrev pub opt_eq : Option String → Option String → Bool
opt_eq none none = true
opt_eq none (some t) = false
opt_eq (some s) none = false
opt_eq (some s) (some t) = str_eq s t

infix 1 if◌then◌else◌
abbrev pub if◌then◌else◌ {ℓ} : {A : Type ℓ} → Bool → A → A → A
if true then x else y = x
if false then x else y = y

pub leb→le : (a b : ℕ) → leb a b ≡ true → a ≤ b
leb→le a b h = ground arith

pub lt→leb : (a b : ℕ) → leb a b ≡ false → b < a
lt→leb a b h = ground arith

pub Bool-cases : (b : Bool) → (b ≡ true) ⊎ (b ≡ false)
Bool-cases true = inl refl
Bool-cases false = inr refl

pub Option-cases {ℓ} : {A : Type ℓ} (o : Option A) → (o ≡ none) ⊎ ((a : A) × (o ≡ some a))
Option-cases none = inl refl
Option-cases (some a) = inr (a, refl)

pub opt_eq_iff : (a b : Option String) → (opt_eq a b ≡ true) ↔ (a ≡ b)
opt_eq_iff none none = ground arith
opt_eq_iff none (some t) = ground arith
opt_eq_iff (some s) none = ground arith
opt_eq_iff (some s) (some t) = ground (arith, eq_iff s t)

-- A property of both branches of a test is one of its result.
pub if_intro {ℓ ℓ'} :
    {A : Type ℓ} (P : A → Type ℓ') (test : Bool) (x y : A) → P x → P y → P (if test then x else y)
if_intro P true x y p q = p
if_intro P false x y p q = q

pub if_given {ℓ ℓ'} :
    {A : Type ℓ} (P : A → Type ℓ') (test : Bool) (x y : A)
    → (test ≡ true → P x)
    → (test ≡ false → P y)
    → P (if test then x else y)
if_given P true x y p q = p refl
if_given P false x y p q = q refl

-- What is left of a guarded call once the guard did not stop it.
pub past_guard {ℓ} :
    {A : Type ℓ} (test : Bool) (x y z : A) → test ≡ false → (if test then x else y) ≡ z → y ≡ z
past_guard true x y z open_guard e = cc
past_guard false x y z open_guard e = e

pub past_stop {ℓ} :
    {A : Type ℓ} (test : Bool) (x y z : A) → test ≡ true → (if test then x else y) ≡ z → x ≡ z
past_stop true x y z stopped e = e
past_stop false x y z stopped e = cc
