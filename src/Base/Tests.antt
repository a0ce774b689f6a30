-- ===== src/Base/Tests.antt =====
-- Boolean tests on the native numbers, the conditional, and case splits that keep the equation.
use Prim.Native.Nat.{ℕ, ◌≤◌, ◌<◌, compare, Ordering}
use mathlib.Core.Path.{◌≡◌, refl}
use mathlib.Core.Logic.{◌↔◌, ◌≢◌, ◌⊎◌, inl, inr}
use mathlib.Core.Bool.{Bool, true, false}
use mathlib.Core.Option.{Option, none, some}
use native.Mathlib.Omega.{arith}

abbrev pub ltb : ℕ → ℕ → Bool
ltb a b = elim (compare a b) [ Ordering.lt ↦ true | _ ↦ false ]

abbrev pub leb : ℕ → ℕ → Bool
leb a b = elim (compare a b) [ Ordering.gt ↦ false | _ ↦ true ]

infix 50 ◌==◌
abbrev pub ◌==◌ : ℕ → ℕ → Bool
a == b = elim (compare a b) [ Ordering.eq ↦ true | _ ↦ false ]

infix 1 if◌then◌else◌
abbrev pub if◌then◌else◌ {ℓ} : {A : Type ℓ} → Bool → A → A → A
if true then x else y = x
if false then x else y = y

-- A property of a conditional, from its two branches.
pub by_if {κ} :
    {A : Type 0} (P : A → Type κ) (t : Bool) (x y : A)
    → (t ≡ true → P x)
    → (t ≡ false → P y)
    → P (if t then x else y)
by_if P true x y h k = h refl
by_if P false x y h k = k refl

-- Both branches of a test have the same value under `f`.
pub if_both :
    {A V : Type 0} (f : A → V) (v : V) (t : Bool) (x y : A)
    → f x ≡ v
    → f y ≡ v
    → f (if t then x else y) ≡ v
if_both f v true x y h k = h
if_both f v false x y h k = k

pub ltb→lt : (a b : ℕ) → ltb a b ≡ true → a < b
ltb→lt a b h = ground arith

pub lt→ltb : (a b : ℕ) → a < b → ltb a b ≡ true
lt→ltb a b h = ground arith

pub le→ltb : (a b : ℕ) → b ≤ a → ltb a b ≡ false
le→ltb a b h = ground arith

pub ltb→le : (a b : ℕ) → ltb a b ≡ false → b ≤ a
ltb→le a b h = ground arith

pub leb→le : (a b : ℕ) → leb a b ≡ true → a ≤ b
leb→le a b h = ground arith

pub ==_iff : (a b : ℕ) → ((a == b) ≡ true) ↔ (a ≡ b)
==_iff a b = ground arith

pub ==_refl : (a : ℕ) → (a == a) ≡ true
==_refl a = ground arith

pub Bool-cases : (b : Bool) → (b ≡ true) ⊎ (b ≡ false)
Bool-cases true = inl refl
Bool-cases false = inr refl

pub Option-cases {ℓ} : {A : Type ℓ} (o : Option A) → (o ≡ none) ⊎ ((a : A) × (o ≡ some a))
Option-cases none = inl refl
Option-cases (some a) = inr (a, refl)

pub le→leb : (a b : ℕ) → a ≤ b → leb a b ≡ true
le→leb a b h = ground arith

pub ne→==false : (a b : ℕ) → a ≢ b → (a == b) ≡ false
ne→==false a b h = ground arith

pub leb→lt : (a b : ℕ) → leb a b ≡ false → b < a
leb→lt a b h = ground arith

-- A chain of calls that each may give nothing, from its result.
pub elim-eq-some :
    {A B : Type 0} (m : Option A) (f : A → Option B) {y : B}
    → (elim m [ none ↦ none | some x ↦ f x ]) ≡ some y
    → (x : A) × (m ≡ some x) × (f x ≡ some y)
elim-eq-some none f h = cc
elim-eq-some (some x) f h = (x, refl, h)

pub elim-eq-true :
    {A : Type 0} (m : Option A) (f : A → Bool)
    → (elim m [ none ↦ false | some x ↦ f x ]) ≡ true
    → (x : A) × (m ≡ some x) × (f x ≡ true)
elim-eq-true none f h = cc
elim-eq-true (some x) f h = (x, refl, h)
