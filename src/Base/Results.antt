-- ===== src/Base/Results.antt =====
-- What a C function that can fail gives: a value, its error code, or one of two things that no run
-- of the C program gives in a defined way: a read out of bounds, and a loop that does not end.
use Prim.Native.Nat.{ℕ, zero, suc, ◌<◌}
use mathlib.Core.Bool.{Bool, true, false}
use mathlib.Core.List.{List, [], ◌∷◌}
use mathlib.Core.Option.{none, some}
use mathlib.Core.Logic.{◌≢◌}
use mathlib.Core.Path.{◌≡◌, refl, subst}
use mcu_sdk.Base.Lists.{get_elem?, length}
use mcu_sdk.Base.Tests.{if◌then◌else◌}
use native.Mathlib.Omega.{arith}

pub data Outcome (E A : Type 0) : Type 0 where
  done : A → Outcome E A
  failed : E → Outcome E A
  -- a read outside the object that a pointer points into
  fault : Outcome E A
  -- the fuel of a loop ran out
  stuck : Outcome E A

infixl 5 ◌>>=◌ ◌>>◌
abbrev pub ◌>>=◌ : {E A B : Type 0} → Outcome E A → (A → Outcome E B) → Outcome E B
done a >>= f = f a
failed e >>= f = failed e
fault >>= f = fault
stuck >>= f = stuck

abbrev pub ◌>>◌ : {E B : Type 0} → Outcome E (Unit {0}) → Outcome E B → Outcome E B
m >> k = m >>= λ _. k

-- `if (test) return e;`
abbrev pub fail_if : {E : Type 0} → Bool → E → Outcome E (Unit {0})
fail_if true e = failed e
fail_if false e = done tt

-- `if (call) return e;` for a call that reports failure by its result.
abbrev pub or_fail : {E F A : Type 0} → Outcome E A → F → Outcome F A
or_fail (done a) f = done a
or_fail (failed e) f = failed f
or_fail fault f = fault
or_fail stuck f = stuck

-- `buf[i]`
abbrev pub load : {E : Type 0} → List ℕ → ℕ → Outcome E ℕ
load buf i = elim (get_elem? buf i) [ none ↦ fault | some b ↦ done b ]

-- The run ends without a read out of bounds, and what it returns has the property.
pub data Returns {E A : Type 0} (P : A → Type 0) : Outcome E A → Type 0 where
  returns : {a : A} → P a → Returns P (done a)
  fails : {e : E} → Returns P (failed e)

-- The rules by which a run is taken apart: a bind, a test, a load within bounds.
pub Returns-bind :
    {E A B : Type 0} {P : A → Type 0} {Q : B → Type 0} {m : Outcome E A} {f : A → Outcome E B}
    → Returns P m
    → ((a : A) → P a → Returns Q (f a))
    → Returns Q (m >>= f)
Returns-bind (returns {a = a} h) k = k a h
Returns-bind fails k = fails

pub Returns-if :
    {E A : Type 0} {P : A → Type 0} (b : Bool) {x y : Outcome E A}
    → (b ≡ true → Returns P x)
    → (b ≡ false → Returns P y)
    → Returns P (if b then x else y)
Returns-if true h k = h refl
Returns-if false h k = k refl

pub Returns-fail_if :
    {E A : Type 0} {P : A → Type 0} (b : Bool) (e : E) {m : Outcome E A}
    → (b ≡ false → Returns P m)
    → Returns P (fail_if b e >> m)
Returns-fail_if true e h = fails
Returns-fail_if false e h = h refl

pub Returns-or_fail :
    {E F A : Type 0} {P : A → Type 0} {m : Outcome E A} (f : F)
    → Returns P m
    → Returns P (or_fail m f)
Returns-or_fail f (returns h) = returns h
Returns-or_fail f fails = fails

pub Returns-load :
    {E B : Type 0} {P : B → Type 0} (buf : List ℕ) (i : ℕ) {f : ℕ → Outcome E B}
    → i < length buf
    → ((b : ℕ) → get_elem? buf i ≡ some b → Returns P (f b))
    → Returns P (load buf i >>= f)
Returns-load [] i h k = absurd (omega arith)
Returns-load (x ∷ xs) zero h k = k x refl
Returns-load (x ∷ xs) (suc i) h k = Returns-load xs i (omega arith) k

pub Returns-mono :
    {E A : Type 0} {P Q : A → Type 0} {m : Outcome E A}
    → Returns P m
    → ((a : A) → P a → Q a)
    → Returns Q m
Returns-mono (returns {a = a} h) k = returns (k a h)
Returns-mono fails k = fails

IsReturned : {E A : Type 0} → (A → Type 0) → Outcome E A → Type 0
IsReturned P (done a) = P a
IsReturned P (failed e) = Unit
IsReturned P fault = ⊥
IsReturned P stuck = ⊥

Returns-IsReturned :
    {E A : Type 0} {P : A → Type 0} {m : Outcome E A} → Returns P m → IsReturned P m
unfolding IsReturned
Returns-IsReturned (returns h) = h
Returns-IsReturned fails = tt

-- What is known of a run that returned, and that it is neither of the other two.
pub Returns-done :
    {E A : Type 0} {P : A → Type 0} {m : Outcome E A} {a : A} → Returns P m → m ≡ done a → P a
unfolding IsReturned
Returns-done {P} h e = subst (IsReturned P) e (Returns-IsReturned h)

pub Returns-ne-fault : {E A : Type 0} {P : A → Type 0} {m : Outcome E A} → Returns P m → m ≢ fault
unfolding IsReturned
Returns-ne-fault {P} h e = subst (IsReturned P) e (Returns-IsReturned h)

pub Returns-ne-stuck : {E A : Type 0} {P : A → Type 0} {m : Outcome E A} → Returns P m → m ≢ stuck
unfolding IsReturned
Returns-ne-stuck {P} h e = subst (IsReturned P) e (Returns-IsReturned h)
