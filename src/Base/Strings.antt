-- ===== src/Base/Strings.antt =====
-- C strings and buffers. A `const char *` is the list of its bytes before the NUL; a pointer into
-- a string is the rest of the list. A buffer that a function fills is `Out`: NULL, or its capacity.
use Prim.Native.Nat.{ℕ}
use Prim.Native.Char.{code}
use Prim.Native.String.{String}
use mathlib.Core.Path.{◌≡◌, refl}
use mathlib.Core.Bool.{Bool, true, false, ◌&&◌}
use mathlib.Core.List.{List, [], ◌∷◌, ◌++◌}
use mathlib.Core.Option.{Option, none, some}
use native.Mathlib.Omega.{arith}
use mcu_sdk.Base.Tests.{◌==◌, if◌then◌else◌}

abbrev pub Bytes : Type 0
Bytes = List ℕ

-- The bytes of an ASCII literal.
abbrev pub codes : String → Bytes
codes String.[] = []
codes (String.◌∷◌ c s) = code c ∷ codes s

pub data Out : Type 0 where
  null : Out
  room : ℕ → Out

-- `memcmp(a, b, n) == 0` for two blocks of the same length.
abbrev pub bytes_eq : Bytes → Bytes → Bool
bytes_eq [] [] = true
bytes_eq [] (y ∷ ys) = false
bytes_eq (x ∷ xs) [] = false
bytes_eq (x ∷ xs) (y ∷ ys) = x == y && bytes_eq xs ys

pub bytes_eq_sound : (xs ys : Bytes) → bytes_eq xs ys ≡ true → xs ≡ ys
bytes_eq_sound [] [] h = refl
bytes_eq_sound [] (y ∷ ys) h = ground arith
bytes_eq_sound (x ∷ xs) [] h = ground arith
bytes_eq_sound (x ∷ xs) (y ∷ ys) h = ground (arith, bytes_eq_sound xs ys)

pub bytes_eq_refl : (xs : Bytes) → bytes_eq xs xs ≡ true
bytes_eq_refl [] = refl
bytes_eq_refl (x ∷ xs) = ground (arith, bytes_eq_refl xs)

-- `strncmp(s, p, strlen(p)) == 0`: the rest of `s` behind the prefix `p`.
abbrev pub strip : Bytes → Bytes → Option Bytes
strip [] s = some s
strip (c ∷ p) [] = none
strip (c ∷ p) (d ∷ s) = if c == d then strip p s else none

pub strip-append : (p s : Bytes) → strip p (p ++ s) ≡ some s
strip-append [] s = refl
strip-append (c ∷ p) s = ground (arith, strip-append p s)

pub strip_sound : (p s r : Bytes) → strip p s ≡ some r → s ≡ p ++ r
strip_sound [] s r h = ground arith
strip_sound (c ∷ p) [] r h = ground arith
strip_sound (c ∷ p) (d ∷ s) r h = ground (arith, strip_sound p s r)

-- The C string that an array holds: its bytes before the first NUL.
abbrev pub c_string : Bytes → Bytes
c_string [] = []
c_string (c ∷ s) = if c == 0 then [] else c ∷ c_string s
