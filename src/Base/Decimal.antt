-- ===== src/Base/Decimal.antt =====
-- `%llu` of the C library: decimal digits. Twenty are enough for a uint64_t.
use mcu_sdk.Base.Lists.{length, length-append, All, All-append}
use mcu_sdk.Base.Strings.{Bytes}
use mcu_sdk.Base.Tests.{ltb, if◌then◌else◌}
use Prim.Native.Nat.{ℕ, zero, suc, ◌+◌, ◌-◌, ◌*◌, ◌/◌, ◌%◌, ◌^◌, ◌≤◌, ◌<◌}
use mathlib.Core.Path.{◌≡◌, refl}
use mathlib.Core.List.{[], ◌∷◌, ◌++◌}
use native.Mathlib.Nat.{pow-suc}
use native.Mathlib.Omega.{arith}

unfoldable pub decimal_digits : ℕ → ℕ → Bytes
decimal_digits zero n = []
decimal_digits (suc f) n =
    let front = decimal_digits f (n / 10) in
    if ltb n 10 then (b'0' + n) ∷ [] else front ++ ((b'0' + n % 10) ∷ [])

unfoldable pub decimal : ℕ → Bytes
unfolding decimal_digits
decimal n = decimal_digits 20 n

abbrev pub IsDigit : ℕ → Type 0
IsDigit c = (b'0' ≤ c) × (c ≤ b'9')

decimal_digits-IsDigit : (f n : ℕ) → All IsDigit (decimal_digits f n)
unfolding decimal_digits
decimal_digits-IsDigit zero n = tt
decimal_digits-IsDigit (suc f) n = ground (
  arith,
  All-append IsDigit (decimal_digits f (n / 10)) ((b'0' + n % 10) ∷ [])
      (decimal_digits-IsDigit f (n / 10)) (omega arith),
)

pub decimal-IsDigit : (n : ℕ) → All IsDigit (decimal n)
unfolding decimal
decimal-IsDigit n = decimal_digits-IsDigit 20 n

decimal_digits_pos : (f n : ℕ) → 0 < length (decimal_digits (suc f) n)
unfolding decimal_digits
decimal_digits_pos f n =
    ground (arith, length-append (decimal_digits f (n / 10)) ((b'0' + n % 10) ∷ []))

pub decimal_pos : (n : ℕ) → 0 < length (decimal n)
decimal_pos n = unfold decimal in decimal_digits_pos 19 n

-- The number that a row of digits stands for, read on from `v`, on a uint64_t.
unfoldable pub read_digits : ℕ → Bytes → ℕ
read_digits v [] = v
read_digits v (c ∷ s) = read_digits ((v * 10 + (c - b'0')) % 2 ^ 64) s

read_digits-snoc :
    (v : ℕ) (s : Bytes) (c : ℕ)
    → read_digits v (s ++ (c ∷ [])) ≡ (read_digits v s * 10 + (c - b'0')) % 2 ^ 64
unfolding read_digits
read_digits-snoc v [] c = refl
read_digits-snoc v (d ∷ s) c = read_digits-snoc ((v * 10 + (d - b'0')) % 2 ^ 64) s c

read_digits-decimal_digits :
    (f n : ℕ) → n < 10 ^ f → n < 2 ^ 64 → read_digits 0 (decimal_digits f n) ≡ n
unfolding decimal_digits read_digits
read_digits-decimal_digits zero n h k = omega arith
read_digits-decimal_digits (suc f) n h k = ground (
  arith,
  read_digits-snoc 0 (decimal_digits f (n / 10)) (b'0' + n % 10),
  read_digits-decimal_digits f (n / 10) (omega (arith, pow-suc 10 f)),
)

pub read_digits-decimal : (n : ℕ) → n < 2 ^ 64 → read_digits 0 (decimal n) ≡ n
unfolding decimal
read_digits-decimal n h = read_digits-decimal_digits 20 n (omega arith) h
