-- ===== src/Base/Bits.antt =====
-- Facts about `bit_and` and `bit_or` at variables, from the digit recursion that they stand for.
use mcu_sdk.Base.Tests.{◌==◌, ==_iff}
use Prim.Native.Nat.{
  ℕ, zero, suc, ◌+◌, ◌*◌, ◌/◌, ◌%◌, ◌^◌, ◌≤◌, ◌<◌, max, bit_and, bit_or, digits, bit_or-bitwise,
}
use mathlib.Core.Path.{◌≡◌, refl, ap}
use mathlib.Core.Bool.{Bool, true, ◌&&◌}
use native.Mathlib.Omega.{arith}
use native.Mathlib.Nat.{pow-suc}

-- A test of every byte below a bound, which evaluation decides.
bytes_pass : (ℕ → Bool) → ℕ → Bool
bytes_pass test zero = true
bytes_pass test (suc top) = bytes_pass test top && test top

passes : (test : ℕ → Bool) (top c : ℕ) → c < top → bytes_pass test top ≡ true → test c ≡ true
unfolding bytes_pass
passes test zero c below all = absurd (omega arith)
passes test (suc top) c below all = ground (arith, passes test top c)

low_table : bytes_pass (λ c. bit_and c 0x7f == c % 128) 256 ≡ true
unfolding bytes_pass
low_table = refl

top_table : bytes_pass (λ c. bit_and c 0x80 == c / 128 * 128) 256 ≡ true
unfolding bytes_pass
top_table = refl

pub low_bits : (b : ℕ) → b < 256 → bit_and b 0x7f ≡ b % 128
low_bits b h = (==_iff _ _).0 (passes _ 256 b h low_table)

pub top_bit : (b : ℕ) → b < 256 → bit_and b 0x80 ≡ b / 128 * 128
top_bit b h = (==_iff _ _).0 (passes _ 256 b h top_table)

-- The recursion over binary digits behind `|`, where `fuel` bounds their number.
abbrev or_rec : ℕ → ℕ → ℕ → ℕ
or_rec fuel x y = digits (λ rest. rest) max fuel x y

-- Any two amounts of fuel that cover the left operand agree.
or_rec_same : (x y f g : ℕ) → x ≤ f → x ≤ g → or_rec f x y ≡ or_rec g x y
or_rec_same zero y zero zero h k = refl
or_rec_same zero y zero (suc g) h k = refl
or_rec_same zero y (suc f) zero h k = refl
or_rec_same zero y (suc f) (suc g) h k = refl
or_rec_same (suc x) y zero g h k = absurd (omega arith)
or_rec_same (suc x) y (suc f) zero h k = absurd (omega arith)
or_rec_same (suc x) y (suc f) (suc g) h k =
    let halves = or_rec_same (suc x / 2) (y / 2) f g (omega arith) (omega arith) in
    omega (arith, halves)

zero-bit_or : (y : ℕ) → bit_or 0 y ≡ y
zero-bit_or = bit_or-bitwise 0

-- The lowest digit of `x | y`.
bit_or_step : (x y : ℕ) → bit_or x y ≡ bit_or (x / 2) (y / 2) * 2 + max (x % 2) (y % 2)
bit_or_step zero y = omega (arith, zero-bit_or (y / 2), zero-bit_or y)
bit_or_step (suc x) y =
    let halves = or_rec_same (suc x / 2) (y / 2) x (suc x / 2) (omega arith) (omega arith) in
    omega (arith, halves, bit_or-bitwise (suc x / 2) (y / 2), bit_or-bitwise (suc x) y)

double : (g s : ℕ) → g * 2 ^ suc s ≡ 2 * (g * 2 ^ s)
double g s = omega (arith, ap (λ (t : ℕ). g * t) (pow-suc 2 s))

-- `a | (g << s)` is a sum where `a` has only the bits below `s`.
pub bit_or_above : (s a g : ℕ) → a < 2 ^ s → bit_or a (g * 2 ^ s) ≡ a + g * 2 ^ s
bit_or_above zero a g h = ground (arith, zero-bit_or g)
bit_or_above (suc s) a g h = ground (
  arith,
  bit_or_step a (g * 2 ^ suc s),
  double g s,
  bit_or_above s (a / 2) g (omega (arith, pow-suc 2 s)),
)

bit_or-zero_below : (bound x : ℕ) → x ≤ bound → bit_or x 0 ≡ x
bit_or-zero_below bound zero h = zero-bit_or 0
bit_or-zero_below zero (suc x) h = absurd (omega arith)
bit_or-zero_below (suc bound) (suc x) h =
    let half = bit_or-zero_below bound (suc x / 2) (omega arith) in
    omega (arith, half, bit_or_step (suc x) 0)

-- `(g << s) | a` is a sum where `a` has only the bits below `s`.
pub bit_or_below : (s g a : ℕ) → a < 2 ^ s → bit_or (g * 2 ^ s) a ≡ g * 2 ^ s + a
bit_or_below zero g a h = ground (arith, bit_or-zero_below g g)
bit_or_below (suc s) g a h = ground (
  arith,
  bit_or_step (g * 2 ^ suc s) a,
  double g s,
  bit_or_below s g (a / 2) (omega (arith, pow-suc 2 s)),
)

-- `|` of two words is a word.
pub bit_or_lt : (n a b : ℕ) → a < 2 ^ n → b < 2 ^ n → bit_or a b < 2 ^ n
bit_or_lt zero zero b h k = omega (arith, zero-bit_or b)
bit_or_lt zero (suc a) b h k = absurd (omega arith)
bit_or_lt (suc n) a b h k = omega (
  arith,
  bit_or_step a b,
  bit_or_lt n (a / 2) (b / 2) (omega (arith, pow-suc 2 n)) (omega (arith, pow-suc 2 n)),
  pow-suc 2 n,
)
