-- ===== src/Base/Words.antt =====
-- Machine words as native numbers, with their wrap-around written out. `size_t` is the 32-bit type
-- of the ESP32-S3.
use Prim.Native.Nat.{ℕ, ◌+◌, ◌-◌, ◌^◌, ◌%◌, ◌≤◌, ◌<◌}
use mathlib.Core.Path.{◌≡◌}
use native.Mathlib.Omega.{arith}
use mcu_sdk.Base.Tests.{ltb, if◌then◌else◌}

abbrev pub size_mod : ℕ
size_mod = 2 ^ 32

abbrev pub u64_mod : ℕ
u64_mod = 2 ^ 64

-- a - b on `size_t`
abbrev pub sub_size : ℕ → ℕ → ℕ
sub_size a b = (a + size_mod - b) % size_mod

pub sub_size_le : (a b : ℕ) → b ≤ a → a < size_mod → sub_size a b ≡ a - b
sub_size_le a b h k = omega arith

-- `negsuc n` is -(n + 1).
pub data ℤ : Type 0 where
  pos : ℕ → ℤ
  negsuc : ℕ → ℤ

-- The `int64_t` that a bit pattern stands for.
abbrev pub to_int64 : ℕ → ℤ
to_int64 w = if ltb w (2 ^ 63) then pos w else negsuc (2 ^ 64 - w - 1)
