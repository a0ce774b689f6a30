-- ===== src/Base/Hex.antt =====
-- `%02x` of the C library, as the device ids use it.
use mcu_sdk.Base.Lists.{length}
use mcu_sdk.Base.Strings.{Bytes}
use mcu_sdk.Base.Tests.{ltb, leb, Bool-cases, if◌then◌else◌}
use Prim.Native.Nat.{ℕ, ◌+◌, ◌/◌, ◌%◌, ◌<◌}
use mathlib.Core.Logic.{inl, inr}
use mathlib.Core.List.{[], ◌∷◌}
use native.Mathlib.Omega.{arith}

unfoldable pub hex_digit : ℕ → ℕ
hex_digit n = if ltb n 10 then b'0' + n else 87 + n

-- The loop that writes bytes behind `w` characters of a buffer of `cap`, while two digits and a NUL fit.
unfoldable pub hex_loop : ℕ → ℕ → Bytes → Bytes
unfolding hex_digit
hex_loop cap w [] = []
hex_loop cap w (c ∷ s) =
    let rest = hex_loop cap (w + 2) s in
    if leb (w + 3) cap then hex_digit (c / 16) ∷ hex_digit (c % 16) ∷ rest else []

pub length-hex_loop : (cap w : ℕ) (s : Bytes) → w < cap → w + length (hex_loop cap w s) < cap
unfolding hex_loop
length-hex_loop cap w [] h = ground arith
length-hex_loop cap w (c ∷ s) h = elim (Bool-cases (leb (w + 3) cap)) [
  | inl room ↦ ground (arith, length-hex_loop cap (w + 2) s (ground arith))
  | inr full ↦ ground arith
]
