-- ===== src/Install/Spelling.antt =====
-- What hex32 of lib/plat/plat_mcuboot.c reads, against the hexadecimal spelling of a byte string.
use mcu_sdk.Base.{
  ℕ, zero, suc, ◌+◌, ◌*◌, ◌/◌, ◌%◌, ◌<◌, ◌≡◌, refl, arith, ◌&&◌, Option, none, some, Bytes, [], ◌∷◌,
  take, leb, if◌then◌else◌,
}
use mcu_sdk.Base.Hex.{hex_digit}
use mcu_sdk.Install.{hex_nibble, hex_byte, cons_byte, hex_bytes, hex32}

-- A letter in lower case, any other character as it is.
unfoldable pub lower : ℕ → ℕ
lower c = if leb b'A' c && leb c b'Z' then c + 32 else c

abbrev pub lower_case : Bytes → Bytes
lower_case [] = []
lower_case (c ∷ s) = lower c ∷ lower_case s

-- Two digits for a byte, the high one first, as `%02x` prints them.
unfoldable pub hex_text : Bytes → Bytes
unfolding hex_digit
hex_text [] = []
hex_text (c ∷ s) = hex_digit (c / 16) ∷ hex_digit (c % 16) ∷ hex_text s

hex_nibble_lem : (c v : ℕ) → hex_nibble c ≡ some v → (v < 16) × (lower c ≡ hex_digit v)
unfolding hex_nibble lower hex_digit
hex_nibble_lem c v h = ground arith

some_byte :
    (x y : Option ℕ) (v : ℕ)
    → hex_byte x y ≡ some v
    → (hi : ℕ) × (lo : ℕ) × (x ≡ some hi) × (y ≡ some lo) × (v ≡ hi * 16 + lo)
some_byte none y v h = absurd cc
some_byte (some hi) none v h = absurd cc
some_byte (some hi) (some lo) v h = (hi, lo, refl, refl, ground arith)

some_cons :
    (x : Option ℕ) (y : Option Bytes) (b : Bytes)
    → cons_byte x y ≡ some b
    → (v : ℕ) × (s : Bytes) × (x ≡ some v) × (y ≡ some s) × (b ≡ v ∷ s)
some_cons none y b h = absurd cc
some_cons (some v) none b h = absurd cc
some_cons (some v) (some s) b h = (v, s, refl, refl, cc)

pub hex_bytes_lem :
    (n : ℕ) (s b : Bytes) → hex_bytes n s ≡ some b → take (2 * n) (lower_case s) ≡ hex_text b
unfolding hex_bytes hex_text
hex_bytes_lem zero s b h = let e : b ≡ [] = cc in rw (e) refl
hex_bytes_lem (suc n) [] b h = absurd cc
hex_bytes_lem (suc n) (c ∷ []) b h = absurd cc
hex_bytes_lem (suc n) (c ∷ d ∷ s) b h =
    let (v, t, e1, e2, e3) =
      some_cons (hex_byte (hex_nibble c) (hex_nibble d)) (hex_bytes n s) b h in
    let (hi, lo, k1, k2, k3) = some_byte (hex_nibble c) (hex_nibble d) v e1 in
    let (small, same) = hex_nibble_lem c hi k1 in
    let (small2, same2) = hex_nibble_lem d lo k2 in
    let two : 2 * suc n ≡ suc (suc (2 * n)) = omega arith in
    let high : v / 16 ≡ hi = omega (arith, k3) in
    let low : v % 16 ≡ lo = omega (arith, k3) in
    rw (two, e3, high, low, same, same2, hex_bytes_lem n s t e2) refl

-- The digits that hex32 reads are those of the bytes it gives, in either case.
pub hex32_lem : (s b : Bytes) → hex32 s ≡ some b → take 64 (lower_case s) ≡ hex_text b
unfolding hex32
hex32_lem s b h = hex_bytes_lem 32 s b h
