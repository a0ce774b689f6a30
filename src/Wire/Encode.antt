-- ===== src/Wire/Encode.antt =====
-- The protobuf wire format, described without the code, and that the primitives read it.
use mcu_sdk.Base.{
  ℕ, zero, suc, ◌+◌, ◌*◌, ◌%◌, ◌^◌, ◌≤◌, ◌<◌, ◌≡◌, arith, Bytes, [], ◌∷◌, ◌++◌, length, done, drop,
  ap, u64_mod, ltb, get_elem?, some, ◌⊎◌, ap₂, inl, inr, sub_size, size_mod, le→leb, take-append,
  drop-add, get_elem?-drop, drop-suc, ◌∙◌, refl, false,
}
use mcu_sdk.Base.Bits.{low_bits, top_bit, bit_or_above}
use native.Mathlib.Nat.{pow-le-pow_right, mod-eq_of_lt}
use native.Mathlib.Numerals.{towards_suc}
use mcu_sdk.Wire.{
  add_group, read_varint_loop, read_varint, slice, read_len_delimited, skip_scalar, Malformed,
}

-- The bytes of one varint: the top bit is set on each but the last.
abbrev pub IsVarint : Bytes → Type 0
IsVarint [] = ⊥
IsVarint (b ∷ []) = b < 128
IsVarint (b ∷ c ∷ r) = (128 ≤ b) × (b < 256) × IsVarint (c ∷ r)

-- The number that they stand for: seven bits a byte, lowest group first.
unfoldable pub varint_value : Bytes → ℕ
varint_value [] = 0
varint_value (b ∷ r) = b % 128 + 128 * varint_value r

pow_seven : (s : ℕ) → 2 ^ (s + 7) ≡ 128 * 2 ^ s
pow_seven s = simp towards_suc (omega arith)

mul_bound : (x y m : ℕ) → x ≤ 127 → y ≤ m → x * y ≤ 127 * m
mul_bound x y m h k = grind arith

-- One group, in arithmetic. At shift 63 only its lowest bit has room.
add_group_low :
    (acc b s : ℕ) → b < 256 → s ≤ 56 → acc < 2 ^ s → add_group acc b s ≡ acc + b % 128 * 2 ^ s
unfolding add_group
add_group_low acc b s hb hs ha = rw (low_bits b hb, fits) (bit_or_above s acc (b % 128) ha)
  where
    fits : b % 128 * 2 ^ s % u64_mod ≡ b % 128 * 2 ^ s
    fits = mod-eq_of_lt (
        omega (
          arith,
          mul_bound (b % 128) (2 ^ s) (2 ^ 56) (omega arith)
              (pow-le-pow_right {n = 2} (omega arith) hs),
        ))

add_group_top : (acc b : ℕ) → b < 256 → acc < 2 ^ 63 → add_group acc b 63 ≡ acc + b % 2 * 2 ^ 63
unfolding add_group
add_group_top acc b hb ha = rw (low_bits b hb, cut) (bit_or_above 63 acc (b % 2) ha)
  where
    cut : b % 128 * 2 ^ 63 % u64_mod ≡ b % 2 * 2 ^ 63
    cut = omega arith

-- One round of the loop, on a last byte and on any other.
last_round :
    (fuel : ℕ) (buf : Bytes) (len pos acc s b : ℕ)
    → get_elem? buf pos ≡ some b
    → pos < len
    → s < 64
    → b < 128
    → read_varint_loop (suc fuel) buf len pos acc s ≡ done (add_group acc b s, pos + 1)
unfolding read_varint_loop
last_round fuel buf len pos acc s b e h k hb = ground (arith, top_bit b)

inner_round :
    (fuel : ℕ) (buf : Bytes) (len pos acc s b : ℕ)
    → get_elem? buf pos ≡ some b
    → pos < len
    → s < 64
    → 128 ≤ b
    → b < 256
    → read_varint_loop (suc fuel) buf len pos acc s
      ≡ read_varint_loop fuel buf len (pos + 1) (add_group acc b s) (s + 7)
unfolding read_varint_loop
inner_round fuel buf len pos acc s b e h k hb hb' = ground (arith, top_bit b)

group_bound : (b s : ℕ) → s ≤ 56 → b % 128 * 2 ^ s ≤ 127 * 2 ^ 56
group_bound b s h =
    mul_bound (b % 128) (2 ^ s) (2 ^ 56) (omega arith) (pow-le-pow_right {n = 2} (omega arith) h)

last_value :
    (acc b s : ℕ)
    → b < 128
    → acc < 2 ^ s
    → (s ≤ 56) ⊎ (s ≡ 63)
    → add_group acc b s ≡ (acc + varint_value (b ∷ []) * 2 ^ s) % u64_mod
unfolding varint_value
last_value acc b s hb ha (inl h) = omega (
  arith,
  add_group_low acc b s (omega arith) h ha,
  group_bound b s h,
  pow-le-pow_right {n = 2} (omega arith) h,
)
last_value acc b s hb ha (inr e) =
    let below : acc < 2 ^ 63 = rw e at ha in
    rw e (omega (arith, add_group_top acc b (omega arith) below))

-- What an inner byte adds, and that the rest counts from seven bits higher.
inner_value :
    (acc b v s : ℕ)
    → b < 256
    → acc < 2 ^ s
    → s ≤ 56
    → (add_group acc b s < 2 ^ (s + 7))
      × (add_group acc b s + v * 2 ^ (s + 7) ≡ acc + (b % 128 + 128 * v) * 2 ^ s)
inner_value acc b v s hb ha h = (
  omega (
    arith,
    add_group_low acc b s hb h ha,
    pow_seven s,
    mul_bound (b % 128) (2 ^ s) (2 ^ s) (omega arith) (omega arith),
  ),
  omega (arith, add_group_low acc b s hb h ha, ap (λ (t : ℕ). v * t) (pow_seven s)),
)

shift_cases : (s j : ℕ) → s ≡ 7 * j → j ≤ 9 → (s ≤ 56) ⊎ (s ≡ 63)
shift_cases s j e h = grind arith

-- `s` is the shift of the `j`-th byte.
loop_value :
    (enc : Bytes) (fuel : ℕ) (buf : Bytes) (len pos acc s j : ℕ) (rest : Bytes)
    → IsVarint enc
    → drop pos buf ≡ enc ++ rest
    → pos + length enc ≤ len
    → s ≡ 7 * j
    → j + length enc ≤ 10
    → length enc ≤ fuel
    → acc < 2 ^ s
    → read_varint_loop fuel buf len pos acc s
      ≡ done ((acc + varint_value enc * 2 ^ s) % u64_mod, pos + length enc)
unfolding varint_value
loop_value [] fuel buf len pos acc s j rest v d fits es hj hf ha = absurd v
loop_value (b ∷ r) zero buf len pos acc s j rest v d fits es hj hf ha = absurd (omega arith)
loop_value (b ∷ []) (suc fuel) buf len pos acc s j rest v d fits es hj hf ha =
    last_round fuel buf len pos acc s b (get_elem?-drop pos buf d) (omega arith) (omega arith) v
    ∙ ap done (
        ap₂ (λ x y. (x, y)) (last_value acc b s v ha (shift_cases s j es (omega arith)))
          (omega arith))
loop_value (b ∷ c ∷ r) (suc fuel) buf len pos acc s j rest (lo, hi, v) d fits es hj hf ha =
    let (below, total) = inner_value acc b (varint_value (c ∷ r)) s hi ha (omega arith) in
    inner_round fuel buf len pos acc s b (get_elem?-drop pos buf d) (omega arith) (omega arith) lo
      hi
    ∙ loop_value (c ∷ r) fuel buf len (pos + 1) (add_group acc b s) (s + 7) (j + 1) rest v
        (drop-suc pos buf d) (omega arith) (omega arith) (omega arith) (omega arith) below
    ∙ ap done (ap₂ (λ x y. (x, y)) (ap (λ t. t % u64_mod) total) (omega arith))

-- read_varint reads any varint of at most ten bytes, and gives its number modulo 2^64.
pub read_varint-value :
    (enc buf rest : Bytes) (len pos : ℕ)
    → IsVarint enc
    → length enc ≤ 10
    → drop pos buf ≡ enc ++ rest
    → pos + length enc ≤ len
    → read_varint buf len pos ≡ done (varint_value enc % u64_mod, pos + length enc)
unfolding read_varint
read_varint-value enc buf rest len pos v short d fits =
    loop_value enc 11 buf len pos 0 0 0 rest v d fits (omega arith) (omega arith) (omega arith)
      (omega arith)
    ∙ ap done (ap₂ (λ x y. (x, y)) (ap (λ t. t % u64_mod) (omega arith)) refl)

pub slice-value :
    {E : Type 0} (p buf rest : Bytes) (pos : ℕ)
    → drop pos buf ≡ p ++ rest
    → pos + length p ≤ length buf
    → slice {E = E} buf pos (length p) ≡ done p
unfolding slice
slice-value p buf rest pos d fits = rw (le→leb _ _ fits, d, take-append p rest)

-- read_len_delimited reads a length and yields that many bytes.
pub read_len_delimited-value :
    (enc p buf rest : Bytes) (len pos : ℕ)
    → IsVarint enc
    → length enc ≤ 10
    → varint_value enc % u64_mod ≡ length p
    → drop pos buf ≡ enc ++ (p ++ rest)
    → pos + length enc + length p ≤ len
    → len ≤ length buf
    → len < size_mod
    → read_len_delimited buf len pos ≡ done (p, pos + length enc + length p)
unfolding read_len_delimited
read_len_delimited-value enc p buf rest len pos v short e d fits inside small =
    let size : length p % size_mod ≡ length p = omega arith in
    let test : ltb (sub_size len (pos + length enc)) (length p) ≡ false = ground arith in
    rw (
      read_varint-value enc buf (p ++ rest) len pos v short d (omega arith),
      e,
      test,
      size,
      slice-value {E = Malformed} p buf rest (pos + length enc) (drop-add pos buf enc (p ++ rest) d)
          (omega arith),
    )

pub skip_varint-value :
    (enc buf rest : Bytes) (len pos : ℕ)
    → IsVarint enc
    → length enc ≤ 10
    → drop pos buf ≡ enc ++ rest
    → pos + length enc ≤ len
    → skip_scalar buf len pos 0 ≡ done (pos + length enc)
unfolding skip_scalar
skip_varint-value enc buf rest len pos v short d fits =
    rw (read_varint-value enc buf rest len pos v short d fits)

pub skip_fixed-value :
    (buf : Bytes) (len pos : ℕ)
    → len < size_mod
    → (pos + 4 ≤ len → skip_scalar buf len pos 5 ≡ done (pos + 4))
      × (pos + 8 ≤ len → skip_scalar buf len pos 1 ≡ done (pos + 8))
unfolding skip_scalar
skip_fixed-value buf len pos small = (λ h. ground arith, λ h. ground arith)
