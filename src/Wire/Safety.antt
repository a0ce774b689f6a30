-- ===== src/Wire/Safety.antt =====
-- Memory safety and termination of the protobuf primitives: on any buffer whose object holds `len`
-- bytes they read nothing outside it, they end, and `*pos` moves forward and stays within `len`.
use mcu_sdk.Base.Bits.{bit_or_lt}
use mcu_sdk.Base.{
  ℕ, zero, suc, ◌+◌, ◌*◌, ◌≤◌, ◌<◌, ◌≡◌, arith, Bytes, length, Returns, returns, fails, size_mod,
  u64_mod, Returns-load, Returns-if, Returns-bind, Returns-fail_if, sub_size, leb, ◌%◌, ltb, ◌&&◌,
  bit_and, ◌==◌, Returns-mono, length-take, length-drop, drop,
}
use mcu_sdk.Wire.{
  read_varint_loop, read_varint, skip_scalar, slice, read_len_delimited, Malformed, malformed,
  add_group,
}

-- Where a step that starts at `pos` may leave `*pos`.
abbrev pub Forward : ℕ → ℕ → ℕ → Type 0
Forward pos len pos' = (pos < pos') × (pos' ≤ len)

-- A word read, and where that may leave `*pos`.
abbrev pub IsRead : ℕ → ℕ → ℕ × ℕ → Type 0
IsRead pos len (v, pos') = (pos < pos') × (pos' ≤ len) × (v < u64_mod)

add_group-lt : (result b shift : ℕ) → result < u64_mod → add_group result b shift < u64_mod
unfolding add_group
add_group-lt result b shift h = bit_or_lt 64 result _ h (omega arith)

read_varint_loop_safe :
    (fuel : ℕ) (buf : Bytes) (len pos result shift : ℕ)
    → len ≤ length buf
    → shift ≤ 70
    → result < u64_mod
    → 71 ≤ shift + 7 * fuel
    → Returns (IsRead pos len) (read_varint_loop fuel buf len pos result shift)
unfolding read_varint_loop
read_varint_loop_safe zero buf len pos result shift h s w f = absurd (omega arith)
read_varint_loop_safe (suc fuel) buf len pos result shift h s w f =
    Returns-if (ltb pos len && ltb shift 64)
      (λ go. Returns-load buf pos (ground arith) λ b e.
        Returns-if (bit_and b 0x80 == 0)
          (λ last. returns (ground (arith, add_group-lt result b shift w)))
          λ more.
            Returns-mono
              (read_varint_loop_safe fuel buf len (pos + 1) _ (shift + 7) h (ground arith)
                (add_group-lt result b shift w) (omega arith))
              λ r k. ground arith)
      (λ stop. fails)

pub read_varint_safe :
    (buf : Bytes) (len pos : ℕ)
    → len ≤ length buf
    → Returns (IsRead pos len) (read_varint buf len pos)
unfolding read_varint
read_varint_safe buf len pos h =
    read_varint_loop_safe 11 buf len pos 0 0 h (omega arith) (omega arith) (omega arith)

module _ (buf : Bytes) (len : ℕ) (inside : len ≤ length buf) where
  slice_safe :
      (pos n : ℕ) → pos + n ≤ len → Returns {E = Malformed} (λ s. length s ≡ n) (slice buf pos n)
  unfolding slice
  slice_safe pos n h =
      Returns-if (leb (pos + n) (length buf))
        (λ fits. returns (omega (arith, length-take n (drop pos buf), length-drop pos buf)))
        (λ out. absurd (ground arith))

module _ (buf : Bytes) (len pos : ℕ) (inside : len ≤ length buf) (small : len < size_mod) where
  pub skip_scalar_safe :
      (wire : ℕ) → pos ≤ len → Returns (λ p. (pos < p) × (p ≤ len)) (skip_scalar buf len pos wire)
  unfolding skip_scalar
  skip_scalar_safe wire h =
      Returns-if (wire == 0)
        (λ z. Returns-bind (read_varint_safe buf len pos inside) λ r k. returns (k.0, k.1))
        λ _.
          Returns-if (wire == 5)
            (λ z.
              Returns-if (ltb (sub_size len pos) 4) (λ short. fails) λ more. returns (ground arith))
            λ _.
              Returns-if (wire == 1)
                (λ z.
                  Returns-if (ltb (sub_size len pos) 8) (λ short. fails)
                    λ more. returns (ground arith))
                λ _. fails

  -- The slice that read_len_delimited yields lies within `buf[pos..len)`, and `*pos` stands behind it.
  pub read_len_delimited_safe :
      Returns (λ r. (pos < r.1) × (r.1 ≤ len) × (length r.0 ≤ len)) (read_len_delimited buf len pos)
  unfolding read_len_delimited
  read_len_delimited_safe = Returns-bind (read_varint_safe buf len pos inside) λ r k.
      Returns-fail_if (ltb (sub_size len r.1) r.0) malformed λ fits.
        Returns-bind (slice_safe buf len inside r.1 (r.0 % size_mod) (ground arith))
          λ s e. returns (ground arith)
