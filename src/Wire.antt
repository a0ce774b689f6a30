-- ===== src/Wire.antt =====
-- lib/verify/manifest_verify.c, the protobuf primitives: read_varint, skip_scalar and
-- read_len_delimited. A buffer is the list of the bytes of the object that `buf` points into;
-- `len` and `*pos` are the code's own, and a read that `get_elem?` does not find is a `fault`.
pub mod Safety
pub mod Encode
use mcu_sdk.Base.{
  ℕ, zero, suc, ◌+◌, ◌*◌, ◌%◌, ◌^◌, ◌&&◌, bit_and, bit_or, Bytes, Outcome, done, failed, fault,
  stuck, ◌>>=◌, ◌>>◌, fail_if, load, ltb, ◌==◌, if◌then◌else◌, sub_size, u64_mod, size_mod, take,
  drop, length, leb,
}

-- The -1 of the three functions.
pub data Malformed : Type 0 where
  malformed : Malformed

-- `result |= (uint64_t)(b & 0x7f) << shift`
unfoldable pub add_group : ℕ → ℕ → ℕ → ℕ
add_group result b shift = bit_or result (bit_and b 0x7f * 2 ^ shift % u64_mod)

-- The loop of read_varint: the value and the new `*pos`. The fuel counts rounds.
unfoldable pub read_varint_loop : ℕ → Bytes → ℕ → ℕ → ℕ → ℕ → Outcome Malformed (ℕ × ℕ)
read_varint_loop zero buf len pos result shift = stuck
read_varint_loop (suc fuel) buf len pos result shift =
    let round = do
      b ← load buf pos
      let result' = add_group result b shift
      let rest = read_varint_loop fuel buf len (pos + 1) result' (shift + 7)
      if bit_and b 0x80 == 0 then done (result', pos + 1) else rest
    in if ltb pos len && ltb shift 64 then round else failed malformed

-- The shift grows by 7 a round from 0, so the test of the eleventh round fails.
unfoldable pub read_varint : Bytes → ℕ → ℕ → Outcome Malformed (ℕ × ℕ)
read_varint buf len pos = read_varint_loop 11 buf len pos 0 0

-- The new `*pos`; the wire types 3, 4, 6 and 7 (and 2, which no caller passes) are refused.
unfoldable pub skip_scalar : Bytes → ℕ → ℕ → ℕ → Outcome Malformed ℕ
skip_scalar buf len pos wire =
    if wire == 0
    then (do (v, pos') ← read_varint buf len pos; done pos')
    else if wire == 5
    then (if ltb (sub_size len pos) 4 then failed malformed else done (pos + 4))
    else if wire == 1
    then (if ltb (sub_size len pos) 8 then failed malformed else done (pos + 8))
    else failed malformed

-- The `n` bytes from `pos` on. A slice that does not lie in the object is a `fault` here already.
unfoldable pub slice : {E : Type 0} → Bytes → ℕ → ℕ → Outcome E Bytes
slice buf pos n = if leb (pos + n) (length buf) then done (take n (drop pos buf)) else fault

-- The slice and the new `*pos`; `flen` is a uint64_t that is cut to `size_t` behind the test.
unfoldable pub read_len_delimited : Bytes → ℕ → ℕ → Outcome Malformed (Bytes × ℕ)
read_len_delimited buf len pos = do
  (flen, pos') ← read_varint buf len pos
  fail_if (ltb (sub_size len pos') flen) malformed
  s ← slice buf pos' (flen % size_mod)
  done (s, pos' + flen % size_mod)
