-- ===== src/Manifest/Decode/Safety.antt =====
-- The decoders on bytes that nobody has checked: no read outside the buffer, and an end.
use mcu_sdk.Base.{
  ℕ, zero, suc, ◌+◌, ◌≤◌, ◌<◌, arith, Bytes, length, Outcome, Returns, returns, size_mod, u64_mod,
  ltb, ◌==◌, Returns-if, Returns-bind, Returns-or_fail, ltb→lt,
}
use mcu_sdk.Wire.Safety.{read_varint_safe, skip_scalar_safe, read_len_delimited_safe}
use mcu_sdk.Manifest.Types.{MdError, err_decode, Manifest, Signed, no_manifest, no_signed}
use mcu_sdk.Manifest.Decode.{
  wire_of, set_signed, set_number, set_bytes, signed_field, manifest_field, fields_loop,
  decode_signed, decode_manifest,
}

module _ {S : Type 0} (P : S → Type 0) (field : ℕ → S → Outcome MdError (ℕ × S)) (len : ℕ)
    (keep : (pos : ℕ) (s : S)
      → pos < len
      → P s
      → Returns (λ r. (pos < r.0) × (r.0 ≤ len) × P r.1) (field pos s)) where
  fields_loop_safe :
      (fuel pos : ℕ) (s : S)
      → pos ≤ len
      → len ≤ pos + fuel
      → P s
      → Returns P (fields_loop field len fuel pos s)
  unfolding fields_loop
  fields_loop_safe zero pos s h f p =
      Returns-if (ltb pos len) (λ more. absurd (ground arith)) λ over. returns p
  fields_loop_safe (suc fuel) pos s h f p =
      Returns-if (ltb pos len)
        (λ more.
          Returns-bind (keep pos s (ltb→lt _ _ more) p)
            λ r k. fields_loop_safe fuel r.0 r.1 (k.1) (omega arith) (k.2))
        λ over. returns p

module _ (buf : Bytes) (len : ℕ) (inside : len ≤ length buf) (small : len < size_mod) where
  signed_field_safe :
      (pos : ℕ) (s : Signed)
      → pos < len
      → length s.manifest ≤ len
      → Returns
          (λ r. (pos < r.0) × (r.0 ≤ len) × (length r.1.manifest ≤ len))
          (signed_field buf len pos s)
  unfolding signed_field set_signed
  signed_field_safe pos s _ h =
      Returns-bind (Returns-or_fail err_decode (read_varint_safe buf len pos inside)) λ r k.
        Returns-if (wire_of r.0 == 2)
          (λ two.
            Returns-bind
              (Returns-or_fail err_decode (read_len_delimited_safe buf len r.1 inside small))
              λ t j. returns (ground arith))
          λ other.
            Returns-bind
              (Returns-or_fail err_decode (skip_scalar_safe buf len r.1 inside small _ (k.1)))
              λ t j. returns (omega arith)

  manifest_field_safe :
      (pos : ℕ) (m : Manifest)
      → pos < len
      → m.rollback_counter < u64_mod
      → Returns
          (λ r. (pos < r.0) × (r.0 ≤ len) × (r.1.rollback_counter < u64_mod))
          (manifest_field buf len pos m)
  unfolding manifest_field set_number set_bytes
  manifest_field_safe pos m _ w =
      Returns-bind (Returns-or_fail err_decode (read_varint_safe buf len pos inside)) λ r k.
        Returns-if (wire_of r.0 == 0)
          (λ number.
            Returns-bind (Returns-or_fail err_decode (read_varint_safe buf len r.1 inside))
              λ t j. returns (ground arith))
          λ _.
            Returns-if (wire_of r.0 == 2)
              (λ two.
                Returns-bind
                  (Returns-or_fail err_decode (read_len_delimited_safe buf len r.1 inside small))
                  λ t j. returns (ground arith))
              λ other.
                Returns-bind
                  (Returns-or_fail err_decode (skip_scalar_safe buf len r.1 inside small _ (k.1)))
                  λ t j. returns (ground arith)

  -- decode_signed, on any bytes, reads only inside the buffer and ends; the manifest that it finds
  -- is no longer than the buffer.
  pub decode_signed_safe : Returns (λ s. length s.manifest ≤ len) (decode_signed buf len)
  unfolding decode_signed
  decode_signed_safe =
      fields_loop_safe (λ s. length s.manifest ≤ len) (signed_field buf len) len signed_field_safe
        len 0 no_signed (omega arith) (omega arith) (omega arith)

  -- The rollback counter of a decoded manifest is a uint64_t.
  pub decode_manifest_safe : Returns (λ m. m.rollback_counter < u64_mod) (decode_manifest buf len)
  unfolding decode_manifest
  decode_manifest_safe =
      fields_loop_safe (λ m. m.rollback_counter < u64_mod) (manifest_field buf len) len
        manifest_field_safe len 0 no_manifest (omega arith) (omega arith) (omega arith)
