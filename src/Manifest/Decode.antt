-- ===== src/Manifest/Decode.antt =====
-- decode_signed and decode_manifest of lib/verify/manifest_verify.c. Each loop has a function for
-- one field, whose tag is read first, and runs on fuel: `len` rounds are enough, since each round
-- moves `pos` forward.
pub mod Safety
pub mod Fields
pub mod Message
use mcu_sdk.Base.{
  ℕ, zero, suc, ◌+◌, ◌/◌, ◌%◌, ◌^◌, Bytes, Outcome, done, failed, fault, stuck, ◌>>=◌, or_fail, ltb,
  ◌==◌, if◌then◌else◌, to_int64, length, false,
}
use mcu_sdk.Wire.{read_varint, skip_scalar, read_len_delimited}
use mcu_sdk.Manifest.Types.{MdError, err_decode, Manifest, Signed, no_manifest, no_signed}

-- `(uint32_t)(tag >> 3)` and `(uint32_t)(tag & 7)`
abbrev pub field_of : ℕ → ℕ
field_of tag = tag / 8 % 2 ^ 32

abbrev pub wire_of : ℕ → ℕ
wire_of tag = tag % 8

-- The `switch (field)` of decode_signed.
unfoldable pub set_signed : ℕ → Bytes → Signed → Signed
set_signed field b s =
    if field == 1
    then record s { manifest = b }
    else if field == 2
    then record s { key_id = b }
    else if field == 3
    then record s { alg = b }
    else if field == 4
    then record s { sig = b }
    else s

-- One round of the loop of decode_signed: the new `pos` and the outputs.
unfoldable pub signed_field : Bytes → ℕ → ℕ → Signed → Outcome MdError (ℕ × Signed)
signed_field buf len pos s = do
  (tag, pos') ← or_fail (read_varint buf len pos) err_decode
  if wire_of tag == 2
      then (do
        (b, pos'') ← or_fail (read_len_delimited buf len pos') err_decode
        done (pos'', set_signed (field_of tag) b s))
      else (do pos'' ← or_fail (skip_scalar buf len pos' (wire_of tag)) err_decode; done (pos'', s))

-- The two switches of decode_manifest.
unfoldable pub set_number : ℕ → ℕ → Manifest → Manifest
set_number field v m =
    if field == 1
    then record m { schema_version = v % 2 ^ 32 }
    else if field == 6
    then record m { size_bytes = v }
    else if field == 8
    then record m { rollback_counter = v }
    else if field == 9
    then record m { issued_at_unix = to_int64 v }
    else m

unfoldable pub set_bytes : ℕ → Bytes → Manifest → Manifest
set_bytes field b m =
    if field == 2
    then record m { tenant_id = b }
    else if field == 3
    then record m { artifact_name = b }
    else if field == 4
    then record m { artifact_version = b }
    else if field == 5
    then record m { sha256 = b }
    else if field == 7
    then record m { target_profile = b }
    else m

unfoldable pub manifest_field : Bytes → ℕ → ℕ → Manifest → Outcome MdError (ℕ × Manifest)
manifest_field buf len pos m = do
  (tag, pos') ← or_fail (read_varint buf len pos) err_decode
  if wire_of tag == 0
      then (do
        (v, pos'') ← or_fail (read_varint buf len pos') err_decode
        done (pos'', set_number (field_of tag) v m))
      else if wire_of tag == 2
      then (do
        (b, pos'') ← or_fail (read_len_delimited buf len pos') err_decode
        done (pos'', set_bytes (field_of tag) b m))
      else (do pos'' ← or_fail (skip_scalar buf len pos' (wire_of tag)) err_decode; done (pos'', m))

-- `while (pos < len)` over one of the two, `field`.
module _ {S : Type 0} (field : ℕ → S → Outcome MdError (ℕ × S)) (len : ℕ) where
  unfoldable pub fields_loop : ℕ → ℕ → S → Outcome MdError S
  fields_loop zero pos s = if ltb pos len then stuck else done s
  fields_loop (suc fuel) pos s =
      let round = (do (pos', s') ← field pos s; fields_loop fuel pos' s') in
      if ltb pos len then round else done s

unfoldable pub decode_signed : Bytes → ℕ → Outcome MdError Signed
decode_signed buf len = fields_loop (signed_field buf len) len len 0 no_signed

unfoldable pub decode_manifest : Bytes → ℕ → Outcome MdError Manifest
decode_manifest buf len = fields_loop (manifest_field buf len) len len 0 no_manifest
