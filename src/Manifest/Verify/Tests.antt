-- ===== src/Manifest/Verify/Tests.antt =====
-- A concrete update, and the theorems on it.
use mcu_sdk.Base.{
  ℕ, ◌≡◌, ◌≢◌, refl, arith, [], ◌∷◌, ◌++◌, length, done, failed, fault, stuck, replicate,
}
use mcu_sdk.Wire.{read_varint, read_varint_loop, add_group}
use mcu_sdk.Wire.Encode.{varint_value, read_varint-value}
use mcu_sdk.Manifest.Types.{err_signature}
use mcu_sdk.Manifest.Decode.{decode_signed, decode_manifest}
use mcu_sdk.Manifest.Decode.Fields.{message, last_block}
use mcu_sdk.Manifest.Decode.Message.{signed_of, decode_signed-message, decode_manifest-message}
use mcu_sdk.Manifest.Verify.{md_verify}
use mcu_sdk.Manifest.Verify.Sample.{inner, update, toy_verify, pinned, envelope, wire, parts}
use mcu_sdk.Manifest.Verify.Safety.{md_verify_safe}
use mcu_sdk.Manifest.Verify.Accepts.{
  md_verify-accepts, md_verify-forged, Authorises, IsEnvelopeFor, IsValidManifest,
}

decode_signed-message_example :
    decode_signed (wire 131) (length (wire 131))
    ≡ done (signed_of (λ n. last_block n [] (envelope 131)))
unfolding varint_value
decode_signed-message_example = decode_signed-message (envelope 131) (omega arith) (omega arith)

decode_manifest-message_example :
    decode_manifest (message inner) (length (message inner)) ≡ done update
unfolding varint_value
decode_manifest-message_example = decode_manifest-message inner (omega arith) (omega arith)

decodes_inner : decode_manifest (message inner) (length (message inner)) ≡ done update
unfolding varint_value
decodes_inner = decode_manifest-message inner (omega arith) (omega arith)

decodes_signed : decode_signed (wire 131) (length (wire 131)) ≡ done (parts 131)
unfolding varint_value
decodes_signed = decode_signed-message (envelope 131) (omega arith) (omega arith)

decodes_forged : decode_signed (wire 0) (length (wire 0)) ≡ done (parts 0)
unfolding varint_value
decodes_forged = decode_signed-message (envelope 0) (omega arith) (omega arith)

names_key : (mark : ℕ) → IsEnvelopeFor pinned (parts mark)
names_key mark = record {
  algorithm = refl;
  sig_size = refl;
  not_empty = omega arith;
  not_big = omega arith;
  key_named = refl;
}

update-IsValidManifest : IsValidManifest update
update-IsValidManifest = grind arith

update-Authorises : Authorises toy_verify pinned (parts 131) update
update-Authorises = record {
  envelope = names_key 131;
  signature = refl;
  decodes = decodes_inner;
  valid = update-IsValidManifest;
}

md_verify-accepts_example : md_verify toy_verify pinned (wire 131) (length (wire 131)) ≡ done update
md_verify-accepts_example =
    (md_verify-accepts toy_verify pinned (wire 131) (length (wire 131)) update).1
      (parts 131, decodes_signed, update-Authorises)

md_verify-forged_example :
    md_verify toy_verify pinned (wire 0) (length (wire 0)) ≡ failed err_signature
md_verify-forged_example =
    md_verify-forged toy_verify pinned (wire 0) (length (wire 0)) (parts 0) decodes_forged
      (names_key 0) (omega arith)

md_verify_safe_example :
    (md_verify toy_verify pinned (0x0a ∷ 0xff ∷ []) 2 ≢ fault)
    × (md_verify toy_verify pinned (0x0a ∷ 0xff ∷ []) 2 ≢ stuck)
md_verify_safe_example =
    md_verify_safe toy_verify pinned (0x0a ∷ 0xff ∷ []) 2 (omega arith) (omega arith)

-- A tenth byte above 1 stands for bits above the 64th: they are dropped, and the read succeeds.
read_varint-value_example :
    read_varint (replicate 9 0xff ++ 0x7f ∷ []) 10 0 ≡ done (0xffff_ffff_ffff_ffff, 10)
unfolding varint_value
read_varint-value_example =
    read_varint-value (replicate 9 0xff ++ 0x7f ∷ []) (replicate 9 0xff ++ 0x7f ∷ []) [] 10 0
      (omega arith) (omega arith) refl (omega arith)

-- A padded zero, which no encoder writes, is read too.
padded : read_varint (0x80 ∷ 0x00 ∷ 7 ∷ []) 3 0 ≡ done (0, 2)
unfolding read_varint read_varint_loop add_group
padded = refl
