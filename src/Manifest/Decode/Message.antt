-- ===== src/Manifest/Decode/Message.antt =====
-- What the two decoders make of a message, described by its fields and not by the code: of each
-- numbered field the last one counts, and unknown fields are passed over.
use mcu_sdk.Base.{
  ℕ, ◌%◌, ◌^◌, ◌<◌, ◌≡◌, arith, Bytes, List, [], ◌∷◌, length, done, ap, size_mod, ◌==◌,
  if◌then◌else◌, All, sym, refl, ◌∙◌, to_int64, append-nil,
}
use mcu_sdk.Manifest.Types.{Manifest, Signed, no_manifest, no_signed}
use mcu_sdk.Manifest.Decode.{
  field_of, set_signed, set_number, set_bytes, signed_field, manifest_field, decode_signed,
  decode_manifest,
}
use mcu_sdk.Manifest.Decode.Fields.{
  Field, IsField, block, fields_loop-message, fixed32, fixed64, fold_fields, last_block,
  last_number, manifest_field-value, message, number, put_manifest, put_signed, signed_field-value,
  uint_of,
}

-- The outputs, from the payload and the number that count for each field number.
abbrev pub signed_of : (ℕ → Bytes) → Signed
signed_of blk = record { manifest = blk 1; key_id = blk 2; alg = blk 3; sig = blk 4 }

abbrev pub manifest_of : (ℕ → ℕ) → (ℕ → Bytes) → Manifest
manifest_of num blk = record {
  schema_version = num 1 % 2 ^ 32;
  tenant_id = blk 2;
  artifact_name = blk 3;
  artifact_version = blk 4;
  sha256 = blk 5;
  size_bytes = num 6;
  target_profile = blk 7;
  rollback_counter = num 8;
  issued_at_unix = to_int64 (num 9);
}

set_signed-of :
    (k : ℕ) (p : Bytes) (blk : ℕ → Bytes)
    → set_signed k p (signed_of blk) ≡ signed_of (λ n. if k == n then p else blk n)
unfolding set_signed
set_signed-of k p blk = ground arith

set_number-of :
    (k v : ℕ) (num : ℕ → ℕ) (blk : ℕ → Bytes)
    → set_number k v (manifest_of num blk) ≡ manifest_of (λ n. if k == n then v else num n) blk
unfolding set_number
set_number-of k v num blk = ground arith

set_bytes-of :
    (k : ℕ) (p : Bytes) (num : ℕ → ℕ) (blk : ℕ → Bytes)
    → set_bytes k p (manifest_of num blk) ≡ manifest_of num (λ n. if k == n then p else blk n)
unfolding set_bytes
set_bytes-of k p num blk = ground arith

fold_signed-last :
    (fs : List Field) (blk : ℕ → Bytes)
    → fold_fields put_signed (signed_of blk) fs ≡ signed_of (λ n. last_block n (blk n) fs)
unfolding fold_fields
fold_signed-last [] blk = refl
fold_signed-last (number t v ∷ fs) blk = fold_signed-last fs blk
fold_signed-last (fixed32 t p ∷ fs) blk = fold_signed-last fs blk
fold_signed-last (fixed64 t p ∷ fs) blk = fold_signed-last fs blk
fold_signed-last (block t l p ∷ fs) blk =
    ap (λ s. fold_fields put_signed s fs) (set_signed-of (field_of (uint_of t)) p blk)
    ∙ fold_signed-last fs (λ n. if field_of (uint_of t) == n then p else blk n)

fold_manifest-last :
    (fs : List Field) (num : ℕ → ℕ) (blk : ℕ → Bytes)
    → fold_fields put_manifest (manifest_of num blk) fs
      ≡ manifest_of (λ n. last_number n (num n) fs) (λ n. last_block n (blk n) fs)
unfolding fold_fields
fold_manifest-last [] num blk = refl
fold_manifest-last (number t v ∷ fs) num blk =
    ap (λ m. fold_fields put_manifest m fs)
      (set_number-of (field_of (uint_of t)) (uint_of v) num blk)
    ∙ fold_manifest-last fs (λ n. if field_of (uint_of t) == n then uint_of v else num n) blk
fold_manifest-last (fixed32 t p ∷ fs) num blk = fold_manifest-last fs num blk
fold_manifest-last (fixed64 t p ∷ fs) num blk = fold_manifest-last fs num blk
fold_manifest-last (block t l p ∷ fs) num blk =
    ap (λ m. fold_fields put_manifest m fs) (set_bytes-of (field_of (uint_of t)) p num blk)
    ∙ fold_manifest-last fs num (λ n. if field_of (uint_of t) == n then p else blk n)

-- decode_signed reads any well-formed message: of each of its four fields the last payload counts.
pub decode_signed-message :
    (fs : List Field)
    → All IsField fs
    → length (message fs) < size_mod
    → decode_signed (message fs) (length (message fs)) ≡ done (signed_of (λ n. last_block n [] fs))
unfolding decode_signed
decode_signed-message fs g small =
    let buf : Bytes = message fs in
    fields_loop-message (signed_field buf (length buf)) put_signed buf (length buf)
      (λ rest pos f s. signed_field-value buf rest (length buf) pos (omega arith) small f s) fs
      (length buf) 0 no_signed [] g (sym (append-nil buf)) (omega arith) (omega arith)
    ∙ ap done (fold_signed-last fs (λ n. []))

-- decode_manifest reads any well-formed message that is shorter than 2^32 bytes: of each of its
-- fields the last number or payload counts, a number cut to the width of its field.
pub decode_manifest-message :
    (fs : List Field)
    → All IsField fs
    → length (message fs) < size_mod
    → decode_manifest (message fs) (length (message fs))
      ≡ done (manifest_of (λ n. last_number n 0 fs) (λ n. last_block n [] fs))
unfolding decode_manifest
decode_manifest-message fs g small =
    let buf : Bytes = message fs in
    fields_loop-message (manifest_field buf (length buf)) put_manifest buf (length buf)
      (λ rest pos f m. manifest_field-value buf rest (length buf) pos (omega arith) small f m) fs
      (length buf) 0 no_manifest [] g (sym (append-nil buf)) (omega arith) (omega arith)
    ∙ ap done (fold_manifest-last fs (λ n. 0) (λ n. []))
