-- ===== src/Manifest/Decode/Fields.antt =====
-- A protobuf message as a list of fields, and what one round of a decoder makes of a field.
use mcu_sdk.Base.{
  ℕ, zero, suc, ◌+◌, ◌%◌, ◌≤◌, ◌<◌, ◌≡◌, arith, Bytes, List, [], ◌∷◌, ◌++◌, length, Outcome, done,
  drop, ap, u64_mod, size_mod, ◌==◌, if◌then◌else◌, All, length-append, append_assoc, drop-add, ◌∙◌,
  lt→ltb, le→ltb,
}
use mcu_sdk.Wire.Encode.{
  IsVarint, varint_value, read_varint-value, read_len_delimited-value, skip_varint-value,
  skip_fixed-value,
}
use mcu_sdk.Wire.{read_varint, skip_scalar, read_len_delimited}
use mcu_sdk.Manifest.Types.{MdError, Manifest, Signed}
use mcu_sdk.Manifest.Decode.{
  field_of, wire_of, set_signed, set_number, set_bytes, signed_field, manifest_field, fields_loop,
}

-- A field is its tag's bytes with a number, four or eight bytes, or a length and a payload.
pub data Field : Type 0 where
  number : Bytes → Bytes → Field
  fixed32 : Bytes → Bytes → Field
  fixed64 : Bytes → Bytes → Field
  block : Bytes → Bytes → Bytes → Field

abbrev pub IsNumber : Bytes → Type 0
IsNumber enc = IsVarint enc × (length enc ≤ 10)

-- The uint64_t that a varint of at most ten bytes stands for.
abbrev pub uint_of : Bytes → ℕ
uint_of enc = varint_value enc % u64_mod

abbrev pub IsField : Field → Type 0
IsField (number t v) = IsNumber t × (wire_of (uint_of t) ≡ 0) × IsNumber v
IsField (fixed32 t p) = IsNumber t × (wire_of (uint_of t) ≡ 5) × (length p ≡ 4)
IsField (fixed64 t p) = IsNumber t × (wire_of (uint_of t) ≡ 1) × (length p ≡ 8)
IsField (block t l p) = IsNumber t × (wire_of (uint_of t) ≡ 2) × IsNumber l × (uint_of l ≡ length p)

abbrev pub bytes_of : Field → Bytes
bytes_of (number t v) = t ++ v
bytes_of (fixed32 t p) = t ++ p
bytes_of (fixed64 t p) = t ++ p
bytes_of (block t l p) = t ++ (l ++ p)

abbrev pub message : List Field → Bytes
message [] = []
message (f ∷ fs) = bytes_of f ++ message fs

-- The payload of the last block with the number `n`, and the value of the last such number.
abbrev pub last_block : ℕ → Bytes → List Field → Bytes
last_block n b [] = b
last_block n b (block t l p ∷ fs) = last_block n (if field_of (uint_of t) == n then p else b) fs
last_block n b (_ ∷ fs) = last_block n b fs

abbrev pub last_number : ℕ → ℕ → List Field → ℕ
last_number n v [] = v
last_number n v (number t e ∷ fs) =
    last_number n (if field_of (uint_of t) == n then uint_of e else v) fs
last_number n v (_ ∷ fs) = last_number n v fs

-- What one field does to the outputs.
abbrev pub put_signed : Field → Signed → Signed
put_signed (block t l p) s = set_signed (field_of (uint_of t)) p s
put_signed _ s = s

abbrev pub put_manifest : Field → Manifest → Manifest
put_manifest (number t v) m = set_number (field_of (uint_of t)) (uint_of v) m
put_manifest (block t l p) m = set_bytes (field_of (uint_of t)) p m
put_manifest _ m = m

-- The primitives at the parts of a field `t ++ p` that stands at `pos`.
module _ (buf rest t : Bytes) (len pos : ℕ) (is_tag : IsNumber t) where
  tag-value :
      (p : Bytes)
      → drop pos buf ≡ (t ++ p) ++ rest
      → pos + length (t ++ p) ≤ len
      → read_varint buf len pos ≡ done (uint_of t, pos + length t)
  tag-value p d fits =
      read_varint-value t buf (p ++ rest) len pos is_tag.0 is_tag.1 (d ∙ append_assoc t p rest)
        (omega (arith, length-append t p))

  behind_tag : (p : Bytes) → drop pos buf ≡ (t ++ p) ++ rest → drop (pos + length t) buf ≡ p ++ rest
  behind_tag p d = drop-add pos buf t (p ++ rest) (d ∙ append_assoc t p rest)

  ends : (p : Bytes) → pos + length t + length p ≡ pos + length (t ++ p)
  ends p = omega (arith, length-append t p)

  number-value :
      (v : Bytes)
      → IsNumber v
      → drop pos buf ≡ (t ++ v) ++ rest
      → pos + length (t ++ v) ≤ len
      → read_varint buf len (pos + length t) ≡ done (uint_of v, pos + length (t ++ v))
  number-value v (vv, sv) d fits = rw (← ends v) (
      read_varint-value v buf rest len (pos + length t) vv sv (behind_tag v d)
        (omega (arith, ends v)))

  skip_number-value :
      (v : Bytes)
      → IsNumber v
      → drop pos buf ≡ (t ++ v) ++ rest
      → pos + length (t ++ v) ≤ len
      → skip_scalar buf len (pos + length t) 0 ≡ done (pos + length (t ++ v))
  skip_number-value v (vv, sv) d fits = rw (← ends v) (
      skip_varint-value v buf rest len (pos + length t) vv sv (behind_tag v d)
        (omega (arith, ends v)))

  skip_fixed32-value :
      (p : Bytes)
      → length p ≡ 4
      → len < size_mod
      → pos + length (t ++ p) ≤ len
      → skip_scalar buf len (pos + length t) 5 ≡ done (pos + length (t ++ p))
  skip_fixed32-value p e small fits =
      (skip_fixed-value buf len (pos + length t) small).0 (omega (arith, ends p))
      ∙ ap done (omega (arith, ends p))

  skip_fixed64-value :
      (p : Bytes)
      → length p ≡ 8
      → len < size_mod
      → pos + length (t ++ p) ≤ len
      → skip_scalar buf len (pos + length t) 1 ≡ done (pos + length (t ++ p))
  skip_fixed64-value p e small fits =
      (skip_fixed-value buf len (pos + length t) small).1 (omega (arith, ends p))
      ∙ ap done (omega (arith, ends p))

  block-value :
      (l p : Bytes)
      → IsNumber l
      → uint_of l ≡ length p
      → drop pos buf ≡ (t ++ (l ++ p)) ++ rest
      → pos + length (t ++ (l ++ p)) ≤ len
      → len ≤ length buf
      → len < size_mod
      → read_len_delimited buf len (pos + length t) ≡ done (p, pos + length (t ++ (l ++ p)))
  block-value l p (vl, sl) e d fits inside small =
      read_len_delimited-value l p buf rest len (pos + length t) vl sl e
        (behind_tag (l ++ p) d ∙ append_assoc l p rest)
        (omega (arith, ends (l ++ p), length-append l p)) inside small
      ∙ ap (λ q. done (p, q)) (omega (arith, ends (l ++ p), length-append l p))

-- One round of each loop at a field that stands at `pos`.
module _ (buf rest : Bytes) (len pos : ℕ) (inside : len ≤ length buf) (small : len < size_mod) where
  abbrev StandsAt : Field → Type 0
  StandsAt f = (drop pos buf ≡ bytes_of f ++ rest) × (pos + length (bytes_of f) ≤ len)

  pub signed_field-value :
      (f : Field) (s : Signed)
      → IsField f
      → StandsAt f
      → signed_field buf len pos s ≡ done (pos + length (bytes_of f), put_signed f s)
  unfolding signed_field
  signed_field-value (number t v) s (g, w, n) (d, fits) = rw (
    tag-value buf rest t len pos g v d fits,
    w,
    skip_number-value buf rest t len pos g v n d fits,
  )
  signed_field-value (fixed32 t p) s (g, w, e) (d, fits) = rw (
    tag-value buf rest t len pos g p d fits,
    w,
    skip_fixed32-value buf rest t len pos g p e small fits,
  )
  signed_field-value (fixed64 t p) s (g, w, e) (d, fits) = rw (
    tag-value buf rest t len pos g p d fits,
    w,
    skip_fixed64-value buf rest t len pos g p e small fits,
  )
  signed_field-value (block t l p) s (g, w, n, e) (d, fits) = rw (
    tag-value buf rest t len pos g (l ++ p) d fits,
    w,
    block-value buf rest t len pos g l p n e d fits inside small,
  )

  pub manifest_field-value :
      (f : Field) (m : Manifest)
      → IsField f
      → StandsAt f
      → manifest_field buf len pos m ≡ done (pos + length (bytes_of f), put_manifest f m)
  unfolding manifest_field
  manifest_field-value (number t v) m (g, w, n) (d, fits) =
      rw (tag-value buf rest t len pos g v d fits, w, number-value buf rest t len pos g v n d fits)
  manifest_field-value (fixed32 t p) m (g, w, e) (d, fits) = rw (
    tag-value buf rest t len pos g p d fits,
    w,
    skip_fixed32-value buf rest t len pos g p e small fits,
  )
  manifest_field-value (fixed64 t p) m (g, w, e) (d, fits) = rw (
    tag-value buf rest t len pos g p d fits,
    w,
    skip_fixed64-value buf rest t len pos g p e small fits,
  )
  manifest_field-value (block t l p) m (g, w, n, e) (d, fits) = rw (
    tag-value buf rest t len pos g (l ++ p) d fits,
    w,
    block-value buf rest t len pos g l p n e d fits inside small,
  )

unfoldable pub fold_fields {ℓ} : {S : Type ℓ} → (Field → S → S) → S → List Field → S
fold_fields put s [] = s
fold_fields put s (f ∷ fs) = fold_fields put (put f s) fs

IsNumber-pos : (t r : Bytes) → IsNumber t → 0 < length (t ++ r)
IsNumber-pos [] r h = absurd (h.0)
IsNumber-pos (b ∷ t) r h = omega arith

bytes_of-pos : (f : Field) → IsField f → 0 < length (bytes_of f)
bytes_of-pos (number t v) h = IsNumber-pos t v h.0
bytes_of-pos (fixed32 t p) h = IsNumber-pos t p h.0
bytes_of-pos (fixed64 t p) h = IsNumber-pos t p h.0
bytes_of-pos (block t l p) h = IsNumber-pos t (l ++ p) h.0

module _ {S : Type 0} (field : ℕ → S → Outcome MdError (ℕ × S)) (put : Field → S → S) (buf : Bytes)
    (len : ℕ)
    (step : (rest : Bytes) (pos : ℕ) (f : Field) (s : S)
      → IsField f
      → (drop pos buf ≡ bytes_of f ++ rest) × (pos + length (bytes_of f) ≤ len)
      → field pos s ≡ done (pos + length (bytes_of f), put f s)) where
  pub fields_loop-message :
      (fs : List Field) (fuel pos : ℕ) (s : S) (tail : Bytes)
      → All IsField fs
      → drop pos buf ≡ message fs ++ tail
      → pos + length (message fs) ≡ len
      → length (message fs) ≤ fuel
      → fields_loop field len fuel pos s ≡ done (fold_fields put s fs)
  unfolding fields_loop fold_fields
  fields_loop-message [] zero pos s tail g d e h = rw (le→ltb pos len (omega arith))
  fields_loop-message [] (suc fuel) pos s tail g d e h = rw (le→ltb pos len (omega arith))
  fields_loop-message (f ∷ fs) zero pos s tail (g, gs) d e h =
      absurd (omega (arith, length-append (bytes_of f) (message fs), bytes_of-pos f g))
  fields_loop-message (f ∷ fs) (suc fuel) pos s tail (g, gs) d e h =
      let n : ℕ = length (bytes_of f) in
      let size : length (bytes_of f ++ message fs) ≡ n + length (message fs) =
        length-append (bytes_of f) (message fs) in
      let d' = d ∙ append_assoc (bytes_of f) (message fs) tail in
      rw
        (
          lt→ltb pos len (omega (arith, bytes_of-pos f g)),
          step (message fs ++ tail) pos f s g (d', omega arith),
        )
        (fields_loop-message fs fuel (pos + n) (put f s) tail gs
          (drop-add pos buf (bytes_of f) (message fs ++ tail) d') (omega arith)
          (omega (arith, bytes_of-pos f g)))
