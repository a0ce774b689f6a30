-- ===== src/Claim/Pem/Base64.antt =====
-- Base64, described without the code, and that the decoding loop undoes it.
use mcu_sdk.Base.{
  sym, ℕ, ◌+◌, ◌-◌, ◌*◌, ◌/◌, ◌%◌, ◌^◌, ◌≤◌, ◌<◌, ◌≡◌, ◌≢◌, refl, ap, ◌∙◌, some, [], ◌∷◌, ◌++◌,
  Bytes, length, All, length-append, append_assoc, append-nil, arith, ltb, ◌==◌, if◌then◌else◌,
  ne→==false,
}
use mcu_sdk.Base.Bits.{bit_or_below}
use mcu_sdk.Claim.Pem.{b64val, push_sextet, decode_loop}

-- The character of a sextet.
unfoldable pub b64char : ℕ → ℕ
b64char v =
    if ltb v 26
    then b'A' + v
    else if ltb v 52
    then b'a' + (v - 26)
    else if ltb v 62
    then b'0' + (v - 52)
    else if v == 62
    then b'+'
    else b'/'

b64val-b64char : (v : ℕ) → v < 64 → (b64val (b64char v) ≡ some v) × (b64char v ≢ b'=')
unfolding b64val b64char
b64val-b64char v h = ground arith

-- Three bytes are four characters; one or two bytes at the end are padded.
abbrev pub base64 : Bytes → Bytes
base64 [] = []
base64 (a ∷ []) = b64char (a / 4) ∷ b64char (a % 4 * 16) ∷ b'=' ∷ b'=' ∷ []
base64 (a ∷ b ∷ []) =
    b64char (a / 4) ∷ b64char (a % 4 * 16 + b / 16) ∷ b64char (b % 16 * 4) ∷ b'=' ∷ []
base64 (a ∷ b ∷ c ∷ s) =
    b64char (a / 4)
    ∷ b64char (a % 4 * 16 + b / 16)
    ∷ b64char (b % 16 * 4 + c / 64)
    ∷ b64char (c % 64)
    ∷ base64 s

push_sextet_sum : (acc v : ℕ) → v < 64 → push_sextet acc v ≡ acc % 2 ^ 26 * 64 + v
unfolding push_sextet
push_sextet_sum acc v h =
    let low : acc * 64 % 2 ^ 32 ≡ acc % 2 ^ 26 * 2 ^ 6 = omega arith in
    rw low (bit_or_below 6 (acc % 2 ^ 26) v h)

-- One round on a character: without a byte, with one, and the end.
round_short :
    (acc nbits v : ℕ) (der s : Bytes)
    → v < 64
    → nbits < 2
    → decode_loop acc nbits der (b64char v ∷ s) ≡ decode_loop (push_sextet acc v) (nbits + 6) der s
unfolding decode_loop
round_short acc nbits v der s h k =
    let (e, n) = b64val-b64char v h in rw (ne→==false _ _ n, e) (ground arith)

round_byte :
    (acc nbits v : ℕ) (der s : Bytes)
    → v < 64
    → 2 ≤ nbits
    → length der < 48
    → decode_loop acc nbits der (b64char v ∷ s)
      ≡ decode_loop
          (push_sextet acc v)
          (nbits - 2)
          (der ++ ((push_sextet acc v / 2 ^ (nbits - 2) % 256) ∷ []))
          s
unfolding decode_loop
round_byte acc nbits v der s h k l =
    let (e, n) = b64val-b64char v h in
    let less : nbits + 6 - 8 ≡ nbits - 2 = omega arith in
    rw (ne→==false _ _ n, e, less) (ground arith)

round_end : (acc nbits : ℕ) (der s : Bytes) → decode_loop acc nbits der (b'=' ∷ s) ≡ some der
unfolding decode_loop
round_end acc nbits der s = refl

-- The byte that is taken out after the second, third and fourth character of a group. The bits of
-- earlier groups are pushed out of the way.
first_byte :
    (acc a x : ℕ)
    → a < 256
    → x < 16
    → push_sextet (push_sextet acc (a / 4)) (a % 4 * 16 + x) / 2 ^ 4 % 256 ≡ a
first_byte acc a x h k = omega (
  arith,
  push_sextet_sum acc (a / 4) (omega arith),
  push_sextet_sum (push_sextet acc (a / 4)) (a % 4 * 16 + x) (omega arith),
)

second_byte :
    (acc u b y : ℕ)
    → b < 256
    → y < 4
    → u < 4
    → push_sextet (push_sextet acc (u * 16 + b / 16)) (b % 16 * 4 + y) / 2 ^ 2 % 256 ≡ b
second_byte acc u b y h k l = omega (
  arith,
  push_sextet_sum acc (u * 16 + b / 16) (omega arith),
  push_sextet_sum (push_sextet acc (u * 16 + b / 16)) (b % 16 * 4 + y) (omega arith),
)

third_byte :
    (acc u c : ℕ)
    → c < 256
    → u < 16
    → push_sextet (push_sextet acc (u * 4 + c / 64)) (c % 64) / 2 ^ 0 % 256 ≡ c
third_byte acc u c h l = omega (
  arith,
  push_sextet_sum acc (u * 4 + c / 64) (omega arith),
  push_sextet_sum (push_sextet acc (u * 4 + c / 64)) (c % 64) (omega arith),
)

module _ (acc a : ℕ) (der s : Bytes) (ha : a < 256) where
  -- The first two characters of a group give its first byte.
  two_rounds :
      (x : ℕ)
      → x < 16
      → length der < 48
      → decode_loop acc 0 der (b64char (a / 4) ∷ b64char (a % 4 * 16 + x) ∷ s)
        ≡ decode_loop (push_sextet (push_sextet acc (a / 4)) (a % 4 * 16 + x)) 4 (der ++ (a ∷ [])) s
  two_rounds x hx l =
      round_short acc 0 (a / 4) der (b64char (a % 4 * 16 + x) ∷ s) (omega arith) (omega arith)
      ∙ round_byte (push_sextet acc (a / 4)) 6 (a % 4 * 16 + x) der s (omega arith) (omega arith) l
      ∙ ap
          (λ t.
            decode_loop (push_sextet (push_sextet acc (a / 4)) (a % 4 * 16 + x)) 4 (der ++ (t ∷ []))
              s)
          (first_byte acc a x ha hx)

module _ (acc a b : ℕ) (der : Bytes) (ha : a < 256) (hb : b < 256) where
  abbrev acc2 : ℕ
  acc2 = push_sextet (push_sextet acc (a / 4)) (a % 4 * 16 + b / 16)

  three_rounds :
      (s : Bytes) (y : ℕ)
      → y < 4
      → length der + 1 < 48
      → decode_loop acc 0 der
          (b64char (a / 4) ∷ b64char (a % 4 * 16 + b / 16) ∷ b64char (b % 16 * 4 + y) ∷ s)
        ≡ decode_loop (push_sextet acc2 (b % 16 * 4 + y)) 2 (der ++ (a ∷ b ∷ [])) s
  three_rounds s y hy l =
      two_rounds acc a der (b64char (b % 16 * 4 + y) ∷ s) ha (b / 16) (omega arith) (omega arith)
      ∙ round_byte acc2 4 (b % 16 * 4 + y) (der ++ (a ∷ [])) s (omega arith) (omega arith)
          (omega (arith, length-append der (a ∷ [])))
      ∙ ap
          (λ t. decode_loop (push_sextet acc2 (b % 16 * 4 + y)) 2 ((der ++ (a ∷ [])) ++ (t ∷ [])) s)
          (second_byte (push_sextet acc (a / 4)) (a % 4) b y hb hy (omega arith))
      ∙ ap (λ t. decode_loop (push_sextet acc2 (b % 16 * 4 + y)) 2 t s)
          (append_assoc der (a ∷ []) (b ∷ []))

  four_rounds :
      (s : Bytes) (c : ℕ)
      → c < 256
      → length der + 2 < 48
      → decode_loop acc 0 der (
          b64char (a / 4)
          ∷ b64char (a % 4 * 16 + b / 16)
          ∷ b64char (b % 16 * 4 + c / 64)
          ∷ b64char (c % 64)
          ∷ s)
        ≡ decode_loop
            (push_sextet (push_sextet acc2 (b % 16 * 4 + c / 64)) (c % 64))
            0
            (der ++ (a ∷ b ∷ c ∷ []))
            s
  four_rounds s c hc l =
      three_rounds (b64char (c % 64) ∷ s) (c / 64) (omega arith) (omega arith)
      ∙ round_byte (push_sextet acc2 (b % 16 * 4 + c / 64)) 2 (c % 64) (der ++ (a ∷ b ∷ [])) s
          (omega arith) (omega arith) (omega (arith, length-append der (a ∷ b ∷ [])))
      ∙ ap
          (λ t.
            decode_loop (push_sextet (push_sextet acc2 (b % 16 * 4 + c / 64)) (c % 64)) 0
              ((der ++ (a ∷ b ∷ [])) ++ (t ∷ [])) s)
          (third_byte acc2 (b % 16) c hc (omega arith))
      ∙ ap (λ t. decode_loop (push_sextet (push_sextet acc2 (b % 16 * 4 + c / 64)) (c % 64)) 0 t s)
          (append_assoc der (a ∷ b ∷ []) (c ∷ []))

round_nil : (acc nbits : ℕ) (der : Bytes) → decode_loop acc nbits der [] ≡ some der
unfolding decode_loop
round_nil acc nbits der = refl

-- The loop gives back what was encoded, as long as it fits the buffer of 48 bytes.
pub decode_loop-base64 :
    (bs : Bytes) (acc : ℕ) (der : Bytes)
    → All (λ c. c < 256) bs
    → length der + length bs ≤ 48
    → decode_loop acc 0 der (base64 bs) ≡ some (der ++ bs)
decode_loop-base64 [] acc der h l = round_nil acc 0 der ∙ ap some (sym (append-nil der))
decode_loop-base64 (a ∷ []) acc der (ha, _) l =
    let padded : a % 4 * 16 ≡ a % 4 * 16 + 0 = omega arith in
    rw padded
      (two_rounds acc a der (b'=' ∷ b'=' ∷ []) ha 0 (omega arith) (omega arith) ∙ round_end _ 4 _ _)
decode_loop-base64 (a ∷ b ∷ []) acc der (ha, (hb, _)) l =
    let padded : b % 16 * 4 ≡ b % 16 * 4 + 0 = omega arith in
    rw padded
      (three_rounds acc a b der ha hb (b'=' ∷ []) 0 (omega arith) (omega arith) ∙ round_end _ 2 _ _)
decode_loop-base64 (a ∷ b ∷ c ∷ s) acc der (ha, (hb, (hc, hs))) l =
    four_rounds acc a b der ha hb (base64 s) c hc (omega arith)
    ∙ decode_loop-base64 s _ (der ++ (a ∷ b ∷ c ∷ [])) hs
        (omega (arith, length-append der (a ∷ b ∷ c ∷ [])))
    ∙ ap some (append_assoc der (a ∷ b ∷ c ∷ []) s)
