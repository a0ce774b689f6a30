-- ===== src/Ota/Range.antt =====
-- parse_u64, ota_parse_content_range and ota_chunk_len of lib/ota/ota.c. The text `value[i..len)` is
-- a list, and moving `i` on drops its head.
use mcu_sdk.Base.{
  ℕ, ◌+◌, ◌-◌, ◌*◌, ◌%◌, ◌^◌, ◌≤◌, ◌<◌, ◌≡◌, refl, ◌∙◌, Bool, ◌&&◌, ◌||◌, Option, none, some, [],
  ◌∷◌, ◌++◌, ◌⊎◌, arith, Bytes, codes, strip, length, All, ltb, leb, ◌==◌, if◌then◌else◌, lt→ltb,
  length-append,
}
use mcu_sdk.Base.Decimal.{
  decimal, IsDigit, decimal-IsDigit, decimal_pos, read_digits, read_digits-decimal,
}

abbrev is_digit : ℕ → Bool
is_digit c = leb b'0' c && leb c b'9'

-- The loop of parse_u64: the value, on a uint64_t, and the text that is left.
digits_loop : ℕ → Bytes → ℕ × Bytes
digits_loop v [] = (v, [])
digits_loop v (c ∷ s) =
    let more = digits_loop ((v * 10 + (c - b'0')) % 2 ^ 64) s in
    if is_digit c then more else (v, c ∷ s)

-- The last part is `*ok`: at least one digit was read.
unfoldable pub parse_u64 : Bytes → ℕ × Bytes × Bool
unfolding digits_loop
parse_u64 s = let (v, rest) = digits_loop 0 s in (v, rest, ltb (length rest) (length s))

skip_blanks : Bytes → Bytes
skip_blanks [] = []
skip_blanks (c ∷ s) = let more = skip_blanks s in if c == b' ' || c == b'\t' then more else c ∷ s

skip_spaces : Bytes → Bytes
skip_spaces [] = []
skip_spaces (c ∷ s) = let more = skip_spaces s in if c == b' ' then more else c ∷ s

-- `i >= len || value[i] != c` is a failure, and `i++` behind it.
expect : ℕ → Bytes → Option Bytes
expect c [] = none
expect c (d ∷ s) = if d == c then some s else none

infixl 5 ◌>>=◌
abbrev ◌>>=◌ : {A B : Type 0} → Option A → (A → Option B) → Option B
none >>= f = none
some a >>= f = f a

-- `if (!ok) return 0;` behind a parse_u64
number : Bytes → Option (ℕ × Bytes)
number s = let (v, rest, good) = parse_u64 s in if good then some (v, rest) else none

-- `none` is a return value of 0, with start, end and total untouched. A NULL value is `none`.
unfoldable pub parse_content_range : Option Bytes → Option (ℕ × ℕ × ℕ)
unfolding parse_u64 number expect skip_blanks skip_spaces
parse_content_range none = none
parse_content_range (some value) = do
  rest ← strip (codes "bytes") (skip_blanks value)
  (s, rest) ← number (skip_spaces rest)
  rest ← expect b'-' rest
  (e, rest) ← number rest
  rest ← expect b'/' rest
  (t, rest) ← number rest
  if ltb e s || leb t e then none else some (s, e, t)

-- `max_chunk` is a uint32_t.
unfoldable pub chunk_len : ℕ → ℕ → ℕ → ℕ
chunk_len offset total max_chunk =
    if leb total offset || max_chunk == 0
    then 0
    else (let remaining = total - offset in
        if ltb remaining max_chunk then remaining else max_chunk)

-- A text that ends, or goes on with another byte than a digit.
abbrev pub EndsDigits : Bytes → Type 0
EndsDigits [] = Unit
EndsDigits (c ∷ s) = (c < b'0') ⊎ (b'9' < c)

digits_loop-digits :
    (v : ℕ) (ds rest : Bytes)
    → All IsDigit ds
    → EndsDigits rest
    → digits_loop v (ds ++ rest) ≡ (read_digits v ds, rest)
unfolding digits_loop read_digits
digits_loop-digits v [] [] h k = refl
digits_loop-digits v [] (c ∷ s) h k = ground arith
digits_loop-digits v (d ∷ ds) rest (hd, hs) k =
    ground (arith, digits_loop-digits ((v * 10 + (d - b'0')) % 2 ^ 64) ds rest hs k)

number-digits :
    (ds rest : Bytes)
    → All IsDigit ds
    → 0 < length ds
    → EndsDigits rest
    → number (ds ++ rest) ≡ some (read_digits 0 ds, rest)
unfolding number parse_u64
number-digits ds rest h pos k = rw (
  digits_loop-digits 0 ds rest h k,
  lt→ltb (length rest) (length (ds ++ rest)) (omega (arith, length-append ds rest)),
)

skip_spaces-digits :
    (ds rest : Bytes) → All IsDigit ds → 0 < length ds → skip_spaces (ds ++ rest) ≡ ds ++ rest
unfolding skip_spaces
skip_spaces-digits [] rest h pos = absurd (omega arith)
skip_spaces-digits (d ∷ ds) rest h pos = ground arith

-- The header value "bytes a-b/c", with whatever follows it.
abbrev pub range_text : Bytes → Bytes → Bytes → Bytes → Bytes
range_text a b c tail = codes "bytes " ++ (a ++ (b'-' ∷ (b ++ (b'/' ∷ (c ++ tail)))))

-- On three rows of digits the parser reads each number modulo 2^64, and answers exactly when
-- start <= end < total.
pub parse_content_range-digits :
    (a b c tail : Bytes)
    → All IsDigit a × All IsDigit b × All IsDigit c
    → (0 < length a) × (0 < length b) × (0 < length c)
    → EndsDigits tail
    → let s = read_digits 0 a in
      let e = read_digits 0 b in
      let t = read_digits 0 c in
      parse_content_range (some (range_text a b c tail))
      ≡ (if ltb e s || leb t e then none else some (s, e, t))
unfolding parse_content_range
parse_content_range-digits a b c tail (da, db, dc) (pa, pb, pc) k =
    let after_b : Bytes = b'/' ∷ (c ++ tail) in
    let after_a : Bytes = b'-' ∷ (b ++ after_b) in
    rw (
      skip_spaces-digits a after_a da pa,
      number-digits a after_a da pa (omega arith),
      number-digits b after_b db pb (omega arith),
      number-digits c tail dc pc k,
    )

-- A coherent range that was printed is read back.
pub parse_content_range-decimal :
    (s e t : ℕ) (tail : Bytes)
    → s ≤ e
    → e < t
    → t < 2 ^ 64
    → EndsDigits tail
    → parse_content_range (some (range_text (decimal s) (decimal e) (decimal t) tail))
      ≡ some (s, e, t)
parse_content_range-decimal s e t tail h k l g =
    parse_content_range-digits (decimal s) (decimal e) (decimal t) tail
      (decimal-IsDigit s, decimal-IsDigit e, decimal-IsDigit t)
      (decimal_pos s, decimal_pos e, decimal_pos t) g
    ∙ rw
        (
          read_digits-decimal s (omega arith),
          read_digits-decimal e (omega arith),
          read_digits-decimal t l,
        )
        (ground arith)

>>=-eq-some :
    {A B : Type 0} (m : Option A) (f : A → Option B) {b : B}
    → (m >>= f) ≡ some b
    → (a : A) × (m ≡ some a) × (f a ≡ some b)
>>=-eq-some none f h = cc
>>=-eq-some (some a) f h = (a, refl, h)

coherent :
    (s e t : ℕ) (r : ℕ × ℕ × ℕ)
    → (if ltb e s || leb t e then none else some (s, e, t)) ≡ some r
    → (r.0 ≤ r.1) × (r.1 < r.2)
coherent s e t r h = ground arith

-- Whatever the text, a range that the parser reports is coherent.
pub parse_content_range-coherent :
    (value : Option Bytes) (r : ℕ × ℕ × ℕ)
    → parse_content_range value ≡ some r
    → (r.0 ≤ r.1) × (r.1 < r.2)
unfolding parse_content_range
parse_content_range-coherent none r h = cc
parse_content_range-coherent (some value) r h =
    let (r0, e0, h0) = >>=-eq-some (strip (codes "bytes") (skip_blanks value)) _ h in
    let (r1, e1, h1) = >>=-eq-some (number (skip_spaces r0)) _ h0 in
    let (r2, e2, h2) = >>=-eq-some (expect b'-' r1.1) _ h1 in
    let (r3, e3, h3) = >>=-eq-some (number r2) _ h2 in
    let (r4, e4, h4) = >>=-eq-some (expect b'/' r3.1) _ h3 in
    let (r5, e5, h5) = >>=-eq-some (number r4) _ h4 in coherent r1.0 r3.0 r5.0 r h5

-- The next request stays within the image and the buffer, and is empty only at the end or with no
-- buffer; so each round moves on and the download ends.
pub chunk_len_bounds :
    (offset total max_chunk : ℕ)
    → offset ≤ total
    → (offset + chunk_len offset total max_chunk ≤ total)
      × (chunk_len offset total max_chunk ≤ max_chunk)
      × ((offset ≡ total) ⊎ (max_chunk ≡ 0) ⊎ (0 < chunk_len offset total max_chunk))
unfolding chunk_len
chunk_len_bounds offset total max_chunk h = ground arith
