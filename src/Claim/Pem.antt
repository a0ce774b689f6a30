-- ===== src/Claim/Pem.antt =====
-- b64val and claim_ed25519_pub_from_pem of lib/provision/claim_proto.c.
pub mod Base64
pub mod RoundTrip
use mcu_sdk.Base.{
  ℕ, zero, suc, ◌+◌, ◌-◌, ◌*◌, ◌/◌, ◌%◌, ◌^◌, Bool, true, false, ◌&&◌, ◌||◌, not, bit_or, Option,
  none, some, List, [], ◌∷◌, ◌++◌, Bytes, codes, length, strip, ltb, leb, ◌==◌, if◌then◌else◌, drop,
  bytes_eq, take,
}
use mcu_sdk.Claim.Json.{◌>>=◌}

-- The sextet that a character stands for; -1 is `none`.
unfoldable pub b64val : ℕ → Option ℕ
b64val c =
    if leb b'A' c && leb c b'Z'
    then some (c - b'A')
    else if leb b'a' c && leb c b'z'
    then some (c - b'a' + 26)
    else if leb b'0' c && leb c b'9'
    then some (c - b'0' + 52)
    else if c == b'+'
    then some 62
    else if c == b'/'
    then some 63
    else none

abbrev pub spki_prefix : Bytes
spki_prefix = 0x30 ∷ 0x2a ∷ 0x30 ∷ 0x05 ∷ 0x06 ∷ 0x03 ∷ 0x2b ∷ 0x65 ∷ 0x70 ∷ 0x03 ∷ 0x21 ∷ 0x00 ∷ []

-- strstr: the text before the first place where `mark` stands, and the text from there on.
unfoldable pub split_at : Bytes → Bytes → Option (Bytes × Bytes)
split_at mark [] = elim (strip mark []) [ none ↦ none | some r ↦ some ([], []) ]
split_at mark (c ∷ s) = elim (strip mark (c ∷ s)) [
  | some r ↦ some ([], c ∷ s)
  | none ↦ elim (split_at mark s) [ none ↦ none | some (a, b) ↦ some (c ∷ a, b) ]
]

-- strchr for the newline, and `b++` behind it.
unfoldable pub next_line : Bytes → Option Bytes
next_line [] = none
next_line (c ∷ s) = let more = next_line s in if c == b'\n' then some s else more

-- `acc = (acc << 6) | v` on the 32 bits of an int. (The C standard leaves the overflow of that shift
-- undefined; this is what the compilers used do.)
unfoldable pub push_sextet : ℕ → ℕ → ℕ
push_sextet acc v = bit_or (acc * 64 % 2 ^ 32) v

-- The decoding loop over `b..e`: what is in `der` at its end, or `none` for a full buffer.
unfoldable pub decode_loop : ℕ → ℕ → Bytes → Bytes → Option Bytes
unfolding b64val push_sextet
decode_loop acc nbits der [] = some der
decode_loop acc nbits der (c ∷ s) =
    let skip = decode_loop acc nbits der s in
    if c == b'=' then some der else elim (b64val c) [
      | none ↦ skip
      | some v ↦
          let acc' = push_sextet acc v in
          if leb 8 (nbits + 6)
          then (let next =
                decode_loop acc' (nbits + 6 - 8) (der ++ ((acc' / 2 ^ (nbits + 6 - 8) % 256) ∷ []))
                  s in
              if leb 48 (length der) then none else next)
          else decode_loop acc' (nbits + 6) der s
    ]

-- The 32 key bytes, or `none` for -1.
unfoldable pub claim_ed25519_pub_from_pem : Option Bytes → Option Bytes
unfolding split_at next_line decode_loop
claim_ed25519_pub_from_pem none = none
claim_ed25519_pub_from_pem (some pem) = do
  (_, b) ← split_at (codes "-----BEGIN") pem
  b ← next_line b
  (body, _) ← split_at (codes "-----END") b
  der ← decode_loop 0 0 [] body
  if not (length der == 44) || not (bytes_eq (take 12 der) spki_prefix)
      then none
      else some (drop 12 der)
