-- ===== src/Claim/Json.antt =====
-- claim_build_request and json_extract_string of lib/provision/claim_proto.c. A buffer that is
-- written is the text so far, whose length is `w`; a pointer into a C string is the rest of it, and
-- `*p` at its end is the NUL.
pub mod Request
pub mod RoundTrip
use mcu_sdk.Base.{
  ℕ, zero, suc, ◌+◌, Bool, true, false, ◌&&◌, ◌||◌, not, Option, none, some, List, [], ◌∷◌, ◌++◌,
  Bytes, Out, null, room, codes, length, strip, ltb, leb, ◌==◌, if◌then◌else◌,
}

infixl 5 ◌>>=◌
abbrev pub ◌>>=◌ : {A B : Type 0} → Option A → (A → Option B) → Option B
none >>= f = none
some a >>= f = f a

-- The `switch` of append_escaped.
unfoldable pub escape : ℕ → Bytes
escape c =
    if c == b'"'
    then b'\\' ∷ b'"' ∷ []
    else if c == b'\\'
    then b'\\' ∷ b'\\' ∷ []
    else if c == b'\n'
    then b'\\' ∷ b'n' ∷ []
    else if c == b'\r'
    then b'\\' ∷ b'r' ∷ []
    else if c == b'\t'
    then b'\\' ∷ b't' ∷ []
    else c ∷ []

module _ (cap : ℕ) where
  -- `if (*w + n >= cap) return -1;` and the copy.
  unfoldable pub append_raw : Bytes → Bytes → Option Bytes
  append_raw out s = if leb cap (length out + length s) then none else some (out ++ s)

  unfoldable pub append_escaped : Bytes → Bytes → Option Bytes
  unfolding escape
  append_escaped out [] = some out
  append_escaped out (c ∷ s) =
      let rest = append_escaped (out ++ escape c) s in
      if leb cap (length out + length (escape c)) then none else rest

  -- The body behind the NULL checks.
  unfoldable pub build_request : Bytes → Bytes → Bytes → Option Bytes
  unfolding append_raw append_escaped
  build_request claim_token device_id csr_pem = do
    w ← append_raw [] (codes "{\"claim_token\":\"")
    w ← append_escaped w claim_token
    w ← append_raw w (codes "\",\"device_id\":\"")
    w ← append_escaped w device_id
    w ← append_raw w (codes "\",\"csr_pem\":\"")
    w ← append_escaped w csr_pem
    append_raw w (codes "\"}")

-- The text that is written, whose length is the result; `none` is -1.
unfoldable pub claim_build_request : Option Bytes → Option Bytes → Option Bytes → Out → Option Bytes
unfolding build_request
claim_build_request (some token) (some id) (some csr) (room cap) =
    if cap == 0 then none else build_request cap token id csr
claim_build_request _ _ _ _ = none

abbrev is_blank : ℕ → Bool
is_blank c = c == b' ' || c == b'\t'

skip_blanks : Bytes → Bytes
skip_blanks [] = []
skip_blanks (c ∷ s) = let more = skip_blanks s in if is_blank c then more else c ∷ s

-- The rest of a text behind the byte `c`, if it begins with that byte.
abbrev behind : ℕ → Bytes → Option Bytes
behind c [] = none
behind c (d ∷ s) = if d == c then some s else none

-- What the body of the loop of find_value_start makes of a quote with `s` behind it.
pub data Found : Type 0 where
  no_key : Found
  not_string : Found
  value_at : Bytes → Found

-- `strncmp(p + 1, field, flen) == 0 && p[1 + flen] == '"'`, the blanks, the colon and the quote.
key_at : Bytes → Bytes → Found
unfolding skip_blanks
key_at field s = elim (strip field s >>= behind b'"') [
  | none ↦ no_key
  | some q ↦ elim (behind b':' (skip_blanks q)) [
    | none ↦ no_key
    | some q' ↦ elim (behind b'"' (skip_blanks q')) [ none ↦ not_string | some v ↦ value_at v ]
  ]
]

-- find_value_start; strchr passes over every byte that is no quote.
unfoldable pub find_value_start : Bytes → Bytes → Option Bytes
unfolding key_at
find_value_start [] field = none
find_value_start (c ∷ s) field =
    let more = find_value_start s field in
    if not (c == b'"')
    then more
    else elim (key_at field s) [ no_key ↦ more | not_string ↦ none | value_at v ↦ some v ]

-- The byte that a backslash with `c` behind it stands for.
unfoldable pub unescape : ℕ → ℕ
unescape c =
    if c == b'n' then b'\n' else if c == b't' then b'\t' else if c == b'r' then b'\r' else c

-- The copying loop of json_extract_string; `out` is what has been written.
module _ (cap : ℕ) where
  unfoldable pub extract_loop : Bytes → Bytes → Option Bytes
  unfolding unescape
  extract_loop out [] = none
  extract_loop out (b ∷ []) = if b == b'"' then some out else none
  extract_loop out (b ∷ c ∷ s) =
      let plain = extract_loop (out ++ (b ∷ [])) (c ∷ s) in
      let escaped = extract_loop (out ++ (unescape c ∷ [])) s in
      if b == b'"'
      then some out
      else if leb cap (length out + 1)
      then none
      else if b == b'\\'
      then escaped
      else plain

-- The value that is written before the NUL; `none` is -1.
unfoldable pub json_extract_string : Option Bytes → Option Bytes → Out → Option Bytes
unfolding find_value_start extract_loop
json_extract_string (some json) (some field) (room cap) =
    if cap == 0 then none else (do v ← find_value_start json field; extract_loop cap [] v)
json_extract_string _ _ _ = none
