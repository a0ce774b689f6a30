-- ===== src/Claim/Json/RoundTrip.antt =====
-- json_extract_string reads back what is written escaped, and matches keys only.
use mcu_sdk.Base.{
  ℕ, ◌+◌, ◌<◌, ◌≡◌, ◌≢◌, ◌⊎◌, inl, inr, refl, sym, ap, ◌∙◌, false, none, some, [], ◌∷◌, ◌++◌, Bytes,
  room, codes, length, length-append, strip, ◌==◌, arith, append_assoc, append-nil, All, Bool-cases,
}
use mcu_sdk.Claim.Json.{
  ◌>>=◌, escape, skip_blanks, behind, no_key, key_at, find_value_start, unescape, extract_loop,
  json_extract_string, claim_build_request,
}
use mcu_sdk.Claim.Json.Request.{escaped, request_text, claim_build_request_lem}

-- How one byte is escaped.
escape_cases :
    (c : ℕ)
    → ((d : ℕ) × (escape c ≡ b'\\' ∷ d ∷ []) × (unescape d ≡ c))
      ⊎ ((escape c ≡ c ∷ []) × (c ≢ b'"') × (c ≢ b'\\'))
unfolding escape unescape
escape_cases c = elim (Bool-cases (c == b'"')) [
  | inl e ↦ inl (b'"', ground arith, ground arith)
  | inr n1 ↦ elim (Bool-cases (c == b'\\')) [
    | inl e ↦ inl (b'\\', ground arith, ground arith)
    | inr n2 ↦ elim (Bool-cases (c == b'\n')) [
      | inl e ↦ inl (b'n', ground arith, ground arith)
      | inr n3 ↦ elim (Bool-cases (c == b'\r')) [
        | inl e ↦ inl (b'r', ground arith, ground arith)
        | inr n4 ↦ elim (Bool-cases (c == b'\t')) [
          | inl e ↦ inl (b't', ground arith, ground arith)
          | inr n5 ↦ inr (ground arith, ground arith, ground arith)
        ]
      ]
    ]
  ]
]

module _ (cap : ℕ) where
  extract_plain :
      (out s : Bytes) (b : ℕ)
      → b ≢ b'"'
      → b ≢ b'\\'
      → length out + 1 < cap
      → extract_loop cap out (b ∷ s) ≡ extract_loop cap (out ++ (b ∷ [])) s
  unfolding extract_loop
  extract_plain out [] b h k l = ground arith
  extract_plain out (c ∷ s) b h k l = ground arith

  extract_escaped :
      (out s : Bytes) (d : ℕ)
      → length out + 1 < cap
      → extract_loop cap out (b'\\' ∷ d ∷ s) ≡ extract_loop cap (out ++ (unescape d ∷ [])) s
  unfolding extract_loop
  extract_escaped out s d l = ground arith

  extract_end : (out s : Bytes) → extract_loop cap out (b'"' ∷ s) ≡ some out
  unfolding extract_loop
  extract_end out [] = refl
  extract_end out (c ∷ s) = refl

  extract_loop-escaped :
      (v out rest : Bytes)
      → length out + length v < cap
      → extract_loop cap out (escaped v ++ (b'"' ∷ rest)) ≡ some (out ++ v)
  extract_loop-escaped [] out rest h = extract_end out rest ∙ ap some (sym (append-nil out))
  extract_loop-escaped (c ∷ v) out rest h =
      let ih =
        extract_loop-escaped v (out ++ (c ∷ [])) rest (omega (arith, length-append out (c ∷ []))) in
      let regroup : (out ++ (c ∷ [])) ++ v ≡ out ++ (c ∷ v) = append_assoc out (c ∷ []) v in
      elim (escape_cases c) [
        | inl (d, e, u) ↦ rw e (
            extract_escaped out (escaped v ++ (b'"' ∷ rest)) d (omega arith)
            ∙ rw u (ih ∙ ap some regroup))
        | inr (e, n, m) ↦ rw e (
            extract_plain out (escaped v ++ (b'"' ∷ rest)) c n m (omega arith)
            ∙ ih
            ∙ ap some regroup)
      ]

-- A field name that needs no escape and has no comma.
abbrev IsName : Bytes → Type 0
IsName = All (λ d. (d ≢ b'"') × (d ≢ b'\\') × (d ≢ b','))

abbrev ended : Bytes → Bytes
ended rest = b'"' ∷ b',' ∷ rest

module _ (rest : Bytes) where
  -- Inside a value a name is followed by a quote only where the value ends, before the comma.
  name_in_value :
      (f t : Bytes)
      → IsName f
      → ((strip f (escaped t ++ ended rest) >>= behind b'"') ≡ none)
        ⊎ ((strip f (escaped t ++ ended rest) >>= behind b'"') ≡ some (b',' ∷ rest))
  name_in_value [] [] h = inr refl
  name_in_value [] (c ∷ t) h = elim (escape_cases c) [
    | inl (d, e, u) ↦ rw e (inl refl)
    | inr (e, n, m) ↦ rw e (inl (ground arith))
  ]
  name_in_value (d ∷ f) [] (hd, h) = inl (ground arith)
  name_in_value (d ∷ f) (c ∷ t) (hd, h) = elim (escape_cases c) [
    | inl (x, e, u) ↦ rw e (inl (ground arith))
    | inr (e, n, m) ↦ rw e (elim (Bool-cases (d == c)) [
      | inl same ↦ rw same (name_in_value f t h)
      | inr other ↦ rw other (inl refl)
    ])
  ]

  key_in_value : (f t : Bytes) → IsName f → key_at f (escaped t ++ ended rest) ≡ no_key
  unfolding key_at skip_blanks
  key_in_value f t h = elim (name_in_value f t h) [
    | inl e ↦ rw (e, key_at)
    | inr e ↦ rw (e, key_at)
  ]

  no_key_at_comma : (f : Bytes) → IsName f → key_at f (b',' ∷ rest) ≡ no_key
  unfolding key_at
  no_key_at_comma [] h = refl
  no_key_at_comma (d ∷ f) (hd, h) = ground arith

find_skip : (c : ℕ) (s f : Bytes) → c ≢ b'"' → find_value_start (c ∷ s) f ≡ find_value_start s f
unfolding find_value_start
find_skip c s f h = ground arith

find_no_key :
    (s f : Bytes) → key_at f s ≡ no_key → find_value_start (b'"' ∷ s) f ≡ find_value_start s f
unfolding find_value_start
find_no_key s f e = rw e

-- The search for a name passes over any value.
find_past_value :
    (rest f t : Bytes)
    → IsName f
    → find_value_start (escaped t ++ ended rest) f ≡ find_value_start rest f
find_past_value rest f [] h =
    find_no_key (b',' ∷ rest) f (no_key_at_comma rest f h) ∙ find_skip b',' rest f (omega arith)
find_past_value rest f (c ∷ t) h =
    let s : Bytes = escaped t ++ ended rest in
    elim (escape_cases c) [
      | inl (d, e, u) ↦ rw e (
          find_skip b'\\' (d ∷ s) f (omega arith) ∙ elim (Bool-cases (d == b'"')) [
            | inl quote ↦
                let same : d ≡ b'"' = ground arith in
                rw same (find_no_key s f (key_in_value rest f t h) ∙ find_past_value rest f t h)
            | inr other ↦ find_skip d s f (ground arith) ∙ find_past_value rest f t h
          ])
      | inr (e, n, m) ↦ rw e (find_skip c s f n ∙ find_past_value rest f t h)
    ]

find_skip-All :
    (k s f : Bytes) → All (λ c. c ≢ b'"') k → find_value_start (k ++ s) f ≡ find_value_start s f
find_skip-All [] s f h = refl
find_skip-All (c ∷ k) s f (hc, h) = find_skip c (k ++ s) f hc ∙ find_skip-All k s f h

-- The search passes over a key that is not the name, and over its value.
past_key :
    (k rest t f : Bytes)
    → All (λ c. c ≢ b'"') k
    → IsName f
    → key_at f (k ++ (b'"' ∷ b':' ∷ b'"' ∷ (escaped t ++ ended rest))) ≡ no_key
    → key_at f (b':' ∷ b'"' ∷ (escaped t ++ ended rest)) ≡ no_key
    → find_value_start (b'"' ∷ (k ++ (b'"' ∷ b':' ∷ b'"' ∷ (escaped t ++ ended rest)))) f
      ≡ find_value_start rest f
past_key k rest t f hk h i j =
    let value : Bytes = escaped t ++ ended rest in
    find_no_key (k ++ (b'"' ∷ b':' ∷ b'"' ∷ value)) f i
    ∙ find_skip-All k (b'"' ∷ b':' ∷ b'"' ∷ value) f hk
    ∙ find_no_key (b':' ∷ b'"' ∷ value) f j
    ∙ find_skip b':' (b'"' ∷ value) f (omega arith)
    ∙ find_no_key value f (key_in_value rest f t h)
    ∙ find_past_value rest f t h

module _ (token id csr : Bytes) where
  abbrev csr_part : Bytes
  csr_part = codes "\"csr_pem\":\"" ++ (escaped csr ++ codes "\"}")

  abbrev id_part : Bytes
  id_part = codes "\"device_id\":\"" ++ (escaped id ++ ended csr_part)

  find_token :
      find_value_start (request_text token id csr) (codes "claim_token")
      ≡ some (escaped token ++ ended id_part)
  unfolding find_value_start key_at skip_blanks
  find_token = refl

  find_id :
      find_value_start (request_text token id csr) (codes "device_id")
      ≡ some (escaped id ++ ended csr_part)
  unfolding key_at skip_blanks
  find_id =
      find_skip b'{' _ (codes "device_id") (omega arith)
      ∙ past_key (codes "claim_token") id_part token (codes "device_id") (omega arith) (omega arith)
          refl refl
      ∙ (unfold find_value_start in refl)

  find_csr :
      find_value_start (request_text token id csr) (codes "csr_pem")
      ≡ some (escaped csr ++ (b'"' ∷ b'}' ∷ []))
  unfolding key_at skip_blanks
  find_csr =
      find_skip b'{' _ (codes "csr_pem") (omega arith)
      ∙ past_key (codes "claim_token") id_part token (codes "csr_pem") (omega arith) (omega arith)
          refl refl
      ∙ past_key (codes "device_id") csr_part id (codes "csr_pem") (omega arith) (omega arith) refl
          refl
      ∙ (unfold find_value_start in refl)

extract_found :
    (cap : ℕ) (json field v rest : Bytes)
    → length v < cap
    → find_value_start json field ≡ some (escaped v ++ (b'"' ∷ rest))
    → json_extract_string (some json) (some field) (room cap) ≡ some v
unfolding json_extract_string
extract_found cap json field v rest h e =
    let some_room : (cap == 0) ≡ false = ground arith in
    rw (some_room, e) (extract_loop-escaped cap v [] rest (omega arith))

-- Each of the three values of a request that claim_build_request wrote is read back by its name,
-- byte for byte, whatever bytes the values hold (text that looks like a key included).
pub json_extract_string-claim_build_request :
    (token id csr body : Bytes) (size cap : ℕ)
    → claim_build_request (some token) (some id) (some csr) (room size) ≡ some body
    → 0 < size
    → (length token < cap) × (length id < cap) × (length csr < cap)
    → (json_extract_string (some body) (some (codes "claim_token")) (room cap) ≡ some token)
      × (json_extract_string (some body) (some (codes "device_id")) (room cap) ≡ some id)
      × (json_extract_string (some body) (some (codes "csr_pem")) (room cap) ≡ some csr)
json_extract_string-claim_build_request token id csr body size cap e h (lt, li, lc) =
    let text : body ≡ request_text token id csr =
      ground (arith, claim_build_request_lem size token id csr h) in
    rw text (
      extract_found cap (request_text token id csr) (codes "claim_token") token
          (b',' ∷ id_part token id csr) lt (find_token token id csr),
      extract_found cap (request_text token id csr) (codes "device_id") id
          (b',' ∷ csr_part token id csr) li (find_id token id csr),
      extract_found cap (request_text token id csr) (codes "csr_pem") csr (b'}' ∷ []) lc
          (find_csr token id csr),
    )
