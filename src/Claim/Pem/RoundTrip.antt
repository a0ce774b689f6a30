-- ===== src/Claim/Pem/RoundTrip.antt =====
-- A PEM text with a base64 body laid out in any lines gives back the key it holds.
use mcu_sdk.Base.{
  sym, ℕ, ◌+◌, ◌-◌, ◌/◌, ◌%◌, ◌^◌, All-append, ◌<◌, ◌≡◌, ◌≢◌, refl, ap, ◌∙◌, none, some,
  Option-cases, [], ◌∷◌, ◌++◌, Bytes, codes, length, All, strip, arith, ◌==◌, if◌then◌else◌, inl,
  inr, Bool-cases, ne→==false,
}
use mcu_sdk.Claim.Pem.{
  b64val, push_sextet, decode_loop, split_at, next_line, spki_prefix, claim_ed25519_pub_from_pem,
}
use mcu_sdk.Claim.Pem.Base64.{base64, decode_loop-base64}

-- The characters of a body that count: the alphabet's and the padding.
unfoldable pub significant : Bytes → Bytes
significant [] = []
significant (c ∷ s) =
    if c == b'='
    then c ∷ significant s
    else elim (b64val c) [ none ↦ significant s | some v ↦ c ∷ significant s ]

decode_loop-significant :
    (s : Bytes) (acc nbits : ℕ) (der : Bytes)
    → decode_loop acc nbits der s ≡ decode_loop acc nbits der (significant s)
unfolding decode_loop significant
decode_loop-significant [] acc nbits der = refl
decode_loop-significant (c ∷ s) acc nbits der = elim (Bool-cases (c == b'=')) [
  | inl pad ↦ rw (pad, decode_loop) (rw pad)
  | inr char ↦ elim (Option-cases (b64val c)) [
    | inl none_of ↦ rw (char, none_of) (decode_loop-significant s acc nbits der)
    | inr (v, is) ↦
        let acc' = push_sextet acc v in
        ground (
          arith,
          decode_loop-significant s acc' (nbits + 6) der,
          decode_loop-significant s acc' (nbits + 6 - 8)
              (der ++ ((acc' / 2 ^ (nbits + 6 - 8) % 256) ∷ [])),
        )
  ]
]

next_line-append :
    (s rest : Bytes) → All (λ c. c ≢ b'\n') s → next_line (s ++ (b'\n' ∷ rest)) ≡ some rest
unfolding next_line
next_line-append [] rest h = refl
next_line-append (c ∷ s) rest (hc, h) = rw (ne→==false _ _ hc) (next_line-append s rest h)

no_marker : (c : ℕ) (s : Bytes) → c ≢ b'-' → strip (codes "-----END") (c ∷ s) ≡ none
no_marker c s h = rw (ne→==false b'-' c (λ e. h (sym e)))

-- A text without dashes is passed over up to the end marker.
split_at_end :
    (s tail : Bytes)
    → All (λ c. c ≢ b'-') s
    → split_at (codes "-----END") (s ++ (codes "-----END" ++ tail))
      ≡ some (s, codes "-----END" ++ tail)
unfolding split_at
split_at_end [] tail h = refl
split_at_end (c ∷ s) tail (hc, h) =
    rw (no_marker c (s ++ (codes "-----END" ++ tail)) hc, split_at, split_at_end s tail h)

abbrev pub pem_text : Bytes → Bytes → Bytes → Bytes
pem_text label body tail =
    codes "-----BEGIN" ++ (label ++ (b'\n' ∷ (body ++ (codes "-----END" ++ tail))))

-- A PEM text whose body, without line breaks and other characters that are not base64, encodes the
-- Ed25519 prefix and 32 key bytes, gives exactly these 32 bytes.
pub claim_ed25519_pub_from_pem-base64 :
    (label body tail key : Bytes)
    → All (λ c. c ≢ b'\n') label
    → All (λ c. c ≢ b'-') body
    → All (λ c. c < 256) key
    → length key ≡ 32
    → significant body ≡ base64 (spki_prefix ++ key)
    → claim_ed25519_pub_from_pem (some (pem_text label body tail)) ≡ some key
unfolding claim_ed25519_pub_from_pem
claim_ed25519_pub_from_pem-base64 label body tail key hl hb hk e encodes =
    let decoded : decode_loop 0 0 [] body ≡ some (spki_prefix ++ key) =
      decode_loop-significant body 0 0 []
      ∙ ap (decode_loop 0 0 []) encodes
      ∙ decode_loop-base64 (spki_prefix ++ key) 0 []
          (All-append (λ c. c < 256) spki_prefix key (omega arith) hk) (omega arith) in
    rw
      (
        next_line-append label (body ++ (codes "-----END" ++ tail)) hl,
        split_at_end body tail hb,
        decoded,
      )
      (ground arith)
