-- ===== src/Claim/Json/Request.antt =====
-- The text that claim_build_request writes.
use mcu_sdk.Base.{
  ℕ, ◌+◌, ◌≤◌, ◌<◌, ◌≡◌, inl, inr, ap, ◌∙◌, false, Option, none, some, [], ◌∷◌, ◌++◌, Bytes, room,
  codes, length, length-append, ltb, leb, ◌==◌, if◌then◌else◌, arith, append_assoc, append-nil,
  lt→ltb, le→ltb, Bool-cases, ltb→lt, ltb→le, leb→le, leb→lt,
}
use mcu_sdk.Claim.Json.{
  ◌>>=◌, escape, append_raw, append_escaped, build_request, claim_build_request,
}

-- A value as it stands in JSON.
abbrev pub escaped : Bytes → Bytes
escaped [] = []
escaped (c ∷ s) = escape c ++ escaped s

-- A text with its NUL in a buffer of `cap` bytes.
abbrev fitting : ℕ → Bytes → Option Bytes
fitting cap w = if ltb (length w) cap then some w else none

module _ (cap : ℕ) where
  append_raw-fitting : (out s : Bytes) → append_raw cap out s ≡ fitting cap (out ++ s)
  unfolding append_raw
  append_raw-fitting out s = ground (arith, length-append out s)

  append_escaped-fitting :
      (out s : Bytes) → length out < cap → append_escaped cap out s ≡ fitting cap (out ++ escaped s)
  unfolding append_escaped
  append_escaped-fitting out [] h = rw (append-nil out, lt→ltb _ _ h)
  append_escaped-fitting out (c ∷ s) h =
      let whole : length (out ++ (escape c ++ escaped s))
          ≡ length out + (length (escape c) + length (escaped s)) =
        omega (
          arith,
          length-append out (escape c ++ escaped s),
          length-append (escape c) (escaped s),
        ) in
      elim (Bool-cases (leb cap (length out + length (escape c)))) [
        | inl e ↦ rw (
          e,
          le→ltb (length (out ++ (escape c ++ escaped s))) cap (omega (arith, whole, leb→le _ _ e)),
        )
        | inr e ↦ rw e (
            append_escaped-fitting (out ++ escape c) s
              (omega (arith, length-append out (escape c), leb→lt _ _ e))
            ∙ ap (fitting cap) (append_assoc out (escape c) (escaped s)))
      ]

  fitting-bind :
      (w z : Bytes) (f : Bytes → Option Bytes)
      → length w ≤ length z
      → (length w < cap → f w ≡ fitting cap z)
      → (fitting cap w >>= f) ≡ fitting cap z
  fitting-bind w z f l h = elim (Bool-cases (ltb (length w) cap)) [
    | inl e ↦ rw e (h (ltb→lt _ _ e))
    | inr e ↦ rw (e, le→ltb (length z) cap (omega (arith, l, ltb→le _ _ e)))
  ]

  -- One call of each kind in a chain whose text in the end is `z`.
  raw-bind :
      (w s z : Bytes) (f : Bytes → Option Bytes)
      → length (w ++ s) ≤ length z
      → (length (w ++ s) < cap → f (w ++ s) ≡ fitting cap z)
      → (append_raw cap w s >>= f) ≡ fitting cap z
  raw-bind w s z f l h = rw (append_raw-fitting w s) (fitting-bind (w ++ s) z f l h)

  escaped-bind :
      (w s z : Bytes) (f : Bytes → Option Bytes)
      → length w < cap
      → length (w ++ escaped s) ≤ length z
      → (length (w ++ escaped s) < cap → f (w ++ escaped s) ≡ fitting cap z)
      → (append_escaped cap w s >>= f) ≡ fitting cap z
  escaped-bind w s z f h l k =
      rw (append_escaped-fitting w s h) (fitting-bind (w ++ escaped s) z f l k)

-- The text of a request.
abbrev pub request_text : Bytes → Bytes → Bytes → Bytes
request_text token id csr =
    codes "{\"claim_token\":\""
    ++ (escaped token
        ++ (codes "\",\"device_id\":\""
            ++ (escaped id ++ (codes "\",\"csr_pem\":\"" ++ (escaped csr ++ codes "\"}")))))

module _ (cap : ℕ) (token id csr : Bytes) where
  -- The text after each of the seven calls.
  abbrev before_token : Bytes
  before_token = codes "{\"claim_token\":\""

  abbrev with_token : Bytes
  with_token = before_token ++ escaped token

  abbrev before_id : Bytes
  before_id = with_token ++ codes "\",\"device_id\":\""

  abbrev with_id : Bytes
  with_id = before_id ++ escaped id

  abbrev before_csr : Bytes
  before_csr = with_id ++ codes "\",\"csr_pem\":\""

  abbrev with_csr : Bytes
  with_csr = before_csr ++ escaped csr

  abbrev whole : Bytes
  whole = with_csr ++ codes "\"}"

  grows :
      (length before_token ≤ length whole)
      × (length with_token ≤ length whole)
      × (length before_id ≤ length whole)
      × (length with_id ≤ length whole)
      × (length before_csr ≤ length whole)
      × (length with_csr ≤ length whole)
  grows = omega (
    arith,
    length-append before_token (escaped token),
    length-append with_token (codes "\",\"device_id\":\""),
    length-append before_id (escaped id),
    length-append with_id (codes "\",\"csr_pem\":\""),
    length-append before_csr (escaped csr),
    length-append with_csr (codes "\"}"),
  )

  build_request-fitting : build_request cap token id csr ≡ fitting cap whole
  unfolding build_request
  build_request-fitting =
      let (g1, g2, g3, g4, g5, g6) = grows in
      raw-bind cap [] before_token whole _ g1 λ h1.
        escaped-bind cap before_token token whole _ h1 g2 λ h2.
          raw-bind cap with_token (codes "\",\"device_id\":\"") whole _ g3 λ h3.
            escaped-bind cap before_id id whole _ h3 g4 λ h4.
              raw-bind cap with_id (codes "\",\"csr_pem\":\"") whole _ g5 λ h5.
                escaped-bind cap before_csr csr whole _ h5 g6
                  λ h6. append_raw-fitting cap with_csr (codes "\"}")

  whole-text : whole ≡ request_text token id csr
  whole-text = simp append_assoc

  pub claim_build_request_lem :
      0 < cap
      → claim_build_request (some token) (some id) (some csr) (room cap) ≡ (
          if ltb (length (request_text token id csr)) cap
          then some (request_text token id csr)
          else none)
  unfolding claim_build_request
  claim_build_request_lem h =
      let some_room : (cap == 0) ≡ false = ground arith in
      rw (some_room, build_request-fitting) (ap (fitting cap) whole-text)
