-- ===== src/Net/Http/Body.antt =====
-- What plat_fetch_manifest hands on of a response.
use mcu_sdk.Base.{
  by_if, ◌∙◌, ◌*◌, get_or, leb, strip-append, ℕ, zero, suc, ◌+◌, ◌-◌, ◌≤◌, ◌<◌, ◌≡◌, refl, ap, sym,
  subst, arith, true, false, not, Option, none, some, Bytes, [], ◌∷◌, ◌++◌, length, drop,
  length-append, codes, strip, strip_sound, ltb, ◌==◌, if◌then◌else◌, Bool-cases, Option-cases, inl,
  inr, elim-eq-some,
}
use mcu_sdk.Provision.{Provisioning}
use mcu_sdk.Net.Socket.{Socket, SocketLaws}
use mcu_sdk.Net.Http.{
  http_status, is_code, body_offset, recv_loop, recv_all, exchange, manifest_of_response,
  fetch_manifest, send_request, get_text,
}

abbrev pub gap : Bytes
gap = codes "\r\n\r\n"

-- A text split at its first empty line, before `i`.
Splits : Bytes → ℕ → Type 0
Splits t i =
    (head : Bytes) × (t ≡ head ++ (gap ++ drop i t))
    × (4 ≤ i)
    × ((other after : Bytes) → t ≡ other ++ (gap ++ after) → length head ≤ length other)

at_front : (t rest : Bytes) (i : ℕ) → t ≡ gap ++ rest → i ≡ 4 → Splits t i
unfolding Splits
at_front t rest i e f = ([], (rw (f, e) refl), omega arith, λ other after k. omega arith)

later :
    (c : ℕ) (s head : Bytes)
    → strip gap (c ∷ s) ≡ none
    → ((other after : Bytes) → s ≡ other ++ (gap ++ after) → length head ≤ length other)
    → (other after : Bytes) → c ∷ s ≡ other ++ (gap ++ after)
    → length (c ∷ head) ≤ length other
later c s head none_here h [] after e =
    absurd
      (let found : strip gap (c ∷ s) ≡ some after = ap (strip gap) e ∙ strip-append gap after in cc)
later c s head none_here h (d ∷ other) after e = omega (arith, h other after (ap (drop 1) e))

further :
    (c : ℕ) (s : Bytes) (i j : ℕ)
    → strip gap (c ∷ s) ≡ none
    → i ≡ suc j
    → Splits s j
    → Splits (c ∷ s) i
unfolding Splits
further c s i j none_here e (head, f, h, first) =
    (c ∷ head, rw (e) (ap (λ t. c ∷ t) f), omega arith, later c s head none_here first)

body_offset_lem : (s : Bytes) (i : ℕ) → body_offset s ≡ some i → Splits s i
unfolding body_offset
body_offset_lem [] i h = ground arith
body_offset_lem (c ∷ s) i h = elim (Option-cases (strip gap (c ∷ s))) [
  | inl nothing ↦
      let (j, e, k) =
        elim-eq-some (body_offset s) (λ j. some (j + 1)) (rw (nothing, body_offset) at h) in
      further c s i j nothing (ground arith) (body_offset_lem s j e)
  | inr (rest, e) ↦
      let four : some 4 ≡ some i = rw (e, body_offset) at h in
      at_front (c ∷ s) rest i (strip_sound gap (c ∷ s) rest e) (ground arith)
]

-- A response with the code 200, whose body behind its first empty line is `buf`: the three bytes at
-- the place of the code have the value of 200 as digits.
unfoldable pub IsResponse : Bytes → Bytes → Type 0
IsResponse resp buf =
    (12 ≤ length resp)
    × ((after : Bytes) × (resp ≡ codes "HTTP/1." ++ after))
    × (get_or resp 9 0 * 100 + get_or resp 10 0 * 10 + get_or resp 11 0
        ≡ b'0' * 100 + b'0' * 10 + b'0' + 200)
    × ((head : Bytes) × (resp ≡ head ++ (gap ++ buf))
        × ((other after : Bytes) → resp ≡ other ++ (gap ++ after) → length head ≤ length other))

http_status_200 :
    (resp : Bytes)
    → is_code 200 (http_status resp) ≡ true
    → (12 ≤ length resp)
      × ((after : Bytes) × (resp ≡ codes "HTTP/1." ++ after))
      × (get_or resp 9 0 * 100 + get_or resp 10 0 * 10 + get_or resp 11 0
          ≡ b'0' * 100 + b'0' * 10 + b'0' + 200)
unfolding http_status is_code
http_status_200 resp h =
    let digits = get_or resp 9 0 * 100 + get_or resp 10 0 * 10 + get_or resp 11 0 in
    elim (Bool-cases (ltb (length resp) 12)) [
      | inl short ↦ absurd (let no : false ≡ true = rw (short) at h in cc)
      | inr long ↦ elim (Option-cases (strip (codes "HTTP/1.") resp)) [
        | inl other ↦ absurd (let no : false ≡ true = rw (long, other) at h in cc)
        | inr (after, e) ↦ elim (Bool-cases (leb 5328 digits)) [
          | inl big ↦
              let is : (digits - 5328 == 200) ≡ true = rw (long, e, big) at h in
              (ground arith, (after, strip_sound (codes "HTTP/1.") resp after e), ground arith)
          | inr small ↦ absurd (let no : false ≡ true = rw (long, e, small) at h in cc)
        ]
      ]
    ]

manifest_of_response_lem :
    {D : Type 0} (sock : Socket D) (conf : Provisioning) (resp buf : Bytes)
    → manifest_of_response sock conf resp ≡ some buf
    → (0 < length buf) × IsResponse resp buf
unfolding manifest_of_response IsResponse Splits
manifest_of_response_lem sock conf resp buf h = elim (Bool-cases (is_code 204 (http_status resp))) [
  | inl empty ↦ absurd (let e : none ≡ some buf = rw (empty) at h in cc)
  | inr full ↦ elim (Bool-cases (is_code 200 (http_status resp))) [
    | inr bad ↦ absurd (let e : none ≡ some buf = rw (full, bad) at h in cc)
    | inl good ↦
        let (off, e, k) = elim-eq-some (body_offset resp) _ (rw (full, good) at h) in
        let (head, split, far, first) = body_offset_lem resp off e in
        elim (Bool-cases (length (drop off resp) == 0)) [
          | inl bare ↦ absurd (let e : none ≡ some buf = rw (bare) at k in cc)
          | inr some_body ↦
              let same : buf ≡ drop off resp =
                (let e : some (drop off resp) ≡ some buf = rw (some_body) at k in cc) in
              let (long, begins, digits) = http_status_200 resp good in
              (
                ground (arith, ap length same),
                (
                  long,
                  begins,
                  digits,
                  (head, subst (λ x. resp ≡ head ++ (gap ++ x)) (sym same) split, first),
                ),
              )
        ]
  ]
]

body_short : (resp buf : Bytes) → IsResponse resp buf → length buf + 4 ≤ length resp
unfolding IsResponse
body_short resp buf (long, begins, digits, (head, split, first)) =
    omega (arith, ap length split, length-append head (gap ++ buf))

module _ {D : Type 0} (sock : Socket D) (laws : SocketLaws sock) where
  -- A response that was received fits `cap` bytes with its NUL.
  Fits : ℕ → Option Bytes × D → Type 0
  Fits cap (none, d) = Unit
  Fits cap (some resp, d) = length resp ≤ cap - 1

  received :
      (cap : ℕ) (buf : Bytes) (next : Bytes → D → Option Bytes × D)
      → ((buf' : Bytes) (d : D) → length buf' ≤ cap - 1 → Fits cap (next buf' d))
      → length buf ≤ cap - 1
      → (o : Option Bytes) (d : D) → ((s : Bytes) → o ≡ some s → length s ≤ cap - 1 - length buf)
      → Fits cap (elim o as (λ x. Option Bytes × D) [
        | none ↦ (none, d)
        | some s ↦ (let rest = next (buf ++ s) d in if length s == 0 then (some buf, d) else rest)
      ])
  unfolding Fits
  received cap buf next ih h none d k = tt
  received cap buf next ih h (some s) d k =
      let room_left = k s refl in
      by_if (Fits cap) (length s == 0) _ _ (λ end. h)
        (λ more. ih (buf ++ s) d (omega (arith, length-append buf s)))

  recv_loop-Fits :
      (fuel cap : ℕ) (buf : Bytes) (d : D)
      → length buf ≤ cap - 1
      → Fits cap (recv_loop sock fuel cap buf d)
  unfolding recv_loop Fits
  recv_loop-Fits zero cap buf d h = h
  recv_loop-Fits (suc fuel) cap buf d h =
      let r = sock.recv (cap - 1 - length buf) d in
      by_if (Fits cap) (ltb (length buf) (cap - 1)) _ _
        (λ more.
          received cap buf (recv_loop sock fuel cap) (recv_loop-Fits fuel cap) h r.0 r.1
            (laws.recv_fits (cap - 1 - length buf) d))
        (λ full. h)

  exchange-Fits :
      (port req_cap : ℕ) (request : Bytes) (cap : ℕ) (d : D)
      → Fits cap (exchange sock port req_cap request cap d)
  unfolding exchange recv_all Fits
  exchange-Fits port req_cap request cap d =
      let d1 = sock.connect port d in
      let d2 = send_request sock req_cap request d1.1 in
      by_if (Fits cap) (not d1.0) _ _ (λ down. tt)
        (λ up.
          by_if (Fits cap) (not d2.0) _ _ (λ unsent. tt)
            (λ sent.
              closed (recv_loop sock cap cap [] d2.1)
                (recv_loop-Fits cap cap [] d2.1 (omega arith))))
    where
      closed : (r : Option Bytes × D) → Fits cap r → Fits cap (r.0, sock.close r.1)
      closed (none, d3) k = tt
      closed (some resp, d3) k = k

  pub fetch_manifest-short :
      (conf : Provisioning) (cap : ℕ) (d : D) (buf : Bytes)
      → (fetch_manifest sock conf cap d).0 ≡ some buf
      → length buf < cap
  unfolding fetch_manifest Fits
  fetch_manifest-short conf cap d buf h =
      let request = get_text sock conf (codes "/device/manifest") in
      short (exchange sock conf.artifact_port 256 request cap d)
        (exchange-Fits conf.artifact_port 256 request cap d) h
    where
      short :
          (r : Option Bytes × D)
          → Fits cap r
          → (elim r.0 as (λ x. Option Bytes × D) [
            | none ↦ (none, r.1)
            | some bytes ↦ (manifest_of_response sock conf bytes, r.1)
          ]).0
            ≡ some buf
          → length buf < cap
      short (none, d') k e = absurd cc
      short (some resp, d') k e =
          let (full, is) = manifest_of_response_lem sock conf resp buf e in
          omega (arith, k, body_short resp buf is)

  -- The bytes that a connection still brings: a receive takes some from their front.
  module _ (incoming : D → Bytes)
      (delivers : (n : ℕ) (d : D) (s : Bytes)
        → (sock.recv n d).0 ≡ some s
        → incoming d ≡ s ++ incoming (sock.recv n d).1) where
    -- What was received behind `buf` is the front of what was to come at `d`.
    IsFront : Bytes → D → Option Bytes × D → Type 0
    IsFront buf d (none, d') = Unit
    IsFront buf d (some resp, d') =
        (s : Bytes) × (resp ≡ buf ++ s) × ((rest : Bytes) × (incoming d ≡ s ++ rest))

    -- The device behind the request.
    abbrev pub asked : Provisioning → D → D
    asked conf d =
        (send_request sock 256 (get_text sock conf (codes "/device/manifest"))
          (sock.connect conf.artifact_port d).1).1
