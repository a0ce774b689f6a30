-- ===== src/Enroll/Sound.antt =====
-- An identity that enrolment hands on fits the arrays of meshanics_identity, whatever the control
-- plane answers.
use mcu_sdk.Base.{
  by_if, ℕ, ◌+◌, ◌<◌, ◌≡◌, refl, ap, subst, arith, Bool, true, false, not, Bool-cases, inl, inr,
  Option, none, some, Bytes, [], ◌∷◌, ◌++◌, length, drop, take, length-append, length-drop, codes,
  leb, leb→lt, ◌==◌, ◌||◌, bytes_eq, if◌then◌else◌, room, elim-eq-some,
}
use mcu_sdk.Provision.{Provisioning}
use mcu_sdk.Claim.Json.{◌>>=◌, json_extract_string, extract_loop, find_value_start, unescape}
use mcu_sdk.Claim.Pem.{split_at, next_line, decode_loop, spki_prefix, claim_ed25519_pub_from_pem}
use mcu_sdk.Store.Identity.{Identity}
use mcu_sdk.Enroll.{
  Edge, body_with, extract, https_retry, cert_of, identity_with, identity_of, key_text, fetch_key,
  key_text, claim, claim_request, meshanics_enroll,
}

-- What is written with room for its NUL.
FitsIn : ℕ → Option Bytes → Type 0
FitsIn cap none = Unit
FitsIn cap (some v) = length v < cap

extract_loop-FitsIn :
    (cap : ℕ) (out s : Bytes) → length out < cap → FitsIn cap (extract_loop cap out s)
unfolding extract_loop FitsIn
extract_loop-FitsIn cap out [] h = tt
extract_loop-FitsIn cap out (b ∷ []) h = by_if (FitsIn cap) (b == b'"') _ _ (λ q. h) (λ _. tt)
extract_loop-FitsIn cap out (b ∷ c ∷ s) h =
    by_if (FitsIn cap) (b == b'"') _ _ (λ q. h)
      (λ _.
        by_if (FitsIn cap) (leb cap (length out + 1)) _ _ (λ full. tt)
          (λ free.
            by_if (FitsIn cap) (b == b'\\') _ _
              (λ esc.
                extract_loop-FitsIn cap (out ++ (unescape c ∷ [])) s
                  (omega (arith, leb→lt _ _ free, length-append out (unescape c ∷ []))))
              (λ plain.
                extract_loop-FitsIn cap (out ++ (b ∷ [])) (c ∷ s)
                  (omega (arith, leb→lt _ _ free, length-append out (b ∷ []))))))

json_extract-FitsIn :
    (cap : ℕ) (body field : Bytes)
    → 0 < cap
    → FitsIn cap (json_extract_string (some body) (some field) (room cap))
unfolding json_extract_string FitsIn
json_extract-FitsIn cap body field h =
    by_if (FitsIn cap) (cap == 0) _ _ (λ _. tt) (λ _. found (find_value_start body field))
  where
    found : (o : Option Bytes) → FitsIn cap (o >>= λ v. extract_loop cap [] v)
    found none = tt
    found (some v) = extract_loop-FitsIn cap [] v h

extract_lem :
    (body field : Bytes) (cap : ℕ) (v : Bytes)
    → 0 < cap
    → extract body field cap ≡ some v
    → (0 < length v) × (length v < cap)
unfolding extract FitsIn
extract_lem body field cap v h e =
    let (w, e1, k) = elim-eq-some (json_extract_string (some body) (some field) (room cap)) _ e in
    elim (Bool-cases (length w == 0)) [
      | inl bare ↦ absurd (let n : none ≡ some v = rw (bare) at k in cc)
      | inr full ↦
          let same : v ≡ w = (let n : some w ≡ some v = rw (full) at k in cc) in
          let fits : FitsIn cap (some w) =
            subst (FitsIn cap) e1 (json_extract-FitsIn cap body field h) in
          sized v w cap same full fits
    ]
  where
    sized :
        (v w : Bytes) (cap : ℕ)
        → v ≡ w
        → (length w == 0) ≡ false
        → FitsIn cap (some w)
        → (0 < length v) × (length v < cap)
    sized v w cap same full fits = ground (arith, ap length same)

>>=-eq-some :
    {A B : Type 0} (m : Option A) (f : A → Option B) {y : B}
    → (m >>= f) ≡ some y
    → (x : A) × (m ≡ some x) × (f x ≡ some y)
>>=-eq-some none f h = cc
>>=-eq-some (some x) f h = (x, refl, h)

pem_length : (pem k : Bytes) → claim_ed25519_pub_from_pem (some pem) ≡ some k → length k ≡ 32
unfolding claim_ed25519_pub_from_pem
pem_length pem k h =
    let (s, e1, h1) = >>=-eq-some (split_at (codes "-----BEGIN") pem) _ h in
    let (b, e2, h2) = >>=-eq-some (next_line s.1) _ h1 in
    let (t, e3, h3) = >>=-eq-some (split_at (codes "-----END") b) _ h2 in
    let (der, e4, h4) = >>=-eq-some (decode_loop 0 0 [] t.0) _ h3 in
    elim (Bool-cases (not (length der == 44) || not (bytes_eq (take 12 der) spki_prefix))) [
      | inl bad ↦ absurd (let n : none ≡ some k = rw (bad) at h4 in cc)
      | inr good ↦
          let same : k ≡ drop 12 der =
            (let n : some (drop 12 der) ≡ some k = rw (good) at h4 in cc) in
          ground (arith, ap length same, length-drop 12 der)
    ]

-- Each string fits its array and has a byte, and the key has its 32 bytes.
pub IsStorable : Identity → Type 0
IsStorable i =
    ((0 < length i.device_cert_pem) × (length i.device_cert_pem < 1024))
    × ((0 < length i.key_id) × (length i.key_id < 80))
    × (length i.manifest_pub ≡ 32)

module _ {D : Type 0} (edge : Edge D) (prov : Provisioning) where
  cert_lem :
      (resp : Option Bytes) (cert : Bytes)
      → cert_of edge prov resp ≡ some cert
      → (0 < length cert) × (length cert < 1024)
  unfolding cert_of
  cert_lem resp cert h =
      let (body, e, k) = elim-eq-some (body_with 201 resp) _ h in
      extract_lem body (codes "device_cert_pem") 1024 cert (omega arith) k

  identity_lem :
      (cert key : Bytes) (resp : Option Bytes) (i : Identity)
      → (0 < length cert) × (length cert < 1024)
      → identity_of edge prov cert key resp ≡ some i
      → IsStorable i
  unfolding identity_of identity_with IsStorable
  identity_lem cert key resp i c h =
      let (body, e0, h0) = elim-eq-some (body_with 200 resp) _ h in
      let (key_id, e1, h1) = elim-eq-some (extract body (codes "key_id") 80) _ h0 in
      let (pem, e2, h2) = elim-eq-some (extract body (codes "public_key_pem") 256) _ h1 in
      let (public, e3, h3) = elim-eq-some (claim_ed25519_pub_from_pem (some pem)) _ h2 in
      let same : i ≡ (record {
        device_cert_pem = cert;
        device_key_pem = key;
        manifest_pub = public;
        key_id = key_id;
      }) =
        cc in
      rw (same)
        (c, extract_lem body (codes "key_id") 80 key_id (omega arith) e1, pem_length pem public e3)

  Sound : Option Identity × D → Type 0
  Sound (none, d) = Unit
  Sound (some i, d) = IsStorable i

  Sound-if : (t : Bool) (x y : Option Identity × D) → Sound x → Sound y → Sound (if t then x else y)
  Sound-if true x y h k = h
  Sound-if false x y h k = k

  fetch_key-Sound :
      (cert key : Bytes) (d : D)
      → (0 < length cert) × (length cert < 1024)
      → Sound (fetch_key edge prov cert key d)
  unfolding fetch_key Sound
  fetch_key-Sound cert key d c =
      let d1 = edge.add_identity cert key d in
      let r = https_retry edge true (key_text edge prov) d1.1 in
      Sound-if (not d1.0) _ _ tt
        (found (identity_of edge prov cert key r.0) r.1 (λ i. identity_lem cert key r.0 i c))
    where
      found :
          (o : Option Identity) (d2 : D)
          → ((i : Identity) → o ≡ some i → IsStorable i)
          → Sound (elim o as (λ x. Option Identity × D) [
            | none ↦ (none, d2)
            | some i ↦ (some i, edge.delete_credentials d2)
          ])
      found none d2 k = tt
      found (some i) d2 k = k i refl

  claim-Sound : (id csr key : Bytes) (d : D) → Sound (claim edge prov id csr key d)
  unfolding claim Sound
  claim-Sound id csr key d =
      let d1 = edge.add_claim_ca d in
      Sound-if (not d1.0) _ _ tt (asked (claim_request edge prov id csr) d1.1)
    where
      answered :
          (o : Option Bytes) (d2 : D)
          → ((cert : Bytes) → o ≡ some cert → (0 < length cert) × (length cert < 1024))
          → Sound (elim o as (λ x. Option Identity × D) [
            | none ↦ (none, d2)
            | some cert ↦ fetch_key edge prov cert key d2
          ])
      answered none d2 k = tt
      answered (some cert) d2 k = fetch_key-Sound cert key d2 (k cert refl)

      asked :
          (o : Option Bytes) (d1 : D)
          → Sound (elim o as (λ x. Option Identity × D) [
            | none ↦ (none, d1)
            | some request ↦
                (let (resp, d2) = https_retry edge false request d1 in
                  elim (cert_of edge prov resp) [
                    | none ↦ (none, d2)
                    | some cert ↦ fetch_key edge prov cert key d2
                  ])
          ])
      asked none d1 = tt
      asked (some request) d1 =
          let r = https_retry edge false request d1 in
          answered (cert_of edge prov r.0) r.1 (λ cert. cert_lem r.0 cert)

  enrolled :
      (made : Option (Bytes × Bytes)) (id : Bytes) (d1 : D)
      → Sound (elim made as (λ x. Option Identity × D) [
        | none ↦ (none, d1)
        | some (csr, key) ↦ claim edge prov id csr key d1
      ])
  unfolding Sound
  enrolled none id d1 = tt
  enrolled (some (csr, key)) id d1 = claim-Sound id csr key d1

  -- Whatever the control plane answers: an identity that enrolment returns has a certificate and a
  -- key id of at least one byte that fit their arrays with a NUL, and a manifest key of 32 bytes.
  pub meshanics_enroll-IsStorable :
      (d : D) (i : Identity) → (meshanics_enroll edge prov d).0 ≡ some i → IsStorable i
  unfolding meshanics_enroll Sound
  meshanics_enroll-IsStorable d i h =
      let made = edge.gen_key_csr (edge.device_id d) d in
      out
        (elim made.0 as (λ x. Option Identity × D) [
          | none ↦ (none, made.1)
          | some (csr, key) ↦ claim edge prov (edge.device_id d) csr key made.1
        ])
        (enrolled made.0 (edge.device_id d) made.1) h
    where
      out : (r : Option Identity × D) → Sound r → r.0 ≡ some i → IsStorable i
      out (none, d') k e = absurd cc
      out (some j, d') k e = let same : j ≡ i = cc in subst IsStorable same k
