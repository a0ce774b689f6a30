-- ===== src/Enroll.antt =====
-- https_retry, http_body and meshanics_enroll of lib/provision/enroll.c. The key generation, the
-- credentials and one HTTPS exchange are the interface `Edge`, which Enroll/Link.antt implements;
-- logging and waiting are left out.
pub mod Sound
pub mod Link
pub mod Keeps
pub mod Even
pub mod Fits
mod Tests
use mcu_sdk.Base.{
  ℕ, zero, suc, ◌+◌, ◌-◌, ◌*◌, ◌≤◌, Bool, true, false, not, ◌&&◌, ◌||◌, Option, none, some, Bytes,
  [], ◌∷◌, ◌++◌, length, drop, codes, strip, ltb, leb, ◌==◌, if◌then◌else◌, room, c_string,
}
use mcu_sdk.Provision.{Provisioning}
use mcu_sdk.Base.Decimal.{decimal}
use mcu_sdk.Claim.Json.{claim_build_request, json_extract_string}
use mcu_sdk.Claim.Pem.{claim_ed25519_pub_from_pem}
use mcu_sdk.Store.Identity.{Identity}

-- On a device with the states `D`; a flag is `true` for a result of 0.
pub record Edge (D : Type 0) : Type 0 where
  pub device_id : D → Bytes
  -- the request for a certificate and the private key, as PEM strings
  pub gen_key_csr : Bytes → D → Option (Bytes × Bytes) × D
  pub add_claim_ca : D → Bool × D
  -- the server's CA, the certificate and the key, for mutual TLS
  pub add_identity : Bytes → Bytes → D → Bool × D
  pub delete_credentials : D → D
  -- a response of 0 bytes or more for a request, with or without the client's certificate
  pub https : Bool → Bytes → D → Option Bytes × D

is_space : ℕ → Bool
is_space c = c == b' ' || (leb 9 c && leb c 13)

-- The digits that atoi reads; a value that an int cannot hold is undefined in C.
atoi_digits : ℕ → Bytes → ℕ
atoi_digits v [] = v
atoi_digits v (c ∷ s) =
    let more = atoi_digits (v * 10 + (c - b'0')) s in if leb b'0' c && leb c b'9' then more else v

-- atoi, where a minus sign gives 0: no code that is looked for is negative.
unfoldable pub atoi : Bytes → ℕ
unfolding is_space atoi_digits
atoi [] = 0
atoi (c ∷ s) =
    let more = atoi s in
    if is_space c
    then more
    else if c == b'+'
    then atoi_digits 0 s
    else if c == b'-'
    then 0
    else atoi_digits 0 (c ∷ s)

-- strstr for the empty line: what stands behind it.
unfoldable pub behind_gap : Bytes → Option Bytes
behind_gap [] = none
behind_gap (c ∷ s) =
    let more = behind_gap s in
    elim (strip (codes "\r\n\r\n") (c ∷ s)) [ none ↦ more | some b ↦ some b ]

unfoldable pub status_of : Bytes → ℕ
unfolding atoi
status_of resp = elim (strip (codes "HTTP/1.") resp) [ none ↦ 0 | some rest ↦ atoi (drop 9 resp) ]

-- The body and the status code of a response, which is a C string.
unfoldable pub http_body : Bytes → Option Bytes × ℕ
unfolding behind_gap status_of
http_body resp = (behind_gap resp, status_of resp)

-- The body of a response of at least one byte with this code.
unfoldable pub body_with : ℕ → Option Bytes → Option Bytes
unfolding http_body
body_with code none = none
body_with code (some resp) =
    let (body, status) = http_body (c_string resp) in
    if length resp == 0 then none else if status == code then body else none

-- A value of at least one byte.
unfoldable pub extract : Bytes → Bytes → ℕ → Option Bytes
extract body field cap = elim (json_extract_string (some body) (some field) (room cap)) [
  | none ↦ none
  | some v ↦ if length v == 0 then none else some v
]

module _ {D : Type 0} (edge : Edge D) where
  unfoldable pub retry_loop : ℕ → Bool → Bytes → D → Option Bytes × D
  retry_loop zero mutual_tls request d = (none, d)
  retry_loop (suc attempts) mutual_tls request d =
      let (resp, d') = edge.https mutual_tls request d in
      elim resp [ none ↦ retry_loop attempts mutual_tls request d' | some bytes ↦ (some bytes, d') ]

  unfoldable pub https_retry : Bool → Bytes → D → Option Bytes × D
  unfolding retry_loop
  https_retry mutual_tls request d = retry_loop 20 mutual_tls request d

  module _ (prov : Provisioning) where
    unfoldable pub claim_text : Bytes → Bytes
    claim_text body =
        codes "POST /api/v1/provision/claim HTTP/1.1\r\nHost: "
        ++ (prov.claim_host
            ++ (codes "\r\nContent-Type: application/json\r\nContent-Length: "
                ++ (decimal (length body) ++ (codes "\r\nConnection: close\r\n\r\n" ++ body))))

    unfoldable pub key_text : Bytes
    key_text =
        codes "GET /device/manifest-key HTTP/1.1\r\nHost: "
        ++ (prov.server_host ++ codes "\r\nConnection: close\r\n\r\n")

    -- The request that carries the claim, where it fits its buffers.
    unfoldable pub claim_request : Bytes → Bytes → Option Bytes
    unfolding claim_text
    claim_request id csr =
        elim (claim_build_request (some prov.claim_token) (some id) (some csr) (room 1024)) [
          | none ↦ none
          | some body ↦ if leb 2048 (length (claim_text body)) then none else some (claim_text body)
        ]

    -- The certificate out of the answer to a claim.
    unfoldable pub cert_of : Option Bytes → Option Bytes
    unfolding body_with extract
    cert_of resp = elim (body_with 201 resp) [
      | none ↦ none
      | some body ↦ extract body (codes "device_cert_pem") 1024
    ]

    -- The identity out of the answer with the manifest key.
    unfoldable pub identity_with : Bytes → Bytes → Bytes → Option Identity
    unfolding extract claim_ed25519_pub_from_pem
    identity_with cert key body = elim (extract body (codes "key_id") 80) [
      | none ↦ none
      | some key_id ↦ elim (extract body (codes "public_key_pem") 256) [
        | none ↦ none
        | some pem ↦ elim (claim_ed25519_pub_from_pem (some pem)) [
          | none ↦ none
          | some public ↦ some (record {
            device_cert_pem = cert;
            device_key_pem = key;
            manifest_pub = public;
            key_id = key_id;
          })
        ]
      ]
    ]

    unfoldable pub identity_of : Bytes → Bytes → Option Bytes → Option Identity
    unfolding body_with identity_with
    identity_of cert key resp = elim (body_with 200 resp) [
      | none ↦ none
      | some body ↦ identity_with cert key body
    ]

    -- The mutual-TLS half: the manifest key is fetched with the new certificate.
    unfoldable pub fetch_key : Bytes → Bytes → D → Option Identity × D
    unfolding identity_of https_retry key_text
    fetch_key cert key d =
        let (good, d1) = edge.add_identity cert key d in
        if not good
        then (none, d1)
        else (let (resp, d2) = https_retry true key_text d1 in
            elim (identity_of cert key resp) [
              | none ↦ (none, d2)
              | some i ↦ (some i, edge.delete_credentials d2)
            ])

    unfoldable pub claim : Bytes → Bytes → Bytes → D → Option Identity × D
    unfolding claim_request cert_of fetch_key https_retry
    claim id csr key d =
        let (good, d1) = edge.add_claim_ca d in
        if not good then (none, d1) else elim (claim_request id csr) [
          | none ↦ (none, d1)
          | some request ↦
              (let (resp, d2) = https_retry false request d1 in
                elim (cert_of resp) [ none ↦ (none, d2) | some cert ↦ fetch_key cert key d2 ])
        ]

    unfoldable pub meshanics_enroll : D → Option Identity × D
    unfolding claim
    meshanics_enroll d =
        let (made, d1) = edge.gen_key_csr (edge.device_id d) d in
        elim made [ none ↦ (none, d1) | some (csr, key) ↦ claim (edge.device_id d) csr key d1 ]
