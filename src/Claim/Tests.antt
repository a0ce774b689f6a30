-- ===== src/Claim/Tests.antt =====
-- The cases of lib/provision/test/claim_proto_test.c, and the theorems at concrete inputs.
use mcu_sdk.Base.{ℕ, ◌+◌, ◌≡◌, refl, arith, Bytes, [], ◌∷◌, codes, some, none, room}
use mcu_sdk.Claim.Json.{claim_build_request, json_extract_string}
use mcu_sdk.Claim.Json.RoundTrip.{json_extract_string-claim_build_request}
use mcu_sdk.Claim.Pem.{claim_ed25519_pub_from_pem, b64val}
use mcu_sdk.Claim.Pem.Base64.{b64char}
use mcu_sdk.Claim.Pem.RoundTrip.{significant, claim_ed25519_pub_from_pem-base64}

abbrev csr : Bytes
csr = codes "-----BEGIN CERTIFICATE REQUEST-----\nMIIBezCCASEC\n-----END CERTIFICATE REQUEST-----\n"

-- A token that looks like a key.
abbrev token : Bytes
token = codes "x\",\"device_id\":\"y"

abbrev body : Bytes
body =
    codes
      "{\"claim_token\":\"x\\\",\\\"device_id\\\":\\\"y\",\"device_id\":\"esp32-aabb\",\"csr_pem\":\"-----BEGIN CERTIFICATE REQUEST-----\\nMIIBezCCASEC\\n-----END CERTIFICATE REQUEST-----\\n\"}"

builds :
    claim_build_request (some token) (some (codes "esp32-aabb")) (some csr) (room 1024) ≡ some body
unfolding claim_build_request
builds = refl

too_small : claim_build_request (some (codes "t")) (some (codes "d")) (some csr) (room 10) ≡ none
unfolding claim_build_request
too_small = refl

abbrev tricky : Bytes
tricky = codes "{\"x\":\"key_id is not a key here\",\"key_id\" : \"real\"}"

keys_only :
    json_extract_string (some tricky) (some (codes "key_id")) (room 64) ≡ some (codes "real")
unfolding json_extract_string
keys_only = refl

missing : json_extract_string (some tricky) (some (codes "nope")) (room 64) ≡ none
unfolding json_extract_string
missing = refl

json_extract_string-claim_build_request_example :
    (json_extract_string (some body) (some (codes "claim_token")) (room 200) ≡ some token)
    × (json_extract_string (some body) (some (codes "device_id")) (room 200)
        ≡ some (codes "esp32-aabb"))
    × (json_extract_string (some body) (some (codes "csr_pem")) (room 200) ≡ some csr)
json_extract_string-claim_build_request_example =
    json_extract_string-claim_build_request token (codes "esp32-aabb") csr body 1024 200 builds
      (omega arith) (omega arith)

abbrev count_up : ℕ → ℕ → Bytes
count_up ℕ.zero i = []
count_up (ℕ.suc n) i = i ∷ count_up n (i + 1)

claim_ed25519_pub_from_pem-base64_example :
    claim_ed25519_pub_from_pem (
      some (
        codes
          "-----BEGIN PUBLIC KEY-----\nMCowBQYDK2VwAyEAAAECAwQF\nBgcICQoLDA0ODxAREhMUFRYXGBkaGxwdHh8=\n-----END PUBLIC KEY-----\n"))
    ≡ some (count_up 32 0)
unfolding significant b64val b64char
claim_ed25519_pub_from_pem-base64_example =
    claim_ed25519_pub_from_pem-base64 (codes " PUBLIC KEY-----")
      (codes "MCowBQYDK2VwAyEAAAECAwQF\nBgcICQoLDA0ODxAREhMUFRYXGBkaGxwdHh8=\n")
      (codes " PUBLIC KEY-----\n") (count_up 32 0) (omega arith) (omega arith) (omega arith)
      (omega arith) refl

not_pem : claim_ed25519_pub_from_pem (some (codes "not a pem at all")) ≡ none
unfolding claim_ed25519_pub_from_pem
not_pem = refl
