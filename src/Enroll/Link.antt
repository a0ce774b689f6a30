-- ===== src/Enroll/Link.antt =====
-- What meshanics_enroll of lib/provision/enroll.c stands on: device_id, gen_key_csr, https and the
-- credential calls, as an implementation of the interface `Edge`. PSA, mbedTLS and Zephyr are
-- parameters.
use mcu_sdk.Base.{
  ℕ, zero, suc, ◌-◌, Bool, true, false, not, Option, none, some, Bytes, [], ◌∷◌, ◌++◌, length, take,
  drop, codes, leb, ◌==◌, if◌then◌else◌,
}
use mcu_sdk.Provision.{Provisioning}
use mcu_sdk.Base.Hex.{hex_loop}
use mcu_sdk.Store.Identity.{key_cap}
use mcu_sdk.Net.Tls.{
  CredentialType, ca_certificate, public_certificate, private_key, tls_sec_tag_list, tls_hostname,
  tls_peer_verify_required, so_rcvtimeo, Zsock,
}
use mcu_sdk.Enroll.{Edge}

-- CLAIM_CA_TAG, MTLS_TAG, sizeof(csr) and sizeof(resp)
abbrev pub claim_ca_tag : ℕ
claim_ca_tag = 0x20

abbrev pub mtls_tag : ℕ
mtls_tag = 0x21

abbrev pub csr_cap : ℕ
csr_cap = 1024

abbrev pub resp_cap : ℕ
resp_cap = 4096

-- PSA and mbedTLS. A flag is `true` for a result of 0.
pub record KeyTools (D : Type 0) : Type 1 where
  pub Pk : Type 0
  pub psa_crypto_init : D → Bool × D
  -- an exportable P-256 key that signs hashes; its identifier
  pub psa_generate_key : D → Option ℕ × D
  pub pk_copy_from_psa : ℕ → D → Option Pk × D
  pub set_subject_name : Bytes → D → Bool × D
  -- for a buffer of so many bytes
  pub write_csr_pem : Pk → ℕ → D → Option Bytes × D
  pub write_key_pem : Pk → ℕ → D → Option Bytes × D
  pub psa_destroy_key : ℕ → D → D

-- The credential store, and the hardware id of up to so many bytes.
pub record Credentials (D : Type 0) : Type 0 where
  pub add : ℕ → CredentialType → Bytes → D → Bool × D
  pub delete : ℕ → CredentialType → D → D
  pub get_device_id : ℕ → D → Option Bytes

module _ {D : Type 0} (k : KeyTools D) where
  -- gen_key_csr with the key in PSA, up to its label `out`.
  unfoldable pub export_key : ℕ → Bytes → D → Option (Bytes × Bytes) × D
  export_key kid cn d =
      let (copied, d1) = k.pk_copy_from_psa kid d in
      elim copied [
        | none ↦ (none, d1)
        | some key ↦
            (let (named, d2) = k.set_subject_name (take 95 (codes "CN=" ++ cn)) d1 in
              let (csr, d3) = k.write_csr_pem key csr_cap d2 in
              if not named then (none, d2) else elim csr as (λ x. Option (Bytes × Bytes) × D) [
                | none ↦ (none, d3)
                | some csr_pem ↦
                    (let (pem, d4) = k.write_key_pem key key_cap d3 in
                      elim pem as (λ x. Option (Bytes × Bytes) × D) [
                        | none ↦ (none, d4)
                        | some key_pem ↦ (some (csr_pem, key_pem), d4)
                      ])
              ])
      ]

  unfoldable pub gen_key_csr : Bytes → D → Option (Bytes × Bytes) × D
  unfolding export_key
  gen_key_csr cn d =
      let (ready, d1) = k.psa_crypto_init d in
      let (made, d2) = k.psa_generate_key d1 in
      if not ready then (none, d1) else elim made as (λ x. Option (Bytes × Bytes) × D) [
        | none ↦ (none, d2)
        | some kid ↦ (let (out, d3) = export_key kid cn d2 in (out, k.psa_destroy_key kid d3))
      ]

module _ {D : Type 0} (z : Zsock D) where
  unfoldable pub set_https_options : ℕ → Bytes → D → D
  set_https_options tag host d =
      let d1 = z.zsock_setsockopt (tls_sec_tag_list (tag ∷ [])) d in
      let d2 = z.zsock_setsockopt (tls_hostname host) d1 in
      let d3 = z.zsock_setsockopt tls_peer_verify_required d2 in
      z.zsock_setsockopt (so_rcvtimeo 20) d3

  -- The loop that sends a request; every round that goes on has sent a byte.
  unfoldable pub send_loop : ℕ → Bytes → D → Bool × D
  send_loop zero s d = (length s == 0, d)
  send_loop (suc fuel) s d =
      let (n, d1) = z.zsock_send_some s d in
      let rest = send_loop fuel (drop n s) d1 in
      if length s == 0 then (true, d) else if n == 0 then (false, d1) else rest

  -- The loop that receives a response with `buf` received; an error ends it like the end.
  unfoldable pub receive_loop : ℕ → ℕ → Bytes → D → Bytes × D
  receive_loop zero cap buf d = (buf, d)
  receive_loop (suc fuel) cap buf d =
      let (got, d1) = z.zsock_recv (cap - 1 - length buf) d in
      elim got as (λ x. Bytes × D) [
        | none ↦ (buf, d1)
        | some s ↦
            (let rest = receive_loop fuel cap (buf ++ s) d1 in
              if length s == 0
              then (buf, d1)
              else if leb (cap - 1) (length (buf ++ s))
              then (buf ++ s, d1)
              else rest)
      ]

  -- On an open socket.
  unfoldable pub converse : Bytes → ℕ → D → Option Bytes × D
  unfolding send_loop receive_loop
  converse request cap d =
      let (sent, d1) = send_loop (length request) request d in
      if not sent
      then (none, z.zsock_close d1)
      else (let (resp, d2) = receive_loop cap cap [] d1 in (some resp, z.zsock_close d2))

  unfoldable pub https : ℕ → Bytes → Bytes → ℕ → Bytes → ℕ → D → Option Bytes × D
  unfolding set_https_options converse
  https tag host ip port request cap d =
      let (made, d1) = z.zsock_socket d in
      let (up, d2) = z.zsock_connect ip port (set_https_options tag host d1) in
      if not made
      then (none, d1)
      else if not up
      then (none, z.zsock_close d2)
      else converse request cap d2

module _ {D : Type 0} (creds : Credentials D) where
  -- For `char id[40]`.
  unfoldable pub device_id : D → Bytes
  unfolding hex_loop
  device_id d =
      codes "esp32-"
      ++ elim (creds.get_device_id 8 d) as (λ x. Bytes) [ none ↦ [] | some id ↦ hex_loop 40 6 id ]

  module _ (prov : Provisioning) where
    unfoldable pub add_claim_ca : D → Bool × D
    add_claim_ca d = creds.add claim_ca_tag ca_certificate (prov.claim_ca ++ (0 ∷ [])) d

    -- The three calls of one condition.
    unfoldable pub add_identity : Bytes → Bytes → D → Bool × D
    add_identity cert key d =
        let (a, d1) = creds.add mtls_tag ca_certificate (prov.server_ca ++ (0 ∷ [])) d in
        let (b, d2) = creds.add mtls_tag public_certificate (cert ++ (0 ∷ [])) d1 in
        let (c, d3) = creds.add mtls_tag private_key (key ++ (0 ∷ [])) d2 in
        if not a then (false, d1) else if not b then (false, d2) else (c, d3)

    unfoldable pub delete_credentials : D → D
    delete_credentials d =
        let d1 = creds.delete claim_ca_tag ca_certificate d in
        let d2 = creds.delete mtls_tag ca_certificate d1 in
        let d3 = creds.delete mtls_tag public_certificate d2 in creds.delete mtls_tag private_key d3

    -- What meshanics_enroll uses. The claim goes to the public edge, and the key is fetched over
    -- mutual TLS.
    abbrev pub link : KeyTools D → Zsock D → Edge D
    link k z = record {
      device_id = device_id;
      gen_key_csr = gen_key_csr k;
      add_claim_ca = add_claim_ca;
      add_identity = add_identity;
      delete_credentials = delete_credentials;
      https = λ mutual_tls request d.
          if mutual_tls
          then https z mtls_tag prov.server_host prov.server_ip prov.artifact_port request resp_cap
              d
          else https z claim_ca_tag prov.claim_host prov.claim_ip prov.claim_port request resp_cap
              d;
    }
