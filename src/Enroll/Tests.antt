-- ===== src/Enroll/Tests.antt =====
-- A control plane that answers an enrolment.
use mcu_sdk.Base.{
  ◌+◌, ◌≤◌, ◌<◌, take, length-take, ap, ℕ, zero, suc, ◌-◌, [], ◌∷◌, length, arith, ◌≡◌, refl, Bool,
  true, false, Option, none, some, Bytes, ◌++◌, replicate, codes,
}
use mcu_sdk.Provision.{Provisioning}
use mcu_sdk.Base.Decimal.{decimal}
use mcu_sdk.Store.Identity.{Identity}
use mcu_sdk.Enroll.{
  Edge, meshanics_enroll, claim, claim_request, claim_text, cert_of, body_with, http_body,
  status_of, behind_gap, atoi, extract, fetch_key, identity_of, identity_with, https_retry,
  retry_loop, key_text,
}
use mcu_sdk.Claim.Json.{
  claim_build_request, json_extract_string, build_request, append_raw, append_escaped, escape,
  find_value_start, extract_loop, unescape,
}
use mcu_sdk.Claim.Pem.{
  claim_ed25519_pub_from_pem, split_at, next_line, decode_loop, push_sextet, b64val,
}
use mcu_sdk.Net.Tls.{Zsock, IsPaired}
use mcu_sdk.Enroll.Fits.{https-fits}
use mcu_sdk.Enroll.Link.{KeyTools, Credentials, link, https, converse, send_loop, receive_loop}
use mcu_sdk.Enroll.Even.{IsEven, meshanics_enroll-link}
use mcu_sdk.Enroll.Sound.{IsStorable, meshanics_enroll-IsStorable}

abbrev pem : Bytes
pem =
    codes
      "-----BEGIN PUBLIC KEY-----\\nMCowBQYDK2VwAyEAAAAAAAAAAAAAAAAAAAAAAAAAAAAAAAAAAAAAAAAAAAA=\\n-----END PUBLIC KEY-----"

abbrev answer : Bool → Bytes
answer true =
    codes "HTTP/1.1 200 OK\r\n\r\n{\"key_id\":\"ab\",\"public_key_pem\":\"" ++ (pem ++ codes "\"}")
answer false = codes "HTTP/1.1 201 Created\r\n\r\n{\"device_cert_pem\": \"CERT\"}"

-- The state counts the exchanges; the first one fails, and is tried again.
abbrev respond : ℕ → Bool → Option Bytes × ℕ
respond zero mutual_tls = (none, 1)
respond (suc n) mutual_tls = (some (answer mutual_tls), suc n)

abbrev edge : Edge ℕ
edge = record {
  device_id = λ n. codes "01ff";
  gen_key_csr = λ id n. (some (codes "CSR", codes "KEY"), n);
  add_claim_ca = λ n. (true, n);
  add_identity = λ cert key n. (true, n);
  delete_credentials = λ n. n;
  https = λ mutual_tls request n. respond n mutual_tls;
}

abbrev prov : Provisioning
prov = record {
  wifi_ssid = codes "net";
  wifi_psk = codes "secret";
  claim_host = codes "edge.local";
  claim_ip = codes "10.0.0.2";
  claim_port = 443;
  claim_ca = codes "root";
  claim_token = codes "tok";
  server_host = codes "cp.local";
  server_ip = codes "10.0.0.1";
  artifact_port = 8443;
  fleet_port = 9443;
  server_ca = codes "ca";
  artifact_name = codes "fw";
  target_profile = codes "esp32";
}

abbrev enrolled : Identity
enrolled = record {
  device_cert_pem = codes "CERT";
  device_key_pem = codes "KEY";
  manifest_pub = replicate 32 0;
  key_id = codes "ab";
}

enrols : (meshanics_enroll edge prov 0).0 ≡ some enrolled
unfolding meshanics_enroll claim claim_request claim_text key_text http_body status_of behind_gap
    atoi cert_of body_with extract fetch_key identity_of identity_with https_retry retry_loop
    claim_build_request build_request append_raw append_escaped escape json_extract_string
    find_value_start extract_loop unescape claim_ed25519_pub_from_pem split_at next_line decode_loop
    push_sextet b64val decimal
enrols = refl

meshanics_enroll-IsStorable_example : IsStorable enrolled
meshanics_enroll-IsStorable_example = meshanics_enroll-IsStorable edge prov 0 enrolled enrols

-- The number of open sockets and of keys held; the handshake fails.
abbrev tools : KeyTools ℕ
tools = record {
  Pk = ℕ;
  psa_crypto_init = λ d. (true, d);
  psa_generate_key = λ d. (some 1, suc d);
  pk_copy_from_psa = λ kid d. (some kid, d);
  set_subject_name = λ s d. (true, d);
  write_csr_pem = λ key cap d. (some (codes "CSR"), d);
  write_key_pem = λ key cap d. (some (codes "KEY"), d);
  psa_destroy_key = λ kid d. d - 1;
}

abbrev sockets : Zsock ℕ
sockets = record {
  zsock_socket = λ d. (true, suc d);
  zsock_setsockopt = λ o d. d;
  zsock_connect = λ ip port d. (false, d);
  zsock_send = λ s d. (true, d);
  zsock_send_some = λ s d. (length s, d);
  zsock_recv = λ n d. (none, d);
  zsock_close = λ d. d - 1;
}

abbrev creds : Credentials ℕ
creds = record {
  add = λ tag t s d. (true, d);
  delete = λ tag t d. d;
  get_device_id = λ n d. some (0xab ∷ []);
}

pairs : IsPaired sockets (λ d. d) suc (λ n. n - 1)
pairs = record {
  on_socket = λ d. refl;
  on_setsockopt = λ o d. refl;
  on_zconnect = λ ip port d. refl;
  on_zsend = λ s d. refl;
  on_zsend_some = λ s d. refl;
  on_zrecv = λ n d. refl;
  on_zclose = λ d. refl;
  down_up = λ v. omega arith;
}

even : IsEven tools sockets creds (λ d. d) suc (λ n. n - 1)
even = record {
  sockets = pairs;
  on_init = λ d. refl;
  on_generate = λ d. refl;
  on_copy = λ kid d. refl;
  on_subject = λ s d. refl;
  on_csr = λ key cap d. refl;
  on_pem = λ key cap d. refl;
  on_destroy = λ kid d. refl;
  on_add = λ tag t s d. refl;
  on_delete = λ tag t d. refl;
}

meshanics_enroll-link_example : (meshanics_enroll (link creds prov tools sockets) prov 4).1 ≡ 4
meshanics_enroll-link_example =
    meshanics_enroll-link tools sockets creds prov (λ d. d) suc (λ n. n - 1) even 4

-- A peer that never stops.
abbrev endless : Zsock ℕ
endless = record sockets {
  zsock_connect = λ ip port d. (true, d);
  zsock_recv = λ n d. (some (take n (codes "HTTP/1.1 200 OK")), d);
}

endless_fits : (n d : ℕ) (s : Bytes) → (endless.zsock_recv n d).0 ≡ some s → length s ≤ n
endless_fits n d s h =
    let e : s ≡ take n (codes "HTTP/1.1 200 OK") = cc in
    omega (arith, ap length e, length-take n (codes "HTTP/1.1 200 OK"))

abbrev cut : Bytes
cut = codes "HTTP/1.1 200 OKHTTP/1.1 200 OKHTTP/1.1 "

answers : (https endless 0x20 [] [] 443 (codes "GET") 40 4).0 ≡ some cut
unfolding https converse send_loop receive_loop
answers = refl

https-fits_example :
    (length cut < 40) × (receive_loop endless (40 + 9) 40 [] 4 ≡ receive_loop endless 40 40 [] 4)
https-fits_example =
    https-fits endless endless_fits 0x20 [] [] 443 (codes "GET") 40 9 4 cut (omega arith) answers
