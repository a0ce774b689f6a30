-- ===== src/Enroll/Even.antt =====
-- What meshanics_enroll of lib/provision/enroll.c leaves as it was, on every path: a part of the device
-- that its calls do not touch, and the number of open sockets and of keys held by PSA.
use mcu_sdk.Base.{
  ℕ, zero, suc, ◌-◌, ◌≡◌, refl, ap, ◌∙◌, not, Option, none, some, Bytes, [], ◌∷◌, ◌++◌, length,
  take, drop, codes, leb, ◌==◌,
}
use mcu_sdk.Provision.{Provisioning}
use mcu_sdk.Store.Identity.{key_cap}
use mcu_sdk.Net.Tls.{
  CredentialType, ca_certificate, public_certificate, private_key, Zsock, IsPaired,
}
use mcu_sdk.Net.Balance.{view-if, view-elim, view-opened}
use mcu_sdk.Enroll.{meshanics_enroll}
use mcu_sdk.Enroll.Link.{
  claim_ca_tag, mtls_tag, csr_cap, resp_cap, KeyTools, Credentials, export_key, gen_key_csr,
  set_https_options, send_loop, receive_loop, converse, https, add_claim_ca, add_identity,
  delete_credentials, link,
}
use mcu_sdk.Enroll.Keeps.{EdgeKeeps, view-meshanics_enroll}

-- A view of the device that a socket and a key change by `up` when they are made and by `down` when
-- they are given back, and nothing else.
pub record IsEven {D V : Type 0} (k : KeyTools D) (z : Zsock D) (creds : Credentials D)
    (view : D → V) (up down : V → V) : Type 0 where
  pub sockets : IsPaired z view up down
  pub on_init : (d : D) → view (k.psa_crypto_init d).1 ≡ view d
  pub on_generate :
      (d : D)
      → view (k.psa_generate_key d).1
        ≡ elim ((k.psa_generate_key d).0) as (λ x. V) [ none ↦ view d | some kid ↦ up (view d) ]
  pub on_copy : (kid : ℕ) (d : D) → view (k.pk_copy_from_psa kid d).1 ≡ view d
  pub on_subject : (s : Bytes) (d : D) → view (k.set_subject_name s d).1 ≡ view d
  pub on_csr : (key : k.Pk) (cap : ℕ) (d : D) → view (k.write_csr_pem key cap d).1 ≡ view d
  pub on_pem : (key : k.Pk) (cap : ℕ) (d : D) → view (k.write_key_pem key cap d).1 ≡ view d
  pub on_destroy : (kid : ℕ) (d : D) → view (k.psa_destroy_key kid d) ≡ down (view d)
  pub on_add :
      (tag : ℕ) (t : CredentialType) (s : Bytes) (d : D) → view (creds.add tag t s d).1 ≡ view d
  pub on_delete : (tag : ℕ) (t : CredentialType) (d : D) → view (creds.delete tag t d) ≡ view d

module _ {D V : Type 0} (k : KeyTools D) (z : Zsock D) (creds : Credentials D) (prov : Provisioning)
    (view : D → V) (up down : V → V) (even : IsEven k z creds view up down) where
  view-export_key : (kid : ℕ) (cn : Bytes) (d : D) → view (export_key k kid cn d).1 ≡ view d
  unfolding export_key
  view-export_key kid cn d =
      let a = k.pk_copy_from_psa kid d in
      let e = even.on_copy kid d in
      view-elim view (view d) a.0 _ _ e (λ key.
        let s = k.set_subject_name (take 95 (codes "CN=" ++ cn)) a.1 in
        let e2 = even.on_subject (take 95 (codes "CN=" ++ cn)) a.1 ∙ e in
        let c = k.write_csr_pem key csr_cap s.1 in
        let e3 = even.on_csr key csr_cap s.1 ∙ e2 in
        view-if view (view d) (not s.0) _ _ e2 (
          view-elim view (view d) c.0 _ _ e3 (λ csr.
            let p = k.write_key_pem key key_cap c.1 in
            let e4 = even.on_pem key key_cap c.1 ∙ e3 in
            view-elim view (view d) p.0 _ _ e4 (λ pem. e4))))

  generated :
      (v : V) (cn : Bytes) (o : Option ℕ) (d : D)
      → view d ≡ elim o as (λ x. V) [ none ↦ v | some kid ↦ up v ]
      → view
          (elim o as (λ x. Option (Bytes × Bytes) × D) [
            | none ↦ (none, d)
            | some kid ↦ (let (out, d3) = export_key k kid cn d in (out, k.psa_destroy_key kid d3))
          ]).1
        ≡ v
  generated v cn none d e = e
  generated v cn (some kid) d e =
      even.on_destroy kid (export_key k kid cn d).1
      ∙ ap down (view-export_key kid cn d ∙ e)
      ∙ even.sockets.down_up v

  view-gen_key_csr : (cn : Bytes) (d : D) → view (gen_key_csr k cn d).1 ≡ view d
  unfolding gen_key_csr
  view-gen_key_csr cn d =
      let i = k.psa_crypto_init d in
      let e = even.on_init d in
      let g = k.psa_generate_key i.1 in
      view-if view (view d) (not i.0) _ _ e
        (generated (view i.1) cn g.0 g.1 (even.on_generate i.1) ∙ e)

  view-set_https_options :
      (tag : ℕ) (host : Bytes) (d : D) → view (set_https_options z tag host d) ≡ view d
  unfolding set_https_options
  view-set_https_options tag host d =
      even.sockets.on_setsockopt _ _
      ∙ (even.sockets.on_setsockopt _ _
          ∙ (even.sockets.on_setsockopt _ _ ∙ even.sockets.on_setsockopt _ d))

  view-send_loop : (fuel : ℕ) (s : Bytes) (d : D) → view (send_loop z fuel s d).1 ≡ view d
  unfolding send_loop
  view-send_loop zero s d = refl
  view-send_loop (suc fuel) s d =
      let r = z.zsock_send_some s d in
      let e = even.sockets.on_zsend_some s d in
      view-if view (view d) (length s == 0) _ _ refl
        (view-if view (view d) (r.0 == 0) _ _ e (view-send_loop fuel (drop r.0 s) r.1 ∙ e))

  view-receive_loop :
      (fuel cap : ℕ) (buf : Bytes) (d : D) → view (receive_loop z fuel cap buf d).1 ≡ view d
  unfolding receive_loop
  view-receive_loop zero cap buf d = refl
  view-receive_loop (suc fuel) cap buf d =
      let r = z.zsock_recv (cap - 1 - length buf) d in
      let e = even.sockets.on_zrecv (cap - 1 - length buf) d in
      view-elim view (view d) r.0 _ _ e (λ s. view-if view (view d) (length s == 0) _ _ e (
        view-if view (view d) (leb (cap - 1) (length (buf ++ s))) _ _ e
          (view-receive_loop fuel cap (buf ++ s) r.1 ∙ e)))

  closed : (v : V) (d : D) → view d ≡ up v → view (z.zsock_close d) ≡ v
  closed v d e = even.sockets.on_zclose d ∙ ap down e ∙ even.sockets.down_up v

  view-converse :
      (v : V) (request : Bytes) (cap : ℕ) (d : D)
      → view d ≡ up v
      → view (converse z request cap d).1 ≡ v
  unfolding converse
  view-converse v request cap d e =
      let s = send_loop z (length request) request d in
      let e1 = view-send_loop (length request) request d ∙ e in
      view-if view v (not s.0) _ _ (closed v s.1 e1)
        (closed v (receive_loop z cap cap [] s.1).1 (view-receive_loop cap cap [] s.1 ∙ e1))

  view-https :
      (tag : ℕ) (host ip : Bytes) (port : ℕ) (request : Bytes) (cap : ℕ) (d : D)
      → view (https z tag host ip port request cap d).1 ≡ view d
  unfolding https
  view-https tag host ip port request cap d =
      let m = z.zsock_socket d in
      let r = z.zsock_connect ip port (set_https_options z tag host m.1) in
      view-opened view up (view d) m.0 m.1 _ _ (even.sockets.on_socket d) (λ e. e)
        (λ e.
          let e2 =
            even.sockets.on_zconnect ip port (set_https_options z tag host m.1)
            ∙ (view-set_https_options tag host m.1 ∙ e) in
          view-if view (view d) (not r.0) _ _ (closed (view d) r.1 e2)
            (view-converse (view d) request cap r.1 e2))

  view-add_identity :
      (cert key : Bytes) (d : D) → view (add_identity creds prov cert key d).1 ≡ view d
  unfolding add_identity
  view-add_identity cert key d =
      let a = creds.add mtls_tag ca_certificate (prov.server_ca ++ (0 ∷ [])) d in
      let e = even.on_add mtls_tag ca_certificate (prov.server_ca ++ (0 ∷ [])) d in
      let b = creds.add mtls_tag public_certificate (cert ++ (0 ∷ [])) a.1 in
      let e2 = even.on_add mtls_tag public_certificate (cert ++ (0 ∷ [])) a.1 ∙ e in
      view-if view (view d) (not a.0) _ _ e (
        view-if view (view d) (not b.0) _ _ e2
          (even.on_add mtls_tag private_key (key ++ (0 ∷ [])) b.1 ∙ e2))

  pub link-EdgeKeeps : EdgeKeeps (link creds prov k z) view
  unfolding add_claim_ca delete_credentials
  link-EdgeKeeps = record {
    keeps_gen = view-gen_key_csr;
    keeps_claim_ca = λ d. even.on_add claim_ca_tag ca_certificate _ d;
    keeps_identity = view-add_identity;
    keeps_delete = λ d.
        even.on_delete _ _ _
        ∙ (even.on_delete _ _ _ ∙ (even.on_delete _ _ _ ∙ even.on_delete _ _ d));
    keeps_https = λ mutual_tls request d.
        view-if view (view d) mutual_tls _ _
          (view-https mtls_tag prov.server_host prov.server_ip prov.artifact_port request resp_cap
            d)
          (view-https claim_ca_tag prov.claim_host prov.claim_ip prov.claim_port request resp_cap
            d);
  }

  -- Where a view of the device is changed evenly by the making and giving back of sockets and of PSA
  -- keys, such as their number, and by nothing else that enrolment calls: an enrolment leaves it as it
  -- was, on every path, so it leaks neither a socket nor a key, however it fails.
  pub meshanics_enroll-link :
      (d : D) → view (meshanics_enroll (link creds prov k z) prov d).1 ≡ view d
  meshanics_enroll-link d = view-meshanics_enroll (link creds prov k z) view link-EdgeKeeps prov d
