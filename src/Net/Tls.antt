-- ===== src/Net/Tls.antt =====
-- plat_net_set_identity and tls_connect of lib/plat/plat_net.c: the credentials of mutual TLS, and a
-- connection that uses them. Zephyr's credential store and sockets are parameters.
use mcu_sdk.Base.{
  ℕ, ◌≡◌, ap, ◌∙◌, Bool, true, false, not, Option, Bytes, List, [], ◌∷◌, ◌++◌, if◌then◌else◌,
}
use mcu_sdk.Provision.{Provisioning}
use mcu_sdk.Store.Identity.{Identity}
use mcu_sdk.Net.Socket.{Socket}
use mcu_sdk.Net.Balance.{IsBalanced, view-if}

-- SEC_TAG
abbrev pub sec_tag : ℕ
sec_tag = 0x10

pub data CredentialType : Type 0 where
  ca_certificate public_certificate private_key : CredentialType

-- The result of tls_credential_add is `true` for 0. The NULLs that are refused are not passed by
-- agent_main.
unfoldable pub net_set_identity :
    {D : Type 0}
    → (ℕ → CredentialType → Bytes → D → Bool × D)
    → Provisioning
    → Identity
    → D
    → Bool × D
net_set_identity tls_credential_add conf ident d =
    let (ca_added, d1) = tls_credential_add sec_tag ca_certificate (conf.server_ca ++ (0 ∷ [])) d in
    if not ca_added
    then (false, d1)
    else (let (cert_added, d2) =
          tls_credential_add sec_tag public_certificate (ident.device_cert_pem ++ (0 ∷ [])) d1 in
        if not cert_added
        then (false, d2)
        else (let (key_added, d3) =
              tls_credential_add sec_tag private_key (ident.device_key_pem ++ (0 ∷ [])) d2 in
            if not key_added then (false, d3) else (true, d3)))

-- The options that tls_connect sets; their results are not looked at.
pub data SockOpt : Type 0 where
  tls_sec_tag_list : List ℕ → SockOpt
  tls_hostname : Bytes → SockOpt
  tls_peer_verify_required : SockOpt
  -- in seconds
  so_rcvtimeo : ℕ → SockOpt

-- Zephyr's TLS sockets, of which one is open at a time; a flag is `true` unless the result is
-- negative, and the other fields are those of `Socket`.
pub record Zsock (D : Type 0) : Type 0 where
  pub zsock_socket : D → Bool × D
  pub zsock_setsockopt : SockOpt → D → D
  -- to an address and a port
  pub zsock_connect : Bytes → ℕ → D → Bool × D
  pub zsock_send : Bytes → D → Bool × D
  pub zsock_send_some : Bytes → D → ℕ × D
  pub zsock_recv : ℕ → D → Option Bytes × D
  pub zsock_close : D → D

module _ {D : Type 0} (z : Zsock D) (conf : Provisioning) where
  unfoldable pub set_options : D → D
  set_options d =
      let d1 = z.zsock_setsockopt (tls_sec_tag_list (sec_tag ∷ [])) d in
      let d2 = z.zsock_setsockopt (tls_hostname conf.server_host) d1 in
      let d3 = z.zsock_setsockopt tls_peer_verify_required d2 in
      z.zsock_setsockopt (so_rcvtimeo 20) d3

  -- `true` is a descriptor of 0 or more.
  unfoldable pub tls_connect : ℕ → D → Bool × D
  unfolding set_options
  tls_connect port d =
      let (made, d1) = z.zsock_socket d in
      if not made
      then (false, d1)
      else (let (up, d2) = z.zsock_connect conf.server_ip port (set_options d1) in
          if not up then (false, z.zsock_close d2) else (true, d2))

  -- What the exchanges use.
  abbrev pub tls_socket : Socket D
  tls_socket = record {
    connect = tls_connect;
    send = z.zsock_send;
    send_some = z.zsock_send_some;
    recv = z.zsock_recv;
    close = z.zsock_close;
  }

-- A view of the device that a socket changes by `up` when it is created and by `down` when it is
-- closed, and no other call.
pub record IsPaired {D V : Type 0} (z : Zsock D) (view : D → V) (up down : V → V) : Type 0 where
  pub on_socket :
      (d : D) → view (z.zsock_socket d).1 ≡ (if (z.zsock_socket d).0 then up (view d) else view d)
  pub on_setsockopt : (o : SockOpt) (d : D) → view (z.zsock_setsockopt o d) ≡ view d
  pub on_zconnect : (ip : Bytes) (port : ℕ) (d : D) → view (z.zsock_connect ip port d).1 ≡ view d
  pub on_zsend : (s : Bytes) (d : D) → view (z.zsock_send s d).1 ≡ view d
  pub on_zsend_some : (s : Bytes) (d : D) → view (z.zsock_send_some s d).1 ≡ view d
  pub on_zrecv : (n : ℕ) (d : D) → view (z.zsock_recv n d).1 ≡ view d
  pub on_zclose : (d : D) → view (z.zsock_close d) ≡ down (view d)
  pub down_up : (v : V) → down (up v) ≡ v

module _ {D V : Type 0} (z : Zsock D) (conf : Provisioning) (view : D → V) (up down : V → V)
    (pairs : IsPaired z view up down) where
  view-set_options : (d : D) → view (set_options z conf d) ≡ view d
  unfolding set_options
  view-set_options d =
      pairs.on_setsockopt _ _
      ∙ (pairs.on_setsockopt _ _ ∙ (pairs.on_setsockopt _ _ ∙ pairs.on_setsockopt _ d))

  connected :
      (t : Bool) (v : V) (d : D)
      → view d ≡ up v
      → let r : Bool × D = if not t then (false, z.zsock_close d) else (true, d) in
        view r.1 ≡ (if r.0 then up v else v)
  connected true v d e = e
  connected false v d e = pairs.on_zclose d ∙ ap down e ∙ pairs.down_up v

  made :
      (t : Bool) (v : V) (d1 : D) (r : Bool × D)
      → view d1 ≡ (if t then up v else v)
      → (view d1 ≡ up v → view r.1 ≡ (if r.0 then up v else v))
      → let x : Bool × D = if not t then (false, d1) else r in view x.1 ≡ (if x.0 then up v else v)
  made true v d1 r e h = h e
  made false v d1 r e h = e

  -- A connection that fails leaves no socket open, and one that succeeds leaves one.
  pub tls_socket-IsBalanced : IsBalanced (tls_socket z conf) view up down
  unfolding tls_connect
  tls_socket-IsBalanced = record {
    on_connect = λ port d.
        let m = z.zsock_socket d in
        let r = z.zsock_connect conf.server_ip port (set_options z conf m.1) in
        made m.0 (view d) m.1 _ (pairs.on_socket d) (λ e. connected r.0 (view d) r.1 (
          pairs.on_zconnect conf.server_ip port (set_options z conf m.1)
          ∙ (view-set_options m.1 ∙ e)));
    on_send = pairs.on_zsend;
    on_send_some = pairs.on_zsend_some;
    on_recv = pairs.on_zrecv;
    on_close = pairs.on_zclose;
    down_up = pairs.down_up;
  }

-- What net_set_identity leaves alone.
pub view-net_set_identity :
    {D V : Type 0} (view : D → V) (add : ℕ → CredentialType → Bytes → D → Bool × D)
    → ((tag : ℕ) (t : CredentialType) (s : Bytes) (d : D) → view (add tag t s d).1 ≡ view d)
    → (conf : Provisioning) (i : Identity) (d : D) → view (net_set_identity add conf i d).1 ≡ view d
unfolding net_set_identity
view-net_set_identity view add on_add conf i d =
    let a = add sec_tag ca_certificate (conf.server_ca ++ (0 ∷ [])) d in
    let e = on_add sec_tag ca_certificate (conf.server_ca ++ (0 ∷ [])) d in
    let b = add sec_tag public_certificate (i.device_cert_pem ++ (0 ∷ [])) a.1 in
    let e2 = on_add sec_tag public_certificate (i.device_cert_pem ++ (0 ∷ [])) a.1 ∙ e in
    let k = add sec_tag private_key (i.device_key_pem ++ (0 ∷ [])) b.1 in
    let e3 = on_add sec_tag private_key (i.device_key_pem ++ (0 ∷ [])) b.1 ∙ e2 in
    view-if view (view d) (not a.0) _ _ e
      (view-if view (view d) (not b.0) _ _ e2 (view-if view (view d) (not k.0) _ _ e3 e3))
