-- ===== src/Net/Balance.antt =====
-- What the functions of lib/plat/plat_net.c leave as it was, on every path: a part of the device that
-- the socket calls do not touch, and the number of open sockets.
pub mod Transfer
use mcu_sdk.Base.{
  if_both, ℕ, zero, suc, ◌-◌, ◌≡◌, refl, ap, ◌∙◌, Bool, true, false, not, Option, none, some, Bytes,
  [], ◌∷◌, ◌++◌, length, drop, ltb, leb, ◌==◌, if◌then◌else◌, codes, ◌||◌,
}
use mcu_sdk.Provision.{Provisioning}
use mcu_sdk.Net.Socket.{Socket, sdk_agent_version}
use mcu_sdk.Net.Http.{
  http_status, is_code, recv_loop, recv_all, send_request, exchange, post_text, post_device,
  plat_register, manifest_of_response, get_text, fetch_manifest, send_all, send_log, log_text,
  upload_logs,
}

-- A view of the device that a connection changes by `up` and its end by `down`, and nothing else.
pub record IsBalanced {D V : Type 0} (sock : Socket D) (view : D → V) (up down : V → V)
    : Type 0 where
  pub on_connect :
      (port : ℕ) (d : D)
      → view (sock.connect port d).1 ≡ (if (sock.connect port d).0 then up (view d) else view d)
  pub on_send : (s : Bytes) (d : D) → view (sock.send s d).1 ≡ view d
  pub on_send_some : (s : Bytes) (d : D) → view (sock.send_some s d).1 ≡ view d
  pub on_recv : (n : ℕ) (d : D) → view (sock.recv n d).1 ≡ view d
  pub on_close : (d : D) → view (sock.close d) ≡ down (view d)
  pub down_up : (v : V) → down (up v) ≡ v

module _ {D V : Type 0} (view : D → V) where
  -- Both branches of a test leave the view at `v`.
  pub view-if :
      {A : Type 0} (v : V) (t : Bool) (x y : A × D)
      → view x.1 ≡ v
      → view y.1 ≡ v
      → view (if t then x else y).1 ≡ v
  view-if v t x y h k = if_both (λ z. view z.1) v t x y h k

  -- Both branches of a match on an optional result do.
  pub view-elim :
      {A B : Type 0} (v : V) (o : Option A) (x : B × D) (f : A → B × D)
      → view x.1 ≡ v
      → ((a : A) → view (f a).1 ≡ v)
      → view (elim o as (λ z. B × D) [ none ↦ x | some a ↦ f a ]).1 ≡ v
  view-elim v none x f h k = h
  view-elim v (some a) x f h k = k a

  -- Behind a connect, which opens the socket exactly if it succeeds.
  pub view-opened :
      {A : Type 0} (up : V → V) (v : V) (t : Bool) (d1 : D) (x y : A × D)
      → view d1 ≡ (if t then up v else v)
      → (view d1 ≡ v → view x.1 ≡ v)
      → (view d1 ≡ up v → view y.1 ≡ v)
      → view (if not t then x else y).1 ≡ v
  view-opened up v true d1 x y e h k = k e
  view-opened up v false d1 x y e h k = h e

module _ {D V : Type 0} (sock : Socket D) (view : D → V) (up down : V → V)
    (laws : IsBalanced sock view up down) where
  pub view-close : (v : V) (d : D) → view d ≡ up v → view (sock.close d) ≡ v
  view-close v d e = laws.on_close d ∙ ap down e ∙ laws.down_up v

  view-recv_loop :
      (fuel cap : ℕ) (buf : Bytes) (d : D) → view (recv_loop sock fuel cap buf d).1 ≡ view d
  unfolding recv_loop
  view-recv_loop zero cap buf d = refl
  view-recv_loop (suc fuel) cap buf d =
      let r = sock.recv (cap - 1 - length buf) d in
      let e = laws.on_recv (cap - 1 - length buf) d in
      view-if view (view d) (ltb (length buf) (cap - 1)) _ _
        (view-elim view (view d) r.0 _ _ e (λ s.
          view-if view (view d) (length s == 0) _ _ e (view-recv_loop fuel cap (buf ++ s) r.1 ∙ e)))
        refl

  pub view-recv_all : (cap : ℕ) (d : D) → view (recv_all sock cap d).1 ≡ view d
  unfolding recv_all
  view-recv_all cap d = view-recv_loop cap cap [] d

  pub view-send_request :
      (cap : ℕ) (s : Bytes) (d : D) → view (send_request sock cap s d).1 ≡ view d
  unfolding send_request
  view-send_request cap s d = view-if view (view d) (leb cap (length s)) _ _ refl (laws.on_send s d)

  view-exchange :
      (port cap : ℕ) (request : Bytes) (resp_cap : ℕ) (d : D)
      → view (exchange sock port cap request resp_cap d).1 ≡ view d
  unfolding exchange
  view-exchange port cap request resp_cap d =
      let d1 = sock.connect port d in
      let d2 = send_request sock cap request d1.1 in
      view-opened view up (view d) d1.0 d1.1 _ _ (laws.on_connect port d) (λ e. e)
        (λ e.
          let e2 = view-send_request cap request d1.1 ∙ e in
          view-if view (view d) (not d2.0) _ _ (view-close (view d) d2.1 e2) (
            view-close (view d) (recv_all sock resp_cap d2.1).1 (view-recv_all resp_cap d2.1 ∙ e2)))

  module _ (conf : Provisioning) where
    pub view-fetch_manifest : (cap : ℕ) (d : D) → view (fetch_manifest sock conf cap d).1 ≡ view d
    unfolding fetch_manifest
    view-fetch_manifest cap d =
        let request = get_text sock conf (codes "/device/manifest") in
        let e = view-exchange conf.artifact_port 256 request cap d in
        view-elim view (view d) (exchange sock conf.artifact_port 256 request cap d).0 _ _ e
          (λ s. e)

    pub view-post_device :
        (port : ℕ) (path body : Bytes) (cap : ℕ) (d : D)
        → view (post_device sock conf port path body cap d).1 ≡ view d
    unfolding post_device
    view-post_device port path body cap d =
        view-exchange port 512 (post_text sock conf path body) cap d

    pub view-plat_register : (d : D) → view (plat_register sock conf d).1 ≡ view d
    unfolding plat_register
    view-plat_register d =
        let body =
          codes "{\"hw_profile\":\""
          ++ (conf.target_profile
              ++ (codes "\",\"agent_version\":\"" ++ (sdk_agent_version ++ codes "\"}"))) in
        let e = view-post_device conf.fleet_port (codes "/device/register") body 512 d in
        view-if view (view d) (leb 160 (length body)) _ _ refl (
          view-elim view (view d)
            (post_device sock conf conf.fleet_port (codes "/device/register") body 512 d).0 _ _ e
            (λ s. e))

    view-send_all : (fuel : ℕ) (s : Bytes) (d : D) → view (send_all sock conf fuel s d).1 ≡ view d
    unfolding send_all
    view-send_all zero s d = refl
    view-send_all (suc fuel) s d =
        let r = sock.send_some s d in
        let e = laws.on_send_some s d in
        view-if view (view d) (length s == 0) _ _ refl
          (view-if view (view d) (r.0 == 0) _ _ e (view-send_all fuel (drop r.0 s) r.1 ∙ e))

    view-send_log :
        (v : V) (body : Bytes) (d : D) → view d ≡ up v → view (send_log sock conf body d).1 ≡ v
    unfolding send_log
    view-send_log v body d e =
        let r = send_all sock conf (length body) body d in
        let e1 = view-send_all (length body) body d ∙ e in
        let r2 = recv_all sock 256 r.1 in
        let e2 = view-recv_all 256 r.1 ∙ e1 in
        view-if view v (not r.0) _ _ (view-close v r.1 e1)
          (view-elim view v r2.0 _ _ (view-close v r2.1 e2) (λ s. view-close v r2.1 e2))

    pub view-upload_logs :
        (id body : Bytes) (d : D) → view (upload_logs sock conf id body d).1 ≡ view d
    unfolding upload_logs
    view-upload_logs id body d =
        let d1 = sock.connect conf.fleet_port d in
        let d2 = send_request sock 256 (log_text sock conf id body) d1.1 in
        view-if view (view d) (length id == 0) _ _ refl (
          view-opened view up (view d) d1.0 d1.1 _ _ (laws.on_connect conf.fleet_port d) (λ e. e)
            (λ e.
              let e2 = view-send_request 256 (log_text sock conf id body) d1.1 ∙ e in
              view-if view (view d) (not d2.0) _ _ (view-close (view d) d2.1 e2)
                (view-send_log (view d) body d2.1 e2)))
