-- ===== src/Agent/Status/Keeps.antt =====
-- What the status server of lib/meshanics_agent.c leaves as it was.
use mcu_sdk.Base.{
  if_both, ℕ, zero, suc, ◌+◌, ◌%◌, ◌^◌, ◌≡◌, refl, ◌∙◌, not, Bytes, length, ltb, ◌&&◌,
}
use mcu_sdk.Plat.{Counters}
use mcu_sdk.Net.Balance.{view-if}
use mcu_sdk.Agent.Status.{
  Host, About, body_size, resp_size, Served, status_response, local_ip, build_status, send_status,
  serve, serve_loop, http_listen,
}

-- No call of the host changes a view of the device.
pub record HostKeeps {D V : Type 0} (h : Host D) (view : D → V) : Type 0 where
  pub on_socket : (d : D) → view (h.socket d).1 ≡ view d
  pub on_reuse : (d : D) → view (h.reuse_address d) ≡ view d
  pub on_bind : (port : ℕ) (d : D) → view (h.bind port d).1 ≡ view d
  pub on_listen : (d : D) → view (h.listen d).1 ≡ view d
  pub on_close_listener : (d : D) → view (h.close_listener d) ≡ view d
  pub on_poll : (d : D) → view (h.poll d).1 ≡ view d
  pub on_accept : (d : D) → view (h.accept d).1 ≡ view d
  pub on_recv : (n : ℕ) (d : D) → view (h.recv n d).1 ≡ view d
  pub on_send : (s : Bytes) (d : D) → view (h.send s d) ≡ view d
  pub on_close : (d : D) → view (h.close d) ≡ view d

module _ {D V : Type 0} (h : Host D) (about : About) (view : D → V) (keeps : HostKeeps h view) where
  pub view-http_listen : (d : D) → view (http_listen h about d).1 ≡ view d
  unfolding http_listen
  view-http_listen d =
      let m = h.socket d in
      let e = keeps.on_socket d in
      let b = h.bind about.http_port (h.reuse_address m.1) in
      let e2 = keeps.on_bind about.http_port (h.reuse_address m.1) ∙ (keeps.on_reuse m.1 ∙ e) in
      let l = h.listen b.1 in
      let e3 = keeps.on_listen b.1 ∙ e2 in
      view-if view (view d) (not m.0) _ _ e (
        view-if view (view d) (not b.0) _ _ (keeps.on_close_listener b.1 ∙ e2)
          (view-if view (view d) (not l.0) _ _ (keeps.on_close_listener l.1 ∙ e3) e3))

module _ {V : Type 0} (c : Counters) (h : Host c.Dev) (about : About) (view : c.Dev → V)
    (keeps : HostKeeps h view)
    (on_counter : (d : c.Dev) → view (c.applied_counter d).1 ≡ view d) where
  view-send_status : (body : Bytes) (d : c.Dev) → view (send_status c h about body d) ≡ view d
  unfolding send_status
  view-send_status body d =
      if_both view (view d) (ltb 0 (length body) && ltb (length body) body_size) _ _
        (if_both view (view d) (ltb (length (status_response body)) resp_size) _ _
          (keeps.on_send (status_response body) d) refl)
        refl

  view-serve : (s : Served c.Dev) → view (serve c h about s).1.dev ≡ view s.dev
  unfolding serve build_status
  view-serve s =
      let r = h.recv 256 s.dev in
      let e = keeps.on_recv 256 s.dev in
      view-if (λ (x : Served c.Dev). view x.dev) (view s.dev) (not r.0) _ _ e
        (keeps.on_close _
          ∙ view-send_status
              (build_status c h about (local_ip c h about s.dev)
                (record { dev = r.1; requests_served = (s.requests_served + 1) % 2 ^ 32 })).0
              (c.applied_counter r.1).1
          ∙ on_counter r.1
          ∙ e)

  pub view-serve_loop :
      (fuel : ℕ) (s : Served c.Dev) → view (serve_loop c h about fuel s).1.dev ≡ view s.dev
  unfolding serve_loop
  view-serve_loop zero s = refl
  view-serve_loop (suc fuel) s =
      let p = h.poll s.dev in
      let e = keeps.on_poll s.dev in
      let a = h.accept p.1 in
      let e2 = keeps.on_accept p.1 ∙ e in
      let s1 = record s { dev = a.1 } in
      let v = serve c h about s1 in
      view-if (λ (x : Served c.Dev). view x.dev) (view s.dev) (not p.0) _ _ e
        (view-if (λ (x : Served c.Dev). view x.dev) (view s.dev) (not a.0) _ _ e2
          (view-if (λ (x : Served c.Dev). view x.dev) (view s.dev) (not v.0) _ _
            (view-serve s1 ∙ e2) (view-serve_loop fuel v.1 ∙ (view-serve s1 ∙ e2))))
