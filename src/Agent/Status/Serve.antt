-- ===== src/Agent/Status/Serve.antt =====
-- That http_serve_pending of lib/meshanics_agent.c ends with every waiting connection answered.
use mcu_sdk.Base.{
  if_both, ℕ, zero, suc, ◌+◌, ◌%◌, ◌^◌, ◌<◌, ◌≡◌, refl, ◌∙◌, arith, true, Bool-cases, inl, inr,
  Bytes, ltb, ◌&&◌, length,
}
use mcu_sdk.Plat.{Counters}
use mcu_sdk.Agent.Status.{
  Host, About, body_size, resp_size, Served, local_ip, status_response, build_status, send_status,
  serve, serve_loop,
}

-- The connections that are waiting: a poll tells whether there is one, an accept takes one, no other
-- call changes them, and each client sends something or closes, so that a receive returns.
pub record IsQueue (c : Counters) (h : Host c.Dev) (waiting : c.Dev → ℕ) : Type 0 where
  pub on_poll :
      (d : c.Dev) → ((h.poll d).0 ≡ ltb 0 (waiting d)) × (waiting (h.poll d).1 ≡ waiting d)
  pub on_accept :
      (d : c.Dev)
      → 0 < waiting d
      → ((h.accept d).0 ≡ true) × (waiting (h.accept d).1 + 1 ≡ waiting d)
  pub on_recv : (n : ℕ) (d : c.Dev) → ((h.recv n d).0 ≡ true) × (waiting (h.recv n d).1 ≡ waiting d)
  pub on_send : (s : Bytes) (d : c.Dev) → waiting (h.send s d) ≡ waiting d
  pub on_close : (d : c.Dev) → waiting (h.close d) ≡ waiting d
  pub on_counter : (d : c.Dev) → waiting (c.applied_counter d).1 ≡ waiting d

module _ (c : Counters) (h : Host c.Dev) (about : About) (waiting : c.Dev → ℕ)
    (queue : IsQueue c h waiting) where
  waiting-send_status :
      (body : Bytes) (d : c.Dev) → waiting (send_status c h about body d) ≡ waiting d
  unfolding send_status
  waiting-send_status body d =
      if_both waiting (waiting d) (ltb 0 (length body) && ltb (length body) body_size) _ _
        (if_both waiting (waiting d) (ltb (length (status_response body)) resp_size) _ _
          (queue.on_send (status_response body) d) refl)
        refl

  served :
      (s : Served c.Dev)
      → ((serve c h about s).0 ≡ true)
        × (waiting (serve c h about s).1.dev ≡ waiting s.dev)
        × ((serve c h about s).1.requests_served ≡ (s.requests_served + 1) % 2 ^ 32)
  unfolding serve build_status
  served s =
      let r = h.recv 256 s.dev in
      let (came, e) = queue.on_recv 256 s.dev in
      rw (came) (
        refl,
        queue.on_close _
            ∙ waiting-send_status
                (build_status c h about (local_ip c h about s.dev)
                  (record { dev = r.1; requests_served = (s.requests_served + 1) % 2 ^ 32 })).0
                (c.applied_counter r.1).1
            ∙ queue.on_counter r.1
            ∙ e,
        refl,
      )

  -- Where an accept takes one waiting connection, none arrives meanwhile, and every client sends
  -- something or closes, so that each zsock_recv returns: http_serve_pending ends after one round more
  -- than connections were waiting, with none left waiting, and it has counted each of them, modulo
  -- 2^32.
  pub serve_loop-all :
      (fuel : ℕ) (s : Served c.Dev)
      → waiting s.dev < fuel
      → s.requests_served < 2 ^ 32
      → ((serve_loop c h about fuel s).0 ≡ true)
        × (waiting (serve_loop c h about fuel s).1.dev ≡ 0)
        × ((serve_loop c h about fuel s).1.requests_served
            ≡ (s.requests_served + waiting s.dev) % 2 ^ 32)
  unfolding serve_loop
  serve_loop-all zero s enough small = absurd (omega arith)
  serve_loop-all (suc fuel) s enough small =
      let p = h.poll s.dev in
      let (told, e1) = queue.on_poll s.dev in
      elim (Bool-cases p.0) [
        | inr none_left ↦
            let over : waiting s.dev ≡ 0 = ground (arith, told) in
            rw (none_left) (refl, (e1 ∙ over), omega (arith, over))
        | inl ready ↦
            let some_left : 0 < waiting s.dev = ground (arith, told) in
            let (taken, e2) = queue.on_accept p.1 (omega (arith, e1)) in
            let s1 = record s { dev = (h.accept p.1).1 } in
            let (came, e3, e4) = served s1 in
            let (ended, empty, count) =
              serve_loop-all fuel (serve c h about s1).1 (omega (arith, e1, e2, e3))
                (omega (arith, e4)) in
            rw (ready, taken, came) (ended, empty, omega (arith, count, e1, e2, e3, e4))
      ]
