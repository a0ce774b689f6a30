-- ===== src/Agent/Status.antt =====
-- The status server of lib/meshanics_agent.c: reset_cause_str, device_id_hex, build_status,
-- http_listen and http_serve_pending. Zephyr's hwinfo, its clock and its sockets are the parameter
-- `Host`.
pub mod Serve
pub mod Keeps
pub mod Answer
use mcu_sdk.Base.{
  ℕ, zero, suc, ◌+◌, ◌*◌, ◌/◌, ◌%◌, ◌^◌, bit_and, Bool, true, false, not, Option, none, some, Bytes,
  [], ◌∷◌, ◌++◌, ◌&&◌, length, codes, ltb, leb, ◌==◌, if◌then◌else◌,
}
use mcu_sdk.Base.Decimal.{decimal}
use mcu_sdk.Base.Hex.{hex_loop}
use mcu_sdk.Plat.{Counters}

-- On a device with the states `D`; a flag is `true` unless the result is negative.
pub record Host (D : Type 0) : Type 0 where
  -- RESET_POR, RESET_PIN, RESET_SOFTWARE, RESET_WATCHDOG and RESET_BROWNOUT
  pub reset_por : ℕ
  pub reset_pin : ℕ
  pub reset_software : ℕ
  pub reset_watchdog : ℕ
  pub reset_brownout : ℕ
  pub get_reset_cause : D → Option ℕ
  -- up to so many bytes
  pub get_device_id : ℕ → D → Option Bytes
  -- in milliseconds
  pub uptime : D → ℕ
  pub socket : D → Bool × D
  pub reuse_address : D → D
  pub bind : ℕ → D → Bool × D
  pub listen : D → Bool × D
  pub close_listener : D → D
  -- whether a connection is waiting
  pub poll : D → Bool × D
  pub accept : D → Bool × D
  -- the address of the connection, as text
  pub local_address : D → Option Bytes
  -- up to so many bytes of the request, which are thrown away; `false` is a call that does not return,
  -- for a client that sends nothing and does not close: the socket has no timeout
  pub recv : ℕ → D → Bool × D
  pub send : Bytes → D → D
  pub close : D → D

-- CONFIG_BOARD, CONFIG_MESHANICS_STATUS_HTTP_PORT, self.version and self.pinned.key_id.
pub record About : Type 0 where
  pub board : Bytes
  pub http_port : ℕ
  pub version : Bytes
  pub key_id : Bytes

-- sizeof(body) and sizeof(resp)
abbrev pub body_size : ℕ
body_size = 512

abbrev pub resp_size : ℕ
resp_size = 768

-- The device, and self.requests_served.
pub record Served (D : Type 0) : Type 0 where
  pub dev : D
  pub requests_served : ℕ

module _ {D : Type 0} (h : Host D) where
  unfoldable pub reset_cause_str : D → Bytes
  reset_cause_str d = elim (h.get_reset_cause d) [
    | none ↦ codes "unknown"
    | some cause ↦
        if not (bit_and cause h.reset_por == 0)
        then codes "power-on"
        else if not (bit_and cause h.reset_pin == 0)
        then codes "pin"
        else if not (bit_and cause h.reset_software == 0)
        then codes "software"
        else if not (bit_and cause h.reset_watchdog == 0)
        then codes "watchdog"
        else if not (bit_and cause h.reset_brownout == 0)
        then codes "brownout"
        else if not (cause == 0)
        then codes "other"
        else codes "none"
  ]

  -- For a buffer of `cap` bytes.
  unfoldable pub device_id_hex : ℕ → D → Bytes
  unfolding hex_loop
  device_id_hex cap d = elim (h.get_device_id 16 d) [ none ↦ [] | some id ↦ hex_loop cap 0 id ]

  unfoldable pub http_listen : About → D → Bool × D
  http_listen about d =
      let (made, d1) = h.socket d in
      if not made
      then (false, d1)
      else (let (bound, d2) = h.bind about.http_port (h.reuse_address d1) in
          if not bound
          then (false, h.close_listener d2)
          else (let (listening, d3) = h.listen d2 in
              if not listening then (false, h.close_listener d3) else (true, d3)))

-- The text that build_status formats.
unfoldable pub status_text : About → ℕ → ℕ → Bytes → Bytes → Bytes → ℕ → Bytes
status_text about seconds applied cause id ip served =
    codes "{\"service\":\"meshanics-mcu-agent\",\"version\":\""
    ++ (about.version
        ++ (codes "\",\"board\":\""
            ++ (about.board
                ++ (codes "\",\"uptime_seconds\":"
                    ++ (decimal seconds
                        ++ (codes ",\"applied_counter\":"
                            ++ (decimal applied
                                ++ (codes ",\"reset_cause\":\""
                                    ++ (cause
                                        ++ (codes "\",\"device_id\":\""
                                            ++ (id
                                                ++ (codes "\",\"ip\":\""
                                                    ++ (ip
                                                        ++ (codes "\",\"key_id\":\""
                                                            ++ (about.key_id
                                                            ++ (codes "\",\"requests_served\":"
                                                            ++ (decimal served
                                                            ++ codes "}\n")))))))))))))))))

-- The response with a body.
unfoldable pub status_response : Bytes → Bytes
status_response body =
    codes "HTTP/1.1 200 OK\r\nContent-Type: application/json\r\nContent-Length: "
    ++ (decimal (length body) ++ (codes "\r\nConnection: close\r\n\r\n" ++ body))

module _ (c : Counters) (h : Host c.Dev) (about : About) where
  -- The text, whose length is the result.
  unfoldable pub build_status : Bytes → Served c.Dev → Bytes × Served c.Dev
  unfolding status_text device_id_hex reset_cause_str
  build_status ip s =
      let id = device_id_hex h 40 s.dev in
      let (applied, d) = c.applied_counter s.dev in
      (
        status_text about (h.uptime s.dev / 1000) applied (reset_cause_str h s.dev) id ip
            s.requests_served,
        record s { dev = d },
      )

  -- What is sent of a body, where it and the response fit their buffers.
  unfoldable pub send_status : Bytes → c.Dev → c.Dev
  unfolding status_response
  send_status body d =
      if ltb 0 (length body) && ltb (length body) body_size
      then (if ltb (length (status_response body)) resp_size
          then h.send (status_response body) d
          else d)
      else d

  -- The text in `ip`.
  unfoldable pub local_ip : c.Dev → Bytes
  local_ip d = elim (h.local_address d) [ none ↦ codes "0.0.0.0" | some a ↦ a ]

  -- A connection that was accepted; `false` where zsock_recv does not return.
  unfoldable pub serve : Served c.Dev → Bool × Served c.Dev
  unfolding build_status send_status local_ip
  serve s =
      let ip = local_ip s.dev in
      let (came, d1) = h.recv 256 s.dev in
      let s1 = record s { dev = d1; requests_served = (s.requests_served + 1) % 2 ^ 32 } in
      let (body, s2) = build_status ip s1 in
      if not came
      then (false, record s { dev = d1 })
      else (true, record s2 { dev = h.close (send_status body s2.dev) })

  -- The loop, for `fuel` rounds at most: `true` where it has ended, `false` where it still runs or a
  -- zsock_recv in it does not return.
  unfoldable pub serve_loop : ℕ → Served c.Dev → Bool × Served c.Dev
  unfolding serve
  serve_loop zero s = (false, s)
  serve_loop (suc fuel) s =
      let (ready, d1) = h.poll s.dev in
      let (taken, d2) = h.accept d1 in
      let (came, s1) = serve (record s { dev = d2 }) in
      let rest = serve_loop fuel s1 in
      if not ready
      then (true, record s { dev = d1 })
      else if not taken
      then (true, record s { dev = d2 })
      else if not came
      then (false, s1)
      else rest
