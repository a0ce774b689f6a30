-- ===== src/Net/Http.antt =====
-- The HTTP exchanges of lib/plat/plat_net.c over one TLS connection at a time: reading a response,
-- plat_fetch_manifest, plat_register, plat_heartbeat and plat_net_upload_logs.
pub mod Body
use mcu_sdk.Base.{
  ℕ, zero, suc, ◌+◌, ◌-◌, ◌*◌, ◌≤◌, Bool, true, false, not, ◌&&◌, ◌||◌, Option, none, some, Bytes,
  [], ◌∷◌, ◌++◌, List, length, drop, get_or, take, codes, strip, ltb, leb, ◌==◌, if◌then◌else◌, ℤ,
  pos, negsuc, room, c_string,
}
use mcu_sdk.Provision.{Provisioning}
use mcu_sdk.Base.Decimal.{decimal}
use mcu_sdk.Plat.{Counters}
use mcu_sdk.Ota.Heartbeat.{heartbeat_json}
use mcu_sdk.Claim.Json.{json_extract_string}
use mcu_sdk.Net.{Beat, beat_error, beat_stop, beat_ok}
use mcu_sdk.Net.Socket.{Socket, sdk_agent_version}

-- The number, which is 111 times '0' too big before the subtractions; -1 for no status line.
unfoldable pub http_status : Bytes → ℤ
http_status buf =
    let digits = get_or buf 9 0 * 100 + get_or buf 10 0 * 10 + get_or buf 11 0 in
    if ltb (length buf) 12 then negsuc 0 else elim (strip (codes "HTTP/1.") buf) [
      | none ↦ negsuc 0
      | some rest ↦ if leb 5328 digits then pos (digits - 5328) else negsuc (5328 - digits - 1)
    ]

unfoldable pub is_code : ℕ → ℤ → Bool
is_code code (pos n) = n == code
is_code code (negsuc n) = false

-- The index past the first CRLFCRLF.
unfoldable pub body_offset : Bytes → Option ℕ
body_offset [] = none
body_offset (c ∷ s) =
    let more = elim (body_offset s) as (λ x. Option ℕ) [ none ↦ none | some i ↦ some (i + 1) ] in
    elim (strip (codes "\r\n\r\n") (c ∷ s)) [ none ↦ more | some rest ↦ some 4 ]

module _ {D : Type 0} (sock : Socket D) where
  -- The loop of recv_all with `buf` received; a round that goes on has received a byte.
  unfoldable pub recv_loop : ℕ → ℕ → Bytes → D → Option Bytes × D
  recv_loop zero cap buf d = (some buf, d)
  recv_loop (suc fuel) cap buf d =
      let (got, d') = sock.recv (cap - 1 - length buf) d in
      let round = elim got as (λ x. Option Bytes × D) [
        | none ↦ (none, d')
        | some s ↦
            (let rest = recv_loop fuel cap (buf ++ s) d' in
              if length s == 0 then (some buf, d') else rest)
      ] in
      if ltb (length buf) (cap - 1) then round else (some buf, d)

  unfoldable pub recv_all : ℕ → D → Option Bytes × D
  unfolding recv_loop
  recv_all cap d = recv_loop cap cap [] d

  -- A request that fits `cap` bytes is sent and its response received, and the socket closed.
  unfoldable pub send_request : ℕ → Bytes → D → Bool × D
  send_request cap request d = if leb cap (length request) then (false, d) else sock.send request d

  unfoldable pub exchange : ℕ → ℕ → Bytes → ℕ → D → Option Bytes × D
  unfolding send_request recv_all
  exchange port cap request resp_cap d =
      let (up, d1) = sock.connect port d in
      if not up
      then (none, d1)
      else (let (sent, d2) = send_request cap request d1 in
          if not sent
          then (none, sock.close d2)
          else (let (resp, d3) = recv_all resp_cap d2 in (resp, sock.close d3)))

  module _ (conf : Provisioning) where
    unfoldable pub get_text : Bytes → Bytes
    get_text path =
        codes "GET "
        ++ (path
            ++ (codes "?artifact_name="
                ++ (conf.artifact_name
                    ++ (codes "&target_profile="
                        ++ (conf.target_profile
                            ++ (codes " HTTP/1.1\r\nHost: "
                                ++ (conf.server_host ++ codes "\r\nConnection: close\r\n\r\n")))))))

    -- The body of a response with the code 200; an empty one is a result of 0, like a 204.
    unfoldable pub manifest_of_response : Bytes → Option Bytes
    unfolding http_status is_code body_offset
    manifest_of_response resp =
        if is_code 204 (http_status resp)
        then none
        else if not (is_code 200 (http_status resp))
        then none
        else elim (body_offset resp) [
          | none ↦ none
          | some off ↦ if length (drop off resp) == 0 then none else some (drop off resp)
        ]

    unfoldable pub fetch_manifest : ℕ → D → Option Bytes × D
    unfolding exchange get_text manifest_of_response
    fetch_manifest cap d =
        let (resp, d') =
          exchange conf.artifact_port 256 (get_text (codes "/device/manifest")) cap d in
        elim resp [ none ↦ (none, d') | some bytes ↦ (manifest_of_response bytes, d') ]

    unfoldable pub post_text : Bytes → Bytes → Bytes
    post_text path body =
        codes "POST "
        ++ (path
            ++ (codes " HTTP/1.1\r\nHost: "
                ++ (conf.server_host
                    ++ (codes "\r\nContent-Type: application/json\r\nContent-Length: "
                        ++ (decimal (length body)
                            ++ (codes "\r\nConnection: close\r\n\r\n" ++ body))))))

    -- The response, whose code the caller looks at; `none` is a transport error.
    unfoldable pub post_device : ℕ → Bytes → Bytes → ℕ → D → Option Bytes × D
    unfolding exchange post_text
    post_device port path body cap d = exchange port 512 (post_text path body) cap d

    -- `true` is 0.
    unfoldable pub plat_register : D → Bool × D
    unfolding post_device http_status is_code
    plat_register d =
        let body =
          codes "{\"hw_profile\":\""
          ++ (conf.target_profile
              ++ (codes "\",\"agent_version\":\"" ++ (sdk_agent_version ++ codes "\"}"))) in
        if leb 160 (length body)
        then (false, d)
        else (let (resp, d') = post_device conf.fleet_port (codes "/device/register") body 512 d in
            elim resp [ none ↦ (false, d') | some bytes ↦ (is_code 200 (http_status bytes), d') ])

    -- The loop that sends the log from `s` on. A send takes some of the bytes, and a result of 0 or
    -- less stops it.
    unfoldable pub send_all : ℕ → Bytes → D → Bool × D
    send_all zero s d = (length s == 0, d)
    send_all (suc fuel) s d =
        let (n, d') = sock.send_some s d in
        let rest = send_all fuel (drop n s) d' in
        if length s == 0 then (true, d) else if n == 0 then (false, d') else rest

    unfoldable pub log_text : Bytes → Bytes → Bytes
    log_text id body =
        codes "POST /device/logs/"
        ++ (id
            ++ (codes "?status=ok HTTP/1.1\r\nHost: "
                ++ (conf.server_host
                    ++ (codes "\r\nContent-Type: text/plain\r\nContent-Length: "
                        ++ (decimal (length body) ++ codes "\r\nConnection: close\r\n\r\n")))))

    -- The body and the response, on the open socket.
    unfoldable pub send_log : Bytes → D → Bool × D
    unfolding send_all recv_all http_status is_code
    send_log body d =
        let (sent, d1) = send_all (length body) body d in
        if not sent
        then (false, sock.close d1)
        else (let (resp, d2) = recv_all 256 d1 in
            elim resp [
              | none ↦ (false, sock.close d2)
              | some bytes ↦ (
                is_code 204 (http_status bytes) || is_code 200 (http_status bytes),
                sock.close d2,
              )
            ])

    unfoldable pub upload_logs : Bytes → Bytes → D → Bool × D
    unfolding send_log log_text send_request
    upload_logs id body d =
        let (up, d1) = sock.connect conf.fleet_port d in
        if length id == 0
        then (false, d)
        else if not up
        then (false, d1)
        else (let (sent, d2) = send_request 256 (log_text id body) d1 in
            if not sent then (false, sock.close d2) else send_log body d2)
