-- ===== src/Net/Download.antt =====
-- plat_net_firmware_download of lib/plat/plat_net.c: the image is streamed to a sink.
pub mod Exact
use mcu_sdk.Base.{
  ℕ, zero, suc, ◌+◌, ◌-◌, Bool, true, false, not, ◌||◌, Option, none, some, Bytes, [], ◌∷◌, ◌++◌,
  length, drop, take, codes, ltb, leb, ◌==◌, if◌then◌else◌,
}
use mcu_sdk.Provision.{Provisioning}
use mcu_sdk.Net.Socket.{Socket}
use mcu_sdk.Net.Http.{http_status, is_code, body_offset, send_request, get_text}

-- sizeof(buf)
abbrev pub piece : ℕ
piece = 1536

module _ {D : Type 0} (sock : Socket D) (sink : Bytes → Bool → D → Bool × D) where
  -- The bytes up to the end of the headers and what came with them, and the index of the body.
  unfoldable pub headers_loop : ℕ → Bytes → D → Option (Bytes × ℕ) × D
  headers_loop zero acc d = (none, d)
  headers_loop (suc fuel) acc d =
      let (got, d') = sock.recv (piece - length acc) d in
      elim got [
        | none ↦ (none, d')
        | some s ↦
            (let rest = headers_loop fuel (acc ++ s) d' in
              if length s == 0
              then (none, d')
              else elim (body_offset (acc ++ s)) as (λ x. Option (Bytes × ℕ) × D) [
                | none ↦ if length (acc ++ s) == piece then (none, d') else rest
                | some off ↦ (some (acc ++ s, off), d')
              ])
      ]

  -- What is handed to the sink of the bytes `s`, and whether they are the last.
  unfoldable pub clip : ℕ → ℕ → Bytes → Bytes
  clip size got s = if ltb size (got + length s) then take (size - got) s else s

  -- One call of the sink; the new `got`, or `none` for an error of the sink.
  unfoldable pub feed : ℕ → ℕ → Bytes → D → Option ℕ × D
  unfolding clip
  feed size got s d =
      let part = clip size got s in
      let (good, d') = sink part (leb size (got + length part)) d in
      if good then (some (got + length part), d') else (none, d')

  -- The second loop; its result is `got`, or `none` for an error of the sink. Every round that goes on
  -- hands over a byte at least.
  unfoldable pub stream_loop : ℕ → ℕ → ℕ → D → Option ℕ × D
  unfolding feed
  stream_loop zero size got d = (some got, d)
  stream_loop (suc fuel) size got d =
      let (received, d1) = sock.recv piece d in
      let round = elim received as (λ x. Option ℕ × D) [
        | none ↦ (some got, d1)
        | some s ↦
            (let (fed, d2) = feed size got s d1 in
              let rest = elim fed as (λ x. Option ℕ × D) [
                | none ↦ (none, d2)
                | some got' ↦ stream_loop fuel size got' d2
              ] in
              if length s == 0 then (some got, d1) else rest)
      ] in
      if ltb got size then round else (some got, d)

  -- The bytes that arrived with the headers, and the loop.
  unfoldable pub stream : ℕ → Bytes → D → Option ℕ × D
  unfolding feed stream_loop
  stream size first d =
      if length first == 0
      then stream_loop size size 0 d
      else (let (fed, d') = feed size 0 first d in
          elim fed as (λ x. Option ℕ × D) [
            | none ↦ (none, d')
            | some got ↦ stream_loop size size got d'
          ])

  -- The body of a response with its headers in `acc`.
  unfoldable pub receive_body : ℕ → Bytes → ℕ → D → Bool × D
  unfolding stream http_status is_code
  receive_body size acc off d =
      if not (is_code 200 (http_status acc) || is_code 206 (http_status acc))
      then (false, sock.close d)
      else (let (got, d') = stream size (drop off acc) d in
          elim got [ none ↦ (false, sock.close d') | some n ↦ (n == size, sock.close d') ])

  unfoldable pub receive_response : ℕ → D → Bool × D
  unfolding headers_loop receive_body
  receive_response size d =
      let (head, d') = headers_loop piece [] d in
      elim head [ none ↦ (false, sock.close d') | some (acc, off) ↦ receive_body size acc off d' ]

  unfoldable pub firmware_download : Provisioning → ℕ → D → Bool × D
  unfolding receive_response send_request get_text
  firmware_download conf size d =
      let (up, d1) = sock.connect conf.artifact_port d in
      if not up
      then (false, d1)
      else (let (sent, d2) =
            send_request sock 256 (get_text sock conf (codes "/device/firmware")) d1 in
          if not sent then (false, sock.close d2) else receive_response size d2)
