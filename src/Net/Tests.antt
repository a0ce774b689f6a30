-- ===== src/Net/Tests.antt =====
-- A connection that delivers a response in pieces.
use mcu_sdk.Base.{
  ℕ, ◌+◌, ◌≤◌, ◌≡◌, refl, ap, arith, Bool, true, Option, some, Bytes, List, [], ◌∷◌, drop, length,
  take, length-take, codes, pos,
}
use mcu_sdk.Provision.{Provisioning}
use mcu_sdk.Net.{beat_stop}
use mcu_sdk.Net.Socket.{Socket, SocketLaws}
use mcu_sdk.Net.Http.{http_status, is_code, body_offset, send_request, get_text}
use mcu_sdk.Net.Heartbeat.{beat_of_response, contains}
use mcu_sdk.Net.Download.{
  firmware_download, receive_response, receive_body, headers_loop, stream, stream_loop, feed, clip,
}
use mcu_sdk.Net.Download.Exact.{Counts, firmware_download-exact}

-- The pieces to come, and the number of bytes that the sink has taken.
abbrev Line : Type 0
Line = List Bytes × ℕ

abbrev next_piece : ℕ → List Bytes → ℕ → Option Bytes × Line
next_piece n [] k = (some [], ([], k))
next_piece n (p ∷ ps) k = (some (take n p), (ps, k))

abbrev line : Socket Line
line = record {
  connect = λ port d. (true, d);
  send = λ s d. (true, d);
  send_some = λ s d. (length s, d);
  recv = λ n d. next_piece n d.0 d.1;
  close = λ d. d;
}

some-take : (n : ℕ) (p s : Bytes) → some (take n p) ≡ some s → length s ≤ n
some-take n p s h = let e : s ≡ take n p = cc in omega (arith, ap length e, length-take n p)

piece_fits : (n k : ℕ) (ps : List Bytes) (s : Bytes) → (next_piece n ps k).0 ≡ some s → length s ≤ n
piece_fits n k [] s h = let e : s ≡ [] = cc in omega (arith, ap length e)
piece_fits n k (p ∷ ps) s h = some-take n p s h

line_laws : SocketLaws line
line_laws = record { recv_fits = λ n d s h. piece_fits n d.1 d.0 s h }

abbrev counter : Bytes → Bool → Line → Bool × Line
counter s last (ps, k) = (true, (ps, k + length s))

piece_sunk : (n k : ℕ) (ps : List Bytes) → (next_piece n ps k).1.1 ≡ k
piece_sunk n k [] = refl
piece_sunk n k (p ∷ ps) = refl

line-Counts : Counts line counter (λ d. d.1)
line-Counts = record {
  taken = λ s last d h. refl;
  on_connect = λ port d. refl;
  on_send = λ s d. refl;
  on_recv = λ n d. piece_sunk n d.1 d.0;
  on_close = λ d. refl;
}

abbrev conf : Provisioning
conf = record {
  wifi_ssid = codes "net";
  wifi_psk = codes "secret";
  claim_host = codes "edge.local";
  claim_ip = codes "10.0.0.2";
  claim_port = 443;
  claim_ca = codes "root";
  claim_token = codes "tok";
  server_host = codes "cp.local";
  server_ip = codes "10.0.0.1";
  artifact_port = 8443;
  fleet_port = 9443;
  server_ca = codes "ca";
  artifact_name = codes "fw";
  target_profile = codes "esp32";
}

abbrev response : List Bytes
response = codes "HTTP/1.1 200 OK\r\n" ∷ codes "\r\nab" ∷ codes "cdefgh" ∷ []

downloads : (firmware_download line counter conf 5 (response, 0)).0 ≡ true
unfolding firmware_download receive_response receive_body headers_loop stream stream_loop feed clip
    send_request get_text body_offset http_status is_code
downloads = refl

firmware_download-exact_example : (firmware_download line counter conf 5 (response, 0)).1.1 ≡ 5
firmware_download-exact_example =
    firmware_download-exact line counter (λ d. d.1) line-Counts conf 5 (response, 0) downloads

-- A server whose bytes come as they are asked for.
abbrev server : Socket Bytes
server = record {
  connect = λ port d. (true, d);
  send = λ s d. (true, d);
  send_some = λ s d. (length s, d);
  recv = λ n d. (some (take n d), drop n d);
  close = λ d. d;
}

abbrev reply : Bytes
reply = codes "HTTP/1.1 200 OK\r\n\r\nabcdefgh"

-- `:` is the character behind '9', and no test refuses it.
odd_status : http_status (codes "HTTP/1.1 1:0 ") ≡ pos 200
unfolding http_status
odd_status = refl

stops :
    beat_of_response 48 (codes "HTTP/1.1 200 OK\r\n\r\n{\"decommissioned\":true}") ≡ (beat_stop, [])
unfolding beat_of_response contains http_status is_code
stops = refl
