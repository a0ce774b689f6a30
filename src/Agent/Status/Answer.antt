-- ===== src/Agent/Status/Answer.antt =====
-- What the status server of lib/meshanics_agent.c sends: a response that fits its buffers, and that the
-- client's own parser takes apart into the body.
use mcu_sdk.Base.{
  ℕ, zero, suc, bit_and, ◌+◌, ◌/◌, ◌%◌, ◌^◌, ◌≤◌, ◌<◌, ◌≡◌, ◌≢◌, refl, ap, ◌∙◌, arith, Bool, true,
  false, not, Bool-cases, inl, inr, Option, none, some, Bytes, [], ◌∷◌, ◌++◌, All, codes, length,
  length-append, drop, drop-add, ltb, lt→ltb, ◌==◌, if◌then◌else◌,
}
use mcu_sdk.Base.Decimal.{decimal, decimal_digits, decimal-IsDigit, IsDigit}
use mcu_sdk.Base.Hex.{hex_loop, length-hex_loop}
use mcu_sdk.Plat.{Counters}
use mcu_sdk.Net.Http.{http_status, is_code, body_offset}
use mcu_sdk.Agent.Status.{
  Host, About, body_size, resp_size, Served, reset_cause_str, device_id_hex, status_text,
  status_response, local_ip, build_status, send_status, serve,
}

length-decimal_digits : (f n : ℕ) → length (decimal_digits f n) ≤ f
unfolding decimal_digits
length-decimal_digits zero n = omega arith
length-decimal_digits (suc f) n = elim (Bool-cases (ltb n 10)) [
  | inl small ↦ ground arith
  | inr big ↦ ground (
    arith,
    length-append (decimal_digits f (n / 10)) ((b'0' + n % 10) ∷ []),
    length-decimal_digits f (n / 10),
  )
]

length-decimal : (n : ℕ) → length (decimal n) ≤ 20
unfolding decimal
length-decimal n = length-decimal_digits 20 n

length-if :
    (n : ℕ) (t : Bool) (x y : Bytes) → length x ≤ n → length y ≤ n → length (if t then x else y) ≤ n
length-if n true x y h k = h
length-if n false x y h k = k

module _ {D : Type 0} (h : Host D) where
  length-device_id_hex : (d : D) → length (device_id_hex h 40 d) < 40
  unfolding device_id_hex
  length-device_id_hex d = go (h.get_device_id 16 d)
    where
      go :
          (o : Option Bytes)
          → length (elim o as (λ x. Bytes) [ none ↦ [] | some id ↦ hex_loop 40 0 id ]) < 40
      go none = omega arith
      go (some id) = omega (arith, length-hex_loop 40 0 id (omega arith))

  length-reset_cause_str : (d : D) → length (reset_cause_str h d) ≤ 8
  unfolding reset_cause_str
  length-reset_cause_str d = go (h.get_reset_cause d)
    where
      go :
          (o : Option ℕ)
          → length (elim o as (λ x. Bytes) [
            | none ↦ codes "unknown"
            | some cause ↦
                if not (bit_and cause h.reset_por == 0)
                then codes "power-on"
                else if not (bit_and cause h.reset_pin == 0)
                then codes "pin"
                else if not (bit_and cause h.reset_software == 0)
                then codes "software"
                else if not (bit_and cause h.reset_watchdog == 0)
                then codes "watchdog"
                else if not (bit_and cause h.reset_brownout == 0)
                then codes "brownout"
                else if not (cause == 0)
                then codes "other"
                else codes "none"
          ])
            ≤ 8
      go none = omega arith
      go (some cause) =
          length-if 8 (not (bit_and cause h.reset_por == 0)) (codes "power-on") _ (omega arith) (
            length-if 8 (not (bit_and cause h.reset_pin == 0)) (codes "pin") _ (omega arith) (
              length-if 8 (not (bit_and cause h.reset_software == 0)) (codes "software") _
                (omega arith)
                (length-if 8 (not (bit_and cause h.reset_watchdog == 0)) (codes "watchdog") _
                  (omega arith)
                  (length-if 8 (not (bit_and cause h.reset_brownout == 0)) (codes "brownout") _
                    (omega arith)
                    (length-if 8 (not (cause == 0)) (codes "other") (codes "none") (omega arith)
                      (omega arith))))))

length-status_text :
    (about : About) (seconds applied : ℕ) (cause id ip : Bytes) (served : ℕ)
    → length cause ≤ 8
    → length id < 40
    → length (status_text about seconds applied cause id ip served)
      ≤ 273 + (length about.version + length about.board + length about.key_id + length ip)
unfolding status_text
length-status_text about seconds applied cause id ip served h k =
    simp length-append
      (omega (arith, length-decimal seconds, length-decimal applied, length-decimal served, h, k))

length-status_response : (body : Bytes) → length (status_response body) ≤ 108 + length body
unfolding status_response
length-status_response body = simp length-append (omega (arith, length-decimal (length body)))

status_text_pos :
    (about : About) (seconds applied : ℕ) (cause id ip : Bytes) (served : ℕ)
    → 0 < length (status_text about seconds applied cause id ip served)
unfolding status_text
status_text_pos about seconds applied cause id ip served = omega arith

-- A header without a CRLFCRLF in it is passed over.
body_offset-other :
    (c : ℕ) (s : Bytes) (i : ℕ)
    → c ≢ 13
    → body_offset s ≡ some i
    → body_offset (c ∷ s) ≡ some (i + 1)
unfolding body_offset
body_offset-other c s i other e =
    let no : (13 == c) ≡ false = ground arith in rw (no, e, body_offset) refl

body_offset-digits :
    (ds s : Bytes) (i : ℕ)
    → All IsDigit ds
    → body_offset s ≡ some i
    → body_offset (ds ++ s) ≡ some (length ds + i)
body_offset-digits [] s i h e = rw (e) (ap some (omega arith))
body_offset-digits (c ∷ ds) s i (first, h) e =
    body_offset-other c (ds ++ s) (length ds + i) (λ k. omega arith) (body_offset-digits ds s i h e)
    ∙ ap some (omega arith)

http_status-ok : (s : Bytes) → is_code 200 (http_status (codes "HTTP/1.1 200 OK\r\n" ++ s)) ≡ true
unfolding http_status is_code
http_status-ok s =
    let long : ltb (length (codes "HTTP/1.1 200 OK\r\n" ++ s)) 12 ≡ false = ground arith in
    rw (long) refl

-- Every status response has the code 200, and its first empty line ends the header, so that what a
-- client finds behind it is exactly the status text.
pub status_response-parsed :
    (body : Bytes)
    → (is_code 200 (http_status (status_response body)) ≡ true)
      × ((off : ℕ) × (body_offset (status_response body) ≡ some off)
          × (drop off (status_response body) ≡ body))
unfolding status_response body_offset
status_response-parsed body =
    let ds = decimal (length body) in
    let end = codes "\r\nConnection: close\r\n\r\n" in
    let e = body_offset-digits ds (end ++ body) 23 (decimal-IsDigit (length body)) refl in
    let e2 = drop-add 65 (status_response body) ds (end ++ body) refl in
    (
      http_status-ok _,
      (
        65 + length ds + 23,
        (rw (e, body_offset, status_response) (ap some (omega arith))),
        drop-add (65 + length ds) (status_response body) end body e2,
      ),
    )

module _ (c : Counters) (h : Host c.Dev) (about : About) where
  -- With a version, a board name, a key id and an address of 238 bytes together at most: every request
  -- of which zsock_recv returns is answered with the whole status text and the connection closed, the
  -- text and the response both fitting their buffers with their NUL.
  pub serve-answers :
      (s : Served c.Dev)
      → length about.version
          + length about.board
          + length about.key_id
          + length (local_ip c h about s.dev)
        ≤ 238
      → (h.recv 256 s.dev).0 ≡ true
      → let s1 = record s {
        dev = (h.recv 256 s.dev).1;
        requests_served = (s.requests_served + 1) % 2 ^ 32;
      } in
        let (body, s2) = build_status c h about (local_ip c h about s.dev) s1 in
        ((serve c h about s).0 ≡ true)
        × ((serve c h about s).1.dev ≡ h.close (h.send (status_response body) s2.dev))
        × (length body < body_size)
        × (length (status_response body) < resp_size)
  unfolding serve send_status build_status
  serve-answers s room came =
      let d = (h.recv 256 s.dev).1 in
      let ip = local_ip c h about s.dev in
      let served = (s.requests_served + 1) % 2 ^ 32 in
      let id = device_id_hex h 40 d in
      let cause = reset_cause_str h d in
      let seconds = h.uptime d / 1000 in
      let applied = (c.applied_counter d).0 in
      let k =
        length-status_text about seconds applied cause id ip served (length-reset_cause_str h d)
          (length-device_id_hex h d) in
      let body = status_text about seconds applied cause id ip served in
      let some_text = lt→ltb _ _ (status_text_pos about seconds applied cause id ip served) in
      let small : length body < body_size = omega (arith, k) in
      let small2 : length (status_response body) < resp_size =
        omega (arith, k, length-status_response body) in
      let fits = lt→ltb (length body) body_size small in
      let fits2 = lt→ltb (length (status_response body)) resp_size small2 in
      rw (came, some_text, fits, fits2) (refl, refl, small, small2)
