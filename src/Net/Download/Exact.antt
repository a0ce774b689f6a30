-- ===== src/Net/Download/Exact.antt =====
-- A download that succeeds has handed over exactly as many bytes as were asked for.
use mcu_sdk.Base.{
  by_if, by_if, ℕ, zero, suc, ◌+◌, ◌-◌, ◌≤◌, ◌≡◌, refl, subst, ◌∙◌, arith, Bool, true, false, not,
  ◌||◌, Option, none, some, Bytes, [], ◌++◌, length, drop, length-take, ltb, leb, ◌==◌, codes,
  if◌then◌else◌,
}
use mcu_sdk.Provision.{Provisioning}
use mcu_sdk.Net.Socket.{Socket}
use mcu_sdk.Net.Http.{http_status, is_code, body_offset, send_request, get_text}
use mcu_sdk.Net.Download.{
  piece, headers_loop, clip, feed, stream_loop, stream, receive_body, receive_response,
  firmware_download,
}

-- `sunk` counts the bytes that the sink has taken: a call that succeeds takes all of its bytes, and
-- the network takes none.
pub record Counts {D : Type 0} (sock : Socket D) (sink : Bytes → Bool → D → Bool × D) (sunk : D → ℕ)
    : Type 0 where
  pub taken :
      (s : Bytes) (last : Bool) (d : D)
      → (sink s last d).0 ≡ true
      → sunk (sink s last d).1 ≡ sunk d + length s
  pub on_connect : (port : ℕ) (d : D) → sunk (sock.connect port d).1 ≡ sunk d
  pub on_send : (s : Bytes) (d : D) → sunk (sock.send s d).1 ≡ sunk d
  pub on_recv : (n : ℕ) (d : D) → sunk (sock.recv n d).1 ≡ sunk d
  pub on_close : (d : D) → sunk (sock.close d) ≡ sunk d

module _ {D : Type 0} (sock : Socket D) (sink : Bytes → Bool → D → Bool × D) (sunk : D → ℕ)
    (counts : Counts sock sink sunk) where
  -- `n` more bytes than `base` have been taken, at most `size`, unless the result is an error.
  Took : ℕ → ℕ → Option ℕ × D → Type 0
  Took size base (none, d) = Unit
  Took size base (some n, d) = (n ≤ size) × (sunk d ≡ base + n)

  length-clip :
      (size got : ℕ) (s : Bytes) → got ≤ size → got + length (clip sock sink size got s) ≤ size
  unfolding clip
  length-clip size got s h = ground (arith, length-take (size - got) s)

  feed-Took :
      (size base got : ℕ) (s : Bytes) (d : D)
      → got ≤ size
      → sunk d ≡ base + got
      → Took size base (feed sock sink size got s d)
  unfolding feed Took
  feed-Took size base got s d h e =
      let part = clip sock sink size got s in
      let r = sink part (leb size (got + length part)) d in
      by_if (Took size base) r.0 _ _
        (λ good. (
          length-clip size got s h,
          omega (arith, counts.taken part (leb size (got + length part)) d good, e),
        ))
        (λ bad. tt)

  -- The rest of a loop, `next`, behind a call of the sink.
  fed_on :
      (size base : ℕ) (next : ℕ → D → Option ℕ × D)
      → ((got : ℕ) (d : D) → got ≤ size → sunk d ≡ base + got → Took size base (next got d))
      → (fed : Option ℕ) (d : D) → Took size base (fed, d)
      → Took size base
          (elim fed as (λ x. Option ℕ × D) [ none ↦ (none, d) | some got ↦ next got d ])
  unfolding Took
  fed_on size base next ih none d k = tt
  fed_on size base next ih (some got) d (k, k2) = ih got d k k2

  received :
      (size base got : ℕ) (next : ℕ → D → Option ℕ × D)
      → ((got' : ℕ) (d : D) → got' ≤ size → sunk d ≡ base + got' → Took size base (next got' d))
      → got ≤ size
      → (o : Option Bytes) (d1 : D) → sunk d1 ≡ base + got
      → Took size base (elim o as (λ x. Option ℕ × D) [
        | none ↦ (some got, d1)
        | some s ↦
            (let (fed, d2) = feed sock sink size got s d1 in
              let rest = elim fed as (λ x. Option ℕ × D) [
                | none ↦ (none, d2)
                | some got' ↦ next got' d2
              ] in
              if length s == 0 then (some got, d1) else rest)
      ])
  unfolding Took
  received size base got next ih h none d1 k = (h, k)
  received size base got next ih h (some s) d1 k =
      let f = feed sock sink size got s d1 in
      by_if (Took size base) (length s == 0) _ _ (λ end. (h, k))
        (λ more. fed_on size base next ih f.0 f.1 (feed-Took size base got s d1 h k))

  stream_loop-Took :
      (fuel size base got : ℕ) (d : D)
      → got ≤ size
      → sunk d ≡ base + got
      → Took size base (stream_loop sock sink fuel size got d)
  unfolding stream_loop Took
  stream_loop-Took zero size base got d h e = (h, e)
  stream_loop-Took (suc fuel) size base got d h e =
      let r = sock.recv piece d in
      by_if (Took size base) (ltb got size) _ _
        (λ more.
          received size base got (stream_loop sock sink fuel size) (stream_loop-Took fuel size base)
            h r.0 r.1 (counts.on_recv piece d ∙ e))
        (λ over. (h, e))

  stream-Took :
      (size base : ℕ) (first : Bytes) (d : D)
      → sunk d ≡ base
      → Took size base (stream sock sink size first d)
  unfolding stream
  stream-Took size base first d e =
      let f = feed sock sink size 0 first d in
      by_if (Took size base) (length first == 0) _ _
        (λ bare. stream_loop-Took size size base 0 d (omega arith) (omega (arith, e)))
        (λ more.
          fed_on size base (stream_loop sock sink size size) (stream_loop-Took size size base) f.0
            f.1 (feed-Took size base 0 first d (omega arith) (omega (arith, e))))

  -- A download that reports success has made the sink take `size` bytes more.
  IsExact : ℕ → ℕ → Bool × D → Type 0
  IsExact size base r = r.0 ≡ true → sunk r.1 ≡ base + size

  failure : (size base : ℕ) (d : D) → IsExact size base (false, d)
  unfolding IsExact
  failure size base d h = ground arith

  ended :
      (size base : ℕ) (got : Option ℕ) (d : D)
      → Took size base (got, d)
      → IsExact size base (elim got as (λ x. Bool × D) [
        | none ↦ (false, sock.close d)
        | some n ↦ (n == size, sock.close d)
      ])
  unfolding IsExact Took
  ended size base none d k all = ground arith
  ended size base (some n) d (k, k2) all = ground (arith, k2, counts.on_close d)

  receive_body-IsExact :
      (size base : ℕ) (acc : Bytes) (off : ℕ) (d : D)
      → sunk d ≡ base
      → IsExact size base (receive_body sock sink size acc off d)
  unfolding receive_body
  receive_body-IsExact size base acc off d e =
      let s = stream sock sink size (drop off acc) d in
      by_if (IsExact size base)
        (not (is_code 200 (http_status acc) || is_code 206 (http_status acc))) _ _
        (λ bad. failure size base (sock.close d))
        (λ good. ended size base s.0 s.1 (stream-Took size base (drop off acc) d e))

  same_if :
      {A : Type 0} (n : ℕ) (t : Bool) (x y : A × D)
      → sunk x.1 ≡ n
      → sunk y.1 ≡ n
      → sunk (if t then x else y).1 ≡ n
  same_if n true x y h k = h
  same_if n false x y h k = k

  looked :
      (n : ℕ) (acc : Bytes) (rest : Option (Bytes × ℕ) × D) (d1 : D)
      → sunk rest.1 ≡ n
      → sunk d1 ≡ n
      → (o : Option ℕ)
      → sunk
          (elim o as (λ x. Option (Bytes × ℕ) × D) [
            | none ↦ if length acc == piece then (none, d1) else rest
            | some off ↦ (some (acc, off), d1)
          ]).1
        ≡ n
  looked n acc rest d1 e e1 none = same_if n (length acc == piece) _ _ e1 e
  looked n acc rest d1 e e1 (some off) = e1

  headed_on :
      (n : ℕ) (acc : Bytes) (next : Bytes → D → Option (Bytes × ℕ) × D)
      → ((acc' : Bytes) (d : D) → sunk (next acc' d).1 ≡ sunk d)
      → (d1 : D) → sunk d1 ≡ n
      → (o : Option Bytes)
      → sunk
          (elim o as (λ x. Option (Bytes × ℕ) × D) [
            | none ↦ (none, d1)
            | some s ↦
                (let rest = next (acc ++ s) d1 in
                  if length s == 0
                  then (none, d1)
                  else elim (body_offset (acc ++ s)) as (λ x. Option (Bytes × ℕ) × D) [
                    | none ↦ if length (acc ++ s) == piece then (none, d1) else rest
                    | some off ↦ (some (acc ++ s, off), d1)
                  ])
          ]).1
        ≡ n
  headed_on n acc next ih d1 e1 none = e1
  headed_on n acc next ih d1 e1 (some s) = same_if n (length s == 0) _ _ e1 (
      looked n (acc ++ s) (next (acc ++ s) d1) d1 (ih (acc ++ s) d1 ∙ e1) e1
        (body_offset (acc ++ s)))

  headers_loop-sunk :
      (fuel : ℕ) (acc : Bytes) (d : D) → sunk (headers_loop sock sink fuel acc d).1 ≡ sunk d
  unfolding headers_loop
  headers_loop-sunk zero acc d = refl
  headers_loop-sunk (suc fuel) acc d =
      let r = sock.recv (piece - length acc) d in
      headed_on (sunk d) acc (headers_loop sock sink fuel) (headers_loop-sunk fuel) r.1
        (counts.on_recv (piece - length acc) d) r.0

  send_request-sunk : (cap : ℕ) (s : Bytes) (d : D) → sunk (send_request sock cap s d).1 ≡ sunk d
  unfolding send_request
  send_request-sunk cap s d = same_if (sunk d) (leb cap (length s)) _ _ refl (counts.on_send s d)

  receive_response-IsExact :
      (size : ℕ) (d : D) → IsExact size (sunk d) (receive_response sock sink size d)
  unfolding receive_response
  receive_response-IsExact size d = headed (headers_loop sock sink piece [] d).0
    where
      d1 : D
      d1 = (headers_loop sock sink piece [] d).1

      headed :
          (o : Option (Bytes × ℕ))
          → IsExact size (sunk d) (elim o as (λ x. Bool × D) [
            | none ↦ (false, sock.close d1)
            | some (acc, off) ↦ receive_body sock sink size acc off d1
          ])
      headed none = failure size (sunk d) (sock.close d1)
      headed (some (acc, off)) =
          receive_body-IsExact size (sunk d) acc off d1 (headers_loop-sunk piece [] d)

  -- A download that reports success has handed the sink exactly `size` bytes, however the response
  -- was cut into pieces, for any network and any sink whose successful calls take all their bytes.
  pub firmware_download-exact :
      (conf : Provisioning) (size : ℕ) (d : D)
      → (firmware_download sock sink conf size d).0 ≡ true
      → sunk (firmware_download sock sink conf size d).1 ≡ sunk d + size
  unfolding firmware_download IsExact
  firmware_download-exact conf size d =
      let request = get_text sock conf (codes "/device/firmware") in
      let d1 = sock.connect conf.artifact_port d in
      let e1 = counts.on_connect conf.artifact_port d in
      let d2 = send_request sock 256 request d1.1 in
      by_if (IsExact size (sunk d)) (not d1.0) _ _ (λ down. failure size (sunk d) d1.1)
        (λ up.
          by_if (IsExact size (sunk d)) (not d2.0) _ _
            (λ unsent. failure size (sunk d) (sock.close d2.1))
            (λ sent.
              subst (λ n. IsExact size n (receive_response sock sink size d2.1))
                (send_request-sunk 256 request d1.1 ∙ e1) (receive_response-IsExact size d2.1)))
