-- ===== src/Enroll/Fits.antt =====
-- That a response of https in lib/provision/enroll.c fits its buffer with the NUL behind it, and that the
-- loop that receives it ends.
use mcu_sdk.Base.{
  by_if, ℕ, zero, suc, ◌+◌, ◌-◌, ◌≤◌, ◌<◌, ◌≡◌, refl, subst, arith, Bool-cases, inl, inr, Option,
  none, some, Bytes, [], ◌++◌, length, length-append, leb, ◌==◌,
}
use mcu_sdk.Net.Tls.{Zsock}
use mcu_sdk.Net.Ends.{agree-if, agree-elim}
use mcu_sdk.Enroll.Link.{set_https_options, send_loop, receive_loop, converse, https}

module _ {D : Type 0} (z : Zsock D)
    (fits : (n : ℕ) (d : D) (s : Bytes) → (z.zsock_recv n d).0 ≡ some s → length s ≤ n) where
  Short : ℕ → Bytes × D → Type 0
  Short cap r = length r.0 < cap

  Short-elim :
      (cap : ℕ) (o : Option Bytes) (x : Bytes × D) (f : Bytes → Bytes × D)
      → Short cap x
      → ((s : Bytes) → o ≡ some s → Short cap (f s))
      → Short cap (elim o as (λ x. Bytes × D) [ none ↦ x | some s ↦ f s ])
  Short-elim cap none x f h k = h
  Short-elim cap (some s) x f h k = k s refl

  receive_loop-Short :
      (fuel cap : ℕ) (buf : Bytes) (d : D)
      → length buf < cap
      → Short cap (receive_loop z fuel cap buf d)
  unfolding receive_loop Short
  receive_loop-Short zero cap buf d h = h
  receive_loop-Short (suc fuel) cap buf d h =
      let r = z.zsock_recv (cap - 1 - length buf) d in
      Short-elim cap r.0 _ _ h (λ s e.
        let room : length (buf ++ s) < cap =
          omega (arith, length-append buf s, fits (cap - 1 - length buf) d s e) in
        by_if (Short cap) (length s == 0) _ _ (λ end. h)
          (λ some_bytes.
            by_if (Short cap) (leb (cap - 1) (length (buf ++ s))) _ _ (λ full. room)
              (λ more. receive_loop-Short fuel cap (buf ++ s) r.1 room)))

  receive_loop-ends :
      (fuel fuel' cap : ℕ) (buf : Bytes) (d : D)
      → length buf + 1 < cap
      → cap ≤ length buf + 1 + fuel
      → cap ≤ length buf + 1 + fuel'
      → receive_loop z fuel cap buf d ≡ receive_loop z fuel' cap buf d
  unfolding receive_loop
  receive_loop-ends zero fuel' cap buf d h k k' = absurd (omega arith)
  receive_loop-ends (suc fuel) zero cap buf d h k k' = absurd (omega arith)
  receive_loop-ends (suc fuel) (suc fuel') cap buf d h k k' =
      let r = z.zsock_recv (cap - 1 - length buf) d in
      agree-elim r.0 _ _ _ (λ s e.
        agree-if (length s == 0) _ _ _ _ (λ end. refl)
          (λ some_bytes.
            agree-if (leb (cap - 1) (length (buf ++ s))) _ _ _ _ (λ full. refl)
              (λ more.
                receive_loop-ends fuel fuel' cap (buf ++ s) r.1 (ground arith)
                  (ground (arith, length-append buf s)) (ground (arith, length-append buf s)))))

  converse-fits :
      (request : Bytes) (cap : ℕ) (d : D) (resp : Bytes)
      → 0 < cap
      → (converse z request cap d).0 ≡ some resp
      → length resp < cap
  unfolding converse Short
  converse-fits request cap d resp h e =
      let s = send_loop z (length request) request d in
      elim (Bool-cases s.0) [
        | inl sent ↦
            let same : some (receive_loop z cap cap [] s.1).0 ≡ some resp = rw (sent) at e in
            let same2 : (receive_loop z cap cap [] s.1).0 ≡ resp = cc in
            subst (λ t. length t < cap) same2 (receive_loop-Short cap cap [] s.1 h)
        | inr failed ↦ absurd (let no : none ≡ some resp = rw (failed) at e in cc)
      ]

  -- On sockets whose receive keeps to its buffer, with room for two bytes at least: a response has
  -- fewer bytes than its buffer, so that the NUL behind it is inside; and the loop that receives it
  -- ends, however the peer cuts it up: with more rounds than the buffer has bytes it gives the same.
  pub https-fits :
      (tag : ℕ) (host ip : Bytes) (port : ℕ) (request : Bytes) (cap more : ℕ) (d : D) (resp : Bytes)
      → 1 < cap
      → (https z tag host ip port request cap d).0 ≡ some resp
      → (length resp < cap) × (receive_loop z (cap + more) cap [] d ≡ receive_loop z cap cap [] d)
  unfolding https
  https-fits tag host ip port request cap more d resp h e =
      let m = z.zsock_socket d in
      let r = z.zsock_connect ip port (set_https_options z tag host m.1) in
      (
        elim (Bool-cases m.0) [
          | inr unmade ↦ absurd (let no : none ≡ some resp = rw (unmade) at e in cc)
          | inl made ↦ elim (Bool-cases r.0) [
            | inr down ↦ absurd (let no : none ≡ some resp = rw (made, down) at e in cc)
            | inl up ↦
                converse-fits request cap r.1 resp (omega arith)
                  (let k : (converse z request cap r.1).0 ≡ some resp = rw (made, up) at e in k)
          ]
        ],
        receive_loop-ends (cap + more) cap cap [] d (omega arith) (omega arith) (omega arith),
      )
