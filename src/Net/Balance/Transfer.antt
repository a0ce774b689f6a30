-- ===== src/Net/Balance/Transfer.antt =====
-- What the streaming download of lib/plat/plat_net.c leaves as it was, on every path.
use mcu_sdk.Base.{
  ℕ, zero, suc, ◌+◌, ◌-◌, ◌≡◌, refl, ◌∙◌, Bool, not, ◌||◌, Bytes, [], ◌++◌, length, drop, ltb, leb,
  ◌==◌, codes,
}
use mcu_sdk.Provision.{Provisioning}
use mcu_sdk.Net.Socket.{Socket}
use mcu_sdk.Net.Http.{http_status, is_code, body_offset, send_request, get_text}
use mcu_sdk.Net.Download.{
  piece, headers_loop, clip, feed, stream_loop, stream, receive_body, receive_response,
  firmware_download,
}
use mcu_sdk.Net.Balance.{IsBalanced, view-if, view-elim, view-opened, view-close, view-send_request}

module _ {D V : Type 0} (sock : Socket D) (view : D → V) (up down : V → V)
    (laws : IsBalanced sock view up down) (sink : Bytes → Bool → D → Bool × D)
    (on_sink : (s : Bytes) (last : Bool) (d : D) → view (sink s last d).1 ≡ view d) where
  view-headers_loop :
      (fuel : ℕ) (acc : Bytes) (d : D) → view (headers_loop sock sink fuel acc d).1 ≡ view d
  unfolding headers_loop
  view-headers_loop zero acc d = refl
  view-headers_loop (suc fuel) acc d =
      let r = sock.recv (piece - length acc) d in
      let e = laws.on_recv (piece - length acc) d in
      view-elim view (view d) r.0 _ _ e (λ s. view-if view (view d) (length s == 0) _ _ e (
        view-elim view (view d) (body_offset (acc ++ s)) _ _
          (view-if view (view d) (length (acc ++ s) == piece) _ _ e
            (view-headers_loop fuel (acc ++ s) r.1 ∙ e))
          (λ off. e)))

  view-feed : (size got : ℕ) (s : Bytes) (d : D) → view (feed sock sink size got s d).1 ≡ view d
  unfolding feed
  view-feed size got s d =
      let part = clip sock sink size got s in
      let last = leb size (got + length part) in
      view-if view (view d) (sink part last d).0 _ _ (on_sink part last d) (on_sink part last d)

  view-stream_loop :
      (fuel size got : ℕ) (d : D) → view (stream_loop sock sink fuel size got d).1 ≡ view d
  unfolding stream_loop
  view-stream_loop zero size got d = refl
  view-stream_loop (suc fuel) size got d =
      let r = sock.recv piece d in
      let e = laws.on_recv piece d in
      view-if view (view d) (ltb got size) _ _
        (view-elim view (view d) r.0 _ _ e (λ s.
          let f = feed sock sink size got s r.1 in
          let e2 = view-feed size got s r.1 ∙ e in
          view-if view (view d) (length s == 0) _ _ e (
            view-elim view (view d) f.0 _ _ e2 (λ got'. view-stream_loop fuel size got' f.1 ∙ e2))))
        refl

  view-stream : (size : ℕ) (first : Bytes) (d : D) → view (stream sock sink size first d).1 ≡ view d
  unfolding stream
  view-stream size first d =
      let f = feed sock sink size 0 first d in
      let e = view-feed size 0 first d in
      view-if view (view d) (length first == 0) _ _ (view-stream_loop size size 0 d)
        (view-elim view (view d) f.0 _ _ e (λ got. view-stream_loop size size got f.1 ∙ e))

  view-receive_body :
      (v : V) (size : ℕ) (acc : Bytes) (off : ℕ) (d : D)
      → view d ≡ up v
      → view (receive_body sock sink size acc off d).1 ≡ v
  unfolding receive_body
  view-receive_body v size acc off d e =
      let s = stream sock sink size (drop off acc) d in
      let e1 = view-close sock view up down laws v d e in
      let e2 = view-close sock view up down laws v s.1 (view-stream size (drop off acc) d ∙ e) in
      view-if view v (not (is_code 200 (http_status acc) || is_code 206 (http_status acc))) _ _ e1
        (view-elim view v s.0 _ _ e2 (λ n. e2))

  view-receive_response :
      (v : V) (size : ℕ) (d : D) → view d ≡ up v → view (receive_response sock sink size d).1 ≡ v
  unfolding receive_response
  view-receive_response v size d e =
      let h = headers_loop sock sink piece [] d in
      let e1 = view-headers_loop piece [] d ∙ e in
      view-elim view v h.0 _ _ (view-close sock view up down laws v h.1 e1)
        (λ (acc, off). view-receive_body v size acc off h.1 e1)

  pub view-firmware_download :
      (conf : Provisioning) (size : ℕ) (d : D)
      → view (firmware_download sock sink conf size d).1 ≡ view d
  unfolding firmware_download
  view-firmware_download conf size d =
      let request = get_text sock conf (codes "/device/firmware") in
      let d1 = sock.connect conf.artifact_port d in
      let d2 = send_request sock 256 request d1.1 in
      view-opened view up (view d) d1.0 d1.1 _ _ (laws.on_connect conf.artifact_port d) (λ e. e)
        (λ e.
          let e2 = view-send_request sock view up down laws 256 request d1.1 ∙ e in
          view-if view (view d) (not d2.0) _ _ (view-close sock view up down laws (view d) d2.1 e2)
            (view-receive_response (view d) size d2.1 e2))
