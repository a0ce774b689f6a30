-- ===== src/Net/Laws.antt =====
-- lib/plat/plat_net.c as an implementation of the interface `Net`, which the agent and the installer
-- use.
use mcu_sdk.Base.{
  ℕ, zero, suc, ◌-◌, ◌≡◌, refl, not, ◌∙◌, arith, Bool, false, some, Bytes, room, codes, ◌==◌,
}
use mcu_sdk.Provision.{Provisioning}
use mcu_sdk.Plat.{Counters}
use mcu_sdk.Ota.Heartbeat.{heartbeat_json}
use mcu_sdk.Net.{Net, NetLaws}
use mcu_sdk.Net.Socket.{Socket, SocketLaws, sdk_agent_version}
use mcu_sdk.Net.Http.{post_device, plat_register, fetch_manifest, upload_logs}
use mcu_sdk.Net.Http.Body.{fetch_manifest-short}
use mcu_sdk.Net.Heartbeat.{reverted_version, heartbeat}
use mcu_sdk.Net.Download.{firmware_download}
use mcu_sdk.Net.Wifi.{Wifi, settle, await_loop, request_loop, wifi_up}
use mcu_sdk.Net.Balance.{
  IsBalanced, view-if, view-elim, view-fetch_manifest, view-post_device, view-plat_register,
  view-upload_logs,
}
use mcu_sdk.Net.Balance.Transfer.{view-firmware_download}
use mcu_sdk.Net.Tls.{Zsock, IsPaired, tls_socket, tls_socket-IsBalanced}

-- wifi_connected is false when the agent calls plat_net_wifi_up, which it does once.
abbrev pub net : (c : Counters) → Wifi c.Dev → Socket c.Dev → Provisioning → Bool → Net c.Dev
net c w sock conf char_signed = record {
  wifi_up = wifi_up w conf false;
  plat_register = plat_register sock conf;
  heartbeat = heartbeat c sock conf char_signed;
  upload_logs = upload_logs sock conf;
  fetch_manifest = fetch_manifest sock conf;
  firmware_download = λ size sink d. firmware_download sock sink conf size d;
}

-- The calls of Zephyr's network management, and the two getters of the heartbeat, leave a view as it
-- was.
pub record KeepsRest {V : Type 0} (c : Counters) (w : Wifi c.Dev) (view : c.Dev → V) : Type 0 where
  pub keeps_callback : (d : c.Dev) → view (w.add_event_callback d) ≡ view d
  pub keeps_request :
      (ssid psk : Bytes) (d : c.Dev) → view (w.request_connect ssid psk d).1 ≡ view d
  pub keeps_msleep : (n : ℕ) (d : c.Dev) → view (w.k_msleep n d).1 ≡ view d
  pub keeps_dhcp : (d : c.Dev) → view (w.dhcpv4_start d) ≡ view d
  pub keeps_failed : (d : c.Dev) → view (c.failed_counter d).1 ≡ view d
  pub keeps_attempted : (d : c.Dev) → view (c.attempted_version 32 d).1 ≡ view d

module _ {V : Type 0} (c : Counters) (w : Wifi c.Dev) (sock : Socket c.Dev) (conf : Provisioning)
    (char_signed : Bool) (view : c.Dev → V) (up down : V → V) (laws : IsBalanced sock view up down)
    (rest : KeepsRest c w view) where
  view-request_loop :
      (t : ℕ) (connected : Bool) (d : c.Dev) → view (request_loop w conf t connected d).1 ≡ view d
  unfolding request_loop
  view-request_loop zero connected d = refl
  view-request_loop (suc t) connected d =
      let r = w.request_connect conf.wifi_ssid conf.wifi_psk d in
      let e = rest.keeps_request conf.wifi_ssid conf.wifi_psk d in
      view-if view (view d) r.0.0 _ _ e
        (view-request_loop t _ (w.k_msleep 500 r.1).1 ∙ (rest.keeps_msleep 500 r.1 ∙ e))

  view-await_loop :
      (t : ℕ) (connected : Bool) (d : c.Dev) → view (await_loop w t connected d).1 ≡ view d
  unfolding await_loop
  view-await_loop zero connected d = refl
  view-await_loop (suc t) connected d =
      view-if view (view d) connected _ _ refl
        (view-await_loop t _ (w.k_msleep 100 d).1 ∙ rest.keeps_msleep 100 d)

  view-wifi_up : (d : c.Dev) → view (wifi_up w conf false d).1 ≡ view d
  unfolding wifi_up settle
  view-wifi_up d =
      let d0 = w.add_event_callback d in
      let r = request_loop w conf 10 false d0 in
      let a = await_loop w 200 r.0 r.1 in
      let e =
        view-await_loop 200 r.0 r.1 ∙ (view-request_loop 10 false d0 ∙ rest.keeps_callback d) in
      view-if view (view d) (not a.0) _ _ e
        (rest.keeps_msleep 3000 (w.dhcpv4_start a.1) ∙ (rest.keeps_dhcp a.1 ∙ e))

  view-reverted_version : (d : c.Dev) → view (reverted_version c sock conf char_signed d).1 ≡ view d
  unfolding reverted_version
  view-reverted_version d =
      let f = c.failed_counter d in
      let e = rest.keeps_failed d in
      view-if view (view d) (f.0 == 0) _ _ e (rest.keeps_attempted f.1 ∙ e)

  view-heartbeat :
      (version : Bytes) (applied : ℕ) (healthy : Bool) (detail : Bytes) (cap : ℕ) (d : c.Dev)
      → view (heartbeat c sock conf char_signed version applied healthy detail cap d).1 ≡ view d
  unfolding heartbeat
  view-heartbeat version applied healthy detail cap d =
      let r = reverted_version c sock conf char_signed d in
      let e = view-reverted_version d in
      view-elim view (view d)
        (heartbeat_json char_signed (room 256) (some sdk_agent_version) (some version) applied
          healthy (some detail) r.0)
        _ _ e
        (λ body.
          let p = post_device sock conf conf.fleet_port (codes "/device/heartbeat") body 512 r.1 in
          let e2 =
            view-post_device sock view up down laws conf conf.fleet_port (codes "/device/heartbeat")
              body 512 r.1
            ∙ e in
          view-elim view (view d) p.0 _ _ e2 (λ bytes. e2))

  -- For a socket that changes a view of the device evenly, receives no more than it was asked for,
  -- and network management and getters that leave the view alone: every function of plat_net.c
  -- leaves the view as it was, on every path, errors included, if the sink of a download does; and
  -- a manifest fits the capacity that was given.
  pub net-NetLaws : SocketLaws sock → NetLaws (net c w sock conf char_signed) view
  net-NetLaws fits = record {
    keeps_wifi = view-wifi_up;
    keeps_register = view-plat_register sock view up down laws conf;
    keeps_heartbeat = view-heartbeat;
    keeps_upload = view-upload_logs sock view up down laws conf;
    keeps_fetch = view-fetch_manifest sock view up down laws conf;
    keeps_download = λ size sink h. view-firmware_download sock view up down laws sink h conf size;
    fetch_fits = λ cap d buf h. omega (arith, fetch_manifest-short sock fits conf cap d buf h);
  }

-- With Zephyr's sockets under tls_connect, where the number of open sockets is changed only by the
-- creation of a socket and by a close, and a receive keeps to its buffer: no function of plat_net.c
-- leaks a socket, on any path: each leaves as many open as it found.
pub net-CountsOpen :
    (c : Counters) (w : Wifi c.Dev) (z : Zsock c.Dev) (conf : Provisioning) (char_signed : Bool)
    (opened : c.Dev → ℕ)
    → IsPaired z opened suc (λ k. k - 1)
    → KeepsRest c w opened
    → SocketLaws (tls_socket z conf)
    → NetLaws (net c w (tls_socket z conf) conf char_signed) opened
net-CountsOpen c w z conf char_signed opened pairs rest fits =
    net-NetLaws c w (tls_socket z conf) conf char_signed opened suc (λ k. k - 1)
      (tls_socket-IsBalanced z conf opened suc (λ k. k - 1) pairs) rest fits
