-- ===== src/Net/Devices.antt =====
-- A device with one TLS socket, on which the laws of lib/plat/plat_net.c are tried.
use mcu_sdk.Base.{
  ℕ, suc, ◌+◌, ◌-◌, ◌≤◌, ◌≡◌, refl, ap, arith, true, false, none, some, Bytes, [], ◌∷◌, length,
  take, length-take, codes, pos, negsuc,
}
use mcu_sdk.Provision.{Provisioning}
use mcu_sdk.Plat.{Counters}
use mcu_sdk.Net.{NetLaws}
use mcu_sdk.Net.Socket.{SocketLaws}
use mcu_sdk.Net.Wifi.{
  Wifi, connect_result, other_event, wifi_up, CountsSleep, Waited, wifi_up-Waited,
}
use mcu_sdk.Net.Tls.{Zsock, IsPaired, tls_socket}
use mcu_sdk.Net.Laws.{net, KeepsRest, net-CountsOpen}

abbrev conf : Provisioning
conf = record {
  wifi_ssid = codes "net";
  wifi_psk = codes "secret";
  claim_host = codes "edge.local";
  claim_ip = codes "10.0.0.2";
  claim_port = 443;
  claim_ca = codes "root";
  claim_token = codes "tok";
  server_host = codes "cp.local";
  server_ip = codes "10.0.0.1";
  artifact_port = 8443;
  fleet_port = 9443;
  server_ca = codes "ca";
  artifact_name = codes "fw";
  target_profile = codes "esp32";
}

-- The number of open sockets is the state of the device.
abbrev counters : Counters
counters = record {
  Dev = ℕ;
  applied_counter = λ d. (3, d);
  pending_counter = λ d. (0, d);
  failed_counter = λ d. (5, d);
  attempted_version = λ cap d. (none, d);
  store_counter = λ v d. (true, d);
  store_pending = λ v d. (true, d);
  store_failed = λ v d. (true, d);
  store_attempted_version = λ s d. (true, d);
  clear_pending = λ d. (true, d);
  clear_failed = λ d. (true, d);
  clear_attempted_version = λ d. (true, d);
}

-- Three bytes at every receive.
abbrev zsock : Zsock ℕ
zsock = record {
  zsock_socket = λ d. (true, suc d);
  zsock_setsockopt = λ o d. d;
  zsock_connect = λ ip port d. (true, d);
  zsock_send = λ s d. (true, d);
  zsock_send_some = λ s d. (1, d);
  zsock_recv = λ n d. (some (take n (1 ∷ 2 ∷ 3 ∷ [])), d);
  zsock_close = λ d. d - 1;
}

zsock_pairs : IsPaired zsock (λ d. d) suc (λ k. k - 1)
zsock_pairs = record {
  on_socket = λ d. refl;
  on_setsockopt = λ o d. refl;
  on_zconnect = λ ip port d. refl;
  on_zsend = λ s d. refl;
  on_zsend_some = λ s d. refl;
  on_zrecv = λ n d. refl;
  on_zclose = λ d. refl;
  down_up = λ v. omega arith;
}

abbrev air : Wifi ℕ
air = record {
  add_event_callback = λ d. d;
  request_connect =
      λ ssid psk d. ((true, connect_result (negsuc 0) ∷ connect_result (pos 0) ∷ []), d);
  k_msleep = λ n d. ([], d);
  dhcpv4_start = λ d. d;
}

rest : KeepsRest counters air (λ d. d)
rest = record {
  keeps_callback = λ d. refl;
  keeps_request = λ ssid psk d. refl;
  keeps_msleep = λ n d. refl;
  keeps_dhcp = λ d. refl;
  keeps_failed = λ d. refl;
  keeps_attempted = λ d. refl;
}

received : (n : ℕ) (s t : Bytes) → some (take n t) ≡ some s → length s ≤ n
received n s t h = let e : s ≡ take n t = cc in omega (arith, ap length e, length-take n t)

zsock_fits : SocketLaws (tls_socket zsock conf)
zsock_fits = record { recv_fits = λ n d s h. received n s (1 ∷ 2 ∷ 3 ∷ []) h }

net-CountsOpen_example : NetLaws (net counters air (tls_socket zsock conf) conf true) (λ d. d)
net-CountsOpen_example =
    net-CountsOpen counters air zsock conf true (λ d. d) zsock_pairs rest zsock_fits

-- The time slept is the state; nobody answers.
abbrev silence : Wifi ℕ
silence = record {
  add_event_callback = λ t. t;
  request_connect = λ ssid psk t. ((true, []), t);
  k_msleep = λ n t. (other_event ∷ [], t + n);
  dhcpv4_start = λ t. t;
}

silence_counts : CountsSleep silence (λ t. t)
silence_counts = record {
  on_callback = λ t. refl;
  on_request = λ ssid psk t. refl;
  on_msleep = λ n t. refl;
  on_dhcp = λ t. refl;
}

wifi_up-Waited_example :
    Waited 7 20000 25000 28000 ((wifi_up silence conf false 7).0, (wifi_up silence conf false 7).1)
wifi_up-Waited_example = wifi_up-Waited silence (λ t. t) silence_counts conf false 7
