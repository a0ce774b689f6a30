-- ===== src/System/Tests.antt =====
-- The whole program on a device whose flash never fails, with an enrolled identity to find, or not.
use mcu_sdk.Base.{
  ℕ, ◌≤◌, ◌≡◌, refl, ap, arith, true, false, none, some, Bytes, [], ◌∷◌, length, codes, pos,
}
use mcu_sdk.Store.{Store, store_mount}
use mcu_sdk.Store.Flat.{flat, flat_laws, flat_sound, blank}
use mcu_sdk.Store.Records.{view}
use mcu_sdk.Store.Counter.Laws.{book, book_of}
use mcu_sdk.Install.Device.{Board}
use mcu_sdk.Manifest.Verify.Sample.{pinned, toy_verify}
use mcu_sdk.Net.Wifi.{connect_result}
use mcu_sdk.Net.Tls.{Zsock, IsPaired}
use mcu_sdk.Agent.{Agent, boot}
use mcu_sdk.Agent.Main.{agent_main}
use mcu_sdk.Agent.Main.Pinned.{end_of}
use mcu_sdk.Agent.Rollback.{Traced}
use mcu_sdk.System.{
  Platform, PlatformKeeps, device_counters, device_net, device_setup, device_book, device-Traced,
}

abbrev Toy : Type 0
Toy = Store flat × (ℕ × ℕ)

abbrev board : Board Toy
board = record {
  Hash = Bytes;
  boot_is_img_confirmed = λ d. true;
  boot_write_img_confirmed = λ d. (true, d);
  boot_request_upgrade = λ d. (true, d);
  flash_img_init = λ d. (true, d);
  flash_img_buffered_write = λ s last d. (true, d);
  flash_area_open = λ d. true;
  flash_area_read = λ off n d. none;
  psa_hash_setup = some [];
  psa_hash_update = λ op s. some op;
  psa_hash_finish = λ op. some op;
}

abbrev zsock : Zsock Toy
zsock = record {
  zsock_socket = λ d. (true, d);
  zsock_setsockopt = λ o d. d;
  zsock_connect = λ ip port d. (true, d);
  zsock_send = λ s d. (true, d);
  zsock_send_some = λ s d. (length s, d);
  zsock_recv = λ n d. (some [], d);
  zsock_close = λ d. d;
}

abbrev platform : Platform flat ℕ
platform = record {
  board = board;
  wifi = record {
    add_event_callback = λ d. d;
    request_connect = λ ssid psk d. ((true, connect_result (pos 0) ∷ []), d);
    k_msleep = λ t d. ([], d);
    dhcpv4_start = λ d. d;
  };
  zsock = zsock;
  tools = record {
    Pk = ℕ;
    psa_crypto_init = λ d. (true, d);
    psa_generate_key = λ d. (some 1, d);
    pk_copy_from_psa = λ kid d. (some kid, d);
    set_subject_name = λ s d. (true, d);
    write_csr_pem = λ key cap d. (some (codes "CSR"), d);
    write_key_pem = λ key cap d. (some (codes "KEY"), d);
    psa_destroy_key = λ kid d. d;
  };
  creds = record {
    add = λ tag t s d. (true, d);
    delete = λ tag t d. d;
    get_device_id = λ n d. some (0xab ∷ []);
  };
  host = record {
    reset_por = 8;
    reset_pin = 1;
    reset_software = 2;
    reset_watchdog = 16;
    reset_brownout = 4;
    get_reset_cause = λ d. some 8;
    get_device_id = λ n d. none;
    uptime = λ d. 5000;
    socket = λ d. (true, d);
    reuse_address = λ d. d;
    bind = λ port d. (true, d);
    listen = λ d. (true, d);
    close_listener = λ d. d;
    poll = λ d. (false, d);
    accept = λ d. (true, d);
    local_address = λ d. none;
    recv = λ n d. (true, d);
    send = λ s d. d;
    close = λ d. d;
  };
  health = none;
  applog_snapshot = λ d. codes "log";
  ed25519_verify = toy_verify;
  char_signed = true;
  header = some (record {
    wifi_ssid = codes "net";
    wifi_psk = codes "secret";
    claim_host = codes "edge.local";
    claim_ip = codes "10.0.0.2";
    claim_port = 443;
    claim_ca = codes "root";
    claim_token = codes "tok";
    server_host = codes "cp.local";
    server_ip = codes "10.0.0.1";
    artifact_port = 8443;
    fleet_port = 9443;
    server_ca = codes "ca";
    artifact_name = codes "fw";
    target_profile = codes "esp32";
  });
  about = record {
    board = codes "esp32";
    http_port = 80;
    version = codes "1.2";
    key_id = codes "k1";
  };
  rounds = 4;
  poll_ticks = 60;
}

pairs : IsPaired zsock (device_book flat ℕ platform flat_laws) (λ k. k) (λ k. k)
pairs = record {
  on_socket = λ d. refl;
  on_setsockopt = λ o d. refl;
  on_zconnect = λ ip port d. refl;
  on_zsend = λ s d. refl;
  on_zsend_some = λ s d. refl;
  on_zrecv = λ n d. refl;
  on_zclose = λ d. refl;
  down_up = λ v. refl;
}

nothing : (n : ℕ) (s : Bytes) → some [] ≡ some s → length s ≤ n
nothing n s h = let e : s ≡ [] = cc in omega (arith, ap length e)

keeps : PlatformKeeps flat ℕ platform flat_laws
keeps = record {
  board_keeps = record {
    keeps_confirm = λ d. refl;
    keeps_request = λ d. refl;
    keeps_init = λ d. refl;
    keeps_write = λ s last d. refl;
  };
  even = record {
    sockets = pairs;
    on_init = λ d. refl;
    on_generate = λ d. refl;
    on_copy = λ kid d. refl;
    on_subject = λ s d. refl;
    on_csr = λ key cap d. refl;
    on_pem = λ key cap d. refl;
    on_destroy = λ kid d. refl;
    on_add = λ tag t s d. refl;
    on_delete = λ tag t d. refl;
  };
  fits = record { recv_fits = λ n d s h. nothing n s h };
  host_keeps = record {
    on_socket = λ d. refl;
    on_reuse = λ d. refl;
    on_bind = λ port d. refl;
    on_listen = λ d. refl;
    on_close_listener = λ d. refl;
    on_poll = λ d. refl;
    on_accept = λ d. refl;
    on_recv = λ n d. refl;
    on_send = λ s d. refl;
    on_close = λ d. refl;
  };
  on_callback = λ d. refl;
  on_request = λ ssid psk d. refl;
  on_msleep = λ t d. refl;
  on_dhcp = λ d. refl;
  on_health = λ health e d. let no : none ≡ some health = e in cc;
}

abbrev start : Agent Toy
start = record {
  dev = (blank, (0, 0));
  state = boot;
  has_on_state = false;
  calls = [];
  pinned = pinned;
}

abbrev last : Agent Toy
last = end_of (
    agent_main (device_counters flat ℕ platform) board (device_net flat ℕ platform) toy_verify
      (device_setup flat ℕ platform) 60 (codes "1.2") 2 start)

fresh : (device_book flat ℕ platform flat_laws start.dev).pending ≡ 0
unfolding flat_laws book book_of view store_mount
fresh = refl

device-Traced_example :
    Traced
      (device_counters flat ℕ platform)
      board
      (device_net flat ℕ platform)
      toy_verify
      (device_book flat ℕ platform flat_laws)
      last.pinned
      (device_book flat ℕ platform flat_laws start.dev)
      (device_book flat ℕ platform flat_laws last.dev)
device-Traced_example =
    device-Traced flat ℕ platform flat_laws flat_sound keeps (codes "1.2") 2 start
      (omega (arith, fresh))
