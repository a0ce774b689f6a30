-- ===== src/System.antt =====
-- The whole program on one device: the update records of lib/plat/plat_counter.c and
-- lib/provision/identity.c on the store of lib/plat/plat_store.c, the network of lib/plat/plat_net.c,
-- the enrolment of lib/provision/enroll.c and the agent of lib/meshanics_agent.c. Only Zephyr,
-- MCUboot, PSA, mbedTLS, Ed25519 and the application are parameters.
mod Tests
use mcu_sdk.Base.{
  ℕ, ◌<◌, ◌≡◌, refl, ap, ◌∙◌, arith, Bool, true, false, Option, none, some, Bytes, [], u64_mod,
}
use mcu_sdk.Provision.{Provisioning, meshanics_provisioning_get}
use mcu_sdk.Store.Records.{is_some}
use mcu_sdk.Plat.{Book, Counters, CounterLaws}
use mcu_sdk.Plat.Beside.{on_part, beside, beside-CounterLaws}
use mcu_sdk.Store.Device.{Nvs, NvsLaws, HasSoundReads}
use mcu_sdk.Store.{Store}
use mcu_sdk.Store.Counter.{counters}
use mcu_sdk.Store.Counter.Laws.{book, counters-CounterLaws}
use mcu_sdk.Store.Identity.{Identity, identity_exists, identity_load, identity_save}
use mcu_sdk.Store.Identity.RoundTrip.{book-identity_save}
use mcu_sdk.Store.Identity.Keeps.{book-identity_exists, book-identity_load}
use mcu_sdk.Install.Device.{Board, BoardKeeps}
use mcu_sdk.Net.{Net, NetLaws}
use mcu_sdk.Net.Socket.{SocketLaws}
use mcu_sdk.Net.Wifi.{Wifi}
use mcu_sdk.Net.Tls.{
  Zsock, IsPaired, tls_socket, tls_socket-IsBalanced, net_set_identity, view-net_set_identity,
}
use mcu_sdk.Net.Laws.{net, KeepsRest, net-NetLaws}
use mcu_sdk.Enroll.{meshanics_enroll}
use mcu_sdk.Enroll.Link.{KeyTools, Credentials, link}
use mcu_sdk.Enroll.Even.{IsEven, meshanics_enroll-link}
use mcu_sdk.Agent.{Agent}
use mcu_sdk.Agent.Setup.{Setup}
use mcu_sdk.Agent.Status.{Host, About, Served, http_listen, serve_loop}
use mcu_sdk.Agent.Status.Keeps.{HostKeeps, view-http_listen, view-serve_loop}
use mcu_sdk.Agent.Main.{agent_main}
use mcu_sdk.Agent.Main.Pinned.{end_of}
use mcu_sdk.Agent.Main.Rounds.{SetupKeeps}
use mcu_sdk.Agent.Main.Traces.{agent_main-Traced}
use mcu_sdk.Agent.Rollback.{Traced}

-- In place of a NULL that agent_main does not go on with.
abbrev no_table : Provisioning
no_table = record {
  wifi_ssid = [];
  wifi_psk = [];
  claim_host = [];
  claim_ip = [];
  claim_port = 0;
  claim_ca = [];
  claim_token = [];
  server_host = [];
  server_ip = [];
  artifact_port = 0;
  fleet_port = 0;
  server_ca = [];
  artifact_name = [];
  target_profile = [];
}

-- What is not the repository's, for a device with a store, some other states `E`, and the number of
-- requests that the status server has answered.
pub record Platform (n : Nvs) (E : Type 0) : Type 1 where
  pub board : Board (Store n × (E × ℕ))
  pub wifi : Wifi (Store n × (E × ℕ))
  pub zsock : Zsock (Store n × (E × ℕ))
  pub tools : KeyTools (Store n × (E × ℕ))
  pub creds : Credentials (Store n × (E × ℕ))
  pub host : Host (Store n × (E × ℕ))
  pub health : Option (Store n × (E × ℕ) → Bool × (Store n × (E × ℕ)))
  pub applog_snapshot : Store n × (E × ℕ) → Bytes
  pub ed25519_verify : Bytes → Bytes → Bytes → ℕ
  pub char_signed : Bool
  -- the table of meshanics_provisioning.h, where there is one
  pub header : Option Provisioning
  pub about : About
  -- the rounds of http_serve_pending, and the heartbeat's period
  pub rounds : ℕ
  pub poll_ticks : ℕ

module _ (n : Nvs) (E : Type 0) (p : Platform n E) where
  abbrev pub Device : Type 0
  Device = Store n × (E × ℕ)

  abbrev pub prov : Provisioning
  prov = elim (meshanics_provisioning_get p.header) as (λ x. Provisioning) [
    | none ↦ no_table
    | some table ↦ table
  ]

  abbrev pub device_counters : Counters
  device_counters = beside (counters n) (E × ℕ)

  abbrev pub device_net : Net Device
  device_net = net device_counters p.wifi (tls_socket p.zsock prov) prov p.char_signed

  -- With self.requests_served in the device's state; `false` where it does not return.
  unfoldable pub serve_pending : Device → Bool × Device
  serve_pending d =
      let (ended, s) =
        serve_loop device_counters p.host p.about p.rounds
          (record { dev = d; requests_served = d.1.1 }) in
      (ended, (s.dev.0, (s.dev.1.0, s.requests_served)))

  abbrev pub device_setup : Setup Device
  device_setup = record {
    psa_crypto_init = p.tools.psa_crypto_init;
    provisioned = is_some (meshanics_provisioning_get p.header);
    identity_exists = on_part (identity_exists n);
    identity_load = on_part (identity_load n);
    identity_save = λ i. on_part (identity_save n i);
    meshanics_enroll = meshanics_enroll (link p.creds prov p.tools p.zsock) prov;
    net_set_identity = net_set_identity p.creds.add prov;
    http_listen = http_listen p.host p.about;
    http_serve_pending = serve_pending;
    health = p.health;
    applog_snapshot = p.applog_snapshot;
  }

  module _ (nvs : NvsLaws n) where
    -- The update state, as it is in the records on flash.
    abbrev pub device_book : Device → Book
    device_book d = book n nvs d.0

    -- None of the platform's calls touches the records of the update state, and a receive keeps to its
    -- buffer.
    pub record PlatformKeeps : Type 0 where
      pub board_keeps : BoardKeeps p.board device_book
      pub even : IsEven p.tools p.zsock p.creds device_book (λ k. k) (λ k. k)
      pub fits : SocketLaws (tls_socket p.zsock prov)
      pub host_keeps : HostKeeps p.host device_book
      pub on_callback : (d : Device) → device_book (p.wifi.add_event_callback d) ≡ device_book d
      pub on_request :
          (ssid psk : Bytes) (d : Device)
          → device_book (p.wifi.request_connect ssid psk d).1 ≡ device_book d
      pub on_msleep : (t : ℕ) (d : Device) → device_book (p.wifi.k_msleep t d).1 ≡ device_book d
      pub on_dhcp : (d : Device) → device_book (p.wifi.dhcpv4_start d) ≡ device_book d
      pub on_health :
          (health : Device → Bool × Device)
          → p.health ≡ some health
          → (d : Device) → device_book (health d).1 ≡ device_book d

    module _ (sound : HasSoundReads n nvs) (keeps : PlatformKeeps) where
      device-CounterLaws : CounterLaws device_counters device_book
      device-CounterLaws =
          beside-CounterLaws (counters n) (E × ℕ) (book n nvs) (counters-CounterLaws n nvs sound)

      device-NetLaws : NetLaws device_net device_book
      device-NetLaws =
          net-NetLaws device_counters p.wifi (tls_socket p.zsock prov) prov p.char_signed
            device_book (λ k. k) (λ k. k)
            (tls_socket-IsBalanced p.zsock prov device_book (λ k. k) (λ k. k) keeps.even.sockets)
            (record {
              keeps_callback = keeps.on_callback;
              keeps_request = keeps.on_request;
              keeps_msleep = keeps.on_msleep;
              keeps_dhcp = keeps.on_dhcp;
              keeps_failed = λ d. (device-CounterLaws.failed_lem d).1;
              keeps_attempted = λ d. (device-CounterLaws.attempted_lem 32 (omega arith) d).1;
            })
            keeps.fits

      device-SetupKeeps : SetupKeeps device_setup device_book
      unfolding serve_pending
      device-SetupKeeps = record {
        keeps_crypto = keeps.even.on_init;
        keeps_exists = λ d. book-identity_exists n nvs d.0;
        keeps_load = λ d. book-identity_load n nvs d.0;
        keeps_save = λ i d. book-identity_save n nvs i d.0;
        keeps_enroll =
            meshanics_enroll-link p.tools p.zsock p.creds prov device_book (λ k. k) (λ k. k)
              keeps.even;
        keeps_identity = view-net_set_identity device_book p.creds.add keeps.even.on_add prov;
        keeps_listen = view-http_listen p.host p.about device_book keeps.host_keeps;
        keeps_serve = λ d.
            view-serve_loop device_counters p.host p.about device_book keeps.host_keeps
              (λ d'. (device-CounterLaws.applied_lem d').1) p.rounds
              (record { dev = d; requests_served = d.1.1 });
        keeps_health = keeps.on_health;
      }

      -- On any device whose flash records behave as NVS documents and on which no flash error strikes a
      -- read of a record (one that does counts as a counter of 0, and is excluded here, as is a mount
      -- that fails now and succeeds later), where the
      -- platform's own calls do not touch the update records and a receive keeps to its buffer, from
      -- a pending counter that is a uint64_t: the whole program, from the start of agent_main through
      -- any number of rounds, whatever the network sends and whichever other calls fail, writes to
      -- flash included, never lowers the applied counter on flash, and changes it only to the counter that was pending at the start or to the counter of
      -- a manifest signed under the key that the agent has pinned; a pending counter has such a
      -- source too.
      pub device-Traced :
          (version : Bytes) (rounds : ℕ) (s : Agent Device)
          → (device_book s.dev).pending < u64_mod
          → let s' = end_of (
              agent_main device_counters p.board device_net p.ed25519_verify device_setup
                p.poll_ticks version rounds s) in
            Traced device_counters p.board device_net p.ed25519_verify device_book s'.pinned
              (device_book s.dev)
              (device_book s'.dev)
      device-Traced version rounds s small =
          agent_main-Traced device_counters p.board device_net p.ed25519_verify device_setup
            device_book device-CounterLaws keeps.board_keeps device-NetLaws device-SetupKeeps
            p.poll_ticks version rounds s small
