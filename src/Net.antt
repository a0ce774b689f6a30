-- ===== src/Net.antt =====
-- lib/plat/plat_net.h: what the agent and the installer use of the network.
pub mod Socket
pub mod Http
pub mod Heartbeat
pub mod Download
pub mod Balance
pub mod Wifi
pub mod Tls
pub mod Laws
pub mod Ends
mod Devices
mod Tests
use mcu_sdk.Base.{ℕ, ◌≤◌, ◌≡◌, Bool, Option, some, Bytes, length}

-- What plat_heartbeat returns: an error, 0 for a device that was decommissioned, or 1.
pub data Beat : Type 0 where
  beat_error beat_stop beat_ok : Beat

-- On a device with the states `D`; a flag is `true` for a result of 0. A byte string is a buffer
-- that was filled.
pub record Net (D : Type 0) : Type 0 where
  pub wifi_up : D → Bool × D
  pub plat_register : D → Bool × D
  -- the version, the applied counter, the probe's result and its detail, and the capacity for the
  -- id of a log request, which is empty where there is none
  pub heartbeat : Bytes → ℕ → Bool → Bytes → ℕ → D → (Beat × Bytes) × D
  pub upload_logs : Bytes → Bytes → D → Bool × D
  -- a manifest of at least one byte; `none` is 0 or an error
  pub fetch_manifest : ℕ → D → Option Bytes × D
  pub firmware_download : ℕ → (Bytes → Bool → D → Bool × D) → D → Bool × D

-- The network leaves a view of the device as it was, such as the update state, and it keeps to the
-- buffer that it is given.
pub record NetLaws {D V : Type 0} (net : Net D) (book : D → V) : Type 0 where
  pub keeps_wifi : (d : D) → book (net.wifi_up d).1 ≡ book d
  pub keeps_register : (d : D) → book (net.plat_register d).1 ≡ book d
  pub keeps_heartbeat :
      (version : Bytes) (applied : ℕ) (healthy : Bool) (detail : Bytes) (cap : ℕ) (d : D)
      → book (net.heartbeat version applied healthy detail cap d).1 ≡ book d
  pub keeps_upload : (id body : Bytes) (d : D) → book (net.upload_logs id body d).1 ≡ book d
  pub keeps_fetch : (cap : ℕ) (d : D) → book (net.fetch_manifest cap d).1 ≡ book d
  pub keeps_download :
      (size : ℕ) (sink : Bytes → Bool → D → Bool × D)
      → ((chunk : Bytes) (last : Bool) (d : D) → book (sink chunk last d).1 ≡ book d)
      → (d : D) → book (net.firmware_download size sink d).1 ≡ book d
  pub fetch_fits :
      (cap : ℕ) (d : D) (buf : Bytes) → (net.fetch_manifest cap d).0 ≡ some buf → length buf ≤ cap
