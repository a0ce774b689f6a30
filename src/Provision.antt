-- ===== src/Provision.antt =====
-- lib/provision/provisioning.h and lib/provision/provisioning.c: the constants that a device is
-- provisioned with.
use mcu_sdk.Base.{ℕ, Option, none, some, Bytes}

-- struct meshanics_provisioning
pub record Provisioning : Type 0 where
  pub wifi_ssid : Bytes
  pub wifi_psk : Bytes
  pub claim_host : Bytes
  pub claim_ip : Bytes
  pub claim_port : ℕ
  pub claim_ca : Bytes
  pub claim_token : Bytes
  pub server_host : Bytes
  pub server_ip : Bytes
  pub artifact_port : ℕ
  pub fleet_port : ℕ
  pub server_ca : Bytes
  pub artifact_name : Bytes
  pub target_profile : Bytes

-- With the table of meshanics_provisioning.h, or with no such header.
unfoldable pub meshanics_provisioning_get : Option Provisioning → Option Provisioning
meshanics_provisioning_get none = none
meshanics_provisioning_get (some prov) = some prov
