-- ===== src/Agent/Setup.antt =====
-- What agent_main of lib/meshanics_agent.c calls while it comes up and in its loop, beside the
-- platform: lib/provision/identity.h, lib/enroll/enroll.h, the status server, and the application.
use mcu_sdk.Base.{Bool, Option, Bytes}
use mcu_sdk.Store.Identity.{Identity}

-- On a device with the states `D`; a flag is `true` for a result of 0.
pub record Setup (D : Type 0) : Type 0 where
  pub psa_crypto_init : D → Bool × D
  -- meshanics_provisioning_get() is not NULL
  pub provisioned : Bool
  pub identity_exists : D → Bool × D
  pub identity_load : D → Option Identity × D
  pub identity_save : Identity → D → Bool × D
  pub meshanics_enroll : D → Option Identity × D
  pub net_set_identity : Identity → D → Bool × D
  -- http_listen() ≥ 0
  pub http_listen : D → Bool × D
  -- `false` where it does not return, since a client keeps it waiting
  pub http_serve_pending : D → Bool × D
  -- cfg.health, where the application has set it
  pub health : Option (D → Bool × D)
  pub applog_snapshot : D → Bytes
