-- ===== src/Net/Heartbeat.antt =====
-- plat_heartbeat of lib/plat/plat_net.c.
use mcu_sdk.Base.{
  ℕ, Bool, true, not, Option, none, some, Bytes, [], ◌∷◌, length, codes, strip, room, ◌==◌,
  if◌then◌else◌, c_string,
}
use mcu_sdk.Provision.{Provisioning}
use mcu_sdk.Plat.{Counters}
use mcu_sdk.Ota.Heartbeat.{heartbeat_json}
use mcu_sdk.Claim.Json.{json_extract_string}
use mcu_sdk.Net.{Beat, beat_error, beat_stop, beat_ok}
use mcu_sdk.Net.Socket.{Socket, sdk_agent_version}
use mcu_sdk.Net.Http.{post_device, http_status, is_code}

-- strstr(s, p) != NULL
unfoldable pub contains : Bytes → Bytes → Bool
contains p [] = length p == 0
contains p (c ∷ s) =
    let more = contains p s in elim (strip p (c ∷ s)) [ none ↦ more | some rest ↦ true ]

-- The id of the log request in the body, empty where there is none. A capacity of 0 asks for none.
unfoldable pub log_request : ℕ → Bytes → Bytes
log_request cap text =
    elim (json_extract_string (some text) (some (codes "request_id")) (room cap)) [
      | none ↦ []
      | some id ↦ id
    ]

-- What plat_heartbeat makes of a response, which it searches as a C string.
unfoldable pub beat_of_response : ℕ → Bytes → Beat × Bytes
unfolding contains log_request http_status is_code
beat_of_response cap resp =
    if not (is_code 200 (http_status resp))
    then (beat_error, [])
    else if contains (codes "\"decommissioned\":true") (c_string resp)
    then (beat_stop, [])
    else (beat_ok, log_request cap (c_string resp))

module _ (c : Counters) (sock : Socket c.Dev) (conf : Provisioning) (char_signed : Bool) where
  -- The version that was reverted: only where a failed counter is recorded.
  unfoldable pub reverted_version : c.Dev → Option Bytes × c.Dev
  reverted_version d =
      let (failed, d1) = c.failed_counter d in
      let (version, d2) = c.attempted_version 32 d1 in
      if failed == 0 then (none, d1) else (version, d2)

  unfoldable pub heartbeat : Bytes → ℕ → Bool → Bytes → ℕ → c.Dev → (Beat × Bytes) × c.Dev
  unfolding reverted_version post_device beat_of_response heartbeat_json
  heartbeat version applied healthy detail cap d =
      let (reverted, d1) = reverted_version d in
      elim (heartbeat_json char_signed (room 256) (some sdk_agent_version) (some version) applied
        healthy (some detail) reverted) [
          | none ↦ ((beat_error, []), d1)
          | some body ↦
              (let (resp, d2) =
                  post_device sock conf conf.fleet_port (codes "/device/heartbeat") body 512 d1 in
                elim resp [
                  | none ↦ ((beat_error, []), d2)
                  | some bytes ↦ (beat_of_response cap bytes, d2)
                ])
        ]
