-- ===== src/Agent/Tests.antt =====
-- The theorems on the small device.
use mcu_sdk.Base.{
  ◌<◌, ◌≤◌, ◌≡◌, inr, refl, arith, true, false, none, some, Bytes, [], ◌∷◌, ◌++◌, length, take,
  codes,
}
use mcu_sdk.Plat.{Book}
use mcu_sdk.Install.{
  stage_image, hex32, receive_image, check_staged, verify_slot_sha256, image_confirmed,
}
use mcu_sdk.Install.Spelling.{lower_case, hex_text}
use mcu_sdk.Install.Digest.{stage_image-digest}
use mcu_sdk.Net.{Net}
use mcu_sdk.Manifest.Verify.Sample.{pinned, toy_verify, wire, update, digest}
use mcu_sdk.Ota.Boot.{plan_boot}
use mcu_sdk.Agent.Main.{bring_up, connect}
use mcu_sdk.Agent.Main.Startup.{CameUp, bring_up-CameUp}
use mcu_sdk.Agent.{
  boot, connecting, set_state, Agent, returned, rebooted, online, boot_healthy, boot_confirm,
  carry_out, do_confirm, do_promote, do_clear_pending, do_record_failed, do_clear_failed, poll_once,
}
use mcu_sdk.Agent.Boot.{Boots, boot_healthy-Boots}
use mcu_sdk.Agent.Poll.{Polled, poll_once-Polled, poll_once-skips}
use mcu_sdk.Agent.Rollback.{here, after, boots, Traced, reach-Traced}
use mcu_sdk.Agent.Toy.{
  toy, same, toy_laws, image, toy_digest, board, board_keeps, hash_laws, slot_laws, net, net_laws,
  waiting, agent, verifies, setup,
}

staged : (stage_image board net.firmware_download digest 300 waiting).0 ≡ false
unfolding stage_image receive_image check_staged verify_slot_sha256 hex32
staged = refl

abbrev hex_ab : Bytes
hex_ab = codes "abababababababababababababababab" ++ codes "abababababababababababababababab"

staged_ab : (stage_image board net.firmware_download hex_ab 600 waiting).0 ≡ true
unfolding stage_image receive_image check_staged verify_slot_sha256 hex32
staged_ab = refl

stage_image-digest_example :
    (0 < 600) × (600 ≤ length image) × (take 64 (lower_case hex_ab) ≡ hex_text toy_digest)
unfolding stage_image receive_image
stage_image-digest_example =
    stage_image-digest board (λ s. toy_digest) hash_laws (λ k. image) slot_laws
      net.firmware_download hex_ab 600 waiting staged_ab

boot_healthy-Boots_example :
    Boots (image_confirmed toy board waiting) (same waiting) (same (boot_healthy toy board waiting))
boot_healthy-Boots_example =
    boot_healthy-Boots toy board same toy_laws board_keeps waiting (omega arith)

poll_once-Polled_example :
    Polled toy board net toy_verify same pinned waiting
      (poll_once toy board net toy_verify (agent waiting))
poll_once-Polled_example =
    poll_once-Polled toy board net toy_verify same toy_laws board_keeps net_laws (agent waiting)

-- The counter of the update is 7.
abbrev tried : Book
tried = record { applied = 3; pending = 0; failed = 7; attempted = some (codes "1.2") }

poll_once-skips_example :
    (s' : Agent Book) × (poll_once toy board net toy_verify (agent tried) ≡ returned tt s')
    × (s'.state ≡ online)
    × (s'.calls ≡ [])
    × (same s'.dev ≡ tried)
poll_once-skips_example =
    poll_once-skips toy board net toy_verify same toy_laws board_keeps net_laws (agent tried)
      (wire 131) update refl verifies (inr refl)

promoted :
    boot_confirm toy board true (agent waiting)
    ≡ returned tt (agent (record { applied = 5; pending = 0; failed = 0; attempted = none }))
unfolding boot_confirm boot_healthy carry_out do_clear_failed plan_boot image_confirmed
    do_record_failed do_clear_pending do_promote do_confirm
promoted = refl

reach-Traced_example :
    Traced toy board net toy_verify same pinned waiting
      (record { applied = 5; pending = 0; failed = 0; attempted = none })
reach-Traced_example =
    reach-Traced toy board net toy_verify same pinned toy_laws board_keeps net_laws (agent waiting)
      (agent (record { applied = 5; pending = 0; failed = 0; attempted = none })) (omega arith)
      (after here (boots true promoted))

-- An access point that is not there.
abbrev lonely : Net Book
lonely = record net { wifi_up = λ k. (false, k) }

gives_up :
    bring_up toy board lonely toy_verify setup (agent waiting)
    ≡ rebooted (record (agent waiting) { state = connecting; calls = connecting ∷ boot ∷ [] })
unfolding bring_up connect boot_confirm image_confirmed set_state
gives_up = refl

bring_up-CameUp_example :
    CameUp toy board lonely toy_verify setup
      (bring_up toy board lonely toy_verify setup (agent waiting))
bring_up-CameUp_example =
    bring_up-CameUp toy board lonely toy_verify setup (agent waiting) refl refl
