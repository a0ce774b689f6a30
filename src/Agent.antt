-- ===== src/Agent.antt =====
-- lib/meshanics_agent.c and lib/agent.h: the agent's state and its two decisions, what to do with
-- the running image (boot_confirm) and with the manifest that is offered (poll_once).
pub mod Boot
pub mod Poll
pub mod Setup
pub mod Main
pub mod Rollback
pub mod Status
pub mod Start
pub mod Cycle
mod Toy
mod Scenarios
mod Tests
use mcu_sdk.Base.{
  ℕ, ◌-◌, Bool, true, false, not, ◌||◌, Option, none, some, Bytes, List, [], ◌∷◌, length, take, ltb,
  leb, ◌==◌, if◌then◌else◌, c_string, Outcome, done, failed, fault, stuck,
}
use mcu_sdk.Manifest.Types.{PinnedKey, Manifest}
use mcu_sdk.Manifest.Verify.{md_verify, check_rollback}
use mcu_sdk.Ota.Boot.{BootAction, plan_boot}
use mcu_sdk.Plat.{Counters}
use mcu_sdk.Install.Device.{Board}
use mcu_sdk.Install.{stage_image, commit_and_reboot, image_confirmed, confirm_image}
use mcu_sdk.Net.{Net}

-- meshanics_state
pub data MeshState : Type 0 where
  boot enrolling connecting online updating offline : MeshState

-- `self`, with the device that it runs on. `calls` are the states that cfg.on_state was called
-- with, the latest first.
pub record Agent (D : Type 0) : Type 0 where
  pub dev : D
  pub state : MeshState
  pub has_on_state : Bool
  pub calls : List MeshState
  pub pinned : PinnedKey

-- A function that may reboot the device instead of returning.
pub data Run (D A : Type 0) : Type 0 where
  returned : A → Agent D → Run D A
  rebooted : Agent D → Run D A

-- MANIFEST_BUF
abbrev pub manifest_buf : ℕ
manifest_buf = 1024

module _ {D : Type 0} where
  unfoldable pub set_state : MeshState → Agent D → Agent D
  set_state st s = record s { state = st; calls = if s.has_on_state then st ∷ s.calls else s.calls }

  -- A step of the device in the agent's state.
  abbrev pub at_dev : Agent D → D → Agent D
  at_dev s d = record s { dev = d }

module _ (c : Counters) (b : Board c.Dev) where
  -- `if (act.promote) { ... }` and the three blocks behind it.
  unfoldable pub do_promote : BootAction → c.Dev → c.Dev
  do_promote act d =
      if act.promote then (c.clear_attempted_version (c.store_counter act.new_applied d).1).1 else d

  unfoldable pub do_clear_pending : BootAction → c.Dev → c.Dev
  do_clear_pending act d = if act.clear_pending then (c.clear_pending d).1 else d

  unfoldable pub do_record_failed : BootAction → c.Dev → c.Dev
  do_record_failed act d = if act.record_failed then (c.store_failed act.failed_counter d).1 else d

  unfoldable pub do_clear_failed : BootAction → c.Dev → c.Dev
  do_clear_failed act d =
      if act.clear_failed then (c.clear_attempted_version (c.clear_failed d).1).1 else d

  unfoldable pub do_confirm : BootAction → c.Dev → c.Dev
  do_confirm act d = if act.confirm then (confirm_image c b d).1 else d

  unfoldable pub carry_out : BootAction → c.Dev → c.Dev
  carry_out act d =
      do_clear_failed act
        (do_record_failed act (do_clear_pending act (do_promote act (do_confirm act d))))

  -- boot_confirm(1) from the plan on, with the counters read.
  unfoldable pub boot_healthy : c.Dev → c.Dev
  boot_healthy d =
      let confirmed = image_confirmed c b d in
      let (applied, d1) = c.applied_counter d in
      let (pending, d2) = c.pending_counter d1 in carry_out (plan_boot confirmed applied pending) d2

  unfoldable pub boot_confirm : Bool → Agent c.Dev → Run c.Dev (Unit {0})
  boot_confirm net_ok s =
      if net_ok
      then returned tt (at_dev s (boot_healthy s.dev))
      else if not (image_confirmed c b s.dev)
      then rebooted s
      else returned tt s

  module _ (net : Net c.Dev) (ed25519_verify : Bytes → Bytes → Bytes → ℕ) where
    -- `char ver[32]` with the first 31 bytes of the version.
    unfoldable pub version_text : Manifest → Bytes
    version_text m = c_string (
        take (if ltb (length m.artifact_version) 31 then length m.artifact_version else 31)
          m.artifact_version)

    -- poll_once behind a successful stage.
    unfoldable pub swap : Manifest → Agent c.Dev → Run c.Dev (Unit {0})
    swap m s =
        let (_, d1) = c.store_attempted_version (version_text m) s.dev in
        let (reboots, d2) = commit_and_reboot c b m.rollback_counter d1 in
        if reboots then rebooted (at_dev s d2) else returned tt (set_state online (at_dev s d2))

    -- The installation of a target that is not to be skipped.
    unfoldable pub install : Manifest → Agent c.Dev → Run c.Dev (Unit {0})
    install m s =
        let s1 = set_state updating s in
        let (staged, d) =
          stage_image b net.firmware_download (c_string (take 64 m.sha256)) m.size_bytes s1.dev in
        if not staged then returned tt (set_state online (at_dev s1 d)) else swap m (at_dev s1 d)

    -- What poll_once does with a manifest that verified.
    unfoldable pub consider : Manifest → Agent c.Dev → Run c.Dev (Unit {0})
    consider m s =
        let (applied, d1) = c.applied_counter s.dev in
        let (failed_before, d2) = c.failed_counter d1 in
        if not (check_rollback applied m.rollback_counter)
        then returned tt (at_dev s d1)
        else if m.rollback_counter == failed_before
        then returned tt (at_dev s d2)
        else install m (at_dev s d2)

    -- What poll_once does with the bytes it fetched. md_verify has no other results.
    unfoldable pub judge : Bytes → Agent c.Dev → Run c.Dev (Unit {0})
    judge buf s = elim (md_verify ed25519_verify s.pinned buf (length buf)) [
      | done m ↦ consider m s
      | _ ↦ returned tt s
    ]

    unfoldable pub poll_once : Agent c.Dev → Run c.Dev (Unit {0})
    poll_once s =
        let (buf, d) = net.fetch_manifest manifest_buf s.dev in
        elim buf [ none ↦ returned tt (at_dev s d) | some bytes ↦ judge bytes (at_dev s d) ]
