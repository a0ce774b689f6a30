-- ===== src/Agent/Main/Pinned.antt =====
-- That a poll of lib/meshanics_agent.c keeps the pinned key.
use mcu_sdk.Base.{
  ℕ, ◌==◌, ◌≡◌, Bool, true, false, not, Option, none, some, Bytes, length, if◌then◌else◌, Outcome,
  done, failed, fault, stuck, c_string, take,
}
use mcu_sdk.Plat.{Counters}
use mcu_sdk.Manifest.Types.{PinnedKey, Manifest, MdError}
use mcu_sdk.Manifest.Verify.{md_verify, check_rollback}
use mcu_sdk.Install.Device.{Board}
use mcu_sdk.Install.{stage_image, commit_and_reboot}
use mcu_sdk.Net.{Net}
use mcu_sdk.Agent.{
  manifest_buf, Agent, Run, returned, rebooted, set_state, at_dev, version_text, swap, install,
  consider, judge, poll_once,
}
use mcu_sdk.Agent.Main.{and_run}

-- The agent behind a call, whether it returned or rebooted.
abbrev pub end_of : {D A : Type 0} → Run D A → Agent D
end_of (returned a s) = s
end_of (rebooted s) = s

-- A property of the agent behind a call, through a test and a call that goes on.
pub ends-if :
    {D A : Type 0} (P : Agent D → Type 0) (t : Bool) (x y : Run D A)
    → P (end_of x)
    → P (end_of y)
    → P (end_of (if t then x else y))
ends-if P true x y h k = h
ends-if P false x y h k = k

pub ends-and_run :
    {D A B : Type 0} (P : Agent D → Type 0) (r : Run D A) (f : A → Agent D → Run D B)
    → P (end_of r)
    → ((a : A) (s : Agent D) → P s → P (end_of (f a s)))
    → P (end_of (and_run r f))
ends-and_run P (returned a s) f h k = k a s h
ends-and_run P (rebooted s) f h k = h

module _ (c : Counters) (b : Board c.Dev) (net : Net c.Dev)
    (ed25519_verify : Bytes → Bytes → Bytes → ℕ) (key : PinnedKey) where
  abbrev pub Pins : Agent c.Dev → Type 0
  Pins s = s.pinned ≡ key

  Pins-consider :
      (m : Manifest) (s : Agent c.Dev)
      → Pins s
      → Pins (end_of (consider c b net ed25519_verify m s))
  unfolding consider install swap set_state
  Pins-consider m s e =
      let a = c.applied_counter s.dev in
      let f = c.failed_counter a.1 in
      let st = stage_image b net.firmware_download (c_string (take 64 m.sha256)) m.size_bytes f.1 in
      let w = c.store_attempted_version (version_text c b net ed25519_verify m) st.1 in
      ends-if Pins (not (check_rollback a.0 m.rollback_counter)) _ _ e (
        ends-if Pins (m.rollback_counter == f.0) _ _ e (
          ends-if Pins (not st.0) _ _ e
            (ends-if Pins (commit_and_reboot c b m.rollback_counter w.1).0 _ _ e e)))

  Pins-judged :
      (o : Outcome MdError Manifest) (s : Agent c.Dev)
      → Pins s
      → Pins (
          end_of (elim o as (λ x. Run c.Dev (Unit {0})) [
            | done m ↦ consider c b net ed25519_verify m s
            | _ ↦ returned tt s
          ]))
  Pins-judged (done m) s e = Pins-consider m s e
  Pins-judged (failed r) s e = e
  Pins-judged fault s e = e
  Pins-judged stuck s e = e

  pub Pins-poll_once :
      (s : Agent c.Dev) → Pins s → Pins (end_of (poll_once c b net ed25519_verify s))
  unfolding poll_once judge
  Pins-poll_once s e = go (net.fetch_manifest manifest_buf s.dev).0
    where
      d1 : c.Dev
      d1 = (net.fetch_manifest manifest_buf s.dev).1

      go :
          (o : Option Bytes)
          → Pins (
              end_of (elim o as (λ x. Run c.Dev (Unit {0})) [
                | none ↦ returned tt (at_dev s d1)
                | some bytes ↦ judge c b net ed25519_verify bytes (at_dev s d1)
              ]))
      go none = e
      go (some bytes) =
          Pins-judged (md_verify ed25519_verify s.pinned bytes (length bytes)) (at_dev s d1) e
