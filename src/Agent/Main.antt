-- ===== src/Agent/Main.antt =====
-- establish_identity, ship_logs and agent_main of lib/meshanics_agent.c. The loop of agent_main has a
-- function for one tick and runs for a number of ticks; the sleep between two ticks is not modelled.
pub mod Startup
pub mod Pinned
pub mod Rounds
pub mod Traces
use mcu_sdk.Base.{
  ℕ, zero, suc, ◌+◌, ◌%◌, ◌≡◌, ◌⊎◌, inl, inr, refl, arith, Bool, true, false, not, ◌&&◌, Option,
  none, some, Bytes, [], ◌∷◌, codes, length, ltb, ◌==◌, if◌then◌else◌,
}
use mcu_sdk.Manifest.Types.{PinnedKey}
use mcu_sdk.Plat.{Counters}
use mcu_sdk.Store.Identity.{Identity}
use mcu_sdk.Install.Device.{Board}
use mcu_sdk.Install.{image_confirmed}
use mcu_sdk.Net.{Net, Beat, beat_error, beat_stop, beat_ok}
use mcu_sdk.Agent.Setup.{Setup}
use mcu_sdk.Agent.{
  MeshState, boot, enrolling, connecting, online, offline, Agent, Run, returned, rebooted,
  set_state, at_dev, boot_confirm, poll_once,
}

-- Behind a call that may have rebooted the device.
abbrev pub and_run : {D A B : Type 0} → Run D A → (A → Agent D → Run D B) → Run D B
and_run (returned a s) f = f a s
and_run (rebooted s) f = rebooted s

-- A Boolean result with the agent's state.
abbrev pub pin : {D : Type 0} → Identity → Agent D → Agent D
pin i s = record s { pinned = record { pub_key = i.manifest_pub; key_id = i.key_id } }

module _ {D : Type 0} (setup : Setup D) where
  -- The first branch of establish_identity: none of it is kept unless it can be saved.
  unfoldable pub enrol_now : Agent D → Option Identity × Agent D
  enrol_now s =
      let s1 = set_state enrolling s in
      let (got, d) = setup.meshanics_enroll s1.dev in
      elim got [
        | none ↦ (none, at_dev s1 d)
        | some i ↦
            (let (saved, d') = setup.identity_save i d in
              (if saved then some i else none, at_dev s1 d'))
      ]

  unfoldable pub load_now : Agent D → Option Identity × Agent D
  load_now s = let (got, d) = setup.identity_load s.dev in (got, at_dev s d)

  -- The identity is self.ident, and the pinned key points into it.
  unfoldable pub establish_identity : Agent D → Option Identity × Agent D
  establish_identity s =
      let (there, d) = setup.identity_exists s.dev in
      let (got, s') = if not there then enrol_now (at_dev s d) else load_now (at_dev s d) in
      elim got [ none ↦ (none, s') | some i ↦ (some i, pin i s') ]

module _ (c : Counters) (b : Board c.Dev) (net : Net c.Dev)
    (ed25519_verify : Bytes → Bytes → Bytes → ℕ) (setup : Setup c.Dev) where
  -- `set_state(MESHANICS_STATE_OFFLINE); return;`
  unfoldable pub give_up : Agent c.Dev → Run c.Dev (Option Bool)
  give_up s = returned none (set_state offline s)

  -- agent_main from boot_confirm(1) to its loop: the result says whether the status server listens.
  unfoldable pub come_online : Agent c.Dev → Run c.Dev (Option Bool)
  come_online s = and_run (boot_confirm c b true s) (λ _ s1.
      let (registered, d) = net.plat_register s1.dev in
      let (http, d') = setup.http_listen d in
      returned (some http) (set_state online (at_dev s1 d')))

  unfoldable pub use_identity : Agent c.Dev → Run c.Dev (Option Bool)
  use_identity s =
      let (got, s1) = establish_identity setup s in
      elim got [
        | none ↦ give_up s1
        | some i ↦
            (let (good, d) = setup.net_set_identity i s1.dev in
              if not good then give_up (at_dev s1 d) else come_online (at_dev s1 d))
      ]

  unfoldable pub connect : Agent c.Dev → Run c.Dev (Option Bool)
  connect s =
      let s1 = set_state connecting s in
      let (up, d) = net.wifi_up s1.dev in
      if not up
      then and_run (boot_confirm c b false (at_dev s1 d)) (λ _ s2. give_up s2)
      else use_identity (at_dev s1 d)

  -- agent_main up to its loop; `none` is a return before it.
  unfoldable pub bring_up : Agent c.Dev → Run c.Dev (Option Bool)
  bring_up s =
      let s1 = set_state boot s in
      let (good, d) = setup.psa_crypto_init s1.dev in
      if not good
      then give_up (at_dev s1 d)
      else if not setup.provisioned
      then give_up (at_dev s1 d)
      else connect (at_dev s1 d)

  -- The self-probe: `self.cfg.health` is asked only while the status server listens.
  unfoldable pub probe : Bool → c.Dev → Bool × c.Dev
  probe http d =
      if http then elim setup.health [ none ↦ (true, d) | some health ↦ health d ] else (false, d)

  unfoldable pub ship_logs : Bytes → c.Dev → c.Dev
  ship_logs id d = (net.upload_logs id (setup.applog_snapshot d) d).1

  -- The control plane's answer to a heartbeat: `true` goes on with the loop.
  unfoldable pub after_beat : Beat → Bytes → Agent c.Dev → Run c.Dev Bool
  after_beat beat_stop log_req s = returned false s
  after_beat beat_error log_req s =
      and_run (poll_once c b net ed25519_verify s) (λ _ s'. returned true s')
  after_beat beat_ok log_req s =
      let s1 = if length log_req == 0 then s else at_dev s (ship_logs log_req s.dev) in
      and_run (poll_once c b net ed25519_verify s1) (λ _ s'. returned true s')

  -- The body of `if (tick % POLL_TICKS == 0)`.
  unfoldable pub heartbeat_round : Bytes → Bool → Agent c.Dev → Run c.Dev Bool
  heartbeat_round version http s =
      let (healthy, d1) = probe http s.dev in
      let detail = if healthy then codes "status-server up" else codes "health check failed" in
      let (applied, d2) = c.applied_counter d1 in
      let ((beat, log_req), d3) = net.heartbeat version applied healthy detail 48 d2 in
      after_beat beat log_req (at_dev s d3)

  -- `if (http >= 0)`, and whether it returns.
  unfoldable pub serve_tick : Bool → Agent c.Dev → Bool × Agent c.Dev
  serve_tick http s =
      let (back, d) = setup.http_serve_pending s.dev in
      if http then (back, at_dev s d) else (true, s)

  -- The rest of one round of the loop, `poll_ticks` being CONFIG_MESHANICS_POLL_INTERVAL_SEC.
  unfoldable pub tick_round : ℕ → Bytes → Bool → ℕ → Agent c.Dev → Run c.Dev Bool
  tick_round poll_ticks version http tick s =
      if tick % poll_ticks == 0 then heartbeat_round version http s else returned true s

  -- The loop for `rounds` ticks from `tick` on: `true` is an agent that still runs, in
  -- http_serve_pending for good where that does not return, and `false` one that was decommissioned.
  unfoldable pub agent_loop : ℕ → Bytes → Bool → ℕ → ℕ → Agent c.Dev → Run c.Dev Bool
  agent_loop poll_ticks version http zero tick s = returned true s
  agent_loop poll_ticks version http (suc rounds) tick s =
      let (back, s1) = serve_tick http s in
      let ticked = and_run (tick_round poll_ticks version http tick s1) (λ going s2.
        let rest = agent_loop poll_ticks version http rounds (tick + 1) s2 in
        if going then rest else returned false (set_state offline s2)) in
      if not back then returned true s1 else ticked

  unfoldable pub agent_main : ℕ → Bytes → ℕ → Agent c.Dev → Run c.Dev Bool
  agent_main poll_ticks version rounds s = and_run (bring_up s) (λ up s1.
      elim up as (λ x. Run c.Dev Bool) [
        | none ↦ returned false s1
        | some http ↦ agent_loop poll_ticks version http rounds 0 s1
      ])
