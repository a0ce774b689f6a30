-- ===== src/Agent/Main/Rounds.antt =====
-- That the rounds of agent_main of lib/meshanics_agent.c are sequences of the device's events under
-- one pinned key.
use mcu_sdk.Base.{
  ℕ, zero, suc, ◌+◌, ◌%◌, ◌==◌, ◌≡◌, refl, ◌∙◌, Bool, true, false, not, Option, none, some, Bytes,
  length, codes, if◌then◌else◌,
}
use mcu_sdk.Plat.{Book, Counters, CounterLaws}
use mcu_sdk.Manifest.Types.{PinnedKey}
use mcu_sdk.Store.Identity.{Identity}
use mcu_sdk.Install.Device.{Board}
use mcu_sdk.Net.{Net, NetLaws, Beat, beat_error, beat_stop, beat_ok}
use mcu_sdk.Agent.Setup.{Setup}
use mcu_sdk.Agent.{Agent, Run, returned, rebooted, set_state, at_dev, poll_once}
use mcu_sdk.Agent.Rollback.{polls, swaps, resets, Reach, after}
use mcu_sdk.Agent.Main.{
  probe, ship_logs, after_beat, heartbeat_round, serve_tick, tick_round, agent_loop,
}
use mcu_sdk.Agent.Main.Pinned.{end_of, ends-if, ends-and_run, Pins-poll_once}

-- What agent_main calls beside the platform leaves the update state as it was.
pub record SetupKeeps {D V : Type 0} (setup : Setup D) (view : D → V) : Type 0 where
  pub keeps_crypto : (d : D) → view (setup.psa_crypto_init d).1 ≡ view d
  pub keeps_exists : (d : D) → view (setup.identity_exists d).1 ≡ view d
  pub keeps_load : (d : D) → view (setup.identity_load d).1 ≡ view d
  pub keeps_save : (i : Identity) (d : D) → view (setup.identity_save i d).1 ≡ view d
  pub keeps_enroll : (d : D) → view (setup.meshanics_enroll d).1 ≡ view d
  pub keeps_identity : (i : Identity) (d : D) → view (setup.net_set_identity i d).1 ≡ view d
  pub keeps_listen : (d : D) → view (setup.http_listen d).1 ≡ view d
  pub keeps_serve : (d : D) → view (setup.http_serve_pending d).1 ≡ view d
  pub keeps_health :
      (health : D → Bool × D) → setup.health ≡ some health → (d : D) → view (health d).1 ≡ view d

module _ (c : Counters) (b : Board c.Dev) (net : Net c.Dev)
    (ed25519_verify : Bytes → Bytes → Bytes → ℕ) (setup : Setup c.Dev) (book : c.Dev → Book)
    (key : PinnedKey) (start : Agent c.Dev) where
  -- Reached from the start.
  unfoldable pub From : Agent c.Dev → Type 0
  From s = Reach c b net ed25519_verify book key start s

  pub moved : (s s' : Agent c.Dev) → From s → book s'.dev ≡ book s.dev → From s'
  unfolding From
  moved s s' r e = after r (resets e)

  -- Reached from the start, and with the key pinned.
  pub record On (s : Agent c.Dev) : Type 0 where
    pub pinned_key : s.pinned ≡ key
    pub reached : From s

  On-moved : (s s' : Agent c.Dev) → On s → s'.pinned ≡ s.pinned → book s'.dev ≡ book s.dev → On s'
  On-moved s s' h p e = record { pinned_key = p ∙ h.pinned_key; reached = moved s s' h.reached e }

  polled :
      (s : Agent c.Dev)
      → On s
      → (r : Run c.Dev (Unit {0})) → poll_once c b net ed25519_verify s ≡ r
      → (end_of r).pinned ≡ key
      → On (end_of r)
  unfolding From
  polled s h (returned u s') e p = record {
    pinned_key = p;
    reached = after h.reached (polls h.pinned_key e);
  }
  polled s h (rebooted s') e p = record {
    pinned_key = p;
    reached = after h.reached (swaps h.pinned_key e);
  }

  On-poll_once : (s : Agent c.Dev) → On s → On (end_of (poll_once c b net ed25519_verify s))
  On-poll_once s h =
      polled s h (poll_once c b net ed25519_verify s) refl
        (Pins-poll_once c b net ed25519_verify key s h.pinned_key)

  module _ (laws : CounterLaws c book) (quiet : NetLaws net book)
      (keeps : SetupKeeps setup book) where
    On-after_beat :
        (beat : Beat) (log_req : Bytes) (s : Agent c.Dev)
        → On s
        → On (end_of (after_beat c b net ed25519_verify setup beat log_req s))
    unfolding after_beat ship_logs
    On-after_beat beat_stop log_req s h = h
    On-after_beat beat_error log_req s h =
        ends-and_run On (poll_once c b net ed25519_verify s) _ (On-poll_once s h) (λ u s' k. k)
    On-after_beat beat_ok log_req s h =
        let s1 =
          if length log_req == 0
          then s
          else at_dev s (ship_logs c b net ed25519_verify setup log_req s.dev) in
        let h1 : On s1 =
          elim (length log_req == 0)
            as (λ t.
              On (
                if t then s else at_dev s (ship_logs c b net ed25519_verify setup log_req s.dev))) [
                  | true ↦ h
                  | false ↦
                      On-moved s _ h refl
                        (quiet.keeps_upload log_req (setup.applog_snapshot s.dev) s.dev)
                ] in
        ends-and_run On (poll_once c b net ed25519_verify s1) _ (On-poll_once s1 h1) (λ u s' k. k)

    book-probe :
        (http : Bool) (d : c.Dev) → book (probe c b net ed25519_verify setup http d).1 ≡ book d
    unfolding probe
    book-probe false d = refl
    book-probe true d = asked setup.health (keeps.keeps_health)
      where
        asked :
            (o : Option (c.Dev → Bool × c.Dev))
            → ((health : c.Dev → Bool × c.Dev)
                → o ≡ some health
                → (d : c.Dev) → book (health d).1 ≡ book d)
            → book (elim o as (λ x. Bool × c.Dev) [ none ↦ (true, d) | some health ↦ health d ]).1
              ≡ book d
        asked none h = refl
        asked (some health) h = h health refl d

    On-heartbeat_round :
        (version : Bytes) (http : Bool) (s : Agent c.Dev)
        → On s
        → On (end_of (heartbeat_round c b net ed25519_verify setup version http s))
    unfolding heartbeat_round
    On-heartbeat_round version http s h =
        let p = probe c b net ed25519_verify setup http s.dev in
        let detail = if p.0 then codes "status-server up" else codes "health check failed" in
        let a = c.applied_counter p.1 in
        let r = net.heartbeat version a.0 p.0 detail 48 a.1 in
        On-after_beat r.0.0 r.0.1 (at_dev s r.1) (
          On-moved s (at_dev s r.1) h refl (
            quiet.keeps_heartbeat version a.0 p.0 detail 48 a.1
            ∙ ((laws.applied_lem p.1).1 ∙ book-probe http s.dev)))

    On-serve_tick :
        (http : Bool) (s : Agent c.Dev)
        → On s
        → On (serve_tick c b net ed25519_verify setup http s).1
    unfolding serve_tick
    On-serve_tick true s h = On-moved s _ h refl (keeps.keeps_serve s.dev)
    On-serve_tick false s h = h

    On-tick_round :
        (poll_ticks : ℕ) (version : Bytes) (http : Bool) (tick : ℕ) (s : Agent c.Dev)
        → On s
        → On (end_of (tick_round c b net ed25519_verify setup poll_ticks version http tick s))
    unfolding tick_round
    On-tick_round poll_ticks version http tick s h =
        ends-if On (tick % poll_ticks == 0) _ _ (On-heartbeat_round version http s h) h

    pub On-agent_loop :
        (poll_ticks : ℕ) (version : Bytes) (http : Bool) (rounds tick : ℕ) (s : Agent c.Dev)
        → On s
        → On
            (end_of (agent_loop c b net ed25519_verify setup poll_ticks version http rounds tick s))
    unfolding agent_loop set_state
    On-agent_loop poll_ticks version http zero tick s h = h
    On-agent_loop poll_ticks version http (suc rounds) tick s h =
        let v = serve_tick c b net ed25519_verify setup http s in
        let h1 = On-serve_tick http s h in
        ends-if On (not v.0) _ _ h1 (
          ends-and_run On (tick_round c b net ed25519_verify setup poll_ticks version http tick v.1)
            _ (On-tick_round poll_ticks version http tick v.1 h1)
            (λ going s2 h2.
              ends-if On going _ _ (On-agent_loop poll_ticks version http rounds (tick + 1) s2 h2)
                (On-moved s2 _ h2 refl refl)))
