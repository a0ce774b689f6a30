-- ===== src/Agent/Main/Traces.antt =====
-- The anti-rollback guarantee for agent_main of lib/meshanics_agent.c, from its start through any
-- number of rounds of its loop.
use mcu_sdk.Base.{
  ℕ, ◌<◌, ◌≡◌, refl, sym, subst, ◌∙◌, Bool, true, false, not, Option, none, some, Bytes, u64_mod,
  if◌then◌else◌,
}
use mcu_sdk.Plat.{Book, Counters, CounterLaws}
use mcu_sdk.Manifest.Types.{PinnedKey}
use mcu_sdk.Store.Identity.{Identity}
use mcu_sdk.Install.Device.{Board, BoardKeeps}
use mcu_sdk.Net.{Net, NetLaws}
use mcu_sdk.Agent.Setup.{Setup}
use mcu_sdk.Agent.{
  boot, enrolling, connecting, Agent, Run, returned, rebooted, set_state, at_dev, boot_confirm,
}
use mcu_sdk.Agent.Rollback.{boots, reverts, Reach, here, after, Traced, reach-Traced}
use mcu_sdk.Agent.Main.{
  and_run, pin, enrol_now, load_now, establish_identity, give_up, come_online, use_identity,
  connect, bring_up, agent_loop, agent_main,
}
use mcu_sdk.Agent.Main.Pinned.{end_of, ends-if, ends-and_run}
use mcu_sdk.Agent.Main.Rounds.{SetupKeeps, From, moved, On-agent_loop}

module _ (c : Counters) (b : Board c.Dev) (net : Net c.Dev)
    (ed25519_verify : Bytes → Bytes → Bytes → ℕ) (setup : Setup c.Dev) (book : c.Dev → Book)
    (key : PinnedKey) (start : Agent c.Dev) where
  -- Reached from the start.
  abbrev Here : Agent c.Dev → Type 0
  Here s = From c b net ed25519_verify setup book key start s

  abbrev step_on : (s s' : Agent c.Dev) → Here s → book s'.dev ≡ book s.dev → Here s'
  step_on = moved c b net ed25519_verify setup book key start

  module _ (laws : CounterLaws c book) (quiet : NetLaws net book)
      (keeps : SetupKeeps setup book) where
    Here-give_up :
        (s : Agent c.Dev) → Here s → Here (end_of (give_up c b net ed25519_verify setup s))
    unfolding give_up set_state
    Here-give_up s h = step_on s _ h refl

    booted :
        (net_ok : Bool) (s : Agent c.Dev)
        → Here s
        → (r : Run c.Dev (Unit {0})) → boot_confirm c b net_ok s ≡ r
        → Here (end_of r)
    unfolding From
    booted net_ok s h (returned u s') e = after h (boots net_ok e)
    booted net_ok s h (rebooted s') e = after h (reverts net_ok e)

    Here-come_online :
        (s : Agent c.Dev) → Here s → Here (end_of (come_online c b net ed25519_verify setup s))
    unfolding come_online set_state
    Here-come_online s h =
        ends-and_run Here (boot_confirm c b true s) _
          (booted true s h (boot_confirm c b true s) refl)
          (λ u s1 h1.
            let r = net.plat_register s1.dev in
            step_on s1 _ h1 (keeps.keeps_listen r.1 ∙ quiet.keeps_register s1.dev))

    book-enrol_now : (s : Agent c.Dev) → book (enrol_now setup s).1.dev ≡ book s.dev
    unfolding enrol_now set_state
    book-enrol_now s = got (setup.meshanics_enroll s.dev).0
      where
        d1 : c.Dev
        d1 = (setup.meshanics_enroll s.dev).1

        got :
            (o : Option Identity)
            → book
                (elim o as (λ x. Option Identity × Agent c.Dev) [
                  | none ↦ (none, at_dev (set_state enrolling s) d1)
                  | some i ↦
                      (let (saved, d') = setup.identity_save i d1 in
                        (if saved then some i else none, at_dev (set_state enrolling s) d'))
                ]).1.dev
              ≡ book s.dev
        got none = keeps.keeps_enroll s.dev
        got (some i) = keeps.keeps_save i d1 ∙ keeps.keeps_enroll s.dev

    book-establish_identity :
        (s : Agent c.Dev) → book (establish_identity setup s).1.dev ≡ book s.dev
    unfolding establish_identity load_now
    book-establish_identity s = chosen (setup.identity_exists s.dev).0
      where
        s1 : Agent c.Dev
        s1 = at_dev s (setup.identity_exists s.dev).1

        pinned_too :
            (r : Option Identity × Agent c.Dev)
            → book r.1.dev ≡ book s1.dev
            → book
                (elim r.0 as (λ x. Option Identity × Agent c.Dev) [
                  | none ↦ (none, r.1)
                  | some i ↦ (some i, pin i r.1)
                ]).1.dev
              ≡ book s.dev
        pinned_too (none, s2) e = e ∙ keeps.keeps_exists s.dev
        pinned_too (some i, s2) e = e ∙ keeps.keeps_exists s.dev

        chosen :
            (t : Bool)
            → let r = if not t then enrol_now setup s1 else load_now setup s1 in
              book
                (elim r.0 as (λ x. Option Identity × Agent c.Dev) [
                  | none ↦ (none, r.1)
                  | some i ↦ (some i, pin i r.1)
                ]).1.dev
              ≡ book s.dev
        chosen false = pinned_too (enrol_now setup s1) (book-enrol_now s1)
        chosen true = pinned_too (load_now setup s1) (keeps.keeps_load s1.dev)

    Here-use_identity :
        (s : Agent c.Dev) → Here s → Here (end_of (use_identity c b net ed25519_verify setup s))
    unfolding use_identity
    Here-use_identity s h = used (establish_identity setup s).0
      where
        s1 : Agent c.Dev
        s1 = (establish_identity setup s).1

        used :
            (got : Option Identity)
            → Here (
                end_of (elim got as (λ x. Run c.Dev (Option Bool)) [
                  | none ↦ give_up c b net ed25519_verify setup s1
                  | some i ↦
                      (let (good, d) = setup.net_set_identity i s1.dev in
                        if not good
                        then give_up c b net ed25519_verify setup (at_dev s1 d)
                        else come_online c b net ed25519_verify setup (at_dev s1 d))
                ]))
        used none = Here-give_up s1 (step_on s s1 h (book-establish_identity s))
        used (some i) =
            let r = setup.net_set_identity i s1.dev in
            let h1 =
              step_on s (at_dev s1 r.1) h
                (keeps.keeps_identity i s1.dev ∙ book-establish_identity s) in
            ends-if Here (not r.0) _ _ (Here-give_up (at_dev s1 r.1) h1)
              (Here-come_online (at_dev s1 r.1) h1)

    Here-connect :
        (s : Agent c.Dev) → Here s → Here (end_of (connect c b net ed25519_verify setup s))
    unfolding connect set_state
    Here-connect s h =
        let r = net.wifi_up s.dev in
        let s1 = at_dev (set_state connecting s) r.1 in
        let h1 = step_on s s1 h (quiet.keeps_wifi s.dev) in
        ends-if Here (not r.0) _ _
          (ends-and_run Here (boot_confirm c b false s1) _
            (booted false s1 h1 (boot_confirm c b false s1) refl) (λ u s2 h2. Here-give_up s2 h2))
          (Here-use_identity s1 h1)

    Here-bring_up :
        (s : Agent c.Dev) → Here s → Here (end_of (bring_up c b net ed25519_verify setup s))
    unfolding bring_up set_state
    Here-bring_up s h =
        let r = setup.psa_crypto_init s.dev in
        let s1 = at_dev (set_state boot s) r.1 in
        let h1 = step_on s s1 h (keeps.keeps_crypto s.dev) in
        ends-if Here (not r.0) _ _ (Here-give_up s1 h1)
          (ends-if Here (not setup.provisioned) _ _ (Here-give_up s1 h1) (Here-connect s1 h1))

module _ (c : Counters) (b : Board c.Dev) (net : Net c.Dev)
    (ed25519_verify : Bytes → Bytes → Bytes → ℕ) (setup : Setup c.Dev) (book : c.Dev → Book)
    (laws : CounterLaws c book) (board_keeps : BoardKeeps b book) (quiet : NetLaws net book)
    (keeps : SetupKeeps setup book) where
  looped :
      (poll_ticks : ℕ) (version : Bytes) (rounds : ℕ) (s : Agent c.Dev)
      → (r : Run c.Dev (Option Bool))
      → ((key : PinnedKey) → Reach c b net ed25519_verify book key s (end_of r))
      → let s' = end_of (
          and_run r (λ up s1. elim up as (λ x. Run c.Dev Bool) [
            | none ↦ returned false s1
            | some http ↦
                agent_loop c b net ed25519_verify setup poll_ticks version http rounds 0 s1
          ])) in
        Reach c b net ed25519_verify book s'.pinned s s'
  unfolding From
  looped poll_ticks version rounds s (rebooted s1) h = h s1.pinned
  looped poll_ticks version rounds s (returned none s1) h = h s1.pinned
  looped poll_ticks version rounds s (returned (some http) s1) h =
      let last =
        end_of (agent_loop c b net ed25519_verify setup poll_ticks version http rounds 0 s1) in
      let on =
        On-agent_loop c b net ed25519_verify setup book s1.pinned s laws quiet keeps poll_ticks
          version http rounds 0 s1 (record { pinned_key = refl; reached = h s1.pinned }) in
      subst (λ key. Reach c b net ed25519_verify book key s last) (sym on.pinned_key) on.reached

  -- On a device whose counters, board, network and other calls keep their laws, from a pending
  -- counter that is a uint64_t: agent_main, run from its start through any number of rounds, whatever
  -- the network sends and whichever calls fail, never lowers the applied counter, and changes it
  -- only to the counter that was pending at the start or to the counter of a manifest signed under
  -- the key that the agent has pinned; a pending counter has such a source too.
  pub agent_main-Traced :
      (poll_ticks : ℕ) (version : Bytes) (rounds : ℕ) (s : Agent c.Dev)
      → (book s.dev).pending < u64_mod
      → let s' = end_of (agent_main c b net ed25519_verify setup poll_ticks version rounds s) in
        Traced c b net ed25519_verify book s'.pinned (book s.dev) (book s'.dev)
  unfolding agent_main From
  agent_main-Traced poll_ticks version rounds s small =
      let s' = end_of (agent_main c b net ed25519_verify setup poll_ticks version rounds s) in
      reach-Traced c b net ed25519_verify book s'.pinned laws board_keeps quiet s s' small (
        looped poll_ticks version rounds s (bring_up c b net ed25519_verify setup s)
          (λ key. Here-bring_up c b net ed25519_verify setup book key s laws quiet keeps s here))
