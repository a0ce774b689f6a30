-- ===== src/Agent/Main/Startup.antt =====
-- The states that are shown while agent_main of lib/meshanics_agent.c comes up.
use mcu_sdk.Base.{
  by_if, ℕ, ◌≡◌, refl, ap, sym, subst, List, [], ◌∷◌, arith, Bool, true, false, not, Option, none,
  some, Bytes, if◌then◌else◌,
}
use mcu_sdk.Plat.{Counters}
use mcu_sdk.Store.Identity.{Identity}
use mcu_sdk.Install.Device.{Board}
use mcu_sdk.Install.{image_confirmed}
use mcu_sdk.Net.{Net}
use mcu_sdk.Agent.Setup.{Setup}
use mcu_sdk.Agent.{
  MeshState, boot, enrolling, connecting, online, offline, boot_healthy, Agent, Run, returned,
  rebooted, set_state, at_dev, boot_confirm,
}
use mcu_sdk.Agent.Main.{
  and_run, pin, enrol_now, load_now, establish_identity, give_up, come_online, use_identity,
  connect, bring_up,
}

-- The lifecycle of include/meshanics/agent.h while the agent comes up.
pub data Next : MeshState → MeshState → Type 0 where
  joins : Next boot connecting
  enrols : Next connecting enrolling
  resumes : Next connecting online
  enrolled : Next enrolling online
  boot_fails : Next boot offline
  join_fails : Next connecting offline
  enrol_fails : Next enrolling offline

-- The states shown since the start, the latest first, where the agent is in the state.
pub data Route : MeshState → List MeshState → Type 0 where
  starts : Route boot (boot ∷ [])
  goes : {x y : MeshState} {xs : List MeshState} → Route x xs → Next x y → Route y (y ∷ xs)

-- An agent with a callback, in the state, which has shown the application such a sequence.
pub record At {D : Type 0} (x : MeshState) (s : Agent D) : Type 0 where
  pub has_on_state : s.has_on_state ≡ true
  pub is_in : s.state ≡ x
  pub route : Route x s.calls

-- Up to its identity the agent is connecting, or enrolling.
data IsJoining {D : Type 0} (s : Agent D) : Type 0 where
  is_connecting : At connecting s → IsJoining s
  is_enrolling : At enrolling s → IsJoining s

At-set_state :
    {D : Type 0} (x y : MeshState) (s : Agent D) → Next x y → At x s → At y (set_state y s)
unfolding set_state
At-set_state x y s k h = record {
  has_on_state = h.has_on_state;
  is_in = refl;
  route =
      subst (Route y) (sym (ap (λ t. if t then y ∷ s.calls else s.calls) h.has_on_state))
        (goes h.route k);
}

At-at_dev : {D : Type 0} (x : MeshState) (s : Agent D) (d : D) → At x s → At x (at_dev s d)
At-at_dev x s d h = record { has_on_state = h.has_on_state; is_in = h.is_in; route = h.route }

joining_fails : {D : Type 0} (s : Agent D) → IsJoining s → At offline (set_state offline s)
joining_fails s (is_connecting h) = At-set_state connecting offline s join_fails h
joining_fails s (is_enrolling h) = At-set_state enrolling offline s enrol_fails h

joining_ends : {D : Type 0} (s : Agent D) → IsJoining s → At online (set_state online s)
joining_ends s (is_connecting h) = At-set_state connecting online s resumes h
joining_ends s (is_enrolling h) = At-set_state enrolling online s enrolled h

IsJoining-at_dev : {D : Type 0} (s : Agent D) (d : D) → IsJoining s → IsJoining (at_dev s d)
IsJoining-at_dev s d (is_connecting h) = is_connecting (At-at_dev connecting s d h)
IsJoining-at_dev s d (is_enrolling h) = is_enrolling (At-at_dev enrolling s d h)

booted :
    {D : Type 0} (s : Agent D) → s.has_on_state ≡ true → s.calls ≡ [] → At boot (set_state boot s)
unfolding set_state
booted s on none_yet =
    let shown : (if s.has_on_state then boot ∷ s.calls else s.calls) ≡ boot ∷ [] =
      rw (on, none_yet) refl in
    record { has_on_state = on; is_in = refl; route = subst (Route boot) (sym shown) starts }

module _ {D : Type 0} (setup : Setup D) where
  enrol_now-IsJoining : (s : Agent D) → At connecting s → IsJoining (enrol_now setup s).1
  unfolding enrol_now
  enrol_now-IsJoining s h =
      let s1 = set_state enrolling s in
      let e : IsJoining s1 = is_enrolling (At-set_state connecting enrolling s enrols h) in
      go s1 (setup.meshanics_enroll s1.dev).0 (setup.meshanics_enroll s1.dev).1 e
    where
      go :
          (s1 : Agent D) (got : Option Identity) (d : D)
          → IsJoining s1
          → IsJoining
              (elim got as (λ x. Option Identity × Agent D) [
                | none ↦ (none, at_dev s1 d)
                | some i ↦
                    (let (saved, d') = setup.identity_save i d in
                      (if saved then some i else none, at_dev s1 d'))
              ]).1
      go s1 none d e = IsJoining-at_dev s1 d e
      go s1 (some i) d e = IsJoining-at_dev s1 (setup.identity_save i d).1 e

  pinned-IsJoining :
      (r : Option Identity × Agent D)
      → IsJoining r.1
      → IsJoining
          (elim r.0 as (λ x. Option Identity × Agent D) [
            | none ↦ (none, r.1)
            | some i ↦ (some i, pin i r.1)
          ]).1
  pinned-IsJoining (none, s) h = h
  pinned-IsJoining (some i, s) (is_connecting h) =
      is_connecting (record { has_on_state = h.has_on_state; is_in = h.is_in; route = h.route })
  pinned-IsJoining (some i, s) (is_enrolling h) =
      is_enrolling (record { has_on_state = h.has_on_state; is_in = h.is_in; route = h.route })

  establish_identity-IsJoining :
      (s : Agent D) → At connecting s → IsJoining (establish_identity setup s).1
  unfolding establish_identity load_now
  establish_identity-IsJoining s h =
      let r = setup.identity_exists s.dev in
      let h1 = At-at_dev connecting s r.1 h in
      pinned-IsJoining
        (if not r.0 then enrol_now setup (at_dev s r.1) else load_now setup (at_dev s r.1))
        (by_if (λ (x : Option Identity × Agent D). IsJoining x.1) (not r.0) _ _
          (λ first. enrol_now-IsJoining (at_dev s r.1) h1)
          (λ known. is_connecting (At-at_dev connecting (at_dev s r.1) _ h1)))

module _ (c : Counters) (b : Board c.Dev) (net : Net c.Dev)
    (ed25519_verify : Bytes → Bytes → Bytes → ℕ) (setup : Setup c.Dev) where
  -- What an agent shows that stopped, that runs, or that rebooted its device.
  pub CameUp : Run c.Dev (Option Bool) → Type 0
  CameUp (returned none s) = At offline s
  CameUp (returned (some http) s) = At online s
  CameUp (rebooted s) = At connecting s × (image_confirmed c b s.dev ≡ false)

  gave_up :
      (s : Agent c.Dev)
      → At offline (set_state offline s)
      → CameUp (give_up c b net ed25519_verify setup s)
  unfolding CameUp give_up
  gave_up s h = h

  came_online :
      (s : Agent c.Dev) → IsJoining s → CameUp (come_online c b net ed25519_verify setup s)
  unfolding CameUp come_online boot_confirm
  came_online s h =
      let s1 = at_dev s (boot_healthy c b s.dev) in
      let r = net.plat_register s1.dev in
      let d = (setup.http_listen r.1).1 in
      joining_ends (at_dev s1 d) (IsJoining-at_dev s1 d (IsJoining-at_dev s _ h))

  used_identity :
      (got : Option Identity) (s1 : Agent c.Dev)
      → IsJoining s1
      → CameUp (elim got as (λ x. Run c.Dev (Option Bool)) [
        | none ↦ give_up c b net ed25519_verify setup s1
        | some i ↦
            (let (good, d) = setup.net_set_identity i s1.dev in
              if not good
              then give_up c b net ed25519_verify setup (at_dev s1 d)
              else come_online c b net ed25519_verify setup (at_dev s1 d))
      ])
  used_identity none s1 h = gave_up s1 (joining_fails s1 h)
  used_identity (some i) s1 h =
      let r = setup.net_set_identity i s1.dev in
      let h1 = IsJoining-at_dev s1 r.1 h in
      by_if CameUp (not r.0) _ _ (λ bad. gave_up (at_dev s1 r.1) (joining_fails _ h1))
        (λ good. came_online (at_dev s1 r.1) h1)

  stranded :
      (t : Bool) (s : Agent c.Dev)
      → At connecting s
      → image_confirmed c b s.dev ≡ not t
      → CameUp (
          and_run
            (if t then rebooted s else returned tt s)
            (λ _ s2. give_up c b net ed25519_verify setup s2))
  unfolding CameUp
  stranded true s h k = (h, k)
  stranded false s h k = gave_up s (At-set_state connecting offline s join_fails h)

  connected : (s : Agent c.Dev) → At boot s → CameUp (connect c b net ed25519_verify setup s)
  unfolding connect use_identity boot_confirm
  connected s h =
      let s1 = set_state connecting s in
      let h1 = At-set_state boot connecting s joins h in
      let r = net.wifi_up s1.dev in
      let h2 = At-at_dev connecting s1 r.1 h1 in
      by_if CameUp (not r.0) _ _
        (λ down. stranded (not (image_confirmed c b r.1)) (at_dev s1 r.1) h2 (ground arith))
        (λ up.
          used_identity (establish_identity setup (at_dev s1 r.1)).0
            (establish_identity setup (at_dev s1 r.1)).1
            (establish_identity-IsJoining setup (at_dev s1 r.1) h2))

  -- For an application with a state callback, from the start: the states that agent_main shows it up
  -- to its loop are boot, then connecting, then in some runs enrolling, and then online, or offline
  -- straight from any of the three; the sequence ends with online where agent_main reaches the loop,
  -- whether or not the control plane could be told of the device, with offline where it returns
  -- before, and with connecting where it reboots the device, which it does only with an image that
  -- is not confirmed.
  pub bring_up-CameUp :
      (s : Agent c.Dev)
      → s.has_on_state ≡ true
      → s.calls ≡ []
      → CameUp (bring_up c b net ed25519_verify setup s)
  unfolding bring_up
  bring_up-CameUp s on none_yet =
      let s1 = set_state boot s in
      let h = booted s on none_yet in
      let r = setup.psa_crypto_init s1.dev in
      let h1 = At-at_dev boot s1 r.1 h in
      let down = At-set_state boot offline (at_dev s1 r.1) boot_fails h1 in
      by_if CameUp (not r.0) _ _ (λ bad. gave_up (at_dev s1 r.1) down)
        (λ good.
          by_if CameUp (not setup.provisioned) _ _ (λ bare. gave_up (at_dev s1 r.1) down)
            (λ ready. connected (at_dev s1 r.1) h1))
