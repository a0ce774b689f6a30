-- ===== src/Net/Wifi.antt =====
-- wifi_evt and plat_net_wifi_up of lib/plat/plat_net.c. Zephyr's network management is the parameter
-- `Wifi`; the static wifi_connected is a value that is passed on.
use mcu_sdk.Base.{
  ℕ, zero, suc, ◌+◌, ◌*◌, ◌≤◌, ◌≡◌, arith, Bool, true, false, not, Bytes, List, [], ◌∷◌, ℤ, pos,
  negsuc, if◌then◌else◌,
}
use mcu_sdk.Provision.{Provisioning}

-- A network event, with the status of a NET_EVENT_WIFI_CONNECT_RESULT.
pub data WifiEvent : Type 0 where
  connect_result : ℤ → WifiEvent
  other_event : WifiEvent

-- A call gives the events too that reach the callback meanwhile; a flag is `true` for a result of 0.
pub record Wifi (D : Type 0) : Type 0 where
  pub add_event_callback : D → D
  -- NET_REQUEST_WIFI_CONNECT, with the SSID and the key
  pub request_connect : Bytes → Bytes → D → (Bool × List WifiEvent) × D
  pub k_msleep : ℕ → D → List WifiEvent × D
  pub dhcpv4_start : D → D

-- The new value of wifi_connected.
unfoldable pub wifi_evt : WifiEvent → Bool → Bool
wifi_evt (connect_result (pos zero)) connected = true
wifi_evt (connect_result (pos (suc n))) connected = connected
wifi_evt (connect_result (negsuc n)) connected = connected
wifi_evt other_event connected = connected

unfoldable pub deliver : List WifiEvent → Bool → Bool
unfolding wifi_evt
deliver [] connected = connected
deliver (e ∷ es) connected = deliver es (wifi_evt e connected)

module _ {D : Type 0} (w : Wifi D) where
  -- The first loop, with `t` rounds left: wifi_connected behind it.
  unfoldable pub request_loop : Provisioning → ℕ → Bool → D → Bool × D
  unfolding deliver
  request_loop conf zero connected d = (connected, d)
  request_loop conf (suc t) connected d =
      let ((good, events), d1) = w.request_connect conf.wifi_ssid conf.wifi_psk d in
      let (events', d2) = w.k_msleep 500 d1 in
      let rest = request_loop conf t (deliver events' (deliver events connected)) d2 in
      if good then (deliver events connected, d1) else rest

  -- The second loop.
  unfoldable pub await_loop : ℕ → Bool → D → Bool × D
  unfolding deliver
  await_loop zero connected d = (connected, d)
  await_loop (suc t) connected d =
      let (events, d1) = w.k_msleep 100 d in
      let rest = await_loop t (deliver events connected) d1 in if connected then (true, d) else rest

  -- Behind the loops.
  unfoldable pub settle : Bool → D → Bool × D
  settle connected d =
      if not connected then (false, d) else (true, (w.k_msleep 3000 (w.dhcpv4_start d)).1)

  -- wifi_connected is `connected` before. The NULL that is refused is not passed by agent_main.
  unfoldable pub wifi_up : Provisioning → Bool → D → Bool × D
  unfolding request_loop await_loop settle
  wifi_up conf connected d =
      let (asked, d1) = request_loop conf 10 connected (w.add_event_callback d) in
      let (got, d2) = await_loop 200 asked d1 in settle got d2

-- The time that was asked for in sleeps, in milliseconds.
pub record CountsSleep {D : Type 0} (w : Wifi D) (slept : D → ℕ) : Type 0 where
  pub on_callback : (d : D) → slept (w.add_event_callback d) ≡ slept d
  pub on_request : (ssid psk : Bytes) (d : D) → slept (w.request_connect ssid psk d).1 ≡ slept d
  pub on_msleep : (n : ℕ) (d : D) → slept (w.k_msleep n d).1 ≡ slept d + n
  pub on_dhcp : (d : D) → slept (w.dhcpv4_start d) ≡ slept d

-- A wait that succeeds ends within `most` milliseconds of `start`, and one that fails has lasted
-- between `least` and `most_failed`.
abbrev pub Waited : ℕ → ℕ → ℕ → ℕ → Bool × ℕ → Type 0
Waited start least most_failed most (true, now) = now ≤ start + most
Waited start least most_failed most (false, now) =
    (start + least ≤ now) × (now ≤ start + most_failed)

module _ {D : Type 0} (w : Wifi D) (slept : D → ℕ) (counts : CountsSleep w slept) where
  Within : ℕ → ℕ → Bool × D → Type 0
  Within start t r = (start ≤ slept r.1) × (slept r.1 ≤ start + t)

  Within-if :
      (start t : ℕ) (b : Bool) (x y : Bool × D)
      → Within start t x
      → Within start t y
      → Within start t (if b then x else y)
  Within-if start t true x y h k = h
  Within-if start t false x y h k = k

  slept-request_loop :
      (conf : Provisioning) (t : ℕ) (connected : Bool) (d : D)
      → Within (slept d) (500 * t) (request_loop w conf t connected d)
  unfolding request_loop Within
  slept-request_loop conf zero connected d = (omega arith, omega arith)
  slept-request_loop conf (suc t) connected d =
      let r = w.request_connect conf.wifi_ssid conf.wifi_psk d in
      let m = w.k_msleep 500 r.1 in
      let e = counts.on_request conf.wifi_ssid conf.wifi_psk d in
      let e2 = counts.on_msleep 500 r.1 in
      let rest = slept-request_loop conf t (deliver m.0 (deliver r.0.1 connected)) m.1 in
      Within-if (slept d) (500 * suc t) r.0.0 _ _ (omega (arith, e), omega (arith, e))
        (omega (arith, e, e2, rest), omega (arith, e, e2, rest))

  -- Where the loop ends without a connection it has run through all its rounds.
  Awaited : ℕ → ℕ → Bool × D → Type 0
  Awaited start t (true, d) = (start ≤ slept d) × (slept d ≤ start + t)
  Awaited start t (false, d) = slept d ≡ start + t

  Awaited-if :
      (start t : ℕ) (b : Bool) (d : D) (y : Bool × D)
      → (start ≤ slept d) × (slept d ≤ start + t)
      → Awaited start t y
      → Awaited start t (if b then (true, d) else y)
  unfolding Awaited
  Awaited-if start t true d y h k = h
  Awaited-if start t false d y h k = k

  Awaited-later :
      (start start' t t' : ℕ) (r : Bool × D)
      → start ≤ start'
      → start' + t' ≡ start + t
      → Awaited start' t' r
      → Awaited start t r
  unfolding Awaited
  Awaited-later start start' t t' (true, d) h e k = (omega (arith, k), omega (arith, k))
  Awaited-later start start' t t' (false, d) h e k = omega arith

  without_wait : (connected : Bool) (d : D) → Awaited (slept d) (100 * 0) (connected, d)
  unfolding Awaited
  without_wait true d = (omega arith, omega arith)
  without_wait false d = omega arith

  slept-await_loop :
      (t : ℕ) (connected : Bool) (d : D) → Awaited (slept d) (100 * t) (await_loop w t connected d)
  unfolding await_loop
  slept-await_loop zero connected d = without_wait connected d
  slept-await_loop (suc t) connected d =
      let m = w.k_msleep 100 d in
      let e = counts.on_msleep 100 d in
      Awaited-if (slept d) (100 * suc t) connected d _ (omega arith, omega arith)
        (Awaited-later (slept d) (slept m.1) (100 * suc t) (100 * t) _ (omega (arith, e))
          (omega (arith, e)) (slept-await_loop t (deliver m.0 connected) m.1))

  -- The result and the time of a call.
  abbrev pub result_and_time : Bool × D → Bool × ℕ
  result_and_time r = (r.0, slept r.1)

  settled :
      (start : ℕ) (r : Bool × D) (asked : ℕ)
      → (start ≤ asked) × (asked ≤ start + 5000)
      → Awaited asked 20000 r
      → Waited start 20000 25000 28000 (result_and_time (settle w r.0 r.1))
  unfolding settle Awaited
  settled start (true, d) asked h k =
      omega (arith, h, k, counts.on_dhcp d, counts.on_msleep 3000 (w.dhcpv4_start d))
  settled start (false, d) asked h k = (omega (arith, h), omega (arith, h))

  -- Where only k_msleep lets time pass: plat_net_wifi_up always ends; it succeeds within 28 seconds
  -- of sleep, and it fails only after 20 seconds of sleep at least, and within 25.
  pub wifi_up-Waited :
      (conf : Provisioning) (connected : Bool) (d : D)
      → Waited (slept d) 20000 25000 28000 (result_and_time (wifi_up w conf connected d))
  unfolding wifi_up Within
  wifi_up-Waited conf connected d =
      let d0 = w.add_event_callback d in
      let r = request_loop w conf 10 connected d0 in
      let h = slept-request_loop conf 10 connected d0 in
      let e = counts.on_callback d in
      settled (slept d) (await_loop w 200 r.0 r.1) (slept r.1)
        (omega (arith, e, h), omega (arith, e, h)) (slept-await_loop 200 r.0 r.1)
