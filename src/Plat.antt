-- ===== src/Plat.antt =====
-- lib/plat/plat.h: the device's persistent update state as the agent sees it. `Counters` has the
-- functions, and `CounterLaws` what they promise of the four records, the `Book`.
pub mod Beside
use mcu_sdk.Base.{ℕ, ◌<◌, ◌≡◌, Bool, Option, none, some, Bytes, length, ltb, if◌then◌else◌, u64_mod}
use mcu_sdk.Store.Device.{stored}

pub record Book : Type 0 where
  -- the last counter that was applied, the one that was swapped in last, and the one that was reverted
  pub applied : ℕ
  pub pending : ℕ
  pub failed : ℕ
  pub attempted : Option Bytes

pub record Counters : Type 1 where
  -- the state of the device
  pub Dev : Type 0
  pub applied_counter : Dev → ℕ × Dev
  pub pending_counter : Dev → ℕ × Dev
  pub failed_counter : Dev → ℕ × Dev
  -- the C string, where it fits in the capacity
  pub attempted_version : ℕ → Dev → Option Bytes × Dev
  -- `true` is a result of 0
  pub store_counter : ℕ → Dev → Bool × Dev
  pub store_pending : ℕ → Dev → Bool × Dev
  pub store_failed : ℕ → Dev → Bool × Dev
  pub store_attempted_version : Bytes → Dev → Bool × Dev
  pub clear_pending : Dev → Bool × Dev
  pub clear_failed : Dev → Bool × Dev
  pub clear_attempted_version : Dev → Bool × Dev

-- A getter returns its part of the book and changes nothing.
abbrev pub Reads : {D A : Type 0} → (D → Book) → (D → A × D) → (Book → A) → Type 0
Reads {D} book f part = (d : D) → ((f d).0 ≡ part (book d)) × (book (f d).1 ≡ book d)

-- A setter that reports success makes the change, and one that reports failure makes none.
abbrev pub Writes : {D : Type 0} → (D → Book) → (D → Bool × D) → (Book → Book) → Type 0
Writes {D} book f change = (d : D) → book (f d).1 ≡ (if (f d).0 then change (book d) else book d)

-- The string that a getter with a buffer of `cap` bytes can give.
abbrev pub fitting : ℕ → Option Bytes → Option Bytes
fitting cap none = none
fitting cap (some s) = if ltb (length s) cap then some s else none

pub record CounterLaws (c : Counters) (book : c.Dev → Book) : Type 0 where
  pub applied_lem : Reads book c.applied_counter (λ b. b.applied)
  pub pending_lem : Reads book c.pending_counter (λ b. b.pending)
  pub failed_lem : Reads book c.failed_counter (λ b. b.failed)
  pub attempted_lem :
      (cap : ℕ) → 0 < cap → Reads book (c.attempted_version cap) (λ b. fitting cap b.attempted)
  pub store_counter_lem :
      (v : ℕ) → v < u64_mod → Writes book (c.store_counter v) (λ b. record b { applied = v })
  pub store_pending_lem :
      (v : ℕ) → v < u64_mod → Writes book (c.store_pending v) (λ b. record b { pending = v })
  pub store_failed_lem :
      (v : ℕ) → v < u64_mod → Writes book (c.store_failed v) (λ b. record b { failed = v })
  pub store_attempted_lem :
      (s : Bytes)
      → Writes book (c.store_attempted_version s) (λ b. record b { attempted = stored s })
  pub clear_pending_lem : Writes book c.clear_pending (λ b. record b { pending = 0 })
  pub clear_failed_lem : Writes book c.clear_failed (λ b. record b { failed = 0 })
  pub clear_attempted_lem :
      Writes book c.clear_attempted_version (λ b. record b { attempted = none })
