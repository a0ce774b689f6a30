-- ===== src/Store/Counter.antt =====
-- lib/plat/plat_counter.c: the four records of the update state, on the shared store.
pub mod Laws
use mcu_sdk.Base.{
  ℕ, zero, suc, ◌+◌, ◌*◌, ◌-◌, ◌/◌, ◌%◌, ◌<◌, ◌^◌, ◌≡◌, refl, arith, Bool, true, false, ◌||◌,
  Option, none, some, Bytes, List, [], ◌∷◌, length, ltb, leb, ◌==◌, if◌then◌else◌, codes,
}
use mcu_sdk.Plat.{Counters}
use mcu_sdk.Store.Device.{Nvs}
use mcu_sdk.Store.{Store, store_read, store_write, store_delete}

-- The object representation of a word: `w` bytes, the lowest first.
unfoldable pub le_bytes : ℕ → ℕ → Bytes
le_bytes zero v = []
le_bytes (suc w) v = v % 256 ∷ le_bytes w (v / 256)

unfoldable pub le_value : Bytes → ℕ
le_value [] = 0
le_value (c ∷ s) = c + 256 * le_value s

pub length-le_bytes : (w v : ℕ) → length (le_bytes w v) ≡ w
unfolding le_bytes
length-le_bytes zero v = refl
length-le_bytes (suc w) v = rw (length-le_bytes w) refl

pub le_value-le_bytes : (w v : ℕ) → v < 256 ^ w → le_value (le_bytes w v) ≡ v
unfolding le_bytes le_value
le_value-le_bytes zero v h = omega arith
le_value-le_bytes (suc w) v h = rw (le_value-le_bytes w (v / 256) (omega arith)) (omega arith)

abbrev pub counter_id : ℕ
counter_id = 1

abbrev pub pending_id : ℕ
pending_id = 2

abbrev pub failed_id : ℕ
failed_id = 3

abbrev pub attempted_version_id : ℕ
attempted_version_id = 4

-- The value that a read of eight bytes leaves, or 0 for any result but 8.
unfoldable pub counter_of : Option (ℕ × Bytes) → ℕ
unfolding le_value
counter_of none = 0
counter_of (some (k, b)) = if k == 8 then le_value b else 0

-- The string of a read of `cap - 1` bytes.
unfoldable pub string_of : ℕ → Option (ℕ × Bytes) → Option Bytes
string_of cap none = none
string_of cap (some (k, b)) = if k == 0 || leb cap k then none else some b

module _ (n : Nvs) where
  unfoldable pub read_counter : ℕ → Store n → ℕ × Store n
  unfolding counter_of
  read_counter id s = let (r, s') = store_read n id 8 s in (counter_of r, s')

  unfoldable pub applied_counter : Store n → ℕ × Store n
  applied_counter s = read_counter counter_id s

  unfoldable pub store_counter : ℕ → Store n → Bool × Store n
  unfolding le_bytes
  store_counter counter s = store_write n counter_id (le_bytes 8 counter) s

  unfoldable pub pending_counter : Store n → ℕ × Store n
  pending_counter s = read_counter pending_id s

  unfoldable pub store_pending : ℕ → Store n → Bool × Store n
  unfolding le_bytes
  store_pending counter s = store_write n pending_id (le_bytes 8 counter) s

  unfoldable pub clear_pending : Store n → Bool × Store n
  clear_pending s = store_delete n pending_id s

  unfoldable pub failed_counter : Store n → ℕ × Store n
  failed_counter s = read_counter failed_id s

  unfoldable pub store_failed : ℕ → Store n → Bool × Store n
  unfolding le_bytes
  store_failed counter s = store_write n failed_id (le_bytes 8 counter) s

  unfoldable pub clear_failed : Store n → Bool × Store n
  clear_failed s = store_delete n failed_id s

  unfoldable pub store_attempted_version : Bytes → Store n → Bool × Store n
  store_attempted_version version s = store_write n attempted_version_id version s

  -- A capacity of 0 is refused before the read.
  unfoldable pub attempted_version : ℕ → Store n → Option Bytes × Store n
  unfolding string_of
  attempted_version cap s =
      if cap == 0
      then (none, s)
      else (let (r, s') = store_read n attempted_version_id (cap - 1) s in (string_of cap r, s'))

  unfoldable pub clear_attempted_version : Store n → Bool × Store n
  clear_attempted_version s = store_delete n attempted_version_id s

  abbrev pub counters : Counters
  counters = record {
    Dev = Store n;
    applied_counter = applied_counter;
    pending_counter = pending_counter;
    failed_counter = failed_counter;
    attempted_version = attempted_version;
    store_counter = store_counter;
    store_pending = store_pending;
    store_failed = store_failed;
    store_attempted_version = store_attempted_version;
    clear_pending = clear_pending;
    clear_failed = clear_failed;
    clear_attempted_version = clear_attempted_version;
  }
