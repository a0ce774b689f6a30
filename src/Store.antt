-- ===== src/Store.antt =====
-- lib/plat/plat_store.c: the one NVS mount, with records by number. Zephyr's NVS and flash drivers
-- are the parameter `Nvs`; what is relied on of them is `NvsLaws`.
pub mod Device
pub mod Records
pub mod Counter
pub mod Identity
pub mod Flat
mod Tests
use mcu_sdk.Base.{
  ℕ, ◌/◌, ◌%◌, ◌^◌, Bool, true, false, ◌||◌, not, Option, none, some, Bytes, length, ltb, ◌==◌,
  if◌then◌else◌,
}
use mcu_sdk.Store.Device.{Nvs, Config}

module _ (n : Nvs) where
  open n use {
    Fs, device_ready, page_size, partition_offset, partition_size, nvs_mount, nvs_read, nvs_write,
    nvs_delete,
  }

  -- The statics store_fs and store_ready.
  pub record Store : Type 0 where
    pub fs : Fs
    pub ready : Bool

  -- The size of the storage area in sectors, two at least, cut to a uint16_t.
  unfoldable pub sector_count : ℕ → ℕ
  sector_count size =
      let sectors = partition_size / size in (if ltb sectors 2 then 2 else sectors) % 2 ^ 16

  -- `true` is a return value of 0. An unmounted store is tried again at every call.
  unfoldable pub store_mount : Store → Bool × Store
  store_mount s =
      if s.ready then (true, s) else if not device_ready then (false, s) else elim page_size [
        | none ↦ (false, s)
        | some size ↦
            elim (nvs_mount
              (record {
                offset = partition_offset;
                sector_size = size;
                sector_count = sector_count size;
              })
              s.fs) [ none ↦ (false, s) | some fs ↦ (true, record { fs = fs; ready = true }) ]
      ]

  -- The size of the record and the bytes copied, or `none` for -1.
  unfoldable pub store_read : ℕ → ℕ → Store → Option (ℕ × Bytes) × Store
  store_read id len s =
      let (up, s') = store_mount s in if up then (nvs_read s'.fs id len, s') else (none, s')

  -- `true` is 0: all bytes were written, or the value is unchanged.
  written : Bytes → Option ℕ → Bool
  written b none = false
  written b (some k) = k == length b || k == 0

  unfoldable pub store_write : ℕ → Bytes → Store → Bool × Store
  unfolding written
  store_write id b s =
      let (up, s') = store_mount s in
      if up
      then (let (k, fs) = nvs_write s'.fs id b in (written b k, record s' { fs = fs }))
      else (false, s')

  unfoldable pub store_delete : ℕ → Store → Bool × Store
  store_delete id s =
      let (up, s') = store_mount s in
      if up
      then (let (good, fs) = nvs_delete s'.fs id in (good, record s' { fs = fs }))
      else (false, s')

  -- A probe of one byte.
  is_present : Option (ℕ × Bytes) → Bool
  is_present none = false
  is_present (some r) = true

  unfoldable pub store_exists : ℕ → Store → Bool × Store
  unfolding is_present
  store_exists id s =
      let (up, s') = store_mount s in
      if up then (is_present (nvs_read s'.fs id 1), s') else (false, s')
