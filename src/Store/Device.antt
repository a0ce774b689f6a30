-- ===== src/Store/Device.antt =====
-- What lib/plat/plat_store.c takes from Zephyr: the flash devices and the NVS file system.
use mcu_sdk.Base.{
  ℕ, Bool, Option, none, some, Bytes, [], ◌∷◌, length, take, ◌≡◌, ◌⊎◌, inl, inr, ◌==◌,
  if◌then◌else◌,
}

pub record Config : Type 0 where
  pub offset : ℕ
  pub sector_size : ℕ
  pub sector_count : ℕ

-- A negative result is `none`, or `false` where the value does not count.
pub record Nvs : Type 1 where
  -- the state of the flash partition
  pub Fs : Type 0
  pub device_ready : Bool
  pub page_size : Option ℕ
  pub partition_offset : ℕ
  pub partition_size : ℕ
  -- a mount that fails leaves the partition as it is, so that it fails again
  pub nvs_mount : Config → Fs → Option Fs
  -- the size of the record, and the bytes copied
  pub nvs_read : Fs → ℕ → ℕ → Option (ℕ × Bytes)
  pub nvs_write : Fs → ℕ → Bytes → Option ℕ × Fs
  pub nvs_delete : Fs → ℕ → Bool × Fs

-- A record of no bytes is a deleted one.
abbrev pub stored : Bytes → Option Bytes
stored [] = none
stored (c ∷ b) = some (c ∷ b)

-- What a read of `len` bytes gives of a record.
abbrev pub read_of : ℕ → Option Bytes → Option (ℕ × Bytes)
read_of len none = none
read_of len (some b) = some (length b, take len b)

-- The documented behaviour of NVS: a file system from record numbers to byte strings, on which a
-- call that fails changes nothing. Any call may fail, a read of a record that is there included.
pub record NvsLaws (n : Nvs) : Type 0 where
  pub records : n.Fs → ℕ → Option Bytes
  pub read_lem :
      (fs : n.Fs) (id len : ℕ)
      → (n.nvs_read fs id len ≡ none) ⊎ (n.nvs_read fs id len ≡ read_of len (records fs id))
  pub write_size :
      (fs : n.Fs) (id : ℕ) (b : Bytes) (k : ℕ)
      → (n.nvs_write fs id b).0 ≡ some k
      → (k ≡ length b) ⊎ (k ≡ 0)
  pub write_done :
      (fs : n.Fs) (id j k : ℕ) (b : Bytes)
      → (n.nvs_write fs id b).0 ≡ some k
      → records (n.nvs_write fs id b).1 j ≡ (if j == id then stored b else records fs j)
  pub write_failed :
      (fs : n.Fs) (id j : ℕ) (b : Bytes)
      → (n.nvs_write fs id b).0 ≡ none
      → records (n.nvs_write fs id b).1 j ≡ records fs j
  pub delete_lem :
      (fs : n.Fs) (id j : ℕ)
      → records (n.nvs_delete fs id).1 j ≡ (
          if (n.nvs_delete fs id).0 then (if j == id then none else records fs j) else records fs j)

-- That no flash error strikes a read: only a record that is not there cannot be read.
unfoldable pub HasSoundReads : (n : Nvs) → NvsLaws n → Type 0
HasSoundReads n laws =
    (fs : n.Fs) (id len : ℕ) → n.nvs_read fs id len ≡ none → laws.records fs id ≡ none

read_sound :
    (len : ℕ) (r : Option Bytes) (x : Option (ℕ × Bytes))
    → (x ≡ none → r ≡ none)
    → (x ≡ none) ⊎ (x ≡ read_of len r)
    → x ≡ read_of len r
read_sound len r x h (inl e) = let gone : r ≡ none = h e in rw (gone) e
read_sound len r x h (inr e) = e

pub nvs_read_lem :
    (n : Nvs) (laws : NvsLaws n)
    → HasSoundReads n laws
    → (fs : n.Fs) (id len : ℕ) → n.nvs_read fs id len ≡ read_of len (laws.records fs id)
unfolding HasSoundReads
nvs_read_lem n laws sound fs id len =
    read_sound len (laws.records fs id) (n.nvs_read fs id len) (sound fs id len)
      (laws.read_lem fs id len)
