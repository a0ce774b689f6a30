-- ===== src/Install/Device.antt =====
-- What lib/plat/plat_mcuboot.c takes from Zephyr, MCUboot and PSA Crypto.
use mcu_sdk.Base.{ℕ, ◌+◌, ◌≤◌, ◌≡◌, Bool, Option, some, Bytes, [], ◌++◌, length, take, drop}
use mcu_sdk.Plat.{Book}

-- On a device with the states `D`. A flag is `true` for a result of 0 (and for a confirmed image);
-- the upgrade that is requested is BOOT_UPGRADE_TEST.
pub record Board (D : Type 0) : Type 1 where
  pub Hash : Type 0
  pub boot_is_img_confirmed : D → Bool
  pub boot_write_img_confirmed : D → Bool × D
  pub boot_request_upgrade : D → Bool × D
  pub flash_img_init : D → Bool × D
  pub flash_img_buffered_write : Bytes → Bool → D → Bool × D
  pub flash_area_open : D → Bool
  pub flash_area_read : ℕ → ℕ → D → Option Bytes
  pub psa_hash_setup : Option Hash
  pub psa_hash_update : Hash → Bytes → Option Hash
  pub psa_hash_finish : Hash → Option Bytes

-- None of these touches the records of the update state.
pub record BoardKeeps {D : Type 0} (b : Board D) (book : D → Book) : Type 0 where
  pub keeps_confirm : (d : D) → book (b.boot_write_img_confirmed d).1 ≡ book d
  pub keeps_request : (d : D) → book (b.boot_request_upgrade d).1 ≡ book d
  pub keeps_init : (d : D) → book (b.flash_img_init d).1 ≡ book d
  pub keeps_write :
      (chunk : Bytes) (last : Bool) (d : D)
      → book (b.flash_img_buffered_write chunk last d).1 ≡ book d

-- What PSA hashing promises: an operation is the bytes that it was given, and its digest is theirs.
pub record HashLaws {D : Type 0} (b : Board D) (sha256 : Bytes → Bytes) : Type 0 where
  pub fed : b.Hash → Bytes
  pub fed_setup : (op : b.Hash) → b.psa_hash_setup ≡ some op → fed op ≡ []
  pub fed_update :
      (op op' : b.Hash) (s : Bytes) → b.psa_hash_update op s ≡ some op' → fed op' ≡ fed op ++ s
  pub digest_lem : (op : b.Hash) (h : Bytes) → b.psa_hash_finish op ≡ some h → h ≡ sha256 (fed op)

-- A read within the slot gives its bytes.
pub record SlotLaws {D : Type 0} (b : Board D) (slot : D → Bytes) : Type 0 where
  pub read_lem :
      (off n : ℕ) (d : D) (s : Bytes)
      → b.flash_area_read off n d ≡ some s
      → (off + n ≤ length (slot d)) × (s ≡ take n (drop off (slot d)))
