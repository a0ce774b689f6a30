-- ===== src/Install.antt =====
-- lib/plat/plat_mcuboot.c: staging an image in the second slot, checking its digest, and asking
-- MCUboot for a swap. MCUboot, flash and PSA hashing are the parameter `Board`.
pub mod Device
pub mod Spelling
pub mod Digest
pub mod Commit
pub mod Complete
use mcu_sdk.Base.{
  ℕ, zero, suc, ◌+◌, ◌-◌, ◌*◌, ◌<◌, ◌≡◌, Bool, true, false, not, ◌&&◌, ◌||◌, Option, none, some,
  Bytes, [], ◌∷◌, length, ltb, leb, ◌==◌, bytes_eq, if◌then◌else◌,
}
use mcu_sdk.Plat.{Counters}
use mcu_sdk.Install.Device.{Board}

-- 0 to 15, or `none` for -1.
unfoldable pub hex_nibble : ℕ → Option ℕ
hex_nibble c =
    if leb b'0' c && leb c b'9'
    then some (c - b'0')
    else if leb b'a' c && leb c b'f'
    then some (c - b'a' + 10)
    else if leb b'A' c && leb c b'F'
    then some (c - b'A' + 10)
    else none

-- One byte from two digits.
abbrev pub hex_byte : Option ℕ → Option ℕ → Option ℕ
hex_byte (some hi) (some lo) = some (hi * 16 + lo)
hex_byte none lo = none
hex_byte (some hi) none = none

abbrev pub cons_byte : Option ℕ → Option Bytes → Option Bytes
cons_byte (some b) (some s) = some (b ∷ s)
cons_byte none s = none
cons_byte (some b) none = none

-- The loop of hex32 for the bytes that are left. A string that ends early has its NUL there, which
-- is no digit.
unfoldable pub hex_bytes : ℕ → Bytes → Option Bytes
unfolding hex_nibble
hex_bytes zero s = some []
hex_bytes (suc n) [] = none
hex_bytes (suc n) (h ∷ []) = none
hex_bytes (suc n) (h ∷ l ∷ s) = cons_byte (hex_byte (hex_nibble h) (hex_nibble l)) (hex_bytes n s)

unfoldable pub hex32 : Bytes → Option Bytes
unfolding hex_bytes
hex32 s = hex_bytes 32 s

-- The size of the buffer `rb`.
abbrev pub read_size : ℕ
read_size = 512

module _ {D : Type 0} (b : Board D) where
  -- The loop of verify_slot_sha256 from `off` on: the hash operation at its end, `none` after an
  -- error. Every round advances, so `size` rounds are enough.
  unfoldable pub hash_slot : ℕ → ℕ → ℕ → b.Hash → D → Option b.Hash
  hash_slot zero size off op d = if ltb off size then none else some op
  hash_slot (suc fuel) size off op d =
      let n = if ltb (size - off) read_size then size - off else read_size in
      let round : Option b.Hash = elim (b.flash_area_read off n d) [
        | none ↦ none
        | some rb ↦ elim (b.psa_hash_update op rb) [
          | none ↦ none
          | some op' ↦ hash_slot fuel size (off + n) op' d
        ]
      ] in
      if ltb off size then round else some op

  -- `true` is 0. psa_hash_finish gives the digest, of `olen` bytes.
  unfoldable pub verify_slot_sha256 : ℕ → Bytes → D → Bool
  unfolding hash_slot
  verify_slot_sha256 size expect d =
      if not (b.flash_area_open d) then false else elim b.psa_hash_setup [
        | none ↦ false
        | some op ↦ elim (hash_slot size size 0 op d) [
          | none ↦ false
          | some op' ↦ elim (b.psa_hash_finish op') [
            | none ↦ false
            | some digest ↦ if not (length digest == 32) then false else bytes_eq digest expect
          ]
        ]
      ]

  unfoldable pub stage_sink : Bytes → Bool → D → Bool × D
  stage_sink chunk last d = b.flash_img_buffered_write chunk last d

  -- `download` is plat_net_firmware_download: it hands the image to the sink in pieces.
  module _ (download : ℕ → (Bytes → Bool → D → Bool × D) → D → Bool × D) where
    -- The image is in the slot: the rest of plat_stage_image.
    unfoldable pub check_staged : ℕ → Bytes → D → Bool × D
    unfolding verify_slot_sha256
    check_staged size expect d =
        if not (verify_slot_sha256 size expect d) then (false, d) else (true, d)

    unfoldable pub receive_image : ℕ → Bytes → D → Bool × D
    unfolding check_staged stage_sink
    receive_image size expect d =
        let (ready, d1) = b.flash_img_init d in
        if not ready
        then (false, d1)
        else (let (got, d2) = download size stage_sink d1 in
            if not got then (false, d2) else check_staged size expect d2)

    unfoldable pub stage_image : Bytes → ℕ → D → Bool × D
    unfolding receive_image
    stage_image sha256_hex size d = if size == 0 then (false, d) else elim (hex32 sha256_hex) [
      | none ↦ (false, d)
      | some expect ↦ receive_image size expect d
    ]

module _ (c : Counters) (b : Board c.Dev) where
  unfoldable pub image_confirmed : c.Dev → Bool
  image_confirmed d = b.boot_is_img_confirmed d

  unfoldable pub confirm_image : c.Dev → Bool × c.Dev
  confirm_image d = b.boot_write_img_confirmed d

  -- `true`: the device reboots; `false`: a return of -1.
  unfoldable pub commit_and_reboot : ℕ → c.Dev → Bool × c.Dev
  commit_and_reboot counter d =
      let (kept, d1) = c.store_pending counter d in
      if not kept then (false, d1) else b.boot_request_upgrade d1
