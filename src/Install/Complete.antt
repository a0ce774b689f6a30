-- ===== src/Install/Complete.antt =====
-- The digest check of lib/plat/plat_mcuboot.c where no call of the flash driver or of PSA fails: its
-- loop ends, and its result is the comparison of the digests.
use mcu_sdk.Base.{
  ℕ, zero, suc, ◌+◌, ◌-◌, ◌≤◌, ◌≡◌, refl, ap, ◌∙◌, arith, true, false, Bool-cases, inl, inr, some,
  Bytes, length, take, ltb, ◌==◌, bytes_eq, if◌then◌else◌,
}
use mcu_sdk.Install.Device.{Board, HashLaws, SlotLaws}
use mcu_sdk.Install.{read_size, hash_slot, verify_slot_sha256}
use mcu_sdk.Install.Digest.{hash_slot-fed}

-- No call fails: a read within the slot, a hash operation, the opening of the flash area.
pub record IsReliable {D : Type 0} (b : Board D) (slot : D → Bytes) : Type 0 where
  pub reads :
      (off n : ℕ) (d : D)
      → off + n ≤ length (slot d)
      → (s : Bytes) × (b.flash_area_read off n d ≡ some s)
  pub opens : (d : D) → b.flash_area_open d ≡ true
  pub sets_up : (op : b.Hash) × (b.psa_hash_setup ≡ some op)
  pub updates : (op : b.Hash) (s : Bytes) → (op' : b.Hash) × (b.psa_hash_update op s ≡ some op')
  pub finishes : (op : b.Hash) → (h : Bytes) × (b.psa_hash_finish op ≡ some h) × (length h ≡ 32)

module _ {D : Type 0} (b : Board D) (sha256 : Bytes → Bytes) (hash : HashLaws b sha256)
    (slot : D → Bytes) (flash : SlotLaws b slot) (reliable : IsReliable b slot) where
  -- As many rounds as bytes are left are enough.
  hash_slot-ends :
      (fuel size off : ℕ) (op : b.Hash) (d : D)
      → size ≤ off + fuel
      → off ≤ size
      → size ≤ length (slot d)
      → (op' : b.Hash) × (hash_slot b fuel size off op d ≡ some op')
  unfolding hash_slot
  hash_slot-ends zero size off op d h r e =
      let over : ltb off size ≡ false = ground arith in (op, (rw (over) refl))
  hash_slot-ends (suc fuel) size off op d h r e = elim (Bool-cases (ltb off size)) [
    | inl more ↦
        let n = if ltb (size - off) read_size then size - off else read_size in
        let (rb, e1) = reliable.reads off n d (ground arith) in
        let (op1, e2) = reliable.updates op rb in
        let (op', e3) = hash_slot-ends fuel size (off + n) op1 d (ground arith) (ground arith) e in
        (op', (rw (more, e1, e2) e3))
    | inr over ↦ (op, (rw (over) refl))
  ]

  -- Where no call of the flash driver or of PSA fails and the slot has room for the image, the digest
  -- check ends, and it accepts exactly the images whose SHA-256 is the digest that was asked for.
  pub verify_slot_sha256-bytes_eq :
      (size : ℕ) (expect : Bytes) (d : D)
      → size ≤ length (slot d)
      → verify_slot_sha256 b size expect d ≡ bytes_eq (sha256 (take size (slot d))) expect
  unfolding verify_slot_sha256
  verify_slot_sha256-bytes_eq size expect d room =
      let (op, e1) = reliable.sets_up in
      let (op', e2) = hash_slot-ends size size 0 op d (omega arith) (omega arith) room in
      let (h, e3, full) = reliable.finishes op' in
      let (_, all) =
        hash_slot-fed b sha256 hash slot flash size size 0 op op' d (omega arith) (omega arith)
          (hash.fed_setup op e1) e2 in
      let digest : h ≡ sha256 (take size (slot d)) = hash.digest_lem op' h e3 ∙ ap sha256 all in
      let long : (length h == 32) ≡ true = ground (arith, full) in
      rw (reliable.opens d, e1, e2, e3, long) (ap (λ x. bytes_eq x expect) digest)
