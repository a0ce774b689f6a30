-- ===== src/Install/Digest.antt =====
-- The digest check of lib/plat/plat_mcuboot.c: reading the slot in pieces of 512 bytes gives the
-- SHA-256 of its first bytes, and only an image with the digest that was asked for is staged.
use mcu_sdk.Base.{
  by_if, ℕ, zero, suc, ◌+◌, ◌-◌, ◌≤◌, ◌<◌, ◌≡◌, refl, ap, ◌∙◌, sym, arith, Bool, true, false, not,
  Bool-cases, Option-cases, inl, inr, none, some, Bytes, [], ◌∷◌, ◌++◌, length, take, take_all,
  drop, ltb, ltb→le, ◌==◌, bytes_eq_sound, elim-eq-some, elim-eq-true, if◌then◌else◌,
}
use mcu_sdk.Install.Device.{Board, HashLaws, SlotLaws}
use mcu_sdk.Install.Spelling.{lower_case, hex_text, hex32_lem}
use mcu_sdk.Install.{
  read_size, hash_slot, verify_slot_sha256, stage_sink, check_staged, receive_image, stage_image,
  hex32,
}

take-add : (n k : ℕ) (s : Bytes) → take (n + k) s ≡ take n s ++ take k (drop n s)
take-add zero k s = let z : 0 + k ≡ k = omega arith in rw (z) refl
take-add (suc n) k [] =
    let z : suc n + k ≡ suc (n + k) = omega arith in rw (z) (sym (take_all k [] (omega arith)))
take-add (suc n) k (c ∷ s) =
    let z : suc n + k ≡ suc (n + k) = omega arith in rw (z) (ap (λ t. c ∷ t) (take-add n k s))

module _ {D : Type 0} (b : Board D) (sha256 : Bytes → Bytes) (hash : HashLaws b sha256)
    (slot : D → Bytes) (flash : SlotLaws b slot) where
  open hash use {fed, fed_setup, fed_update, digest_lem}

  at_end :
      (size off : ℕ) (op op' : b.Hash) (d : D)
      → off ≤ size
      → off ≤ length (slot d)
      → fed op ≡ take off (slot d)
      → ltb off size ≡ false
      → some op ≡ some op'
      → (size ≤ length (slot d)) × (fed op' ≡ take size (slot d))
  at_end size off op op' d h r e over k =
      let s : off ≡ size = omega (arith, ltb→le off size over) in
      let o : op' ≡ op = cc in (omega arith, ap fed o ∙ e ∙ ap (λ m. take m (slot d)) s)

  pub hash_slot-fed :
      (fuel size off : ℕ) (op op' : b.Hash) (d : D)
      → off ≤ size
      → off ≤ length (slot d)
      → fed op ≡ take off (slot d)
      → hash_slot b fuel size off op d ≡ some op'
      → (size ≤ length (slot d)) × (fed op' ≡ take size (slot d))
  unfolding hash_slot
  hash_slot-fed zero size off op op' d h r e k = elim (Bool-cases (ltb off size)) [
    | inl more ↦ (let e1 : none ≡ some op' = rw (more) at k in cc)
    | inr over ↦ at_end size off op op' d h r e over (rw (over) at k)
  ]
  hash_slot-fed (suc fuel) size off op op' d h r e k = elim (Bool-cases (ltb off size)) [
    | inl more ↦
        let n = if ltb (size - off) read_size then size - off else read_size in
        let (rb, e1, k1) = elim-eq-some (b.flash_area_read off n d) _ (rw (more) at k) in
        let (op1, e2, k2) = elim-eq-some (b.psa_hash_update op rb) _ k1 in
        let (room, got) = flash.read_lem off n d rb e1 in
        hash_slot-fed fuel size (off + n) op1 op' d (ground arith) room
          (fed_update op op1 rb e2
            ∙ ap (λ t. fed op ++ t) got
            ∙ ap (λ t. t ++ take n (drop off (slot d))) e
            ∙ sym (take-add off n (slot d)))
          k2
    | inr over ↦ at_end size off op op' d h r e over (rw (over) at k)
  ]

  verify_slot-digest :
      (size : ℕ) (expect : Bytes) (d : D)
      → verify_slot_sha256 b size expect d ≡ true
      → (size ≤ length (slot d)) × (sha256 (take size (slot d)) ≡ expect)
  unfolding verify_slot_sha256
  verify_slot-digest size expect d h = elim (Bool-cases (b.flash_area_open d)) [
    | inl open_now ↦
        let (op, e1, h1) = elim-eq-true b.psa_hash_setup _ (rw (open_now) at h) in
        let (op', e2, h2) = elim-eq-true (hash_slot b size size 0 op d) _ h1 in
        let (digest, e3, h3) = elim-eq-true (b.psa_hash_finish op') _ h2 in
        let (room, all) =
          hash_slot-fed size size 0 op op' d (omega arith) (omega arith) (fed_setup op e1) e2 in
        (
          room,
          ap sha256 (sym all)
              ∙ sym (digest_lem op' digest e3)
              ∙ bytes_eq_sound digest expect (ground arith),
        )
    | inr shut ↦ ground arith
  ]

  -- If the call reports success, the slot has the image with the digest.
  IsStaged : ℕ → Bytes → Bool × D → Type 0
  IsStaged size expect r =
      r.0 ≡ true → (size ≤ length (slot r.1)) × (sha256 (take size (slot r.1)) ≡ expect)

  refused : (size : ℕ) (expect : Bytes) (d : D) → IsStaged size expect (false, d)
  unfolding IsStaged
  refused size expect d h = ground arith

  module _ (download : ℕ → (Bytes → Bool → D → Bool × D) → D → Bool × D) where
    check_staged-IsStaged :
        (size : ℕ) (expect : Bytes) (d : D)
        → IsStaged size expect (check_staged b download size expect d)
    unfolding check_staged IsStaged
    check_staged-IsStaged size expect d =
        by_if (IsStaged size expect) (not (verify_slot_sha256 b size expect d)) _ _
          (λ bad. refused size expect d) (λ good _. verify_slot-digest size expect d (ground arith))

    receive_image-IsStaged :
        (size : ℕ) (expect : Bytes) (d : D)
        → IsStaged size expect (receive_image b download size expect d)
    unfolding receive_image
    receive_image-IsStaged size expect d =
        let d1 = b.flash_img_init d in
        let d2 = download size (stage_sink b) d1.1 in
        by_if (IsStaged size expect) (not d1.0) _ _ (λ _. refused size expect d1.1)
          (λ _.
            by_if (IsStaged size expect) (not d2.0) _ _ (λ _. refused size expect d2.1)
              (λ _. check_staged-IsStaged size expect d2.1))

    -- An image that plat_stage_image reports as staged has at least one byte, lies within the slot,
    -- and hashes to a digest whose printing in hexadecimal is the first 64 characters that the caller
    -- gave, up to upper and lower case, whatever was downloaded.
    pub stage_image-digest :
        (sha256_hex : Bytes) (size : ℕ) (d : D)
        → (stage_image b download sha256_hex size d).0 ≡ true
        → (0 < size)
          × (size ≤ length (slot (stage_image b download sha256_hex size d).1))
          × (take 64 (lower_case sha256_hex)
              ≡ hex_text (sha256 (take size (slot (stage_image b download sha256_hex size d).1))))
    unfolding stage_image IsStaged
    stage_image-digest sha256_hex size d h = elim (Option-cases (hex32 sha256_hex)) [
      | inl none_there ↦ absurd (ground arith)
      | inr (expect, e) ↦ elim (Bool-cases (size == 0)) [
        | inl empty ↦ absurd (ground arith)
        | inr some_there ↦
            let (room, digest) = receive_image-IsStaged size expect d (rw (some_there, e) at h) in
            rw (some_there, e)
              (ground arith, room, hex32_lem sha256_hex expect e ∙ ap hex_text (sym digest))
      ]
    ]
