-- ===== src/Install/Commit.antt =====
-- What lib/plat/plat_mcuboot.c does to the update state: staging leaves it alone, and a commit
-- records the counter as pending before it asks for the swap.
use mcu_sdk.Base.{
  ℕ, ◌<◌, ◌≡◌, refl, ◌∙◌, inl, inr, Bool-cases, Bool, true, false, not, Option, none, some, Bytes,
  u64_mod, if◌then◌else◌, ◌==◌,
}
use mcu_sdk.Plat.{Book, Counters, CounterLaws}
use mcu_sdk.Install.Device.{Board, BoardKeeps}
use mcu_sdk.Install.{
  stage_sink, check_staged, receive_image, stage_image, commit_and_reboot, verify_slot_sha256,
  hex32,
}

module _ {D : Type 0} (b : Board D) (book : D → Book) (keeps : BoardKeeps b book) where
  Same-if :
      (d : D) (t : Bool) (x y : Bool × D)
      → book x.1 ≡ book d
      → book y.1 ≡ book d
      → book (if t then x else y).1 ≡ book d
  Same-if d true x y h k = h
  Same-if d false x y h k = k

  module _ (download : ℕ → (Bytes → Bool → D → Bool × D) → D → Bool × D)
      (quiet : (size : ℕ) (sink : Bytes → Bool → D → Bool × D)
        → ((chunk : Bytes) (last : Bool) (d : D) → book (sink chunk last d).1 ≡ book d)
        → (d : D) → book (download size sink d).1 ≡ book d) where
    book-stage_sink :
        (chunk : Bytes) (last : Bool) (d : D) → book (stage_sink b chunk last d).1 ≡ book d
    unfolding stage_sink
    book-stage_sink chunk last d = keeps.keeps_write chunk last d

    book-receive_image :
        (size : ℕ) (expect : Bytes) (d : D)
        → book (receive_image b download size expect d).1 ≡ book d
    unfolding receive_image check_staged
    book-receive_image size expect d =
        let d1 = b.flash_img_init d in
        let d2 = download size (stage_sink b) d1.1 in
        let e1 = keeps.keeps_init d in
        let e2 = quiet size (stage_sink b) book-stage_sink d1.1 ∙ e1 in
        Same-if d (not d1.0) _ _ e1 (
          Same-if d (not d2.0) _ _ e2
            (Same-if d (not (verify_slot_sha256 b size expect d2.1)) _ _ e2 e2))

    book-staged :
        (m : Option Bytes) (size : ℕ) (d : D)
        → book
            (elim m as (λ x. Bool × D) [
              | none ↦ (false, d)
              | some expect ↦ receive_image b download size expect d
            ]).1
          ≡ book d
    book-staged none size d = refl
    book-staged (some expect) size d = book-receive_image size expect d

    pub book-stage_image :
        (sha256_hex : Bytes) (size : ℕ) (d : D)
        → book (stage_image b download sha256_hex size d).1 ≡ book d
    unfolding stage_image
    book-stage_image sha256_hex size d =
        Same-if d (size == 0) _ _ refl (book-staged (hex32 sha256_hex) size d)

module _ (c : Counters) (b : Board c.Dev) (book : c.Dev → Book) (laws : CounterLaws c book)
    (keeps : BoardKeeps b book) where
  -- The book after a commit: the counter is pending if the record could be written, whether or
  -- not the swap could then be requested.
  pub book-commit_and_reboot :
      (counter : ℕ) (d : c.Dev)
      → counter < u64_mod
      → book (commit_and_reboot c b counter d).1
        ≡ (if (c.store_pending counter d).0 then record (book d) { pending = counter } else book d)
  unfolding commit_and_reboot
  book-commit_and_reboot counter d h =
      let d1 = c.store_pending counter d in
      Same-if b book keeps d1.1 (not d1.0) _ _ refl (keeps.keeps_request d1.1)
      ∙ laws.store_pending_lem counter h d

  -- A commit that reboots the device has made the counter pending.
  pub committed :
      (counter : ℕ) (d : c.Dev)
      → counter < u64_mod
      → (commit_and_reboot c b counter d).0 ≡ true
      → book (commit_and_reboot c b counter d).1 ≡ record (book d) { pending = counter }
  unfolding commit_and_reboot
  committed counter d h good = elim (Bool-cases (c.store_pending counter d).0) [
    | inl kept ↦ book-commit_and_reboot counter d h ∙ (rw (kept) refl)
    | inr lost ↦ absurd (let e : false ≡ true = rw (lost) at good in cc)
  ]
