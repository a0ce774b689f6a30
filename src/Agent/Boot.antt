-- ===== src/Agent/Boot.antt =====
-- What boot_confirm of lib/meshanics_agent.c does to the update state, whichever of its writes fail.
use mcu_sdk.Base.{
  ℕ, ◌<◌, ◌≡◌, ◌⊎◌, inl, inr, refl, ap, ◌∙◌, arith, Bool, true, false, Bool-cases, u64_mod,
  if◌then◌else◌,
}
use mcu_sdk.Plat.{Book, Counters, CounterLaws}
use mcu_sdk.Ota.Boot.{BootAction, plan_boot, IsSafePlan, plan_boot-IsSafePlan}
use mcu_sdk.Install.Device.{Board, BoardKeeps}
use mcu_sdk.Install.{image_confirmed, confirm_image}
use mcu_sdk.Agent.{
  do_promote, do_clear_pending, do_record_failed, do_clear_failed, do_confirm, carry_out,
  boot_healthy,
}

module _ (c : Counters) (b : Board c.Dev) (book : c.Dev → Book) (laws : CounterLaws c book)
    (keeps : BoardKeeps b book) where
  pub book-do_confirm : (act : BootAction) (d : c.Dev) → book (do_confirm c b act d) ≡ book d
  unfolding do_confirm confirm_image
  book-do_confirm act d = go act.confirm
    where
      go : (t : Bool) → book (if t then (b.boot_write_img_confirmed d).1 else d) ≡ book d
      go true = keeps.keeps_confirm d
      go false = refl

  -- Only a promotion changes the applied counter, and to its own counter.
  promoted :
      (act : BootAction) (d : c.Dev)
      → (act.promote ≡ true → act.new_applied < u64_mod)
      → (((book (do_promote c b act d)).applied ≡ (book d).applied)
          ⊎ ((act.promote ≡ true) × ((book (do_promote c b act d)).applied ≡ act.new_applied)))
        × ((book (do_promote c b act d)).pending ≡ (book d).pending)
        × ((book (do_promote c b act d)).failed ≡ (book d).failed)
  unfolding do_promote
  promoted act d w = elim (Bool-cases act.promote) [
    | inl on ↦
        let d1 = c.store_counter act.new_applied d in
        let e1 = laws.store_counter_lem act.new_applied (w on) d in
        let e2 = laws.clear_attempted_lem d1.1 in rw (on, e2) (ground (arith, e1, on))
    | inr off ↦ rw (off) (inl refl, refl, refl)
  ]

  -- Clearing the pending record changes nothing else.
  unpended :
      (act : BootAction) (d : c.Dev)
      → ((book (do_clear_pending c b act d)).applied ≡ (book d).applied)
        × (((book (do_clear_pending c b act d)).pending ≡ (book d).pending)
            ⊎ ((book (do_clear_pending c b act d)).pending ≡ 0))
        × ((book (do_clear_pending c b act d)).failed ≡ (book d).failed)
  unfolding do_clear_pending
  unpended act d = elim (Bool-cases act.clear_pending) [
    | inl on ↦ let e = laws.clear_pending_lem d in rw (on, e) (ground (arith, on))
    | inr off ↦ rw (off) (refl, inl refl, refl)
  ]

  -- Recording a failure changes the failed counter only, and to its own counter.
  recorded :
      (act : BootAction) (d : c.Dev)
      → (act.record_failed ≡ true → act.failed_counter < u64_mod)
      → ((book (do_record_failed c b act d)).applied ≡ (book d).applied)
        × ((book (do_record_failed c b act d)).pending ≡ (book d).pending)
        × (((book (do_record_failed c b act d)).failed ≡ (book d).failed)
            ⊎ ((act.record_failed ≡ true)
                × ((book (do_record_failed c b act d)).failed ≡ act.failed_counter)))
  unfolding do_record_failed
  recorded act d w = elim (Bool-cases act.record_failed) [
    | inl on ↦
        let e = laws.store_failed_lem act.failed_counter (w on) d in rw (on, e) (ground (arith, on))
    | inr off ↦ rw (off) (refl, refl, inl refl)
  ]

  forgiven :
      (act : BootAction) (d : c.Dev)
      → ((book (do_clear_failed c b act d)).applied ≡ (book d).applied)
        × ((book (do_clear_failed c b act d)).pending ≡ (book d).pending)
        × (((book (do_clear_failed c b act d)).failed ≡ (book d).failed)
            ⊎ ((book (do_clear_failed c b act d)).failed ≡ 0))
  unfolding do_clear_failed
  forgiven act d = elim (Bool-cases act.clear_failed) [
    | inl on ↦
        let e1 = laws.clear_failed_lem d in
        let e2 = laws.clear_attempted_lem (c.clear_failed d).1 in
        rw (on, e2) (ground (arith, e1, on))
    | inr off ↦ rw (off) (refl, refl, inl refl)
  ]

-- What the update state may become over a boot of an image that is `confirmed` or not.
pub record Boots (confirmed : Bool) (k k' : Book) : Type 0 where
  pub applied_lem :
      (k'.applied ≡ k.applied)
      ⊎ ((confirmed ≡ false) × (k.applied < k.pending) × (k'.applied ≡ k.pending))
  pub pending_lem : (k'.pending ≡ k.pending) ⊎ (k'.pending ≡ 0)
  pub failed_lem :
      (k'.failed ≡ k.failed)
      ⊎ (k'.failed ≡ 0)
      ⊎ ((confirmed ≡ true) × (0 < k.pending) × (k'.failed ≡ k.pending))

module _ (c : Counters) (b : Board c.Dev) (book : c.Dev → Book) (laws : CounterLaws c book)
    (keeps : BoardKeeps b book) where
  carried_out :
      (act : BootAction) (d : c.Dev) (confirmed : Bool) (k : Book) (applied pending : ℕ)
      → book d ≡ k
      → applied ≡ k.applied
      → pending ≡ k.pending
      → k.pending < u64_mod
      → IsSafePlan confirmed applied pending act
      → Boots confirmed k (book (carry_out c b act d))
  unfolding carry_out
  carried_out act d confirmed k applied pending e0 v1 v2 w plan =
      let d1 = do_confirm c b act d in
      let e1 = book-do_confirm c b book laws keeps act d in
      let d2 = do_promote c b act d1 in
      let e2 = promoted c b book laws keeps act d1 (λ on. ground (arith, plan.promotes)) in
      let d3 = do_clear_pending c b act d2 in
      let e3 = unpended c b book laws keeps act d2 in
      let d4 = do_record_failed c b act d3 in
      let e4 = recorded c b book laws keeps act d3 (λ on. ground (arith, plan.records)) in
      let e5 = forgiven c b book laws keeps act d4 in
      record {
        applied_lem = ground (arith, e0, e1, e2, e3, e4, e5, plan.promotes);
        pending_lem = ground (arith, e0, e1, e2, e3, e4, e5);
        failed_lem = ground (arith, e0, e1, e2, e3, e4, e5, plan.records);
      }

  -- Whichever writes fail, from a pending counter that is a uint64_t: boot_confirm on a device that is online changes the applied counter only
  -- to a higher pending one, and only for an unconfirmed image; it drops or keeps the pending
  -- record; and it records as failed only the pending counter of a confirmed image.
  pub boot_healthy-Boots :
      (d : c.Dev)
      → (book d).pending < u64_mod
      → Boots (image_confirmed c b d) (book d) (book (boot_healthy c b d))
  unfolding boot_healthy
  boot_healthy-Boots d w =
      let d1 = c.applied_counter d in
      let (v1, e1) = laws.applied_lem d in
      let d2 = c.pending_counter d1.1 in
      let (v2, e2) = laws.pending_lem d1.1 in
      carried_out (plan_boot (image_confirmed c b d) d1.0 d2.0) d2.1 (image_confirmed c b d)
        (book d) d1.0 d2.0 (e2 ∙ e1) v1 (v2 ∙ ap (λ k. k.pending) e1) w
        (plan_boot-IsSafePlan (image_confirmed c b d) d1.0 d2.0)
