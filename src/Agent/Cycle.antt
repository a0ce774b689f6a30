-- ===== src/Agent/Cycle.antt =====
-- What boot_confirm of lib/meshanics_agent.c does exactly where no write fails: for the new image
-- behind a swap and, after a revert, for the old one.
pub mod Update
use mcu_sdk.Base.{
  ℕ, ◌<◌, ◌≡◌, ◌≢◌, inl, inr, refl, ap, sym, ◌∙◌, arith, Bool, true, false, not, Bool-cases, some,
  none, Bytes, length, take, ltb, ◌==◌, c_string, done, u64_mod, if◌then◌else◌,
}
use mcu_sdk.Plat.{Book, Counters, CounterLaws}
use mcu_sdk.Store.Device.{stored}
use mcu_sdk.Manifest.Types.{Manifest}
use mcu_sdk.Manifest.Verify.{md_verify, check_rollback}
use mcu_sdk.Ota.Boot.{BootAction, plan_boot}
use mcu_sdk.Install.Device.{Board, BoardKeeps}
use mcu_sdk.Install.{stage_image, commit_and_reboot, image_confirmed, confirm_image}
use mcu_sdk.Install.Commit.{book-stage_image, committed}
use mcu_sdk.Net.{Net, NetLaws}
use mcu_sdk.Agent.{
  Agent, Run, returned, rebooted, at_dev, set_state, updating, manifest_buf, version_text, swap,
  install, consider, poll_once, do_promote, do_clear_pending, do_record_failed, do_clear_failed,
  do_confirm, carry_out, boot_healthy,
}
use mcu_sdk.Agent.Boot.{book-do_confirm}
use mcu_sdk.Agent.Poll.{considered}

-- No write fails, and MCUboot takes the request for a swap.
pub record NeverFails (c : Counters) (b : Board c.Dev) : Type 0 where
  pub stores_counter : (v : ℕ) (d : c.Dev) → (c.store_counter v d).0 ≡ true
  pub stores_pending : (v : ℕ) (d : c.Dev) → (c.store_pending v d).0 ≡ true
  pub stores_failed : (v : ℕ) (d : c.Dev) → (c.store_failed v d).0 ≡ true
  pub stores_attempted : (s : Bytes) (d : c.Dev) → (c.store_attempted_version s d).0 ≡ true
  pub clears_pending : (d : c.Dev) → (c.clear_pending d).0 ≡ true
  pub clears_failed : (d : c.Dev) → (c.clear_failed d).0 ≡ true
  pub clears_attempted : (d : c.Dev) → (c.clear_attempted_version d).0 ≡ true
  pub requests : (d : c.Dev) → (b.boot_request_upgrade d).0 ≡ true

-- What a boot that is online makes of the update state: an unconfirmed image is the one that was
-- swapped in, and a confirmed one with a pending counter is the one that MCUboot went back to.
pub next_book : Bool → Book → Book
next_book false k =
    if ltb k.applied k.pending
    then record { applied = k.pending; pending = 0; failed = 0; attempted = none }
    else record k { pending = 0 }
next_book true k = record k { pending = 0; failed = if k.pending == 0 then k.failed else k.pending }

-- A plan, as what it does to the update state.
planned : BootAction → Book → Book
planned act k =
    let k1 = if act.promote then record k { applied = act.new_applied; attempted = none } else k in
    let k2 = if act.clear_pending then record k1 { pending = 0 } else k1 in
    let k3 = if act.record_failed then record k2 { failed = act.failed_counter } else k2 in
    if act.clear_failed then record k3 { failed = 0; attempted = none } else k3

planned-plan_boot :
    (confirmed : Bool) (k : Book)
    → planned (plan_boot confirmed k.applied k.pending) k ≡ next_book confirmed k
unfolding planned next_book plan_boot
planned-plan_boot true k = ground arith
planned-plan_boot false k = ground arith

module _ (c : Counters) (b : Board c.Dev) (book : c.Dev → Book) (laws : CounterLaws c book)
    (keeps : BoardKeeps b book) (never : NeverFails c b) where
  -- A write that succeeds makes its change.
  succeeded :
      (d : c.Dev) (t : Bool) (k k' : Book) → t ≡ true → book d ≡ (if t then k else k') → book d ≡ k
  succeeded d true k k' h e = e
  succeeded d false k k' h e = absurd (ground arith)

  book-do_promote :
      (act : BootAction) (d : c.Dev)
      → act.new_applied < u64_mod
      → book (do_promote c b act d) ≡ (
          if act.promote
          then record (book d) { applied = act.new_applied; attempted = none }
          else book d)
  unfolding do_promote
  book-do_promote act d w =
      let d1 = c.store_counter act.new_applied d in
      let e1 =
        succeeded d1.1 d1.0 _ _ (never.stores_counter act.new_applied d)
          (laws.store_counter_lem act.new_applied w d) in
      let d2 = c.clear_attempted_version d1.1 in
      let e2 =
        succeeded d2.1 d2.0 _ _ (never.clears_attempted d1.1) (laws.clear_attempted_lem d1.1) in
      elim act.promote
        as (λ t. book (if t then d2.1 else d) ≡ (
          if t then record (book d) { applied = act.new_applied; attempted = none } else book d)) [
            | true ↦ e2 ∙ ap {A = Book} (λ k. record k { attempted = none }) e1
            | false ↦ refl
          ]

  book-do_clear_pending :
      (act : BootAction) (d : c.Dev)
      → book (do_clear_pending c b act d)
        ≡ (if act.clear_pending then record (book d) { pending = 0 } else book d)
  unfolding do_clear_pending
  book-do_clear_pending act d =
      let d1 = c.clear_pending d in
      elim act.clear_pending
        as (λ t.
          book (if t then d1.1 else d) ≡ (if t then record (book d) { pending = 0 } else book d)) [
            | true ↦ succeeded d1.1 d1.0 _ _ (never.clears_pending d) (laws.clear_pending_lem d)
            | false ↦ refl
          ]

  book-do_record_failed :
      (act : BootAction) (d : c.Dev)
      → act.failed_counter < u64_mod
      → book (do_record_failed c b act d)
        ≡ (if act.record_failed then record (book d) { failed = act.failed_counter } else book d)
  unfolding do_record_failed
  book-do_record_failed act d w =
      let d1 = c.store_failed act.failed_counter d in
      elim act.record_failed
        as (λ t.
          book (if t then d1.1 else d)
          ≡ (if t then record (book d) { failed = act.failed_counter } else book d)) [
            | true ↦
                succeeded d1.1 d1.0 _ _ (never.stores_failed act.failed_counter d)
                  (laws.store_failed_lem act.failed_counter w d)
            | false ↦ refl
          ]

  book-do_clear_failed :
      (act : BootAction) (d : c.Dev)
      → book (do_clear_failed c b act d)
        ≡ (if act.clear_failed then record (book d) { failed = 0; attempted = none } else book d)
  unfolding do_clear_failed
  book-do_clear_failed act d =
      let d1 = c.clear_failed d in
      let e1 = succeeded d1.1 d1.0 _ _ (never.clears_failed d) (laws.clear_failed_lem d) in
      let d2 = c.clear_attempted_version d1.1 in
      let e2 =
        succeeded d2.1 d2.0 _ _ (never.clears_attempted d1.1) (laws.clear_attempted_lem d1.1) in
      elim act.clear_failed
        as (λ t.
          book (if t then d2.1 else d)
          ≡ (if t then record (book d) { failed = 0; attempted = none } else book d)) [
            | true ↦ e2 ∙ ap {A = Book} (λ k. record k { attempted = none }) e1
            | false ↦ refl
          ]

  book-carry_out :
      (act : BootAction) (d : c.Dev)
      → act.new_applied < u64_mod
      → act.failed_counter < u64_mod
      → book (carry_out c b act d) ≡ planned act (book d)
  unfolding carry_out planned
  book-carry_out act d w1 w2 =
      let d1 = do_confirm c b act d in
      let d2 = do_promote c b act d1 in
      let d3 = do_clear_pending c b act d2 in
      let d4 = do_record_failed c b act d3 in
      rw
        (
          book-do_clear_failed act d4,
          book-do_record_failed act d3 w2,
          book-do_clear_pending act d2,
          book-do_promote act d1 w1,
          book-do_confirm c b book laws keeps act d,
        )
        refl

  words :
      (confirmed : Bool) (applied pending : ℕ)
      → pending < u64_mod
      → ((plan_boot confirmed applied pending).new_applied < u64_mod)
        × ((plan_boot confirmed applied pending).failed_counter < u64_mod)
  unfolding plan_boot
  words confirmed applied pending w = ground arith

  -- With counters and a board that keep their laws and writes that do not fail, from a pending counter
  -- that is a uint64_t: what boot_confirm on a device that is online makes of the update state is
  -- exactly next_book. An unconfirmed image with a pending counter above the applied one gets it
  -- applied, with no pending, failed or attempted record left; any other unconfirmed image only loses
  -- the pending record; and a confirmed image with a pending counter gets it recorded as failed.
  pub book-boot_healthy :
      (d : c.Dev)
      → (book d).pending < u64_mod
      → book (boot_healthy c b d) ≡ next_book (image_confirmed c b d) (book d)
  unfolding boot_healthy
  book-boot_healthy d w =
      let d1 = c.applied_counter d in
      let (v1, e1) = laws.applied_lem d in
      let d2 = c.pending_counter d1.1 in
      let (v2, e2) = laws.pending_lem d1.1 in
      let v3 = v2 ∙ ap (λ k. k.pending) e1 in
      let (w1, w2) = words (image_confirmed c b d) d1.0 d2.0 (ground (arith, v3)) in
      book-carry_out (plan_boot (image_confirmed c b d) d1.0 d2.0) d2.1 w1 w2
      ∙ (rw (v1, v3, e2, e1) (planned-plan_boot (image_confirmed c b d) (book d)))
