-- ===== src/Ota/Boot.antt =====
-- ota_plan_boot of lib/ota/ota.c and struct ota_boot_action of lib/ota/ota.h: what a boot does with
-- the image's confirmation and the persisted anti-rollback counters.
use mcu_sdk.Base.{ℕ, ◌≤◌, ◌<◌, ◌≡◌, ◌⊎◌, Bool, true, false, not, arith, ltb, ◌==◌, if◌then◌else◌}

-- An int that is used as a flag is a Bool.
pub record BootAction : Type 0 where
  pub confirm : Bool
  pub promote : Bool
  pub new_applied : ℕ
  pub clear_pending : Bool
  pub record_failed : Bool
  pub failed_counter : ℕ
  pub clear_failed : Bool

abbrev no_action : BootAction
no_action = record {
  confirm = false;
  promote = false;
  new_applied = 0;
  clear_pending = false;
  record_failed = false;
  failed_counter = 0;
  clear_failed = false;
}

unfoldable pub plan_boot : Bool → ℕ → ℕ → BootAction
plan_boot img_confirmed applied pending =
    if not img_confirmed
    then (let a = record no_action { confirm = true } in
        let a' =
          if ltb applied pending
          then record a { promote = true; new_applied = pending; clear_failed = true }
          else a in
        record a' { clear_pending = not (pending == 0) })
    else if not (pending == 0)
    then record no_action { clear_pending = true; record_failed = true; failed_counter = pending }
    else no_action

-- What a plan may do: confirm exactly an unconfirmed image, promote only a pending counter above the
-- applied one and only with the image's confirmation, record a failure only for the counter of an
-- image that was reverted, never both, and drop a pending record whenever there is one.
pub record IsSafePlan (img_confirmed : Bool) (applied pending : ℕ) (a : BootAction) : Type 0 where
  pub confirms : a.confirm ≡ not img_confirmed
  pub promotes :
      (a.promote ≡ false) ⊎ ((a.confirm ≡ true) × (a.new_applied ≡ pending) × (applied < pending))
  pub promotes_new : (a.promote ≡ true) ⊎ (img_confirmed ≡ true) ⊎ (pending ≤ applied)
  pub records :
      (a.record_failed ≡ false)
      ⊎ ((img_confirmed ≡ true) × (a.failed_counter ≡ pending) × (0 < pending))
  pub records_reverted : (a.record_failed ≡ true) ⊎ (img_confirmed ≡ false) ⊎ (pending ≡ 0)
  pub exclusive : (a.promote ≡ false) ⊎ (a.record_failed ≡ false)
  pub forgives : a.clear_failed ≡ a.promote
  pub drops : (a.clear_pending ≡ true) ⊎ (pending ≡ 0)
  pub keeps : (a.clear_pending ≡ false) ⊎ (0 < pending)

-- Every plan of ota_plan_boot confirms exactly an unconfirmed image, promotes only a pending counter
-- above the applied one and only with that confirmation, records a failure only of a confirmed
-- image's pending counter, never both, forgives exactly with a promotion, and drops a pending record
-- whenever there is one.
pub plan_boot-IsSafePlan :
    (img_confirmed : Bool) (applied pending : ℕ)
    → IsSafePlan img_confirmed applied pending (plan_boot img_confirmed applied pending)
unfolding plan_boot
plan_boot-IsSafePlan img_confirmed applied pending = ground arith
