-- ===== src/Agent/Cycle/Update.antt =====
-- A whole update of lib/meshanics_agent.c where no write fails: the poll that stages it and reboots,
-- and the boot behind the swap, of the new image or, after a revert, of the old one.
use mcu_sdk.Base.{
  ℕ, ◌<◌, ◌≡◌, ◌≢◌, refl, ap, ◌∙◌, arith, Bool, true, false, some, none, Bytes, length, take, ltb,
  ◌==◌, c_string, done, u64_mod, if◌then◌else◌,
}
use mcu_sdk.Plat.{Book, Counters, CounterLaws}
use mcu_sdk.Store.Device.{stored}
use mcu_sdk.Manifest.Types.{Manifest}
use mcu_sdk.Manifest.Verify.{md_verify, check_rollback}
use mcu_sdk.Install.Device.{Board, BoardKeeps}
use mcu_sdk.Install.{stage_image, commit_and_reboot, image_confirmed}
use mcu_sdk.Install.Commit.{book-stage_image, committed}
use mcu_sdk.Net.{Net, NetLaws}
use mcu_sdk.Agent.{
  Agent, rebooted, at_dev, set_state, updating, manifest_buf, version_text, swap, install, consider,
  poll_once, boot_healthy,
}
use mcu_sdk.Agent.Poll.{verified_word, considered}
use mcu_sdk.Agent.Cycle.{NeverFails, next_book, book-boot_healthy}

module _ (c : Counters) (b : Board c.Dev) (net : Net c.Dev)
    (ed25519_verify : Bytes → Bytes → Bytes → ℕ) (book : c.Dev → Book) (laws : CounterLaws c book)
    (keeps : BoardKeeps b book) (quiet : NetLaws net book) (never : NeverFails c b) where
  -- The update state behind a commit of the manifest's image.
  abbrev swapping : Manifest → Book → Book
  swapping m k = record k {
    pending = m.rollback_counter;
    attempted = stored (version_text c b net ed25519_verify m);
  }

  commit-reboots : (v : ℕ) (d : c.Dev) → (commit_and_reboot c b v d).0 ≡ true
  unfolding commit_and_reboot
  commit-reboots v d = rw (never.stores_pending v d) (never.requests (c.store_pending v d).1)

  swap-reboots :
      (m : Manifest) (s : Agent c.Dev)
      → m.rollback_counter < u64_mod
      → (s' : Agent c.Dev) × (swap c b net ed25519_verify m s ≡ rebooted s')
        × (book s'.dev ≡ swapping m (book s.dev))
  unfolding swap
  swap-reboots m s w =
      let v = version_text c b net ed25519_verify m in
      let d1 = c.store_attempted_version v s.dev in
      let e1 : book d1.1 ≡ record (book s.dev) { attempted = stored v } =
        laws.store_attempted_lem v s.dev ∙ (rw (never.stores_attempted v s.dev) refl) in
      let r = commit-reboots m.rollback_counter d1.1 in
      let e2 = committed c b book laws keeps m.rollback_counter d1.1 w r in
      (
        at_dev s (commit_and_reboot c b m.rollback_counter d1.1).1,
        (rw (r) refl),
        e2 ∙ ap {A = Book} (λ k. record k { pending = m.rollback_counter }) e1,
      )

  install-reboots :
      (m : Manifest) (s : Agent c.Dev)
      → m.rollback_counter < u64_mod
      → ((d : c.Dev)
          → (stage_image b net.firmware_download (c_string (take 64 m.sha256)) m.size_bytes d).0
            ≡ true)
      → (s' : Agent c.Dev) × (install c b net ed25519_verify m s ≡ rebooted s')
        × (book s'.dev ≡ swapping m (book s.dev))
  unfolding install set_state
  install-reboots m s w stages =
      let sha = c_string (take 64 m.sha256) in
      let r = stage_image b net.firmware_download sha m.size_bytes s.dev in
      let e1 =
        book-stage_image b book keeps net.firmware_download quiet.keeps_download sha m.size_bytes
          s.dev in
      let (s', e2, e3) = swap-reboots m (at_dev (set_state updating s) r.1) w in
      (s', (rw (stages s.dev) e2), e3 ∙ ap {A = Book} (λ k. swapping m k) e1)

  consider-reboots :
      (m : Manifest) (s : Agent c.Dev)
      → m.rollback_counter < u64_mod
      → (book s.dev).applied < m.rollback_counter
      → m.rollback_counter ≢ (book s.dev).failed
      → ((d : c.Dev)
          → (stage_image b net.firmware_download (c_string (take 64 m.sha256)) m.size_bytes d).0
            ≡ true)
      → (s' : Agent c.Dev) × (consider c b net ed25519_verify m s ≡ rebooted s')
        × (book s'.dev ≡ swapping m (book s.dev))
  unfolding consider check_rollback
  consider-reboots m s w fresh untried stages =
      let d1 = c.applied_counter s.dev in
      let (v1, e1) = laws.applied_lem s.dev in
      let d2 = c.failed_counter d1.1 in
      let (v2, e2) = laws.failed_lem d1.1 in
      let newer : ltb d1.0 m.rollback_counter ≡ true = ground (arith, v1) in
      let other : (m.rollback_counter == d2.0) ≡ false = ground (arith, v2, e1) in
      let (s', e3, e4) = install-reboots m (at_dev s d2.1) w stages in
      (s', (rw (newer, other) e3), e4 ∙ ap {A = Book} (λ k. swapping m k) (e2 ∙ e1))

  after_reset :
      (m : Manifest) (k : Book) (confirmed : Bool)
      → k.applied < m.rollback_counter
      → next_book confirmed (swapping m k) ≡ (
          if confirmed
          then record {
            applied = k.applied;
            pending = 0;
            failed = m.rollback_counter;
            attempted = stored (version_text c b net ed25519_verify m);
          }
          else record { applied = m.rollback_counter; pending = 0; failed = 0; attempted = none })
  unfolding next_book
  after_reset m k true h = ground arith
  after_reset m k false h = ground arith

  -- With counters, a board and a network that keep their laws, where no write fails and staging the
  -- manifest's image succeeds: a poll that is offered a signed manifest above the applied counter,
  -- and not the one that failed, reboots the device, and after any reset that leaves the update
  -- state alone, the boot of the new, unconfirmed image makes the counter the applied one with nothing
  -- pending or failed, while the boot of a confirmed image, after a revert, leaves the applied
  -- counter and records the counter as failed and the version as attempted.
  pub poll_once-updates :
      (reset : c.Dev → c.Dev)
      → ((d : c.Dev) → book (reset d) ≡ book d)
      → (s : Agent c.Dev) (buf : Bytes) (m : Manifest)
      → (net.fetch_manifest manifest_buf s.dev).0 ≡ some buf
      → md_verify ed25519_verify s.pinned buf (length buf) ≡ done m
      → (book s.dev).applied < m.rollback_counter
      → m.rollback_counter ≢ (book s.dev).failed
      → ((d : c.Dev)
          → (stage_image b net.firmware_download (c_string (take 64 m.sha256)) m.size_bytes d).0
            ≡ true)
      → (s' : Agent c.Dev) × (poll_once c b net ed25519_verify s ≡ rebooted s')
        × (book (boot_healthy c b (reset s'.dev)) ≡ (
            if image_confirmed c b (reset s'.dev)
            then record {
              applied = (book s.dev).applied;
              pending = 0;
              failed = m.rollback_counter;
              attempted = stored (version_text c b net ed25519_verify m);
            }
            else record {
              applied = m.rollback_counter;
              pending = 0;
              failed = 0;
              attempted = none;
            }))
  poll_once-updates reset same s buf m e verified fresh untried stages =
      let r = net.fetch_manifest manifest_buf s.dev in
      let w =
        verified_word c b net ed25519_verify book s.pinned buf m
          (quiet.fetch_fits manifest_buf s.dev buf e) verified in
      let k = quiet.keeps_fetch manifest_buf s.dev in
      let (s', e1, e2) =
        consider-reboots m (at_dev s r.1) w (rw (k) fresh) (rw (k) untried) stages in
      let d = reset s'.dev in
      let e3 : book d ≡ swapping m (book s.dev) =
        same s'.dev ∙ (e2 ∙ ap {A = Book} (λ x. swapping m x) k) in
      (
        s',
        considered c b net ed25519_verify book laws keeps quiet s buf m e verified ∙ e1,
        book-boot_healthy c b book laws keeps never d (rw (e3) w)
            ∙ (rw (e3) (after_reset m (book s.dev) (image_confirmed c b d) fresh)),
      )
