-- ===== src/Agent/Poll.antt =====
-- What poll_once of lib/meshanics_agent.c does to the update state, with any network and whichever
-- of its calls fail.
use mcu_sdk.Base.{
  by_if, ℕ, ◌≤◌, ◌<◌, ◌≡◌, ◌≢◌, ◌⊎◌, inl, inr, refl, subst, ◌∙◌, arith, true, not, Bool-cases,
  Option, none, some, Bytes, length, take, u64_mod, ltb, ◌==◌, c_string, Outcome, done, failed,
  fault, stuck, Returns-done,
}
use mcu_sdk.Plat.{Book, Counters, CounterLaws}
use mcu_sdk.Manifest.Types.{PinnedKey, Manifest, MdError}
use mcu_sdk.Manifest.Verify.{md_verify, check_rollback}
use mcu_sdk.Manifest.Verify.Safety.{md_verify-Returns}
use mcu_sdk.Install.Device.{Board, BoardKeeps}
use mcu_sdk.Install.{stage_image, commit_and_reboot}
use mcu_sdk.Install.Commit.{book-stage_image, book-commit_and_reboot, committed}
use mcu_sdk.Net.{Net, NetLaws}
use mcu_sdk.Agent.{
  Agent, Run, returned, rebooted, at_dev, set_state, online, updating, manifest_buf, version_text,
  swap, install, consider, judge, poll_once,
}

module _ (c : Counters) (b : Board c.Dev) (net : Net c.Dev)
    (ed25519_verify : Bytes → Bytes → Bytes → ℕ) (book : c.Dev → Book) where
  -- Some bytes, which the receive buffer holds, are an update that is signed under the key, and
  -- this is its manifest.
  pub IsSigned : PinnedKey → Manifest → Type 0
  IsSigned key m =
      (buf : Bytes) × (length buf ≤ manifest_buf)
      × (md_verify ed25519_verify key buf (length buf) ≡ done m)

  pub verified_word :
      (key : PinnedKey) (buf : Bytes) (m : Manifest)
      → length buf ≤ manifest_buf
      → md_verify ed25519_verify key buf (length buf) ≡ done m
      → m.rollback_counter < u64_mod
  verified_word key buf m small e =
      Returns-done
        (md_verify-Returns ed25519_verify key buf (length buf) (omega arith) (omega arith)) e

  pub IsSigned-word :
      (key : PinnedKey) (m : Manifest) → IsSigned key m → m.rollback_counter < u64_mod
  unfolding IsSigned
  IsSigned-word key m (buf, small, e) = verified_word key buf m small e

  -- The image that the manifest names was received into the slot and has its digest.
  pub IsStaged : Manifest → Type 0
  IsStaged m =
      (d : c.Dev) × ((stage_image b net.firmware_download (c_string (take 64 m.sha256)) m.size_bytes
          d).0
        ≡ true)

  -- The update state has not changed, the attempted version apart.
  pub record Kept (k k' : Book) : Type 0 where
    pub kept_applied : k'.applied ≡ k.applied
    pub kept_pending : k'.pending ≡ k.pending
    pub kept_failed : k'.failed ≡ k.failed

  -- A signed manifest above the applied counter, and not the one that failed, is pending.
  pub record Target (key : PinnedKey) (k k' : Book) : Type 0 where
    pub manifest : Manifest
    pub signed : IsSigned key manifest
    pub staged : IsStaged manifest
    pub fresh : k.applied < manifest.rollback_counter
    pub untried : manifest.rollback_counter ≢ k.failed
    pub is_pending : k'.pending ≡ manifest.rollback_counter
    pub same_applied : k'.applied ≡ k.applied
    pub same_failed : k'.failed ≡ k.failed

  -- What a poll may have done, by whether it returned or rebooted.
  pub Polled : PinnedKey → Book → Run c.Dev (Unit {0}) → Type 0
  Polled key k (returned u s) = Kept k (book s.dev) ⊎ Target key k (book s.dev)
  Polled key k (rebooted s) = Target key k (book s.dev)

  pub Polled-back :
      (key : PinnedKey) (k : Book) (s : Agent c.Dev) (r : Run c.Dev (Unit {0}))
      → r ≡ returned tt s
      → Polled key k r
      → Kept k (book s.dev) ⊎ Target key k (book s.dev)
  unfolding Polled
  Polled-back key k s r e h = subst (Polled key k) e h

  pub Polled-rebooted :
      (key : PinnedKey) (k : Book) (s : Agent c.Dev) (r : Run c.Dev (Unit {0}))
      → r ≡ rebooted s
      → Polled key k r
      → Target key k (book s.dev)
  unfolding Polled
  Polled-rebooted key k s r e h = subst (Polled key k) e h

  stays :
      (key : PinnedKey) (k : Book) (s : Agent c.Dev) → book s.dev ≡ k → Polled key k (returned tt s)
  unfolding Polled
  stays key k s e =
      rw (e) (inl (record { kept_applied = refl; kept_pending = refl; kept_failed = refl }))

  module _ (laws : CounterLaws c book) (keeps : BoardKeeps b book) (quiet : NetLaws net book) where
    -- The update state behind store_attempted_version and a commit.
    swap-Polled :
        (key : PinnedKey) (k : Book) (m : Manifest) (s : Agent c.Dev)
        → book s.dev ≡ k
        → IsSigned key m
        → IsStaged m
        → m.rollback_counter < u64_mod
        → k.applied < m.rollback_counter
        → m.rollback_counter ≢ k.failed
        → Polled key k (swap c b net ed25519_verify m s)
    unfolding swap set_state Polled
    swap-Polled key k m s e signed staged word fresh untried =
        let d1 = c.store_attempted_version (version_text c b net ed25519_verify m) s.dev in
        let e1 = laws.store_attempted_lem (version_text c b net ed25519_verify m) s.dev in
        let d2 = commit_and_reboot c b m.rollback_counter d1.1 in
        let e2 = book-commit_and_reboot c b book laws keeps m.rollback_counter d1.1 word in
        by_if (Polled key k) d2.0 _ _
          (λ reboots.
            let e3 = committed c b book laws keeps m.rollback_counter d1.1 word reboots in
            record {
              manifest = m;
              signed = signed;
              staged = staged;
              fresh = fresh;
              untried = untried;
              is_pending = rw (e3) refl;
              same_applied = ground (arith, e, e1, e3);
              same_failed = ground (arith, e, e1, e3);
            })
          (λ back. elim (Bool-cases (c.store_pending m.rollback_counter d1.1).0) [
            | inl kept ↦ inr (record {
              manifest = m;
              signed = signed;
              staged = staged;
              fresh = fresh;
              untried = untried;
              is_pending = ground (arith, e2, kept);
              same_applied = ground (arith, e, e1, e2, kept);
              same_failed = ground (arith, e, e1, e2, kept);
            })
            | inr lost ↦ inl (record {
              kept_applied = ground (arith, e, e1, e2, lost);
              kept_pending = ground (arith, e, e1, e2, lost);
              kept_failed = ground (arith, e, e1, e2, lost);
            })
          ])

    install-Polled :
        (key : PinnedKey) (k : Book) (m : Manifest) (s : Agent c.Dev)
        → book s.dev ≡ k
        → IsSigned key m
        → m.rollback_counter < u64_mod
        → k.applied < m.rollback_counter
        → m.rollback_counter ≢ k.failed
        → Polled key k (install c b net ed25519_verify m s)
    unfolding install set_state IsStaged
    install-Polled key k m s e signed word fresh untried =
        let sha = c_string (take 64 m.sha256) in
        let r = stage_image b net.firmware_download sha m.size_bytes s.dev in
        let e1 =
          book-stage_image b book keeps net.firmware_download quiet.keeps_download sha m.size_bytes
            s.dev
          ∙ e in
        by_if (Polled key k) (not r.0) _ _
          (λ failed_stage. stays key k (set_state online (at_dev (set_state updating s) r.1)) e1)
          (λ good.
            swap-Polled key k m (at_dev (set_state updating s) r.1) e1 signed (s.dev, ground arith)
              word fresh untried)

    consider-Polled :
        (key : PinnedKey) (m : Manifest) (s : Agent c.Dev)
        → IsSigned key m
        → m.rollback_counter < u64_mod
        → Polled key (book s.dev) (consider c b net ed25519_verify m s)
    unfolding consider check_rollback
    consider-Polled key m s signed word =
        let d1 = c.applied_counter s.dev in
        let (v1, e1) = laws.applied_lem s.dev in
        let d2 = c.failed_counter d1.1 in
        let (v2, e2) = laws.failed_lem d1.1 in
        by_if (Polled key (book s.dev)) (not (ltb d1.0 m.rollback_counter)) _ _
          (λ old. stays key (book s.dev) (at_dev s d1.1) e1)
          (λ newer.
            by_if (Polled key (book s.dev)) (m.rollback_counter == d2.0) _ _
              (λ tried. stays key (book s.dev) (at_dev s d2.1) (e2 ∙ e1))
              (λ untried.
                install-Polled key (book s.dev) m (at_dev s d2.1) (e2 ∙ e1) signed word
                  (ground (arith, v1)) (ground (arith, v2, e1))))

    judged :
        (buf : Bytes) (s : Agent c.Dev) (r : Outcome MdError Manifest)
        → length buf ≤ manifest_buf
        → md_verify ed25519_verify s.pinned buf (length buf) ≡ r
        → Polled s.pinned (book s.dev) (elim r as (λ x. Run c.Dev (Unit {0})) [
          | done m ↦ consider c b net ed25519_verify m s
          | _ ↦ returned tt s
        ])
    unfolding IsSigned
    judged buf s (done m) small e =
        consider-Polled s.pinned m s (buf, small, e) (IsSigned-word s.pinned m (buf, small, e))
    judged buf s (failed x) small e = stays s.pinned (book s.dev) s refl
    judged buf s fault small e = stays s.pinned (book s.dev) s refl
    judged buf s stuck small e = stays s.pinned (book s.dev) s refl

    fetched :
        (buf : Option Bytes) (s : Agent c.Dev)
        → ((bytes : Bytes) → buf ≡ some bytes → length bytes ≤ manifest_buf)
        → Polled s.pinned (book s.dev) (elim buf as (λ x. Run c.Dev (Unit {0})) [
          | none ↦ returned tt s
          | some bytes ↦ judge c b net ed25519_verify bytes s
        ])
    unfolding judge
    fetched none s h = stays s.pinned (book s.dev) s refl
    fetched (some bytes) s h =
        judged bytes s (md_verify ed25519_verify s.pinned bytes (length bytes)) (h bytes refl) refl

    -- With counters, a board and a network that keep their laws, a poll leaves the three counters as
    -- they were, or makes the counter of a manifest pending that md_verify accepts under the pinned
    -- key, that is above the applied counter and not the one that failed, and whose image
    -- plat_stage_image reports as staged; a poll that reboots the device has done the latter. The applied and the
    -- failed counter never change.
    pub poll_once-Polled :
        (s : Agent c.Dev) → Polled s.pinned (book s.dev) (poll_once c b net ed25519_verify s)
    unfolding poll_once
    poll_once-Polled s =
        let r = net.fetch_manifest manifest_buf s.dev in
        subst (λ k. Polled s.pinned k (poll_once c b net ed25519_verify s))
          (quiet.keeps_fetch manifest_buf s.dev)
          (fetched r.0 (at_dev s r.1) (quiet.fetch_fits manifest_buf s.dev))

    skipped :
        (m : Manifest) (s : Agent c.Dev)
        → (m.rollback_counter ≤ (book s.dev).applied) ⊎ (m.rollback_counter ≡ (book s.dev).failed)
        → (d : c.Dev) × (consider c b net ed25519_verify m s ≡ returned tt (at_dev s d))
          × (book d ≡ book s.dev)
    unfolding consider check_rollback
    skipped m s old =
        let d1 = c.applied_counter s.dev in
        let (v1, e1) = laws.applied_lem s.dev in
        let d2 = c.failed_counter d1.1 in
        let (v2, e2) = laws.failed_lem d1.1 in
        elim (Bool-cases (ltb d1.0 m.rollback_counter)) [
          | inl newer ↦
              let same : (m.rollback_counter == d2.0) ≡ true = ground (arith, v1, v2, e1) in
              (d2.1, (rw (newer, same) refl), e2 ∙ e1)
          | inr not_newer ↦ (d1.1, (rw (not_newer) refl), e1)
        ]

    pub considered :
        (s : Agent c.Dev) (buf : Bytes) (m : Manifest)
        → (net.fetch_manifest manifest_buf s.dev).0 ≡ some buf
        → md_verify ed25519_verify s.pinned buf (length buf) ≡ done m
        → poll_once c b net ed25519_verify s
          ≡ consider c b net ed25519_verify m (at_dev s (net.fetch_manifest manifest_buf s.dev).1)
    unfolding poll_once judge
    considered s buf m e verified = rw (e, verified, poll_once, judge) refl

    -- A signed manifest that is not above the applied counter, or has the counter of the target that
    -- was reverted, is passed over: the poll returns, shows no other state, and leaves the
    -- update state as it was.
    pub poll_once-skips :
        (s : Agent c.Dev) (buf : Bytes) (m : Manifest)
        → (net.fetch_manifest manifest_buf s.dev).0 ≡ some buf
        → md_verify ed25519_verify s.pinned buf (length buf) ≡ done m
        → (m.rollback_counter ≤ (book s.dev).applied) ⊎ (m.rollback_counter ≡ (book s.dev).failed)
        → (s' : Agent c.Dev) × (poll_once c b net ed25519_verify s ≡ returned tt s')
          × (s'.state ≡ s.state)
          × (s'.calls ≡ s.calls)
          × (book s'.dev ≡ book s.dev)
    poll_once-skips s buf m e verified old =
        let r = net.fetch_manifest manifest_buf s.dev in
        let (d, run, same) =
          skipped m (at_dev s r.1) (rw (quiet.keeps_fetch manifest_buf s.dev) old) in
        (
          at_dev s d,
          considered s buf m e verified ∙ run,
          refl,
          refl,
          same ∙ quiet.keeps_fetch manifest_buf s.dev,
        )
