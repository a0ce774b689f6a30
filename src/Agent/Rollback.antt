-- ===== src/Agent/Rollback.antt =====
-- The anti-rollback guarantee over the life of a device: any sequence of polls, boots and resets.
use mcu_sdk.Base.{
  ℕ, ◌≤◌, ◌<◌, ◌≡◌, ◌⊎◌, inl, inr, refl, sym, subst, arith, Bool, true, false, not, Bytes, u64_mod,
  if◌then◌else◌,
}
use mcu_sdk.Plat.{Book, Counters, CounterLaws}
use mcu_sdk.Manifest.Types.{PinnedKey, Manifest}
use mcu_sdk.Install.Device.{Board, BoardKeeps}
use mcu_sdk.Install.{image_confirmed}
use mcu_sdk.Net.{Net, NetLaws}
use mcu_sdk.Agent.{Agent, Run, returned, rebooted, boot_confirm, poll_once}
use mcu_sdk.Agent.Boot.{Boots, boot_healthy-Boots}
use mcu_sdk.Agent.Poll.{
  IsSigned, IsSigned-word, Kept, Target, Polled, Polled-back, Polled-rebooted, poll_once-Polled,
}

module _ (c : Counters) (b : Board c.Dev) (net : Net c.Dev)
    (ed25519_verify : Bytes → Bytes → Bytes → ℕ) (book : c.Dev → Book) (key : PinnedKey) where
  -- One event of a device whose pinned key is `key`. The last is everything that leaves the update
  -- state alone: a power cycle at rest, the MCUboot swap itself, a heartbeat.
  pub data Step : Agent c.Dev → Agent c.Dev → Type 0 where
    polls :
        {s s' : Agent c.Dev}
        → s.pinned ≡ key
        → poll_once c b net ed25519_verify s ≡ returned tt s'
        → Step s s'
    swaps :
        {s s' : Agent c.Dev}
        → s.pinned ≡ key
        → poll_once c b net ed25519_verify s ≡ rebooted s'
        → Step s s'
    boots :
        {s s' : Agent c.Dev} (net_ok : Bool)
        → boot_confirm c b net_ok s ≡ returned tt s'
        → Step s s'
    reverts :
        {s s' : Agent c.Dev} (net_ok : Bool) → boot_confirm c b net_ok s ≡ rebooted s' → Step s s'
    resets : {s s' : Agent c.Dev} → book s'.dev ≡ book s.dev → Step s s'

  pub data Reach (s : Agent c.Dev) : Agent c.Dev → Type 0 where
    here : Reach s s
    after : {s1 s2 : Agent c.Dev} → Reach s s1 → Step s1 s2 → Reach s s2

  -- The counter of a signed manifest, or the one that was pending at the start.
  pub Authentic : Book → ℕ → Type 0
  Authentic k v =
      (v ≡ k.pending)
      ⊎ ((m : Manifest) × IsSigned c b net ed25519_verify book key m × (v ≡ m.rollback_counter))

  pub record Traced (k k' : Book) : Type 0 where
    pub word : k'.pending < u64_mod
    pub grows : k.applied ≤ k'.applied
    pub applied_source : (k'.applied ≡ k.applied) ⊎ Authentic k k'.applied
    pub pending_source : (k'.pending ≡ 0) ⊎ Authentic k k'.pending

  Booted : Bool → Book → Run c.Dev (Unit {0}) → Type 0
  Booted confirmed k (returned u s) = Boots confirmed k (book s.dev)
  Booted confirmed k (rebooted s) = Boots confirmed k (book s.dev)

  unchanged : (confirmed : Bool) (k : Book) → Boots confirmed k k
  unchanged confirmed k = record {
    applied_lem = inl refl;
    pending_lem = inl refl;
    failed_lem = inl refl;
  }

  module _ (laws : CounterLaws c book) (keeps : BoardKeeps b book) (quiet : NetLaws net book) where
    boot_confirm-Booted :
        (net_ok : Bool) (s : Agent c.Dev)
        → (book s.dev).pending < u64_mod
        → Booted (image_confirmed c b s.dev) (book s.dev) (boot_confirm c b net_ok s)
    unfolding boot_confirm Booted
    boot_confirm-Booted true s w = boot_healthy-Boots c b book laws keeps s.dev w
    boot_confirm-Booted false s w = go (not (image_confirmed c b s.dev))
      where
        go :
            (t : Bool)
            → Booted
                (image_confirmed c b s.dev)
                (book s.dev)
                (if t then rebooted s else returned tt s)
        go true = unchanged (image_confirmed c b s.dev) (book s.dev)
        go false = unchanged (image_confirmed c b s.dev) (book s.dev)

    -- The source of a counter is the source of an equal one.
    source_of :
        (k : Book) (u : ℕ) {v w : ℕ} → w ≡ v → (v ≡ u) ⊎ Authentic k v → (w ≡ u) ⊎ Authentic k w
    source_of k u e h = subst (λ x. (x ≡ u) ⊎ Authentic k x) (sym e) h

    applied_from :
        (k k1 k2 : Book) (confirmed : Bool)
        → Traced k k1
        → (k2.applied ≡ k1.applied)
          ⊎ ((confirmed ≡ false) × (k1.applied < k1.pending) × (k2.applied ≡ k1.pending))
        → (k.applied ≤ k2.applied) × ((k2.applied ≡ k.applied) ⊎ Authentic k k2.applied)
    applied_from k k1 k2 confirmed t (inl e) =
        (omega (arith, t.grows), source_of k k.applied e t.applied_source)
    applied_from k k1 k2 confirmed t (inr (off, above, e)) = (
      omega (arith, t.grows),
      elim t.pending_source [
        | inl none_pending ↦ absurd (omega arith)
        | inr authentic ↦ inr (subst (Authentic k) (sym e) authentic)
      ],
    )

    pending_from :
        (k k1 k2 : Book)
        → Traced k k1
        → (k2.pending ≡ k1.pending) ⊎ (k2.pending ≡ 0)
        → (k2.pending < u64_mod) × ((k2.pending ≡ 0) ⊎ Authentic k k2.pending)
    pending_from k k1 k2 t (inl e) = (omega (arith, t.word), source_of k 0 e t.pending_source)
    pending_from k k1 k2 t (inr e) = (omega arith, inl e)

    Boots-Traced :
        (confirmed : Bool) (k k1 k2 : Book) → Traced k k1 → Boots confirmed k1 k2 → Traced k k2
    Boots-Traced confirmed k k1 k2 t h =
        let (up, from) = applied_from k k1 k2 confirmed t h.applied_lem in
        let (small, pending_from_there) = pending_from k k1 k2 t h.pending_lem in
        record {
          word = small;
          grows = up;
          applied_source = from;
          pending_source = pending_from_there;
        }

    Kept-Traced :
        (k k1 k2 : Book) → Traced k k1 → Kept c b net ed25519_verify book k1 k2 → Traced k k2
    Kept-Traced k k1 k2 t h = Boots-Traced true k k1 k2 t (record {
      applied_lem = inl h.kept_applied;
      pending_lem = inl h.kept_pending;
      failed_lem = inl h.kept_failed;
    })

    Target-Traced :
        (k k1 k2 : Book) → Traced k k1 → Target c b net ed25519_verify book key k1 k2 → Traced k k2
    unfolding Authentic
    Target-Traced k k1 k2 t h =
        let small = IsSigned-word c b net ed25519_verify book key h.manifest h.signed in
        record {
          word = omega (arith, h.is_pending, small);
          grows = omega (arith, t.grows, h.same_applied);
          applied_source = source_of k k.applied h.same_applied t.applied_source;
          pending_source = inr (inr (h.manifest, h.signed, h.is_pending));
        }

    Step-Traced :
        (k : Book) {s s' : Agent c.Dev} → Traced k (book s.dev) → Step s s' → Traced k (book s'.dev)
    unfolding Booted
    Step-Traced k {s} {s'} t (polls named e) =
        let p =
          subst
            (λ x.
              Polled c b net ed25519_verify book x (book s.dev)
                (poll_once c b net ed25519_verify s))
            named (poll_once-Polled c b net ed25519_verify book laws keeps quiet s) in
        elim (Polled-back c b net ed25519_verify book key (book s.dev) s' _ e p) [
          | inl kept ↦ Kept-Traced k (book s.dev) (book s'.dev) t kept
          | inr target ↦ Target-Traced k (book s.dev) (book s'.dev) t target
        ]
    Step-Traced k {s} {s'} t (swaps named e) =
        let p =
          subst
            (λ x.
              Polled c b net ed25519_verify book x (book s.dev)
                (poll_once c b net ed25519_verify s))
            named (poll_once-Polled c b net ed25519_verify book laws keeps quiet s) in
        Target-Traced k (book s.dev) (book s'.dev) t
          (Polled-rebooted c b net ed25519_verify book key (book s.dev) s' _ e p)
    Step-Traced k {s} {s'} t (boots net_ok e) =
        Boots-Traced (image_confirmed c b s.dev) k (book s.dev) (book s'.dev) t (
          subst (Booted (image_confirmed c b s.dev) (book s.dev)) e
            (boot_confirm-Booted net_ok s t.word))
    Step-Traced k {s} {s'} t (reverts net_ok e) =
        Boots-Traced (image_confirmed c b s.dev) k (book s.dev) (book s'.dev) t (
          subst (Booted (image_confirmed c b s.dev) (book s.dev)) e
            (boot_confirm-Booted net_ok s t.word))
    Step-Traced k t (resets e) = subst (Traced k) (sym e) t

    -- On a device whose counters, board and network keep their laws, from a pending counter that is
    -- a uint64_t, over any sequence of polls, boots and resets under one pinned key, whatever the
    -- network sends and whichever calls fail: the applied counter never goes down, and where it has changed it is the counter that was
    -- pending at the start or the counter of a manifest signed under the pinned key; a pending
    -- counter has such a source too.
    pub reach-Traced :
        (s s' : Agent c.Dev)
        → (book s.dev).pending < u64_mod
        → Reach s s'
        → Traced (book s.dev) (book s'.dev)
    unfolding Authentic
    reach-Traced s _ w here = record {
      word = w;
      grows = omega arith;
      applied_source = inl refl;
      pending_source = inr (inl refl);
    }
    reach-Traced s _ w (after r e) = Step-Traced (book s.dev) (reach-Traced s _ w r) e
