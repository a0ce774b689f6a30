-- ===== src/Applog/Refine.antt =====
-- The ring against its specification: the bytes logged so far, of which the last ones are kept.
use mcu_sdk.Base.{
  false, ℕ, zero, suc, ◌+◌, ◌-◌, ◌%◌, ◌≤◌, ◌<◌, min, ◌≡◌, ◌≢◌, refl, ap, ap₂, ◌∙◌, sym, Bytes, List,
  [], ◌∷◌, ◌++◌, length, get_or, set, drop, length-set, get_or-set_self, get_or-set_ne, append-nil,
  take, take-append-drop, length-drop, arith, length-replicate, room, ◌⊎◌, inl, inr, append_assoc,
  ltb, ◌==◌, if◌then◌else◌,
}
use native.Mathlib.Nat.{mod-add-mod, mod-eq_of_lt, mod-eq-sub-mod}
use native.Mathlib.Decide.{dec_lt}
use mcu_sdk.Applog.{Ring, empty, put_byte, ring_put, copy, snapshot}

mod_below : (a n : ℕ) → a < n → a % n ≡ a
mod_below a n h = mod-eq_of_lt h

mod_once : (a n : ℕ) → n ≤ a → a < n + n → a % n ≡ a - n
mod_once a n h k = mod-eq-sub-mod {n = a} {m = n} h ∙ mod-eq_of_lt {n = a - n} {m = n} (omega arith)

-- The `n` newest bytes, oldest of them first.
abbrev recent : ℕ → Bytes → Bytes
recent zero hist = []
recent (suc n) hist = get_or hist n 0 ∷ recent n hist

-- The bytes of several calls, newest first.
abbrev newest_first : Bytes → Bytes → Bytes
newest_first hist [] = hist
newest_first hist (b ∷ s) = newest_first (b ∷ hist) s

module _ (size : ℕ) where
  -- Where the byte stands that was put `k` bytes before the newest.
  index : ℕ → ℕ → ℕ
  index head k = (head + size - (k + 1)) % size

  index_below : (head k : ℕ) → head < size → k + 1 ≤ head → index head k ≡ head - (k + 1)
  unfolding index
  index_below head k h l =
      omega (arith, mod_once (head + size - (k + 1)) size (omega arith) (omega arith))

  index_above :
      (head k : ℕ) → head < size → head < k + 1 → k < size → index head k ≡ head + size - (k + 1)
  unfolding index
  index_above head k h l m = mod_below (head + size - (k + 1)) size (omega arith)

  next_cases :
      (head : ℕ)
      → head < size
      → ((head + 1) % size ≡ head + 1) × (head + 1 < size)
        ⊎ ((head + 1) % size ≡ 0) × (head + 1 ≡ size)
  next_cases head h = elim (dec_lt (head + 1) size) [
    | yes p ↦ inl (mod_below (head + 1) size p, p)
    | no p ↦ inr (omega (arith, mod_once (head + 1) size (omega arith) (omega arith)), omega arith)
  ]

  index_lt : (head k : ℕ) → 0 < size → index head k < size
  unfolding index
  index_lt head k h = omega arith

  index_newest : (head : ℕ) → head < size → index ((head + 1) % size) 0 ≡ head
  index_newest head h = elim (next_cases head h) [
    | inl (e, l) ↦ rw e (omega (arith, index_below (head + 1) 0 l (omega arith)))
    | inr (e, l) ↦ rw e (omega (arith, index_above 0 0 (omega arith) (omega arith) (omega arith)))
  ]

  index_older :
      (head k : ℕ) → head < size → k + 1 < size → index ((head + 1) % size) (suc k) ≡ index head k
  index_older head k h l = elim (next_cases head h) [
    | inl (e, m) ↦ rw e (elim (dec_lt head (k + 1)) [
      | yes p ↦ omega (
        arith,
        index_above (head + 1) (suc k) m (omega arith) (omega arith),
        index_above head k h p (omega arith),
      )
      | no p ↦ omega (
        arith,
        index_below (head + 1) (suc k) m (omega arith),
        index_below head k h (omega arith),
      )
    ])
    | inr (e, m) ↦ rw e (
        omega (
          arith,
          index_above 0 (suc k) (omega arith) (omega arith) (omega arith),
          index_below head k h (omega arith),
        ))
  ]

  index-ne-head : (head k : ℕ) → head < size → k + 1 < size → index head k ≢ head
  index-ne-head head k h l = elim (dec_lt head (k + 1)) [
    | yes p ↦ omega (arith, index_above head k h p (omega arith))
    | no p ↦ omega (arith, index_below head k h (omega arith))
  ]

  -- The ring holds the latest of the bytes `hist`, which has the newest first.
  record Holds (r : Ring) (hist : Bytes) : Type 0 where
    storage : length r.ring ≡ size
    head_in : r.head < size
    count : r.len ≡ min size (length hist)
    bytes : (k : ℕ) → k < r.len → get_or r.ring (index r.head k) 0 ≡ get_or hist k 0

  put_byte-Holds :
      (r : Ring) (b : ℕ) (hist : Bytes) → Holds r hist → Holds (put_byte size r b) (b ∷ hist)
  unfolding put_byte
  put_byte-Holds r b hist h = record {
    storage = length-set r.ring r.head b ∙ h.storage;
    head_in = omega (arith, h.head_in);
    count = ground (arith, h.count);
    bytes = latest;
  }
    where
      latest :
          (k : ℕ)
          → k < (if ltb r.len size then r.len + 1 else r.len)
          → get_or (set r.ring r.head b) (index ((r.head + 1) % size) k) 0 ≡ get_or (b ∷ hist) k 0
      latest zero l =
          rw (index_newest r.head h.head_in)
            (get_or-set_self r.ring r.head b 0 (omega (arith, h.storage, h.head_in)))
      latest (suc k) l =
          let fits : k + 1 < size = ground (arith, h.count) in
          rw (index_older r.head k h.head_in fits) (
            get_or-set_ne r.ring b 0 (λ e. index-ne-head r.head k h.head_in fits (sym e))
            ∙ h.bytes k (ground (arith, h.count)))

  ring_put-Holds :
      (r : Ring) (s hist : Bytes) → Holds r hist → Holds (ring_put size r s) (newest_first hist s)
  unfolding ring_put
  ring_put-Holds r [] hist h = h
  ring_put-Holds r (b ∷ s) hist h =
      ring_put-Holds (put_byte size r b) s (b ∷ hist) (put_byte-Holds r b hist h)

  empty-Holds : 0 < size → Holds (empty size) []
  unfolding empty
  empty-Holds h = record {
    storage = length-replicate size 0;
    head_in = h;
    count = omega arith;
    bytes = λ k l. absurd (omega arith);
  }

  start_index :
      (head n i k : ℕ)
      → head < size
      → n ≤ size
      → i + k + 1 ≡ n
      → ((head + size - n) % size + i) % size ≡ index head k
  unfolding index
  start_index head n i k h l e =
      mod-add-mod (head + size - n) size i ∙ ap (λ t. t % size) (omega arith)

  copy-recent :
      (r : Ring) (hist : Bytes) (n m i : ℕ)
      → Holds r hist
      → n ≤ r.len
      → i + m ≡ n
      → copy size r.ring ((r.head + size - n) % size) m i ≡ recent m hist
  unfolding copy
  copy-recent r hist n zero i h l e = refl
  copy-recent r hist n (suc m) i h l e =
      ap₂ ◌∷◌
        (ap (λ j. get_or r.ring j 0)
            (start_index r.head n i m h.head_in (omega (arith, h.count)) (omega arith))
          ∙ h.bytes m (omega arith))
        (copy-recent r hist n m (i + 1) h l (omega arith))

  -- The two tests of applog_snapshot, under the invariant.
  snapshot_amount :
      (r : Ring) (hist : Bytes) (cap : ℕ)
      → Holds r hist
      → 0 < cap
      → snapshot size r (room cap) ≡ (
          let n = min (cap - 1) (min size (length hist)) in
          copy size r.ring ((r.head + size - n) % size) n 0)
  unfolding snapshot
  snapshot_amount r hist cap h pos =
      let some_room : (cap == 0) ≡ false = ground arith in
      let same : (if ltb (cap - 1) r.len then cap - 1 else r.len)
          ≡ min (cap - 1) (min size (length hist)) =
        ground (arith, h.count) in
      rw (some_room, same)

  snapshot-recent :
      (r : Ring) (hist : Bytes) (cap : ℕ)
      → Holds r hist
      → 0 < cap
      → snapshot size r (room cap) ≡ recent (min (cap - 1) (min size (length hist))) hist
  snapshot-recent r hist cap h pos =
      let n : ℕ = min (cap - 1) (min size (length hist)) in
      snapshot_amount r hist cap h pos
      ∙ copy-recent r hist n n 0 h (omega (arith, h.count)) (omega arith)

recent-cons : (n b : ℕ) (hist : Bytes) → recent (suc n) (b ∷ hist) ≡ recent n hist ++ (b ∷ [])
recent-cons zero b hist = refl
recent-cons (suc n) b hist = ap (λ t. get_or hist n 0 ∷ t) (recent-cons n b hist)

recent-newest_first :
    (s hist : Bytes) (m : ℕ) → recent (m + length s) (newest_first hist s) ≡ recent m hist ++ s
recent-newest_first [] hist m = let e : m + 0 ≡ m = omega arith in rw (e, append-nil)
recent-newest_first (b ∷ s) hist m =
    let e : m + suc (length s) ≡ suc m + length s = omega arith in
    rw e (
      recent-newest_first s (b ∷ hist) (suc m)
      ∙ ap (λ t. t ++ s) (recent-cons m b hist)
      ∙ append_assoc (recent m hist) (b ∷ []) s)

newest_first-append :
    (s t hist : Bytes) → newest_first hist (s ++ t) ≡ newest_first (newest_first hist s) t
newest_first-append [] t hist = refl
newest_first-append (b ∷ s) t hist = newest_first-append s t (b ∷ hist)

length-newest_first : (s hist : Bytes) → length (newest_first hist s) ≡ length s + length hist
length-newest_first [] hist = omega arith
length-newest_first (b ∷ s) hist = omega (arith, length-newest_first s (b ∷ hist))

-- The last `n` bytes.
abbrev pub last : ℕ → Bytes → Bytes
last n s = drop (length s - n) s

recent-last : (n : ℕ) (s : Bytes) → n ≤ length s → recent n (newest_first [] s) ≡ last n s
recent-last n s h =
    let k : ℕ = length s - n in
    let front : Bytes = take k s in
    let size : n ≡ 0 + length (drop k s) = omega (arith, length-drop k s) in
    ap (λ t. recent n (newest_first [] t)) (sym (take-append-drop k s))
    ∙ ap (recent n) (newest_first-append front (drop k s) [])
    ∙ ap (λ j. recent j (newest_first (newest_first [] front) (drop k s))) size
    ∙ recent-newest_first (drop k s) (newest_first [] front) 0

abbrev pub logged : List Bytes → Bytes
logged [] = []
logged (s ∷ ss) = s ++ logged ss

module _ (size : ℕ) where
  -- The ring after the calls of ring_put with these buffers.
  abbrev pub after : Ring → List Bytes → Ring
  after r [] = r
  after r (s ∷ ss) = after (ring_put size r s) ss

  after-Holds :
      (ss : List Bytes) (r : Ring) (hist : Bytes)
      → Holds size r hist
      → Holds size (after r ss) (newest_first hist (logged ss))
  after-Holds [] r hist h = h
  after-Holds (s ∷ ss) r hist h =
      rw (newest_first-append s (logged ss) hist)
        (after-Holds ss (ring_put size r s) (newest_first hist s) (ring_put-Holds size r s hist h))

  -- Whatever was logged in whatever pieces, a snapshot with room for `cap` bytes holds the last
  -- bytes logged, oldest first: `cap - 1` of them, or all that are retained, which are the last
  -- `size` at most.
  pub snapshot-last :
      (ss : List Bytes) (cap : ℕ)
      → 0 < size
      → 0 < cap
      → snapshot size (after (empty size) ss) (room cap)
        ≡ last (min (cap - 1) (min size (length (logged ss)))) (logged ss)
  snapshot-last ss cap h pos =
      let log : Bytes = logged ss in
      let n : ℕ = min (cap - 1) (min size (length log)) in
      let total : length (newest_first [] log) ≡ length log =
        omega (arith, length-newest_first log []) in
      snapshot-recent size (after (empty size) ss) (newest_first [] log) cap
        (after-Holds ss (empty size) [] (empty-Holds size h)) pos
      ∙ ap (λ j. recent (min (cap - 1) (min size j)) (newest_first [] log)) total
      ∙ recent-last n log (omega arith)
