-- ===== src/Store/Records.antt =====
-- The table that lib/plat/plat_store.c keeps: what a client sees of the NVS records, and each
-- operation as an operation on that table.
use mcu_sdk.Base.{
  ℕ, ◌≡◌, refl, ◌⊎◌, Bool, true, false, not, Option, none, some, Bytes, length, ◌==◌, arith,
  if◌then◌else◌,
}
use mcu_sdk.Store.Device.{Nvs, NvsLaws, HasSoundReads, nvs_read_lem, stored, read_of}
use mcu_sdk.Store.{
  Store, store_mount, store_read, store_write, store_delete, store_exists, is_present, written,
}

abbrev pub Table : Type 0
Table = ℕ → Option Bytes

abbrev pub put : ℕ → Option Bytes → Table → Table
put id r t j = if j == id then r else t j

abbrev pub is_some : {A : Type 0} → Option A → Bool
is_some none = false
is_some (some a) = true

module _ (n : Nvs) (laws : NvsLaws n) where
  open laws use {records, write_size, write_done, write_failed, delete_lem}

  seen : Bool × Store n → Table
  seen (up, s) j = if up then records s.fs j else none

  -- The records that the next call works on: none when the store cannot be mounted.
  unfoldable pub view : Store n → Table
  unfolding seen
  view s = seen (store_mount n s)

  data Mount (s : Store n) : Bool × Store n → Type 0 where
    mounted : (fs : n.Fs) → Mount s (true, record { fs = fs; ready = true })
    unmounted : Mount s (false, s)

  Mount-found :
      (s : Store n) (m : Option n.Fs)
      → Mount s (elim m [ none ↦ (false, s) | some fs ↦ (true, record { fs = fs; ready = true }) ])
  Mount-found s none = unmounted
  Mount-found s (some fs) = mounted fs

  Mount-rest :
      (s : Store n) (d : Bool) (p : Option ℕ) (m : ℕ → Option n.Fs)
      → Mount s (
          if not d then (false, s) else elim p [
            | none ↦ (false, s)
            | some size ↦ elim (m size) [
              | none ↦ (false, s)
              | some fs ↦ (true, record { fs = fs; ready = true })
            ]
          ])
  Mount-rest s false p m = unmounted
  Mount-rest s true none m = unmounted
  Mount-rest s true (some size) m = Mount-found s (m size)

  Mount-by :
      (fs : n.Fs) (ready : Bool)
      → Mount
          (record { fs = fs; ready = ready })
          (store_mount n (record { fs = fs; ready = ready }))
  unfolding store_mount
  Mount-by fs true = mounted fs
  Mount-by fs false = Mount-rest (record { fs = fs; ready = false }) n.device_ready n.page_size _

  store_mount-Mount : (s : Store n) → Mount s (store_mount n s)
  store_mount-Mount s = Mount-by s.fs s.ready

  ready_mount :
      (fs : n.Fs)
      → store_mount n (record { fs = fs; ready = true }) ≡ (true, record { fs = fs; ready = true })
  unfolding store_mount
  ready_mount fs = refl

  present : (r : Option Bytes) → is_present n (read_of 1 r) ≡ is_some r
  unfolding is_present
  present none = refl
  present (some b) = refl

  read_after :
      {s : Store n} {r : Bool × Store n} (id len j : ℕ)
      → Mount s r
      → store_mount n s ≡ r
      → view (store_read n id len s).1 j ≡ view s j
  unfolding view store_read
  read_after id len j (mounted fs) h = rw (h, ready_mount _) refl
  read_after id len j unmounted h = rw (h, h) refl

  exists_after :
      {s : Store n} {r : Bool × Store n} (id j : ℕ)
      → Mount s r
      → store_mount n s ≡ r
      → view (store_exists n id s).1 j ≡ view s j
  unfolding view store_exists
  exists_after id j (mounted fs) h = rw (h, ready_mount fs) refl
  exists_after id j unmounted h = rw (h, h) refl

  written_lem : (b : Bytes) (k : ℕ) → (k ≡ length b) ⊎ (k ≡ 0) → written n b (some k) ≡ true
  unfolding written
  written_lem b k h = ground arith

  -- NVS answers the length, or 0 for a value that is there already, and the record is the new one.
  write_by :
      (fs : n.Fs) (id j : ℕ) (b : Bytes) (k : Option ℕ)
      → (n.nvs_write fs id b).0 ≡ k
      → records (n.nvs_write fs id b).1 j
        ≡ (if written n b k then put id (stored b) (records fs) j else records fs j)
  unfolding written
  write_by fs id j b none h = write_failed fs id j b h
  write_by fs id j b (some k) h =
      rw (written_lem b k (write_size fs id b k h)) (write_done fs id j k b h)

  write_after :
      {s : Store n} {r : Bool × Store n} (id j : ℕ) (b : Bytes)
      → Mount s r
      → store_mount n s ≡ r
      → view (store_write n id b s).1 j
        ≡ (if (store_write n id b s).0 then put id (stored b) (view s) j else view s j)
  unfolding view store_write written
  write_after id j b (mounted fs) h = rw (h, ready_mount _) (write_by fs id j b _ refl)
  write_after id j b unmounted h = rw (h, h) refl

  delete_after :
      {s : Store n} {r : Bool × Store n} (id j : ℕ)
      → Mount s r
      → store_mount n s ≡ r
      → view (store_delete n id s).1 j
        ≡ (if (store_delete n id s).0 then put id none (view s) j else view s j)
  unfolding view store_delete
  delete_after id j (mounted fs) h = rw (h, ready_mount _) (delete_lem fs id j)
  delete_after id j unmounted h = rw (h, h) refl

  pub view-store_read : (s : Store n) (id len j : ℕ) → view (store_read n id len s).1 j ≡ view s j
  view-store_read s id len j = read_after id len j (store_mount-Mount s) refl

  pub view-store_exists : (s : Store n) (id j : ℕ) → view (store_exists n id s).1 j ≡ view s j
  view-store_exists s id j = exists_after id j (store_mount-Mount s) refl

  pub view-store_write :
      (s : Store n) (id j : ℕ) (b : Bytes)
      → view (store_write n id b s).1 j
        ≡ (if (store_write n id b s).0 then put id (stored b) (view s) j else view s j)
  view-store_write s id j b = write_after id j b (store_mount-Mount s) refl

  pub view-store_delete :
      (s : Store n) (id j : ℕ)
      → view (store_delete n id s).1 j
        ≡ (if (store_delete n id s).0 then put id none (view s) j else view s j)
  view-store_delete s id j = delete_after id j (store_mount-Mount s) refl

  module _ (sound : HasSoundReads n laws) where
    read_result :
        {s : Store n} {r : Bool × Store n} (id len : ℕ)
        → Mount s r
        → store_mount n s ≡ r
        → (store_read n id len s).0 ≡ read_of len (view s id)
    unfolding view store_read
    read_result id len (mounted fs) h = rw (h) (nvs_read_lem n laws sound fs id len)
    read_result id len unmounted h = rw (h) refl

    exists_result :
        {s : Store n} {r : Bool × Store n} (id : ℕ)
        → Mount s r
        → store_mount n s ≡ r
        → (store_exists n id s).0 ≡ is_some (view s id)
    unfolding view store_exists is_present
    exists_result id (mounted fs) h =
        rw (h, nvs_read_lem n laws sound fs id 1) (present (records fs id))
    exists_result id unmounted h = rw (h) refl

    -- While no flash error strikes a read: a read copies out the front of the record and answers its
    -- size, a probe says whether there is one, and neither changes the table; a write or a delete that
    -- reports success changes exactly the one record, and one that reports failure changes nothing.
    -- This holds whether or not the store is mounted or can be, an unmountable store having no
    -- records.
    pub store-refines :
        (s : Store n) (id len j : ℕ) (b : Bytes)
        → ((store_read n id len s).0 ≡ read_of len (view s id))
          × (view (store_read n id len s).1 j ≡ view s j)
          × ((store_exists n id s).0 ≡ is_some (view s id))
          × (view (store_exists n id s).1 j ≡ view s j)
          × (view (store_write n id b s).1 j
              ≡ (if (store_write n id b s).0 then put id (stored b) (view s) j else view s j))
          × (view (store_delete n id s).1 j
              ≡ (if (store_delete n id s).0 then put id none (view s) j else view s j))
    store-refines s id len j b =
        let m = store_mount-Mount s in
        (
          read_result id len m refl,
          view-store_read s id len j,
          exists_result id m refl,
          view-store_exists s id j,
          view-store_write s id j b,
          view-store_delete s id j,
        )
