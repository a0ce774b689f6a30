-- ===== src/Store/Counter/Laws.antt =====
-- The update state of lib/plat/plat_counter.c is what lib/plat/plat.h promises.
use mcu_sdk.Base.{
  ℕ, ◌-◌, ◌<◌, ◌≡◌, refl, ap, ◌∙◌, arith, Bool, true, false, Option, none, some, Bytes, [], ◌∷◌,
  take_all, ne→==false, if◌then◌else◌, u64_mod,
}
use mcu_sdk.Plat.{Book, CounterLaws, Reads, Writes, fitting}
use mcu_sdk.Store.Device.{Nvs, NvsLaws, HasSoundReads, stored, read_of}
use mcu_sdk.Store.{Store, store_read, store_write, store_delete}
use mcu_sdk.Store.Records.{
  Table, view, put, store-refines, view-store_read, view-store_write, view-store_delete,
}
use mcu_sdk.Store.Counter.{
  le_bytes, le_value-le_bytes, counter_id, pending_id, failed_id, attempted_version_id, counter_of,
  string_of, read_counter, applied_counter, store_counter, pending_counter, store_pending,
  clear_pending, failed_counter, store_failed, clear_failed, store_attempted_version,
  attempted_version, clear_attempted_version, counters,
}

abbrev text_of : Option Bytes → Option Bytes
text_of none = none
text_of (some b) = stored b

-- The book that the records stand for.
unfoldable pub book_of : Table → Book
unfolding counter_of
book_of t = record {
  applied = counter_of (read_of 8 (t counter_id));
  pending = counter_of (read_of 8 (t pending_id));
  failed = counter_of (read_of 8 (t failed_id));
  attempted = text_of (t attempted_version_id);
}

word_of : (v : ℕ) → v < u64_mod → counter_of (read_of 8 (stored (le_bytes 8 v))) ≡ v
unfolding counter_of le_bytes
word_of v h = le_value-le_bytes 8 v h

text_stored : (s : Bytes) → text_of (stored s) ≡ stored s
text_stored [] = refl
text_stored (c ∷ s) = refl

string_fitting :
    (cap : ℕ) (r : Option Bytes)
    → 0 < cap
    → string_of cap (read_of (cap - 1) r) ≡ fitting cap (text_of r)
unfolding string_of
string_fitting cap none h = refl
string_fitting cap (some []) h = refl
string_fitting cap (some (c ∷ s)) h = ground (arith, take_all (cap - 1) (c ∷ s))

-- The book after a call whose effect on each record is known.
book_if :
    (good : Bool) (t u v : Table)
    → ((j : ℕ) → t j ≡ (if good then u j else v j))
    → book_of t ≡ (if good then book_of u else book_of v)
book_if true t u v h = ap book_of (λ i j. h j i)
book_if false t u v h = ap book_of (λ i j. h j i)

module _ (n : Nvs) (laws : NvsLaws n) where
  unfoldable pub book : Store n → Book
  unfolding book_of
  book s = book_of (view n laws s)

  pub write-book :
      (s : Store n) (id : ℕ) (b : Bytes)
      → book (store_write n id b s).1
        ≡ (if (store_write n id b s).0 then book_of (put id (stored b) (view n laws s)) else book s)
  unfolding book
  write-book s id b =
      book_if (store_write n id b s).0 _ (put id (stored b) (view n laws s)) (view n laws s)
        (λ j. view-store_write n laws s id j b)

  delete-book :
      (s : Store n) (id : ℕ)
      → book (store_delete n id s).1
        ≡ (if (store_delete n id s).0 then book_of (put id none (view n laws s)) else book s)
  unfolding book
  delete-book s id =
      book_if (store_delete n id s).0 _ (put id none (view n laws s)) (view n laws s)
        (λ j. view-store_delete n laws s id j)

  Writes-counter :
      (v : ℕ) → v < u64_mod → Writes book (store_counter n v) (λ b. record b { applied = v })
  unfolding store_counter book
  Writes-counter v h s =
      write-book s counter_id (le_bytes 8 v)
      ∙ ap (λ a. if (store_counter n v s).0 then record (book s) { applied = a } else book s)
          (word_of v h)

  Writes-pending :
      (v : ℕ) → v < u64_mod → Writes book (store_pending n v) (λ b. record b { pending = v })
  unfolding store_pending book
  Writes-pending v h s =
      write-book s pending_id (le_bytes 8 v)
      ∙ ap (λ a. if (store_pending n v s).0 then record (book s) { pending = a } else book s)
          (word_of v h)

  Writes-failed :
      (v : ℕ) → v < u64_mod → Writes book (store_failed n v) (λ b. record b { failed = v })
  unfolding store_failed book
  Writes-failed v h s =
      write-book s failed_id (le_bytes 8 v)
      ∙ ap (λ a. if (store_failed n v s).0 then record (book s) { failed = a } else book s)
          (word_of v h)

  Writes-attempted :
      (v : Bytes)
      → Writes book (store_attempted_version n v) (λ b. record b { attempted = stored v })
  unfolding store_attempted_version book
  Writes-attempted v s =
      write-book s attempted_version_id v
      ∙ ap
          (λ a.
            if (store_attempted_version n v s).0 then record (book s) { attempted = a } else book s)
          (text_stored v)

  module _ (sound : HasSoundReads n laws) where
    read-book :
        (s : Store n) (id len : ℕ)
        → ((store_read n id len s).0 ≡ read_of len (view n laws s id))
          × (book (store_read n id len s).1 ≡ book s)
    unfolding book
    read-book s id len = (
      (store-refines n laws sound s id len 0 []).0,
      ap book_of (λ i j. view-store_read n laws s id len j i),
    )

    Reads-counter :
        (s : Store n) (id : ℕ)
        → ((read_counter n id s).0 ≡ counter_of (read_of 8 (view n laws s id)))
          × (book (read_counter n id s).1 ≡ book s)
    unfolding read_counter
    Reads-counter s id = let (r, b) = read-book s id 8 in (ap counter_of r, b)

    Reads-attempted :
        (cap : ℕ) → 0 < cap → Reads book (attempted_version n cap) (λ b. fitting cap b.attempted)
    unfolding attempted_version book
    Reads-attempted cap h s =
        let (r, b) = read-book s attempted_version_id (cap - 1) in
        rw (ne→==false cap 0 (omega arith)) (ap (string_of cap) r ∙ string_fitting cap _ h, b)

    -- plat_counter.c on a file system that keeps its contract, and on which no flash error strikes a
    -- read, is the counter store of plat.h.
    pub counters-CounterLaws : CounterLaws (counters n) book
    unfolding applied_counter pending_counter failed_counter clear_pending clear_failed
        clear_attempted_version book
    counters-CounterLaws = record {
      applied_lem = λ s. Reads-counter s counter_id;
      pending_lem = λ s. Reads-counter s pending_id;
      failed_lem = λ s. Reads-counter s failed_id;
      attempted_lem = Reads-attempted;
      store_counter_lem = Writes-counter;
      store_pending_lem = Writes-pending;
      store_failed_lem = Writes-failed;
      store_attempted_lem = Writes-attempted;
      clear_pending_lem = λ s. delete-book s pending_id;
      clear_failed_lem = λ s. delete-book s failed_id;
      clear_attempted_lem = λ s. delete-book s attempted_version_id;
    }
