-- ===== src/Store/Identity/RoundTrip.antt =====
-- What identity.c saves is what it loads, and it leaves the counters of plat_counter.c alone.
use mcu_sdk.Base.{
  ℕ, ◌-◌, ◌<◌, ◌≡◌, ◌≢◌, refl, ap, ◌∙◌, arith, Bool, true, false, Option, none, some, Bytes, [],
  ◌∷◌, length, take_all, ne→==false, All, c_string, if◌then◌else◌,
}
use mcu_sdk.Store.Device.{Nvs, NvsLaws, HasSoundReads, stored, read_of}
use mcu_sdk.Store.{Store, store_read, store_write, store_exists}
use mcu_sdk.Store.Records.{
  Table, view, put, is_some, store-refines, view-store_read, view-store_write, view-store_exists,
}
use mcu_sdk.Store.Counter.{string_of}
use mcu_sdk.Store.Counter.Laws.{book, book_of, write-book}
use mcu_sdk.Store.Identity.{
  Identity, cert_cap, key_cap, pub_cap, key_id_cap, id_cert, id_key, id_pub, id_key_id, and_then,
  with_value, identity_exists, load_str, whole_key, load_pub, identity_load, identity_save,
}

-- A string that its array of `cap` bytes can hold: not empty, without a NUL, with room for its own.
IsText : ℕ → Bytes → Type 0
IsText cap s = (0 < length s) × (length s < cap) × All (λ c. c ≢ 0) s

unfoldable pub IsIdentity : Identity → Type 0
unfolding IsText
IsIdentity i =
    IsText cert_cap i.device_cert_pem
    × IsText key_cap i.device_key_pem
    × (length i.manifest_pub ≡ pub_cap)
    × IsText key_id_cap i.key_id

-- The four records in a table.
Holds : Identity → Table → Type 0
Holds i t =
    (t id_cert ≡ some i.device_cert_pem)
    × (t id_key ≡ some i.device_key_pem)
    × (t id_pub ≡ some i.manifest_pub)
    × (t id_key_id ≡ some i.key_id)

c_string_lem : (s : Bytes) → All (λ c. c ≢ 0) s → c_string s ≡ s
c_string_lem [] h = refl
c_string_lem (c ∷ s) (h, k) = rw (ne→==false c 0 h) (ap (λ t. c ∷ t) (c_string_lem s k))

stored_lem : (s : Bytes) → 0 < length s → stored s ≡ some s
stored_lem [] h = absurd (omega arith)
stored_lem (c ∷ s) h = refl

and_then-true :
    {S : Type 0} (m : Bool × S) (f : S → Bool × S)
    → (and_then m f).0 ≡ true
    → (m.0 ≡ true) × ((f m.1).0 ≡ true) × (and_then m f ≡ f m.1)
and_then-true (true, s) f h = (refl, h, refl)
and_then-true (false, s) f h = ground arith

and_then-done : {S : Type 0} (m : Bool × S) (f : S → Bool × S) → m.0 ≡ true → and_then m f ≡ f m.1
and_then-done (true, s) f h = refl
and_then-done (false, s) f h = ground arith

with_value-some :
    {A B S : Type 0} (m : Option A × S) (f : A → S → Option B × S) (a : A)
    → m.0 ≡ some a
    → with_value m f ≡ f a m.1
with_value-some (none, s) f a h = ground arith
with_value-some (some b, s) f a h = cc

string_lem :
    (cap : ℕ) (s : Bytes)
    → 0 < length s
    → length s < cap
    → string_of cap (read_of (cap - 1) (some s)) ≡ some s
unfolding string_of
string_lem cap s h k = ground (arith, take_all (cap - 1) s)

module _ (n : Nvs) (laws : NvsLaws n) where
  view-write :
      (s : Store n) (id : ℕ) (b : Bytes)
      → (store_write n id b s).0 ≡ true
      → view n laws (store_write n id b s).1 ≡ put id (stored b) (view n laws s)
  view-write s id b h i j =
      (view-store_write n laws s id j b
          ∙ ap (λ g. if g then put id (stored b) (view n laws s) j else view n laws s j) h)
        i

  view-save :
      (i : Identity) (s : Store n)
      → (identity_save n i s).0 ≡ true
      → view n laws (identity_save n i s).1
        ≡ put id_pub (stored i.manifest_pub) (
            put id_key_id (stored i.key_id) (
              put id_key
                (stored i.device_key_pem)
                (put id_cert (stored i.device_cert_pem) (view n laws s))))
  unfolding identity_save
  view-save i s h =
      let (w1, k1, e1) = and_then-true (store_write n id_cert i.device_cert_pem s) _ h in
      let (w2, k2, e2) = and_then-true (store_write n id_key i.device_key_pem _) _ k1 in
      let (w3, w4, e3) = and_then-true (store_write n id_key_id i.key_id _) _ k2 in
      rw
        (
          e1,
          e2,
          e3,
          view-write _ _ _ w4,
          view-write _ _ _ w3,
          view-write _ _ _ w2,
          view-write _ _ _ w1,
        )
        refl

  save-Holds :
      (i : Identity) (s : Store n)
      → IsIdentity i
      → (identity_save n i s).0 ≡ true
      → Holds i (view n laws (identity_save n i s).1)
  unfolding IsIdentity Holds IsText
  save-Holds i s ((c0, c1, c2), (k0, k1, k2), p, (d0, d1, d2)) h =
      rw (view-save i s h)
        (stored_lem _ c0, stored_lem _ k0, stored_lem _ (omega arith), stored_lem _ d0)

  view-read : (s : Store n) (id len : ℕ) → view n laws (store_read n id len s).1 ≡ view n laws s
  view-read s id len i j = view-store_read n laws s id len j i

  if_same : {A : Type 0} (b : Bool) (a : A) → (if b then a else a) ≡ a
  if_same true a = refl
  if_same false a = refl

  Keeps : (Store n → Bool × Store n) → Type 0
  Keeps f = (s : Store n) → book n laws (f s).1 ≡ book n laws s

  and_then-Keeps :
      (g f : Store n → Bool × Store n) → Keeps g → Keeps f → Keeps (λ s. and_then (g s) f)
  unfolding Keeps
  and_then-Keeps g f h k s = go (g s) (h s)
    where
      go :
          (m : Bool × Store n)
          → book n laws m.1 ≡ book n laws s
          → book n laws (and_then m f).1 ≡ book n laws s
      go (true, s') e = k s' ∙ e
      go (false, s') e = e

  write-Keeps :
      (id : ℕ) (b : Bytes)
      → ((t : Table) → book_of (put id (stored b) t) ≡ book_of t)
      → Keeps (store_write n id b)
  unfolding Keeps book
  write-Keeps id b h s =
      write-book n laws s id b
      ∙ ap (λ a. if (store_write n id b s).0 then a else book n laws s) (h (view n laws s))
      ∙ if_same _ (book n laws s)

  -- A save, whether it succeeds or stops on the way, leaves the update state as it was.
  pub book-identity_save :
      (i : Identity) (s : Store n) → book n laws (identity_save n i s).1 ≡ book n laws s
  unfolding identity_save Keeps book_of
  book-identity_save i s =
      let f3 = store_write n id_pub i.manifest_pub in
      let k3 = write-Keeps id_pub i.manifest_pub (λ t. refl) in
      let f2 = λ (s' : Store n). and_then (store_write n id_key_id i.key_id s') f3 in
      let k2 =
        and_then-Keeps (store_write n id_key_id i.key_id) f3
          (write-Keeps id_key_id i.key_id (λ t. refl)) k3 in
      let f1 = λ (s' : Store n). and_then (store_write n id_key i.device_key_pem s') f2 in
      let k1 =
        and_then-Keeps (store_write n id_key i.device_key_pem) f2
          (write-Keeps id_key i.device_key_pem (λ t. refl)) k2 in
      and_then-Keeps (store_write n id_cert i.device_cert_pem) f1
        (write-Keeps id_cert i.device_cert_pem (λ t. refl)) k1 s

  module _ (sound : HasSoundReads n laws) where
    load_str_lem :
        (s : Store n) (id cap : ℕ) (b : Bytes)
        → 0 < length b
        → length b < cap
        → view n laws s id ≡ some b
        → ((load_str n id cap s).0 ≡ some b) × (view n laws (load_str n id cap s).1 ≡ view n laws s)
    unfolding load_str
    load_str_lem s id cap b h k e = (
      ap (string_of cap)
            ((store-refines n laws sound s id (cap - 1) 0 []).0 ∙ ap (read_of (cap - 1)) e)
          ∙ string_lem cap b h k,
      view-read s id (cap - 1),
    )

    load_pub_lem :
        (s : Store n) (b : Bytes)
        → length b ≡ pub_cap
        → view n laws s id_pub ≡ some b
        → (load_pub n s).0 ≡ some b
    unfolding load_pub whole_key
    load_pub_lem s b h e =
        rw ((store-refines n laws sound s id_pub pub_cap 0 []).0, e, h)
          (ap some (take_all pub_cap b (omega arith)))

    Holds-load :
        (i : Identity) (s : Store n)
        → IsIdentity i
        → Holds i (view n laws s)
        → (identity_load n s).0 ≡ some i
    unfolding identity_load IsIdentity Holds IsText
    Holds-load i s ((c0, c1, c2), (k0, k1, k2), p, (d0, d1, d2)) (h0, h1, h2, h3) =
        let cert = load_str n id_cert cert_cap s in
        let (l0, v0) = load_str_lem s id_cert cert_cap i.device_cert_pem c0 c1 h0 in
        let key = load_str n id_key key_cap cert.1 in
        let (l1, v1) = load_str_lem cert.1 id_key key_cap i.device_key_pem k0 k1 (rw (v0) h1) in
        let name = load_str n id_key_id key_id_cap key.1 in
        let (l2, v2) = load_str_lem key.1 id_key_id key_id_cap i.key_id d0 d1 (rw (v1, v0) h3) in
        let l3 = load_pub_lem name.1 i.manifest_pub p (rw (v2, v1, v0) h2) in
        rw
          (
            with_value-some cert _ _ l0,
            with_value-some key _ _ l1,
            with_value-some name _ _ l2,
            with_value-some (load_pub n name.1) _ _ l3,
            c_string_lem _ c2,
            c_string_lem _ k2,
            c_string_lem _ d2,
          )
          refl

    view-exists : (s : Store n) (id : ℕ) → view n laws (store_exists n id s).1 ≡ view n laws s
    view-exists s id i j = view-store_exists n laws s id j i

    exists_some :
        (s : Store n) (id : ℕ) (b : Bytes)
        → view n laws s id ≡ some b
        → (store_exists n id s).0 ≡ true
    exists_some s id b h = (store-refines n laws sound s id 0 0 []).2 ∙ ap is_some h

    Holds-exists :
        (i : Identity) (s : Store n) → Holds i (view n laws s) → (identity_exists n s).0 ≡ true
    unfolding identity_exists Holds
    Holds-exists i s (h0, h1, h2, h3) =
        let cert = store_exists n id_cert s in
        let v0 = view-exists s id_cert in
        let key = store_exists n id_key cert.1 in
        let v1 = view-exists cert.1 id_key in
        let pub_key = store_exists n id_pub key.1 in
        let v2 = view-exists key.1 id_pub in
        rw
          (
            and_then-done cert _ (exists_some s id_cert _ h0),
            and_then-done key _ (exists_some cert.1 id_key i.device_key_pem (rw (v0) h1)),
            and_then-done pub_key _ (exists_some key.1 id_pub i.manifest_pub (rw (v1, v0) h2)),
          )
          (exists_some pub_key.1 id_key_id i.key_id (rw (v2, v1, v0) h3))

    -- After a save that reports success, the identity is there, and a load gives it back, when none of
    -- its strings is empty, each fits its array and holds no NUL, its key has 32 bytes, and no flash error strikes a
    -- read.
    pub identity_load-identity_save :
        (i : Identity) (s : Store n)
        → IsIdentity i
        → (identity_save n i s).0 ≡ true
        → ((identity_exists n (identity_save n i s).1).0 ≡ true)
          × ((identity_load n (identity_save n i s).1).0 ≡ some i)
    identity_load-identity_save i s h k =
        let held = save-Holds i s h k in (Holds-exists i _ held, Holds-load i _ h held)
