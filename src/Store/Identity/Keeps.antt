-- ===== src/Store/Identity/Keeps.antt =====
-- That the functions of lib/provision/identity.c which only read leave the update state as it was.
use mcu_sdk.Base.{ℕ, ◌-◌, ◌≡◌, refl, ap, ◌∙◌, Bool, true, false, Option, none, some}
use mcu_sdk.Store.Device.{Nvs, NvsLaws}
use mcu_sdk.Store.{Store, store_read, store_exists}
use mcu_sdk.Store.Records.{view-store_exists, view-store_read}
use mcu_sdk.Store.Counter.Laws.{book, book_of}
use mcu_sdk.Store.Identity.{
  cert_cap, key_cap, pub_cap, key_id_cap, id_cert, id_key, id_pub, id_key_id, and_then, with_value,
  identity_exists, load_str, load_pub, identity_load,
}

module _ (n : Nvs) (laws : NvsLaws n) where
  -- A step keeps the update state, and so does what follows it.
  book-and_then :
      (m : Bool × Store n) (f : Store n → Bool × Store n)
      → ((s : Store n) → book n laws (f s).1 ≡ book n laws s)
      → book n laws (and_then m f).1 ≡ book n laws m.1
  book-and_then (true, s) f h = h s
  book-and_then (false, s) f h = refl

  book-with_value :
      {A B : Type 0} (m : Option A × Store n) (f : A → Store n → Option B × Store n)
      → ((a : A) (s : Store n) → book n laws (f a s).1 ≡ book n laws s)
      → book n laws (with_value m f).1 ≡ book n laws m.1
  book-with_value (none, s) f h = refl
  book-with_value (some a, s) f h = h a s

  book-store_exists : (id : ℕ) (s : Store n) → book n laws (store_exists n id s).1 ≡ book n laws s
  unfolding book
  book-store_exists id s = ap book_of (λ i j. view-store_exists n laws s id j i)

  book-store_read :
      (id len : ℕ) (s : Store n) → book n laws (store_read n id len s).1 ≡ book n laws s
  unfolding book
  book-store_read id len s = ap book_of (λ i j. view-store_read n laws s id len j i)

  pub book-identity_exists : (s : Store n) → book n laws (identity_exists n s).1 ≡ book n laws s
  unfolding identity_exists
  book-identity_exists s =
      book-and_then (store_exists n id_cert s) _ (λ s1.
        book-and_then (store_exists n id_key s1) _ (λ s2.
          book-and_then (store_exists n id_pub s2) _ (λ s3. book-store_exists id_key_id s3)
          ∙ book-store_exists id_pub s2)
        ∙ book-store_exists id_key s1)
      ∙ book-store_exists id_cert s

  book-load_str : (id cap : ℕ) (s : Store n) → book n laws (load_str n id cap s).1 ≡ book n laws s
  unfolding load_str
  book-load_str id cap s = book-store_read id (cap - 1) s

  book-load_pub : (s : Store n) → book n laws (load_pub n s).1 ≡ book n laws s
  unfolding load_pub
  book-load_pub s = book-store_read id_pub pub_cap s

  pub book-identity_load : (s : Store n) → book n laws (identity_load n s).1 ≡ book n laws s
  unfolding identity_load
  book-identity_load s =
      book-with_value (load_str n id_cert cert_cap s) _ (λ cert s1.
        book-with_value (load_str n id_key key_cap s1) _ (λ key s2.
          book-with_value (load_str n id_key_id key_id_cap s2) _ (λ key_id s3.
            book-with_value (load_pub n s3) _ (λ manifest_pub s4. refl) ∙ book-load_pub s3)
          ∙ book-load_str id_key_id key_id_cap s2)
        ∙ book-load_str id_key key_cap s1)
      ∙ book-load_str id_cert cert_cap s
