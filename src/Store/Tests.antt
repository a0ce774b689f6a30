-- ===== src/Store/Tests.antt =====
-- One identity on a flash partition that never fails.
use mcu_sdk.Base.{◌≡◌, refl, arith, true, false, none, some, replicate, codes}
use mcu_sdk.Plat.{CounterLaws}
use mcu_sdk.Store.{store_read, store_write, store_delete, store_exists, store_mount}
use mcu_sdk.Store.Records.{view, store-refines}
use mcu_sdk.Store.Counter.{
  counters, applied_counter, store_counter, read_counter, attempted_version,
  store_attempted_version,
}
use mcu_sdk.Store.Counter.Laws.{book, counters-CounterLaws}
use mcu_sdk.Store.Identity.{Identity, identity_save, identity_load, identity_exists}
use mcu_sdk.Store.Identity.RoundTrip.{IsIdentity, identity_load-identity_save, book-identity_save}
use mcu_sdk.Store.Flat.{flat, flat_laws, flat_sound, blank}

abbrev one_identity : Identity
one_identity = record {
  device_cert_pem = codes "CERT";
  device_key_pem = codes "KEY";
  manifest_pub = replicate 32 7;
  key_id = codes "k1";
}

version_run :
    (attempted_version flat 32 (store_attempted_version flat (codes "1.2") blank).1).0
    ≡ some (codes "1.2")
unfolding attempted_version store_attempted_version store_read store_write store_mount
version_run = refl

counter_run : (applied_counter flat (store_counter flat 70000 blank).1).0 ≡ 70000
unfolding applied_counter store_counter read_counter store_read store_write store_mount
counter_run = refl

saved : (identity_save flat one_identity blank).0 ≡ true
unfolding identity_save store_write store_mount
saved = refl

one_identity-IsIdentity : IsIdentity one_identity
unfolding IsIdentity
one_identity-IsIdentity = omega arith

store-refines_example :
    ((store_read flat 3 2 blank).0 ≡ none)
    × (view flat flat_laws (store_read flat 3 2 blank).1 5 ≡ none)
    × ((store_exists flat 3 blank).0 ≡ false)
    × (view flat flat_laws (store_exists flat 3 blank).1 5 ≡ none)
    × (view flat flat_laws (store_write flat 3 (codes "x") blank).1 5 ≡ none)
    × (view flat flat_laws (store_delete flat 3 blank).1 5 ≡ none)
unfolding flat_laws view store_mount store_write store_delete store_read store_exists
store-refines_example = store-refines flat flat_laws flat_sound blank 3 2 5 (codes "x")

counters-CounterLaws_example : CounterLaws (counters flat) (book flat flat_laws)
counters-CounterLaws_example = counters-CounterLaws flat flat_laws flat_sound

identity_load-identity_save_example :
    ((identity_exists flat (identity_save flat one_identity blank).1).0 ≡ true)
    × ((identity_load flat (identity_save flat one_identity blank).1).0 ≡ some one_identity)
identity_load-identity_save_example =
    identity_load-identity_save flat flat_laws flat_sound one_identity blank one_identity-IsIdentity
      saved

book-identity_save_example :
    book flat flat_laws (identity_save flat one_identity blank).1 ≡ book flat flat_laws blank
book-identity_save_example = book-identity_save flat flat_laws one_identity blank
