-- ===== src/Store/Flat.antt =====
-- A flash partition that never fails, for the tests.
use mcu_sdk.Base.{refl, inl, inr, arith, ℕ, ◌≡◌, Option, Bytes, true, false, none, some, length}
use mcu_sdk.Store.Device.{Nvs, NvsLaws, HasSoundReads, stored, read_of}
use mcu_sdk.Store.{Store}
use mcu_sdk.Store.Records.{Table, put}

abbrev pub flat : Nvs
flat = record {
  Fs = Table;
  device_ready = true;
  page_size = some 4096;
  partition_offset = 0;
  partition_size = 16384;
  nvs_mount = λ c fs. some fs;
  nvs_read = λ fs id len. read_of len (fs id);
  nvs_write = λ fs id b. (some (length b), put id (stored b) fs);
  nvs_delete = λ fs id. (true, put id none fs);
}

unfoldable pub flat_laws : NvsLaws flat
flat_laws = record {
  records = λ fs. fs;
  read_lem = λ fs id len. inr refl;
  write_size = λ fs id b k h. inl cc;
  write_done = λ fs id j k b h. refl;
  write_failed = λ fs id j b h. ground arith;
  delete_lem = λ fs id j. refl;
}

gone : (len : ℕ) (r : Option Bytes) → read_of len r ≡ none → r ≡ none
gone len none h = refl
gone len (some b) h = absurd cc

pub flat_sound : HasSoundReads flat flat_laws
unfolding HasSoundReads flat_laws
flat_sound fs id len h = gone len (fs id) h

abbrev pub blank : Store flat
blank = record { fs = λ id. none; ready = false }
