-- ===== src/Agent/Toy.antt =====
-- A small device whose state is its update state, on which the theorems are tried.
use mcu_sdk.Wire.{read_varint, read_varint_loop, skip_scalar, read_len_delimited, slice, add_group}
use mcu_sdk.Manifest.Decode.{
  decode_signed, decode_manifest, fields_loop, signed_field, manifest_field, set_signed, set_number,
  set_bytes,
}
use mcu_sdk.Manifest.Verify.{
  md_verify, md_ed25519_verify, check_envelope, validate_manifest, is_lower_hex64,
}
use mcu_sdk.Base.{
  ℕ, ◌+◌, ◌≤◌, ◌≡◌, inl, inr, refl, arith, ap, Bool-cases, leb→le, true, false, none, some, Bytes,
  [], ◌++◌, length, take, drop, leb, if◌then◌else◌, replicate, codes, done,
}
use mcu_sdk.Plat.{Book, Counters, CounterLaws, fitting}
use mcu_sdk.Store.Device.{stored}
use mcu_sdk.Install.Device.{Board, BoardKeeps, HashLaws, SlotLaws}
use mcu_sdk.Net.{Net, NetLaws, beat_ok}
use mcu_sdk.Manifest.Verify.Sample.{pinned, toy_verify, update, wire}
use mcu_sdk.Agent.Setup.{Setup}
use mcu_sdk.Agent.{Agent, online}

abbrev pub toy : Counters
toy = record {
  Dev = Book;
  applied_counter = λ k. (k.applied, k);
  pending_counter = λ k. (k.pending, k);
  failed_counter = λ k. (k.failed, k);
  attempted_version = λ cap k. (fitting cap k.attempted, k);
  store_counter = λ v k. (true, record k { applied = v });
  store_pending = λ v k. (true, record k { pending = v });
  store_failed = λ v k. (true, record k { failed = v });
  store_attempted_version = λ s k. (true, record k { attempted = stored s });
  clear_pending = λ k. (true, record k { pending = 0 });
  clear_failed = λ k. (true, record k { failed = 0 });
  clear_attempted_version = λ k. (true, record k { attempted = none });
}

abbrev pub same : Book → Book
same k = k

pub toy_laws : CounterLaws toy same
toy_laws = record {
  applied_lem = λ k. (refl, refl);
  pending_lem = λ k. (refl, refl);
  failed_lem = λ k. (refl, refl);
  attempted_lem = λ cap h k. (refl, refl);
  store_counter_lem = λ v h k. refl;
  store_pending_lem = λ v h k. refl;
  store_failed_lem = λ v h k. refl;
  store_attempted_lem = λ s k. refl;
  clear_pending_lem = λ k. refl;
  clear_failed_lem = λ k. refl;
  clear_attempted_lem = λ k. refl;
}

abbrev pub image : Bytes
image = replicate 600 5

abbrev pub toy_digest : Bytes
toy_digest = replicate 32 0xab

-- Hashes everything to one digest; the second slot has the image for good.
abbrev pub board : Board Book
board = record {
  Hash = Bytes;
  boot_is_img_confirmed = λ k. false;
  boot_write_img_confirmed = λ k. (true, k);
  boot_request_upgrade = λ k. (true, k);
  flash_img_init = λ k. (true, k);
  flash_img_buffered_write = λ s last k. (true, k);
  flash_area_open = λ k. true;
  flash_area_read =
      λ off n k. if leb (off + n) (length image) then some (take n (drop off image)) else none;
  psa_hash_setup = some [];
  psa_hash_update = λ op s. some (op ++ s);
  psa_hash_finish = λ op. some toy_digest;
}

pub board_keeps : BoardKeeps board same
board_keeps = record {
  keeps_confirm = λ k. refl;
  keeps_request = λ k. refl;
  keeps_init = λ k. refl;
  keeps_write = λ s last k. refl;
}

pub some_eq : {A : Type 0} {x y : A} → some x ≡ some y → y ≡ x
some_eq h = cc

pub in_slot :
    (off n : ℕ) (s : Bytes)
    → board.flash_area_read off n
        (record { applied = 0; pending = 0; failed = 0; attempted = none })
      ≡ some s
    → (off + n ≤ length image) × (s ≡ take n (drop off image))
in_slot off n s h = elim (Bool-cases (leb (off + n) (length image))) [
  | inl inside ↦ (leb→le _ _ inside, some_eq (rw (inside) at h))
  | inr outside ↦ absurd (let e : none ≡ some s = rw (outside) at h in cc)
]

pub fits :
    (s : Bytes) (cap : ℕ) (buf : Bytes)
    → (if leb (length s) cap then some s else none) ≡ some buf
    → length buf ≤ cap
fits s cap buf h = elim (Bool-cases (leb (length s) cap)) [
  | inl inside ↦
      let e : buf ≡ s = some_eq (rw (inside) at h) in omega (arith, leb→le _ _ inside, ap length e)
  | inr outside ↦ absurd (let e : none ≡ some buf = rw (outside) at h in cc)
]

pub hash_laws : HashLaws board (λ s. toy_digest)
hash_laws = record {
  fed = λ op. op;
  fed_setup = λ op h. some_eq h;
  fed_update = λ op op' s h. some_eq h;
  digest_lem = λ op h e. some_eq e;
}

pub slot_laws : SlotLaws board (λ k. image)
slot_laws = record { read_lem = λ off n k s h. in_slot off n s h }

abbrev pub net : Net Book
net = record {
  wifi_up = λ k. (true, k);
  plat_register = λ k. (true, k);
  heartbeat = λ version applied healthy detail cap k. ((beat_ok, []), k);
  upload_logs = λ id body k. (true, k);
  fetch_manifest = λ cap k. (if leb (length (wire 131)) cap then some (wire 131) else none, k);
  firmware_download = λ size sink k. sink (take size image) true k;
}

pub net_laws : NetLaws net same
net_laws = record {
  keeps_wifi = λ k. refl;
  keeps_register = λ k. refl;
  keeps_heartbeat = λ version applied healthy detail cap k. refl;
  keeps_upload = λ id body k. refl;
  keeps_fetch = λ cap k. refl;
  keeps_download = λ size sink h k. h (take size image) true k;
  fetch_fits = λ cap k buf h. fits (wire 131) cap buf h;
}

abbrev pub waiting : Book
waiting = record { applied = 3; pending = 5; failed = 0; attempted = some (codes "1.1") }

abbrev pub agent : Book → Agent Book
agent k = record { dev = k; state = online; has_on_state = true; calls = []; pinned = pinned }

abbrev pub setup : Setup Book
setup = record {
  psa_crypto_init = λ k. (true, k);
  provisioned = true;
  identity_exists = λ k. (false, k);
  identity_load = λ k. (none, k);
  identity_save = λ i k. (true, k);
  meshanics_enroll = λ k. (none, k);
  net_set_identity = λ i k. (true, k);
  http_listen = λ k. (true, k);
  http_serve_pending = λ k. (true, k);
  health = none;
  applog_snapshot = λ k. [];
}

pub verifies : md_verify toy_verify pinned (wire 131) (length (wire 131)) ≡ done update
unfolding md_verify decode_signed decode_manifest signed_field manifest_field set_signed set_number
    set_bytes check_envelope validate_manifest is_lower_hex64 md_ed25519_verify read_varint
    read_varint_loop add_group skip_scalar read_len_delimited slice fields_loop
verifies = refl
