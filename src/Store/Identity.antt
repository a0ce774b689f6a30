-- ===== src/Store/Identity.antt =====
-- lib/provision/identity.c: the enrolled identity, four records on the shared store.
pub mod RoundTrip
pub mod Keeps
use mcu_sdk.Base.{
  ℕ, ◌-◌, Bool, true, false, not, Option, none, some, Bytes, c_string, ◌==◌, if◌then◌else◌,
}
use mcu_sdk.Store.Device.{Nvs}
use mcu_sdk.Store.{Store, store_read, store_write, store_exists}
use mcu_sdk.Store.Counter.{string_of}

-- meshanics_identity of identity.h, a char array as the C string in it.
pub record Identity : Type 0 where
  pub device_cert_pem : Bytes
  pub device_key_pem : Bytes
  pub manifest_pub : Bytes
  pub key_id : Bytes

abbrev pub cert_cap : ℕ
cert_cap = 1024

abbrev pub key_cap : ℕ
key_cap = 512

abbrev pub pub_cap : ℕ
pub_cap = 32

abbrev pub key_id_cap : ℕ
key_id_cap = 80

abbrev pub id_cert : ℕ
id_cert = 10

abbrev pub id_key : ℕ
id_key = 11

abbrev pub id_pub : ℕ
id_pub = 12

abbrev pub id_key_id : ℕ
id_key_id = 13

-- `a() && b()`, and `if (a() != 0) return -1; b()`.
abbrev pub and_then : {S : Type 0} → Bool × S → (S → Bool × S) → Bool × S
and_then (true, s) f = f s
and_then (false, s) f = (false, s)

-- A call that gives a value, or makes the function return -1.
abbrev pub with_value : {A B S : Type 0} → Option A × S → (A → S → Option B × S) → Option B × S
with_value (none, s) f = (none, s)
with_value (some a, s) f = f a s

module _ (n : Nvs) where
  unfoldable pub identity_exists : Store n → Bool × Store n
  identity_exists s = and_then (store_exists n id_cert s) (λ s1.
      and_then (store_exists n id_key s1)
        (λ s2. and_then (store_exists n id_pub s2) (λ s3. store_exists n id_key_id s3)))

  unfoldable pub load_str : ℕ → ℕ → Store n → Option Bytes × Store n
  unfolding string_of
  load_str id cap s = let (r, s') = store_read n id (cap - 1) s in (string_of cap r, s')

  -- A read of exactly the size of the key.
  whole_key : Option (ℕ × Bytes) → Option Bytes
  whole_key none = none
  whole_key (some (k, b)) = if k == pub_cap then some b else none

  unfoldable pub load_pub : Store n → Option Bytes × Store n
  unfolding whole_key
  load_pub s = let (r, s') = store_read n id_pub pub_cap s in (whole_key r, s')

  unfoldable pub identity_load : Store n → Option Identity × Store n
  unfolding load_str load_pub
  identity_load s = with_value (load_str id_cert cert_cap s) (λ cert s1.
      with_value (load_str id_key key_cap s1) (λ key s2.
        with_value (load_str id_key_id key_id_cap s2) (λ key_id s3.
          with_value (load_pub s3) (λ manifest_pub s4. (
            some (record {
              device_cert_pem = c_string cert;
              device_key_pem = c_string key;
              manifest_pub = manifest_pub;
              key_id = c_string key_id;
            }),
            s4,
          )))))

  unfoldable pub identity_save : Identity → Store n → Bool × Store n
  identity_save id s = and_then (store_write n id_cert id.device_cert_pem s) (λ s1.
      and_then (store_write n id_key id.device_key_pem s1) (λ s2.
        and_then (store_write n id_key_id id.key_id s2)
          (λ s3. store_write n id_pub id.manifest_pub s3)))
