-- ===== src/Manifest/Verify/Accepts.antt =====
-- Exactly which messages md_verify accepts.
use mcu_sdk.Base.{
  ℕ, ◌≤◌, ◌<◌, arith, Bytes, length, Outcome, done, failed, ◌>>=◌, ◌≡◌, ◌↔◌, ◌⊎◌, All, codes, ◌++◌,
  [], ◌∷◌, true, false, refl, ◌≢◌, subst, ne→==false, fault, stuck, fail_if, ◌>>◌, Bool, ◌==◌, ap,
  bytes_eq_sound, bytes_eq_refl, not,
}
use mcu_sdk.Manifest.Types.{PinnedKey, Manifest, Signed, sign_context, err_signature}
use mcu_sdk.Manifest.Decode.{decode_signed, decode_manifest}
use mcu_sdk.Manifest.Verify.{
  is_lower_hex64, all_lower_hex, check_envelope, validate_manifest, md_verify, md_ed25519_verify,
}

-- A lower-case hexadecimal digit.
abbrev pub IsLowerHex : ℕ → Type 0
IsLowerHex c = ((b'0' ≤ c) × (c ≤ b'9')) ⊎ ((b'a' ≤ c) × (c ≤ b'f'))

all_lower_hex-All : (s : Bytes) → all_lower_hex s ≡ true → All IsLowerHex s
unfolding all_lower_hex
all_lower_hex-All [] h = tt
all_lower_hex-All (c ∷ s) h = (ground arith, all_lower_hex-All s (ground arith))

All-all_lower_hex : (s : Bytes) → All IsLowerHex s → all_lower_hex s ≡ true
unfolding all_lower_hex
All-all_lower_hex [] h = refl
All-all_lower_hex (c ∷ s) (h, k) = ground (arith, All-all_lower_hex s k)

pub record IsValidManifest (m : Manifest) : Type 0 where
  pub schema : m.schema_version ≡ 1
  pub tenant : 0 < length m.tenant_id
  pub name : 0 < length m.artifact_name
  pub version : 0 < length m.artifact_version
  pub digest_length : length m.sha256 ≡ 64
  pub digest_hex : All IsLowerHex m.sha256
  pub size : 0 < m.size_bytes
  pub profile : 0 < length m.target_profile

-- The Boolean part of the checks, with the digest's digits as one test.
validate_tests :
    (m : Manifest)
    → validate_manifest m ≡ done tt
    → (m.schema_version ≡ 1)
      × (0 < length m.tenant_id)
      × (0 < length m.artifact_name)
      × (0 < length m.artifact_version)
      × (length m.sha256 ≡ 64)
      × (all_lower_hex m.sha256 ≡ true)
      × (0 < m.size_bytes)
      × (0 < length m.target_profile)
unfolding validate_manifest is_lower_hex64
validate_tests m h = ground arith

validate_manifest-IsValidManifest :
    (m : Manifest) → validate_manifest m ≡ done tt → IsValidManifest m
validate_manifest-IsValidManifest m h =
    let (a, b, c, d, e, f, g, i) = validate_tests m h in
    record {
      schema = a;
      tenant = b;
      name = c;
      version = d;
      digest_length = e;
      digest_hex = all_lower_hex-All _ f;
      size = g;
      profile = i;
    }

IsValidManifest-validate_manifest :
    (m : Manifest) → IsValidManifest m → validate_manifest m ≡ done tt
unfolding validate_manifest is_lower_hex64
IsValidManifest-validate_manifest m v = ground (arith, All-all_lower_hex m.sha256 v.digest_hex)

-- What the outer message must say for the key that the device has pinned.
pub record IsEnvelopeFor (key : PinnedKey) (s : Signed) : Type 0 where
  pub algorithm : s.alg ≡ codes "ed25519"
  pub sig_size : length s.sig ≡ 64
  pub not_empty : 0 < length s.manifest
  pub not_big : length s.manifest ≤ 512
  pub key_named : s.key_id ≡ key.key_id

check_envelope-IsEnvelopeFor :
    (key : PinnedKey) (s : Signed) → check_envelope key s ≡ done tt → IsEnvelopeFor key s
unfolding check_envelope
check_envelope-IsEnvelopeFor key s h = record {
  algorithm = bytes_eq_sound s.alg (codes "ed25519") (ground arith);
  sig_size = ground arith;
  not_empty = ground arith;
  not_big = ground arith;
  key_named = bytes_eq_sound s.key_id key.key_id (ground arith);
}

IsEnvelopeFor-check_envelope :
    (key : PinnedKey) (s : Signed) → IsEnvelopeFor key s → check_envelope key s ≡ done tt
unfolding check_envelope
IsEnvelopeFor-check_envelope key s v = ground (
  arith,
  v.algorithm,
  v.key_named,
  bytes_eq_refl (codes "ed25519"),
  bytes_eq_refl key.key_id,
  ap length v.algorithm,
)

>>=-eq-done :
    {E A B : Type 0} (x : Outcome E A) (f : A → Outcome E B) {b : B}
    → (x >>= f) ≡ done b
    → (a : A) × (x ≡ done a) × (f a ≡ done b)
>>=-eq-done (done a) f h = (a, refl, h)
>>=-eq-done (failed e) f h = cc
>>=-eq-done fault f h = cc
>>=-eq-done stuck f h = cc

fail_if-eq-done :
    {E B : Type 0} (t : Bool) (e : E) (k : Outcome E B) {b : B}
    → (fail_if t e >> k) ≡ done b
    → (t ≡ false) × (k ≡ done b)
fail_if-eq-done true e k h = cc
fail_if-eq-done false e k h = (refl, h)

module _ (ed25519_verify : Bytes → Bytes → Bytes → ℕ) (key : PinnedKey) where
  -- The parts `s` of a message that make it an update with the manifest `m`.
  pub record Authorises (s : Signed) (m : Manifest) : Type 0 where
    pub envelope : IsEnvelopeFor key s
    pub signature : ed25519_verify (sign_context ++ s.manifest) s.sig key.pub_key ≡ 1
    pub decodes : decode_manifest s.manifest (length s.manifest) ≡ done m
    pub valid : IsValidManifest m

  accepted :
      (buf : Bytes) (len : ℕ) (m : Manifest)
      → md_verify ed25519_verify key buf len ≡ done m
      → (s : Signed) × (decode_signed buf len ≡ done s) × Authorises s m
  unfolding md_verify md_ed25519_verify
  accepted buf len m h =
      let (s, e1, h1) = >>=-eq-done (decode_signed buf len) _ h in
      let (u, e2, h2) = >>=-eq-done (check_envelope key s) _ h1 in
      let (good, h3) =
        fail_if-eq-done (not (ed25519_verify (sign_context ++ s.manifest) s.sig key.pub_key == 1))
          err_signature _ h2 in
      let (m', e4, h4) = >>=-eq-done (decode_manifest s.manifest (length s.manifest)) _ h3 in
      let (v, e5, h5) = >>=-eq-done (validate_manifest m') _ h4 in
      let same : m' ≡ m = cc in
      (
        s,
        e1,
        record {
          envelope = check_envelope-IsEnvelopeFor key s e2;
          signature = ground arith;
          decodes = subst (λ x. decode_manifest s.manifest (length s.manifest) ≡ done x) same e4;
          valid = subst IsValidManifest same (validate_manifest-IsValidManifest m' e5);
        },
      )

  accepts :
      (buf : Bytes) (len : ℕ) (m : Manifest) (s : Signed)
      → decode_signed buf len ≡ done s
      → Authorises s m
      → md_verify ed25519_verify key buf len ≡ done m
  unfolding md_verify md_ed25519_verify
  accepts buf len m s e v =
      rw
        (
          e,
          IsEnvelopeFor-check_envelope key s v.envelope,
          v.signature,
          v.decodes,
          IsValidManifest-validate_manifest m v.valid,
        )
        refl

  -- md_verify accepts a message with the manifest `m` exactly when the outer message decodes, names
  -- the algorithm and the pinned key, has a signature of 64 bytes that the primitive accepts over
  -- the context and the manifest's bytes, and those 1 to 512 bytes decode to `m`, which is valid.
  pub md_verify-accepts :
      (buf : Bytes) (len : ℕ) (m : Manifest)
      → (md_verify ed25519_verify key buf len ≡ done m)
        ↔ ((s : Signed) × (decode_signed buf len ≡ done s) × Authorises s m)
  md_verify-accepts buf len m = (accepted buf len m, λ (s, e, v). accepts buf len m s e v)

  -- Where all checks before it pass and the primitive does not accept the signature, md_verify
  -- answers MD_ERR_SIGNATURE, whatever the bytes of the manifest are.
  pub md_verify-forged :
      (buf : Bytes) (len : ℕ) (s : Signed)
      → decode_signed buf len ≡ done s
      → IsEnvelopeFor key s
      → ed25519_verify (sign_context ++ s.manifest) s.sig key.pub_key ≢ 1
      → md_verify ed25519_verify key buf len ≡ failed err_signature
  unfolding md_verify md_ed25519_verify
  md_verify-forged buf len s e v bad =
      rw (e, IsEnvelopeFor-check_envelope key s v, ne→==false _ _ bad)
