-- ===== src/Manifest/Verify.antt =====
-- is_lower_hex64, validate_manifest, md_verify and md_check_rollback of
-- lib/verify/manifest_verify.c, and md_ed25519_verify of lib/verify/ed25519_fiat.c. The Ed25519
-- primitive of the vendored library, ED25519_verify, is a parameter.
pub mod Safety
pub mod Accepts
pub mod Sample
mod Tests
use mcu_sdk.Base.{
  ℕ, ◌+◌, Bytes, Outcome, done, failed, ◌>>=◌, ◌>>◌, fail_if, ltb, leb, ◌==◌, if◌then◌else◌, Bool,
  true, false, not, ◌&&◌, ◌||◌, List, [], ◌∷◌, ◌++◌, length, bytes_eq, codes,
}
use mcu_sdk.Manifest.Types.{
  MdError, err_alg, err_sig_size, err_empty_manifest, err_manifest_too_big, err_key_id,
  err_signature, err_schema, err_field, PinnedKey, Manifest, Signed, sign_context, schema_version,
  max_manifest,
}
use mcu_sdk.Manifest.Decode.{decode_signed, decode_manifest}

abbrev pub is_lower_hex : ℕ → Bool
is_lower_hex c = (leb b'0' c && leb c b'9') || (leb b'a' c && leb c b'f')

-- The loop of is_lower_hex64.
unfoldable pub all_lower_hex : Bytes → Bool
all_lower_hex [] = true
all_lower_hex (c ∷ s) = if not (is_lower_hex c) then false else all_lower_hex s

unfoldable pub is_lower_hex64 : Bytes → Bool
unfolding all_lower_hex
is_lower_hex64 s = if not (length s == 64) then false else all_lower_hex s

unfoldable pub validate_manifest : Manifest → Outcome MdError (Unit {0})
validate_manifest m = do
  fail_if (not (m.schema_version == schema_version)) err_schema
  fail_if (length m.tenant_id == 0) err_field
  fail_if (length m.artifact_name == 0) err_field
  fail_if (length m.artifact_version == 0) err_field
  fail_if (not (is_lower_hex64 m.sha256)) err_field
  fail_if (m.size_bytes == 0) err_field
  fail_if (length m.target_profile == 0) err_field
  done tt

-- Returns 1 iff the counter of the manifest is above the last one applied.
unfoldable pub check_rollback : ℕ → ℕ → Bool
check_rollback last_applied incoming = ltb last_applied incoming

-- The checks of md_verify between the two decoders, in the code's order.
unfoldable pub check_envelope : PinnedKey → Signed → Outcome MdError (Unit {0})
check_envelope key s = do
  fail_if (not (length s.alg == 7) || not (bytes_eq s.alg (codes "ed25519"))) err_alg
  fail_if (not (length s.sig == 64)) err_sig_size
  fail_if (length s.manifest == 0) err_empty_manifest
  fail_if (ltb max_manifest (length s.manifest)) err_manifest_too_big
  fail_if (not (length s.key_id == length key.key_id) || not (bytes_eq s.key_id key.key_id))
      err_key_id
  done tt

-- ED25519_verify(message, signature, public_key); 1 is a valid signature.
module _ (ed25519_verify : Bytes → Bytes → Bytes → ℕ) where
  unfoldable pub md_ed25519_verify : Bytes → Bytes → Bytes → Bool
  md_ed25519_verify public msg sig = ed25519_verify msg sig public == 1

  -- `done m` is MD_OK with `*out = m`.
  unfoldable pub md_verify : PinnedKey → Bytes → ℕ → Outcome MdError Manifest
  md_verify key buf len = do
    s ← decode_signed buf len
    check_envelope key s
    let preimage = sign_context ++ s.manifest
    fail_if (not (md_ed25519_verify key.pub_key preimage s.sig)) err_signature
    m ← decode_manifest s.manifest (length s.manifest)
    validate_manifest m
    done m
