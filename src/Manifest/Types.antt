-- ===== src/Manifest/Types.antt =====
-- The types and constants of lib/verify/manifest_verify.h, and md_result_str.
use mcu_sdk.Base.{ℕ, Bytes, codes, ℤ, pos, []}

-- The codes other than MD_OK.
pub data MdError : Type 0 where
  err_decode err_alg err_sig_size err_empty_manifest err_manifest_too_big : MdError
  err_key_id err_signature err_schema err_field : MdError

pub data MdResult : Type 0 where
  md_ok : MdResult
  md_err : MdError → MdResult

-- The pinned key: 32 raw bytes, and the key id as a C string.
pub record PinnedKey : Type 0 where
  pub pub_key : Bytes
  pub key_id : Bytes

-- A pointer into the caller's buffer with its length is the list of the bytes there.
pub record Manifest : Type 0 where
  pub schema_version : ℕ
  pub tenant_id : Bytes
  pub artifact_name : Bytes
  pub artifact_version : Bytes
  pub sha256 : Bytes
  pub size_bytes : ℕ
  pub target_profile : Bytes
  pub rollback_counter : ℕ
  pub issued_at_unix : ℤ

-- What decode_signed writes through its output pointers.
pub record Signed : Type 0 where
  pub manifest : Bytes
  pub key_id : Bytes
  pub alg : Bytes
  pub sig : Bytes

abbrev pub no_manifest : Manifest
no_manifest = record {
  schema_version = 0;
  tenant_id = [];
  artifact_name = [];
  artifact_version = [];
  sha256 = [];
  size_bytes = 0;
  target_profile = [];
  rollback_counter = 0;
  issued_at_unix = pos 0;
}

abbrev pub no_signed : Signed
no_signed = record { manifest = []; key_id = []; alg = []; sig = [] }

abbrev pub sign_context : Bytes
sign_context = codes "meshanics:device-manifest:v1\n"

abbrev pub schema_version : ℕ
schema_version = 1

abbrev pub max_manifest : ℕ
max_manifest = 512

unfoldable pub result_str : MdResult → Bytes
result_str md_ok = codes "ok"
result_str (md_err err_decode) = codes "decode"
result_str (md_err err_alg) = codes "alg"
result_str (md_err err_sig_size) = codes "sig_size"
result_str (md_err err_empty_manifest) = codes "empty_manifest"
result_str (md_err err_manifest_too_big) = codes "manifest_too_big"
result_str (md_err err_key_id) = codes "key_id"
result_str (md_err err_signature) = codes "signature"
result_str (md_err err_schema) = codes "schema"
result_str (md_err err_field) = codes "field"
