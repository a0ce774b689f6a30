-- ===== src/Manifest/Verify/Safety.antt =====
-- md_verify parses bytes that nobody has checked: it reads nothing outside them, and it ends.
use mcu_sdk.Base.{
  ℕ, ◌≤◌, ◌<◌, arith, Bytes, length, Returns, returns, size_mod, u64_mod, Returns-bind,
  Returns-fail_if, not, ◌++◌, ◌≢◌, fault, stuck, Returns-ne-fault, Returns-ne-stuck,
}
use mcu_sdk.Manifest.Types.{PinnedKey, Manifest, Signed, sign_context, err_signature}
use mcu_sdk.Manifest.Decode.Safety.{decode_signed_safe, decode_manifest_safe}
use mcu_sdk.Manifest.Verify.{check_envelope, validate_manifest, md_verify, md_ed25519_verify}

check_envelope_safe :
    (key : PinnedKey) (s : Signed) → Returns (λ u. Unit {0}) (check_envelope key s)
unfolding check_envelope
check_envelope_safe key s = search (Returns-fail_if, returns, tt) depth 12

validate_manifest_safe : (m : Manifest) → Returns (λ u. Unit {0}) (validate_manifest m)
unfolding validate_manifest
validate_manifest_safe m = search (Returns-fail_if, returns, tt) depth 12

module _ (ed25519_verify : Bytes → Bytes → Bytes → ℕ) where
  pub md_verify-Returns :
      (key : PinnedKey) (buf : Bytes) (len : ℕ)
      → len ≤ length buf
      → len < size_mod
      → Returns (λ m. m.rollback_counter < u64_mod) (md_verify ed25519_verify key buf len)
  unfolding md_verify
  md_verify-Returns key buf len inside small =
      Returns-bind (decode_signed_safe buf len inside small) λ s h.
        Returns-bind (check_envelope_safe key s) λ _ _.
          Returns-fail_if
            (not (md_ed25519_verify ed25519_verify key.pub_key (sign_context ++ s.manifest) s.sig))
            err_signature
            λ _.
              Returns-bind
                (decode_manifest_safe s.manifest (length s.manifest) (omega arith) (omega arith))
                λ m w. Returns-bind (validate_manifest_safe m) λ _ _. returns w

  -- On any `len` bytes whatever, md_verify reads nothing outside the buffer and comes to an end,
  -- with any signature primitive.
  pub md_verify_safe :
      (key : PinnedKey) (buf : Bytes) (len : ℕ)
      → len ≤ length buf
      → len < size_mod
      → (md_verify ed25519_verify key buf len ≢ fault)
        × (md_verify ed25519_verify key buf len ≢ stuck)
  md_verify_safe key buf len inside small = (
    Returns-ne-fault (md_verify-Returns key buf len inside small),
    Returns-ne-stuck (md_verify-Returns key buf len inside small),
  )
