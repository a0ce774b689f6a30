-- ===== src/Manifest.antt =====
-- lib/verify/manifest_verify.c and manifest_verify.h above the primitives: the two decoders, the
-- field checks and md_verify, with lib/verify/ed25519_fiat.c.
pub mod Types
pub mod Decode
pub mod Verify
