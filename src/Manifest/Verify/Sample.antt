-- ===== src/Manifest/Verify/Sample.antt =====
-- One update: its manifest, the message that carries it, and a stand-in for Ed25519.
use mcu_sdk.Base.{
  ℕ, ◌%◌, Bytes, List, [], ◌∷◌, length, codes, if◌then◌else◌, ◌==◌, get_or, replicate, pos,
}
use mcu_sdk.Manifest.Types.{PinnedKey, Manifest, Signed}
use mcu_sdk.Manifest.Decode.Fields.{Field, number, fixed32, block, message}

abbrev pub digest : Bytes
digest = codes "0123456789abcdef0123456789abcdef0123456789abcdef0123456789abcdef"

abbrev pub text : ℕ → Bytes → Field
text tag p = block (tag ∷ []) (length p ∷ []) p

-- Field 8 is there twice, and the last one counts; field 15 is unknown.
abbrev pub inner : List Field
inner =
    number (0x08 ∷ []) (1 ∷ [])
    ∷ text 0x12 (codes "acme")
    ∷ text 0x1a (codes "fw")
    ∷ text 0x22 (codes "1.2")
    ∷ text 0x2a digest
    ∷ number (0x30 ∷ []) (0xac ∷ 0x02 ∷ [])
    ∷ text 0x3a (codes "esp32")
    ∷ number (0x40 ∷ []) (3 ∷ [])
    ∷ number (0x40 ∷ []) (7 ∷ [])
    ∷ fixed32 (0x7d ∷ []) (1 ∷ 2 ∷ 3 ∷ 4 ∷ [])
    ∷ []

abbrev pub update : Manifest
update = record {
  schema_version = 1;
  tenant_id = codes "acme";
  artifact_name = codes "fw";
  artifact_version = codes "1.2";
  sha256 = digest;
  size_bytes = 300;
  target_profile = codes "esp32";
  rollback_counter = 7;
  issued_at_unix = pos 0;
}

-- Stands for Ed25519: the first byte of a signature counts the message.
abbrev pub toy_verify : Bytes → Bytes → Bytes → ℕ
toy_verify msg sig public = if get_or sig 0 0 == length msg % 256 then 1 else 0

abbrev pub pinned : PinnedKey
pinned = record { pub_key = replicate 32 9; key_id = codes "k1" }

abbrev pub envelope : ℕ → List Field
envelope mark =
    block (0x0a ∷ []) (length (message inner) ∷ []) (message inner)
    ∷ text 0x12 (codes "k1")
    ∷ text 0x1a (codes "ed25519")
    ∷ text 0x22 (mark ∷ replicate 63 0)
    ∷ []

abbrev pub wire : ℕ → Bytes
wire mark = message (envelope mark)

abbrev pub parts : ℕ → Signed
parts mark = record {
  manifest = message inner;
  key_id = codes "k1";
  alg = codes "ed25519";
  sig = mark ∷ replicate 63 0;
}
