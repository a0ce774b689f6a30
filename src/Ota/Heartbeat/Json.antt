-- ===== src/Ota/Heartbeat/Json.antt =====
-- What a JSON reader finds in the body that ota_heartbeat_json of lib/ota/ota.c writes.
use mcu_sdk.Base.{
  ℕ, ◌≡◌, refl, arith, Bool, true, false, Option, none, some, Bytes, List, [], ◌∷◌, ◌++◌, All,
  codes, ltb, ◌==◌, ◌||◌, if◌then◌else◌,
}
use mcu_sdk.Base.Decimal.{decimal, IsDigit}
use mcu_sdk.Ota.Heartbeat.{sanitise}

-- The text outside the strings, and the strings in their order.
abbrev Found : Type 0
Found = Option (Bytes × List Bytes)

abbrev outside : ℕ → Found → Found
outside c none = none
outside c (some (text, strings)) = some (c ∷ text, strings)

abbrev string : Bytes → Found → Found
string s none = none
string s (some (text, strings)) = some (text, s ∷ strings)

-- A reader of JSON without escapes: within a string it keeps what it has read of it. It refuses a
-- backslash or a control character in a string, and a string that does not end.
unfoldable pub read_json : Option Bytes → Bytes → Found
read_json none [] = some ([], [])
read_json (some read) [] = none
read_json none (c ∷ s) = elim (c == b'"') [
  | true ↦ read_json (some []) s
  | false ↦ outside c (read_json none s)
]
read_json (some read) (c ∷ s) = elim (c == b'"') [
  | true ↦ string read (read_json none s)
  | false ↦ elim (c == b'\\' || ltb c 0x20) [
    | true ↦ none
    | false ↦ read_json (some (read ++ (c ∷ []))) s
  ]
]

beside : Bytes → Found → Found
beside [] r = r
beside (c ∷ s) r = outside c (beside s r)

read_digits : (s t : Bytes) → All IsDigit s → read_json none (s ++ t) ≡ beside s (read_json none t)
unfolding read_json beside
read_digits [] t h = refl
read_digits (c ∷ s) t (d, h) =
    let other : (c == b'"') ≡ false = ground arith in rw (read_json, other, read_digits s t h) refl

module _ (char_signed : Bool) where
  -- The text and the strings of the probe, with those before it.
  unfoldable pub probe_text : Bool → Bytes
  probe_text healthy =
      codes ",:{:" ++ ((if healthy then codes "true" else codes "false") ++ codes ",:}}")

  unfoldable pub probe_strings : Option Bytes → List Bytes
  probe_strings detail =
      codes "probe" ∷ codes "healthy" ∷ codes "detail" ∷ sanitise char_signed 64 detail ∷ []

  -- The same of a version that was reverted; an empty one is none.
  unfoldable pub reverted_text : Option Bytes → Bytes
  reverted_text none = []
  reverted_text (some []) = []
  reverted_text (some (c ∷ s)) = codes ",:"

  unfoldable pub reverted_strings : Option Bytes → List Bytes
  reverted_strings none = []
  reverted_strings (some []) = []
  reverted_strings (some (c ∷ s)) =
      codes "reverted_version" ∷ sanitise char_signed 32 (some (c ∷ s)) ∷ []

  -- What a reader is to find in a heartbeat.
  unfoldable pub beat_text : ℕ → Bool → Option Bytes → Bytes
  beat_text counter healthy reverted =
      codes "{:,:,:" ++ (decimal counter ++ (reverted_text reverted ++ probe_text healthy))

  unfoldable pub beat_strings : Bytes → Bytes → Option Bytes → Option Bytes → List Bytes
  beat_strings agent applied detail reverted =
      codes "agent_version"
      ∷ agent
      ∷ codes "applied_version"
      ∷ applied
      ∷ codes "applied_counter"
      ∷ (reverted_strings reverted ++ probe_strings detail)
