-- ===== src/Ota/Heartbeat.antt =====
-- sanitise and ota_heartbeat_json of lib/ota/ota.c. Whether `char` is signed is the platform's; it
-- decides what `c < 0x20` says of a byte above 127, and is a parameter.
pub mod Json
use mcu_sdk.Base.{
  refl, ap, take, sub_size, sub_size_le, Bool-cases, size_mod, ◌<◌, ℕ, zero, suc, ◌+◌, ◌-◌, ◌≤◌,
  ◌≡◌, ◌≢◌, inl, inr, Bool, true, false, ◌||◌, Option, none, some, [], ◌∷◌, ◌++◌, arith, Bytes, Out,
  null, room, codes, length, All, ltb, leb, ◌==◌, if◌then◌else◌, min,
}
use mcu_sdk.Base.Decimal.{decimal}

-- A byte that may stand in a JSON string as it is.
abbrev pub IsPlain : ℕ → Type 0
IsPlain c = (c ≢ b'"') × (c ≢ b'\\') × (0x20 ≤ c)

-- A text and what a cleaning may make of it.
pub data Cleaned : Bytes → Bytes → Type 0 where
  ends : Cleaned [] []
  keeps : {c : ℕ} {s t : Bytes} → IsPlain c → Cleaned s t → Cleaned (c ∷ s) (c ∷ t)
  blanks :
      {c : ℕ} {s t : Bytes} → ¬ (IsPlain c × (c < 128)) → Cleaned s t → Cleaned (c ∷ s) (b' ' ∷ t)

module _ (char_signed : Bool) where
  is_unsafe : ℕ → Bool
  is_unsafe c =
      c == b'"' || c == b'\\' || (if char_signed then ltb c 0x20 || leb 128 c else ltb c 0x20)

  -- The loop of sanitise; the number is `cap - 1 - i`.
  sanitise_loop : ℕ → Bytes → Bytes
  sanitise_loop zero s = []
  sanitise_loop (suc n) [] = []
  sanitise_loop (suc n) (c ∷ s) = (if is_unsafe c then b' ' else c) ∷ sanitise_loop n s

  -- What is written before the NUL; a NULL `s` is `none`.
  unfoldable pub sanitise : ℕ → Option Bytes → Bytes
  unfolding is_unsafe sanitise_loop
  sanitise cap none = []
  sanitise cap (some s) = sanitise_loop (sub_size cap 1) s

  sanitise_loop-All : (n : ℕ) (s : Bytes) → All IsPlain (sanitise_loop n s)
  unfolding sanitise_loop is_unsafe
  sanitise_loop-All zero s = tt
  sanitise_loop-All (suc n) [] = tt
  sanitise_loop-All (suc n) (c ∷ s) = (ground arith, sanitise_loop-All n s)

  length-sanitise_loop : (n : ℕ) (s : Bytes) → length (sanitise_loop n s) ≡ min n (length s)
  unfolding sanitise_loop
  length-sanitise_loop zero s = omega arith
  length-sanitise_loop (suc n) [] = omega arith
  length-sanitise_loop (suc n) (c ∷ s) = omega (arith, length-sanitise_loop n s)

  sanitise_loop-Cleaned : (n : ℕ) (s : Bytes) → Cleaned (take n s) (sanitise_loop n s)
  unfolding sanitise_loop is_unsafe
  sanitise_loop-Cleaned zero s = ends
  sanitise_loop-Cleaned (suc n) [] = ends
  sanitise_loop-Cleaned (suc n) (c ∷ s) =
      let rest = sanitise_loop-Cleaned n s in
      elim (Bool-cases (is_unsafe c)) [
        | inl bad ↦ rw (bad) (blanks (λ (p, q). absurd (ground arith)) rest)
        | inr good ↦ rw (good) (keeps (ground arith) rest)
      ]

  -- For a buffer of at least one byte whose size is a size_t: what sanitise writes is as much of the string as leaves room for
  -- the NUL, character by character, each one either kept or, where it cannot stand in a JSON string
  -- or is not ASCII, replaced by a space; and all of it may stand in a JSON string.
  pub sanitise-All :
      (cap : ℕ) (s : Bytes)
      → 0 < cap
      → cap < size_mod
      → Cleaned (take (cap - 1) s) (sanitise cap (some s))
        × All IsPlain (sanitise cap (some s))
        × (length (sanitise cap (some s)) ≡ min (cap - 1) (length s))
        × (length (sanitise cap (some s)) < cap)
  unfolding sanitise
  sanitise-All cap s some_room small =
      let k = length-sanitise_loop (cap - 1) s in
      rw (sub_size_le cap 1 (omega arith) small)
        (sanitise_loop-Cleaned (cap - 1) s, sanitise_loop-All (cap - 1) s, k, omega (arith, k))

  -- `if (x == NULL) x = "";`
  abbrev pub or_empty : Option Bytes → Bytes
  or_empty none = []
  or_empty (some s) = s

  abbrev pub healthy_text : Bool → Bytes
  healthy_text true = codes "true"
  healthy_text false = codes "false"

  -- `reverted_version != NULL && reverted_version[0] != '\0'`
  abbrev pub reverted_part : Option Bytes → Bytes
  reverted_part none = []
  reverted_part (some []) = []
  reverted_part (some (c ∷ s)) =
      codes ",\"reverted_version\":\"" ++ (sanitise 32 (some (c ∷ s)) ++ codes "\"")

  -- The text of both calls of snprintf, which differ by that part.
  unfoldable pub heartbeat_text : Bytes → Bytes → ℕ → Bool → Option Bytes → Option Bytes → Bytes
  heartbeat_text agent_version applied_version applied_counter healthy detail reverted =
      codes "{\"agent_version\":\""
      ++ (agent_version
          ++ (codes "\",\"applied_version\":\""
              ++ (applied_version
                  ++ (codes "\",\"applied_counter\":"
                      ++ (decimal applied_counter
                          ++ (reverted_part reverted
                              ++ (codes ",\"probe\":{\"healthy\":"
                                  ++ (healthy_text healthy
                                      ++ (codes ",\"detail\":\""
                                          ++ (sanitise 64 detail ++ codes "\"}}"))))))))))

  -- The body that is written, or `none` for -1. snprintf counts the whole text.
  unfoldable pub heartbeat_json :
      Out → Option Bytes → Option Bytes → ℕ → Bool → Option Bytes → Option Bytes → Option Bytes
  heartbeat_json null agent applied counter healthy detail reverted = none
  heartbeat_json (room cap) agent applied counter healthy detail reverted =
      let text =
        heartbeat_text (or_empty agent) (or_empty applied) counter healthy detail reverted in
      if cap == 0 then none else if leb cap (length text) then none else some text
