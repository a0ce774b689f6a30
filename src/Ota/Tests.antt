-- ===== src/Ota/Tests.antt =====
-- Concrete runs of the OTA logic, and the theorems at concrete inputs.
use mcu_sdk.Base.{
  ◌≡◌, ◌<◌, refl, arith, Bytes, [], length, codes, some, none, true, false, room, All,
}
use mcu_sdk.Base.Decimal.{decimal, read_digits}
use mcu_sdk.Ota.Range.{
  parse_content_range, range_text, parse_content_range-digits, parse_content_range-decimal,
}
use mcu_sdk.Ota.Boot.{plan_boot, IsSafePlan, plan_boot-IsSafePlan}
use mcu_sdk.Ota.Heartbeat.{sanitise, sanitise-All, IsPlain, Cleaned, heartbeat_text, heartbeat_json}

parses : parse_content_range (some (codes "\t bytes  0-1023/2048\r\n")) ≡ some (0, 1023, 2048)
unfolding parse_content_range
parses = refl

refuses : parse_content_range (some (codes "bytes 5-4/9")) ≡ none
unfolding parse_content_range
refuses = refl

-- A total of 2^64 + 10 is read as 10.
parse_content_range-digits_example :
    parse_content_range
      (some (range_text (codes "0") (codes "9") (codes "18446744073709551626") []))
    ≡ some (0, 9, 10)
unfolding read_digits
parse_content_range-digits_example =
    parse_content_range-digits (codes "0") (codes "9") (codes "18446744073709551626") []
      (omega arith) (omega arith) tt

parse_content_range-decimal_example :
    parse_content_range
      (some (range_text (decimal 512) (decimal 1023) (decimal 2048) (codes "\r\n")))
    ≡ some (512, 1023, 2048)
parse_content_range-decimal_example =
    parse_content_range-decimal 512 1023 2048 (codes "\r\n") (omega arith) (omega arith)
      (omega arith) (grind arith)

plan_boot-IsSafePlan_example : IsSafePlan false 3 4 (plan_boot false 3 4)
plan_boot-IsSafePlan_example = plan_boot-IsSafePlan false 3 4

beats :
    heartbeat_json true
      (room 256)
      (some (codes "a"))
      none
      7
      true
      (some (codes "up \"x\"\n"))
      (some [])
    ≡ some (
        codes
          "{\"agent_version\":\"a\",\"applied_version\":\"\",\"applied_counter\":7,\"probe\":{\"healthy\":true,\"detail\":\"up  x  \"}}")
unfolding heartbeat_json heartbeat_text sanitise decimal
beats = refl

sanitise-All_example :
    Cleaned (codes "a\"b") (sanitise false 4 (some (codes "a\"bcd")))
    × All IsPlain (sanitise false 4 (some (codes "a\"bcd")))
    × (length (sanitise false 4 (some (codes "a\"bcd"))) ≡ 3)
    × (length (sanitise false 4 (some (codes "a\"bcd"))) < 4)
sanitise-All_example = sanitise-All false 4 (codes "a\"bcd") (omega arith) (omega arith)

abbrev reverted_beat : Bytes
reverted_beat =
    codes
      "{\"agent_version\":\"a\",\"applied_version\":\"1.0\",\"applied_counter\":7,\"reverted_version\":\"2 \",\"probe\":{\"healthy\":false,\"detail\":\" x\"}}"
