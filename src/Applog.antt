-- ===== src/Applog.antt =====
-- lib/applog/applog.c: the ring buffer that keeps the agent's latest log bytes. Both operations hold
-- the ring's spinlock throughout, so each is one step; and so is a call of the log backend. Zephyr's formatting is a parameter: the pieces that it hands on.
pub mod Refine
pub mod Backend
mod Tests
use mcu_sdk.Base.{
  ℕ, zero, suc, ◌+◌, ◌-◌, ◌%◌, Bytes, List, [], ◌∷◌, set, get_or, replicate, ltb, leb, ◌==◌,
  if◌then◌else◌, Out, null, room,
}

pub record Ring : Type 0 where
  pub ring : Bytes
  pub head : ℕ
  pub len : ℕ

-- What Zephyr's log core calls: the fields of struct log_backend_api.
pub data BackendCall : Type 0 where
  process : List Bytes → BackendCall
  init panic : BackendCall
  dropped : ℕ → BackendCall

-- `size` is RING_SIZE, CONFIG_MESHANICS_LOG_BUF_SIZE.
module _ (size : ℕ) where
  -- The static initial values.
  unfoldable pub empty : Ring
  empty = record { ring = replicate size 0; head = 0; len = 0 }

  -- The body of the loop of ring_put.
  unfoldable pub put_byte : Ring → ℕ → Ring
  put_byte r b = record {
    ring = set r.ring r.head b;
    head = (r.head + 1) % size;
    len = if ltb r.len size then r.len + 1 else r.len;
  }

  unfoldable pub ring_put : Ring → Bytes → Ring
  unfolding put_byte
  ring_put r [] = r
  ring_put r (b ∷ s) = ring_put (put_byte r b) s

  -- out_write forwards the bytes and answers their number, which log_output ignores.
  unfoldable pub out_write : Ring → Bytes → Ring
  unfolding ring_put
  out_write r s = ring_put r s

  -- A message, as the pieces in which log_output_msg_process hands its text to out_write.
  unfoldable pub applog_process : Ring → List Bytes → Ring
  unfolding out_write
  applog_process r [] = r
  applog_process r (s ∷ ss) = applog_process (out_write r s) ss

  unfoldable pub applog_init : Ring → Ring
  applog_init r = r

  unfoldable pub applog_panic : Ring → Ring
  applog_panic r = r

  unfoldable pub applog_dropped : Ring → ℕ → Ring
  applog_dropped r cnt = r

  -- The copying loop of applog_snapshot, from `i` on for the rounds that are left.
  copy : Bytes → ℕ → ℕ → ℕ → Bytes
  copy ring start zero i = []
  copy ring start (suc n) i = get_or ring ((start + i) % size) 0 ∷ copy ring start n (i + 1)

  -- The bytes that applog_snapshot writes before the NUL; their number is its result.
  unfoldable pub snapshot : Ring → Out → Bytes
  unfolding copy
  snapshot r null = []
  snapshot r (room cap) =
      if cap == 0
      then []
      else (let n = if ltb (cap - 1) r.len then cap - 1 else r.len in
          let start = (r.head + size - n) % size in copy r.ring start n 0)

  -- applog_api
  unfoldable pub applog_api : BackendCall → Ring → Ring
  unfolding applog_process applog_init applog_panic applog_dropped
  applog_api (process pieces) r = applog_process r pieces
  applog_api init r = applog_init r
  applog_api panic r = applog_panic r
  applog_api (dropped cnt) r = applog_dropped r cnt
