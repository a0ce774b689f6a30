-- ===== src/Net/Socket.antt =====
-- What lib/plat/plat_net.c takes from Zephyr's sockets, and its version.
use mcu_sdk.Base.{ℕ, ◌≤◌, ◌≡◌, Bool, Option, some, codes, Bytes, length}

-- One TLS connection on a device with the states `D`; a flag is `true` unless the result is negative.
pub record Socket (D : Type 0) : Type 0 where
  pub connect : ℕ → D → Bool × D
  -- a request that fits one send
  pub send : Bytes → D → Bool × D
  -- the number of bytes that were sent, 0 for an error
  pub send_some : Bytes → D → ℕ × D
  -- up to so many bytes; `none` is an error, and no byte the end
  pub recv : ℕ → D → Option Bytes × D
  pub close : D → D

-- A recv keeps to its buffer.
pub record SocketLaws {D : Type 0} (sock : Socket D) : Type 0 where
  pub recv_fits : (n : ℕ) (d : D) (s : Bytes) → (sock.recv n d).0 ≡ some s → length s ≤ n

-- SDK_AGENT_VERSION
abbrev pub sdk_agent_version : Bytes
sdk_agent_version = codes "meshanics-mcu-0.1.0"
