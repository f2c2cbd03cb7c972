-- ===== src/Wstcp/Opcode.antt =====
-- src/wstcp/opcode.rs: the opcodes of WebSocket frames.
use electrs_cash.Common.{ℕ, Bool, true, false, ◌==◌, if◌then◌else◌}
use electrs_cash.Errors.{Result, ok, err, web_socket}

pub data Opcode : Type 0 where
  continuation_frame text_frame binary_frame connection_close ping pong : Opcode

-- `opcode as u8`.
unfoldable pub opcode_value : Opcode → ℕ
opcode_value continuation_frame = 0x0
opcode_value text_frame = 0x1
opcode_value binary_frame = 0x2
opcode_value connection_close = 0x8
opcode_value ping = 0x9
opcode_value pong = 0xA

unfoldable pub from_u8 : ℕ → Result Opcode
from_u8 n =
    if n == 0x0
    then ok continuation_frame
    else if n == 0x1
    then ok text_frame
    else if n == 0x2
    then ok binary_frame
    else if n == 0x8
    then ok connection_close
    else if n == 0x9
    then ok ping
    else if n == 0xA
    then ok pong
    else err web_socket

unfoldable pub is_control : Opcode → Bool
is_control connection_close = true
is_control ping = true
is_control pong = true
is_control _ = false
