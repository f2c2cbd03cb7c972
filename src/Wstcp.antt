-- ===== src/Wstcp.antt =====
-- src/wstcp: the WebSocket proxy in front of the RPC server.
pub mod Bits
pub mod Opcode
pub mod Header
pub mod Encoder
pub mod Payload
pub mod Trim
pub mod Lines
pub mod Unmask
pub mod Handshake
pub mod Closing
mod Tests
