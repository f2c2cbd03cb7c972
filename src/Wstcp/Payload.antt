-- ===== src/Wstcp/Payload.antt =====
-- src/wstcp/frame.rs: the payload decoder, and the frame decoder's handling of data that is decoded.
-- An error of bytecodec is the error `web_socket` that src/wstcp/util.rs converts it to.
use Prim.Native.Nat.{bit_xor, min}
use electrs_cash.Common.{
  ℕ, zero, suc, ◌+◌, ◌-◌, ◌%◌, Bool, true, false, not, ◌&&◌, ◌||◌, Option, none, some, List, [],
  ◌∷◌, ltb, ◌==◌, if◌then◌else◌, length, take, drop, replicate,
}
use electrs_cash.Errors.{Result, ok, err, web_socket, ◌>>=◌, ◌>>◌, assert}
use electrs_cash.Wstcp.Opcode.{Opcode, connection_close, ping, pong, is_control}
use electrs_cash.Wstcp.Header.{BigEndian, FrameHeader}
use electrs_cash.Wstcp.Encoder.{
  Frame, close_frame, ping_frame, pong_frame, data_frame, StreamState, normal, would_block, eos,
  IoResult, blocked, failed, got, write_at,
}

abbrev pub buf_size : ℕ
buf_size = 4096

pub record FramePayloadDecoder : Type 0 where
  pub buf : List ℕ
  pub buf_start : ℕ
  pub buf_end : ℕ
  pub payload_offset : ℕ
  pub mask_offset : ℕ
  pub header : Option FrameHeader

unfoldable pub default_decoder : FramePayloadDecoder
default_decoder = record {
  buf = replicate buf_size 0;
  buf_start = 0;
  buf_end = 0;
  payload_offset = 0;
  mask_offset = 0;
  header = none;
}

abbrev pub byte_at : List ℕ → ℕ → ℕ
byte_at [] i = 0
byte_at (b ∷ bs) zero = b
byte_at (b ∷ bs) (suc i) = byte_at bs i

-- The loop over the bytes just copied: each is xored with the mask byte at `offset`, which goes
-- round modulo 4.
unfoldable pub unmask : List ℕ → ℕ → List ℕ → List ℕ
unmask mask offset [] = []
unmask mask offset (b ∷ bs) = bit_xor b (byte_at mask offset) ∷ unmask mask ((offset + 1) % 4) bs

-- How many of the `n` bytes at hand one call takes: no more than the frame has left, and no more
-- than the buffer has room for.
unfoldable pub taken : FramePayloadDecoder → FrameHeader → ℕ → ℕ
taken d h n = min (min (h.payload_len - d.payload_offset) n) (length d.buf - d.buf_end)

-- The bytes as they stand in the buffer after a call, unmasked if the frame has a mask.
unfoldable pub unmasked : FramePayloadDecoder → FrameHeader → List ℕ → List ℕ
unmasked d h bytes = elim h.mask [ none ↦ bytes | some mask ↦ unmask mask d.mask_offset bytes ]

unfoldable pub next_mask_offset : FramePayloadDecoder → FrameHeader → ℕ → ℕ
next_mask_offset d h n = elim h.mask [ none ↦ d.mask_offset | some _ ↦ (d.mask_offset + n) % 4 ]

unfoldable pub advance : FramePayloadDecoder → FrameHeader → List ℕ → FramePayloadDecoder
advance d h bytes = record d {
  buf = write_at d.buf d.buf_end (unmasked d h bytes);
  buf_end = d.buf_end + length bytes;
  payload_offset = d.payload_offset + length bytes;
  mask_offset = next_mask_offset d h (length bytes);
}

-- The decoder after a call with the bytes `input`, and how many of them it took. `at_end` tells that
-- no more input follows.
unfoldable pub decode : FramePayloadDecoder → List ℕ → Bool → Result (FramePayloadDecoder × ℕ)
decode d input at_end = elim d.header [
  | none ↦ ok (d, 0)
  | some h ↦
      let size = taken d h (length input) in
      let d' = advance d h (take size input) in
      if not (d'.payload_offset == h.payload_len) && at_end then err web_socket else ok (d', size)
]

-- The last test of `is_idle`, by the opcode.
unfoldable pub is_drained : FramePayloadDecoder → Opcode → Bool
is_drained d connection_close = true
is_drained d ping = true
is_drained d pong = true
is_drained d _ = d.buf_start == d.buf_end

unfoldable pub is_idle : FramePayloadDecoder → Bool
is_idle d = elim d.header [
  | none ↦ false
  | some h ↦ if h.payload_len == d.payload_offset then is_drained d h.opcode else false
]

unfoldable pub frame_of : BigEndian → FramePayloadDecoder → Opcode → Result Frame
frame_of be d connection_close =
    if not (d.buf_start == 0)
    then err web_socket
    else if ltb d.buf_end 2
    then err web_socket
    else ok (close_frame (be.read_u16 d.buf) (drop 2 (take d.buf_end d.buf)))
frame_of be d ping = do assert (d.buf_start == 0); ok (ping_frame (take d.buf_end d.buf))
frame_of be d pong = do assert (d.buf_start == 0); ok (pong_frame (take d.buf_end d.buf))
frame_of be d _ = do assert (d.buf_start == d.buf_end); ok data_frame

unfoldable pub finish_decoding :
    BigEndian → FramePayloadDecoder → Result (FramePayloadDecoder × Frame)
finish_decoding be d =
    if is_idle d
    then elim d.header [
      | none ↦ err web_socket
      | some h ↦ do
        frame ← frame_of be (record d { header = none }) h.opcode
        ok (
          record d {
            buf_start = 0;
            buf_end = 0;
            payload_offset = 0;
            mask_offset = 0;
            header = none;
          },
          frame,
        )
    ]
    else err web_socket

-- `none` is an unknown number of bytes.
unfoldable pub requiring_bytes : FramePayloadDecoder → Option ℕ
requiring_bytes d = elim d.header [ none ↦ none | some h ↦ some (h.payload_len - d.payload_offset) ]

unfoldable pub is_data_empty : FramePayloadDecoder → Bool
is_data_empty d = elim d.header [
  | none ↦ true
  | some h ↦ is_control h.opcode || d.buf_start == d.buf_end
]

-- The bytes that are handed to the writer.
abbrev pub decoded : FramePayloadDecoder → List ℕ
decoded d = drop d.buf_start (take d.buf_end d.buf)

-- `writer` is how many of these bytes the stream took.
unfoldable pub write_decoded_data :
    FramePayloadDecoder → IoResult ℕ → Result (FramePayloadDecoder × StreamState)
write_decoded_data d writer = if is_data_empty d then ok (d, normal) else writes writer
  where
    writes : IoResult ℕ → Result (FramePayloadDecoder × StreamState)
    writes blocked = ok (d, would_block)
    writes failed = err web_socket
    writes (got zero) = ok (d, eos)
    writes (got (suc n)) =
        if d.buf_start + suc n == d.buf_end
        then ok (record d { buf_start = 0; buf_end = 0 }, normal)
        else ok (record d { buf_start = d.buf_start + suc n }, normal)
