-- ===== src/Wstcp/Encoder.antt =====
-- src/wstcp/frame.rs: the frame encoder. `HeaderSlice` stands for the crate bytecodec's
-- `Slice<BytesEncoder<[u8; 10]>>`: `queue` is what its inner encoder still has to write, and
-- `consumable_bytes` is how much of it may be written. `usize` is taken as 64 bits wide, and its
-- arithmetic wraps, as in a release build.
use electrs_cash.Common.{
  ℕ, zero, suc, ◌+◌, ◌-◌, ◌%◌, ◌^◌, ◌≡◌, Bool, true, false, ◌&&◌, none, some, List, [], ◌∷◌, ◌++◌,
  ltb, ◌==◌, if◌then◌else◌, length, take, drop, replicate, set, get_elem?,
}
use Prim.Native.Nat.{min}
use electrs_cash.Errors.{Result, ok, err, panic, web_socket, ◌>>=◌}
use electrs_cash.Wstcp.Opcode.{Opcode, continuation_frame, text_frame, connection_close, pong}
use electrs_cash.Wstcp.Header.{BigEndian, encode_header}

pub data Frame : Type 0 where
  close_frame : ℕ → List ℕ → Frame
  ping_frame pong_frame : List ℕ → Frame
  data_frame : Frame

pub data StreamState : Type 0 where
  normal would_block eos : StreamState

-- What one `read` or `write` on a non-blocking stream gave.
pub data IoResult (A : Type 0) : Type 0 where
  blocked failed : IoResult A
  got : A → IoResult A

pub record HeaderSlice : Type 1 where
  pub Slice : Type 0
  pub idle_slice : Slice
  pub queue : Slice → List ℕ
  pub consumable_bytes : Slice → ℕ
  pub start_encoding : Slice → List ℕ → Result Slice
  pub set_consumable_bytes : Slice → ℕ → Slice
  pub encode : Slice → ℕ → Slice × List ℕ
  pub queue-idle : queue idle_slice ≡ []
  pub consumable-idle : consumable_bytes idle_slice ≡ 0
  pub start_idle :
      (s : Slice) (bytes : List ℕ)
      → queue s ≡ []
      → (s' : Slice) × (start_encoding s bytes ≡ ok s') × (queue s' ≡ bytes)
  pub queue-set : (s : Slice) (n : ℕ) → queue (set_consumable_bytes s n) ≡ queue s
  pub consumable-set : (s : Slice) (n : ℕ) → consumable_bytes (set_consumable_bytes s n) ≡ n

abbrev pub usize_mod : ℕ
usize_mod = 2 ^ 64

-- `copy_from_slice` into the bytes from `pos` on.
abbrev pub write_at : List ℕ → ℕ → List ℕ → List ℕ
write_at buf pos xs = take pos buf ++ (xs ++ drop (pos + length xs) buf)

-- The loop that cuts the line feeds off the end of what was read: the buffer with each of them
-- zeroed, how many bytes are left, and whether there was one. At 0 bytes left the offset of the last
-- one wraps, and no byte is found there.
unfoldable pub trim : ℕ → List ℕ → ℕ → ℕ → Bool → List ℕ × ℕ × Bool
trim zero payload offset resize end_of_message = (payload, resize, end_of_message)
trim (suc fuel) payload offset resize end_of_message =
    let last_char_offset = (offset + resize + usize_mod - 1) % usize_mod in
    elim (get_elem? payload last_char_offset) [
      | none ↦ (payload, resize, end_of_message)
      | some c ↦
          let rest = trim fuel (set payload last_char_offset 0) offset (resize - 1) true in
          if c == b'\n' then rest else (payload, resize, end_of_message)
    ]

module _ (be : BigEndian) (hs : HeaderSlice) where
  open hs use {Slice, idle_slice, queue, consumable_bytes}

  pub record FrameEncoder : Type 0 where
    pub header : Slice
    pub payload : List ℕ
    pub payload_offset : ℕ
    pub payload_length : ℕ
    pub first_frame : Bool

  abbrev empty_queue : List ℕ → Bool
  empty_queue [] = true
  empty_queue (b ∷ bs) = false

  unfoldable pub default_encoder : FrameEncoder
  default_encoder = record {
    header = idle_slice;
    payload = replicate 4096 0;
    payload_offset = 0;
    payload_length = 0;
    first_frame = true;
  }

  unfoldable pub is_idle : FrameEncoder → Bool
  is_idle e = empty_queue (queue e.header) && e.payload_length == 0

  unfoldable pub start_encoding_header : FrameEncoder → Opcode → ℕ → Bool → Result FrameEncoder
  start_encoding_header e opcode payload_len end_of_message = do
    let h = encode_header be opcode payload_len end_of_message
    s ← hs.start_encoding e.header h.0
    ok (record e { header = hs.set_consumable_bytes s h.1; payload_length = payload_len })

  -- What `start_encoding_data` does with `size` bytes read to the front of the payload.
  unfoldable pub start_data : FrameEncoder → ℕ → Result (FrameEncoder × StreamState)
  start_data e size =
      let (payload, resize, end_of_message) =
        trim (suc size) e.payload e.payload_offset size false in
      let trimmed : FrameEncoder = record e { payload = payload } in
      let opcode = if e.first_frame then text_frame else continuation_frame in
      let started =
        start_encoding_header (record trimmed { first_frame = end_of_message }) opcode resize
          end_of_message in
      if resize == 0 then ok (trimmed, normal) else (do e' ← started; ok (e', normal))

  -- A read into the payload of an idle encoder: its bytes replace the front of the payload.
  unfoldable pub on_read : FrameEncoder → IoResult (List ℕ) → Result (FrameEncoder × StreamState)
  on_read e blocked = ok (e, would_block)
  on_read e failed = err web_socket
  on_read e (got []) = ok (e, eos)
  on_read e (got (b ∷ bs)) =
      start_data (record e { payload = write_at e.payload 0 (b ∷ bs) }) (length (b ∷ bs))

  unfoldable pub start_encoding_data :
      FrameEncoder → IoResult (List ℕ) → Result (FrameEncoder × StreamState)
  start_encoding_data e reader = if is_idle e then on_read e reader else ok (e, normal)

  -- The payload part of `encode`, into `room` bytes.
  unfoldable pub encode_payload : FrameEncoder → ℕ → FrameEncoder × List ℕ
  encode_payload e room =
      let size = min room (e.payload_length - e.payload_offset) in
      let bytes = take size (drop e.payload_offset e.payload) in
      (
        if e.payload_offset + size == e.payload_length
            then record e { payload_length = 0; payload_offset = 0; header = idle_slice }
            else record e { payload_offset = e.payload_offset + size },
        bytes,
      )

  -- The encoder after a call, and the bytes that it wrote into a buffer of `room` bytes.
  unfoldable pub encode : FrameEncoder → ℕ → FrameEncoder × List ℕ
  encode e room =
      if consumable_bytes e.header == 0
      then encode_payload e room
      else (let (header, out) = hs.encode e.header room in
          let (e', more) = encode_payload (record e { header = header }) (room - length out) in
          if consumable_bytes header == 0
          then (e', out ++ more)
          else (record e { header = header }, out))

  unfoldable pub start_encoding : FrameEncoder → Frame → Result FrameEncoder
  start_encoding e item = if is_idle e then starts item else err web_socket
    where
      starts : Frame → Result FrameEncoder
      starts (close_frame code reason) = do
        e' ← start_encoding_header e connection_close (2 + length reason) true
        if ltb (length e'.payload) (2 + length reason)
            then err web_socket
            else ok (record e' {
              payload = write_at (write_at e'.payload 0 (be.write_u16 code)) 2 reason;
            })
      starts (pong_frame bytes) = do
        e' ← start_encoding_header e pong (length bytes) true
        if ltb (length e'.payload) (length bytes)
            then err web_socket
            else ok (record e' { payload = write_at e'.payload 0 bytes })
      starts (ping_frame bytes) = panic
      starts data_frame = panic

  unfoldable pub requiring_bytes : FrameEncoder → ℕ
  requiring_bytes e = consumable_bytes e.header + (e.payload_length - e.payload_offset)
