-- ===== src/Wstcp/Header.antt =====
-- src/wstcp/frame.rs: the header of a frame, its bytes and its parsing. `BigEndian` is that of the
-- crate byteorder, and `BytesDecoder` the decoder of a given number of bytes of the crate bytecodec:
-- parameters, with the laws that what is written reads back, and that the decoder takes that many
-- bytes of the stream or, if the stream ends before, is an error.
use Prim.Native.Nat.{bit_and, bit_or}
use electrs_cash.Common.{
  ℕ, ◌+◌, ◌%◌, ◌^◌, ◌<◌, ◌≡◌, sym, ◌∙◌, Bool, true, false, not, Option, none, some, List, [], ◌∷◌,
  ◌++◌, arith, ltb, ◌==◌, if◌then◌else◌, length, take, drop, replicate, ◌≤◌, take-append_length,
  zero, suc, length-take,
}
use mathlib.Core.List.{append-nil}
use electrs_cash.Errors.{Result, ok, err, panic, web_socket, ◌>>=◌}
use electrs_cash.Wstcp.Bits.{bit_and_low_seven, bit_and_top}
use electrs_cash.Wstcp.Opcode.{Opcode, continuation_frame, opcode_value, from_u8}

pub record BigEndian : Type 0 where
  pub write_u16 : ℕ → List ℕ
  pub write_u64 : ℕ → List ℕ
  pub read_u16 : List ℕ → ℕ
  pub read_u64 : List ℕ → ℕ
  pub length-write_u16 : (n : ℕ) → length (write_u16 n) ≡ 2
  pub length-write_u64 : (n : ℕ) → length (write_u64 n) ≡ 8
  pub read-write_u16 : (n : ℕ) (rest : List ℕ) → n < 2 ^ 16 → read_u16 (write_u16 n ++ rest) ≡ n
  pub read-write_u64 : (n : ℕ) (rest : List ℕ) → n < 2 ^ 64 → read_u64 (write_u64 n ++ rest) ≡ n

pub record BytesDecoder : Type 0 where
  pub collect : ℕ → List ℕ → Result (List ℕ × List ℕ)
  pub collect_enough :
      (bytes rest : List ℕ) → collect (length bytes) (bytes ++ rest) ≡ ok (bytes, rest)
  pub collect_few : (n : ℕ) (bytes : List ℕ) → length bytes < n → collect n bytes ≡ err web_socket

pub record FrameHeader : Type 0 where
  pub fin_flag : Bool
  pub opcode : Opcode
  pub mask : Option (List ℕ)
  pub payload_len : ℕ

abbrev pub fin_bit : ℕ
fin_bit = 0b1000_0000

abbrev pub mask_bit : ℕ
mask_bit = 0b1000_0000

-- A set mask flag puts a dummy mask of zeros, which the extended header replaces.
unfoldable pub from_bytes : ℕ → ℕ → Result FrameHeader
from_bytes b₀ b₁ = do
  op ← from_u8 (bit_and b₀ 0b1111)
  ok (record {
    fin_flag = not (bit_and b₀ fin_bit == 0);
    opcode = op;
    mask = if bit_and b₁ mask_bit == 0 then none else some (0 ∷ 0 ∷ 0 ∷ 0 ∷ []);
    payload_len = bit_and b₁ 0b0111_1111;
  })

-- How many bytes of extended header follow the first two.
unfoldable pub extended_size : FrameHeader → ℕ
extended_size h =
    let base : ℕ = elim h.mask [ none ↦ 0 | some _ ↦ 4 ] in
    if h.payload_len == 126 then base + 2 else if h.payload_len == 127 then base + 8 else base

module _ (be : BigEndian) where
  -- The length that the extended header gives, and the bytes behind it.
  unfoldable pub extended_len : ℕ → List ℕ → ℕ × List ℕ
  extended_len n bytes =
      if n == 126
      then (be.read_u16 bytes, drop 2 bytes)
      else if n == 127
      then (be.read_u64 bytes, drop 8 bytes)
      else (n, bytes)

  -- The second half of the header decoder, on the complete extended header.
  unfoldable pub extend_header : FrameHeader → List ℕ → FrameHeader
  extend_header h b =
      let p = extended_len h.payload_len b in
      record h {
        payload_len = p.0;
        mask = elim h.mask [ none ↦ none | some _ ↦ some (take 4 p.1) ];
      }

  -- The buffer of ten bytes that `start_encoding_header` fills, and the size of the header in it.
  unfoldable pub encode_header : Opcode → ℕ → Bool → List ℕ × ℕ
  encode_header opcode payload_len end_of_message =
      let b₀ =
        if end_of_message then bit_or fin_bit (opcode_value opcode) else opcode_value opcode in
      if ltb payload_len 126
      then (b₀ ∷ payload_len % 2 ^ 8 ∷ replicate 8 0, 2)
      else if ltb payload_len 0x10000
      then (b₀ ∷ 126 ∷ (be.write_u16 (payload_len % 2 ^ 16) ++ replicate 6 0), 4)
      else (b₀ ∷ 127 ∷ be.write_u64 payload_len, 10)

second_byte : (b₁ : ℕ) → b₁ < 128 → (bit_and b₁ mask_bit ≡ 0) × (bit_and b₁ 0b0111_1111 ≡ b₁)
second_byte b₁ h =
    (omega (arith, bit_and_top b₁ (omega arith)), omega (arith, bit_and_low_seven b₁ (omega arith)))

first_byte :
    (op : Opcode) (fin : Bool) (b₁ : ℕ)
    → b₁ < 128
    → from_bytes (if fin then bit_or fin_bit (opcode_value op) else opcode_value op) b₁
      ≡ ok (record { fin_flag = fin; opcode = op; mask = none; payload_len = b₁ })
unfolding from_bytes from_u8 opcode_value
first_byte continuation_frame true b₁ h = rw ((second_byte b₁ h).0, (second_byte b₁ h).1)
first_byte continuation_frame false b₁ h = rw ((second_byte b₁ h).0, (second_byte b₁ h).1)
first_byte _ true b₁ h = rw ((second_byte b₁ h).0, (second_byte b₁ h).1)
first_byte _ false b₁ h = rw ((second_byte b₁ h).0, (second_byte b₁ h).1)

-- The two bytes of an array as the first two of a header.
abbrev pub from_fixed : List ℕ → Result FrameHeader
from_fixed (b₀ ∷ b₁ ∷ []) = from_bytes b₀ b₁
from_fixed _ = panic

-- The header at the start of a stream that then ends, with the bytes behind it: the first two
-- bytes, then as many as these ask for.
unfoldable pub parse_header : BigEndian → BytesDecoder → List ℕ → Result (FrameHeader × List ℕ)
parse_header be bd bytes = do
  fixed ← bd.collect 2 bytes
  h ← from_fixed fixed.0
  extended ← bd.collect (extended_size h) fixed.1
  ok (extend_header be h extended.0, extended.1)

parse_header_parts :
    (be : BigEndian) (bd : BytesDecoder) (b₀ b₁ : ℕ) (h : FrameHeader) (bytes rest : List ℕ)
    → from_bytes b₀ b₁ ≡ ok h
    → length bytes ≡ extended_size h
    → parse_header be bd (b₀ ∷ b₁ ∷ (bytes ++ rest)) ≡ ok (extend_header be h bytes, rest)
unfolding parse_header
parse_header_parts be bd b₀ b₁ h bytes rest first size = ground (
  arith,
  bd.collect_enough (b₀ ∷ b₁ ∷ []) (bytes ++ rest),
  first,
  sym size,
  bd.collect_enough bytes rest,
)

-- A part of a header that is shorter than the header is an error.
parse_header_cut :
    (be : BigEndian) (bd : BytesDecoder) (b₀ b₁ : ℕ) (h : FrameHeader) (bytes : List ℕ) (k : ℕ)
    → from_bytes b₀ b₁ ≡ ok h
    → k < 2 + extended_size h
    → parse_header be bd (take k (b₀ ∷ b₁ ∷ bytes)) ≡ err web_socket
unfolding parse_header
parse_header_cut be bd b₀ b₁ h bytes zero first cut =
    ground (arith, bd.collect_few 2 [] (omega arith))
parse_header_cut be bd b₀ b₁ h bytes (suc zero) first cut =
    ground (arith, bd.collect_few 2 (b₀ ∷ []) (omega arith))
parse_header_cut be bd b₀ b₁ h bytes (suc (suc j)) first cut = ground (
  arith,
  bd.collect_enough (b₀ ∷ b₁ ∷ []) (take j bytes),
  first,
  bd.collect_few (extended_size h) (take j bytes) (omega (arith, length-take j bytes)),
)

module _ (be : BigEndian) (bd : BytesDecoder) (op : Opcode) (fin : Bool) (n : ℕ) where
  header_of : ℕ → FrameHeader
  header_of k = record { fin_flag = fin; opcode = op; mask = none; payload_len = k }

  first : ℕ
  first = if fin then bit_or fin_bit (opcode_value op) else opcode_value op

  parse_short :
      (rest : List ℕ) → n < 126 → parse_header be bd (first ∷ n ∷ rest) ≡ ok (header_of n, rest)
  unfolding first header_of extended_size extend_header extended_len
  parse_short rest h =
      parse_header_parts be bd first n (header_of n) [] rest (first_byte op fin n (omega arith))
        (ground (arith, h))
      ∙ ground (arith, h)

  parse_middle :
      (rest : List ℕ)
      → n < 2 ^ 16
      → parse_header be bd (first ∷ 126 ∷ (be.write_u16 n ++ rest)) ≡ ok (header_of n, rest)
  unfolding first header_of extended_size extend_header extended_len
  parse_middle rest h =
      parse_header_parts be bd first 126 (header_of 126) (be.write_u16 n) rest
        (first_byte op fin 126 (omega arith)) (be.length-write_u16 n)
      ∙ ground (arith, append-nil (be.write_u16 n), be.read-write_u16 n [] h)

  parse_long :
      (rest : List ℕ)
      → n < 2 ^ 64
      → parse_header be bd (first ∷ 127 ∷ (be.write_u64 n ++ rest)) ≡ ok (header_of n, rest)
  unfolding first header_of extended_size extend_header extended_len
  parse_long rest h =
      parse_header_parts be bd first 127 (header_of 127) (be.write_u64 n) rest
        (first_byte op fin 127 (omega arith)) (be.length-write_u64 n)
      ∙ ground (arith, append-nil (be.write_u64 n), be.read-write_u64 n [] h)

  cut_with :
      (b₁ : ℕ) (bytes : List ℕ) (k : ℕ)
      → b₁ < 128
      → k < 2 + extended_size (header_of b₁)
      → parse_header be bd (take k (first ∷ b₁ ∷ bytes)) ≡ err web_socket
  unfolding first header_of
  cut_with b₁ bytes k low cut =
      parse_header_cut be bd first b₁ (header_of b₁) bytes k (first_byte op fin b₁ low) cut

  -- A stream that starts with a header that the encoder writes, cut at its size, whatever follows,
  -- parses to the opcode, the FIN flag and the length that the header was made from, with no mask,
  -- and exactly the bytes behind the header are left, for every length below 2 ^ 64. A stream of
  -- the first `k` bytes of the header only, fewer than its size, is an error. The size is that of
  -- the encoder's buffer at most.
  pub parse-encode_header :
      (rest : List ℕ) (k : ℕ)
      → n < 2 ^ 64
      → k < (encode_header be op n fin).1
      → (parse_header be bd
            (take (encode_header be op n fin).1 (encode_header be op n fin).0 ++ rest)
          ≡ ok (record { fin_flag = fin; opcode = op; mask = none; payload_len = n }, rest))
        × (parse_header be bd (take k (encode_header be op n fin).0) ≡ err web_socket)
        × ((encode_header be op n fin).1 ≤ 10)
  unfolding encode_header header_of first extended_size
  parse-encode_header rest k h cut = (
    ground (
      arith,
      parse_short rest,
      parse_middle rest,
      parse_long rest,
      take-append_length 2 (be.write_u16 n) (replicate 6 0) (be.length-write_u16 n),
      take-append_length 8 (be.write_u64 n) [] (be.length-write_u64 n),
      append-nil (be.write_u64 n),
    ),
    ground (
      arith,
      cut,
      cut_with n (replicate 8 0) k,
      cut_with 126 (be.write_u16 n ++ replicate 6 0) k,
      cut_with 127 (be.write_u64 n) k,
    ),
    ground arith,
  )
