-- ===== src/Wstcp/Tests.antt =====
-- Concrete values for the frames, the handshake and the relay, and the theorems at them.
use electrs_cash.Common.{
  ℕ, ◌+◌, ◌-◌, ◌*◌, ◌/◌, ◌%◌, ◌^◌, ◌≤◌, ◌<◌, ◌≡◌, refl, true, false, none, some, List, [], ◌∷◌,
  ◌++◌, arith, take, drop, ltb, length, if◌then◌else◌, length-append, take-append_length,
  drop-append_length,
}
use electrs_cash.Common.Text.{codes}
use electrs_cash.Errors.{Result, ok, err, msg, web_socket}
use electrs_cash.Wstcp.Opcode.{continuation_frame, text_frame, ping}
use electrs_cash.Wstcp.Header.{
  BigEndian, BytesDecoder, FrameHeader, parse_header, encode_header, parse-encode_header,
}
use electrs_cash.Wstcp.Encoder.{
  close_frame, normal, eos, got, HeaderSlice, FrameEncoder, start_encoding_data,
}
use electrs_cash.Wstcp.Payload.{
  taken, unmasked, next_mask_offset, advance, FramePayloadDecoder, decode, is_idle,
}
use electrs_cash.Wstcp.Trim.{ended}
use electrs_cash.Wstcp.Lines.{
  IsReady, Starts, start_encoding_data_frame, start_encoding_data_only_lines,
}
use electrs_cash.Wstcp.Unmask.{feed, fresh, oversize_control_stalls}
use electrs_cash.Wstcp.Handshake.{
  Request, check_field, check_fields, handle_handshake_request, recv_request, done, request_read,
  connect_done, response_written, round, process_handshake,
}
use electrs_cash.Wstcp.Closing.{
  Channel, here, not_yet, in_progress, starts_closing, on_close, handle_frame, starts_closing_once,
}

read_two : List ℕ → ℕ
read_two (a ∷ b ∷ r) = a * 256 + b
read_two _ = 0

abbrev write_eight : ℕ → List ℕ
write_eight n =
    n / 2 ^ 56
    ∷ n / 2 ^ 48 % 256
    ∷ n / 2 ^ 40 % 256
    ∷ n / 2 ^ 32 % 256
    ∷ n / 2 ^ 24 % 256
    ∷ n / 2 ^ 16 % 256
    ∷ n / 2 ^ 8 % 256
    ∷ n % 256
    ∷ []

read_eight : List ℕ → ℕ
read_eight (a ∷ b ∷ c ∷ d ∷ e ∷ f ∷ g ∷ h ∷ r) =
    ((((((a * 256 + b) * 256 + c) * 256 + d) * 256 + e) * 256 + f) * 256 + g) * 256 + h
read_eight _ = 0

read-write_eight : (n : ℕ) (rest : List ℕ) → n < 2 ^ 64 → read_eight (write_eight n ++ rest) ≡ n
unfolding read_eight
read-write_eight n rest h = omega arith

abbrev be : BigEndian
unfolding read_two
be = record {
  write_u16 = λ n. n / 256 ∷ n % 256 ∷ [];
  write_u64 = write_eight;
  read_u16 = read_two;
  read_u64 = read_eight;
  length-write_u16 = λ n. refl;
  length-write_u64 = λ n. refl;
  read-write_u16 = λ n rest h. omega arith;
  read-write_u64 = read-write_eight;
}

abbrev bd : BytesDecoder
bd = record {
  collect =
      λ n bytes. if ltb (length bytes) n then err web_socket else ok (take n bytes, drop n bytes);
  collect_enough = λ bytes rest. grind (
    arith,
    length-append bytes rest,
    take-append_length (length bytes) bytes rest refl,
    drop-append_length (length bytes) bytes rest refl,
  );
  collect_few = λ n bytes h. ground (arith, h);
}

abbrev start_slice : List ℕ × ℕ → List ℕ → Result (List ℕ × ℕ)
start_slice ([], n) bytes = ok (bytes, n)
start_slice (x ∷ r, n) bytes = err msg

start_slice_idle :
    (s : List ℕ × ℕ) (bytes : List ℕ)
    → s.0 ≡ []
    → (s' : List ℕ × ℕ) × (start_slice s bytes ≡ ok s') × (s'.0 ≡ bytes)
start_slice_idle ([], n) bytes h = ((bytes, n), refl, refl)
start_slice_idle (x ∷ r, n) bytes h = absurd (ground arith)

abbrev hs : HeaderSlice
hs = record {
  Slice = List ℕ × ℕ;
  idle_slice = ([], 0);
  queue = λ s. s.0;
  consumable_bytes = λ s. s.1;
  start_encoding = start_slice;
  set_consumable_bytes = λ s n. (s.0, n);
  encode = λ s n. ((drop n (s.0), s.1), take n (s.0));
  queue-idle = refl;
  consumable-idle = refl;
  start_idle = start_slice_idle;
  queue-set = λ s n. refl;
  consumable-set = λ s n. refl;
}

size_of_300 : 3 < (encode_header be text_frame 300 true).1
unfolding encode_header
size_of_300 = omega arith

parse-encode_header_example :
    (parse_header be bd (
        take (encode_header be text_frame 300 true).1 (encode_header be text_frame 300 true).0
        ++ 72 ∷ 105 ∷ [])
      ≡ ok (
        record { fin_flag = true; opcode = text_frame; mask = none; payload_len = 300 },
        72 ∷ 105 ∷ [],
      ))
    × (parse_header be bd (take 3 (encode_header be text_frame 300 true).0) ≡ err web_socket)
    × ((encode_header be text_frame 300 true).1 ≤ 10)
parse-encode_header_example =
    parse-encode_header be bd text_frame true 300 (72 ∷ 105 ∷ []) 3 (omega arith) size_of_300

abbrev encoder : FrameEncoder be hs
encoder = record {
  header = ([], 0);
  payload = 0 ∷ 0 ∷ 0 ∷ 0 ∷ [];
  payload_offset = 0;
  payload_length = 0;
  first_frame = true;
}

encoder_IsReady : IsReady be hs encoder
encoder_IsReady = record {
  no_header = refl;
  no_payload = refl;
  at_start = refl;
  fits_usize = omega arith;
}

-- The encoder within a message.
abbrev within : FrameEncoder be hs
within = record encoder { first_frame = false }

within_IsReady : IsReady be hs within
within_IsReady = record {
  no_header = refl;
  no_payload = refl;
  at_start = refl;
  fits_usize = omega arith;
}

start_encoding_data_frame_example :
    (e' : FrameEncoder be hs) × (start_encoding_data be hs encoder (got (65 ∷ 66 ∷ 10 ∷ []))
      ≡ ok (e', normal))
    × Starts be hs encoder (65 ∷ 66 ∷ []) 1 e'
start_encoding_data_frame_example =
    start_encoding_data_frame be hs encoder 1 (65 ∷ 66 ∷ []) encoder_IsReady
      (ended (65 ∷ []) 66 (omega arith)) (ground arith) (omega arith)

start_encoding_data_only_lines_example :
    (e₁ : FrameEncoder be hs) × (e₂ : FrameEncoder be hs) × (start_encoding_data be hs within
        (got (10 ∷ []))
      ≡ ok (e₁, normal))
    × (e₁.header.0 ≡ [])
    × (e₁.payload_length ≡ 0)
    × (start_encoding_data be hs e₁ (got (67 ∷ 68 ∷ [])) ≡ ok (e₂, normal))
    × (e₂.header.0 ≡ (encode_header be continuation_frame 2 false).0)
start_encoding_data_only_lines_example =
    start_encoding_data_only_lines be hs within 1 0 (67 ∷ 68 ∷ []) within_IsReady refl (omega arith)
      (omega arith) (ended (67 ∷ []) 68 (omega arith)) (ground arith) (omega arith)

abbrev ping_header : FrameHeader
ping_header = record {
  fin_flag = true;
  opcode = ping;
  mask = some (1 ∷ 2 ∷ 3 ∷ 4 ∷ []);
  payload_len = 2;
}

abbrev long_ping : FrameHeader
long_ping = record { fin_flag = true; opcode = ping; mask = none; payload_len = 9 }

-- The buffer of two bytes, after one byte of the payload and after both.
abbrev half_full : FramePayloadDecoder
half_full = record (fresh (0 ∷ 0 ∷ []) long_ping) {
  buf = 5 ∷ 0 ∷ [];
  buf_end = 1;
  payload_offset = 1;
}

abbrev full : FramePayloadDecoder
full = record half_full { buf = 5 ∷ 6 ∷ []; buf_end = 2; payload_offset = 2 }

fed : feed (fresh (0 ∷ 0 ∷ []) long_ping) ((5 ∷ []) ∷ []) ≡ ok half_full
unfolding feed decode taken unmasked next_mask_offset advance
fed = refl

decoded : decode half_full (6 ∷ 7 ∷ []) false ≡ ok (full, 1)
unfolding decode taken unmasked next_mask_offset advance
decoded = refl

oversize_control_stalls_example :
    (is_idle half_full ≡ false) × (half_full.buf_end ≤ 2) × (1 ≤ 2 - half_full.buf_end)
oversize_control_stalls_example =
    oversize_control_stalls long_ping (0 ∷ 0 ∷ []) ((5 ∷ []) ∷ []) (6 ∷ 7 ∷ []) half_full full 1
      (omega arith) fed decoded

abbrev request : Request
request = record {
  method = codes "GET";
  is_http_1_1 = true;
  fields = (codes "Upgrade", codes "websocket") ∷ (codes "sec-websocket-key", 97 ∷ 98 ∷ []) ∷ [];
}

accepted : handle_handshake_request request ≡ ok (97 ∷ 98 ∷ [])
unfolding handle_handshake_request check_fields check_field
accepted = refl

shaken :
    process_handshake recv_request false
      (request_read request ∷ connect_done ∷ response_written ∷ connect_done ∷ [])
    ≡ some (done, true)
unfolding process_handshake round handle_handshake_request check_fields check_field
shaken = refl

abbrev open_channel : Channel
open_channel = record {
  real_stream = true;
  rstate = normal;
  wstate = normal;
  closing = not_yet;
  pending_pong = none;
  pending_close = none;
}

abbrev closing_channel : Channel
closing_channel = record open_channel {
  real_stream = false;
  rstate = eos;
  wstate = eos;
  closing = in_progress false;
  pending_close = some (close_frame 1000 []);
}

started : starts_closing open_channel 1000 false ≡ ok closing_channel
unfolding starts_closing
started = refl

starts_closing_once_example :
    (open_channel.closing ≡ not_yet)
    × (closing_channel.pending_close ≡ some (close_frame 1000 []))
    × (closing_channel.real_stream ≡ false)
    × (starts_closing closing_channel 1001 true ≡ err msg)
starts_closing_once_example =
    starts_closing_once open_channel closing_channel closing_channel 1000 1001 false true started
      here

answered :
    handle_frame open_channel (close_frame 1002 (7 ∷ []))
    ≡ ok (record closing_channel {
      closing = in_progress true;
      pending_close = some (close_frame 1002 []);
    })
unfolding handle_frame on_close starts_closing
answered = refl
