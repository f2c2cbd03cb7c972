-- ===== src/Wstcp/Unmask.antt =====
-- src/wstcp/frame.rs: the payload decoder returns what the client masked, however the bytes arrive.
use electrs_cash.Common.{
  ℕ, zero, suc, ◌+◌, ◌-◌, ◌%◌, ◌≤◌, ◌<◌, ◌≡◌, refl, ap, false, some, List, [], ◌∷◌, ◌++◌, arith,
  Option-cases, inl, inr, length, take, drop, All, length-append, length-take, length-drop,
}
use electrs_cash.Errors.{Result, ok, ok_injective, >>=-eq-ok, ◌>>=◌}
use electrs_cash.Wstcp.Bits.{bit_xor_twice}
use electrs_cash.Wstcp.Header.{FrameHeader}
use electrs_cash.Wstcp.Encoder.{write_at}
use electrs_cash.Wstcp.Payload.{
  FramePayloadDecoder, byte_at, unmask, taken, unmasked, advance, decode, is_idle,
}

abbrev pub IsByte : ℕ → Type 0
IsByte b = b < 256

byte_at-IsByte : (m : List ℕ) (i : ℕ) → All IsByte m → byte_at m i < 256
byte_at-IsByte [] i a = omega arith
byte_at-IsByte (b ∷ m) zero a = a.0
byte_at-IsByte (b ∷ m) (suc i) a = byte_at-IsByte m i a.1

length-unmask : (m : List ℕ) (o : ℕ) (bs : List ℕ) → length (unmask m o bs) ≡ length bs
unfolding unmask
length-unmask m o [] = refl
length-unmask m o (b ∷ bs) = ap suc (length-unmask m ((o + 1) % 4) bs)

-- Masking twice from one offset gives the bytes back.
pub unmask-unmask :
    (m : List ℕ) (o : ℕ) (bs : List ℕ)
    → All IsByte m
    → All IsByte bs
    → unmask m o (unmask m o bs) ≡ bs
unfolding unmask
unmask-unmask m o [] a h = refl
unmask-unmask m o (b ∷ bs) a h = ground (
  arith,
  bit_xor_twice b (byte_at m o) h.0 (byte_at-IsByte m o a),
  unmask-unmask m ((o + 1) % 4) bs a h.1,
)

-- The bytes that stand in the buffer.
abbrev pub content : FramePayloadDecoder → List ℕ
content d = take d.buf_end d.buf

length-write_at :
    (buf : List ℕ) (n : ℕ) (xs : List ℕ)
    → n + length xs ≤ length buf
    → length (write_at buf n xs) ≡ length buf
length-write_at buf n xs h = omega (
  arith,
  length-append (take n buf) (xs ++ drop (n + length xs) buf),
  length-append xs (drop (n + length xs) buf),
  length-take n buf,
  length-drop (n + length xs) buf,
)

-- The decoder after the masked bytes `raw` of the frame `h`: it holds them unmasked.
record Holds (h : FrameHeader) (m : List ℕ) (size : ℕ) (raw : List ℕ) (d : FramePayloadDecoder)
    : Type 0 where
  header : d.header ≡ some h
  held : content d ≡ unmask m 0 raw
  at_end : d.buf_end ≡ length raw
  offset : d.payload_offset ≡ length raw
  start : d.buf_start ≡ 0
  mask_offset : d.mask_offset ≡ length raw % 4
  room : length d.buf ≡ size

-- The decoder fed one chunk after another.
unfoldable pub feed : FramePayloadDecoder → List (List ℕ) → Result FramePayloadDecoder
feed d [] = ok d
feed d (chunk ∷ chunks) = do (d', n) ← decode d chunk false; feed d' chunks

abbrev pub concat : List (List ℕ) → List ℕ
concat [] = []
concat (c ∷ cs) = c ++ concat cs

-- A decoder that has just been given the header of a frame.
abbrev pub fresh : List ℕ → FrameHeader → FramePayloadDecoder
fresh buf h = record {
  buf = buf;
  buf_start = 0;
  buf_end = 0;
  payload_offset = 0;
  mask_offset = 0;
  header = some h;
}

-- The state of a decoder of a control frame, whose bytes stay in the buffer until the frame ends.
pub record InBuffer (h : FrameHeader) (size : ℕ) (d : FramePayloadDecoder) : Type 0 where
  pub header : d.header ≡ some h
  pub offset : d.payload_offset ≡ d.buf_end
  pub within : d.buf_end ≤ size
  pub room : length d.buf ≡ size

length-unmasked :
    (d : FramePayloadDecoder) (h : FrameHeader) (bytes : List ℕ)
    → length (unmasked d h bytes) ≡ length bytes
unfolding unmasked
length-unmasked d h bytes = elim (Option-cases h.mask) [
  | inl off ↦ ground (arith, off)
  | inr (m, on) ↦ ground (arith, on, length-unmask m d.mask_offset bytes)
]

decode_result :
    (h : FrameHeader) (d : FramePayloadDecoder) (bytes : List ℕ) {d' : FramePayloadDecoder} {n : ℕ}
    → d.header ≡ some h
    → decode d bytes false ≡ ok (d', n)
    → (d' ≡ advance d h (take n bytes)) × (n ≤ length bytes) × (n ≤ length d.buf - d.buf_end)
unfolding decode taken
decode_result h d bytes e f = ground arith

advance-InBuffer :
    (h : FrameHeader) (size : ℕ) (d : FramePayloadDecoder) (bytes : List ℕ)
    → InBuffer h size d
    → length bytes ≤ size - d.buf_end
    → InBuffer h size (advance d h bytes)
unfolding advance
advance-InBuffer h size d bytes p fits = record {
  header = p.header;
  offset = omega (arith, p.offset);
  within = omega (arith, p.within);
  room = omega (
    arith,
    p.room,
    p.within,
    length-unmasked d h bytes,
    length-write_at d.buf d.buf_end (unmasked d h bytes)
        (omega (arith, p.room, p.within, length-unmasked d h bytes)),
  );
}

feed_nil : (d : FramePayloadDecoder) {d' : FramePayloadDecoder} → feed d [] ≡ ok d' → d ≡ d'
unfolding feed
feed_nil d e = ok_injective e

feed_cons :
    (d : FramePayloadDecoder) (c : List ℕ) (cs : List (List ℕ)) {d' : FramePayloadDecoder}
    → feed d (c ∷ cs) ≡ ok d'
    → (r : FramePayloadDecoder × ℕ) × (decode d c false ≡ ok r) × (feed r.0 cs ≡ ok d')
unfolding feed
feed_cons d c cs e = >>=-eq-ok (decode d c false) (λ (d₁, n). feed d₁ cs) e

feed-InBuffer :
    (h : FrameHeader) (size : ℕ) (d : FramePayloadDecoder) (chunks : List (List ℕ))
    {d' : FramePayloadDecoder}
    → InBuffer h size d
    → feed d chunks ≡ ok d'
    → InBuffer h size d'
feed-InBuffer h size d [] p e = rw (feed_nil d e) at p
feed-InBuffer h size d (c ∷ cs) p e =
    let ((d₁, n), step, rest) = feed_cons d c cs e in
    let (next, few, room) = decode_result h d c p.header step in
    let kept : InBuffer h size d₁ =
      rw next (advance-InBuffer h size d (take n c) p (omega (arith, length-take n c, p.room))) in
    feed-InBuffer h size d₁ cs kept rest

-- A control frame that says a longer payload than the buffer holds never becomes idle, however much
-- of it arrives; with the buffer full, the decoder takes no more bytes.
pub oversize_control_stalls :
    (h : FrameHeader) (buf : List ℕ) (chunks : List (List ℕ)) (bytes : List ℕ)
    (d d' : FramePayloadDecoder) (n : ℕ)
    → length buf < h.payload_len
    → feed (fresh buf h) chunks ≡ ok d
    → decode d bytes false ≡ ok (d', n)
    → (is_idle d ≡ false) × (d.buf_end ≤ length buf) × (n ≤ length buf - d.buf_end)
unfolding is_idle
oversize_control_stalls h buf chunks bytes d d' n big fed step =
    let p =
      feed-InBuffer h (length buf) (fresh buf h) chunks
        (record { header = refl; offset = refl; within = omega arith; room = refl }) fed in
    let (_, _, room) = decode_result h d bytes p.header step in
    (ground (arith, p.header, p.offset, p.within), p.within, omega (arith, p.room))
