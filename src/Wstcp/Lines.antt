-- ===== src/Wstcp/Lines.antt =====
-- src/wstcp/frame.rs: how the line feeds that separate messages become the FIN flag.
use electrs_cash.Common.{
  ℕ, suc, ◌+◌, ◌≤◌, ◌<◌, ◌≡◌, ◌≢◌, refl, ap, ◌∙◌, Bool, true, false, List, [], ◌∷◌, ◌++◌, arith,
  ltb, if◌then◌else◌, length, take, drop, replicate, length-append, length-drop, take-append_length,
  length-replicate,
}
use mathlib.Core.List.{append_assoc}
use Prim.Native.Nat.add
use electrs_cash.Errors.{ok}
use electrs_cash.Wstcp.Opcode.{continuation_frame, text_frame}
use electrs_cash.Wstcp.Header.{BigEndian, encode_header}
use electrs_cash.Wstcp.Encoder.{
  HeaderSlice, FrameEncoder, normal, got, usize_mod, write_at, trim, is_idle, start_encoding_header,
  start_data, on_read, start_encoding_data,
}
use electrs_cash.Wstcp.Trim.{Body, nothing, trim_lines}

append-ne-nil : (xs ys : List ℕ) → xs ≢ [] → xs ++ ys ≢ []
append-ne-nil [] ys ne = absurd (ne refl)
append-ne-nil (x ∷ xs) ys ne = λ q. cc

length-ne-zero : (xs : List ℕ) → xs ≢ [] → length xs ≢ 0
length-ne-zero [] ne = absurd (ne refl)
length-ne-zero (x ∷ xs) ne = λ q. absurd (omega arith)

module _ (be : BigEndian) (hs : HeaderSlice) (e : FrameEncoder be hs) where
  start_data_of_trim :
      (size n : ℕ) (pl : List ℕ) (eom : Bool) (s : hs.Slice)
      → trim (suc size) e.payload e.payload_offset size false ≡ (pl, n, eom)
      → n ≢ 0
      → hs.start_encoding e.header
          (encode_header be (if e.first_frame then text_frame else continuation_frame) n eom).0
        ≡ ok s
      → start_data be hs e size
        ≡ ok (
          record {
            header =
                hs.set_consumable_bytes s
                  (encode_header be
                    (if e.first_frame then text_frame else continuation_frame)
                    n
                    eom).1;
            payload = pl;
            payload_offset = e.payload_offset;
            payload_length = n;
            first_frame = eom;
          },
          normal,
        )
  unfolding start_data start_encoding_header
  start_data_of_trim size n pl eom s t nz st = rw (t, st) (ground arith)

  start_data_of_nothing :
      (size : ℕ) (pl : List ℕ) (eom : Bool)
      → trim (suc size) e.payload e.payload_offset size false ≡ (pl, 0, eom)
      → start_data be hs e size ≡ ok (record e { payload = pl }, normal)
  unfolding start_data
  start_data_of_nothing size pl eom t = rw t

module _ (be : BigEndian) (hs : HeaderSlice) (e : FrameEncoder be hs) where
  open hs use {queue, consumable_bytes}

  -- The encoder between two frames: nothing of a header or a payload waits.
  pub record IsReady : Type 0 where
    pub no_header : queue e.header ≡ []
    pub no_payload : e.payload_length ≡ 0
    pub at_start : e.payload_offset ≡ 0
    pub fits_usize : length e.payload + 1 < usize_mod

  -- The frame that a read of `body` with `k` line feeds behind it starts: a text frame at the start
  -- of a message and a continuation frame within one, over all of `body` and no line feed, with the
  -- FIN flag exactly if there was a line feed.
  pub record Starts (body : List ℕ) (k : ℕ) (e' : FrameEncoder be hs) : Type 0 where
    pub bytes : take (length body) e'.payload ≡ body
    pub payload_length : e'.payload_length ≡ length body
    pub payload_offset : e'.payload_offset ≡ 0
    pub first_frame : e'.first_frame ≡ ltb 0 k
    pub header :
        queue e'.header
        ≡ (encode_header be
            (if e.first_frame then text_frame else continuation_frame)
            (length body)
            (ltb 0 k)).0

  is_idle_ready : IsReady → is_idle be hs e ≡ true
  unfolding is_idle
  is_idle_ready r = rw (r.no_header, r.no_payload) refl

  on_read_bytes :
      (bytes : List ℕ)
      → bytes ≢ []
      → on_read be hs e (got bytes)
        ≡ start_data be hs (record e { payload = write_at e.payload 0 bytes }) (length bytes)
  unfolding on_read
  on_read_bytes [] ne = absurd (ne refl)
  on_read_bytes (b ∷ bs) ne = refl

  read_start :
      (bytes : List ℕ)
      → IsReady
      → bytes ≢ []
      → start_encoding_data be hs e (got bytes)
        ≡ start_data be hs (record e { payload = write_at e.payload 0 bytes }) (length bytes)
  unfolding start_encoding_data
  read_start bytes r ne = rw (is_idle_ready r) (on_read_bytes bytes ne)

  -- What `trim` leaves of a read of `body` and `k` line feeds.
  trim_read :
      (k : ℕ) (body : List ℕ)
      → IsReady
      → Body body
      → length body + k ≤ length e.payload
      → trim
          (suc (length (body ++ replicate k b'\n')))
          (write_at e.payload 0 (body ++ replicate k b'\n'))
          0
          (length (body ++ replicate k b'\n'))
          false
        ≡ (body ++ (replicate k 0 ++ drop (length body + k) e.payload), length body, ltb 0 k)
  trim_read k body r p fits =
      let long : length (body ++ replicate k b'\n') ≡ length body + k =
        omega (arith, length-append body (replicate k b'\n'), length-replicate {A = ℕ} k b'\n') in
      rw (long, append_assoc body (replicate k b'\n'), add.zero)
        (trim_lines k (suc (length body + k)) (drop (length body + k) e.payload) false p
          (omega arith) (omega (arith, r.fits_usize, length-drop (length body + k) e.payload)))

  -- A read on an encoder between two frames that fits its buffer, ends in `k` line feeds and has
  -- other bytes before them, starts the frame of these bytes: a text frame or a continuation, with
  -- the FIN flag exactly if there was a line feed.
  pub start_encoding_data_frame :
      (k : ℕ) (body : List ℕ)
      → IsReady
      → Body body
      → body ≢ []
      → length body + k ≤ length e.payload
      → (e' : FrameEncoder be hs) × (start_encoding_data be hs e (got (body ++ replicate k b'\n'))
          ≡ ok (e', normal))
        × Starts body k e'
  start_encoding_data_frame k body r p ne fits =
      let op = if e.first_frame then text_frame else continuation_frame in
      let enc = encode_header be op (length body) (ltb 0 k) in
      let (s, started, queued) = hs.start_idle e.header enc.0 r.no_header in
      (
        record {
          header = hs.set_consumable_bytes s enc.1;
          payload = body ++ (replicate k 0 ++ drop (length body + k) e.payload);
          payload_offset = e.payload_offset;
          payload_length = length body;
          first_frame = ltb 0 k;
        },
        read_start _ r (append-ne-nil body _ ne)
            ∙ start_data_of_trim be hs
                (record e { payload = write_at e.payload 0 (body ++ replicate k b'\n') }) _
                (length body) _ _ s (rw r.at_start (trim_read k body r p fits))
                (length-ne-zero body ne) started,
        record {
          bytes = take-append_length (length body) body _ refl;
          payload_length = refl;
          payload_offset = r.at_start;
          first_frame = refl;
          header = hs.queue-set s enc.1 ∙ queued;
        },
      )

  -- What a read of nothing but line feeds leaves in the buffer.
  lines_only : ℕ → List ℕ
  lines_only k = replicate k 0 ++ drop (0 + k) e.payload

  read_lines :
      (k : ℕ)
      → IsReady
      → 0 < k
      → k ≤ length e.payload
      → start_encoding_data be hs e (got (replicate k b'\n'))
        ≡ ok (record e { payload = lines_only k }, normal)
  unfolding lines_only
  read_lines k r pos fits =
      read_start _ r (λ q. absurd (omega (arith, ap length q, length-replicate {A = ℕ} k b'\n')))
      ∙ start_data_of_nothing be hs
          (record e { payload = write_at e.payload 0 (replicate k b'\n') })
          (length (replicate {A = ℕ} k b'\n')) (replicate k 0 ++ drop (0 + k) e.payload) (ltb 0 k)
          (rw r.at_start (trim_read k [] r nothing (omega arith)))

  length-lines_only : (k : ℕ) → k ≤ length e.payload → length (lines_only k) ≡ length e.payload
  unfolding lines_only
  length-lines_only k fits = omega (
    arith,
    length-append (replicate k 0) (drop (0 + k) e.payload),
    length-replicate {A = ℕ} k 0,
    length-drop (0 + k) e.payload,
  )

module _ (be : BigEndian) (hs : HeaderSlice) (e : FrameEncoder be hs) where
  open hs use {queue}

  lines_only-IsReady :
      (k : ℕ)
      → IsReady be hs e
      → k ≤ length e.payload
      → IsReady be hs (record e { payload = lines_only be hs e k })
  lines_only-IsReady k r fits = record {
    no_header = r.no_header;
    no_payload = r.no_payload;
    at_start = r.at_start;
    fits_usize = omega (arith, length-lines_only be hs e k fits, r.fits_usize);
  }

  -- On an encoder between two frames of a message that is not ended, a read of nothing but line
  -- feeds that fits the buffer starts no frame, with or without the FIN flag, and does not end the
  -- message: the next read, of other bytes with or without line feeds behind them, starts a
  -- continuation frame of the same message, whose FIN flag is only that of its own line feeds.
  pub start_encoding_data_only_lines :
      (k next : ℕ) (body : List ℕ)
      → IsReady be hs e
      → e.first_frame ≡ false
      → 0 < k
      → k ≤ length e.payload
      → Body body
      → body ≢ []
      → length body + next ≤ length e.payload
      → (e₁ : FrameEncoder be hs) × (e₂ : FrameEncoder be hs) × (start_encoding_data be hs e
            (got (replicate k b'\n'))
          ≡ ok (e₁, normal))
        × (queue e₁.header ≡ [])
        × (e₁.payload_length ≡ 0)
        × (start_encoding_data be hs e₁ (got (body ++ replicate next b'\n')) ≡ ok (e₂, normal))
        × (queue e₂.header ≡ (encode_header be continuation_frame (length body) (ltb 0 next)).0)
  start_encoding_data_only_lines k next body r open_message pos fits p ne room =
      let e₁ : FrameEncoder be hs = record e { payload = lines_only be hs e k } in
      let (e₂, read, starts) =
        start_encoding_data_frame be hs e₁ next body (lines_only-IsReady k r fits) p ne
          (omega (arith, length-lines_only be hs e k fits)) in
      (
        e₁,
        e₂,
        read_lines be hs e k r pos fits,
        r.no_header,
        r.no_payload,
        read,
        rw open_message at starts.header,
      )
