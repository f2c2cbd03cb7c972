-- ===== src/Wstcp/Closing.antt =====
-- src/wstcp/channel.rs: the closing of a proxy channel, and its decisions on frames, on the end of a
-- stream and on blocking. What the streams and the frame codec do is an argument.
use electrs_cash.Common.{
  ℕ, ◌≤◌, ◌≡◌, Bool, true, false, not, ◌&&◌, ◌||◌, Option, none, some, List, [], arith,
  if◌then◌else◌,
}
use electrs_cash.Errors.{Result, ok, err, msg, ◌>>=◌, >>=-eq-ok}
use electrs_cash.Wstcp.Encoder.{
  Frame, close_frame, ping_frame, pong_frame, data_frame, StreamState, would_block, eos,
}

pub data Closing : Type 0 where
  not_yet : Closing
  in_progress : Bool → Closing
  closed : Closing

abbrev pub is_not_yet : Closing → Bool
is_not_yet not_yet = true
is_not_yet _ = false

abbrev pub is_client_closed : Closing → Bool
is_client_closed (in_progress true) = true
is_client_closed _ = false

abbrev pub is_closed : Closing → Bool
is_closed closed = true
is_closed _ = false

abbrev pub is_some {ℓ} : {A : Type ℓ} → Option A → Bool
is_some none = false
is_some (some a) = true

abbrev pub is_eos : StreamState → Bool
is_eos eos = true
is_eos _ = false

abbrev pub is_would_block : StreamState → Bool
is_would_block would_block = true
is_would_block _ = false

-- The fields of a channel that the relay decides by. `real_stream` tells whether the connection to
-- the RPC server is there.
pub record Channel : Type 0 where
  pub real_stream : Bool
  pub rstate : StreamState
  pub wstate : StreamState
  pub closing : Closing
  pub pending_pong : Option (List ℕ)
  pub pending_close : Option Frame

unfoldable pub starts_closing : Channel → ℕ → Bool → Result Channel
starts_closing ch code client_closed =
    if is_not_yet ch.closing
    then ok (record ch {
      real_stream = false;
      rstate = eos;
      wstate = eos;
      closing = in_progress client_closed;
      pending_close = some (close_frame code []);
    })
    else err msg

unfoldable pub on_close : Channel → Closing → ℕ → Result Channel
on_close ch not_yet code = starts_closing ch code true
on_close ch (in_progress c) code = ok (record ch { closing = in_progress true })
on_close ch closed code = err msg

unfoldable pub handle_frame : Channel → Frame → Result Channel
handle_frame ch (close_frame code reason) = on_close ch ch.closing code
handle_frame ch (ping_frame bytes) =
    ok (if is_not_yet ch.closing then record ch { pending_pong = some bytes } else ch)
handle_frame ch (pong_frame bytes) = ok ch
handle_frame ch data_frame = ok ch

-- The first half of `handle_ws_stream`: the frame that an idle encoder is given, a pong before a
-- close, and the channel without it.
unfoldable pub next_frame : Channel → Bool → Channel × Option Frame
next_frame ch encoder_idle =
    if encoder_idle
    then elim ch.pending_pong [
      | some bytes ↦ (record ch { pending_pong = none }, some (pong_frame bytes))
      | none ↦ (record ch { pending_close = none }, ch.pending_close)
    ]
    else (ch, none)

-- After the encoder has written: with nothing left to write, a channel that the client closed is
-- closed.
unfoldable pub after_write : Channel → Bool → Channel
after_write ch encoder_idle =
    if encoder_idle && is_client_closed ch.closing then record ch { closing = closed } else ch

-- `handle_ws_stream`, from whether the encoder is idle before and after its write, and the frame
-- that the decoder has completed.
unfoldable pub handle_ws_stream :
    Channel → Bool → Bool → Option Frame → Result (Channel × Option Frame)
handle_ws_stream ch idle_before idle_after received =
    let (ch₁, sent) = next_frame ch idle_before in
    let ch₂ = after_write ch₁ idle_after in
    elim received [
      | none ↦ ok (ch₂, sent)
      | some frame ↦ do ch₃ ← handle_frame ch₂ frame; ok (ch₃, sent)
    ]

-- The test after the relay: the RPC server's stream has ended before any closing.
unfoldable pub after_relay : Channel → Result Channel
after_relay ch =
    if (is_eos ch.rstate || is_eos ch.wstate) && is_not_yet ch.closing
    then starts_closing ch 1000 false
    else ok ch

-- Of the WebSocket stream: `read_blocks` and `write_blocks` are the states of the two buffers.
unfoldable pub would_ws_stream_block : Channel → Bool → Bool → Bool → Bool
would_ws_stream_block ch read_blocks wbuf_empty write_blocks =
    let empty_write =
      wbuf_empty && not (is_some ch.pending_close) && not (is_some ch.pending_pong) in
    read_blocks && (empty_write || write_blocks)

unfoldable pub would_real_stream_block : Channel → Bool → Bool
would_real_stream_block ch data_empty =
    is_would_block ch.rstate && (data_empty || is_would_block ch.wstate)

-- How far the closing has come.
abbrev pub rank : Closing → ℕ
rank not_yet = 0
rank (in_progress false) = 1
rank (in_progress true) = 2
rank closed = 3

-- A step of the relay on a channel.
pub data Step : Channel → Channel → Type 0 where
  ws :
      {ch ch' : Channel} (b a : Bool) (r s : Option Frame)
      → handle_ws_stream ch b a r ≡ ok (ch', s)
      → Step ch ch'
  relayed : {ch ch' : Channel} → after_relay ch ≡ ok ch' → Step ch ch'
  failed : {ch ch' : Channel} (code : ℕ) → starts_closing ch code false ≡ ok ch' → Step ch ch'

pub data Steps (s : Channel) : Channel → Type 0 where
  here : Steps s s
  next : {t u : Channel} → Steps s t → Step t u → Steps s u

starts_closing-rank :
    (ch : Channel) (code : ℕ) (b : Bool) {ch' : Channel}
    → starts_closing ch code b ≡ ok ch'
    → (ch.closing ≡ not_yet)
      × (ch'.closing ≡ in_progress b)
      × (ch'.real_stream ≡ false)
      × (ch'.pending_close ≡ some (close_frame code []))
unfolding starts_closing
starts_closing-rank ch code b e = ground arith

handle_frame-rank :
    (ch : Channel) (f : Frame) {ch' : Channel}
    → handle_frame ch f ≡ ok ch'
    → rank ch.closing ≤ rank ch'.closing
unfolding handle_frame on_close starts_closing
handle_frame-rank ch (close_frame code reason) e = ground arith
handle_frame-rank ch (ping_frame b) e = ground arith
handle_frame-rank ch (pong_frame b) e = ground arith
handle_frame-rank ch data_frame e = ground arith

next_frame-rank : (ch : Channel) (b : Bool) → rank ch.closing ≤ rank (next_frame ch b).0.closing
unfolding next_frame
next_frame-rank ch b = ground arith

after_write-rank : (ch : Channel) (a : Bool) → rank ch.closing ≤ rank (after_write ch a).closing
unfolding after_write
after_write-rank ch a = ground arith

handle_ws_stream-rank :
    (ch : Channel) (b a : Bool) (r s : Option Frame) {ch' : Channel}
    → handle_ws_stream ch b a r ≡ ok (ch', s)
    → rank ch.closing ≤ rank ch'.closing
unfolding handle_ws_stream
handle_ws_stream-rank ch b a none s {ch'} e =
    let same : after_write (next_frame ch b).0 a ≡ ch' = cc in
    rw (← same) (omega (arith, next_frame-rank ch b, after_write-rank (next_frame ch b).0 a))
handle_ws_stream-rank ch b a (some f) s {ch'} e =
    let (ch₃, handled, out) =
      >>=-eq-ok (handle_frame (after_write (next_frame ch b).0 a) f)
        (λ q. ok (q, (next_frame ch b).1)) e in
    let same : ch₃ ≡ ch' = cc in
    let first = after_write-rank (next_frame ch b).0 a in
    let second = handle_frame-rank (after_write (next_frame ch b).0 a) f handled in
    rw (← same) (omega (arith, next_frame-rank ch b, first, second))

after_relay-rank :
    (ch : Channel) {ch' : Channel} → after_relay ch ≡ ok ch' → rank ch.closing ≤ rank ch'.closing
unfolding after_relay starts_closing
after_relay-rank ch e = ground arith

Step-rank : {s t : Channel} → Step s t → rank s.closing ≤ rank t.closing
Step-rank (ws {ch = ch} b a r s e) = handle_ws_stream-rank ch b a r s e
Step-rank (relayed {ch = ch} e) = after_relay-rank ch e
Step-rank (failed {ch = ch} code e) = ground (arith, starts_closing-rank ch code false e)

-- The closing only ever goes forward: no step of the relay takes it back.
pub Steps-rank : {s t : Channel} → Steps s t → rank s.closing ≤ rank t.closing
Steps-rank here = omega arith
Steps-rank (next r st) = omega (arith, Steps-rank r, Step-rank st)

-- A channel starts to close at most once. A start that succeeds comes from the state in which none
-- was made, queues one close frame with the code and lets go of the RPC server; after it, and after
-- any further steps, every other start is refused.
pub starts_closing_once :
    (s t u : Channel) (code code' : ℕ) (b b' : Bool)
    → starts_closing s code b ≡ ok t
    → Steps t u
    → (s.closing ≡ not_yet)
      × (t.pending_close ≡ some (close_frame code []))
      × (t.real_stream ≡ false)
      × (starts_closing u code' b' ≡ err msg)
starts_closing_once s t u code code' b b' e r =
    let (before, now, gone, queued) = starts_closing-rank s code b e in
    let far : 1 ≤ rank u.closing = ground (arith, Steps-rank r) in
    (before, queued, gone, unfold starts_closing in ground (arith, far))

-- The client's close frame ends a channel that has not begun to close: it is answered by a close
-- frame with the client's own code, and once the encoder has written everything out the channel is
-- closed.
pub client_close :
    (ch ch' : Channel) (code : ℕ) (reason : List ℕ)
    → ch.closing ≡ not_yet
    → handle_frame ch (close_frame code reason) ≡ ok ch'
    → (ch'.pending_close ≡ some (close_frame code []))
      × (ch'.closing ≡ in_progress true)
      × ((after_write ch' true).closing ≡ closed)
unfolding handle_frame on_close starts_closing after_write
client_close ch ch' code reason n e = ground arith
