-- ===== src/Daemon/Tests.antt =====
-- A list with one header and a daemon that is one header ahead.
use electrs_cash.Common.{
  Option, some, ℕ, zero, suc, ◌+◌, map, ◌≡◌, refl, true, false, List, [], ◌∷◌, arith, ◌==◌,
  if◌then◌else◌, ℕ_discrete, Bool, ◌&&◌, leb, All, ◌≤◌,
}
use electrs_cash.Common.Map.{lookup}
use electrs_cash.Errors.{connection, Result, ok, err, msg}
use electrs_cash.HeaderList.{BlockHeader, HeaderList, header_by_blockhash, tiphash}
use electrs_cash.Daemon.{is_known, get_new_headers}
use electrs_cash.Daemon.Download.{heights_from, load_headers}
use electrs_cash.Daemon.Fresh.{load_headers_total, prev_of}
use electrs_cash.HeaderList.Chain.{ChainFrom}
use electrs_cash.HeaderList.Whole.{header_of}
use electrs_cash.Daemon.Reply.{
  ReplyValue, object, null_error, Answers, retry_request_batch, handle_request_batch, parse_replies,
  parse_jsonrpc_reply, check_error_code, parse_error_code, same_id, next,
  retry_request_batch-Answers,
}
use electrs_cash.Daemon.Walk.{at_known, above, get_new_headers-Missing}

abbrev genesis : BlockHeader
genesis = record { version = 1; prev_blockhash = 0; merkle_root = 7; time = 0; bits = 0; nonce = 0 }

abbrev newer : BlockHeader
newer = record { version = 1; prev_blockhash = 1; merkle_root = 8; time = 1; bits = 0; nonce = 0 }

abbrev indexed : HeaderList
indexed = record {
  headers = (record { height = 0; hash = 1; header = genesis }) ∷ [];
  heights = (1, 0) ∷ [];
}

abbrev answers : ℕ → Result BlockHeader
answers h = if h == 11 then ok newer else err msg

abbrev none_at_once : ℕ → Result (List BlockHeader)
none_at_once tip = err msg

known : is_known indexed 1 ≡ true
unfolding header_by_blockhash lookup ℕ_discrete
known = refl

unknown : is_known indexed 11 ≡ false
unfolding header_by_blockhash lookup ℕ_discrete
unknown = refl

get_new_headers-Missing_example :
    get_new_headers answers none_at_once 2 indexed 11 ≡ ok (newer ∷ [])
get_new_headers-Missing_example =
    get_new_headers-Missing answers none_at_once indexed 2 11 (newer ∷ []) (omega arith)
      (above 11 [] newer (omega arith) unknown refl (at_known 1 known)) (omega arith)

-- Headers whose hash is one more than their height.
abbrev numbered : ℕ → BlockHeader
numbered n = record {
  version = 1;
  prev_blockhash = n;
  merkle_root = 0;
  time = 0;
  bits = 0;
  nonce = n + 1;
}

abbrev nonce_of : BlockHeader → ℕ
nonce_of h = h.nonce

numbered-linked : (n : ℕ) → (numbered n).prev_blockhash ≡ prev_of nonce_of numbered n
numbered-linked zero = refl
numbered-linked (suc n) = omega arith

-- The node knows the headers up to height 2, and a request of any other is an error.
abbrev known_heights : List ℕ → Bool
known_heights [] = true
known_heights (h ∷ hs) = leb h 2 && known_heights hs

abbrev up_to_two : List ℕ → Result (List BlockHeader)
up_to_two hs = if known_heights hs then ok (map numbered hs) else err msg

within_two : (hs : List ℕ) → All (λ h. h ≤ 2) hs → known_heights hs ≡ true
within_two [] up = refl
within_two (h ∷ hs) up = ground (arith, up.0, within_two hs up.1)

up_to_two_ok : (hs : List ℕ) → All (λ h. h ≤ 2) hs → up_to_two hs ≡ ok (map numbered hs)
up_to_two_ok hs up = rw (within_two hs up) refl

load_headers_total_example :
    (l : HeaderList) × (load_headers nonce_of up_to_two answers (ok 3) (λ hash. ok 2) ≡ ok l)
    × (map header_of l.headers ≡ map numbered (heights_from 0 3))
    × ChainFrom 0 0 l.headers
    × (tiphash l ≡ 3)
load_headers_total_example =
    load_headers_total nonce_of numbered 2 (λ i le. numbered-linked i) (λ i le. omega arith)
      up_to_two up_to_two_ok answers (λ hash. ok 2) refl

-- The first attempt fails as a connection.
abbrev call_twice : ℕ → Result (Option (List (ReplyValue ℕ)))
call_twice id =
    if id == 1
    then err connection
    else ok (
        some
          (object (record { error = some null_error; id = some (some id); result = some 7 }) ∷ []))

abbrev reconnects : ℕ → Result (Unit {0})
reconnects id = ok tt

answered_twice : retry_request_batch call_twice reconnects 3 0 ≡ some (2, ok (7 ∷ []))
unfolding retry_request_batch handle_request_batch parse_replies parse_jsonrpc_reply
    check_error_code parse_error_code same_id next
answered_twice = refl

retry_request_batch-Answers_example :
    (replies : List (ReplyValue ℕ)) × (call_twice 2 ≡ ok (some replies))
    × Answers 2 replies (7 ∷ [])
retry_request_batch-Answers_example =
    retry_request_batch-Answers call_twice reconnects 3 0 2 (7 ∷ []) answered_twice
