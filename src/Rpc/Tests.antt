-- ===== src/Rpc/Tests.antt =====
-- A session that ends, one whose read fails, and a change of two transactions.
use electrs_cash.Common.{
  leb, ◌⊎◌, arith, ℕ, ◌≡◌, refl, true, false, Bool, Option, none, some, List, [], ◌∷◌, ◌++◌, map,
  ◌↔◌, ℕ_discrete, ◌==◌, if◌then◌else◌,
}
use electrs_cash.Errors.{panic, rpc_invalid_params, Result, ok, err, connection, msg}
use electrs_cash.Mempool.{mem}
use electrs_cash.Mempool.Track.{NoDup}
use electrs_cash.Rows.{OutPoint, Transaction}
use electrs_cash.Subscriptions.{BlockchainRpc}
use electrs_cash.Rpc.{
  Sent, parse_requests, handle_replies, notify_scripthash_subscriptions, insert_for_txs,
  insert_for_tx, insert_for_headers, get_scripthashes_effected_by_tx, get_output_scripthash,
  spent_scripthashes, insert_all,
}
use electrs_cash.Rpc.Version.{
  list, best_match, server_version, best_match-bounds, server_version_short_list,
}
use electrs_cash.Rpc.Session.{session_ends, read_failure_waits}
use electrs_cash.Rpc.Changes.{Comes, block_jobs, jobs_of, notify_scripthash_subscriptions_once}

abbrev text : List ℕ → Option (List ℕ)
text line = some line

abbrev fresh : BlockchainRpc
fresh = record {
  subscriptions = [];
  last_header_entry = none;
  doslimits = record { rpc_timeout = 30; max_subscriptions = 10; max_alias_bytes = 100 };
  alias_bytes_used = 0;
}

abbrev echo : List ℕ → BlockchainRpc → BlockchainRpc × Result (List ℕ)
echo line r = (r, ok line)

-- A command that knows one request, and fails on every other one.
abbrev known_only : List ℕ → BlockchainRpc → BlockchainRpc × Result (List ℕ)
known_only [] r = (r, err msg)
known_only (b ∷ line) r = if b == 65 then (r, ok (b ∷ line)) else (r, err msg)

abbrev no_status : ℕ → Result (Option ℕ)
no_status hash = ok none

abbrev sends : Sent (List ℕ) → Result (Unit {0})
sends v = ok tt

ended : (parse_requests text (ok (65 ∷ []) ∷ ok [] ∷ [])).1 ≡ some (ok tt)
unfolding parse_requests
ended = refl

session_ends_example :
    (result : Result (Unit {0})) × ((handle_replies echo no_status sends
        (parse_requests text (ok (65 ∷ []) ∷ ok [] ∷ [])).0
        fresh
        []).1
      ≡ some result)
session_ends_example =
    session_ends text echo no_status sends (ok (65 ∷ []) ∷ ok [] ∷ []) (ok tt) fresh
      ((65 ∷ [], refl), (([], refl), tt)) ended

read_failure_waits_example :
    ((parse_requests text (map ok ((65 ∷ []) ∷ []) ++ err connection ∷ [])).1
      ≡ some (err connection))
    × ((handle_replies known_only no_status sends
          (parse_requests text (map ok ((65 ∷ []) ∷ []) ++ err connection ∷ [])).0
          fresh
          []).1
        ≡ none)
read_failure_waits_example =
    read_failure_waits text known_only no_status sends ((65 ∷ []) ∷ []) connection fresh []
      (65 ∷ [], 65 ∷ [], (refl, refl), refl, refl, tt)

-- A script's hash is its first byte.
abbrev first_byte : List ℕ → ℕ
first_byte [] = 0
first_byte (b ∷ s) = b

abbrev not_null : OutPoint → Bool
not_null o = false

abbrev get_any : ℕ → Option ℕ → Result Transaction
get_any txid block = ok (record {
  txid = txid;
  input = [];
  output =
      (record { value = 1; script_pubkey = 7 ∷ [] })
      ∷ (record { value = 2; script_pubkey = txid ∷ [] })
      ∷ [];
})

abbrev no_block : ℕ → Result (List ℕ)
no_block hash = err msg

notified :
    notify_scripthash_subscriptions first_byte not_null get_any no_block [] (8 ∷ 9 ∷ 8 ∷ [])
    ≡ ok (9 ∷ 8 ∷ 7 ∷ [])
unfolding notify_scripthash_subscriptions insert_for_txs insert_for_tx insert_for_headers
    get_scripthashes_effected_by_tx get_output_scripthash spent_scripthashes insert_all ℕ_discrete
notified = refl

notify_scripthash_subscriptions_once_example :
    NoDup (9 ∷ 8 ∷ 7 ∷ [])
    × ((k : ℕ)
        → (mem k (9 ∷ 8 ∷ 7 ∷ []) ≡ true)
          ↔ Comes first_byte not_null get_any k [] (
              block_jobs first_byte not_null get_any no_block []
              ++ jobs_of first_byte not_null get_any none (8 ∷ 9 ∷ 8 ∷ [])))
notify_scripthash_subscriptions_once_example =
    notify_scripthash_subscriptions_once first_byte not_null get_any no_block [] (8 ∷ 9 ∷ 8 ∷ [])
      (9 ∷ 8 ∷ 7 ∷ []) notified

-- A list of one version.
abbrev one_version : List (Option (List ℕ))
one_version = some (141 ∷ []) ∷ []

-- A version is its first number.
abbrev read_first : List ℕ → Option ℕ
read_first [] = none
read_first (n ∷ r) = some n

abbrev at_least : ℕ → ℕ → Bool
at_least a b = leb b a

at_least_total : (a b : ℕ) → (at_least a b ≡ true) ⊎ (at_least b a ≡ true)
at_least_total a b = ground arith

best_match-bounds_example :
    (at_least (best_match read_first at_least 140 143 100 141) 140 ≡ true)
    × (at_least 143 (best_match read_first at_least 140 143 100 141) ≡ true)
best_match-bounds_example =
    best_match-bounds read_first at_least 140 143 100 141 (λ a. ground arith) at_least_total refl

server_version_short_list_example :
    ((server_version read_first at_least 140 143 (140 ∷ []) (some (list one_version)) ≡ panic)
      × ((one_version ≡ [])
          ⊎ ((s : List ℕ) × (v : ℕ) × (one_version ≡ some s ∷ []) × (read_first s ≡ some v))))
    ⊎ ((server_version read_first at_least 140 143 (140 ∷ []) (some (list one_version))
          ≡ err rpc_invalid_params)
        × ((one_version ≡ none ∷ [])
            ⊎ ((s : List ℕ) × (one_version ≡ some s ∷ []) × (read_first s ≡ none))))
server_version_short_list_example =
    server_version_short_list read_first at_least 140 143 (140 ∷ []) one_version (omega arith)
