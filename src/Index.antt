-- ===== src/Index.antt =====
-- src/index.rs: what is written for a block, how the headers are read back at start-up, and the
-- update of the index to the daemon's tip. `CashAccountParser::index_cashaccount` is a parameter,
-- and so are the daemon's answers and the waiter's. The walk over the stored headers is on fuel;
-- out of fuel counts as a panic. The metrics are left out.
pub mod Down
pub mod Recover
pub mod Update
pub mod Batches
pub mod Written
pub mod Found
pub mod Unconfirmed
mod Tests
use electrs_cash.Common.{
  ℕ, zero, suc, ◌+◌, ◌%◌, ◌^◌, Bool, true, false, Option, none, some, List, [], ◌∷◌, ◌++◌, map,
  ◌==◌, if◌then◌else◌, length, last, ℕ_discrete,
}
use electrs_cash.Common.Map.{lookup, insert, remove}
use electrs_cash.Errors.{Result, ok, err, panic, assert, expect, ◌>>=◌, ◌>>◌}
use electrs_cash.HeaderList.{
  BlockHeader, HeaderEntry, HeaderList, empty, order, apply, header_by_blockhash, header_by_height,
  tiphash, tip,
}
use electrs_cash.Store.{Row, ReadStore}
use electrs_cash.Rows.{Codec, TxIn, TxOut, Transaction, Block, BlockKey}
use electrs_cash.Rows
use electrs_cash.Daemon.{reverse}

unfoldable pub option_rows : Option Row → List Row
option_rows none = []
option_rows (some row) = row ∷ []

-- The loop from the latest hash down to the null hash.
unfoldable pub walk_down :
    ℕ → List (ℕ × BlockHeader) → ℕ → List BlockHeader → Result (List BlockHeader)
walk_down zero m blockhash headers = panic
walk_down (suc fuel) m blockhash headers = if blockhash == 0 then ok headers else (do
  header ← expect (lookup ℕ_discrete blockhash m)
  walk_down fuel (remove ℕ_discrete blockhash m) header.prev_blockhash (headers ++ header ∷ []))

unfoldable pub first_prev : List BlockHeader → ℕ
first_prev [] = 0
first_prev (h ∷ r) = h.prev_blockhash

module _ (codec : Codec) where
  -- The rows of the inputs. An input that spends the null hash has none.
  unfoldable pub index_inputs : ℕ → List TxIn → List Row
  index_inputs txid [] = []
  index_inputs txid (input ∷ r) =
      let rest = index_inputs txid r in
      if input.previous_output.txid == 0
      then rest
      else Rows.InRow.to_row codec (Rows.InRow.new codec txid input) ∷ rest

  -- The rows of the outputs, from an index on.
  unfoldable pub index_outputs : ℕ → ℕ → List TxOut → List Row
  index_outputs txid i [] = []
  index_outputs txid i (output ∷ r) =
      Rows.OutRow.to_row codec (Rows.OutRow.new codec txid output i) ∷ index_outputs txid (suc i) r

  unfoldable pub index_transaction :
      Transaction → ℕ → Option (Transaction → ℕ → Option Row) → List Row
  index_transaction txn height cashaccount =
      index_inputs txn.txid txn.input
      ++ (index_outputs txn.txid 0 txn.output
          ++ (Rows.IdRow.to_row codec (Rows.IdRow.new codec txn.txid (height % 2 ^ 32))
              ∷ cashaccount_row))
    where
      cashaccount_row : List Row
      cashaccount_row = elim cashaccount [
        | none ↦ []
        | some index_cashaccount ↦ option_rows (index_cashaccount txn (height % 2 ^ 32))
      ]

  -- The row of a block's hash and header.
  unfoldable pub block_row : BlockHeader → Row
  block_row header = record {
    key =
        codec.block_key (record { code = b'B'; hash = codec.hash_bytes (codec.block_hash header) });
    value = codec.header header;
  }

  unfoldable pub index_transactions :
      (Transaction → ℕ → Option Row) → ℕ → List Transaction → List Row
  index_transactions cashaccount height [] = []
  index_transactions cashaccount height (txn ∷ r) =
      index_transaction txn height (some cashaccount) ++ index_transactions cashaccount height r

  unfoldable pub index_block : Block → ℕ → (Transaction → ℕ → Option Row) → List Row
  index_block block height cashaccount =
      index_transactions cashaccount height block.txdata ++ block_row block.header ∷ []

  unfoldable pub last_indexed_block : ℕ → Row
  last_indexed_block blockhash = record { key = b'L' ∷ []; value = codec.hash_bytes blockhash }

  -- The hashes of the rows, for `read_indexed_blockhashes`.
  unfoldable pub row_hashes : List Row → Result (List ℕ)
  row_hashes [] = ok []
  row_hashes (row ∷ r) = do
    key ← expect (codec.of_block_key row.key)
    hash ← expect (codec.of_hash_bytes key.hash)
    rest ← row_hashes r
    ok (hash ∷ rest)

  unfoldable pub read_indexed_blockhashes : ReadStore → Result (List ℕ)
  read_indexed_blockhashes store = row_hashes (store.scan (b'B' ∷ []))

  unfoldable pub latest_blockhash : ReadStore → Result ℕ
  latest_blockhash store = elim (store.get (b'L' ∷ [])) [
    | none ↦ ok 0
    | some row ↦ expect (codec.of_hash_bytes row)
  ]

  -- The map from hashes to headers that `read_indexed_headers` fills.
  unfoldable pub header_map : List Row → List (ℕ × BlockHeader) → Result (List (ℕ × BlockHeader))
  header_map [] m = ok m
  header_map (row ∷ r) m = do
    key ← expect (codec.of_block_key row.key)
    header ← expect (codec.of_header row.value)
    hash ← expect (codec.of_hash_bytes key.hash)
    header_map r (insert ℕ_discrete hash header m)

  unfoldable pub last_hash : List BlockHeader → ℕ
  last_hash headers = elim (last headers) [ none ↦ 0 | some h ↦ codec.block_hash h ]

  -- One turn per entry of the map, and one more, is enough: each turn removes an entry.
  unfoldable pub read_indexed_headers : ReadStore → Result HeaderList
  read_indexed_headers store = do
    latest ← latest_blockhash store
    m ← header_map (store.scan (b'B' ∷ [])) []
    down ← walk_down (suc (length m)) m latest []
    let headers = reverse down
    assert (first_prev headers == 0)
    assert (last_hash headers == latest)
    entries ← order codec.block_hash empty headers
    apply empty entries latest
