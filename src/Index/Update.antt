-- ===== src/Index/Update.antt =====
-- src/index.rs: the update of the index to the daemon's tip. The daemon's answers and the waiter's
-- are parameters. The fetcher's channel yields the answers of `getblock` in the order of the
-- hashes. The log is the list of the batches written to the store, and the list of headers changes
-- at the end only.
use electrs_cash.Common.{
  ℕ, suc, ◌%◌, Option, none, some, List, [], ◌∷◌, ◌++◌, map, ◌==◌, if◌then◌else◌, ℕ_discrete,
}
use electrs_cash.Common.Map.{lookup, insert}
use electrs_cash.Errors.{Result, ok, err, panic, assert, expect, ◌>>=◌, ◌>>◌}
use electrs_cash.HeaderList.{
  BlockHeader, HeaderEntry, HeaderList, order, apply, header_by_blockhash, header_by_height,
  tiphash, tip,
}
use electrs_cash.Store.{Row}
use electrs_cash.Rows.{Codec, Transaction, Block}
use electrs_cash.Index.{index_block, last_indexed_block}

unfoldable pub best_header : HeaderList → Option HeaderEntry
best_header headers = header_by_blockhash headers (tiphash headers)

unfoldable pub get_header : HeaderList → ℕ → Result (Option HeaderEntry)
get_header headers height = header_by_height headers height

-- `collect` into the map from hashes to heights.
unfoldable pub height_map : List HeaderEntry → List (ℕ × ℕ) → List (ℕ × ℕ)
height_map [] m = m
height_map (h ∷ r) m = height_map r (insert ℕ_discrete h.hash h.height m)

module _ (codec : Codec) (cashaccount : Transaction → ℕ → Option Row) where
  -- The rows written for the `i`-th block, with the marker every thousandth time.
  unfoldable pub batch : ℕ → Block → ℕ → List Row
  batch i block height =
      index_block codec block height cashaccount
      ++ (if i % 1000 == 0
          then last_indexed_block codec (codec.block_hash block.header) ∷ []
          else [])

  module _ (poll : ℕ → Result (Unit {0})) (getblock : ℕ → Result Block) where
    -- The loop of `update`, with the log and the last block's hash.
    unfoldable pub index_loop :
        List (ℕ × ℕ) → List ℕ → ℕ → List (List Row) → Option ℕ → List (List Row) × Result (Option ℕ)
    index_loop heights [] i log prev_blockhash = (log, poll i >> ok prev_blockhash)
    index_loop heights (blockhash ∷ r) i log prev_blockhash = elim (poll i >> getblock blockhash) [
      | panic ↦ (log, panic)
      | err e ↦ (log, err e)
      | ok block ↦ elim (lookup ℕ_discrete (codec.block_hash block.header) heights) [
        | none ↦ (log, panic)
        | some height ↦
            index_loop heights r (suc i) (log ++ batch (suc i) block height ∷ [])
              (some (codec.block_hash block.header))
      ]
    ]

    -- The end of `update`: the new headers are applied, and their tip is the daemon's.
    unfoldable pub finish :
        HeaderList → List HeaderEntry → ℕ → Result (HeaderList × (List HeaderEntry × HeaderEntry))
    finish headers new_headers tip_hash = do
      headers' ← apply headers new_headers tip_hash
      tip_header ← expect (tip headers')
      assert (tip_hash == tip_header.hash)
      ok (headers', (new_headers, tip_header))

    -- The marker that is written after the loop.
    unfoldable pub final_marker : Option ℕ → List (List Row)
    final_marker none = []
    final_marker (some h) = (last_indexed_block codec h ∷ []) ∷ []

    module _ (reconnect : Result (Unit {0})) (getbestblockhash : Result ℕ)
        (get_new_headers : HeaderList → ℕ → Result (List BlockHeader)) where
      -- The new connection to the daemon, its tip and the headers to index.
      unfoldable pub plan : HeaderList → Result (ℕ × List HeaderEntry)
      plan headers = do
        tip_hash ← reconnect >> getbestblockhash
        hs ← get_new_headers headers tip_hash
        new_headers ← order codec.block_hash headers hs
        ok (tip_hash, new_headers)

      unfoldable pub update :
          HeaderList → List (List Row) × Result (HeaderList × (List HeaderEntry × HeaderEntry))
      update headers = elim (plan headers) [
        | panic ↦ ([], panic)
        | err e ↦ ([], err e)
        | ok planned ↦ after planned.1 planned.0 (
            index_loop (height_map planned.1 []) (map (λ (h : HeaderEntry). h.hash) planned.1) 0 []
              none)
      ]
        where
          after :
              List HeaderEntry
              → ℕ
              → List (List Row) × Result (Option ℕ)
              → List (List Row) × Result (HeaderList × (List HeaderEntry × HeaderEntry))
          after new_headers tip_hash (log, panic) = (log, panic)
          after new_headers tip_hash (log, err e) = (log, err e)
          after new_headers tip_hash (log, ok prev_blockhash) =
              (log ++ final_marker prev_blockhash, finish headers new_headers tip_hash)
