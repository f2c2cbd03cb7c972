-- ===== src/Rows/IdRow.antt =====
-- src/index.rs: the row of a transaction, with its height.
use electrs_cash.Common.{ℕ, List, ◌∷◌}
use electrs_cash.Errors.{Result, ok, expect, ◌>>=◌}
use electrs_cash.Store.{Row}
use electrs_cash.Rows.{Codec, TxRow}

unfoldable pub new : Codec → ℕ → ℕ → TxRow
new codec txid height = record {
  key = record { code = b'T'; txid = codec.hash_bytes txid };
  height = height;
}

unfoldable pub filter_prefix : List ℕ → List ℕ
filter_prefix txid_prefix = b'T' ∷ txid_prefix

unfoldable pub filter_full : Codec → ℕ → List ℕ
filter_full codec txid = b'T' ∷ codec.hash_bytes txid

unfoldable pub to_row : Codec → TxRow → Row
to_row codec row = record { key = codec.tx_key row.key; value = codec.height row.height }

unfoldable pub from_row : Codec → Row → Result TxRow
from_row codec row = do
  key ← expect (codec.of_tx_key row.key)
  height ← expect (codec.of_height row.value)
  ok (record { key = key; height = height })
