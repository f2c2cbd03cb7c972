-- ===== src/Rows/InRow.antt =====
-- src/index.rs: the row of an input, found by the output that it spends.
use electrs_cash.Common.{[], List, ℕ}
use electrs_cash.Errors.{Result, expect}
use electrs_cash.Store.{Row}
use electrs_cash.Rows.{Codec, OutPoint, TxIn, TxInKey, TxInRow, hash_prefix}

-- The key of the row of the input that spends an output.
abbrev pub key_of : Codec → OutPoint → TxInKey
key_of codec prevout = record {
  code = b'I';
  prev_hash_prefix = hash_prefix (codec.hash_bytes prevout.txid);
  prev_index = codec.varint prevout.vout;
}

unfoldable pub new : Codec → ℕ → TxIn → TxInRow
new codec txid input = record {
  key = key_of codec input.previous_output;
  txid_prefix = hash_prefix (codec.hash_bytes txid);
}

unfoldable pub filter : Codec → OutPoint → List ℕ
filter codec prevout = codec.tx_in_key (key_of codec prevout)

unfoldable pub to_row : Codec → TxInRow → Row
to_row codec row = record { key = codec.tx_in_row row; value = [] }

unfoldable pub from_row : Codec → Row → Result TxInRow
from_row codec row = expect (codec.of_tx_in_row row.key)
