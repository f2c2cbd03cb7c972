-- ===== src/Rows/OutRow.antt =====
-- src/index.rs: the row of an output, found by the hash of its script.
use electrs_cash.Common.{ℕ, ◌%◌, ◌^◌, List, []}
use electrs_cash.Errors.{Result, ok, expect, ◌>>=◌}
use electrs_cash.Store.{Row}
use electrs_cash.Rows.{Codec, TxOut, TxOutRow, hash_prefix}

unfoldable pub decode_varint : Codec → List ℕ → Result ℕ
decode_varint codec index = expect (codec.of_varint index)

unfoldable pub new : Codec → ℕ → TxOut → ℕ → TxOutRow
new codec txid output output_index = record {
  key = record {
    code = b'O';
    script_hash_prefix = hash_prefix (codec.compute_script_hash output.script_pubkey);
  };
  txid_prefix = hash_prefix (codec.hash_bytes txid);
  output_index = codec.varint output_index;
  output_value = codec.varint output.value;
}

unfoldable pub filter : Codec → List ℕ → List ℕ
filter codec script_hash =
    codec.tx_out_key (record { code = b'O'; script_hash_prefix = hash_prefix script_hash })

unfoldable pub to_row : Codec → TxOutRow → Row
to_row codec row = record { key = codec.tx_out_row row; value = [] }

unfoldable pub from_row : Codec → Row → Result TxOutRow
from_row codec row = expect (codec.of_tx_out_row row.key)

-- `as u32`.
unfoldable pub get_output_index : Codec → TxOutRow → Result ℕ
get_output_index codec row = do index ← decode_varint codec row.output_index; ok (index % 2 ^ 32)

unfoldable pub get_output_value : Codec → TxOutRow → Result ℕ
get_output_value codec row = decode_varint codec row.output_value
