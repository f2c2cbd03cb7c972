-- ===== src/Rows.antt =====
-- src/index.rs: the rows of the index. A hash is a number, the null hash is 0. The crates that turn
-- values into bytes (bincode, bitcoincash, unsigned_varint) and the hash of a script are parameters,
-- the fields of a `Codec`; a transaction carries the id that bitcoincash computes for it.
pub mod InRow
pub mod OutRow
pub mod IdRow
use electrs_cash.Common.{ℕ, Option, List, take}
use electrs_cash.HeaderList.{BlockHeader}

pub record OutPoint : Type 0 where
  pub txid : ℕ
  pub vout : ℕ

pub record TxIn : Type 0 where
  pub previous_output : OutPoint

pub record TxOut : Type 0 where
  pub value : ℕ
  pub script_pubkey : List ℕ

pub record Transaction : Type 0 where
  pub txid : ℕ
  pub input : List TxIn
  pub output : List TxOut

pub record Block : Type 0 where
  pub header : BlockHeader
  pub txdata : List Transaction

pub record TxInKey : Type 0 where
  pub code : ℕ
  pub prev_hash_prefix : List ℕ
  pub prev_index : List ℕ

pub record TxInRow : Type 0 where
  pub key : TxInKey
  pub txid_prefix : List ℕ

pub record TxOutKey : Type 0 where
  pub code : ℕ
  pub script_hash_prefix : List ℕ

pub record TxOutRow : Type 0 where
  pub key : TxOutKey
  pub txid_prefix : List ℕ
  pub output_index : List ℕ
  pub output_value : List ℕ

pub record TxKey : Type 0 where
  pub code : ℕ
  pub txid : List ℕ

pub record TxRow : Type 0 where
  pub key : TxKey
  pub height : ℕ

pub record BlockKey : Type 0 where
  pub code : ℕ
  pub hash : List ℕ

-- The bytes of the values. The `of_` fields give the value of some bytes, or nothing.
pub record Codec : Type 0 where
  pub hash_bytes : ℕ → List ℕ
  pub compute_script_hash : List ℕ → List ℕ
  pub block_hash : BlockHeader → ℕ
  pub varint : ℕ → List ℕ
  pub of_varint : List ℕ → Option ℕ
  pub tx_in_key : TxInKey → List ℕ
  pub tx_in_row : TxInRow → List ℕ
  pub of_tx_in_row : List ℕ → Option TxInRow
  pub tx_out_key : TxOutKey → List ℕ
  pub tx_out_row : TxOutRow → List ℕ
  pub of_tx_out_row : List ℕ → Option TxOutRow
  pub tx_key : TxKey → List ℕ
  pub of_tx_key : List ℕ → Option TxKey
  pub height : ℕ → List ℕ
  pub of_height : List ℕ → Option ℕ
  pub block_key : BlockKey → List ℕ
  pub of_block_key : List ℕ → Option BlockKey
  pub header : BlockHeader → List ℕ
  pub of_header : List ℕ → Option BlockHeader
  pub of_hash_bytes : List ℕ → Option ℕ

abbrev pub hash_prefix_len : ℕ
hash_prefix_len = 8

-- On the bytes of a hash, which are at least as many.
abbrev pub hash_prefix : List ℕ → List ℕ
hash_prefix hash = take hash_prefix_len hash
