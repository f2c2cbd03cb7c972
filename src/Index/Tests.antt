-- ===== src/Index/Tests.antt =====
-- A codec of plain lists, a store with three headers, and an update by one block.
use electrs_cash.Common.{
  ℕ, ◌%◌, ◌^◌, ◌∙◌, sym, ap, ◌≡◌, refl, Option, none, some, List, [], ◌∷◌, ◌++◌, arith, length,
  take, ℕ_discrete, ◌==◌, if◌then◌else◌, map,
}
use electrs_cash.Common.Map.{lookup}
use electrs_cash.Errors.{Result, ok, err, msg}
use electrs_cash.HeaderList.{
  BlockHeader, HeaderEntry, HeaderList, tiphash, order, header_by_blockhash, hash_headers,
  hashed_linked, order_hashed, new_height, number_from,
}
use electrs_cash.HeaderList.Chain.{IsValid, ChainFrom}
use electrs_cash.Store.{Row, ReadStore, into_pair}
use electrs_cash.Store.Scan.{matching}
use electrs_cash.Rows.{
  Codec, Transaction, Block, TxIn, TxOut, TxInKey, TxInRow, TxOutKey, TxOutRow, TxKey, BlockKey,
}
use electrs_cash.Rows
use electrs_cash.Index.{read_indexed_headers, block_row, last_indexed_block, index_transaction}
use electrs_cash.Index.Recover.{Decodes, read_indexed_headers_recovers}
use electrs_cash.Index.Update.{update, index_loop}
use electrs_cash.Index.Batches.{Fetched, Logged, index_loop-batches}
use electrs_cash.Index.Written.{batches, served, all_served, update_total}
use electrs_cash.Index.Found.{KeyBytes, paying, matching-index_transaction}

abbrev pad : ℕ → List ℕ
pad k = k ∷ 0 ∷ 0 ∷ 0 ∷ 0 ∷ 0 ∷ 0 ∷ 0 ∷ []

abbrev first : List ℕ → Option ℕ
first [] = none
first (x ∷ xs) = some x

abbrev read_key : List ℕ → Option BlockKey
read_key [] = none
read_key (c ∷ h) = some (record { code = c; hash = h })

abbrev header_bytes : BlockHeader → List ℕ
header_bytes h = h.version ∷ h.prev_blockhash ∷ h.merkle_root ∷ h.time ∷ h.bits ∷ h.nonce ∷ []

abbrev read_header : List ℕ → Option BlockHeader
read_header (a ∷ b ∷ c ∷ d ∷ e ∷ f ∷ r) =
    some
      (record { version = a; prev_blockhash = b; merkle_root = c; time = d; bits = e; nonce = f })
read_header x = none

-- The hash of a header is its nonce.
abbrev plain : Codec
plain = record {
  hash_bytes = pad;
  compute_script_hash = λ s. pad (length s);
  block_hash = λ h. h.nonce;
  varint = λ n. n ∷ [];
  of_varint = first;
  tx_in_key = λ k. k.code ∷ (k.prev_hash_prefix ++ k.prev_index);
  tx_in_row = λ r. r.key.code ∷ (r.key.prev_hash_prefix ++ (r.key.prev_index ++ r.txid_prefix));
  of_tx_in_row = λ b. none;
  tx_out_key = λ k. k.code ∷ k.script_hash_prefix;
  tx_out_row = λ r.
      r.key.code
      ∷ (r.key.script_hash_prefix ++ (r.txid_prefix ++ (r.output_index ++ r.output_value)));
  of_tx_out_row = λ b. none;
  tx_key = λ k. k.code ∷ k.txid;
  of_tx_key = λ b. none;
  height = λ h. h ∷ [];
  of_height = first;
  block_key = λ k. k.code ∷ k.hash;
  of_block_key = read_key;
  header = header_bytes;
  of_header = read_header;
  of_hash_bytes = first;
}

plain-Decodes : Decodes plain
plain-Decodes = record { block_key = λ k. refl; header = λ h. refl; hash = λ k. refl }

plain-KeyBytes : KeyBytes plain
plain-KeyBytes = record {
  tx_in_row = λ r. (_, refl);
  tx_out_key = λ k. refl;
  tx_out_row = λ r. (r.txid_prefix ++ (r.output_index ++ r.output_value), refl);
  tx_key = λ k. refl;
}

abbrev header_at : ℕ → ℕ → BlockHeader
header_at prev hash = record {
  version = 1;
  prev_blockhash = prev;
  merkle_root = 0;
  time = 0;
  bits = 0;
  nonce = hash;
}

abbrev entry_at : ℕ → ℕ → ℕ → HeaderEntry
entry_at n prev hash = record { height = n; hash = hash; header = header_at prev hash }

abbrev two_headers : HeaderList
two_headers = record {
  headers = entry_at 0 0 1 ∷ entry_at 1 1 2 ∷ [];
  heights = (1, 0) ∷ (2, 1) ∷ [];
}

two_headers-IsValid : IsValid two_headers
unfolding lookup ℕ_discrete
two_headers-IsValid = record {
  chain = (refl, refl, (refl, refl, tt));
  recorded = (refl, (refl, tt));
}

-- The rows of the two headers and of one on another branch.
abbrev stored : List BlockHeader
stored = header_at 1 9 ∷ header_at 1 2 ∷ header_at 0 1 ∷ []

abbrev small_store : ReadStore
small_store = record {
  get = λ key. some (last_indexed_block plain (tiphash two_headers)).value;
  scan = λ prefix. map (block_row plain) stored;
}

read_indexed_headers_recovers_example :
    (l : HeaderList) × (read_indexed_headers plain small_store ≡ ok l)
    × (l.headers ≡ two_headers.headers)
read_indexed_headers_recovers_example =
    read_indexed_headers_recovers plain small_store two_headers stored plain-Decodes
      two_headers-IsValid (refl, (refl, tt)) (omega arith, (omega arith, tt)) refl refl
      ((omega arith, (omega arith, tt)), ((omega arith, tt), (tt, tt))) ((2, refl), ((1, refl), tt))

abbrev no_cashaccount : Transaction → ℕ → Option Row
no_cashaccount txn height = none

abbrev quiet : ℕ → Result (Unit {0})
quiet n = ok tt

abbrev next_block : Block
next_block = record {
  header = header_at 2 3;
  txdata =
      (record {
        txid = 5;
        input = [];
        output = (record { value = 7; script_pubkey = 1 ∷ [] }) ∷ [];
      })
      ∷ [];
}

abbrev serves : ℕ → Result Block
serves hash = if hash == 3 then ok next_block else err msg

index_loop-batches_example :
    (bs : List (Block × ℕ)) × (written : List (List Row)) × Fetched plain no_cashaccount quiet
      serves
      ((3, 2) ∷ [])
      (3 ∷ 4 ∷ [])
      bs
    × Logged plain no_cashaccount 0 bs written
    × ((index_loop plain no_cashaccount quiet serves ((3, 2) ∷ []) (3 ∷ 4 ∷ []) 0 [] none).0
        ≡ [] ++ written)
index_loop-batches_example =
    index_loop-batches plain no_cashaccount quiet serves ((3, 2) ∷ []) (3 ∷ 4 ∷ []) 0 [] none

next_ordered : order plain.block_hash two_headers (header_at 2 3 ∷ []) ≡ ok (entry_at 2 2 3 ∷ [])
unfolding order hash_headers hashed_linked order_hashed new_height number_from header_by_blockhash
    lookup ℕ_discrete
next_ordered = refl

update_total_example :
    (l' : HeaderList) × (n : ℕ) × (t : HeaderEntry) × (l'.headers
      ≡ take n two_headers.headers ++ entry_at 2 2 3 ∷ [])
    × ChainFrom 0 0 l'.headers
    × (tiphash l' ≡ 3)
    × (t.hash ≡ 3)
    × (update plain no_cashaccount quiet serves
          (ok tt)
          (ok 3)
          (λ l tip. ok (header_at 2 3 ∷ []))
          two_headers
        ≡ (
          batches plain no_cashaccount 0 ((next_block, 2) ∷ [])
              ++ (last_indexed_block plain 3 ∷ []) ∷ [],
          ok (l', (entry_at 2 2 3 ∷ [], t)),
        ))
update_total_example =
    update_total plain no_cashaccount quiet serves (ok tt) (ok 3) (λ l tip. ok (header_at 2 3 ∷ []))
      two_headers (header_at 2 3 ∷ []) (entry_at 2 2 3 ∷ []) (entry_at 2 2 3) ((next_block, 2) ∷ [])
      two_headers-IsValid refl refl refl next_ordered refl (omega arith) (tt, tt)
      (served (entry_at 2 2 3) [] next_block [] refl refl all_served) (λ n. refl)

abbrev payment : Transaction
payment = record {
  txid = 5;
  input = (record { previous_output = record { txid = 4; vout = 0 } }) ∷ [];
  output =
      (record { value = 7; script_pubkey = 1 ∷ [] })
      ∷ (record { value = 8; script_pubkey = [] })
      ∷ [];
}

-- The row of a cash account.
abbrev cash_row : Transaction → ℕ → Option Row
cash_row txn height = some (record { key = 67 ∷ 1 ∷ 2 ∷ []; value = [] })

cash_row_coded :
    (index : Transaction → ℕ → Option Row) (row : Row)
    → some cash_row ≡ some index
    → index payment (2 % 2 ^ 32) ≡ some row
    → (tail : List ℕ) × (row.key ≡ 67 ∷ tail)
cash_row_coded index row same found = (
  1 ∷ 2 ∷ [],
  sym (ap key_of (ap (λ (g : Option (Transaction → ℕ → Option Row)). applied g) same ∙ found)),
)
  where
    applied : Option (Transaction → ℕ → Option Row) → Option Row
    applied none = none
    applied (some g) = g payment 2

    key_of : Option Row → List ℕ
    key_of none = []
    key_of (some r) = r.key

matching-index_transaction_example :
    matching
      (Rows.OutRow.filter plain (pad 1))
      (map into_pair (index_transaction plain payment 2 (some cash_row)))
    ≡ paying plain plain-KeyBytes (pad 1) 5 0 payment.output
matching-index_transaction_example =
    matching-index_transaction plain plain-KeyBytes (λ s. refl) (pad 1) payment 2 (some cash_row)
      refl cash_row_coded
