-- ===== src/Bulk/Tests.antt =====
-- A block file of one zero, a record without a block, a record with a block and two zeros.
use electrs_cash.Common.{
  ℕ, suc, ◌+◌, ◌*◌, ◌/◌, ◌%◌, ◌^◌, ◌<◌, ◌≡◌, ◌≢◌, refl, true, Option, none, some, List, [], ◌∷◌,
  ◌++◌, arith, length, ◌↔◌, ℕ_discrete, take, get_elem?, All,
}
use electrs_cash.Common.Map.{lookup}
use electrs_cash.Errors.{Result, ok, panic}
use electrs_cash.HeaderList.{HeaderEntry, HeaderList, header_by_blockhash}
use electrs_cash.Bulk.{parse_blocks, contains, index_blocks, last_indexed_hash, indexed_headers}
use electrs_cash.Bulk.Turns.{parse_blocks_total}
use electrs_cash.Bulk.Cut.{Cut, cut_body, padded, behind, parse_blocks-Cut}
use electrs_cash.Bulk.Format.{Records, at_end, padding, unwritten, written, parse_blocks-Records}
use electrs_cash.Bulk.Once.{
  index_blocks_once, contains-index_blocks, last_indexed_hash-Marked, Picked, rows_of,
}

-- Four bytes, the low one first.
abbrev read_le : List ℕ → Option ℕ
read_le (a ∷ b ∷ c ∷ d ∷ r) = some (a + 256 * (b + 256 * (c + 256 * d)))
read_le (a ∷ b ∷ c ∷ []) = none
read_le (a ∷ b ∷ []) = none
read_le (a ∷ []) = none
read_le [] = none

abbrev write_le : ℕ → List ℕ
write_le n = n % 256 ∷ n / 256 % 256 ∷ n / 65536 % 256 ∷ n / 16777216 % 256 ∷ []

-- A block is its bytes.
abbrev any_block : List ℕ → Option (List ℕ)
any_block bytes = some bytes

abbrev the_magic : ℕ
the_magic = 185665799

read-write : (n : ℕ) (rest : List ℕ) → n < 2 ^ 32 → read_le (write_le n ++ rest) ≡ some n
read-write n rest small = ground arith

read_short : (xs : List ℕ) → (read_le xs ≡ none) ↔ (length xs < 4)
read_short xs = ground arith

read_zero : (xs : List ℕ) → read_le (0 ∷ xs) ≢ some the_magic
read_zero xs = ground arith

abbrev blob : List ℕ
blob =
    0 ∷ 7 ∷ 9 ∷ 17 ∷ 11 ∷ 99 ∷ 0 ∷ 0 ∷ 0 ∷ 7 ∷ 9 ∷ 17 ∷ 11 ∷ 5 ∷ 0 ∷ 0 ∷ 0 ∷ 1 ∷ 0 ∷ 0 ∷ 0 ∷ 42 ∷ 0
    ∷ 0 ∷ []

abbrev body : List ℕ
body = 1 ∷ 0 ∷ 0 ∷ 0 ∷ 42 ∷ []

records : Records read_le write_le any_block the_magic blob (body ∷ [])
records = padding _ _ (
    unwritten 99 _ _ (omega arith) (
      written 1 (42 ∷ []) (0 ∷ 0 ∷ []) body [] (omega arith) (omega arith) (omega arith) refl
        (padding _ _ (padding _ _ at_end))))

parse_blocks-Records_example : parse_blocks read_le any_block the_magic blob ≡ some (ok (body ∷ []))
parse_blocks-Records_example =
    parse_blocks-Records read_le write_le any_block the_magic read-write (λ n. refl) read_short
      (omega arith) read_zero blob (body ∷ []) records

parse_blocks_total_example :
    (result : Result (List (List ℕ))) × (parse_blocks read_le any_block the_magic blob
      ≡ some result)
parse_blocks_total_example = parse_blocks_total read_le any_block the_magic blob

-- A record with a block, a zero, and a record of which 5 of 80 bytes are written.
cut_file : Cut read_le write_le any_block the_magic (
    7 ∷ 9 ∷ 17 ∷ 11 ∷ 5 ∷ 0 ∷ 0 ∷ 0 ∷ 1 ∷ 0 ∷ 0 ∷ 0 ∷ 42 ∷ 0 ∷ 7 ∷ 9 ∷ 17 ∷ 11 ∷ 80 ∷ 0 ∷ 0 ∷ 0 ∷ 1
    ∷ 0 ∷ 0 ∷ 0 ∷ 42 ∷ [])
cut_file =
    behind 1 (42 ∷ []) _ body (omega arith) (omega arith) (omega arith) refl
      (padded _ (cut_body 80 1 (42 ∷ []) (omega arith) (omega arith) (omega arith) (omega arith)))

parse_blocks-Cut_example :
    parse_blocks read_le any_block the_magic (
      7 ∷ 9 ∷ 17 ∷ 11 ∷ 5 ∷ 0 ∷ 0 ∷ 0 ∷ 1 ∷ 0 ∷ 0 ∷ 0 ∷ 42 ∷ 0 ∷ 7 ∷ 9 ∷ 17 ∷ 11 ∷ 80 ∷ 0 ∷ 0 ∷ 0
      ∷ 1 ∷ 0 ∷ 0 ∷ 0 ∷ 42 ∷ [])
    ≡ some panic
parse_blocks-Cut_example =
    parse_blocks-Cut read_le write_le any_block the_magic read-write (λ n. refl) read_short
      (omega arith) read_zero _ cut_file

abbrev entry : ℕ → ℕ → HeaderEntry
entry n hash = record {
  height = n;
  hash = hash;
  header = record {
    version = 1;
    prev_blockhash = n;
    merkle_root = 0;
    time = 0;
    bits = 0;
    nonce = 0;
  };
}

-- Headers with the hashes 1, 2 and 3.
abbrev headers : HeaderList
headers = record {
  headers = entry 0 1 ∷ entry 1 2 ∷ entry 2 3 ∷ [];
  heights = (1, 0) ∷ (2, 1) ∷ (3, 2) ∷ [];
}

-- A block is its hash, and has its hash and height as its row.
abbrev row : ℕ → ℕ → List (ℕ × ℕ)
row block height = (block, height) ∷ []

index_blocks_once_example :
    (picks : List (ℕ × HeaderEntry)) × Picked {Row = ℕ × ℕ}
      (λ (b : ℕ). b)
      row
      headers
      (3 ∷ [])
      picks
    × ((index_blocks (λ (b : ℕ). b) row headers (2 ∷ 9 ∷ 2 ∷ 3 ∷ []) (3 ∷ [], [])).1
        ≡ [] ++ rows_of (λ (b : ℕ). b) row headers picks)
index_blocks_once_example =
    index_blocks_once (λ (b : ℕ). b) row headers (2 ∷ 9 ∷ 2 ∷ 3 ∷ []) (3 ∷ []) []

known_two : header_by_blockhash headers 2 ≡ some (entry 1 2)
unfolding header_by_blockhash lookup ℕ_discrete
known_two = refl

known_two_contained :
    contains (index_blocks (λ (b : ℕ). b) row headers (9 ∷ 2 ∷ 3 ∷ []) ([], [])).0 2 ≡ true
known_two_contained =
    contains-index_blocks (λ (b : ℕ). b) row headers (9 ∷ []) (3 ∷ []) [] [] 2 (entry 1 2) known_two

two_indexed : last_indexed_hash (2 ∷ 1 ∷ []) headers ≡ ok 2
unfolding last_indexed_hash indexed_headers ℕ_discrete
two_indexed = refl

two_indexed_below :
    (n : ℕ) × (e : HeaderEntry) × (get_elem? headers.headers n ≡ some e)
    × (e.hash ≡ 2)
    × All (λ (h : HeaderEntry). contains (2 ∷ 1 ∷ []) h.hash ≡ true) (take (suc n) headers.headers)
two_indexed_below = last_indexed_hash-Marked (2 ∷ 1 ∷ []) headers 2 two_indexed
