-- ===== src/Daemon/Download.antt =====
-- src/daemon.rs: the download of all headers into an empty list, and src/bulk.rs: `load_headers`. The
-- daemon's answers are parameters: the height of a block, and the headers at some heights.
use electrs_cash.Common.{ℕ, zero, suc, ◌+◌, List, [], ◌∷◌, ◌++◌, ◌==◌, length, take, drop}
use electrs_cash.Errors.{Result, ok, ◌>>=◌, ◌>>◌, assert}
use electrs_cash.Daemon.{get_new_headers}
use electrs_cash.HeaderList.{BlockHeader, HeaderList, empty, order, apply}

abbrev pub chunk_size : ℕ
chunk_size = 100000

-- The numbers from `n` on, `k` of them.
abbrev pub heights_from : ℕ → ℕ → List ℕ
heights_from n zero = []
heights_from n (suc k) = n ∷ heights_from (suc n) k

-- `chunks`, with fuel for one chunk more than there are elements.
unfoldable pub chunks : ℕ → ℕ → List ℕ → List (List ℕ)
chunks zero size xs = []
chunks (suc fuel) size [] = []
chunks (suc fuel) size (x ∷ xs) = take size (x ∷ xs) ∷ chunks fuel size (drop size (x ∷ xs))

module _ (getblockheaders : List ℕ → Result (List BlockHeader)) where
  -- The first loop, over the chunks of the heights.
  unfoldable pub download : List (List ℕ) → List BlockHeader → Result (List BlockHeader)
  download [] result = ok result
  download (heights ∷ r) result = do
    headers ← getblockheaders heights
    assert (length headers == length heights)
    download r (result ++ headers)

module _ (block_hash : BlockHeader → ℕ) where
  -- The second loop: each header names the one before it.
  unfoldable pub check_chain : List BlockHeader → ℕ → Result ℕ
  check_chain [] blockhash = ok blockhash
  check_chain (header ∷ r) blockhash = do
    assert (header.prev_blockhash == blockhash)
    check_chain r (block_hash header)

module _ (block_hash : BlockHeader → ℕ) (getblockheaders : List ℕ → Result (List BlockHeader)) where
  unfoldable pub get_all_headers : (ℕ → Result ℕ) → ℕ → Result (List BlockHeader)
  get_all_headers height_of tip = do
    tip_height ← height_of tip
    let all_heights = heights_from 0 (tip_height + 1)
    result ← download getblockheaders (chunks (suc (length all_heights)) chunk_size all_heights) []
    blockhash ← check_chain block_hash result 0
    assert (blockhash == tip)
    ok result

  -- `load_headers`: `get_new_headers` for the empty list, whose walk back is not taken.
  unfoldable pub load_headers :
      (ℕ → Result BlockHeader) → Result ℕ → (ℕ → Result ℕ) → Result HeaderList
  load_headers getblockheader getbestblockhash height_of = do
    tip ← getbestblockhash
    headers ← get_new_headers getblockheader (get_all_headers height_of) 0 empty tip
    new_headers ← order block_hash empty headers
    apply empty new_headers tip
