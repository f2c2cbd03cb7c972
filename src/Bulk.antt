-- ===== src/Bulk.antt =====
-- src/bulk.rs: the import of the node's block files. Bytes are numbers. `u32::consensus_decode` and
-- `deserialize` of a block, of the crate bitcoincash, are parameters: the first gives the number at
-- the front of the bytes, the second a block or nothing. The rows of a block are a parameter here.
pub mod Turns
pub mod Format
pub mod Cut
pub mod Once
mod Tests
use electrs_cash.Common.{
  ℕ, zero, suc, ◌+◌, ◌-◌, Bool, true, false, not, Option, none, some, List, [], ◌∷◌, ◌++◌, ltb, leb,
  ◌==◌, if◌then◌else◌, length, take, drop, last, ite, ℕ_discrete,
}
use electrs_cash.Errors.{Result, ok, err, panic, msg, expect, ◌>>=◌}
use electrs_cash.HeaderList.{HeaderEntry, HeaderList, header_by_blockhash}

-- `blob[start..end]`, a panic where the range ends behind the blob.
unfoldable pub slice : List ℕ → ℕ → ℕ → Result (List ℕ)
slice blob start end =
    if leb end (length blob) then ok (take (end - start) (drop start blob)) else panic

-- What a turn of the loop does: it leaves the loop, or goes on from a position.
pub data Turn {ℓ} (Block : Type ℓ) : Type ℓ where
  stop : Result (List Block) → Turn Block
  continue : ℕ → List Block → Turn Block

module _ {ℓ} {Block : Type ℓ} (read_u32 : List ℕ → Option ℕ) (deserialize : List ℕ → Option Block)
    (magic : ℕ) where
  -- A block's bytes, from `start` to `end`.
  unfoldable pub parse_body : List ℕ → ℕ → ℕ → List Block → Turn Block
  parse_body blob start end blocks = elim (slice blob start end) [
    | panic ↦ stop panic
    | err e ↦ stop (err e)
    | ok body ↦ elim (deserialize body) [
      | none ↦ stop (err msg)
      | some block ↦ continue end (blocks ++ block ∷ [])
    ]
  ]

  -- One turn of the loop of `parse_blocks`, at a position in the blob.
  unfoldable pub turn : List ℕ → ℕ → List Block → Turn Block
  turn blob offset blocks =
      if not (ltb offset (length blob))
      then stop (ok blocks)
      else elim (read_u32 (drop offset blob)) [
        | none ↦ stop (ok blocks)
        | some value ↦
            if not (magic == value)
            then continue (offset + 1) blocks
            else elim (read_u32 (drop (offset + 4) blob)) [
              | none ↦ stop (err msg)
              | some block_size ↦ elim (read_u32 (drop (offset + 8) blob)) [
                | none ↦ stop (ok blocks)
                | some version ↦
                    if magic == version
                    then continue (offset + 8) blocks
                    else parse_body blob (offset + 8) (offset + 8 + block_size) blocks
              ]
            ]
      ]

  -- The loop from a position on, none if the fuel runs out.
  unfoldable pub parse_from : ℕ → List ℕ → ℕ → List Block → Option (Result (List Block))
  parse_from zero blob offset blocks = none
  parse_from (suc fuel) blob offset blocks = elim (turn blob offset blocks) [
    | stop result ↦ some result
    | continue position found ↦ parse_from fuel blob position found
  ]

  unfoldable pub parse_blocks : List ℕ → Option (Result (List Block))
  parse_blocks blob = parse_from (suc (length blob)) blob 0 []

-- `HashSet::contains`.
abbrev pub contains : List ℕ → ℕ → Bool
contains [] k = false
contains (j ∷ r) k = ite (ℕ_discrete j k) true (contains r k)

module _ {ℓ} {Block Row : Type ℓ} (block_hash : Block → ℕ) (index_block : Block → ℕ → List Row)
    (current_headers : HeaderList) where
  -- One block of `index_blkfile`: the set of indexed hashes, and the rows so far.
  unfoldable pub index_one : Block → List ℕ × List Row → List ℕ × List Row
  index_one block (indexed_blockhashes, rows) =
      elim (header_by_blockhash current_headers (block_hash block)) [
        | none ↦ (indexed_blockhashes, rows)
        | some header ↦
            if contains indexed_blockhashes (block_hash block)
            then (indexed_blockhashes, rows)
            else (block_hash block ∷ indexed_blockhashes, rows ++ index_block block header.height)
      ]

  unfoldable pub index_blocks : List Block → List ℕ × List Row → List ℕ × List Row
  index_blocks [] s = s
  index_blocks (block ∷ blocks) s = index_blocks blocks (index_one block s)

-- `take_while` on the headers of the list.
unfoldable pub indexed_headers : List ℕ → List HeaderEntry → List HeaderEntry
indexed_headers indexed_blockhashes [] = []
indexed_headers indexed_blockhashes (h ∷ r) =
    if contains indexed_blockhashes h.hash then h ∷ indexed_headers indexed_blockhashes r else []

-- The hash that `last_indexed_row` puts in the marker.
unfoldable pub last_indexed_hash : List ℕ → HeaderList → Result ℕ
last_indexed_hash indexed_blockhashes current_headers = do
  last_header ← expect (last (indexed_headers indexed_blockhashes current_headers.headers))
  ok last_header.hash
