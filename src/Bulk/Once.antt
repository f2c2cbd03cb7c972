-- ===== src/Bulk/Once.antt =====
-- src/bulk.rs: which blocks of the files are indexed, and what the marker of the last indexed
-- block says.
use electrs_cash.Common.{
  ℕ, suc, ◌≡◌, refl, sym, ap, ◌∙◌, true, false, none, some, List, [], ◌∷◌, ◌++◌, arith, take,
  get_elem?, last, All, Bool-cases, Option-cases, inl, inr, ◌⊎◌,
}
use mathlib.Core.List.{append-nil, append_assoc}
use electrs_cash.Errors.{ok}
use electrs_cash.HeaderList.{HeaderEntry, HeaderList, header_by_blockhash}
use electrs_cash.Bulk.{contains, index_one, index_blocks, indexed_headers, last_indexed_hash}

module _ {ℓ} {Block Row : Type ℓ} (block_hash : Block → ℕ) (index_block : Block → ℕ → List Row)
    (current_headers : HeaderList) where
  -- The rows of the picked blocks, each at its header's height.
  abbrev pub rows_of : List (Block × HeaderEntry) → List Row
  rows_of [] = []
  rows_of ((b, h) ∷ r) = index_block b h.height ++ rows_of r

  -- The picked blocks are in the list of headers, differ from each other, and none of them is in
  -- the set before.
  abbrev pub Picked : List ℕ → List (Block × HeaderEntry) → Type 0
  Picked before [] = Unit
  Picked before ((b, h) ∷ r) =
      (header_by_blockhash current_headers (block_hash b) ≡ some h)
      × (contains before (block_hash b) ≡ false)
      × Picked (block_hash b ∷ before) r

  index_one_skip :
      (b : Block) (before : List ℕ) (rows : List Row)
      → (header_by_blockhash current_headers (block_hash b) ≡ none)
        ⊎ (contains before (block_hash b) ≡ true)
      → index_one block_hash index_block current_headers b (before, rows) ≡ (before, rows)
  unfolding index_one
  index_one_skip b before rows skip = ground (arith, skip)

  index_one_pick :
      (b : Block) (h : HeaderEntry) (before : List ℕ) (rows : List Row)
      → header_by_blockhash current_headers (block_hash b) ≡ some h
      → contains before (block_hash b) ≡ false
      → index_one block_hash index_block current_headers b (before, rows)
        ≡ (block_hash b ∷ before, rows ++ index_block b h.height)
  unfolding index_one
  index_one_pick b h before rows known fresh = ground (arith, known, fresh)

  index_one-cases :
      (b : Block) (before : List ℕ) (rows : List Row)
      → (index_one block_hash index_block current_headers b (before, rows) ≡ (before, rows))
        ⊎ ((h : HeaderEntry) × (header_by_blockhash current_headers (block_hash b) ≡ some h)
            × (contains before (block_hash b) ≡ false)
            × (index_one block_hash index_block current_headers b (before, rows)
                ≡ (block_hash b ∷ before, rows ++ index_block b h.height)))
  index_one-cases b before rows =
      elim (Option-cases (header_by_blockhash current_headers (block_hash b))) [
        | inl unknown ↦ inl (index_one_skip b before rows (inl unknown))
        | inr (h, known) ↦ elim (Bool-cases (contains before (block_hash b))) [
          | inl seen ↦ inl (index_one_skip b before rows (inr seen))
          | inr fresh ↦ inr (h, known, fresh, index_one_pick b h before rows known fresh)
        ]
      ]

  -- Over any blocks in any order, the rows that are added are those of blocks that are in the list
  -- of headers, were not indexed before, and are indexed once each.
  pub index_blocks_once :
      (blocks : List Block) (before : List ℕ) (rows : List Row)
      → (picks : List (Block × HeaderEntry)) × Picked before picks
        × ((index_blocks block_hash index_block current_headers blocks (before, rows)).1
            ≡ rows ++ rows_of picks)
  unfolding index_blocks
  index_blocks_once [] before rows = ([], tt, sym (append-nil rows))
  index_blocks_once (b ∷ blocks) before rows = elim (index_one-cases b before rows) [
    | inl skipped ↦
        let (picks, distinct, added) = index_blocks_once blocks before rows in
        (
          picks,
          distinct,
          ap (λ s. (index_blocks block_hash index_block current_headers blocks s).1) skipped
              ∙ added,
        )
    | inr (h, known, fresh, picked) ↦
        let (picks, distinct, added) =
          index_blocks_once blocks (block_hash b ∷ before) (rows ++ index_block b h.height) in
        (
          (b, h) ∷ picks,
          (known, fresh, distinct),
          ap (λ s. (index_blocks block_hash index_block current_headers blocks s).1) picked
              ∙ added
              ∙ append_assoc rows (index_block b h.height) (rows_of picks),
        )
  ]

  -- A hash that is in the set stays in it.
  contains-index_blocks_kept :
      (blocks : List Block) (before : List ℕ) (rows : List Row) (k : ℕ)
      → contains before k ≡ true
      → contains (index_blocks block_hash index_block current_headers blocks (before, rows)).0 k
        ≡ true
  unfolding index_blocks
  contains-index_blocks_kept [] before rows k there = there
  contains-index_blocks_kept (b ∷ blocks) before rows k there =
      elim (index_one-cases b before rows) [
        | inl skipped ↦
            ap (λ s. contains (index_blocks block_hash index_block current_headers blocks s).0 k)
              skipped
            ∙ contains-index_blocks_kept blocks before rows k there
        | inr (h, known, fresh, picked) ↦
            ap (λ s. contains (index_blocks block_hash index_block current_headers blocks s).0 k)
              picked
            ∙ contains-index_blocks_kept blocks (block_hash b ∷ before)
                (rows ++ index_block b h.height) k (ground (arith, there))
      ]

  contains-index_one :
      (b : Block) (before : List ℕ) (rows : List Row) (h : HeaderEntry)
      → header_by_blockhash current_headers (block_hash b) ≡ some h
      → contains
          (index_one block_hash index_block current_headers b (before, rows)).0
          (block_hash b)
        ≡ true
  unfolding index_one
  contains-index_one b before rows h known = ground (arith, known)

  -- A block of the files that is in the list of headers is in the set of indexed hashes afterwards.
  pub contains-index_blocks :
      (blocks later : List Block) (before : List ℕ) (rows : List Row) (b : Block) (h : HeaderEntry)
      → header_by_blockhash current_headers (block_hash b) ≡ some h
      → contains
          (index_blocks block_hash index_block current_headers
            (blocks ++ b ∷ later)
            (before, rows)).0
          (block_hash b)
        ≡ true
  unfolding index_blocks
  contains-index_blocks [] later before rows b h known =
      let next = index_one block_hash index_block current_headers b (before, rows) in
      contains-index_blocks_kept later next.0 next.1 (block_hash b)
        (contains-index_one b before rows h known)
  contains-index_blocks (c ∷ blocks) later before rows b h known =
      let next = index_one block_hash index_block current_headers c (before, rows) in
      contains-index_blocks blocks later next.0 next.1 b h known

no_last : (xs : List HeaderEntry) → last xs ≡ none → xs ≡ []
no_last [] h = refl
no_last (x ∷ []) h = absurd (ground arith)
no_last (x ∷ y ∷ ys) h = absurd (ground (arith, no_last (y ∷ ys) h))

indexed_headers-last :
    (set : List ℕ) (xs : List HeaderEntry) (e : HeaderEntry)
    → last (indexed_headers set xs) ≡ some e
    → (n : ℕ) × (get_elem? xs n ≡ some e)
      × All (λ h. contains set h.hash ≡ true) (take (suc n) xs)
      × (indexed_headers set xs ≡ take (suc n) xs)
unfolding indexed_headers
indexed_headers-last set [] e found = absurd (ground arith)
indexed_headers-last set (h ∷ r) e found = elim (Bool-cases (contains set h.hash)) [
  | inr out ↦ absurd (ground (arith, out))
  | inl within ↦ elim (Option-cases (last (indexed_headers set r))) [
    | inl empty_rest ↦
        let rest = no_last (indexed_headers set r) empty_rest in
        (0, ground (arith, within, rest), (within, tt), ground (arith, within, rest))
    | inr (d, more) ↦
        let (n, at, all, same) = indexed_headers-last set r d more in
        (suc n, ground (arith, within, at, more), (within, all), ground (arith, within, same))
  ]
]

-- When there is a marker, it names a header of the list that is indexed together with all headers
-- below it.
pub last_indexed_hash-Marked :
    (set : List ℕ) (l : HeaderList) (k : ℕ)
    → last_indexed_hash set l ≡ ok k
    → (n : ℕ) × (e : HeaderEntry) × (get_elem? l.headers n ≡ some e)
      × (e.hash ≡ k)
      × All (λ h. contains set h.hash ≡ true) (take (suc n) l.headers)
unfolding last_indexed_hash
last_indexed_hash-Marked set l k found =
    elim (Option-cases (last (indexed_headers set l.headers))) [
      | inl nothing ↦ absurd (ground (arith, nothing))
      | inr (e, some_last) ↦
          let (n, at, all, same) = indexed_headers-last set l.headers e some_last in
          (n, e, at, ground (arith, some_last), all)
    ]
