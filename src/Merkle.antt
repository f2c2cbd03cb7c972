-- ===== src/Merkle.antt =====
-- src/query/mod.rs: the Merkle branches of transactions and headers. The hash function and the
-- bytes of a hash are parameters, and so is what the daemon answers for a block's transactions.
pub mod Branch
pub mod Proofs
mod Tests
use electrs_cash.Common.{
  ℕ, zero, suc, ◌+◌, ◌-◌, ◌*◌, ◌/◌, ◌%◌, ◌^◌, ◌≤◌, ◌<◌, ◌≡◌, ◌≢◌, refl, sym, ap, ◌∙◌, Bool, true,
  false, not, ◌&&◌, ◌||◌, Option, none, some, List, [], ◌∷◌, ◌++◌, map, arith, ltb, leb, ◌==◌,
  if◌then◌else◌, Bool-cases, Option-cases, inl, inr, ◌⊎◌, ◌↔◌, length, get_elem?, set, take, drop,
  replicate, last, All, length-append, length-set, length-take, length-drop, take-append-drop,
  length-map, take-append_length, drop-append_length, get_elem?_middle, set_middle, replicate_snoc,
  length-replicate, sum_by, sum_by-append, ite, if_pos, if_neg, ℕ_discrete, dec_lt, dec_le, ==_iff,
  get_elem?_of_length-le,
}
use electrs_cash.Errors.{Result, ok, err, panic, msg, assert, expect, ok_or, ◌>>=◌, ◌>>◌}
use electrs_cash.HeaderList.{
  HeaderEntry, HeaderList, header_by_height, header_by_blockhash, tiphash,
}

abbrev pub sibling : ℕ → ℕ
sibling index = if index % 2 == 0 then index + 1 else index - 1

module _ {ℓ} {T : Type ℓ} (bytes : T → List ℕ) (hash : List ℕ → T) where
  unfoldable pub merklize : T → T → T
  merklize left right = hash (bytes left ++ bytes right)

  -- `chunks(2)` and the hash of each chunk; a chunk of one would be out of range.
  unfoldable pub merklize_chunks : List T → Result (List T)
  merklize_chunks [] = ok []
  merklize_chunks (a ∷ []) = panic
  merklize_chunks (a ∷ b ∷ r) = do rest ← merklize_chunks r; ok (merklize a b ∷ rest)

  -- A list of odd length with its last hash once more.
  unfoldable pub padded : List T → Result (List T)
  padded hashes =
      if length hashes % 2 == 0
      then ok hashes
      else (do a ← expect (last hashes); ok (hashes ++ a ∷ []))

  -- The loop, on fuel; its turns are bounded by the number of hashes.
  unfoldable pub branch_loop : ℕ → List T → ℕ → List T → Result (List T × T)
  branch_loop zero hashes index merkle = panic
  branch_loop (suc fuel) hashes index merkle =
      if leb (length hashes) 1
      then (do root ← expect (get_elem? hashes 0); ok (merkle, root))
      else (do
        even ← padded hashes
        s ← expect (get_elem? even (sibling index))
        next ← merklize_chunks even
        branch_loop fuel next (sibling index / 2) (merkle ++ s ∷ []))

  unfoldable pub create_merkle_branch_and_root : List T → ℕ → Result (List T × T)
  create_merkle_branch_and_root hashes index = branch_loop (suc (length hashes)) hashes index []

-- `position` of the iterator.
unfoldable pub position : List ℕ → ℕ → Option ℕ
position [] x = none
position (a ∷ r) x =
    let rest = position r x in
    if a == x then some 0 else elim rest [ none ↦ none | some i ↦ some (suc i) ]

-- `Index::best_header`.
abbrev pub best_header : HeaderList → Option HeaderEntry
best_header l = header_by_blockhash l (tiphash l)

-- `filter_map` of the index's `get_header`.
unfoldable pub get_headers : HeaderList → List ℕ → Result (List HeaderEntry)
get_headers l [] = ok []
get_headers l (h ∷ r) = do
  found ← header_by_height l h
  rest ← get_headers l r
  ok (elim found [ none ↦ rest | some e ↦ e ∷ rest ])

-- The numbers below `n`, in order.
unfoldable pub range : ℕ → List ℕ
range zero = []
range (suc n) = range n ++ n ∷ []

module _ (bytes : ℕ → List ℕ) (hash : List ℕ → ℕ) (getblocktxids : ℕ → Result (List ℕ)) where
  unfoldable pub get_merkle_proof : HeaderList → ℕ → ℕ → Result (List ℕ × ℕ)
  get_merkle_proof l tx_hash height = do
    found ← header_by_height l height
    header_entry ← ok_or msg found
    txids ← getblocktxids header_entry.hash
    pos ← ok_or msg (position txids tx_hash)
    p ← create_merkle_branch_and_root bytes hash txids pos
    ok (p.0, pos)

  -- The branch, if it is wanted.
  abbrev pub branch_of : List ℕ → ℕ → Bool → Result (List ℕ)
  branch_of txids pos true = do p ← create_merkle_branch_and_root bytes hash txids pos; ok (p.0)
  branch_of txids pos false = ok []

  unfoldable pub get_id_from_pos : HeaderList → ℕ → ℕ → Bool → Result (ℕ × List ℕ)
  get_id_from_pos l height tx_pos want_merkle = do
    found ← header_by_height l height
    header_entry ← ok_or msg found
    txids ← getblocktxids header_entry.hash
    txid ← ok_or msg (get_elem? txids tx_pos)
    branch ← branch_of txids tx_pos want_merkle
    ok (txid, branch)

module _ (bytes : ℕ → List ℕ) (hash : List ℕ → ℕ) where
  unfoldable pub get_header_merkle_proof : HeaderList → ℕ → ℕ → Result (List ℕ × ℕ)
  get_header_merkle_proof l height cp_height = if ltb cp_height height then err msg else (do
    best ← ok_or msg (best_header l)
    reaches best.height
    entries ← get_headers l (range (suc cp_height))
    let header_hashes = map (λ h. h.hash) entries
    assert (length header_hashes == suc cp_height)
    create_merkle_branch_and_root bytes hash header_hashes height)
    where
      reaches : ℕ → Result (Unit {0})
      reaches best_height = if ltb best_height cp_height then err msg else ok tt
