-- ===== src/Index/Batches.antt =====
-- src/index.rs: the batches that an update writes to the store, however it ends.
use electrs_cash.Common.{
  ℕ, suc, ◌%◌, ◌==◌, Bool-cases, ◌≡◌, ◌≢◌, sym, ap, ◌∙◌, Option, none, some, List, [], ◌∷◌, ◌++◌,
  arith, ℕ_discrete, Option-cases, inl, inr, ◌⊎◌,
}
use mathlib.Core.List.{append-nil, append_assoc}
use electrs_cash.Common.Map.{lookup}
use electrs_cash.Errors.{Result-cases, Result, ErrorKind, ok, err, panic, ◌>>◌, >>=-eq-ok}
use electrs_cash.Store.{Row}
use electrs_cash.Rows.{Codec, Transaction, Block}
use electrs_cash.Index.{last_indexed_block, index_block}
use electrs_cash.Index.Update.{batch, index_loop}

module _ (codec : Codec) (cashaccount : Transaction → ℕ → Option Row) where
  -- What the log holds for blocks at heights, after `i` others: the rows of each, and the marker
  -- with its hash behind those of every thousandth.
  pub data Logged : ℕ → List (Block × ℕ) → List (List Row) → Type 0 where
    nothing_logged : (i : ℕ) → Logged i [] []
    rows_logged :
        (i : ℕ) (b : Block) (height : ℕ) (bs : List (Block × ℕ)) (ls : List (List Row))
        → suc i % 1000 ≢ 0
        → Logged (suc i) bs ls
        → Logged i ((b, height) ∷ bs) (index_block codec b height cashaccount ∷ ls)
    marker_logged :
        (i : ℕ) (b : Block) (height : ℕ) (bs : List (Block × ℕ)) (ls : List (List Row))
        → suc i % 1000 ≡ 0
        → Logged (suc i) bs ls
        → Logged i ((b, height) ∷ bs) (
            (index_block codec b height cashaccount
              ++ last_indexed_block codec (codec.block_hash b.header) ∷ [])
            ∷ ls)

  batch-Logged :
      (i : ℕ) (b : Block) (height : ℕ) (bs : List (Block × ℕ)) (ls : List (List Row))
      → Logged (suc i) bs ls
      → Logged i ((b, height) ∷ bs) (batch codec cashaccount (suc i) b height ∷ ls)
  unfolding batch
  batch-Logged i b height bs ls logged = elim (Bool-cases (suc i % 1000 == 0)) [
    | inl mark ↦ rw mark (marker_logged i b height bs ls (ground (arith, mark)) logged)
    | inr plain ↦
        rw (plain, append-nil (index_block codec b height cashaccount))
          (rows_logged i b height bs ls (ground (arith, plain)) logged)
  ]

  module _ (poll : ℕ → Result (Unit {0})) (getblock : ℕ → Result Block) where
    -- The daemon's answers for the first of the hashes.
    pub data Fetched (heights : List (ℕ × ℕ)) : List ℕ → List (Block × ℕ) → Type 0 where
      stopped : (hashes : List ℕ) → Fetched heights hashes []
      fetched :
          (hash : ℕ) (r : List ℕ) (b : Block) (height : ℕ) (bs : List (Block × ℕ))
          → getblock hash ≡ ok b
          → lookup ℕ_discrete (codec.block_hash b.header) heights ≡ some height
          → Fetched heights r bs
          → Fetched heights (hash ∷ r) ((b, height) ∷ bs)

    pub index_loop_next :
        (heights : List (ℕ × ℕ)) (hash : ℕ) (r : List ℕ) (i : ℕ) (log : List (List Row))
        (prev : Option ℕ) (b : Block) (height : ℕ)
        → (poll i >> getblock hash) ≡ ok b
        → lookup ℕ_discrete (codec.block_hash b.header) heights ≡ some height
        → index_loop codec cashaccount poll getblock heights (hash ∷ r) i log prev
          ≡ index_loop codec cashaccount poll getblock heights r
              (suc i)
              (log ++ batch codec cashaccount (suc i) b height ∷ [])
              (some (codec.block_hash b.header))
    unfolding index_loop
    index_loop_next heights hash r i log prev b height got at = ground (arith, got, at)

    index_loop_stop :
        (heights : List (ℕ × ℕ)) (hash : ℕ) (r : List ℕ) (i : ℕ) (log : List (List Row))
        (prev : Option ℕ)
        → ((e : ErrorKind) × ((poll i >> getblock hash) ≡ err e))
          ⊎ ((poll i >> getblock hash) ≡ panic)
        → (index_loop codec cashaccount poll getblock heights (hash ∷ r) i log prev).0 ≡ log
    unfolding index_loop
    index_loop_stop heights hash r i log prev failed = ground (arith, failed)

    index_loop_missing :
        (heights : List (ℕ × ℕ)) (hash : ℕ) (r : List ℕ) (i : ℕ) (log : List (List Row))
        (prev : Option ℕ) (b : Block)
        → (poll i >> getblock hash) ≡ ok b
        → lookup ℕ_discrete (codec.block_hash b.header) heights ≡ none
        → (index_loop codec cashaccount poll getblock heights (hash ∷ r) i log prev).0 ≡ log
    unfolding index_loop
    index_loop_missing heights hash r i log prev b got at = ground (arith, got, at)

    -- However the loop of `update` ends (a signal, an error of the daemon, a panic or the last
    -- block), it has added to the log one batch for each of the daemon's blocks for some first part
    -- of the hashes, in their order, and nothing else: the rows of the block at its height, and
    -- behind them, when the number of blocks is a multiple of a thousand, the marker with the hash
    -- of this block.
    pub index_loop-batches :
        (heights : List (ℕ × ℕ)) (hashes : List ℕ) (i : ℕ) (log : List (List Row)) (prev : Option ℕ)
        → (bs : List (Block × ℕ)) × (written : List (List Row)) × Fetched heights hashes bs
          × Logged i bs written
          × ((index_loop codec cashaccount poll getblock heights hashes i log prev).0
              ≡ log ++ written)
    index_loop-batches heights [] i log prev =
        ([], [], stopped [], nothing_logged i, unfold index_loop in sym (append-nil log))
    index_loop-batches heights (hash ∷ r) i log prev =
        elim (Result-cases (poll i >> getblock hash)) [
          | inr failed ↦ (
            [],
            [],
            stopped (hash ∷ r),
            nothing_logged i,
            index_loop_stop heights hash r i log prev failed ∙ sym (append-nil log),
          )
          | inl (b, got) ↦
              elim (Option-cases (lookup ℕ_discrete (codec.block_hash b.header) heights)) [
                | inl miss ↦ (
                  [],
                  [],
                  stopped (hash ∷ r),
                  nothing_logged i,
                  index_loop_missing heights hash r i log prev b got miss ∙ sym (append-nil log),
                )
                | inr (height, hit) ↦
                    let (bs, ls, f, logged, written) =
                      index_loop-batches heights r (suc i)
                        (log ++ batch codec cashaccount (suc i) b height ∷ [])
                        (some (codec.block_hash b.header)) in
                    (
                      (b, height) ∷ bs,
                      batch codec cashaccount (suc i) b height ∷ ls,
                      fetched hash r b height bs
                          (>>=-eq-ok {A = Unit {0}} (poll i) (λ _. getblock hash) got).2 hit f,
                      batch-Logged i b height bs ls logged,
                      ap (λ s. s.0) (index_loop_next heights hash r i log prev b height got hit)
                          ∙ written
                          ∙ append_assoc log (batch codec cashaccount (suc i) b height ∷ []) ls,
                    )
              ]
        ]
