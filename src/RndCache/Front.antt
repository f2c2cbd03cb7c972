-- ===== src/RndCache/Front.antt =====
-- src/cache.rs: the cache of block transaction ids in front of the daemon, and that of serialized
-- transactions. The capacity of a shrunk vector is its length.
use electrs_cash.Common.{ℕ, ◌+◌, ◌≤◌, ◌<◌, ◌≡◌, Option, none, some, List, arith, length}
use electrs_cash.Errors.{Result, ok, err, panic, ◌>>=◌}
use electrs_cash.RndCache.{IndexMap, Rng, RndCache, get, put, u32_mod}
use electrs_cash.RndCache.Put.{IsValid, put-IsValid, get-put}

module _ {K : Type 0} (dec : Discrete K) (im : IndexMap K (ℕ × List ℕ) dec) (rand : Rng) where
  -- `BlockTxIDsCache::get_or_else`, with what the loading function would return.
  unfoldable pub get_or_else :
      RndCache dec im rand → K → Result (List ℕ) → Result (RndCache dec im rand × Result (List ℕ))
  get_or_else c blockhash load_txids = elim (get dec im rand c blockhash) [
    | some txids ↦ ok (c, ok txids)
    | none ↦ elim load_txids [
      | panic ↦ panic
      | err e ↦ ok (c, err e)
      | ok txids ↦ do
        stored ← put dec im rand c blockhash txids (length txids)
        ok (stored, ok txids)
    ]
  ]

  -- `TransactionCache::get`; a value that does not parse counts as absent.
  unfoldable pub get_tx {ℓ} :
      {T : Type ℓ} → (List ℕ → Option T) → RndCache dec im rand → K → Option T
  get_tx deserialize c txid = elim (get dec im rand c txid) [
    | none ↦ none
    | some serialized_txn ↦ deserialize serialized_txn
  ]

  -- `TransactionCache::put`.
  unfoldable pub put_tx : RndCache dec im rand → K → List ℕ → Result (RndCache dec im rand)
  put_tx c txid serialized_tx = put dec im rand c txid serialized_tx (length serialized_tx)

  get_or_else_miss :
      (c stored : RndCache dec im rand) (k : K) (txids : List ℕ)
      → get dec im rand c k ≡ none
      → put dec im rand c k txids (length txids) ≡ ok stored
      → get_or_else c k (ok txids) ≡ ok (stored, ok txids)
  unfolding get_or_else
  get_or_else_miss c stored k txids miss done = ground (arith, miss, done)

  get_or_else_hit :
      (c : RndCache dec im rand) (k : K) (txids : List ℕ) (load : Result (List ℕ))
      → get dec im rand c k ≡ some txids
      → get_or_else c k load ≡ ok (c, ok txids)
  unfolding get_or_else
  get_or_else_hit c k txids load found = ground (arith, found)

  get_tx_found {ℓ} :
      {T : Type ℓ} (deserialize : List ℕ → Option T) (c : RndCache dec im rand) (k : K)
      (serialized : List ℕ)
      → get dec im rand c k ≡ some serialized
      → get_tx deserialize c k ≡ deserialize serialized
  unfolding get_tx
  get_tx_found deserialize c k serialized found = ground (arith, found)

  -- A block that is not cached: what was loaded is returned, the cache stays valid, and the next
  -- query returns the same without loading, when the number of ids is within the capacity and
  -- within 32 bits with the overhead.
  pub get_or_else_loaded :
      (c : RndCache dec im rand) (k : K) (txids : List ℕ) (load : Result (List ℕ))
      → IsValid dec im rand c
      → get dec im rand c k ≡ none
      → length txids ≤ c.bytes_capacity
      → length txids + c.entry_overhead < u32_mod
      → (stored : RndCache dec im rand) × (get_or_else c k (ok txids) ≡ ok (stored, ok txids))
        × IsValid dec im rand stored
        × (get_or_else stored k load ≡ ok (stored, ok txids))
  get_or_else_loaded c k txids load v miss fits small =
      let (stored, done, valid) = put-IsValid dec im rand c k txids (length txids) v in
      let found = get-put dec im rand c stored k txids (length txids) v fits small done in
      (
        stored,
        get_or_else_miss c stored k txids miss done,
        valid,
        get_or_else_hit stored k txids load found,
      )

  -- A serialized transaction that was put is found again, parsed, when its size is within the
  -- capacity and within 32 bits with the overhead.
  pub get_tx-put_tx {ℓ} :
      {T : Type ℓ} (deserialize : List ℕ → Option T) (c : RndCache dec im rand) (k : K)
      (serialized : List ℕ)
      → IsValid dec im rand c
      → length serialized ≤ c.bytes_capacity
      → length serialized + c.entry_overhead < u32_mod
      → (stored : RndCache dec im rand) × (put_tx c k serialized ≡ ok stored)
        × IsValid dec im rand stored
        × (get_tx deserialize stored k ≡ deserialize serialized)
  unfolding put_tx
  get_tx-put_tx deserialize c k serialized v fits small =
      let (stored, done, valid) = put-IsValid dec im rand c k serialized (length serialized) v in
      let found = get-put dec im rand c stored k serialized (length serialized) v fits small done in
      (stored, done, valid, get_tx_found deserialize stored k serialized found)
