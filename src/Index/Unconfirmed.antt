-- ===== src/Index/Unconfirmed.antt =====
-- src/mempool.rs, src/index.rs: the mempool's index with the rows that `index_transaction` makes.
use electrs_cash.Common.{
  ℕ, ◌≡◌, ◌≢◌, true, false, none, List, [], ◌∷◌, map, All, ◌⊎◌, ℕ_discrete, ◌%◌, ◌^◌,
}
use electrs_cash.Common.Map.{lookup}
use electrs_cash.Errors.{Result, ok, panic}
use electrs_cash.Mempool.{MempoolEntry, Tracker, mem, update, mempool_height}
use electrs_cash.Mempool
use electrs_cash.Mempool.Store.{Uniform}
use electrs_cash.Mempool.Track.{NoDup, Tracks}
use electrs_cash.Mempool.Update.{update-Tracks}
use electrs_cash.Store.{Row, into_pair}
use electrs_cash.Rows.{Codec, Transaction}
use electrs_cash.Index.{index_transaction}
use electrs_cash.Index.Found.{KeyBytes, value_of, index_transaction-HasValue}

Uniform-into_pair :
    (value : List ℕ → List ℕ) (rows : List Row)
    → All (λ row. row.value ≡ value row.key) rows
    → Uniform value (map into_pair rows)
Uniform-into_pair value [] a = tt
Uniform-into_pair value (r ∷ rs) a = (a.0, Uniform-into_pair value rs a.1)

module _ (codec : Codec) (bytes : KeyBytes codec) (read : Mempool.Transaction → Transaction) where
  -- The rows of a transaction of the mempool, which has no cash accounts.
  abbrev mempool_rows : Mempool.Transaction → List (List ℕ × List ℕ)
  mempool_rows tx = map into_pair (index_transaction codec (read tx) mempool_height none)

  abbrev mempool_value : List ℕ → List ℕ
  mempool_value = value_of codec bytes (mempool_height % 2 ^ 32)

  mempool_rows-Uniform : (tx : Mempool.Transaction) → Uniform mempool_value (mempool_rows tx)
  mempool_rows-Uniform tx =
      Uniform-into_pair mempool_value (index_transaction codec (read tx) mempool_height none)
        (index_transaction-HasValue codec bytes (read tx) mempool_height)

  -- With the rows that `index_transaction` makes, an update of the mempool keeps its index together
  -- with its transactions, has none that the daemon does not list and keeps each old one that it
  -- lists: the conditions are those on the daemon's answers (no repetition, no panic, the
  -- transaction that was asked for) and on the bytes of keys.
  update-Tracks_indexed :
      (getmempoolentry : ℕ → Result MempoolEntry) (get_unconfirmed : ℕ → Result Mempool.Transaction)
      → ((k : ℕ) → (getmempoolentry k ≢ panic) × (get_unconfirmed k ≢ panic))
      → ((k : ℕ) (tx : Mempool.Transaction) → get_unconfirmed k ≡ ok tx → tx.txid ≡ k)
      → (new_txids : List ℕ) (t : Tracker) → NoDup new_txids
      → Tracks mempool_rows mempool_value t
      → (s : Tracker × List ℕ) × (update mempool_rows getmempoolentry get_unconfirmed
            (ok new_txids)
            t
          ≡ ok s)
        × Tracks mempool_rows mempool_value s.0
        × ((k : ℕ)
            → ((mem k new_txids ≡ false) × (lookup ℕ_discrete k s.0.items ≡ none))
              ⊎ ((mem k new_txids ≡ true)
                  × ((lookup ℕ_discrete k t.items ≡ none)
                      ⊎ (lookup ℕ_discrete k s.0.items ≡ lookup ℕ_discrete k t.items))))
  update-Tracks_indexed getmempoolentry get_unconfirmed no_panic same_id =
      update-Tracks mempool_rows mempool_value mempool_rows-Uniform getmempoolentry get_unconfirmed
        no_panic same_id
