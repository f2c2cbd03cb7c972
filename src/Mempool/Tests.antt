-- ===== src/Mempool/Tests.antt =====
-- Two transactions, one row each, and the theorems at them.
use electrs_cash.Common.{
  some, All, get_elem?, ◌⊎◌, ℕ, ◌≡◌, ◌≢◌, refl, true, false, none, List, [], ◌∷◌, arith, ℕ_discrete,
  if◌then◌else◌, ◌==◌,
}
use electrs_cash.Common.Map.{lookup}
use electrs_cash.Errors.{Result, ok, err, msg, panic}
use electrs_cash.Mempool.{
  get_txn, contains, mempool_height, tx_confirmation_state, unconfirmed_parent, in_mempool,
  Transaction, MempoolEntry, Tracker, update, mem,
}
use electrs_cash.Mempool.Store.{count, Uniform, Holds}
use electrs_cash.Mempool.Track.{Tracks}
use electrs_cash.Mempool.State.{tx_confirmation_state_lem}
use electrs_cash.Mempool.Update.{wanted, update-Tracks, lookup-update}
use electrs_cash.Mempool.Steps.{answered}

abbrev rows : Transaction → List (List ℕ × List ℕ)
rows tx = (84 ∷ tx.txid ∷ [], 255 ∷ []) ∷ []

abbrev value : List ℕ → List ℕ
value k = 255 ∷ []

abbrev tx_of : ℕ → Transaction
tx_of k = record { txid = k; spends = []; content = [] }

abbrev entry_of : ℕ → Result MempoolEntry
entry_of k = ok (record { fee = 1; vsize = 200 })

abbrev data_of : ℕ → Result Transaction
data_of k = ok (tx_of k)

uniform : (tx : Transaction) → Uniform value (rows tx)
uniform tx = (refl, tt)

never_panics : (k : ℕ) → (entry_of k ≢ panic) × (data_of k ≢ panic)
never_panics k = ((λ q. cc), (λ q. cc))

same_id : (k : ℕ) (tx : Transaction) → data_of k ≡ ok tx → tx.txid ≡ k
same_id k tx h = ground (arith, h)

-- The tracker with the transaction 3.
abbrev before : Tracker
before = record {
  items = (3, record { tx = tx_of 3; entry = record { fee = 1; vsize = 200 } }) ∷ [];
  index = (84 ∷ 3 ∷ [], (255 ∷ []) ∷ []) ∷ [];
}

before-Tracks : Tracks rows value before
unfolding lookup
before-Tracks = record { distinct = (refl, tt); held = λ k. ground arith }

update-Tracks_example :
    (s : Tracker × List ℕ) × (update rows entry_of data_of (ok (4 ∷ [])) before ≡ ok s)
    × Tracks rows value s.0
    × ((k : ℕ)
        → ((mem k (4 ∷ []) ≡ false) × (lookup ℕ_discrete k s.0.items ≡ none))
          ⊎ ((mem k (4 ∷ []) ≡ true)
              × ((lookup ℕ_discrete k before.items ≡ none)
                  ⊎ (lookup ℕ_discrete k s.0.items ≡ lookup ℕ_discrete k before.items))))
update-Tracks_example =
    update-Tracks rows value uniform entry_of data_of never_panics same_id (4 ∷ []) before
      (refl, tt) before-Tracks

-- The daemon names the transaction 5 but no longer has it.
abbrev some_data : ℕ → Result Transaction
some_data k = if k == 5 then err msg else ok (tx_of k)

some_data_no_panic : (k : ℕ) → (entry_of k ≢ panic) × (some_data k ≢ panic)
some_data_no_panic k = ((λ q. cc), ground arith)

some_data_id : (k : ℕ) (tx : Transaction) → some_data k ≡ ok tx → tx.txid ≡ k
some_data_id k tx h = ground (arith, h)

lookup-update_example :
    (s : Tracker × List ℕ) × (update rows entry_of some_data (ok (4 ∷ 5 ∷ [])) before ≡ ok s)
    × ((k : ℕ)
        → lookup ℕ_discrete k s.0.items
          ≡ wanted
              (mem k (4 ∷ 5 ∷ []))
              (lookup ℕ_discrete k before.items)
              (answered (entry_of k) (some_data k)))
unfolding ℕ_discrete
lookup-update_example =
    lookup-update rows value uniform entry_of some_data some_data_no_panic some_data_id (4 ∷ 5 ∷ [])
      before (refl, (refl, tt)) before-Tracks

abbrev two_rows : List (List ℕ × List ℕ)
two_rows = (1 ∷ [], 255 ∷ []) ∷ (2 ∷ [], 255 ∷ []) ∷ []

two_rows-Holds :
    Holds value ((1 ∷ [], (255 ∷ []) ∷ []) ∷ (2 ∷ [], (255 ∷ []) ∷ []) ∷ []) (λ j. count j two_rows)
unfolding lookup
two_rows-Holds j = ground arith

found : get_txn before 3 ≡ some (tx_of 3)
unfolding get_txn lookup ℕ_discrete
found = refl

tx_confirmation_state_lem_example :
    ((i : ℕ) × (p : ℕ) × (get_elem? [] i ≡ some p)
      × (contains before p ≡ true)
      × (tx_confirmation_state before 3 (some mempool_height) ≡ unconfirmed_parent))
    ⊎ (All (λ p. contains before p ≡ false) []
        × (tx_confirmation_state before 3 (some mempool_height) ≡ in_mempool))
tx_confirmation_state_lem_example = tx_confirmation_state_lem before 3 (tx_of 3) found
