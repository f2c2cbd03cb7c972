-- ===== src/Mempool.antt =====
-- src/mempool.rs: the index of the unconfirmed transactions and its updates from the daemon. A
-- transaction has its id, the ids that its inputs spend from, and its content; the rows of the
-- index are a parameter. The fee histogram and the metrics are left out: they are on floats.
pub mod Store
pub mod Track
pub mod Steps
pub mod Update
pub mod State
mod Tests
use electrs_cash.Common.{
  ℕ, zero, suc, ◌+◌, ◌-◌, ◌*◌, ◌/◌, ◌%◌, ◌^◌, ◌≤◌, ◌<◌, ◌≡◌, ◌≢◌, refl, sym, ap, ◌∙◌, Bool, true,
  false, not, ◌&&◌, ◌||◌, Option, none, some, List, [], ◌∷◌, ◌++◌, map, arith, ltb, leb, ◌==◌,
  if◌then◌else◌, Bool-cases, Option-cases, inl, inr, ◌⊎◌, ◌↔◌, length, get_elem?, set, take, drop,
  replicate, last, All, length-append, length-set, length-take, length-drop, take-append-drop,
  length-map, take-append_length, drop-append_length, get_elem?_middle, set_middle, replicate_snoc,
  length-replicate, sum_by, sum_by-append, ite, if_pos, if_neg, ℕ_discrete, dec_lt, dec_le, ==_iff,
  get_elem?_of_length-le,
}
use electrs_cash.Common.{list_discrete}
use electrs_cash.Common.Map.{lookup, insert, remove}
use electrs_cash.Errors.{Result, ok, err, panic, msg, assert, expect, ◌>>=◌, ◌>>◌}

pub data ConfirmationState : Type 0 where
  indeterminate confirmed in_mempool unconfirmed_parent : ConfirmationState

pub record Transaction : Type 0 where
  pub txid : ℕ
  pub spends : List ℕ
  pub content : List ℕ

pub record MempoolEntry : Type 0 where
  pub fee : ℕ
  pub vsize : ℕ

pub record Item : Type 0 where
  pub tx : Transaction
  pub entry : MempoolEntry

abbrev pub mempool_height : ℕ
mempool_height = 2147483647

abbrev pub key_dec : Discrete (List ℕ)
key_dec = list_discrete ℕ_discrete

-- The values of each key, the last one on top.
abbrev pub Store : Type 0
Store = List (List ℕ × List (List ℕ))

abbrev pub values_of : Store → List ℕ → List (List ℕ)
values_of m key = elim (lookup key_dec key m) [ none ↦ [] | some vs ↦ vs ]

-- One turn of `MempoolStore::add`.
unfoldable pub push_row : Store → List ℕ × List ℕ → Store
push_row m (key, value) = insert key_dec key (values_of m key ++ value ∷ []) m

-- One turn of `MempoolStore::remove`.
unfoldable pub pop_row : Store → List ℕ × List ℕ → Result Store
pop_row m (key, value) = do
  values ← expect (lookup key_dec key m)
  last_value ← expect (last values)
  ite (key_dec value last_value) (ok tt) panic
  let values_left = take (length values - 1) values
  ok (if length values_left == 0 then remove key_dec key m else insert key_dec key values_left m)

unfoldable pub push_rows : Store → List (List ℕ × List ℕ) → Store
push_rows m [] = m
push_rows m (r ∷ rs) = push_rows (push_row m r) rs

unfoldable pub pop_rows : Store → List (List ℕ × List ℕ) → Result Store
pop_rows m [] = ok m
pop_rows m (r ∷ rs) = do next ← pop_row m r; pop_rows next rs

-- `MempoolStore::get`.
unfoldable pub get : Store → List ℕ → Option (List ℕ)
get m key = elim (lookup key_dec key m) [ none ↦ none | some vs ↦ last vs ]

pub record Tracker : Type 0 where
  pub items : List (ℕ × Item)
  pub index : Store

unfoldable pub get_txn : Tracker → ℕ → Option Transaction
get_txn t txid = elim (lookup ℕ_discrete txid t.items) [ none ↦ none | some i ↦ some i.tx ]

unfoldable pub contains : Tracker → ℕ → Bool
contains t txid = elim (lookup ℕ_discrete txid t.items) [ none ↦ false | some _ ↦ true ]

-- Whether one of the transactions that the inputs spend from is in the mempool.
unfoldable pub has_parent : Tracker → List ℕ → Bool
has_parent t [] = false
has_parent t (prevout ∷ r) = if contains t prevout then true else has_parent t r

unfoldable pub tx_confirmation_state : Tracker → ℕ → Option ℕ → ConfirmationState
tx_confirmation_state t txid height = elim height [
  | none ↦ unconfirmed
  | some h ↦ if h == mempool_height then unconfirmed else confirmed
]
  where
    unconfirmed : ConfirmationState
    unconfirmed = elim (get_txn t txid) [
      | none ↦ indeterminate
      | some tx ↦ if has_parent t tx.spends then unconfirmed_parent else in_mempool
    ]

abbrev pub keys : List (ℕ × Item) → List ℕ
keys [] = []
keys ((k, i) ∷ m) = k ∷ keys m

abbrev pub mem : ℕ → List ℕ → Bool
mem x [] = false
mem x (a ∷ r) = ite (ℕ_discrete a x) true (mem x r)

-- `HashSet::difference`.
unfoldable pub difference : List ℕ → List ℕ → List ℕ
difference [] ys = []
difference (x ∷ xs) ys = if mem x ys then difference xs ys else x ∷ difference xs ys

-- The rows that `index_transaction` makes at the mempool's height.
module _ (rows : Transaction → List (List ℕ × List ℕ)) where
  unfoldable pub add : ℕ → Transaction → MempoolEntry → Tracker → Tracker
  add txid tx entry t = record {
    index = push_rows t.index (rows tx);
    items = insert ℕ_discrete txid (record { tx = tx; entry = entry }) t.items;
  }

  unfoldable pub remove_txn : ℕ → Tracker → Result Tracker
  remove_txn txid t = do
    stats ← expect (lookup ℕ_discrete txid t.items)
    index ← pop_rows t.index (rows stats.tx)
    ok (record { items = remove ℕ_discrete txid t.items; index = index })

  unfoldable pub remove_all : List ℕ → Tracker × List ℕ → Result (Tracker × List ℕ)
  remove_all [] s = ok s
  remove_all (txid ∷ r) (t, changed) = do
    next ← remove_txn txid t
    remove_all r (next, txid ∷ changed)

  module _ (getmempoolentry : ℕ → Result MempoolEntry)
      (get_unconfirmed : ℕ → Result Transaction) where
    -- One new transaction: without an entry or without its data it is left out for now.
    unfoldable pub add_new : ℕ → Tracker × List ℕ → Result (Tracker × List ℕ)
    add_new txid (t, changed) = elim (getmempoolentry txid) [
      | panic ↦ panic
      | err e ↦ ok (t, changed)
      | ok entry ↦ elim (get_unconfirmed txid) [
        | panic ↦ panic
        | err e ↦ ok (t, changed)
        | ok tx ↦ do assert (tx.txid == txid); ok (add txid tx entry t, txid ∷ changed)
      ]
    ]

    unfoldable pub add_all : List ℕ → Tracker × List ℕ → Result (Tracker × List ℕ)
    add_all [] s = ok s
    add_all (txid ∷ r) s = do next ← add_new txid s; add_all r next

    -- The transactions of the daemon, and the tracker before; the changed ones come with the result.
    unfoldable pub update : Result (List ℕ) → Tracker → Result (Tracker × List ℕ)
    update getmempooltxids t = do
      new_txids ← getmempooltxids
      let old_txids = keys t.items
      added ← add_all (difference new_txids old_txids) (t, [])
      remove_all (difference old_txids new_txids) added
