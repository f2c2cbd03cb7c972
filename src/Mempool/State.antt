-- ===== src/Mempool/State.antt =====
-- src/mempool.rs: the confirmation state of a transaction.
use electrs_cash.Common.{
  ℕ, suc, ◌≡◌, refl, true, false, some, List, [], ◌∷◌, arith, Bool-cases, inl, inr, ◌⊎◌, get_elem?,
  All,
}
use electrs_cash.Mempool.{
  Transaction, Tracker, in_mempool, unconfirmed_parent, mempool_height, get_txn, contains,
  has_parent, tx_confirmation_state,
}

has_parent_cases :
    (t : Tracker) (ps : List ℕ)
    → ((i : ℕ) × (p : ℕ) × (get_elem? ps i ≡ some p)
        × (contains t p ≡ true)
        × (has_parent t ps ≡ true))
      ⊎ (All (λ p. contains t p ≡ false) ps × (has_parent t ps ≡ false))
unfolding has_parent
has_parent_cases t [] = inr (tt, refl)
has_parent_cases t (p ∷ ps) = elim (Bool-cases (contains t p)) [
  | inl here ↦ inl (0, p, refl, here, ground (arith, here))
  | inr no_item ↦ elim (has_parent_cases t ps) [
    | inl (i, q, at, there, found) ↦ inl (suc i, q, at, there, ground (arith, no_item, found))
    | inr (absent, none_found) ↦ inr ((no_item, absent), ground (arith, no_item, none_found))
  ]
]

-- The state of a transaction of the mempool at the mempool's height: it has an unconfirmed parent
-- if an input spends from a transaction of the mempool, and is plainly in the mempool if none does.
pub tx_confirmation_state_lem :
    (t : Tracker) (txid : ℕ) (tx : Transaction)
    → get_txn t txid ≡ some tx
    → ((i : ℕ) × (p : ℕ) × (get_elem? tx.spends i ≡ some p)
        × (contains t p ≡ true)
        × (tx_confirmation_state t txid (some mempool_height) ≡ unconfirmed_parent))
      ⊎ (All (λ p. contains t p ≡ false) tx.spends
          × (tx_confirmation_state t txid (some mempool_height) ≡ in_mempool))
unfolding tx_confirmation_state
tx_confirmation_state_lem t txid tx h = elim (has_parent_cases t tx.spends) [
  | inl (i, p, at, there, found) ↦ inl (i, p, at, there, ground (arith, h, found))
  | inr (absent, none_found) ↦ inr (absent, ground (arith, h, none_found))
]
