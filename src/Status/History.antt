-- ===== src/Status/History.antt =====
-- src/query/mod.rs: the history of a script has each of its transactions once, in order.
use electrs_cash.Common.{
  ℕ, ◌≡◌, refl, ap, ◌∙◌, Bool, true, false, ◌||◌, Option, none, some, List, [], ◌∷◌, map, arith,
  ◌==◌, if◌then◌else◌, sum_by, ℕ_discrete, All,
}
use electrs_cash.Common.Int.{ℤ}
use electrs_cash.Common.Map.{lookup, insert, Distinct, lookup-insert, insert-Distinct}
use electrs_cash.Status.{
  FundingOutput, SpendingInput, Status, HistoryItem, funding, spending, item_height, add_funding,
  add_spending, before, sort, item_of, history,
}
use electrs_cash.Status.Unspent.{sum_by-sort}
use electrs_cash.Status.Order.{
  InOrder, InChain, sort-HeightsFrom, HeightsFrom-InOrder, sort-Listed, item_of-Listed,
  add_funding-Listed, add_spending-Listed,
}

abbrev pub is_some : Option ℤ → Bool
is_some none = false
is_some (some h) = true

-- Whether a transaction funds the script, or spends from it.
abbrev pub funds : ℕ → List FundingOutput → Bool
funds k [] = false
funds k (f ∷ r) = f.funding_output.txid == k || funds k r

abbrev pub spends : ℕ → List SpendingInput → Bool
spends k [] = false
spends k (s ∷ r) = s.txn_id == k || spends k r

-- One for an item of the transaction.
abbrev pub of_txid : ℕ → HistoryItem → ℕ
of_txid k i = if i.tx_hash == k then 1 else 0

lookup-add_funding :
    (k : ℕ) (fs : List FundingOutput) (m : List (ℕ × ℤ))
    → is_some (lookup ℕ_discrete k (add_funding fs m))
      ≡ (funds k fs || is_some (lookup ℕ_discrete k m))
unfolding add_funding
lookup-add_funding k [] m = refl
lookup-add_funding k (f ∷ r) m =
    let h : ℤ = item_height f.state f.height in
    lookup-add_funding k r (insert ℕ_discrete f.funding_output.txid h m)
    ∙ ground (arith, lookup-insert ℕ_discrete f.funding_output.txid k h m)

lookup-add_spending :
    (k : ℕ) (ss : List SpendingInput) (m : List (ℕ × ℤ))
    → is_some (lookup ℕ_discrete k (add_spending ss m))
      ≡ (spends k ss || is_some (lookup ℕ_discrete k m))
unfolding add_spending
lookup-add_spending k [] m = refl
lookup-add_spending k (s ∷ r) m =
    let h : ℤ = item_height s.state s.height in
    lookup-add_spending k r (insert ℕ_discrete s.txn_id h m)
    ∙ ground (arith, lookup-insert ℕ_discrete s.txn_id k h m)

add_funding-Distinct :
    (fs : List FundingOutput) (m : List (ℕ × ℤ))
    → Distinct ℕ_discrete m
    → Distinct ℕ_discrete (add_funding fs m)
unfolding add_funding
add_funding-Distinct [] m d = d
add_funding-Distinct (f ∷ r) m d =
    add_funding-Distinct r _ (insert-Distinct ℕ_discrete f.funding_output.txid _ m d)

add_spending-Distinct :
    (ss : List SpendingInput) (m : List (ℕ × ℤ))
    → Distinct ℕ_discrete m
    → Distinct ℕ_discrete (add_spending ss m)
unfolding add_spending
add_spending-Distinct [] m d = d
add_spending-Distinct (s ∷ r) m d =
    add_spending-Distinct r _ (insert-Distinct ℕ_discrete s.txn_id _ m d)

count_absent :
    (k : ℕ) (fees : List (ℕ × ℕ)) (m : List (ℕ × ℤ))
    → is_some (lookup ℕ_discrete k m) ≡ false
    → sum_by (of_txid k) (map (item_of fees) m) ≡ 0
unfolding lookup item_of
count_absent k fees [] h = refl
count_absent k fees ((j, v) ∷ m) h = ground (arith, count_absent k fees m)

count_items :
    (k : ℕ) (fees : List (ℕ × ℕ)) (m : List (ℕ × ℤ))
    → Distinct ℕ_discrete m
    → sum_by (of_txid k) (map (item_of fees) m) ≡ (if is_some (lookup ℕ_discrete k m) then 1 else 0)
unfolding lookup item_of
count_items k fees [] d = refl
count_items k fees ((j, v) ∷ m) d =
    ground (arith, count_items k fees m d.1, count_absent k fees m, d.0)

-- If the heights of confirmed transactions are below 0xEEEEEE, the history has one item for each
-- transaction that funds the script or spends from it, and none for any other, and its items stand
-- in order: those with a height above 0 first, the lower ones before the higher ones, then those
-- with height 0, as for the mempool, and at the end those with a negative one, as for a transaction
-- with an unconfirmed parent.
pub history_lem :
    (s : Status)
    → All (λ (f : FundingOutput). InChain f.state f.height) (funding s)
    → All (λ (i : SpendingInput). InChain i.state i.height) (spending s)
    → InOrder (history s)
      × ((k : ℕ)
          → sum_by (of_txid k) (history s)
            ≡ (if spends k (spending s) || funds k (funding s) then 1 else 0))
unfolding history
history_lem s funds_low spends_low =
    let m : List (ℕ × ℤ) = add_spending (spending s) (add_funding (funding s) []) in
    let d =
      add_spending-Distinct (spending s) (add_funding (funding s) [])
        (add_funding-Distinct (funding s) [] tt) in
    let items : List HistoryItem = map (item_of s.txn_fees) m in
    let listed =
      add_spending-Listed (spending s) (add_funding (funding s) []) spends_low
        (add_funding-Listed (funding s) [] funds_low tt) in
    (
      HeightsFrom-InOrder 0 (sort before items)
          (sort-Listed items (item_of-Listed s.txn_fees m listed)) (sort-HeightsFrom items),
      λ k.
          sum_by-sort before (of_txid k) (map (item_of s.txn_fees) m)
          ∙ count_items k s.txn_fees m d
          ∙ ap (λ (b : Bool). if b then 1 else 0)
              (lookup-add_spending k (spending s) (add_funding (funding s) [])
                ∙ ap (λ b. spends k (spending s) || b)
                    (lookup-add_funding k (funding s) [] ∙ nothing k (funds k (funding s)))),
    )
  where
    nothing : (k : ℕ) (b : Bool) → (b || is_some (lookup ℕ_discrete k [])) ≡ b
    nothing k true = refl
    nothing k false = unfold lookup in refl
