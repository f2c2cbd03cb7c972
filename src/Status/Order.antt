-- ===== src/Status/Order.antt =====
-- src/query/mod.rs: the order of the items of a history.
use electrs_cash.Common.{
  ℕ, ◌≤◌, ◌≡◌, refl, true, false, List, [], ◌∷◌, map, arith, ℕ_discrete, Bool-cases, inl, inr, ◌<◌,
  ◌⊎◌, All, ltb,
}
use electrs_cash.Common.Int.{ℤ, pos, negsuc}
use electrs_cash.Common.Map.{All-insert}
use electrs_cash.Mempool.{
  ConfirmationState, indeterminate, confirmed, in_mempool, unconfirmed_parent,
}
use electrs_cash.Status.{
  FundingOutput, SpendingInput, HistoryItem, item_height, add_funding, add_spending, sort_height,
  before, insert_sorted, sort, item_of,
}

-- The items stand in the order of the numbers that they are sorted by, from `n` on.
abbrev pub HeightsFrom : ℕ → List HistoryItem → Type 0
HeightsFrom n [] = Unit
HeightsFrom n (i ∷ r) = (n ≤ sort_height i.height) × HeightsFrom (sort_height i.height) r

before_le : (a b : HistoryItem) → before a b ≡ true → sort_height a.height ≤ sort_height b.height
unfolding before
before_le a b h = ground (arith, h)

not_before_le :
    (a b : HistoryItem) → before b a ≡ false → sort_height a.height ≤ sort_height b.height
unfolding before
not_before_le a b h = ground (arith, h)

insert_sorted-HeightsFrom :
    (n : ℕ) (a : HistoryItem) (r : List HistoryItem)
    → n ≤ sort_height a.height
    → HeightsFrom n r
    → HeightsFrom n (insert_sorted before a r)
unfolding insert_sorted
insert_sorted-HeightsFrom n a [] le up = (le, tt)
insert_sorted-HeightsFrom n a (b ∷ r) le up = elim (Bool-cases (before b a)) [
  | inl first ↦
      rw first
        (up.0, insert_sorted-HeightsFrom (sort_height b.height) a r (before_le b a first) up.1)
  | inr later ↦ rw later (le, (not_before_le a b later, up.1))
]

pub sort-HeightsFrom : (xs : List HistoryItem) → HeightsFrom 0 (sort before xs)
unfolding sort
sort-HeightsFrom [] = tt
sort-HeightsFrom (a ∷ r) =
    insert_sorted-HeightsFrom 0 a (sort before r) (omega arith) (sort-HeightsFrom r)

-- Where an item at one height may stand before an item at another: confirmed items in the order of
-- their heights, those with height 0 behind them, and those below 0 at the end.
abbrev pub Precedes : ℤ → ℤ → Type 0
Precedes (pos n) (pos m) = ((0 < n) × (n ≤ m)) ⊎ (m ≡ 0)
Precedes (pos n) (negsuc k) = Unit
Precedes (negsuc j) (pos m) = ◌≡◌ {A = ℕ} 0 1
Precedes (negsuc j) (negsuc k) = Unit

-- Each item may stand before all that follow it.
abbrev pub InOrder : List HistoryItem → Type 0
InOrder [] = Unit
InOrder (i ∷ r) = All (λ (j : HistoryItem). Precedes i.height j.height) r × InOrder r

-- A height of a confirmed transaction that is far below the number that stands for the mempool.
abbrev pub InChain : ConfirmationState → ℕ → Type 0
InChain confirmed height = height < 0xEEEEEE
InChain _ height = Unit

-- The heights that the items of a history have.
abbrev Listed : ℤ → Type 0
Listed (pos n) = n < 0xEEEEEE
Listed (negsuc k) = k ≡ 0

item_height-Listed :
    (state : ConfirmationState) (height : ℕ)
    → InChain state height
    → Listed (item_height state height)
unfolding item_height
item_height-Listed confirmed height h = rw (small height h) h
  where
    small : (n : ℕ) → n < 0xEEEEEE → ltb n 2147483648 ≡ true
    small n h = ground (arith, h)
item_height-Listed in_mempool height h = omega arith
item_height-Listed unconfirmed_parent height h = refl
item_height-Listed indeterminate height h = omega arith

sorted-Precedes : (a b : ℤ) → Listed a → Listed b → sort_height a ≤ sort_height b → Precedes a b
sorted-Precedes (pos n) (pos m) la lb le = ground arith
sorted-Precedes (pos n) (negsuc k) la lb le = tt
sorted-Precedes (negsuc j) (pos m) la lb le = ground arith
sorted-Precedes (negsuc j) (negsuc k) la lb le = tt

insert_sorted-Listed :
    (a : HistoryItem) (r : List HistoryItem)
    → Listed a.height
    → All (λ (i : HistoryItem). Listed i.height) r
    → All (λ (i : HistoryItem). Listed i.height) (insert_sorted before a r)
unfolding insert_sorted
insert_sorted-Listed a [] la lr = (la, tt)
insert_sorted-Listed a (b ∷ r) la lr = elim (Bool-cases (before b a)) [
  | inl first ↦ rw first (lr.0, insert_sorted-Listed a r la lr.1)
  | inr later ↦ rw later (la, lr)
]

pub sort-Listed :
    (xs : List HistoryItem)
    → All (λ (i : HistoryItem). Listed i.height) xs
    → All (λ (i : HistoryItem). Listed i.height) (sort before xs)
unfolding sort
sort-Listed [] l = tt
sort-Listed (a ∷ r) l = insert_sorted-Listed a (sort before r) l.0 (sort-Listed r l.1)

pub item_of-Listed :
    (fees : List (ℕ × ℕ)) (m : List (ℕ × ℤ))
    → All (λ (e : ℕ × ℤ). Listed e.1) m
    → All (λ (i : HistoryItem). Listed i.height) (map (item_of fees) m)
unfolding item_of
item_of-Listed fees [] l = tt
item_of-Listed fees (e ∷ m) l = (l.0, item_of-Listed fees m l.1)

pub add_funding-Listed :
    (fs : List FundingOutput) (m : List (ℕ × ℤ))
    → All (λ (f : FundingOutput). InChain f.state f.height) fs
    → All (λ (e : ℕ × ℤ). Listed e.1) m
    → All (λ (e : ℕ × ℤ). Listed e.1) (add_funding fs m)
unfolding add_funding
add_funding-Listed [] m c l = l
add_funding-Listed (f ∷ r) m c l = add_funding-Listed r _ c.1 (
    All-insert ℕ_discrete (λ (e : ℕ × ℤ). Listed e.1) f.funding_output.txid _ m
      (item_height-Listed f.state f.height c.0) l)

pub add_spending-Listed :
    (ss : List SpendingInput) (m : List (ℕ × ℤ))
    → All (λ (s : SpendingInput). InChain s.state s.height) ss
    → All (λ (e : ℕ × ℤ). Listed e.1) m
    → All (λ (e : ℕ × ℤ). Listed e.1) (add_spending ss m)
unfolding add_spending
add_spending-Listed [] m c l = l
add_spending-Listed (s ∷ r) m c l = add_spending-Listed r _ c.1 (
    All-insert ℕ_discrete (λ (e : ℕ × ℤ). Listed e.1) s.txn_id _ m
      (item_height-Listed s.state s.height c.0) l)

-- Items whose sorting numbers go up from that of an item may all stand behind it.
behind-Precedes :
    (h : ℤ) (n : ℕ) (r : List HistoryItem)
    → Listed h
    → sort_height h ≤ n
    → All (λ (i : HistoryItem). Listed i.height) r
    → HeightsFrom n r
    → All (λ (j : HistoryItem). Precedes h j.height) r
behind-Precedes h n [] lh le l up = tt
behind-Precedes h n (i ∷ r) lh le l up = (
  sorted-Precedes h i.height lh l.0 (omega arith),
  behind-Precedes h (sort_height i.height) r lh (omega arith) l.1 up.1,
)

pub HeightsFrom-InOrder :
    (n : ℕ) (r : List HistoryItem)
    → All (λ (i : HistoryItem). Listed i.height) r
    → HeightsFrom n r
    → InOrder r
HeightsFrom-InOrder n [] l up = tt
HeightsFrom-InOrder n (i ∷ r) l up = (
  behind-Precedes i.height (sort_height i.height) r l.0 (omega arith) l.1 up.1,
  HeightsFrom-InOrder (sort_height i.height) r l.1 up.1,
)
