-- ===== src/Status.antt =====
-- src/query/mod.rs, src/query/primitives.rs: the status of a script: its balances, its history and
-- its unspent outputs. Sums are of 64 bits and wrap around. A `sort_unstable` is an insertion sort,
-- and the order of a hash map is that of a list. The text that is hashed is a parameter.
pub mod Unspent
pub mod Order
pub mod History
mod Tests
use electrs_cash.Common.{
  ℕ, ◌+◌, ◌-◌, ◌%◌, ◌^◌, Bool, true, false, not, ◌&&◌, Option, none, some, List, [], ◌∷◌, ◌++◌, map,
  ltb, leb, ◌==◌, if◌then◌else◌, ℕ_discrete, sum_by,
}
use electrs_cash.Common.Int.{ℤ, pos, negsuc, ltb_ℤ, eqb_ℤ, abs}
use electrs_cash.Common.Map.{lookup, insert, remove}
use electrs_cash.Mempool.{
  ConfirmationState, indeterminate, confirmed, in_mempool, unconfirmed_parent,
}
use electrs_cash.Rows.{OutPoint}

pub record FundingOutput : Type 0 where
  pub funding_output : OutPoint
  pub height : ℕ
  pub value : ℕ
  pub state : ConfirmationState

pub record SpendingInput : Type 0 where
  pub txn_id : ℕ
  pub height : ℕ
  pub funding_output : OutPoint
  pub value : ℕ
  pub state : ConfirmationState

pub record Status : Type 0 where
  pub confirmed : List FundingOutput × List SpendingInput
  pub mempool : List FundingOutput × List SpendingInput
  pub txn_fees : List (ℕ × ℕ)

pub record HistoryItem : Type 0 where
  pub height : ℤ
  pub tx_hash : ℕ
  pub fee : Option ℕ

abbrev pub outpoint_dec : Discrete OutPoint
outpoint_dec = hlevel ℕ_discrete

-- `as i64`, of a number of 64 bits.
abbrev pub as_i64 : ℕ → ℤ
as_i64 n = if ltb n 9223372036854775808 then pos n else negsuc (18446744073709551615 - n)

abbrev pub funded_value : FundingOutput → ℕ
funded_value f = f.value

abbrev pub spent_value : SpendingInput → ℕ
spent_value s = s.value

unfoldable pub calc_balance : List FundingOutput × List SpendingInput → ℤ
calc_balance (funding, spending) =
    let funded : ℕ = sum_by funded_value funding % 18446744073709551616 in
    let spent : ℕ = sum_by spent_value spending % 18446744073709551616 in
    as_i64 ((funded + 18446744073709551616 - spent) % 18446744073709551616)

unfoldable pub funding : Status → List FundingOutput
funding s = s.confirmed.0 ++ s.mempool.0

unfoldable pub spending : Status → List SpendingInput
spending s = s.confirmed.1 ++ s.mempool.1

unfoldable pub confirmed_balance : Status → ℤ
confirmed_balance s = calc_balance s.confirmed

unfoldable pub mempool_balance : Status → ℤ
mempool_balance s = calc_balance s.mempool

-- `as i32`, of a number of 32 bits.
abbrev pub as_i32 : ℕ → ℤ
as_i32 n = if ltb n 2147483648 then pos n else negsuc (4294967295 - n)

-- The debug assertion on `indeterminate` is left out.
unfoldable pub item_height : ConfirmationState → ℕ → ℤ
item_height confirmed height = as_i32 height
item_height in_mempool height = pos 0
item_height unconfirmed_parent height = negsuc 0
item_height indeterminate height = pos 0

unfoldable pub add_funding : List FundingOutput → List (ℕ × ℤ) → List (ℕ × ℤ)
add_funding [] m = m
add_funding (f ∷ r) m =
    add_funding r (insert ℕ_discrete f.funding_output.txid (item_height f.state f.height) m)

unfoldable pub add_spending : List SpendingInput → List (ℕ × ℤ) → List (ℕ × ℤ)
add_spending [] m = m
add_spending (s ∷ r) m =
    add_spending r (insert ℕ_discrete s.txn_id (item_height s.state s.height) m)

-- Transactions of the mempool sort last.
abbrev pub sort_height : ℤ → ℕ
sort_height (pos n) = if n == 0 then 15658734 else n
sort_height (negsuc n) = 15658734 + abs (negsuc n)

-- Whether an item stands before another; the hashes are compared as the numbers that their bytes
-- make.
unfoldable pub before : HistoryItem → HistoryItem → Bool
before a b =
    if eqb_ℤ a.height b.height
    then ltb b.tx_hash a.tx_hash
    else ltb (sort_height a.height) (sort_height b.height)

-- The place of a new element in a sorted list.
unfoldable pub insert_sorted {ℓ} : {A : Type ℓ} → (A → A → Bool) → A → List A → List A
insert_sorted less a [] = a ∷ []
insert_sorted less a (b ∷ r) =
    let rest = insert_sorted less a r in if less b a then b ∷ rest else a ∷ b ∷ r

unfoldable pub sort {ℓ} : {A : Type ℓ} → (A → A → Bool) → List A → List A
sort less [] = []
sort less (a ∷ r) = insert_sorted less a (sort less r)

unfoldable pub item_of : List (ℕ × ℕ) → ℕ × ℤ → HistoryItem
item_of fees (txid, height) = record {
  height = height;
  tx_hash = txid;
  fee = lookup ℕ_discrete txid fees;
}

unfoldable pub history : Status → List HistoryItem
history s =
    sort before (map (item_of s.txn_fees) (add_spending (spending s) (add_funding (funding s) [])))

unfoldable pub fill_outputs :
    List FundingOutput → List (OutPoint × FundingOutput) → List (OutPoint × FundingOutput)
fill_outputs [] m = m
fill_outputs (f ∷ r) m = fill_outputs r (insert outpoint_dec f.funding_output f m)

unfoldable pub remove_spent :
    List SpendingInput → List (OutPoint × FundingOutput) → List (OutPoint × FundingOutput)
remove_spent [] m = m
remove_spent (s ∷ r) m = remove_spent r (remove outpoint_dec s.funding_output m)

abbrev pub output_of : OutPoint × FundingOutput → FundingOutput
output_of (o, f) = f

abbrev pub lower : FundingOutput → FundingOutput → Bool
lower a b = ltb a.height b.height

unfoldable pub unspent : Status → List FundingOutput
unspent s = sort lower (map output_of (remove_spent (spending s) (fill_outputs (funding s) [])))

-- `hash`; `digest` is the hash of the items' text.
unfoldable pub hash : (List HistoryItem → ℕ) → Status → Option ℕ
hash digest s = elim (history s) as (λ _. Option ℕ) [
  | [] ↦ none
  | item ∷ items ↦ some (digest (item ∷ items))
]
