-- ===== src/Status/Unspent.antt =====
-- src/query/mod.rs: the unspent outputs of a script add up to its balances.
use electrs_cash.Common.{
  ℕ, zero, suc, ◌+◌, ◌<◌, ◌≡◌, ◌≢◌, refl, sym, ap, ◌∙◌, Bool, none, some, List, [], ◌∷◌, map, arith,
  get_elem?, sum_by, sum_by-append, All,
}
use electrs_cash.Common.Int.{pos_part, neg_part}
use electrs_cash.Common.Map.{
  lookup, insert, remove, Distinct, lookup-insert, lookup-remove, lookup-insert_self,
  insert-Distinct, remove-Distinct, sum_by-insert_new, sum_by-remove,
}
use electrs_cash.Rows.{OutPoint}
use electrs_cash.Status.{
  FundingOutput, SpendingInput, Status, outpoint_dec, funded_value, spent_value, calc_balance,
  funding, spending, confirmed_balance, mempool_balance, insert_sorted, sort, fill_outputs,
  remove_spent, output_of, lower, unspent,
}

-- No output is funded twice.
abbrev pub Funded : List FundingOutput → Type 0
Funded [] = Unit
Funded (f ∷ r) = All (λ g. f.funding_output ≢ g.funding_output) r × Funded r

-- No output is spent twice, and each spent output is funded, with its value.
abbrev pub Spent : List FundingOutput → List SpendingInput → Type 0
Spent fs [] = Unit
Spent fs (s ∷ r) =
    ((i : ℕ) × (f : FundingOutput) × (get_elem? fs i ≡ some f)
      × (f.funding_output ≡ s.funding_output)
      × (f.value ≡ s.value))
    × All (λ t. s.funding_output ≢ t.funding_output) r
    × Spent fs r

sum_by-insert_sorted :
    {A : Type 0} (less : A → A → Bool) (g : A → ℕ) (a : A) (r : List A)
    → sum_by g (insert_sorted less a r) ≡ g a + sum_by g r
unfolding insert_sorted
sum_by-insert_sorted less g a [] = refl
sum_by-insert_sorted less g a (b ∷ r) = ground (arith, sum_by-insert_sorted less g a r)

pub sum_by-sort :
    {A : Type 0} (less : A → A → Bool) (g : A → ℕ) (xs : List A)
    → sum_by g (sort less xs) ≡ sum_by g xs
unfolding sort
sum_by-sort less g [] = refl
sum_by-sort less g (a ∷ r) =
    omega (arith, sum_by-insert_sorted less g a (sort less r), sum_by-sort less g r)

abbrev value_of : OutPoint × FundingOutput → ℕ
value_of (o, f) = f.value

sum_by-output_of :
    (m : List (OutPoint × FundingOutput))
    → sum_by funded_value (map output_of m) ≡ sum_by value_of m
sum_by-output_of [] = refl
sum_by-output_of ((o, f) ∷ m) = omega (arith, sum_by-output_of m)

-- Outputs that are not in the map, and differ from a new key, are not in the map with it.
absent-insert :
    (f : FundingOutput) (m : List (OutPoint × FundingOutput)) (r : List FundingOutput)
    → All (λ g. f.funding_output ≢ g.funding_output) r
    → All (λ g. lookup outpoint_dec g.funding_output m ≡ none) r
    → All
        (λ g.
          lookup outpoint_dec g.funding_output (insert outpoint_dec f.funding_output f m) ≡ none)
        r
absent-insert f m [] other absent = tt
absent-insert f m (g ∷ r) other absent = (
  ground
      (arith, other.0, absent.0, lookup-insert outpoint_dec f.funding_output g.funding_output f m),
  absent-insert f m r other.1 absent.1,
)

sum_by-fill_outputs :
    (fs : List FundingOutput) (m : List (OutPoint × FundingOutput))
    → Funded fs
    → All (λ g. lookup outpoint_dec g.funding_output m ≡ none) fs
    → sum_by value_of (fill_outputs fs m) ≡ sum_by funded_value fs + sum_by value_of m
unfolding fill_outputs
sum_by-fill_outputs [] m funded absent = omega arith
sum_by-fill_outputs (f ∷ r) m funded absent = omega (
  arith,
  sum_by-fill_outputs r (insert outpoint_dec f.funding_output f m) funded.1
      (absent-insert f m r funded.0 absent.1),
  sum_by-insert_new outpoint_dec value_of f.funding_output f m absent.0,
)

fill_outputs-Distinct :
    (fs : List FundingOutput) (m : List (OutPoint × FundingOutput))
    → Distinct outpoint_dec m
    → Distinct outpoint_dec (fill_outputs fs m)
unfolding fill_outputs
fill_outputs-Distinct [] m d = d
fill_outputs-Distinct (f ∷ r) m d =
    fill_outputs-Distinct r (insert outpoint_dec f.funding_output f m)
      (insert-Distinct outpoint_dec f.funding_output f m d)

lookup-fill_outputs_other :
    (o : OutPoint) (fs : List FundingOutput) (m : List (OutPoint × FundingOutput))
    → All (λ g. o ≢ g.funding_output) fs
    → lookup outpoint_dec o (fill_outputs fs m) ≡ lookup outpoint_dec o m
unfolding fill_outputs
lookup-fill_outputs_other o [] m other = refl
lookup-fill_outputs_other o (g ∷ fs) m other =
    lookup-fill_outputs_other o fs (insert outpoint_dec g.funding_output g m) other.1
    ∙ ground (arith, other.0, lookup-insert outpoint_dec g.funding_output o g m)

lookup-fill_outputs :
    (f : FundingOutput) (fs : List FundingOutput) (m : List (OutPoint × FundingOutput)) (i : ℕ)
    → get_elem? fs i ≡ some f
    → Funded fs
    → lookup outpoint_dec f.funding_output (fill_outputs fs m) ≡ some f
unfolding fill_outputs
lookup-fill_outputs f [] m i at funded = absurd (ground arith)
lookup-fill_outputs f (g ∷ fs) m zero at funded =
    let here : g ≡ f = ground arith in
    rw (← here) (
      lookup-fill_outputs_other g.funding_output fs (insert outpoint_dec g.funding_output g m)
        funded.0
      ∙ lookup-insert_self outpoint_dec g.funding_output g m)
lookup-fill_outputs f (g ∷ fs) m (suc i) at funded =
    lookup-fill_outputs f fs (insert outpoint_dec g.funding_output g m) i at funded.1

-- Each spent output is in the map, with its value.
abbrev Present : List (OutPoint × FundingOutput) → List SpendingInput → Type 0
Present m [] = Unit
Present m (s ∷ r) =
    ((f : FundingOutput) × (lookup outpoint_dec s.funding_output m ≡ some f) × (f.value ≡ s.value))
    × All (λ t. s.funding_output ≢ t.funding_output) r
    × Present m r

Present-remove :
    (m : List (OutPoint × FundingOutput)) (o : OutPoint) (r : List SpendingInput)
    → All (λ t. o ≢ t.funding_output) r
    → Present m r
    → Present (remove outpoint_dec o m) r
Present-remove m o [] other present = tt
Present-remove m o (t ∷ r) other ((f, at, same), apart, present) = (
  (f, ground (arith, other.0, at, lookup-remove outpoint_dec o t.funding_output m), same),
  apart,
  Present-remove m o r other.1 present,
)

sum_by-remove_spent :
    (ss : List SpendingInput) (m : List (OutPoint × FundingOutput))
    → Distinct outpoint_dec m
    → Present m ss
    → sum_by value_of (remove_spent ss m) + sum_by spent_value ss ≡ sum_by value_of m
unfolding remove_spent
sum_by-remove_spent [] m d present = omega arith
sum_by-remove_spent (s ∷ r) m d ((f, at, same), apart, present) = omega (
  arith,
  sum_by-remove_spent r (remove outpoint_dec s.funding_output m)
      (remove-Distinct outpoint_dec s.funding_output m d)
      (Present-remove m s.funding_output r apart present),
  sum_by-remove outpoint_dec value_of s.funding_output f m d at,
  same,
)

Present-fill_outputs :
    (fs : List FundingOutput) (ss : List SpendingInput)
    → Funded fs
    → Spent fs ss
    → Present (fill_outputs fs []) ss
Present-fill_outputs fs [] funded spent = tt
Present-fill_outputs fs (s ∷ r) funded ((i, f, at, same, value), apart, spent) = (
  (
    f,
    ap (λ (o : OutPoint). lookup outpoint_dec o (fill_outputs fs [])) (sym same)
        ∙ lookup-fill_outputs f fs [] i at funded,
    value,
  ),
  apart,
  Present-fill_outputs fs r funded spent,
)

absent_nil :
    (fs : List FundingOutput)
    → All (λ g. lookup {V = FundingOutput} outpoint_dec g.funding_output [] ≡ none) fs
unfolding lookup
absent_nil [] = tt
absent_nil (f ∷ fs) = (refl, absent_nil fs)

-- A balance is the difference, as an integer.
calc_balance-parts :
    (fs : List FundingOutput) (ss : List SpendingInput)
    → sum_by funded_value fs < 9223372036854775808
    → sum_by spent_value ss < 9223372036854775808
    → pos_part (calc_balance (fs, ss)) + sum_by spent_value ss
      ≡ neg_part (calc_balance (fs, ss)) + sum_by funded_value fs
unfolding calc_balance
calc_balance-parts fs ss few less = ground (arith, few, less)

-- If no output is funded or spent twice, each spent output is funded with the same value, and the
-- funded values add up to less than 2 ^ 63, then the values of the unspent outputs add up to the sum
-- of the confirmed and the unconfirmed balance; the second may be negative.
pub unspent-balance :
    (s : Status)
    → Funded (funding s)
    → Spent (funding s) (spending s)
    → sum_by funded_value (funding s) < 9223372036854775808
    → pos_part (confirmed_balance s) + pos_part (mempool_balance s)
      ≡ sum_by funded_value (unspent s)
        + neg_part (confirmed_balance s)
        + neg_part (mempool_balance s)
unfolding unspent confirmed_balance mempool_balance
unspent-balance s funded spent few =
    let fs : List FundingOutput = funding s in
    let ss : List SpendingInput = spending s in
    let kept : List (OutPoint × FundingOutput) = remove_spent ss (fill_outputs fs []) in
    let sorted = sum_by-sort lower funded_value (map output_of kept) in
    let values = sum_by-output_of kept in
    let left =
      sum_by-remove_spent ss (fill_outputs fs []) (fill_outputs-Distinct fs [] tt)
        (Present-fill_outputs fs ss funded spent) in
    let filled = sum_by-fill_outputs fs [] funded (absent_nil fs) in
    let all_funded : sum_by funded_value fs
        ≡ sum_by funded_value s.confirmed.0 + sum_by funded_value s.mempool.0 =
      unfold funding in sum_by-append funded_value s.confirmed.0 s.mempool.0 in
    let all_spent : sum_by spent_value ss
        ≡ sum_by spent_value s.confirmed.1 + sum_by spent_value s.mempool.1 =
      unfold spending in sum_by-append spent_value s.confirmed.1 s.mempool.1 in
    omega (
      arith,
      sorted,
      values,
      left,
      filled,
      all_funded,
      all_spent,
      few,
      calc_balance-parts s.confirmed.0 s.confirmed.1 (omega (arith, all_funded, few))
          (omega (arith, all_spent, left, filled, few)),
      calc_balance-parts s.mempool.0 s.mempool.1 (omega (arith, all_funded, few))
          (omega (arith, all_spent, left, filled, few)),
    )
