-- ===== src/Status/Tests.antt =====
-- A script with a confirmed output that an unconfirmed transaction spends, with change.
use electrs_cash.Common.{
  ℕ, ◌+◌, ◌<◌, ◌≡◌, refl, ap, [], ◌∷◌, arith, sum_by, All, ◌||◌, if◌then◌else◌,
}
use electrs_cash.Common.Int.{pos_part, neg_part}
use electrs_cash.Mempool.{confirmed, in_mempool}
use electrs_cash.Status.{
  FundingOutput, SpendingInput, Status, funded_value, funding, spending, confirmed_balance,
  mempool_balance, unspent, history,
}
use electrs_cash.Status.Order.{InOrder, InChain}
use electrs_cash.Status.History.{of_txid, spends, funds, history_lem}
use electrs_cash.Status.Unspent.{Funded, Spent, unspent-balance}

abbrev paid : FundingOutput
paid = record {
  funding_output = record { txid = 1; vout = 0 };
  height = 100;
  value = 50;
  state = confirmed;
}

abbrev change : FundingOutput
change = record {
  funding_output = record { txid = 2; vout = 1 };
  height = 0;
  value = 20;
  state = in_mempool;
}

abbrev spend : SpendingInput
spend = record {
  txn_id = 2;
  height = 0;
  funding_output = record { txid = 1; vout = 0 };
  value = 50;
  state = in_mempool;
}

abbrev status : Status
status = record {
  confirmed = (paid ∷ [], []);
  mempool = (change ∷ [], spend ∷ []);
  txn_fees = (2, 1) ∷ [];
}

status-Funded : Funded (funding status)
unfolding funding
status-Funded = ((λ same. absurd (omega (arith, ap (λ o. o.txid) same)), tt), (tt, tt))

status-Spent : Spent (funding status) (spending status)
unfolding funding spending
status-Spent = ((0, paid, refl, refl, refl), tt, tt)

small : sum_by funded_value (funding status) < 9223372036854775808
unfolding funding
small = omega arith

unspent-balance_example :
    pos_part (confirmed_balance status) + pos_part (mempool_balance status)
    ≡ sum_by funded_value (unspent status)
      + neg_part (confirmed_balance status)
      + neg_part (mempool_balance status)
unspent-balance_example = unspent-balance status status-Funded status-Spent small

heights_fund : All (λ (f : FundingOutput). InChain f.state f.height) (funding status)
unfolding funding
heights_fund = (omega arith, (tt, tt))

heights_spend : All (λ (i : SpendingInput). InChain i.state i.height) (spending status)
unfolding spending
heights_spend = (tt, tt)

history_lem_example :
    InOrder (history status)
    × ((k : ℕ)
        → sum_by (of_txid k) (history status)
          ≡ (if spends k (spending status) || funds k (funding status) then 1 else 0))
history_lem_example = history_lem status heights_fund heights_spend
