-- ===== src/Subscriptions/Usage.antt =====
-- src/rpc/blockchain.rs: the resources that the subscriptions of a connection use.
use electrs_cash.Common.{
  ℕ, ◌+◌, ◌-◌, ◌%◌, ◌^◌, ◌≤◌, ◌<◌, ◌≡◌, refl, true, false, Option, none, some, List, [], ◌∷◌, arith,
  Option-cases, inl, inr, length, sum_by, ℕ_discrete,
}
use electrs_cash.Common.Map.{
  lookup, insert, remove, Distinct, insert-Distinct, remove-Distinct, lookup-remove,
  sum_by-insert_new, sum_by-remove,
}
use electrs_cash.DosLimit.{ConnectionLimits}
use electrs_cash.Subscriptions.{
  Subscription, BlockchainRpc, alias_len, remove_subscription, subscribed, new,
}

abbrev pub alias_bytes : ℕ × Subscription → ℕ
alias_bytes (k, s) = alias_len s.alias

abbrev pub one : ℕ × Subscription → ℕ
one e = 1

-- One subscription per script hash, the alias bytes counted exactly, both within the limits.
pub record IsValid (r : BlockchainRpc) : Type 0 where
  pub distinct : Distinct ℕ_discrete r.subscriptions
  pub counted : r.alias_bytes_used ≡ sum_by alias_bytes r.subscriptions
  pub number : sum_by one r.subscriptions ≤ r.doslimits.max_subscriptions
  pub usage : r.alias_bytes_used ≤ r.doslimits.max_alias_bytes
  pub number_u32 : r.doslimits.max_subscriptions + 1 < 2 ^ 32
  pub usage_u32 : r.doslimits.max_alias_bytes < 2 ^ 32

pub length-sum_by : (m : List (ℕ × Subscription)) → length m ≡ sum_by one m
length-sum_by [] = refl
length-sum_by (e ∷ m) = ground (arith, length-sum_by m)

pub new-IsValid :
    (l : ConnectionLimits)
    → l.max_subscriptions + 1 < 2 ^ 32
    → l.max_alias_bytes < 2 ^ 32
    → IsValid (new l)
unfolding new
new-IsValid l s a = record {
  distinct = tt;
  counted = refl;
  number = ground arith;
  usage = ground arith;
  number_u32 = s;
  usage_u32 = a;
}

remove_subscription_miss :
    (k : ℕ) (r : BlockchainRpc)
    → lookup ℕ_discrete k r.subscriptions ≡ none
    → remove_subscription k r ≡ (r, false)
unfolding remove_subscription
remove_subscription_miss k r h = ground (arith, h)

without : ℕ → Subscription → BlockchainRpc → BlockchainRpc
without k s r = record r {
  subscriptions = remove ℕ_discrete k r.subscriptions;
  alias_bytes_used = (r.alias_bytes_used + 2 ^ 64 - alias_len s.alias) % 2 ^ 64;
}

remove_subscription_hit :
    (k : ℕ) (r : BlockchainRpc) (s : Subscription)
    → lookup ℕ_discrete k r.subscriptions ≡ some s
    → remove_subscription k r ≡ (without k s r, true)
unfolding remove_subscription without
remove_subscription_hit k r s h = ground (arith, h)

without-IsValid :
    (k : ℕ) (r : BlockchainRpc) (s : Subscription)
    → IsValid r
    → lookup ℕ_discrete k r.subscriptions ≡ some s
    → IsValid (without k s r)
unfolding without
without-IsValid k r s v hit =
    let bytes = sum_by-remove ℕ_discrete alias_bytes k s r.subscriptions v.distinct hit in
    let count = sum_by-remove ℕ_discrete one k s r.subscriptions v.distinct hit in
    let left : (r.alias_bytes_used + 2 ^ 64 - alias_len s.alias) % 2 ^ 64
        ≡ sum_by alias_bytes (remove ℕ_discrete k r.subscriptions) =
      omega (arith, bytes, v.counted, v.usage, v.usage_u32) in
    record {
      distinct = remove-Distinct ℕ_discrete k r.subscriptions v.distinct;
      counted = left;
      number = omega (arith, count, v.number);
      usage = omega (arith, left, bytes, v.counted, v.usage);
      number_u32 = v.number_u32;
      usage_u32 = v.usage_u32;
    }

pub remove_subscription-IsValid :
    (k : ℕ) (r : BlockchainRpc) → IsValid r → IsValid (remove_subscription k r).0
remove_subscription-IsValid k r v = elim (Option-cases (lookup ℕ_discrete k r.subscriptions)) [
  | inl miss ↦ rw (remove_subscription_miss k r miss) v
  | inr (s, hit) ↦ rw (remove_subscription_hit k r s hit) (without-IsValid k r s v hit)
]

-- The removed subscription is gone.
pub lookup-remove_subscription :
    (k : ℕ) (r : BlockchainRpc)
    → lookup ℕ_discrete k (remove_subscription k r).0.subscriptions ≡ none
unfolding remove_subscription
lookup-remove_subscription k r = elim (Option-cases (lookup ℕ_discrete k r.subscriptions)) [
  | inl miss ↦ ground (arith, miss)
  | inr (s, hit) ↦ ground (arith, hit, lookup-remove ℕ_discrete k k r.subscriptions)
]

pub subscribed-IsValid :
    (k : ℕ) (h : Option ℕ) (a : Option (List ℕ)) (r : BlockchainRpc)
    → IsValid r
    → lookup ℕ_discrete k r.subscriptions ≡ none
    → length r.subscriptions + 1 ≤ r.doslimits.max_subscriptions
    → r.alias_bytes_used + alias_len a ≤ r.doslimits.max_alias_bytes
    → IsValid (subscribed k h a r)
unfolding subscribed
subscribed-IsValid k h a r v miss room bytes = record {
  distinct = insert-Distinct ℕ_discrete k s r.subscriptions v.distinct;
  counted = omega (arith, alias_sum, v.counted, bytes, v.usage_u32);
  number = omega (arith, number_sum, room, length-sum_by r.subscriptions);
  usage = omega (arith, bytes, v.usage_u32);
  number_u32 = v.number_u32;
  usage_u32 = v.usage_u32;
}
  where
    s : Subscription
    s = record { statushash = h; alias = a }

    alias_sum :
        sum_by alias_bytes (insert ℕ_discrete k s r.subscriptions)
        ≡ alias_len a + sum_by alias_bytes r.subscriptions
    alias_sum = sum_by-insert_new ℕ_discrete alias_bytes k s r.subscriptions miss

    number_sum : sum_by one (insert ℕ_discrete k s r.subscriptions) ≡ 1 + sum_by one r.subscriptions
    number_sum = sum_by-insert_new ℕ_discrete one k s r.subscriptions miss
