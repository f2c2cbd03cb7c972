-- ===== src/Subscriptions/Tests.antt =====
-- A connection with a limit of one subscription, and the theorems at it.
use electrs_cash.Common.{ℕ, ◌≡◌, refl, Option, none, some, List, [], ◌∷◌, arith, length, ℕ_discrete}
use electrs_cash.Common.Map.{lookup, remove}
use electrs_cash.Errors.{Result, ok, err, rpc_error, timeout}
use electrs_cash.DosLimit.{ConnectionLimits, check_subscriptions, check_alias_usage}
use electrs_cash.Subscriptions.{
  Subscription, BlockchainRpc, new, address_subscribe, remove_subscription, get_num_subscriptions,
}
use electrs_cash.Subscriptions.Usage.{IsValid, new-IsValid}
use electrs_cash.Subscriptions.Calls.{
  subscribe_address, unsubscribe_address, scripthash_change, after_calls, after_calls-IsValid,
}
use electrs_cash.Subscriptions.Notify.{address_subscribe_failed}

abbrev limits : ConnectionLimits
limits = record { rpc_timeout = 10; max_subscriptions = 1; max_alias_bytes = 8 }

-- The script hash of an address is its length here.
abbrev to_scripthash : List ℕ → Result ℕ
to_scripthash addr = ok (length addr)

abbrev answers : ℕ → Result (Option ℕ)
answers k = ok (some 5)

abbrev fails : ℕ → Result (Option ℕ)
fails k = err (rpc_error timeout)

abbrev address : List ℕ
address = 113 ∷ 113 ∷ []

abbrev entry : Subscription
entry = record { statushash = some 4; alias = some address }

abbrev one_subscribed : BlockchainRpc
one_subscribed = record {
  subscriptions = (2, entry) ∷ [];
  last_header_entry = none;
  doslimits = limits;
  alias_bytes_used = 2;
}

after_calls-IsValid_example : IsValid (
    after_calls to_scripthash
      (subscribe_address answers (ok address)
        ∷ scripthash_change fails 2
        ∷ unsubscribe_address (ok address)
        ∷ [])
      (new limits))
after_calls-IsValid_example =
    after_calls-IsValid to_scripthash
      (subscribe_address answers (ok address)
        ∷ scripthash_change fails 2
        ∷ unsubscribe_address (ok address)
        ∷ [])
      (new limits) (new-IsValid limits (omega arith) (omega arith))

there : lookup ℕ_discrete 2 one_subscribed.subscriptions ≡ some entry
unfolding lookup ℕ_discrete
there = refl

failed :
    (address_subscribe to_scripthash fails (ok address) one_subscribed).1 ≡ err (rpc_error timeout)
unfolding address_subscribe remove_subscription lookup remove ℕ_discrete check_subscriptions
    check_alias_usage get_num_subscriptions
failed = refl

address_subscribe_failed_example :
    (lookup ℕ_discrete 2
        (address_subscribe to_scripthash fails (ok address) one_subscribed).0.subscriptions
      ≡ none)
    × ((address_subscribe to_scripthash fails (ok address) one_subscribed).0
        ≡ (remove_subscription 2 one_subscribed).0)
address_subscribe_failed_example =
    address_subscribe_failed to_scripthash fails address 2 one_subscribed (rpc_error timeout) refl
      failed

done : (address_subscribe to_scripthash answers (ok address) one_subscribed).1 ≡ ok (some 5)
unfolding address_subscribe remove_subscription lookup remove ℕ_discrete check_subscriptions
    check_alias_usage get_num_subscriptions
done = refl
