-- ===== src/Subscriptions/Calls.antt =====
-- src/rpc/blockchain.rs: sequences of the calls that change the subscriptions of a connection.
use electrs_cash.Common.{
  ℕ, ◌+◌, ◌%◌, ◌^◌, ◌≤◌, ◌≡◌, refl, Option, none, some, List, [], ◌∷◌, arith, Option-cases, inl,
  inr, length, ℕ_discrete,
}
use electrs_cash.Common.Map.{lookup, insert, insert-Distinct, sum_by-insert_old}
use electrs_cash.Errors.{Result, ok, err, panic, >>=-eq-ok}
use electrs_cash.HeaderList.{HeaderEntry}
use electrs_cash.DosLimit.{ConnectionLimits, check_subscriptions, check_alias_usage}
use electrs_cash.Subscriptions.{
  Subscription, BlockchainRpc, get_num_subscriptions, remove_subscription, answer,
  address_subscribe, address_unsubscribe, scripthash_subscribe, scripthash_unsubscribe,
  on_scripthash_change, headers_subscribe, on_chaintip_change, option_dec, entry_dec, notify,
}
use electrs_cash.Subscriptions.Notify.{
  notify_same, notify_new, on_chaintip_change_off, on_chaintip_change_same, on_chaintip_change_new,
  on_scripthash_change_miss, on_scripthash_change_hit,
}
use electrs_cash.Subscriptions.Usage.{
  alias_bytes, one, IsValid, length-sum_by, remove_subscription-IsValid, lookup-remove_subscription,
  subscribed-IsValid,
}

answer-IsValid {ℓ κ} :
    {A : Type ℓ} {B : Type κ} (m : Result A) (r : BlockchainRpc) (f : A → BlockchainRpc × Result B)
    → IsValid r
    → ((a : A) → m ≡ ok a → IsValid (f a).0)
    → IsValid (answer m r f).0
answer-IsValid (ok a) r f v go = go a refl
answer-IsValid (err e) r f v go = v
answer-IsValid panic r f v go = v

check_subscriptions_ok :
    (l : ConnectionLimits) (n : ℕ) → check_subscriptions l n ≡ ok tt → n ≤ l.max_subscriptions
unfolding check_subscriptions
check_subscriptions_ok l n h = ground (arith, h)

check_alias_usage_ok :
    (l : ConnectionLimits) (n : ℕ) → check_alias_usage l n ≡ ok tt → n ≤ l.max_alias_bytes
unfolding check_alias_usage
check_alias_usage_ok l n h = ground (arith, h)

-- A check of the number passes only if one more subscription is within the limit.
has_room :
    (r : BlockchainRpc)
    → IsValid r
    → check_subscriptions r.doslimits ((get_num_subscriptions r % 2 ^ 32 + 1) % 2 ^ 32) ≡ ok tt
    → length r.subscriptions + 1 ≤ r.doslimits.max_subscriptions
unfolding get_num_subscriptions
has_room r v h = omega (
  arith,
  check_subscriptions_ok r.doslimits ((length r.subscriptions % 2 ^ 32 + 1) % 2 ^ 32) h,
  length-sum_by r.subscriptions,
  v.number,
  v.number_u32,
)

address_subscribe-IsValid :
    (to : List ℕ → Result ℕ) (st : ℕ → Result (Option ℕ)) (param : Result (List ℕ))
    (r : BlockchainRpc)
    → IsValid r
    → IsValid (address_subscribe to st param r).0
unfolding address_subscribe
address_subscribe-IsValid to st param r v = answer-IsValid param r _ v λ addr _.
    answer-IsValid (to addr) r _ v λ k _.
      let removed = (remove_subscription k r).0 in
      let vr = remove_subscription-IsValid k r v in
      answer-IsValid _ removed _ vr λ h e.
        let (u, checks, e1) = >>=-eq-ok _ _ e in
        let (w, c1, c2) = >>=-eq-ok _ _ checks in
        subscribed-IsValid k h (some addr) removed vr (lookup-remove_subscription k r)
          (has_room removed vr c1)
          (check_alias_usage_ok removed.doslimits (removed.alias_bytes_used + length addr) c2)

scripthash_subscribe-IsValid :
    (st : ℕ → Result (Option ℕ)) (param : Result ℕ) (r : BlockchainRpc)
    → IsValid r
    → IsValid (scripthash_subscribe st param r).0
unfolding scripthash_subscribe
scripthash_subscribe-IsValid st param r v = answer-IsValid param r _ v λ k _.
    let removed = (remove_subscription k r).0 in
    let vr = remove_subscription-IsValid k r v in
    answer-IsValid _ removed _ vr λ h e.
      let (u, c1, e1) = >>=-eq-ok _ _ e in
      subscribed-IsValid k h none removed vr (lookup-remove_subscription k r)
        (has_room removed vr c1) (omega (arith, vr.usage))

address_unsubscribe-IsValid :
    (to : List ℕ → Result ℕ) (param : Result (List ℕ)) (r : BlockchainRpc)
    → IsValid r
    → IsValid (address_unsubscribe to param r).0
unfolding address_unsubscribe
address_unsubscribe-IsValid to param r v =
    answer-IsValid param r _ v
      λ addr _. answer-IsValid (to addr) r _ v λ k _. remove_subscription-IsValid k r v

scripthash_unsubscribe-IsValid :
    (param : Result ℕ) (r : BlockchainRpc) → IsValid r → IsValid (scripthash_unsubscribe param r).0
unfolding scripthash_unsubscribe
scripthash_unsubscribe-IsValid param r v =
    answer-IsValid param r _ v λ k _. remove_subscription-IsValid k r v

with_status-IsValid :
    (k : ℕ) (s : Subscription) (h : Option ℕ) (r : BlockchainRpc)
    → IsValid r
    → lookup ℕ_discrete k r.subscriptions ≡ some s
    → IsValid (record r {
      subscriptions = insert ℕ_discrete k (record s { statushash = h }) r.subscriptions;
    })
with_status-IsValid k s h r v hit = record {
  distinct = insert-Distinct ℕ_discrete k t r.subscriptions v.distinct;
  counted =
      omega (arith, v.counted, sum_by-insert_old ℕ_discrete alias_bytes k t s r.subscriptions hit);
  number = omega (arith, v.number, sum_by-insert_old ℕ_discrete one k t s r.subscriptions hit);
  usage = v.usage;
  number_u32 = v.number_u32;
  usage_u32 = v.usage_u32;
}
  where
    t : Subscription
    t = record s { statushash = h }

notify-IsValid :
    (k : ℕ) (s : Subscription) (r : BlockchainRpc) (h : Option ℕ)
    → IsValid r
    → lookup ℕ_discrete k r.subscriptions ≡ some s
    → IsValid (notify k s r h).0
notify-IsValid k s r h v hit = elim (option_dec h s.statushash) [
  | yes same ↦ rw (notify_same k s r h same) v
  | no other ↦ rw (notify_new k s r h other) (with_status-IsValid k s h r v hit)
]

on_scripthash_change-IsValid :
    (st : ℕ → Result (Option ℕ)) (k : ℕ) (r : BlockchainRpc)
    → IsValid r
    → IsValid (on_scripthash_change st k r).0
on_scripthash_change-IsValid st k r v = elim (Option-cases (lookup ℕ_discrete k r.subscriptions)) [
  | inl miss ↦ rw (on_scripthash_change_miss st k r miss) v
  | inr (s, hit) ↦
      rw (on_scripthash_change_hit st k r s hit)
        (answer-IsValid (st k) r _ v λ h e. notify-IsValid k s r h v hit)
]

with_header-IsValid :
    (e : Option HeaderEntry) (r : BlockchainRpc)
    → IsValid r
    → IsValid (record r { last_header_entry = e })
with_header-IsValid e r v = record {
  distinct = v.distinct;
  counted = v.counted;
  number = v.number;
  usage = v.usage;
  number_u32 = v.number_u32;
  usage_u32 = v.usage_u32;
}

headers_subscribe-IsValid :
    (best : Result HeaderEntry) (r : BlockchainRpc)
    → IsValid r
    → IsValid (headers_subscribe best r).0
unfolding headers_subscribe
headers_subscribe-IsValid best r v =
    answer-IsValid best r _ v λ e _. with_header-IsValid (some e) r v

on_chaintip_change-IsValid :
    (tip : HeaderEntry) (r : BlockchainRpc) → IsValid r → IsValid (on_chaintip_change tip r).0
on_chaintip_change-IsValid tip r v = elim (Option-cases r.last_header_entry) [
  | inl off ↦ rw (on_chaintip_change_off tip r off) v
  | inr (e, on) ↦ elim (entry_dec e tip) [
    | yes same ↦ rw (on_chaintip_change_same tip r e on same) v
    | no other ↦ rw (on_chaintip_change_new tip r e on other) (with_header-IsValid (some tip) r v)
  ]
]

-- A call of the connection, with what the query component answers at the time.
pub data Call : Type 0 where
  subscribe_address : (ℕ → Result (Option ℕ)) → Result (List ℕ) → Call
  unsubscribe_address : Result (List ℕ) → Call
  subscribe_scripthash : (ℕ → Result (Option ℕ)) → Result ℕ → Call
  unsubscribe_scripthash : Result ℕ → Call
  chaintip_change : HeaderEntry → Call
  scripthash_change : (ℕ → Result (Option ℕ)) → ℕ → Call
  subscribe_headers : Result HeaderEntry → Call

-- The state after the calls, in their order.
abbrev pub after_calls : (List ℕ → Result ℕ) → List Call → BlockchainRpc → BlockchainRpc
after_calls to [] r = r
after_calls to (subscribe_address st p ∷ cs) r = after_calls to cs (address_subscribe to st p r).0
after_calls to (unsubscribe_address p ∷ cs) r = after_calls to cs (address_unsubscribe to p r).0
after_calls to (subscribe_scripthash st p ∷ cs) r =
    after_calls to cs (scripthash_subscribe st p r).0
after_calls to (unsubscribe_scripthash p ∷ cs) r = after_calls to cs (scripthash_unsubscribe p r).0
after_calls to (scripthash_change st k ∷ cs) r = after_calls to cs (on_scripthash_change st k r).0
after_calls to (chaintip_change tip ∷ cs) r = after_calls to cs (on_chaintip_change tip r).0
after_calls to (subscribe_headers best ∷ cs) r = after_calls to cs (headers_subscribe best r).0

-- From a state in which each script hash is subscribed at most once, the alias bytes are the sum
-- of the lengths of the aliases and both are within the limits of the connection, where the limit
-- on the subscriptions is below 2^32 - 1 and that on the alias bytes below 2^32, every sequence of
-- calls, with any answers and any errors, leads to such a state. (At 2^32 - 1 the number of the
-- next subscription wraps to 0, which every limit allows.)
pub after_calls-IsValid :
    (to : List ℕ → Result ℕ) (cs : List Call) (r : BlockchainRpc)
    → IsValid r
    → IsValid (after_calls to cs r)
after_calls-IsValid to [] r v = v
after_calls-IsValid to (subscribe_address st p ∷ cs) r v =
    after_calls-IsValid to cs _ (address_subscribe-IsValid to st p r v)
after_calls-IsValid to (unsubscribe_address p ∷ cs) r v =
    after_calls-IsValid to cs _ (address_unsubscribe-IsValid to p r v)
after_calls-IsValid to (subscribe_scripthash st p ∷ cs) r v =
    after_calls-IsValid to cs _ (scripthash_subscribe-IsValid st p r v)
after_calls-IsValid to (unsubscribe_scripthash p ∷ cs) r v =
    after_calls-IsValid to cs _ (scripthash_unsubscribe-IsValid p r v)
after_calls-IsValid to (scripthash_change st k ∷ cs) r v =
    after_calls-IsValid to cs _ (on_scripthash_change-IsValid st k r v)
after_calls-IsValid to (chaintip_change tip ∷ cs) r v =
    after_calls-IsValid to cs _ (on_chaintip_change-IsValid tip r v)
after_calls-IsValid to (subscribe_headers best ∷ cs) r v =
    after_calls-IsValid to cs _ (headers_subscribe-IsValid best r v)
