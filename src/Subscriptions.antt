-- ===== src/Subscriptions.antt =====
-- src/rpc/blockchain.rs: the subscriptions of one connection. A script hash and a status hash are
-- numbers, a string is its list of bytes, and the first parameter of a call comes as its parsing
-- leaves it. What the query component and the address decoder answer are parameters.
pub mod Usage
pub mod Notify
pub mod Calls
mod Tests
use electrs_cash.Common.{
  ℕ, zero, suc, ◌+◌, ◌-◌, ◌*◌, ◌/◌, ◌%◌, ◌^◌, ◌≤◌, ◌<◌, ◌≡◌, ◌≢◌, refl, sym, ap, ◌∙◌, Bool, true,
  false, not, ◌&&◌, ◌||◌, Option, none, some, List, [], ◌∷◌, ◌++◌, map, arith, ltb, leb, ◌==◌,
  if◌then◌else◌, Bool-cases, Option-cases, inl, inr, ◌⊎◌, ◌↔◌, length, get_elem?, set, take, drop,
  replicate, last, All, length-append, length-set, length-take, length-drop, take-append-drop,
  length-map, take-append_length, drop-append_length, get_elem?_middle, set_middle, replicate_snoc,
  length-replicate, sum_by, sum_by-append, ite, if_pos, if_neg, ℕ_discrete, dec_lt, dec_le, ==_iff,
  get_elem?_of_length-le,
}
use electrs_cash.Common.Map.{lookup, insert, remove}
use electrs_cash.Errors.{Result, ok, err, panic, ◌>>=◌, ◌>>◌}
use electrs_cash.HeaderList.{HeaderEntry}
use electrs_cash.DosLimit.{ConnectionLimits, check_subscriptions, check_alias_usage}

abbrev pub option_dec : Discrete (Option ℕ)
option_dec = hlevel ℕ_discrete

abbrev pub entry_dec : Discrete HeaderEntry
entry_dec = hlevel ℕ_discrete

pub record Subscription : Type 0 where
  pub statushash : Option ℕ
  pub alias : Option (List ℕ)

pub record BlockchainRpc : Type 0 where
  pub subscriptions : List (ℕ × Subscription)
  pub last_header_entry : Option HeaderEntry
  pub doslimits : ConnectionLimits
  pub alias_bytes_used : ℕ

-- The body of a notification: the method, the name of the subscription and the new status.
pub data Notification : Type 0 where
  address_status : List ℕ → Option ℕ → Notification
  scripthash_status : ℕ → Option ℕ → Notification
  chain_tip : HeaderEntry → Notification

unfoldable pub new : ConnectionLimits → BlockchainRpc
new l = record { subscriptions = []; last_header_entry = none; doslimits = l; alias_bytes_used = 0 }

unfoldable pub get_num_subscriptions : BlockchainRpc → ℕ
get_num_subscriptions r = length r.subscriptions

abbrev pub alias_len : Option (List ℕ) → ℕ
alias_len none = 0
alias_len (some a) = length a

unfoldable pub remove_subscription : ℕ → BlockchainRpc → BlockchainRpc × Bool
remove_subscription scripthash r = elim (lookup ℕ_discrete scripthash r.subscriptions) [
  | none ↦ (r, false)
  | some s ↦ (
    record r {
      subscriptions = remove ℕ_discrete scripthash r.subscriptions;
      alias_bytes_used = (r.alias_bytes_used + 2 ^ 64 - alias_len s.alias) % 2 ^ 64;
    },
    true,
  )
]

-- The entry of a new subscription, and its share of the alias bytes.
unfoldable pub subscribed : ℕ → Option ℕ → Option (List ℕ) → BlockchainRpc → BlockchainRpc
subscribed scripthash statushash alias r = record r {
  subscriptions =
      insert ℕ_discrete scripthash (record { statushash = statushash; alias = alias })
        r.subscriptions;
  alias_bytes_used = (r.alias_bytes_used + alias_len alias) % 2 ^ 64;
}

-- The handler's state after a result, and the result passed on.
abbrev pub answer {ℓ κ} :
    {A : Type ℓ} {B : Type κ}
    → Result A
    → BlockchainRpc
    → (A → BlockchainRpc × Result B)
    → BlockchainRpc × Result B
answer (ok a) r f = f a
answer (err e) r f = (r, err e)
answer panic r f = (r, panic)

-- `status` is the hash of `query.status(..)` at the time of the call.
module _ (to_scripthash : List ℕ → Result ℕ) (status : ℕ → Result (Option ℕ)) where
  unfoldable pub address_subscribe :
      Result (List ℕ) → BlockchainRpc → BlockchainRpc × Result (Option ℕ)
  address_subscribe param r = answer param r λ addr. answer (to_scripthash addr) r λ scripthash.
      let removed = (remove_subscription scripthash r).0 in
      answer
        (check_subscriptions removed.doslimits
            ((get_num_subscriptions removed % 2 ^ 32 + 1) % 2 ^ 32)
          >> check_alias_usage removed.doslimits (removed.alias_bytes_used + length addr)
          >> status scripthash)
        removed λ statushash. (subscribed scripthash statushash (some addr) removed, ok statushash)

unfoldable pub address_unsubscribe :
    (List ℕ → Result ℕ) → Result (List ℕ) → BlockchainRpc → BlockchainRpc × Result Bool
address_unsubscribe to_scripthash param r = answer param r λ addr.
    answer (to_scripthash addr) r
      λ scripthash. let removed = remove_subscription scripthash r in (removed.0, ok (removed.1))

unfoldable pub scripthash_subscribe :
    (ℕ → Result (Option ℕ)) → Result ℕ → BlockchainRpc → BlockchainRpc × Result (Option ℕ)
scripthash_subscribe status param r = answer param r λ scripthash.
    let removed = (remove_subscription scripthash r).0 in
    answer
      (check_subscriptions removed.doslimits ((get_num_subscriptions removed % 2 ^ 32 + 1) % 2 ^ 32)
        >> status scripthash)
      removed λ statushash. (subscribed scripthash statushash none removed, ok statushash)

unfoldable pub scripthash_unsubscribe : Result ℕ → BlockchainRpc → BlockchainRpc × Result Bool
scripthash_unsubscribe param r =
    answer param r
      λ scripthash. let removed = remove_subscription scripthash r in (removed.0, ok (removed.1))

-- The notification names the alias if there is one.
unfoldable pub notification_of : ℕ → Subscription → Option ℕ → Notification
notification_of scripthash s new_status = elim s.alias [
  | none ↦ scripthash_status scripthash new_status
  | some a ↦ address_status a new_status
]

-- The subscription with its new status, and the notification of it, unless it is the old status.
unfoldable pub notify :
    ℕ → Subscription → BlockchainRpc → Option ℕ → BlockchainRpc × Result (Option Notification)
notify scripthash s r new_status =
    ite (option_dec new_status s.statushash) (r, ok none)
      (
        record r {
          subscriptions =
              insert ℕ_discrete scripthash (record s { statushash = new_status }) r.subscriptions;
        },
        ok (some (notification_of scripthash s new_status)),
      )

unfoldable pub on_scripthash_change :
    (ℕ → Result (Option ℕ)) → ℕ → BlockchainRpc → BlockchainRpc × Result (Option Notification)
on_scripthash_change status scripthash r = elim (lookup ℕ_discrete scripthash r.subscriptions) [
  | none ↦ (r, ok none)
  | some s ↦ answer (status scripthash) r (notify scripthash s r)
]

unfoldable pub headers_subscribe :
    Result HeaderEntry → BlockchainRpc → BlockchainRpc × Result Notification
headers_subscribe best r =
    answer best r λ entry. (record r { last_header_entry = some entry }, ok (chain_tip entry))

unfoldable pub on_chaintip_change :
    HeaderEntry → BlockchainRpc → BlockchainRpc × Result (Option Notification)
on_chaintip_change chaintip r = elim r.last_header_entry [
  | none ↦ (r, ok none)
  | some e ↦
      ite (entry_dec e chaintip) (r, ok none)
        (record r { last_header_entry = some chaintip }, ok (some (chain_tip chaintip)))
]
