-- ===== src/Subscriptions/Notify.antt =====
-- src/rpc/blockchain.rs: what the notifications of a connection say.
use electrs_cash.Common.{
  ℕ, ◌+◌, ◌%◌, ◌^◌, ◌≡◌, ◌≢◌, refl, sym, ap, ◌∙◌, Option, none, some, List, arith, inl, inr, ◌⊎◌,
  length, ℕ_discrete,
}
use electrs_cash.Common.Map.{lookup, insert, lookup-insert_self}
use electrs_cash.Errors.{Result, ok, err, panic, ErrorKind, ◌>>◌, >>=-eq-ok, ok_injective}
use electrs_cash.DosLimit.{check_subscriptions, check_alias_usage}
use electrs_cash.HeaderList.{HeaderEntry}
use electrs_cash.Subscriptions.{
  Subscription, BlockchainRpc, chain_tip, answer, notify, notification_of, on_scripthash_change,
  on_chaintip_change, option_dec, get_num_subscriptions, address_subscribe, remove_subscription,
  subscribed,
}
use electrs_cash.Subscriptions.Usage.{lookup-remove_subscription}

pub on_scripthash_change_miss :
    (st : ℕ → Result (Option ℕ)) (k : ℕ) (r : BlockchainRpc)
    → lookup ℕ_discrete k r.subscriptions ≡ none
    → on_scripthash_change st k r ≡ (r, ok none)
unfolding on_scripthash_change
on_scripthash_change_miss st k r h = ground (arith, h)

pub on_scripthash_change_hit :
    (st : ℕ → Result (Option ℕ)) (k : ℕ) (r : BlockchainRpc) (s : Subscription)
    → lookup ℕ_discrete k r.subscriptions ≡ some s
    → on_scripthash_change st k r ≡ answer (st k) r (notify k s r)
unfolding on_scripthash_change
on_scripthash_change_hit st k r s h = ground (arith, h)

pub on_chaintip_change_off :
    (tip : HeaderEntry) (r : BlockchainRpc)
    → r.last_header_entry ≡ none
    → on_chaintip_change tip r ≡ (r, ok none)
unfolding on_chaintip_change
on_chaintip_change_off tip r h = ground (arith, h)

pub on_chaintip_change_same :
    (tip : HeaderEntry) (r : BlockchainRpc) (e : HeaderEntry)
    → r.last_header_entry ≡ some e
    → e ≡ tip
    → on_chaintip_change tip r ≡ (r, ok none)
unfolding on_chaintip_change
on_chaintip_change_same tip r e h same = ground (arith, h, same)

pub on_chaintip_change_new :
    (tip : HeaderEntry) (r : BlockchainRpc) (e : HeaderEntry)
    → r.last_header_entry ≡ some e
    → e ≢ tip
    → on_chaintip_change tip r
      ≡ (record r { last_header_entry = some tip }, ok (some (chain_tip tip)))
unfolding on_chaintip_change
on_chaintip_change_new tip r e h other = ground (arith, h, other)

pub notify_same :
    (k : ℕ) (s : Subscription) (r : BlockchainRpc) (h : Option ℕ)
    → h ≡ s.statushash
    → notify k s r h ≡ (r, ok none)
unfolding notify
notify_same k s r h same = ground (arith, same)

pub notify_new :
    (k : ℕ) (s : Subscription) (r : BlockchainRpc) (h : Option ℕ)
    → h ≢ s.statushash
    → notify k s r h ≡ (
      record r {
        subscriptions = insert ℕ_discrete k (record s { statushash = h }) r.subscriptions;
      },
      ok (some (notification_of k s h)),
    )
unfolding notify
notify_new k s r h other = ground (arith, other)

-- When the status of a subscribed script hash is the one last told, nothing is sent and nothing
-- changes. Otherwise the notification names the alias or the script hash and has the new status,
-- and a second change event with the same status sends nothing more.
pub on_scripthash_change_once :
    (st : ℕ → Result (Option ℕ)) (k : ℕ) (r : BlockchainRpc) (s : Subscription) (h : Option ℕ)
    → lookup ℕ_discrete k r.subscriptions ≡ some s
    → st k ≡ ok h
    → ((h ≡ s.statushash) × (on_scripthash_change st k r ≡ (r, ok none)))
      ⊎ ((h ≢ s.statushash)
          × ((on_scripthash_change st k r).1 ≡ ok (some (notification_of k s h)))
          × (on_scripthash_change st k (on_scripthash_change st k r).0
              ≡ ((on_scripthash_change st k r).0, ok none)))
on_scripthash_change_once st k r s h hit answered = elim (option_dec h s.statushash) [
  | yes same ↦
      inl (same, on_scripthash_change_hit st k r s hit ∙ rw answered (notify_same k s r h same))
  | no other ↦
      let first : on_scripthash_change st k r ≡ (after, ok (some (notification_of k s h))) =
        on_scripthash_change_hit st k r s hit ∙ rw answered (notify_new k s r h other) in
      inr (other, ap (λ p. p.1) first, rw first again)
]
  where
    t : Subscription
    t = record s { statushash = h }

    after : BlockchainRpc
    after = record r { subscriptions = insert ℕ_discrete k t r.subscriptions }

    again : on_scripthash_change st k after ≡ (after, ok none)
    again =
        on_scripthash_change_hit st k after t (lookup-insert_self ℕ_discrete k t r.subscriptions)
        ∙ rw answered (notify_same k t after h refl)

answer_failed {ℓ κ} :
    {A : Type ℓ} {B : Type κ} (m : Result A) (r : BlockchainRpc) (f : A → BlockchainRpc) (g : A → B)
    (e : ErrorKind)
    → (answer m r (λ a. (f a, ok (g a)))).1 ≡ err e
    → (answer m r (λ a. (f a, ok (g a)))).0 ≡ r
answer_failed (ok a) r f g e h = cc
answer_failed (err d) r f g e h = refl
answer_failed panic r f g e h = cc

answer_done {ℓ κ} :
    {A : Type ℓ} {B : Type κ} (m : Result A) (r : BlockchainRpc) (f : A → BlockchainRpc) (g : A → B)
    (b : B)
    → (answer m r (λ a. (f a, ok (g a)))).1 ≡ ok b
    → (a : A) × (m ≡ ok a) × (g a ≡ b) × ((answer m r (λ a. (f a, ok (g a)))).0 ≡ f a)
answer_done (ok a) r f g b h = (a, refl, ok_injective h, refl)
answer_done (err d) r f g b h = cc
answer_done panic r f g b h = cc

-- The checks and the query of a subscription by address.
abbrev checked : (ℕ → Result (Option ℕ)) → List ℕ → ℕ → BlockchainRpc → Result (Option ℕ)
checked st addr k removed =
    check_subscriptions removed.doslimits ((get_num_subscriptions removed % 2 ^ 32 + 1) % 2 ^ 32)
    >> check_alias_usage removed.doslimits (removed.alias_bytes_used + length addr)
    >> st k

address_subscribe_decoded :
    (to : List ℕ → Result ℕ) (st : ℕ → Result (Option ℕ)) (addr : List ℕ) (k : ℕ)
    (r : BlockchainRpc)
    → to addr ≡ ok k
    → address_subscribe to st (ok addr) r
      ≡ answer
          (checked st addr k (remove_subscription k r).0)
          (remove_subscription k r).0
          (λ h. (subscribed k h (some addr) (remove_subscription k r).0, ok h))
unfolding address_subscribe
address_subscribe_decoded to st addr k r decoded = rw decoded refl

entry : Option ℕ → List ℕ → Subscription
entry h addr = record { statushash = h; alias = some addr }

lookup-subscribed :
    (k : ℕ) (h : Option ℕ) (addr : List ℕ) (r : BlockchainRpc)
    → lookup ℕ_discrete k (subscribed k h (some addr) r).subscriptions ≡ some (entry h addr)
unfolding subscribed entry
lookup-subscribed k h addr r = lookup-insert_self ℕ_discrete k (entry h addr) r.subscriptions

-- A subscription by address that is refused, or whose status query fails, after the address was
-- decoded leaves the script hash without any subscription, also one that it had before.
pub address_subscribe_failed :
    (to : List ℕ → Result ℕ) (st : ℕ → Result (Option ℕ)) (addr : List ℕ) (k : ℕ)
    (r : BlockchainRpc) (e : ErrorKind)
    → to addr ≡ ok k
    → (address_subscribe to st (ok addr) r).1 ≡ err e
    → (lookup ℕ_discrete k (address_subscribe to st (ok addr) r).0.subscriptions ≡ none)
      × ((address_subscribe to st (ok addr) r).0 ≡ (remove_subscription k r).0)
address_subscribe_failed to st addr k r e decoded failed =
    rw (address_subscribe_decoded to st addr k r decoded) (
      let kept =
        answer_failed (checked st addr k removed) removed (λ h. subscribed k h (some addr) removed)
          (λ h. h) e
          (sym (ap (λ x. x.1) (address_subscribe_decoded to st addr k r decoded)) ∙ failed) in
      (ap (λ s. lookup ℕ_discrete k s.subscriptions) kept ∙ lookup-remove_subscription k r, kept))
  where
    removed : BlockchainRpc
    removed = (remove_subscription k r).0

-- A subscription by address that succeeds is found with the status that was answered.
pub lookup-address_subscribe :
    (to : List ℕ → Result ℕ) (st : ℕ → Result (Option ℕ)) (addr : List ℕ) (k : ℕ)
    (r : BlockchainRpc) (h : Option ℕ)
    → to addr ≡ ok k
    → (address_subscribe to st (ok addr) r).1 ≡ ok h
    → (st k ≡ ok h)
      × (lookup ℕ_discrete k (address_subscribe to st (ok addr) r).0.subscriptions
          ≡ some (record { statushash = h; alias = some addr }))
unfolding entry
lookup-address_subscribe to st addr k r h decoded done =
    rw (address_subscribe_decoded to st addr k r decoded) (
      let (a, passed, same, kept) =
        answer_done (checked st addr k removed) removed (λ h. subscribed k h (some addr) removed)
          (λ h. h) h
          (sym (ap (λ x. x.1) (address_subscribe_decoded to st addr k r decoded)) ∙ done) in
      let (u, checks, queried) = >>=-eq-ok {A = Unit {0}} _ (λ _. st k) passed in
      (
        queried ∙ ap ok same,
        ap (λ s. lookup ℕ_discrete k s.subscriptions) kept
            ∙ lookup-subscribed k a addr removed
            ∙ ap (λ x. some (entry x addr)) same,
      ))
  where
    removed : BlockchainRpc
    removed = (remove_subscription k r).0
