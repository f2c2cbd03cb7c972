-- ===== src/DosLimit.antt =====
-- src/doslimit.rs: the limits on connections and on the resources of one connection. The calls of
-- one lock are taken as atomic. A count of type i32 or u32 is a number; the metrics are left out.
pub mod Peers
mod Tests
use electrs_cash.Common.{
  list_discrete, ℕ, zero, suc, ◌+◌, ◌-◌, ◌*◌, ◌/◌, ◌%◌, ◌^◌, ◌≤◌, ◌<◌, ◌≡◌, ◌≢◌, refl, sym, ap, ◌∙◌,
  Bool, true, false, not, ◌&&◌, ◌||◌, Option, none, some, List, [], ◌∷◌, ◌++◌, map, arith, ltb, leb,
  ◌==◌, if◌then◌else◌, Bool-cases, Option-cases, inl, inr, ◌⊎◌, ◌↔◌, length, get_elem?, set, take,
  drop, replicate, last, All, length-append, length-set, length-take, length-drop, take-append-drop,
  length-map, take-append_length, drop-append_length, get_elem?_middle, set_middle, replicate_snoc,
  length-replicate, sum_by, sum_by-append, ite, if_pos, if_neg, ℕ_discrete, dec_lt, dec_le, ==_iff,
  get_elem?_of_length-le,
}
use electrs_cash.Common.Int.{ℤ, pos, negsuc, ltb_ℤ, sub_ℕ}
use electrs_cash.Common.Map.{lookup, insert}
use electrs_cash.Errors.{Result, ok, err, panic, msg, rpc_invalid_request, ◌>>=◌, ◌>>◌}

pub data IpAddr : Type 0 where
  v4 v6 : List ℕ → IpAddr

unfoldable pub get_prefix : IpAddr → List ℕ
get_prefix (v4 octets) = take 2 octets
get_prefix (v6 octets) = take 2 octets

-- `as i32` of a u32.
abbrev pub as_i32 : ℕ → ℤ
as_i32 n = if ltb n (2 ^ 31) then pos n else sub_ℕ n (2 ^ 32)

pub record GlobalLimits : Type 0 where
  pub max_connections_total : ℤ
  pub max_connections_shared_prefix : ℕ
  pub total_connections : ℕ
  pub prefixed : List (List ℕ × ℕ)

abbrev pub prefix_dec : Discrete (List ℕ)
prefix_dec = list_discrete ℕ_discrete

unfoldable pub new : ℕ → ℕ → GlobalLimits
new total shared = record {
  max_connections_total = as_i32 total;
  max_connections_shared_prefix = shared;
  total_connections = 0;
  prefixed = [];
}

-- The count of a prefix, 0 for a prefix that is not in the table.
abbrev pub count_of : List (List ℕ × ℕ) → List ℕ → ℕ
count_of t p = elim (lookup prefix_dec p t) [ none ↦ 0 | some n ↦ n ]

-- The table with an entry for the prefix, as `entry` and its `insert(0)` leave it.
abbrev pub with_entry : List (List ℕ × ℕ) → List ℕ → List (List ℕ × ℕ)
with_entry t p = elim (lookup prefix_dec p t) [ none ↦ insert prefix_dec p 0 t | some _ ↦ t ]

unfoldable pub inc_connection : GlobalLimits → IpAddr → GlobalLimits × Result (ℕ × ℕ)
inc_connection g addr =
    let p = get_prefix addr in
    let count = count_of g.prefixed p in
    let t = with_entry g.prefixed p in
    if leb g.max_connections_shared_prefix count
    then (record g { prefixed = t }, err msg)
    else if ltb_ℤ (pos g.total_connections) g.max_connections_total
    then (
      record g {
        prefixed = insert prefix_dec p (count + 1) t;
        total_connections = g.total_connections + 1;
      },
      ok (g.total_connections + 1, count + 1),
    )
    else (record g { prefixed = t }, err msg)

-- The table with the prefix counted down (wrapping at 32 bits), and the new count.
abbrev pub count_down : List (List ℕ × ℕ) → List ℕ → List (List ℕ × ℕ) × ℕ
count_down t p = elim (lookup prefix_dec p t) [
  | none ↦ (t, 0)
  | some n ↦ (insert prefix_dec p ((n + 2 ^ 32 - 1) % 2 ^ 32) t, (n + 2 ^ 32 - 1) % 2 ^ 32)
]

unfoldable pub dec_connection : GlobalLimits → IpAddr → GlobalLimits × Result (ℕ × ℕ)
dec_connection g addr =
    let (t, count) = count_down g.prefixed (get_prefix addr) in
    if leb g.total_connections 0 then (record g { prefixed = t }, err msg) else (
      record g { prefixed = t; total_connections = g.total_connections - 1 },
      ok (g.total_connections - 1, count),
    )

pub record ConnectionLimits : Type 0 where
  pub rpc_timeout : ℕ
  pub max_subscriptions : ℕ
  pub max_alias_bytes : ℕ

unfoldable pub check_subscriptions : ConnectionLimits → ℕ → Result (Unit {0})
unfolding rpc_invalid_request
check_subscriptions l num = if leb num l.max_subscriptions then ok tt else err rpc_invalid_request

unfoldable pub check_alias_usage : ConnectionLimits → ℕ → Result (Unit {0})
unfolding rpc_invalid_request
check_alias_usage l bytes_used =
    if leb bytes_used l.max_alias_bytes then ok tt else err rpc_invalid_request
