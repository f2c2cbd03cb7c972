-- ===== src/DosLimit/Peers.antt =====
-- src/doslimit.rs: the counters against the list of connected peers.
use electrs_cash.Common.{
  ℕ, ◌+◌, ◌-◌, ◌%◌, ◌^◌, ◌≤◌, ◌<◌, ◌≡◌, refl, true, false, some, List, [], ◌∷◌, ◌++◌, arith, leb,
  Bool-cases, Option-cases, inl, inr, ◌⊎◌, length, length-append, ite,
}
use electrs_cash.Common.Int.{pos, ltb_ℤ}
use electrs_cash.Common.Map.{lookup, insert, lookup-insert}
use electrs_cash.Errors.{ok, err, msg}
use electrs_cash.DosLimit.{
  IpAddr, get_prefix, GlobalLimits, prefix_dec, count_of, with_entry, inc_connection,
  dec_connection,
}

-- How many of the peers have the prefix.
abbrev pub count : List ℕ → List IpAddr → ℕ
count p [] = 0
count p (a ∷ as') = ite (prefix_dec (get_prefix a) p) 1 0 + count p as'

pub count-middle :
    (p : List ℕ) (xs : List IpAddr) (a : IpAddr) (ys : List IpAddr)
    → count p (xs ++ a ∷ ys) ≡ ite (prefix_dec (get_prefix a) p) 1 0 + count p (xs ++ ys)
count-middle p [] a ys = refl
count-middle p (x ∷ xs) a ys = omega (arith, count-middle p xs a ys)

-- The counters count the connected peers, in total and by prefix, within the limits.
pub record Tracks (g : GlobalLimits) (peers : List IpAddr) : Type 0 where
  pub total : g.total_connections ≡ length peers
  pub by_prefix : (p : List ℕ) → count_of g.prefixed p ≡ count p peers
  pub shared : (p : List ℕ) → count p peers ≤ g.max_connections_shared_prefix
  pub u32 : g.max_connections_shared_prefix < 2 ^ 32

count_of-with_entry :
    (t : List (List ℕ × ℕ)) (p q : List ℕ) → count_of (with_entry t p) q ≡ count_of t q
count_of-with_entry t p q = elim (Option-cases (lookup prefix_dec p t)) [
  | inl miss ↦ ground (arith, miss, lookup-insert prefix_dec p q 0 t)
  | inr (n, hit) ↦ ground (arith, hit)
]

count_of-insert :
    (t : List (List ℕ × ℕ)) (p q : List ℕ) (n : ℕ)
    → count_of (insert prefix_dec p n t) q ≡ ite (prefix_dec p q) n (count_of t q)
count_of-insert t p q n = ground (arith, lookup-insert prefix_dec p q n t)

-- A table that counts the peers, with the count of one more peer put in place.
counts_one_more :
    (g : GlobalLimits) (peers : List IpAddr) (addr : IpAddr) (q : List ℕ)
    → Tracks g peers
    → count_of
        (insert prefix_dec
          (get_prefix addr)
          (count_of g.prefixed (get_prefix addr) + 1)
          (with_entry g.prefixed (get_prefix addr)))
        q
      ≡ count q (addr ∷ peers)
counts_one_more g peers addr q t = ground (
  arith,
  count_of-insert (with_entry g.prefixed (get_prefix addr)) (get_prefix addr) q
      (count_of g.prefixed (get_prefix addr) + 1),
  count_of-with_entry g.prefixed (get_prefix addr) q,
  t.by_prefix q,
)

-- The outcome of a connection attempt where the counters count the connected peers. If both limits
-- leave room it is accepted, with the new total and the new number of the prefix, and the counters
-- then count the new peer too. If the prefix has its full share or the total is not below its
-- limit, it is an error, and the counters go on counting the old peers.
pub inc_connection-Tracks :
    (g : GlobalLimits) (peers : List IpAddr) (addr : IpAddr)
    → Tracks g peers
    → ((count (get_prefix addr) peers < g.max_connections_shared_prefix)
        × (ltb_ℤ (pos (length peers)) g.max_connections_total ≡ true)
        × ((inc_connection g addr).1 ≡ ok (length peers + 1, count (get_prefix addr) peers + 1))
        × Tracks (inc_connection g addr).0 (addr ∷ peers))
      ⊎ (((g.max_connections_shared_prefix ≤ count (get_prefix addr) peers)
            ⊎ (ltb_ℤ (pos (length peers)) g.max_connections_total ≡ false))
          × ((inc_connection g addr).1 ≡ err msg)
          × Tracks (inc_connection g addr).0 peers)
unfolding inc_connection
inc_connection-Tracks g peers addr t =
    elim (Bool-cases (leb g.max_connections_shared_prefix (count_of g.prefixed p))) [
      | inl full ↦ inr (
        inl (ground (arith, full, t.by_prefix p)),
        rw full,
        record {
          total = ground (arith, full, t.total);
          by_prefix = λ q. ground (arith, full, count_of-with_entry g.prefixed p q, t.by_prefix q);
          shared = λ q. ground (arith, full, t.shared q);
          u32 = ground (arith, full, t.u32);
        },
      )
      | inr room ↦ elim (Bool-cases (ltb_ℤ (pos g.total_connections) g.max_connections_total)) [
        | inl free ↦ inl (
          ground (arith, room, t.by_prefix p),
          ground (arith, free, t.total),
          ground (arith, room, free, t.by_prefix p, t.total),
          record {
            total = ground (arith, room, free, t.total);
            by_prefix = λ q. ground (arith, room, free, counts_one_more g peers addr q t);
            shared = λ q. ground (arith, room, free, t.by_prefix p, t.shared q);
            u32 = ground (arith, room, free, t.u32);
          },
        )
        | inr taken ↦ inr (
          inr (ground (arith, taken, t.total)),
          rw (room, taken),
          record {
            total = ground (arith, room, taken, t.total);
            by_prefix =
                λ q. ground (arith, room, taken, count_of-with_entry g.prefixed p q, t.by_prefix q);
            shared = λ q. ground (arith, room, taken, t.shared q);
            u32 = ground (arith, room, taken, t.u32);
          },
        )
      ]
    ]
  where
    p : List ℕ
    p = get_prefix addr

-- A connected peer that leaves is counted out without an error: the counters then count the
-- other peers, and the prefix's new count is that of the other peers with it.
pub dec_connection-Tracks :
    (g : GlobalLimits) (xs : List IpAddr) (addr : IpAddr) (ys : List IpAddr)
    → Tracks g (xs ++ addr ∷ ys)
    → ((dec_connection g addr).1 ≡ ok (length (xs ++ ys), count (get_prefix addr) (xs ++ ys)))
      × Tracks (dec_connection g addr).0 (xs ++ ys)
unfolding dec_connection
dec_connection-Tracks g xs addr ys t = elim (Option-cases (lookup prefix_dec p g.prefixed)) [
  | inl miss ↦ ground (arith, miss, t.by_prefix p, count-middle p xs addr ys)
  | inr (n, hit) ↦ (
    ground (arith, hit, size, t.total, down n hit),
    record {
      total = ground (arith, hit, size, t.total);
      by_prefix = λ q. ground (
        arith,
        hit,
        size,
        t.total,
        down n hit,
        count-middle q xs addr ys,
        t.by_prefix q,
        count_of-insert g.prefixed p q ((n + 2 ^ 32 - 1) % 2 ^ 32),
      );
      shared = λ q. ground (arith, hit, size, t.total, count-middle q xs addr ys, t.shared q);
      u32 = ground (arith, hit, size, t.total, t.u32);
    },
  )
]
  where
    p : List ℕ
    p = get_prefix addr

    size : length (xs ++ addr ∷ ys) ≡ length (xs ++ ys) + 1
    size = ground (arith, length-append xs (addr ∷ ys), length-append xs ys)

    down :
        (n : ℕ)
        → lookup prefix_dec p g.prefixed ≡ some n
        → (n + 2 ^ 32 - 1) % 2 ^ 32 ≡ count p (xs ++ ys)
    down n hit = ground (arith, hit, count-middle p xs addr ys, t.by_prefix p, t.shared p, t.u32)
