-- ===== src/RndCache/Put.antt =====
-- src/rndcache.rs: the byte accounting of the cache, and that `put` always ends.
use electrs_cash.Common.{
  ℕ, zero, suc, ◌+◌, ◌-◌, ◌*◌, ◌%◌, ◌≤◌, ◌<◌, ◌≡◌, refl, ◌∙◌, some, List, [], ◌∷◌, arith, ltb, leb,
  Bool-cases, Option-cases, inl, inr, length, get_elem?, All, sum_by, ite,
}
use electrs_cash.Common.Map.{
  lookup, insert, lookup-insert, sum_by-insert_new, sum_by-insert_old, sum_by_of_lookup, All_lookup,
  All-insert,
}
use electrs_cash.Errors.{ok}
use electrs_cash.RndCache.{
  IndexMap, Rng, RndCache, u32_mod, u64_mod, dec_bytes_used, inc_bytes_used, fits_in_cache, get,
  remove_at, evict_random, make_room, store, put,
}
use electrs_cash.RndCache.Sizes.{sum_by-swap_remove, length-swap_remove, All-swap_remove, All_elem}

module _ {K V : Type 0} (dec : Discrete K) (im : IndexMap K (ℕ × V) dec) (rand : Rng) where
  abbrev Cache : Type 0
  Cache = RndCache dec im rand

  -- The bytes that an entry counts for.
  abbrev pub cost : ℕ → K × (ℕ × V) → ℕ
  cost overhead e = e.1.0 + overhead

  -- What is used is the sum over the entries, each of a size that fits 32 bits with its overhead;
  -- and it is at most the capacity and one overhead.
  pub record IsValid (c : Cache) : Type 0 where
    pub used : c.bytes_used ≡ sum_by (cost c.entry_overhead) (im.entries c.map)
    pub small : All (λ e. cost c.entry_overhead e < u32_mod) (im.entries c.map)
    pub within : c.bytes_used ≤ c.bytes_capacity + c.entry_overhead
    pub no_overflow : 2 * c.bytes_capacity + 2 * u32_mod < u64_mod
    pub overhead : c.entry_overhead < u32_mod

  elem_cost :
      (o : ℕ) (l : List (K × (ℕ × V))) (i : ℕ) (e : K × (ℕ × V))
      → get_elem? l i ≡ some e
      → cost o e ≤ sum_by (cost o) l
  elem_cost o l i e h = omega (arith, sum_by-swap_remove (cost o) l i e h)

  elem_exists :
      (l : List (K × (ℕ × V))) (i : ℕ) → i < length l → (e : K × (ℕ × V)) × (get_elem? l i ≡ some e)
  elem_exists [] i h = absurd (omega arith)
  elem_exists (x ∷ l) zero h = (x, refl)
  elem_exists (x ∷ l) (suc i) h = elem_exists l i (omega arith)

  remove_at_total :
      (c : Cache) (i : ℕ)
      → IsValid c
      → i < length (im.entries c.map)
      → (c' : Cache) × (remove_at dec im rand c i ≡ ok c')
        × IsValid c'
        × (length (im.entries c'.map) + 1 ≡ length (im.entries c.map))
        × (c'.bytes_capacity ≡ c.bytes_capacity)
        × (c'.entry_overhead ≡ c.entry_overhead)
  unfolding remove_at dec_bytes_used
  remove_at_total c i v h =
      let (e, at) = elem_exists (im.entries c.map) i h in
      let (m', removed, left) = im.swap_remove_entry c.map i e at in
      let small : cost c.entry_overhead e < u32_mod = All_elem _ (im.entries c.map) i v.small at in
      let sum = sum_by-swap_remove (cost c.entry_overhead) (im.entries c.map) i e at in
      let used : (c.bytes_used + u64_mod - (e.1.0 + c.entry_overhead) % u32_mod) % u64_mod
          ≡ sum_by (cost c.entry_overhead) (im.entries m') =
        rw left (omega (arith, v.used, v.within, v.no_overflow, v.overhead, sum, small)) in
      (
        record c {
          map = m';
          bytes_used = (c.bytes_used + u64_mod - (e.1.0 + c.entry_overhead) % u32_mod) % u64_mod;
        },
        ground (arith, removed),
        record {
          used = used;
          small = rw left (All-swap_remove _ (im.entries c.map) i at v.small);
          within = rw used (rw left (omega (arith, v.used, v.within, sum)));
          no_overflow = v.no_overflow;
          overhead = v.overhead;
        },
        rw left (length-swap_remove (im.entries c.map) i e at),
        refl,
        refl,
      )

  evict_total :
      (c : Cache)
      → IsValid c
      → 0 < length (im.entries c.map)
      → (c' : Cache) × (evict_random dec im rand c ≡ ok c')
        × IsValid c'
        × (length (im.entries c'.map) + 1 ≡ length (im.entries c.map))
        × (c'.bytes_capacity ≡ c.bytes_capacity)
        × (c'.entry_overhead ≡ c.entry_overhead)
  unfolding evict_random
  evict_total c v h =
      let n = length (im.entries c.map) in
      let drawn = rand.gen_range c.rng n in
      let (c', removed, valid, fewer, cap, over) =
        remove_at_total (record c { rng = drawn.1 }) drawn.0
          (record {
            used = v.used;
            small = v.small;
            within = v.within;
            no_overflow = v.no_overflow;
            overhead = v.overhead;
          })
          (rand.gen_range-lt c.rng n h) in
      (c', ground (arith, removed, h), valid, fewer, cap, over)

  empty_used : (c : Cache) → IsValid c → length (im.entries c.map) ≤ 0 → c.bytes_used ≡ 0
  empty_used c v h = v.used ∙ go (im.entries c.map) h
    where
      go : (l : List (K × (ℕ × V))) → length l ≤ 0 → sum_by (cost c.entry_overhead) l ≡ 0
      go [] h = refl
      go (e ∷ l) h = absurd (omega arith)

  -- The loop of `put` ends within as many rounds as there are entries, with room for the new one.
  make_room_total :
      (rounds : ℕ) (c : Cache) (size : ℕ)
      → IsValid c
      → length (im.entries c.map) ≤ rounds
      → size ≤ c.bytes_capacity
      → (c' : Cache) × (make_room dec im rand rounds c size ≡ ok c')
        × IsValid c'
        × (c'.bytes_used + size ≤ c.bytes_capacity)
        × (c'.bytes_capacity ≡ c.bytes_capacity)
        × (c'.entry_overhead ≡ c.entry_overhead)
  unfolding make_room fits_in_cache
  make_room_total zero c size v h fits = (
    c,
    ground (arith, empty_used c v h, v.no_overflow),
    v,
    omega (arith, empty_used c v h),
    refl,
    refl,
  )
  make_room_total (suc rounds) c size v h fits =
      elim (Bool-cases (leb ((c.bytes_used + size) % u64_mod) c.bytes_capacity)) [
        | inl room ↦
            (c, rw room, v, ground (arith, room, v.within, v.no_overflow, v.overhead), refl, refl)
        | inr full ↦
            let pos : 0 < length (im.entries c.map) =
              ground (arith, full, empty_used c v, v.no_overflow) in
            let (c₁, evicted, valid, fewer, cap, over) = evict_total c v pos in
            let (c₂, made, valid', room, cap', over') =
              make_room_total rounds c₁ size valid (omega arith) (omega arith) in
            (
              c₂,
              rw (full, evicted) made,
              valid',
              omega (arith, room, cap),
              cap' ∙ cap,
              over' ∙ over,
            )
      ]

  -- What the insertion does to the bytes used.
  store_used :
      (c : Cache) (k : K) (v : V) (size : ℕ)
      → IsValid c
      → c.bytes_used + size ≤ c.bytes_capacity
      → size + c.entry_overhead < u32_mod
      → ((store dec im rand c k v size).bytes_used
          ≡ sum_by (cost c.entry_overhead) (insert dec k (size, v) (im.entries c.map)))
        × ((store dec im rand c k v size).bytes_used ≤ c.bytes_used + size + c.entry_overhead)
  unfolding store inc_bytes_used dec_bytes_used
  store_used c k v size p fits small = elim (Option-cases (lookup dec k (im.entries c.map))) [
    | inl miss ↦
        let sum =
          sum_by-insert_new dec (cost c.entry_overhead) k (size, v) (im.entries c.map) miss in
        ground (arith, miss, im.put_old c.map k (size, v), sum, p.used, p.no_overflow)
    | inr (u, hit) ↦
        let sum =
          sum_by-insert_old dec (cost c.entry_overhead) k (size, v) u (im.entries c.map) hit in
        let old = sum_by_of_lookup dec (cost c.entry_overhead) k u (im.entries c.map) hit in
        let tiny =
          All_lookup dec (λ e. cost c.entry_overhead e < u32_mod) k u (im.entries c.map) p.small
            hit in
        ground (arith, hit, im.put_old c.map k (size, v), sum, old, tiny, p.used, p.no_overflow)
  ]

  store_fields :
      (c : Cache) (k : K) (v : V) (size : ℕ)
      → ((store dec im rand c k v size).map ≡ (im.put c.map k (size, v)).0)
        × ((store dec im rand c k v size).bytes_capacity ≡ c.bytes_capacity)
        × ((store dec im rand c k v size).entry_overhead ≡ c.entry_overhead)
  unfolding store inc_bytes_used dec_bytes_used
  store_fields c k v size = elim (Option-cases (im.put c.map k (size, v)).1) [
    | inl miss ↦ (rw miss, rw miss, rw miss)
    | inr (u, hit) ↦ (rw hit, rw hit, rw hit)
  ]

  store-IsValid :
      (c : Cache) (k : K) (v : V) (size : ℕ)
      → IsValid c
      → c.bytes_used + size ≤ c.bytes_capacity
      → size + c.entry_overhead < u32_mod
      → IsValid (store dec im rand c k v size)
  store-IsValid c k v size p fits small =
      let (map_eq, cap, over) = store_fields c k v size in
      let (used, bound) = store_used c k v size p fits small in
      let all =
        All-insert dec (λ e. cost c.entry_overhead e < u32_mod) k (size, v) (im.entries c.map) small
          p.small in
      record {
        used = rw (map_eq, over, im.entries-put) used;
        small = rw (map_eq, over, im.entries-put) all;
        within = omega (arith, bound, cap, over, fits);
        no_overflow = rw cap p.no_overflow;
        overhead = rw over p.overhead;
      }

  get-store :
      (c : Cache) (k j : K) (v : V) (size : ℕ)
      → get dec im rand (store dec im rand c k v size) j
        ≡ ite (dec k j) (some v) (get dec im rand c j)
  unfolding get
  get-store c k j v size = rw (store_fields c k v size).0 (
      ground (
        arith,
        im.get-lookup (im.put c.map k (size, v)).0 j,
        im.get-lookup c.map j,
        im.entries-put c.map k (size, v),
        lookup-insert dec k j (size, v) (im.entries c.map),
      ))

  put_runs :
      (c : Cache) (k : K) (v : V) (size : ℕ)
      → IsValid c
      → (c' : Cache) × (put dec im rand c k v size ≡ ok c')
        × IsValid c'
        × (size ≤ c.bytes_capacity
            → size + c.entry_overhead < u32_mod
            → get dec im rand c' k ≡ some v)
  unfolding put
  put_runs c k v size p = elim (Bool-cases (ltb c.bytes_capacity size)) [
    | inl large ↦ (c, rw large, p, λ fits. absurd (ground arith))
    | inr fits ↦ elim (Bool-cases (ltb (u32_mod - 1) (size + c.entry_overhead))) [
      | inl wide ↦ (c, rw (fits, wide), p, λ _ small. absurd (ground arith))
      | inr narrow ↦
          let (c₁, made, valid, room, cap, over) =
            make_room_total (length (im.entries c.map)) c size p (omega arith) (ground arith) in
          (
            store dec im rand c₁ k v size,
            rw (fits, narrow, made),
            store-IsValid c₁ k v size valid (omega (arith, room, cap)) (ground (arith, over)),
            λ _ _. ground (arith, get-store c₁ k k v size),
          )
    ]
  ]

  -- On a valid cache `put` always ends, without a panic, in a valid cache: what is used is the sum
  -- over the entries that are left, and at most the capacity and one overhead.
  pub put-IsValid :
      (c : Cache) (k : K) (v : V) (size : ℕ)
      → IsValid c
      → (c' : Cache) × (put dec im rand c k v size ≡ ok c') × IsValid c'
  put-IsValid c k v size p = let (c', done, valid, _) = put_runs c k v size p in (c', done, valid)

  -- After a `put` of a value that is neither larger than the capacity nor too large for 32 bits with
  -- its overhead, the value is found under its key.
  pub get-put :
      (c c' : Cache) (k : K) (v : V) (size : ℕ)
      → IsValid c
      → size ≤ c.bytes_capacity
      → size + c.entry_overhead < u32_mod
      → put dec im rand c k v size ≡ ok c'
      → get dec im rand c' k ≡ some v
  get-put c c' k v size p fits small e =
      let (c₁, done, _, found) = put_runs c k v size p in
      let same : c₁ ≡ c' = cc in rw (← same) (found fits small)
