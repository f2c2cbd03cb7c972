-- ===== src/RndCache.antt =====
-- src/rndcache.rs: the cache with random eviction, and src/cache.rs, which puts it before the
-- daemon. `IndexMap` is that of the crate indexmap, and `Rng` the generator of the crate rand: both
-- are parameters, with the laws of their documentation. Sums of sizes wrap at their width.
pub mod Sizes
pub mod Put
pub mod Front
mod Tests
use electrs_cash.Common.{
  ℕ, zero, suc, ◌+◌, ◌-◌, ◌*◌, ◌/◌, ◌%◌, ◌^◌, ◌≤◌, ◌<◌, ◌≡◌, ◌≢◌, refl, sym, ap, ◌∙◌, Bool, true,
  false, not, ◌&&◌, ◌||◌, Option, none, some, List, [], ◌∷◌, ◌++◌, map, arith, ltb, leb, ◌==◌,
  if◌then◌else◌, Bool-cases, Option-cases, inl, inr, ◌⊎◌, ◌↔◌, length, get_elem?, set, take, drop,
  replicate, last, All, length-append, length-set, length-take, length-drop, take-append-drop,
  length-map, take-append_length, drop-append_length, get_elem?_middle, set_middle, replicate_snoc,
  length-replicate, sum_by, sum_by-append, ite, if_pos, if_neg, ℕ_discrete, dec_lt, dec_le, ==_iff,
  get_elem?_of_length-le,
}
use electrs_cash.Common.Map.{lookup, insert}
use electrs_cash.Errors.{Result, ok, err, panic, ◌>>=◌, ◌>>◌}

-- `Vec::swap_remove`: the last element takes the place of the one removed.
module _ {ℓ} {A : Type ℓ} where
  abbrev pub drop_last : List A → List A
  drop_last [] = []
  drop_last (x ∷ []) = []
  drop_last (x ∷ y ∷ r) = x ∷ drop_last (y ∷ r)

  abbrev pub swap_remove : List A → ℕ → List A
  swap_remove l i = elim (last l) [ none ↦ [] | some z ↦ drop_last (set l i z) ]

pub record IndexMap (K E : Type 0) (dec : Discrete K) : Type 1 where
  pub Map : Type 0
  pub new : Map
  pub entries : Map → List (K × E)
  pub put : Map → K → E → Map × Option E
  pub get : Map → K → Option E
  pub swap_remove_index : Map → ℕ → Option ((K × E) × Map)
  pub entries-new : entries new ≡ []
  pub get-lookup : (m : Map) (k : K) → get m k ≡ lookup dec k (entries m)
  pub put_old : (m : Map) (k : K) (e : E) → (put m k e).1 ≡ lookup dec k (entries m)
  pub entries-put : (m : Map) (k : K) (e : E) → entries (put m k e).0 ≡ insert dec k e (entries m)
  pub swap_remove_entry :
      (m : Map) (i : ℕ) (e : K × E)
      → get_elem? (entries m) i ≡ some e
      → (m' : Map) × (swap_remove_index m i ≡ some (e, m'))
        × (entries m' ≡ swap_remove (entries m) i)

pub record Rng : Type 1 where
  pub Gen : Type 0
  pub gen_range : Gen → ℕ → ℕ × Gen
  pub gen_range-lt : (g : Gen) (n : ℕ) → 0 < n → (gen_range g n).0 < n

abbrev pub u32_mod : ℕ
u32_mod = 2 ^ 32

abbrev pub u64_mod : ℕ
u64_mod = 2 ^ 64

module _ {K V : Type 0} (dec : Discrete K) (im : IndexMap K (ℕ × V) dec) (rand : Rng) where
  pub record RndCache : Type 0 where
    pub map : im.Map
    pub bytes_capacity : ℕ
    pub bytes_used : ℕ
    pub rng : rand.Gen
    pub entry_overhead : ℕ

  -- `size_of::<usize>() + 2 * size_of::<u32>()`.
  abbrev pub default_overhead : ℕ
  default_overhead = 16

  unfoldable pub new : ℕ → rand.Gen → RndCache
  new bytes_capacity seeded = record {
    map = im.new;
    bytes_capacity = bytes_capacity;
    bytes_used = 0;
    rng = seeded;
    entry_overhead = default_overhead;
  }

  unfoldable pub override_entry_overhead : RndCache → ℕ → RndCache
  override_entry_overhead c size = record c { entry_overhead = size }

  unfoldable pub dec_bytes_used : RndCache → ℕ → RndCache
  dec_bytes_used c entry_size = record c {
    bytes_used = (c.bytes_used + u64_mod - (entry_size + c.entry_overhead) % u32_mod) % u64_mod;
  }

  unfoldable pub inc_bytes_used : RndCache → ℕ → RndCache
  inc_bytes_used c entry_size = record c {
    bytes_used = (c.bytes_used + (entry_size + c.entry_overhead) % u32_mod) % u64_mod;
  }

  unfoldable pub fits_in_cache : RndCache → ℕ → Bool
  fits_in_cache c bytes = leb ((c.bytes_used + bytes) % u64_mod) c.bytes_capacity

  unfoldable pub get : RndCache → K → Option V
  get c k = elim (im.get c.map k) [ none ↦ none | some e ↦ some e.1 ]

  unfoldable pub remove_at : RndCache → ℕ → Result RndCache
  remove_at c index = elim (im.swap_remove_index c.map index) [
    | none ↦ panic
    | some p ↦ ok (dec_bytes_used (record c { map = p.1 }) p.0.1.0)
  ]

  -- A range that is empty is a panic.
  unfoldable pub evict_random : RndCache → Result RndCache
  evict_random c =
      let n = length (im.entries c.map) in
      let (index, rng) = rand.gen_range c.rng n in
      if n == 0 then panic else remove_at (record c { rng = rng }) index

  -- The loop of `put`; to run out of rounds counts as a panic.
  unfoldable pub make_room : ℕ → RndCache → ℕ → Result RndCache
  make_room zero c size = if fits_in_cache c size then ok c else panic
  make_room (suc rounds) c size =
      let rest = (do c' ← evict_random c; make_room rounds c' size) in
      if fits_in_cache c size then ok c else rest

  -- The insertion after the loop: a value that is replaced gives its size back.
  unfoldable pub store : RndCache → K → V → ℕ → RndCache
  store c k v size =
      let (m, old) = im.put c.map k (size, v) in
      let c₁ : RndCache = record c { map = m } in
      inc_bytes_used (elim old [ none ↦ c₁ | some e ↦ dec_bytes_used c₁ e.0 ]) size

  unfoldable pub put : RndCache → K → V → ℕ → Result RndCache
  put c k v size =
      if ltb c.bytes_capacity size
      then ok c
      else if ltb (u32_mod - 1) (size + c.entry_overhead)
      then ok c
      else (do c' ← make_room (length (im.entries c.map)) c size; ok (store c' k v size))
