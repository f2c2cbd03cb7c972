-- ===== src/RndCache/Tests.antt =====
-- The cache over a list as the map and a generator that always gives 0, and the theorems at it.
use electrs_cash.Common.{
  ℕ, ◌≡◌, refl, Option, none, some, List, [], ◌∷◌, arith, get_elem?, ℕ_discrete,
}
use electrs_cash.Common.Map.{lookup, insert}
use electrs_cash.Errors.{ok}
use electrs_cash.RndCache.{
  swap_remove, IndexMap, Rng, RndCache, get, put, store, make_room, fits_in_cache, inc_bytes_used,
  dec_bytes_used,
}
use electrs_cash.RndCache.Put.{IsValid, put-IsValid, get-put}

abbrev Entries : Type 0
Entries = List (ℕ × (ℕ × List ℕ))

abbrev removed : Entries → ℕ → Option ((ℕ × (ℕ × List ℕ)) × Entries)
removed m i = elim (get_elem? m i) [ none ↦ none | some e ↦ some (e, swap_remove m i) ]

removed_entry :
    (m : Entries) (i : ℕ) (e : ℕ × (ℕ × List ℕ))
    → get_elem? m i ≡ some e
    → (m' : Entries) × (removed m i ≡ some (e, m')) × (m' ≡ swap_remove m i)
removed_entry m i e h = (swap_remove m i, ground (arith, h), refl)

abbrev im : IndexMap ℕ (ℕ × List ℕ) ℕ_discrete
im = record {
  Map = Entries;
  new = [];
  entries = λ m. m;
  put = λ m k e. (insert ℕ_discrete k e m, lookup ℕ_discrete k m);
  get = λ m k. lookup ℕ_discrete k m;
  swap_remove_index = removed;
  entries-new = refl;
  get-lookup = λ m k. refl;
  put_old = λ m k e. refl;
  entries-put = λ m k e. refl;
  swap_remove_entry = removed_entry;
}

abbrev rand : Rng
rand = record { Gen = ℕ; gen_range = λ g n. (0, g); gen_range-lt = λ g n h. h }

abbrev cache : RndCache ℕ_discrete im rand
cache = record { map = []; bytes_capacity = 100; bytes_used = 0; rng = 0; entry_overhead = 16 }

cache-IsValid : IsValid ℕ_discrete im rand cache
cache-IsValid = record {
  used = refl;
  small = tt;
  within = omega arith;
  no_overflow = omega arith;
  overhead = omega arith;
}

put-IsValid_example :
    (c' : RndCache ℕ_discrete im rand) × (put ℕ_discrete im rand cache 3 (8 ∷ []) 40 ≡ ok c')
    × IsValid ℕ_discrete im rand c'
put-IsValid_example = put-IsValid ℕ_discrete im rand cache 3 (8 ∷ []) 40 cache-IsValid

abbrev filled : RndCache ℕ_discrete im rand
filled = record cache { map = (3, (40, 8 ∷ [])) ∷ []; bytes_used = 56 }

put_done : put ℕ_discrete im rand cache 3 (8 ∷ []) 40 ≡ ok filled
unfolding put store make_room fits_in_cache inc_bytes_used dec_bytes_used lookup insert
put_done = refl

get-put_example : get ℕ_discrete im rand filled 3 ≡ some (8 ∷ [])
get-put_example =
    get-put ℕ_discrete im rand cache filled 3 (8 ∷ []) 40 cache-IsValid (omega arith) (omega arith)
      put_done

nothing_cached : get ℕ_discrete im rand cache 3 ≡ none
unfolding get lookup
nothing_cached = refl
