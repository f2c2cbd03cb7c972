-- ===== src/Index/Recover.antt =====
-- src/index.rs: the headers that are read back at start-up are those that were indexed.
use electrs_cash.Common.{
  ℕ, zero, suc, ◌≡◌, ◌≢◌, refl, sym, ap, ◌∙◌, some, List, [], ◌∷◌, map, arith, length, All,
  get_elem?, ℕ_discrete,
}
use electrs_cash.Common.Map.{lookup, insert, lookup-insert, lookup-insert_self}
use electrs_cash.Errors.{ok}
use electrs_cash.HeaderList.{BlockHeader, HeaderEntry, HeaderList, tiphash}
use electrs_cash.HeaderList.Chain.{ChainFrom, IsValid, top_from, tiphash-top_from}
use electrs_cash.Store.{ReadStore}
use electrs_cash.Rows.{Codec, BlockKey}
use electrs_cash.Index.{
  block_row, last_indexed_block, header_map, walk_down, first_prev, last_hash, latest_blockhash,
  read_indexed_headers,
}
use electrs_cash.HeaderList.Whole.{header_of, order-ChainFrom, apply_chain_whole}
use electrs_cash.Index.Down.{
  Below, reverse_onto, Below-reverse_onto, walk_down-Below, reverse-reverse_onto,
}

module _ (codec : Codec) where
  last_hash-top_from :
      (x : HeaderEntry) (xs : List HeaderEntry)
      → All (λ e. e.hash ≡ codec.block_hash e.header) (x ∷ xs)
      → last_hash codec (map header_of (x ∷ xs)) ≡ top_from x.hash xs
  unfolding last_hash
  last_hash-top_from x [] hashed = sym (hashed.0)
  last_hash-top_from x (y ∷ xs) hashed = last_hash-top_from y xs hashed.1

  -- The decoders read what the encoders write.
  pub record Decodes : Type 0 where
    pub block_key : (k : BlockKey) → codec.of_block_key (codec.block_key k) ≡ some k
    pub header : (h : BlockHeader) → codec.of_header (codec.header h) ≡ some h
    pub hash : (k : ℕ) → codec.of_hash_bytes (codec.hash_bytes k) ≡ some k

  abbrev filled : List BlockHeader → List (ℕ × BlockHeader) → List (ℕ × BlockHeader)
  filled [] m = m
  filled (h ∷ hs) m = filled hs (insert ℕ_discrete (codec.block_hash h) h m)

  -- No two headers have one hash.
  abbrev pub Apart : List BlockHeader → Type 0
  Apart [] = Unit
  Apart (h ∷ hs) = All (λ g. codec.block_hash g ≢ codec.block_hash h) hs × Apart hs

  header_map-filled :
      (hs : List BlockHeader) (m : List (ℕ × BlockHeader))
      → Decodes
      → header_map codec (map (block_row codec) hs) m ≡ ok (filled hs m)
  unfolding header_map block_row
  header_map-filled [] m d = refl
  header_map-filled (h ∷ hs) m d = ground (
    arith,
    d.block_key (record { code = b'B'; hash = codec.hash_bytes (codec.block_hash h) }),
    d.header h,
    d.hash (codec.block_hash h),
    header_map-filled hs (insert ℕ_discrete (codec.block_hash h) h m) d,
  )

  lookup-filled_other :
      (k : ℕ) (hs : List BlockHeader) (m : List (ℕ × BlockHeader))
      → All (λ g. codec.block_hash g ≢ k) hs
      → lookup ℕ_discrete k (filled hs m) ≡ lookup ℕ_discrete k m
  lookup-filled_other k [] m other = refl
  lookup-filled_other k (h ∷ hs) m other =
      lookup-filled_other k hs (insert ℕ_discrete (codec.block_hash h) h m) other.1
      ∙ ground (arith, other.0, lookup-insert ℕ_discrete (codec.block_hash h) k h m)

  lookup-filled :
      (h : BlockHeader) (hs : List BlockHeader) (m : List (ℕ × BlockHeader)) (i : ℕ)
      → get_elem? hs i ≡ some h
      → Apart hs
      → lookup ℕ_discrete (codec.block_hash h) (filled hs m) ≡ some h
  lookup-filled h [] m i at apart = absurd (ground arith)
  lookup-filled h (g ∷ hs) m zero at apart =
      let here : g ≡ h = ground arith in
      lookup-filled_other (codec.block_hash h) hs (insert ℕ_discrete (codec.block_hash g) g m)
        (rw (← here) apart.0)
      ∙ rw here (lookup-insert_self ℕ_discrete (codec.block_hash h) h m)
  lookup-filled h (g ∷ hs) m (suc i) at apart =
      lookup-filled h hs (insert ℕ_discrete (codec.block_hash g) g m) i at apart.1

  lookups-filled :
      (xs : List HeaderEntry) (hs : List BlockHeader)
      → All (λ e. e.hash ≡ codec.block_hash e.header) xs
      → All (λ e. (i : ℕ) × (get_elem? hs i ≡ some e.header)) xs
      → Apart hs
      → All (λ e. lookup ℕ_discrete e.hash (filled hs []) ≡ some e.header) xs
  lookups-filled [] hs same stored apart = tt
  lookups-filled (x ∷ xs) hs same stored apart = (
    ap (λ (k : ℕ). lookup ℕ_discrete k (filled hs [])) (same.0)
        ∙ lookup-filled x.header hs [] stored.0.0 stored.0.1 apart,
    lookups-filled xs hs same.1 stored.1 apart,
  )

  All-reverse_onto {κ} :
      (P : HeaderEntry → Type κ) (xs ys : List HeaderEntry)
      → All P xs
      → All P ys
      → All P (reverse_onto xs ys)
  All-reverse_onto P [] ys a b = b
  All-reverse_onto P (x ∷ xs) ys a b = All-reverse_onto P xs (x ∷ ys) a.1 (a.0, b)

  last_hash-tiphash :
      (l : HeaderList)
      → All (λ e. e.hash ≡ codec.block_hash e.header) l.headers
      → last_hash codec (map header_of l.headers) ≡ tiphash l
  last_hash-tiphash l same = go l.headers same ∙ sym (tiphash-top_from l)
    where
      go :
          (xs : List HeaderEntry)
          → All (λ e. e.hash ≡ codec.block_hash e.header) xs
          → last_hash codec (map header_of xs) ≡ top_from 0 xs
      go [] same = unfold last_hash in refl
      go (x ∷ xs) same = last_hash-top_from x xs same

  first_prev-ChainFrom :
      (xs : List HeaderEntry) → ChainFrom 0 0 xs → first_prev (map header_of xs) ≡ 0
  unfolding first_prev
  first_prev-ChainFrom [] c = refl
  first_prev-ChainFrom (x ∷ xs) c = c.1

  -- A store that has the rows of some headers with different hashes, among them those of a
  -- well-formed list, and the marker at the list's tip, is read back without a panic as a list of
  -- the same headers. Headers above the marker or on other branches change nothing. The decoders
  -- are assumed to read what the encoders write, and no header of the list has the null hash.
  pub read_indexed_headers_recovers :
      (store : ReadStore) (l : HeaderList) (hs : List BlockHeader)
      → Decodes
      → IsValid l
      → All (λ e. e.hash ≡ codec.block_hash e.header) l.headers
      → All (λ e. e.hash ≢ 0) l.headers
      → store.get (b'L' ∷ []) ≡ some (last_indexed_block codec (tiphash l)).value
      → store.scan (b'B' ∷ []) ≡ map (block_row codec) hs
      → Apart hs
      → All (λ e. (i : ℕ) × (get_elem? hs i ≡ some e.header)) l.headers
      → (l' : HeaderList) × (read_indexed_headers codec store ≡ ok l') × (l'.headers ≡ l.headers)
  unfolding read_indexed_headers latest_blockhash last_indexed_block
  read_indexed_headers_recovers store l hs d v same nz marker rows apart stored =
      let m : List (ℕ × BlockHeader) = filled hs [] in
      let r : List HeaderEntry = reverse_onto l.headers [] in
      let below : Below l.heights (tiphash l) r =
        rw (tiphash-top_from l)
          (Below-reverse_onto l.heights l.headers [] 0 0 v.chain refl nz v.recorded refl) in
      let walked : walk_down (suc (length m)) m (tiphash l) [] ≡ ok (map header_of r) =
        walk_down-Below l.heights r (suc (length m)) m (tiphash l) [] below
          (All-reverse_onto (λ e. lookup ℕ_discrete e.hash m ≡ some e.header) l.headers []
            (lookups-filled l.headers hs same stored apart) tt)
          (omega arith) in
      let (l', applied, shape) = apply_chain_whole codec.block_hash l.headers v.chain same nz in
      (
        l',
        ground (
          arith,
          marker,
          rows,
          walked,
          d.hash (tiphash l),
          header_map-filled hs [] d,
          reverse-reverse_onto l.headers [],
          first_prev-ChainFrom l.headers v.chain,
          last_hash-tiphash l same,
          order-ChainFrom codec.block_hash l.headers v.chain same,
          (rw (← tiphash-top_from l) at applied),
        ),
        shape,
      )
