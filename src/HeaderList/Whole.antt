-- ===== src/HeaderList/Whole.antt =====
-- src/util.rs: a chain from the null hash is what `order` numbers and `apply` takes into the empty
-- list.
use electrs_cash.Common.{
  ℕ, zero, suc, ◌≡◌, ◌≢◌, refl, ap, ◌∙◌, true, some, List, [], ◌∷◌, ◌++◌, map, arith, take, last,
  All,
}
use electrs_cash.Errors.{ok}
use electrs_cash.HeaderList.{
  BlockHeader, HashedHeader, HeaderEntry, HeaderList, empty, order, order_hashed, hash_headers,
  hashed_linked, number_from, new_height, apply, is_empty_list,
}
use electrs_cash.HeaderList.Chain.{ChainFrom, top_from}
use electrs_cash.HeaderList.Order.{apply-order}

abbrev pub header_of : HeaderEntry → BlockHeader
header_of e = e.header

module _ (block_hash : BlockHeader → ℕ) where
  abbrev hashed : BlockHeader → HashedHeader
  hashed h = record { blockhash = block_hash h; header = h }

  number_from-ChainFrom :
      (n p : ℕ) (xs : List HeaderEntry)
      → ChainFrom n p xs
      → All (λ e. e.hash ≡ block_hash e.header) xs
      → number_from n (map hashed (map header_of xs)) ≡ xs
  unfolding number_from
  number_from-ChainFrom n p [] c same = refl
  number_from-ChainFrom n p (x ∷ xs) c same =
      ground (arith, c.0, same.0, number_from-ChainFrom (suc n) x.hash xs c.2 same.1)

  hashed_linked-ChainFrom :
      (n p : ℕ) (xs : List HeaderEntry)
      → ChainFrom n p xs
      → All (λ e. e.hash ≡ block_hash e.header) xs
      → hashed_linked (map hashed (map header_of xs)) ≡ true
  unfolding hashed_linked
  hashed_linked-ChainFrom n p [] c same = refl
  hashed_linked-ChainFrom n p (x ∷ []) c same = refl
  hashed_linked-ChainFrom n p (x ∷ y ∷ r) c same =
      ground (arith, same.0, c.2.1, hashed_linked-ChainFrom (suc n) x.hash (y ∷ r) c.2 same.1)

  pub order-ChainFrom :
      (xs : List HeaderEntry)
      → ChainFrom 0 0 xs
      → All (λ e. e.hash ≡ block_hash e.header) xs
      → order block_hash empty (map header_of xs) ≡ ok xs
  unfolding order hash_headers order_hashed new_height hashed_linked empty
  order-ChainFrom [] c same = refl
  order-ChainFrom (x ∷ r) c same = ground (
    arith,
    c.1,
    hashed_linked-ChainFrom 0 0 (x ∷ r) c same,
    number_from-ChainFrom 0 0 (x ∷ r) c same,
  )

  last-top_from :
      (x : HeaderEntry) (r : List HeaderEntry)
      → All (λ e. e.hash ≢ 0) (x ∷ r)
      → (t : HeaderEntry) × (last (x ∷ r) ≡ some t) × (t.hash ≡ top_from x.hash r) × (t.hash ≢ 0)
  last-top_from x [] nz = (x, refl, refl, nz.0)
  last-top_from x (y ∷ r) nz = last-top_from y r nz.1

  pub apply_chain_whole :
      (xs : List HeaderEntry)
      → ChainFrom 0 0 xs
      → All (λ e. e.hash ≡ block_hash e.header) xs
      → All (λ e. e.hash ≢ 0) xs
      → (l : HeaderList) × (apply empty xs (top_from 0 xs) ≡ ok l) × (l.headers ≡ xs)
  unfolding apply empty is_empty_list
  apply_chain_whole [] c same nz = (empty, refl, refl)
  apply_chain_whole (x ∷ r) c same nz =
      let (t, at, top, other) = last-top_from x r nz in
      let (l, n, applied, shape, _, _) =
        apply-order block_hash empty (map header_of (x ∷ r)) (x ∷ r) t
          (record { chain = tt; recorded = tt }) (order-ChainFrom (x ∷ r) c same) at other in
      (l, rw top at applied, shape ∙ ap (λ zs. zs ++ x ∷ r) (take_nil n))
    where
      take_nil : (n : ℕ) → take {A = HeaderEntry} n [] ≡ []
      take_nil zero = refl
      take_nil (suc n) = refl
