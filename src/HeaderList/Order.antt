-- ===== src/HeaderList/Order.antt =====
-- src/util.rs: `order` against `apply`. The headers that `order` numbers are those that `apply`
-- takes without a failed assertion.
use electrs_cash.Common.{
  ℕ, zero, suc, ◌≡◌, ◌≢◌, refl, sym, ◌∙◌, some, List, [], ◌∷◌, ◌++◌, arith, length, take, inl, inr,
  true, get_elem?, last, map, length-take, Option-cases, get_elem?_of_length-le, dec_lt,
}
use electrs_cash.Errors.{Result, ok, err, panic, ok_injective}
use electrs_cash.HeaderList.{
  BlockHeader, HashedHeader, HeaderEntry, HeaderList, tiphash, push_all, apply, kept_height,
  entries_linked, hash_headers, hashed_linked, order, order_hashed, number_from, new_height,
  header_by_blockhash, expected_prev_blockhash,
}
use electrs_cash.HeaderList.Chain.{
  ChainFrom, IsValid, tiphash-top_from, top_from-take, height_of_get_elem?,
}
use electrs_cash.HeaderList.Push.{push_all-headers, push_all_total, push_all-last}
use electrs_cash.HeaderList.Find.{header_by_blockhash_sound}
use electrs_cash.HeaderList.Apply.{kept, apply_chain}

number_from-ChainFrom :
    (n : ℕ) (h : HashedHeader) (r : List HashedHeader)
    → hashed_linked (h ∷ r) ≡ true
    → ChainFrom n h.header.prev_blockhash (number_from n (h ∷ r))
unfolding number_from hashed_linked
number_from-ChainFrom n h [] e = (refl, refl, tt)
number_from-ChainFrom n h (d ∷ r) e =
    let linked : d.header.prev_blockhash ≡ h.blockhash = ground arith in
    (refl, refl, rw (← linked) (number_from-ChainFrom (suc n) d r (ground arith)))

-- The place of a new header: at the bottom above the null hash, or on a header of the list.
pub Stands : HeaderList → ℕ → ℕ → Type 0
Stands l zero p = p ≡ 0
Stands l (suc n) p = (d : HeaderEntry) × (get_elem? l.headers n ≡ some d) × (d.hash ≡ p)

known_header :
    (l : HeaderList) (p n : ℕ)
    → new_height l p ≡ ok (suc n)
    → (d : HeaderEntry) × (header_by_blockhash l p ≡ some d) × (d.height ≡ n)
unfolding new_height
known_header l p n h = elim (Option-cases (header_by_blockhash l p)) [
  | inl miss ↦ absurd (ground arith)
  | inr (d, hit) ↦ (d, hit, ground arith)
]

new_height-Stands : (l : HeaderList) (p n : ℕ) → IsValid l → new_height l p ≡ ok n → Stands l n p
unfolding Stands
new_height-Stands l p zero v h = unfold new_height in ground arith
new_height-Stands l p (suc n) v h =
    let (d, hit, at) = known_header l p n h in
    let (i, found, same) = header_by_blockhash_sound l p d hit in
    let place : i ≡ n = omega (arith, height_of_get_elem? 0 0 l.headers i v.chain found) in
    (d, rw (← place) found, same)

-- The kept part of a list reaches up to where a new header stands.
length-kept : (l : HeaderList) (n p : ℕ) → Stands l n p → length (kept l n).headers ≡ n
unfolding Stands
length-kept l zero p s = refl
length-kept l (suc n) p (d, at, same) = elim (dec_lt n (length l.headers)) [
  | yes within ↦ omega (arith, length-take (suc n) l.headers)
  | no outside ↦ absurd (ground (arith, get_elem?_of_length-le l.headers n (omega arith)))
]

tiphash-kept : (l : HeaderList) (n p : ℕ) → Stands l n p → tiphash (kept l n) ≡ p
unfolding Stands
tiphash-kept l zero p s = tiphash-top_from (kept l 0) ∙ sym s
tiphash-kept l (suc n) p (d, at, same) =
    tiphash-top_from (kept l (suc n)) ∙ top_from-take 0 0 l.headers n at ∙ same

expected_prev_blockhash-Stands :
    (l : HeaderList) (n p : ℕ) → Stands l n p → expected_prev_blockhash l n ≡ ok p
unfolding Stands expected_prev_blockhash
expected_prev_blockhash-Stands l zero p s = rw s
expected_prev_blockhash-Stands l (suc n) p (d, at, same) = rw (at, same)

entries_linked_of_ChainFrom :
    (n p : ℕ) (es : List HeaderEntry) → ChainFrom n p es → entries_linked es ≡ true
unfolding entries_linked
entries_linked_of_ChainFrom n p [] c = refl
entries_linked_of_ChainFrom n p (e ∷ []) c = refl
entries_linked_of_ChainFrom n p (e ∷ d ∷ r) c =
    ground (arith, entries_linked_of_ChainFrom (suc n) e.hash (d ∷ r) c.2)

-- `apply` takes headers that stand on the list, up to their last one.
apply_total :
    (l : HeaderList) (n p : ℕ) (es : List HeaderEntry) (t : HeaderEntry)
    → Stands l n p
    → ChainFrom n p es
    → last es ≡ some t
    → t.hash ≢ 0
    → (l' : HeaderList) × (apply l es t.hash ≡ ok l') × (l'.headers ≡ take n l.headers ++ es)
apply_total l n p [] t s c e nz = absurd (ground arith)
apply_total l n p (h ∷ r) t s c e nz =
    let below : ChainFrom (length (kept l n).headers) (tiphash (kept l n)) (h ∷ r) =
      rw (length-kept l n p s, tiphash-kept l n p s) c in
    let (l', done) = push_all_total (kept l n) (h ∷ r) below in
    (l', accepts l' done, push_all-headers (kept l n) (h ∷ r) done)
  where
    accepts :
        (l' : HeaderList) → push_all (kept l n) (h ∷ r) ≡ ok l' → apply l (h ∷ r) t.hash ≡ ok l'
    accepts l' done =
        unfold apply kept_height in
        ground (
          arith,
          done,
          e,
          entries_linked_of_ChainFrom n p (h ∷ r) c,
          expected_prev_blockhash-Stands l n p s,
          length-kept l n p s,
          push_all-last (kept l n) (h ∷ r) t done e,
        )

order_steps :
    (l : HeaderList) (hs : List HashedHeader) (t : HeaderEntry) (es : List HeaderEntry)
    → IsValid l
    → hashed_linked hs ≡ true
    → order_hashed l hs ≡ ok es
    → last es ≡ some t
    → (n : ℕ) × (p : ℕ) × Stands l n p × ChainFrom n p es
unfolding order_hashed
order_steps l [] t es v k h e = absurd (ground arith)
order_steps l (h ∷ r) t es v k o e = go (new_height l h.header.prev_blockhash) refl o
  where
    go :
        (m : Result ℕ)
        → new_height l h.header.prev_blockhash ≡ m
        → order_hashed l (h ∷ r) ≡ ok es
        → (n : ℕ) × (p : ℕ) × Stands l n p × ChainFrom n p es
    go (ok n) same o = (
      n,
      h.header.prev_blockhash,
      new_height-Stands l _ n v same,
      rw (← ok_injective (rw same at o)) (number_from-ChainFrom n h r k),
    )
    go (err x) same o = absurd (ground arith)
    go panic same o = absurd (ground arith)

module _ (block_hash : BlockHeader → ℕ) where
  order_found :
      (l : HeaderList) (hs : List BlockHeader) (es : List HeaderEntry)
      → order block_hash l hs ≡ ok es
      → (ds : List HashedHeader) × (hashed_linked ds ≡ true) × (order_hashed l ds ≡ ok es)
  unfolding order hash_headers
  order_found l hs es o =
      let ds : List HashedHeader = map (λ h. record { blockhash = block_hash h; header = h }) hs in
      (ds, ground arith, ground arith)

  -- Whenever `order` numbers new headers against a well-formed list, applying them to their last
  -- hash (not the null hash) does not panic: the result is a prefix of the old headers followed by
  -- the new ones, a chain from the null hash to that tip.
  pub apply-order :
      (l : HeaderList) (hs : List BlockHeader) (es : List HeaderEntry) (t : HeaderEntry)
      → IsValid l
      → order block_hash l hs ≡ ok es
      → last es ≡ some t
      → t.hash ≢ 0
      → (l' : HeaderList) × (n : ℕ) × (apply l es t.hash ≡ ok l')
        × (l'.headers ≡ take n l.headers ++ es)
        × ChainFrom 0 0 l'.headers
        × (tiphash l' ≡ t.hash)
  apply-order l hs es t v o e nz =
      let (ds, linked, numbered) = order_found l hs es o in
      let (n, p, stands, chain) = order_steps l ds t es v linked numbered e in
      let (l', applied, shape) = apply_total l n p es t stands chain e nz in
      let (_, _, whole, top) = apply_chain l es t.hash v applied in
      (l', n, applied, shape, whole, top)
