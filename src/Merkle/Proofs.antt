-- ===== src/Merkle/Proofs.antt =====
-- src/query/mod.rs: what the Merkle proofs of transactions and headers show to a client.
use electrs_cash.Common.{
  get_elem?-take, ℕ, zero, suc, ◌-◌, ◌≤◌, ◌<◌, ◌≡◌, ◌≢◌, refl, sym, ap, ◌∙◌, true, false, Option,
  none, some, List, [], ◌∷◌, ◌++◌, map, arith, ltb, ◌==◌, Option-cases, inl, inr, ◌⊎◌, length,
  get_elem?, take, All, length-take, length-map, ℕ_discrete, dec_lt, dec_le, get_elem?_of_length-le,
}
use electrs_cash.Errors.{Result, ok, err, msg, >>=-eq-ok, ok_injective}
use electrs_cash.HeaderList.{HeaderEntry, HeaderList, header_by_height, tiphash}
use electrs_cash.HeaderList.Chain.{
  top_from, IsValid, height_of_get_elem?, tiphash-top_from, top_from-take,
}
use electrs_cash.HeaderList.Find.{find_header, header_by_blockhash_sound}
use electrs_cash.Merkle.{
  position, best_header, get_headers, range, get_merkle_proof, get_id_from_pos,
  get_header_merkle_proof,
}
use electrs_cash.Merkle.Branch.{climb, IsRoot, create_merkle_branch_and_root_lem}

position_cases :
    (xs : List ℕ) (x : ℕ)
    → ((j : ℕ) × (position xs x ≡ some j) × (get_elem? xs j ≡ some x))
      ⊎ (All (λ a. a ≢ x) xs × (position xs x ≡ none))
unfolding position
position_cases [] x = inr (tt, refl)
position_cases (a ∷ r) x = elim (ℕ_discrete a x) [
  | yes same ↦ inl (0, ground (arith, same), ap some same)
  | no other ↦ elim (position_cases r x) [
    | inl (j, found, at) ↦ inl (suc j, ground (arith, other, found), at)
    | inr (absent, none_found) ↦ inr ((other, absent), ground (arith, other, none_found))
  ]
]

module _ (bytes : ℕ → List ℕ) (hash : List ℕ → ℕ) (getblocktxids : ℕ → Result (List ℕ)) where
  -- The Merkle proof of a transaction of the block at a height: the position returned is one of
  -- the transaction, and the branch climbs from it to the root of the tree over the block's
  -- transactions. A transaction that the block does not have is an error.
  pub get_merkle_proof_lem :
      (l : HeaderList) (tx height : ℕ) (e : HeaderEntry) (txids : List ℕ)
      → header_by_height l height ≡ ok (some e)
      → getblocktxids e.hash ≡ ok txids
      → ((branch : List ℕ) × (pos : ℕ) × (root : ℕ) × (get_merkle_proof bytes hash getblocktxids l
              tx height
            ≡ ok (branch, pos))
          × (get_elem? txids pos ≡ some tx)
          × (climb bytes hash tx pos branch ≡ root)
          × IsRoot bytes hash txids root)
        ⊎ (All (λ t. t ≢ tx) txids
            × (get_merkle_proof bytes hash getblocktxids l tx height ≡ err msg))
  unfolding get_merkle_proof
  get_merkle_proof_lem l tx height e txids header block = elim (position_cases txids tx) [
    | inl (pos, found, there) ↦
        let (branch, root, runs, climbs, top) =
          create_merkle_branch_and_root_lem bytes hash txids pos tx there in
        inl (branch, pos, root, rw (header, block, found, runs) refl, there, climbs, top)
    | inr (absent, missing) ↦ inr (absent, rw (header, block, missing) refl)
  ]

  -- The transaction at a position of the block at a height, with its branch if it is wanted; the
  -- branch climbs from it to the root of the tree over the block's transactions.
  pub get_id_from_pos_lem :
      (l : HeaderList) (height pos : ℕ) (e : HeaderEntry) (txids : List ℕ) (tx : ℕ)
      → header_by_height l height ≡ ok (some e)
      → getblocktxids e.hash ≡ ok txids
      → get_elem? txids pos ≡ some tx
      → (get_id_from_pos bytes hash getblocktxids l height pos false ≡ ok (tx, []))
        × ((branch : List ℕ) × (root : ℕ) × (get_id_from_pos bytes hash getblocktxids l height pos
                true
              ≡ ok (tx, branch))
            × (climb bytes hash tx pos branch ≡ root)
            × IsRoot bytes hash txids root)
  unfolding get_id_from_pos
  get_id_from_pos_lem l height pos e txids tx header block at =
      let (branch, root, runs, climbs, top) =
        create_merkle_branch_and_root_lem bytes hash txids pos tx at in
      (rw (header, block, at) refl, (branch, root, rw (header, block, at, runs) refl, climbs, top))

get_headers_snoc :
    (l : HeaderList) (hs : List ℕ) (h : ℕ) (es : List HeaderEntry) (e : HeaderEntry)
    → get_headers l hs ≡ ok es
    → header_by_height l h ≡ ok (some e)
    → get_headers l (hs ++ h ∷ []) ≡ ok (es ++ e ∷ [])
unfolding get_headers
get_headers_snoc l [] h es e a b = rw b (ap (λ x. ok (x ++ e ∷ [])) (ok_injective a))
get_headers_snoc l (x ∷ hs) h es e a b =
    let (found, p, q) = >>=-eq-ok (header_by_height l x) _ a in
    let (rest, p2, q2) = >>=-eq-ok (get_headers l hs) _ q in
    rw (p, get_headers_snoc l hs h rest e p2 b) (with_found found rest es e (ok_injective q2))
  where
    with_found :
        (found : Option HeaderEntry) (rest es : List HeaderEntry) (e : HeaderEntry)
        → (elim found as (λ _. List HeaderEntry) [ none ↦ rest | some f ↦ f ∷ rest ]) ≡ es
        → ok (elim found as (λ _. List HeaderEntry) [
          | none ↦ rest ++ e ∷ []
          | some f ↦ f ∷ (rest ++ e ∷ [])
        ])
          ≡ ok (es ++ e ∷ [])
    with_found none rest es e h = ap (λ x. ok (x ++ e ∷ [])) h
    with_found (some f) rest es e h = ap (λ x. ok (x ++ e ∷ [])) h

take_snoc :
    (n : ℕ) (xs : List HeaderEntry)
    → n < length xs
    → (e : HeaderEntry) × (get_elem? xs n ≡ some e) × (take (suc n) xs ≡ take n xs ++ e ∷ [])
take_snoc n [] h = absurd (omega arith)
take_snoc zero (x ∷ xs) h = (x, refl, refl)
take_snoc (suc n) (x ∷ xs) h =
    let (e, at, same) = take_snoc n xs (omega (arith, h)) in (e, at, ap (◌∷◌ x) same)

get_headers-range :
    (l : HeaderList) (n : ℕ)
    → IsValid l
    → n ≤ length l.headers
    → get_headers l (range n) ≡ ok (take n l.headers)
unfolding range
get_headers-range l zero v h = unfold get_headers in refl
get_headers-range l (suc n) v h =
    let (e, at, same) = take_snoc n l.headers (omega (arith, h)) in
    get_headers_snoc l (range n) n (take n l.headers) e (get_headers-range l n v (omega (arith, h)))
      (find_header l n e v at).0
    ∙ ap ok (sym same)

-- The tip of a list that has a header.
best_header_lem :
    (l : HeaderList) (n : ℕ)
    → IsValid l
    → length l.headers ≡ suc n
    → (e : HeaderEntry) × (best_header l ≡ some e) × (e.height ≡ n)
best_header_lem l n v size =
    let (e, at, same) = take_snoc n l.headers (omega (arith, size)) in
    let top : tiphash l ≡ e.hash =
      tiphash-top_from l
      ∙ ap (top_from 0) (sym (take_all (suc n) l.headers size))
      ∙ top_from-take 0 0 l.headers n at in
    (
      e,
      rw top (find_header l n e v at).1,
      omega (arith, height_of_get_elem? 0 0 l.headers n v.chain at),
    )
  where
    take_all : (n : ℕ) (xs : List HeaderEntry) → length xs ≡ n → take n xs ≡ xs
    take_all zero [] h = refl
    take_all zero (x ∷ xs) h = absurd (omega arith)
    take_all (suc n) [] h = absurd (omega arith)
    take_all (suc n) (x ∷ xs) h = ap (◌∷◌ x) (take_all n xs (omega (arith, h)))

best_cases :
    (l : HeaderList)
    → IsValid l
    → (best_header l ≡ none)
      ⊎ ((e : HeaderEntry) × (best_header l ≡ some e) × (length l.headers ≡ suc e.height))
best_cases l v = elim (ℕ_discrete (length l.headers) 0) [
  | yes none_there ↦ elim (Option-cases (best_header l)) [
    | inl nothing ↦ inl nothing
    | inr (e, found) ↦
        let (i, at, same) = header_by_blockhash_sound l (tiphash l) e found in
        absurd (ground (arith, at, get_elem?_of_length-le l.headers i (omega (arith, none_there))))
  ]
  | no more ↦
      let (e, found, at) = best_header_lem l (length l.headers - 1) v (omega (arith, more)) in
      inr (e, found, omega (arith, at, more))
]

get_elem?-map :
    (xs : List HeaderEntry) (i : ℕ) (e : HeaderEntry)
    → get_elem? xs i ≡ some e
    → get_elem? (map (λ h. h.hash) xs) i ≡ some e.hash
get_elem?-map [] i e h = absurd (ground arith)
get_elem?-map (x ∷ xs) zero e h = ground (arith, h)
get_elem?-map (x ∷ xs) (suc i) e h = get_elem?-map xs i e h

module _ (bytes : ℕ → List ℕ) (hash : List ℕ → ℕ) where
  -- Within the list.
  proof_within :
      (l : HeaderList) (height cp : ℕ) (n : ℕ)
      → IsValid l
      → height ≤ cp
      → cp ≤ n
      → length l.headers ≡ suc n
      → (branch : List ℕ) × (root : ℕ) × (e : HeaderEntry) × (get_elem? l.headers height ≡ some e)
        × (get_header_merkle_proof bytes hash l height cp ≡ ok (branch, root))
        × (climb bytes hash e.hash height branch ≡ root)
        × IsRoot bytes hash (map (λ h. h.hash) (take (suc cp) l.headers)) root
  unfolding get_header_merkle_proof
  proof_within l height cp n v below inside size =
      let (e, at, same) = take_snoc height l.headers (omega (arith, below, inside, size)) in
      let leaf_at : get_elem? (take (suc cp) l.headers) height ≡ some e =
        get_elem?-take (suc cp) l.headers height (omega (arith, below)) ∙ at in
      let (branch, root, runs, climbs, top) =
        create_merkle_branch_and_root_lem bytes hash (map (λ h. h.hash) (take (suc cp) l.headers))
          height e.hash (get_elem?-map (take (suc cp) l.headers) height e leaf_at) in
      let (best, found, best_at) = best_header_lem l n v size in
      let reached : ltb cp height ≡ false = ground (arith, below) in
      let known : ltb best.height cp ≡ false = ground (arith, inside, best_at) in
      let all : (length (map (λ h. h.hash) (take (suc cp) l.headers)) == suc cp) ≡ true = ground (
        arith,
        length-map (λ h. h.hash) (take (suc cp) l.headers),
        length-take (suc cp) l.headers,
        inside,
        size,
      ) in
      let entries = get_headers-range l (suc cp) v (omega (arith, inside, size)) in
      (branch, root, e, at, rw (reached, found, known, entries, all) runs, climbs, top)

  -- A checkpoint above the tip.
  proof_above :
      (l : HeaderList) (height cp : ℕ)
      → IsValid l
      → height ≤ cp
      → length l.headers ≤ cp
      → get_header_merkle_proof bytes hash l height cp ≡ err msg
  unfolding get_header_merkle_proof
  proof_above l height cp v below above = elim (best_cases l v) [
    | inl nothing ↦ ground (arith, below, nothing)
    | inr (best, found, size) ↦ ground (arith, below, above, found, size)
  ]

  -- The proof of a header up to a checkpoint height, from a valid header list: if the checkpoint
  -- is not below the header and is indexed, the branch climbs from the hash of the header at that
  -- height to the root that is returned, which is the root of the tree over the hashes of all
  -- headers up to the checkpoint. Every other pair of heights is an error.
  pub get_header_merkle_proof_lem :
      (l : HeaderList) (height cp_height : ℕ)
      → IsValid l
      → ((height ≤ cp_height)
          × (cp_height < length l.headers)
          × ((branch : List ℕ) × (root : ℕ) × (e : HeaderEntry) × (get_elem? l.headers height
                ≡ some e)
              × (get_header_merkle_proof bytes hash l height cp_height ≡ ok (branch, root))
              × (climb bytes hash e.hash height branch ≡ root)
              × IsRoot bytes hash (map (λ h. h.hash) (take (suc cp_height) l.headers)) root))
        ⊎ (((cp_height < height) ⊎ (length l.headers ≤ cp_height))
            × (get_header_merkle_proof bytes hash l height cp_height ≡ err msg))
  unfolding get_header_merkle_proof
  get_header_merkle_proof_lem l height cp v = elim (dec_le height cp) [
    | no beyond ↦ inr (inl (omega (arith, beyond)), ground (arith, beyond))
    | yes below ↦ elim (dec_lt cp (length l.headers)) [
      | no above ↦
          inr (inr (omega (arith, above)), proof_above l height cp v below (omega (arith, above)))
      | yes inside ↦ inl (
        below,
        inside,
        proof_within l height cp (length l.headers - 1) v below (omega (arith, inside))
            (omega (arith, inside)),
      )
    ]
  ]
