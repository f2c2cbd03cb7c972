-- ===== src/Merkle/Branch.antt =====
-- src/query/mod.rs: the branches that `create_merkle_branch_and_root` makes.
use electrs_cash.Common.{
  ℕ, zero, suc, ◌/◌, ◌%◌, ◌≤◌, ◌<◌, ◌≡◌, ◌≢◌, refl, ap, ◌∙◌, false, some, List, [], ◌∷◌, ◌++◌,
  arith, leb, ◌==◌, if◌then◌else◌, length, get_elem?, last, ℕ_discrete,
}
use mathlib.Core.List.{append-nil, append_assoc}
use electrs_cash.Errors.{ok}
use electrs_cash.Merkle.{
  merklize, merklize_chunks, padded, sibling, branch_loop, create_merkle_branch_and_root,
}

even_tail : (n : ℕ) → suc (suc n) % 2 ≡ 0 → n % 2 ≡ 0
even_tail n e = omega (arith, e)

odd_tail : (n : ℕ) → suc (suc n) % 2 ≢ 0 → n % 2 ≢ 0
odd_tail n e = omega (arith, e)

half_sibling : (i : ℕ) → sibling i / 2 ≡ i / 2
half_sibling i = ground arith

sibling_step : (i : ℕ) → sibling (suc (suc i)) ≡ suc (suc (sibling i))
sibling_step i = ground arith

half_step : (i : ℕ) → suc (suc i) / 2 ≡ suc (i / 2)
half_step i = omega arith

mod_step : (i : ℕ) → suc (suc i) % 2 ≡ i % 2
mod_step i = omega arith

module _ {ℓ} {T : Type ℓ} (bytes : T → List ℕ) (hash : List ℕ → T) where
  -- The hash above `a` at the index with the sibling `s`.
  abbrev pub above : T → ℕ → T → T
  above a index s = if index % 2 == 0 then merklize bytes hash a s else merklize bytes hash s a

  -- What a client computes from a leaf, its index and its branch.
  unfoldable pub climb : T → ℕ → List T → T
  climb a index [] = a
  climb a index (s ∷ r) = climb (above a index s) (index / 2) r

  -- The hashes above a level of a Merkle tree; a last hash without a partner is its own.
  unfoldable pub level : List T → List T
  level [] = []
  level (a ∷ []) = merklize bytes hash a a ∷ []
  level (a ∷ b ∷ r) = merklize bytes hash a b ∷ level r

  -- The root of the Merkle tree over the leaves.
  pub data IsRoot : List T → T → Type ℓ where
    leaf : (a : T) → IsRoot (a ∷ []) a
    over :
        (a b : T) (r : List T) (root : T)
        → IsRoot (level (a ∷ b ∷ r)) root
        → IsRoot (a ∷ b ∷ r) root

  unfoldable evened : List T → List T
  evened [] = []
  evened (a ∷ []) = a ∷ a ∷ []
  evened (a ∷ b ∷ r) = a ∷ b ∷ evened r

  evened_even : (xs : List T) → length xs % 2 ≡ 0 → evened xs ≡ xs
  unfolding evened
  evened_even [] e = refl
  evened_even (a ∷ []) e = absurd (omega arith)
  evened_even (a ∷ b ∷ r) e = ap (λ x. a ∷ b ∷ x) (evened_even r (even_tail (length r) e))

  evened_odd :
      (xs : List T) → length xs % 2 ≢ 0 → (a : T) × (last xs ≡ some a) × (evened xs ≡ xs ++ a ∷ [])
  unfolding evened
  evened_odd [] e = absurd (ground arith)
  evened_odd (a ∷ []) e = (a, refl, refl)
  evened_odd (a ∷ b ∷ []) e = absurd (ground arith)
  evened_odd (a ∷ b ∷ c ∷ r) e =
      let (z, at, same) = evened_odd (c ∷ r) (odd_tail (length (c ∷ r)) e) in
      (z, at, ap (λ x. a ∷ b ∷ x) same)

  padded-evened : (xs : List T) → padded bytes hash xs ≡ ok (evened xs)
  unfolding padded
  padded-evened xs = elim (ℕ_discrete (length xs % 2) 0) [
    | yes even ↦ ground (arith, even, evened_even xs even)
    | no odd ↦ let (z, at, same) = evened_odd xs odd in ground (arith, odd, at, same)
  ]

  merklize_chunks-evened : (xs : List T) → merklize_chunks bytes hash (evened xs) ≡ ok (level xs)
  unfolding merklize_chunks evened level
  merklize_chunks-evened [] = refl
  merklize_chunks-evened (a ∷ []) = refl
  merklize_chunks-evened (a ∷ b ∷ r) = rw (merklize_chunks-evened r) refl

  length-level : (a b : T) (r : List T) → length (level (a ∷ b ∷ r)) < length (a ∷ b ∷ r)
  unfolding level
  length-level a b r = omega (arith, go r)
    where
      go : (xs : List T) → length (level xs) ≤ length xs
      go [] = omega arith
      go (x ∷ []) = omega arith
      go (x ∷ y ∷ t) = omega (arith, go t)

  -- The sibling of a hash stands beside it, and the hash above both at half the index.
  get_elem?-level :
      (xs : List T) (i : ℕ) (a : T)
      → get_elem? xs i ≡ some a
      → (s : T) × (get_elem? (evened xs) (sibling i) ≡ some s)
        × (get_elem? (level xs) (i / 2) ≡ some (above a i s))
  unfolding level evened
  get_elem?-level [] i a h = absurd (ground arith)
  get_elem?-level (x ∷ []) zero a h = (x, refl, ground arith)
  get_elem?-level (x ∷ []) (suc i) a h = absurd (ground arith)
  get_elem?-level (x ∷ y ∷ r) zero a h = (y, refl, ground arith)
  get_elem?-level (x ∷ y ∷ r) (suc zero) a h = (x, refl, ground arith)
  get_elem?-level (x ∷ y ∷ r) (suc (suc i)) a h =
      let (s, at, up) = get_elem?-level r i a h in
      (s, rw (sibling_step i) at, rw (half_step i, mod_step i) up)

  -- One turn of the loop goes up one level.
  branch_loop_turn :
      (fuel : ℕ) (x y : T) (r : List T) (i : ℕ) (s : T) (merkle : List T)
      → get_elem? (evened (x ∷ y ∷ r)) (sibling i) ≡ some s
      → branch_loop bytes hash (suc fuel) (x ∷ y ∷ r) i merkle
        ≡ branch_loop bytes hash fuel (level (x ∷ y ∷ r)) (i / 2) (merkle ++ s ∷ [])
  unfolding branch_loop
  branch_loop_turn fuel x y r i s merkle beside =
      let many : leb (length (x ∷ y ∷ r)) 1 ≡ false = ground arith in
      rw
        (
          many,
          padded-evened (x ∷ y ∷ r),
          beside,
          merklize_chunks-evened (x ∷ y ∷ r),
          half_sibling i,
        )
        refl

  -- On enough fuel the loop gives a branch that climbs from the leaf to the root of the tree.
  branch_loop_lem :
      (fuel : ℕ) (xs : List T) (i : ℕ) (a : T) (merkle : List T)
      → length xs < fuel
      → get_elem? xs i ≡ some a
      → (branch : List T) × (root : T) × (branch_loop bytes hash fuel xs i merkle
          ≡ ok (merkle ++ branch, root))
        × (climb a i branch ≡ root)
        × IsRoot xs root
  unfolding branch_loop climb
  branch_loop_lem zero xs i a merkle enough at = absurd (omega arith)
  branch_loop_lem (suc fuel) [] i a merkle enough at = absurd (ground arith)
  branch_loop_lem (suc fuel) (x ∷ []) zero a merkle enough at =
      ([], x, rw (append-nil merkle) refl, ground arith, leaf x)
  branch_loop_lem (suc fuel) (x ∷ []) (suc i) a merkle enough at = absurd (ground arith)
  branch_loop_lem (suc fuel) (x ∷ y ∷ r) i a merkle enough at =
      let (s, beside, up) = get_elem?-level (x ∷ y ∷ r) i a at in
      let (branch, root, runs, climbs, top) =
        branch_loop_lem fuel (level (x ∷ y ∷ r)) (i / 2) (above a i s) (merkle ++ s ∷ [])
          (omega (arith, length-level x y r)) up in
      (
        s ∷ branch,
        root,
        branch_loop_turn fuel x y r i s merkle beside
            ∙ runs
            ∙ ap (λ m. ok (m, root)) (append_assoc merkle (s ∷ []) branch),
        climbs,
        over x y r root top,
      )

-- The branch for an index within the list: the function returns one, climbing it from the hash at
-- the index gives the root it returns, and that is the root of the Merkle tree over the list.
pub create_merkle_branch_and_root_lem {ℓ} :
    {T : Type ℓ} (bytes : T → List ℕ) (hash : List ℕ → T) (hashes : List T) (index : ℕ) (a : T)
    → get_elem? hashes index ≡ some a
    → (branch : List T) × (root : T) × (create_merkle_branch_and_root bytes hash hashes index
        ≡ ok (branch, root))
      × (climb bytes hash a index branch ≡ root)
      × IsRoot bytes hash hashes root
unfolding create_merkle_branch_and_root
create_merkle_branch_and_root_lem bytes hash hashes index a at =
    branch_loop_lem bytes hash (suc (length hashes)) hashes index a [] (omega arith) at
