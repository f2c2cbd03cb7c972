-- ===== src/Index/Down.antt =====
-- src/index.rs: the walk from the marker down through the map of stored headers.
use electrs_cash.Common.{
  ℕ, zero, suc, ◌≤◌, ◌<◌, ◌≡◌, ◌≢◌, refl, sym, ap, ◌∙◌, some, List, [], ◌∷◌, ◌++◌, map, arith,
  length, All, ℕ_discrete,
}
use mathlib.Core.List.{append-nil, append_assoc}
use electrs_cash.Common.Map.{lookup, remove, lookup-remove}
use electrs_cash.Errors.{ok}
use electrs_cash.HeaderList.{BlockHeader, HeaderEntry}
use electrs_cash.HeaderList.Chain.{ChainFrom, Recorded, top_from}
use electrs_cash.Daemon.{reverse}
use electrs_cash.HeaderList.Whole.{header_of}
use electrs_cash.Index.{walk_down}

-- The entries, newest first, from a hash down to the null hash; the map of heights has each at the
-- number of entries below it.
abbrev pub Below : List (ℕ × ℕ) → ℕ → List HeaderEntry → Type 0
Below heights tip [] = tip ≡ 0
Below heights tip (e ∷ r) =
    (e.hash ≡ tip)
    × (tip ≢ 0)
    × (lookup ℕ_discrete e.hash heights ≡ some (length r))
    × Below heights e.header.prev_blockhash r

abbrev pub reverse_onto : List HeaderEntry → List HeaderEntry → List HeaderEntry
reverse_onto [] ys = ys
reverse_onto (x ∷ xs) ys = reverse_onto xs (x ∷ ys)

pub Below-reverse_onto :
    (heights : List (ℕ × ℕ)) (xs ys : List HeaderEntry) (n p : ℕ)
    → ChainFrom n p xs
    → length ys ≡ n
    → All (λ e. e.hash ≢ 0) xs
    → Recorded heights xs
    → Below heights p ys
    → Below heights (top_from p xs) (reverse_onto xs ys)
Below-reverse_onto heights [] ys n p c len nz rec below = below
Below-reverse_onto heights (x ∷ xs) ys n p c len nz rec below =
    Below-reverse_onto heights xs (x ∷ ys) (suc n) x.hash c.2 (omega arith) nz.1 rec.1
      (refl, nz.0, rec.0 ∙ ap (λ (k : ℕ). some k) (omega (arith, c.0)), rw (c.1) below)

-- The heights of the entries are below their number.
pub Below-heights :
    (heights : List (ℕ × ℕ)) (tip : ℕ) (r : List HeaderEntry)
    → Below heights tip r
    → (n : ℕ) → length r ≤ n
    → All (λ d. lookup ℕ_discrete d.hash heights ≢ some n) r
Below-heights heights tip [] below n le = tt
Below-heights heights tip (e ∷ r) below n le =
    (ground (arith, below.2, le), Below-heights heights _ r below.3 n (omega arith))

-- Removing the top entry's hash leaves the entries below it in the map.
pub found-remove :
    (m : List (ℕ × BlockHeader)) (heights : List (ℕ × ℕ)) (k n : ℕ) (r : List HeaderEntry)
    → lookup ℕ_discrete k heights ≡ some n
    → All (λ d. lookup ℕ_discrete d.hash heights ≢ some n) r
    → All (λ d. lookup ℕ_discrete d.hash m ≡ some d.header) r
    → All (λ d. lookup ℕ_discrete d.hash (remove ℕ_discrete k m) ≡ some d.header) r
found-remove m heights k n [] at other found = tt
found-remove m heights k n (d ∷ r) at other found = (
  ground (arith, lookup-remove ℕ_discrete k d.hash m, at, other.0, found.0),
  found-remove m heights k n r at other.1 found.1,
)

pub length-remove_le :
    (k : ℕ) (m : List (ℕ × BlockHeader)) → length (remove ℕ_discrete k m) ≤ length m
unfolding remove
length-remove_le k [] = omega arith
length-remove_le k ((j, h) ∷ m) = ground (arith, length-remove_le k m)

pub length-remove_found :
    (k : ℕ) (m : List (ℕ × BlockHeader)) (h : BlockHeader)
    → lookup ℕ_discrete k m ≡ some h
    → length (remove ℕ_discrete k m) < length m
unfolding remove lookup
length-remove_found k [] h hit = absurd (ground arith)
length-remove_found k ((j, i) ∷ m) h hit =
    ground (arith, length-remove_found k m h, length-remove_le k m)

pub walk_down_null :
    (fuel : ℕ) (m : List (ℕ × BlockHeader)) (k : ℕ) (acc : List BlockHeader)
    → k ≡ 0
    → walk_down (suc fuel) m k acc ≡ ok acc
unfolding walk_down
walk_down_null fuel m k acc null = ground (arith, null)

pub walk_down_next :
    (fuel : ℕ) (m : List (ℕ × BlockHeader)) (k : ℕ) (acc : List BlockHeader) (h : BlockHeader)
    → k ≢ 0
    → lookup ℕ_discrete k m ≡ some h
    → walk_down (suc fuel) m k acc
      ≡ walk_down fuel (remove ℕ_discrete k m) h.prev_blockhash (acc ++ h ∷ [])
unfolding walk_down
walk_down_next fuel m k acc h other hit = ground (arith, other, hit)

pub walk_down-Below :
    (heights : List (ℕ × ℕ)) (r : List HeaderEntry) (fuel : ℕ) (m : List (ℕ × BlockHeader))
    (tip : ℕ) (acc : List BlockHeader)
    → Below heights tip r
    → All (λ d. lookup ℕ_discrete d.hash m ≡ some d.header) r
    → length m < fuel
    → walk_down fuel m tip acc ≡ ok (acc ++ map header_of r)
walk_down-Below heights r zero m tip acc below found enough = absurd (omega arith)
walk_down-Below heights [] (suc fuel) m tip acc below found enough =
    walk_down_null fuel m tip acc below ∙ ap ok (sym (append-nil acc))
walk_down-Below heights (e ∷ r) (suc fuel) m tip acc below found enough =
    let hit : lookup ℕ_discrete tip m ≡ some e.header = rw (← below.0) (found.0) in
    let smaller = length-remove_found tip m e.header hit in
    let kept =
      found-remove m heights e.hash (length r) r below.2
        (Below-heights heights _ r below.3 (length r) (omega arith)) found.1 in
    walk_down_next fuel m tip acc e.header below.1 hit
    ∙ walk_down-Below heights r fuel (remove ℕ_discrete tip m) e.header.prev_blockhash
        (acc ++ e.header ∷ []) below.3 (rw (← below.0) kept) (omega (arith, smaller, enough))
    ∙ ap ok (append_assoc acc (e.header ∷ []) (map header_of r))

pub reverse-reverse_onto :
    (xs ys : List HeaderEntry)
    → reverse (map header_of (reverse_onto xs ys)) ≡ reverse (map header_of ys) ++ map header_of xs
reverse-reverse_onto [] ys = sym (append-nil (reverse (map header_of ys)))
reverse-reverse_onto (x ∷ xs) ys =
    reverse-reverse_onto xs (x ∷ ys)
    ∙ append_assoc (reverse (map header_of ys)) (x.header ∷ []) (map header_of xs)
