-- ===== src/Mempool/Store.antt =====
-- src/mempool.rs: the index as a count of the rows that were added and not removed.
use electrs_cash.Common.{
  ℕ, zero, suc, ◌+◌, ◌-◌, ◌≤◌, ◌<◌, ◌≡◌, refl, sym, ap, ◌∙◌, Option, none, some, List, [], ◌∷◌,
  ◌++◌, arith, length, take, replicate, last, All, replicate_snoc, length-replicate, ite,
}
use mathlib.Core.List.{append-nil}
use electrs_cash.Common.Map.{lookup, insert, remove, lookup-insert, lookup-remove}
use electrs_cash.Errors.{ok}
use electrs_cash.Mempool.{Store, key_dec, values_of, push_row, pop_row, push_rows, pop_rows}

-- How many of the rows have the key.
abbrev pub count : List ℕ → List (List ℕ × List ℕ) → ℕ
count k [] = 0
count k ((key, value) ∷ r) = ite (key_dec key k) 1 0 + count k r

-- Each row has the value that goes with its key.
abbrev pub Uniform : (List ℕ → List ℕ) → List (List ℕ × List ℕ) → Type 0
Uniform value = All (λ r. r.1 ≡ value (r.0))

abbrev pub stack : List ℕ → ℕ → Option (List (List ℕ))
stack v zero = none
stack v (suc n) = some (v ∷ replicate n v)

-- Each key holds its value as often as the count says, and is absent at 0.
abbrev pub Holds : (List ℕ → List ℕ) → Store → (List ℕ → ℕ) → Type 0
Holds value m c = (k : List ℕ) → lookup key_dec k m ≡ stack (value k) (c k)

values_of-stack :
    (m : Store) (k v : List ℕ) (n : ℕ)
    → lookup key_dec k m ≡ stack v n
    → values_of m k ++ v ∷ [] ≡ v ∷ replicate n v
values_of-stack m k v zero h = ground (arith, h)
values_of-stack m k v (suc n) h =
    ap (λ o. elim o as (λ _. List (List ℕ)) [ none ↦ [] | some vs ↦ vs ] ++ v ∷ []) h
    ∙ ap (◌∷◌ v) (replicate_snoc n v [] ∙ ap (◌∷◌ v) (append-nil (replicate n v)))

pub push_row-Holds :
    (value : List ℕ → List ℕ) (m : Store) (c : List ℕ → ℕ) (k v : List ℕ)
    → Holds value m c
    → v ≡ value k
    → Holds value (push_row m (k, v)) (λ j. ite (key_dec k j) 1 0 + c j)
unfolding push_row
push_row-Holds value m c k v h same j = elim (key_dec k j) [
  | yes here ↦ ground (
    arith,
    here,
    lookup-insert key_dec k j (values_of m k ++ v ∷ []) m,
    same,
    values_of-stack m k v (c k) (h k ∙ ap (λ x. stack x (c k)) (sym same)),
  )
  | no other ↦ ground (arith, other, lookup-insert key_dec k j (values_of m k ++ v ∷ []) m, h j)
]

pub push_rows-Holds :
    (value : List ℕ → List ℕ) (m : Store) (c : List ℕ → ℕ) (rs : List (List ℕ × List ℕ))
    → Holds value m c
    → Uniform value rs
    → Holds value (push_rows m rs) (λ j. c j + count j rs)
unfolding push_rows
push_rows-Holds value m c [] h u j = ground (arith, h j)
push_rows-Holds value m c ((k, v) ∷ rs) h u j =
    push_rows-Holds value (push_row m (k, v)) _ rs (push_row-Holds value m c k v h u.0) u.1 j
    ∙ ap (stack (value j)) (omega arith)

-- Both steps of taking the last of a stack.
last-replicate : (v : List ℕ) (n : ℕ) → last (v ∷ replicate n v) ≡ some v
last-replicate v zero = refl
last-replicate v (suc n) = last-replicate v n

take-replicate : (v : List ℕ) (n : ℕ) → take n (v ∷ replicate n v) ≡ replicate n v
take-replicate v zero = refl
take-replicate v (suc n) = ap (◌∷◌ v) (take-replicate v n)

-- The store after a key's last value is taken.
abbrev popped : Store → List ℕ → List ℕ → ℕ → Store
popped m k v zero = remove key_dec k m
popped m k v (suc n) = insert key_dec k (v ∷ replicate n v) m

pop_row-ok :
    (m : Store) (k v : List ℕ) (n : ℕ)
    → lookup key_dec k m ≡ stack v (suc n)
    → pop_row m (k, v) ≡ ok (popped m k v n)
unfolding pop_row
pop_row-ok m k v zero h = ground (arith, h)
pop_row-ok m k v (suc n) h =
    let size : length (v ∷ v ∷ replicate n v) - 1 ≡ suc n = omega (arith, length-replicate n v) in
    ground (arith, h, size, last-replicate v (suc n), take-replicate v (suc n))

lookup-popped :
    (m : Store) (k v j : List ℕ) (n : ℕ)
    → lookup key_dec j (popped m k v n) ≡ ite (key_dec k j) (stack v n) (lookup key_dec j m)
lookup-popped m k v j zero = lookup-remove key_dec k j m
lookup-popped m k v j (suc n) = lookup-insert key_dec k j (v ∷ replicate n v) m

pub pop_row-Holds :
    (value : List ℕ → List ℕ) (m : Store) (c : List ℕ → ℕ) (k v : List ℕ)
    → Holds value m c
    → v ≡ value k
    → 0 < c k
    → (next : Store) × (pop_row m (k, v) ≡ ok next)
      × Holds value next (λ j. c j - ite (key_dec k j) 1 0)
pop_row-Holds value m c k v h same some_left =
    let n = c k - 1 in
    let counted : c k ≡ suc n = omega (arith, some_left) in
    let at : lookup key_dec k m ≡ stack v (suc n) =
      h k ∙ ap (λ x. stack x (c k)) (sym same) ∙ ap (stack v) counted in
    (popped m k v n, pop_row-ok m k v n at, λ j. lookup-popped m k v j n ∙ left j n counted)
  where
    left :
        (j : List ℕ) (n : ℕ)
        → c k ≡ suc n
        → ite (key_dec k j) (stack v n) (lookup key_dec j m)
          ≡ stack (value j) (c j - ite (key_dec k j) 1 0)
    left j n counted = elim (key_dec k j) [
      | yes here ↦ ground (arith, here, same, counted)
      | no other ↦ ground (arith, other, h j)
    ]

-- A store that counts the rows gives them up without a panic, and counts the others.
pub pop_rows-Holds :
    (value : List ℕ → List ℕ) (m : Store) (c : List ℕ → ℕ) (rs : List (List ℕ × List ℕ))
    → Holds value m c
    → Uniform value rs
    → ((j : List ℕ) → count j rs ≤ c j)
    → (next : Store) × (pop_rows m rs ≡ ok next) × Holds value next (λ j. c j - count j rs)
unfolding pop_rows
pop_rows-Holds value m c [] h u le = (m, refl, λ j. ground (arith, h j))
pop_rows-Holds value m c ((k, v) ∷ rs) h u le =
    let (m1, first, h1) = pop_row-Holds value m c k v h u.0 (ground (arith, le k)) in
    let (next, rest, h2) = pop_rows-Holds value m1 _ rs h1 u.1 (λ j. omega (arith, le j)) in
    (next, rw first rest, λ j. h2 j ∙ ap (stack (value j)) (omega arith))
