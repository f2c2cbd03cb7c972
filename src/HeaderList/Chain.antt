-- ===== src/HeaderList/Chain.antt =====
-- src/util.rs: what a well-formed list of headers is. Each header stands at its own height, names
-- the header below it, and the first names the null hash.
use electrs_cash.Common.{
  ℕ, zero, suc, ◌+◌, ◌≡◌, ◌≢◌, refl, none, some, List, [], ◌∷◌, ◌++◌, arith, length, take,
  get_elem?, last, All, ℕ_discrete,
}
use electrs_cash.Common.Map.{lookup, insert, lookup-insert}
use electrs_cash.HeaderList.{HeaderEntry, HeaderList, tiphash}

-- The entries run from the height `n` on, the first one above the hash `p`.
abbrev pub ChainFrom : ℕ → ℕ → List HeaderEntry → Type 0
ChainFrom n p [] = Unit
ChainFrom n p (e ∷ r) = (e.height ≡ n) × (e.header.prev_blockhash ≡ p) × ChainFrom (suc n) e.hash r

-- The hash on top of the entries, `p` if there are none.
abbrev pub top_from : ℕ → List HeaderEntry → ℕ
top_from p [] = p
top_from p (e ∷ r) = top_from e.hash r

-- No two entries have one hash.
abbrev pub DistinctHashes : List HeaderEntry → Type 0
DistinctHashes [] = Unit
DistinctHashes (e ∷ r) = All (λ d. e.hash ≢ d.hash) r × DistinctHashes r

-- The map has each entry's hash at the entry's height.
abbrev pub Recorded : List (ℕ × ℕ) → List HeaderEntry → Type 0
Recorded m = All (λ e. lookup ℕ_discrete e.hash m ≡ some e.height)

pub record IsValid (l : HeaderList) : Type 0 where
  pub chain : ChainFrom 0 0 l.headers
  pub recorded : Recorded l.heights l.headers

pub tiphash-top_from : (l : HeaderList) → tiphash l ≡ top_from 0 l.headers
unfolding tiphash
tiphash-top_from l = go l.headers
  where
    below :
        (x : HeaderEntry) (xs : List HeaderEntry)
        → (elim (last (x ∷ xs)) as (λ _. ℕ) [ none ↦ 0 | some h ↦ h.hash ]) ≡ top_from x.hash xs
    below x [] = refl
    below x (d ∷ r) = below d r

    go :
        (xs : List HeaderEntry)
        → (elim (last xs) as (λ _. ℕ) [ none ↦ 0 | some h ↦ h.hash ]) ≡ top_from 0 xs
    go [] = refl
    go (e ∷ r) = below e r

pub ChainFrom-take :
    (k n p : ℕ) (xs : List HeaderEntry) → ChainFrom n p xs → ChainFrom n p (take k xs)
ChainFrom-take zero n p xs c = tt
ChainFrom-take (suc k) n p [] c = tt
ChainFrom-take (suc k) n p (e ∷ r) c = (c.0, c.1, ChainFrom-take k (suc n) e.hash r c.2)

pub ChainFrom-append :
    (n p : ℕ) (xs : List HeaderEntry) (e : HeaderEntry)
    → ChainFrom n p xs
    → e.height ≡ n + length xs
    → e.header.prev_blockhash ≡ top_from p xs
    → ChainFrom n p (xs ++ e ∷ [])
ChainFrom-append n p [] e c h t = (omega arith, t, tt)
ChainFrom-append n p (d ∷ r) e c h t =
    (c.0, c.1, ChainFrom-append (suc n) d.hash r e c.2 (omega arith) t)

pub height_of_get_elem? :
    (n p : ℕ) (xs : List HeaderEntry) (i : ℕ) {e : HeaderEntry}
    → ChainFrom n p xs
    → get_elem? xs i ≡ some e
    → e.height ≡ n + i
height_of_get_elem? n p [] i c h = ground arith
height_of_get_elem? n p (d ∷ r) zero c h = ground arith
height_of_get_elem? n p (d ∷ r) (suc i) c h =
    omega (arith, height_of_get_elem? (suc n) d.hash r i c.2 h)

-- Below the height `k` stands the header that `top_from` of the kept ones reads.
pub top_from-take :
    (n p : ℕ) (xs : List HeaderEntry) (k : ℕ) {e : HeaderEntry}
    → get_elem? xs k ≡ some e
    → top_from p (take (suc k) xs) ≡ e.hash
top_from-take n p [] k h = ground arith
top_from-take n p (d ∷ r) zero h = ground arith
top_from-take n p (d ∷ r) (suc k) h = top_from-take n d.hash r k h

pub Recorded-insert :
    (m : List (ℕ × ℕ)) (xs : List HeaderEntry) (k v : ℕ)
    → All (λ e. e.hash ≢ k) xs
    → Recorded m xs
    → Recorded (insert ℕ_discrete k v m) xs
Recorded-insert m [] k v d r = tt
Recorded-insert m (e ∷ xs) k v d r =
    (ground (arith, lookup-insert ℕ_discrete k e.hash v m), Recorded-insert m xs k v d.1 r.1)

pub Recorded-take :
    (m : List (ℕ × ℕ)) (k : ℕ) (xs : List HeaderEntry) → Recorded m xs → Recorded m (take k xs)
Recorded-take m zero xs r = tt
Recorded-take m (suc k) [] r = tt
Recorded-take m (suc k) (e ∷ xs) r = (r.0, Recorded-take m k xs r.1)

pub Recorded-append :
    (m : List (ℕ × ℕ)) (xs : List HeaderEntry) (e : HeaderEntry)
    → Recorded m xs
    → lookup ℕ_discrete e.hash m ≡ some e.height
    → Recorded m (xs ++ e ∷ [])
Recorded-append m [] e r h = (h, tt)
Recorded-append m (d ∷ xs) e r h = (r.0, Recorded-append m xs e r.1 h)

pub Recorded-of_get_elem? :
    (m : List (ℕ × ℕ)) (xs : List HeaderEntry) (i : ℕ) {e : HeaderEntry}
    → Recorded m xs
    → get_elem? xs i ≡ some e
    → lookup ℕ_discrete e.hash m ≡ some e.height
Recorded-of_get_elem? m [] i r h = ground arith
Recorded-of_get_elem? m (d ∷ xs) zero r h = ground arith
Recorded-of_get_elem? m (d ∷ xs) (suc i) r h = Recorded-of_get_elem? m xs i r.1 h

-- In distinct hashes the ones before an entry differ from it.
pub DistinctHashes-before :
    (xs : List HeaderEntry) (e : HeaderEntry) (ys : List HeaderEntry)
    → DistinctHashes (xs ++ e ∷ ys)
    → All (λ d. d.hash ≢ e.hash) xs
DistinctHashes-before [] e ys d = tt
DistinctHashes-before (x ∷ xs) e ys d = (go xs d.0, DistinctHashes-before xs e ys d.1)
  where
    go : (zs : List HeaderEntry) → All (λ d. x.hash ≢ d.hash) (zs ++ e ∷ ys) → x.hash ≢ e.hash
    go [] a = a.0
    go (z ∷ zs) a = go zs a.1
