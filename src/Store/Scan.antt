-- ===== src/Store/Scan.antt =====
-- src/store.rs: a scan up to the first other key against the rows of the whole table that match.
use electrs_cash.Common.{
  ℕ, ◌≡◌, refl, ap, ◌∙◌, Bool, true, false, ◌&&◌, ◌||◌, none, some, List, [], ◌∷◌, arith, ltb, ◌==◌,
  if◌then◌else◌, Bool-cases, inl, inr, zero, suc, ◌<◌, length,
}
use electrs_cash.Store.{Row, ScanIterator, starts_with, scan_items, scan, iter_scan, next}

-- The order of the keys, bytewise.
abbrev pub leq : List ℕ → List ℕ → Bool
leq [] ys = true
leq (x ∷ xs) [] = false
leq (x ∷ xs) (y ∷ ys) = ltb x y || (x == y && leq xs ys)

-- The keys ascend, from a first one on.
abbrev pub AscendsFrom : List ℕ → List (List ℕ × List ℕ) → Type 0
AscendsFrom low [] = Unit
AscendsFrom low ((k, v) ∷ r) = (leq low k ≡ true) × AscendsFrom k r

-- The items of a table from a key on.
abbrev pub from_key : List ℕ → List (List ℕ × List ℕ) → List (List ℕ × List ℕ)
from_key low [] = []
from_key low ((k, v) ∷ r) = if leq low k then (k, v) ∷ from_key low r else from_key low r

-- The rows of a table whose keys start with a prefix.
abbrev pub matching : List ℕ → List (List ℕ × List ℕ) → List Row
matching prefix [] = []
matching prefix ((k, v) ∷ r) =
    if starts_with prefix k
    then (record { key = k; value = v }) ∷ matching prefix r
    else matching prefix r

leq_refl : (xs : List ℕ) → leq xs xs ≡ true
leq_refl [] = refl
leq_refl (x ∷ xs) = ground (arith, leq_refl xs)

leq_trans : (xs ys zs : List ℕ) → leq xs ys ≡ true → leq ys zs ≡ true → leq xs zs ≡ true
leq_trans [] ys zs a b = refl
leq_trans (x ∷ xs) [] zs a b = absurd (ground arith)
leq_trans (x ∷ xs) (y ∷ ys) [] a b = absurd (ground arith)
leq_trans (x ∷ xs) (y ∷ ys) (z ∷ zs) a b = ground (arith, leq_trans xs ys zs)

starts_with-leq : (p k : List ℕ) → starts_with p k ≡ true → leq p k ≡ true
starts_with-leq [] k h = refl
starts_with-leq (x ∷ p) [] h = absurd (ground arith)
starts_with-leq (x ∷ p) (y ∷ k) h = ground (arith, starts_with-leq p k)

-- Above a key that is past the prefix, no key starts with the prefix.
starts_with_past :
    (p k j : List ℕ)
    → leq p k ≡ true
    → starts_with p k ≡ false
    → leq k j ≡ true
    → starts_with p j ≡ false
starts_with_past [] k j a past b = absurd (ground arith)
starts_with_past (x ∷ p) [] j a past b = absurd (ground arith)
starts_with_past (x ∷ p) (y ∷ k) [] a past b = absurd (ground arith)
starts_with_past (x ∷ p) (y ∷ k) (z ∷ j) a past b = ground (arith, starts_with_past p k j)

matching_past :
    (p k : List ℕ) (items : List (List ℕ × List ℕ))
    → leq p k ≡ true
    → starts_with p k ≡ false
    → AscendsFrom k items
    → matching p items ≡ []
matching_past p k [] a past up = refl
matching_past p k ((j, v) ∷ items) a past up = ground (
  arith,
  starts_with_past p k j a past up.0,
  matching_past p j items (leq_trans p k j a up.0) (starts_with_past p k j a past up.0) up.1,
)

scan_items-matching :
    (p low : List ℕ) (items : List (List ℕ × List ℕ))
    → leq p low ≡ true
    → AscendsFrom low items
    → scan_items p items ≡ matching p items
unfolding scan_items
scan_items-matching p low [] above up = refl
scan_items-matching p low ((k, v) ∷ items) above up = elim (Bool-cases (starts_with p k)) [
  | inl within ↦
      ground (arith, within, scan_items-matching p k items (leq_trans p low k above up.0) up.1)
  | inr past ↦
      ground (arith, past, matching_past p k items (leq_trans p low k above up.0) past up.1)
]

AscendsFrom-leq :
    (a b : List ℕ) (items : List (List ℕ × List ℕ))
    → leq a b ≡ true
    → AscendsFrom b items
    → AscendsFrom a items
AscendsFrom-leq a b [] le up = tt
AscendsFrom-leq a b ((k, v) ∷ items) le up = (leq_trans a b k le up.0, up.1)

-- In an ascending table, the items from a key on ascend from that key.
from_key-AscendsFrom :
    (p low : List ℕ) (table : List (List ℕ × List ℕ))
    → AscendsFrom low table
    → AscendsFrom p (from_key p table)
from_key-AscendsFrom p low [] up = tt
from_key-AscendsFrom p low ((k, v) ∷ table) up = elim (Bool-cases (leq p k)) [
  | inl within ↦ rw within (within, all_from k table up.1 within)
  | inr below ↦ rw below (from_key-AscendsFrom p k table up.1)
]
  where
    all_from :
        (j : List ℕ) (items : List (List ℕ × List ℕ))
        → AscendsFrom j items
        → leq p j ≡ true
        → AscendsFrom j (from_key p items)
    all_from j [] up le = tt
    all_from j ((i, w) ∷ items) up le =
        let later = leq_trans p j i le up.0 in rw later (up.0, all_from i items up.1 later)

matching-from_key :
    (p : List ℕ) (table : List (List ℕ × List ℕ)) → matching p (from_key p table) ≡ matching p table
matching-from_key p [] = refl
matching-from_key p ((k, v) ∷ table) = elim (Bool-cases (starts_with p k)) [
  | inl within ↦ ground (arith, within, starts_with-leq p k within, matching-from_key p table)
  | inr other ↦ ground (arith, other, matching-from_key p table)
]

-- Over a table whose keys ascend, with an iterator that yields the items from a key on, a scan that
-- stops at the first other key returns all rows of the table whose keys start with the prefix, in
-- their order, and no other row.
pub scan-matching :
    (table : List (List ℕ × List ℕ)) (iterator : List ℕ → List (List ℕ × List ℕ)) (p : List ℕ)
    → AscendsFrom [] table
    → ((k : List ℕ) → iterator k ≡ from_key k table)
    → scan iterator p ≡ matching p table
unfolding scan
scan-matching table iterator p up yields =
    ap (scan_items p) (yields p)
    ∙ scan_items-matching p p (from_key p table) (leq_refl p) (from_key-AscendsFrom p [] table up)
    ∙ matching-from_key p table

-- The rows that a loop over the iterator sees.
abbrev pub collect : ℕ → ScanIterator → List Row
collect zero s = []
collect (suc n) s = elim (next s).0 [ none ↦ [] | some row ↦ row ∷ collect n (next s).1 ]

collect_items :
    (p : List ℕ) (n : ℕ) (items : List (List ℕ × List ℕ))
    → length items < n
    → collect n (record { prefix = p; iter = items; done = false }) ≡ scan_items p items
unfolding scan_items next
collect_items p zero items enough = absurd (omega arith)
collect_items p (suc n) [] enough = refl
collect_items p (suc n) ((k, v) ∷ items) enough = elim (Bool-cases (starts_with p k)) [
  | inl within ↦ ground (arith, within, collect_items p n items (omega arith))
  | inr past ↦ ground (arith, past)
]

-- A loop over `iter_scan` sees the rows that `scan` returns for the same items.
pub collect-iter_scan :
    (iterator : List ℕ → List (List ℕ × List ℕ)) (p : List ℕ) (n : ℕ)
    → length (iterator p) < n
    → collect n (iter_scan iterator p) ≡ scan iterator p
unfolding scan iter_scan
collect-iter_scan iterator p n enough = collect_items p n (iterator p) enough
