-- ===== src/Mempool/Track.antt =====
-- src/mempool.rs: the tracker's items and its index stay together through the updates.
use electrs_cash.Common.{
  ℕ, ◌≡◌, refl, ap, ◌∙◌, true, false, not, ◌&&◌, none, some, List, [], ◌∷◌, arith, Option-cases,
  inl, inr, sum_by, ℕ_discrete,
}
use electrs_cash.Common.Map.{
  lookup, remove, Distinct, insert-Distinct, remove-Distinct, sum_by-insert_new, sum_by-remove,
  sum_by_of_lookup,
}
use electrs_cash.Errors.{ok}
use electrs_cash.Mempool.{
  Transaction, MempoolEntry, Item, Tracker, add, remove_txn, keys, mem, difference,
}
use electrs_cash.Mempool.Store.{count, stack, Uniform, Holds, push_rows-Holds, pop_rows-Holds}

abbrev pub NoDup : List ℕ → Type 0
NoDup [] = Unit
NoDup (x ∷ r) = (mem x r ≡ false) × NoDup r

pub mem-difference :
    (k : ℕ) (xs ys : List ℕ) → mem k (difference xs ys) ≡ (mem k xs && not (mem k ys))
unfolding difference
mem-difference k [] ys = refl
mem-difference k (x ∷ xs) ys = ground (arith, mem-difference k xs ys)

pub difference-NoDup : (xs ys : List ℕ) → NoDup xs → NoDup (difference xs ys)
unfolding difference
difference-NoDup [] ys d = tt
difference-NoDup (x ∷ xs) ys d =
    ground (arith, difference-NoDup xs ys d.1, mem-difference x xs ys, d.0)

pub mem-keys_absent :
    (k : ℕ) (m : List (ℕ × Item)) → lookup ℕ_discrete k m ≡ none → mem k (keys m) ≡ false
unfolding lookup
mem-keys_absent k [] h = refl
mem-keys_absent k ((j, i) ∷ m) h = ground (arith, mem-keys_absent k m)

pub mem-keys_present :
    (k : ℕ) (m : List (ℕ × Item)) (i : Item)
    → lookup ℕ_discrete k m ≡ some i
    → mem k (keys m) ≡ true
unfolding lookup
mem-keys_present k [] i h = absurd (ground arith)
mem-keys_present k ((j, v) ∷ m) i h = ground (arith, mem-keys_present k m i)

pub keys-NoDup : (m : List (ℕ × Item)) → Distinct ℕ_discrete m → NoDup (keys m)
keys-NoDup [] d = tt
keys-NoDup ((k, i) ∷ m) d = (mem-keys_absent k m d.0, keys-NoDup m d.1)

pub lookup_of_mem-keys :
    (k : ℕ) (m : List (ℕ × Item))
    → mem k (keys m) ≡ true
    → (i : Item) × (lookup ℕ_discrete k m ≡ some i)
lookup_of_mem-keys k m h = elim (Option-cases (lookup ℕ_discrete k m)) [
  | inl miss ↦ absurd (ground (arith, mem-keys_absent k m miss))
  | inr (i, hit) ↦ (i, hit)
]

pub lookup_of_not_mem-keys :
    (k : ℕ) (m : List (ℕ × Item)) → mem k (keys m) ≡ false → lookup ℕ_discrete k m ≡ none
lookup_of_not_mem-keys k m h = elim (Option-cases (lookup ℕ_discrete k m)) [
  | inl miss ↦ miss
  | inr (i, hit) ↦ absurd (ground (arith, mem-keys_present k m i hit))
]

module _ (rows : Transaction → List (List ℕ × List ℕ)) (value : List ℕ → List ℕ) where
  abbrev pub rows_of : List ℕ → ℕ × Item → ℕ
  rows_of j (k, i) = count j (rows i.tx)

  -- One item per transaction, and the index counts the rows of the items.
  pub record Tracks (t : Tracker) : Type 0 where
    pub distinct : Distinct ℕ_discrete t.items
    pub held : Holds value t.index (λ j. sum_by (rows_of j) t.items)

module _ (rows : Transaction → List (List ℕ × List ℕ)) (value : List ℕ → List ℕ)
    (uniform : (tx : Transaction) → Uniform value (rows tx)) where
  pub add-Tracks :
      (t : Tracker) (txid : ℕ) (tx : Transaction) (entry : MempoolEntry)
      → Tracks rows value t
      → lookup ℕ_discrete txid t.items ≡ none
      → Tracks rows value (add rows txid tx entry t)
  unfolding add
  add-Tracks t txid tx entry v miss = record {
    distinct = insert-Distinct ℕ_discrete txid _ t.items v.distinct;
    held = λ j.
        push_rows-Holds value t.index _ (rows tx) v.held (uniform tx) j
        ∙ ap (stack (value j)) (
            omega (
              arith,
              sum_by-insert_new ℕ_discrete (rows_of rows value j) txid
                  (record { tx = tx; entry = entry }) t.items miss,
            ));
  }

  -- Removing a tracked transaction does not panic, and the others stay tracked.
  pub remove_txn-Tracks :
      (t : Tracker) (txid : ℕ) (i : Item)
      → Tracks rows value t
      → lookup ℕ_discrete txid t.items ≡ some i
      → (next : Tracker) × (remove_txn rows txid t ≡ ok next)
        × Tracks rows value next
        × (next.items ≡ remove ℕ_discrete txid t.items)
  unfolding remove_txn
  remove_txn-Tracks t txid i v hit =
      let (index, popped, held) =
        pop_rows-Holds value t.index _ (rows i.tx) v.held (uniform i.tx)
          (λ j. sum_by_of_lookup ℕ_discrete (rows_of rows value j) txid i t.items hit) in
      (
        record { items = remove ℕ_discrete txid t.items; index = index },
        rw (hit, popped) refl,
        record {
          distinct = remove-Distinct ℕ_discrete txid t.items v.distinct;
          held = λ j.
              held j
              ∙ ap (stack (value j)) (
                  omega (
                    arith,
                    sum_by-remove ℕ_discrete (rows_of rows value j) txid i t.items v.distinct hit,
                  ));
        },
        refl,
      )
