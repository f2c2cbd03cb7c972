-- ===== src/Mempool/Steps.antt =====
-- src/mempool.rs: the loops of an update, over the transactions that are added and removed.
use electrs_cash.Common.{
  ℕ, ◌≡◌, ◌≢◌, refl, sym, ap, ◌∙◌, true, false, Option, none, some, List, [], ◌∷◌, arith,
  Bool-cases, inl, inr, ◌⊎◌, ite, ℕ_discrete,
}
use electrs_cash.Common.Map.{lookup, lookup-insert, lookup-insert_self, lookup-remove}
use electrs_cash.Errors.{Result, ErrorKind, ok, err, panic}
use electrs_cash.Mempool.{
  Transaction, MempoolEntry, Item, Tracker, add, mem, add_new, add_all, remove_all,
}
use electrs_cash.Mempool.Store.{Uniform}
use electrs_cash.Mempool.Track.{NoDup, Tracks, add-Tracks, remove_txn-Tracks}

-- The tracker after a step tracks its items, and has the old item for each id not concerned.
pub record Kept (rows : Transaction → List (List ℕ × List ℕ)) (value : List ℕ → List ℕ)
    (ds : List ℕ) (t next : Tracker) : Type 0 where
  pub tracks : Tracks rows value next
  pub others :
      (k : ℕ) → mem k ds ≡ false → lookup ℕ_discrete k next.items ≡ lookup ℕ_discrete k t.items

Result-cases {ℓ} :
    {A : Type ℓ} (m : Result A)
    → m ≢ panic
    → ((a : A) × (m ≡ ok a)) ⊎ ((e : ErrorKind) × (m ≡ err e))
Result-cases (ok a) h = inl (a, refl)
Result-cases (err e) h = inr (e, refl)
Result-cases panic h = absurd (h refl)

-- The item of a transaction that both queries answer.
abbrev pub answered : Result MempoolEntry → Result Transaction → Option Item
answered (ok entry) (ok tx) = some (record { tx = tx; entry = entry })
answered _ _ = none

module _ (rows : Transaction → List (List ℕ × List ℕ)) (value : List ℕ → List ℕ)
    (uniform : (tx : Transaction) → Uniform value (rows tx)) where
  lookup-add :
      (k x : ℕ) (tx : Transaction) (entry : MempoolEntry) (t : Tracker)
      → mem k (x ∷ []) ≡ false
      → lookup ℕ_discrete k (add rows x tx entry t).items ≡ lookup ℕ_discrete k t.items
  unfolding add
  lookup-add k x tx entry t h =
      ground (arith, h, lookup-insert ℕ_discrete x k (record { tx = tx; entry = entry }) t.items)

  lookup-add_self :
      (x : ℕ) (tx : Transaction) (entry : MempoolEntry) (t : Tracker)
      → lookup ℕ_discrete x (add rows x tx entry t).items ≡ some (record { tx = tx; entry = entry })
  unfolding add
  lookup-add_self x tx entry t =
      lookup-insert_self ℕ_discrete x (record { tx = tx; entry = entry }) t.items

  pub remove_all-Tracks :
      (ds : List ℕ) (t : Tracker) (changed : List ℕ)
      → Tracks rows value t
      → NoDup ds
      → ((k : ℕ) → mem k ds ≡ true → (i : Item) × (lookup ℕ_discrete k t.items ≡ some i))
      → (s : Tracker × List ℕ) × (remove_all rows ds (t, changed) ≡ ok s)
        × Kept rows value ds t s.0
        × ((k : ℕ) → mem k ds ≡ true → lookup ℕ_discrete k s.0.items ≡ none)
  unfolding remove_all
  remove_all-Tracks [] t changed v d there = (
    (t, changed),
    refl,
    record { tracks = v; others = λ k h. refl },
    λ k h. absurd (ground arith),
  )
  remove_all-Tracks (x ∷ ds) t changed v d there =
      let (i, hit) = there x (ground arith) in
      let (t1, first, v1, left) = remove_txn-Tracks rows value uniform t x i v hit in
      let found : (k : ℕ)
          → lookup ℕ_discrete k t1.items ≡ ite (ℕ_discrete x k) none (lookup ℕ_discrete k t.items) =
        λ k. ap (lookup ℕ_discrete k) left ∙ lookup-remove ℕ_discrete x k t.items in
      let (s, rest, kept, gone) = remove_all-Tracks ds t1 (x ∷ changed) v1 d.1 (λ k m.
        elim (ℕ_discrete x k) [
          | yes same ↦ absurd (ground (arith, same, m, d.0))
          | no other ↦
              let (j, at) = there k (ground (arith, other, m)) in
              (j, ground (arith, found k, other, at))
        ]) in
      (
        s,
        rw first rest,
        record { tracks = kept.tracks; others = λ k m. ground (arith, m, kept.others k, found k) },
        λ k m. elim (Bool-cases (mem k ds)) [
          | inl later ↦ gone k later
          | inr now ↦ ground (arith, m, now, kept.others k, found k)
        ],
      )

  module _ (getmempoolentry : ℕ → Result MempoolEntry) (get_unconfirmed : ℕ → Result Transaction)
      (no_panic : (k : ℕ) → (getmempoolentry k ≢ panic) × (get_unconfirmed k ≢ panic))
      (same_id : (k : ℕ) (tx : Transaction) → get_unconfirmed k ≡ ok tx → tx.txid ≡ k) where
    add_new-Tracks :
        (x : ℕ) (t : Tracker) (changed : List ℕ)
        → Tracks rows value t
        → lookup ℕ_discrete x t.items ≡ none
        → (s : Tracker × List ℕ) × (add_new rows getmempoolentry get_unconfirmed x (t, changed)
            ≡ ok s)
          × Kept rows value (x ∷ []) t s.0
          × (lookup ℕ_discrete x s.0.items ≡ answered (getmempoolentry x) (get_unconfirmed x))
    unfolding add_new
    add_new-Tracks x t changed v miss = elim (Result-cases (getmempoolentry x) (no_panic x).0) [
      | inr (e, failed) ↦ (
        (t, changed),
        ground (arith, failed),
        record { tracks = v; others = λ k h. refl },
        ground (arith, failed, miss),
      )
      | inl (entry, there) ↦ elim (Result-cases (get_unconfirmed x) (no_panic x).1) [
        | inr (e, failed) ↦ (
          (t, changed),
          ground (arith, there, failed),
          record { tracks = v; others = λ k h. refl },
          ground (arith, there, failed, miss),
        )
        | inl (tx, got) ↦ (
          (add rows x tx entry t, x ∷ changed),
          ground (arith, there, got, same_id x tx got),
          record {
            tracks = add-Tracks rows value uniform t x tx entry v miss;
            others = λ k h. lookup-add k x tx entry t h;
          },
          lookup-add_self x tx entry t ∙ ground (arith, there, got),
        )
      ]
    ]

    pub add_all-Tracks :
        (ds : List ℕ) (t : Tracker) (changed : List ℕ)
        → Tracks rows value t
        → NoDup ds
        → ((k : ℕ) → mem k ds ≡ true → lookup ℕ_discrete k t.items ≡ none)
        → (s : Tracker × List ℕ) × (add_all rows getmempoolentry get_unconfirmed ds (t, changed)
            ≡ ok s)
          × Kept rows value ds t s.0
          × ((k : ℕ)
              → mem k ds ≡ true
              → lookup ℕ_discrete k s.0.items ≡ answered (getmempoolentry k) (get_unconfirmed k))
    unfolding add_all
    add_all-Tracks [] t changed v d absent = (
      (t, changed),
      refl,
      record { tracks = v; others = λ k h. refl },
      λ k m. absurd (ground (arith, m)),
    )
    add_all-Tracks (x ∷ ds) t changed v d absent =
        let ((t1, ch), first, k1, here) = add_new-Tracks x t changed v (absent x (ground arith)) in
        let (s, rest, k2, there) = add_all-Tracks ds t1 ch k1.tracks d.1 (λ k m.
          elim (ℕ_discrete x k) [
            | yes same ↦ absurd (ground (arith, same, m, d.0))
            | no other ↦ k1.others k (ground (arith, other)) ∙ absent k (ground (arith, other, m))
          ]) in
        (
          s,
          rw first rest,
          record {
            tracks = k2.tracks;
            others = λ k m. ground (arith, m, k1.others k, k2.others k);
          },
          λ k m. elim (ℕ_discrete x k) [
            | yes same ↦
                k2.others k (ground (arith, same, d.0))
                ∙ ap (λ (j : ℕ). lookup ℕ_discrete j t1.items) (sym same)
                ∙ here
                ∙ ap (λ (j : ℕ). answered (getmempoolentry j) (get_unconfirmed j)) same
            | no other ↦ there k (ground (arith, other, m))
          ],
        )
