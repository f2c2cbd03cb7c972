-- ===== src/Mempool/Update.antt =====
-- src/mempool.rs: an update brings the tracker to the daemon's transactions.
use electrs_cash.Common.{
  ℕ, ◌≡◌, ◌≢◌, sym, ◌∙◌, Bool, true, false, Option, none, some, List, [], arith, Bool-cases, inl,
  inr, ◌⊎◌, ℕ_discrete,
}
use electrs_cash.Common.Map.{lookup}
use electrs_cash.Errors.{Result, ok, panic}
use electrs_cash.Mempool.{Transaction, MempoolEntry, Item, Tracker, keys, mem, difference, update}
use electrs_cash.Mempool.Steps.{answered, remove_all-Tracks, add_all-Tracks}
use electrs_cash.Mempool.Store.{Uniform}
use electrs_cash.Mempool.Track.{
  NoDup, Tracks, mem-difference, difference-NoDup, keys-NoDup, lookup_of_mem-keys,
  lookup_of_not_mem-keys,
}

-- The item that an update leaves for a transaction, from the daemon's list and the items before:
-- none if the daemon does not list it, the old item if there is one, and else the one that the
-- daemon answers with.
abbrev pub wanted : Bool → Option Item → Option Item → Option Item
wanted false old fetched = none
wanted true (some i) fetched = some i
wanted true none fetched = fetched

module _ (rows : Transaction → List (List ℕ × List ℕ)) (value : List ℕ → List ℕ)
    (uniform : (tx : Transaction) → Uniform value (rows tx)) where
  module _ (getmempoolentry : ℕ → Result MempoolEntry) (get_unconfirmed : ℕ → Result Transaction)
      (no_panic : (k : ℕ) → (getmempoolentry k ≢ panic) × (get_unconfirmed k ≢ panic))
      (same_id : (k : ℕ) (tx : Transaction) → get_unconfirmed k ≡ ok tx → tx.txid ≡ k) where
    updated :
        (new_txids : List ℕ) (t : Tracker)
        → NoDup new_txids
        → Tracks rows value t
        → (s : Tracker × List ℕ) × (update rows getmempoolentry get_unconfirmed (ok new_txids) t
            ≡ ok s)
          × Tracks rows value s.0
          × ((k : ℕ)
              → ((mem k new_txids ≡ false) × (lookup ℕ_discrete k s.0.items ≡ none))
                ⊎ ((mem k new_txids ≡ true)
                    × (((lookup ℕ_discrete k t.items ≡ none)
                          × (lookup ℕ_discrete k s.0.items
                              ≡ answered (getmempoolentry k) (get_unconfirmed k)))
                        ⊎ ((i : Item) × (lookup ℕ_discrete k t.items ≡ some i)
                            × (lookup ℕ_discrete k s.0.items ≡ some i)))))
    unfolding update
    updated new_txids t d v =
        let old = keys t.items in
        let added = difference new_txids old in
        let gone = difference old new_txids in
        let in_new = λ (k : ℕ). mem-difference k new_txids old in
        let in_old = λ (k : ℕ). mem-difference k old new_txids in
        let ((t1, ch), first, k1, there) =
          add_all-Tracks rows value uniform getmempoolentry get_unconfirmed no_panic same_id added t
            [] v (difference-NoDup new_txids old d)
            (λ k m.
              lookup_of_not_mem-keys k t.items
                (ground (arith, m, mem-difference k new_txids old))) in
        let (s, rest, k2, none_left) =
          remove_all-Tracks rows value uniform gone t1 ch k1.tracks
            (difference-NoDup old new_txids (keys-NoDup t.items v.distinct))
            (λ k m.
              let (i, hit) =
                lookup_of_mem-keys k t.items (ground (arith, m, mem-difference k old new_txids)) in
              (i, k1.others k (ground (arith, m, in_new k, in_old k)) ∙ hit)) in
        (
          s,
          rw first rest,
          k2.tracks,
          λ k. elim (Bool-cases (mem k new_txids)) [
            | inr m ↦ inl (
              m,
              elim (Bool-cases (mem k old)) [
                | inl was ↦ none_left k (ground (arith, m, was, in_old k))
                | inr never ↦
                    k2.others k (ground (arith, never, in_old k))
                    ∙ k1.others k (ground (arith, m, in_new k))
                    ∙ lookup_of_not_mem-keys k t.items never
              ],
            )
            | inl m ↦ inr (
              m,
              elim (Bool-cases (mem k old)) [
                | inr never ↦ inl (
                  lookup_of_not_mem-keys k t.items never,
                  k2.others k (ground (arith, never, in_old k))
                      ∙ there k (ground (arith, m, never, in_new k)),
                )
                | inl was ↦
                    let (i, hit) = lookup_of_mem-keys k t.items was in
                    inr (
                      i,
                      hit,
                      k2.others k (ground (arith, m, was, in_old k))
                          ∙ k1.others k (ground (arith, m, was, in_new k))
                          ∙ hit,
                    )
              ],
            )
          ],
        )

    -- An update from a tracker that tracks its items, with a list of the daemon's transactions
    -- without repetition, queries that do not panic and transactions that have the id asked for:
    -- it does not panic, the tracker tracks its items afterwards, has no transaction that the
    -- daemon does not have, and keeps each old one that the daemon still has.
    pub update-Tracks :
        (new_txids : List ℕ) (t : Tracker)
        → NoDup new_txids
        → Tracks rows value t
        → (s : Tracker × List ℕ) × (update rows getmempoolentry get_unconfirmed (ok new_txids) t
            ≡ ok s)
          × Tracks rows value s.0
          × ((k : ℕ)
              → ((mem k new_txids ≡ false) × (lookup ℕ_discrete k s.0.items ≡ none))
                ⊎ ((mem k new_txids ≡ true)
                    × ((lookup ℕ_discrete k t.items ≡ none)
                        ⊎ (lookup ℕ_discrete k s.0.items ≡ lookup ℕ_discrete k t.items))))
    update-Tracks new_txids t d v =
        let (s, done, v1, items) = updated new_txids t d v in
        (
          s,
          done,
          v1,
          λ k. elim (items k) [
            | inl gone ↦ inl gone
            | inr (m, inl (miss, _)) ↦ inr (m, inl miss)
            | inr (m, inr (i, hit, kept)) ↦ inr (m, inr (kept ∙ sym hit))
          ],
        )

    -- An update from a tracker that tracks its items, with a list of the daemon's transactions
    -- without repetition, queries that do not panic and transactions that have the id asked for,
    -- does not panic, and the item that it leaves for each id is exactly this: none, if the daemon
    -- does not list it; the old item, if it lists it and there was one; otherwise the entry and the
    -- transaction that the daemon answers with, or none if one of the two queries is an error.
    pub lookup-update :
        (new_txids : List ℕ) (t : Tracker)
        → NoDup new_txids
        → Tracks rows value t
        → (s : Tracker × List ℕ) × (update rows getmempoolentry get_unconfirmed (ok new_txids) t
            ≡ ok s)
          × ((k : ℕ)
              → lookup ℕ_discrete k s.0.items
                ≡ wanted
                    (mem k new_txids)
                    (lookup ℕ_discrete k t.items)
                    (answered (getmempoolentry k) (get_unconfirmed k)))
    lookup-update new_txids t d v =
        let (s, done, _, items) = updated new_txids t d v in
        (
          s,
          done,
          λ k. elim (items k) [
            | inl (m, gone) ↦ ground (arith, m, gone)
            | inr (m, inl (miss, fetched)) ↦ ground (arith, m, miss, fetched)
            | inr (m, inr (i, hit, kept)) ↦ ground (arith, m, hit, kept)
          ],
        )
