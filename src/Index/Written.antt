-- ===== src/Index/Written.antt =====
-- src/index.rs: what an update writes to the store when it succeeds.
use electrs_cash.Common.{
  ℕ, suc, ◌≡◌, ◌≢◌, refl, ap, ◌∙◌, Option, none, some, List, [], ◌∷◌, ◌++◌, map, arith, take, last,
  All, ℕ_discrete, Option-cases, inl, inr,
}
use mathlib.Core.List.{append-nil, append_assoc}
use electrs_cash.Common.Map.{lookup, insert, lookup-insert, lookup-insert_self}
use electrs_cash.Errors.{Result, ok}
use electrs_cash.HeaderList.{BlockHeader, HeaderEntry, HeaderList, order, apply, tip, tiphash}
use electrs_cash.HeaderList.Chain.{ChainFrom, IsValid, DistinctHashes}
use electrs_cash.HeaderList.Order.{apply-order}
use electrs_cash.Store.{Row}
use electrs_cash.Rows.{Codec, Transaction, Block}
use electrs_cash.Index.{last_indexed_block}
use electrs_cash.Index.Batches.{index_loop_next}
use electrs_cash.Index.Update.{height_map, batch, index_loop, finish, final_marker, plan, update}

lookup-height_map_other :
    (k : ℕ) (r : List HeaderEntry) (m : List (ℕ × ℕ))
    → All (λ d. k ≢ d.hash) r
    → lookup ℕ_discrete k (height_map r m) ≡ lookup ℕ_discrete k m
unfolding height_map
lookup-height_map_other k [] m other = refl
lookup-height_map_other k (d ∷ r) m other =
    lookup-height_map_other k r (insert ℕ_discrete d.hash d.height m) other.1
    ∙ ground (arith, other.0, lookup-insert ℕ_discrete d.hash k d.height m)

lookup-height_map :
    (r : List HeaderEntry) (m : List (ℕ × ℕ))
    → DistinctHashes r
    → All (λ e. lookup ℕ_discrete e.hash (height_map r m) ≡ some e.height) r
unfolding height_map
lookup-height_map [] m d = tt
lookup-height_map (e ∷ r) m d = (
  lookup-height_map_other e.hash r (insert ℕ_discrete e.hash e.height m) d.0
      ∙ lookup-insert_self ℕ_discrete e.hash e.height m,
  lookup-height_map r (insert ℕ_discrete e.hash e.height m) d.1,
)

abbrev hash_of : HeaderEntry → ℕ
hash_of e = e.hash

module _ (codec : Codec) (cashaccount : Transaction → ℕ → Option Row) where
  -- The batches of blocks at heights, after `i` others.
  abbrev pub batches : ℕ → List (Block × ℕ) → List (List Row)
  batches i [] = []
  batches i ((b, height) ∷ bs) = batch codec cashaccount (suc i) b height ∷ batches (suc i) bs

  module _ (poll : ℕ → Result (Unit {0})) (getblock : ℕ → Result Block) where
    -- The daemon has the blocks of all the headers.
    pub data Served : List HeaderEntry → List (Block × ℕ) → Type 0 where
      all_served : Served [] []
      served :
          (e : HeaderEntry) (r : List HeaderEntry) (b : Block) (bs : List (Block × ℕ))
          → getblock e.hash ≡ ok b
          → codec.block_hash b.header ≡ e.hash
          → Served r bs
          → Served (e ∷ r) ((b, e.height) ∷ bs)

    -- The last hash of served headers.
    abbrev last_of : Option ℕ → List (Block × ℕ) → Option ℕ
    last_of prev [] = prev
    last_of prev ((b, height) ∷ bs) = last_of (some (codec.block_hash b.header)) bs

    index_loop-Served :
        (heights : List (ℕ × ℕ)) (r : List HeaderEntry) (bs : List (Block × ℕ)) (i : ℕ)
        (log : List (List Row)) (prev : Option ℕ)
        → Served r bs
        → All (λ e. lookup ℕ_discrete e.hash heights ≡ some e.height) r
        → ((n : ℕ) → poll n ≡ ok tt)
        → index_loop codec cashaccount poll getblock heights (map hash_of r) i log prev
          ≡ (log ++ batches i bs, ok (last_of prev bs))
    index_loop-Served heights _ _ i log prev all_served at quiet =
        unfold index_loop in ground (arith, quiet i, append-nil log)
    index_loop-Served heights _ _ i log prev (served e r b bs got same s) at quiet =
        index_loop_next codec cashaccount poll getblock heights e.hash (map hash_of r) i log prev b
          e.height (ground (arith, quiet i, got))
          (ap (λ (k : ℕ). lookup ℕ_discrete k heights) same ∙ at.0)
        ∙ index_loop-Served heights r bs (suc i)
            (log ++ batch codec cashaccount (suc i) b e.height ∷ [])
            (some (codec.block_hash b.header)) s at.1 quiet
        ∙ ap (λ (x : List (List Row)). (x, ok (last_of (some (codec.block_hash b.header)) bs)))
            (append_assoc log (batch codec cashaccount (suc i) b e.height ∷ [])
              (batches (suc i) bs))

    last_of-Served :
        (r : List HeaderEntry) (bs : List (Block × ℕ)) (prev : Option ℕ) (t : HeaderEntry)
        → Served r bs
        → last r ≡ some t
        → last_of prev bs ≡ some t.hash
    last_of-Served _ _ prev t all_served at = absurd (ground arith)
    last_of-Served _ _ prev t (served e [] b _ got same all_served) at = ground (arith, same, at)
    last_of-Served _ _ prev t (served e (d ∷ r) b bs got same s) at =
        last_of-Served (d ∷ r) bs (some (codec.block_hash b.header)) t s at

    finish_total :
        (l l' : HeaderList) (es : List HeaderEntry) (k : ℕ)
        → apply l es k ≡ ok l'
        → tiphash l' ≡ k
        → k ≢ 0
        → (t : HeaderEntry) × (t.hash ≡ k)
          × (finish codec cashaccount poll getblock l es k ≡ ok (l', (es, t)))
    unfolding finish tip tiphash
    finish_total l l' es k applied top other = elim (Option-cases (last l'.headers)) [
      | inl no_header ↦ absurd (ground (arith, no_header, top))
      | inr (t, at) ↦
          let same : t.hash ≡ k = ground (arith, at, top) in
          (t, same, ground (arith, applied, at, same))
    ]

    module _ (reconnect : Result (Unit {0})) (getbestblockhash : Result ℕ)
        (get_new_headers : HeaderList → ℕ → Result (List BlockHeader)) where
      -- With no signal, and a daemon that takes a new connection, and that names a tip, whose missing headers can be ordered on the
      -- list, end at the tip and have different hashes, and that serves their blocks, an update of
      -- a well-formed list succeeds: it writes one batch for each block at its header's height, and
      -- then the marker of the tip, and puts the new headers on a first part of the list, a chain
      -- up to the tip.
      pub update_total :
          (l : HeaderList) (hs : List BlockHeader) (es : List HeaderEntry) (e : HeaderEntry)
          (bs : List (Block × ℕ))
          → IsValid l
          → reconnect ≡ ok tt
          → getbestblockhash ≡ ok e.hash
          → get_new_headers l e.hash ≡ ok hs
          → order codec.block_hash l hs ≡ ok es
          → last es ≡ some e
          → e.hash ≢ 0
          → DistinctHashes es
          → Served es bs
          → ((n : ℕ) → poll n ≡ ok tt)
          → (l' : HeaderList) × (n : ℕ) × (t : HeaderEntry) × (l'.headers ≡ take n l.headers ++ es)
            × ChainFrom 0 0 l'.headers
            × (tiphash l' ≡ e.hash)
            × (t.hash ≡ e.hash)
            × (update codec cashaccount poll getblock reconnect getbestblockhash get_new_headers l
                ≡ (batches 0 bs ++ (last_indexed_block codec e.hash ∷ []) ∷ [], ok (l', (es, t))))
      unfolding update plan final_marker
      update_total l hs es e bs v connected best missing ordered top other distinct blocks quiet =
          let (l', n, applied, shape, chain, tops) =
            apply-order codec.block_hash l hs es e v ordered top other in
          let (t, same, done) = finish_total l l' es e.hash applied tops other in
          let looped =
            index_loop-Served (height_map es []) es bs 0 [] none blocks
              (lookup-height_map es [] distinct) quiet in
          (
            l',
            n,
            t,
            shape,
            chain,
            tops,
            same,
            ground (
              arith,
              connected,
              best,
              missing,
              ordered,
              looped,
              done,
              last_of-Served es bs none e blocks top,
            ),
          )
