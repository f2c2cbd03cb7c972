-- ===== src/Rpc/Changes.antt =====
-- src/rpc/mod.rs: which script hashes are notified of a change of transactions.
use electrs_cash.Common.{
  ℕ, ◌≡◌, ◌≢◌, refl, sym, ap, ◌∙◌, Bool, true, false, ◌||◌, Option, none, some, List, [], ◌∷◌, ◌++◌,
  map, arith, Bool-cases, inl, inr, ◌⊎◌, ◌↔◌, if◌then◌else◌, ℕ_discrete,
}
use electrs_cash.Errors.{
  Result-cases, Result, ErrorKind, ok, err, panic, ok_injective, >>=-eq-ok, ◌>>=◌,
}
use electrs_cash.HeaderList.{HeaderEntry}
use electrs_cash.Mempool.{mem}
use electrs_cash.Mempool.Track.{NoDup}
use electrs_cash.Rows.{OutPoint, Transaction}
use electrs_cash.Rpc.{
  insert_all, get_scripthashes_effected_by_tx, insert_for_tx, insert_for_txs, insert_for_headers,
  notify_scripthash_subscriptions,
}

mem-insert_all : (k : ℕ) (xs s : List ℕ) → mem k (insert_all xs s) ≡ (mem k xs || mem k s)
unfolding insert_all
mem-insert_all k [] s = refl
mem-insert_all k (x ∷ xs) s =
    mem-insert_all k xs (if mem x s then s else x ∷ s)
    ∙ ap (λ b. mem k xs || b) (inserted x)
    ∙ swapped
  where
    inserted : (x : ℕ) → mem k (if mem x s then s else x ∷ s) ≡ (mem k (x ∷ s))
    inserted x = elim (ℕ_discrete x k) [
      | yes same ↦ elim (Bool-cases (mem x s)) [
        | inl there ↦ ground (arith, same, there)
        | inr fresh ↦ ground (arith, fresh)
      ]
      | no other ↦ ground (arith, other)
    ]

    swapped : (mem k xs || mem k (x ∷ s)) ≡ (mem k (x ∷ xs) || mem k s)
    swapped = ground arith

insert_all-NoDup : (xs s : List ℕ) → NoDup s → NoDup (insert_all xs s)
unfolding insert_all
insert_all-NoDup [] s d = d
insert_all-NoDup (x ∷ xs) s d = elim (Bool-cases (mem x s)) [
  | inl there ↦ rw there (insert_all-NoDup xs s d)
  | inr fresh ↦ rw fresh (insert_all-NoDup xs (x ∷ s) (fresh, d))
]

-- The first job of a transaction, with the block that it names.
pub data FirstOf (t : ℕ) (b : Option ℕ) : List (ℕ × Option ℕ) → Type 0 where
  here : (js : List (ℕ × Option ℕ)) → FirstOf t b ((t, b) ∷ js)
  later :
      (u : ℕ) (c : Option ℕ) (js : List (ℕ × Option ℕ))
      → u ≢ t
      → FirstOf t b js
      → FirstOf t b ((u, c) ∷ js)

module _ (compute_script_hash : List ℕ → ℕ) (is_null : OutPoint → Bool)
    (get_tx : ℕ → Option ℕ → Result Transaction) where
  abbrev pub effected : ℕ → Option ℕ → Result (List ℕ)
  effected = get_scripthashes_effected_by_tx compute_script_hash is_null get_tx

  abbrev run : List (ℕ × Option ℕ) → List ℕ × List ℕ → Result (List ℕ × List ℕ)
  run [] s = ok s
  run ((t, b) ∷ js) s = insert_for_tx compute_script_hash is_null get_tx t b s >>= run js

  -- What one job does: nothing for a transaction that is done; else the transaction is done, and
  -- its script hashes are added unless they are not to be had.
  insert_for_tx-cases :
      (t : ℕ) (b : Option ℕ) (d hs : List ℕ) {s : List ℕ × List ℕ}
      → insert_for_tx compute_script_hash is_null get_tx t b (d, hs) ≡ ok s
      → ((mem t d ≡ true) × (s ≡ (d, hs)))
        ⊎ ((mem t d ≡ false)
            × (((e : ErrorKind) × (effected t b ≡ err e) × (s ≡ (t ∷ d, hs)))
                ⊎ ((xs : List ℕ) × (effected t b ≡ ok xs) × (s ≡ (t ∷ d, insert_all xs hs)))))
  unfolding insert_for_tx
  insert_for_tx-cases t b d hs {s} done = elim (Bool-cases (mem t d)) [
    | inl there ↦ inl (there, sym (ok_injective (rw there at done)))
    | inr fresh ↦ inr (fresh, go (effected t b) refl (rw fresh at done))
  ]
    where
      go :
          (x : Result (List ℕ))
          → effected t b ≡ x
          → (elim (effected t b) as (λ _. Result (List ℕ × List ℕ)) [
            | panic ↦ panic
            | err e ↦ ok (t ∷ d, hs)
            | ok hashes ↦ ok (t ∷ d, insert_all hashes hs)
          ])
            ≡ ok s
          → ((e : ErrorKind) × (effected t b ≡ err e) × (s ≡ (t ∷ d, hs)))
            ⊎ ((xs : List ℕ) × (effected t b ≡ ok xs) × (s ≡ (t ∷ d, insert_all xs hs)))
      go panic same h = absurd (ground (arith, same, h))
      go (err e) same h = inl (e, same, sym (ok_injective (rw same at h)))
      go (ok xs) same h = inr (xs, same, sym (ok_injective (rw same at h)))

  -- A script hash comes from the first job of a transaction that is not done before.
  abbrev pub Comes : ℕ → List ℕ → List (ℕ × Option ℕ) → Type 0
  Comes k d js =
      (t : ℕ) × (b : Option ℕ) × (xs : List ℕ) × FirstOf t b js
      × (mem t d ≡ false)
      × (effected t b ≡ ok xs)
      × (mem k xs ≡ true)

  record Step (t : ℕ) (b : Option ℕ) (d hs d' hs' : List ℕ) : Type 0 where
    others : (k : ℕ) → t ≢ k → mem k d' ≡ mem k d
    this : mem t d' ≡ true
    kept : (k : ℕ) → mem k hs ≡ true → mem k hs' ≡ true
    origin :
        (k : ℕ)
        → mem k hs' ≡ true
        → (mem k hs ≡ true)
          ⊎ ((xs : List ℕ) × (mem t d ≡ false) × (effected t b ≡ ok xs) × (mem k xs ≡ true))
    added :
        (k : ℕ) (xs : List ℕ)
        → mem t d ≡ false
        → effected t b ≡ ok xs
        → mem k xs ≡ true
        → mem k hs' ≡ true
    distinct : NoDup hs → NoDup hs'

  Step-skip : (t : ℕ) (b : Option ℕ) (d hs : List ℕ) → mem t d ≡ true → Step t b d hs d hs
  Step-skip t b d hs there = record {
    others = λ k other. refl;
    this = there;
    kept = λ k h. h;
    origin = λ k h. inl h;
    added = λ k xs fresh. absurd (ground (arith, fresh, there));
    distinct = λ n. n;
  }

  Step-failed :
      (t : ℕ) (b : Option ℕ) (d hs : List ℕ) (e : ErrorKind)
      → effected t b ≡ err e
      → Step t b d hs (t ∷ d) hs
  Step-failed t b d hs e failed = record {
    others = λ k other. ground (arith, other);
    this = ground arith;
    kept = λ k h. h;
    origin = λ k h. inl h;
    added = λ k xs fresh got. absurd (cc (failed, got));
    distinct = λ n. n;
  }

  Step-added :
      (t : ℕ) (b : Option ℕ) (d hs xs : List ℕ)
      → mem t d ≡ false
      → effected t b ≡ ok xs
      → Step t b d hs (t ∷ d) (insert_all xs hs)
  Step-added t b d hs xs fresh got = record {
    others = λ k other. ground (arith, other);
    this = ground arith;
    kept = λ k h. ground (arith, mem-insert_all k xs hs, h);
    origin = λ k h. elim (Bool-cases (mem k hs)) [
      | inl before ↦ inl before
      | inr new ↦ inr (xs, fresh, got, ground (arith, mem-insert_all k xs hs, h, new))
    ];
    added = λ k ys _ got' within.
        let same : xs ≡ ys = ok_injective (sym got ∙ got') in
        ground (arith, mem-insert_all k xs hs, ap (mem k) same, within);
    distinct = insert_all-NoDup xs hs;
  }

  insert_for_tx-Step :
      (t : ℕ) (b : Option ℕ) (d hs : List ℕ) {s : List ℕ × List ℕ}
      → insert_for_tx compute_script_hash is_null get_tx t b (d, hs) ≡ ok s
      → Step t b d hs s.0 s.1
  insert_for_tx-Step t b d hs {s} done = elim (insert_for_tx-cases t b d hs done) [
    | inl (there, same) ↦ rw same (Step-skip t b d hs there)
    | inr (fresh, inl (e, failed, same)) ↦ rw same (Step-failed t b d hs e failed)
    | inr (fresh, inr (xs, got, same)) ↦ rw same (Step-added t b d hs xs fresh got)
  ]

  run_found :
      (js : List (ℕ × Option ℕ)) (d hs : List ℕ) (s : List ℕ × List ℕ) (k : ℕ)
      → run js (d, hs) ≡ ok s
      → mem k s.1 ≡ true
      → (mem k hs ≡ true) ⊎ Comes k d js
  run_found [] d hs s k done within = inl (ap (λ x. mem k x.1) (ok_injective done) ∙ within)
  run_found ((t, b) ∷ js) d hs s k done within =
      let ((d', hs'), first, rest) =
        >>=-eq-ok (insert_for_tx compute_script_hash is_null get_tx t b (d, hs)) (run js) done in
      let step = insert_for_tx-Step t b d hs first in
      elim (run_found js d' hs' s k rest within) [
        | inl early ↦ elim (step.origin k early) [
          | inl before ↦ inl before
          | inr (xs, fresh, got, there) ↦ inr (t, b, xs, here js, fresh, got, there)
        ]
        | inr (u, c, xs, place, fresh, got, there) ↦ elim (ℕ_discrete t u) [
          | yes same ↦ absurd (ground (arith, step.this, ap (λ x. mem x d') same, fresh))
          | no other ↦
              inr
                (u, c, xs, later t b js other place, sym (step.others u other) ∙ fresh, got, there)
        ]
      ]

  run_before :
      (js : List (ℕ × Option ℕ)) (d hs : List ℕ) (s : List ℕ × List ℕ) (k : ℕ)
      → run js (d, hs) ≡ ok s
      → mem k hs ≡ true
      → mem k s.1 ≡ true
  run_before [] d hs s k done before = ap (λ x. mem k x.1) (sym (ok_injective done)) ∙ before
  run_before ((t, b) ∷ js) d hs s k done before =
      let ((d', hs'), first, rest) =
        >>=-eq-ok (insert_for_tx compute_script_hash is_null get_tx t b (d, hs)) (run js) done in
      run_before js d' hs' s k rest ((insert_for_tx-Step t b d hs first).kept k before)

  run_comes :
      (t : ℕ) (b : Option ℕ) (k : ℕ) (xs : List ℕ) (js : List (ℕ × Option ℕ)) (d hs : List ℕ)
      (s : List ℕ × List ℕ)
      → run js (d, hs) ≡ ok s
      → FirstOf t b js
      → mem t d ≡ false
      → effected t b ≡ ok xs
      → mem k xs ≡ true
      → mem k s.1 ≡ true
  run_comes t b k xs _ d hs s done (here js) fresh got there =
      let ((d', hs'), first, rest) =
        >>=-eq-ok (insert_for_tx compute_script_hash is_null get_tx t b (d, hs)) (run js) done in
      run_before js d' hs' s k rest ((insert_for_tx-Step t b d hs first).added k xs fresh got there)
  run_comes t b k xs _ d hs s done (later u c js other place) fresh got there =
      let ((d', hs'), first, rest) =
        >>=-eq-ok (insert_for_tx compute_script_hash is_null get_tx u c (d, hs)) (run js) done in
      run_comes t b k xs js d' hs' s rest place
        ((insert_for_tx-Step u c d hs first).others t other ∙ fresh) got there

  run_distinct :
      (js : List (ℕ × Option ℕ)) (d hs : List ℕ) (s : List ℕ × List ℕ)
      → run js (d, hs) ≡ ok s
      → NoDup hs
      → NoDup s.1
  run_distinct [] d hs s done n = rw (← ok_injective done) n
  run_distinct ((t, b) ∷ js) d hs s done n =
      let ((d', hs'), first, rest) =
        >>=-eq-ok (insert_for_tx compute_script_hash is_null get_tx t b (d, hs)) (run js) done in
      run_distinct js d' hs' s rest ((insert_for_tx-Step t b d hs first).distinct n)

  run_join :
      (xs ys : List (ℕ × Option ℕ)) (s u w : List ℕ × List ℕ)
      → run xs s ≡ ok u
      → run ys u ≡ ok w
      → run (xs ++ ys) s ≡ ok w
  run_join [] ys s u w one two = ap (run ys) (ok_injective one) ∙ two
  run_join ((t, b) ∷ xs) ys s u w one two =
      let (n, first, rest) =
        >>=-eq-ok (insert_for_tx compute_script_hash is_null get_tx t b s) (run xs) one in
      ap (λ (m : Result (List ℕ × List ℕ)). m >>= run (xs ++ ys)) first
      ∙ run_join xs ys n u w rest two

  -- The jobs of the changed headers' blocks, without those whose ids are not to be had.
  abbrev pub block_jobs : (ℕ → Result (List ℕ)) → List HeaderEntry → List (ℕ × Option ℕ)
  block_jobs getblocktxids [] = []
  block_jobs getblocktxids (h ∷ r) = elim (getblocktxids h.hash) [
    | panic ↦ []
    | err e ↦ block_jobs getblocktxids r
    | ok txids ↦ map (λ t. (t, some h.hash)) txids ++ block_jobs getblocktxids r
  ]

  abbrev pub jobs_of : Option ℕ → List ℕ → List (ℕ × Option ℕ)
  jobs_of b txids = map (λ (t : ℕ). (t, b)) txids

  insert_for_txs-run :
      (txids : List ℕ) (b : Option ℕ) (s u : List ℕ × List ℕ)
      → insert_for_txs compute_script_hash is_null get_tx txids b s ≡ ok u
      → run (jobs_of b txids) s ≡ ok u
  unfolding insert_for_txs
  insert_for_txs-run [] b s u done = done
  insert_for_txs-run (t ∷ txids) b s u done =
      let (n, first, rest) =
        >>=-eq-ok (insert_for_tx compute_script_hash is_null get_tx t b s)
          (λ n. insert_for_txs compute_script_hash is_null get_tx txids b n) done in
      ap (λ (m : Result (List ℕ × List ℕ)). m >>= run (jobs_of b txids)) first
      ∙ insert_for_txs-run txids b n u rest

  insert_for_headers_got :
      (getblocktxids : ℕ → Result (List ℕ)) (h : HeaderEntry) (r : List HeaderEntry)
      (s : List ℕ × List ℕ) (txids : List ℕ)
      → getblocktxids h.hash ≡ ok txids
      → insert_for_headers compute_script_hash is_null get_tx getblocktxids (h ∷ r) s ≡ (
          insert_for_txs compute_script_hash is_null get_tx txids (some h.hash) s >>= λ n.
          insert_for_headers compute_script_hash is_null get_tx getblocktxids r n)
  unfolding insert_for_headers
  insert_for_headers_got getblocktxids h r s txids got = ground (arith, got)

  insert_for_headers_failed :
      (getblocktxids : ℕ → Result (List ℕ)) (h : HeaderEntry) (r : List HeaderEntry)
      (s : List ℕ × List ℕ) (e : ErrorKind)
      → getblocktxids h.hash ≡ err e
      → insert_for_headers compute_script_hash is_null get_tx getblocktxids (h ∷ r) s
        ≡ insert_for_headers compute_script_hash is_null get_tx getblocktxids r s
  unfolding insert_for_headers
  insert_for_headers_failed getblocktxids h r s e failed = ground (arith, failed)

  block_jobs_got :
      (getblocktxids : ℕ → Result (List ℕ)) (h : HeaderEntry) (r : List HeaderEntry)
      (txids : List ℕ)
      → getblocktxids h.hash ≡ ok txids
      → block_jobs getblocktxids (h ∷ r) ≡ jobs_of (some h.hash) txids ++ block_jobs getblocktxids r
  block_jobs_got getblocktxids h r txids got = ground (arith, got)

  block_jobs_failed :
      (getblocktxids : ℕ → Result (List ℕ)) (h : HeaderEntry) (r : List HeaderEntry) (e : ErrorKind)
      → getblocktxids h.hash ≡ err e
      → block_jobs getblocktxids (h ∷ r) ≡ block_jobs getblocktxids r
  block_jobs_failed getblocktxids h r e failed = ground (arith, failed)

  insert_for_headers-run :
      (getblocktxids : ℕ → Result (List ℕ)) (headers : List HeaderEntry) (s u : List ℕ × List ℕ)
      → insert_for_headers compute_script_hash is_null get_tx getblocktxids headers s ≡ ok u
      → run (block_jobs getblocktxids headers) s ≡ ok u
  unfolding insert_for_headers
  insert_for_headers-run getblocktxids [] s u done = done
  insert_for_headers-run getblocktxids (h ∷ r) s u done =
      elim (Result-cases (getblocktxids h.hash)) [
        | inl (txids, got) ↦
            let (n, first, rest) =
              >>=-eq-ok (insert_for_txs compute_script_hash is_null get_tx txids (some h.hash) s)
                (λ n. insert_for_headers compute_script_hash is_null get_tx getblocktxids r n)
                (sym (insert_for_headers_got getblocktxids h r s txids got) ∙ done) in
            ap (λ js. run js s) (block_jobs_got getblocktxids h r txids got)
            ∙ run_join (jobs_of (some h.hash) txids) (block_jobs getblocktxids r) s n u
                (insert_for_txs-run txids (some h.hash) s n first)
                (insert_for_headers-run getblocktxids r n u rest)
        | inr (inl (e, failed)) ↦
            ap (λ js. run js s) (block_jobs_failed getblocktxids h r e failed)
            ∙ (insert_for_headers-run getblocktxids r s u
                (sym (insert_for_headers_failed getblocktxids h r s e failed) ∙ done))
        | inr (inr crashed) ↦ absurd (ground (arith, crashed, done))
      ]

  -- The script hashes that are sent are all different, and they are exactly those that the first
  -- job of some transaction has: the jobs are the transactions of the changed headers' blocks, each
  -- with its block, and then the other changed ones.
  pub notify_scripthash_subscriptions_once :
      (getblocktxids : ℕ → Result (List ℕ)) (headers_changed : List HeaderEntry)
      (txs_changed sent : List ℕ)
      → notify_scripthash_subscriptions compute_script_hash is_null get_tx getblocktxids
          headers_changed txs_changed
        ≡ ok sent
      → NoDup sent
        × ((k : ℕ)
            → (mem k sent ≡ true)
              ↔ Comes k [] (block_jobs getblocktxids headers_changed ++ jobs_of none txs_changed))
  unfolding notify_scripthash_subscriptions
  notify_scripthash_subscriptions_once getblocktxids headers_changed txs_changed sent done =
      let (confirmed, first, rest) =
        >>=-eq-ok
          (insert_for_headers compute_script_hash is_null get_tx getblocktxids headers_changed
            ([], []))
          (λ c. insert_for_txs compute_script_hash is_null get_tx txs_changed none c >>= λ all.
            ok (all.1))
          done in
      let (all, second, last) =
        >>=-eq-ok (insert_for_txs compute_script_hash is_null get_tx txs_changed none confirmed)
          (λ all. ok (all.1)) rest in
      let jobs : List (ℕ × Option ℕ) =
        block_jobs getblocktxids headers_changed ++ jobs_of none txs_changed in
      let ran : run jobs ([], []) ≡ ok all =
        run_join (block_jobs getblocktxids headers_changed) (jobs_of none txs_changed) ([], [])
          confirmed all
          (insert_for_headers-run getblocktxids headers_changed ([], []) confirmed first)
          (insert_for_txs-run txs_changed none confirmed all second) in
      let same : all.1 ≡ sent = ok_injective last in
      (
        rw (← same) (run_distinct jobs [] [] all ran tt),
        λ k. (
          λ within. elim (run_found jobs [] [] all k ran (ap (mem k) same ∙ within)) [
            | inl before ↦ absurd (ground (arith, before))
            | inr comes ↦ comes
          ],
          λ (t, b, xs, place, fresh, got, there).
              ap (mem k) (sym same) ∙ run_comes t b k xs jobs [] [] all ran place fresh got there,
        ),
      )
