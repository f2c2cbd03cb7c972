-- ===== src/Daemon/Fresh.antt =====
-- src/daemon.rs, src/bulk.rs: the headers of a whole chain, downloaded and put into an empty list.
use electrs_cash.Common.{
  ℕ, zero, suc, ◌+◌, ◌≤◌, ◌<◌, ◌≡◌, ◌≢◌, refl, sym, ap, ◌∙◌, List, [], ◌∷◌, ◌++◌, map, arith,
  length, take, drop, length-map, length-drop, take-append-drop, All,
}
use mathlib.Core.List.{append-nil, append_assoc}
use electrs_cash.Errors.{Result, ok}
use electrs_cash.HeaderList.{BlockHeader, HeaderEntry, HeaderList, tiphash, empty}
use electrs_cash.HeaderList.Chain.{ChainFrom, top_from, tiphash-top_from}
use electrs_cash.HeaderList.Whole.{header_of, order-ChainFrom, apply_chain_whole}
use electrs_cash.Daemon.{get_new_headers}
use electrs_cash.Daemon.Download.{
  chunk_size, heights_from, chunks, download, check_chain, get_all_headers, load_headers,
}

abbrev flat : List (List ℕ) → List ℕ
flat [] = []
flat (c ∷ cs) = c ++ flat cs

length-heights_from : (n k : ℕ) → length (heights_from n k) ≡ k
length-heights_from n zero = refl
length-heights_from n (suc k) = ap suc (length-heights_from (suc n) k)

flat-chunks :
    (fuel size : ℕ) (xs : List ℕ) → 0 < size → length xs < fuel → flat (chunks fuel size xs) ≡ xs
unfolding chunks
flat-chunks zero size xs some enough = absurd (omega arith)
flat-chunks (suc fuel) size [] some enough = refl
flat-chunks (suc fuel) size (x ∷ xs) some enough =
    ap (λ ys. take size (x ∷ xs) ++ ys)
      (flat-chunks fuel size (drop size (x ∷ xs)) some (omega (arith, length-drop size (x ∷ xs))))
    ∙ take-append-drop size (x ∷ xs)

All-take {ℓ κ} : {A : Type ℓ} (P : A → Type κ) (n : ℕ) (xs : List A) → All P xs → All P (take n xs)
All-take P zero xs a = tt
All-take P (suc n) [] a = tt
All-take P (suc n) (x ∷ xs) a = (a.0, All-take P n xs a.1)

All-drop {ℓ κ} : {A : Type ℓ} (P : A → Type κ) (n : ℕ) (xs : List A) → All P xs → All P (drop n xs)
All-drop P zero xs a = a
All-drop P (suc n) [] a = tt
All-drop P (suc n) (x ∷ xs) a = All-drop P n xs a.1

All-chunks :
    (P : ℕ → Type 0) (fuel size : ℕ) (xs : List ℕ) → All P xs → All (All P) (chunks fuel size xs)
unfolding chunks
All-chunks P zero size xs a = tt
All-chunks P (suc fuel) size [] a = tt
All-chunks P (suc fuel) size (x ∷ xs) a = (
  All-take P size (x ∷ xs) a,
  All-chunks P fuel size (drop size (x ∷ xs)) (All-drop P size (x ∷ xs) a),
)

heights_from_le : (top n k : ℕ) → n + k ≤ suc top → All (λ h. h ≤ top) (heights_from n k)
heights_from_le top n zero le = tt
heights_from_le top n (suc k) le = (omega arith, heights_from_le top (suc n) k (omega arith))

module _ (block_hash : BlockHeader → ℕ) (header_at : ℕ → BlockHeader) where
  -- The headers by height are a chain from the null hash.
  abbrev pub prev_of : ℕ → ℕ
  prev_of zero = 0
  prev_of (suc n) = block_hash (header_at n)

  abbrev pub entries_from : ℕ → ℕ → List HeaderEntry
  entries_from n zero = []
  entries_from n (suc k) =
      (record { height = n; hash = block_hash (header_at n); header = header_at n })
      ∷ entries_from (suc n) k

  header_of-entries_from :
      (n k : ℕ) → map header_of (entries_from n k) ≡ map header_at (heights_from n k)
  header_of-entries_from n zero = refl
  header_of-entries_from n (suc k) = ap (λ hs. header_at n ∷ hs) (header_of-entries_from (suc n) k)

  hashes-entries_from : (n k : ℕ) → All (λ e. e.hash ≡ block_hash e.header) (entries_from n k)
  hashes-entries_from n zero = tt
  hashes-entries_from n (suc k) = (refl, hashes-entries_from (suc n) k)

  map-append : (xs ys : List ℕ) → map header_at (xs ++ ys) ≡ map header_at xs ++ map header_at ys
  map-append [] ys = refl
  map-append (x ∷ xs) ys = ap (λ hs. header_at x ∷ hs) (map-append xs ys)

  -- Up to the height `n`, the headers are a chain, and none has the null hash.
  module _ (n : ℕ) (linked : (i : ℕ) → i ≤ n → (header_at i).prev_blockhash ≡ prev_of i)
      (not_null : (i : ℕ) → i ≤ n → block_hash (header_at i) ≢ 0) where
    entries_from-ChainFrom : (i k : ℕ) → i + k ≤ suc n → ChainFrom i (prev_of i) (entries_from i k)
    entries_from-ChainFrom i zero le = tt
    entries_from-ChainFrom i (suc k) le =
        (refl, linked i (omega arith), entries_from-ChainFrom (suc i) k (omega arith))

    not_null-entries_from : (i k : ℕ) → i + k ≤ suc n → All (λ e. e.hash ≢ 0) (entries_from i k)
    not_null-entries_from i zero le = tt
    not_null-entries_from i (suc k) le =
        (not_null i (omega arith), not_null-entries_from (suc i) k (omega arith))

    top_from-entries_from :
        (i k : ℕ) → top_from (prev_of i) (entries_from i (suc k)) ≡ block_hash (header_at (i + k))
    top_from-entries_from i zero = ap (λ j. block_hash (header_at j)) (omega arith)
    top_from-entries_from i (suc k) =
        top_from-entries_from (suc i) k ∙ ap (λ j. block_hash (header_at j)) (omega arith)

    check_chain-heights_from :
        (i k : ℕ)
        → i + k ≤ suc n
        → check_chain block_hash (map header_at (heights_from i k)) (prev_of i)
          ≡ ok (top_from (prev_of i) (entries_from i k))
    unfolding check_chain
    check_chain-heights_from i zero le = refl
    check_chain-heights_from i (suc k) le =
        ground (arith, linked i (omega arith), check_chain-heights_from (suc i) k (omega arith))

    module _ (getblockheaders : List ℕ → Result (List BlockHeader))
        (serves : (hs : List ℕ)
          → All (λ h. h ≤ n) hs
          → getblockheaders hs ≡ ok (map header_at hs)) where
      download-flat :
          (cs : List (List ℕ)) (acc : List BlockHeader)
          → All (All (λ h. h ≤ n)) cs
          → download getblockheaders cs acc ≡ ok (acc ++ map header_at (flat cs))
      unfolding download
      download-flat [] acc up = ap ok (sym (append-nil acc))
      download-flat (c ∷ cs) acc up =
          ground (
            arith,
            serves c up.0,
            length-map header_at c,
            download-flat cs (acc ++ map header_at c) up.1,
          )
          ∙ ap ok (
              append_assoc acc (map header_at c) (map header_at (flat cs))
              ∙ ap (λ hs. acc ++ hs) (sym (map-append c (flat cs))))

      get_all_headers_total :
          (height_of : ℕ → Result ℕ)
          → height_of (block_hash (header_at n)) ≡ ok n
          → get_all_headers block_hash getblockheaders height_of (block_hash (header_at n))
            ≡ ok (map header_at (heights_from 0 (n + 1)))
      unfolding get_all_headers
      get_all_headers_total height_of known =
          let all : List ℕ = heights_from 0 (n + 1) in
          let downloaded : download getblockheaders (chunks (suc (length all)) chunk_size all) []
              ≡ ok (map header_at all) =
            download-flat (chunks (suc (length all)) chunk_size all) [] (
              All-chunks (λ h. h ≤ n) (suc (length all)) chunk_size all
                (heights_from_le n 0 (n + 1) (omega arith)))
            ∙ ap (λ hs. ok (map header_at hs))
                (flat-chunks (suc (length all)) chunk_size all (omega arith) (omega arith)) in
          let whole : n + 1 ≡ suc n = omega arith in
          let checked : check_chain block_hash (map header_at all) 0
              ≡ ok (block_hash (header_at n)) =
            check_chain-heights_from 0 (n + 1) (omega arith)
            ∙ ap (λ k. ok (top_from 0 (entries_from 0 k))) whole
            ∙ ap ok
                (top_from-entries_from 0 n ∙ ap (λ i. block_hash (header_at i)) (omega arith)) in
          ground (arith, known, downloaded, checked)

      -- From a daemon whose headers at the heights from 0 to `n` are a chain from the null hash,
      -- none of them with the null hash, that serves the headers at any such heights, and that
      -- names the one at height `n` as its tip, `load_headers` ends without an error or a panic,
      -- with the headers of all heights from 0 to `n`, in however many chunks they come.
      pub load_headers_total :
          (getblockheader : ℕ → Result BlockHeader) (height_of : ℕ → Result ℕ)
          → height_of (block_hash (header_at n)) ≡ ok n
          → (l : HeaderList) × (load_headers block_hash getblockheaders getblockheader
                (ok (block_hash (header_at n)))
                height_of
              ≡ ok l)
            × (map header_of l.headers ≡ map header_at (heights_from 0 (n + 1)))
            × ChainFrom 0 0 l.headers
            × (tiphash l ≡ block_hash (header_at n))
      unfolding load_headers get_new_headers empty
      load_headers_total getblockheader height_of known =
          let es : List HeaderEntry = entries_from 0 (suc n) in
          let whole : n + 1 ≡ suc n = omega arith in
          let chain = entries_from-ChainFrom 0 (suc n) (omega arith) in
          let top : top_from 0 es ≡ block_hash (header_at n) =
            top_from-entries_from 0 n ∙ ap (λ i. block_hash (header_at i)) (omega arith) in
          let (l, applied, shape) =
            apply_chain_whole block_hash es chain (hashes-entries_from 0 (suc n))
              (not_null-entries_from 0 (suc n) (omega arith)) in
          let headers : map header_of es ≡ map header_at (heights_from 0 (n + 1)) =
            header_of-entries_from 0 (suc n)
            ∙ ap (λ k. map header_at (heights_from 0 k)) (sym whole) in
          let ordered = order-ChainFrom block_hash es chain (hashes-entries_from 0 (suc n)) in
          (
            l,
            ground (
              arith,
              get_all_headers_total height_of known,
              headers,
              ordered,
              (rw top at applied),
            ),
            ap (map header_of) shape ∙ headers,
            rw shape chain,
            tiphash-top_from l ∙ ap (top_from 0) shape ∙ top,
          )
