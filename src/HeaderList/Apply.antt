-- ===== src/HeaderList/Apply.antt =====
-- src/util.rs: `apply` keeps the list well formed and puts the new tip on top.
use electrs_cash.Common.{
  ℕ, ◌≡◌, ◌≢◌, refl, sym, List, [], ◌∷◌, ◌++◌, arith, ◌==◌, take, Bool-cases, inl, inr,
}
use electrs_cash.Errors.{Result, ok, err, panic}
use electrs_cash.HeaderList.{
  HeaderEntry, HeaderList, tiphash, push_all, apply, kept_height, is_empty_list, empty,
}
use electrs_cash.HeaderList.Chain.{
  ChainFrom, IsValid, DistinctHashes, ChainFrom-take, Recorded-take,
}
use electrs_cash.HeaderList.Push.{push_all-headers, push_all-ChainFrom, push_all-Recorded}

-- The header list below the height `n`.
abbrev pub kept : HeaderList → ℕ → HeaderList
kept l n = record l { headers = take n l.headers }

-- What a run of `apply` to a tip that is not null has found.
pub apply_steps :
    (l : HeaderList) (es : List HeaderEntry) (tip : ℕ) {l' : HeaderList}
    → tip ≢ 0
    → apply l es tip ≡ ok l'
    → (n : ℕ) × (kept_height l es tip ≡ ok n)
      × (push_all (kept l n) es ≡ ok l')
      × (tip ≡ tiphash l')
unfolding apply
apply_steps l es tip {l'} nz h = go (kept_height l es tip) refl h
  where
    go :
        (k : Result ℕ)
        → kept_height l es tip ≡ k
        → apply l es tip ≡ ok l'
        → (n : ℕ) × (kept_height l es tip ≡ ok n)
          × (push_all (kept l n) es ≡ ok l')
          × (tip ≡ tiphash l')
    go (ok n) e r = (n, e, ground arith, ground arith)
    go (err x) e r = absurd (ground arith)
    go panic e r = absurd (ground arith)

-- Of the null tip `apply` takes no headers, and clears the list.
pub apply_null :
    (l : HeaderList) (es : List HeaderEntry) (tip : ℕ) {l' : HeaderList}
    → tip ≡ 0
    → apply l es tip ≡ ok l'
    → (es ≡ []) × (l' ≡ empty)
unfolding apply is_empty_list
apply_null l [] tip z h = ground arith
apply_null l (e ∷ r) tip z h = absurd (ground arith)

empty-IsValid : IsValid empty
unfolding empty
empty-IsValid = record { chain = tt; recorded = tt }

-- A successful `apply` keeps the first headers, puts the new ones on top of them, and leaves a
-- chain from the null hash to the tip that was asked for.
pub apply_chain :
    (l : HeaderList) (es : List HeaderEntry) (tip : ℕ) {l' : HeaderList}
    → IsValid l
    → apply l es tip ≡ ok l'
    → (n : ℕ) × (l'.headers ≡ take n l.headers ++ es)
      × ChainFrom 0 0 l'.headers
      × (tiphash l' ≡ tip)
apply_chain l es tip {l'} v h = elim (Bool-cases (tip == 0)) [
  | inl null ↦
      let (no_new, cleared) = apply_null l es tip (ground arith) h in
      (
        0,
        unfold empty in cc (no_new, cleared),
        rw cleared empty-IsValid.chain,
        rw cleared (unfold empty tiphash in ground arith),
      )
  | inr other ↦
      let (n, _, done, top) = apply_steps l es tip (ground arith) h in
      (
        n,
        push_all-headers (kept l n) es done,
        push_all-ChainFrom (kept l n) es (ChainFrom-take n 0 0 l.headers v.chain) done,
        sym top,
      )
]

-- If the hashes of the resulting headers are distinct, a successful `apply` of a well-formed list
-- gives a well-formed list.
pub apply-IsValid :
    (l : HeaderList) (es : List HeaderEntry) (tip : ℕ) {l' : HeaderList}
    → IsValid l
    → apply l es tip ≡ ok l'
    → DistinctHashes l'.headers
    → IsValid l'
apply-IsValid l es tip {l'} v h d = elim (Bool-cases (tip == 0)) [
  | inl null ↦ rw (apply_null l es tip (ground arith) h).1 empty-IsValid
  | inr other ↦
      let (n, _, done, top) = apply_steps l es tip (ground arith) h in
      record {
        chain = push_all-ChainFrom (kept l n) es (ChainFrom-take n 0 0 l.headers v.chain) done;
        recorded =
            push_all-Recorded (kept l n) es (rw (← push_all-headers (kept l n) es done) d)
              (Recorded-take l.heights n l.headers v.recorded) done;
      }
]
