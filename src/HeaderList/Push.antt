-- ===== src/HeaderList/Push.antt =====
-- src/util.rs: the loop of `apply` that pushes the new headers.
use electrs_cash.Common.{
  ℕ, suc, ◌≡◌, refl, sym, ◌∙◌, ap, some, List, [], ◌∷◌, ◌++◌, arith, length, length-append,
  last-append, last, true, inl, inr, ◌⊎◌, ℕ_discrete,
}
use mathlib.Core.List.{append_assoc, append-nil}
use electrs_cash.Common.Map.{insert, lookup-insert}
use electrs_cash.Errors.{ok, ok_injective}
use electrs_cash.HeaderList.{HeaderEntry, HeaderList, tiphash, push_all, is_recorded}
use electrs_cash.HeaderList.Chain.{
  ChainFrom, Recorded, DistinctHashes, tiphash-top_from, ChainFrom-append, Recorded-insert,
  Recorded-append, DistinctHashes-before,
}

-- The list after one header is pushed.
abbrev pub pushed : HeaderList → HeaderEntry → HeaderList
pushed l e = record {
  headers = l.headers ++ (e ∷ []);
  heights = insert ℕ_discrete e.hash e.height l.heights;
}

-- A push that did not panic found the height and the previous hash that it asserts.
pub push_all_step :
    (l : HeaderList) (e : HeaderEntry) (r : List HeaderEntry) {l' : HeaderList}
    → push_all l (e ∷ r) ≡ ok l'
    → (e.height ≡ length l.headers)
      × (e.header.prev_blockhash ≡ tiphash l)
      × (push_all (pushed l e) r ≡ ok l')
unfolding push_all
push_all_step l e r h = ground arith

pub push_all-headers :
    (l : HeaderList) (es : List HeaderEntry) {l' : HeaderList}
    → push_all l es ≡ ok l'
    → l'.headers ≡ l.headers ++ es
push_all-headers l [] h = unfold push_all in cc (append-nil l.headers)
push_all-headers l (e ∷ r) h =
    let (a, b, next) = push_all_step l e r h in
    push_all-headers (pushed l e) r next ∙ append_assoc l.headers (e ∷ []) r

pub push_all-ChainFrom :
    (l : HeaderList) (es : List HeaderEntry) {l' : HeaderList}
    → ChainFrom 0 0 l.headers
    → push_all l es ≡ ok l'
    → ChainFrom 0 0 l'.headers
push_all-ChainFrom l [] {l'} c h = unfold push_all in (let e : l ≡ l' = cc in rw (← e) c)
push_all-ChainFrom l (e ∷ r) c h =
    let (at, above, next) = push_all_step l e r h in
    push_all-ChainFrom (pushed l e) r
      (ChainFrom-append 0 0 l.headers e c (omega arith) (above ∙ tiphash-top_from l)) next

pub push_all-Recorded :
    (l : HeaderList) (es : List HeaderEntry) {l' : HeaderList}
    → DistinctHashes (l.headers ++ es)
    → Recorded l.heights l.headers
    → push_all l es ≡ ok l'
    → Recorded l'.heights l'.headers
push_all-Recorded l [] {l'} d c h = unfold push_all in (let e : l ≡ l' = cc in rw (← e) c)
push_all-Recorded l (e ∷ r) d c h =
    let (at, above, next) = push_all_step l e r h in
    push_all-Recorded (pushed l e) r (rw append_assoc d)
      (Recorded-append _ l.headers e
        (Recorded-insert l.heights l.headers e.hash e.height (DistinctHashes-before l.headers e r d)
          c)
        (ground (arith, lookup-insert ℕ_discrete e.hash e.hash e.height l.heights)))
      next

pub tiphash-pushed : (l : HeaderList) (e : HeaderEntry) → tiphash (pushed l e) ≡ e.hash
unfolding tiphash
tiphash-pushed l e = rw (last-append l.headers e, tiphash)

push_all_next :
    (l : HeaderList) (e : HeaderEntry) (r : List HeaderEntry) {l' : HeaderList}
    → e.height ≡ length l.headers
    → e.header.prev_blockhash ≡ tiphash l
    → push_all (pushed l e) r ≡ ok l'
    → push_all l (e ∷ r) ≡ ok l'
unfolding push_all
push_all_next l e r a b h = ground arith

-- Headers that continue the list are pushed without a panic.
pub push_all_total :
    (l : HeaderList) (es : List HeaderEntry)
    → ChainFrom (length l.headers) (tiphash l) es
    → (l' : HeaderList) × (push_all l es ≡ ok l')
push_all_total l [] c = (l, unfold push_all in refl)
push_all_total l (e ∷ r) c =
    let long : length (l.headers ++ e ∷ []) ≡ suc (length l.headers) =
      omega (arith, length-append l.headers (e ∷ [])) in
    let (l', done) = push_all_total (pushed l e) r (rw (long, tiphash-pushed l e) c.2) in
    (l', push_all_next l e r c.0 c.1 done)

-- A hash that the map has stays in it, and that of the last header pushed is in it.
recorded_insert :
    (l : HeaderList) (e : HeaderEntry) (k : ℕ)
    → is_recorded l k ≡ true ⊎ e.hash ≡ k
    → is_recorded (pushed l e) k ≡ true
unfolding is_recorded
recorded_insert l e k h = ground (arith, lookup-insert ℕ_discrete e.hash k e.height l.heights)

push_all-is_recorded :
    (l : HeaderList) (es : List HeaderEntry) (k : ℕ) {l' : HeaderList}
    → push_all l es ≡ ok l'
    → is_recorded l k ≡ true
    → is_recorded l' k ≡ true
push_all-is_recorded l [] k h r = unfold push_all in ground arith
push_all-is_recorded l (e ∷ es) k h r =
    push_all-is_recorded (pushed l e) es k (push_all_step l e es h).2
      (recorded_insert l e k (inl r))

pub push_all-last :
    (l : HeaderList) (es : List HeaderEntry) (t : HeaderEntry) {l' : HeaderList}
    → push_all l es ≡ ok l'
    → last es ≡ some t
    → (is_recorded l' t.hash ≡ true) × (tiphash l' ≡ t.hash)
push_all-last l [] t h e = absurd (ground arith)
push_all-last l (d ∷ []) t h e =
    let next = (push_all_step l d [] h).2 in
    let same : d ≡ t = cc in
    rw (← same) (
      push_all-is_recorded (pushed l d) [] d.hash next (recorded_insert l d d.hash (inr refl)),
      unfold push_all in (ap tiphash (sym (ok_injective next)) ∙ tiphash-pushed l d),
    )
push_all-last l (d ∷ d' ∷ es) t h e =
    push_all-last (pushed l d) (d' ∷ es) t (push_all_step l d (d' ∷ es) h).2 e
