-- ===== src/HeaderList/Find.antt =====
-- src/util.rs: the lookups of `HeaderList` on a well-formed list.
use electrs_cash.Common.{ℕ, ◌≡◌, some, arith, get_elem?, ℕ_discrete, inl, inr, Option-cases}
use electrs_cash.Common.Map.{lookup}
use electrs_cash.Errors.{ok}
use electrs_cash.HeaderList.{HeaderEntry, HeaderList, header_by_blockhash, header_by_height}
use electrs_cash.HeaderList.Chain.{IsValid, height_of_get_elem?, Recorded-of_get_elem?}

-- On a well-formed list every header in it is found at its height, without a failed assertion, and
-- under its hash.
pub find_header :
    (l : HeaderList) (i : ℕ) (e : HeaderEntry)
    → IsValid l
    → get_elem? l.headers i ≡ some e
    → (header_by_height l i ≡ ok (some e)) × (header_by_blockhash l e.hash ≡ some e)
unfolding header_by_height header_by_blockhash
find_header l i e v at = ground (
  arith,
  height_of_get_elem? 0 0 l.headers i v.chain at,
  Recorded-of_get_elem? l.heights l.headers i v.recorded at,
)

-- What a lookup by hash returns stands in the list under that hash, at the recorded height.
pub header_by_blockhash_sound :
    (l : HeaderList) (k : ℕ) (e : HeaderEntry)
    → header_by_blockhash l k ≡ some e
    → (i : ℕ) × (get_elem? l.headers i ≡ some e) × (e.hash ≡ k)
unfolding header_by_blockhash
header_by_blockhash_sound l k e h = elim (Option-cases (lookup ℕ_discrete k l.heights)) [
  | inl miss ↦ absurd (ground arith)
  | inr (i, hit) ↦ (i, ground arith, ground arith)
]
