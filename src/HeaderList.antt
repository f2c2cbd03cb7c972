-- ===== src/HeaderList.antt =====
-- src/util.rs: the in-memory list of block headers. A block hash is a number, the null hash is 0,
-- and `block_hash`, of the crate bitcoincash, is a parameter. `heights` is the map from a hash to
-- the height of its header; entries of dropped headers stay in it.
pub mod Chain
pub mod Push
pub mod Find
pub mod Apply
pub mod Order
pub mod Whole
mod Tests
use electrs_cash.Common.{
  ℕ, zero, suc, ◌+◌, Bool, true, false, ◌&&◌, Option, none, some, List, [], ◌∷◌, ◌++◌, ◌==◌,
  if◌then◌else◌, length, take, get_elem?, last, ℕ_discrete, map,
}
use electrs_cash.Common.Map.{lookup, insert}
use electrs_cash.Errors.{Result, ok, ◌>>=◌, ◌>>◌, assert, expect}

pub record BlockHeader : Type 0 where
  pub version : ℕ
  pub prev_blockhash : ℕ
  pub merkle_root : ℕ
  pub time : ℕ
  pub bits : ℕ
  pub nonce : ℕ

pub record HeaderEntry : Type 0 where
  pub height : ℕ
  pub hash : ℕ
  pub header : BlockHeader

pub record HashedHeader : Type 0 where
  pub blockhash : ℕ
  pub header : BlockHeader

pub record HeaderList : Type 0 where
  pub headers : List HeaderEntry
  pub heights : List (ℕ × ℕ)

unfoldable pub empty : HeaderList
empty = record { headers = []; heights = [] }

-- The assertions of the loop of `hash_headers`.
unfoldable pub hashed_linked : List HashedHeader → Bool
hashed_linked [] = true
hashed_linked (a ∷ []) = true
hashed_linked (a ∷ b ∷ r) = b.header.prev_blockhash == a.blockhash && hashed_linked (b ∷ r)

unfoldable pub tiphash : HeaderList → ℕ
tiphash l = elim (last l.headers) [ none ↦ 0 | some h ↦ h.hash ]

unfoldable pub header_by_blockhash : HeaderList → ℕ → Option HeaderEntry
header_by_blockhash l blockhash = elim (lookup ℕ_discrete blockhash l.heights) [
  | none ↦ none
  | some height ↦ elim (get_elem? l.headers height) [
    | none ↦ none
    | some header ↦ if blockhash == header.hash then some header else none
  ]
]

-- An entry at another height than its own is a failed assertion.
unfoldable pub header_by_height : HeaderList → ℕ → Result (Option HeaderEntry)
header_by_height l height = elim (get_elem? l.headers height) [
  | none ↦ ok none
  | some entry ↦ do assert (entry.height == height); ok (some entry)
]

unfoldable pub tip : HeaderList → Option HeaderEntry
tip l = last l.headers

-- `order`'s numbering of the new headers, from a height on.
unfoldable pub number_from : ℕ → List HashedHeader → List HeaderEntry
number_from n [] = []
number_from n (h ∷ r) =
    (record { height = n; hash = h.blockhash; header = h.header }) ∷ number_from (suc n) r

-- The height of the first new header, by the header that it names as its previous one.
unfoldable pub new_height : HeaderList → ℕ → Result ℕ
new_height l prev_blockhash =
    if prev_blockhash == 0
    then ok 0
    else (do e ← expect (header_by_blockhash l prev_blockhash); ok (suc e.height))

unfoldable pub order_hashed : HeaderList → List HashedHeader → Result (List HeaderEntry)
order_hashed l [] = ok []
order_hashed l (h ∷ r) = do n ← new_height l h.header.prev_blockhash; ok (number_from n (h ∷ r))

module _ (block_hash : BlockHeader → ℕ) where
  unfoldable pub hash_headers : List BlockHeader → Result (List HashedHeader)
  hash_headers headers = do
    let hashed = map (λ h. record { blockhash = block_hash h; header = h }) headers
    assert (hashed_linked hashed)
    ok hashed

  unfoldable pub order : HeaderList → List BlockHeader → Result (List HeaderEntry)
  order l new_headers = do hashed ← hash_headers new_headers; order_hashed l hashed

-- The assertions of the first loop of `apply`.
unfoldable pub entries_linked : List HeaderEntry → Bool
entries_linked [] = true
entries_linked (a ∷ []) = true
entries_linked (a ∷ b ∷ r) =
    a.height + 1 == b.height && a.hash == b.header.prev_blockhash && entries_linked (b ∷ r)

-- The hash that the first new header must name: of the header below it, or the null hash.
unfoldable pub expected_prev_blockhash : HeaderList → ℕ → Result ℕ
expected_prev_blockhash l zero = ok 0
expected_prev_blockhash l (suc n) = do e ← expect (get_elem? l.headers n); ok e.hash

-- `apply`'s `new_height`: how many of the old headers stay.
unfoldable pub kept_height : HeaderList → List HeaderEntry → ℕ → Result ℕ
kept_height l [] tip = do h ← expect (lookup ℕ_discrete tip l.heights); ok (suc h)
kept_height l (e ∷ r) tip = do
  t ← expect (last (e ∷ r))
  assert (tip == t.hash)
  prev ← expected_prev_blockhash l e.height
  assert (e.header.prev_blockhash == prev)
  ok e.height

-- The last loop of `apply`.
unfoldable pub push_all : HeaderList → List HeaderEntry → Result HeaderList
push_all l [] = ok l
push_all l (e ∷ r) = do
  assert (e.height == length l.headers)
  assert (e.header.prev_blockhash == tiphash l)
  push_all
      (record {
        headers = l.headers ++ (e ∷ []);
        heights = insert ℕ_discrete e.hash e.height l.heights;
      })
      r

unfoldable pub is_recorded : HeaderList → ℕ → Bool
is_recorded l k = elim (lookup ℕ_discrete k l.heights) [ none ↦ false | some _ ↦ true ]

unfoldable pub is_empty_list : List HeaderEntry → Bool
is_empty_list [] = true
is_empty_list (e ∷ r) = false

unfoldable pub apply : HeaderList → List HeaderEntry → ℕ → Result HeaderList
apply l new_headers tip =
    if tip == 0 then (do assert (is_empty_list new_headers); ok empty) else (do
      assert (entries_linked new_headers)
      n ← kept_height l new_headers tip
      let headers = take n l.headers
      assert (n == length headers)
      l' ← push_all (record l { headers = headers }) new_headers
      assert (tip == tiphash l')
      assert (is_recorded l' tip)
      ok l')
