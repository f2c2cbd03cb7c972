-- ===== src/Daemon.antt =====
-- src/daemon.rs: which headers are downloaded when the daemon has a new tip. The answers of the
-- daemon are parameters, and so is the download of all headers into an empty list. The walk back
-- is on fuel; out of fuel counts as a panic.
pub mod Walk
pub mod Download
pub mod Fresh
pub mod Reply
mod Tests
use electrs_cash.Common.{
  ℕ, zero, suc, ◌+◌, ◌-◌, ◌*◌, ◌/◌, ◌%◌, ◌^◌, ◌≤◌, ◌<◌, ◌≡◌, ◌≢◌, refl, sym, ap, ◌∙◌, Bool, true,
  false, not, ◌&&◌, ◌||◌, Option, none, some, List, [], ◌∷◌, ◌++◌, map, arith, ltb, leb, ◌==◌,
  if◌then◌else◌, Bool-cases, Option-cases, inl, inr, ◌⊎◌, ◌↔◌, length, get_elem?, set, take, drop,
  replicate, last, All, length-append, length-set, length-take, length-drop, take-append-drop,
  length-map, take-append_length, drop-append_length, get_elem?_middle, set_middle, replicate_snoc,
  length-replicate, sum_by, sum_by-append, ite, if_pos, if_neg, ℕ_discrete, dec_lt, dec_le, ==_iff,
  get_elem?_of_length-le,
}
use electrs_cash.Errors.{Result, ok, err, panic, ◌>>=◌}
use electrs_cash.HeaderList.{BlockHeader, HeaderList, header_by_blockhash}

-- `reverse` of the vector.
abbrev pub reverse : List BlockHeader → List BlockHeader
reverse [] = []
reverse (h ∷ r) = reverse r ++ h ∷ []

abbrev pub is_known : HeaderList → ℕ → Bool
is_known l blockhash = elim (header_by_blockhash l blockhash) [ none ↦ false | some _ ↦ true ]

module _ (getblockheader : ℕ → Result BlockHeader) where
  -- The loop of `get_new_headers`, from a hash back to a known one.
  unfoldable pub walk_back : ℕ → HeaderList → ℕ → List BlockHeader → Result (List BlockHeader)
  walk_back zero l blockhash new_headers = panic
  walk_back (suc fuel) l blockhash new_headers =
      if blockhash == 0
      then ok new_headers
      else if is_known l blockhash
      then ok new_headers
      else (do
        header ← getblockheader blockhash
        walk_back fuel l header.prev_blockhash (new_headers ++ header ∷ []))

  unfoldable pub get_new_headers :
      (ℕ → Result (List BlockHeader)) → ℕ → HeaderList → ℕ → Result (List BlockHeader)
  get_new_headers get_all_headers fuel l bestblockhash =
      if length l.headers == 0
      then get_all_headers bestblockhash
      else (do new_headers ← walk_back fuel l bestblockhash []; ok (reverse new_headers))
