-- ===== src/Daemon/Walk.antt =====
-- src/daemon.rs: what the walk back from the daemon's tip returns.
use electrs_cash.Common.{
  ℕ, zero, suc, ◌<◌, ◌≡◌, ◌≢◌, refl, sym, ap, true, false, List, [], ◌∷◌, ◌++◌, arith, length,
  length-append,
}
use mathlib.Core.List.{append-nil, append_assoc}
use electrs_cash.Errors.{Result, ok}
use electrs_cash.HeaderList.{BlockHeader, HeaderList}
use electrs_cash.Daemon.{reverse, is_known, walk_back, get_new_headers}

module _ (getblockheader : ℕ → Result BlockHeader) where
  -- The headers, oldest first, that lead from the null hash or a hash that the list knows up to
  -- `tip`: each is the daemon's answer for a hash that the list does not know.
  pub data Missing (l : HeaderList) : ℕ → List BlockHeader → Type 0 where
    at_start : Missing l 0 []
    at_known : (k : ℕ) → is_known l k ≡ true → Missing l k []
    above :
        (tip : ℕ) (hs : List BlockHeader) (h : BlockHeader)
        → tip ≢ 0
        → is_known l tip ≡ false
        → getblockheader tip ≡ ok h
        → Missing l h.prev_blockhash hs
        → Missing l tip (hs ++ h ∷ [])

  walk_back-Missing :
      (l : HeaderList) (fuel tip : ℕ) (hs acc : List BlockHeader)
      → Missing l tip hs
      → length hs < fuel
      → (ws : List BlockHeader) × (walk_back getblockheader fuel l tip acc ≡ ok (acc ++ ws))
        × (reverse ws ≡ hs)
  unfolding walk_back
  walk_back-Missing l zero tip hs acc m enough = absurd (omega arith)
  walk_back-Missing l (suc fuel) _ _ acc at_start enough = ([], ap ok (sym (append-nil acc)), refl)
  walk_back-Missing l (suc fuel) k _ acc (at_known _ known) enough =
      ([], ground (arith, known, append-nil acc), refl)
  walk_back-Missing l (suc fuel) _ _ acc (above tip hs h other unknown got m) enough =
      let (ws, runs, back) =
        walk_back-Missing l fuel h.prev_blockhash hs (acc ++ h ∷ []) m
          (omega (arith, length-append hs (h ∷ []), enough)) in
      (
        h ∷ ws,
        ground (arith, other, unknown, got, runs, append_assoc acc (h ∷ []) ws),
        ap (λ x. x ++ h ∷ []) back,
      )

  -- With fuel for one turn more than there are missing headers, a list that is not empty gets
  -- exactly the headers that lead from a known hash to the daemon's tip, the oldest first.
  pub get_new_headers-Missing :
      (all : ℕ → Result (List BlockHeader)) (l : HeaderList) (fuel tip : ℕ) (hs : List BlockHeader)
      → length l.headers ≢ 0
      → Missing l tip hs
      → length hs < fuel
      → get_new_headers getblockheader all fuel l tip ≡ ok hs
  unfolding get_new_headers
  get_new_headers-Missing all l fuel tip hs more m enough =
      let (ws, runs, back) = walk_back-Missing l fuel tip hs [] m enough in
      ground (arith, more, runs, back)
