-- ===== src/Bulk/Turns.antt =====
-- src/bulk.rs: the turns of the loop of `parse_blocks`, and that they end.
use electrs_cash.Common.{
  ℕ, zero, suc, ◌+◌, ◌-◌, ◌≤◌, ◌<◌, ◌≡◌, ◌≢◌, refl, Option, none, some, List, [], ◌∷◌, ◌++◌, arith,
  length, take, drop, ◌⊎◌, inl, inr,
}
use electrs_cash.Errors.{Result, ok, panic}
use electrs_cash.Bulk.{Turn, stop, continue, slice, parse_body, turn, parse_from, parse_blocks}

Turn-cases {ℓ} :
    {Block : Type ℓ} (t : Turn Block)
    → ((result : Result (List Block)) × (t ≡ stop result))
      ⊎ ((p : ℕ) × (bs : List Block) × (t ≡ continue p bs))
Turn-cases (stop result) = inl (result, refl)
Turn-cases (continue p bs) = inr (p, bs, refl)

module _ {ℓ} {Block : Type ℓ} (read_u32 : List ℕ → Option ℕ) (deserialize : List ℕ → Option Block)
    (magic : ℕ) where
  pub turn_at_end :
      (blob : List ℕ) (o : ℕ) (bs : List Block)
      → length blob ≤ o
      → turn read_u32 deserialize magic blob o bs ≡ stop (ok bs)
  unfolding turn
  turn_at_end blob o bs out = ground arith

  pub turn_short :
      (blob : List ℕ) (o : ℕ) (bs : List Block)
      → read_u32 (drop o blob) ≡ none
      → turn read_u32 deserialize magic blob o bs ≡ stop (ok bs)
  unfolding turn
  turn_short blob o bs short = ground (arith, short)

  pub turn_other :
      (blob : List ℕ) (o : ℕ) (bs : List Block) (v : ℕ)
      → o < length blob
      → read_u32 (drop o blob) ≡ some v
      → v ≢ magic
      → turn read_u32 deserialize magic blob o bs ≡ continue (o + 1) bs
  unfolding turn
  turn_other blob o bs v within reads other = ground (arith, within, reads, other)

  module _ (blob : List ℕ) (o : ℕ) (bs : List Block) (size : ℕ) (within : o < length blob)
      (reads : read_u32 (drop o blob) ≡ some magic)
      (sized : read_u32 (drop (o + 4) blob) ≡ some size) where
    pub turn_unwritten :
        read_u32 (drop (o + 8) blob) ≡ some magic
        → turn read_u32 deserialize magic blob o bs ≡ continue (o + 8) bs
    unfolding turn
    turn_unwritten again = ground (arith, within, reads, sized, again)

    pub turn_cut :
        read_u32 (drop (o + 8) blob) ≡ none
        → turn read_u32 deserialize magic blob o bs ≡ stop (ok bs)
    unfolding turn
    turn_cut cut = ground (arith, within, reads, sized, cut)

    pub turn_body :
        (version : ℕ)
        → read_u32 (drop (o + 8) blob) ≡ some version
        → version ≢ magic
        → turn read_u32 deserialize magic blob o bs
          ≡ parse_body read_u32 deserialize magic blob (o + 8) (o + 8 + size) bs
    unfolding turn
    turn_body version there other = ground (arith, within, reads, sized, there, other)

  pub parse_body_block :
      (blob : List ℕ) (o n : ℕ) (bs : List Block) (b : Block)
      → n ≤ length blob
      → deserialize (take (n - o) (drop o blob)) ≡ some b
      → parse_body read_u32 deserialize magic blob o n bs ≡ continue n (bs ++ b ∷ [])
  unfolding parse_body slice
  parse_body_block blob o n bs b within parses = ground (arith, within, parses)

  pub parse_body_overrun :
      (blob : List ℕ) (o n : ℕ) (bs : List Block)
      → length blob < n
      → parse_body read_u32 deserialize magic blob o n bs ≡ stop panic
  unfolding parse_body slice
  parse_body_overrun blob o n bs over = ground (arith, over)

  parse_body_forward :
      (blob : List ℕ) (o n : ℕ) (bs : List Block) {p : ℕ} {cs : List Block}
      → parse_body read_u32 deserialize magic blob o n bs ≡ continue p cs
      → p ≡ n
  unfolding parse_body slice
  parse_body_forward blob o n bs h = ground arith

  -- A turn that goes on goes on from a later position.
  turn_forward :
      (blob : List ℕ) (o : ℕ) (bs : List Block) {p : ℕ} {cs : List Block}
      → turn read_u32 deserialize magic blob o bs ≡ continue p cs
      → (o < p) × (o < length blob)
  unfolding turn
  turn_forward blob o bs h = grind (arith, h, parse_body_forward)

  pub parse_from_total :
      (fuel : ℕ) (blob : List ℕ) (o : ℕ) (bs : List Block)
      → length blob - o < fuel
      → (result : Result (List Block)) × (parse_from read_u32 deserialize magic fuel blob o bs
          ≡ some result)
  unfolding parse_from
  parse_from_total zero blob o bs enough = absurd (omega arith)
  parse_from_total (suc fuel) blob o bs enough =
      elim (Turn-cases (turn read_u32 deserialize magic blob o bs)) [
        | inl (result, stops) ↦ (result, ground (arith, stops))
        | inr (p, cs, goes) ↦
            let forward = turn_forward blob o bs goes in
            let (result, done) =
              parse_from_total fuel blob p cs (omega (arith, forward.0, forward.1)) in
            (result, ground (arith, goes, done))
      ]

  -- The loop of `parse_blocks` ends on every blob: the fuel of one turn per byte and one more is
  -- enough, whatever the bytes are and however the two decoders answer.
  pub parse_blocks_total :
      (blob : List ℕ)
      → (result : Result (List Block)) × (parse_blocks read_u32 deserialize magic blob
          ≡ some result)
  unfolding parse_blocks
  parse_blocks_total blob = parse_from_total (suc (length blob)) blob 0 [] (omega arith)
