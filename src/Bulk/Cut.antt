-- ===== src/Bulk/Cut.antt =====
-- src/bulk.rs: a block file that ends within a block, as one does that the node is still writing.
use electrs_cash.Common.{
  ℕ, zero, suc, ◌+◌, ◌≤◌, ◌<◌, ◌≡◌, ◌≢◌, refl, sym, ap, ◌∙◌, Option, none, some, List, [], ◌∷◌,
  ◌++◌, arith, length, drop, length-append, Option-cases, inl, inr, ◌↔◌, ◌^◌,
}
use electrs_cash.Errors.{panic}
use electrs_cash.Bulk.{parse_from, parse_blocks}
use electrs_cash.Bulk.Turns.{turn_other, turn_unwritten, turn_body, parse_body_overrun}
use electrs_cash.Bulk.Format.{
  parse_from_stop, parse_from_go, drop_add, after, read_at, within, turn_written,
}

module _ {ℓ} {Block : Type ℓ} (read_u32 : List ℕ → Option ℕ) (encode_u32 : ℕ → List ℕ)
    (deserialize : List ℕ → Option Block) (magic : ℕ) where
  -- The bytes of a block file whose last record has fewer bytes than its size says, but at least the
  -- four of the version, behind any zeros, records without a block and whole blocks.
  pub data Cut : List ℕ → Type ℓ where
    cut_body :
        (size version : ℕ) (more : List ℕ)
        → size < 2 ^ 32
        → version < 2 ^ 32
        → version ≢ magic
        → length (encode_u32 version ++ more) < size
        → Cut (encode_u32 magic ++ (encode_u32 size ++ (encode_u32 version ++ more)))
    padded : (bytes : List ℕ) → Cut bytes → Cut (0 ∷ bytes)
    skipped :
        (size : ℕ) (bytes : List ℕ)
        → size < 2 ^ 32
        → Cut (encode_u32 magic ++ bytes)
        → Cut (encode_u32 magic ++ (encode_u32 size ++ (encode_u32 magic ++ bytes)))
    behind :
        (version : ℕ) (more bytes : List ℕ) (b : Block)
        → version < 2 ^ 32
        → version ≢ magic
        → length (encode_u32 version ++ more) < 2 ^ 32
        → deserialize (encode_u32 version ++ more) ≡ some b
        → Cut bytes
        → Cut (
            encode_u32 magic
            ++ (encode_u32 (length (encode_u32 version ++ more))
                ++ ((encode_u32 version ++ more) ++ bytes)))

  module _ (reads : (n : ℕ) (rest : List ℕ) → n < 2 ^ 32 → read_u32 (encode_u32 n ++ rest) ≡ some n)
      (four : (n : ℕ) → length (encode_u32 n) ≡ 4)
      (short : (xs : List ℕ) → (read_u32 xs ≡ none) ↔ (length xs < 4)) (in_range : magic < 2 ^ 32)
      (no_zero : (xs : List ℕ) → read_u32 (0 ∷ xs) ≢ some magic) where
    next_number :
        (blob : List ℕ) (o n : ℕ) (rest : List ℕ)
        → drop o blob ≡ encode_u32 n ++ rest
        → drop (o + 4) blob ≡ rest
    next_number = after read_u32 encode_u32 deserialize magic reads four short in_range no_zero

    number_at :
        (blob : List ℕ) (o n : ℕ) (rest : List ℕ)
        → n < 2 ^ 32
        → drop o blob ≡ encode_u32 n ++ rest
        → read_u32 (drop o blob) ≡ some n
    number_at = read_at read_u32 encode_u32 deserialize magic reads four short in_range no_zero

    room :
        (blob : List ℕ) (o n : ℕ) (rest : List ℕ)
        → drop o blob ≡ encode_u32 n ++ rest
        → o + 4 + length rest ≡ length blob
    room = within read_u32 encode_u32 deserialize magic reads four short in_range no_zero

    two_numbers : (a b : ℕ) (rest : List ℕ) → 8 ≤ length (encode_u32 a ++ (encode_u32 b ++ rest))
    two_numbers a b rest = omega (
      arith,
      length-append (encode_u32 a) (encode_u32 b ++ rest),
      length-append (encode_u32 b) rest,
      four a,
      four b,
    )

    length-Cut : (bytes : List ℕ) → Cut bytes → 8 ≤ length bytes
    length-Cut _ (cut_body size version more _ _ _ _) =
        two_numbers magic size (encode_u32 version ++ more)
    length-Cut _ (padded bytes c) = omega (arith, length-Cut bytes c)
    length-Cut _ (skipped size bytes _ _) = two_numbers magic size (encode_u32 magic ++ bytes)
    length-Cut _ (behind version more bytes b _ _ _ _ _) =
        two_numbers magic (length (encode_u32 version ++ more))
          ((encode_u32 version ++ more) ++ bytes)

    parse_from-Cut :
        (rest : List ℕ) (fuel : ℕ) (blob : List ℕ) (o : ℕ) (acc : List Block)
        → Cut rest
        → drop o blob ≡ rest
        → o + length rest ≡ length blob
        → length rest < fuel
        → parse_from read_u32 deserialize magic fuel blob o acc ≡ some panic
    parse_from-Cut rest zero blob o acc c at total enough = absurd (omega arith)
    parse_from-Cut _ (suc fuel) blob o acc (cut_body size version more small low other over) at
          total enough =
        let at_size = next_number blob o magic _ at in
        let at_body : drop (o + 8) blob ≡ encode_u32 version ++ more =
          ap (λ (k : ℕ). drop k blob) (omega arith) ∙ next_number blob (o + 4) size _ at_size in
        let fits = room blob (o + 4) size _ at_size in
        parse_from_stop read_u32 encode_u32 deserialize magic fuel blob o acc panic (
          turn_body read_u32 deserialize magic blob o acc size (omega (arith, fits))
            (number_at blob o magic _ in_range at) (number_at blob (o + 4) size _ small at_size)
            version (number_at blob (o + 8) version more low at_body) other
          ∙ parse_body_overrun read_u32 deserialize magic blob (o + 8) (o + 8 + size) acc
              (omega (arith, fits, over)))
    parse_from-Cut _ (suc fuel) blob o acc (padded bytes c) at total enough =
        let long = length-Cut bytes c in
        elim (Option-cases (read_u32 (drop o blob))) [
          | inl none_read ↦
              absurd (omega (arith, ap length at, (short (drop o blob)).0 none_read, long))
          | inr (v, some_read) ↦
              let other : v ≢ magic = λ same.
                no_zero bytes (sym (ap read_u32 at) ∙ some_read ∙ ap (λ (k : ℕ). some k) same) in
              let next : drop (o + 1) blob ≡ bytes = drop_add o 1 blob ∙ ap (drop 1) at in
              parse_from_go read_u32 encode_u32 deserialize magic fuel blob o (o + 1) acc acc (
                turn_other read_u32 deserialize magic blob o acc v (omega (arith, total)) some_read
                  other)
              ∙ parse_from-Cut bytes fuel blob (o + 1) acc c next (omega (arith, total))
                  (omega arith)
        ]
    parse_from-Cut _ (suc fuel) blob o acc (skipped size bytes small c) at total enough =
        let at_size = next_number blob o magic _ at in
        let at_next : drop (o + 8) blob ≡ encode_u32 magic ++ bytes =
          ap (λ (k : ℕ). drop k blob) (omega arith) ∙ next_number blob (o + 4) size _ at_size in
        let fits = room blob (o + 4) size _ at_size in
        let whole = room blob o magic _ at in
        parse_from_go read_u32 encode_u32 deserialize magic fuel blob o (o + 8) acc acc (
          turn_unwritten read_u32 deserialize magic blob o acc size (omega (arith, fits))
            (number_at blob o magic _ in_range at) (number_at blob (o + 4) size _ small at_size)
            (number_at blob (o + 8) magic _ in_range at_next))
        ∙ parse_from-Cut (encode_u32 magic ++ bytes) fuel blob (o + 8) acc c at_next
            (omega (arith, fits)) (omega (arith, fits, whole, total, enough))
    parse_from-Cut _ (suc fuel) blob o acc
          (behind version more bytes b small other size_small parses c) at total enough =
        let body : List ℕ = encode_u32 version ++ more in
        let (turned, next) =
          turn_written read_u32 encode_u32 deserialize magic reads four short in_range no_zero blob
            o acc version more bytes b small other size_small parses at in
        let whole = room blob o magic _ at in
        let fits = room blob (o + 4) (length body) _ (next_number blob o magic _ at) in
        let joined = length-append body bytes in
        parse_from_go read_u32 encode_u32 deserialize magic fuel blob o (o + 8 + length body) acc
          (acc ++ b ∷ []) turned
        ∙ parse_from-Cut bytes fuel blob (o + 8 + length body) (acc ++ b ∷ []) c next
            (omega (arith, fits, joined)) (omega (arith, fits, whole, total, enough, joined))

    -- A file of the node's records whose last one is cut off, after at least the four bytes of its
    -- version, is a panic of `parse_blocks` and not an error, however many whole blocks are before
    -- it: these are not returned. The decoder is assumed to read back four bytes, and no four bytes
    -- that begin with a zero are the magic number.
    pub parse_blocks-Cut :
        (blob : List ℕ) → Cut blob → parse_blocks read_u32 deserialize magic blob ≡ some panic
    unfolding parse_blocks
    parse_blocks-Cut blob c =
        parse_from-Cut blob (suc (length blob)) blob 0 [] c refl (omega arith) (omega arith)
