-- ===== src/Bulk/Format.antt =====
-- src/bulk.rs: the block files as the node writes them, and what `parse_blocks` reads from them.
use electrs_cash.Common.{
  ℕ, zero, suc, ◌+◌, ◌-◌, ◌^◌, ◌<◌, ◌≡◌, ◌≢◌, refl, sym, ap, ◌∙◌, Option, none, some, List, [], ◌∷◌,
  ◌++◌, arith, length, take, drop, length-append, length-drop, take-append_length,
  drop-append_length, Option-cases, inl, inr, ◌↔◌,
}
use mathlib.Core.List.{append-nil, append_assoc}
use electrs_cash.Errors.{Result, ok}
use electrs_cash.Bulk.{stop, continue, turn, parse_from, parse_blocks}
use electrs_cash.Bulk.Turns.{
  turn_at_end, turn_short, turn_other, turn_unwritten, turn_cut, turn_body, parse_body_block,
}

drop_nil {ℓ} : {A : Type ℓ} (n : ℕ) → drop {A = A} n [] ≡ []
drop_nil zero = refl
drop_nil (suc n) = refl

pub drop_add {ℓ} : {A : Type ℓ} (a b : ℕ) (xs : List A) → drop (a + b) xs ≡ drop b (drop a xs)
drop_add zero b xs = ap (λ (k : ℕ). drop k xs) (omega arith)
drop_add (suc a) b [] = drop_nil (suc a + b) ∙ sym (drop_nil b)
drop_add (suc a) b (x ∷ xs) =
    let later : suc a + b ≡ suc (a + b) = omega arith in
    ap (λ (k : ℕ). drop k (x ∷ xs)) later ∙ drop_add a b xs

module _ {ℓ} {Block : Type ℓ} (read_u32 : List ℕ → Option ℕ) (encode_u32 : ℕ → List ℕ)
    (deserialize : List ℕ → Option Block) (magic : ℕ) where
  -- The bytes of a block file and the blocks in it, oldest first. Between the records the file may
  -- hold zeros; a record whose block was never written holds the magic number and the size only.
  pub data Records : List ℕ → List Block → Type ℓ where
    at_end : Records [] []
    padding : (bytes : List ℕ) (bs : List Block) → Records bytes bs → Records (0 ∷ bytes) bs
    unwritten :
        (size : ℕ) (bytes : List ℕ) (bs : List Block)
        → size < 2 ^ 32
        → Records (encode_u32 magic ++ bytes) bs
        → Records (encode_u32 magic ++ (encode_u32 size ++ (encode_u32 magic ++ bytes))) bs
    unwritten_last :
        (size : ℕ) → size < 2 ^ 32 → Records (encode_u32 magic ++ (encode_u32 size ++ [])) []
    written :
        (version : ℕ) (more bytes : List ℕ) (b : Block) (bs : List Block)
        → version < 2 ^ 32
        → version ≢ magic
        → length (encode_u32 version ++ more) < 2 ^ 32
        → deserialize (encode_u32 version ++ more) ≡ some b
        → Records bytes bs
        → Records
            (encode_u32 magic
              ++ (encode_u32 (length (encode_u32 version ++ more))
                  ++ ((encode_u32 version ++ more) ++ bytes)))
            (b ∷ bs)

  pub parse_from_stop :
      (fuel : ℕ) (blob : List ℕ) (o : ℕ) (bs : List Block) (result : Result (List Block))
      → turn read_u32 deserialize magic blob o bs ≡ stop result
      → parse_from read_u32 deserialize magic (suc fuel) blob o bs ≡ some result
  unfolding parse_from
  parse_from_stop fuel blob o bs result stops = ground (arith, stops)

  pub parse_from_go :
      (fuel : ℕ) (blob : List ℕ) (o p : ℕ) (bs cs : List Block)
      → turn read_u32 deserialize magic blob o bs ≡ continue p cs
      → parse_from read_u32 deserialize magic (suc fuel) blob o bs
        ≡ parse_from read_u32 deserialize magic fuel blob p cs
  unfolding parse_from
  parse_from_go fuel blob o p bs cs goes = ground (arith, goes)

  module _ (reads : (n : ℕ) (rest : List ℕ) → n < 2 ^ 32 → read_u32 (encode_u32 n ++ rest) ≡ some n)
      (four : (n : ℕ) → length (encode_u32 n) ≡ 4)
      (short : (xs : List ℕ) → (read_u32 xs ≡ none) ↔ (length xs < 4)) (in_range : magic < 2 ^ 32)
      (no_zero : (xs : List ℕ) → read_u32 (0 ∷ xs) ≢ some magic) where
    -- A file that is too short for a record has no blocks.
    Records-short :
        (bytes : List ℕ) (bs : List Block) → Records bytes bs → length bytes < 8 → bs ≡ []
    Records-short _ _ at_end few = refl
    Records-short _ bs (padding bytes _ r) few = Records-short bytes bs r (omega arith)
    Records-short _ bs (unwritten size bytes _ _ r) few = absurd (
        omega (
          arith,
          length-append (encode_u32 magic) (encode_u32 size ++ (encode_u32 magic ++ bytes)),
          length-append (encode_u32 size) (encode_u32 magic ++ bytes),
          length-append (encode_u32 magic) bytes,
          four magic,
          four size,
        ))
    Records-short _ _ (unwritten_last size _) few = refl
    Records-short _ _ (written version more bytes b bs _ _ _ _ r) few =
        let size : ℕ = length (encode_u32 version ++ more) in
        absurd (
          omega (
            arith,
            length-append (encode_u32 magic)
                (encode_u32 size ++ ((encode_u32 version ++ more) ++ bytes)),
            length-append (encode_u32 size) ((encode_u32 version ++ more) ++ bytes),
            four magic,
            four size,
          ))

    -- Reading at the end of a blob gives nothing.
    nothing : (v : ℕ) → read_u32 [] ≢ some v
    nothing v h = ground (arith, (short []).1 (omega arith), h)

    -- The place of a number, its bytes, and what follows it.
    pub after :
        (blob : List ℕ) (o n : ℕ) (rest : List ℕ)
        → drop o blob ≡ encode_u32 n ++ rest
        → drop (o + 4) blob ≡ rest
    after blob o n rest at =
        drop_add o 4 blob ∙ ap (drop 4) at ∙ drop-append_length 4 (encode_u32 n) rest (four n)

    pub read_at :
        (blob : List ℕ) (o n : ℕ) (rest : List ℕ)
        → n < 2 ^ 32
        → drop o blob ≡ encode_u32 n ++ rest
        → read_u32 (drop o blob) ≡ some n
    read_at blob o n rest small at = rw at (reads n rest small)

    pub within :
        (blob : List ℕ) (o n : ℕ) (rest : List ℕ)
        → drop o blob ≡ encode_u32 n ++ rest
        → o + 4 + length rest ≡ length blob
    within blob o n rest at =
        omega (
          arith,
          sym (length-drop o blob) ∙ ap length at ∙ length-append (encode_u32 n) rest,
          four n,
        )

    -- What the loop gives on the rest of the blob.
    abbrev Parses : ℕ → List ℕ → ℕ → List Block → List Block → Type ℓ
    Parses fuel blob o acc bs =
        parse_from read_u32 deserialize magic fuel blob o acc ≡ some (ok (acc ++ bs))

    stops_here :
        (fuel : ℕ) (blob : List ℕ) (o : ℕ) (acc : List Block)
        → turn read_u32 deserialize magic blob o acc ≡ stop (ok acc)
        → Parses (suc fuel) blob o acc []
    stops_here fuel blob o acc stops =
        parse_from_stop fuel blob o acc (ok acc) stops
        ∙ ap (λ (x : List Block). some (ok x)) (sym (append-nil acc))

    goes_on :
        (fuel : ℕ) (blob : List ℕ) (o p : ℕ) (acc cs bs : List Block)
        → turn read_u32 deserialize magic blob o acc ≡ continue p cs
        → parse_from read_u32 deserialize magic fuel blob p cs ≡ some (ok (acc ++ bs))
        → Parses (suc fuel) blob o acc bs
    goes_on fuel blob o p acc cs bs goes rest = parse_from_go fuel blob o p acc cs goes ∙ rest

    -- A block's record at the position takes the loop to the record's end.
    pub turn_written :
        (blob : List ℕ) (o : ℕ) (acc : List Block) (version : ℕ) (more bytes : List ℕ) (b : Block)
        → version < 2 ^ 32
        → version ≢ magic
        → length (encode_u32 version ++ more) < 2 ^ 32
        → deserialize (encode_u32 version ++ more) ≡ some b
        → drop o blob
          ≡ encode_u32 magic
            ++ (encode_u32 (length (encode_u32 version ++ more))
                ++ ((encode_u32 version ++ more) ++ bytes))
        → (turn read_u32 deserialize magic blob o acc
            ≡ continue (o + 8 + length (encode_u32 version ++ more)) (acc ++ b ∷ []))
          × (drop (o + 8 + length (encode_u32 version ++ more)) blob ≡ bytes)
    turn_written blob o acc version more bytes b small other size_small parses at =
        let body : List ℕ = encode_u32 version ++ more in
        let size : ℕ = length body in
        let at_size = after blob o magic _ at in
        let at_body : drop (o + 8) blob ≡ body ++ bytes =
          ap (λ (k : ℕ). drop k blob) (omega arith) ∙ after blob (o + 4) size _ at_size in
        let fits = within blob (o + 4) size _ at_size in
        let there : read_u32 (drop (o + 8) blob) ≡ some version =
          ap read_u32 (at_body ∙ append_assoc (encode_u32 version) more bytes)
          ∙ reads version (more ++ bytes) small in
        let whole : take (o + 8 + size - (o + 8)) (drop (o + 8) blob) ≡ body =
          ap (λ (k : ℕ). take k (drop (o + 8) blob)) (omega arith)
          ∙ ap (take size) at_body
          ∙ take-append_length size body bytes refl in
        (
          turn_body read_u32 deserialize magic blob o acc size (omega (arith, fits))
                (read_at blob o magic _ in_range at)
                (read_at blob (o + 4) size _ size_small at_size) version there other
              ∙ parse_body_block read_u32 deserialize magic blob (o + 8) (o + 8 + size) acc b
                  (omega (arith, fits, length-append body bytes)) (ap deserialize whole ∙ parses),
          drop_add (o + 8) size blob
              ∙ ap (drop size) at_body
              ∙ drop-append_length size body bytes refl,
        )

    parse_from-Records :
        (rest : List ℕ) (bs : List Block) (fuel : ℕ) (blob : List ℕ) (o : ℕ) (acc : List Block)
        → Records rest bs
        → drop o blob ≡ rest
        → o + length rest ≡ length blob
        → length rest < fuel
        → Parses fuel blob o acc bs
    parse_from-Records rest bs zero blob o acc r at total enough = absurd (omega arith)
    parse_from-Records _ _ (suc fuel) blob o acc at_end at total enough =
        stops_here fuel blob o acc
          (turn_at_end read_u32 deserialize magic blob o acc (omega (arith, total)))
    parse_from-Records _ bs (suc fuel) blob o acc (padding bytes _ r) at total enough =
        elim (Option-cases (read_u32 (drop o blob))) as (λ _. Parses (suc fuel) blob o acc bs) [
          | inl none_read ↦
              let few : length bytes < 8 =
                omega (arith, ap length at, (short (drop o blob)).0 none_read) in
              rw (Records-short bytes bs r few) (
                stops_here fuel blob o acc
                  (turn_short read_u32 deserialize magic blob o acc none_read))
          | inr (v, some_read) ↦
              let other : v ≢ magic = λ same.
                no_zero bytes (sym (ap read_u32 at) ∙ some_read ∙ ap (λ (k : ℕ). some k) same) in
              let next : drop (o + 1) blob ≡ bytes = drop_add o 1 blob ∙ ap (drop 1) at in
              goes_on fuel blob o (o + 1) acc acc bs
                (turn_other read_u32 deserialize magic blob o acc v (omega (arith, total)) some_read
                  other)
                (parse_from-Records bytes bs fuel blob (o + 1) acc r next (omega (arith, total))
                  (omega arith))
        ]
    parse_from-Records _ bs (suc fuel) blob o acc (unwritten size bytes _ small r) at total enough =
        let at_size = after blob o magic _ at in
        let at_next : drop (o + 8) blob ≡ encode_u32 magic ++ bytes =
          ap (λ (k : ℕ). drop k blob) (omega arith) ∙ after blob (o + 4) size _ at_size in
        let fits = within blob (o + 4) size _ at_size in
        let whole = within blob o magic _ at in
        goes_on fuel blob o (o + 8) acc acc bs
          (turn_unwritten read_u32 deserialize magic blob o acc size (omega (arith, fits))
            (read_at blob o magic _ in_range at) (read_at blob (o + 4) size _ small at_size)
            (read_at blob (o + 8) magic _ in_range at_next))
          (parse_from-Records (encode_u32 magic ++ bytes) bs fuel blob (o + 8) acc r at_next
            (omega (arith, fits)) (omega (arith, fits, whole, total, enough)))
    parse_from-Records _ _ (suc fuel) blob o acc (unwritten_last size small) at total enough =
        let at_size = after blob o magic _ at in
        let at_next : drop (o + 8) blob ≡ [] =
          ap (λ (k : ℕ). drop k blob) (omega arith) ∙ after blob (o + 4) size _ at_size in
        let fits = within blob (o + 4) size _ at_size in
        elim (Option-cases (read_u32 (drop (o + 8) blob)))
          as (λ _. Parses (suc fuel) blob o acc []) [
            | inl none_read ↦ stops_here fuel blob o acc (
                turn_cut read_u32 deserialize magic blob o acc size (omega (arith, fits))
                  (read_at blob o magic _ in_range at) (read_at blob (o + 4) size _ small at_size)
                  none_read)
            | inr (v, some_read) ↦ absurd (nothing v (sym (ap read_u32 at_next) ∙ some_read))
          ]
    parse_from-Records _ _ (suc fuel) blob o acc
          (written version more bytes b bs small other size_small parses r) at total enough =
        let body : List ℕ = encode_u32 version ++ more in
        let (turned, next) =
          turn_written blob o acc version more bytes b small other size_small parses at in
        let whole = within blob o magic _ at in
        let fits = within blob (o + 4) (length body) _ (after blob o magic _ at) in
        let joined = length-append body bytes in
        goes_on fuel blob o (o + 8 + length body) acc (acc ++ b ∷ []) (b ∷ bs) turned (
          parse_from-Records bytes bs fuel blob (o + 8 + length body) (acc ++ b ∷ []) r next
            (omega (arith, fits, joined)) (omega (arith, fits, whole, total, enough, joined))
          ∙ ap (λ (x : List Block). some (ok x)) (append_assoc acc (b ∷ []) bs))

    -- From a file of the node's records `parse_blocks` returns exactly the blocks written, in their
    -- order: zeros between the records and records without a block are skipped. The decoder is
    -- assumed to read back four bytes, and no four bytes that begin with a zero are the magic number.
    pub parse_blocks-Records :
        (blob : List ℕ) (bs : List Block)
        → Records blob bs
        → parse_blocks read_u32 deserialize magic blob ≡ some (ok bs)
    unfolding parse_blocks
    parse_blocks-Records blob bs r =
        parse_from-Records blob bs (suc (length blob)) blob 0 [] r refl (omega arith) (omega arith)
