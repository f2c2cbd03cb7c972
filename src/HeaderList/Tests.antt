-- ===== src/HeaderList/Tests.antt =====
-- Concrete header lists: the reorganisation of `test_headers`, and the theorems at it.
use electrs_cash.Common.{ℕ, ◌+◌, ◌*◌, ◌≡◌, refl, none, some, [], ◌∷◌, ◌++◌, arith, take, ℕ_discrete}
use electrs_cash.Common.Map.{lookup, insert}
use electrs_cash.Errors.{ok, panic}
use electrs_cash.HeaderList.{
  BlockHeader, HeaderEntry, HeaderList, empty, tiphash, header_by_blockhash, header_by_height,
  hashed_linked, hash_headers, number_from, new_height, order_hashed, order, entries_linked,
  expected_prev_blockhash, kept_height, push_all, is_recorded, is_empty_list, apply,
}
use electrs_cash.HeaderList.Chain.{IsValid, ChainFrom}
use electrs_cash.HeaderList.Apply.{apply_chain, apply-IsValid}
use electrs_cash.HeaderList.Order.{apply-order}

program : Unit {0}
unfolding lookup insert empty tiphash header_by_blockhash header_by_height hashed_linked
    hash_headers number_from new_height order_hashed order entries_linked expected_prev_blockhash
    kept_height push_all is_recorded is_empty_list apply ℕ_discrete
program = tt

abbrev header : ℕ → ℕ → BlockHeader
header prev nonce = record {
  version = 1;
  prev_blockhash = prev;
  merkle_root = 7;
  time = 0;
  bits = 0;
  nonce = nonce;
}

abbrev block_hash : BlockHeader → ℕ
block_hash h = 1 + h.prev_blockhash * 10 + h.nonce

abbrev entry : ℕ → ℕ → ℕ → HeaderEntry
entry height prev nonce = record {
  height = height;
  hash = block_hash (header prev nonce);
  header = header prev nonce;
}

abbrev three : HeaderList
three = record {
  headers = entry 0 0 0 ∷ entry 1 1 0 ∷ entry 2 11 0 ∷ [];
  heights = (1, 0) ∷ (11, 1) ∷ (111, 2) ∷ [];
}

abbrev reorganised : HeaderList
reorganised = record {
  headers = entry 0 0 0 ∷ entry 1 1 0 ∷ entry 2 11 1 ∷ [];
  heights = (1, 0) ∷ (11, 1) ∷ (111, 2) ∷ (112, 2) ∷ [];
}

three-IsValid : IsValid three
unfolding program
three-IsValid = record { chain = omega arith; recorded = (refl, (refl, (refl, tt))) }

order_three : order block_hash empty (header 0 0 ∷ header 1 0 ∷ header 11 0 ∷ []) ≡ ok three.headers
unfolding program
order_three = refl

apply-three : apply empty three.headers 111 ≡ ok three
unfolding program
apply-three = refl

order_reorganised : order block_hash three (header 11 1 ∷ []) ≡ ok (entry 2 11 1 ∷ [])
unfolding program
order_reorganised = refl

apply-reorganised : apply three (entry 2 11 1 ∷ []) 112 ≡ ok reorganised
unfolding program
apply-reorganised = refl

-- The old tip is still recorded, and is no longer found.
dropped_tip : header_by_blockhash reorganised 111 ≡ none
unfolding program
dropped_tip = refl

-- Trimming to a tip that was dropped before panics.
trim_to_dropped : apply reorganised [] 111 ≡ panic
unfolding program
trim_to_dropped = refl

apply-order_example :
    (l' : HeaderList) × (n : ℕ) × (apply three (entry 2 11 1 ∷ []) 112 ≡ ok l')
    × (l'.headers ≡ take n three.headers ++ (entry 2 11 1 ∷ []))
    × ChainFrom 0 0 l'.headers
    × (tiphash l' ≡ 112)
apply-order_example =
    apply-order block_hash three (header 11 1 ∷ []) (entry 2 11 1 ∷ []) (entry 2 11 1) three-IsValid
      order_reorganised refl (omega arith)

apply-IsValid_example : IsValid reorganised
apply-IsValid_example =
    apply-IsValid three (entry 2 11 1 ∷ []) 112 three-IsValid apply-reorganised (omega arith)

apply_chain_example :
    (n : ℕ) × (reorganised.headers ≡ take n three.headers ++ (entry 2 11 1 ∷ []))
    × ChainFrom 0 0 reorganised.headers
    × (tiphash reorganised ≡ 112)
apply_chain_example = apply_chain three (entry 2 11 1 ∷ []) 112 three-IsValid apply-reorganised

found : header_by_blockhash reorganised 112 ≡ some (entry 2 11 1)
unfolding program
found = refl
