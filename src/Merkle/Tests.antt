-- ===== src/Merkle/Tests.antt =====
-- Three transactions in a block, and the theorems at them. The hash of bytes is their sum here.
use electrs_cash.Common.{
  ℕ, ◌+◌, ◌*◌, ◌≤◌, ◌<◌, ◌≡◌, ◌≢◌, refl, some, List, [], ◌∷◌, map, arith, ◌==◌, if◌then◌else◌, ◌⊎◌,
  get_elem?, take, All, ℕ_discrete,
}
use electrs_cash.Errors.{Result, ok, err, msg}
use electrs_cash.HeaderList.{HeaderEntry, HeaderList, header_by_height}
use electrs_cash.HeaderList.Chain.{IsValid}
use electrs_cash.Common.Map.{lookup}
use electrs_cash.Merkle.{create_merkle_branch_and_root, get_merkle_proof, get_header_merkle_proof}
use electrs_cash.Merkle.Branch.{climb, IsRoot, create_merkle_branch_and_root_lem}
use electrs_cash.Merkle.Proofs.{get_merkle_proof_lem, get_header_merkle_proof_lem}

abbrev bytes : ℕ → List ℕ
bytes n = n ∷ []

abbrev hash : List ℕ → ℕ
hash [] = 7
hash (b ∷ r) = b + 3 * hash r

abbrev txids : List ℕ
txids = 5 ∷ 6 ∷ 9 ∷ []

abbrev genesis : HeaderEntry
genesis = record {
  height = 0;
  hash = 1;
  header = record {
    version = 1;
    prev_blockhash = 0;
    merkle_root = 7;
    time = 0;
    bits = 0;
    nonce = 0;
  };
}

abbrev indexed : HeaderList
indexed = record { headers = genesis ∷ []; heights = (1, 0) ∷ [] }

abbrev block_txids : ℕ → Result (List ℕ)
block_txids h = if h == 1 then ok txids else err msg

indexed-IsValid : IsValid indexed
unfolding lookup ℕ_discrete
indexed-IsValid = record { chain = omega arith; recorded = (refl, tt) }

found : header_by_height indexed 0 ≡ ok (some genesis)
unfolding header_by_height
found = refl

create_merkle_branch_and_root_lem_example :
    (branch : List ℕ) × (root : ℕ) × (create_merkle_branch_and_root bytes hash txids 2
      ≡ ok (branch, root))
    × (climb bytes hash 9 2 branch ≡ root)
    × IsRoot bytes hash txids root
create_merkle_branch_and_root_lem_example =
    create_merkle_branch_and_root_lem bytes hash txids 2 9 refl

get_merkle_proof_lem_example :
    ((branch : List ℕ) × (pos : ℕ) × (root : ℕ) × (get_merkle_proof bytes hash block_txids indexed 9
          0
        ≡ ok (branch, pos))
      × (get_elem? txids pos ≡ some 9)
      × (climb bytes hash 9 pos branch ≡ root)
      × IsRoot bytes hash txids root)
    ⊎ (All (λ t. t ≢ 9) txids × (get_merkle_proof bytes hash block_txids indexed 9 0 ≡ err msg))
get_merkle_proof_lem_example =
    get_merkle_proof_lem bytes hash block_txids indexed 9 0 genesis txids found refl

get_header_merkle_proof_lem_example :
    ((0 ≤ 0)
      × (0 < 1)
      × ((branch : List ℕ) × (root : ℕ) × (e : HeaderEntry) × (get_elem? indexed.headers 0 ≡ some e)
          × (get_header_merkle_proof bytes hash indexed 0 0 ≡ ok (branch, root))
          × (climb bytes hash e.hash 0 branch ≡ root)
          × IsRoot bytes hash (map (λ h. h.hash) (take 1 indexed.headers)) root))
    ⊎ (((0 < 0) ⊎ (1 ≤ 0)) × (get_header_merkle_proof bytes hash indexed 0 0 ≡ err msg))
get_header_merkle_proof_lem_example =
    get_header_merkle_proof_lem bytes hash indexed 0 0 indexed-IsValid
