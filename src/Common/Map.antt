-- ===== src/Common/Map.antt =====
-- A hash map as an association list with distinct keys. The iteration order of the program's maps
-- is unspecified; the list gives one such order.
use electrs_cash.Common.Sums.{sum_by}
use Prim.Native.Nat.{ℕ, ◌+◌, ◌≤◌}
use mathlib.Core.Path.{◌≡◌, refl}
use mathlib.Core.Logic.{ite, if_pos, if_neg}
use electrs_cash.Common.Lists.{All}
use mathlib.Core.List.{List, [], ◌∷◌}
use mathlib.Core.Option.{Option, none, some}
use native.Mathlib.Omega.{arith}

module _ {ℓ} {K V : Type ℓ} (dec : Discrete K) where
  unfoldable pub lookup : K → List (K × V) → Option V
  lookup k [] = none
  lookup k ((j, v) ∷ m) = ite (dec j k) (some v) (lookup k m)

  unfoldable pub insert : K → V → List (K × V) → List (K × V)
  insert k v [] = (k, v) ∷ []
  insert k v ((j, w) ∷ m) = ite (dec j k) ((k, v) ∷ m) ((j, w) ∷ insert k v m)

  unfoldable pub remove : K → List (K × V) → List (K × V)
  remove k [] = []
  remove k ((j, w) ∷ m) = ite (dec j k) (remove k m) ((j, w) ∷ remove k m)

  -- No key stands twice.
  abbrev pub Distinct : List (K × V) → Type ℓ
  Distinct [] = Unit
  Distinct ((k, v) ∷ m) = (lookup k m ≡ none) × Distinct m

  pub lookup-insert :
      (k j : K) (v : V) (m : List (K × V))
      → lookup j (insert k v m) ≡ ite (dec k j) (some v) (lookup j m)
  unfolding lookup insert
  lookup-insert k j v [] = refl
  lookup-insert k j v ((i, w) ∷ m) = ground (arith, lookup-insert k j v m)

  pub lookup-remove :
      (k j : K) (m : List (K × V)) → lookup j (remove k m) ≡ ite (dec k j) none (lookup j m)
  unfolding lookup remove
  lookup-remove k j [] = ground arith
  lookup-remove k j ((i, w) ∷ m) = ground (arith, lookup-remove k j m)

  pub insert-Distinct : (k : K) (v : V) (m : List (K × V)) → Distinct m → Distinct (insert k v m)
  unfolding lookup insert
  insert-Distinct k v [] d = (refl, d)
  insert-Distinct k v ((j, w) ∷ m) d = ground (arith, insert-Distinct k v m, lookup-insert k j v m)

  pub remove-Distinct : (k : K) (m : List (K × V)) → Distinct m → Distinct (remove k m)
  unfolding lookup remove
  remove-Distinct k [] d = d
  remove-Distinct k ((j, w) ∷ m) d = ground (arith, remove-Distinct k m, lookup-remove k j m)

  pub remove_absent : (k : K) (m : List (K × V)) → lookup k m ≡ none → remove k m ≡ m
  unfolding lookup remove
  remove_absent k [] h = refl
  remove_absent k ((j, w) ∷ m) h = ground (arith, remove_absent k m)

  module _ (f : K × V → ℕ) where
    pub sum_by-insert_new :
        (k : K) (v : V) (m : List (K × V))
        → lookup k m ≡ none
        → sum_by f (insert k v m) ≡ f (k, v) + sum_by f m
    unfolding lookup insert
    sum_by-insert_new k v [] h = refl
    sum_by-insert_new k v ((j, w) ∷ m) h = ground (arith, sum_by-insert_new k v m)

    pub sum_by-insert_old :
        (k : K) (v u : V) (m : List (K × V))
        → lookup k m ≡ some u
        → sum_by f (insert k v m) + f (k, u) ≡ f (k, v) + sum_by f m
    unfolding lookup insert
    sum_by-insert_old k v u [] h = ground arith
    sum_by-insert_old k v u ((j, w) ∷ m) h = ground (arith, sum_by-insert_old k v u m)

    pub sum_by-remove :
        (k : K) (u : V) (m : List (K × V))
        → Distinct m
        → lookup k m ≡ some u
        → sum_by f (remove k m) + f (k, u) ≡ sum_by f m
    unfolding lookup remove
    sum_by-remove k u [] d h = ground arith
    sum_by-remove k u ((j, w) ∷ m) d h = ground (arith, sum_by-remove k u m, remove_absent k m)

    pub sum_by_of_lookup :
        (k : K) (u : V) (m : List (K × V)) → lookup k m ≡ some u → f (k, u) ≤ sum_by f m
    unfolding lookup
    sum_by_of_lookup k u [] h = ground arith
    sum_by_of_lookup k u ((j, w) ∷ m) h = ground (arith, sum_by_of_lookup k u m)

  pub All-insert {κ} :
      (P : K × V → Type κ) (k : K) (v : V) (m : List (K × V))
      → P (k, v)
      → All P m
      → All P (insert k v m)
  unfolding insert
  All-insert P k v [] p a = (p, tt)
  All-insert P k v ((j, w) ∷ m) p a = elim (dec j k) [
    | yes same ↦ rw (if_pos (dec j k) same) (p, a.1)
    | no other ↦ rw (if_neg (dec j k) other) (a.0, All-insert P k v m p a.1)
  ]

  pub lookup-insert_self : (k : K) (v : V) (m : List (K × V)) → lookup k (insert k v m) ≡ some v
  lookup-insert_self k v m = ground (arith, lookup-insert k k v m)

  pub All_lookup {κ} :
      (P : K × V → Type κ) (k : K) (v : V) (m : List (K × V))
      → All P m
      → lookup k m ≡ some v
      → P (k, v)
  unfolding lookup
  All_lookup P k v [] a h = absurd (ground arith)
  All_lookup P k v ((j, w) ∷ m) a h = elim (dec j k) [
    | yes same ↦ let value : w ≡ v = ground (arith, same) in rw (← same, ← value) a.0
    | no other ↦ All_lookup P k v m a.1 (ground (arith, other))
  ]
