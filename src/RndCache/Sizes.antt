-- ===== src/RndCache/Sizes.antt =====
-- src/rndcache.rs: what a removal by `swap_remove` does to the sum of a measure.
use electrs_cash.Common.{
  ℕ, zero, suc, ◌+◌, ◌-◌, ◌<◌, ◌≡◌, refl, some, List, [], ◌∷◌, arith, length, get_elem?, set, last,
  All, length-set, sum_by,
}
use mathlib.Core.Path.{subst}
use electrs_cash.RndCache.{drop_last, swap_remove}

module _ {ℓ} {A : Type ℓ} where
  some_injective : {a b : A} → some a ≡ some b → a ≡ b
  some_injective h = cc

  swap_remove-last :
      (l : List A) (i : ℕ) (z : A) → last l ≡ some z → swap_remove l i ≡ drop_last (set l i z)
  swap_remove-last l i z e = ground (arith, e)

  last-set : (l : List A) (i : ℕ) (z : A) → last l ≡ some z → last (set l i z) ≡ some z
  last-set [] i z h = h
  last-set (x ∷ []) zero z h = refl
  last-set (x ∷ []) (suc i) z h = h
  last-set (x ∷ y ∷ r) zero z h = h
  last-set (x ∷ y ∷ r) (suc zero) z h = last-set (y ∷ r) zero z h
  last-set (x ∷ y ∷ r) (suc (suc i)) z h = last-set (y ∷ r) (suc i) z h

  pub length-drop_last : (l : List A) → length (drop_last l) ≡ length l - 1
  length-drop_last [] = omega arith
  length-drop_last (x ∷ []) = omega arith
  length-drop_last (x ∷ y ∷ r) = omega (arith, length-drop_last (y ∷ r))

  last_exists : (l : List A) (i : ℕ) {x : A} → get_elem? l i ≡ some x → (z : A) × (last l ≡ some z)
  last_exists [] i h = absurd (ground arith)
  last_exists (x ∷ []) i h = (x, refl)
  last_exists (x ∷ y ∷ r) i h = last_exists (y ∷ r) 0 refl

  module _ (f : A → ℕ) where
    sum_by-set :
        (l : List A) (i : ℕ) (x z : A)
        → get_elem? l i ≡ some x
        → sum_by f (set l i z) + f x ≡ sum_by f l + f z
    sum_by-set [] i x z h = absurd (ground arith)
    sum_by-set (y ∷ l) zero x z h = ground arith
    sum_by-set (y ∷ l) (suc i) x z h = omega (arith, sum_by-set l i x z h)

    sum_by-drop_last :
        (l : List A) (z : A) → last l ≡ some z → sum_by f (drop_last l) + f z ≡ sum_by f l
    sum_by-drop_last [] z h = absurd (ground arith)
    sum_by-drop_last (x ∷ []) z h = ground arith
    sum_by-drop_last (x ∷ y ∷ r) z h = omega (arith, sum_by-drop_last (y ∷ r) z h)

    -- A removal takes exactly the measure of the element removed off the sum.
    pub sum_by-swap_remove :
        (l : List A) (i : ℕ) (x : A)
        → get_elem? l i ≡ some x
        → sum_by f (swap_remove l i) + f x ≡ sum_by f l
    sum_by-swap_remove l i x h =
        let (z, e) = last_exists l i h in
        rw (swap_remove-last l i z e)
          (omega (arith, sum_by-set l i x z h, sum_by-drop_last (set l i z) z (last-set l i z e)))

  pub length-swap_remove :
      (l : List A) (i : ℕ) (x : A)
      → get_elem? l i ≡ some x
      → length (swap_remove l i) + 1 ≡ length l
  length-swap_remove l i x h =
      let (z, e) = last_exists l i h in
      rw (swap_remove-last l i z e)
        (omega (arith, length-drop_last (set l i z), length-set l i z, within l i h))
    where
      within : (l : List A) (i : ℕ) → get_elem? l i ≡ some x → 0 < length l
      within [] i h = absurd (ground arith)
      within (y ∷ l) i h = omega arith

  module _ {κ} (P : A → Type κ) where
    All-set : (l : List A) (i : ℕ) (z : A) → P z → All P l → All P (set l i z)
    All-set [] i z p a = a
    All-set (x ∷ l) zero z p a = (p, a.1)
    All-set (x ∷ l) (suc i) z p a = (a.0, All-set l i z p a.1)

    All-drop_last : (l : List A) → All P l → All P (drop_last l)
    All-drop_last [] a = a
    All-drop_last (x ∷ []) a = tt
    All-drop_last (x ∷ y ∷ r) a = (a.0, All-drop_last (y ∷ r) a.1)

    All_last : (l : List A) (z : A) → All P l → last l ≡ some z → P z
    All_last [] z a h = absurd (ground arith)
    All_last (x ∷ []) z a h = subst P (some_injective h) a.0
    All_last (x ∷ y ∷ r) z a h = All_last (y ∷ r) z a.1 h

    pub All_elem : (l : List A) (i : ℕ) {x : A} → All P l → get_elem? l i ≡ some x → P x
    All_elem [] i a h = absurd (ground arith)
    All_elem (y ∷ l) zero a h = subst P (some_injective h) a.0
    All_elem (y ∷ l) (suc i) a h = All_elem l i a.1 h

    pub All-swap_remove :
        (l : List A) (i : ℕ) {x : A} → get_elem? l i ≡ some x → All P l → All P (swap_remove l i)
    All-swap_remove l i h a =
        let (z, e) = last_exists l i h in
        rw (swap_remove-last l i z e)
          (All-drop_last (set l i z) (All-set l i z (All_last l z a e) a))
