-- ===== src/Store/Tests.antt =====
-- A table of three keys, two of them with the prefix 66.
use electrs_cash.Common.{◌≡◌, refl, List, [], ◌∷◌, ℕ}
use electrs_cash.Store.{scan}
use electrs_cash.Store.Scan.{from_key, scan-matching}

abbrev table : List (List ℕ × List ℕ)
table = (3 ∷ [], 1 ∷ []) ∷ (66 ∷ 1 ∷ [], 2 ∷ []) ∷ (66 ∷ 2 ∷ [], []) ∷ (67 ∷ [], 4 ∷ []) ∷ []

scan-matching_example :
    scan (λ k. from_key k table) (66 ∷ [])
    ≡ (record { key = 66 ∷ 1 ∷ []; value = 2 ∷ [] })
      ∷ (record { key = 66 ∷ 2 ∷ []; value = [] })
      ∷ []
scan-matching_example =
    scan-matching table (λ k. from_key k table) (66 ∷ []) (refl, (refl, (refl, (refl, tt))))
      (λ k. refl)
