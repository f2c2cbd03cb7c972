-- ===== src/Rpc/Version.antt =====
-- src/rpc/server.rs: the version that is agreed with a client. The crate version_compare is a
-- parameter: how a version is read, and whether one is at least another. A parameter of the call is
-- a text, a list, whose elements that are not texts are `none`, or something else.
use electrs_cash.Common.{
  ℕ, ◌<◌, ◌≡◌, refl, Bool, true, ◌&&◌, Option, none, some, List, [], ◌∷◌, arith, if◌then◌else◌,
  get_elem?, length, Option-cases, inl, inr, ◌⊎◌,
}
use electrs_cash.Errors.{Result, ok, err, panic, rpc_invalid_params, ok_or, expect, ◌>>=◌}

pub data VersionParam : Type 0 where
  text : List ℕ → VersionParam
  list : List (Option (List ℕ)) → VersionParam
  other_value : VersionParam

module _ {V : Type 0} (read : List ℕ → Option V) (at_least : V → V → Bool)
    (our_min our_max : V) where
  unfoldable pub best_match : V → V → V
  best_match client_min client_max =
      if at_least client_max our_max
      then our_max
      else if at_least our_min client_max
      then our_min
      else if at_least client_min our_min && at_least our_max client_max
      then client_max
      else our_min

  unfoldable pub parse_version : List ℕ → Result V
  parse_version version = ok_or rpc_invalid_params (read version)

  -- An element of the list: an index out of range is a panic, a value that is no text an error.
  unfoldable pub element : List (Option (List ℕ)) → ℕ → Result V
  element minmax_list n = do
    value ← expect (get_elem? minmax_list n)
    version ← ok_or rpc_invalid_params value
    parse_version version

  -- `spec_default` is the version that a missing parameter stands for.
  unfoldable pub server_version : List ℕ → Option VersionParam → Result V
  server_version spec_default none = do
    version ← parse_version spec_default
    ok (best_match version version)
  server_version spec_default (some (text s)) = do
    version ← parse_version s
    ok (best_match version version)
  server_version spec_default (some (list minmax_list)) = do
    min ← element minmax_list 0
    max ← element minmax_list 1
    ok (best_match min max)
  server_version spec_default (some other_value) = err rpc_invalid_params

  -- The version that is agreed on is one that this server has: at least its lowest and at most its
  -- highest one, for any order of versions that is total and reflexive.
  pub best_match-bounds :
      (client_min client_max : V)
      → ((a : V) → at_least a a ≡ true)
      → ((a b : V) → (at_least a b ≡ true) ⊎ (at_least b a ≡ true))
      → at_least our_max our_min ≡ true
      → (at_least (best_match client_min client_max) our_min ≡ true)
        × (at_least our_max (best_match client_min client_max) ≡ true)
  unfolding best_match
  best_match-bounds client_min client_max same total ours =
      ground (arith, same our_min, same our_max, total client_max our_min, ours)

  -- A list of versions with less than two elements is a panic exactly if it is empty or its one
  -- element is a text that reads as a version, and an error exactly if its one element is no text
  -- or reads as no version: the elements are read by index without a test.
  pub server_version_short_list :
      (spec_default : List ℕ) (minmax_list : List (Option (List ℕ)))
      → length minmax_list < 2
      → ((server_version spec_default (some (list minmax_list)) ≡ panic)
          × ((minmax_list ≡ [])
              ⊎ ((s : List ℕ) × (v : V) × (minmax_list ≡ some s ∷ []) × (read s ≡ some v))))
        ⊎ ((server_version spec_default (some (list minmax_list)) ≡ err rpc_invalid_params)
            × ((minmax_list ≡ none ∷ [])
                ⊎ ((s : List ℕ) × (minmax_list ≡ some s ∷ []) × (read s ≡ none))))
  unfolding server_version element parse_version
  server_version_short_list spec_default [] short = inl (refl, inl refl)
  server_version_short_list spec_default (none ∷ []) short = inr (refl, inl refl)
  server_version_short_list spec_default (some s ∷ []) short = elim (Option-cases (read s)) [
    | inl unread ↦ inr (ground (arith, unread), inr (s, refl, unread))
    | inr (v, known) ↦ inl (ground (arith, known), inr (s, v, refl, known))
  ]
  server_version_short_list spec_default (a ∷ b ∷ r) short = absurd (omega arith)
