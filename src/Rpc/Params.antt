-- ===== src/Rpc/Params.antt =====
-- src/rpc/parseutil.rs: the parameters of a call. What the crate serde_json gives for a value (its
-- boolean, text or number, if it is one) and how a text is read as a hash are parameters.
use electrs_cash.Common.{ℕ, Bool, Option, none, some, List, ◌≡◌, refl, ◌⊎◌, inl, inr}
use electrs_cash.Errors.{Result, ErrorKind, ok, err, ok_or, rpc_error, invalid_params, ◌>>=◌}

unfoldable pub rpc_arg_error : ErrorKind
rpc_arg_error = rpc_error invalid_params

module _ {Value : Type 0} where
  unfoldable pub bool_from_value : (Value → Option Bool) → Option Value → Result Bool
  bool_from_value as_bool val = do v ← ok_or rpc_arg_error val; ok_or rpc_arg_error (as_bool v)

  unfoldable pub bool_from_value_or : (Value → Option Bool) → Option Value → Bool → Result Bool
  bool_from_value_or as_bool none default = ok default
  bool_from_value_or as_bool (some v) default = bool_from_value as_bool (some v)

  unfoldable pub str_from_value : (Value → Option (List ℕ)) → Option Value → Result (List ℕ)
  str_from_value as_str val = do v ← ok_or rpc_arg_error val; ok_or rpc_arg_error (as_str v)

  unfoldable pub hash_from_value :
      (Value → Option (List ℕ)) → (List ℕ → Option ℕ) → Option Value → Result ℕ
  hash_from_value as_str from_hex val = do
    v ← ok_or rpc_arg_error val
    s ← ok_or rpc_arg_error (as_str v)
    ok_or rpc_arg_error (from_hex s)

  unfoldable pub scripthash_from_value :
      (Value → Option (List ℕ)) → (List ℕ → Option ℕ) → Option Value → Result ℕ
  scripthash_from_value as_str decode_scripthash val = do
    v ← ok_or rpc_arg_error val
    s ← ok_or rpc_arg_error (as_str v)
    ok_or rpc_arg_error (decode_scripthash s)

  -- A `usize` has 64 bits, as the number has.
  unfoldable pub usize_from_value : (Value → Option ℕ) → Option Value → Result ℕ
  usize_from_value as_u64 val = do v ← ok_or rpc_arg_error val; ok_or rpc_arg_error (as_u64 v)

  unfoldable pub usize_from_value_or : (Value → Option ℕ) → Option Value → ℕ → Result ℕ
  usize_from_value_or as_u64 none default = ok default
  usize_from_value_or as_u64 (some v) default = usize_from_value as_u64 (some v)

  -- A parameter that is missing, of another kind, or no hash gives the code for invalid parameters:
  -- never another error and never a panic.
  pub hash_from_value_lem :
      (as_str : Value → Option (List ℕ)) (from_hex : List ℕ → Option ℕ) (val : Option Value)
      → ((k : ℕ) × (hash_from_value as_str from_hex val ≡ ok k))
        ⊎ (hash_from_value as_str from_hex val ≡ err rpc_arg_error)
  unfolding hash_from_value
  hash_from_value_lem as_str from_hex none = inr refl
  hash_from_value_lem as_str from_hex (some v) = go (as_str v)
    where
      last_step :
          (o : Option ℕ)
          → ((k : ℕ) × (ok_or rpc_arg_error o ≡ ok k)) ⊎ (ok_or rpc_arg_error o ≡ err rpc_arg_error)
      last_step none = inr refl
      last_step (some k) = inl (k, refl)

      go :
          (o : Option (List ℕ))
          → ((k : ℕ) × ((ok_or rpc_arg_error o >>= λ s. ok_or rpc_arg_error (from_hex s)) ≡ ok k))
            ⊎ ((ok_or rpc_arg_error o >>= λ s. ok_or rpc_arg_error (from_hex s))
                ≡ err rpc_arg_error)
      go none = inr refl
      go (some s) = last_step (from_hex s)
