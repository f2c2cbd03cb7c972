-- ===== src/Errors.antt =====
-- src/errors.rs: the error kinds, and the result of fallible code. The text of a message is left
-- out. A failed `assert`, an `expect` and an index out of range are the value `panic`.
use electrs_cash.Common.{Bool, true, false, Option, none, some, ◌≡◌, refl, ◌⊎◌, inl, inr}
use electrs_cash.Common.Int.{ℤ, negsuc}

pub data RpcErrorCode : Type 0 where
  parse_error invalid_request method_not_found invalid_params internal_error : RpcErrorCode
  other not_found timeout : RpcErrorCode

-- `code as i32`.
unfoldable pub code_value : RpcErrorCode → ℤ
code_value parse_error = negsuc 32699
code_value invalid_request = negsuc 32599
code_value method_not_found = negsuc 32600
code_value invalid_params = negsuc 32601
code_value internal_error = negsuc 32602
code_value other = negsuc 31999
code_value not_found = negsuc 32003
code_value timeout = negsuc 32004

-- `msg` is an error made from a plain string.
pub data ErrorKind : Type 0 where
  connection interrupt web_socket msg : ErrorKind
  rpc_error : RpcErrorCode → ErrorKind

pub data Result {ℓ} (A : Type ℓ) : Type ℓ where
  ok : A → Result A
  err : ErrorKind → Result A
  panic : Result A

-- `?`, and the rest of a block.
infixl 5 ◌>>=◌ ◌>>◌
abbrev pub ◌>>=◌ {κ ℓ} : {A : Type κ} {B : Type ℓ} → Result A → (A → Result B) → Result B
panic >>= rest = panic
err kind >>= rest = err kind
ok value >>= rest = rest value

abbrev pub ◌>>◌ {κ} : {B : Type κ} → Result (Unit {0}) → Result B → Result B
step >> rest = step >>= λ _. rest

-- `assert!`.
abbrev pub assert : Bool → Result (Unit {0})
assert true = ok tt
assert false = panic

-- `unwrap`, `expect` and `unwrap_or_else(|| panic!(..))`.
abbrev pub expect {ℓ} : {A : Type ℓ} → Option A → Result A
expect none = panic
expect (some a) = ok a

-- `chain_err` on an option.
abbrev pub ok_or {ℓ} : {A : Type ℓ} → ErrorKind → Option A → Result A
ok_or e none = err e
ok_or e (some a) = ok a

unfoldable pub rpc_invalid_request : ErrorKind
rpc_invalid_request = rpc_error invalid_request

unfoldable pub rpc_invalid_params : ErrorKind
rpc_invalid_params = rpc_error invalid_params

pub ok_injective {ℓ} : {A : Type ℓ} {a b : A} → ok a ≡ ok b → a ≡ b
ok_injective h = cc

-- If a chain succeeds, so does its first step.
pub >>=-eq-ok {κ ℓ} :
    {A : Type κ} {B : Type ℓ} (first : Result A) (rest : A → Result B) {b : B}
    → (first >>= rest) ≡ ok b
    → (a : A) × (first ≡ ok a) × (rest a ≡ ok b)
>>=-eq-ok panic rest done = cc
>>=-eq-ok (err kind) rest done = cc
>>=-eq-ok (ok a) rest done = (a, refl, done)

-- A result is a value, an error or a panic.
pub Result-cases {ℓ} :
    {A : Type ℓ} (m : Result A)
    → ((a : A) × (m ≡ ok a)) ⊎ (((e : ErrorKind) × (m ≡ err e)) ⊎ (m ≡ panic))
Result-cases (ok a) = inl (a, refl)
Result-cases (err e) = inr (inl (e, refl))
Result-cases panic = inr (inr refl)
