-- ===== src/Daemon/Reply.antt =====
-- src/daemon.rs: requests to the daemon and its JSON-RPC replies. A reply comes as the fields that
-- the code reads; what the daemon answers to the request with an id is a parameter, and so are the
-- wait and the reconnection before a new attempt. The retries are on fuel, none if it runs out.
use electrs_cash.Common.{
  ℕ, zero, suc, ◌+◌, ◌%◌, ◌^◌, ◌≡◌, refl, ap, ◌∙◌, Option, none, some, List, [], ◌∷◌, arith, ◌==◌,
  if◌then◌else◌, inl, inr, ◌⊎◌,
}
use electrs_cash.Common.Int.{ℤ, pos, negsuc}
use electrs_cash.Errors.{
  Result, ErrorKind, ok, err, panic, msg, connection, interrupt, web_socket, rpc_error,
  rpc_invalid_params, ok_or, ◌>>=◌, ◌>>◌, >>=-eq-ok, ok_injective, Result-cases,
}

-- The field `error`: null, an object with a numeric code, or anything else.
pub data ErrorValue : Type 0 where
  null_error without_code : ErrorValue
  coded : ℤ → ErrorValue

-- The id is `none` within the field where it is no number.
pub record ReplyObject (V : Type 0) : Type 0 where
  pub error : Option ErrorValue
  pub id : Option (Option ℕ)
  pub result : Option V

pub data ReplyValue (V : Type 0) : Type 0 where
  object : ReplyObject V → ReplyValue V
  non_object : ReplyValue V

unfoldable pub parse_error_code : ErrorValue → Option ℤ
parse_error_code null_error = none
parse_error_code without_code = none
parse_error_code (coded c) = some c

-- The code -28 has the request made again after a reconnection.
unfoldable pub check_code : ℤ → Result (Unit {0})
check_code (pos n) = err msg
check_code (negsuc n) =
    if n == 27 then err connection else if n == 4 then err rpc_invalid_params else err msg

unfoldable pub check_error_code : Option ErrorValue → Result (Unit {0})
check_error_code none = ok tt
check_error_code (some e) = elim (parse_error_code e) [ none ↦ ok tt | some c ↦ check_code c ]

unfoldable pub same_id : Option ℕ → ℕ → Result (Unit {0})
same_id none expected_id = err msg
same_id (some id) expected_id = if id == expected_id then ok tt else err msg

unfoldable pub parse_jsonrpc_reply : {V : Type 0} → ReplyValue V → ℕ → Result V
parse_jsonrpc_reply non_object expected_id = err msg
parse_jsonrpc_reply (object reply) expected_id = do
  check_error_code reply.error
  id ← ok_or msg reply.id
  same_id id expected_id
  ok_or msg reply.result

unfoldable pub parse_replies : {V : Type 0} → List (ReplyValue V) → ℕ → Result (List V)
parse_replies [] id = ok []
parse_replies (reply ∷ r) id = do
  result ← parse_jsonrpc_reply reply id
  results ← parse_replies r id
  ok (result ∷ results)

-- `Counter::next`.
unfoldable pub next : ℕ → ℕ
next value = (value + 1) % 2 ^ 64

module _ {V : Type 0} (call_jsonrpc : ℕ → Result (Option (List (ReplyValue V))))
    (again : ℕ → Result (Unit {0})) where
  -- With the id of the request. Replies that are no array are `none`.
  unfoldable pub handle_request_batch : ℕ → Result (List V)
  handle_request_batch id = do
    replies ← call_jsonrpc id
    replies_vec ← ok_or msg replies
    parse_replies replies_vec id

  -- The counter afterwards and the result.
  unfoldable pub retry_request_batch : ℕ → ℕ → Option (ℕ × Result (List V))
  retry_request_batch zero counter = none
  retry_request_batch (suc fuel) counter =
      let id = next counter in
      elim (handle_request_batch id) [
        | ok results ↦ some (id, ok results)
        | panic ↦ some (id, panic)
        | err msg ↦ some (id, err msg)
        | err interrupt ↦ some (id, err interrupt)
        | err web_socket ↦ some (id, err web_socket)
        | err (rpc_error c) ↦ some (id, err (rpc_error c))
        | err connection ↦ elim (again id) [
          | ok _ ↦ retry_request_batch fuel id
          | err e ↦ some (id, err e)
          | panic ↦ some (id, panic)
        ]
      ]

-- The reply is an object with the id, without an error code, and with the result.
abbrev pub Accepted : {V : Type 0} → ℕ → ReplyValue V → V → Type 0
Accepted id non_object v = ◌≡◌ {A = ℕ} 0 1
Accepted id (object o) v =
    (o.id ≡ some (some id))
    × (o.result ≡ some v)
    × ((o.error ≡ none) ⊎ ((o.error ≡ some null_error) ⊎ (o.error ≡ some without_code)))

-- The replies are accepted, with the results in their order.
abbrev pub Answers : {V : Type 0} → ℕ → List (ReplyValue V) → List V → Type 0
Answers id [] [] = Unit
Answers id [] (v ∷ vs) = ◌≡◌ {A = ℕ} 0 1
Answers id (reply ∷ r) [] = ◌≡◌ {A = ℕ} 0 1
Answers id (reply ∷ r) (v ∷ vs) = Accepted id reply v × Answers id r vs

check_error_code_ok :
    (e : Option ErrorValue)
    → check_error_code e ≡ ok tt
    → (e ≡ none) ⊎ ((e ≡ some null_error) ⊎ (e ≡ some without_code))
unfolding check_error_code parse_error_code check_code
check_error_code_ok none h = inl refl
check_error_code_ok (some null_error) h = inr (inl refl)
check_error_code_ok (some without_code) h = inr (inr refl)
check_error_code_ok (some (coded (pos n))) h = absurd (ground arith)
check_error_code_ok (some (coded (negsuc n))) h = absurd (ground arith)

same_id_ok : (i : Option ℕ) (id : ℕ) → same_id i id ≡ ok tt → i ≡ some id
unfolding same_id
same_id_ok none id h = absurd (ground arith)
same_id_ok (some i) id h = ground arith

ok_or_ok : {A : Type 0} (e : ErrorKind) (o : Option A) {a : A} → ok_or e o ≡ ok a → o ≡ some a
ok_or_ok e none h = absurd (ground arith)
ok_or_ok e (some b) h = ap (λ x. some x) (ok_injective h)

parse_jsonrpc_reply-Accepted :
    {V : Type 0} (reply : ReplyValue V) (id : ℕ) (v : V)
    → parse_jsonrpc_reply reply id ≡ ok v
    → Accepted id reply v
unfolding parse_jsonrpc_reply
parse_jsonrpc_reply-Accepted non_object id v h = absurd (ground arith)
parse_jsonrpc_reply-Accepted (object o) id v h =
    let (_, checked, rest) =
      >>=-eq-ok {A = Unit {0}} (check_error_code o.error)
        (λ _. ok_or msg o.id >>= λ i. same_id i id >> ok_or msg o.result) h in
    let (i, at, rest2) =
      >>=-eq-ok (ok_or msg o.id) (λ i. same_id i id >> ok_or msg o.result) rest in
    let (_, same, rest3) =
      >>=-eq-ok {A = Unit {0}} (same_id i id) (λ _. ok_or msg o.result) rest2 in
    (
      ok_or_ok msg o.id at ∙ ap (λ (x : Option ℕ). some x) (same_id_ok i id same),
      ok_or_ok msg o.result rest3,
      check_error_code_ok o.error checked,
    )

parse_replies-Answers :
    {V : Type 0} (replies : List (ReplyValue V)) (id : ℕ) (vs : List V)
    → parse_replies replies id ≡ ok vs
    → Answers id replies vs
unfolding parse_replies
parse_replies-Answers [] id [] h = tt
parse_replies-Answers [] id (v ∷ vs) h = absurd (ground arith)
parse_replies-Answers (reply ∷ r) id vs h =
    let (v, first, rest) =
      >>=-eq-ok (parse_jsonrpc_reply reply id) (λ v. parse_replies r id >>= λ ws. ok (v ∷ ws)) h in
    let (ws, second, last) = >>=-eq-ok (parse_replies r id) (λ ws. ok (v ∷ ws)) rest in
    rw (← ok_injective last)
      (parse_jsonrpc_reply-Accepted reply id v first, parse_replies-Answers r id ws second)

module _ {V : Type 0} (call_jsonrpc : ℕ → Result (Option (List (ReplyValue V))))
    (again : ℕ → Result (Unit {0})) where
  handle_request_batch-Answers :
      (id : ℕ) (vs : List V)
      → handle_request_batch call_jsonrpc again id ≡ ok vs
      → (replies : List (ReplyValue V)) × (call_jsonrpc id ≡ ok (some replies))
        × Answers id replies vs
  unfolding handle_request_batch
  handle_request_batch-Answers id vs h =
      let (o, called, rest) =
        >>=-eq-ok (call_jsonrpc id) (λ o. ok_or msg o >>= λ rs. parse_replies rs id) h in
      let (rs, some_rs, parsed) = >>=-eq-ok (ok_or msg o) (λ rs. parse_replies rs id) rest in
      (rs, called ∙ ap ok (ok_or_ok msg o some_rs), parse_replies-Answers rs id vs parsed)

  -- An attempt is the end, or fails as a connection and is made again with the next id.
  retry_request_batch-cases :
      (fuel counter : ℕ) (k : ℕ) (vs : List V)
      → retry_request_batch call_jsonrpc again (suc fuel) counter ≡ some (k, ok vs)
      → (handle_request_batch call_jsonrpc again k ≡ ok vs)
        ⊎ (retry_request_batch call_jsonrpc again fuel (next counter) ≡ some (k, ok vs))
  unfolding retry_request_batch
  retry_request_batch-cases fuel counter k vs h =
      go (handle_request_batch call_jsonrpc again (next counter)) refl
    where
      go :
          (m : Result (List V))
          → handle_request_batch call_jsonrpc again (next counter) ≡ m
          → (handle_request_batch call_jsonrpc again k ≡ ok vs)
            ⊎ (retry_request_batch call_jsonrpc again fuel (next counter) ≡ some (k, ok vs))
      go (ok results) same = inl (ground (arith, same, h))
      go panic same = absurd (ground (arith, same, h))
      go (err msg) same = absurd (ground (arith, same, h))
      go (err interrupt) same = absurd (ground (arith, same, h))
      go (err web_socket) same = absurd (ground (arith, same, h))
      go (err (rpc_error c)) same = absurd (ground (arith, same, h))
      go (err connection) same = elim (Result-cases (again (next counter))) [
        | inl (_, waited) ↦ inr (ground (arith, same, waited, h))
        | inr (inl (e, failed)) ↦ absurd (ground (arith, same, failed, h))
        | inr (inr crashed) ↦ absurd (ground (arith, same, crashed, h))
      ]

  -- The results of a request, however often it was made again, come from replies to its last
  -- attempt: one for each result and in their order, each an object with the id of that attempt,
  -- with the result and without an error code.
  pub retry_request_batch-Answers :
      (fuel counter k : ℕ) (vs : List V)
      → retry_request_batch call_jsonrpc again fuel counter ≡ some (k, ok vs)
      → (replies : List (ReplyValue V)) × (call_jsonrpc k ≡ ok (some replies))
        × Answers k replies vs
  retry_request_batch-Answers zero counter k vs h =
      absurd (unfold retry_request_batch in ground (arith, h))
  retry_request_batch-Answers (suc fuel) counter k vs h =
      elim (retry_request_batch-cases fuel counter k vs h) [
        | inl ended ↦ handle_request_batch-Answers k vs ended
        | inr later ↦ retry_request_batch-Answers fuel (next counter) k vs later
      ]
