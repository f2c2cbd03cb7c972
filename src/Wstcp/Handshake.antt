-- ===== src/Wstcp/Handshake.antt =====
-- src/wstcp/channel.rs: the opening handshake of a proxy channel. The HTTP codec, the connection to
-- the RPC server and the writing of the response are outside the model: what each of them answers
-- next is an event, and a call of `process_handshake` runs through the events of its rounds.
use electrs_cash.Common.{
  ℕ, ◌≡◌, refl, Bool, true, false, not, ◌&&◌, ◌||◌, Option, none, some, List, [], ◌∷◌, arith,
  if◌then◌else◌, Bool-cases, inl, inr, ◌⊎◌,
}
use electrs_cash.Common.Text.{codes, text_eq, eq_ignore_ascii_case, trim, split_from}
use electrs_cash.Errors.{
  Result, ok, err, panic, rpc_invalid_request, ok_injective, >>=-eq-ok, ◌>>=◌,
}

pub record Request : Type 0 where
  pub method : List ℕ
  pub is_http_1_1 : Bool
  pub fields : List (List ℕ × List ℕ)

abbrev pub any_upgrade : List (List ℕ) → Bool
any_upgrade [] = false
any_upgrade (v ∷ vs) = text_eq (trim v) (codes "Upgrade") || any_upgrade vs

-- One header field: the key that is known after it.
unfoldable pub check_field : Option (List ℕ) → List ℕ → List ℕ → Result (Option (List ℕ))
unfolding rpc_invalid_request
check_field key name value =
    if eq_ignore_ascii_case name (codes "upgrade")
    then (if text_eq value (codes "websocket") then ok key else err rpc_invalid_request)
    else if eq_ignore_ascii_case name (codes "connection")
    then (if any_upgrade (split_from b',' [] value) then ok key else err rpc_invalid_request)
    else if eq_ignore_ascii_case name (codes "sec-websocket-key")
    then ok (some value)
    else if eq_ignore_ascii_case name (codes "sec-websocket-version")
        && not (text_eq value (codes "13"))
    then err rpc_invalid_request
    else ok key

unfoldable pub check_fields : Option (List ℕ) → List (List ℕ × List ℕ) → Result (Option (List ℕ))
check_fields key [] = ok key
check_fields key ((name, value) ∷ r) = do key' ← check_field key name value; check_fields key' r

-- The WebSocket key of an acceptable request.
unfoldable pub handle_handshake_request : Request → Result (List ℕ)
handle_handshake_request request =
    if not (text_eq request.method (codes "GET"))
    then err rpc_invalid_request
    else if not request.is_http_1_1
    then err rpc_invalid_request
    else (do
      key ← check_fields none request.fields
      elim key [ none ↦ err rpc_invalid_request | some k ↦ ok k ])

pub data Handshake : Type 0 where
  recv_request : Handshake
  connect_to_real_server : List ℕ → Handshake
  send_response : Bool → Handshake
  done : Handshake

pub data Event : Type 0 where
  request_pending request_malformed : Event
  request_read : Request → Event
  connect_pending connect_failed connect_done : Event
  write_failed response_pending response_written : Event

-- What a round does: go on with a state, leave the loop with a state, or give up.
pub data Round : Type 0 where
  again leave : Handshake → Bool → Round
  give_up : Round

-- One round of the loop, from the handshake and whether the RPC server is connected.
unfoldable pub round : Handshake → Bool → Event → Round
round recv_request c request_pending = leave recv_request c
round recv_request c request_malformed = again (send_response false) c
round recv_request c (request_read r) = elim (handle_handshake_request r) [
  | ok key ↦ again (connect_to_real_server key) c
  | err _ ↦ again (send_response false) c
  | panic ↦ give_up
]
round (connect_to_real_server key) c connect_pending = leave (connect_to_real_server key) c
round (connect_to_real_server key) c connect_failed = again (send_response false) c
round (connect_to_real_server key) c connect_done = again (send_response true) true
round (send_response s) c write_failed = give_up
round (send_response s) c response_pending = leave (send_response s) c
round (send_response s) c response_written = if s then leave done c else give_up
round done c e = leave done c
round h c e = leave h c

-- The loop: the handshake and the connection after it; `none` is the answer `false`, which ends the
-- channel. The events end where the stream gives nothing more.
unfoldable pub process_handshake : Handshake → Bool → List Event → Option (Handshake × Bool)
process_handshake h c [] = some (h, c)
process_handshake h c (e ∷ es) = elim (round h c e) [
  | again h' c' ↦ process_handshake h' c' es
  | leave h' c' ↦ some (h', c')
  | give_up ↦ none
]

-- What holds of the handshake: it is done, or answers with success, only with the RPC server
-- connected.
abbrev pub IsConnected : Handshake → Bool → Type 0
IsConnected (send_response true) c = c ≡ true
IsConnected done c = c ≡ true
IsConnected _ c = Unit

unfoldable pub RoundConnected : Round → Type 0
RoundConnected (again h c) = IsConnected h c
RoundConnected (leave h c) = IsConnected h c
RoundConnected give_up = Unit

round-IsConnected :
    (h : Handshake) (c : Bool) (e : Event) → IsConnected h c → RoundConnected (round h c e)
unfolding RoundConnected round
round-IsConnected recv_request c request_pending p = tt
round-IsConnected recv_request c request_malformed p = tt
round-IsConnected recv_request c (request_read r) p = go (handle_handshake_request r)
  where
    go :
        (k : Result (List ℕ))
        → RoundConnected (elim k as (λ _. Round) [
          | ok key ↦ again (connect_to_real_server key) c
          | err _ ↦ again (send_response false) c
          | panic ↦ give_up
        ])
    go (ok k) = tt
    go (err e) = tt
    go panic = tt
round-IsConnected (send_response true) c write_failed p = tt
round-IsConnected (send_response true) c response_written p = p
round-IsConnected (send_response true) c _ p = p
round-IsConnected (send_response false) c response_written p = tt
round-IsConnected (send_response false) c _ p = tt
round-IsConnected done c request_pending p = p
round-IsConnected done c _ p = p
round-IsConnected (connect_to_real_server k) c connect_done p = refl
round-IsConnected (connect_to_real_server k) c _ p = tt
round-IsConnected recv_request c _ p = tt

process-IsConnected :
    (h : Handshake) (c : Bool) (es : List Event) {h' : Handshake} {c' : Bool}
    → IsConnected h c
    → process_handshake h c es ≡ some (h', c')
    → IsConnected h' c'
unfolding process_handshake RoundConnected
process-IsConnected h c [] {h'} {c'} p e =
    let same : h ≡ h' = cc in let same' : c ≡ c' = cc in rw (← same, ← same') p
process-IsConnected h c (ev ∷ es) {h'} {c'} p e =
    go (round h c ev) refl (round-IsConnected h c ev p) (λ h₁ c₁. process-IsConnected h₁ c₁ es) e
  where
    go :
        (r : Round)
        → round h c ev ≡ r
        → RoundConnected r
        → ((h₁ : Handshake) (c₁ : Bool)
            → IsConnected h₁ c₁
            → process_handshake h₁ c₁ es ≡ some (h', c')
            → IsConnected h' c')
        → process_handshake h c (ev ∷ es) ≡ some (h', c')
        → IsConnected h' c'
    go (again h₁ c₁) q p f e = f h₁ c₁ p (ground arith)
    go (leave h₁ c₁) q p f e =
        let same : h₁ ≡ h' = ground arith in
        let same' : c₁ ≡ c' = ground arith in rw (← same, ← same') p
    go give_up q p f e = absurd (ground arith)

-- From a new channel, whatever its peers answer, the handshake is done only with the RPC server
-- connected; and while the response of success is being sent the server is connected too.
pub process_handshake-IsConnected :
    (es : List Event) (h : Handshake) (c : Bool)
    → process_handshake recv_request false es ≡ some (h, c)
    → IsConnected h c
process_handshake-IsConnected es h c e = process-IsConnected recv_request false es tt e

-- The field stands among the header fields, under a name that is `name` but for case.
abbrev pub HasField : List ℕ → List ℕ → List (List ℕ × List ℕ) → Type 0
HasField name value [] = ⊥
HasField name value ((n, v) ∷ r) =
    ((eq_ignore_ascii_case n name ≡ true) × (v ≡ value)) ⊎ HasField name value r

check_field_key :
    (key : Option (List ℕ)) (name value k : List ℕ)
    → check_field key name value ≡ ok (some k)
    → ((eq_ignore_ascii_case name (codes "sec-websocket-key") ≡ true) × (value ≡ k))
      ⊎ (key ≡ some k)
unfolding check_field
check_field_key key name value k e = ground arith

check_fields_key :
    (key : Option (List ℕ)) (fields : List (List ℕ × List ℕ)) (k : List ℕ)
    → check_fields key fields ≡ ok (some k)
    → HasField (codes "sec-websocket-key") k fields ⊎ (key ≡ some k)
unfolding check_fields
check_fields_key key [] k e = inr (ok_injective e)
check_fields_key key ((name, value) ∷ r) k e =
    let (key', one, rest) = >>=-eq-ok (check_field key name value) (λ q. check_fields q r) e in
    elim (check_fields_key key' r k rest) [
      | inl there ↦ inl (inr there)
      | inr here ↦ elim (check_field_key key name value k (rw here at one)) [
        | inl this ↦ inl (inl this)
        | inr before ↦ inr before
      ]
    ]

-- A request that is accepted is a GET over HTTP 1.1, and the key is the value of one of its
-- `Sec-WebSocket-Key` fields.
pub handle_handshake_request_sound :
    (r : Request) (k : List ℕ)
    → handle_handshake_request r ≡ ok k
    → (text_eq r.method (codes "GET") ≡ true)
      × (r.is_http_1_1 ≡ true)
      × HasField (codes "sec-websocket-key") k r.fields
unfolding handle_handshake_request
handle_handshake_request_sound r k e = elim (Bool-cases (text_eq r.method (codes "GET"))) [
  | inr other ↦ absurd (ground arith)
  | inl get ↦ elim (Bool-cases r.is_http_1_1) [
    | inr old ↦ absurd (ground arith)
    | inl new ↦
        let found : check_fields none r.fields ≡ ok (some k) = ground arith in
        elim (check_fields_key none r.fields k found) [
          | inl field ↦ (get, new, field)
          | inr early ↦ absurd (ground arith)
        ]
  ]
]
