-- ===== src/Rpc/Session.antt =====
-- src/rpc/mod.rs: a session of a connection, from the lines that are read to the end of the loop.
use electrs_cash.Common.{
  ℕ, ◌≡◌, refl, sym, ap, ◌∙◌, false, Option, none, some, List, [], ◌∷◌, ◌++◌, arith, All, map,
  Bool-cases, Option-cases, inl, inr, ◌⊎◌,
}
use electrs_cash.Store.{starts_with}
use electrs_cash.Errors.{Result-cases, Result, ErrorKind, ok, err, panic, msg}
use electrs_cash.Subscriptions.{BlockchainRpc}
use electrs_cash.Rpc.{
  Message, request, done, Sent, reply, parse_requests, send_values, handle_message, handle_replies,
}

-- A line that comes as a request: not empty, not an SSL greeting, and text.
abbrev pub IsRequest : (List ℕ → Option (List ℕ)) → List ℕ → List ℕ → Type 0
IsRequest from_utf8 [] req = ◌≡◌ {A = ℕ} 0 1
IsRequest from_utf8 (b ∷ line) req =
    (starts_with (22 ∷ 3 ∷ 1 ∷ []) (b ∷ line) ≡ false) × (from_utf8 (b ∷ line) ≡ some req)

abbrev pub Read : Result (List ℕ) → Type 0
Read read = (line : List ℕ) × (read ≡ ok line)

module _ (from_utf8 : List ℕ → Option (List ℕ)) where
  parse_requests-request :
      (line req : List ℕ) (reads : List (Result (List ℕ)))
      → IsRequest from_utf8 line req
      → parse_requests from_utf8 (ok line ∷ reads)
        ≡ (request req ∷ (parse_requests from_utf8 reads).0, (parse_requests from_utf8 reads).1)
  unfolding parse_requests
  parse_requests-request [] req reads is = absurd (omega arith)
  parse_requests-request (b ∷ line) req reads is = ground (arith, is.0, is.1)

  -- A line is the end of the reader, or a request.
  parse_requests-cases :
      (line : List ℕ) (reads : List (Result (List ℕ)))
      → ((out : Result (Unit {0})) × (parse_requests from_utf8 (ok line ∷ reads)
            ≡ (done ∷ [], some out)))
        ⊎ ((req : List ℕ) × IsRequest from_utf8 line req)
  unfolding parse_requests
  parse_requests-cases [] reads = inl (ok tt, refl)
  parse_requests-cases (b ∷ line) reads =
      elim (Bool-cases (starts_with (22 ∷ 3 ∷ 1 ∷ []) (b ∷ line))) [
        | inl greeting ↦ inl (err msg, ground (arith, greeting))
        | inr other ↦ elim (Option-cases (from_utf8 (b ∷ line))) [
          | inl no_text ↦ inl (err msg, ground (arith, other, no_text))
          | inr (req, text) ↦ inr (req, (other, text))
        ]
      ]

  ends_with_done :
      (reads : List (Result (List ℕ))) (out : Result (Unit {0}))
      → All Read reads
      → (parse_requests from_utf8 reads).1 ≡ some out
      → (ms : List Message) × ((parse_requests from_utf8 reads).0 ≡ ms ++ done ∷ [])
  ends_with_done [] out all ended = absurd (unfold parse_requests in ground (arith, ended))
  ends_with_done (read ∷ reads) out all ended = elim (parse_requests-cases all.0.0 reads) [
    | inl (_, stops) ↦ ([], rw (all.0.1) (ap (λ s. s.0) stops))
    | inr (req, is) ↦
        let step = parse_requests-request all.0.0 req reads is in
        let (ms, shape) =
          ends_with_done reads out all.1 (sym (ap (λ s. s.1) step) ∙ rw (all.0.1) at ended) in
        (request req ∷ ms, rw (all.0.1) (ap (λ s. s.0) step ∙ ap (λ xs. request req ∷ xs) shape))
  ]

  module _ {Reply : Type 0} (command : List ℕ → BlockchainRpc → BlockchainRpc × Result Reply)
      (status : ℕ → Result (Option ℕ)) (write : Sent Reply → Result (Unit {0})) where
    -- A message ends the loop, or the loop goes on with the next one.
    handle_replies-cases :
        (m : Message) (r : BlockchainRpc) (sent : List (Sent Reply))
        → ((result : Result (Unit {0})) × ((ms : List Message)
              → (handle_replies command status write (m ∷ ms) r sent).1 ≡ some result))
          ⊎ ((r' : BlockchainRpc) × (sent' : List (Sent Reply)) × ((ms : List Message)
                → handle_replies command status write (m ∷ ms) r sent
                  ≡ handle_replies command status write ms r' sent'))
    unfolding handle_replies
    handle_replies-cases m r sent = go (handle_message command status write m r).1 refl
      where
        go :
            (x : Result (Option (List (Sent Reply))))
            → (handle_message command status write m r).1 ≡ x
            → ((result : Result (Unit {0})) × ((ms : List Message)
                  → (handle_replies command status write (m ∷ ms) r sent).1 ≡ some result))
              ⊎ ((r' : BlockchainRpc) × (sent' : List (Sent Reply)) × ((ms : List Message)
                    → handle_replies command status write (m ∷ ms) r sent
                      ≡ handle_replies command status write ms r' sent'))
        go panic same = inl (panic, λ ms. ground (arith, same))
        go (err e) same = inl (err e, λ ms. ground (arith, same))
        go (ok none) same = inl (ok tt, λ ms. ground (arith, same))
        go (ok (some values)) same = elim (Result-cases (send_values write values)) [
          | inl (_, wrote) ↦ inr (
            (handle_message command status write m r).0,
            sent ++ values,
            λ ms. ground (arith, same, wrote),
          )
          | inr (inl (e, failed)) ↦ inl (err e, λ ms. ground (arith, same, failed))
          | inr (inr crashed) ↦ inl (panic, λ ms. ground (arith, same, crashed))
        ]

    handle_replies-done :
        (ms : List Message) (r : BlockchainRpc) (sent : List (Sent Reply))
        → (result : Result (Unit {0})) × ((handle_replies command status write
              (ms ++ done ∷ [])
              r
              sent).1
            ≡ some result)
    handle_replies-done [] r sent = (ok tt, unfold handle_replies handle_message in refl)
    handle_replies-done (m ∷ ms) r sent = elim (handle_replies-cases m r sent) [
      | inl (result, ends) ↦ (result, ends (ms ++ done ∷ []))
      | inr (r', sent', on) ↦
          let (result, ended) = handle_replies-done ms r' sent' in
          (result, ap (λ s. s.1) (on (ms ++ done ∷ [])) ∙ ended)
    ]

    -- If no read of a connection fails and its reader has ended (the client closed the connection,
    -- sent an SSL greeting or a line that is not text), then the loop over the messages ends too,
    -- whatever the answers to the requests and the outcomes of the writes are.
    pub session_ends :
        (reads : List (Result (List ℕ))) (out : Result (Unit {0})) (r : BlockchainRpc)
        → All Read reads
        → (parse_requests from_utf8 reads).1 ≡ some out
        → (result : Result (Unit {0})) × ((handle_replies command status write
              (parse_requests from_utf8 reads).0
              r
              []).1
            ≡ some result)
    session_ends reads out r all ended =
        let (ms, shape) = ends_with_done reads out all ended in
        let (result, ends) = handle_replies-done ms r [] in
        (result, ap (λ xs. (handle_replies command status write xs r []).1) shape ∙ ends)

    -- Each line is a request whose command succeeds, from the state that the commands before it
    -- leave, and whose reply is written.
    abbrev pub Served : List (List ℕ) → BlockchainRpc → Type 0
    Served [] r = Unit
    Served (line ∷ lines) r =
        (req : List ℕ) × (v : Reply) × IsRequest from_utf8 line req
        × ((command req r).1 ≡ ok v)
        × (write (reply v) ≡ ok tt)
        × Served lines (command req r).0

    handle_replies-request :
        (req : List ℕ) (v : Reply) (r : BlockchainRpc) (sent : List (Sent Reply))
        (ms : List Message)
        → (command req r).1 ≡ ok v
        → write (reply v) ≡ ok tt
        → handle_replies command status write (request req ∷ ms) r sent
          ≡ handle_replies command status write ms (command req r).0 (sent ++ reply v ∷ [])
    unfolding handle_replies handle_message send_values
    handle_replies-request req v r sent ms answered wrote = ground (arith, answered, wrote)

    -- When each line before a failed read is a request that succeeds where it is handled and whose
    -- reply is written, the reader has ended with the failure, and the loop over its messages still
    -- waits.
    pub read_failure_waits :
        (lines : List (List ℕ)) (e : ErrorKind) (r : BlockchainRpc) (sent : List (Sent Reply))
        → Served lines r
        → ((parse_requests from_utf8 (map ok lines ++ err e ∷ [])).1 ≡ some (err e))
          × ((handle_replies command status write
                (parse_requests from_utf8 (map ok lines ++ err e ∷ [])).0
                r
                sent).1
              ≡ none)
    read_failure_waits [] e r sent all =
        (unfold parse_requests in refl, unfold parse_requests handle_replies in refl)
    read_failure_waits (line ∷ lines) e r sent (req, v, is, answered, wrote, rest) =
        let step = parse_requests-request line req (map ok lines ++ err e ∷ []) is in
        let next = read_failure_waits lines e (command req r).0 (sent ++ reply v ∷ []) rest in
        (
          ap (λ s. s.1) step ∙ next.0,
          ap (λ s. (handle_replies command status write s.0 r sent).1) step
              ∙ ap (λ s. s.1)
                  (handle_replies-request req v r sent
                    (parse_requests from_utf8 (map ok lines ++ err e ∷ [])).0 answered wrote)
              ∙ next.1,
        )
