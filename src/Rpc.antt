-- ===== src/Rpc.antt =====
-- src/rpc/mod.rs: the reader of a connection, the loop that handles its messages, and the script
-- hashes that a change of transactions notifies. A line that is read, or the failure to read it, is
-- a parameter, as are the answer to a request's line, the outcome of a write to the client, and the
-- answers of the queries. The channels stay open. The order of a hash set is that of a list.
pub mod Session
pub mod Changes
pub mod Version
pub mod Params
mod Tests
use electrs_cash.Common.{
  ℕ, Bool, true, false, Option, none, some, List, [], ◌∷◌, ◌++◌, map, if◌then◌else◌, length,
  get_elem?, ltb,
}
use electrs_cash.Errors.{Result, ok, err, panic, msg, expect, ◌>>=◌}
use electrs_cash.HeaderList.{HeaderEntry}
use electrs_cash.Mempool.{mem}
use electrs_cash.Rows.{OutPoint, TxIn, TxOut, Transaction}
use electrs_cash.Store.{starts_with}
use electrs_cash.Subscriptions.{
  BlockchainRpc, Notification, on_scripthash_change, on_chaintip_change,
}

pub data Message : Type 0 where
  request : List ℕ → Message
  script_hash_change : ℕ → Message
  chain_tip_change : HeaderEntry → Message
  done : Message

-- The messages of the reader, and its result, none while it waits for the client.
unfoldable pub parse_requests :
    (List ℕ → Option (List ℕ)) → List (Result (List ℕ)) → List Message × Option (Result (Unit {0}))
parse_requests from_utf8 [] = ([], none)
parse_requests from_utf8 (panic ∷ reads) = ([], some panic)
parse_requests from_utf8 (err e ∷ reads) = ([], some (err e))
parse_requests from_utf8 (ok [] ∷ reads) = (done ∷ [], some (ok tt))
parse_requests from_utf8 (ok (b ∷ line) ∷ reads) =
    let rest = parse_requests from_utf8 reads in
    if starts_with (22 ∷ 3 ∷ 1 ∷ []) (b ∷ line)
    then (done ∷ [], some (err msg))
    else elim (from_utf8 (b ∷ line)) [
      | none ↦ (done ∷ [], some (err msg))
      | some req ↦ (request req ∷ rest.0, rest.1)
    ]

-- What is written to the client: the reply to a request, or a notification.
pub data Sent (Reply : Type 0) : Type 0 where
  reply : Reply → Sent Reply
  notification : Notification → Sent Reply

-- `send_values`; `write` is the outcome of one write to the client.
unfoldable pub send_values :
    {Reply : Type 0} → (Sent Reply → Result (Unit {0})) → List (Sent Reply) → Result (Unit {0})
send_values write [] = ok tt
send_values write (v ∷ values) = elim (write v) [
  | panic ↦ panic
  | err e ↦ err e
  | ok _ ↦ send_values write values
]

-- The values to send for a message, none to end the loop.
abbrev pub Handled : Type 0 → Type 0
Handled Reply = BlockchainRpc × Result (Option (List (Sent Reply)))

abbrev pub notified :
    {Reply : Type 0} → BlockchainRpc × Result (Option Notification) → Handled Reply
notified (r, panic) = (r, panic)
notified (r, err e) = (r, err e)
notified (r, ok none) = (r, ok (some []))
notified (r, ok (some n)) = (r, ok (some (notification n ∷ [])))

abbrev pub replied : {Reply : Type 0} → BlockchainRpc × Result Reply → Handled Reply
replied (r, panic) = (r, panic)
replied (r, err e) = (r, err e)
replied (r, ok v) = (r, ok (some (reply v ∷ [])))

module _ {Reply : Type 0} (command : List ℕ → BlockchainRpc → BlockchainRpc × Result Reply)
    (status : ℕ → Result (Option ℕ)) (write : Sent Reply → Result (Unit {0})) where
  unfoldable pub handle_message : Message → BlockchainRpc → Handled Reply
  handle_message (request line) r = replied (command line r)
  handle_message (script_hash_change hash) r = notified (on_scripthash_change status hash r)
  handle_message (chain_tip_change tip) r = notified (on_chaintip_change tip r)
  handle_message done r = (r, ok none)

  -- The loop over the messages: the state, what was sent, and the result, none while it waits.
  unfoldable pub handle_replies :
      List Message
      → BlockchainRpc
      → List (Sent Reply)
      → (BlockchainRpc × List (Sent Reply)) × Option (Result (Unit {0}))
  handle_replies [] r sent = ((r, sent), none)
  handle_replies (m ∷ messages) r sent =
      let r' = (handle_message m r).0 in
      elim (handle_message m r).1 [
        | panic ↦ ((r', sent), some panic)
        | err e ↦ ((r', sent), some (err e))
        | ok none ↦ ((r', sent), some (ok tt))
        | ok (some values) ↦ elim (send_values write values) [
          | panic ↦ ((r', sent), some panic)
          | err e ↦ ((r', sent), some (err e))
          | ok _ ↦ handle_replies messages r' (sent ++ values)
        ]
      ]

-- The hashes of the scripts of a transaction's outputs, or of one of them.
unfoldable pub get_output_scripthash : (List ℕ → ℕ) → Transaction → Option ℕ → Result (List ℕ)
get_output_scripthash compute_script_hash txn none =
    ok (map (λ (o : TxOut). compute_script_hash o.script_pubkey) txn.output)
get_output_scripthash compute_script_hash txn (some n) = do
  o ← expect (get_elem? txn.output n)
  ok (compute_script_hash o.script_pubkey ∷ [])

-- `HashSet::insert` of all elements of a list.
unfoldable pub insert_all : List ℕ → List ℕ → List ℕ
insert_all [] s = s
insert_all (h ∷ hs) s = insert_all hs (if mem h s then s else h ∷ s)

module _ (compute_script_hash : List ℕ → ℕ) (is_null : OutPoint → Bool)
    (get_tx : ℕ → Option ℕ → Result Transaction) where
  -- The hashes of the outputs that the inputs spend.
  unfoldable pub spent_scripthashes : List TxIn → Result (List ℕ)
  spent_scripthashes [] = ok []
  spent_scripthashes (txin ∷ r) = if is_null txin.previous_output then spent_scripthashes r else (do
    txn ← get_tx txin.previous_output.txid none
    hashes ← get_output_scripthash compute_script_hash txn (some txin.previous_output.vout)
    rest ← spent_scripthashes r
    ok (hashes ++ rest))

  unfoldable pub get_scripthashes_effected_by_tx : ℕ → Option ℕ → Result (List ℕ)
  get_scripthashes_effected_by_tx txid blockhash = do
    txn ← get_tx txid blockhash
    scripthashes ← get_output_scripthash compute_script_hash txn none
    spent ← spent_scripthashes txn.input
    ok (scripthashes ++ spent)

  -- `insert_for_tx`, on the transactions that are done and the script hashes.
  unfoldable pub insert_for_tx : ℕ → Option ℕ → List ℕ × List ℕ → Result (List ℕ × List ℕ)
  insert_for_tx txid blockhash (txn_done, scripthashes) =
      if mem txid txn_done
      then ok (txn_done, scripthashes)
      else elim (get_scripthashes_effected_by_tx txid blockhash) [
        | panic ↦ panic
        | err e ↦ ok (txid ∷ txn_done, scripthashes)
        | ok hashes ↦ ok (txid ∷ txn_done, insert_all hashes scripthashes)
      ]

  unfoldable pub insert_for_txs : List ℕ → Option ℕ → List ℕ × List ℕ → Result (List ℕ × List ℕ)
  insert_for_txs [] blockhash s = ok s
  insert_for_txs (txid ∷ r) blockhash s = do
    next ← insert_for_tx txid blockhash s
    insert_for_txs r blockhash next

  -- The loop over the changed headers. A block whose ids are not to be had is left out.
  unfoldable pub insert_for_headers :
      (ℕ → Result (List ℕ)) → List HeaderEntry → List ℕ × List ℕ → Result (List ℕ × List ℕ)
  insert_for_headers getblocktxids [] s = ok s
  insert_for_headers getblocktxids (h ∷ r) s = elim (getblocktxids h.hash) [
    | panic ↦ panic
    | err e ↦ insert_for_headers getblocktxids r s
    | ok txids ↦ do
      next ← insert_for_txs txids (some h.hash) s
      insert_for_headers getblocktxids r next
  ]

  -- The script hashes that are sent to the notifier.
  unfoldable pub notify_scripthash_subscriptions :
      (ℕ → Result (List ℕ)) → List HeaderEntry → List ℕ → Result (List ℕ)
  notify_scripthash_subscriptions getblocktxids headers_changed txs_changed = do
    confirmed ← insert_for_headers getblocktxids headers_changed ([], [])
    all ← insert_for_txs txs_changed none confirmed
    ok (all.1)
