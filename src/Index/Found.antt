-- ===== src/Index/Found.antt =====
-- src/index.rs: the rows of a transaction, as scans by a prefix and the index of the mempool find
-- them.
use electrs_cash.Common.{
  ℕ, suc, ◌≡◌, refl, sym, ap, ◌∙◌, Bool, false, ◌&&◌, Option, none, some, Option-cases, List, [],
  ◌∷◌, ◌++◌, map, arith, ◌==◌, if◌then◌else◌, length, All, ◌%◌, ◌^◌, Bool-cases, inl, inr,
}
use mathlib.Core.List.{append-nil}
use electrs_cash.Common.Text.{text_eq}
use electrs_cash.Store.{Row, into_pair, starts_with}
use electrs_cash.Store.Scan.{matching}
use electrs_cash.Rows.{
  Codec, TxIn, TxOut, TxInRow, TxOutRow, TxOutKey, TxKey, Transaction, hash_prefix,
}
use electrs_cash.Rows
use electrs_cash.Index.{index_inputs, index_outputs, index_transaction, option_rows}

-- The first byte of a row is its key's code, and the fields follow in their order.
pub record KeyBytes (codec : Codec) : Type 0 where
  pub tx_in_row : (r : TxInRow) → (tail : List ℕ) × (codec.tx_in_row r ≡ r.key.code ∷ tail)
  pub tx_out_key : (k : TxOutKey) → codec.tx_out_key k ≡ k.code ∷ k.script_hash_prefix
  pub tx_out_row :
      (r : TxOutRow)
      → (tail : List ℕ) × (codec.tx_out_row r ≡ r.key.code ∷ (r.key.script_hash_prefix ++ tail))
  pub tx_key : (k : TxKey) → codec.tx_key k ≡ k.code ∷ k.txid

All-append : (P : Row → Type 0) (xs ys : List Row) → All P xs → All P ys → All P (xs ++ ys)
All-append P [] ys a b = b
All-append P (x ∷ xs) ys a b = (a.0, All-append P xs ys a.1 b)

starts_with-append :
    (p k tail : List ℕ) → length p ≡ length k → starts_with p (k ++ tail) ≡ text_eq p k
starts_with-append [] [] tail len = refl
starts_with-append [] (y ∷ k) tail len = absurd (omega arith)
starts_with-append (x ∷ p) [] tail len = absurd (omega arith)
starts_with-append (x ∷ p) (y ∷ k) tail len =
    ap (λ (b : Bool). x == y && b) (starts_with-append p k tail (omega arith))

matching-append :
    (p : List ℕ) (xs ys : List Row)
    → matching p (map into_pair (xs ++ ys))
      ≡ matching p (map into_pair xs) ++ matching p (map into_pair ys)
matching-append p [] ys = refl
matching-append p (x ∷ xs) ys = elim (Bool-cases (starts_with p x.key)) [
  | inl within ↦ ground (arith, within, matching-append p xs ys)
  | inr other ↦ ground (arith, other, matching-append p xs ys)
]

module _ (codec : Codec) (bytes : KeyBytes codec) where
  -- The value that a row of a transaction at a height has, by its key.
  abbrev pub value_of : ℕ → List ℕ → List ℕ
  value_of height [] = []
  value_of height (c ∷ key) = if c == b'T' then codec.height height else []

  -- The row has the value of its key.
  abbrev pub HasValue : ℕ → Row → Type 0
  HasValue height row = row.value ≡ value_of height row.key

  in_row-HasValue :
      (height txid : ℕ) (i : TxIn)
      → HasValue height (Rows.InRow.to_row codec (Rows.InRow.new codec txid i))
  unfolding Rows.InRow.to_row Rows.InRow.new
  in_row-HasValue height txid i =
      sym (ap (value_of height) (bytes.tx_in_row (Rows.InRow.new codec txid i)).1)

  out_row-HasValue :
      (height txid n : ℕ) (o : TxOut)
      → HasValue height (Rows.OutRow.to_row codec (Rows.OutRow.new codec txid o n))
  unfolding Rows.OutRow.to_row Rows.OutRow.new
  out_row-HasValue height txid n o =
      sym (ap (value_of height) (bytes.tx_out_row (Rows.OutRow.new codec txid o n)).1)

  id_row-HasValue :
      (height txid : ℕ)
      → HasValue height (Rows.IdRow.to_row codec (Rows.IdRow.new codec txid height))
  unfolding Rows.IdRow.to_row Rows.IdRow.new
  id_row-HasValue height txid =
      sym
        (ap (value_of height) (bytes.tx_key (record { code = b'T'; txid = codec.hash_bytes txid })))

  inputs-HasValue :
      (height txid : ℕ) (inputs : List TxIn)
      → All (HasValue height) (index_inputs codec txid inputs)
  unfolding index_inputs
  inputs-HasValue height txid [] = tt
  inputs-HasValue height txid (i ∷ r) = elim (Bool-cases (i.previous_output.txid == 0)) [
    | inl null ↦ rw null (inputs-HasValue height txid r)
    | inr other ↦ rw other (in_row-HasValue height txid i, inputs-HasValue height txid r)
  ]

  outputs-HasValue :
      (height txid n : ℕ) (outputs : List TxOut)
      → All (HasValue height) (index_outputs codec txid n outputs)
  unfolding index_outputs
  outputs-HasValue height txid n [] = tt
  outputs-HasValue height txid n (o ∷ r) =
      (out_row-HasValue height txid n o, outputs-HasValue height txid (suc n) r)

  pub index_transaction-HasValue :
      (txn : Transaction) (height : ℕ)
      → All (HasValue (height % 2 ^ 32)) (index_transaction codec txn height none)
  unfolding index_transaction
  index_transaction-HasValue txn height =
      let h : ℕ = height % 2 ^ 32 in
      All-append (HasValue h) (index_inputs codec txn.txid txn.input) _
        (inputs-HasValue h txn.txid txn.input)
        (All-append (HasValue h) (index_outputs codec txn.txid 0 txn.output) _
          (outputs-HasValue h txn.txid 0 txn.output) (id_row-HasValue h txn.txid, tt))

  -- The rows of the outputs whose script's hash begins as the given one does.
  abbrev pub paying : List ℕ → ℕ → ℕ → List TxOut → List Row
  paying script_hash txid i [] = []
  paying script_hash txid i (o ∷ r) =
      if text_eq (hash_prefix script_hash) (hash_prefix (codec.compute_script_hash o.script_pubkey))
      then Rows.OutRow.to_row codec (Rows.OutRow.new codec txid o i)
        ∷ paying script_hash txid (suc i) r
      else paying script_hash txid (suc i) r

  in_row_other :
      (script_hash : List ℕ) (txid : ℕ) (i : TxIn)
      → starts_with
          (Rows.OutRow.filter codec script_hash)
          (Rows.InRow.to_row codec (Rows.InRow.new codec txid i)).key
        ≡ false
  unfolding Rows.InRow.to_row Rows.InRow.new Rows.OutRow.filter
  in_row_other script_hash txid i = ground (
    arith,
    (bytes.tx_in_row (Rows.InRow.new codec txid i)).1,
    bytes.tx_out_key (record { code = b'O'; script_hash_prefix = hash_prefix script_hash }),
  )

  id_row_other :
      (script_hash : List ℕ) (txid height : ℕ)
      → starts_with
          (Rows.OutRow.filter codec script_hash)
          (Rows.IdRow.to_row codec (Rows.IdRow.new codec txid height)).key
        ≡ false
  unfolding Rows.IdRow.to_row Rows.IdRow.new Rows.OutRow.filter
  id_row_other script_hash txid height = ground (
    arith,
    bytes.tx_key (record { code = b'T'; txid = codec.hash_bytes txid }),
    bytes.tx_out_key (record { code = b'O'; script_hash_prefix = hash_prefix script_hash }),
  )

  module _ (wide : (s : List ℕ) → length (hash_prefix (codec.compute_script_hash s)) ≡ 8) where
    out_row_paying :
        (script_hash : List ℕ) (txid n : ℕ) (o : TxOut)
        → length (hash_prefix script_hash) ≡ 8
        → starts_with
            (Rows.OutRow.filter codec script_hash)
            (Rows.OutRow.to_row codec (Rows.OutRow.new codec txid o n)).key
          ≡ text_eq
              (hash_prefix script_hash)
              (hash_prefix (codec.compute_script_hash o.script_pubkey))
    unfolding Rows.OutRow.to_row Rows.OutRow.new Rows.OutRow.filter
    out_row_paying script_hash txid n o enough =
        let row = bytes.tx_out_row (Rows.OutRow.new codec txid o n) in
        ap (λ p. starts_with p (codec.tx_out_row (Rows.OutRow.new codec txid o n)))
          (bytes.tx_out_key (record { code = b'O'; script_hash_prefix = hash_prefix script_hash }))
        ∙ ap (starts_with (b'O' ∷ hash_prefix script_hash)) row.1
        ∙ starts_with-append (hash_prefix script_hash)
            (hash_prefix (codec.compute_script_hash o.script_pubkey)) row.0
            (enough ∙ sym (wide o.script_pubkey))

    matching-inputs :
        (script_hash : List ℕ) (txid : ℕ) (inputs : List TxIn)
        → matching
            (Rows.OutRow.filter codec script_hash)
            (map into_pair (index_inputs codec txid inputs))
          ≡ []
    unfolding index_inputs
    matching-inputs script_hash txid [] = refl
    matching-inputs script_hash txid (i ∷ r) = elim (Bool-cases (i.previous_output.txid == 0)) [
      | inl null ↦ rw null (matching-inputs script_hash txid r)
      | inr other ↦ rw (other, in_row_other script_hash txid i) (matching-inputs script_hash txid r)
    ]

    matching-outputs :
        (script_hash : List ℕ) (txid n : ℕ) (outputs : List TxOut)
        → length (hash_prefix script_hash) ≡ 8
        → matching
            (Rows.OutRow.filter codec script_hash)
            (map into_pair (index_outputs codec txid n outputs))
          ≡ paying script_hash txid n outputs
    unfolding index_outputs
    matching-outputs script_hash txid n [] enough = refl
    matching-outputs script_hash txid n (o ∷ r) enough = ground (
      arith,
      out_row_paying script_hash txid n o enough,
      matching-outputs script_hash txid (suc n) r enough,
    )

    -- The rows of a transaction are those of its inputs, its outputs and its id, and a rest that a
    -- scan for a script does not find.
    index_transaction_parts :
        (script_hash : List ℕ) (txn : Transaction) (height : ℕ)
        (cash : Option (Transaction → ℕ → Option Row))
        → ((index : Transaction → ℕ → Option Row) (row : Row)
            → cash ≡ some index
            → index txn (height % 2 ^ 32) ≡ some row
            → (tail : List ℕ) × (row.key ≡ b'C' ∷ tail))
        → (rest : List Row) × (index_transaction codec txn height cash
            ≡ index_inputs codec txn.txid txn.input
              ++ (index_outputs codec txn.txid 0 txn.output
                  ++ (Rows.IdRow.to_row codec (Rows.IdRow.new codec txn.txid (height % 2 ^ 32))
                      ∷ rest)))
          × (matching (Rows.OutRow.filter codec script_hash) (map into_pair rest) ≡ [])
    unfolding index_transaction option_rows Rows.OutRow.filter
    index_transaction_parts script_hash txn height none coded = ([], refl, refl)
    index_transaction_parts script_hash txn height (some index) coded =
        elim (Option-cases (index txn (height % 2 ^ 32))) [
          | inl no_row ↦ ([], ground (arith, no_row), refl)
          | inr (row, found) ↦ (
            row ∷ [],
            ground (arith, found),
            ground (
              arith,
              (coded index row refl found).1,
              bytes.tx_out_key
                  (record { code = b'O'; script_hash_prefix = hash_prefix script_hash }),
            ),
          )
        ]

    -- Of the rows of a transaction, with or without the one of a cash account, the ones whose keys
    -- start with the filter of a script hash are exactly those of the outputs whose script's hash
    -- has the same first eight bytes, in their order: no row of an input, not the row of the id and
    -- not that of a cash account. The keys are assumed to be the code's byte and then the fields,
    -- and the code of a cash account's row to be its own.
    pub matching-index_transaction :
        (script_hash : List ℕ) (txn : Transaction) (height : ℕ)
        (cash : Option (Transaction → ℕ → Option Row))
        → length (hash_prefix script_hash) ≡ 8
        → ((index : Transaction → ℕ → Option Row) (row : Row)
            → cash ≡ some index
            → index txn (height % 2 ^ 32) ≡ some row
            → (tail : List ℕ) × (row.key ≡ b'C' ∷ tail))
        → matching
            (Rows.OutRow.filter codec script_hash)
            (map into_pair (index_transaction codec txn height cash))
          ≡ paying script_hash txn.txid 0 txn.output
    matching-index_transaction script_hash txn height cash enough coded =
        let p : List ℕ = Rows.OutRow.filter codec script_hash in
        let last_row = id_row_other script_hash txn.txid (height % 2 ^ 32) in
        let (rest, shape, unfound) = index_transaction_parts script_hash txn height cash coded in
        let ids : List Row =
          Rows.IdRow.to_row codec (Rows.IdRow.new codec txn.txid (height % 2 ^ 32)) ∷ rest in
        ap (λ (xs : List Row). matching p (map into_pair xs)) shape
        ∙ matching-append p (index_inputs codec txn.txid txn.input) _
        ∙ ap
            (λ xs.
              xs ++ matching p (map into_pair (index_outputs codec txn.txid 0 txn.output ++ ids)))
            (matching-inputs script_hash txn.txid txn.input)
        ∙ matching-append p (index_outputs codec txn.txid 0 txn.output) _
        ∙ ap (λ xs. xs ++ matching p (map into_pair ids))
            (matching-outputs script_hash txn.txid 0 txn.output enough)
        ∙ rw (last_row, unfound) (append-nil (paying script_hash txn.txid 0 txn.output))
