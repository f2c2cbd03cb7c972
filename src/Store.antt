-- ===== src/Store.antt =====
-- src/store.rs: rows, the interface of a store that is read, and scans by a prefix of the key.
-- Bytes are numbers. RocksDB is a parameter: what its iterator yields from a key on, and the answer
-- of `get`.
pub mod Scan
mod Tests
use electrs_cash.Common.{
  ℕ, zero, suc, Bool, true, false, not, ◌&&◌, Option, none, some, List, [], ◌∷◌, ◌++◌, map, ltb,
  ◌==◌, if◌then◌else◌, length,
}
use electrs_cash.Common.Text.{codes, text_eq}

pub record Row : Type 0 where
  pub key : List ℕ
  pub value : List ℕ

abbrev pub into_pair : Row → List ℕ × List ℕ
into_pair row = (row.key, row.value)

-- What a client asks of a store.
pub record ReadStore : Type 0 where
  pub get : List ℕ → Option (List ℕ)
  pub scan : List ℕ → List Row

-- `starts_with`, the prefix first.
abbrev pub starts_with : List ℕ → List ℕ → Bool
starts_with [] key = true
starts_with (p ∷ ps) [] = false
starts_with (p ∷ ps) (k ∷ ks) = p == k && starts_with ps ks

-- The loop of `scan`, over the items of the iterator.
unfoldable pub scan_items : List ℕ → List (List ℕ × List ℕ) → List Row
scan_items prefix [] = []
scan_items prefix ((key, value) ∷ items) =
    let rest = scan_items prefix items in
    if not (starts_with prefix key) then [] else (record { key = key; value = value }) ∷ rest

-- `DbStore::scan`; `iterator` is RocksDB's from a key on, forwards.
unfoldable pub scan : (List ℕ → List (List ℕ × List ℕ)) → List ℕ → List Row
scan iterator prefix = scan_items prefix (iterator prefix)

-- The items that RocksDB's iterator has left are the field `iter`.
pub record ScanIterator : Type 0 where
  pub prefix : List ℕ
  pub iter : List (List ℕ × List ℕ)
  pub done : Bool

unfoldable pub iter_scan : (List ℕ → List (List ℕ × List ℕ)) → List ℕ → ScanIterator
iter_scan prefix_iterator prefix = record {
  prefix = prefix;
  iter = prefix_iterator prefix;
  done = false;
}

unfoldable pub next : ScanIterator → Option Row × ScanIterator
next s = if s.done then (none, s) else step s.iter
  where
    step : List (List ℕ × List ℕ) → Option Row × ScanIterator
    step [] = (none, s)
    step ((key, value) ∷ items) =
        if not (starts_with s.prefix key)
        then (none, record s { iter = items; done = true })
        else (some (record { key = key; value = value }), record s { iter = items })

-- The puts of a batch, in order.
unfoldable pub write_batch : List Row → List (List ℕ × List ℕ)
write_batch rows = map into_pair rows

unfoldable pub full_compaction_marker : Row
full_compaction_marker = record { key = b'F' ∷ []; value = [] }

unfoldable pub version_marker : List ℕ → Row
version_marker database_version = record { key = b'V' ∷ b'E' ∷ b'R' ∷ []; value = database_version }

unfoldable pub is_compatible_version : (List ℕ → Option (List ℕ)) → List ℕ → ReadStore → Bool
is_compatible_version from_utf8 database_version store =
    elim (store.get (version_marker database_version).key) [
      | none ↦ false
      | some v ↦ elim (from_utf8 v) [ none ↦ false | some text ↦ text_eq text database_version ]
    ]

unfoldable pub is_fully_compacted : ReadStore → Bool
is_fully_compacted store = elim (store.get full_compaction_marker.key) [
  | none ↦ false
  | some _ ↦ true
]
