-- ===== src/Lib.antt =====
-- Verification library of ElectrsCash, an Electrum server for Bitcoin Cash.
--
-- The server follows a Bitcoin Cash node (src/daemon.rs) and keeps a list of the block headers it has
-- indexed (src/util.rs), with rows in a database (src/index.rs, src/store.rs) that are first filled from
-- the node's block files (src/bulk.rs). Transactions of the node's mempool are tracked in memory (src/mempool.rs),
-- caches stand before the node (src/cache.rs over src/rndcache.rs), queries build Merkle proofs from
-- the header list and the node's blocks and give a script's status (src/query/mod.rs), and each connection holds subscriptions
-- (src/rpc/blockchain.rs) within the limits of src/doslimit.rs. WebSocket clients reach the RPC server
-- through a proxy (src/wstcp). The files of this library model these parts:
--
-- Common, with Map, Int and Text: lists, association lists for hash maps, integers and byte strings.
-- Errors: src/errors.rs; a result is `ok`, `err` or `panic`, the last for a failed assertion, an
--   `unwrap` of nothing, an index out of range or a loop out of fuel.
-- HeaderList: `HeaderList` of src/util.rs; `order`, `apply` and the lookups, with their loops as
--   structural recursion. Hashes are numbers, 0 is the null hash, and the hash of a header is a
--   parameter.
-- RndCache: `RndCache` of src/rndcache.rs, over interfaces for the crate indexmap's map and a random
--   generator. The eviction loop of `put` has one round of fuel for each entry, which is enough, as
--   an empty cache fits any value that `put` lets through. RndCache.Front is src/cache.rs.
-- DosLimit: src/doslimit.rs; the counters are compared with the list of the connected peers.
-- Subscriptions: the subscription calls and notifications of `BlockchainRpc` in
--   src/rpc/blockchain.rs; the answers of the query component and the address decoder are parameters,
--   and a parameter of a call comes as its parsing leaves it.
-- Rpc: src/rpc/mod.rs; the reader and the loop of a connection, whose waiting is the result `none`, and
--   the script hashes that a change of transactions notifies. The answer to a request is a parameter.
--   Rpc.Version is `server_version` of src/rpc/server.rs, Rpc.Params is src/rpc/parseutil.rs.
-- Merkle: `create_merkle_branch_and_root` and the proofs of src/query/mod.rs, over any hash function.
--   The loop has fuel for one turn more than there are hashes, and each turn at least shortens them.
-- Status: `Status` of src/query/mod.rs: balances, history and unspent outputs; sorting is by insertion.
-- Mempool: `MempoolStore` and `Tracker` of src/mempool.rs; the rows of a transaction are a parameter,
--   of which it is only used that a key determines the value, and the node's answers are parameters.
--   Steps has the loops of an update.
-- Store: src/store.rs over RocksDB's iterator as a parameter; a scan is compared with the rows of the
--   whole table.
-- Rows: the rows of src/index.rs, with the crates that make bytes as the fields of a `Codec`. InRow,
--   OutRow and IdRow are `TxInRow`, `TxOutRow` and `TxRow`.
-- Index: `index_transaction`, `index_block` and `read_indexed_headers` of src/index.rs; the walk over
--   the stored headers has one turn of fuel for each, and one more. Index.Update is `Index::update`,
--   over the node's answers and the cash-account parser as parameters, with the log of its writes;
--   Index.Unconfirmed puts the rows into the mempool's index.
-- Bulk: src/bulk.rs; `parse_blocks` has one turn of fuel for each byte and one more, and each turn
--   moves forward. Format describes the files that the node writes, and Cut those that end within a
--   block.
-- Daemon: `get_new_headers` of src/daemon.rs; the fuel is more than the number of missing headers.
--   Daemon.Download is `get_all_headers`, with fuel for one chunk more than there are heights, and
--   `load_headers` of src/bulk.rs, which uses it. Daemon.Reply is `parse_jsonrpc_reply` and
--   `retry_request_batch`; out of fuel is the result `none`.
-- Wstcp: src/wstcp; Opcode is opcode.rs, Header, Encoder and Payload are frame.rs, Handshake and
--   Closing are channel.rs. The crates byteorder and bytecodec are interfaces with the laws used.
--
-- In each tree the parent has the definitions, its children the lemmas and the properties, and Tests
-- concrete values. Where a sum or a difference can leave its width, the wrap-around is written out.
--
-- Not modelled: metrics and logging, locks (a call under one lock is one step), the database, the
-- threads, the command line, the JSON text of requests and answers, fee rates as floats, the order of
-- a hash set (a list gives one order), and the parts of the RPC dispatch and of the queries that
-- these files do not name.
pub mod Bulk
pub mod Status
pub mod Rpc
pub mod Store
pub mod Rows
pub mod Index
pub mod Common
pub mod Errors
pub mod HeaderList
pub mod Wstcp
pub mod RndCache
pub mod DosLimit
pub mod Subscriptions
pub mod Merkle
pub mod Mempool
pub mod Daemon
