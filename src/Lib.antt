-- ===== src/Lib.antt =====
-- AceBase, a realtime database for Node.js and browsers: a model of its core, with proofs. The
-- database keeps a tree of nodes in one file of pages and records (src/storage/binary/index.ts),
-- finds values by B+trees (src/btree), locks paths while they are read or written
-- (src/node-lock.ts), and caches what it knows of nodes (src/node-cache.ts).
--
-- How the parts interact. Storage asks a NodeLocker for a lock on a path before it reads or
-- writes a node, and unlocks it afterwards. A write takes records from the free space table and
-- gives others back; the records of a node are its allocation, a list of address ranges, which is
-- what the free space table takes and returns. An index holds its keys in a B+tree, whose order
-- is that of typesafe-compare.ts; index files are built from numbers in bytes (binary.ts),
-- changed in steps that can be rolled back (btree/tx.ts), and guarded by thread-safe locks. An
-- index is built at once from its entries by a tree builder, and read from its file through a
-- buffer. What was read of a node goes to the node cache. Processes that share a database tell
-- each other as peers which events they want and that these happened.
--
-- Source paths below are from the root of the repository.
--
-- - Prelude (Tests, Lists, Keep, Parts): Boolean tests, lists over the native numbers and the
--   lemmas that all parts share.
--
-- - Order: the interface of linear orders, a three-way comparison with its laws, and the orders
--   of numbers, Booleans and strings. Compare fills it, BTree and Assoc take it as an instance
--   argument.
--
-- - Assoc: the language's maps, and objects by their keys, as lists of keys and values. NodeCache
--   and NodeChanges use it.
--
-- - Compare: src/btree/typesafe-compare.ts. get_comparable is _getComparibleValue, is_equal
--   _isEqual and so on, sort_compare _sortCompare. The values are those that can be keys, NaN and
--   invalid dates among them, but no other objects; the numbers that compare, and the bigints,
--   are of any linearly ordered type. Compare/Laws has the proofs, which are about the values
--   that compare.
--
-- - BTree: src/btree/tree.ts, tree-leaf.ts, tree-node.ts and utils.ts, the B+tree in memory. add,
--   leaf_add, find_leaf and find_values are the methods of these names; node_add and check_size
--   are insertKey and _checkSize. The objects, which name their parents and neighbours, are one
--   tree value. A node without entries, which a tree of one entry per node comes to have, makes
--   findLeaf throw, and so add, find and search. BTree/Put, Ordered, Split, Insert, Place and Add
--   are about adding; BTree/Search models search, and BTree/Descent and Found are about find and
--   search.
--
-- - Locker: src/node-lock.ts, NodeLocker and NodeLock.moveToParent. Promises are effects, a timer
--   is a call, the time is an argument; a locker is a record of its locks in the order of the
--   source's list. Locker/Ids, Exclusion, Queue, Waiting, Serve, Quit, Grants and Invariant have
--   the proofs.
--
-- - FreeSpace: the free space table FST of src/storage/binary/index.ts in the master process:
--   allocate, release, write and load. allocate and release end with the write, which drops the
--   smallest ranges above 8191. Ranges are values, found by their fields. FreeSpace/Sums counts
--   records by additive functions on ranges; Collect, Take, Scraps and Conserve are about
--   allocate, Released about release, File models the bytes of the table, and Load is about
--   reading them.
--
-- - Allocation: NodeAllocation of src/storage/binary/index.ts, its addresses, ranges and chunk
--   table types, and the place of a record in the file (getRecordFileIndex).
--
-- - Binary: src/binary.ts, byte lengths, signed numbers and signed offsets.
--
-- - NodeCache: src/node-cache.ts and the NodeInfo it holds. The relation of paths (PathInfo of
--   acebase-core) is a parameter, the clock an argument.
--
-- - ThreadSafe: ThreadSafeLock2 and ThreadSafe2 of src/thread-safe.ts, for one target. Anybody
--   can release it, as in the source; the theorems are about releases by those that hold it.
--
-- - TaskBatch: src/async-task-batch.ts. A task is its index, and its end is an event.
--
-- - Tx: src/btree/tx.ts, steps on a state of the caller's choice. An action or a rollback can be
--   rejected, and a rollback can throw.
--
-- - TreeBuilder: BPlusTreeBuilder of src/btree/tree-builder.ts, which builds a balanced tree from
--   sorted entries. When its map takes two keys for one is a parameter, MapKey, since a Map
--   compares dates by identity; the theorems on add and remove are about maps that do so just for
--   keys that compare equal, as strings and numbers. create_level makes the parents of one level,
--   create_levels the levels up to the root. TreeBuilder/Move, Level, Parents, Nodes, Leafs and
--   Bounds are about the levels, Create and Bulk about the tree, Sorting and Adding about the
--   entries, Removing about remove.
--
-- - Ipc: AceBaseIPCPeer of src/ipc/ipc.ts with the subscriptions of src/storage/index.ts.
--   Messages are values: an operation gives the peer and what it sends and calls. Ipc/Calls has
--   the calls and messages a peer gets; Dropped, Bye, Remote and Run are about what they keep of
--   Ipc/Synced; Delivery is about events, Silence about their end.
--
-- - NodeChanges: NodeChangeTracker of src/node-changes.ts. NodeChanges/Apply is about the getters
--   of the old and the new value, Track and Difference about create, and RoundTrip about both.
--
-- - WorkerLocks: the locks that a worker asks the master for, and its exit, in src/ipc/ipc.ts. A
--   promise that waits for a result is a pending request, and goes on at once when the result
--   comes. WorkerLocks/Run has the relation of steps, Pending, Removing and Answers what each
--   step keeps.
--
-- - Reader: BinaryReader of src/btree/binary-reader.ts, a buffer on a file that is its bytes.
--   Reader/Buffer is about what the buffer holds, Reader/Refines compares one call with the file
--   itself, Reader/Runs sequences of calls.
--
-- Loops and fuel. Loops are structural recursion where the source goes over a list. The loop of
-- allocate that adds pages has fuel for as many rounds as records are required, enough since each
-- page has a record at least, which is a hypothesis where it matters; normalize, of free ranges
-- and of allocations, has fuel for as many rounds as there are ranges, and each round uses one
-- up. The builder makes levels for as many rounds as there are leafs, enough since a level has
-- fewer nodes than the one below. The locker, the trees and the cache need no fuel.
--
-- Numbers are natural numbers, which is what lengths, times, pages and records are in the source;
-- bytes are written out with their bounds. JavaScript's numbers are exact below 2^53.
--
-- Not modelled: the storage backends for SQLite, SQL Server, local storage, IndexedDB and custom
-- ones; the reading and writing of nodes in the binary file beyond the parts above; the binary
-- form of B+trees (binary-tree.ts and its builder) and the decoding of its keys; data indexes
-- (array, full text, geo), queries, the master's side of the locks of workers and the transports
-- of their messages, the API and the schema. Most of them are glue between files, sockets and
-- other packages and the parts above.
pub mod Allocation
pub mod Assoc
pub mod BTree
pub mod Binary
pub mod Compare
pub mod FreeSpace
pub mod Ipc
pub mod Locker
pub mod NodeCache
pub mod NodeChanges
pub mod Order
pub mod Prelude
pub mod Reader
pub mod TaskBatch
pub mod ThreadSafe
pub mod TreeBuilder
pub mod Tx
pub mod WorkerLocks
