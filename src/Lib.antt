-- ===== src/Lib.antt =====
-- Ramose, a database of immutable datoms: the core of packages/ramose/src/internal/core.
--
-- A datom `[e a v t op]` asserts or retracts a value of an attribute of an entity in a transaction.
-- Datoms are kept sorted in up to four orders, in tree leaves and, for the datoms that are newer than
-- the tree, in novelty. A read of a prefix scans the leaves as a stream of chunks, merges the novelty
-- into it, and collapses the history of each fact into the facts that hold.
--
--   Datom    datom.ts: the value model, the comparators of the four indexes, `comparePrefix`. Datom/Text
--            has strings and byte strings, Datom/Values tagged values, Datom/Order and Datom/Ranges the
--            theorems on index orders and on prefixes.
--   Tree     tree.ts: the binary and galloping searches, `sortedUnion`, `Chunk`. Theorems stand in
--            Tree/Search, Tree/Bounds and Tree/Union. Tree/Shapes has `prefixComparator`, Tree/Store the
--            nodes and their store, Tree/Nodes their codec, Tree/Build `buildTree`, Tree/Merge `mergeTree`,
--            Tree/Scan `scan`, Tree/Walk `childForPrefix` and `treeDepth`.
--   Novelty  novelty.ts: `SortedNovelty` and `Novelty` with all their methods (Novelty/Sort has the sort
--            and the removal of duplicates), `mergeChunks` (Novelty/Merge), `isPlainChunk` and
--            `collapseCurrent` (Novelty/Collapse), `currentView`, `filterAsOf` and `rawView`
--            (Novelty/View). Theorems stand in Novelty/Flush, Novelty/Runs, Novelty/Present,
--            Novelty/View/Stream and Novelty/Merge/Whole, their lemmas beside them.
--   Bytes    bytes.ts: the writer and the reader, with varints; Bytes/Floats has `f64`. Theorems
--            stand in Bytes/Sizes, Bytes/Codec and Bytes/Floats, lemmas in Bytes/Write and Bytes/Read.
--   Segment  segment.ts: the codec of segments (leaves) and of single datoms, over the methods of Bytes;
--            Segment/Columns has the columns, Segment/Uuid the uuid codec of datom.ts, Segment/Text what
--            is relied on of the platform's text codec. Theorems stand in Segment/Rows, Segment/Columns
--            and Segment/RoundTrip.
--   Log      log.ts: the codec of the chunks of the transaction log.
--   Schema   schema.ts: `attributeDatoms` and the constants; Schema/Names has the names of types,
--            cardinalities and kinds of uniqueness, Schema/Partials the descriptions read so far,
--            Schema/Projection the class `Schema`, Schema/Bootstrap the bootstrap datoms. Theorems stand in
--            Schema/Projection/Specified, lemmas beside it.
--   Db       db.ts: snapshots and their reads. Theorems stand in Db/Reads, Db/History and Db/Repeat.
--   Conn     conn.ts: the connection as a state; Conn/Load has `buildRoots` and `fromDatoms`. Theorems
--            stand in Conn/Indexed and Conn/Loaded, their lemmas in Conn/Indexing and Conn/Remaining.
--   Base     shared helpers: Boolean tests, lists over the native numbers, orders, sorted lists,
--            and Base/Dict for a `Map`, an association list in the order of insertion.
--   Tests    concrete inputs.
--
-- How the source is read. An integer that is never negative (ids, transactions, positions) is a native
-- number. A comparator's result is an `Ordering`; `a || b` on results is `or_else`. A method that
-- changes `this` is a function to the new state. An async generator is a function from the list of
-- chunks it receives to the list of chunks or arrays it yields. A datom's `vt` and `v` are one value
-- of the type `Value`; a payload fits its tag, as `normalizeValue` of datom.ts leaves the pair, so a
-- double is neither NaN nor -0 and is given by the sign and magnitude of its bit pattern, which IEEE
-- 754 orders like the number; the writer and the reader of bytes.ts have -0 as well, and what the segment
-- codec reads as -0 is the value 0. A string is its list of UTF-16 code units. `p.sort(cmp)` is a stable
-- sort by insertion. A writer is the bytes before `pos` and the length of its buffer; a write outside
-- the buffer, which a typed array drops, is an error of the model. A reader is the bytes behind `pos`.
--
-- Bounds and fuel. `(lo + hi) >>> 1` is taken modulo 2^32, so that the searches are right for arrays
-- shorter than 2^31, and the galloping ones for arrays shorter than 2^30, where the step is still a
-- positive 32-bit integer. The searches run on fuel of one more than the length, which the theorems
-- show to be enough for any list within the bound. The buffer doubles on fuel of the bytes needed, and
-- `uvar` loops on fuel 10; both are enough for every non-empty buffer and every safe integer. A writer
-- made with an empty buffer would double 0 for ever, and no caller makes one. A reader's sum is exact:
-- the source's doubles are exact up to 2^53, which no encoding of a safe integer passes.
--
-- `decodeSegment` sums differences, so that its ids are integers. `TextEncoder` and `TextDecoder` are a
-- parameter of the segment codec; the law on them is the round trip on strings whose surrogates are
-- paired and that do not begin with U+FEFF, which `TextDecoder` drops. The loops over groups of eight
-- operations run on fuel of the number of datoms.
--
-- The node store is a parameter, a state with `put` and `load` (`peek` and `load` of the source in one);
-- the laws on it are that a stored node can be loaded and that no node changes. `buildTree` takes the
-- leaf size and the fanout that its options or its defaults give; a fanout of 1 would build levels for
-- ever, so that the theorem asks for 2. Its loops run on fuel of the number of datoms or entries, which
-- is enough because groups of two or more shorten a level. `treeDepth` runs on fuel of the depth. `scan`
-- reads one state of the store, and its stack holds what is left of each directory's children; its fuel
-- counts the leaves that it visits and the directories that it leaves. `mergeNode` runs on fuel of more
-- than the depth; the novelty of a child is the list itself, so that positions in it count from its
-- start. `mergeTree` compares hashes to see whether a child changed, and the law it needs is that
-- references with the same hash load the same node; that storing a node changes no other is then the
-- law that hashes do not collide.
--
-- A snapshot carries the state of the store that it reads and the novelty, which a read flushes; the
-- whole of a read is awaited, also by `first`. A connection is a state; its options are the leaf size
-- and the fanout, and what is rejected is none. `index` and the calls around it are single steps: what
-- another call does while it awaits the store is not modelled. The schema attributes have values of
-- their types, as `coerce` leaves them. `VALUE_TYPE_IDENTS` is a plain object, and the constructor
-- `inherited` stands for what it finds in `Object.prototype`.
--
-- Not modelled: batched seeks, counts and reachability of trees, transactions, entity look-ups of a
-- snapshot, restoring a connection, the memory store, policies, queries, the transactor, replicas and
-- storage, the client, the worker and the React bindings; hashing and compression, which the platform
-- provides.
pub mod Base
pub mod Bytes
pub mod Conn
pub mod Datom
pub mod Db
pub mod Log
pub mod Novelty
pub mod Schema
pub mod Segment
pub mod Tests
pub mod Tree
