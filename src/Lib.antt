-- ===== src/Lib.antt =====
-- crazygraphstore, a graph store on a log-structured merge tree.
--
-- A write goes through a lane: it is appended to the lane's write-ahead log (pkg/wal) and put into
-- its memtable (pkg/memtable). A full memtable is frozen, and the flusher (pkg/persistence) writes it
-- to an SSTable file (pkg/sstable), whose blocks a reader finds through an index. Compaction
-- (pkg/compaction) merges such files, and the manifest (pkg/manifest) lists them. After a crash the log
-- is replayed into a new memtable. Nodes and edges (pkg/graph) are stored as bytes. The engine
-- (pkg/storage) chooses the lane of a key by its hash, and its reads go through a cache (pkg/cache).
--
-- Common: names that every module uses. Strings and byte slices are lists of numbers (Bytes), a Go
-- map is an association list (Common.Maps), the fixed-width integers of encoding/binary are
-- Common.Words, and a call that returns an error or panics is an Outcome.
--
-- Memtable (pkg/memtable/memtable.go): put, get, remove, freeze, entries and clear are Put, Get,
-- Delete, Freeze, Entries and Clear. A tombstone is `some none`, the nil that Delete stores. The order
-- in which sync.Map.Range visits is a parameter. Memtable.Adjacency is AdjacencyMemtable and
-- parseEdgeList, and Common.Runes the loop over the runes of a string. Operations happen one after another; the atomics and locks are not modelled.
--
-- Wal (pkg/wal/wal.go): serialize_entry and deserialize_entry are serializeEntry and
-- deserializeEntry; Wal.Replay is Replay, whose callback is a parameter and may fail; Wal.File holds
-- the WAL struct with its file, its bufio.Writer and its aligned buffer, and Append, Sync, Close and
-- Truncate. Writes to the file succeed. crc32 is a parameter. A crash loses the buffers and keeps the
-- file; the goroutine of the group commit is a Sync between any two operations.
--
-- Sstable (pkg/sstable): the module itself holds encode_footer, encode_index_entry and their decoders
-- (format.go). Sstable.Block is the encoding of an entry in Add (writer.go) and the loops of
-- searchBlock and scanBlock (reader.go); Sstable.Search is findBlock; Sstable.Writer is Add,
-- flushBlock, encodeIndexBlock and Close over the bytes of the file, and Sstable.Reader is NewReader,
-- Get, Scan and Close over the bytes that are mapped, with the Bloom filter library as a parameter.
-- Sstable.Table puts both together: a table that is written and read. The lengths in a file are uint32
-- and wrap; where the source then slices out of range the model panics.
--
-- Graph (pkg/graph/types.go): Node, Edge and Path with their operations; a clone is a value, so that
-- aliasing does not show. Graph.Serialization (pkg/graph/serialization.go): serialize_node,
-- deserialize_node and the same for edges. The order of a range loop over a map is a parameter.
--
-- Cache (pkg/cache/lru.go): LRUCache with its items map and its eviction list. put, get, invalidate,
-- clear, resize and peek are the methods of these names. Sizes are int64 that are not negative; the sum
-- in the test of Put wraps. Cache.Levels
-- (pkg/cache/multilevel.go) is MultiLevelCache, three such caches of values of several types.
--
-- Lane (pkg/storage/write_lane.go): WriteLane, its log and its active and old memtables. write_node
-- and write_edge are WriteNode and WriteEdge, Lane.Reads holds ReadNode, ReadEdge and the edges of a
-- node, and Lane.Upkeep Recover, Stop, Stats, TruncateWAL and RemoveOldMemtable. Memtable.Elements is
-- NodeMemtable and EdgeMemtable (pkg/memtable/memtable.go), on which a lane stands.
--
-- Flusher (pkg/persistence/flusher.go): FlushMemtable, from the entries of a memtable to the file of an
-- SSTable, with the counters of the flusher.
--
-- Engine (pkg/storage/engine.go): the calls on nodes and edges, through the cache to the lane that the
-- hash of the key chooses. Engine.Graphs holds the edges of a node, its neighbors, Stats and recover;
-- Engine.Flushing a round of runLaneFlusher, and Engine.Lifecycle Start and Stop. The hash is a
-- parameter.
--
-- Compaction (pkg/compaction): the tables of a Compactor and their selection (compaction.go), the
-- merger (merger.go) in Compaction.Merger, and runCompaction in Compaction.Cycle. container/heap and
-- sort.Slice are parameters.
--
-- Manifest (pkg/manifest/manifest.go): the list of tables and its changes, each saved to a file.
-- A save writes MANIFEST.tmp and renames it; marshalling is a parameter, and whether the write or the
-- rename fails is an argument.
--
-- Tests: runs on concrete inputs.
--
-- Loops run on fuel. Replay and the block loops have one round per byte and one more, and each round
-- takes a byte or more; findBlock has one round per index entry and one more, and each round takes an
-- entry off the range. There, running out of fuel is a result of its own (stuck; a panic for
-- scan_loop; none for find_loop), so that a theorem about what a loop returns also says that it ends.
-- The loop that evicts has one round per entry of the list, and each round takes one off: where its
-- fuel ends the list is empty, and the loop of the source ends too.
--
-- The loop of Next over equal keys has a round for each entry of the heap; the loop of compactTables
-- has its fuel as an argument, and ends with merge_stuck where that is too little.
--
-- Not modelled: goroutines, locks and channels, since calls follow one another; NewEngine, which makes
-- the parts of the engine; Merge of the merger, which nothing calls; the system calls of Direct I/O;
-- hit rates, which are floats. The benchmarks, the examples and the notes are not part of the store.
pub mod Common
pub mod Memtable
pub mod Wal
pub mod Sstable
pub mod Graph
pub mod Cache
pub mod Lane
pub mod Flusher
pub mod Engine
pub mod Compaction
pub mod Manifest
pub mod Tests
