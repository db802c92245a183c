-- ===== src/Lane/Buried.antt =====
-- pkg/storage/write_lane.go: WriteNode of an ID whose deletion stands in the active table.
use crazygraphstore.Common.{
  ℕ, ◌+◌, ◌≤◌, ◌≡◌, refl, ap, ◌∙◌, false, some, none, ◌++◌, Bytes, ok, panic, length,
}
use crazygraphstore.Common.Maps.{Map}
use crazygraphstore.Graph.{Value, Node}
use crazygraphstore.Graph.Serialization.{serialize_node}
use crazygraphstore.Memtable.{get, put}
use crazygraphstore.Memtable.Reads.{put-panic_iff}
use crazygraphstore.Memtable.Elements.{node_key, in_table, put_data, put_node}
use crazygraphstore.Wal.{serialize_entry}
use crazygraphstore.Wal.Buffering.{IsOpen, written}
use crazygraphstore.Lane.{
  Lane, and_then, or_else, failed, on_active, store_node, with_log, write_node,
}
use crazygraphstore.Lane.Nodes.{node_key-ne-nil}
use crazygraphstore.Lane.Writes.{node_entry, logged, write_node_lem, append-written}

module _ (range : Map Value → Map Value) where
  store_node_panics :
      (n : Node) (text : Bytes) (l : Lane)
      → serialize_node range n ≡ ok text
      → (put (node_key n.id) text l.active).1 ≡ panic
      → ((store_node range n l).1 ≡ panic) × ((store_node range n l).0.wal ≡ l.wal)
  unfolding store_node and_then or_else on_active put_node put_data
  store_node_panics n text l coded bad = rw (coded, bad) (unfold in_table failed in (refl, refl))

  -- Let a node be serializable, and a lane be not stopped, with a log that is open and not in
  -- Direct I/O mode and an active table of nodes that is not frozen, has room for the node and
  -- holds a tombstone at its key. Then WriteNode panics, although its entry was appended to the
  -- log.
  pub write_node_buried :
      (crc32 : Bytes → ℕ) (now : ℕ) (n : Node) (text : Bytes) (l : Lane)
      → serialize_node range n ≡ ok text
      → l.stopped ≡ false
      → IsOpen l.wal
      → l.active.frozen ≡ false
      → l.active.size + (length (node_key n.id) + length text) ≤ l.active.max_size
      → get (node_key n.id) l.active ≡ some none
      → ((write_node crc32 range now n l).1 ≡ panic)
        × (written (write_node crc32 range now n l).0.wal
            ≡ written l.wal ++ serialize_entry crc32 (node_entry now n text))
  write_node_buried crc32 now n text l coded running open_log warm room buried =
      let before : Lane = logged crc32 range now n text l in
      let bad : (put (node_key n.id) text before.active).1 ≡ panic =
        unfold logged with_log in
        (put-panic_iff (node_key n.id) text l.active).1
          (warm, node_key-ne-nil n.id, room, buried) in
      let (crash, same) = store_node_panics n text before coded bad in
      rw (write_node_lem crc32 range now n text l coded running open_log) (
        crash,
        ap written same
            ∙ (unfold logged with_log in
                append-written crc32 range (node_entry now n text) l.wal open_log),
      )
