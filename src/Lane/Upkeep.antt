-- ===== src/Lane/Upkeep.antt =====
-- pkg/storage/write_lane.go: flushing, stopping, statistics and recovery of a lane.
use crazygraphstore.Common.{
  ℕ, ◌+◌, ◌==◌, true, some, List, [], ◌∷◌, ◌++◌, if◌then◌else◌, length, take, drop, Bytes, Outcome,
  ok, err, panic,
}
use crazygraphstore.Common.Maps.{Map}
use crazygraphstore.Graph.{Value, Node, Edge}
use crazygraphstore.Graph.Serialization
use crazygraphstore.Graph.Serialization.{deserialize_node, deserialize_edge}
use crazygraphstore.Memtable.{Memtable, remove}
use crazygraphstore.Memtable.Adjacency.{add_outgoing_edge, add_incoming_edge}
use crazygraphstore.Memtable.Elements.{in_table, in_format, put_node, put_edge}
use crazygraphstore.Wal.{Entry, entry_type_node, entry_type_edge, entry_type_delete}
use crazygraphstore.Wal.File
use crazygraphstore.Wal.File.{Wal, close, truncate}
use crazygraphstore.Wal.Replay.{Ended, replay}
use crazygraphstore.Lane.{
  Lane, Error, unknown_entry_type, failed, and_then, on_active, on_edges, on_adj,
}

-- GetOldMemtables
unfoldable pub get_old_memtables : Lane → List Memtable
get_old_memtables l = l.old

-- RemoveOldMemtable: a table stands once in the list, and its position stands for the pointer.
unfoldable pub remove_old_memtable : ℕ → Lane → Lane
remove_old_memtable i l = record l { old = take i l.old ++ drop (i + 1) l.old }

-- Stop; the error of the log is dropped
unfoldable pub stop : Lane → Lane × Outcome Error Unit
stop l =
    let r = close l.wal in
    if l.stopped then (l, ok tt) else (
      record l { stopped = true; wal = r.0 },
      elim r.1 [ ok _ ↦ ok tt | err x ↦ ok tt | panic ↦ panic ],
    )

pub record LaneStats : Type 0 where
  pub id : ℕ
  pub active_size : ℕ
  pub active_count : ℕ
  pub old_memtable_count : ℕ
  pub total_size : ℕ

-- the loop of Stats
unfoldable pub total_of : ℕ → List Memtable → ℕ
total_of total [] = total
total_of total (m ∷ ms) = total_of (total + m.size) ms

-- Stats, without those of the log
unfoldable pub stats : Lane → LaneStats
unfolding total_of
stats l = record {
  id = l.id;
  active_size = l.active.size;
  active_count = l.active.count;
  old_memtable_count = length l.old;
  total_size = total_of l.active.size l.old;
}

-- TruncateWAL
unfoldable pub truncate_wal : Lane → Lane × Outcome File.Error Unit
truncate_wal l = let r = truncate l.wal in (record l { wal = r.0 }, r.1)

-- A call whose error is dropped.
unfoldable pub ignore : Lane × Outcome Error Unit → Lane × Outcome Error Unit
ignore p = (p.0, elim p.1 [ ok _ ↦ ok tt | err e ↦ ok tt | panic ↦ panic ])

module _ (range : Map Value → Map Value) where
  -- the three cases of the function that Recover replays
  unfoldable pub restore_node : Outcome Serialization.Error Node → Lane → Lane × Outcome Error Unit
  unfolding on_active put_node failed in_format
  restore_node (ok n) l = on_active (put_node range n) l
  restore_node (err e) l = (l, failed (in_format (err e)))
  restore_node panic l = (l, panic)

  unfoldable pub restore_edge : Outcome Serialization.Error Edge → Lane → Lane × Outcome Error Unit
  unfolding and_then ignore on_edges on_adj put_edge failed in_format
  restore_edge (ok e) l = and_then (on_edges (put_edge range e) l) λ l1.
      and_then (ignore (on_adj (add_outgoing_edge e.from_node_id e.id) l1))
        λ l2. ignore (on_adj (add_incoming_edge e.to_node_id e.id) l2)
  restore_edge (err e) l = (l, failed (in_format (err e)))
  restore_edge panic l = (l, panic)

  unfoldable pub restore_delete : Bytes → Lane → Lane × Outcome Error Unit
  unfolding on_active in_table
  restore_delete key = on_active (λ m. let r = remove key m in (r.0, in_table r.1))

  -- the function that Recover replays
  unfoldable pub restore : Entry → Lane → Lane × Outcome Error Unit
  unfolding restore_node restore_edge restore_delete
  restore entry l =
      if entry.entry_type == entry_type_node
      then restore_node (deserialize_node entry.value) l
      else if entry.entry_type == entry_type_edge
      then restore_edge (deserialize_edge entry.value) l
      else if entry.entry_type == entry_type_delete
      then restore_delete entry.key l
      else (l, err unknown_entry_type)

  -- Recover, of what the file of the log holds
  unfoldable pub recover : (Bytes → ℕ) → Lane → Lane × Ended Error
  unfolding restore
  recover crc32 l = replay crc32 restore (some l.wal.file) l
