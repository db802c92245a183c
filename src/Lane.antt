-- ===== src/Lane.antt =====
-- pkg/storage/write_lane.go: `WriteLane`. Goroutines are not modelled: the calls come one after
-- another. The log is the one of Wal/File, and what Append writes to it has the time as an argument.
-- Old tables stand in the order of the slices, the newest last.
pub mod Reads
pub mod Upkeep
pub mod Stopped
pub mod Tables
pub mod Rotation
pub mod Nodes
pub mod Writes
pub mod Buried
use crazygraphstore.Common.{
  ℕ, ◌+◌, ◌==◌, Bool, true, false, Option, none, some, List, [], ◌∷◌, ◌++◌, ltb, if◌then◌else◌,
  length, take, drop, Bytes, Outcome, ok, err, panic,
}
use crazygraphstore.Common.Maps.{Map}
use crazygraphstore.Graph.{Value, Node, Edge}
use crazygraphstore.Graph.Serialization
use crazygraphstore.Graph.Serialization.{
  serialize_node, serialize_edge, deserialize_node, deserialize_edge,
}
use crazygraphstore.Memtable
use crazygraphstore.Memtable.{Memtable, new, remove, freeze}
use crazygraphstore.Memtable.Adjacency
use crazygraphstore.Memtable.Adjacency.{add_outgoing_edge, add_incoming_edge}
use crazygraphstore.Memtable.Elements.{
  Failure, bad_format, table_error, not_found, in_table, in_format, put_node, put_edge, get_node,
  get_edge,
}
use crazygraphstore.Wal.{Entry, entry_type_node, entry_type_edge, entry_type_delete}
use crazygraphstore.Wal.File
use crazygraphstore.Wal.File.{Wal, append, close, truncate}
use crazygraphstore.Wal.Replay.{Ended, replay}

pub data Error : Type 0 where
  lane_stopped unknown_entry_type : Error
  wal_error : File.Error → Error
  failure : Failure → Error

pub record Lane : Type 0 where
  pub id : ℕ
  pub wal : Wal
  pub active : Memtable
  pub active_edges : Memtable
  pub active_adj : Memtable
  pub old : List Memtable
  pub old_edges : List Memtable
  pub old_adj : List Memtable
  pub memtable_size : ℕ
  pub flush_signal : Bool
  pub stopped : Bool

-- NewWriteLane, over a log that NewWAL opened
unfoldable pub new_lane : ℕ → ℕ → Wal → Lane
unfolding new
new_lane id memtable_size wal = record {
  id = id;
  wal = wal;
  active = new memtable_size;
  active_edges = new memtable_size;
  active_adj = new memtable_size;
  old = [];
  old_edges = [];
  old_adj = [];
  memtable_size = memtable_size;
  flush_signal = false;
  stopped = false;
}

-- rotateMemtable
unfoldable pub rotate : Lane → Lane
unfolding new freeze
rotate l = record l {
  old = l.old ++ freeze l.active ∷ [];
  old_edges = l.old_edges ++ freeze l.active_edges ∷ [];
  old_adj = l.old_adj ++ freeze l.active_adj ∷ [];
  active = new l.memtable_size;
  active_edges = new l.memtable_size;
  active_adj = new l.memtable_size;
  flush_signal = true;
}

-- The next step of a call, where the one before returned no error.
unfoldable pub and_then :
    {A : Type 0}
    → Lane × Outcome Error A
    → (Lane → Lane × Outcome Error Unit)
    → Lane × Outcome Error Unit
and_then p next = elim p.1 [ ok _ ↦ next p.0 | err e ↦ (p.0, err e) | panic ↦ (p.0, panic) ]

-- The handling of an error: it is dropped, and the lane goes on with `handler`.
unfoldable pub or_else :
    Lane × Outcome Error Unit → (Lane → Lane × Outcome Error Unit) → Lane × Outcome Error Unit
or_else p handler = elim p.1 [ ok _ ↦ (p.0, ok tt) | err e ↦ handler p.0 | panic ↦ (p.0, panic) ]

unfoldable pub failed : {A : Type 0} → Outcome Failure A → Outcome Error A
failed (ok a) = ok a
failed (err e) = err (failure e)
failed panic = panic

-- calls of the three active tables
unfoldable pub on_active :
    (Memtable → Memtable × Outcome Failure Unit) → Lane → Lane × Outcome Error Unit
unfolding failed
on_active f l = let r = f l.active in (record l { active = r.0 }, failed r.1)

unfoldable pub on_edges :
    (Memtable → Memtable × Outcome Failure Unit) → Lane → Lane × Outcome Error Unit
unfolding failed
on_edges f l = let r = f l.active_edges in (record l { active_edges = r.0 }, failed r.1)

unfoldable pub on_adj :
    (Memtable → Memtable × Outcome Memtable.Error Unit) → Lane → Lane × Outcome Error Unit
unfolding failed in_table
on_adj f l = let r = f l.active_adj in (record l { active_adj = r.0 }, failed (in_table r.1))

-- the rotations at the end of WriteNode and of WriteEdge
unfoldable pub settle_node : Lane → Lane × Outcome Error Unit
unfolding rotate
settle_node l = if ltb l.memtable_size l.active.size then (rotate l, ok tt) else (l, ok tt)

unfoldable pub settle_edge : Lane → Lane × Outcome Error Unit
unfolding rotate
settle_edge l =
    if ltb l.memtable_size l.active_edges.size
    then (rotate l, ok tt)
    else if ltb l.memtable_size l.active_adj.size
    then (rotate l, ok tt)
    else (l, ok tt)

module _ (range : Map Value → Map Value) where
  -- WriteNode behind the log
  unfoldable pub store_node : Node → Lane → Lane × Outcome Error Unit
  unfolding and_then or_else on_active put_node rotate settle_node
  store_node n l =
      let try : Lane → Lane × Outcome Error Unit = on_active (put_node range n) in
      and_then (or_else (try l) (λ l'. try (rotate l'))) settle_node

  -- AddOutgoingEdge failed in WriteEdge: all three writes go to new tables
  unfoldable pub rewrite_edge : Edge → Lane → Lane × Outcome Error Unit
  unfolding and_then on_edges on_adj put_edge rotate
  rewrite_edge e l = and_then (on_edges (put_edge range e) (rotate l)) λ l1.
      and_then (on_adj (add_outgoing_edge e.from_node_id e.id) l1)
        (on_adj (add_incoming_edge e.to_node_id e.id))

  -- AddOutgoingEdge and what follows in WriteEdge
  unfoldable pub link_edge : Edge → Lane → Lane × Outcome Error Unit
  unfolding and_then on_adj rewrite_edge settle_edge
  link_edge e l =
      let p = on_adj (add_outgoing_edge e.from_node_id e.id) l in
      elim p.1 [
        | ok _ ↦ and_then (on_adj (add_incoming_edge e.to_node_id e.id) p.0) settle_edge
        | err x ↦ rewrite_edge e p.0
        | panic ↦ (p.0, panic)
      ]

  -- WriteEdge behind the log
  unfoldable pub store_edge : Edge → Lane → Lane × Outcome Error Unit
  unfolding and_then or_else on_edges put_edge rotate link_edge
  store_edge e l =
      let try : Lane → Lane × Outcome Error Unit = on_edges (put_edge range e) in
      and_then (or_else (try l) (λ l'. try (rotate l'))) (link_edge e)

-- what WriteNode and WriteEdge make of the result of Append
unfoldable pub with_log : Lane → Wal × Outcome File.Error Unit → Lane × Outcome Error Unit
with_log l r =
    (record l { wal = r.0 }, elim r.1 [ ok _ ↦ ok tt | err x ↦ err (wal_error x) | panic ↦ panic ])

module _ (crc32 : Bytes → ℕ) where
  -- the serialization and the log entry of a write
  unfoldable pub log_entry :
      ℕ → ℕ → Bytes → Outcome Serialization.Error Bytes → Lane → Lane × Outcome Error Unit
  unfolding with_log
  log_entry entry_type now key (err e) l = (l, err (failure (bad_format e)))
  log_entry entry_type now key panic l = (l, panic)
  log_entry entry_type now key (ok text) l = with_log l (
      append crc32 (record { entry_type = entry_type; key = key; value = text; timestamp = now })
        l.wal)

  module _ (range : Map Value → Map Value) where
    -- WriteNode
    unfoldable pub write_node : ℕ → Node → Lane → Lane × Outcome Error Unit
    unfolding log_entry and_then store_node
    write_node now n l =
        if l.stopped
        then (l, err lane_stopped)
        else and_then (log_entry entry_type_node now n.id (serialize_node range n) l)
            (store_node range n)

    -- WriteEdge
    unfoldable pub write_edge : ℕ → Edge → Lane → Lane × Outcome Error Unit
    unfolding log_entry and_then store_edge
    write_edge now e l =
        if l.stopped
        then (l, err lane_stopped)
        else and_then (log_entry entry_type_edge now e.id (serialize_edge range e) l)
            (store_edge range e)
