-- ===== src/Lane/Reads.antt =====
-- pkg/storage/write_lane.go: the reads of a lane. The loops go over the old tables from the newest
-- on.
use crazygraphstore.Common.{List, [], ◌∷◌, ◌++◌, Bytes, Outcome, ok, err, panic}
use crazygraphstore.Graph.{Node, Edge}
use crazygraphstore.Memtable.{Memtable}
use crazygraphstore.Memtable.Adjacency
use crazygraphstore.Memtable.Elements.{Failure, not_found, get_node, get_edge}
use crazygraphstore.Lane.{Lane}

-- The first answer that is no error.
unfoldable pub first : {A : Type 0} → Outcome Failure A → Outcome Failure A → Outcome Failure A
first (ok a) later = ok a
first (err e) later = later
first panic later = panic

module _ {A : Type 0} (read : Memtable → Outcome Failure A) where
  -- the loops of ReadNode and ReadEdge; `older` is what they come to after the tables of the list
  unfoldable pub read_old : List Memtable → Outcome Failure A → Outcome Failure A
  unfolding first
  read_old [] older = older
  read_old (m ∷ ms) older = read_old ms (first (read m) older)

  -- the active table, and then the old ones
  unfoldable pub read_tables : Memtable → List Memtable → Outcome Failure A
  unfolding first read_old
  read_tables m ms = first (read m) (read_old ms (err not_found))

-- ReadNode
unfoldable pub read_node : Bytes → Lane → Outcome Failure Node
unfolding read_tables
read_node id l = read_tables (get_node id) l.active l.old

-- ReadEdge
unfoldable pub read_edge : Bytes → Lane → Outcome Failure Edge
unfolding read_tables
read_edge id l = read_tables (get_edge id) l.active_edges l.old_edges

-- the loops of GetOutgoingEdges and GetIncomingEdges
unfoldable pub edges_of_old : (Memtable → List Bytes) → List Memtable → List Bytes
edges_of_old read [] = []
edges_of_old read (m ∷ ms) = edges_of_old read ms ++ read m

-- GetOutgoingEdges
unfoldable pub get_outgoing_edges : Bytes → Lane → List Bytes
unfolding edges_of_old
get_outgoing_edges node l =
    Adjacency.get_outgoing_edges node l.active_adj
    ++ edges_of_old (Adjacency.get_outgoing_edges node) l.old_adj

-- GetIncomingEdges
unfoldable pub get_incoming_edges : Bytes → Lane → List Bytes
unfolding edges_of_old
get_incoming_edges node l =
    Adjacency.get_incoming_edges node l.active_adj
    ++ edges_of_old (Adjacency.get_incoming_edges node) l.old_adj
