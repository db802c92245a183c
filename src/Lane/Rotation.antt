-- ===== src/Lane/Rotation.antt =====
-- rotateMemtable moves the active tables to the old ones, and no read of the lane changes.
use crazygraphstore.Common.{
  ℕ, ◌≡◌, refl, sym, ap, ◌∙◌, Option, none, List, [], ◌∷◌, ◌++◌, append_assoc, append-nil, Bytes,
  Outcome, err,
}
use crazygraphstore.Memtable.{Memtable, new, get, freeze}
use crazygraphstore.Memtable.Adjacency
use crazygraphstore.Memtable.Adjacency.{out_key, in_key, ids_of}
use crazygraphstore.Memtable.Elements.{
  Failure, not_found, node_key, edge_key, element_of, get_node, get_edge,
}
use crazygraphstore.Lane.{Lane, rotate}
use crazygraphstore.Lane.Reads.{
  first, read_old, read_tables, read_node, read_edge, edges_of_old, get_outgoing_edges,
  get_incoming_edges,
}
use crazygraphstore.Lane.Tables.{get-new}

read_old-snoc :
    {A : Type 0} (read : Memtable → Outcome Failure A) (ms : List Memtable) (m : Memtable)
    (older : Outcome Failure A)
    → read_old read (ms ++ m ∷ []) older ≡ first (read m) (read_old read ms older)
unfolding read_old
read_old-snoc read [] m older = refl
read_old-snoc read (n ∷ ms) m older = read_old-snoc read ms m (first (read n) older)

edges_of_old-snoc :
    (read : Memtable → List Bytes) (ms : List Memtable) (m : Memtable)
    → edges_of_old read (ms ++ m ∷ []) ≡ read m ++ edges_of_old read ms
unfolding edges_of_old
edges_of_old-snoc read [] m = sym (append-nil (read m))
edges_of_old-snoc read (n ∷ ms) m =
    ap (λ (t : List Bytes). t ++ read n) (edges_of_old-snoc read ms m)
    ∙ append_assoc (read m) (edges_of_old read ms) (read n)

-- A read that finds nothing in a new table, and the same in a table and in the frozen one.
record IsRead {A : Type 0} (read : Memtable → A) (nothing : A) : Type 0 where
  in_new : (size : ℕ) → read (new size) ≡ nothing
  in_frozen : (m : Memtable) → read (freeze m) ≡ read m

read_tables-rotate :
    {A : Type 0} (read : Memtable → Outcome Failure A) (ms : List Memtable) (m : Memtable)
    (size : ℕ)
    → IsRead read (err not_found)
    → read_tables read (new size) (ms ++ freeze m ∷ []) ≡ read_tables read m ms
unfolding read_tables
read_tables-rotate read ms m size h =
    ap (λ a. first a (read_old read (ms ++ freeze m ∷ []) (err not_found))) (h.in_new size)
    ∙ (unfold first in read_old-snoc read ms (freeze m) (err not_found))
    ∙ ap (λ a. first a (read_old read ms (err not_found))) (h.in_frozen m)

edges-rotate :
    (read : Memtable → List Bytes) (ms : List Memtable) (m : Memtable) (size : ℕ)
    → IsRead read []
    → read (new size) ++ edges_of_old read (ms ++ freeze m ∷ []) ≡ read m ++ edges_of_old read ms
edges-rotate read ms m size h =
    ap (λ (t : List Bytes). t ++ edges_of_old read (ms ++ freeze m ∷ [])) (h.in_new size)
    ∙ edges_of_old-snoc read ms (freeze m)
    ∙ ap (λ (t : List Bytes). t ++ edges_of_old read ms) (h.in_frozen m)

get-freeze : (k : Bytes) (m : Memtable) → get k (freeze m) ≡ get k m
unfolding get freeze
get-freeze k m = refl

-- A read of what Get returns for one key.
by_key-IsRead :
    {A : Type 0} (k : Bytes) (f : Option (Option Bytes) → A) (nothing : A)
    → f none ≡ nothing
    → IsRead (λ m. f (get k m)) nothing
by_key-IsRead k f nothing h = record {
  in_new = λ size. ap f (get-new k size) ∙ h;
  in_frozen = λ m. ap f (get-freeze k m);
}

pub read_node-rotate : (id : Bytes) (l : Lane) → read_node id (rotate l) ≡ read_node id l
unfolding read_node rotate get_node
read_node-rotate id l =
    read_tables-rotate (get_node id) l.old l.active l.memtable_size
      (by_key-IsRead (node_key id) (element_of _) (err not_found) (unfold element_of in refl))

read_edge-rotate : (id : Bytes) (l : Lane) → read_edge id (rotate l) ≡ read_edge id l
unfolding read_edge rotate get_edge
read_edge-rotate id l =
    read_tables-rotate (get_edge id) l.old_edges l.active_edges l.memtable_size
      (by_key-IsRead (edge_key id) (element_of _) (err not_found) (unfold element_of in refl))

outgoing-rotate :
    (node : Bytes) (l : Lane) → get_outgoing_edges node (rotate l) ≡ get_outgoing_edges node l
unfolding get_outgoing_edges rotate Adjacency.get_outgoing_edges
outgoing-rotate node l =
    edges-rotate (Adjacency.get_outgoing_edges node) l.old_adj l.active_adj l.memtable_size
      (by_key-IsRead (out_key node) ids_of [] (unfold ids_of in refl))

incoming-rotate :
    (node : Bytes) (l : Lane) → get_incoming_edges node (rotate l) ≡ get_incoming_edges node l
unfolding get_incoming_edges rotate Adjacency.get_incoming_edges
incoming-rotate node l =
    edges-rotate (Adjacency.get_incoming_edges node) l.old_adj l.active_adj l.memtable_size
      (by_key-IsRead (in_key node) ids_of [] (unfold ids_of in refl))

-- A rotation changes no answer of ReadNode, ReadEdge, GetOutgoingEdges or GetIncomingEdges, not even
-- the order of the edge IDs.
pub rotate_reads :
    (id : Bytes) (l : Lane)
    → (read_node id (rotate l) ≡ read_node id l)
      × (read_edge id (rotate l) ≡ read_edge id l)
      × (get_outgoing_edges id (rotate l) ≡ get_outgoing_edges id l)
      × (get_incoming_edges id (rotate l) ≡ get_incoming_edges id l)
rotate_reads id l =
    (read_node-rotate id l, read_edge-rotate id l, outgoing-rotate id l, incoming-rotate id l)
