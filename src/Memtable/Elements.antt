-- ===== src/Memtable/Elements.antt =====
-- pkg/memtable/memtable.go: `NodeMemtable` and `EdgeMemtable`, memtables of serialized nodes and
-- edges.
use crazygraphstore.Common.{Option, none, some, ◌∷◌, Bytes, Outcome, ok, err, panic}
use crazygraphstore.Common.Maps.{Map}
use crazygraphstore.Graph.{Value, Node, Edge}
use crazygraphstore.Graph.Serialization
use crazygraphstore.Graph.Serialization.{
  serialize_node, serialize_edge, deserialize_node, deserialize_edge,
}
use crazygraphstore.Memtable
use crazygraphstore.Memtable.{Memtable, put, get}

-- the error of a serializer or of the memtable, or that an element is missing or deleted
pub data Failure : Type 0 where
  bad_format : Serialization.Error → Failure
  table_error : Memtable.Error → Failure
  not_found deleted : Failure

-- the prefixes "node:" and "edge:" of the keys
abbrev pub node_key : Bytes → Bytes
node_key id = b'n' ∷ b'o' ∷ b'd' ∷ b'e' ∷ b':' ∷ id

abbrev pub edge_key : Bytes → Bytes
edge_key id = b'e' ∷ b'd' ∷ b'g' ∷ b'e' ∷ b':' ∷ id

unfoldable pub in_table : {A : Type 0} → Outcome Memtable.Error A → Outcome Failure A
in_table (ok a) = ok a
in_table (err e) = err (table_error e)
in_table panic = panic

unfoldable pub in_format : {A : Type 0} → Outcome Serialization.Error A → Outcome Failure A
in_format (ok a) = ok a
in_format (err e) = err (bad_format e)
in_format panic = panic

-- PutNode and PutEdge behind the serializer
unfoldable pub put_data :
    Bytes → Outcome Serialization.Error Bytes → Memtable → Memtable × Outcome Failure Unit
unfolding in_table
put_data key (ok text) m = let r = put key text m in (r.0, in_table r.1)
put_data key (err e) m = (m, err (bad_format e))
put_data key panic m = (m, panic)

-- GetNode and GetEdge behind Get
unfoldable pub element_of :
    {A : Type 0}
    → (Bytes → Outcome Serialization.Error A)
    → Option (Option Bytes)
    → Outcome Failure A
unfolding in_format
element_of deserialize none = err not_found
element_of deserialize (some none) = err deleted
element_of deserialize (some (some text)) = in_format (deserialize text)

module _ (range : Map Value → Map Value) where
  -- PutNode
  unfoldable pub put_node : Node → Memtable → Memtable × Outcome Failure Unit
  unfolding put_data
  put_node n = put_data (node_key n.id) (serialize_node range n)

  -- PutEdge
  unfoldable pub put_edge : Edge → Memtable → Memtable × Outcome Failure Unit
  unfolding put_data
  put_edge e = put_data (edge_key e.id) (serialize_edge range e)

-- GetNode
unfoldable pub get_node : Bytes → Memtable → Outcome Failure Node
unfolding element_of
get_node id m = element_of deserialize_node (get (node_key id) m)

-- GetEdge
unfoldable pub get_edge : Bytes → Memtable → Outcome Failure Edge
unfolding element_of
get_edge id m = element_of deserialize_edge (get (edge_key id) m)
