-- ===== src/Graph.antt =====
-- pkg/graph/types.go: nodes, edges and paths. A time is the int64 of `Unix()` as a bit pattern and
-- the nanoseconds behind it; the current time is an argument. A nil map of properties is `none`.
pub mod Properties
pub mod Serialization
use crazygraphstore.Common.{
  ℕ, Bool, true, false, Option, none, some, List, [], ◌∷◌, ◌++◌, if◌then◌else◌, length, Bytes,
  bytes_eq, ◌≡◌,
}
use crazygraphstore.Common.Maps.{Map, lookup, insert, IsDistinct}
use crazygraphstore.Common.Words.{inc64}

-- The values an interface{} of a property may hold. Integers and floats are their 64 bits, and
-- `other_value` is nil or a value of any other type.
pub data Value : Type 0 where
  string_value bytes_value : Bytes → Value
  int_value int64_value float64_value : ℕ → Value
  bool_value : Bool → Value
  other_value : Value

pub record Time : Type 0 where
  pub seconds : ℕ
  pub nanoseconds : ℕ

pub record Node : Type 0 where
  pub id : Bytes
  pub labels : List Bytes
  pub properties : Option (Map Value)
  pub version : ℕ
  pub created_at : Time
  pub updated_at : Time

-- NewNode
unfoldable pub new_node : Bytes → List Bytes → Time → Node
new_node id labels now = record {
  id = id;
  labels = labels;
  properties = some [];
  version = 1;
  created_at = now;
  updated_at = now;
}

-- the loop of HasLabel
unfoldable pub has_label_in : Bytes → List Bytes → Bool
has_label_in label [] = false
has_label_in label (l ∷ labels) =
    let rest = has_label_in label labels in if bytes_eq l label then true else rest

-- HasLabel
unfoldable pub has_label : Bytes → Node → Bool
unfolding has_label_in
has_label label n = has_label_in label n.labels

-- The value of an index into a map: a missing key gives nil.
unfoldable pub value_of : Option Value → Value
value_of none = other_value
value_of (some v) = v

-- an index into a map that may be nil
unfoldable pub property_of : Bytes → Option (Map Value) → Value
unfolding value_of
property_of key none = other_value
property_of key (some m) = value_of (lookup key m)

-- GetProperty
unfoldable pub get_property : Bytes → Node → Value
unfolding property_of
get_property key n = property_of key n.properties

-- an assignment to a map: `none` is the panic of a nil map
unfoldable pub assign : Bytes → Value → Option (Map Value) → Option (Map Value)
assign key v none = none
assign key v (some m) = some (insert key v m)

-- SetProperty of Node; `none` is a panic.
unfoldable pub set_property : Bytes → Value → Time → Node → Option Node
unfolding assign
set_property key value now n = elim (assign key value n.properties) [
  | none ↦ none
  | some m ↦ some (record n { properties = some m; version = inc64 n.version; updated_at = now })
]

-- The assignments of a loop over some entries, one after another.
unfoldable pub insert_all : Map Value → Map Value → Map Value
insert_all [] m = m
insert_all ((k, v) ∷ entries) m = insert_all entries (insert k v m)

pub record Edge : Type 0 where
  pub id : Bytes
  pub from_node_id : Bytes
  pub to_node_id : Bytes
  pub edge_type : Bytes
  pub properties : Option (Map Value)
  pub version : ℕ
  pub created_at : Time
  pub updated_at : Time

-- NewEdge
unfoldable pub new_edge : Bytes → Bytes → Bytes → Bytes → Time → Edge
new_edge id from to edge_type now = record {
  id = id;
  from_node_id = from;
  to_node_id = to;
  edge_type = edge_type;
  properties = some [];
  version = 1;
  created_at = now;
  updated_at = now;
}

-- SetProperty of Edge; `none` is a panic.
unfoldable pub set_edge_property : Bytes → Value → Time → Edge → Option Edge
unfolding assign
set_edge_property key value now e = elim (assign key value e.properties) [
  | none ↦ none
  | some m ↦ some (record e { properties = some m; version = inc64 e.version; updated_at = now })
]

-- A `range` loop over a map visits every key once.
pub record IsRange (range : Map Value → Map Value) : Type 0 where
  pub visits : (k : Bytes) (m : Map Value) → lookup k (range m) ≡ lookup k m
  pub distinct : (m : Map Value) → IsDistinct m → IsDistinct (range m)
  pub once : (m : Map Value) → length (range m) ≡ length m

-- The order in which a `range` loop visits a map is a parameter.
module _ (range : Map Value → Map Value) where
  -- cloneProperties
  unfoldable pub clone_properties : Option (Map Value) → Option (Map Value)
  unfolding insert_all
  clone_properties none = none
  clone_properties (some m) = some (insert_all (range m) [])

  -- Clone of Node
  unfoldable pub clone_node : Node → Node
  unfolding clone_properties
  clone_node n = record n { properties = clone_properties n.properties }

  -- Clone of Edge
  unfoldable pub clone_edge : Edge → Edge
  unfolding clone_properties
  clone_edge e = record e { properties = clone_properties e.properties }

pub record GraphPath : Type 0 where
  pub nodes : List Node
  pub edges : List Edge
  pub cost : ℕ

-- Length of Path
unfoldable pub path_length : GraphPath → ℕ
path_length p = length p.edges

-- AddHop; `none` is a nil edge
unfoldable pub add_hop : Node → Option Edge → GraphPath → GraphPath
add_hop n none p = record p { nodes = p.nodes ++ n ∷ [] }
add_hop n (some e) p = record p { nodes = p.nodes ++ n ∷ []; edges = p.edges ++ e ∷ [] }

-- Direction, of the three constants
pub data Direction : Type 0 where
  direction_out direction_in direction_both : Direction

-- String of Direction
unfoldable pub direction_name : Direction → Bytes
direction_name direction_out = b'O' ∷ b'U' ∷ b'T' ∷ []
direction_name direction_in = b'I' ∷ b'N' ∷ []
direction_name direction_both = b'B' ∷ b'O' ∷ b'T' ∷ b'H' ∷ []
