-- ===== src/Tests/Graphs.antt =====
-- Nodes and edges.
use crazygraphstore.Common.{
  ◌-◌, ◌≡◌, ◌⊎◌, refl, none, some, [], ◌∷◌, ◌++◌, arith, if◌then◌else◌, length, replicate, Bytes,
  bytes_eq, bytes_eq_iff, Bool-cases, inl, inr, All, ok,
}
use crazygraphstore.Common.Maps.{Map, lookup, IsDistinct}
use crazygraphstore.Common.Words.{inc64, put_be}
use crazygraphstore.Graph.{
  Value, string_value, int_value, other_value, Time, Node, Edge, get_property, set_property,
  IsRange,
}
use crazygraphstore.Graph.Properties.{get-set_property}
use crazygraphstore.Graph.Serialization.{
  entries_of, serialize_node, serialize_edge, deserialize_node, deserialize_edge, read_string, unix,
}
use crazygraphstore.Graph.Serialization.PropertyMaps.{HasProperties, Holds, IsProperty}
use crazygraphstore.Graph.Serialization.Nodes.{IsNode, deserialize-serialize_node}
use crazygraphstore.Graph.Serialization.Edges.{IsEdge, deserialize-serialize_edge}
use crazygraphstore.Graph.Serialization.Failures.{read_string_short}

program : Unit {0}
unfolding lookup bytes_eq put_be entries_of
program = tt

abbrev pub age : Bytes
age = b'a' ∷ b'g' ∷ []

abbrev pub name : Bytes
name = b'n' ∷ []

abbrev properties : Map Value
properties = (age, int_value 30) ∷ (name, string_value (b'X' ∷ [])) ∷ []

abbrev pub time : Time
time = record { seconds = 1700000000; nanoseconds = 5 }

abbrev pub person : Node
person = record {
  id = b'1' ∷ [];
  labels = (b'P' ∷ []) ∷ [];
  properties = some properties;
  version = 3;
  created_at = time;
  updated_at = time;
}

abbrev pub knows : Edge
knows = record {
  id = b'e' ∷ [];
  from_node_id = b'1' ∷ [];
  to_node_id = b'2' ∷ [];
  edge_type = b'K' ∷ [];
  properties = some properties;
  version = 1;
  created_at = time;
  updated_at = time;
}

-- A node whose property is nil.
abbrev broken : Node
broken = record person { properties = some ((name, other_value) ∷ []) }

pub same_order : IsRange (λ m. m)
same_order = record { visits = λ k m. refl; distinct = λ m h. h; once = λ m. refl }

properties-IsDistinct : IsDistinct properties
unfolding program
properties-IsDistinct = (refl, (refl, tt))

fit_of_All :
    (k : Bytes) (v : Value) (es : Map Value)
    → All IsProperty es
    → lookup k es ≡ some v
    → IsProperty (k, v)
unfolding lookup
fit_of_All k v [] h e = absurd (cc)
fit_of_All k v ((j, w) ∷ es) h e = elim (Bool-cases (bytes_eq j k)) [
  | inl same ↦
      let p : j ≡ k = ground (arith, bytes_eq_iff j k) in
      let q : w ≡ v = ground arith in rw (← p, ← q) h.0
  | inr other ↦ fit_of_All k v es h.1 (ground arith)
]

properties-HasProperties : HasProperties (some properties)
unfolding program
properties-HasProperties = record {
  count_fits = omega arith;
  distinct_keys = properties-IsDistinct;
  fit = λ k v e.
      fit_of_All k v properties ((omega arith, omega arith), ((omega arith, omega arith), tt)) e;
}

pub person-IsNode : IsNode person
person-IsNode = record {
  id_fits = omega arith;
  label_count_fits = omega arith;
  labels_fit = (omega arith, tt);
  has_properties = properties-HasProperties;
  version_fits = omega arith;
  created_fits = omega arith;
  updated_fits = omega arith;
}

pub knows-IsEdge : IsEdge knows
knows-IsEdge = record {
  id_fits = omega arith;
  from_fits = omega arith;
  to_fits = omega arith;
  type_fits = omega arith;
  has_properties = properties-HasProperties;
  version_fits = omega arith;
  created_fits = omega arith;
  updated_fits = omega arith;
}

broken_lookup : lookup name (entries_of broken.properties) ≡ some other_value
unfolding program
broken_lookup = refl

deserialize-serialize_node_example :
    (text : Bytes) × (m : Map Value) × (serialize_node (λ m. m) person ≡ ok text)
    × (deserialize_node text
        ≡ ok (record person {
          properties = some m;
          created_at = unix person.created_at.seconds;
          updated_at = unix person.updated_at.seconds;
        }))
    × Holds m person.properties
deserialize-serialize_node_example =
    deserialize-serialize_node (λ m. m) same_order person person-IsNode

deserialize-serialize_edge_example :
    (text : Bytes) × (m : Map Value) × (serialize_edge (λ m. m) knows ≡ ok text)
    × (deserialize_edge text
        ≡ ok (record knows {
          properties = some m;
          created_at = unix knows.created_at.seconds;
          updated_at = unix knows.updated_at.seconds;
        }))
    × Holds m knows.properties
deserialize-serialize_edge_example =
    deserialize-serialize_edge (λ m. m) same_order knows knows-IsEdge

read_string_short_example :
    read_string (put_be 4 3 ++ name) ≡ ok (name ++ replicate (3 - length name) 0, [])
read_string_short_example = read_string_short 3 name (omega arith) (omega arith) (omega arith)

get-set_property_example :
    ((person.properties ≡ none) × (set_property age (int_value 31) time person ≡ none))
    ⊎ ((n' : Node) × (set_property age (int_value 31) time person ≡ some n')
        × (get_property name n'
            ≡ (if bytes_eq age name then int_value 31 else get_property name person))
        × (n'.version ≡ inc64 person.version)
        × (n'.id ≡ person.id)
        × (n'.labels ≡ person.labels))
get-set_property_example = get-set_property age name (int_value 31) time person
