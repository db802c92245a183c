-- ===== src/Graph/Serialization/Nodes.antt =====
-- Nodes are read back from their bytes.
use crazygraphstore.Common.{
  ◌<◌, ◌^◌, ◌≡◌, refl, ap, ◌∙◌, some, [], ◌++◌, arith, length, length-append, All, Bytes, ok,
}
use crazygraphstore.Common.Maps.{Map}
use crazygraphstore.Common.Words.{put_be, length-put_be}
use crazygraphstore.Graph.{Value, Node, IsRange}
use crazygraphstore.Graph.Serialization.{
  write_string, write_labels, write_stamps, entries_of, around, serialize_node, read_number,
  read_string, read_labels, unix, read_node, result_of, deserialize_node,
}
use crazygraphstore.Graph.Serialization.Fields.{
  bind_step, IsShort, read_number-put_be, read_string-text, read_labels-text, stamps_step,
  length-write_stamps, assoc4,
}
use crazygraphstore.Graph.Serialization.PropertyMaps.{
  HasProperties, Holds, properties_part, properties_read, properties_read-Holds, properties_written,
  properties_step,
}

pub record IsNode (n : Node) : Type 0 where
  pub id_fits : IsShort n.id
  pub label_count_fits : length n.labels < 2 ^ 32
  pub labels_fit : All IsShort n.labels
  pub has_properties : HasProperties n.properties
  pub version_fits : n.version < 2 ^ 64
  pub created_fits : n.created_at.seconds < 2 ^ 64
  pub updated_fits : n.updated_at.seconds < 2 ^ 64

module _ (range : Map Value → Map Value) (order : IsRange range) where
  -- The node that is read back: its times are cut to seconds.
  node_read : Node → Node
  node_read n = record n {
    properties = some (properties_read range order n.properties);
    created_at = unix n.created_at.seconds;
    updated_at = unix n.updated_at.seconds;
  }

  node_text : Node → Bytes
  node_text n =
      (write_string n.id
        ++ (put_be 4 (length n.labels)
            ++ (write_labels n.labels ++ put_be 4 (length (entries_of n.properties)))))
      ++ (properties_part range order n.properties
          ++ write_stamps n.version n.created_at n.updated_at)

  serialize_node-text : (n : Node) → IsNode n → serialize_node range n ≡ ok (node_text n)
  unfolding serialize_node node_text
  serialize_node-text n h =
      rw (properties_written range order n.properties h.has_properties) (unfold around in refl)

  read_node-text : (n : Node) → IsNode n → read_node (node_text n) ≡ ok (node_read n, [])
  unfolding read_node node_text node_read
  read_node-text n h =
      let stamps : Bytes = write_stamps n.version n.created_at n.updated_at in
      let long : length stamps ≡ 24 = length-write_stamps n.version n.created_at n.updated_at in
      let props : Bytes = properties_part range order n.properties ++ stamps in
      let count : Bytes = put_be 4 (length (entries_of n.properties)) in
      let long3 : 0 < length (count ++ props) = omega (
        arith,
        length-append count props,
        length-append (properties_part range order n.properties) stamps,
        long,
      ) in
      let long2 : 0
          < length (put_be 4 (length n.labels) ++ (write_labels n.labels ++ (count ++ props))) =
        omega (
          arith,
          length-append (put_be 4 (length n.labels)) (write_labels n.labels ++ (count ++ props)),
          length-put_be 4 (length n.labels),
        ) in
      ap read_node (
        assoc4 (write_string n.id) (put_be 4 (length n.labels)) (write_labels n.labels) count props)
      ∙ bind_step read_string _ (read_string-text n.id _ h.id_fits long2)
      ∙ bind_step (read_number 4) _
          (read_number-put_be 4 (length n.labels) _ (omega (arith, h.label_count_fits)))
      ∙ bind_step (read_labels (length n.labels)) _
          (read_labels-text n.labels (count ++ props) h.labels_fit long3)
      ∙ properties_step range order _ n.properties stamps h.has_properties (omega (arith, long))
      ∙ stamps_step
          (λ v c u. record {
            id = n.id;
            labels = n.labels;
            properties = some (properties_read range order n.properties);
            version = v;
            created_at = unix c;
            updated_at = unix u;
          })
          n.version n.created_at n.updated_at h.version_fits h.created_fits h.updated_fits

  -- If each number, length and property of a node fits its field, and each property key stands once,
  -- SerializeNode gives bytes from which DeserializeNode reads the node again, in whatever order the
  -- properties are visited. Its times are cut to seconds, and its properties are those that were
  -- written, where an int has become an int64.
  pub deserialize-serialize_node :
      (n : Node)
      → IsNode n
      → (text : Bytes) × (m : Map Value) × (serialize_node range n ≡ ok text)
        × (deserialize_node text
            ≡ ok (record n {
              properties = some m;
              created_at = unix n.created_at.seconds;
              updated_at = unix n.updated_at.seconds;
            }))
        × Holds m n.properties
  unfolding deserialize_node
  deserialize-serialize_node n h = (
    node_text n,
    properties_read range order n.properties,
    serialize_node-text n h,
    ap result_of (read_node-text n h) ∙ (unfold result_of node_read in refl),
    properties_read-Holds range order n.properties h.has_properties,
  )
