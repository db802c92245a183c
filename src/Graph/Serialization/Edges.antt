-- ===== src/Graph/Serialization/Edges.antt =====
-- Edges are read back from their bytes.
use crazygraphstore.Common.{
  ◌<◌, ◌^◌, ◌≡◌, refl, ap, ◌∙◌, some, [], ◌++◌, arith, length, length-append, Bytes, ok,
}
use crazygraphstore.Common.Maps.{Map}
use crazygraphstore.Common.Words.{put_be}
use crazygraphstore.Graph.{Value, Edge, IsRange}
use crazygraphstore.Graph.Serialization.{
  write_string, write_stamps, entries_of, around, serialize_edge, read_string, unix, read_edge,
  result_of, deserialize_edge,
}
use crazygraphstore.Graph.Serialization.Fields.{
  bind_step, IsShort, read_string-text, stamps_step, length-write_stamps, assoc5,
}
use crazygraphstore.Graph.Serialization.PropertyMaps.{
  HasProperties, Holds, properties_part, properties_read, properties_read-Holds, properties_written,
  properties_step,
}

pub record IsEdge (e : Edge) : Type 0 where
  pub id_fits : IsShort e.id
  pub from_fits : IsShort e.from_node_id
  pub to_fits : IsShort e.to_node_id
  pub type_fits : IsShort e.edge_type
  pub has_properties : HasProperties e.properties
  pub version_fits : e.version < 2 ^ 64
  pub created_fits : e.created_at.seconds < 2 ^ 64
  pub updated_fits : e.updated_at.seconds < 2 ^ 64

module _ (range : Map Value → Map Value) (order : IsRange range) where
  -- The edge that is read back: its times are cut to seconds.
  edge_read : Edge → Edge
  edge_read e = record e {
    properties = some (properties_read range order e.properties);
    created_at = unix e.created_at.seconds;
    updated_at = unix e.updated_at.seconds;
  }

  edge_text : Edge → Bytes
  edge_text e =
      (write_string e.id
        ++ (write_string e.from_node_id
            ++ (write_string e.to_node_id
                ++ (write_string e.edge_type ++ put_be 4 (length (entries_of e.properties))))))
      ++ (properties_part range order e.properties
          ++ write_stamps e.version e.created_at e.updated_at)

  serialize_edge-text : (e : Edge) → IsEdge e → serialize_edge range e ≡ ok (edge_text e)
  unfolding serialize_edge edge_text
  serialize_edge-text e h =
      rw (properties_written range order e.properties h.has_properties) (unfold around in refl)

  read_edge-text : (e : Edge) → IsEdge e → read_edge (edge_text e) ≡ ok (edge_read e, [])
  unfolding read_edge edge_text edge_read
  read_edge-text e h =
      let stamps : Bytes = write_stamps e.version e.created_at e.updated_at in
      let long : length stamps ≡ 24 = length-write_stamps e.version e.created_at e.updated_at in
      let props : Bytes = properties_part range order e.properties ++ stamps in
      let count : Bytes = put_be 4 (length (entries_of e.properties)) in
      let t4 : Bytes = count ++ props in
      let t3 : Bytes = write_string e.edge_type ++ t4 in
      let t2 : Bytes = write_string e.to_node_id ++ t3 in
      let t1 : Bytes = write_string e.from_node_id ++ t2 in
      let long4 : 0 < length t4 = omega (
        arith,
        length-append count props,
        length-append (properties_part range order e.properties) stamps,
        long,
      ) in
      let long3 : 0 < length t3 =
        omega (arith, length-append (write_string e.edge_type) t4, long4) in
      let long2 : 0 < length t2 =
        omega (arith, length-append (write_string e.to_node_id) t3, long3) in
      let long1 : 0 < length t1 =
        omega (arith, length-append (write_string e.from_node_id) t2, long2) in
      ap read_edge (
        assoc5 (write_string e.id) (write_string e.from_node_id) (write_string e.to_node_id)
          (write_string e.edge_type) count props)
      ∙ bind_step read_string _ (read_string-text e.id t1 h.id_fits long1)
      ∙ bind_step read_string _ (read_string-text e.from_node_id t2 h.from_fits long2)
      ∙ bind_step read_string _ (read_string-text e.to_node_id t3 h.to_fits long3)
      ∙ bind_step read_string _ (read_string-text e.edge_type t4 h.type_fits long4)
      ∙ properties_step range order _ e.properties stamps h.has_properties (omega (arith, long))
      ∙ stamps_step
          (λ v c u. record {
            id = e.id;
            from_node_id = e.from_node_id;
            to_node_id = e.to_node_id;
            edge_type = e.edge_type;
            properties = some (properties_read range order e.properties);
            version = v;
            created_at = unix c;
            updated_at = unix u;
          })
          e.version e.created_at e.updated_at h.version_fits h.created_fits h.updated_fits

  -- If each number, length and property of an edge fits its field, and each property key stands
  -- once, SerializeEdge gives bytes from which DeserializeEdge reads the edge again, in whatever
  -- order the properties are visited. Its times are cut to seconds, and its properties are those
  -- that were written, where an int has become an int64.
  pub deserialize-serialize_edge :
      (e : Edge)
      → IsEdge e
      → (text : Bytes) × (m : Map Value) × (serialize_edge range e ≡ ok text)
        × (deserialize_edge text
            ≡ ok (record e {
              properties = some m;
              created_at = unix e.created_at.seconds;
              updated_at = unix e.updated_at.seconds;
            }))
        × Holds m e.properties
  unfolding deserialize_edge
  deserialize-serialize_edge e h = (
    edge_text e,
    properties_read range order e.properties,
    serialize_edge-text e h,
    ap result_of (read_edge-text e h) ∙ (unfold result_of edge_read in refl),
    properties_read-Holds range order e.properties h.has_properties,
  )
