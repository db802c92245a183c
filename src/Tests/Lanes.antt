-- ===== src/Tests/Lanes.antt =====
-- Write lanes.
use crazygraphstore.Common.{
  ℕ, ◌≡◌, refl, false, none, [], ◌∷◌, ◌++◌, arith, if◌then◌else◌, Bytes, bytes_eq, ok, err, ◌+◌,
  ◌≤◌, length, some, panic,
}
use crazygraphstore.Common.Maps.{Map, lookup, insert}
use crazygraphstore.Common.Words.{put_be}
use crazygraphstore.Graph.Serialization.{
  write_string, write_value, write_labels, write_property, write_properties, write_stamps,
  entries_of, around, serialize_node,
}
use crazygraphstore.Graph.Serialization.PropertyMaps.{Holds}
use crazygraphstore.Memtable.{get, remove, bury, new, size_exceeded}
use crazygraphstore.Memtable.Elements.{table_error, node_key}
use crazygraphstore.Wal.{entry_type_delete, serialize_entry}
use crazygraphstore.Wal.File
use crazygraphstore.Wal.Buffering.{IsOpen, written}
use crazygraphstore.Lane.{Lane, new_lane, rotate, failure, on_active, write_node}
use crazygraphstore.Lane.Reads.{read_node, read_edge, get_outgoing_edges, get_incoming_edges}
use crazygraphstore.Lane.Upkeep.{restore, restore_delete}
use crazygraphstore.Lane.Buried.{write_node_buried}
use crazygraphstore.Lane.Tables.{new-IsActive, get-new}
use crazygraphstore.Lane.Rotation.{rotate_reads}
use crazygraphstore.Lane.Writes.{
  IsRunning, node_entry, shown, write_node-reads, write_node_too_long,
}
use crazygraphstore.Tests.Graphs.{person, same_order, person-IsNode}
use crazygraphstore.Tests.Tables.{sum}

program : Unit {0}
unfolding write_string write_value write_labels write_property write_properties write_stamps
    entries_of around serialize_node put_be new_lane lookup bytes_eq File.new
program = tt

abbrev pub person_text : Bytes
person_text =
    0 ∷ 0 ∷ 0 ∷ 1 ∷ 49 ∷ 0 ∷ 0 ∷ 0 ∷ 1 ∷ 0 ∷ 0 ∷ 0 ∷ 1 ∷ 80 ∷ 0 ∷ 0 ∷ 0 ∷ 2 ∷ 0 ∷ 0 ∷ 0 ∷ 2 ∷ 97
    ∷ 103 ∷ 2 ∷ 0 ∷ 0 ∷ 0 ∷ 0 ∷ 0 ∷ 0 ∷ 0 ∷ 30 ∷ 0 ∷ 0 ∷ 0 ∷ 1 ∷ 110 ∷ 1 ∷ 0 ∷ 0 ∷ 0 ∷ 1 ∷ 88 ∷ 0
    ∷ 0 ∷ 0 ∷ 0 ∷ 0 ∷ 0 ∷ 0 ∷ 3 ∷ 0 ∷ 0 ∷ 0 ∷ 0 ∷ 101 ∷ 83 ∷ 241 ∷ 0 ∷ 0 ∷ 0 ∷ 0 ∷ 0 ∷ 101 ∷ 83
    ∷ 241 ∷ 0 ∷ []

pub person_coded : serialize_node (λ m. m) person ≡ ok person_text
unfolding program
person_coded = refl

abbrev pub lane : ℕ → Lane
unfolding new_lane File.new
lane size = new_lane 0 size (File.new [] 4096 false 0)

pub lane-IsRunning : (size : ℕ) → IsRunning (lane size)
unfolding lane
lane-IsRunning size = record {
  running = refl;
  open_log = record { open_file = refl; buffered = refl };
  takes = new-IsActive size;
}

pub lane_size : (size : ℕ) → (lane size).memtable_size ≡ size
unfolding lane
lane_size size = refl

pub lane_empty : (k : Bytes) (size : ℕ) → get k (lane size).active ≡ none
unfolding lane new_lane
lane_empty k size = get-new k size

rotate_reads_example :
    (read_node person.id (rotate (lane 200)) ≡ read_node person.id (lane 200))
    × (read_edge person.id (rotate (lane 200)) ≡ read_edge person.id (lane 200))
    × (get_outgoing_edges person.id (rotate (lane 200)) ≡ get_outgoing_edges person.id (lane 200))
    × (get_incoming_edges person.id (rotate (lane 200)) ≡ get_incoming_edges person.id (lane 200))
rotate_reads_example = rotate_reads person.id (lane 200)

write_node-reads_example :
    ((write_node sum (λ m. m) 7 person (lane 200)).1 ≡ ok tt)
    × (written (write_node sum (λ m. m) 7 person (lane 200)).0.wal
        ≡ written (lane 200).wal ++ serialize_entry sum (node_entry 7 person person_text))
    × ((m : Map _) × Holds m person.properties
        × ((j : Bytes)
            → read_node j (write_node sum (λ m. m) 7 person (lane 200)).0
              ≡ (if bytes_eq person.id j then ok (shown person m) else read_node j (lane 200))))
    × IsRunning (write_node sum (λ m. m) 7 person (lane 200)).0
write_node-reads_example =
    write_node-reads (λ m. m) same_order sum 7 person person_text (lane 200) person-IsNode
      person_coded (lane-IsRunning 200) (omega (arith, lane_size 200))

write_node_too_long_example :
    ((write_node sum (λ m. m) 7 person (lane 50)).1 ≡ err (failure (table_error size_exceeded)))
    × ((j : Bytes)
        → read_node j (write_node sum (λ m. m) 7 person (lane 50)).0 ≡ read_node j (lane 50))
    × (written (write_node sum (λ m. m) 7 person (lane 50)).0.wal
        ≡ written (lane 50).wal ++ serialize_entry sum (node_entry 7 person person_text))
write_node_too_long_example =
    write_node_too_long (λ m. m) same_order sum 7 person person_text (lane 50) person-IsNode
      person_coded (lane-IsRunning 50) (omega (arith, lane_size 50))

-- A lane that recovered the deletion of the node.
abbrev buried : Lane
buried =
    (restore (λ m. m)
      (record {
        entry_type = entry_type_delete;
        key = node_key person.id;
        value = [];
        timestamp = 5;
      })
      (lane 200)).0

buried_parts :
    (buried.stopped ≡ false)
    × IsOpen buried.wal
    × (buried.active.frozen ≡ false)
    × (buried.active.size + (length (node_key person.id) + length person_text)
        ≤ buried.active.max_size)
    × (get (node_key person.id) buried.active ≡ some none)
unfolding program lane restore restore_delete on_active remove bury new get insert bytes_eq
buried_parts = (refl, record { open_file = refl; buffered = refl }, refl, omega arith, refl)

write_node_buried_example :
    ((write_node sum (λ m. m) 7 person buried).1 ≡ panic)
    × (written (write_node sum (λ m. m) 7 person buried).0.wal
        ≡ written buried.wal ++ serialize_entry sum (node_entry 7 person person_text))
write_node_buried_example =
    write_node_buried (λ m. m) sum 7 person person_text buried person_coded buried_parts.0
      buried_parts.1 buried_parts.2 buried_parts.3 buried_parts.4
