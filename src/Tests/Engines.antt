-- ===== src/Tests/Engines.antt =====
-- The engine, its cache and its flusher.
use crazygraphstore.Common.{
  ℕ, ◌+◌, ◌≤◌, ◌≡◌, refl, true, none, some, List, [], ◌∷◌, arith, length, if◌then◌else◌, Bytes,
  bytes_eq, ok,
}
use crazygraphstore.Common.Maps.{Map, lookup, insert}
use crazygraphstore.Graph.{
  Value, int_value, Time, Node, clone_node, set_property, assign, insert_all, direction_out,
}
use crazygraphstore.Graph.Serialization.PropertyMaps.{Holds}
use crazygraphstore.Cache
use crazygraphstore.Cache.{
  put, put_found, add, make_room, is_over, evict_loop, get, get_found, element_of, element_at,
  find_entry,
}
use crazygraphstore.Cache.Calls.{run, run-IsValid}
use crazygraphstore.Common.Words.{put_be}
use crazygraphstore.Graph.Serialization.{
  write_string, write_value, write_labels, write_property, write_properties, write_stamps,
  entries_of, around, serialize_node,
}
use crazygraphstore.Graph.Serialization.Nodes.{IsNode}
use crazygraphstore.Cache.Invariant.{present}
use crazygraphstore.Cache.Levels
use crazygraphstore.Cache.Levels.{
  Levels, from_size, put_node_by_id, put_hot, invalidate_node, as_node, estimate_node_size,
  estimate_properties, estimate_value, get_edge, get_connection_list,
}
use crazygraphstore.Cache.Levels.Invalidation.{
  AllValid, put_node_by_id-AllValid, invalidate_node_lem,
}
use crazygraphstore.Lane.Writes.{shown}
use crazygraphstore.Engine.{
  Engine, get_node, get_node_after, create_node, update_node, set_properties,
}
use crazygraphstore.Engine.Nodes.{Serves, create-get, create_stale}
use crazygraphstore.Engine.Updates.{update-get}
use crazygraphstore.Tests.Graphs.{age, time, person, same_order, person-IsNode}
use crazygraphstore.Tests.Lanes.{person_text, person_coded, lane, lane-IsRunning, lane_size}
use crazygraphstore.Tests.Tables.{sum}

program : Unit {0}
unfolding from_size Cache.new lookup insert bytes_eq put_node_by_id put_hot put put_found add
    make_room is_over evict_loop get get_found element_of element_at find_entry present
    estimate_node_size estimate_properties estimate_value as_node Levels.get_node clone_node
    insert_all set_property assign set_properties
program = tt

abbrev caches : Levels
unfolding from_size Cache.new
caches = from_size 1000

caches-AllValid : AllValid caches
unfolding caches from_size
caches-AllValid = record {
  hot_valid = unfold run in run-IsValid 400 [];
  connection_valid = unfold run in run-IsValid 300 [];
  data_valid = unfold run in run-IsValid 300 [];
}

-- The cache with the node in it.
abbrev warm : Levels
warm = (put_node_by_id person caches).0

warm-AllValid : AllValid warm
warm-AllValid = put_node_by_id-AllValid person caches caches-AllValid

abbrev engine : Levels → Engine
engine cache = record { lanes = lane 200 ∷ lane 200 ∷ []; cache = cache; running = true }

abbrev hash : Bytes → ℕ
hash = sum

engine-Serves :
    (n : Node) (text : Bytes) (cache : Levels)
    → length n.id + 5 + length text ≤ 200
    → Serves n text (engine cache)
engine-Serves n text cache h = record {
  started = refl;
  some_lane = omega arith;
  few_lanes = omega arith;
  lanes_run = (lane-IsRunning 200, (lane-IsRunning 200, tt));
  lanes_fit = (omega (arith, lane_size 200, h), (omega (arith, lane_size 200, h), tt));
}

cold_miss : (Levels.get_node person.id caches).1 ≡ ok none
unfolding program caches entries_of
cold_miss = refl

warm_hit : (Levels.get_node person.id warm).1 ≡ ok (some person)
unfolding program caches entries_of
warm_hit = refl

invalidate_node_lem_example :
    AllValid (invalidate_node person.id warm)
    × ((Levels.get_node age (invalidate_node person.id warm)).1
        ≡ (if bytes_eq person.id age then ok none else (Levels.get_node age warm).1))
    × ((get_edge age (invalidate_node person.id warm)).1
        ≡ (if bytes_eq person.id age then ok none else (get_edge age warm).1))
    × ((get_connection_list person.id direction_out (invalidate_node person.id warm)).1 ≡ ok none)
invalidate_node_lem_example = invalidate_node_lem person.id warm warm-AllValid age direction_out

create-get_example :
    ((create_node sum (λ m. m) hash 7 person (engine caches)).1 ≡ ok tt)
    × (m : Map Value) × Holds m person.properties
    × ((get_node
          (λ m. m)
          hash
          person.id
          (create_node sum (λ m. m) hash 7 person (engine caches)).0).1
        ≡ ok (clone_node (λ m. m) (clone_node (λ m. m) (shown person m))))
create-get_example =
    create-get (λ m. m) hash same_order sum 7 person person_text (engine caches) person-IsNode
      person_coded (engine-Serves person person_text caches (omega arith)) cold_miss

-- The node with another version.
abbrev updated : Node
updated = record person { version = 4 }

updated-IsNode : IsNode updated
updated-IsNode = record {
  id_fits = person-IsNode.id_fits;
  label_count_fits = person-IsNode.label_count_fits;
  labels_fit = person-IsNode.labels_fit;
  has_properties = person-IsNode.has_properties;
  version_fits = omega arith;
  created_fits = person-IsNode.created_fits;
  updated_fits = person-IsNode.updated_fits;
}

abbrev updated_text : Bytes
updated_text =
    0 ∷ 0 ∷ 0 ∷ 1 ∷ 49 ∷ 0 ∷ 0 ∷ 0 ∷ 1 ∷ 0 ∷ 0 ∷ 0 ∷ 1 ∷ 80 ∷ 0 ∷ 0 ∷ 0 ∷ 2 ∷ 0 ∷ 0 ∷ 0 ∷ 2 ∷ 97
    ∷ 103 ∷ 2 ∷ 0 ∷ 0 ∷ 0 ∷ 0 ∷ 0 ∷ 0 ∷ 0 ∷ 30 ∷ 0 ∷ 0 ∷ 0 ∷ 1 ∷ 110 ∷ 1 ∷ 0 ∷ 0 ∷ 0 ∷ 1 ∷ 88 ∷ 0
    ∷ 0 ∷ 0 ∷ 0 ∷ 0 ∷ 0 ∷ 0 ∷ 4 ∷ 0 ∷ 0 ∷ 0 ∷ 0 ∷ 101 ∷ 83 ∷ 241 ∷ 0 ∷ 0 ∷ 0 ∷ 0 ∷ 0 ∷ 101 ∷ 83
    ∷ 241 ∷ 0 ∷ []

updated_coded : serialize_node (λ m. m) updated ≡ ok updated_text
unfolding program write_string write_value write_labels write_property write_properties write_stamps
    entries_of around serialize_node put_be
updated_coded = refl

create_stale_example :
    (get_node (λ m. m) hash updated.id (create_node sum (λ m. m) hash 7 updated (engine warm)).0).1
    ≡ ok (clone_node (λ m. m) person)
create_stale_example =
    create_stale (λ m. m) hash same_order sum 7 updated person (engine warm) refl warm_hit

person_found : (get_node (λ m. m) hash updated.id (engine warm)).1 ≡ ok (clone_node (λ m. m) person)
unfolding program caches get_node get_node_after entries_of
person_found = refl

-- UpdateNode sets the age to what it is, which makes the next version.
abbrev new_age : List (Bytes × Value × Time)
new_age = (age, int_value 30, time) ∷ []

age_set : set_properties new_age (clone_node (λ m. m) (clone_node (λ m. m) person)) ≡ some updated
unfolding program
age_set = refl

update-get_example :
    ((update_node sum (λ m. m) hash 7 updated.id new_age (engine warm)).1 ≡ ok tt)
    × (m : Map Value) × Holds m updated.properties
    × ((get_node
          (λ m. m)
          hash
          updated.id
          (update_node sum (λ m. m) hash 7 updated.id new_age (engine warm)).0).1
        ≡ ok (clone_node (λ m. m) (clone_node (λ m. m) (shown updated m))))
update-get_example =
    update-get (λ m. m) hash same_order sum 7 new_age (clone_node (λ m. m) person) updated
      updated_text (engine warm) warm-AllValid person_found age_set updated-IsNode updated_coded
      (engine-Serves updated updated_text warm (omega arith))
