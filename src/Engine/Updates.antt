-- ===== src/Engine/Updates.antt =====
-- UpdateNode of pkg/storage/engine.go, and what GetNode then returns.
use crazygraphstore.Common.{
  ℕ, ◌≡◌, refl, ap, ◌∙◌, Bool, true, Option, none, some, List, if◌then◌else◌, Bytes, bytes_eq_refl,
  Outcome, ok, err, panic, if_rule, ok-injective,
}
use crazygraphstore.Common.Maps.{Map}
use crazygraphstore.Graph.{Value, Time, Node, IsRange, clone_node, direction_out}
use crazygraphstore.Graph.Serialization.{serialize_node}
use crazygraphstore.Graph.Serialization.Nodes.{IsNode}
use crazygraphstore.Graph.Serialization.PropertyMaps.{Holds}
use crazygraphstore.Cache
use crazygraphstore.Cache.Levels
use crazygraphstore.Cache.Levels.{Levels, invalidate_node}
use crazygraphstore.Cache.Levels.Invalidation.{
  AllValid, invalidate_node_lem, put_node_by_id-AllValid, get_node-AllValid,
}
use crazygraphstore.Lane.Reads.{read_node}
use crazygraphstore.Lane.Writes.{shown}
use crazygraphstore.Engine.{
  Engine, Error, lane_for_key, read_lanes, keep_node, get_node_after, get_node, set_properties,
  write_updated, update_found, update_node,
}
use crazygraphstore.Engine.Nodes.{Serves, lane_for_key_cong, get_node_running, write_then_get}

module _ (range : Map Value → Map Value) (hash : Bytes → ℕ) where
  module _ (IsRange-range : IsRange range) (crc32 : Bytes → ℕ) where
    -- GetNode changes nothing but the cache, whose tiers stay valid.
    record Reads (before after : Engine) : Type 0 where
      same_lanes : after.lanes ≡ before.lanes
      same_running : after.running ≡ before.running
      still_valid : AllValid after.cache

    keep_node-Reads :
        (o : Outcome Error (Option Node)) (e : Engine)
        → AllValid e.cache
        → Reads e (keep_node range o e).0
    unfolding keep_node
    keep_node-Reads (ok (some n)) e h = record {
      same_lanes = refl;
      same_running = refl;
      still_valid = put_node_by_id-AllValid (clone_node range n) e.cache h;
    }
    keep_node-Reads (ok none) e h = record {
      same_lanes = refl;
      same_running = refl;
      still_valid = h;
    }
    keep_node-Reads (err x) e h = record { same_lanes = refl; same_running = refl; still_valid = h }
    keep_node-Reads panic e h = record { same_lanes = refl; same_running = refl; still_valid = h }

    get_node_after-Reads :
        (o : Outcome Cache.Error (Option Node)) (id : Bytes) (i : Option ℕ) (e : Engine)
        → AllValid e.cache
        → Reads e (get_node_after range o id i e).0
    unfolding get_node_after
    get_node_after-Reads (ok (some n)) id i e h = record {
      same_lanes = refl;
      same_running = refl;
      still_valid = h;
    }
    get_node_after-Reads (ok none) id i e h = keep_node-Reads (read_lanes (read_node id) i e) e h
    get_node_after-Reads (err x) id i e h = keep_node-Reads (read_lanes (read_node id) i e) e h
    get_node_after-Reads panic id i e h = record {
      same_lanes = refl;
      same_running = refl;
      still_valid = h;
    }

    get_node-Reads :
        (id : Bytes) (e : Engine)
        → e.running ≡ true
        → AllValid e.cache
        → Reads e (get_node range hash id e).0
    get_node-Reads id e on h =
        let r =
          get_node_after-Reads (Levels.get_node id e.cache).1 id (lane_for_key hash id e)
            (record e { cache = (Levels.get_node id e.cache).0 })
            (get_node-AllValid id e.cache h) in
        rw (get_node_running range hash id e on) (record {
          same_lanes = r.same_lanes;
          same_running = r.same_running;
          still_valid = r.still_valid;
        })

    update_found_lem :
        (now : ℕ) (id : Bytes) (ps : List (Bytes × Value × Time)) (found n : Node)
        (p : Engine × Outcome Error Node)
        → p.1 ≡ ok found
        → set_properties ps (clone_node range found) ≡ some n
        → update_found crc32 range hash now id ps p
          ≡ write_updated crc32 range hash now id (some n) p.0
    unfolding update_found
    update_found_lem now id ps found n (e, ok m) got set =
        ap (λ o. write_updated crc32 range hash now id o e)
          (ap (λ k. set_properties ps (clone_node range k)) (ok-injective got) ∙ set)
    update_found_lem now id ps found n (e, err x) got set = cc
    update_found_lem now id ps found n (e, panic) got set = cc

    update_lem :
        (now : ℕ) (id : Bytes) (ps : List (Bytes × Value × Time)) (found n : Node) (e : Engine)
        → e.running ≡ true
        → (get_node range hash id e).1 ≡ ok found
        → set_properties ps (clone_node range found) ≡ some n
        → update_node crc32 range hash now id ps e
          ≡ write_updated crc32 range hash now id (some n) (get_node range hash id e).0
    unfolding update_node
    update_lem now id ps found n e on got set =
        if_rule
          (λ p. p ≡ write_updated crc32 range hash now id (some n) (get_node range hash id e).0)
          e.running (λ _. update_found_lem now id ps found n (get_node range hash id e) got set)
          λ off. absurd (cc (off, on))

    -- Let an engine run with fewer than 2 ^ 32 lanes. Let no lane be stopped, each with a log that
    -- is open and not in Direct I/O mode, with an active table of nodes that has the lane's
    -- memtable size, is not frozen and holds no tombstone, and with memtables large enough for the
    -- node that UpdateNode makes; and let the tiers of the cache be valid. If GetNode finds a node
    -- at an ID, and with the new properties it is a node with this ID that fits the format and can
    -- be serialized, then UpdateNode succeeds, and GetNode then returns a copy of the node with the
    -- new properties, with times without nanoseconds: an older copy in the cache is not returned.
    pub update-get :
        (now : ℕ) (ps : List (Bytes × Value × Time)) (found n : Node) (text : Bytes) (e : Engine)
        → AllValid e.cache
        → (get_node range hash n.id e).1 ≡ ok found
        → set_properties ps (clone_node range found) ≡ some n
        → IsNode n
        → serialize_node range n ≡ ok text
        → Serves n text e
        → ((update_node crc32 range hash now n.id ps e).1 ≡ ok tt)
          × (m : Map Value) × Holds m n.properties
          × ((get_node range hash n.id (update_node crc32 range hash now n.id ps e).0).1
              ≡ ok (clone_node range (clone_node range (shown n m))))
    update-get now ps found n text e caches got set valid coded h =
        let p : Engine = (get_node range hash n.id e).0 in
        let r = get_node-Reads n.id e h.started caches in
        let q : Engine = record p { cache = invalidate_node n.id p.cache } in
        let (valid', miss, edges, lists) =
          invalidate_node_lem n.id p.cache r.still_valid n.id direction_out in
        let serves : Serves n text q = record {
          started = r.same_running ∙ h.started;
          some_lane = rw r.same_lanes h.some_lane;
          few_lanes = rw r.same_lanes h.few_lanes;
          lanes_run = rw r.same_lanes h.lanes_run;
          lanes_fit = rw r.same_lanes h.lanes_fit;
        } in
        let missing : (Levels.get_node n.id q.cache).1 ≡ ok none =
          miss
          ∙ ap (λ (b : Bool). if b then ok none else (Levels.get_node n.id p.cache).1)
              (bytes_eq_refl n.id) in
        rw (update_lem now n.id ps found n e h.started got set) (
          unfold write_updated in
          rw (lane_for_key_cong range hash n.id p q refl)
            (write_then_get range hash IsRange-range crc32 now n text q valid coded serves missing))
