-- ===== src/Engine.antt =====
-- pkg/storage/engine.go: `Engine`, its write lanes and its cache. Goroutines are not modelled: the
-- calls come one after another, and the background flusher of a lane is in Engine/Flushing. The hash
-- of FNV-1a, a number below 2 ^ 32, is a parameter, and the order in which a `range` loop visits the
-- IDs of a map. A map from IDs to true is the list of its IDs.
pub mod Graphs
pub mod Nodes
pub mod Updates
pub mod Flushing
pub mod Lifecycle
pub mod Restart
use crazygraphstore.Common.{
  ℕ, zero, suc, ◌+◌, ◌%◌, ◌^◌, ◌==◌, Bool, true, false, not, Option, none, some, List, [], ◌∷◌,
  ◌++◌, if◌then◌else◌, length, get_elem?, Bytes, bytes_eq, Outcome, ok, err, panic,
}
use crazygraphstore.Common.Maps.{Map}
use crazygraphstore.Graph.{Value, Time, Node, Edge, set_property, clone_node, clone_edge}
use crazygraphstore.Memtable.Elements.{Failure}
use crazygraphstore.Cache
use crazygraphstore.Cache.Levels
use crazygraphstore.Cache.Levels.{Levels, put_node_by_id, put_edge_by_id, invalidate_node}
use crazygraphstore.Lane
use crazygraphstore.Lane.{Lane, write_node, write_edge}
use crazygraphstore.Lane.Reads.{read_node, read_edge}

pub data Error : Type 0 where
  not_running node_not_found edge_not_found source_not_found target_not_found not_implemented :
      Error
  lane_error : Lane.Error → Error

pub record Engine : Type 0 where
  pub lanes : List Lane
  pub cache : Levels
  pub running : Bool

-- getWriteLaneForKey, as a position; `none` is a division by zero
unfoldable pub lane_for_key : (Bytes → ℕ) → Bytes → Engine → Option ℕ
lane_for_key hash key e =
    let lanes = length e.lanes % 2 ^ 32 in if lanes == 0 then none else some (hash key % lanes)

-- The lanes with the one at a position replaced.
unfoldable pub set_lane : ℕ → Lane → List Lane → List Lane
set_lane i l [] = []
set_lane zero l (k ∷ ks) = l ∷ ks
set_lane (suc i) l (k ∷ ks) = k ∷ set_lane i l ks

-- the loops of GetNode and GetEdge over the lanes but one, at the position `skip`
unfoldable pub read_others :
    {A : Type 0} → (Lane → Outcome Failure A) → ℕ → ℕ → List Lane → Outcome Error (Option A)
read_others read skip i [] = ok none
read_others read skip i (l ∷ ls) =
    let rest = read_others read skip (suc i) ls in
    if i == skip then rest else elim (read l) [ ok a ↦ ok (some a) | err x ↦ rest | panic ↦ panic ]

unfoldable pub first_result :
    {A : Type 0} → Outcome Failure A → Outcome Error (Option A) → Outcome Error (Option A)
first_result (ok a) others = ok (some a)
first_result (err x) others = others
first_result panic others = panic

-- the read of the lane of the key, given the read of the others
unfoldable pub read_first :
    {A : Type 0}
    → (Lane → Outcome Failure A)
    → Option Lane
    → Outcome Error (Option A)
    → Outcome Error (Option A)
unfolding first_result
read_first read none others = panic
read_first read (some l) others = first_result (read l) others

-- the reads of GetNode and GetEdge behind the cache: the lane of the key, and then the others
unfoldable pub read_lanes :
    {A : Type 0} → (Lane → Outcome Failure A) → Option ℕ → Engine → Outcome Error (Option A)
unfolding read_first read_others
read_lanes read none e = panic
read_lanes read (some i) e = read_first read (get_elem? e.lanes i) (read_others read i 0 e.lanes)

module _ (range : Map Value → Map Value) where
  -- the end of GetNode: the node is cached, and the error of PutNodeByID dropped
  unfoldable pub keep_node : Outcome Error (Option Node) → Engine → Engine × Outcome Error Node
  keep_node (ok (some n)) e = (
    record e { cache = (put_node_by_id (clone_node range n) e.cache).0 },
    ok (clone_node range (clone_node range n)),
  )
  keep_node (ok none) e = (e, err node_not_found)
  keep_node (err x) e = (e, err x)
  keep_node panic e = (e, panic)

  unfoldable pub keep_edge : Outcome Error (Option Edge) → Engine → Engine × Outcome Error Edge
  keep_edge (ok (some n)) e = (
    record e { cache = (put_edge_by_id (clone_edge range n) e.cache).0 },
    ok (clone_edge range (clone_edge range n)),
  )
  keep_edge (ok none) e = (e, err edge_not_found)
  keep_edge (err x) e = (e, err x)
  keep_edge panic e = (e, panic)

  -- GetNode behind the lookup in the cache
  unfoldable pub get_node_after :
      Outcome Cache.Error (Option Node) → Bytes → Option ℕ → Engine → Engine × Outcome Error Node
  unfolding read_lanes keep_node
  get_node_after (ok (some n)) id i e = (e, ok (clone_node range n))
  get_node_after (ok none) id i e = keep_node (read_lanes (read_node id) i e) e
  get_node_after (err x) id i e = keep_node (read_lanes (read_node id) i e) e
  get_node_after panic id i e = (e, panic)

  unfoldable pub get_edge_after :
      Outcome Cache.Error (Option Edge) → Bytes → Option ℕ → Engine → Engine × Outcome Error Edge
  unfolding read_lanes keep_edge
  get_edge_after (ok (some n)) id i e = (e, ok (clone_edge range n))
  get_edge_after (ok none) id i e = keep_edge (read_lanes (read_edge id) i e) e
  get_edge_after (err x) id i e = keep_edge (read_lanes (read_edge id) i e) e
  get_edge_after panic id i e = (e, panic)

  module _ (hash : Bytes → ℕ) where
    -- GetNode
    unfoldable pub get_node : Bytes → Engine → Engine × Outcome Error Node
    unfolding get_node_after lane_for_key
    get_node id e =
        let r = Levels.get_node id e.cache in
        if e.running
        then get_node_after r.1 id (lane_for_key hash id e) (record e { cache = r.0 })
        else (e, err not_running)

    -- GetEdge
    unfoldable pub get_edge : Bytes → Engine → Engine × Outcome Error Edge
    unfolding get_edge_after lane_for_key
    get_edge id e =
        let r = Levels.get_edge id e.cache in
        if e.running
        then get_edge_after r.1 id (lane_for_key hash id e) (record e { cache = r.0 })
        else (e, err not_running)

unfoldable pub in_lane : Outcome Lane.Error Unit → Outcome Error Unit
in_lane (ok _) = ok tt
in_lane (err x) = err (lane_error x)
in_lane panic = panic

-- a write to a lane that stands at a position
unfoldable pub on_lane_at :
    ℕ → Option Lane → (Lane → Lane × Outcome Lane.Error Unit) → Engine → Engine × Outcome Error Unit
unfolding set_lane in_lane
on_lane_at i none f e = (e, panic)
on_lane_at i (some l) f e =
    let r = f l in (record e { lanes = set_lane i r.0 e.lanes }, in_lane r.1)

-- a write to the lane at a position
unfoldable pub on_lane :
    Option ℕ → (Lane → Lane × Outcome Lane.Error Unit) → Engine → Engine × Outcome Error Unit
unfolding on_lane_at
on_lane none f e = (e, panic)
on_lane (some i) f e = on_lane_at i (get_elem? e.lanes i) f e

-- the loop of UpdateNode over the properties, each with the time of its SetProperty; `none` is a
-- panic
unfoldable pub set_properties : List (Bytes × Value × Time) → Node → Option Node
set_properties [] n = some n
set_properties ((key, value, now) ∷ ps) n = elim (set_property key value now n) [
  | none ↦ none
  | some n' ↦ set_properties ps n'
]

module _ (crc32 : Bytes → ℕ) (range : Map Value → Map Value) (hash : Bytes → ℕ) where
  -- CreateNode
  unfoldable pub create_node : ℕ → Node → Engine → Engine × Outcome Error Unit
  unfolding on_lane lane_for_key
  create_node now n e =
      if e.running
      then on_lane (lane_for_key hash n.id e) (write_node crc32 range now n) e
      else (e, err not_running)

  -- UpdateNode from the node with its properties on
  unfoldable pub write_updated : ℕ → Bytes → Option Node → Engine → Engine × Outcome Error Unit
  unfolding on_lane lane_for_key
  write_updated now id none e = (e, panic)
  write_updated now id (some n) e =
      on_lane (lane_for_key hash id e) (write_node crc32 range now n)
        (record e { cache = invalidate_node id e.cache })

  -- UpdateNode behind GetNode
  unfoldable pub update_found :
      ℕ
      → Bytes
      → List (Bytes × Value × Time)
      → Engine × Outcome Error Node
      → Engine × Outcome Error Unit
  unfolding write_updated set_properties
  update_found now id ps p = elim p.1 [
    | ok n ↦ write_updated now id (set_properties ps (clone_node range n)) p.0
    | err x ↦ (p.0, err x)
    | panic ↦ (p.0, panic)
  ]

  -- UpdateNode
  unfoldable pub update_node :
      ℕ → Bytes → List (Bytes × Value × Time) → Engine → Engine × Outcome Error Unit
  unfolding update_found get_node
  update_node now id ps e =
      if e.running then update_found now id ps (get_node range hash id e) else (e, err not_running)

  -- DeleteNode
  unfoldable pub delete_node : Bytes → Engine → Engine × Outcome Error Unit
  delete_node id e = if e.running then (e, err not_implemented) else (e, err not_running)

  -- a test of CreateEdge that a node exists
  unfoldable pub require_node :
      Bytes → Error → (Engine → Engine × Outcome Error Unit) → Engine → Engine × Outcome Error Unit
  unfolding get_node
  require_node id missing next e =
      let p = get_node range hash id e in
      elim p.1 [ ok _ ↦ next p.0 | err x ↦ (p.0, err missing) | panic ↦ (p.0, panic) ]

  -- CreateEdge
  unfoldable pub create_edge : ℕ → Edge → Engine → Engine × Outcome Error Unit
  unfolding require_node on_lane lane_for_key
  create_edge now edge e =
      if e.running
      then require_node edge.from_node_id source_not_found
          (require_node edge.to_node_id target_not_found
            (λ e'. on_lane (lane_for_key hash edge.id e') (write_edge crc32 range now edge) e'))
          e
      else (e, err not_running)
