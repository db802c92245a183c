-- ===== src/Engine/Graphs.antt =====
-- pkg/storage/engine.go: the edges of a node, its neighbors, statistics and recovery.
use crazygraphstore.Common.{
  ℕ, ◌+◌, List, [], ◌∷◌, ◌++◌, if◌then◌else◌, length, Bytes, bytes_eq, Outcome, ok, err, panic,
}
use crazygraphstore.Common.Maps.{Map}
use crazygraphstore.Graph.{
  Value, Node, Edge, Direction, direction_out, direction_in, direction_both,
}
use crazygraphstore.Lane
use crazygraphstore.Lane.{Lane}
use crazygraphstore.Lane.Reads
use crazygraphstore.Lane.Upkeep.{LaneStats, stats, recover}
use crazygraphstore.Wal.Replay.{Ended, replayed}
use crazygraphstore.Engine.{Engine, Error, not_running, get_node, get_edge}

-- an ID set to true in a map of IDs
unfoldable pub add_id : Bytes → List Bytes → List Bytes
add_id id [] = id ∷ []
add_id id (j ∷ ids) = if bytes_eq j id then j ∷ ids else j ∷ add_id id ids

unfoldable pub add_ids : List Bytes → List Bytes → List Bytes
unfolding add_id
add_ids [] ids = ids
add_ids (id ∷ more) ids = add_ids more (add_id id ids)

-- the loop over the lanes that collects edge IDs
unfoldable pub collect_ids : (Lane → List Bytes) → List Lane → List Bytes → List Bytes
unfolding add_ids
collect_ids read [] ids = ids
collect_ids read (l ∷ ls) ids = collect_ids read ls (add_ids (read l) ids)

-- the loops that get the elements of some IDs; errors are dropped
unfoldable pub get_each :
    {A : Type 0}
    → (Bytes → Engine → Engine × Outcome Error A)
    → List Bytes
    → List A
    → Engine
    → Engine × Outcome Error (List A)
get_each get [] found e = (e, ok found)
get_each get (id ∷ ids) found e =
    let p = get id e in
    elim p.1 [
      | ok a ↦ get_each get ids (found ++ a ∷ []) p.0
      | err x ↦ get_each get ids found p.0
      | panic ↦ (p.0, panic)
    ]

-- the targets and the sources of edges, put into a map of node IDs
unfoldable pub add_ends : (Edge → Bytes) → List Edge → List Bytes → List Bytes
unfolding add_id
add_ends end [] ids = ids
add_ends end (edge ∷ edges) ids = add_ends end edges (add_id (end edge) ids)

module _ (range : Map Value → Map Value) (hash : Bytes → ℕ) (order : List Bytes → List Bytes) where
  -- GetOutgoingEdges
  unfoldable pub get_outgoing_edges : Bytes → Engine → Engine × Outcome Error (List Edge)
  unfolding collect_ids get_each get_edge
  get_outgoing_edges node e =
      if e.running
      then get_each (get_edge range hash)
          (order (collect_ids (Reads.get_outgoing_edges node) e.lanes [])) [] e
      else (e, err not_running)

  -- GetIncomingEdges
  unfoldable pub get_incoming_edges : Bytes → Engine → Engine × Outcome Error (List Edge)
  unfolding collect_ids get_each get_edge
  get_incoming_edges node e =
      if e.running
      then get_each (get_edge range hash)
          (order (collect_ids (Reads.get_incoming_edges node) e.lanes [])) [] e
      else (e, err not_running)

  -- one case of the switch of GetNeighbors
  unfoldable pub add_neighbors :
      Engine × Outcome Error (List Edge)
      → (Edge → Bytes)
      → List Bytes
      → (List Bytes → Engine → Engine × Outcome Error (List Node))
      → Engine × Outcome Error (List Node)
  unfolding add_ends
  add_neighbors p end ids next = elim p.1 [
    | ok edges ↦ next (add_ends end edges ids) p.0
    | err x ↦ (p.0, err x)
    | panic ↦ (p.0, panic)
  ]

  -- the switch of GetNeighbors
  unfoldable pub neighbors_by :
      Direction
      → Bytes
      → (List Bytes → Engine → Engine × Outcome Error (List Node))
      → Engine
      → Engine × Outcome Error (List Node)
  unfolding add_neighbors get_outgoing_edges get_incoming_edges
  neighbors_by direction_out node next e =
      add_neighbors (get_outgoing_edges node e) (λ edge. edge.to_node_id) [] next
  neighbors_by direction_in node next e =
      add_neighbors (get_incoming_edges node e) (λ edge. edge.from_node_id) [] next
  neighbors_by direction_both node next e =
      add_neighbors (get_outgoing_edges node e) (λ edge. edge.to_node_id) []
        λ ids e'. add_neighbors (get_incoming_edges node e') (λ edge. edge.from_node_id) ids next

  -- GetNeighbors
  unfoldable pub get_neighbors : Bytes → Direction → Engine → Engine × Outcome Error (List Node)
  unfolding neighbors_by get_each get_node
  get_neighbors node direction e =
      if e.running
      then neighbors_by direction node (λ ids. get_each (get_node range hash) (order ids) []) e
      else (e, err not_running)

-- the sums of Stats over the lanes
pub record EngineStats : Type 0 where
  pub num_lanes : ℕ
  pub total_active_size : ℕ
  pub total_active_count : ℕ
  pub total_old_memtables : ℕ
  pub total_size : ℕ
  pub lane_stats : List LaneStats

-- the loop of Stats
unfoldable pub add_stats : List Lane → EngineStats → EngineStats
unfolding stats
add_stats [] s = s
add_stats (l ∷ ls) s =
    let t : LaneStats = stats l in
    add_stats ls (record s {
      lane_stats = s.lane_stats ++ t ∷ [];
      total_active_size = s.total_active_size + t.active_size;
      total_active_count = s.total_active_count + t.active_count;
      total_old_memtables = s.total_old_memtables + t.old_memtable_count;
      total_size = s.total_size + t.total_size;
    })

-- Stats, of the lanes
unfoldable pub engine_stats : Engine → EngineStats
unfolding add_stats
engine_stats e = add_stats e.lanes (record {
  num_lanes = length e.lanes;
  total_active_size = 0;
  total_active_count = 0;
  total_old_memtables = 0;
  total_size = 0;
  lane_stats = [];
})

module _ (range : Map Value → Map Value) (crc32 : Bytes → ℕ) where
  -- recover: the lanes one after another, up to the first that fails; the result says whether none
  -- did
  unfoldable pub recover_lanes : List Lane → List Lane × Ended Lane.Error
  unfolding recover
  recover_lanes [] = ([], replayed)
  recover_lanes (l ∷ ls) =
      let p = recover range crc32 l in
      let rest = recover_lanes ls in
      elim p.1 [ replayed ↦ (p.0 ∷ rest.0, rest.1) | other ↦ (p.0 ∷ ls, other) ]
