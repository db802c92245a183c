-- ===== src/Cache/Levels.antt =====
-- pkg/cache/multilevel.go: `MultiLevelCache`, three caches of values of several types, with counters.
-- The hit rates of Stats, which are floats, are left out. Sizes are not negative.
pub mod Invalidation
use crazygraphstore.Common.{
  ℕ, ◌+◌, ◌*◌, ◌/◌, Bool, true, false, Option, none, some, List, [], ◌∷◌, ◌++◌, length, Bytes,
  Outcome, ok, err, panic,
}
use crazygraphstore.Common.Maps.{Map, lookup, insert}
use crazygraphstore.Common.Words.{inc64}
use crazygraphstore.Graph.{
  Value, string_value, bytes_value, int_value, int64_value, float64_value, bool_value, other_value,
  Node, Edge, Direction, direction_out, direction_in, direction_both, direction_name,
}
use crazygraphstore.Graph.Serialization.{entries_of}
use crazygraphstore.Cache
use crazygraphstore.Cache.{Error, Cache, new, get, put, invalidate, clear, resize}

-- a value of type interface{} in a cache
pub data Cached : Type 0 where
  cached_node : Node → Cached
  cached_edge : Edge → Cached
  cached_bytes : Bytes → Cached
  cached_strings : List Bytes → Cached
  cached_other : Cached

-- CacheTier; any other int is `tier_other`
pub data Tier : Type 0 where
  tier_hot tier_connection tier_data tier_other : Tier

pub record Metrics : Type 0 where
  pub l0_hits : ℕ
  pub l0_misses : ℕ
  pub l1_hits : ℕ
  pub l1_misses : ℕ
  pub l2_hits : ℕ
  pub l2_misses : ℕ
  pub total_hits : ℕ
  pub total_misses : ℕ
  pub invalidations : ℕ

pub record Levels : Type 0 where
  pub hot : Cache Cached
  pub connection : Cache Cached
  pub data_tier : Cache Cached
  pub versions : Map ℕ
  pub total_size : ℕ
  pub metrics : Metrics

abbrev no_metrics : Metrics
no_metrics = record {
  l0_hits = 0;
  l0_misses = 0;
  l1_hits = 0;
  l1_misses = 0;
  l2_hits = 0;
  l2_misses = 0;
  total_hits = 0;
  total_misses = 0;
  invalidations = 0;
}

-- NewMultiLevelCache
unfoldable pub new_levels : ℕ → ℕ → ℕ → Levels
unfolding new
new_levels hot_size connection_size data_size = record {
  hot = new hot_size;
  connection = new connection_size;
  data_tier = new data_size;
  versions = [];
  total_size = hot_size + connection_size + data_size;
  metrics = no_metrics;
}

-- NewMultiLevelCacheFromSize
unfoldable pub from_size : ℕ → Levels
unfolding new
from_size total_size = record {
  hot = new (total_size * 40 / 100);
  connection = new (total_size * 30 / 100);
  data_tier = new (total_size * 30 / 100);
  versions = [];
  total_size = total_size;
  metrics = no_metrics;
}

-- the sizes that the loops over the properties add
unfoldable pub estimate_value : Value → ℕ
estimate_value (string_value s) = length s
estimate_value (bytes_value b) = length b
estimate_value (int64_value n) = 8
estimate_value (float64_value f) = 8
estimate_value (bool_value b) = 8
estimate_value (int_value n) = 16
estimate_value other_value = 16

unfoldable pub estimate_properties : ℕ → Map Value → ℕ
unfolding estimate_value
estimate_properties size [] = size
estimate_properties size ((k, v) ∷ m) = estimate_properties (size + length k + estimate_value v) m

-- estimateNodeSize; the order of the loop does not change a sum
unfoldable pub estimate_node_size : Node → ℕ
unfolding estimate_properties
estimate_node_size n =
    estimate_properties (length n.id + length n.labels * 16) (entries_of n.properties) + 64

-- estimateEdgeSize
unfoldable pub estimate_edge_size : Edge → ℕ
unfolding estimate_properties
estimate_edge_size e =
    estimate_properties
      (length e.id + length e.from_node_id + length e.to_node_id + length e.edge_type)
      (entries_of e.properties)
    + 64

-- the switch of Put over the type of the value
unfoldable pub estimate_size : Cached → ℕ
unfolding estimate_node_size estimate_edge_size
estimate_size (cached_node n) = estimate_node_size n
estimate_size (cached_edge e) = estimate_edge_size e
estimate_size (cached_bytes b) = length b
estimate_size (cached_strings s) = 64
estimate_size cached_other = 64

-- a Put into one of the tiers
unfoldable pub put_hot : Bytes → Cached → ℕ → Levels → Levels × Outcome Cache.Error Unit
put_hot key value size l = let r = put key value size l.hot in (record l { hot = r.0 }, r.1)

unfoldable pub put_connection : Bytes → Cached → ℕ → Levels → Levels × Outcome Cache.Error Unit
put_connection key value size l =
    let r = put key value size l.connection in (record l { connection = r.0 }, r.1)

unfoldable pub put_data : Bytes → Cached → ℕ → Levels → Levels × Outcome Cache.Error Unit
put_data key value size l =
    let r = put key value size l.data_tier in (record l { data_tier = r.0 }, r.1)

-- Put
unfoldable pub put_value : Bytes → Cached → Tier → Levels → Levels × Outcome Cache.Error Unit
unfolding put_hot put_connection put_data estimate_size
put_value key value tier_hot = put_hot key value (estimate_size value)
put_value key value tier_connection = put_connection key value (estimate_size value)
put_value key value tier_data = put_data key value (estimate_size value)
put_value key value tier_other = put_hot key value (estimate_size value)

-- PutNode, PutNodeByID, PutEdge and PutEdgeByID
unfoldable pub put_node : Bytes → Node → Levels → Levels × Outcome Cache.Error Unit
unfolding put_hot estimate_node_size
put_node key n = put_hot key (cached_node n) (estimate_node_size n)

unfoldable pub put_node_by_id : Node → Levels → Levels × Outcome Cache.Error Unit
unfolding put_hot estimate_node_size
put_node_by_id n = put_hot n.id (cached_node n) (estimate_node_size n)

unfoldable pub put_edge : Bytes → Edge → Levels → Levels × Outcome Cache.Error Unit
unfolding put_data estimate_edge_size
put_edge key e = put_data key (cached_edge e) (estimate_edge_size e)

unfoldable pub put_edge_by_id : Edge → Levels → Levels × Outcome Cache.Error Unit
unfolding put_data estimate_edge_size
put_edge_by_id e = put_data e.id (cached_edge e) (estimate_edge_size e)

-- the counters of a hit or a miss in one tier
unfoldable pub count_hot : Bool → Metrics → Metrics
count_hot true m = record m { l0_hits = inc64 m.l0_hits; total_hits = inc64 m.total_hits }
count_hot false m = record m { l0_misses = inc64 m.l0_misses; total_misses = inc64 m.total_misses }

unfoldable pub count_connection : Bool → Metrics → Metrics
count_connection true m = record m { l1_hits = inc64 m.l1_hits; total_hits = inc64 m.total_hits }
count_connection false m = record m {
  l1_misses = inc64 m.l1_misses;
  total_misses = inc64 m.total_misses;
}

unfoldable pub count_data : Bool → Metrics → Metrics
count_data true m = record m { l2_hits = inc64 m.l2_hits; total_hits = inc64 m.total_hits }
count_data false m = record m { l2_misses = inc64 m.l2_misses; total_misses = inc64 m.total_misses }

unfoldable pub is_some : {A : Type 0} → Option A → Bool
is_some none = false
is_some (some a) = true

-- the type assertions; on another type they panic, and `ok none` is a miss
unfoldable pub as_node : Option Cached → Outcome Cache.Error (Option Node)
as_node none = ok none
as_node (some (cached_node n)) = ok (some n)
as_node (some c) = panic

unfoldable pub as_edge : Option Cached → Outcome Cache.Error (Option Edge)
as_edge none = ok none
as_edge (some (cached_edge e)) = ok (some e)
as_edge (some c) = panic

unfoldable pub as_strings : Option Cached → Outcome Cache.Error (Option (List Bytes))
as_strings none = ok none
as_strings (some (cached_strings s)) = ok (some s)
as_strings (some c) = panic

-- GetNode
unfoldable pub get_node : Bytes → Levels → Levels × Outcome Cache.Error (Option Node)
unfolding count_hot is_some as_node
get_node id l =
    let r = get id l.hot in
    (record l { hot = r.0; metrics = count_hot (is_some r.1) l.metrics }, as_node r.1)

-- GetEdge
unfoldable pub get_edge : Bytes → Levels → Levels × Outcome Cache.Error (Option Edge)
unfolding count_data is_some as_edge
get_edge id l =
    let r = get id l.data_tier in
    (record l { data_tier = r.0; metrics = count_data (is_some r.1) l.metrics }, as_edge r.1)

-- connectionKey
unfoldable pub connection_key : Bytes → Direction → Bytes
unfolding direction_name
connection_key id direction = id ++ (b':' ∷ direction_name direction)

-- GetConnectionList
unfoldable pub get_connection_list :
    Bytes → Direction → Levels → Levels × Outcome Cache.Error (Option (List Bytes))
unfolding count_connection is_some as_strings connection_key
get_connection_list id direction l =
    let r = get (connection_key id direction) l.connection in
    (
      record l { connection = r.0; metrics = count_connection (is_some r.1) l.metrics },
      as_strings r.1,
    )

-- PutConnectionList
unfoldable pub put_connection_list :
    Bytes → Direction → List Bytes → Levels → Levels × Outcome Cache.Error Unit
unfolding put_connection connection_key
put_connection_list id direction edge_ids =
    put_connection (connection_key id direction) (cached_strings edge_ids) (length edge_ids * 8)

-- Get: the value and its tier, by the three lookups one after another
unfoldable pub get_third : Option Cached → Levels → Levels × Option (Cached × Tier)
get_third (some v) l = (
  record l {
    metrics = record l.metrics {
      l2_hits = inc64 l.metrics.l2_hits;
      total_hits = inc64 l.metrics.total_hits;
    };
  },
  some (v, tier_data),
)
get_third none l =
    (record l { metrics = record l.metrics { total_misses = inc64 l.metrics.total_misses } }, none)

unfoldable pub get_second : Option Cached → Bytes → Levels → Levels × Option (Cached × Tier)
unfolding get_third
get_second (some v) key l = (
  record l {
    metrics = record l.metrics {
      l1_hits = inc64 l.metrics.l1_hits;
      total_hits = inc64 l.metrics.total_hits;
    };
  },
  some (v, tier_connection),
)
get_second none key l = let r = get key l.data_tier in get_third r.1 (record l { data_tier = r.0 })

unfoldable pub get_first : Option Cached → Bytes → Levels → Levels × Option (Cached × Tier)
unfolding get_second
get_first (some v) key l = (
  record l {
    metrics = record l.metrics {
      l0_hits = inc64 l.metrics.l0_hits;
      total_hits = inc64 l.metrics.total_hits;
    };
  },
  some (v, tier_hot),
)
get_first none key l =
    let r = get key l.connection in get_second r.1 key (record l { connection = r.0 })

-- Get
unfoldable pub get_value : Bytes → Levels → Levels × Option (Cached × Tier)
unfolding get_first
get_value key l = let r = get key l.hot in get_first r.1 key (record l { hot = r.0 })

abbrev pub invalidated : Metrics → Metrics
invalidated m = record m { invalidations = inc64 m.invalidations }

-- the counter of LoadOrStore, one higher
unfoldable pub next_version : Option ℕ → ℕ
next_version none = 1
next_version (some v) = inc64 v

-- InvalidateNode
unfoldable pub invalidate_node : Bytes → Levels → Levels
unfolding connection_key next_version
invalidate_node id l = record l {
  hot = invalidate id l.hot;
  data_tier = invalidate id l.data_tier;
  connection = invalidate (connection_key id direction_both) (
      invalidate (connection_key id direction_in)
        (invalidate (connection_key id direction_out) l.connection));
  versions = insert id (next_version (lookup id l.versions)) l.versions;
  metrics = invalidated l.metrics;
}

-- InvalidateNodeByKey
unfoldable pub invalidate_node_by_key : Bytes → Levels → Levels
invalidate_node_by_key key l = record l {
  hot = invalidate key l.hot;
  data_tier = invalidate key l.data_tier;
  metrics = invalidated l.metrics;
}

-- InvalidateEdge and InvalidateEdgeByKey
unfoldable pub invalidate_edge : Bytes → Levels → Levels
invalidate_edge key l = record l {
  data_tier = invalidate key l.data_tier;
  metrics = invalidated l.metrics;
}

-- Clear
unfoldable pub clear_levels : Levels → Levels
clear_levels l = record l {
  hot = clear l.hot;
  connection = clear l.connection;
  data_tier = clear l.data_tier;
}

-- Resize
unfoldable pub resize_levels : ℕ → Levels → Levels
resize_levels total_size l = record l {
  total_size = total_size;
  hot = resize (total_size * 40 / 100) l.hot;
  connection = resize (total_size * 30 / 100) l.connection;
  data_tier = resize (total_size * 30 / 100) l.data_tier;
}

-- WarmUp; the errors of PutNodeByID are dropped
unfoldable pub warm_up : List Node → Levels → Levels
unfolding put_node_by_id
warm_up [] l = l
warm_up (n ∷ ns) l = warm_up ns (put_node_by_id n l).0
