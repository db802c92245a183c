-- ===== src/Compaction.antt =====
-- pkg/compaction/compaction.go: `Compactor`, its tables and their selection. The merge itself is in
-- Compaction/Merger. `sort.Slice` is a parameter. A time is a number, and the files of the directory
-- are a map from paths to bytes.
pub mod Selection
pub mod Merger
pub mod Stranded
pub mod Cycle
use crazygraphstore.Common.{
  ℕ, ◌+◌, ◌*◌, ◌==◌, Bool, true, false, ◌&&◌, Option, none, some, List, [], ◌∷◌, ◌++◌,
  if◌then◌else◌, ltb, leb, length, take, Bytes, bytes_eq, Outcome, ok, err,
}

pub data Strategy : Type 0 where
  size_tiered leveled other_strategy : Strategy

pub record TableInfo : Type 0 where
  pub path : Bytes
  pub size : ℕ
  pub level : ℕ
  pub created_at : ℕ
  pub num_entries : ℕ

pub record Compactor : Type 0 where
  pub data_dir : Bytes
  pub strategy : Strategy
  pub max_table_size : ℕ
  pub running : Bool
  pub tables : List TableInfo
  pub total_compactions : ℕ
  pub total_bytes_read : ℕ
  pub total_bytes_written : ℕ
  pub last_compaction_time : Option ℕ

-- NewCompactor
unfoldable pub new_compactor : Bytes → Strategy → ℕ → Compactor
new_compactor data_dir strategy max_table_size = record {
  data_dir = data_dir;
  strategy = strategy;
  max_table_size = max_table_size;
  running = false;
  tables = [];
  total_compactions = 0;
  total_bytes_read = 0;
  total_bytes_written = 0;
  last_compaction_time = none;
}

pub data Error : Type 0 where
  already_running not_running : Error

-- Start; the goroutine is not part of the model
unfoldable pub start : Compactor → Compactor × Outcome Error Unit
start c = if c.running then (c, err already_running) else (record c { running = true }, ok tt)

-- Stop
unfoldable pub stop : Compactor → Compactor × Outcome Error Unit
stop c = if c.running then (record c { running = false }, ok tt) else (c, err not_running)

-- RegisterTable
unfoldable pub register_table : Bytes → ℕ → ℕ → ℕ → Compactor → Compactor
register_table path size num_entries now c = record c {
  tables =
      c.tables
      ++ record { path = path; size = size; level = 0; created_at = now; num_entries = num_entries }
        ∷ [];
}

-- the loop of shouldCompact
unfoldable pub level0_count : ℕ → List TableInfo → ℕ
level0_count n [] = n
level0_count n (t ∷ ts) = level0_count (if t.level == 0 then n + 1 else n) ts

-- shouldCompact
unfoldable pub should_compact : List TableInfo → Bool
unfolding level0_count
should_compact tables = ltb 4 (level0_count 0 tables)

-- the inner loop of the size-tiered selection, which `first` began: it ends with four tables
unfoldable pub fill_group : TableInfo → List TableInfo → List TableInfo → List TableInfo
fill_group first [] group = group
fill_group first (t ∷ ts) group =
    if ltb (length group) 4
    then fill_group first ts (if leb t.size (first.size * 2) then group ++ t ∷ [] else group)
    else group

-- the outer loop, over the sorted tables but the last; no group is the empty list
unfoldable pub find_group : List TableInfo → List TableInfo
unfolding fill_group
find_group [] = []
find_group (t ∷ []) = []
find_group (t ∷ u ∷ ts) =
    let group = fill_group t (u ∷ ts) (t ∷ []) in
    let rest = find_group (u ∷ ts) in if leb 2 (length group) then group else rest

-- selectTablesForSizeTieredCompaction
unfoldable pub select_size_tiered :
    (List TableInfo → List TableInfo) → List TableInfo → List TableInfo
unfolding find_group
select_size_tiered sort tables = if ltb (length tables) 2 then [] else find_group (sort tables)

-- the loop of selectTablesForLeveledCompaction
unfoldable pub level0_tables : List TableInfo → List TableInfo
level0_tables [] = []
level0_tables (t ∷ ts) = let rest = level0_tables ts in if t.level == 0 then t ∷ rest else rest

-- selectTablesForLeveledCompaction
unfoldable pub select_leveled : List TableInfo → List TableInfo
unfolding level0_tables
select_leveled tables =
    let level0 = level0_tables tables in if leb 4 (length level0) then take 4 level0 else []

-- the loop of calculateNewLevel
unfoldable pub max_level : ℕ → List TableInfo → ℕ
max_level n [] = n
max_level n (t ∷ ts) = max_level (if ltb n t.level then t.level else n) ts

-- calculateNewLevel
unfoldable pub calculate_new_level : List TableInfo → ℕ
unfolding max_level
calculate_new_level tables = max_level 0 tables + 1

-- a path in the set of removeTables
unfoldable pub has_path : Bytes → List TableInfo → Bool
has_path path [] = false
has_path path (t ∷ ts) = let rest = has_path path ts in if bytes_eq t.path path then true else rest

-- removeTables: the tables that stay
unfoldable pub remove_tables : List TableInfo → List TableInfo → List TableInfo
unfolding has_path
remove_tables to_remove [] = []
remove_tables to_remove (t ∷ ts) =
    let rest = remove_tables to_remove ts in if has_path t.path to_remove then rest else t ∷ rest

pub record CompactionStats : Type 0 where
  pub total_compactions : ℕ
  pub total_bytes_read : ℕ
  pub total_bytes_written : ℕ
  pub last_compaction_time : Option ℕ
  pub num_tables : ℕ
  pub total_table_size : ℕ

-- the loop of Stats
unfoldable pub table_size : ℕ → List TableInfo → ℕ
table_size n [] = n
table_size n (t ∷ ts) = table_size (n + t.size) ts

-- Stats
unfoldable pub stats : Compactor → CompactionStats
unfolding table_size
stats c = record {
  total_compactions = c.total_compactions;
  total_bytes_read = c.total_bytes_read;
  total_bytes_written = c.total_bytes_written;
  last_compaction_time = c.last_compaction_time;
  num_tables = length c.tables;
  total_table_size = table_size 0 c.tables;
}
