-- ===== src/Compaction/Cycle.antt =====
-- pkg/compaction/compaction.go and merger.go: merging tables into a new one, and a compaction cycle.
use crazygraphstore.Common.{
  ℕ, zero, suc, ◌+◌, ◌%◌, ◌^◌, Option, none, some, List, [], ◌∷◌, ◌++◌, if◌then◌else◌, ltb, length,
  Bytes, Outcome, ok, err, panic,
}
use crazygraphstore.Common.Maps.{Map, lookup, insert, delete}
use crazygraphstore.Common.Words.{inc64}
use crazygraphstore.Sstable
use crazygraphstore.Sstable.Writer.{Writer, new_writer, add, close_writer}
use crazygraphstore.Sstable.Reader.{Reader, new_reader}
use crazygraphstore.Sstable.Table.{BloomFilter}
use crazygraphstore.Compaction.{
  Strategy, size_tiered, leveled, other_strategy, TableInfo, Compactor, should_compact,
  select_size_tiered, select_leveled, calculate_new_level, has_path, remove_tables,
}
use crazygraphstore.Compaction.Merger
use crazygraphstore.Compaction.Merger.{MergeEntry, Merger, new_merger, next}

pub data Error : Type 0 where
  unknown_strategy merge_stuck : Error
  merge_error : Merger.Error → Error
  write_error close_error : Sstable.Error → Error

-- the files that removeTables deletes
unfoldable pub remove_files : List TableInfo → List TableInfo → Map Bytes → Map Bytes
unfolding has_path
remove_files to_remove [] files = files
remove_files to_remove (t ∷ ts) files =
    remove_files to_remove ts (if has_path t.path to_remove then delete t.path files else files)

-- A compaction of some tables: the compactor, the files, and the new table or an error.
pub record Merged (A : Type 0) : Type 0 where
  pub compactor : Compactor
  pub files : Map Bytes
  pub result : Outcome Error A

module _ (push : MergeEntry → List MergeEntry → List MergeEntry)
    (settle : List MergeEntry → List MergeEntry) (crc32 : Bytes → ℕ) {B : Type 0}
    (bloom : BloomFilter B) where
  -- an Add of the loop of compactTables; `rest` is the rest of the loop
  unfoldable pub after_add :
      Writer B × Outcome Sstable.Error Unit
      → ℕ
      → (Writer B → ℕ → Writer B × ℕ × Outcome Error Unit)
      → ℕ
      → Writer B × ℕ × Outcome Error Unit
  after_add p n rest bytes_read = elim p.1 [
    | ok _ ↦ rest p.0 ((bytes_read + n) % 2 ^ 64)
    | err x ↦ (p.0, bytes_read, err (write_error x))
    | panic ↦ (p.0, bytes_read, panic)
  ]

  -- the body of the loop of compactTables, from the result of Next on
  unfoldable pub after_next_entry :
      Outcome Merger.Error (Bytes × Bytes)
      → (Writer B → ℕ → Writer B × ℕ × Outcome Error Unit)
      → Writer B
      → ℕ
      → Writer B × ℕ × Outcome Error Unit
  unfolding after_add
  after_next_entry (ok (key, value)) rest w bytes_read =
      after_add (add crc32 bloom.add_string key value w) (length key + length value) rest bytes_read
  after_next_entry (err Merger.merger_done) rest w bytes_read = (w, bytes_read, ok tt)
  after_next_entry (err Merger.exhausted) rest w bytes_read =
      (w, bytes_read, err (merge_error Merger.exhausted))
  after_next_entry (err Merger.scan_failed) rest w bytes_read =
      (w, bytes_read, err (merge_error Merger.scan_failed))
  after_next_entry panic rest w bytes_read = (w, bytes_read, panic)

  -- the loop of compactTables, and the count of the bytes read; without fuel it is `merge_stuck`
  unfoldable pub merge_loop : ℕ → Merger B → Writer B → ℕ → Writer B × ℕ × Outcome Error Unit
  unfolding after_next_entry next
  merge_loop zero m w bytes_read = (w, bytes_read, err merge_stuck)
  merge_loop (suc fuel) m w bytes_read =
      let p = next push settle crc32 m in after_next_entry p.1 (merge_loop fuel p.0) w bytes_read

  -- newMerger and the loop of compactTables
  unfoldable pub merge_tables :
      ℕ → Outcome Merger.Error (Merger B) → Writer B → ℕ → Writer B × ℕ × Outcome Error Unit
  unfolding merge_loop
  merge_tables fuel (ok m) w bytes_read = merge_loop fuel m w bytes_read
  merge_tables fuel (err x) w bytes_read = (w, bytes_read, err (merge_error x))
  merge_tables fuel panic w bytes_read = (w, bytes_read, panic)

  -- A reader of a path: a file that is missing does not open.
  unfoldable pub open_path : Map Bytes → TableInfo → Outcome Sstable.Error (Reader B)
  unfolding new_reader
  open_path files t = elim (lookup t.path files) [
    | none ↦ err Sstable.file_too_small
    | some file ↦ new_reader crc32 bloom.gob_decode file
  ]

  unfoldable pub open_paths : Map Bytes → List TableInfo → List (Outcome Sstable.Error (Reader B))
  unfolding open_path
  open_paths files [] = []
  open_paths files (t ∷ ts) = open_path files t ∷ open_paths files ts

  -- compactTables behind Close: the statistics and the new table
  unfoldable pub finish_table :
      Bytes
      → ℕ
      → List TableInfo
      → Writer B × Outcome Sstable.Error Unit
      → Compactor
      → Map Bytes
      → Merged TableInfo
  unfolding calculate_new_level
  finish_table path now tables p c files = elim p.1 [
    | ok _ ↦ record {
      compactor = record c {
        total_bytes_written = (c.total_bytes_written + length p.0.file) % 2 ^ 64;
      };
      files = insert path p.0.file files;
      result = ok (record {
        path = path;
        size = length p.0.file;
        level = calculate_new_level tables;
        created_at = now;
        num_entries = p.0.entries_count;
      });
    }
    | err x ↦ record {
      compactor = c;
      files = insert path p.0.file files;
      result = err (close_error x);
    }
    | panic ↦ record { compactor = c; files = insert path p.0.file files; result = panic }
  ]

  -- compactTables behind the loop; the deferred Close finishes the file also after an error
  unfoldable pub close_table :
      Bytes
      → ℕ
      → List TableInfo
      → Writer B × ℕ × Outcome Error Unit
      → Compactor
      → Map Bytes
      → Merged TableInfo
  unfolding finish_table
  close_table path now tables p c files =
      let c' : Compactor = record c { total_bytes_read = p.1 } in
      let q = close_writer crc32 bloom.gob_encode p.0 in
      elim p.2 [
        | ok _ ↦ finish_table path now tables q c' files
        | err x ↦ record { compactor = c'; files = insert path q.0.file files; result = err x }
        | panic ↦ record { compactor = c'; files = insert path q.0.file files; result = panic }
      ]

  -- compactTables, to a path that has the time in its name
  unfoldable pub compact_tables :
      ℕ → Bytes → ℕ → List TableInfo → Compactor → Map Bytes → Merged TableInfo
  unfolding merge_tables open_paths close_table new_merger
  compact_tables fuel path now tables c files =
      close_table path now tables
        (merge_tables fuel (new_merger push settle crc32 (open_paths files tables))
          (new_writer bloom.empty_filter) c.total_bytes_read)
        c files

  -- runCompaction behind compactTables
  unfoldable pub replace_tables : ℕ → List TableInfo → Merged TableInfo → Merged (Unit {0})
  unfolding remove_tables remove_files
  replace_tables now old p = elim p.result [
    | ok t ↦ record {
      compactor = record p.compactor {
        tables = remove_tables old p.compactor.tables ++ t ∷ [];
        total_compactions = inc64 p.compactor.total_compactions;
        last_compaction_time = some now;
      };
      files = remove_files old p.compactor.tables p.files;
      result = ok tt;
    }
    | err x ↦ record { compactor = p.compactor; files = p.files; result = err x }
    | panic ↦ record { compactor = p.compactor; files = p.files; result = panic }
  ]

  -- the switch of runCompaction; `none` is an unknown strategy
  unfoldable pub select_tables :
      (List TableInfo → List TableInfo) → Strategy → List TableInfo → Option (List TableInfo)
  unfolding select_size_tiered select_leveled
  select_tables sort size_tiered tables = some (select_size_tiered sort tables)
  select_tables sort leveled tables = some (select_leveled tables)
  select_tables sort other_strategy tables = none

  -- runCompaction from the selection on
  unfoldable pub compact_selected :
      ℕ → Bytes → ℕ → Option (List TableInfo) → Compactor → Map Bytes → Merged (Unit {0})
  unfolding compact_tables replace_tables
  compact_selected fuel path now none c files = record {
    compactor = c;
    files = files;
    result = err unknown_strategy;
  }
  compact_selected fuel path now (some tables) c files =
      if ltb (length tables) 2
      then record { compactor = c; files = files; result = ok tt }
      else replace_tables now tables (compact_tables fuel path now tables c files)

  -- runCompaction
  unfoldable pub run_compaction :
      (List TableInfo → List TableInfo) → ℕ → Bytes → ℕ → Compactor → Map Bytes → Merged (Unit {0})
  unfolding should_compact compact_selected select_tables
  run_compaction sort fuel path now c files =
      if should_compact c.tables
      then compact_selected fuel path now (select_tables sort c.strategy c.tables) c files
      else record { compactor = c; files = files; result = ok tt }
