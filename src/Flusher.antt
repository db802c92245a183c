-- ===== src/Flusher.antt =====
-- pkg/persistence/flusher.go: `Flusher`, which writes a memtable to an SSTable. The file is the one
-- that NewWriter created, and the deferred Close finishes it also where an Add failed. The background
-- goroutine of ScheduleFlush is one more call.
pub mod Sorted
use crazygraphstore.Common.{
  ℕ, ◌+◌, ◌%◌, ◌^◌, ◌==◌, Bool, true, false, Option, none, some, List, [], ◌∷◌, if◌then◌else◌,
  length, Bytes, Outcome, ok, err, panic,
}
use crazygraphstore.Common.Maps.{Map}
use crazygraphstore.Common.Words.{inc64}
use crazygraphstore.Memtable.{Memtable, entries}
use crazygraphstore.Sstable
use crazygraphstore.Sstable.Writer.{Writer, new_writer, close_writer}
use crazygraphstore.Sstable.Writer.Steps.{add_all}
use crazygraphstore.Sstable.Table.{BloomFilter}

pub data Error : Type 0 where
  already_running not_running : Error
  write_error close_error : Sstable.Error → Error

pub record Flusher : Type 0 where
  pub running : Bool
  pub total_flushes : ℕ
  pub total_bytes : ℕ
  pub total_entries : ℕ
  pub failed_flushes : ℕ

-- NewFlusher
unfoldable pub new_flusher : Flusher
new_flusher = record {
  running = false;
  total_flushes = 0;
  total_bytes = 0;
  total_entries = 0;
  failed_flushes = 0;
}

-- Start
unfoldable pub start : Flusher → Flusher × Outcome Error Unit
start f = if f.running then (f, err already_running) else (record f { running = true }, ok tt)

-- Stop
unfoldable pub stop : Flusher → Flusher × Outcome Error Unit
stop f = if f.running then (record f { running = false }, ok tt) else (f, err not_running)

-- What a flush returns, with the file that it wrote.
pub record Flushed : Type 0 where
  pub flusher : Flusher
  pub file : Option Bytes
  pub result : Outcome Error Unit

-- The entries in the order of the loop; the value of a tombstone is nil, which is written as empty.
unfoldable pub pairs_of : Map (Option Bytes) → List (Bytes × Bytes)
pairs_of [] = []
pairs_of ((k, none) ∷ m) = (k, []) ∷ pairs_of m
pairs_of ((k, some v) ∷ m) = (k, v) ∷ pairs_of m

abbrev failed_flush : Flusher → Flusher
failed_flush f = record f { failed_flushes = inc64 f.failed_flushes }

-- the end of FlushMemtable, from the result of Close on
unfoldable pub flush_closed :
    {B : Type 0} → Writer B → Outcome Sstable.Error Unit → Flusher → Flushed
flush_closed w (ok _) f = record {
  flusher = record f {
    total_flushes = inc64 f.total_flushes;
    total_bytes = (f.total_bytes + w.current_offset) % 2 ^ 64;
    total_entries = (f.total_entries + w.entries_count) % 2 ^ 64;
  };
  file = some w.file;
  result = ok tt;
}
flush_closed w (err x) f = record {
  flusher = failed_flush f;
  file = some w.file;
  result = err (close_error x);
}
flush_closed w panic f = record { flusher = f; file = some w.file; result = panic }

module _ (crc32 : Bytes → ℕ) {B : Type 0} (bloom : BloomFilter B) where
  -- FlushMemtable behind the loop of Add
  unfoldable pub flush_added : Writer B → Outcome Sstable.Error Unit → Flusher → Flushed
  unfolding flush_closed
  flush_added w (ok _) f = let q = close_writer crc32 bloom.gob_encode w in flush_closed q.0 q.1 f
  flush_added w (err x) f = record {
    flusher = failed_flush f;
    file = some (close_writer crc32 bloom.gob_encode w).0.file;
    result = err (write_error x);
  }
  flush_added w panic f = record {
    flusher = f;
    file = some (close_writer crc32 bloom.gob_encode w).0.file;
    result = panic;
  }

  -- FlushMemtable from the entries on
  unfoldable pub flush_pairs : List (Bytes × Bytes) → Flusher → Flushed
  unfolding flush_added
  flush_pairs es f =
      let p = add_all crc32 bloom.add_string es (new_writer bloom.empty_filter) in
      if length es == 0
      then record { flusher = f; file = none; result = ok tt }
      else flush_added p.0 p.1 f

  -- FlushMemtable, and FlushNodeMemtable and FlushEdgeMemtable, which call it
  unfoldable pub flush_memtable :
      (Map (Option Bytes) → Map (Option Bytes)) → Memtable → Flusher → Flushed
  unfolding flush_pairs pairs_of
  flush_memtable range m f =
      if f.running
      then flush_pairs (pairs_of (entries range m)) f
      else record { flusher = f; file = none; result = err not_running }
