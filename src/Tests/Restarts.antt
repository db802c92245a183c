-- ===== src/Tests/Restarts.antt =====
-- An engine that is stopped and started again.
use crazygraphstore.Common.{◌≡◌, ◌≢◌, refl, true, false, none, [], ◌∷◌, ok}
use crazygraphstore.Wal.File
use crazygraphstore.Wal.File.{close, flush}
use crazygraphstore.Wal.Replay.{replayed, step, replay_loop, replay}
use crazygraphstore.Wal.{deserialize_entry, ◌>>=◌, read_full, read_byte}
use crazygraphstore.Lane.{Lane, new_lane}
use crazygraphstore.Lane.Upkeep
use crazygraphstore.Lane.Upkeep.{recover}
use crazygraphstore.Cache
use crazygraphstore.Cache.Levels.{from_size}
use crazygraphstore.Flusher
use crazygraphstore.Flusher.{new_flusher}
use crazygraphstore.Compaction
use crazygraphstore.Compaction.{new_compactor, size_tiered}
use crazygraphstore.Manifest.{
  disk_works, save, save_text, save_to, write_temp, rename_temp, save_renamed,
}
use crazygraphstore.Engine.{create_node}
use crazygraphstore.Engine.Graphs.{recover_lanes}
use crazygraphstore.Engine.Lifecycle.{System, start, stop_lanes, stop_step, stop_parts, stop}
use crazygraphstore.Engine.Restart.{restart_refuses}
use crazygraphstore.Tests.Graphs.{person}
use crazygraphstore.Tests.Manifests.{marshal, unmarshal}
use crazygraphstore.Tests.Tables.{sum}

abbrev lane : Lane
unfolding new_lane File.new
lane = new_lane 0 200 (File.new [] 4096 false 0)

-- A running engine with two lanes.
abbrev system : System
unfolding from_size Cache.new new_flusher new_compactor
system = record {
  engine = record { lanes = lane ∷ lane ∷ []; cache = from_size 1000; running = true };
  flusher = record new_flusher { running = true };
  compactor = record (new_compactor [] size_tiered 100) { running = true };
  store = record {
    manifest = record { version = 3; sstables = []; updated_at = 7 };
    file = none;
    temp = none;
  };
}

abbrev system_off : System
system_off = (stop marshal unmarshal disk_works system).0

stopped : (stop marshal unmarshal disk_works system).1 ≡ ok tt
unfolding system lane new_lane File.new stop stop_lanes stop_step stop_parts Upkeep.stop close flush
    Compaction.stop Flusher.stop new_flusher new_compactor save save_text save_to write_temp
    rename_temp save_renamed
stopped = refl

logs_replayed : (recover_lanes (λ m. m) sum system_off.engine.lanes).1 ≡ replayed
unfolding system lane new_lane File.new stop stop_lanes stop_step stop_parts Upkeep.stop close flush
    Compaction.stop Flusher.stop new_flusher new_compactor save save_text save_to write_temp
    rename_temp save_renamed recover_lanes recover replay replay_loop step deserialize_entry ◌>>=◌
    read_full read_byte
logs_replayed = refl

restart_refuses_example :
    ((start (λ m. m) sum system_off).1 ≡ ok tt)
    × ((create_node sum (λ m. m) sum 7 person (start (λ m. m) sum system_off).0.engine).1 ≢ ok tt)
restart_refuses_example =
    restart_refuses marshal unmarshal (λ m. m) sum sum disk_works 7 person system stopped
      logs_replayed
