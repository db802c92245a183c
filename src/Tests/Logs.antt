-- ===== src/Tests/Logs.antt =====
-- The write-ahead log.
use crazygraphstore.Common.{
  ℕ, ◌+◌, ◌-◌, ◌*◌, ◌%◌, ◌^◌, ◌≤◌, ◌<◌, ◌≡◌, ◌≢◌, ◌⊎◌, refl, false, some, List, [], ◌∷◌, ◌++◌,
  arith, length, take, drop, replicate, Bytes, Outcome, ok,
}
use crazygraphstore.Common.Words.{put_le}
use crazygraphstore.Wal.{
  Entry, entry_type_node, entry_type_delete, entry_body, checksum_of, serialize_entry,
}
use crazygraphstore.Wal.Entries.{IsEntry}
use crazygraphstore.Wal.Replay.{replayed, bad_entry, stuck, replay}
use crazygraphstore.Wal.Recovery.{log, apply_all, replay-log, replay_torn, replay-ne-stuck}
use crazygraphstore.Wal.File.{Wal, AlignedBuffer, aligned_size, aligned_flush, new, sync}
use crazygraphstore.Wal.Buffering.{written, IsOpen}
use crazygraphstore.Wal.Durability.{Op, append_op, sync_op, run, live, run-written}
use crazygraphstore.Wal.Crash.{Recovers, crash_recovery}
use crazygraphstore.Wal.DirectIo.{flush_unreadable}

program : Unit {0}
unfolding put_le entry_body checksum_of serialize_entry new written log aligned_flush
program = tt

-- A checksum.
abbrev sum : Bytes → ℕ
sum [] = 1
sum (b ∷ bs) = (b + 31 * sum bs) % 2 ^ 32

abbrev node_entry : Entry
node_entry = record {
  entry_type = entry_type_node;
  key = b'k' ∷ [];
  value = 1 ∷ 2 ∷ [];
  timestamp = 700;
}

abbrev delete_entry : Entry
delete_entry = record {
  entry_type = entry_type_delete;
  key = b'k' ∷ [];
  value = [];
  timestamp = 701;
}

node_entry-IsEntry : IsEntry node_entry
node_entry-IsEntry = record {
  key_fits = omega arith;
  value_fits = omega arith;
  timestamp_fits = omega arith;
}

delete_entry-IsEntry : IsEntry delete_entry
delete_entry-IsEntry = record {
  key_fits = omega arith;
  value_fits = omega arith;
  timestamp_fits = omega arith;
}

-- A caller that collects the entries.
abbrev collect : Entry → List Entry → List Entry × Outcome (Unit {0}) Unit
collect e es = (es ++ e ∷ [], ok tt)

abbrev text : Bytes
text = serialize_entry sum node_entry

abbrev fresh : Wal
fresh = new [] 64 false 0

fresh-IsOpen : IsOpen fresh
unfolding program
fresh-IsOpen = record { open_file = refl; buffered = refl }

fresh-written : written fresh ≡ log sum []
unfolding program
fresh-written = refl

text_cut : text ≡ take 5 text ++ b'k' ∷ drop 6 text
unfolding program
text_cut = refl

replay-log_example :
    replay sum collect (some (log sum (node_entry ∷ delete_entry ∷ []))) []
    ≡ apply_all collect (node_entry ∷ delete_entry ∷ []) (λ s. (s, replayed)) []
replay-log_example =
    replay-log collect sum (node_entry ∷ delete_entry ∷ []) []
      (node_entry-IsEntry, (delete_entry-IsEntry, tt))

replay_torn_example :
    (replay sum collect (some (log sum (delete_entry ∷ []) ++ take 5 text)) []
      ≡ apply_all collect (delete_entry ∷ []) (λ s. (s, replayed)) [])
    ⊎ (replay sum collect (some (log sum (delete_entry ∷ []) ++ take 5 text)) []
        ≡ apply_all collect (delete_entry ∷ []) (λ s. (s, bad_entry)) [])
replay_torn_example =
    replay_torn collect sum (delete_entry ∷ []) node_entry (take 5 text) (drop 6 text) b'k' []
      (delete_entry-IsEntry, tt) node_entry-IsEntry text_cut

replay-ne-stuck_example : (replay sum collect (some (1 ∷ 2 ∷ 3 ∷ [])) []).1 ≢ stuck
replay-ne-stuck_example = replay-ne-stuck collect sum (some (1 ∷ 2 ∷ 3 ∷ [])) []

abbrev ops : List Op
ops = append_op node_entry ∷ sync_op 5 ∷ append_op delete_entry ∷ []

run-written_example :
    (written (run sum ops fresh) ≡ log sum (live sum ops [])) × IsOpen (run sum ops fresh)
run-written_example = run-written sum ops fresh [] fresh-IsOpen fresh-written

crash_recovery_example :
    (applied lost : List Entry) × (live sum ops [] ≡ applied ++ lost)
    × Recovers sum collect [] (run sum ops (sync 1 fresh).0).file ([] ++ applied)
unfolding live
crash_recovery_example =
    crash_recovery sum collect [] fresh 1 [] ops fresh-IsOpen fresh-written tt (tt, (tt, (tt, tt)))
      (node_entry-IsEntry, (delete_entry-IsEntry, tt))

abbrev buffer : AlignedBuffer
buffer = record { content = log sum (node_entry ∷ []); capacity = 4096; block_size = 512 }

abbrev buffer_text : Bytes
buffer_text = log sum (node_entry ∷ []) ++ replicate (aligned_size buffer - length buffer.content) 0

sum_zeros : (sum (replicate 17 0) < 2 ^ 32) × (sum (replicate 17 0) ≢ 0)
sum_zeros = (omega arith, omega arith)

buffer_flush : aligned_flush buffer ≡ ok (buffer_text, record buffer { content = [] })
unfolding program
buffer_flush = refl

buffer_long : (0 < length buffer.content) × (length buffer.content + 21 ≤ aligned_size buffer)
unfolding program
buffer_long = (omega arith, omega arith)

flush_unreadable_example :
    replay sum collect (some buffer_text) []
    ≡ apply_all collect (node_entry ∷ []) (λ s. (s, bad_entry)) []
flush_unreadable_example =
    flush_unreadable sum (sum_zeros.0) (sum_zeros.1) collect [] (node_entry ∷ []) buffer
      (record buffer { content = [] }) buffer_text (node_entry-IsEntry, tt) refl (buffer_long.0)
      (buffer_long.1) buffer_flush
