-- ===== src/Tests/Flushes.antt =====
-- Flushes of memtables to tables.
use crazygraphstore.Common.{
  ◌<◌, ◌≡◌, ◌≢◌, Outcome, refl, true, false, Option, none, some, List, [], ◌∷◌, arith, length,
  Bytes, bytes_eq, bytes_ltb, ok, err,
}
use mathlib.Core.Option
use crazygraphstore.Common.Words.{put_le, get_be}
use crazygraphstore.Memtable
use crazygraphstore.Memtable.{Memtable, IsRange, append_entries, entries}
use crazygraphstore.Memtable.Adjacency.{bytes_of}
use crazygraphstore.Memtable.Elements.{
  Failure, get_node, element_of, in_format, not_found, node_key,
}
use crazygraphstore.Sstable.{encode_footer, encode_index_entry}
use crazygraphstore.Sstable.Block.{encode_entry}
use crazygraphstore.Sstable.Block.Lookup.{IsSorted}
use crazygraphstore.Sstable.Writer.{
  new_writer, out_of_order, sealed, write_block, flush_block, append_entry, make_space, add,
  encode_index_entries, encode_index_block, footer_text, finish, close_with, close_writer,
}
use crazygraphstore.Sstable.Writer.Steps.{add_all}
use crazygraphstore.Sstable.Table.{write_table}
use crazygraphstore.Sstable.Table.RoundTrip.{IsWritable, Answers}
use crazygraphstore.Sstable.Reader
use crazygraphstore.Sstable.Reader.{Reader, new_reader}
use crazygraphstore.Flusher.{
  Flusher, new_flusher, start, pairs_of, flush_memtable, flush_pairs, flush_added, flush_closed,
  write_error,
}
use crazygraphstore.Sstable.{keys_out_of_order}
use crazygraphstore.Flusher.Sorted.{flush-read, flush_only-IsSorted}
use crazygraphstore.Lane.Reads.{read_node, read_tables, read_old, first}
use crazygraphstore.Engine.Flushing.{State, flush_lane, IsFlushable, flushed_lost}
use crazygraphstore.Graph.{Node}
use crazygraphstore.Tests.Graphs.{person}
use crazygraphstore.Tests.Lanes.{person_text}
use crazygraphstore.Common.Maps.{lookup}
use crazygraphstore.Wal.File
use crazygraphstore.Lane.{Lane, new_lane}
use crazygraphstore.Graph.Serialization.{
  ◌>>=◌, pure, read_byte, read_number, read_string, read_value, deserialize_node,
}
use crazygraphstore.Tests.Tables.{sum, sum_fits, keys_filter}

program : Unit {0}
unfolding bytes_eq bytes_ltb put_le encode_entry new_writer out_of_order sealed write_block
    flush_block append_entry make_space add add_all write_table encode_index_entry
    encode_index_entries encode_index_block footer_text encode_footer finish close_with close_writer
    keys_filter append_entries entries pairs_of flush_memtable flush_pairs flush_added flush_closed
    new_flusher start
program = tt

same_order : IsRange (λ m. m)
same_order = record { visits = λ k m. refl; once = λ m. refl }

-- A frozen table with a node and, behind it, a tombstone.
abbrev table : Memtable
table = record {
  data_map = (node_key (b'1' ∷ []), some person_text) ∷ (node_key (b'2' ∷ []), none) ∷ [];
  size = 80;
  max_size = 200;
  frozen = true;
  count = 2;
}

abbrev flusher : Flusher
flusher = record {
  running = true;
  total_flushes = 0;
  total_bytes = 0;
  total_entries = 0;
  failed_flushes = 0;
}

table-IsWritable : IsWritable sum keys_filter (pairs_of (entries (λ m. m) table))
unfolding program
table-IsWritable = record {
  sorted = ((refl, tt), (tt, tt));
  small = (omega arith, (omega arith, tt));
  keys_fit = (omega arith, (omega arith, tt));
  few = omega arith;
  below = sum_fits;
  short = omega arith;
}

some_pairs : 0 < length (pairs_of (entries (λ m. m) table))
unfolding program
some_pairs = omega arith

flush-read_example :
    ((flush_memtable sum keys_filter (λ m. m) table flusher).result ≡ ok tt)
    × (file : Bytes) × ((flush_memtable sum keys_filter (λ m. m) table flusher).file ≡ some file)
    × (r : Reader (List Bytes)) × (new_reader sum keys_filter.gob_decode file ≡ ok r)
    × ((key : Bytes)
        → Answers
            (Option.map (λ (v : Option Bytes). bytes_of (some v)) (Memtable.get key table))
            (Reader.get sum keys_filter.test_string key r))
flush-read_example =
    flush-read sum keys_filter (λ m. m) table flusher same_order refl some_pairs table-IsWritable

flush_only-IsSorted_example : IsSorted (pairs_of (entries (λ m. m) table))
unfolding program
flush_only-IsSorted_example =
    flush_only-IsSorted sum keys_filter (λ m. m) table flusher refl (omega arith, (omega arith, tt))
      ((λ e. cc (e)), ((λ e. cc (e)), tt)) (flush-read_example.0)

-- The same entries in another order are refused.
abbrev swapped : Memtable
swapped = record table {
  data_map = (node_key (b'2' ∷ []), none) ∷ (node_key (b'1' ∷ []), some (1 ∷ 2 ∷ [])) ∷ [];
}

flush_refused :
    (flush_memtable sum keys_filter (λ m. m) swapped flusher).result
    ≡ err (write_error keys_out_of_order)
unfolding program
flush_refused = refl

abbrev lane : Lane
unfolding new_lane File.new Memtable.new
lane = new_lane 0 200 (File.new [] 4096 false 0)

abbrev state : State
state = record { lane = record lane { old = table ∷ [] }; flusher = flusher; files = [] }

table-IsFlushable : IsFlushable (λ m. m) sum keys_filter table
table-IsFlushable = record {
  is_frozen = refl;
  succeeds = λ f on.
      (flush-read sum keys_filter (λ m. m) table f same_order on some_pairs table-IsWritable).0;
}

not_active : Memtable.get (node_key (b'1' ∷ [])) state.lane.active ≡ none
unfolding lane new_lane Memtable.new Memtable.get lookup
not_active = refl

-- The node that a read returned.
abbrev node_of : Outcome Failure Node → Node
node_of (ok n) = n
node_of other = person

abbrev found : Node
found = node_of (read_node (b'1' ∷ []) state.lane)

readable : read_node (b'1' ∷ []) state.lane ≡ ok found
unfolding program lane new_lane File.new Memtable.new lookup read_node get_node read_tables read_old
    first element_of in_format deserialize_node Memtable.get ◌>>=◌ read_string read_number get_be
    pure read_value read_byte
readable = refl

flushed_lost_example :
    ((flush_lane (λ m. m) sum keys_filter state).lane.old ≡ [])
    × (read_node (b'1' ∷ []) (flush_lane (λ m. m) sum keys_filter state).lane ≡ err not_found)
    × (read_node (b'1' ∷ []) (flush_lane (λ m. m) sum keys_filter state).lane
        ≢ read_node (b'1' ∷ []) state.lane)
flushed_lost_example =
    flushed_lost (λ m. m) sum keys_filter (b'1' ∷ []) found state refl (table-IsFlushable, tt)
      not_active readable
