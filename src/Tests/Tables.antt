-- ===== src/Tests/Tables.antt =====
-- Tables on disk.
use crazygraphstore.Common.{
  ℕ, ◌+◌, ◌*◌, ◌%◌, ◌^◌, ◌<◌, ◌≡◌, refl, List, [], ◌∷◌, ◌++◌, arith, length, take, drop,
  length-append, take-append, drop-append, Bytes, bytes_eq, bytes_eq_refl, zero, suc, ◌≤◌, Option,
  none, some, Bool, true, false, ◌||◌, bytes_ltb, Outcome, ok, err,
}
use mathlib.Core.Option
use crazygraphstore.Common.Maps.{lookup}
use crazygraphstore.Sstable.Reader.{Reader, new_reader, get, scan}
use crazygraphstore.Sstable.Writer.Groups.{IsReady}
use crazygraphstore.Sstable.Writer.Sorted.{add_all-accepts}
use crazygraphstore.Sstable.Table.{BloomFilter, write_table}
use crazygraphstore.Sstable.Table.Index.{lifted}
use crazygraphstore.Sstable.Table.RoundTrip.{Answers, IsWritable, write-read, write-scan}
use crazygraphstore.Common.Words.{put_le}
use crazygraphstore.Sstable.{
  keys_out_of_order, Footer, encode_footer, magic_number, format_version, IndexEntry,
  encode_index_entry,
}
use crazygraphstore.Sstable.Format.{IsFooter, IsHandle}
use crazygraphstore.Sstable.Block.{encode_entry, search_block}
use crazygraphstore.Sstable.Block.Lookup.{block_text, find, visit, search_block-text}
use crazygraphstore.Sstable.Writer.{
  Writer, new_writer, out_of_order, sealed, write_block, flush_block, append_entry, make_space, add,
  encode_index_entries, encode_index_block, footer_text, finish, close_with, close_writer,
}
use crazygraphstore.Sstable.Writer.Steps.{add_all}
use crazygraphstore.Sstable.Search.{find_block}
use crazygraphstore.Sstable.Search.Correct.{first_block, find_block_lem}

program : Unit {0}
unfolding bytes_eq bytes_ltb find first_block put_le encode_entry new_writer out_of_order sealed
    write_block flush_block append_entry make_space add add_all block_text
program = tt

abbrev footer : Footer
footer = record {
  index_block_offset = 100;
  index_block_size = 50;
  bloom_filter_offset = 150;
  bloom_filter_size = 20;
  magic = magic_number;
  version = format_version;
  checksum = 7;
}

footer-IsFooter : IsFooter footer
footer-IsFooter = record {
  index_offset_fits = omega arith;
  index_size_fits = omega arith;
  bloom_offset_fits = omega arith;
  bloom_size_fits = omega arith;
  magic_right = refl;
  version_right = refl;
  checksum_fits = omega arith;
}

abbrev first_entry : IndexEntry
first_entry = record { key = b'c' ∷ []; handle = record { offset = 0; size = 40 } }

abbrev second_entry : IndexEntry
second_entry = record { key = b'm' ∷ b'a' ∷ []; handle = record { offset = 40; size = 30 } }

first_handle : IsHandle first_entry.handle
first_handle = record { offset_fits = omega arith; size_fits = omega arith }

find_block_lem_example :
    find_block (first_entry ∷ second_entry ∷ []) (b'd' ∷ [])
    ≡ ok (first_block (first_entry ∷ second_entry ∷ []) (b'd' ∷ []))
unfolding program
find_block_lem_example =
    find_block_lem (first_entry ∷ second_entry ∷ []) (b'd' ∷ []) ((refl, tt), (tt, tt))

-- A value, and a tombstone behind it.
abbrev pub pairs : List (Bytes × Bytes)
pairs = (b'a' ∷ [], 1 ∷ 2 ∷ []) ∷ (b'b' ∷ [], []) ∷ []

search_block-text_example : search_block (block_text pairs) (b'b' ∷ []) ≡ find (b'b' ∷ []) pairs
unfolding program
search_block-text_example =
    search_block-text pairs (b'b' ∷ []) ((refl, tt), (tt, tt)) (omega arith, (omega arith, tt))

-- A caller that counts.
abbrev pub counting : Bytes → Bytes → ℕ → ℕ × Outcome (Unit {0}) Unit
counting key value n = (n + 1, ok tt)

-- A checksum, and a filter that is the list of the keys.
abbrev pub sum : Bytes → ℕ
sum [] = 1
sum (x ∷ xs) = (x + 31 * sum xs) % 2 ^ 32

pub sum_fits : (xs : Bytes) → sum xs < 2 ^ 32
sum_fits [] = omega arith
sum_fits (x ∷ xs) = omega arith

abbrev pub note : List Bytes → Bytes → List Bytes
note filter key = key ∷ filter

abbrev writer : Writer (List Bytes)
writer = (add_all sum note pairs (new_writer [])).0

writer_ok :
    ((add_all sum note pairs (new_writer [])).1 ≡ ok tt)
    × (length (flush_block sum writer).file ≡ 25)
unfolding program
writer_ok = (refl, refl)

-- A key that does not rise is refused.
add_refused : (add sum note (b'a' ∷ []) [] writer).1 ≡ err keys_out_of_order
unfolding program
add_refused = refl

-- A filter whose bytes are the keys, each behind its length.
abbrev pub encode_keys : List Bytes → Bytes
encode_keys [] = []
encode_keys (k ∷ ks) = length k ∷ (k ++ encode_keys ks)

abbrev pub decode_keys : ℕ → Bytes → Option (List Bytes)
decode_keys fuel [] = some []
decode_keys zero (n ∷ text) = none
decode_keys (suc fuel) (n ∷ text) =
    Option.map (λ (ks : List Bytes). take n text ∷ ks) (decode_keys fuel (drop n text))

pub decode-encode_keys :
    (ks : List Bytes) (fuel : ℕ)
    → length (encode_keys ks) ≤ fuel
    → decode_keys fuel (encode_keys ks) ≡ some ks
decode-encode_keys [] fuel h = refl
decode-encode_keys (k ∷ ks) zero h = absurd (omega arith)
decode-encode_keys (k ∷ ks) (suc fuel) h =
    let n = length-append k (encode_keys ks) in
    rw
      (
        take-append k (encode_keys ks),
        drop-append k (encode_keys ks),
        decode-encode_keys ks fuel (omega (arith, n, h)),
      )
      refl

abbrev pub has_key : List Bytes → Bytes → Bool
has_key [] key = false
has_key (k ∷ ks) key = bytes_eq k key || has_key ks key

pub has_key_kept : (b : List Bytes) (k j : Bytes) → has_key b k ≡ true → has_key (note b j) k ≡ true
has_key_kept b k j h = ground (arith, h)

unfoldable pub keys_filter : BloomFilter (List Bytes)
keys_filter = record {
  empty_filter = [];
  add_string = note;
  test_string = has_key;
  gob_encode = encode_keys;
  gob_decode = λ text. decode_keys (length text) text;
  test_added = λ b k. rw (bytes_eq_refl k) refl;
  test_kept = has_key_kept;
  decode_encoded = λ b. decode-encode_keys b (length (encode_keys b)) (omega arith);
}

written_pairs : Unit {0}
unfolding program write_table encode_index_entry encode_index_entries encode_index_block footer_text
    encode_footer finish close_with close_writer keys_filter
written_pairs = tt

pairs-IsWritable : IsWritable sum keys_filter pairs
unfolding written_pairs
pairs-IsWritable = record {
  sorted = ((refl, tt), (tt, tt));
  small = (omega arith, (omega arith, tt));
  keys_fit = (omega arith, (omega arith, tt));
  few = omega arith;
  below = sum_fits;
  short = omega arith;
}

write-read_example :
    ((write_table sum keys_filter pairs).1 ≡ ok tt)
    × ((r : Reader (List Bytes)) × (new_reader sum keys_filter.gob_decode
            (write_table sum keys_filter pairs).0.file
          ≡ ok r)
        × ((key : Bytes) → Answers (lookup key pairs) (get sum keys_filter.test_string key r)))
write-read_example = write-read sum keys_filter pairs pairs-IsWritable

write-scan_example :
    (r : Reader (List Bytes)) × (new_reader sum keys_filter.gob_decode
        (write_table sum keys_filter pairs).0.file
      ≡ ok r)
    × (scan sum counting r 0 ≡ lifted sum counting (visit counting pairs 0))
write-scan_example = write-scan sum keys_filter pairs counting 0 pairs-IsWritable

add_all-accepts_example :
    ((add_all sum note pairs (new_writer [])).1 ≡ ok tt)
    × IsReady (add_all sum note pairs (new_writer [])).0 pairs
unfolding program
add_all-accepts_example =
    add_all-accepts sum note pairs [] ((refl, tt), (tt, tt)) (omega arith, (omega arith, tt))
