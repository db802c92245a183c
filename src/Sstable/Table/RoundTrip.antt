-- ===== src/Sstable/Table/RoundTrip.antt =====
-- A table that was written from sorted entries is opened, and answers as the list of its entries.
use crazygraphstore.Common.{
  ℕ, ◌+◌, ◌≤◌, ◌<◌, ◌==◌, ◌^◌, ◌≡◌, refl, sym, ap, ◌∙◌, inl, inr, true, false, Option, none, some,
  List, [], ◌∷◌, ◌++◌, append-nil, arith, if◌then◌else◌, length, length-append, All, Bytes,
  bytes_eq, Outcome, ok, err, panic, Bool-cases, if_rule, ◌>>=◌,
}
use mathlib.Core.Path.{subst}
use crazygraphstore.Common.Maps.{lookup}
use crazygraphstore.Sstable.{
  Error, IndexEntry, not_in_block, not_in_index, not_in_bloom_filter, key_deleted,
}
use crazygraphstore.Sstable.Block.{found, failed}
use crazygraphstore.Sstable.Block.Lookup.{IsSmall, IsSorted, find, visit}
use crazygraphstore.Sstable.Search.{find_block}
use crazygraphstore.Sstable.Search.Correct.{find_block_lem}
use crazygraphstore.Sstable.Writer.{
  Writer, new_writer, flush_block, encode_index_block, finish, close_with, close_writer,
}
use crazygraphstore.Sstable.Writer.Steps.{add_all}
use crazygraphstore.Sstable.Writer.Keys.{Pair, texts, flat, Keyed}
use crazygraphstore.Sstable.Writer.Blocks.{AllRead, AllRead-more}
use crazygraphstore.Sstable.Writer.Groups.{Grouped}
use crazygraphstore.Sstable.Writer.Sorted.{add_all-accepts, flushed-Grouped}
use crazygraphstore.Sstable.Reader.{Reader, answer, get_in, get, scan, new_reader}
use crazygraphstore.Sstable.Reader.Open.{
  index_bytes, encode_index_block_lem, opened, new_reader-finish,
}
use crazygraphstore.Sstable.Table.{BloomFilter, write_table}
use crazygraphstore.Sstable.Table.Groups.{get_in-find}
use crazygraphstore.Sstable.Table.Filter.{flush_block_filter, add_all_tests, lookup_test}
use crazygraphstore.Sstable.Table.Index.{
  Keyed-IndexIsSorted, Keyed-IsIndexEntry, Keyed-length, lifted, scan_all-visit,
}

-- The error says that the key is not in the table.
data IsAbsent : Error → Type 0 where
  by_filter : IsAbsent not_in_bloom_filter
  by_index : IsAbsent not_in_index
  by_block : IsAbsent not_in_block

-- What a table may answer, by what its entries hold: an empty value is a tombstone.
pub Answers : Option Bytes → Outcome Error Bytes → Type 0
Answers none o = (e : Error) × IsAbsent e × (o ≡ err e)
Answers (some []) o = o ≡ err key_deleted
Answers (some (b ∷ value)) o = o ≡ ok (b ∷ value)

find-Answers : (key : Bytes) (es : List Pair) → Answers (lookup key es) (answer (find key es))
unfolding find lookup Answers answer
find-Answers key [] = (not_in_block, by_block, refl)
find-Answers key ((k, v) ∷ es) = elim (Bool-cases (bytes_eq k key)) [
  | inl same ↦ rw same (value_answers v)
  | inr other ↦ rw other (find-Answers key es)
]
  where
    value_answers :
        (v : Bytes)
        → Answers (some v) (answer (if length v == 0 then failed key_deleted else found v))
    value_answers [] = unfold Answers answer in refl
    value_answers (b ∷ v) = unfold Answers answer in ground arith

found_none :
    (key : Bytes) (es : List Pair) → find key es ≡ failed not_in_block → lookup key es ≡ none
unfolding find lookup
found_none key [] h = refl
found_none key ((k, v) ∷ es) h = ground (arith, found_none key es)

absent :
    (e : Error)
    → IsAbsent e
    → {o : Option Bytes} {r : Outcome Error Bytes} → o ≡ none
    → r ≡ err e
    → Answers o r
unfolding Answers
absent e a p q = rw (p, q) (e, a, refl)

-- The entries rise by key and fit the format, there are fewer than 2 ^ 32 of them, the checksum has
-- 32 bits, and the file that is written is shorter than 2 ^ 64 bytes.
pub record IsWritable {B : Type 0} (crc32 : Bytes → ℕ) (bloom : BloomFilter B) (es : List Pair)
    : Type 0 where
  pub sorted : IsSorted es
  pub small : All IsSmall es
  pub keys_fit : All (λ (e : Pair). length e.0 + 20 < 2 ^ 32) es
  pub few : length es < 2 ^ 32
  pub below : (block : Bytes) → crc32 block < 2 ^ 32
  pub short : length (write_table crc32 bloom es).0.file < 2 ^ 64

module _ {B : Type 0} (crc32 : Bytes → ℕ) (bloom : BloomFilter B) (es : List Pair) where
  filled : Writer B
  filled = flush_block crc32 (add_all crc32 bloom.add_string es (new_writer bloom.empty_filter)).0

  -- A table that was written, and the reader of it.
  record Written : Type 0 where
    reader : Reader B
    groups : List (List Pair)
    accepted : (write_table crc32 bloom es).1 ≡ ok tt
    opens : new_reader crc32 bloom.gob_decode (write_table crc32 bloom es).0.file ≡ ok reader
    is_open : reader.closed ≡ false
    parts : es ≡ flat groups
    keyed : Keyed reader.index_cache groups
    readable : AllRead crc32 reader.file reader.index_cache (texts groups)
    tests : All (λ (e : Pair). bloom.test_string reader.bloom_filter e.0 ≡ true) es

  finish_grows :
      (index : Bytes) (w : Writer B)
      → (more : Bytes) × ((finish crc32 bloom.gob_encode index w).file ≡ w.file ++ (index ++ more))
  unfolding finish
  finish_grows index w = (_, refl)

  close_lem :
      (w : Writer B) (index : Bytes)
      → w.closed ≡ false
      → encode_index_block (flush_block crc32 w).index_entries ≡ ok index
      → close_writer crc32 bloom.gob_encode w
        ≡ (finish crc32 bloom.gob_encode index (flush_block crc32 w), ok tt)
  unfolding close_writer
  close_lem w index is_open coded =
      if_rule
        (λ (p : Writer B × Outcome Error Unit).
          p ≡ (finish crc32 bloom.gob_encode index (flush_block crc32 w), ok tt))
        w.closed (λ shut. absurd (cc (shut, is_open)))
        λ _. ap (λ o. close_with crc32 bloom.gob_encode o (flush_block crc32 w)) coded

  close_with-grows :
      (o : Outcome Error Bytes) (w : Writer B)
      → length w.file ≤ length (close_with crc32 bloom.gob_encode o w).0.file
  unfolding close_with
  close_with-grows (ok index) w =
      let (more, grown) = finish_grows index w in
      omega (arith, ap length grown, length-append w.file (index ++ more))
  close_with-grows (err e) w = omega arith
  close_with-grows panic w = omega arith

  close-grows :
      (w : Writer B)
      → w.closed ≡ false
      → length (flush_block crc32 w).file ≤ length (close_writer crc32 bloom.gob_encode w).0.file
  unfolding close_writer
  close-grows w is_open =
      if_rule
        (λ (p : Writer B × Outcome Error Unit). length (flush_block crc32 w).file ≤ length p.0.file)
        w.closed (λ shut. absurd (cc (shut, is_open)))
        λ _.
          close_with-grows (encode_index_block (flush_block crc32 w).index_entries)
            (flush_block crc32 w)

  write_table_lem :
      IsWritable crc32 bloom es
      → encode_index_block filled.index_entries ≡ ok (index_bytes filled.index_entries)
      → write_table crc32 bloom es
        ≡ (finish crc32 bloom.gob_encode (index_bytes filled.index_entries) filled, ok tt)
  unfolding write_table filled
  write_table_lem h coded =
      let ready = add_all-accepts crc32 bloom.add_string es bloom.empty_filter h.sorted h.small in
      close_lem (add_all crc32 bloom.add_string es (new_writer bloom.empty_filter)).0
        (index_bytes filled.index_entries) ready.1.open_writer coded

  -- The filter of a table that is written.
  filled_tests :
      IsWritable crc32 bloom es
      → All (λ (e : Pair). bloom.test_string filled.bloom_filter e.0 ≡ true) es
  unfolding filled
  filled_tests h =
      let w : Writer B = (add_all crc32 bloom.add_string es (new_writer bloom.empty_filter)).0 in
      let ready = add_all-accepts crc32 bloom.add_string es bloom.empty_filter h.sorted h.small in
      subst (λ (b : B). All (λ (e : Pair). bloom.test_string b e.0 ≡ true) es)
        (sym (flush_block_filter crc32 w))
        (add_all_tests crc32 bloom.add_string bloom.test_string bloom.test_added bloom.test_kept es
          (new_writer bloom.empty_filter) h.small ready.0)

  -- The blocks of a table that is written, one for each index entry.
  filled_groups : IsWritable crc32 bloom es → (g : Grouped crc32 filled es) × (g.current ≡ [])
  unfolding filled write_table
  filled_groups h =
      let ready = add_all-accepts crc32 bloom.add_string es bloom.empty_filter h.sorted h.small in
      let w : Writer B = (add_all crc32 bloom.add_string es (new_writer bloom.empty_filter)).0 in
      flushed-Grouped crc32 bloom.add_string h.below es bloom.empty_filter h.sorted h.small
        (omega (arith, close-grows w ready.1.open_writer, h.short))

  from_groups :
      (h : IsWritable crc32 bloom es) → (g : Grouped crc32 filled es) → g.current ≡ [] → Written
  unfolding opened
  from_groups h g last =
      let parts : es ≡ flat g.groups =
        g.parts ∙ ap (λ (t : List Pair). flat g.groups ++ t) last ∙ append-nil (flat g.groups) in
      let ies : List IndexEntry = filled.index_entries in
      let fit = Keyed-IsIndexEntry ies g.groups g.keyed (
        subst (λ (t : List Pair). All (λ (e : Pair). length e.0 + 20 < 2 ^ 32) t) parts
          h.keys_fit) in
      let made = write_table_lem h (encode_index_block_lem ies fit) in
      let file : (write_table crc32 bloom es).0.file
          ≡ (finish crc32 bloom.gob_encode (index_bytes ies) filled).file =
        ap (λ (p : Writer B × Outcome Error Unit). p.0.file) made in
      let short : length (finish crc32 bloom.gob_encode (index_bytes ies) filled).file < 2 ^ 64 =
        rw file at h.short in
      let (more, grown) = finish_grows (index_bytes ies) filled in
      let begins : length filled.file + length (index_bytes ies) < 2 ^ 64 = omega (
        arith,
        short,
        ap length grown,
        length-append filled.file (index_bytes ies ++ more),
        length-append (index_bytes ies) more,
      ) in
      let few : length ies < 2 ^ 32 =
        omega (arith, Keyed-length ies g.groups g.keyed, ap length parts, h.few) in
      record {
        reader = opened crc32 h.below bloom.gob_encode bloom.gob_decode ies filled;
        groups = g.groups;
        accepted = ap (λ (p : Writer B × Outcome Error Unit). p.1) made;
        opens =
            ap (new_reader crc32 bloom.gob_decode) file
            ∙ new_reader-finish crc32 h.below bloom.gob_encode bloom.gob_decode ies filled fit few
                g.stored.placed (bloom.decode_encoded filled.bloom_filter) short begins;
        is_open = refl;
        parts = parts;
        keyed = g.keyed;
        readable = rw grown (
            AllRead-more crc32 filled.file (index_bytes ies ++ more) ies (texts g.groups)
              g.stored.readable);
        tests = filled_tests h;
      }

  write_table-Written : IsWritable crc32 bloom es → Written
  write_table-Written h = let (g, last) = filled_groups h in from_groups h g last

  get_parts :
      (w : Written) (key : Bytes)
      → All IsSmall es
      → IsSorted es
      → bloom.test_string w.reader.bloom_filter key ≡ true
      → Answers (lookup key es) (find_block w.reader.index_cache key >>= get_in crc32 key w.reader)
  get_parts w key small sorted present =
      let sorted' : IsSorted (flat w.groups) =
        subst (λ (t : List Pair). IsSorted t) w.parts sorted in
      let small' : All IsSmall (flat w.groups) =
        subst (λ (t : List Pair). All IsSmall t) w.parts small in
      rw
        (
          find_block_lem w.reader.index_cache key
              (Keyed-IndexIsSorted w.reader.index_cache w.groups w.keyed sorted'),
          ap (lookup key) w.parts,
        )
        (elim (get_in-find crc32 key w.reader w.reader.index_cache w.groups w.readable w.keyed
          sorted' small') [
            | inl p ↦ rw p (find-Answers key (flat w.groups))
            | inr p ↦ absent not_in_index by_index (found_none key (flat w.groups) p.1) p.0
          ])

  get-Answers :
      (w : Written) (key : Bytes)
      → IsWritable crc32 bloom es
      → Answers (lookup key es) (get crc32 bloom.test_string key w.reader)
  unfolding get
  get-Answers w key h =
      if_rule (Answers (lookup key es)) w.reader.closed (λ shut. absurd (cc (shut, w.is_open)))
        λ _.
          if_rule (Answers (lookup key es)) (bloom.test_string w.reader.bloom_filter key)
            (get_parts w key h.small h.sorted)
            λ missing. elim (lookup_test (bloom.test_string w.reader.bloom_filter) key es w.tests) [
              | inl gone ↦ absent not_in_bloom_filter by_filter gone refl
              | inr there ↦ absurd (cc (there, missing))
            ]

  -- A writer that is given writable entries takes them all and closes without an error, NewReader
  -- opens the file, and Get of any key then answers as the list of the entries does: a value that is
  -- not empty is returned, an empty one is reported as deleted, and the error for a key that is not
  -- in the list is that of the filter, of the index, or of the block.
  pub write-read :
      IsWritable crc32 bloom es
      → ((write_table crc32 bloom es).1 ≡ ok tt)
        × ((r : Reader B) × (new_reader crc32 bloom.gob_decode (write_table crc32 bloom es).0.file
              ≡ ok r)
            × ((key : Bytes) → Answers (lookup key es) (get crc32 bloom.test_string key r)))
  write-read h =
      let w = write_table-Written h in (w.accepted, (w.reader, w.opens, λ key. get-Answers w key h))

  -- A table that is written from writable entries is opened, and Scan of its reader calls the
  -- function on exactly the entries that are no tombstones, over all blocks and in order, until it
  -- fails.
  pub write-scan :
      {E S : Type 0} (fn : Bytes → Bytes → S → S × Outcome E Unit) (s : S)
      → IsWritable crc32 bloom es
      → (r : Reader B) × (new_reader crc32 bloom.gob_decode (write_table crc32 bloom es).0.file
          ≡ ok r)
        × (scan crc32 fn r s ≡ lifted crc32 fn (visit fn es s))
  unfolding scan
  write-scan fn s h =
      let w = write_table-Written h in
      let small' : All IsSmall (flat w.groups) =
        subst (λ (t : List Pair). All IsSmall t) w.parts h.small in
      (
        w.reader,
        w.opens,
        rw w.is_open (
              scan_all-visit crc32 fn w.reader.file w.reader.index_cache w.groups s w.readable
                small')
            ∙ ap (λ (t : List Pair). lifted crc32 fn (visit fn t s)) (sym w.parts),
      )
