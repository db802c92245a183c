-- ===== src/Sstable/Writer.antt =====
-- pkg/sstable/writer.go: `Writer`. `file` is what was written through the bufio.Writer, which Close
-- flushes; the writes succeed. The Bloom filter library is a parameter: adding a key to a filter, and
-- the bytes of GobEncode. The checksum is a parameter too.
pub mod Blocks
pub mod Steps
pub mod Adds
pub mod Keys
pub mod Groups
pub mod Sorted
use crazygraphstore.Common.{
  ℕ, ◌+◌, ◌%◌, ◌^◌, ◌<◌, ◌==◌, Bool, true, false, not, ◌&&◌, ◌||◌, List, [], ◌∷◌, ◌++◌, ltb,
  if◌then◌else◌, length, take, Bytes, bytes_eq, bytes_ltb, Outcome, ok, err, panic, ◌>>=◌,
}
use crazygraphstore.Common.Words.{inc64, put_le}
use crazygraphstore.Sstable.{
  Error, writer_closed, keys_out_of_order, block_size, magic_number, format_version, Footer,
  encode_footer, BlockHandle, IndexEntry, encode_index_entry,
}
use crazygraphstore.Sstable.Block.{encode_entry}

abbrev pub compression_none : ℕ
compression_none = 0

pub record Writer (B : Type 0) : Type 0 where
  pub file : Bytes
  pub current_block : Bytes
  pub current_offset : ℕ
  pub index_entries : List IndexEntry
  pub bloom_filter : B
  pub last_key : Bytes
  pub entries_count : ℕ
  pub closed : Bool

-- NewWriter, with an empty filter
unfoldable pub new_writer : {B : Type 0} → B → Writer B
new_writer bloom_filter = record {
  file = [];
  current_block = [];
  current_offset = 0;
  index_entries = [];
  bloom_filter = bloom_filter;
  last_key = [];
  entries_count = 0;
  closed = false;
}

-- the test of the key order in Add
unfoldable pub out_of_order : Bytes → Bytes → Bool
out_of_order key last_key =
    not (bytes_eq last_key []) && (bytes_ltb key last_key || bytes_eq key last_key)

-- the end of Add: the entry goes to the block
unfoldable pub append_entry :
    {B : Type 0} → Bytes → Outcome Error Bytes → Writer B → Writer B × Outcome Error Unit
append_entry key (ok text) w = (
  record w {
    current_block = w.current_block ++ text;
    last_key = key;
    entries_count = inc64 w.entries_count;
  },
  ok tt,
)
append_entry key (err e) w = (w, err e)
append_entry key panic w = (w, panic)

module _ (crc32 : Bytes → ℕ) where
  -- A block behind its trailer was added: the compression type and the checksum.
  unfoldable pub sealed : Bytes → Bytes
  sealed block = block ++ compression_none ∷ put_le 4 (crc32 block)

  module _ {B : Type 0} where
    -- flushBlock, of a block that is not empty
    unfoldable pub write_block : Writer B → Writer B
    unfolding sealed
    write_block w =
        let size = (length w.current_block + 1 + 4) % 2 ^ 64 in
        record w {
          file = w.file ++ sealed w.current_block;
          index_entries =
              w.index_entries
              ++ record {
                key = w.last_key;
                handle = record { offset = w.current_offset; size = size };
              }
                ∷ [];
          current_offset = (w.current_offset + size) % 2 ^ 64;
          current_block = [];
        }

    -- flushBlock
    unfoldable pub flush_block : Writer B → Writer B
    unfolding write_block
    flush_block w = if length w.current_block == 0 then w else write_block w

    -- the test of Add that ends a block
    unfoldable pub make_space : ℕ → Writer B → Writer B
    unfolding flush_block
    make_space entry_size w =
        if ltb block_size (length w.current_block + entry_size) then flush_block w else w

    -- Add; `entrySize` wraps.
    unfoldable pub add : (B → Bytes → B) → Bytes → Bytes → Writer B → Writer B × Outcome Error Unit
    unfolding make_space append_entry encode_entry out_of_order
    add add_string key value w =
        let entry_size = (4 + length key % 2 ^ 32 + 4 + length value % 2 ^ 32) % 2 ^ 32 in
        if w.closed
        then (w, err writer_closed)
        else if out_of_order key w.last_key
        then (w, err keys_out_of_order)
        else append_entry key (encode_entry key value)
            (make_space entry_size (record w { bloom_filter = add_string w.bloom_filter key }))

-- the loop of encodeIndexBlock
unfoldable pub encode_index_entries : List IndexEntry → Outcome Error Bytes
unfolding encode_index_entry
encode_index_entries [] = ok []
encode_index_entries (e ∷ es) =
    encode_index_entry e >>= λ text. encode_index_entries es >>= λ rest. ok (text ++ rest)

-- encodeIndexBlock
unfoldable pub encode_index_block : List IndexEntry → Outcome Error Bytes
unfolding encode_index_entries
encode_index_block es = encode_index_entries es >>= λ text. ok (put_le 4 (length es) ++ text)

module _ (crc32 : Bytes → ℕ) where
  -- the footer of Close, with its checksum
  unfoldable pub footer_text : ℕ → ℕ → ℕ → ℕ → Bytes
  footer_text index_offset index_length bloom_offset bloom_length =
      let footer : ℕ → Footer = λ checksum. record {
        index_block_offset = index_offset;
        index_block_size = index_length;
        bloom_filter_offset = bloom_offset;
        bloom_filter_size = bloom_length;
        magic = magic_number;
        version = format_version;
        checksum = checksum;
      } in
      encode_footer (footer (crc32 (take 44 (encode_footer (footer 0)))))

module _ (crc32 : Bytes → ℕ) {B : Type 0} (gob_encode : B → Bytes) where
  -- Close after the index block was encoded
  unfoldable pub finish : Bytes → Writer B → Writer B
  unfolding footer_text
  finish index w =
      let bloom = gob_encode w.bloom_filter in
      let bloom_offset = (w.current_offset + length index) % 2 ^ 64 in
      record w {
        file =
            w.file
            ++ (index
                ++ (bloom
                    ++ footer_text crc32 w.current_offset (length index) bloom_offset
                        (length bloom)));
        current_offset = (bloom_offset + length bloom) % 2 ^ 64;
        closed = true;
      }

  -- Close from the encoded index on
  unfoldable pub close_with : Outcome Error Bytes → Writer B → Writer B × Outcome Error Unit
  unfolding finish
  close_with (ok index) w = (finish index w, ok tt)
  close_with (err e) w = (w, err e)
  close_with panic w = (w, panic)

  -- Close
  unfoldable pub close_writer : Writer B → Writer B × Outcome Error Unit
  unfolding close_with encode_index_block flush_block
  close_writer w =
      if w.closed
      then (w, ok tt)
      else let w' = flush_block crc32 w in close_with (encode_index_block w'.index_entries) w'
