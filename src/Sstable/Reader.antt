-- ===== src/Sstable/Reader.antt =====
-- pkg/sstable/reader.go: `Reader` over the bytes of the file, which are mapped into memory. Opening
-- and mapping the file succeed. GobDecode and TestString of the Bloom filter library are parameters.
pub mod Open
use crazygraphstore.Common.{
  ℕ, zero, suc, ◌+◌, ◌-◌, ◌%◌, ◌^◌, ◌==◌, Bool, true, false, not, ◌||◌, ◌⊎◌, inl, inr, Option, none,
  some, List, [], ◌∷◌, ltb, if◌then◌else◌, length, take, drop, Bytes, Outcome, ok, err, panic,
  ◌>>=◌,
}
use crazygraphstore.Common.Words.{get_le}
use crazygraphstore.Sstable.{
  Error, out_of_bounds, invalid_block_size, block_checksum_mismatch, not_yet_implemented,
  unknown_compression, slice, BlockHandle, file_too_small, footer_checksum_mismatch,
  index_too_small, bad_bloom_filter, reader_closed, not_in_bloom_filter, not_in_index, footer_size,
  Footer, decode_footer, IndexEntry, decode_index_entry,
}
use crazygraphstore.Sstable.Block.{Found, found, failed, stuck, search_block, scan_block}
use crazygraphstore.Sstable.Search.{find_block}

-- the end of readBlock, by the compression type
unfoldable pub decompress : ℕ → Bytes → Outcome Error Bytes
decompress compression block =
    if compression == 0
    then ok block
    else if (compression == 1) || (compression == 2)
    then err not_yet_implemented
    else err unknown_compression

-- The bytes of a block, an index or a filter in the file. `Offset+Size` wraps, and where the bounds
-- are then the wrong way round the slice panics.
unfoldable pub section_of : Bytes → ℕ → ℕ → Outcome Error Bytes
unfolding slice
section_of file offset size =
    let end = (offset + size) % 2 ^ 64 in
    if ltb (length file) end
    then err out_of_bounds
    else if ltb end offset
    then panic
    else ok (slice offset end file)

module _ (crc32 : Bytes → ℕ) where
  -- readBlock behind its data, where `trailer` are the bytes from the compression type on
  unfoldable pub check_trailer : Bytes → Bytes → Outcome Error Bytes
  unfolding decompress
  check_trailer block [] = panic
  check_trailer block (compression ∷ checksum) =
      if get_le checksum == crc32 block
      then decompress compression block
      else err block_checksum_mismatch

  -- readBlock from its bytes on
  unfoldable pub open_block : Bytes → Outcome Error Bytes
  unfolding check_trailer
  open_block whole =
      if ltb (length whole) 5
      then err invalid_block_size
      else check_trailer (take (length whole - 5) whole) (drop (length whole - 5) whole)

  -- readBlock
  unfoldable pub read_block : Bytes → BlockHandle → Outcome Error Bytes
  unfolding section_of open_block
  read_block file handle = section_of file handle.offset handle.size >>= open_block

  -- readFooter behind the decoding
  unfoldable pub check_footer : Bytes → Footer → Outcome Error Footer
  check_footer bytes footer =
      if footer.checksum == crc32 (take 44 bytes) then ok footer else err footer_checksum_mismatch

  -- readFooter
  unfoldable pub read_footer : Bytes → Outcome Error Footer
  unfolding check_footer
  read_footer file =
      let bytes = drop (length file - footer_size) file in
      decode_footer bytes >>= check_footer bytes

-- the loop of readIndex over the entries
unfoldable pub read_entries : ℕ → Bytes → Outcome Error (List IndexEntry)
read_entries zero bytes = ok []
read_entries (suc n) bytes =
    decode_index_entry bytes >>= λ p. read_entries n (drop p.1 bytes) >>= λ es. ok (p.0 ∷ es)

-- readIndex from its bytes on
unfoldable pub open_index : Bytes → Outcome Error (List IndexEntry)
unfolding read_entries
open_index bytes =
    if ltb (length bytes) 4
    then err index_too_small
    else read_entries (get_le (take 4 bytes)) (drop 4 bytes)

-- readIndex
unfoldable pub read_index : Bytes → Footer → Outcome Error (List IndexEntry)
unfolding section_of open_index
read_index file footer =
    section_of file footer.index_block_offset footer.index_block_size >>= open_index

pub record Reader (B : Type 0) : Type 0 where
  pub file : Bytes
  pub footer : Footer
  pub index_cache : List IndexEntry
  pub bloom_filter : B
  pub closed : Bool

-- a decoded filter or an error
unfoldable pub decoded : {B : Type 0} → Option B → Outcome Error B
decoded none = err bad_bloom_filter
decoded (some b) = ok b

-- readBloomFilter
unfoldable pub read_bloom_filter :
    {B : Type 0} → (Bytes → Option B) → Bytes → Footer → Outcome Error B
unfolding section_of decoded
read_bloom_filter gob_decode file footer =
    section_of file footer.bloom_filter_offset footer.bloom_filter_size >>= λ bytes.
    decoded (gob_decode bytes)

-- NewReader
unfoldable pub new_reader :
    {B : Type 0} → (Bytes → ℕ) → (Bytes → Option B) → Bytes → Outcome Error (Reader B)
unfolding read_footer read_index read_bloom_filter
new_reader crc32 gob_decode file =
    if ltb (length file) footer_size
    then err file_too_small
    else (read_footer crc32 file >>= λ footer. read_index file footer >>= λ index.
        read_bloom_filter gob_decode file footer >>= λ filter. ok (record {
          file = file;
          footer = footer;
          index_cache = index;
          bloom_filter = filter;
          closed = false;
        }))

-- What searchBlock returned, as a Go result.
unfoldable pub answer : Found → Outcome Error Bytes
answer (found value) = ok value
answer (failed e) = err e
answer stuck = panic

module _ (crc32 : Bytes → ℕ) {B : Type 0} where
  -- Get behind findBlock; `none` is a nil handle
  unfoldable pub get_in : Bytes → Reader B → Option BlockHandle → Outcome Error Bytes
  unfolding answer
  get_in key r none = err not_in_index
  get_in key r (some handle) =
      read_block crc32 r.file handle >>= λ block. answer (search_block block key)

  -- Get
  unfoldable pub get : (B → Bytes → Bool) → Bytes → Reader B → Outcome Error Bytes
  unfolding get_in
  get test_string key r =
      if r.closed
      then err reader_closed
      else if test_string r.bloom_filter key
      then (find_block r.index_cache key >>= get_in key r)
      else err not_in_bloom_filter

module _ (crc32 : Bytes → ℕ) {E S : Type 0} (fn : Bytes → Bytes → S → S × Outcome E Unit) where
  -- what follows the scan of a block in the loop of Scan
  unfoldable pub scan_after :
      S × Outcome E Unit → (S → S × Outcome (Error ⊎ E) Unit) → S × Outcome (Error ⊎ E) Unit
  scan_after p next = elim p.1 [
    | ok _ ↦ next p.0
    | err x ↦ (p.0, err (inr x))
    | panic ↦ (p.0, panic)
  ]

  -- Scan of one block, and the rest of the loop; an error is the reader's or the function's
  unfoldable pub scan_in :
      Outcome Error Bytes → (S → S × Outcome (Error ⊎ E) Unit) → S → S × Outcome (Error ⊎ E) Unit
  unfolding scan_after
  scan_in (err e) next s = (s, err (inl e))
  scan_in panic next s = (s, panic)
  scan_in (ok block) next s = scan_after (scan_block fn block s) next

  -- the loop of Scan
  unfoldable pub scan_all : Bytes → List IndexEntry → S → S × Outcome (Error ⊎ E) Unit
  unfolding scan_in
  scan_all file [] s = (s, ok tt)
  scan_all file (e ∷ es) s = scan_in (read_block crc32 file e.handle) (scan_all file es) s

  -- Scan
  unfoldable pub scan : {B : Type 0} → Reader B → S → S × Outcome (Error ⊎ E) Unit
  unfolding scan_all
  scan r s = if r.closed then (s, err (inl reader_closed)) else scan_all r.file r.index_cache s

-- Close of Reader; unmapping and closing the file succeed
unfoldable pub close_reader : {B : Type 0} → Reader B → Reader B
close_reader r = record r { closed = true }
