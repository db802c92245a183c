-- ===== src/Sstable.antt =====
-- pkg/sstable/format.go: the footer, block handles and index entries of an SSTable file. Numbers are
-- kept as LittleEndian writes them; lengths are uint32 and wrap modulo 2 ^ 32.
pub mod Format
pub mod Block
pub mod Search
pub mod Writer
pub mod Reader
pub mod Table
use crazygraphstore.Common.{
  ℕ, ◌+◌, ◌-◌, ◌*◌, ◌%◌, ◌^◌, ◌==◌, List, [], ◌∷◌, ◌++◌, ltb, leb, if◌then◌else◌, length, take,
  drop, Bytes, Outcome, ok, err, panic, ◌>>=◌,
}
use crazygraphstore.Common.Words.{put_le, get_le}

pub data Error : Type 0 where
  invalid_footer_size invalid_magic unsupported_version insufficient_data : Error
  writer_closed keys_out_of_order : Error
  file_too_small footer_checksum_mismatch out_of_bounds index_too_small bad_bloom_filter : Error
  reader_closed not_in_bloom_filter not_in_index not_in_block key_deleted : Error
  invalid_block_size block_checksum_mismatch not_yet_implemented unknown_compression : Error

abbrev pub footer_size : ℕ
footer_size = 48

abbrev pub magic_number : ℕ
magic_number = 0x5353544142314556

abbrev pub format_version : ℕ
format_version = 1

abbrev pub block_size : ℕ
block_size = 64 * 1024

-- `data[lo:hi]`, where the bounds were checked
unfoldable pub slice : ℕ → ℕ → Bytes → Bytes
slice lo hi bytes = take (hi - lo) (drop lo bytes)

pub record Footer : Type 0 where
  pub index_block_offset : ℕ
  pub index_block_size : ℕ
  pub bloom_filter_offset : ℕ
  pub bloom_filter_size : ℕ
  pub magic : ℕ
  pub version : ℕ
  pub checksum : ℕ

-- Encode of Footer
unfoldable pub encode_footer : Footer → Bytes
encode_footer f =
    put_le 8 f.index_block_offset
    ++ (put_le 8 f.index_block_size
        ++ (put_le 8 f.bloom_filter_offset
            ++ (put_le 8 f.bloom_filter_size
                ++ (put_le 8 f.magic ++ (put_le 4 f.version ++ put_le 4 f.checksum)))))

-- the validation at the end of Decode
unfoldable pub validate_footer : Footer → Outcome Error Footer
validate_footer f =
    if f.magic == magic_number
    then if f.version == format_version then ok f else err unsupported_version
    else err invalid_magic

-- Decode of Footer
unfoldable pub decode_footer : Bytes → Outcome Error Footer
unfolding slice validate_footer
decode_footer bytes =
    if length bytes == footer_size
    then validate_footer (record {
      index_block_offset = get_le (slice 0 8 bytes);
      index_block_size = get_le (slice 8 16 bytes);
      bloom_filter_offset = get_le (slice 16 24 bytes);
      bloom_filter_size = get_le (slice 24 32 bytes);
      magic = get_le (slice 32 40 bytes);
      version = get_le (slice 40 44 bytes);
      checksum = get_le (slice 44 48 bytes);
    })
    else err invalid_footer_size

pub record BlockHandle : Type 0 where
  pub offset : ℕ
  pub size : ℕ

-- Encode of BlockHandle
unfoldable pub encode_handle : BlockHandle → Bytes
encode_handle bh = put_le 8 bh.offset ++ put_le 8 bh.size

-- Decode of BlockHandle
unfoldable pub decode_handle : Bytes → Outcome Error BlockHandle
unfolding slice
decode_handle bytes =
    if ltb (length bytes) 16
    then err insufficient_data
    else ok (record { offset = get_le (slice 0 8 bytes); size = get_le (slice 8 16 bytes) })

pub record IndexEntry : Type 0 where
  pub key : Bytes
  pub handle : BlockHandle

-- EncodeIndexEntry: where `4+keyLen+16` wraps, a slice of the buffer is out of range.
unfoldable pub encode_index_entry : IndexEntry → Outcome Error Bytes
unfolding encode_handle
encode_index_entry e =
    let key_len = length e.key % 2 ^ 32 in
    if leb (2 ^ 32) (4 + key_len + 16)
    then panic
    else ok (put_le 4 key_len ++ (take key_len e.key ++ encode_handle e.handle))

-- the end of DecodeIndexEntry: the key up to `stop`, and `read` bytes in all
unfoldable pub decode_index_body : ℕ → ℕ → Bytes → Outcome Error (IndexEntry × ℕ)
unfolding slice decode_handle
decode_index_body stop read bytes =
    if ltb stop 4 then panic else if ltb (length bytes) stop then panic else do
      handle ← decode_handle (drop stop bytes)
      ok (record { key = slice 4 stop bytes; handle = handle }, read)

-- DecodeIndexEntry after the key length was read: `4+keyLen+16` and `4+keyLen` wrap.
unfoldable pub decode_index_at : ℕ → Bytes → Outcome Error (IndexEntry × ℕ)
unfolding decode_index_body
decode_index_at key_len bytes =
    let read = (4 + key_len + 16) % 2 ^ 32 in
    if ltb (length bytes) read
    then err insufficient_data
    else decode_index_body ((4 + key_len) % 2 ^ 32) read bytes

-- DecodeIndexEntry; the number is the count of bytes read.
unfoldable pub decode_index_entry : Bytes → Outcome Error (IndexEntry × ℕ)
unfolding slice decode_index_at
decode_index_entry bytes =
    if ltb (length bytes) 4
    then err insufficient_data
    else decode_index_at (get_le (slice 0 4 bytes)) bytes
