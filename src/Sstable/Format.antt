-- ===== src/Sstable/Format.antt =====
-- The footer and the index entries of a file are read back as they were written.
use crazygraphstore.Common.{
  ℕ, ◌+◌, ◌-◌, ◌≤◌, ◌<◌, ◌%◌, ◌^◌, ◌≡◌, refl, sym, ap, ◌∙◌, false, ◌++◌, append_assoc, arith, leb,
  length, drop, length-append, take_of_length-le, take-append_of_length, drop-append_of_length,
  le→ltb, Bytes, ok,
}
use crazygraphstore.Common.Words.{put_le, get_le, length-put_le, get_le-put_le}
use crazygraphstore.Sstable.{
  Footer, encode_footer, validate_footer, decode_footer, magic_number, format_version, BlockHandle,
  encode_handle, decode_handle, IndexEntry, encode_index_entry, decode_index_body, decode_index_at,
  decode_index_entry, slice,
}

pub slice-middle :
    (before text behind : Bytes)
    → slice (length before) (length before + length text) (before ++ (text ++ behind)) ≡ text
unfolding slice
slice-middle before text behind =
    let n : length before + length text - length before ≡ length text = omega arith in
    rw (n, drop-append_of_length (length before) before (text ++ behind) refl)
      (take-append_of_length (length text) text behind refl)

-- The fields fit their widths, and the constants are those that NewReader expects.
pub record IsFooter (f : Footer) : Type 0 where
  pub index_offset_fits : f.index_block_offset < 2 ^ 64
  pub index_size_fits : f.index_block_size < 2 ^ 64
  pub bloom_offset_fits : f.bloom_filter_offset < 2 ^ 64
  pub bloom_size_fits : f.bloom_filter_size < 2 ^ 64
  pub magic_right : f.magic ≡ magic_number
  pub version_right : f.version ≡ format_version
  pub checksum_fits : f.checksum < 2 ^ 32

validate_footer_lem :
    (f : Footer) → f.magic ≡ magic_number → f.version ≡ format_version → validate_footer f ≡ ok f
unfolding validate_footer
validate_footer_lem f m v = ground arith

-- A footer whose fields fit their widths, with the magic number and the version of the format, takes
-- 48 bytes, and Decode reads back what Encode wrote.
pub decode-encode_footer :
    (f : Footer)
    → IsFooter f
    → (length (encode_footer f) ≡ 48) × (decode_footer (encode_footer f) ≡ ok f)
unfolding encode_footer decode_footer put_le
decode-encode_footer f h = (
  refl,
  ap validate_footer (λ i. record {
    index_block_offset = get_le-put_le 8 f.index_block_offset h.index_offset_fits i;
    index_block_size = get_le-put_le 8 f.index_block_size h.index_size_fits i;
    bloom_filter_offset = get_le-put_le 8 f.bloom_filter_offset h.bloom_offset_fits i;
    bloom_filter_size = get_le-put_le 8 f.bloom_filter_size h.bloom_size_fits i;
    magic = get_le-put_le 8 f.magic (omega (arith, h.magic_right)) i;
    version = get_le-put_le 4 f.version (omega (arith, h.version_right)) i;
    checksum = get_le-put_le 4 f.checksum h.checksum_fits i;
  })
      ∙ validate_footer_lem f h.magic_right h.version_right,
)

pub record IsHandle (bh : BlockHandle) : Type 0 where
  pub offset_fits : bh.offset < 2 ^ 64
  pub size_fits : bh.size < 2 ^ 64

handle_path :
    (bh : BlockHandle)
    → IsHandle bh
    → record { offset = get_le (put_le 8 bh.offset); size = get_le (put_le 8 bh.size) } ≡ bh
handle_path bh h = λ i. record {
  offset = get_le-put_le 8 bh.offset h.offset_fits i;
  size = get_le-put_le 8 bh.size h.size_fits i;
}

decode_handle_lem :
    (bytes : Bytes)
    → 16 ≤ length bytes
    → decode_handle bytes
      ≡ ok (record { offset = get_le (slice 0 8 bytes); size = get_le (slice 8 16 bytes) })
unfolding decode_handle
decode_handle_lem bytes h = ground arith

pub decode-encode_handle :
    (bh : BlockHandle) (rest : Bytes)
    → IsHandle bh
    → decode_handle (encode_handle bh ++ rest) ≡ ok bh
unfolding encode_handle slice put_le
decode-encode_handle bh rest h =
    decode_handle_lem (encode_handle bh ++ rest) (omega arith) ∙ ap ok (handle_path bh h)

length-encode_handle : (bh : BlockHandle) → length (encode_handle bh) ≡ 16
unfolding encode_handle put_le
length-encode_handle bh = refl

decode_index_body_lem :
    (stop read : ℕ) (bytes : Bytes) (bh : BlockHandle)
    → 4 ≤ stop
    → stop ≤ length bytes
    → decode_handle (drop stop bytes) ≡ ok bh
    → decode_index_body stop read bytes
      ≡ ok (record { key = slice 4 stop bytes; handle = bh }, read)
unfolding decode_index_body
decode_index_body_lem stop read bytes bh lo hi h =
    rw (le→ltb stop 4 lo, le→ltb (length bytes) stop hi, h)

decode_index_at_lem :
    (n : ℕ) (bytes : Bytes)
    → n + 20 < 2 ^ 32
    → n + 20 ≤ length bytes
    → decode_index_at n bytes ≡ decode_index_body (4 + n) (n + 20) bytes
unfolding decode_index_at
decode_index_at_lem n bytes short fits =
    let read : (4 + n + 16) % 2 ^ 32 ≡ n + 20 = omega arith in
    let stop : (4 + n) % 2 ^ 32 ≡ 4 + n = omega arith in
    rw (read, stop, le→ltb (length bytes) (n + 20) fits)

decode_index_entry_lem :
    (bytes : Bytes)
    → 4 ≤ length bytes
    → decode_index_entry bytes ≡ decode_index_at (get_le (slice 0 4 bytes)) bytes
unfolding decode_index_entry
decode_index_entry_lem bytes h = rw (le→ltb (length bytes) 4 h)

-- The bytes of an index entry whose key is short enough.
pub index_text : IndexEntry → Bytes
index_text e = put_le 4 (length e.key) ++ (e.key ++ encode_handle e.handle)

encode_index_entry_lem :
    (e : IndexEntry) → length e.key + 20 < 2 ^ 32 → encode_index_entry e ≡ ok (index_text e)
unfolding encode_index_entry index_text
encode_index_entry_lem e short =
    let n : length e.key % 2 ^ 32 ≡ length e.key = omega arith in
    let fits : leb (2 ^ 32) (4 + length e.key + 16) ≡ false = ground arith in
    rw (n, fits, take_of_length-le (length e.key) e.key (omega arith))

length-index_text : (e : IndexEntry) → length (index_text e) ≡ length e.key + 20
unfolding index_text
length-index_text e = simp (length-append, length-put_le, length-encode_handle) (omega arith)

module _ (e : IndexEntry) (rest : Bytes) (short : length e.key + 20 < 2 ^ 32)
    (h : IsHandle e.handle) where
  tail : Bytes
  tail = encode_handle e.handle ++ rest

  whole : Bytes
  whole = put_le 4 (length e.key) ++ (e.key ++ tail)

  whole_lem : index_text e ++ rest ≡ whole
  unfolding index_text whole tail
  whole_lem = simp append_assoc

  long : length e.key + 20 ≤ length whole
  long = omega (arith, ap length whole_lem, length-append (index_text e) rest, length-index_text e)

  key_len : get_le (slice 0 4 whole) ≡ length e.key
  unfolding slice whole
  key_len =
      ap get_le
        (take-append_of_length 4 (put_le 4 (length e.key)) (e.key ++ tail) (length-put_le 4 _))
      ∙ get_le-put_le 4 (length e.key) (omega arith)

  after_len : drop 4 whole ≡ e.key ++ tail
  unfolding whole
  after_len = drop-append_of_length 4 (put_le 4 (length e.key)) (e.key ++ tail) (length-put_le 4 _)

  key_text : slice 4 (4 + length e.key) whole ≡ e.key
  unfolding slice
  key_text = rw after_len (take-append_of_length _ e.key tail (omega arith))

  after_key : drop (4 + length e.key) whole ≡ tail
  unfolding whole
  after_key =
      ap (λ (t : Bytes). drop (4 + length e.key) t)
        (sym (append_assoc (put_le 4 (length e.key)) e.key tail))
      ∙ drop-append_of_length (4 + length e.key) (put_le 4 (length e.key) ++ e.key) tail (
          omega
            (arith, length-append (put_le 4 (length e.key)) e.key, length-put_le 4 (length e.key)))

  decode_whole : decode_index_entry whole ≡ ok (e, length e.key + 20)
  decode_whole =
      decode_index_entry_lem whole (omega (arith, long))
      ∙ ap (λ (n : ℕ). decode_index_at n whole) key_len
      ∙ decode_index_at_lem (length e.key) whole short long
      ∙ decode_index_body_lem (4 + length e.key) (length e.key + 20) whole e.handle (omega arith)
          (omega (arith, long)) (rw after_key (unfold tail in decode-encode_handle e.handle rest h))
      ∙ ap (λ (k : Bytes). ok (record { key = k; handle = e.handle }, length e.key + 20)) key_text

-- An index entry whose key is shorter than 2 ^ 32 - 20 bytes, and whose handle fits 64 bits, is
-- encoded, read back from the front of any bytes, and counted with the bytes that it takes.
pub decode-encode_index_entry :
    (e : IndexEntry) (rest : Bytes)
    → length e.key + 20 < 2 ^ 32
    → IsHandle e.handle
    → (encode_index_entry e ≡ ok (index_text e))
      × (length (index_text e) ≡ length e.key + 20)
      × (decode_index_entry (index_text e ++ rest) ≡ ok (e, length (index_text e)))
decode-encode_index_entry e rest short h = (
  encode_index_entry_lem e short,
  length-index_text e,
  rw (whole_lem e rest short h, length-index_text e) (decode_whole e rest short h),
)
