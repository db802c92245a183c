-- ===== src/Sstable/Reader/Open.antt =====
-- A file that Close of Writer finished is opened by NewReader.
use crazygraphstore.Common.{
  ℕ, ◌+◌, ◌-◌, ◌<◌, ◌%◌, ◌^◌, ◌≡◌, refl, sym, ap, ◌∙◌, false, Option, some, List, [], ◌∷◌, ◌++◌,
  append_assoc, arith, length, take, length-append, take-append_of_length, drop-append_of_length,
  le→ltb, All, Bytes, ok,
}
use crazygraphstore.Common.Words.{put_le, length-put_le, get_le-put_le}
use crazygraphstore.Sstable.{
  Footer, encode_footer, decode_footer, magic_number, format_version, IndexEntry, footer_size,
}
use crazygraphstore.Sstable.Format.{
  IsFooter, IsHandle, slice-middle, index_text, decode-encode_footer, decode-encode_index_entry,
}
use crazygraphstore.Sstable.Writer.{
  Writer, encode_index_entries, encode_index_block, footer_text, finish,
}
use crazygraphstore.Sstable.Reader.{
  Reader, section_of, check_footer, read_footer, read_entries, open_index, read_index, decoded,
  read_bloom_filter, new_reader,
}

pub section_of-middle :
    (before text behind : Bytes) (offset size : ℕ)
    → offset ≡ length before
    → size ≡ length text
    → length before + length text < 2 ^ 64
    → section_of (before ++ (text ++ behind)) offset size ≡ ok text
unfolding section_of
section_of-middle before text behind offset size p q short =
    let end : (length before + length text) % 2 ^ 64 ≡ length before + length text = omega arith in
    let whole : length (before ++ (text ++ behind))
        ≡ length before + (length text + length behind) =
      omega (arith, length-append before (text ++ behind), length-append text behind) in
    rw
      (
        p,
        q,
        end,
        le→ltb (length (before ++ (text ++ behind))) (length before + length text)
            (omega (arith, whole)),
        le→ltb (length before + length text) (length before) (omega arith),
      )
      (ap ok (slice-middle before text behind))

-- The entries of an index are short enough to be encoded, and their handles fit.
abbrev pub IsIndexEntry : IndexEntry → Type 0
IsIndexEntry e = (length e.key + 20 < 2 ^ 32) × IsHandle e.handle

index_texts : List IndexEntry → Bytes
index_texts [] = []
index_texts (e ∷ es) = index_text e ++ index_texts es

encode_index_entries_lem :
    (es : List IndexEntry) → All IsIndexEntry es → encode_index_entries es ≡ ok (index_texts es)
unfolding encode_index_entries index_texts
encode_index_entries_lem [] h = refl
encode_index_entries_lem (e ∷ es) h =
    let (coded, size, back) = decode-encode_index_entry e [] h.0.0 h.0.1 in
    rw (coded, encode_index_entries_lem es h.1) refl

read_entries-texts :
    (es : List IndexEntry) → All IsIndexEntry es → read_entries (length es) (index_texts es) ≡ ok es
unfolding read_entries index_texts
read_entries-texts [] h = refl
read_entries-texts (e ∷ es) h =
    let (coded, size, back) = decode-encode_index_entry e (index_texts es) h.0.0 h.0.1 in
    rw
      (
        back,
        drop-append_of_length (length (index_text e)) (index_text e) (index_texts es) refl,
        read_entries-texts es h.1,
      )
      refl

-- The bytes of an index.
pub index_bytes : List IndexEntry → Bytes
index_bytes es = put_le 4 (length es) ++ index_texts es

pub encode_index_block_lem :
    (es : List IndexEntry) → All IsIndexEntry es → encode_index_block es ≡ ok (index_bytes es)
unfolding encode_index_block index_bytes
encode_index_block_lem es h = rw (encode_index_entries_lem es h) refl

open_index-bytes :
    (es : List IndexEntry)
    → All IsIndexEntry es
    → length es < 2 ^ 32
    → open_index (index_bytes es) ≡ ok es
unfolding open_index index_bytes
open_index-bytes es h fits =
    let n : Bytes = put_le 4 (length es) in
    rw
      (
        le→ltb (length (n ++ index_texts es)) 4
            (omega (arith, length-append n (index_texts es), length-put_le 4 (length es))),
        take-append_of_length 4 n (index_texts es) (length-put_le 4 (length es)),
        drop-append_of_length 4 n (index_texts es) (length-put_le 4 (length es)),
        get_le-put_le 4 (length es) (omega (arith, fits)),
      )
      (read_entries-texts es h)

module _ (crc32 : Bytes → ℕ) (below : (bytes : Bytes) → crc32 bytes < 2 ^ 32) where
  unfoldable pub footer_with : ℕ → ℕ → ℕ → ℕ → ℕ → Footer
  footer_with io il bo bl checksum = record {
    index_block_offset = io;
    index_block_size = il;
    bloom_filter_offset = bo;
    bloom_filter_size = bl;
    magic = magic_number;
    version = format_version;
    checksum = checksum;
  }

  unfoldable pub front_of : ℕ → ℕ → ℕ → ℕ → Bytes
  unfolding footer_with
  front_of io il bo bl = take 44 (encode_footer (footer_with io il bo bl 0))

  footer_text_lem :
      (io il bo bl : ℕ)
      → footer_text crc32 io il bo bl
        ≡ encode_footer (footer_with io il bo bl (crc32 (front_of io il bo bl)))
  unfolding footer_text footer_with front_of
  footer_text_lem io il bo bl = refl

  -- The checksum does not change what stands in front of it.
  take-encode_footer :
      (io il bo bl c : ℕ)
      → take 44 (encode_footer (footer_with io il bo bl c)) ≡ front_of io il bo bl
  unfolding encode_footer footer_with front_of put_le
  take-encode_footer io il bo bl c = refl

  module _ (io il bo bl : ℕ) (fio : io < 2 ^ 64) (fil : il < 2 ^ 64) (fbo : bo < 2 ^ 64)
      (fbl : bl < 2 ^ 64) where
    -- The footer that is written and read.
    the_footer : Footer
    the_footer = footer_with io il bo bl (crc32 (front_of io il bo bl))

    the_footer-IsFooter : IsFooter the_footer
    unfolding the_footer footer_with
    the_footer-IsFooter = record {
      index_offset_fits = fio;
      index_size_fits = fil;
      bloom_offset_fits = fbo;
      bloom_size_fits = fbl;
      magic_right = refl;
      version_right = refl;
      checksum_fits = below (front_of io il bo bl);
    }

    length-footer_text : length (footer_text crc32 io il bo bl) ≡ 48
    length-footer_text =
        ap length (footer_text_lem io il bo bl)
        ∙ (unfold the_footer in (decode-encode_footer the_footer the_footer-IsFooter).0)

    decode_footer-text : decode_footer (footer_text crc32 io il bo bl) ≡ ok the_footer
    decode_footer-text =
        ap decode_footer (footer_text_lem io il bo bl)
        ∙ (unfold the_footer in (decode-encode_footer the_footer the_footer-IsFooter).1)

    check_footer-text :
        check_footer crc32 (footer_text crc32 io il bo bl) the_footer ≡ ok the_footer
    unfolding check_footer the_footer
    check_footer-text =
        let front : take 44 (footer_text crc32 io il bo bl) ≡ front_of io il bo bl =
          ap (λ (t : Bytes). take 44 t) (footer_text_lem io il bo bl)
          ∙ take-encode_footer io il bo bl (crc32 (front_of io il bo bl)) in
        rw front (unfold footer_with in ground arith)

    read_footer-text :
        (body : Bytes) → read_footer crc32 (body ++ footer_text crc32 io il bo bl) ≡ ok the_footer
    unfolding read_footer
    read_footer-text body =
        let text : Bytes = footer_text crc32 io il bo bl in
        let at : length (body ++ text) - footer_size ≡ length body =
          omega (arith, length-append body text, length-footer_text) in
        rw (at, drop-append_of_length (length body) body text refl, decode_footer-text)
          check_footer-text

  module _ {B : Type 0} (gob_encode : B → Bytes) (gob_decode : Bytes → Option B) where
    -- What NewReader makes of a file that Close finished.
    unfoldable pub opened : List IndexEntry → Writer B → Reader B
    unfolding footer_with front_of
    opened es w = record {
      file = (finish crc32 gob_encode (index_bytes es) w).file;
      footer =
          footer_with (length w.file) (length (index_bytes es))
            (length w.file + length (index_bytes es)) (length (gob_encode w.bloom_filter))
            (crc32 (
              front_of (length w.file) (length (index_bytes es))
                (length w.file + length (index_bytes es)) (length (gob_encode w.bloom_filter))));
      index_cache = es;
      bloom_filter = w.bloom_filter;
      closed = false;
    }

    finish_file :
        (es : List IndexEntry) (w : Writer B)
        → w.current_offset ≡ length w.file
        → length w.file + length (index_bytes es) < 2 ^ 64
        → (finish crc32 gob_encode (index_bytes es) w).file
          ≡ w.file
            ++ (index_bytes es
                ++ (gob_encode w.bloom_filter
                    ++ footer_text crc32
                        (length w.file)
                        (length (index_bytes es))
                        (length w.file + length (index_bytes es))
                        (length (gob_encode w.bloom_filter))))
    unfolding finish
    finish_file es w p short =
        let off : (length w.file + length (index_bytes es)) % 2 ^ 64
            ≡ length w.file + length (index_bytes es) =
          omega arith in
        rw (p, off) refl

    -- A file that Close finished is opened, and the index and the filter are those of the writer.
    pub new_reader-finish :
        (es : List IndexEntry) (w : Writer B)
        → All IsIndexEntry es
        → length es < 2 ^ 32
        → w.current_offset ≡ length w.file
        → gob_decode (gob_encode w.bloom_filter) ≡ some w.bloom_filter
        → length (finish crc32 gob_encode (index_bytes es) w).file < 2 ^ 64
        → length w.file + length (index_bytes es) < 2 ^ 64
        → new_reader crc32 gob_decode (finish crc32 gob_encode (index_bytes es) w).file
          ≡ ok (opened es w)
    unfolding opened new_reader
    new_reader-finish es w h count p back short begins =
        let pre : Bytes = w.file in
        let idx : Bytes = index_bytes es in
        let blm : Bytes = gob_encode w.bloom_filter in
        let io : ℕ = length pre in
        let il : ℕ = length idx in
        let ftr : Bytes = footer_text crc32 io il (io + il) (length blm) in
        let file : Bytes = (finish crc32 gob_encode idx w).file in
        let text : file ≡ pre ++ (idx ++ (blm ++ ftr)) = finish_file es w p begins in
        let sizes : length file ≡ io + (il + (length blm + length ftr)) =
          ap length text
          ∙ omega (
            arith,
            length-append pre (idx ++ (blm ++ ftr)),
            length-append idx (blm ++ ftr),
            length-append blm ftr,
          ) in
        let bl : length blm < 2 ^ 64 = omega (arith, sizes, short) in
        let long : length ftr ≡ 48 =
          length-footer_text io il (io + il) (length blm) (omega arith) (omega arith) begins bl in
        let split : file ≡ (pre ++ (idx ++ blm)) ++ ftr = text ∙ simp append_assoc in
        let foot : read_footer crc32 file ≡ ok (opened es w).footer =
          ap (read_footer crc32) split
          ∙ read_footer-text io il (io + il) (length blm) (omega arith) (omega arith) begins bl
              (pre ++ (idx ++ blm))
          ∙ (unfold the_footer in refl) in
        let index : read_index file (opened es w).footer ≡ ok es =
          unfold read_index footer_with in
          rw
            (ap (λ (t : Bytes). section_of t io il) text
              ∙ section_of-middle pre idx (blm ++ ftr) io il refl refl begins)
            (open_index-bytes es h count) in
        let split' : file ≡ (pre ++ idx) ++ (blm ++ ftr) =
          text ∙ sym (append_assoc pre idx (blm ++ ftr)) in
        let both : length (pre ++ idx) ≡ io + il = length-append pre idx in
        let filter : read_bloom_filter gob_decode file (opened es w).footer ≡ ok w.bloom_filter =
          unfold read_bloom_filter footer_with in
          rw
            (ap (λ (t : Bytes). section_of t (io + il) (length blm)) split'
              ∙ section_of-middle (pre ++ idx) blm ftr (io + il) (length blm) (sym both) refl
                  (omega (arith, both, sizes, short)))
            (rw back (unfold decoded in refl)) in
        rw (le→ltb (length file) footer_size (omega (arith, sizes, long)), foot, index, filter) refl
