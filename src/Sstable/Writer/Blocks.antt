-- ===== src/Sstable/Writer/Blocks.antt =====
-- A block that flushBlock wrote is read back, and the keys of a writer rise.
use crazygraphstore.Common.{
  ℕ, suc, ◌+◌, ◌-◌, ◌≤◌, ◌<◌, ◌%◌, ◌^◌, ◌==◌, ◌≡◌, refl, sym, ap, ◌∙◌, inl, inr, List, [], ◌∷◌,
  ◌++◌, append_assoc, append-nil, arith, length, take, drop, length-append, take-append_of_length,
  drop-append_of_length, le→ltb, Bytes, ok, Bool-cases, eq-nil_of_length,
}
use crazygraphstore.Common.Words.{put_le, length-put_le, get_le-put_le}
use crazygraphstore.Sstable.{slice, BlockHandle, IndexEntry}
use crazygraphstore.Sstable.Format.{slice-middle}
use crazygraphstore.Sstable.Writer.{Writer, compression_none, sealed, write_block, flush_block}
use crazygraphstore.Sstable.Reader.{decompress, check_trailer, read_block}

module _ (crc32 : Bytes → ℕ) where
  length-sealed : (block : Bytes) → length (sealed crc32 block) ≡ length block + 5
  unfolding sealed
  length-sealed block =
      length-append block (compression_none ∷ put_le 4 (crc32 block))
      ∙ ap (λ (n : ℕ). length block + suc n) (length-put_le 4 (crc32 block))

  check_trailer-sealed :
      (block : Bytes)
      → crc32 block < 2 ^ 32
      → check_trailer crc32 block (compression_none ∷ put_le 4 (crc32 block)) ≡ ok block
  unfolding check_trailer
  check_trailer-sealed block h =
      rw (get_le-put_le 4 (crc32 block) (omega (arith, h))) (unfold decompress in ground arith)

  read_block-whole :
      (file : Bytes) (handle : BlockHandle) (block : Bytes)
      → handle.offset + handle.size < 2 ^ 64
      → handle.offset + handle.size ≤ length file
      → slice handle.offset (handle.offset + handle.size) file ≡ sealed crc32 block
      → crc32 block < 2 ^ 32
      → read_block crc32 file handle ≡ ok block
  unfolding read_block
  read_block-whole file handle block short fits text below =
      let end : (handle.offset + handle.size) % 2 ^ 64 ≡ handle.offset + handle.size =
        omega arith in
      let n : length (sealed crc32 block) - 5 ≡ length block = omega (arith, length-sealed block) in
      let size : 5 ≤ length (sealed crc32 block) = omega (arith, length-sealed block) in
      let front : take (length block) (sealed crc32 block) ≡ block =
        unfold sealed in take-append_of_length (length block) block _ refl in
      let back : drop (length block) (sealed crc32 block)
          ≡ compression_none ∷ put_le 4 (crc32 block) =
        unfold sealed in drop-append_of_length (length block) block _ refl in
      rw
        (
          end,
          le→ltb (length file) (handle.offset + handle.size) fits,
          le→ltb (handle.offset + handle.size) handle.offset (omega arith),
          text,
          le→ltb (length (sealed crc32 block)) 5 size,
          n,
          front,
          back,
        )
        (check_trailer-sealed block below)

  -- Every index entry points to its block, whatever is written behind.
  abbrev pub AllRead : Bytes → List IndexEntry → List Bytes → Type 0
  AllRead file [] [] = Unit
  AllRead file (e ∷ es) (b ∷ bs) =
      ((more : Bytes) → read_block crc32 (file ++ more) e.handle ≡ ok b) × AllRead file es bs
  AllRead file [] (b ∷ bs) = ⊥
  AllRead file (e ∷ es) [] = ⊥

  pub AllRead-more :
      (file text : Bytes) (es : List IndexEntry) (bs : List Bytes)
      → AllRead file es bs
      → AllRead (file ++ text) es bs
  AllRead-more file text [] [] h = tt
  AllRead-more file text (e ∷ es) (b ∷ bs) h = (
    (λ more.
        ap (λ (t : Bytes). read_block crc32 t e.handle) (append_assoc file text more)
        ∙ h.0 (text ++ more)),
    AllRead-more file text es bs h.1,
  )
  AllRead-more file text [] (b ∷ bs) h = h
  AllRead-more file text (e ∷ es) [] h = h

  AllRead-snoc :
      (file : Bytes) (es : List IndexEntry) (bs : List Bytes) (e : IndexEntry) (b : Bytes)
      → AllRead file es bs
      → ((more : Bytes) → read_block crc32 (file ++ more) e.handle ≡ ok b)
      → AllRead file (es ++ e ∷ []) (bs ++ b ∷ [])
  AllRead-snoc file [] [] e b h r = (r, tt)
  AllRead-snoc file (d ∷ es) (c ∷ bs) e b h r = (h.0, AllRead-snoc file es bs e b h.1 r)
  AllRead-snoc file [] (c ∷ bs) e b h r = elim h [ ]
  AllRead-snoc file (d ∷ es) [] e b h r = elim h [ ]

  -- The blocks one after another.
  abbrev pub joined : List Bytes → Bytes
  joined [] = []
  joined (b ∷ bs) = b ++ joined bs

  joined-snoc : (bs : List Bytes) (b : Bytes) → joined (bs ++ b ∷ []) ≡ joined bs ++ b
  joined-snoc [] b = append-nil b
  joined-snoc (c ∷ bs) b =
      ap (λ (t : Bytes). c ++ t) (joined-snoc bs b) ∙ sym (append_assoc c (joined bs) b)

  sealed-read :
      (file block : Bytes) (size : ℕ)
      → size ≡ length block + 5
      → length file + length block + 5 < 2 ^ 64
      → crc32 block < 2 ^ 32
      → (more : Bytes)
      → read_block crc32
          ((file ++ sealed crc32 block) ++ more)
          (record { offset = length file; size = size })
        ≡ ok block
  sealed-read file block size e short below more =
      let whole : size ≡ length (sealed crc32 block) = omega (arith, length-sealed block) in
      read_block-whole ((file ++ sealed crc32 block) ++ more)
        (record { offset = length file; size = size }) block (omega arith)
        (omega (
          arith,
          length-append (file ++ sealed crc32 block) more,
          length-append file (sealed crc32 block),
        ))
        (rw (append_assoc file (sealed crc32 block) more, whole)
          (slice-middle file (sealed crc32 block) more))
        below

  module _ {B : Type 0} where
    -- The blocks that a writer has written.
    pub record IsStored (w : Writer B) (bs : List Bytes) : Type 0 where
      pub placed : w.current_offset ≡ length w.file
      pub readable : AllRead w.file w.index_entries bs

    pub write_block-IsStored :
        (w : Writer B) (bs : List Bytes)
        → crc32 w.current_block < 2 ^ 32
        → IsStored w bs
        → length (write_block crc32 w).file < 2 ^ 64
        → IsStored (write_block crc32 w) (bs ++ w.current_block ∷ [])
    unfolding write_block
    write_block-IsStored w bs below h short =
        let text : Bytes = sealed crc32 w.current_block in
        let long : length (w.file ++ text) ≡ length w.file + length w.current_block + 5 =
          omega (arith, length-append w.file text, length-sealed w.current_block) in
        let fits : length w.file + length w.current_block + 5 < 2 ^ 64 =
          omega (arith, long, short) in
        let size : (length w.current_block + 1 + 4) % 2 ^ 64 ≡ length w.current_block + 5 =
          omega arith in
        record {
          placed = omega (arith, h.placed, long, size);
          readable =
              AllRead-snoc (w.file ++ text) w.index_entries bs _ w.current_block
                (AllRead-more w.file text w.index_entries bs h.readable)
                (rw h.placed (sealed-read w.file w.current_block _ size fits below));
        }

    written_block : (w : Writer B) → (write_block crc32 w).current_block ≡ []
    unfolding write_block
    written_block w = refl

    -- flushBlock keeps every block that was written readable, and adds the current block to them. The
    -- checksum is taken to be below 2 ^ 32, and the file shorter than 2 ^ 64 bytes.
    pub flush_block-IsStored :
        ((block : Bytes) → crc32 block < 2 ^ 32)
        → (w : Writer B) (bs : List Bytes) → IsStored w bs
        → length (flush_block crc32 w).file < 2 ^ 64
        → (bs' : List Bytes) × IsStored (flush_block crc32 w) bs'
          × (joined bs' ≡ joined bs ++ w.current_block)
          × ((flush_block crc32 w).current_block ≡ [])
    unfolding flush_block
    flush_block-IsStored below w bs h short = elim (Bool-cases (length w.current_block == 0)) [
      | inl none_left ↦
          let e : w.current_block ≡ [] = eq-nil_of_length w.current_block (ground arith) in
          rw none_left (bs, h, rw e (sym (append-nil (joined bs))), e)
      | inr some_left ↦ rw some_left (
        bs ++ w.current_block ∷ [],
        write_block-IsStored w bs (below w.current_block) h (rw some_left at short),
        joined-snoc bs w.current_block,
        written_block w,
      )
    ]
