-- ===== src/Sstable/Writer/Adds.antt =====
-- After any calls of Add the blocks on disk hold exactly the entries that were added.
use crazygraphstore.Common.{
  ℕ, ◌+◌, ◌<◌, ◌^◌, ◌≡◌, refl, sym, ap, ◌∙◌, inl, inr, List, [], ◌∷◌, ◌++◌, append_assoc,
  append-nil, arith, ltb, length, All, Bytes, Outcome, ok, Bool-cases,
}
use crazygraphstore.Sstable.{Error, block_size}
use crazygraphstore.Sstable.Block.Lookup.{IsSmall, entry_text, block_text}
use crazygraphstore.Sstable.Writer.{Writer, new_writer, flush_block, make_space, add, append_entry}
use crazygraphstore.Sstable.Writer.Blocks.{AllRead, joined, IsStored, flush_block-IsStored}
use crazygraphstore.Sstable.Writer.Steps.{
  block_text-snoc, appended, noted, size_of, flush_block-grows, add_lem, add_all, add_all_step,
  add_all-grows,
}

module _ (crc32 : Bytes → ℕ) {B : Type 0} where
  -- What stands in the blocks and in the current block.
  record Contains (w : Writer B) (text : Bytes) : Type 0 where
    blocks : List Bytes
    stored : IsStored crc32 w blocks
    all_text : joined crc32 blocks ++ w.current_block ≡ text

  module _ (below : (block : Bytes) → crc32 block < 2 ^ 32) where
    make_space-Contains :
        (n : ℕ) (w : Writer B) (text : Bytes)
        → Contains w text
        → length (make_space crc32 n w).file < 2 ^ 64
        → Contains (make_space crc32 n w) text
    unfolding make_space
    make_space-Contains n w text c short =
        elim (Bool-cases (ltb block_size (length w.current_block + n))) [
          | inr fits ↦ rw fits c
          | inl full ↦
              let (bs, s, j, e) =
                flush_block-IsStored crc32 below w c.blocks c.stored (rw full at short) in
              rw full
                (record { blocks = bs; stored = s; all_text = rw (e, append-nil) (j ∙ c.all_text) })
        ]

  appended-Contains :
      (key more text : Bytes) (w : Writer B)
      → Contains w text
      → Contains (appended key more w) (text ++ more)
  unfolding append_entry
  appended-Contains key more text w c = record {
    blocks = c.blocks;
    stored = record { placed = c.stored.placed; readable = c.stored.readable };
    all_text =
        sym (append_assoc (joined crc32 c.blocks) w.current_block more)
        ∙ ap (λ (t : Bytes). t ++ more) c.all_text;
  }

  module _ (add_string : B → Bytes → B) where
    module _ (below : (block : Bytes) → crc32 block < 2 ^ 32) where
      add-Contains :
          (key value : Bytes) (w : Writer B) (text : Bytes)
          → IsSmall (key, value)
          → (add crc32 add_string key value w).1 ≡ ok tt
          → length (add crc32 add_string key value w).0.file < 2 ^ 64
          → Contains w text
          → Contains (add crc32 add_string key value w).0 (text ++ entry_text (key, value))
      unfolding append_entry
      add-Contains key value w text small good short c =
          let e = add_lem crc32 add_string key value w small good in
          let c' : Contains (noted add_string key w) text = record {
            blocks = c.blocks;
            stored = record { placed = c.stored.placed; readable = c.stored.readable };
            all_text = c.all_text;
          } in
          rw e (
            appended-Contains key (entry_text (key, value)) text
              (make_space crc32 (size_of key value) (noted add_string key w))
              (make_space-Contains below (size_of key value) (noted add_string key w) text c'
                (rw e at short)))

      add_all-Contains :
          (es done : List (Bytes × Bytes)) (w : Writer B)
          → All IsSmall es
          → (add_all crc32 add_string es w).1 ≡ ok tt
          → length (add_all crc32 add_string es w).0.file < 2 ^ 64
          → Contains w (block_text done)
          → Contains (add_all crc32 add_string es w).0 (block_text (done ++ es))
      add_all-Contains [] done w small good short c = rw append-nil (unfold add_all in c)
      add_all-Contains ((key, value) ∷ es) done w small good short c =
          let (first, step) = add_all_step crc32 add_string key value es w good in
          let w1 : Writer B = (add crc32 add_string key value w).0 in
          let good' : (add_all crc32 add_string es w1).1 ≡ ok tt =
            ap (λ (p : Writer B × Outcome Error Unit). p.1) (sym step) ∙ good in
          let short' : length (add_all crc32 add_string es w1).0.file < 2 ^ 64 = rw step at short in
          let grown = add_all-grows crc32 add_string es w1 small.1 good' in
          let c1 : Contains w1 (block_text (done ++ (key, value) ∷ [])) = rw block_text-snoc (
            add-Contains key value w (block_text done) small.0 first (omega (arith, grown, short'))
              c) in
          let final : Contains (add_all crc32 add_string es w1).0
              (block_text ((done ++ (key, value) ∷ []) ++ es)) =
            add_all-Contains es (done ++ (key, value) ∷ []) w1 small.1 good' short' c1 in
          rw step (rw append_assoc at final)

      new_writer-Contains : (filter : B) → Contains (new_writer filter) []
      unfolding new_writer
      new_writer-Contains filter = record {
        blocks = [];
        stored = record { placed = refl; readable = tt };
        all_text = refl;
      }

      -- If a new writer takes a list of entries by calls of Add that all succeed, then after the
      -- flush with which Close begins the index has a handle for each of some blocks, each block is
      -- read back through its handle whatever is written behind, and the blocks one after another
      -- hold exactly the entries, in order. The entries fit the uint32 lengths of the format,
      -- checksums are below 2 ^ 32, and the file is shorter than 2 ^ 64 bytes.
      pub flushed-AllRead :
          (es : List (Bytes × Bytes)) (filter : B)
          → All IsSmall es
          → (add_all crc32 add_string es (new_writer filter)).1 ≡ ok tt
          → length (flush_block crc32 (add_all crc32 add_string es (new_writer filter)).0).file
            < 2 ^ 64
          → (bs : List Bytes) × AllRead crc32
              (flush_block crc32 (add_all crc32 add_string es (new_writer filter)).0).file
              (flush_block crc32 (add_all crc32 add_string es (new_writer filter)).0).index_entries
              bs
            × (joined crc32 bs ≡ block_text es)
      flushed-AllRead es filter small good short =
          let w : Writer B = (add_all crc32 add_string es (new_writer filter)).0 in
          let start : Contains (new_writer filter) (block_text []) =
            unfold block_text in new_writer-Contains filter in
          let c : Contains w (block_text es) =
            add_all-Contains es [] (new_writer filter) small good
              (omega (arith, flush_block-grows crc32 w, short)) start in
          let (bs, s, j, e) = flush_block-IsStored crc32 below w c.blocks c.stored short in
          (bs, s.readable, j ∙ c.all_text)
