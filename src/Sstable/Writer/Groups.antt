-- ===== src/Sstable/Writer/Groups.antt =====
-- The index of a writer names, for each block, the last key of the entries in it.
use crazygraphstore.Common.{
  ℕ, ◌+◌, ◌-◌, ◌<◌, ◌^◌, ◌==◌, ◌≡◌, refl, sym, ap, ◌∙◌, inl, inr, false, List, [], ◌∷◌, ◌++◌,
  append_assoc, append-nil, arith, ltb, length, length-append, Bytes, ok, Bool-cases, if_rule,
}
use crazygraphstore.Sstable.{block_size}
use crazygraphstore.Sstable.Block.Lookup.{IsSmall, entry_text, block_text}
use crazygraphstore.Sstable.Writer.{
  Writer, sealed, write_block, flush_block, make_space, add, append_entry,
}
use crazygraphstore.Sstable.Writer.Blocks.{IsStored, write_block-IsStored}
use crazygraphstore.Sstable.Writer.Steps.{block_text-snoc, appended, noted, size_of, add_lem}
use crazygraphstore.Sstable.Writer.Keys.{
  Pair, last_key_of, last_key_of-snoc, last_key_of-append, texts, texts-snoc, flat, flat-snoc,
  Keyed, Keyed-snoc, block_text-empty, some_text,
}

-- A writer that takes writes, with the last key of what was added.
pub record IsReady {B : Type 0} (w : Writer B) (done : List Pair) : Type 0 where
  pub open_writer : w.closed ≡ false
  pub last : w.last_key ≡ last_key_of done

module _ (crc32 : Bytes → ℕ) {B : Type 0} where
  -- The blocks on disk and the current block hold the entries that were added.
  pub record Grouped (w : Writer B) (done : List Pair) : Type 0 where
    pub groups : List (List Pair)
    pub current : List Pair
    pub stored : IsStored crc32 w (texts groups)
    pub keyed : Keyed w.index_entries groups
    pub parts : done ≡ flat groups ++ current
    pub block : w.current_block ≡ block_text current

  flush_block-IsReady :
      (w : Writer B) (done : List Pair) → IsReady w done → IsReady (flush_block crc32 w) done
  unfolding flush_block
  flush_block-IsReady w done h =
      if_rule (λ (v : Writer B). IsReady v done) (length w.current_block == 0) (λ _. h)
        λ _. unfold write_block in record { open_writer = h.open_writer; last = h.last }

  make_space-IsReady :
      (n : ℕ) (w : Writer B) (done : List Pair)
      → IsReady w done
      → IsReady (make_space crc32 n w) done
  unfolding make_space
  make_space-IsReady n w done h =
      if_rule (λ (v : Writer B). IsReady v done) (ltb block_size (length w.current_block + n))
        (λ _. flush_block-IsReady w done h) λ _. h

  write_block-Grouped :
      (w : Writer B) (done : List Pair) (g : Grouped w done)
      → IsReady w done
      → 0 < length g.current
      → crc32 w.current_block < 2 ^ 32
      → length (write_block crc32 w).file < 2 ^ 64
      → (g' : Grouped (write_block crc32 w) done) × (g'.current ≡ [])
  write_block-Grouped w done g r more below short =
      let last : w.last_key ≡ last_key_of g.current =
        r.last ∙ ap last_key_of g.parts ∙ last_key_of-append (flat g.groups) g.current more in
      let s = write_block-IsStored crc32 w (texts g.groups) below g.stored short in
      (
        record {
          groups = g.groups ++ g.current ∷ [];
          current = [];
          stored = rw (texts-snoc g.groups g.current, ← g.block) s;
          keyed =
              unfold write_block in
              Keyed-snoc w.index_entries g.groups _ g.current g.keyed (
                last,
                more,
                record {
                  offset_fits = omega (
                    arith,
                    g.stored.placed,
                    length-append w.file (sealed crc32 w.current_block),
                    short,
                  );
                  size_fits = omega arith;
                },
              );
          parts =
              g.parts
              ∙ sym (append-nil (flat (g.groups ++ g.current ∷ [])) ∙ flat-snoc g.groups g.current);
          block = unfold write_block block_text in refl;
        },
        refl,
      )

  -- A flush ends the current block, if there is one.
  pub flush_block-Grouped :
      ((block : Bytes) → crc32 block < 2 ^ 32)
      → (w : Writer B) (done : List Pair) (g : Grouped w done) → IsReady w done
      → length (flush_block crc32 w).file < 2 ^ 64
      → (g' : Grouped (flush_block crc32 w) done) × (g'.current ≡ [])
  unfolding flush_block
  flush_block-Grouped below w done g r short = elim (Bool-cases (length w.current_block == 0)) [
    | inl none_left ↦
        let e : g.current ≡ [] =
          block_text-empty g.current (ap length (sym g.block) ∙ ground arith) in
        rw none_left (g, e)
    | inr some_left ↦
        let more : 0 < length g.current =
          some_text g.current (length w.current_block - 1)
            (ap length (sym g.block) ∙ ground arith) in
        rw some_left
          (write_block-Grouped w done g r more (below w.current_block) (rw some_left at short))
  ]

  make_space-Grouped :
      ((block : Bytes) → crc32 block < 2 ^ 32)
      → (n : ℕ) (w : Writer B) (done : List Pair) → Grouped w done
      → IsReady w done
      → length (make_space crc32 n w).file < 2 ^ 64
      → Grouped (make_space crc32 n w) done
  unfolding make_space
  make_space-Grouped below n w done g r short =
      elim (Bool-cases (ltb block_size (length w.current_block + n))) [
        | inr fits ↦ rw fits g
        | inl full ↦ rw full (flush_block-Grouped below w done g r (rw full at short)).0
      ]

  appended-Grouped :
      (key value : Bytes) (w : Writer B) (done : List Pair)
      → Grouped w done
      → Grouped (appended key (entry_text (key, value)) w) (done ++ (key, value) ∷ [])
  unfolding append_entry
  appended-Grouped key value w done g = record {
    groups = g.groups;
    current = g.current ++ (key, value) ∷ [];
    stored = record { placed = g.stored.placed; readable = g.stored.readable };
    keyed = g.keyed;
    parts =
        ap (λ (t : List Pair). t ++ (key, value) ∷ []) g.parts
        ∙ append_assoc (flat g.groups) g.current ((key, value) ∷ []);
    block =
        ap (λ (t : Bytes). t ++ entry_text (key, value)) g.block
        ∙ sym (block_text-snoc g.current (key, value));
  }

  appended-IsReady :
      (key value text : Bytes) (w : Writer B) (done : List Pair)
      → IsReady w done
      → IsReady (appended key text w) (done ++ (key, value) ∷ [])
  unfolding append_entry
  appended-IsReady key value text w done r = record {
    open_writer = r.open_writer;
    last = sym (last_key_of-snoc done (key, value));
  }

  module _ (add_string : B → Bytes → B) where
    noted-IsReady :
        (key : Bytes) (w : Writer B) (done : List Pair)
        → IsReady w done
        → IsReady (noted add_string key w) done
    noted-IsReady key w done r = record { open_writer = r.open_writer; last = r.last }

    pub add-IsReady :
        (key value : Bytes) (w : Writer B) (done : List Pair)
        → IsSmall (key, value)
        → (add crc32 add_string key value w).1 ≡ ok tt
        → IsReady w done
        → IsReady (add crc32 add_string key value w).0 (done ++ (key, value) ∷ [])
    add-IsReady key value w done small good r =
        rw (add_lem crc32 add_string key value w small good) (
          appended-IsReady key value (entry_text (key, value))
            (make_space crc32 (size_of key value) (noted add_string key w)) done
            (make_space-IsReady (size_of key value) (noted add_string key w) done
              (noted-IsReady key w done r)))

    pub add-Grouped :
        ((block : Bytes) → crc32 block < 2 ^ 32)
        → (key value : Bytes) (w : Writer B) (done : List Pair) → IsSmall (key, value)
        → (add crc32 add_string key value w).1 ≡ ok tt
        → IsReady w done
        → length (add crc32 add_string key value w).0.file < 2 ^ 64
        → Grouped w done
        → Grouped (add crc32 add_string key value w).0 (done ++ (key, value) ∷ [])
    unfolding append_entry
    add-Grouped below key value w done small good r short g =
        let e = add_lem crc32 add_string key value w small good in
        let g' : Grouped (noted add_string key w) done = record {
          groups = g.groups;
          current = g.current;
          stored = record { placed = g.stored.placed; readable = g.stored.readable };
          keyed = g.keyed;
          parts = g.parts;
          block = g.block;
        } in
        rw e (
          appended-Grouped key value (make_space crc32 (size_of key value) (noted add_string key w))
            done
            (make_space-Grouped below (size_of key value) (noted add_string key w) done g'
              (noted-IsReady key w done r) (rw e at short)))
