-- ===== src/Sstable/Writer/Steps.antt =====
-- What one call of Add does, and calls of Add one after another.
use crazygraphstore.Common.{
  ℕ, ◌+◌, ◌≤◌, ◌%◌, ◌^◌, ◌==◌, ◌≡◌, refl, sym, ap, ◌∙◌, List, [], ◌∷◌, ◌++◌, append_assoc,
  append-nil, arith, ltb, length, length-append, All, Bytes, Outcome, ok, err, panic, if_rule,
}
use crazygraphstore.Sstable.{Error, block_size}
use crazygraphstore.Sstable.Block.Lookup.{IsSmall, entry_text, block_text, encode_entry_lem}
use crazygraphstore.Sstable.Writer.{
  Writer, sealed, write_block, flush_block, make_space, out_of_order, add, append_entry,
}

pub block_text-snoc :
    (es : List (Bytes × Bytes)) (e : Bytes × Bytes)
    → block_text (es ++ e ∷ []) ≡ block_text es ++ entry_text e
unfolding block_text
block_text-snoc [] e = append-nil (entry_text e)
block_text-snoc (d ∷ es) e =
    ap (λ (t : Bytes). entry_text d ++ t) (block_text-snoc es e)
    ∙ sym (append_assoc (entry_text d) (block_text es) (entry_text e))

-- The writer after an entry went to the block.
abbrev pub appended : {B : Type 0} → Bytes → Bytes → Writer B → Writer B
appended key text w = (append_entry key (ok text) w).0

-- The writer with the key in its filter.
abbrev pub noted : {B : Type 0} → (B → Bytes → B) → Bytes → Writer B → Writer B
noted add_string key w = record w { bloom_filter = add_string w.bloom_filter key }

abbrev pub size_of : Bytes → Bytes → ℕ
size_of key value = (4 + length key % 2 ^ 32 + 4 + length value % 2 ^ 32) % 2 ^ 32

module _ (crc32 : Bytes → ℕ) {B : Type 0} where
  pub flush_block-grows : (w : Writer B) → length w.file ≤ length (flush_block crc32 w).file
  unfolding flush_block
  flush_block-grows w =
      if_rule (λ (v : Writer B). length w.file ≤ length v.file) (length w.current_block == 0)
        (λ _. omega arith)
        λ _.
          unfold write_block in omega (arith, length-append w.file (sealed crc32 w.current_block))

  pub make_space-grows : (n : ℕ) (w : Writer B) → length w.file ≤ length (make_space crc32 n w).file
  unfolding make_space
  make_space-grows n w =
      if_rule (λ (v : Writer B). length w.file ≤ length v.file)
        (ltb block_size (length w.current_block + n)) (λ _. flush_block-grows w) λ _. omega arith

  module _ (add_string : B → Bytes → B) where
    -- An Add that succeeds appends the entry, after it may have ended the block.
    pub add_lem :
        (key value : Bytes) (w : Writer B)
        → IsSmall (key, value)
        → (add crc32 add_string key value w).1 ≡ ok tt
        → (add crc32 add_string key value w).0
          ≡ appended key
              (entry_text (key, value))
              (make_space crc32 (size_of key value) (noted add_string key w))
    unfolding add
    add_lem key value w small =
        let P : Writer B × Outcome Error Unit → Type 0 = λ p.
          p.1 ≡ ok tt
          → p.0
            ≡ appended key (entry_text (key, value))
                (make_space crc32 (size_of key value) (noted add_string key w)) in
        if_rule P w.closed (λ _ bad. absurd (cc))
          λ _.
            if_rule P (out_of_order key w.last_key) (λ _ bad. absurd (cc))
              λ _ good. rw (encode_entry_lem key value small) refl

    and_then :
        Outcome Error Unit
        → Writer B
        → (Writer B → Writer B × Outcome Error Unit)
        → Writer B × Outcome Error Unit
    and_then (ok _) w next = next w
    and_then (err x) w next = (w, err x)
    and_then panic w next = (w, panic)

    and_then-ok :
        (r : Outcome Error Unit) (w : Writer B) (next : Writer B → Writer B × Outcome Error Unit)
        → (and_then r w next).1 ≡ ok tt
        → r ≡ ok tt
    unfolding and_then
    and_then-ok (ok tt) w next h = refl
    and_then-ok (err x) w next h = cc
    and_then-ok panic w next h = cc

    -- Calls of Add, until one fails.
    unfoldable pub add_all : List (Bytes × Bytes) → Writer B → Writer B × Outcome Error Unit
    unfolding and_then
    add_all [] w = (w, ok tt)
    add_all ((key, value) ∷ es) w =
        let r = add crc32 add_string key value w in and_then r.1 r.0 (add_all es)

    pub add_all_step :
        (key value : Bytes) (es : List (Bytes × Bytes)) (w : Writer B)
        → (add_all ((key, value) ∷ es) w).1 ≡ ok tt
        → ((add crc32 add_string key value w).1 ≡ ok tt)
          × (add_all ((key, value) ∷ es) w ≡ add_all es (add crc32 add_string key value w).0)
    unfolding add_all
    add_all_step key value es w h =
        let first : (add crc32 add_string key value w).1 ≡ ok tt = and_then-ok _ _ (add_all es) h in
        (
          first,
          ap
              (λ (r : Outcome Error Unit).
                and_then r (add crc32 add_string key value w).0 (add_all es))
              first,
        )

    pub add_all_next :
        (key value : Bytes) (es : List (Bytes × Bytes)) (w : Writer B)
        → (add crc32 add_string key value w).1 ≡ ok tt
        → add_all ((key, value) ∷ es) w ≡ add_all es (add crc32 add_string key value w).0
    unfolding add_all
    add_all_next key value es w first =
        ap
          (λ (r : Outcome Error Unit). and_then r (add crc32 add_string key value w).0 (add_all es))
          first

    pub add-grows :
        (key value : Bytes) (w : Writer B)
        → IsSmall (key, value)
        → (add crc32 add_string key value w).1 ≡ ok tt
        → length w.file ≤ length (add crc32 add_string key value w).0.file
    add-grows key value w small good =
        rw (add_lem key value w small good)
          (unfold append_entry in make_space-grows (size_of key value) (noted add_string key w))

    pub add_all-grows :
        (es : List (Bytes × Bytes)) (w : Writer B)
        → All IsSmall es
        → (add_all es w).1 ≡ ok tt
        → length w.file ≤ length (add_all es w).0.file
    add_all-grows [] w small good = unfold add_all in omega arith
    add_all-grows ((key, value) ∷ es) w small good =
        let (first, step) = add_all_step key value es w good in
        let w1 : Writer B = (add crc32 add_string key value w).0 in
        let good' : (add_all es w1).1 ≡ ok tt =
          ap (λ (p : Writer B × Outcome Error Unit). p.1) (sym step) ∙ good in
        rw step
          (omega (arith, add-grows key value w small.0 first, add_all-grows es w1 small.1 good'))
