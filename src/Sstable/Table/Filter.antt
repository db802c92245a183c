-- ===== src/Sstable/Table/Filter.antt =====
-- Every key that Add took tests positive in the filter of the writer.
use crazygraphstore.Common.{
  ℕ, ◌≡◌, refl, sym, ap, ◌∙◌, ◌⊎◌, inl, inr, Bool, true, List, [], ◌∷◌, All, Bytes, bytes_eq,
  bytes_eq_iff, Outcome, ok, none, Bool-cases, if_rule, ◌==◌, ltb, length, ◌+◌,
}
use mathlib.Core.Path.{subst}
use crazygraphstore.Common.Maps.{lookup}
use crazygraphstore.Sstable.{Error, block_size}
use crazygraphstore.Sstable.Block.Lookup.{IsSmall}
use crazygraphstore.Sstable.Writer.{Writer, write_block, flush_block, make_space, add, append_entry}
use crazygraphstore.Sstable.Writer.Steps.{noted, size_of, add_lem, add_all, add_all_step}
use crazygraphstore.Sstable.Writer.Keys.{Pair}

module _ (crc32 : Bytes → ℕ) {B : Type 0} where
  -- A flush leaves the filter as it is.
  pub flush_block_filter : (w : Writer B) → (flush_block crc32 w).bloom_filter ≡ w.bloom_filter
  unfolding flush_block write_block
  flush_block_filter w =
      if_rule (λ (v : Writer B). v.bloom_filter ≡ w.bloom_filter) (length w.current_block == 0)
        (λ _. refl) λ _. refl

  make_space_filter : (n : ℕ) (w : Writer B) → (make_space crc32 n w).bloom_filter ≡ w.bloom_filter
  unfolding make_space
  make_space_filter n w =
      if_rule (λ (v : Writer B). v.bloom_filter ≡ w.bloom_filter)
        (ltb block_size (length w.current_block + n)) (λ _. flush_block_filter w) λ _. refl

  module _ (add_string : B → Bytes → B) where
    add_filter :
        (key value : Bytes) (w : Writer B)
        → IsSmall (key, value)
        → (add crc32 add_string key value w).1 ≡ ok tt
        → (add crc32 add_string key value w).0.bloom_filter ≡ add_string w.bloom_filter key
    add_filter key value w small good =
        rw (add_lem crc32 add_string key value w small good)
          (unfold append_entry in make_space_filter (size_of key value) (noted add_string key w))

    module _ (test_string : B → Bytes → Bool)
        (test_added : (b : B) (k : Bytes) → test_string (add_string b k) k ≡ true)
        (test_kept : (b : B) (k j : Bytes)
          → test_string b k ≡ true
          → test_string (add_string b j) k ≡ true) where
      add_all_keeps :
          (es : List Pair) (w : Writer B) (k : Bytes)
          → All IsSmall es
          → (add_all crc32 add_string es w).1 ≡ ok tt
          → test_string w.bloom_filter k ≡ true
          → test_string (add_all crc32 add_string es w).0.bloom_filter k ≡ true
      add_all_keeps [] w k small good h = unfold add_all in h
      add_all_keeps ((key, value) ∷ es) w k small good h =
          let (first, step) = add_all_step crc32 add_string key value es w good in
          let w1 : Writer B = (add crc32 add_string key value w).0 in
          let good' : (add_all crc32 add_string es w1).1 ≡ ok tt =
            ap (λ (p : Writer B × Outcome Error Unit). p.1) (sym step) ∙ good in
          rw step (
            add_all_keeps es w1 k small.1 good'
              (rw (add_filter key value w small.0 first) (test_kept w.bloom_filter k key h)))

      -- After Adds that succeed, every key that was added tests positive.
      pub add_all_tests :
          (es : List Pair) (w : Writer B)
          → All IsSmall es
          → (add_all crc32 add_string es w).1 ≡ ok tt
          → All
              (λ (e : Pair). test_string (add_all crc32 add_string es w).0.bloom_filter e.0 ≡ true)
              es
      add_all_tests [] w small good = tt
      add_all_tests ((key, value) ∷ es) w small good =
          let (first, step) = add_all_step crc32 add_string key value es w good in
          let w1 : Writer B = (add crc32 add_string key value w).0 in
          let good' : (add_all crc32 add_string es w1).1 ≡ ok tt =
            ap (λ (p : Writer B × Outcome Error Unit). p.1) (sym step) ∙ good in
          subst
            (λ (p : Writer B × Outcome Error Unit).
              All (λ (e : Pair). test_string p.0.bloom_filter e.0 ≡ true) ((key, value) ∷ es))
            (sym step)
            (
              add_all_keeps es w1 key small.1 good'
                  (rw (add_filter key value w small.0 first) (test_added w.bloom_filter key)),
              add_all_tests es w1 small.1 good',
            )

-- A key of the entries tests positive.
pub lookup_test :
    (test : Bytes → Bool) (key : Bytes) (es : List Pair)
    → All (λ (e : Pair). test e.0 ≡ true) es
    → (lookup key es ≡ none) ⊎ (test key ≡ true)
unfolding lookup
lookup_test test key [] h = inl refl
lookup_test test key (e ∷ es) h = elim (Bool-cases (bytes_eq e.0 key)) [
  | inl same ↦ inr (ap test (sym ((bytes_eq_iff e.0 key).0 same)) ∙ h.0)
  | inr other ↦ rw other (lookup_test test key es h.1)
]
