-- ===== src/Flusher/Sorted.antt =====
-- A flush succeeds when the loop over the memtable comes to the keys in order, and only then.
use crazygraphstore.Common.{
  ℕ, ◌<◌, ◌==◌, ◌≡◌, ◌≢◌, refl, sym, ap, ◌∙◌, inl, inr, true, false, Option, none, some, List, [],
  ◌∷◌, length, All, Bytes, bytes_eq, bytes_eq_iff, bytes_ltb, bytes_ltb_trans, bytes_ltb_total,
  Outcome, ok, err, panic, arith, if_rule, Bool-cases,
}
use mathlib.Core.Path.{subst}
use mathlib.Core.Option
use crazygraphstore.Common.Maps.{Map, lookup}
use crazygraphstore.Memtable.{Memtable, IsRange, entries}
use crazygraphstore.Memtable.Reads.{entries_lem}
use crazygraphstore.Memtable
use crazygraphstore.Memtable.Adjacency.{bytes_of}
use crazygraphstore.Sstable
use crazygraphstore.Sstable.Block.Lookup.{IsSmall, IsSorted}
use crazygraphstore.Sstable.Writer.{
  Writer, new_writer, out_of_order, add, append_entry, close_writer,
}
use crazygraphstore.Sstable.Writer.Steps.{add_all, add_all_step, add_lem}
use crazygraphstore.Sstable.Writer.Sorted.{add_all-accepts}
use crazygraphstore.Sstable.Writer.Keys.{Pair}
use crazygraphstore.Sstable.Table.{BloomFilter, write_table}
use crazygraphstore.Sstable.Table.RoundTrip.{IsWritable, Answers, write-read}
use crazygraphstore.Sstable.Reader
use crazygraphstore.Sstable.Reader.{Reader, new_reader}
use crazygraphstore.Flusher.{
  Flusher, Flushed, pairs_of, flush_closed, flush_added, flush_pairs, flush_memtable,
}

lookup-pairs_of :
    (key : Bytes) (m : Map (Option Bytes))
    → lookup key (pairs_of m) ≡ Option.map (λ (v : Option Bytes). bytes_of (some v)) (lookup key m)
unfolding lookup pairs_of
lookup-pairs_of key [] = refl
lookup-pairs_of key ((k, none) ∷ m) = elim (Bool-cases (bytes_eq k key)) [
  | inl same ↦ rw same refl
  | inr other ↦ rw other (lookup-pairs_of key m)
]
lookup-pairs_of key ((k, some v) ∷ m) = elim (Bool-cases (bytes_eq k key)) [
  | inl same ↦ rw same refl
  | inr other ↦ rw other (lookup-pairs_of key m)
]

module _ (crc32 : Bytes → ℕ) {B : Type 0} (bloom : BloomFilter B) where
  flush_closed-good :
      (w : Writer B) (r : Outcome Sstable.Error Unit) (f : Flusher)
      → r ≡ ok tt
      → ((flush_closed w r f).result ≡ ok tt) × ((flush_closed w r f).file ≡ some w.file)
  unfolding flush_closed
  flush_closed-good w (ok tt) f h = (refl, refl)
  flush_closed-good w (err x) f h = cc
  flush_closed-good w panic f h = cc

  flush_added-good :
      (w : Writer B) (r : Outcome Sstable.Error Unit) (f : Flusher)
      → r ≡ ok tt
      → (close_writer crc32 bloom.gob_encode w).1 ≡ ok tt
      → ((flush_added crc32 bloom w r f).result ≡ ok tt)
        × ((flush_added crc32 bloom w r f).file
            ≡ some (close_writer crc32 bloom.gob_encode w).0.file)
  unfolding flush_added
  flush_added-good w (ok tt) f h good =
      flush_closed-good (close_writer crc32 bloom.gob_encode w).0 _ f good
  flush_added-good w (err x) f h good = cc
  flush_added-good w panic f h good = cc

  flush_pairs-good :
      (es : List Pair) (f : Flusher)
      → 0 < length es
      → IsWritable crc32 bloom es
      → (write_table crc32 bloom es).1 ≡ ok tt
      → ((flush_pairs crc32 bloom es f).result ≡ ok tt)
        × ((flush_pairs crc32 bloom es f).file ≡ some (write_table crc32 bloom es).0.file)
  unfolding flush_pairs write_table
  flush_pairs-good es f some_entry h good =
      let p = add_all crc32 bloom.add_string es (new_writer bloom.empty_filter) in
      if_rule
        (λ (r : Flushed).
          (r.result ≡ ok tt) × (r.file ≡ some (close_writer crc32 bloom.gob_encode p.0).0.file))
        (length es == 0) (λ none_left. absurd (ground (arith, some_entry)))
        λ _.
          flush_added-good p.0 p.1 f
            (add_all-accepts crc32 bloom.add_string es bloom.empty_filter h.sorted h.small).0 good

  flush_memtable-running :
      (range : Map (Option Bytes) → Map (Option Bytes)) (m : Memtable) (f : Flusher)
      → f.running ≡ true
      → flush_memtable crc32 bloom range m f
        ≡ flush_pairs crc32 bloom (pairs_of (entries range m)) f
  unfolding flush_memtable
  flush_memtable-running range m f h =
      if_rule (λ r. r ≡ flush_pairs crc32 bloom (pairs_of (entries range m)) f) f.running
        (λ _. refl) λ off. absurd (cc (off, h))

  -- If the flusher runs, and the loop over a memtable that is not empty comes to its entries in the
  -- order of their keys, and these fit the format, then FlushMemtable succeeds, NewReader opens the
  -- file, and Get of any key of the table answers as Get of the memtable does: a tombstone and an
  -- empty value as deleted.
  pub flush-read :
      (range : Map (Option Bytes) → Map (Option Bytes)) (m : Memtable) (f : Flusher)
      → IsRange range
      → f.running ≡ true
      → 0 < length (pairs_of (entries range m))
      → IsWritable crc32 bloom (pairs_of (entries range m))
      → ((flush_memtable crc32 bloom range m f).result ≡ ok tt)
        × (file : Bytes) × ((flush_memtable crc32 bloom range m f).file ≡ some file)
        × (r : Reader B) × (new_reader crc32 bloom.gob_decode file ≡ ok r)
        × ((key : Bytes)
            → Answers
                (Option.map (λ (v : Option Bytes). bytes_of (some v)) (Memtable.get key m))
                (Reader.get crc32 bloom.test_string key r))
  flush-read range m f visits on some_entry h =
      let es : List Pair = pairs_of (entries range m) in
      let (good, table) = write-read crc32 bloom es h in
      let (done, file) = flush_pairs-good es f some_entry h good in
      let same : (key : Bytes)
          → lookup key es
            ≡ Option.map (λ (v : Option Bytes). bytes_of (some v)) (Memtable.get key m) =
        λ key.
          lookup-pairs_of key (entries range m)
          ∙ ap (Option.map (λ (v : Option Bytes). bytes_of (some v))) (
              ap (λ (es : Map (Option Bytes)). lookup key es) (entries_lem range m)
              ∙ (unfold Memtable.get in visits.visits key m.data_map)) in
      rw (flush_memtable-running range m f on) (
        done,
        (write_table crc32 bloom es).0.file,
        file,
        table.0,
        table.1,
        λ key.
            subst (λ (o : Option Bytes). Answers o (Reader.get crc32 bloom.test_string key table.0))
              (same key) (table.2 key),
      )

-- Each key is above the one before, by the test of Add.
Rising : Bytes → List Pair → Type 0
Rising last [] = Unit
Rising last (e ∷ es) = (out_of_order e.0 last ≡ false) × Rising e.0 es

above : (key last : Bytes) → last ≢ [] → out_of_order key last ≡ false → bytes_ltb last key ≡ true
unfolding out_of_order
above key last some_key h = elim (Bool-cases (bytes_ltb last key)) [
  | inl below ↦ below
  | inr other ↦
      ground (
        arith,
        bytes_eq_iff last [],
        bytes_eq_iff key last,
        some_key,
        bytes_ltb_total last key other,
      )
]

Rising-All :
    (last : Bytes) (es : List Pair)
    → last ≢ []
    → All (λ (e : Pair). e.0 ≢ []) es
    → Rising last es
    → All (λ (e : Pair). bytes_ltb last e.0 ≡ true) es
unfolding Rising
Rising-All last [] some_key keys h = tt
Rising-All last (e ∷ es) some_key keys h =
    let first : bytes_ltb last e.0 ≡ true = above e.0 last some_key h.0 in
    (first, raise last e.0 es first (Rising-All e.0 es keys.0 keys.1 h.1))
  where
    raise :
        (k j : Bytes) (ds : List Pair)
        → bytes_ltb k j ≡ true
        → All (λ (d : Pair). bytes_ltb j d.0 ≡ true) ds
        → All (λ (d : Pair). bytes_ltb k d.0 ≡ true) ds
    raise k j [] p a = tt
    raise k j (d ∷ ds) p a = (bytes_ltb_trans k j d.0 p a.0, raise k j ds p a.1)

Rising-IsSorted :
    (last : Bytes) (es : List Pair) → All (λ (e : Pair). e.0 ≢ []) es → Rising last es → IsSorted es
unfolding Rising
Rising-IsSorted last [] keys h = tt
Rising-IsSorted last (e ∷ es) keys h =
    (Rising-All e.0 es keys.0 keys.1 h.1, Rising-IsSorted e.0 es keys.1 h.1)

module _ (crc32 : Bytes → ℕ) {B : Type 0} (bloom : BloomFilter B) where
  add_order :
      (key value : Bytes) (w : Writer B)
      → (add crc32 bloom.add_string key value w).1 ≡ ok tt
      → out_of_order key w.last_key ≡ false
  unfolding add
  add_order key value w =
      let P : Writer B × Outcome Sstable.Error Unit → Type 0 =
        λ p. p.1 ≡ ok tt → out_of_order key w.last_key ≡ false in
      if_rule P w.closed (λ _ h. absurd (cc (h)))
        λ _. if_rule P (out_of_order key w.last_key) (λ _ h. absurd (cc (h))) λ fine h. fine

  add_last :
      (key value : Bytes) (w : Writer B)
      → IsSmall (key, value)
      → (add crc32 bloom.add_string key value w).1 ≡ ok tt
      → (add crc32 bloom.add_string key value w).0.last_key ≡ key
  add_last key value w small good =
      ap (λ (v : Writer B). v.last_key) (add_lem crc32 bloom.add_string key value w small good)
      ∙ (unfold append_entry in refl)

  add_all-Rising :
      (es : List Pair) (w : Writer B)
      → All IsSmall es
      → (add_all crc32 bloom.add_string es w).1 ≡ ok tt
      → Rising w.last_key es
  unfolding Rising
  add_all-Rising [] w small good = tt
  add_all-Rising ((key, value) ∷ es) w small good =
      let (first, step) = add_all_step crc32 bloom.add_string key value es w good in
      let w1 : Writer B = (add crc32 bloom.add_string key value w).0 in
      let good' : (add_all crc32 bloom.add_string es w1).1 ≡ ok tt =
        ap (λ (p : Writer B × Outcome Sstable.Error Unit). p.1) (sym step) ∙ good in
      (
        add_order key value w first,
        subst (λ (k : Bytes). Rising k es) (add_last key value w small.0 first)
            (add_all-Rising es w1 small.1 good'),
      )

  flush_added-ok :
      (w : Writer B) (r : Outcome Sstable.Error Unit) (f : Flusher)
      → (flush_added crc32 bloom w r f).result ≡ ok tt
      → r ≡ ok tt
  unfolding flush_added
  flush_added-ok w (ok tt) f h = refl
  flush_added-ok w (err x) f h = cc
  flush_added-ok w panic f h = cc

  flush_pairs-IsSorted :
      (es : List Pair) (f : Flusher)
      → All IsSmall es
      → All (λ (e : Pair). e.0 ≢ []) es
      → (flush_pairs crc32 bloom es f).result ≡ ok tt
      → IsSorted es
  unfolding flush_pairs
  flush_pairs-IsSorted [] f small keys = λ _. tt
  flush_pairs-IsSorted (e ∷ es) f small keys =
      let p = add_all crc32 bloom.add_string (e ∷ es) (new_writer bloom.empty_filter) in
      if_rule (λ (r : Flushed). r.result ≡ ok tt → IsSorted (e ∷ es)) (length (e ∷ es) == 0)
        (λ none_left. absurd (ground arith))
        λ _ good. Rising-IsSorted _ (e ∷ es) keys (
          add_all-Rising (e ∷ es) (new_writer bloom.empty_filter) small
            (flush_added-ok p.0 p.1 f good))

  -- FlushMemtable of a running flusher, over entries that fit the format and have no empty key,
  -- succeeds only if the loop over the memtable came to the keys in rising order, which
  -- `sync.Map.Range` does not promise.
  pub flush_only-IsSorted :
      (range : Map (Option Bytes) → Map (Option Bytes)) (m : Memtable) (f : Flusher)
      → f.running ≡ true
      → All IsSmall (pairs_of (entries range m))
      → All (λ (e : Pair). e.0 ≢ []) (pairs_of (entries range m))
      → (flush_memtable crc32 bloom range m f).result ≡ ok tt
      → IsSorted (pairs_of (entries range m))
  flush_only-IsSorted range m f on small keys good =
      flush_pairs-IsSorted (pairs_of (entries range m)) f small keys (
        ap (λ (r : Flushed). r.result) (sym (flush_memtable-running crc32 bloom range m f on))
        ∙ good)
