-- ===== src/Tests/Compactions.antt =====
-- Compaction.
use crazygraphstore.Common.{
  ℕ, zero, suc, ◌≡◌, refl, false, some, List, [], ◌∷◌, arith, if◌then◌else◌, get_elem?, All, ok,
  err, panic, Bytes, bytes_eq, bytes_ltb, if_rule,
}
use crazygraphstore.Sstable.Reader.{Reader}
use crazygraphstore.Compaction.{TableInfo, fill_group, find_group, select_size_tiered}
use crazygraphstore.Compaction.Merger.{
  MergeEntry, Scanner, Merger, take_entry, advance_with, advance, set_scanner, push_current,
  skip_key, drop_error, and_also, move_on, next_from, next,
}
use crazygraphstore.Compaction.Stranded.{KeepsEntries, after_next, next_strands}
use crazygraphstore.Tests.Tables.{sum}

abbrev table : ℕ → ℕ → TableInfo
table size level = record {
  path = size ∷ [];
  size = size;
  level = level;
  created_at = 0;
  num_entries = 1;
}

abbrev tables : List TableInfo
tables = table 10 0 ∷ table 30 1 ∷ table 50 0 ∷ table 90 0 ∷ []

-- 30 and 50 are the first that are alike.
selected : select_size_tiered (λ ts. ts) tables ≡ table 30 1 ∷ table 50 0 ∷ []
unfolding select_size_tiered find_group fill_group
selected = refl

-- A sorted list as a heap.
abbrev push : MergeEntry → List MergeEntry → List MergeEntry
push x [] = x ∷ []
push x (y ∷ heap) =
    let rest = push x heap in if bytes_ltb y.key x.key then y ∷ rest else x ∷ y ∷ heap

pushed :
    (P : MergeEntry → Type 0) (x : MergeEntry) (heap : List MergeEntry)
    → P x
    → All P heap
    → All P (push x heap)
pushed P x [] p h = (p, tt)
pushed P x (y ∷ heap) p h =
    if_rule (All P) (bytes_ltb y.key x.key) (λ _. (h.0, pushed P x heap p h.1)) λ _. (p, h)

keeps : KeepsEntries push (λ heap. heap)
keeps = record { pushed = pushed; settled = λ P heap h. h }

abbrev empty_reader : Reader (Unit {0})
empty_reader = record {
  file = [];
  footer = record {
    index_block_offset = 0;
    index_block_size = 0;
    bloom_filter_offset = 0;
    bloom_filter_size = 0;
    magic = 0;
    version = 0;
    checksum = 0;
  };
  index_cache = [];
  bloom_filter = tt;
  closed = false;
}

-- A scanner that has given out its first entry.
abbrev scanner : List (Bytes × Bytes) → Scanner (Unit {0})
scanner entries = record {
  reader = empty_reader;
  entries = some entries;
  pos = 1;
  current_key = [];
  current_value = [];
  done = false;
}

abbrev entry : Bytes → ℕ → MergeEntry
entry key i = record { key = key; value = 1 ∷ []; reader_idx = i }

-- Both tables begin with the key a.
abbrev merger : Merger (Unit {0})
merger = record {
  scanners =
      scanner ((b'a' ∷ [], 1 ∷ []) ∷ (b'c' ∷ [], 1 ∷ []) ∷ [])
      ∷ scanner ((b'a' ∷ [], 1 ∷ []) ∷ (b'd' ∷ [], 1 ∷ []) ∷ [])
      ∷ [];
  heap = entry (b'a' ∷ []) 0 ∷ entry (b'a' ∷ []) 1 ∷ [];
}

abbrev keys : ℕ → Merger (Unit {0}) → List Bytes
keys zero m = []
keys (suc n) m =
    let p = next push (λ heap. heap) sum m in
    elim p.1 [ ok e ↦ e.0 ∷ keys n p.0 | err x ↦ [] | panic ↦ [] ]

-- The key d of the second table is lost.
merge_loses : keys 5 merger ≡ (b'a' ∷ []) ∷ (b'c' ∷ []) ∷ []
unfolding bytes_eq bytes_ltb next next_from move_on advance advance_with take_entry set_scanner
    push_current skip_key drop_error and_also
merge_loses = refl

next_strands_example :
    get_elem? (after_next push (λ heap. heap) keeps sum 3 merger).scanners 1
    ≡ get_elem? merger.scanners 1
next_strands_example =
    next_strands push (λ heap. heap) keeps sum 2 (entry (b'a' ∷ []) 0) (entry (b'a' ∷ []) 1)
      (entry (b'a' ∷ []) 1 ∷ []) [] merger refl refl refl (λ e. absurd (omega (arith, e))) tt
