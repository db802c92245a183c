-- ===== src/Compaction/Merger.antt =====
-- pkg/compaction/merger.go: `merger`. `container/heap` is a parameter: `push` adds an entry, and
-- `settle` is what Pop leaves of the entries behind the first, which is the one that Pop returns.
-- The comparison by keys is built into it. Copies of values are values.
use crazygraphstore.Common.{
  ℕ, zero, suc, ◌+◌, Bool, true, false, Option, none, some, List, [], ◌∷◌, ◌++◌, if◌then◌else◌,
  length, get_elem?, Bytes, bytes_eq, Outcome, ok, err, panic,
}
use crazygraphstore.Sstable
use crazygraphstore.Sstable.Reader.{Reader, scan}

-- ErrMergerDone, and the errors of advance
pub data Error : Type 0 where
  merger_done exhausted scan_failed : Error

pub record MergeEntry : Type 0 where
  pub key : Bytes
  pub value : Bytes
  pub reader_idx : ℕ

-- sstableScanner; `none` is the nil slice of entries
pub record Scanner (B : Type 0) : Type 0 where
  pub reader : Reader B
  pub entries : Option (List (Bytes × Bytes))
  pub pos : ℕ
  pub current_key : Bytes
  pub current_value : Bytes
  pub done : Bool

pub record Merger (B : Type 0) : Type 0 where
  pub scanners : List (Scanner B)
  pub heap : List MergeEntry

unfoldable pub new_scanner : {B : Type 0} → Reader B → Scanner B
new_scanner reader = record {
  reader = reader;
  entries = none;
  pos = 0;
  current_key = [];
  current_value = [];
  done = false;
}

-- the function that advance scans with
unfoldable pub collect :
    Bytes → Bytes → List (Bytes × Bytes) → List (Bytes × Bytes) × Outcome (Unit {0}) Unit
collect key value entries = (entries ++ (key, value) ∷ [], ok tt)

-- the end of advance, with the entry at the position
unfoldable pub take_entry :
    {B : Type 0} → Option (Bytes × Bytes) → Scanner B → Scanner B × Outcome Error Unit
take_entry none s = (record s { done = true }, err exhausted)
take_entry (some (key, value)) s =
    (record s { pos = s.pos + 1; current_key = key; current_value = value }, ok tt)

-- advance once the entries were scanned, without an error or with one
unfoldable pub advance_loaded :
    {B E : Type 0}
    → List (Bytes × Bytes) × Outcome E Unit
    → Scanner B
    → Scanner B × Outcome Error Unit
unfolding take_entry
advance_loaded p s = elim p.1 [
  | ok _ ↦ take_entry (get_elem? p.0 s.pos) (record s { entries = some p.0 })
  | err x ↦ (record s { entries = some p.0; done = true }, err scan_failed)
  | panic ↦ (record s { entries = some p.0 }, panic)
]

module _ (crc32 : Bytes → ℕ) {B : Type 0} where
  -- advance by its entries
  unfoldable pub advance_with :
      Option (List (Bytes × Bytes)) → Scanner B → Scanner B × Outcome Error Unit
  unfolding take_entry advance_loaded collect
  advance_with (some entries) s = take_entry (get_elem? entries s.pos) s
  advance_with none s = advance_loaded (scan crc32 collect s.reader []) s

  -- advance
  unfoldable pub advance : Scanner B → Scanner B × Outcome Error Unit
  unfolding advance_with
  advance s = if s.done then (s, err exhausted) else advance_with s.entries s

-- An error that the caller drops; a panic goes on.
unfoldable pub drop_error : Outcome Error Unit → Outcome Error Unit
drop_error (ok _) = ok tt
drop_error (err x) = ok tt
drop_error panic = panic

-- The second result, unless the first is a failure.
unfoldable pub and_also : {A : Type 0} → Outcome Error Unit → Outcome Error A → Outcome Error A
and_also (ok _) r = r
and_also (err x) r = err x
and_also panic r = panic

-- the scanner at a position replaced
unfoldable pub set_scanner : {B : Type 0} → ℕ → Scanner B → List (Scanner B) → List (Scanner B)
set_scanner i s [] = []
set_scanner zero s (t ∷ ts) = s ∷ ts
set_scanner (suc i) s (t ∷ ts) = t ∷ set_scanner i s ts

-- the loop of Next over entries with the same key; each round takes one
unfoldable pub skip_key :
    (List MergeEntry → List MergeEntry) → ℕ → Bytes → List MergeEntry → List MergeEntry
skip_key settle zero key heap = heap
skip_key settle (suc fuel) key [] = []
skip_key settle (suc fuel) key (x ∷ heap) =
    let rest = skip_key settle fuel key (settle heap) in
    if bytes_eq x.key key then rest else x ∷ heap

module _ (push : MergeEntry → List MergeEntry → List MergeEntry)
    (settle : List MergeEntry → List MergeEntry) (crc32 : Bytes → ℕ) {B : Type 0} where
  -- the push of what advance read
  unfoldable pub push_current :
      ℕ → Scanner B × Outcome Error Unit → List MergeEntry → List MergeEntry
  push_current i p heap = elim p.1 [
    | ok _ ↦ push (record { key = p.0.current_key; value = p.0.current_value; reader_idx = i }) heap
    | err x ↦ heap
    | panic ↦ heap
  ]

  -- the second loop of newMerger, which a panic ends
  unfoldable pub init_scanners :
      ℕ
      → List (Scanner B)
      → List MergeEntry
      → List (Scanner B) × List MergeEntry × Outcome Error Unit
  unfolding advance push_current drop_error and_also
  init_scanners i [] heap = ([], heap, ok tt)
  init_scanners i (s ∷ ss) heap =
      let p = advance crc32 s in
      let rest = init_scanners (suc i) ss (push_current i p heap) in
      (p.0 ∷ rest.0, rest.1, and_also (drop_error p.1) rest.2)

  -- the first loop of newMerger: a table that does not open is skipped
  unfoldable pub open_scanners :
      List (Outcome Sstable.Error (Reader B)) → Outcome Error (List (Scanner B))
  unfolding new_scanner
  open_scanners [] = ok []
  open_scanners (ok r ∷ rs) = elim (open_scanners rs) [
    | ok ss ↦ ok (new_scanner r ∷ ss)
    | err x ↦ err x
    | panic ↦ panic
  ]
  open_scanners (err e ∷ rs) = open_scanners rs
  open_scanners (panic ∷ rs) = panic

  -- newMerger from the scanners on
  unfoldable pub init_merger : Outcome Error (List (Scanner B)) → Outcome Error (Merger B)
  unfolding init_scanners and_also
  init_merger (ok ss) =
      let p = init_scanners 0 ss [] in and_also p.2 (ok (record { scanners = p.0; heap = p.1 }))
  init_merger (err x) = err x
  init_merger panic = panic

  -- newMerger
  unfoldable pub new_merger : List (Outcome Sstable.Error (Reader B)) → Outcome Error (Merger B)
  unfolding open_scanners init_merger
  new_merger readers = init_merger (open_scanners readers)

  -- the end of Next: the scanner of the entry moves on; a position out of range is a panic
  unfoldable pub move_on :
      Option (Scanner B) → MergeEntry → Merger B → Merger B × Outcome Error Unit
  unfolding advance set_scanner push_current drop_error
  move_on none x m = (m, panic)
  move_on (some s) x m =
      let p = advance crc32 s in
      (
        record {
          scanners = set_scanner x.reader_idx p.0 m.scanners;
          heap = push_current x.reader_idx p m.heap;
        },
        drop_error p.1,
      )

  -- Next, of the entries of the heap
  unfoldable pub next_from : List MergeEntry → Merger B → Merger B × Outcome Error (Bytes × Bytes)
  unfolding skip_key move_on and_also
  next_from [] m = (m, err merger_done)
  next_from (x ∷ heap) m =
      let rest = settle heap in
      let p =
        move_on (get_elem? m.scanners x.reader_idx) x
          (record m { heap = skip_key settle (length rest) x.key rest }) in
      (p.0, and_also p.1 (ok (x.key, x.value)))

  -- Next
  unfoldable pub next : Merger B → Merger B × Outcome Error (Bytes × Bytes)
  unfolding next_from
  next m = next_from m.heap m
