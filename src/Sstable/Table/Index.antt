-- ===== src/Sstable/Table/Index.antt =====
-- The index of a table: its keys rise, its entries can be encoded, and Scan through it visits all.
use crazygraphstore.Common.{
  ℕ, ◌+◌, ◌≤◌, ◌<◌, ◌==◌, ◌^◌, ◌≡◌, refl, sym, ap, ◌∙◌, ◌⊎◌, inl, inr, true, List, [], ◌∷◌, ◌++◌,
  append-nil, arith, length, length-append, All, All-append, Bytes, bytes_ltb, Outcome, ok, err,
  panic, Bool-cases,
}
use crazygraphstore.Sstable.{Error, IndexEntry}
use crazygraphstore.Sstable.Block.Lookup.{IsSmall, IsSorted, block_text, visit, scan_block-text}
use crazygraphstore.Sstable.Search.Correct.{IndexIsSorted}
use crazygraphstore.Sstable.Writer.Keys.{Pair, last_key_of, texts, flat, Keyed}
use crazygraphstore.Sstable.Writer.Blocks.{AllRead}
use crazygraphstore.Sstable.Reader.{read_block, scan_after, scan_in, scan_all}
use crazygraphstore.Sstable.Reader.Open.{IsIndexEntry}
use crazygraphstore.Sstable.Table.Groups.{last-IsBelow, IsSorted-rest}

last_of :
    (P : Bytes → Type 0) (g : List Pair)
    → 0 < length g
    → All (λ (e : Pair). P e.0) g
    → P (last_key_of g)
last_of P [] h a = absurd (omega arith)
last_of P (e ∷ []) h a = a.0
last_of P (e ∷ d ∷ g) h a = last_of P (d ∷ g) (omega arith) a.1

-- What all keys have, the keys of the index have.
keys_of :
    (P : Bytes → Type 0) (ies : List IndexEntry) (gs : List (List Pair))
    → Keyed ies gs
    → All (λ (e : Pair). P e.0) (flat gs)
    → All (λ (e : IndexEntry). P e.key) ies
keys_of P [] [] k a = tt
keys_of P (e ∷ ies) (g ∷ gs) k a =
    let (here, there) = All-append (λ (d : Pair). P d.0) g (flat gs) a in
    (rw k.0 (last_of P g k.1 here), keys_of P ies gs k.3 there)
keys_of P [] (g ∷ gs) k a = elim k [ ]
keys_of P (e ∷ ies) [] k a = elim k [ ]

pub Keyed-IndexIsSorted :
    (ies : List IndexEntry) (gs : List (List Pair))
    → Keyed ies gs
    → IsSorted (flat gs)
    → IndexIsSorted ies
Keyed-IndexIsSorted [] [] k s = tt
Keyed-IndexIsSorted (e ∷ ies) (g ∷ gs) k s = (
  rw k.0 (
      keys_of (λ t. bytes_ltb (last_key_of g) t ≡ true) ies gs k.3
        (last-IsBelow g (flat gs) k.1 s)),
  Keyed-IndexIsSorted ies gs k.3 (IsSorted-rest g (flat gs) s),
)
Keyed-IndexIsSorted [] (g ∷ gs) k s = elim k [ ]
Keyed-IndexIsSorted (e ∷ ies) [] k s = elim k [ ]

handles_of :
    (ies : List IndexEntry) (gs : List (List Pair))
    → Keyed ies gs
    → All (λ (e : IndexEntry). length e.key + 20 < 2 ^ 32) ies
    → All IsIndexEntry ies
handles_of [] [] k a = tt
handles_of (e ∷ ies) (g ∷ gs) k a = ((a.0, k.2), handles_of ies gs k.3 a.1)
handles_of [] (g ∷ gs) k a = elim k [ ]
handles_of (e ∷ ies) [] k a = elim k [ ]

pub Keyed-IsIndexEntry :
    (ies : List IndexEntry) (gs : List (List Pair))
    → Keyed ies gs
    → All (λ (e : Pair). length e.0 + 20 < 2 ^ 32) (flat gs)
    → All IsIndexEntry ies
Keyed-IsIndexEntry ies gs k a =
    handles_of ies gs k (keys_of (λ t. length t + 20 < 2 ^ 32) ies gs k a)

-- There are no more blocks than entries.
pub Keyed-length :
    (ies : List IndexEntry) (gs : List (List Pair)) → Keyed ies gs → length ies ≤ length (flat gs)
Keyed-length [] [] k = omega arith
Keyed-length (e ∷ ies) (g ∷ gs) k =
    omega (arith, Keyed-length ies gs k.3, k.1, length-append g (flat gs))
Keyed-length [] (g ∷ gs) k = elim k [ ]
Keyed-length (e ∷ ies) [] k = elim k [ ]

module _ (crc32 : Bytes → ℕ) {E S : Type 0} (fn : Bytes → Bytes → S → S × Outcome E Unit) where
  -- An error of the function, as an error of Scan.
  unfoldable pub lifted : S × Outcome E Unit → S × Outcome (Error ⊎ E) Unit
  lifted p = elim p.1 [ ok _ ↦ (p.0, ok tt) | err x ↦ (p.0, err (inr x)) | panic ↦ (p.0, panic) ]

  after_call :
      (g rest : List Pair) (next : S → S × Outcome (Error ⊎ E) Unit)
      → ((s : S) → scan_after crc32 fn (visit fn g s) next ≡ lifted (visit fn rest s))
      → (s : S) (r : Outcome E Unit)
      → scan_after crc32 fn
          (elim r [ ok _ ↦ visit fn g s | err x ↦ (s, err x) | panic ↦ (s, panic) ])
          next
        ≡ lifted (elim r [ ok _ ↦ visit fn rest s | err x ↦ (s, err x) | panic ↦ (s, panic) ])
  after_call g rest next h s (ok tt) = h s
  after_call g rest next h s (err x) = unfold scan_after lifted in refl
  after_call g rest next h s panic = unfold scan_after lifted in refl

  scan_after-visit :
      (g rest : List Pair) (next : S → S × Outcome (Error ⊎ E) Unit)
      → ((s : S) → next s ≡ lifted (visit fn rest s))
      → (s : S) → scan_after crc32 fn (visit fn g s) next ≡ lifted (visit fn (g ++ rest) s)
  unfolding scan_after visit
  scan_after-visit [] rest next h s = h s
  scan_after-visit (e ∷ g) rest next h s = elim (Bool-cases (length e.1 == 0)) [
    | inl empty ↦ rw empty (scan_after-visit g rest next h s)
    | inr some_left ↦ rw some_left (
        after_call g (g ++ rest) next (scan_after-visit g rest next h) (fn e.0 e.1 s).0
          (fn e.0 e.1 s).1)
  ]

  -- Scan visits the entries of all blocks, one block after another.
  pub scan_all-visit :
      (file : Bytes) (ies : List IndexEntry) (gs : List (List Pair)) (s : S)
      → AllRead crc32 file ies (texts gs)
      → All IsSmall (flat gs)
      → scan_all crc32 fn file ies s ≡ lifted (visit fn (flat gs) s)
  unfolding scan_all
  scan_all-visit file [] [] s a m = unfold lifted visit in refl
  scan_all-visit file (e ∷ ies) (g ∷ gs) s a m =
      let read : read_block crc32 file e.handle ≡ ok (block_text g) =
        ap (λ (t : Bytes). read_block crc32 t e.handle) (sym (append-nil file)) ∙ a.0 [] in
      let (here, there) = All-append IsSmall g (flat gs) m in
      ap (λ (o : Outcome Error Bytes). scan_in crc32 fn o (scan_all crc32 fn file ies) s) read
      ∙ (unfold scan_in in
          ap (λ p. scan_after crc32 fn p (scan_all crc32 fn file ies))
            (scan_block-text fn g s here))
      ∙ scan_after-visit g (flat gs) (scan_all crc32 fn file ies)
          (λ s'. scan_all-visit file ies gs s' a.1 there) s
  scan_all-visit file [] (g ∷ gs) s a m = elim a [ ]
  scan_all-visit file (e ∷ ies) [] s a m = elim a [ ]
