-- ===== src/Sstable/Table/Groups.antt =====
-- Looking a key up through the index, and scanning all blocks.
use crazygraphstore.Common.{
  ℕ, ◌<◌, ◌≡◌, refl, sym, ap, ◌∙◌, ◌⊎◌, inl, inr, true, false, List, [], ◌∷◌, ◌++◌, append-nil,
  arith, length, All, All-append, Bytes, bytes_eq_iff, bytes_ltb, bytes_ltb_trans, bytes_ltb_irrefl,
  bytes_ltb_total, ok, err, Bool-cases,
}
use crazygraphstore.Sstable.{not_in_block, not_in_index, IndexEntry}
use crazygraphstore.Sstable.Block.{failed}
use crazygraphstore.Sstable.Block.Lookup.{IsSmall, IsSorted, block_text, find, search_block-text}
use crazygraphstore.Sstable.Search.Correct.{first_block}
use crazygraphstore.Sstable.Writer.Keys.{Pair, last_key_of, texts, flat, Keyed}
use crazygraphstore.Sstable.Writer.Blocks.{AllRead}
use crazygraphstore.Sstable.Reader.{Reader, read_block, answer, get_in}

abbrev IsBelow : Bytes → List Pair → Type 0
IsBelow k = All (λ (d : Pair). bytes_ltb k d.0 ≡ true)

find_past :
    (key : Bytes) (g rest : List Pair)
    → All (λ (d : Pair). bytes_ltb d.0 key ≡ true) g
    → find key (g ++ rest) ≡ find key rest
unfolding find
find_past key [] rest h = refl
find_past key (e ∷ g) rest h =
    ground (arith, find_past key g rest h.1, bytes_eq_iff e.0 key, bytes_ltb_irrefl key)

find_absent : (key : Bytes) (es : List Pair) → IsBelow key es → find key es ≡ failed not_in_block
unfolding find
find_absent key [] h = refl
find_absent key (e ∷ es) h =
    ground (arith, find_absent key es h.1, bytes_eq_iff e.0 key, bytes_ltb_irrefl key)

find_front :
    (key : Bytes) (g rest : List Pair) → IsBelow key rest → find key (g ++ rest) ≡ find key g
unfolding find
find_front key [] rest h = find_absent key rest h
find_front key (e ∷ g) rest h = ground (arith, find_front key g rest h)

-- The last key of sorted entries is the largest, and below what follows.
last_largest :
    (g rest : List Pair) (key : Bytes)
    → IsSorted (g ++ rest)
    → bytes_ltb (last_key_of g) key ≡ true
    → All (λ (d : Pair). bytes_ltb d.0 key ≡ true) g
last_largest [] rest key s h = tt
last_largest (e ∷ []) rest key s h = (h, tt)
last_largest (e ∷ d ∷ g) rest key s h =
    let more = last_largest (d ∷ g) rest key s.1 h in
    (bytes_ltb_trans e.0 d.0 key s.0.0 more.0, more)

pub last-IsBelow :
    (g rest : List Pair) → 0 < length g → IsSorted (g ++ rest) → IsBelow (last_key_of g) rest
last-IsBelow [] rest h s = absurd (omega arith)
last-IsBelow (e ∷ []) rest h s = s.0
last-IsBelow (e ∷ d ∷ g) rest h s = last-IsBelow (d ∷ g) rest (omega arith) s.1

IsBelow-trans :
    (k key : Bytes) (es : List Pair) → bytes_ltb k key ≡ false → IsBelow k es → IsBelow key es
IsBelow-trans k key [] n h = tt
IsBelow-trans k key (e ∷ es) n h = (step, IsBelow-trans k key es n h.1)
  where
    step : bytes_ltb key e.0 ≡ true
    step = elim (Bool-cases (bytes_ltb key k)) [
      | inl under ↦ bytes_ltb_trans key k e.0 under h.0
      | inr over ↦ rw (← bytes_ltb_total k key n over) h.0
    ]

pub IsSorted-rest : (g rest : List Pair) → IsSorted (g ++ rest) → IsSorted rest
IsSorted-rest [] rest s = s
IsSorted-rest (e ∷ g) rest s = IsSorted-rest g rest s.1

IsSorted-front : (g rest : List Pair) → IsSorted (g ++ rest) → IsSorted g
IsSorted-front [] rest s = tt
IsSorted-front (e ∷ g) rest s =
    ((All-append (λ (d : Pair). bytes_ltb e.0 d.0 ≡ true) g rest s.0).0, IsSorted-front g rest s.1)

module _ (crc32 : Bytes → ℕ) where
  -- What Get answers through the handle that findBlock returns.
  pub get_in-find :
      {B : Type 0} (key : Bytes) (r : Reader B) (ies : List IndexEntry) (gs : List (List Pair))
      → AllRead crc32 r.file ies (texts gs)
      → Keyed ies gs
      → IsSorted (flat gs)
      → All IsSmall (flat gs)
      → (get_in crc32 key r (first_block ies key) ≡ answer (find key (flat gs)))
        ⊎ ((get_in crc32 key r (first_block ies key) ≡ err not_in_index)
            × (find key (flat gs) ≡ failed not_in_block))
  unfolding first_block
  get_in-find key r [] [] a k s m = inr (unfold get_in in refl, unfold find in refl)
  get_in-find key r [] (g ∷ gs) a k s m = elim k [ ]
  get_in-find key r (e ∷ ies) [] a k s m = elim k [ ]
  get_in-find key r (e ∷ ies) (g ∷ gs) a k s m = elim (Bool-cases (bytes_ltb e.key key)) [
    | inl past ↦
        let all = last_largest g (flat gs) key s (rw (← k.0) past) in
        rw (past, find_past key g (flat gs) all)
          (get_in-find key r ies gs a.1 k.3 (IsSorted-rest g (flat gs) s)
            (All-append IsSmall g (flat gs) m).1)
    | inr here ↦
        let behind : IsBelow key (flat gs) =
          IsBelow-trans (last_key_of g) key (flat gs) (rw k.0 at here)
            (last-IsBelow g (flat gs) k.1 s) in
        let read : read_block crc32 r.file e.handle ≡ ok (block_text g) =
          ap (λ (t : Bytes). read_block crc32 t e.handle) (sym (append-nil r.file)) ∙ a.0 [] in
        inl (
          rw (here, find_front key g (flat gs) behind)
            (unfold get_in in
              rw read (
                ap answer (
                  search_block-text g key (IsSorted-front g (flat gs) s)
                    (All-append IsSmall g (flat gs) m).0))))
  ]
