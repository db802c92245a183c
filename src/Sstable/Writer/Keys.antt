-- ===== src/Sstable/Writer/Keys.antt =====
-- Entries in groups, one for each block, and an index that names the last key of each group.
use crazygraphstore.Common.{
  ℕ, suc, ◌<◌, ◌≡◌, refl, sym, ap, ◌∙◌, List, [], ◌∷◌, ◌++◌, append_assoc, append-nil, arith,
  length, Bytes,
}
use crazygraphstore.Sstable.{IndexEntry}
use crazygraphstore.Sstable.Format.{IsHandle}
use crazygraphstore.Sstable.Block.Lookup.{block_text, entry_text_long}

abbrev pub Pair : Type 0
Pair = Bytes × Bytes

abbrev pub last_key_of : List Pair → Bytes
last_key_of [] = []
last_key_of (e ∷ []) = e.0
last_key_of (e ∷ d ∷ es) = last_key_of (d ∷ es)

pub last_key_of-snoc : (es : List Pair) (e : Pair) → last_key_of (es ++ e ∷ []) ≡ e.0
last_key_of-snoc [] e = refl
last_key_of-snoc (d ∷ []) e = refl
last_key_of-snoc (d ∷ c ∷ es) e = last_key_of-snoc (c ∷ es) e

pub last_key_of-append :
    (es ds : List Pair) → 0 < length ds → last_key_of (es ++ ds) ≡ last_key_of ds
last_key_of-append [] ds h = refl
last_key_of-append (e ∷ []) [] h = absurd (omega arith)
last_key_of-append (e ∷ []) (d ∷ ds) h = refl
last_key_of-append (e ∷ c ∷ es) ds h = last_key_of-append (c ∷ es) ds h

abbrev pub texts : List (List Pair) → List Bytes
texts [] = []
texts (g ∷ gs) = block_text g ∷ texts gs

pub texts-snoc :
    (gs : List (List Pair)) (g : List Pair) → texts (gs ++ g ∷ []) ≡ texts gs ++ block_text g ∷ []
texts-snoc [] g = refl
texts-snoc (h ∷ gs) g = ap (◌∷◌ (block_text h)) (texts-snoc gs g)

abbrev pub flat : List (List Pair) → List Pair
flat [] = []
flat (g ∷ gs) = g ++ flat gs

pub flat-snoc : (gs : List (List Pair)) (g : List Pair) → flat (gs ++ g ∷ []) ≡ flat gs ++ g
flat-snoc [] g = append-nil g
flat-snoc (h ∷ gs) g =
    ap (λ (t : List Pair). h ++ t) (flat-snoc gs g) ∙ sym (append_assoc h (flat gs) g)

-- Each index entry has the last key of its block, which is not empty, and a handle that fits.
abbrev pub Keyed : List IndexEntry → List (List Pair) → Type 0
Keyed [] [] = Unit
Keyed (e ∷ es) (g ∷ gs) = (e.key ≡ last_key_of g) × (0 < length g) × IsHandle e.handle × Keyed es gs
Keyed [] (g ∷ gs) = ⊥
Keyed (e ∷ es) [] = ⊥

pub Keyed-snoc :
    (es : List IndexEntry) (gs : List (List Pair)) (e : IndexEntry) (g : List Pair)
    → Keyed es gs
    → (e.key ≡ last_key_of g) × (0 < length g) × IsHandle e.handle
    → Keyed (es ++ e ∷ []) (gs ++ g ∷ [])
Keyed-snoc [] [] e g h k = (k.0, k.1, k.2, tt)
Keyed-snoc (d ∷ es) (f ∷ gs) e g h k = (h.0, h.1, h.2, Keyed-snoc es gs e g h.3 k)
Keyed-snoc [] (f ∷ gs) e g h k = elim h [ ]
Keyed-snoc (d ∷ es) [] e g h k = elim h [ ]

pub block_text-empty : (es : List Pair) → length (block_text es) ≡ 0 → es ≡ []
unfolding block_text
block_text-empty [] h = refl
block_text-empty (e ∷ es) h = absurd (omega (arith, entry_text_long e (block_text es)))

pub some_text : (es : List Pair) (n : ℕ) → length (block_text es) ≡ suc n → 0 < length es
unfolding block_text
some_text [] n h = omega arith
some_text (e ∷ es) n h = omega arith
