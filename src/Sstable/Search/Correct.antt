-- ===== src/Sstable/Search/Correct.antt =====
-- The binary search finds the first block whose last key is not below the key.
use crazygraphstore.Common.{
  ℕ, zero, suc, ◌+◌, ◌-◌, ◌/◌, ◌≤◌, ◌<◌, ◌≡◌, refl, ap, ◌∙◌, true, Option, none, some, List, [],
  ◌∷◌, arith, ltb, if◌then◌else◌, length, get_elem?, get_elem?_of_lt, All, All-get_elem?, Bytes,
  bytes_ltb, bytes_ltb_trans, ok, Bool-cases, inl, inr,
}
use mathlib.Core.Option
use crazygraphstore.Sstable.{BlockHandle, IndexEntry}
use crazygraphstore.Sstable.Search.{find_loop, handle_at, find_block}

-- The last keys of the blocks rise.
abbrev pub IndexIsSorted : List IndexEntry → Type 0
IndexIsSorted [] = Unit
IndexIsSorted (e ∷ es) = All (λ d. bytes_ltb e.key d.key ≡ true) es × IndexIsSorted es

-- The search done plainly: the first block whose last key is not below the key.
unfoldable pub first_block : List IndexEntry → Bytes → Option BlockHandle
first_block [] key = none
first_block (e ∷ es) key = if bytes_ltb e.key key then first_block es key else some e.handle

-- The number of blocks before it.
rank : List IndexEntry → Bytes → ℕ
rank [] key = 0
rank (e ∷ es) key = let n = rank es key in if bytes_ltb e.key key then suc n else 0

rank-le : (es : List IndexEntry) (key : Bytes) → rank es key ≤ length es
unfolding rank
rank-le [] key = omega arith
rank-le (e ∷ es) key = ground (arith, rank-le es key)

get-rank :
    (es : List IndexEntry) (key : Bytes)
    → Option.map (λ (e : IndexEntry). e.handle) (get_elem? es (rank es key)) ≡ first_block es key
unfolding rank first_block
get-rank [] key = refl
get-rank (e ∷ es) key = elim (Bool-cases (bytes_ltb e.key key)) [
  | inl h ↦ rw h (get-rank es key)
  | inr h ↦ rw h
]

-- In a sorted index the test of the loop tells on which side of the rank an entry stands.
rank_test :
    (es : List IndexEntry) (key : Bytes) (i : ℕ) (d : IndexEntry)
    → IndexIsSorted es
    → get_elem? es i ≡ some d
    → bytes_ltb d.key key ≡ ltb i (rank es key)
unfolding rank
rank_test [] key i d s h = cc
rank_test (e ∷ es) key zero d s h = ground arith
rank_test (e ∷ es) key (suc i) d s h = ground (
  arith,
  rank_test es key i d s.1 h,
  bytes_ltb_trans e.key d.key key,
  All-get_elem? (λ c. bytes_ltb e.key c.key ≡ true) es i d s.0 h,
)

find_loop-rank :
    (fuel : ℕ) (es : List IndexEntry) (key : Bytes) (left stop : ℕ)
    → IndexIsSorted es
    → left ≤ rank es key
    → rank es key ≤ stop
    → stop ≤ length es
    → stop < fuel + left
    → find_loop fuel es key left stop ≡ some (rank es key)
unfolding find_loop
find_loop-rank zero es key left stop s lo hi fits f = absurd (omega arith)
find_loop-rank (suc fuel) es key left stop s lo hi fits f = elim (Bool-cases (ltb left stop)) [
  | inr done ↦ rw done (ap some (ground arith))
  | inl more ↦
      let mid : ℕ = (left + stop - 1) / 2 in
      let inside : (left ≤ mid) × (mid < stop) = ground arith in
      let (d, at) = get_elem?_of_lt es mid (omega (arith, inside)) in
      let test = rank_test es key mid d s at in
      rw (more, at)
        (elim (Bool-cases (ltb mid (rank es key))) [
          | inl after ↦ rw (test ∙ after) (
              find_loop-rank fuel es key (mid + 1) stop s (ground arith) hi fits
                (omega (arith, inside)))
          | inr before ↦ rw (test ∙ before) (
              find_loop-rank fuel es key left mid s lo (ground arith) (omega (arith, inside))
                (omega (arith, inside)))
        ])
]

-- On an index with rising keys findBlock does not go out of range, and returns the handle of the
-- first block whose last key is not below the key, or nil if there is none.
pub find_block_lem :
    (es : List IndexEntry) (key : Bytes)
    → IndexIsSorted es
    → find_block es key ≡ ok (first_block es key)
unfolding find_block
find_block_lem es key s =
    ap (handle_at es) (
      find_loop-rank (suc (length es)) es key 0 (length es) s (omega arith) (rank-le es key)
        (omega arith) (omega arith))
    ∙ ap ok (get-rank es key)
