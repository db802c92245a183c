-- ===== src/Compaction/Stranded.antt =====
-- Next drops the heap entry of another reader with the same key and does not move that reader on.
use crazygraphstore.Common.{
  ℕ, zero, suc, ◌≡◌, ◌≢◌, refl, ap, ◌∙◌, Option, none, some, List, [], ◌∷◌, length, get_elem?, All,
  Bytes, Outcome, ok, err, panic, bytes_eq, bytes_eq_iff, arith, if_rule,
}
use crazygraphstore.Compaction.Merger.{
  Error, MergeEntry, Scanner, Merger, advance, set_scanner, push_current, skip_key, move_on,
  next_from, next,
}

abbrev pub NotOf : ℕ → MergeEntry → Type 0
NotOf j x = x.reader_idx ≢ j

-- What the heap library does not change: which entries there are.
pub record KeepsEntries (push : MergeEntry → List MergeEntry → List MergeEntry)
    (settle : List MergeEntry → List MergeEntry) : Type 1 where
  pub pushed :
      (P : MergeEntry → Type 0) (x : MergeEntry) (heap : List MergeEntry)
      → P x
      → All P heap
      → All P (push x heap)
  pub settled :
      (P : MergeEntry → Type 0) (heap : List MergeEntry) → All P heap → All P (settle heap)

get_elem?-set_scanner :
    {B : Type 0} (i j : ℕ) (s : Scanner B) (ss : List (Scanner B))
    → i ≢ j
    → get_elem? (set_scanner i s ss) j ≡ get_elem? ss j
unfolding set_scanner
get_elem?-set_scanner i j s [] h = refl
get_elem?-set_scanner zero zero s (t ∷ ss) h = absurd (h refl)
get_elem?-set_scanner zero (suc j) s (t ∷ ss) h = refl
get_elem?-set_scanner (suc i) zero s (t ∷ ss) h = refl
get_elem?-set_scanner (suc i) (suc j) s (t ∷ ss) h =
    get_elem?-set_scanner i j s ss (λ e. h (ap suc e))

module _ (push : MergeEntry → List MergeEntry → List MergeEntry)
    (settle : List MergeEntry → List MergeEntry) (keeps : KeepsEntries push settle) where
  skip_key-All :
      (P : MergeEntry → Type 0) (fuel : ℕ) (key : Bytes) (heap : List MergeEntry)
      → All P heap
      → All P (skip_key settle fuel key heap)
  unfolding skip_key
  skip_key-All P zero key heap h = h
  skip_key-All P (suc fuel) key [] h = tt
  skip_key-All P (suc fuel) key (x ∷ heap) h =
      if_rule (All P) (bytes_eq x.key key)
        (λ _. skip_key-All P fuel key (settle heap) (keeps.settled P heap h.1)) λ _. h

  -- A first entry with the key is dropped.
  skip_key-first :
      (P : MergeEntry → Type 0) (fuel : ℕ) (key : Bytes) (x : MergeEntry) (heap : List MergeEntry)
      → x.key ≡ key
      → All P heap
      → All P (skip_key settle (suc fuel) key (x ∷ heap))
  unfolding skip_key
  skip_key-first P fuel key x heap same h =
      if_rule (All P) (bytes_eq x.key key)
        (λ _. skip_key-All P fuel key (settle heap) (keeps.settled P heap h))
        λ other. absurd (ground (arith, other, bytes_eq_iff x.key key, same))

  module _ (crc32 : Bytes → ℕ) {B : Type 0} where
    -- No entry of the heap comes from the reader.
    pub IsStranded : ℕ → Merger B → Type 0
    IsStranded j m = All (NotOf j) m.heap

    -- The merger after some calls of Next.
    pub after_next : ℕ → Merger B → Merger B
    after_next zero m = m
    after_next (suc n) m = after_next n (next push settle crc32 m).0

    push_current-Stranded :
        (j i : ℕ) (p : Scanner B × Outcome Error Unit) (heap : List MergeEntry)
        → i ≢ j
        → All (NotOf j) heap
        → All (NotOf j) (push_current push settle crc32 i p heap)
    unfolding push_current
    push_current-Stranded j i (s, ok _) heap other h = keeps.pushed (NotOf j) _ heap other h
    push_current-Stranded j i (s, err x) heap other h = h
    push_current-Stranded j i (s, panic) heap other h = h

    move_on-Stranded :
        (j : ℕ) (o : Option (Scanner B)) (x : MergeEntry) (m : Merger B)
        → NotOf j x
        → IsStranded j m
        → IsStranded j (move_on push settle crc32 o x m).0
          × (get_elem? (move_on push settle crc32 o x m).0.scanners j ≡ get_elem? m.scanners j)
    unfolding move_on IsStranded
    move_on-Stranded j none x m other h = (h, refl)
    move_on-Stranded j (some s) x m other h = (
      push_current-Stranded j x.reader_idx (advance crc32 s) m.heap other h,
      get_elem?-set_scanner x.reader_idx j (advance crc32 s).0 m.scanners other,
    )

    next_from-Stranded :
        (j : ℕ) (x : MergeEntry) (heap : List MergeEntry) (m : Merger B)
        → NotOf j x
        → All (NotOf j) (skip_key settle (length (settle heap)) x.key (settle heap))
        → IsStranded j (next_from push settle crc32 (x ∷ heap) m).0
          × (get_elem? (next_from push settle crc32 (x ∷ heap) m).0.scanners j
              ≡ get_elem? m.scanners j)
    unfolding next_from
    next_from-Stranded j x heap m other h =
        move_on-Stranded j (get_elem? m.scanners x.reader_idx) x
          (record m { heap = skip_key settle (length (settle heap)) x.key (settle heap) }) other
          (unfold IsStranded in h)

    next-Stranded :
        (j : ℕ) (m : Merger B)
        → IsStranded j m
        → IsStranded j (next push settle crc32 m).0
          × (get_elem? (next push settle crc32 m).0.scanners j ≡ get_elem? m.scanners j)
    unfolding next
    next-Stranded j m h = go m.heap (unfold IsStranded in h)
      where
        go :
            (heap : List MergeEntry)
            → All (NotOf j) heap
            → IsStranded j (next_from push settle crc32 heap m).0
              × (get_elem? (next_from push settle crc32 heap m).0.scanners j
                  ≡ get_elem? m.scanners j)
        go [] a = (h, unfold next_from in refl)
        go (x ∷ heap) a =
            next_from-Stranded j x heap m a.0
              (skip_key-All (NotOf j) _ x.key (settle heap) (keeps.settled (NotOf j) heap a.1))

    after_next-Stranded :
        (n j : ℕ) (m : Merger B)
        → IsStranded j m
        → get_elem? (after_next n m).scanners j ≡ get_elem? m.scanners j
    unfolding after_next
    after_next-Stranded zero j m h = refl
    after_next-Stranded (suc n) j m h =
        let (still, same) = next-Stranded j m h in
        after_next-Stranded n j (next push settle crc32 m).0 still ∙ same

    -- Let two entries of the heap have the same key and come from two readers: the first entry, and
    -- the one that is first after it was popped, which is the only one of its reader. Then Next
    -- drops the second, and however often Next is called, from now on its reader is never moved on:
    -- the entries that it has left do not come out.
    pub next_strands :
        (n : ℕ) (x y : MergeEntry) (heap rest : List MergeEntry) (m : Merger B)
        → m.heap ≡ x ∷ heap
        → settle heap ≡ y ∷ rest
        → y.key ≡ x.key
        → x.reader_idx ≢ y.reader_idx
        → All (NotOf y.reader_idx) rest
        → get_elem? (after_next (suc n) m).scanners y.reader_idx ≡ get_elem? m.scanners y.reader_idx
    unfolding after_next next
    next_strands n x y heap rest m first second same other only =
        let j : ℕ = y.reader_idx in
        let left : All (NotOf j) (skip_key settle (length (settle heap)) x.key (settle heap)) =
          rw second (skip_key-first (NotOf j) (length rest) x.key y rest same only) in
        let (stranded, kept) = next_from-Stranded j x heap m other left in
        rw first
          (after_next-Stranded n j (next_from push settle crc32 (x ∷ heap) m).0 stranded ∙ kept)
