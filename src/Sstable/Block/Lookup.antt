-- ===== src/Sstable/Block/Lookup.antt =====
-- Searching and scanning a block that holds the entries of a sorted table.
use crazygraphstore.Common.{
  ℕ, zero, suc, ◌+◌, ◌≤◌, ◌<◌, ◌%◌, ◌^◌, ◌==◌, ◌≡◌, refl, ap, ◌∙◌, true, false, Option, some, List,
  [], ◌∷◌, ◌++◌, append_assoc, arith, leb, if◌then◌else◌, length, take, drop, length-append,
  take-append_of_length, drop-append_of_length, take_of_length-le, All, Bytes, bytes_eq,
  bytes_eq_iff, bytes_ltb, bytes_ltb_trans, bytes_ltb_irrefl, Outcome, ok, err, panic, Bool-cases,
  inl, inr,
}
use crazygraphstore.Common.Words.{put_le, get_le, length-put_le, get_le-put_le}
use crazygraphstore.Sstable.{not_in_block, key_deleted}
use crazygraphstore.Sstable.Block.{
  encode_entry, read_sized, read_entry, Found, found, failed, search_entry, search_loop,
  search_block, scan_entry, scan_loop, scan_block,
}

-- The lengths of an entry fit the file format.
abbrev pub IsSmall : Bytes × Bytes → Type 0
IsSmall (key, value) = length key + length value + 8 < 2 ^ 32

pub sized : Bytes → Bytes
sized text = put_le 4 (length text) ++ text

pub entry_text : Bytes × Bytes → Bytes
entry_text (key, value) = sized key ++ sized value

-- What Add appends to the block.
pub encode_entry_lem :
    (key value : Bytes)
    → IsSmall (key, value)
    → encode_entry key value ≡ ok (entry_text (key, value))
unfolding encode_entry entry_text sized
encode_entry_lem key value h =
    let k : length key % 2 ^ 32 ≡ length key = omega arith in
    let v : length value % 2 ^ 32 ≡ length value = omega arith in
    let fits : leb (2 ^ 32) (4 + length key + 4 + length value) ≡ false = ground arith in
    rw (
      k,
      v,
      fits,
      take_of_length-le (length key) key (omega arith),
      take_of_length-le (length value) value (omega arith),
      append_assoc,
    )

read-sized :
    (text rest : Bytes) → length text < 2 ^ 32 → read_sized (sized text ++ rest) ≡ some (text, rest)
unfolding sized read_sized
read-sized text rest h =
    let n : ℕ = length text in
    let front : take 4 (put_le 4 n ++ (text ++ rest)) ≡ put_le 4 n =
      take-append_of_length 4 (put_le 4 n) (text ++ rest) (length-put_le 4 n) in
    let back : drop 4 (put_le 4 n ++ (text ++ rest)) ≡ text ++ rest =
      drop-append_of_length 4 (put_le 4 n) (text ++ rest) (length-put_le 4 n) in
    let size : get_le (put_le 4 n) ≡ n = get_le-put_le 4 n (omega arith) in
    rw (append_assoc (put_le 4 n) text rest) (
      rw
        (
          front,
          back,
          size,
          take-append_of_length n text rest refl,
          drop-append_of_length n text rest refl,
        )
        (ground (
          arith,
          length-append (put_le 4 n) (text ++ rest),
          length-put_le 4 n,
          length-append text rest,
        )))

read_entry-text :
    (e : Bytes × Bytes) (rest : Bytes)
    → IsSmall e
    → read_entry (entry_text e ++ rest) ≡ some (e.0, e.1, rest)
unfolding entry_text read_entry
read_entry-text (key, value) rest h = rw (append_assoc (sized key) (sized value) rest) (
    rw (read-sized key (sized value ++ rest) (omega arith), read_entry)
      (rw (read-sized value rest (omega arith))))

-- The block that holds a list of entries.
unfoldable pub block_text : List (Bytes × Bytes) → Bytes
block_text [] = []
block_text (e ∷ es) = entry_text e ++ block_text es

pub entry_text_long :
    (e : Bytes × Bytes) (rest : Bytes) → length rest + 8 ≤ length (entry_text e ++ rest)
unfolding entry_text sized
entry_text_long (key, value) rest = simp (length-append, length-put_le) (omega arith)

-- The loops go on at an entry.
search_step :
    (fuel : ℕ) (key rest : Bytes)
    → 0 < length rest
    → search_loop (suc fuel) key rest ≡ search_entry key (read_entry rest) (search_loop fuel key)
unfolding search_loop
search_step fuel key [] h = absurd (omega arith)
search_step fuel key (b ∷ rest) h = refl

-- The keys rise from entry to entry.
abbrev pub IsSorted : List (Bytes × Bytes) → Type 0
IsSorted [] = Unit
IsSorted (e ∷ es) = All (λ d. bytes_ltb e.0 d.0 ≡ true) es × IsSorted es

-- What a table answers: the first entry with the key decides, and an empty value is a tombstone.
unfoldable pub find : Bytes → List (Bytes × Bytes) → Found
find key [] = failed not_in_block
find key (e ∷ es) =
    if bytes_eq e.0 key
    then if length e.1 == 0 then failed key_deleted else found e.1
    else find key es

find_below :
    (key : Bytes) (es : List (Bytes × Bytes))
    → All (λ d. bytes_ltb key d.0 ≡ true) es
    → find key es ≡ failed not_in_block
unfolding find
find_below key [] h = refl
find_below key (e ∷ es) h =
    ground (arith, find_below key es h.1, bytes_eq_iff e.0 key, bytes_ltb_irrefl key)

below-All :
    (key k : Bytes) (es : List (Bytes × Bytes))
    → bytes_ltb key k ≡ true
    → All (λ d. bytes_ltb k d.0 ≡ true) es
    → All (λ d. bytes_ltb key d.0 ≡ true) es
below-All key k [] h a = tt
below-All key k (e ∷ es) h a = (bytes_ltb_trans key k e.0 h a.0, below-All key k es h a.1)

-- One round of the search, given the rest of it. A larger key ends it early.
search_entry_lem :
    (key : Bytes) (e : Bytes × Bytes) (es : List (Bytes × Bytes)) (rest : Bytes)
    (next : Bytes → Found)
    → All (λ d. bytes_ltb e.0 d.0 ≡ true) es
    → next rest ≡ find key es
    → search_entry key (some (e.0, e.1, rest)) next ≡ find key (e ∷ es)
unfolding search_entry find
search_entry_lem key e es rest next above h = elim (Bool-cases (bytes_ltb key e.0)) [
  | inl below ↦ ground (arith, find_below key es (below-All key e.0 es below above))
  | inr other ↦ rw (other, h)
]

search_loop-text :
    (es : List (Bytes × Bytes)) (fuel : ℕ) (key : Bytes)
    → IsSorted es
    → All IsSmall es
    → length (block_text es) < fuel
    → search_loop fuel key (block_text es) ≡ find key es
unfolding block_text
search_loop-text es zero key sorted small h = absurd (omega arith)
search_loop-text [] (suc fuel) key sorted small h = unfold search_loop find in refl
search_loop-text (e ∷ es) (suc fuel) key sorted small h =
    let long = entry_text_long e (block_text es) in
    search_step fuel key _ (omega (arith, long))
    ∙ ap (λ (o : Option (Bytes × Bytes × Bytes)). search_entry key o (search_loop fuel key))
        (read_entry-text e (block_text es) small.0)
    ∙ search_entry_lem key e es (block_text es) (search_loop fuel key) sorted.0
        (search_loop-text es fuel key sorted.1 small.1 (omega (arith, long)))

-- In a block of entries with rising keys, whose lengths fit the format, searchBlock finds the value
-- of a key, reports the tombstone of a key whose value is empty, and reports every other key as not
-- found.
pub search_block-text :
    (es : List (Bytes × Bytes)) (key : Bytes)
    → IsSorted es
    → All IsSmall es
    → search_block (block_text es) key ≡ find key es
unfolding search_block
search_block-text es key sorted small =
    search_loop-text es (suc (length (block_text es))) key sorted small (omega arith)

module _ {E S : Type 0} (fn : Bytes → Bytes → S → S × Outcome E Unit) where
  -- The entries that are no tombstones, one after another, until `fn` fails.
  unfoldable pub visit : List (Bytes × Bytes) → S → S × Outcome E Unit
  visit [] s = (s, ok tt)
  visit (e ∷ es) s =
      if length e.1 == 0
      then visit es s
      else let (s', r) = fn e.0 e.1 s in
        elim r [ ok _ ↦ visit es s' | err x ↦ (s', err x) | panic ↦ (s', panic) ]

  scan_step :
      (fuel : ℕ) (rest : Bytes) (s : S)
      → 0 < length rest
      → scan_loop fn (suc fuel) rest s ≡ scan_entry fn (read_entry rest) (scan_loop fn fuel) s
  unfolding scan_loop
  scan_step fuel [] s h = absurd (omega arith)
  scan_step fuel (b ∷ rest) s h = refl

  scan_entry_lem :
      (e : Bytes × Bytes) (es : List (Bytes × Bytes)) (rest : Bytes)
      (next : Bytes → S → S × Outcome E Unit) (s : S)
      → ((s' : S) → next rest s' ≡ visit es s')
      → scan_entry fn (some (e.0, e.1, rest)) next s ≡ visit (e ∷ es) s
  unfolding scan_entry visit
  scan_entry_lem e es rest next s h = λ i.
      if length e.1 == 0 then h s i else elim (fn e.0 e.1 s).1 [
        | ok _ ↦ h (fn e.0 e.1 s).0 i
        | err x ↦ ((fn e.0 e.1 s).0, err x)
        | panic ↦ ((fn e.0 e.1 s).0, panic)
      ]

  scan_loop-text :
      (es : List (Bytes × Bytes)) (fuel : ℕ) (s : S)
      → All IsSmall es
      → length (block_text es) < fuel
      → scan_loop fn fuel (block_text es) s ≡ visit es s
  unfolding block_text
  scan_loop-text es zero s small h = absurd (omega arith)
  scan_loop-text [] (suc fuel) s small h = unfold scan_loop visit in refl
  scan_loop-text (e ∷ es) (suc fuel) s small h =
      let long = entry_text_long e (block_text es) in
      let rest : (s' : S) → scan_loop fn fuel (block_text es) s' ≡ visit es s' =
        λ s'. scan_loop-text es fuel s' small.1 (omega (arith, long)) in
      scan_step fuel _ s (omega (arith, long))
      ∙ ap (λ (o : Option (Bytes × Bytes × Bytes)). scan_entry fn o (scan_loop fn fuel) s)
          (read_entry-text e (block_text es) small.0)
      ∙ scan_entry_lem e es (block_text es) (scan_loop fn fuel) s rest

  -- In a block of entries whose lengths fit the format, scanBlock calls the function on exactly the
  -- entries that are no tombstones, in order, and ends with its first failure.
  pub scan_block-text :
      (es : List (Bytes × Bytes)) (s : S)
      → All IsSmall es
      → scan_block fn (block_text es) s ≡ visit es s
  unfolding scan_block
  scan_block-text es s small =
      scan_loop-text es (suc (length (block_text es))) s small (omega arith)
