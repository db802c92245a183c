-- ===== src/Sstable/Block.antt =====
-- pkg/sstable/writer.go and reader.go: the entries of a data block, and the loops over them. A loop
-- holds the bytes from its offset on; `stuck` is no Go outcome, its fuel ran out.
pub mod Lookup
use crazygraphstore.Common.{
  ℕ, zero, suc, ◌+◌, ◌%◌, ◌^◌, ◌==◌, Option, none, some, List, [], ◌∷◌, ◌++◌, ltb, leb,
  if◌then◌else◌, length, take, drop, Bytes, bytes_eq, bytes_ltb, Outcome, ok, err, panic,
}
use crazygraphstore.Common.Words.{put_le, get_le}
use crazygraphstore.Sstable.{Error, not_in_block, key_deleted}

-- the encoding of an entry in Add of Writer: where the uint32 `entrySize` wraps, a slice of the
-- buffer is out of range
unfoldable pub encode_entry : Bytes → Bytes → Outcome Error Bytes
encode_entry key value =
    let key_len = length key % 2 ^ 32 in
    let value_len = length value % 2 ^ 32 in
    if leb (2 ^ 32) (4 + key_len + 4 + value_len)
    then panic
    else ok (put_le 4 key_len ++ (take key_len key ++ (put_le 4 value_len ++ take value_len value)))

-- One length and the bytes behind it, as the loops of searchBlock and scanBlock read a key and a
-- value: `none` is a break.
unfoldable pub read_sized : Bytes → Option (Bytes × Bytes)
read_sized rest =
    if ltb (length rest) 4
    then none
    else if ltb (length (drop 4 rest)) (get_le (take 4 rest))
    then none
    else some (take (get_le (take 4 rest)) (drop 4 rest), drop (get_le (take 4 rest)) (drop 4 rest))

-- One entry: its key, its value and what follows.
unfoldable pub read_entry : Bytes → Option (Bytes × Bytes × Bytes)
unfolding read_sized
read_entry rest = elim (read_sized rest) [
  | none ↦ none
  | some (key, rest') ↦ elim (read_sized rest') [
    | none ↦ none
    | some (value, rest'') ↦ some (key, value, rest'')
  ]
]

-- What searchBlock returns. `stuck` is no Go outcome: the fuel of the loop ran out.
pub data Found : Type 0 where
  found : Bytes → Found
  failed : Error → Found
  stuck : Found

-- the tests of searchBlock on one entry; `next` is the rest of the loop
unfoldable pub search_entry : Bytes → Option (Bytes × Bytes × Bytes) → (Bytes → Found) → Found
search_entry key none next = failed not_in_block
search_entry key (some (entry_key, value, rest)) next =
    if bytes_eq entry_key key
    then if length value == 0 then failed key_deleted else found value
    else if bytes_ltb key entry_key
    then failed not_in_block
    else next rest

-- the loop of searchBlock
unfoldable pub search_loop : ℕ → Bytes → Bytes → Found
unfolding search_entry read_entry
search_loop zero key rest = stuck
search_loop (suc fuel) key [] = failed not_in_block
search_loop (suc fuel) key (b ∷ rest) =
    search_entry key (read_entry (b ∷ rest)) (search_loop fuel key)

-- searchBlock: each round takes eight bytes or more
unfoldable pub search_block : Bytes → Bytes → Found
unfolding search_loop
search_block block key = search_loop (suc (length block)) key block

-- the body of the loop of scanBlock; `fn` may fail, and is not called on a tombstone
module _ {E S : Type 0} (fn : Bytes → Bytes → S → S × Outcome E Unit) where
  unfoldable pub scan_entry :
      Option (Bytes × Bytes × Bytes) → (Bytes → S → S × Outcome E Unit) → S → S × Outcome E Unit
  scan_entry none next s = (s, ok tt)
  scan_entry (some (key, value, rest)) next s =
      if length value == 0
      then next rest s
      else let (s', r) = fn key value s in
        elim r [ ok _ ↦ next rest s' | err e ↦ (s', err e) | panic ↦ (s', panic) ]

  -- the loop of scanBlock
  unfoldable pub scan_loop : ℕ → Bytes → S → S × Outcome E Unit
  unfolding scan_entry read_entry
  scan_loop zero rest s = (s, panic)
  scan_loop (suc fuel) [] s = (s, ok tt)
  scan_loop (suc fuel) (b ∷ rest) s = scan_entry (read_entry (b ∷ rest)) (scan_loop fuel) s

  -- scanBlock
  unfoldable pub scan_block : Bytes → S → S × Outcome E Unit
  unfolding scan_loop
  scan_block block = scan_loop (suc (length block)) block
