-- ===== src/Sstable/Search.antt =====
-- pkg/sstable/reader.go: `findBlock`, the binary search over the cached index.
pub mod Correct
use crazygraphstore.Common.{
  ℕ, zero, suc, ◌+◌, ◌-◌, ◌/◌, Option, none, some, List, ltb, if◌then◌else◌, length, get_elem?,
  Bytes, bytes_ltb, Outcome, ok, err, panic,
}
use mathlib.Core.Option
use crazygraphstore.Sstable.{Error, BlockHandle, IndexEntry}

-- The loop of findBlock; `stop` is `right + 1`, since `right` may become -1. The result is the last
-- value of `left`; `none` is an index out of range, or the end of the fuel.
unfoldable pub find_loop : ℕ → List IndexEntry → Bytes → ℕ → ℕ → Option ℕ
find_loop zero index key left stop = none
find_loop (suc fuel) index key left stop =
    let mid = (left + stop - 1) / 2 in
    let lower = find_loop fuel index key left mid in
    let upper = find_loop fuel index key (mid + 1) stop in
    if ltb left stop
    then elim (get_elem? index mid) [
      | none ↦ none
      | some e ↦ if bytes_ltb e.key key then upper else lower
    ]
    else some left

-- the end of findBlock: a `left` behind the last block gives nil
unfoldable pub handle_at : List IndexEntry → Option ℕ → Outcome Error (Option BlockHandle)
handle_at index none = panic
handle_at index (some left) = ok (Option.map (λ (e : IndexEntry). e.handle) (get_elem? index left))

-- findBlock: `ok none` is nil, and `panic` an index out of range
unfoldable pub find_block : List IndexEntry → Bytes → Outcome Error (Option BlockHandle)
unfolding find_loop handle_at
find_block index key = handle_at index (find_loop (suc (length index)) index key 0 (length index))
