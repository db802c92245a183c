-- ===== src/Tests/Caches.antt =====
-- The LRU cache.
use crazygraphstore.Common.{
  ℕ, ◌+◌, ◌≤◌, ◌≡◌, refl, none, some, List, [], ◌∷◌, ◌++◌, arith, if◌then◌else◌, Bytes, bytes_eq,
  ok, err,
}
use crazygraphstore.Common.Maps.{lookup, insert, delete}
use crazygraphstore.Cache.{
  Entry, Cache, entry_too_large, new, find_entry, element_at, element_of, get_found, get,
  remove_entry, remove_element, back, evict, evict_oldest, is_over, evict_loop, make_room, update,
  add, put_found, put, resize, peek,
}
use crazygraphstore.Cache.Invariant.{IsValid, updated}
use crazygraphstore.Cache.Calls.{
  Call, apply, get_call, put_call, invalidate_call, resize_call, run, run-IsValid,
}
use crazygraphstore.Cache.Eviction.{put_new_key, put_too_large, put_update}

program : Unit {0}
unfolding bytes_eq lookup insert delete new find_entry element_at element_of get_found get
    remove_entry remove_element back evict evict_oldest is_over evict_loop make_room update add
    put_found put resize peek updated run apply
program = tt

abbrev a : Bytes
a = b'a' ∷ []

abbrev b : Bytes
b = b'b' ∷ []

abbrev c : Bytes
c = b'c' ∷ []

-- Two entries in a cache for ten bytes.
abbrev two : Cache ℕ
two = run (put_call a 1 4 ∷ put_call b 2 5 ∷ get_call a ∷ []) (new 10)

two-IsValid : IsValid two
two-IsValid = run-IsValid 10 (put_call a 1 4 ∷ put_call b 2 5 ∷ get_call a ∷ [])

-- Get does not move an entry: the third entry evicts the one that was put first, though it was read
-- last.
put_evicts_read : (peek a (put c 3 3 two).0 ≡ none) × (peek b (put c 3 3 two).0 ≡ some 2)
unfolding program
put_evicts_read = (refl, refl)

c_absent : element_of c two ≡ none
unfolding program
c_absent = refl

abbrev a_entry : Entry ℕ
a_entry = record { key = a; value = 1; size = 4; version = 1 }

a_present : element_of a two ≡ some a_entry
unfolding program
a_present = refl

two_size : (two.max_size ≡ 10) × (two.current_size ≡ 9)
unfolding program
two_size = (refl, refl)

abbrev calls : List (Call ℕ)
calls = put_call a 1 4 ∷ put_call a 2 8 ∷ invalidate_call a ∷ resize_call 3 ∷ []

run-IsValid_example : IsValid (run calls (new 10))
run-IsValid_example = run-IsValid 10 calls

put_new_key_example :
    ((put c 3 3 two).1 ≡ ok tt)
    × ((put c 3 3 two).0.current_size ≤ two.max_size)
    × (kept dropped : List (Entry ℕ)) × (two.evict_list ≡ kept ++ dropped)
    × ((put c 3 3 two).0.evict_list ≡ record { key = c; value = 3; size = 3; version = 1 } ∷ kept)
put_new_key_example =
    put_new_key c 3 3 two two-IsValid c_absent (omega (arith, two_size.0))
      (omega (arith, two_size.1))

put_too_large_example :
    ((put c 3 11 two).1 ≡ err entry_too_large) × ((put c 3 11 two).0.evict_list ≡ [])
put_too_large_example =
    put_too_large c 3 11 two two-IsValid c_absent (omega (arith, two_size.0))
      (omega (arith, two_size.1))

-- The size is 12 afterwards, in a cache for ten.
put_update_example :
    ((put a 7 7 two).1 ≡ ok tt)
    × ((put a 7 7 two).0.current_size + a_entry.size ≡ two.current_size + 7)
    × ((k : Bytes)
        → element_of k (put a 7 7 two).0
          ≡ (if bytes_eq a k then some (updated a_entry 7 7) else element_of k two))
put_update_example = put_update a 7 7 two a_entry two-IsValid a_present
