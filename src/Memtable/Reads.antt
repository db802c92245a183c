-- ===== src/Memtable/Reads.antt =====
-- What can be read after a Put or a Delete, and when they fail.
use crazygraphstore.Common.{
  ◌+◌, ◌≤◌, ◌≡◌, refl, sym, ◌∙◌, ◌++◌, append-nil, append_assoc, false, Option, none, some, [], ◌∷◌,
  arith, length, Bytes, bytes_eq, bytes_eq_iff, ok, err, inl, inr, panic, ◌≢◌, ◌↔◌, Bool-cases, ltb,
  if◌then◌else◌, bytes_eq_refl,
}
use crazygraphstore.Common.Maps.{Map, lookup, delete, lookup-insert, lookup-delete}
use crazygraphstore.Memtable.{
  Memtable, Error, store, put, get, bury, remove, entry_size, clear, delete_each, IsRange,
  append_entries, entries, frozen_write, empty_key, size_exceeded,
}

get-store :
    (k j v : Bytes) (o : Option (Option Bytes)) (m : Memtable)
    → get j (store k o v m).0 ≡ (if bytes_eq k j then some (some v) else get j m)
unfolding get store
get-store k j v none m = lookup-insert k j (some v) m.data_map
get-store k j v (some none) m = lookup-insert k j (some v) m.data_map
get-store k j v (some (some w)) m = lookup-insert k j (some v) m.data_map

get-bury :
    (k j : Bytes) (o : Option (Option Bytes)) (m : Memtable)
    → get j (bury k o m) ≡ (if bytes_eq k j then some none else get j m)
unfolding get bury
get-bury k j none m = lookup-insert k j none m.data_map
get-bury k j (some none) m = lookup-insert k j none m.data_map
get-bury k j (some (some w)) m = lookup-insert k j none m.data_map

-- After a successful Put, Get returns the new value at its key and the old result elsewhere.
pub get-put :
    (k j v : Bytes) (m : Memtable)
    → (put k v m).1 ≡ ok tt
    → get j (put k v m).0 ≡ (if bytes_eq k j then some (some v) else get j m)
unfolding put
get-put k j v m r = ground (arith, get-store k j v (lookup k m.data_map) m)

-- After a successful Delete, Get returns the tombstone at its key and the old result elsewhere.
pub get-remove :
    (k j : Bytes) (m : Memtable)
    → (remove k m).1 ≡ ok tt
    → get j (remove k m).0 ≡ (if bytes_eq k j then some none else get j m)
unfolding remove
get-remove k j m r = ground (arith, get-bury k j (lookup k m.data_map) m)

-- A Put that returns an error has changed nothing.
pub put-err : (k v : Bytes) (m : Memtable) (e : Error) → (put k v m).1 ≡ err e → (put k v m).0 ≡ m
unfolding put store
put-err k v m e r = ground arith

-- The outcome of Put on every branch.
pub put_outcome :
    (k v : Bytes) (m : Memtable)
    → (put k v m).1 ≡ (
        if m.frozen
        then err frozen_write
        else if bytes_eq k []
        then err empty_key
        else if ltb m.max_size (m.size + entry_size k v)
        then err size_exceeded
        else elim (get k m) [ some none ↦ panic | _ ↦ ok tt ])
unfolding put store get
put_outcome k v m = ground arith

-- Put panics exactly when all its checks pass and its key holds a tombstone.
pub put-panic_iff :
    (k v : Bytes) (m : Memtable)
    → ((put k v m).1 ≡ panic) ↔ (
        (m.frozen ≡ false)
        × (k ≢ [])
        × (m.size + entry_size k v ≤ m.max_size)
        × (get k m ≡ some none))
unfolding put store get
put-panic_iff k v m =
    (λ h. ground (arith, bytes_eq_iff k []), λ h. ground (arith, bytes_eq_iff k []))

-- On a table that is not frozen, Delete of a key that is not empty makes the next Put of the key
-- panic, provided there is room for the key and the entry.
pub put_after_remove :
    (k v : Bytes) (m : Memtable)
    → m.frozen ≡ false
    → k ≢ []
    → m.size + length k + entry_size k v ≤ m.max_size
    → (put k v (remove k m).0).1 ≡ panic
unfolding remove bury put store
put_after_remove k v m f n room =
    ground (arith, bytes_eq_iff k [], lookup-insert k k none m.data_map, bytes_eq_refl k)

delete_each-none :
    (k : Bytes) (l d : Map (Option Bytes)) → lookup k d ≡ none → lookup k (delete_each l d) ≡ none
unfolding delete_each
delete_each-none k [] d h = h
delete_each-none k ((j, o) ∷ l) d h =
    delete_each-none k l (delete j d) (ground (arith, lookup-delete j k d))

delete_each-visited :
    (k : Bytes) (l d : Map (Option Bytes))
    → (lookup k l ≡ none → lookup k d ≡ none)
    → lookup k (delete_each l d) ≡ none
unfolding delete_each
delete_each-visited k [] d h = unfold lookup in h refl
delete_each-visited k ((j, o) ∷ l) d h = delete_each-visited k l (delete j d) (λ e.
    elim (Bool-cases (bytes_eq j k)) [
      | inl same ↦ rw (lookup-delete j k d, same)
      | inr other ↦ rw (lookup-delete j k d, other) (h (unfold lookup in rw (other, e)))
    ])

module _ (range : Map (Option Bytes) → Map (Option Bytes)) (laws : IsRange range) where
  -- Whatever the order of Range: after Clear no key is left, the size is 0 and the table takes
  -- writes again.
  pub clear_lem :
      (m : Memtable) (k : Bytes)
      → (get k (clear range m) ≡ none)
        × ((clear range m).size ≡ 0)
        × ((clear range m).frozen ≡ false)
  unfolding clear get
  clear_lem m k = (
    delete_each-visited k (range m.data_map) m.data_map (λ e. rw (laws.visits k m.data_map) at e),
    refl,
    refl,
  )

append_entries_lem :
    (visited found : Map (Option Bytes)) → append_entries visited found ≡ found ++ visited
unfolding append_entries
append_entries_lem [] found = sym (append-nil found)
append_entries_lem ((key, none) ∷ visited) found =
    append_entries_lem visited (found ++ (key, none) ∷ [])
    ∙ append_assoc found ((key, none) ∷ []) visited
append_entries_lem ((key, some value) ∷ visited) found =
    append_entries_lem visited (found ++ (key, some value) ∷ [])
    ∙ append_assoc found ((key, some value) ∷ []) visited

-- Entries returns what Range visits, in that order, a tombstone with a nil value.
pub entries_lem :
    (range : Map (Option Bytes) → Map (Option Bytes)) (m : Memtable)
    → entries range m ≡ range m.data_map
unfolding entries
entries_lem range m = append_entries_lem (range m.data_map) []
