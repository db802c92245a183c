-- ===== src/Memtable.antt =====
-- pkg/memtable/memtable.go: `Memtable`. The proofs, and the adjacency lists, are in the children.
-- A value `none` is the nil that Delete stores: a tombstone. Sizes are int64 in the source and
-- plain numbers here; `Invariant` shows that no subtraction goes below zero.
pub mod Invariant
pub mod Reads
pub mod Frozen
pub mod Adjacency
pub mod Elements
use crazygraphstore.Common.{
  ℕ, ◌+◌, ◌-◌, Bool, true, false, Option, none, some, [], ltb, if◌then◌else◌, length, Bytes,
  bytes_eq, Outcome, ok, err, panic, ◌∷◌, ◌++◌, ◌≡◌,
}
use crazygraphstore.Common.Maps.{Map, lookup, insert, delete}

pub data Error : Type 0 where
  frozen_write empty_key size_exceeded frozen_delete : Error

pub record Memtable : Type 0 where
  pub data_map : Map (Option Bytes)
  pub size : ℕ
  pub max_size : ℕ
  pub frozen : Bool
  pub count : ℕ

-- New
unfoldable pub new : ℕ → Memtable
new max_size = record { data_map = []; size = 0; max_size = max_size; frozen = false; count = 0 }

abbrev pub entry_size : Bytes → Bytes → ℕ
entry_size key value = length key + length value

-- The end of Put, from LoadOrStore on; the second argument is what LoadOrStore found. On a
-- tombstone the new value is stored, and then `oldValue.([]byte)` panics.
unfoldable pub store :
    Bytes → Option (Option Bytes) → Bytes → Memtable → Memtable × Outcome Error Unit
store key none value m = (
  record m {
    data_map = insert key (some value) m.data_map;
    size = m.size + entry_size key value;
    count = m.count + 1;
  },
  ok tt,
)
store key (some (some old)) value m = (
  record m {
    data_map = insert key (some value) m.data_map;
    size = m.size + entry_size key value - entry_size key old;
  },
  ok tt,
)
store key (some none) value m = (record m { data_map = insert key (some value) m.data_map }, panic)

-- Put
unfoldable pub put : Bytes → Bytes → Memtable → Memtable × Outcome Error Unit
unfolding store
put key value m =
    if m.frozen
    then (m, err frozen_write)
    else if bytes_eq key []
    then (m, err empty_key)
    else if ltb m.max_size (m.size + entry_size key value)
    then (m, err size_exceeded)
    else store key (lookup key m.data_map) value m

-- Get: `none` is `nil, false`, and `some none` is the tombstone's `nil, true`.
unfoldable pub get : Bytes → Memtable → Option (Option Bytes)
get key m = lookup key m.data_map

-- The end of Delete, from Load on.
unfoldable pub bury : Bytes → Option (Option Bytes) → Memtable → Memtable
bury key none m = record m {
  data_map = insert key none m.data_map;
  size = m.size + length key;
  count = m.count + 1;
}
bury key (some (some old)) m = record m {
  data_map = insert key none m.data_map;
  size = m.size - length old;
}
bury key (some none) m = record m { data_map = insert key none m.data_map }

-- Delete
unfoldable pub remove : Bytes → Memtable → Memtable × Outcome Error Unit
unfolding bury
remove key m =
    if m.frozen then (m, err frozen_delete) else (bury key (lookup key m.data_map) m, ok tt)

-- Freeze
unfoldable pub freeze : Memtable → Memtable
freeze m = record m { frozen = true }

-- `sync.Map.Range` visits every key once, in no particular order: the order is a parameter.
pub record IsRange (range : Map (Option Bytes) → Map (Option Bytes)) : Type 0 where
  pub visits : (k : Bytes) (m : Map (Option Bytes)) → lookup k (range m) ≡ lookup k m
  pub once : (m : Map (Option Bytes)) → length (range m) ≡ length m

-- the loop of Entries, which appends to `entries`; an Entry is a key with its value, and `none` is
-- the slice that stays nil
unfoldable pub append_entries : Map (Option Bytes) → Map (Option Bytes) → Map (Option Bytes)
append_entries [] found = found
append_entries ((key, none) ∷ visited) found = append_entries visited (found ++ (key, none) ∷ [])
append_entries ((key, some value) ∷ visited) found =
    append_entries visited (found ++ (key, some value) ∷ [])

-- the loop of Clear
unfoldable pub delete_each : Map (Option Bytes) → Map (Option Bytes) → Map (Option Bytes)
delete_each [] data_map = data_map
delete_each ((k, _) ∷ visited) data_map = delete_each visited (delete k data_map)

module _ (range : Map (Option Bytes) → Map (Option Bytes)) where
  -- Entries
  unfoldable pub entries : Memtable → Map (Option Bytes)
  unfolding append_entries
  entries m = append_entries (range m.data_map) []

  -- Clear
  unfoldable pub clear : Memtable → Memtable
  unfolding delete_each
  clear m = record m {
    data_map = delete_each (range m.data_map) m.data_map;
    size = 0;
    count = 0;
    frozen = false;
  }
