-- ===== src/Cache.antt =====
-- pkg/cache/lru.go: `LRUCache`. Values have any type, and sizes are int64 that are not negative.
-- `items` holds the keys of the Go map; the element that a key maps to is the one of `evict_list`
-- whose entry has the key, as `Invariant` shows. The front of the list comes first.
pub mod Lists
pub mod Invariant
pub mod Calls
pub mod Eviction
pub mod Levels
use crazygraphstore.Common.{
  ℕ, zero, suc, ◌+◌, ◌-◌, ◌%◌, ◌^◌, Bool, true, false, ◌&&◌, Option, none, some, List, [], ◌∷◌, ltb,
  if◌then◌else◌, length, Bytes, bytes_eq, Outcome, ok, err,
}
use crazygraphstore.Common.Maps.{Map, lookup, insert, delete}
use crazygraphstore.Common.Words.{inc64}

pub data Error : Type 0 where
  entry_too_large : Error

pub record Entry (V : Type 0) : Type 0 where
  pub key : Bytes
  pub value : V
  pub size : ℕ
  pub version : ℕ

pub record Cache (V : Type 0) : Type 0 where
  pub max_size : ℕ
  pub current_size : ℕ
  pub items : Map (Unit {0})
  pub evict_list : List (Entry V)
  pub hits : ℕ
  pub misses : ℕ
  pub evictions : ℕ

module _ {V : Type 0} where
  -- NewLRUCache
  unfoldable pub new : ℕ → Cache V
  new max_size = record {
    max_size = max_size;
    current_size = 0;
    items = [];
    evict_list = [];
    hits = 0;
    misses = 0;
    evictions = 0;
  }

  -- The entry of the element that `items[key]` points to.
  unfoldable pub find_entry : Bytes → List (Entry V) → Option (Entry V)
  find_entry key [] = none
  find_entry key (e ∷ es) = if bytes_eq e.key key then some e else find_entry key es

  -- The entry of an element, where the map has the key.
  unfoldable pub element_at : Option (Unit {0}) → Option (Entry V) → Option (Entry V)
  element_at none e = none
  element_at (some _) e = e

  -- `elem, ok := c.items[key]`, with the entry of the element
  unfoldable pub element_of : Bytes → Cache V → Option (Entry V)
  unfolding find_entry element_at
  element_of key c = element_at (lookup key c.items) (find_entry key c.evict_list)

  -- Get from the element on
  unfoldable pub get_found : Option (Entry V) → Cache V → Cache V × Option V
  get_found none c = (record c { misses = inc64 c.misses }, none)
  get_found (some e) c = (record c { hits = inc64 c.hits }, some e.value)

  -- Get
  unfoldable pub get : Bytes → Cache V → Cache V × Option V
  unfolding get_found element_of
  get key c = get_found (element_of key c) c

  -- Remove of the list, for the element whose entry has the key
  unfoldable pub remove_entry : Bytes → List (Entry V) → List (Entry V)
  remove_entry key [] = []
  remove_entry key (e ∷ es) =
      let rest = remove_entry key es in if bytes_eq e.key key then es else e ∷ rest

  -- removeElement
  unfoldable pub remove_element : Entry V → Cache V → Cache V
  unfolding remove_entry
  remove_element e c = record c {
    evict_list = remove_entry e.key c.evict_list;
    items = delete e.key c.items;
    current_size = c.current_size - e.size;
  }

  -- Back of the list
  unfoldable pub back : List (Entry V) → Option (Entry V)
  back [] = none
  back (e ∷ []) = some e
  back (e ∷ d ∷ es) = back (d ∷ es)

  -- evictOldest, of the element at the back
  unfoldable pub evict : Option (Entry V) → Cache V → Cache V
  unfolding remove_element
  evict none c = c
  evict (some e) c = let c' = remove_element e c in record c' { evictions = inc64 c'.evictions }

  -- evictOldest
  unfoldable pub evict_oldest : Cache V → Cache V
  unfolding evict back
  evict_oldest c = evict (back c.evict_list) c

  -- `currentSize.Load()+size > maxSize`, where a sum of int64 that overflows is negative
  unfoldable pub is_over : ℕ → Cache V → Bool
  is_over extra c =
      let sum = (c.current_size + extra) % 2 ^ 64 in ltb sum (2 ^ 63) && ltb c.max_size sum

  -- the loops of Put and Resize: they go on while `extra` more bytes do not fit and the list is not
  -- empty, which is as many rounds as the list is long or fewer
  unfoldable pub evict_loop : ℕ → ℕ → Cache V → Cache V
  unfolding evict_oldest is_over
  evict_loop zero extra c = c
  evict_loop (suc fuel) extra c =
      let rest = evict_loop fuel extra (evict_oldest c) in
      if is_over extra c && ltb 0 (length c.evict_list) then rest else c

  unfoldable pub make_room : ℕ → Cache V → Cache V
  unfolding evict_loop
  make_room extra c = evict_loop (length c.evict_list) extra c

  -- Put of a key that is there: the entry moves to the front.
  unfoldable pub update : Entry V → V → ℕ → Cache V → Cache V
  unfolding remove_entry
  update e value size c = record c {
    evict_list =
        record e { value = value; size = size; version = inc64 e.version }
        ∷ remove_entry e.key c.evict_list;
    current_size = c.current_size + size - e.size;
  }

  -- Put of a new key after room was made
  unfoldable pub add : Bytes → V → ℕ → Cache V → Cache V × Outcome Error Unit
  add key value size c = if ltb c.max_size size then (c, err entry_too_large) else (
    record c {
      evict_list = record { key = key; value = value; size = size; version = 1 } ∷ c.evict_list;
      items = insert key tt c.items;
      current_size = c.current_size + size;
    },
    ok tt,
  )

  -- Put from the element on
  unfoldable pub put_found :
      Option (Entry V) → Bytes → V → ℕ → Cache V → Cache V × Outcome Error Unit
  unfolding update add make_room
  put_found (some e) key value size c = (update e value size c, ok tt)
  put_found none key value size c = add key value size (make_room size c)

  -- Put
  unfoldable pub put : Bytes → V → ℕ → Cache V → Cache V × Outcome Error Unit
  unfolding put_found element_of
  put key value size c = put_found (element_of key c) key value size c

  -- Invalidate from the element on
  unfoldable pub invalidate_found : Option (Entry V) → Cache V → Cache V
  unfolding remove_element
  invalidate_found none c = c
  invalidate_found (some e) c = remove_element e c

  -- Invalidate
  unfoldable pub invalidate : Bytes → Cache V → Cache V
  unfolding invalidate_found element_of
  invalidate key c = invalidate_found (element_of key c) c

  -- Clear
  unfoldable pub clear : Cache V → Cache V
  clear c = record c { items = []; evict_list = []; current_size = 0 }

  -- Resize
  unfoldable pub resize : ℕ → Cache V → Cache V
  unfolding make_room
  resize new_size c = make_room 0 (record c { max_size = new_size })

  -- Peek
  unfoldable pub peek : Bytes → Cache V → Option V
  unfolding element_of
  peek key c = elim (element_of key c) [ none ↦ none | some e ↦ some e.value ]
