-- ===== src/Memtable/Invariant.antt =====
-- The counters of a memtable agree with its contents after every operation.
use crazygraphstore.Common.{
  ℕ, ◌+◌, ◌-◌, ◌≤◌, ◌≡◌, refl, Option, none, some, [], ◌∷◌, arith, length, Bytes, bytes_eq,
  bytes_eq_iff, Outcome, ok, panic, ◌≢◌, ltb, if_rule,
}
use crazygraphstore.Common.Maps.{
  Map, lookup, insert, IsDistinct, insert-IsDistinct, total, total-insert_new, total-insert_old,
  length-insert_new, length-insert_old,
}
use crazygraphstore.Memtable.{Memtable, Error, new, store, put, get, bury, remove, entry_size}

-- What an entry counts for: a tombstone counts for its key alone.
abbrev pub weight : Bytes → Option Bytes → ℕ
weight k none = length k
weight k (some v) = length k + length v

pub record IsValid (m : Memtable) : Type 0 where
  pub distinct : IsDistinct m.data_map
  pub sized : m.size ≡ total weight m.data_map
  pub counted : m.count ≡ length m.data_map

pub IsValid-new : (max_size : ℕ) → IsValid (new max_size)
unfolding new
IsValid-new max_size = record { distinct = tt; sized = refl; counted = refl }

module _ (k : Bytes) (m : Memtable) (h : IsValid m) where
  open m use {data_map}

  -- One more entry, and an entry with a new value.
  grown :
      (o : Option Bytes)
      → lookup k data_map ≡ none
      → IsValid (record m {
        data_map = insert k o data_map;
        size = m.size + weight k o;
        count = m.count + 1;
      })
  grown o e = record {
    distinct = insert-IsDistinct k o data_map h.distinct;
    sized = omega (arith, h.sized, total-insert_new weight k o data_map e);
    counted = omega (arith, h.counted, length-insert_new k o data_map e);
  }

  changed :
      (o u : Option Bytes) (size : ℕ)
      → lookup k data_map ≡ some u
      → size ≡ m.size + weight k o - weight k u
      → IsValid (record m { data_map = insert k o data_map; size = size })
  changed o u size e s = record {
    distinct = insert-IsDistinct k o data_map h.distinct;
    sized = omega (arith, s, h.sized, total-insert_old weight k o u data_map e);
    counted = omega (arith, h.counted, length-insert_old k o u data_map e);
  }

  -- A panic leaves a table whose size no longer counts the value that it stored.
  store-IsValid :
      (v : Bytes) (o : Option (Option Bytes))
      → lookup k data_map ≡ o
      → (store k o v m).1 ≢ panic
      → IsValid (store k o v m).0
  unfolding store
  store-IsValid v none e r = grown (some v) e
  store-IsValid v (some (some w)) e r = changed (some v) (some w) _ e (omega arith)
  store-IsValid v (some none) e r = absurd (r refl)

  bury-IsValid : (o : Option (Option Bytes)) → lookup k data_map ≡ o → IsValid (bury k o m)
  unfolding bury
  bury-IsValid none e = grown none e
  bury-IsValid (some (some w)) e = changed none (some w) _ e (omega arith)
  bury-IsValid (some none) e = changed none none _ e (omega arith)

-- A Put that does not panic leaves counters that agree with the contents, whether it succeeds or
-- returns an error.
pub put-IsValid :
    (k v : Bytes) (m : Memtable) → IsValid m → (put k v m).1 ≢ panic → IsValid (put k v m).0
unfolding put
put-IsValid k v m h =
    let P : Memtable × Outcome Error Unit → Type 0 = λ s. s.1 ≢ panic → IsValid s.0 in
    if_rule P m.frozen (λ _ _. h)
      λ _.
        if_rule P (bytes_eq k []) (λ _ _. h)
          λ _.
            if_rule P (ltb m.max_size (m.size + entry_size k v)) (λ _ _. h)
              λ _. store-IsValid k m h v (lookup k m.data_map) refl

-- Delete leaves counters that agree with the contents, whether it succeeds or returns an error.
pub remove-IsValid : (k : Bytes) (m : Memtable) → IsValid m → IsValid (remove k m).0
unfolding remove
remove-IsValid k m h =
    if_rule (λ (s : Memtable × Outcome Error Unit). IsValid s.0) m.frozen (λ _. h)
      λ _. bury-IsValid k m h (lookup k m.data_map) refl

-- The entry that is overwritten was counted in the size, so the int64 subtraction of Put and
-- Delete never goes below zero.
weight-le-total :
    (k : Bytes) (o : Option Bytes) (d : Map (Option Bytes))
    → lookup k d ≡ some o
    → weight k o ≤ total weight d
unfolding lookup
weight-le-total k o [] e = cc
weight-le-total k o ((j, u) ∷ d) e = ground (arith, bytes_eq_iff j k, weight-le-total k o d)

-- In a well-formed table an entry that Get finds is counted in the size: its key, and its value
-- unless it is a tombstone.
pub counted_in_size :
    (k : Bytes) (o : Option Bytes) (m : Memtable)
    → IsValid m
    → get k m ≡ some o
    → weight k o ≤ m.size
unfolding get
counted_in_size k o m h e = omega (arith, weight-le-total k o m.data_map e, h.sized)

-- After a successful Put the size is within the limit, and Put never touches the limit.
pub put-le-max_size :
    (k v : Bytes) (m : Memtable)
    → (put k v m).1 ≡ ok tt
    → ((put k v m).0.size ≤ m.max_size) × ((put k v m).0.max_size ≡ m.max_size)
unfolding put
put-le-max_size k v m r = ground arith
