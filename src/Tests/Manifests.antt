-- ===== src/Tests/Manifests.antt =====
-- The manifest.
use crazygraphstore.Common.{
  ℕ, ◌≡◌, ◌⊎◌, sym, ap, Option, none, some, List, [], ◌∷◌, ◌++◌, Bytes, ok, err,
}
use crazygraphstore.Manifest.{
  Error, SstableEntry, Manifest, disk_works, Store, add_sstable, remove_sstable, remove_sstables,
  update_sstables, new_manifest, get_sstables,
}
use crazygraphstore.Manifest.Updates.{Keeps, updates_agree, update_atomic}

some-injective : {a b : Bytes} → some a ≡ some b → a ≡ b
some-injective h = cc

abbrev table : Bytes → SstableEntry
table path = record {
  path = path;
  level = 0;
  size = 10;
  num_entries = 1;
  created_at = 5;
  min_key = b'a' ∷ [];
  max_key = b'b' ∷ [];
}

-- A format for manifests without tables.
abbrev marshal_tables : List SstableEntry → ℕ → ℕ → Option Bytes
marshal_tables [] version updated_at = some (version ∷ updated_at ∷ [])
marshal_tables (t ∷ ts) version updated_at = none

abbrev pub marshal : Manifest → Option Bytes
marshal m = marshal_tables m.sstables m.version m.updated_at

abbrev pub unmarshal : Bytes → Option Manifest
unmarshal (version ∷ updated_at ∷ []) =
    some (record { version = version; sstables = []; updated_at = updated_at })
unmarshal other = none

unmarshal-marshal : (m : Manifest) (text : Bytes) → marshal m ≡ some text → unmarshal text ≡ some m
unmarshal-marshal m text h = go m.sstables m.version m.updated_at h
  where
    go :
        (ts : List SstableEntry) (version updated_at : ℕ)
        → marshal_tables ts version updated_at ≡ some text
        → unmarshal text
          ≡ some (record { version = version; sstables = ts; updated_at = updated_at })
    go [] version updated_at e = ap unmarshal (sym (some-injective e))
    go (t ∷ ts) version updated_at e = cc

abbrev store : Store
store = record {
  manifest = record { version = 3; sstables = table (b'x' ∷ []) ∷ []; updated_at = 7 };
  file = some (3 ∷ []);
  temp = none;
}

updates_agree_example :
    (add_sstable marshal unmarshal disk_works 9 (table (b'z' ∷ [])) store
      ≡ update_sstables marshal unmarshal disk_works 9 (table (b'z' ∷ []) ∷ []) [] store)
    × (remove_sstable marshal unmarshal disk_works 9 (b'x' ∷ []) store
        ≡ update_sstables marshal unmarshal disk_works 9 [] ((b'x' ∷ []) ∷ []) store)
    × (remove_sstables marshal unmarshal disk_works 9 [] store
        ≡ update_sstables marshal unmarshal disk_works 9 [] [] store)
updates_agree_example =
    updates_agree marshal unmarshal disk_works 9 (table (b'z' ∷ [])) (b'x' ∷ []) [] store

update_atomic_example :
    (kept : List SstableEntry) × Keeps ((b'x' ∷ []) ∷ []) store.manifest.sstables kept
    × (get_sstables (update_sstables marshal unmarshal disk_works 9 [] ((b'x' ∷ []) ∷ []) store).0
        ≡ kept ++ [])
    × ((((update_sstables marshal unmarshal disk_works 9 [] ((b'x' ∷ []) ∷ []) store).1 ≡ ok tt)
          × ((d : Store) × (new_manifest marshal unmarshal disk_works 9
                  (update_sstables marshal unmarshal disk_works 9 []
                    ((b'x' ∷ []) ∷ [])
                    store).0.file
                  (update_sstables marshal unmarshal disk_works 9 []
                    ((b'x' ∷ []) ∷ [])
                    store).0.temp
                ≡ ok d)
              × (get_sstables d ≡ kept ++ [])))
        ⊎ ((e : Error) × ((update_sstables marshal unmarshal disk_works 9 []
                ((b'x' ∷ []) ∷ [])
                store).1
              ≡ err e)
            × ((update_sstables marshal unmarshal disk_works 9 [] ((b'x' ∷ []) ∷ []) store).0.file
                ≡ store.file)))
update_atomic_example = update_atomic marshal unmarshal disk_works 9 [] ((b'x' ∷ []) ∷ []) store (
    unmarshal-marshal
      (update_sstables marshal unmarshal disk_works 9 [] ((b'x' ∷ []) ∷ []) store).0.manifest)
