-- ===== src/Manifest.antt =====
-- pkg/manifest/manifest.go: `Manifest`. Marshalling is a parameter, as are the files on disk that
-- it is asked about. A save writes a temporary file and renames it; both may fail, which is an
-- argument. A time is a number.
pub mod Updates
use crazygraphstore.Common.{
  ℕ, ◌+◌, ◌%◌, ◌^◌, Bool, true, false, Option, none, some, List, [], ◌∷◌, ◌++◌, if◌then◌else◌, ltb,
  length, Bytes, bytes_eq, Outcome, ok, err, panic,
}
use crazygraphstore.Common.Maps.{Map, lookup, insert}
use crazygraphstore.Common.Words.{inc64}

pub data Error : Type 0 where
  bad_manifest marshal_failed write_failed rename_failed sstable_missing stat_failed : Error

pub record SstableEntry : Type 0 where
  pub path : Bytes
  pub level : ℕ
  pub size : ℕ
  pub num_entries : ℕ
  pub created_at : ℕ
  pub min_key : Bytes
  pub max_key : Bytes

-- Manifest, as it is marshalled. Version, an int64, is held as its word in two's complement, which
-- the wrap of Version++ fits.
pub record Manifest : Type 0 where
  pub version : ℕ
  pub sstables : List SstableEntry
  pub updated_at : ℕ

-- How the calls of the operating system in a save end; a write that fails may leave a part of the
-- text, or no file.
pub data Disk : Type 0 where
  disk_works rename_fails : Disk
  write_fails : Option Bytes → Disk

-- What os.Stat says of a path.
pub data Found : Type 0 where
  exists missing unknown : Found

-- A manifest in memory, and the bytes of the files MANIFEST and MANIFEST.tmp.
pub record Store : Type 0 where
  pub manifest : Manifest
  pub file : Option Bytes
  pub temp : Option Bytes

-- the os.WriteFile of save
unfoldable pub write_temp : Disk → Bytes → Store → Store × Outcome Error Unit
write_temp (write_fails left) text s = (record s { temp = left }, err write_failed)
write_temp disk_works text s = (record s { temp = some text }, ok tt)
write_temp rename_fails text s = (record s { temp = some text }, ok tt)

-- os.Rename of the temporary file to MANIFEST; where it fails, both are as they were
unfoldable pub rename_temp : Disk → Store → Store × Outcome Error Unit
rename_temp rename_fails s = (s, err rename_failed)
rename_temp disk_works s = (record s { file = s.temp; temp = none }, ok tt)
rename_temp (write_fails left) s = (record s { file = s.temp; temp = none }, ok tt)

-- save from the rename on: os.Remove of the temporary file where the rename failed
unfoldable pub save_renamed : Store × Outcome Error Unit → Store × Outcome Error Unit
save_renamed p = elim p.1 [
  | ok _ ↦ (p.0, ok tt)
  | err x ↦ (record p.0 { temp = none }, err x)
  | panic ↦ (p.0, panic)
]

unfoldable pub save_to : Disk → Bytes → Store → Store × Outcome Error Unit
unfolding write_temp rename_temp save_renamed
save_to disk text s =
    let p = write_temp disk text s in
    elim p.1 [
      | ok _ ↦ save_renamed (rename_temp disk p.0)
      | err x ↦ (p.0, err x)
      | panic ↦ (p.0, panic)
    ]

unfoldable pub save_text : Disk → Option Bytes → Store → Store × Outcome Error Unit
unfolding save_to
save_text disk none s = (s, err marshal_failed)
save_text disk (some text) s = save_to disk text s

-- the loops that keep the tables that are not in a set of paths
unfoldable pub mem_path : Bytes → List Bytes → Bool
mem_path path [] = false
mem_path path (p ∷ ps) = let rest = mem_path path ps in if bytes_eq p path then true else rest

unfoldable pub without : List Bytes → List SstableEntry → List SstableEntry
unfolding mem_path
without paths [] = []
without paths (t ∷ ts) =
    let rest = without paths ts in if mem_path t.path paths then rest else t ∷ rest

-- the loop of RemoveSSTable
unfoldable pub without_path : Bytes → List SstableEntry → List SstableEntry
without_path path [] = []
without_path path (t ∷ ts) =
    let rest = without_path path ts in if bytes_eq t.path path then rest else t ∷ rest

-- The new tables, the next version and the time of a change.
abbrev pub changed : ℕ → List SstableEntry → Store → Store
changed now tables s = record s {
  manifest = record s.manifest {
    sstables = tables;
    version = inc64 s.manifest.version;
    updated_at = now;
  };
}

module _ (marshal : Manifest → Option Bytes) (unmarshal : Bytes → Option Manifest) where
  -- save, and Save
  unfoldable pub save : Disk → Store → Store × Outcome Error Unit
  unfolding save_text
  save disk s = save_text disk (marshal s.manifest) s

  -- AddSSTable
  unfoldable pub add_sstable : Disk → ℕ → SstableEntry → Store → Store × Outcome Error Unit
  unfolding save
  add_sstable disk now entry s = save disk (changed now (s.manifest.sstables ++ entry ∷ []) s)

  -- RemoveSSTable
  unfoldable pub remove_sstable : Disk → ℕ → Bytes → Store → Store × Outcome Error Unit
  unfolding save without_path
  remove_sstable disk now path s = save disk (changed now (without_path path s.manifest.sstables) s)

  -- RemoveSSTables
  unfoldable pub remove_sstables : Disk → ℕ → List Bytes → Store → Store × Outcome Error Unit
  unfolding save without
  remove_sstables disk now paths s = save disk (changed now (without paths s.manifest.sstables) s)

  -- UpdateSSTables
  unfoldable pub update_sstables :
      Disk → ℕ → List SstableEntry → List Bytes → Store → Store × Outcome Error Unit
  unfolding save without
  update_sstables disk now to_add to_remove s =
      save disk (changed now (without to_remove s.manifest.sstables ++ to_add) s)

  -- NewManifest where there is no file: a first manifest, saved
  unfoldable pub create_manifest : Disk → ℕ → Option Bytes → Store × Outcome Error Unit
  unfolding save
  create_manifest disk now temp = save disk (record {
    manifest = record { version = 1; sstables = []; updated_at = now };
    file = none;
    temp = temp;
  })

  -- NewManifest, from the bytes of the file on
  unfoldable pub loaded : Option Manifest → Bytes → Option Bytes → Outcome Error Store
  loaded none text temp = err bad_manifest
  loaded (some m) text temp = ok (record { manifest = m; file = some text; temp = temp })

  unfoldable pub created : Store × Outcome Error Unit → Outcome Error Store
  created p = elim p.1 [ ok _ ↦ ok p.0 | err x ↦ err x | panic ↦ panic ]

  -- NewManifest, of what MANIFEST and MANIFEST.tmp hold
  unfoldable pub new_manifest : Disk → ℕ → Option Bytes → Option Bytes → Outcome Error Store
  unfolding loaded created create_manifest
  new_manifest disk now none temp = created (create_manifest disk now temp)
  new_manifest disk now (some text) temp = loaded (unmarshal text) text temp

-- GetSSTables
unfoldable pub get_sstables : Store → List SstableEntry
get_sstables s = s.manifest.sstables

-- the loop of Verify
unfoldable pub verify_all : (Bytes → Found) → List SstableEntry → Outcome Error Unit
verify_all stat [] = ok tt
verify_all stat (t ∷ ts) =
    let rest = verify_all stat ts in
    elim (stat t.path) [ exists ↦ rest | missing ↦ err sstable_missing | unknown ↦ err stat_failed ]

-- Verify
unfoldable pub verify : (Bytes → Found) → Store → Outcome Error Unit
unfolding verify_all
verify stat s = verify_all stat s.manifest.sstables

pub record ManifestStats : Type 0 where
  pub version : ℕ
  pub num_sstables : ℕ
  pub total_size : ℕ
  pub num_levels : ℕ
  pub updated_at : ℕ

-- the loop of Stats over the sizes and the levels
unfoldable pub size_and_level : List SstableEntry → ℕ → ℕ → ℕ × ℕ
size_and_level [] total_size max_level = (total_size, max_level)
size_and_level (t ∷ ts) total_size max_level =
    size_and_level ts (total_size + t.size) (if ltb max_level t.level then t.level else max_level)

-- Stats, without the count of tables per level
unfoldable pub stats : Store → ManifestStats
unfolding size_and_level
stats s =
    let p = size_and_level s.manifest.sstables 0 0 in
    record {
      version = s.manifest.version;
      num_sstables = length s.manifest.sstables;
      total_size = p.0;
      num_levels = p.1 + 1;
      updated_at = s.manifest.updated_at;
    }
