-- ===== src/Manifest/Updates.antt =====
-- What a change leaves in the manifest and on disk.
use crazygraphstore.Common.{
  ℕ, zero, suc, ◌≡◌, ◌≢◌, true, false, All, get_elem?, bytes_eq, Bool-cases, if_rule, refl, sym, ap,
  ◌∙◌, ◌⊎◌, inl, inr, Option, none, some, List, [], ◌∷◌, ◌++◌, append-nil, Bytes, bytes_eq_iff,
  Outcome, ok, err, arith,
}
use crazygraphstore.Manifest.{
  Error, SstableEntry, Manifest, Disk, disk_works, write_fails, rename_fails, Store, write_temp,
  rename_temp, save_renamed, save_to, save_text, mem_path, without, without_path, changed, save,
  add_sstable, remove_sstable, remove_sstables, update_sstables, loaded, new_manifest, get_sstables,
}

without_path-without :
    (path : Bytes) (ts : List SstableEntry) → without_path path ts ≡ without (path ∷ []) ts
unfolding without_path without mem_path
without_path-without path [] = refl
without_path-without path (t ∷ ts) =
    ground (arith, without_path-without path ts, bytes_eq_iff t.path path, bytes_eq_iff path t.path)

without-nil : (ts : List SstableEntry) → without [] ts ≡ ts
unfolding without mem_path
without-nil [] = refl
without-nil (t ∷ ts) = ap (◌∷◌ t) (without-nil ts)

-- Which tables are kept where those with some paths are removed.
pub data Keeps (paths : List Bytes) : List SstableEntry → List SstableEntry → Type 0 where
  keeps_none : Keeps paths [] []
  keeps_table :
      (t : SstableEntry)
      → {ts us : List SstableEntry} → All (λ (p : Bytes). p ≢ t.path) paths
      → Keeps paths ts us
      → Keeps paths (t ∷ ts) (t ∷ us)
  removes_table :
      (t : SstableEntry) (i : ℕ)
      → {ts us : List SstableEntry} → get_elem? paths i ≡ some t.path
      → Keeps paths ts us
      → Keeps paths (t ∷ ts) us

mem_path-some :
    (path : Bytes) (paths : List Bytes)
    → mem_path path paths ≡ true
    → (i : ℕ) × (get_elem? paths i ≡ some path)
unfolding mem_path
mem_path-some path [] h = cc
mem_path-some path (p ∷ paths) h = elim (Bool-cases (bytes_eq p path)) [
  | inl same ↦ (zero, ap some ((bytes_eq_iff p path).0 same))
  | inr other ↦ let (i, found) = mem_path-some path paths (rw other at h) in (suc i, found)
]

mem_path-All :
    (path : Bytes) (paths : List Bytes)
    → mem_path path paths ≡ false
    → All (λ (p : Bytes). p ≢ path) paths
unfolding mem_path
mem_path-All path [] h = tt
mem_path-All path (p ∷ paths) h = elim (Bool-cases (bytes_eq p path)) [
  | inl same ↦ absurd (cc ((rw same at h)))
  | inr other ↦
      ((λ e. cc (other, (bytes_eq_iff p path).1 e)), mem_path-All path paths (rw other at h))
]

without-Keeps : (paths : List Bytes) (ts : List SstableEntry) → Keeps paths ts (without paths ts)
unfolding without
without-Keeps paths [] = keeps_none
without-Keeps paths (t ∷ ts) =
    if_rule (Keeps paths (t ∷ ts)) (mem_path t.path paths)
      (λ there.
        let (i, found) = mem_path-some t.path paths there in
        removes_table t i found (without-Keeps paths ts))
      λ absent. keeps_table t (mem_path-All t.path paths absent) (without-Keeps paths ts)

module _ (marshal : Manifest → Option Bytes) (unmarshal : Bytes → Option Manifest) where
  -- AddSSTable, RemoveSSTable and RemoveSSTables are the UpdateSSTables that adds one table,
  -- removes one path, or removes a list of paths.
  pub updates_agree :
      (disk : Disk) (now : ℕ) (entry : SstableEntry) (path : Bytes) (paths : List Bytes) (s : Store)
      → (add_sstable marshal unmarshal disk now entry s
          ≡ update_sstables marshal unmarshal disk now (entry ∷ []) [] s)
        × (remove_sstable marshal unmarshal disk now path s
            ≡ update_sstables marshal unmarshal disk now [] (path ∷ []) s)
        × (remove_sstables marshal unmarshal disk now paths s
            ≡ update_sstables marshal unmarshal disk now [] paths s)
  unfolding add_sstable remove_sstable remove_sstables update_sstables
  updates_agree disk now entry path paths s =
      let tables : List SstableEntry = s.manifest.sstables in
      let to : List SstableEntry → Store × Outcome Error Unit =
        λ ts. save marshal unmarshal disk (changed now ts s) in
      (
        ap to (ap (λ (ts : List SstableEntry). ts ++ entry ∷ []) (sym (without-nil tables))),
        ap to (without_path-without path tables ∙ sym (append-nil (without (path ∷ []) tables))),
        ap to (sym (append-nil (without paths tables))),
      )

  -- What a save leaves: the new file is read back, or the old one is there.
  abbrev Saved : ℕ → Store → Store × Outcome Error Unit → Type 0
  Saved now s p =
      ((p.1 ≡ ok tt)
        × ((d : Store) × (new_manifest marshal unmarshal disk_works now p.0.file p.0.temp ≡ ok d)
            × (d.manifest ≡ s.manifest)))
      ⊎ ((e : Error) × (p.1 ≡ err e) × (p.0.file ≡ s.file))

  save-Saved :
      (disk : Disk) (now : ℕ) (o : Option Bytes) (s : Store)
      → marshal s.manifest ≡ o
      → ((text : Bytes)
          → marshal (save_text disk o s).0.manifest ≡ some text
          → unmarshal text ≡ some (save_text disk o s).0.manifest)
      → ((save_text disk o s).0.manifest ≡ s.manifest) × Saved now s (save_text disk o s)
  unfolding save_text save_to write_temp rename_temp save_renamed new_manifest
  save-Saved disk now none s coded back = (refl, inr (_, refl, refl))
  save-Saved disk_works now (some text) s coded back = (
    refl,
    inl (
      refl,
      (
        record s { file = some text; temp = none },
        rw (back text coded) (unfold loaded in refl),
        refl,
      ),
    ),
  )
  save-Saved (write_fails left) now (some text) s coded back = (refl, inr (_, refl, refl))
  save-Saved rename_fails now (some text) s coded back = (refl, inr (_, refl, refl))

  -- Whatever disk call fails, UpdateSSTables is seen on disk whole or not at all. The new tables
  -- are those kept, which are the tables whose paths are not to be removed, in order, and behind
  -- them those to add. Either the call returns no error, and NewManifest of the files has the new
  -- tables, or it returns an error, and MANIFEST is as it was. In memory the tables are the new
  -- ones in both cases. It is taken that the manifest in memory after the call, where it can be
  -- marshalled, is what its text is unmarshalled to.
  pub update_atomic :
      (disk : Disk) (now : ℕ) (to_add : List SstableEntry) (to_remove : List Bytes) (s : Store)
      → ((text : Bytes)
          → marshal (update_sstables marshal unmarshal disk now to_add to_remove s).0.manifest
            ≡ some text
          → unmarshal text
            ≡ some (update_sstables marshal unmarshal disk now to_add to_remove s).0.manifest)
      → (kept : List SstableEntry) × Keeps to_remove s.manifest.sstables kept
        × (get_sstables (update_sstables marshal unmarshal disk now to_add to_remove s).0
            ≡ kept ++ to_add)
        × ((((update_sstables marshal unmarshal disk now to_add to_remove s).1 ≡ ok tt)
              × ((d : Store) × (new_manifest marshal unmarshal disk_works now
                      (update_sstables marshal unmarshal disk now to_add to_remove s).0.file
                      (update_sstables marshal unmarshal disk now to_add to_remove s).0.temp
                    ≡ ok d)
                  × (get_sstables d ≡ kept ++ to_add)))
            ⊎ ((e : Error) × ((update_sstables marshal unmarshal disk now to_add to_remove s).1
                  ≡ err e)
                × ((update_sstables marshal unmarshal disk now to_add to_remove s).0.file
                    ≡ s.file)))
  unfolding update_sstables save get_sstables
  update_atomic disk now to_add to_remove s back =
      let kept : List SstableEntry = without to_remove s.manifest.sstables in
      let d : Store = changed now (kept ++ to_add) s in
      let (memory, saved) = save-Saved disk now (marshal d.manifest) d refl back in
      (
        kept,
        without-Keeps to_remove s.manifest.sstables,
        ap (λ (m : Manifest). m.sstables) memory,
        elim saved [
          | inl (good, found) ↦
              inl (good, (found.0, found.1, ap (λ (m : Manifest). m.sstables) found.2))
          | inr bad ↦ inr bad
        ],
      )
