-- ===== src/Cache/Lists.antt =====
-- The eviction list: finding and removing the entry of a key, and its back.
use crazygraphstore.Common.{
  ℕ, ◌+◌, ◌<◌, ◌≡◌, refl, ap, ◌∙◌, false, none, some, List, [], ◌∷◌, ◌++◌, arith, if◌then◌else◌,
  length, Bytes, bytes_eq, bytes_eq_iff, bytes_eq_refl, Bool-cases, inl, inr,
}
use crazygraphstore.Cache.{Entry, find_entry, remove_entry, back}

module _ {V : Type 0} where
  -- Each key stands once.
  abbrev pub HasDistinctKeys : List (Entry V) → Type 0
  HasDistinctKeys [] = Unit
  HasDistinctKeys (e ∷ es) = (find_entry e.key es ≡ none) × HasDistinctKeys es

  abbrev pub total_size : List (Entry V) → ℕ
  total_size [] = 0
  total_size (e ∷ es) = e.size + total_size es

  pub find_entry-key :
      (k : Bytes) (es : List (Entry V)) (e : Entry V) → find_entry k es ≡ some e → e.key ≡ k
  unfolding find_entry
  find_entry-key k [] e h = cc
  find_entry-key k (d ∷ es) e h = ground (arith, bytes_eq_iff d.key k, find_entry-key k es e)

  pub find_entry-remove_entry :
      (k j : Bytes) (es : List (Entry V))
      → HasDistinctKeys es
      → find_entry k (remove_entry j es) ≡ (if bytes_eq j k then none else find_entry k es)
  unfolding find_entry remove_entry
  find_entry-remove_entry k j [] h = ground arith
  find_entry-remove_entry k j (e ∷ es) h = ground (
    arith,
    bytes_eq_iff e.key j,
    bytes_eq_iff e.key k,
    bytes_eq_iff j k,
    find_entry-remove_entry k j es h.1,
    h.0,
  )

  pub remove_entry-HasDistinctKeys :
      (j : Bytes) (es : List (Entry V)) → HasDistinctKeys es → HasDistinctKeys (remove_entry j es)
  unfolding remove_entry
  remove_entry-HasDistinctKeys j [] h = tt
  remove_entry-HasDistinctKeys j (e ∷ es) h = elim (Bool-cases (bytes_eq e.key j)) [
    | inl same ↦ rw same h.1
    | inr other ↦ rw other (
      find_entry-remove_entry e.key j es h.1
          ∙ ground (arith, bytes_eq_iff e.key j, bytes_eq_iff j e.key, h.0),
      remove_entry-HasDistinctKeys j es h.1,
    )
  ]

  pub total_size-remove_entry :
      (j : Bytes) (es : List (Entry V)) (e : Entry V)
      → find_entry j es ≡ some e
      → total_size (remove_entry j es) + e.size ≡ total_size es
  unfolding find_entry remove_entry
  total_size-remove_entry j [] e h = cc
  total_size-remove_entry j (d ∷ es) e h = ground (arith, total_size-remove_entry j es e)

  pub find_entry-back :
      (es : List (Entry V)) (e : Entry V)
      → HasDistinctKeys es
      → back es ≡ some e
      → find_entry e.key es ≡ some e
  unfolding find_entry back
  find_entry-back [] e h b = cc
  find_entry-back (d ∷ []) e h b = ground (arith, bytes_eq_refl d.key)
  find_entry-back (d ∷ d' ∷ es) e h b =
      ground (arith, bytes_eq_iff d.key e.key, h.0, find_entry-back (d' ∷ es) e h.1 b)

  other_key :
      (j k : Bytes) (es : List (Entry V)) (e : Entry V)
      → find_entry j es ≡ none
      → find_entry k es ≡ some e
      → bytes_eq j k ≡ false
  other_key j k es e h g = elim (Bool-cases (bytes_eq j k)) [
    | inr other ↦ other
    | inl same ↦
        let p : j ≡ k = ground (arith, bytes_eq_iff j k) in
        let q : find_entry j es ≡ find_entry k es = ap (λ (i : Bytes). find_entry i es) p in
        absurd (cc)
  ]

  -- Removing the entry at the back leaves the list in front of it.
  pub remove_entry-back :
      (es : List (Entry V)) (e : Entry V)
      → HasDistinctKeys es
      → back es ≡ some e
      → es ≡ remove_entry e.key es ++ e ∷ []
  unfolding remove_entry back
  remove_entry-back [] e h b = cc
  remove_entry-back (d ∷ []) e h b =
      let p : d ≡ e = ground arith in rw (← p, bytes_eq_refl d.key) refl
  remove_entry-back (d ∷ d' ∷ es) e h b =
      rw (other_key d.key e.key (d' ∷ es) e h.0 (find_entry-back (d' ∷ es) e h.1 b))
        (ap (◌∷◌ d) (remove_entry-back (d' ∷ es) e h.1 b))

  pub back-some : (es : List (Entry V)) → 0 < length es → (e : Entry V) × (back es ≡ some e)
  unfolding back
  back-some [] h = absurd (omega arith)
  back-some (d ∷ []) h = (d, refl)
  back-some (d ∷ d' ∷ es) h = back-some (d' ∷ es) (omega arith)
