-- ===== src/Cache/Invariant.antt =====
-- The map and the list of a cache agree, and its size is the sum of the entries' sizes.
use crazygraphstore.Common.{
  ℕ, zero, suc, ◌≡◌, refl, sym, ap, ◌∙◌, Bool, true, false, ◌&&◌, Option, none, some, List, ◌∷◌,
  arith, ltb, if◌then◌else◌, length, Bytes, bytes_eq, bytes_eq_iff, bytes_eq_refl, Bool-cases, ◌⊎◌,
  inl, inr, if_rule, Outcome,
}
use crazygraphstore.Common.Maps.{lookup, lookup-insert, lookup-delete}
use crazygraphstore.Common.Words.{inc64}
use crazygraphstore.Cache.{
  Entry, Cache, Error, find_entry, element_at, element_of, remove_entry, remove_element, back,
  evict, evict_oldest, is_over, evict_loop, make_room, update, add,
}
use crazygraphstore.Cache.Lists.{
  HasDistinctKeys, total_size, find_entry-remove_entry, remove_entry-HasDistinctKeys,
  total_size-remove_entry, find_entry-back,
}

module _ {V : Type 0} where
  -- Whether there is an entry, as the map says it.
  unfoldable pub present : Option (Entry V) → Option (Unit {0})
  present none = none
  present (some e) = some tt

  pub record IsValid (c : Cache V) : Type 0 where
    pub agree : (k : Bytes) → lookup k c.items ≡ present (find_entry k c.evict_list)
    pub distinct_keys : HasDistinctKeys c.evict_list
    pub sized : c.current_size ≡ total_size c.evict_list

  element_at-present : (o : Option (Entry V)) → element_at (present o) o ≡ o
  unfolding element_at present
  element_at-present none = refl
  element_at-present (some e) = refl

  -- In a valid cache the element of a key is the entry in the list.
  pub element_of_lem :
      (k : Bytes) (c : Cache V) → IsValid c → element_of k c ≡ find_entry k c.evict_list
  unfolding element_of
  element_of_lem k c h =
      ap (λ (o : Option (Unit {0})). element_at o (find_entry k c.evict_list)) (h.agree k)
      ∙ element_at-present (find_entry k c.evict_list)

  present-if_none :
      (b : Bool) (o : Option (Entry V))
      → present (if b then none else o) ≡ (if b then none else present o)
  unfolding present
  present-if_none true o = refl
  present-if_none false o = refl

  present-if_some :
      (b : Bool) (e : Entry V) (o : Option (Entry V))
      → present (if b then some e else o) ≡ (if b then some tt else present o)
  unfolding present
  present-if_some true e o = refl
  present-if_some false e o = refl

  pub remove_element-IsValid :
      (e : Entry V) (c : Cache V)
      → IsValid c
      → find_entry e.key c.evict_list ≡ some e
      → IsValid (remove_element e c)
  unfolding remove_element
  remove_element-IsValid e c h f = record {
    agree = λ k.
        lookup-delete e.key k c.items
        ∙ ap (λ (o : Option (Unit {0})). if bytes_eq e.key k then none else o) (h.agree k)
        ∙ sym (present-if_none (bytes_eq e.key k) (find_entry k c.evict_list))
        ∙ ap present (sym (find_entry-remove_entry k e.key c.evict_list h.distinct_keys));
    distinct_keys = remove_entry-HasDistinctKeys e.key c.evict_list h.distinct_keys;
    sized = omega (arith, h.sized, total_size-remove_entry e.key c.evict_list e f);
  }

  pub evict_oldest-IsValid : (c : Cache V) → IsValid c → IsValid (evict_oldest c)
  unfolding evict_oldest
  evict_oldest-IsValid c h = go (back c.evict_list) refl
    where
      go : (o : Option (Entry V)) → back c.evict_list ≡ o → IsValid (evict o c)
      go none e = unfold evict in h
      go (some d) e =
          let v = remove_element-IsValid d c h (find_entry-back c.evict_list d h.distinct_keys e) in
          unfold evict in
          record { agree = v.agree; distinct_keys = v.distinct_keys; sized = v.sized }

  pub evict_loop-IsValid :
      (fuel extra : ℕ) (c : Cache V) → IsValid c → IsValid (evict_loop fuel extra c)
  unfolding evict_loop
  evict_loop-IsValid zero extra c h = h
  evict_loop-IsValid (suc fuel) extra c h =
      if_rule IsValid (is_over extra c && ltb 0 (length c.evict_list))
        (λ _. evict_loop-IsValid fuel extra (evict_oldest c) (evict_oldest-IsValid c h)) λ _. h

  -- An eviction keeps the entry of a key, or takes it away.
  abbrev pub Keeps : Bytes → Cache V → Cache V → Type 0
  Keeps k c d =
      (find_entry k d.evict_list ≡ find_entry k c.evict_list) ⊎ (find_entry k d.evict_list ≡ none)

  evict_oldest-Keeps : (k : Bytes) (c : Cache V) → IsValid c → Keeps k c (evict_oldest c)
  unfolding evict_oldest
  evict_oldest-Keeps k c h = go (back c.evict_list)
    where
      go : (o : Option (Entry V)) → Keeps k c (evict o c)
      go none = unfold evict in inl refl
      go (some d) =
          let removed = find_entry-remove_entry k d.key c.evict_list h.distinct_keys in
          unfold evict remove_element in
          elim (Bool-cases (bytes_eq d.key k)) [
            | inl same ↦ inr (rw same at removed)
            | inr other ↦ inl (rw other at removed)
          ]

  pub evict_loop-Keeps :
      (fuel extra : ℕ) (k : Bytes) (c : Cache V) → IsValid c → Keeps k c (evict_loop fuel extra c)
  unfolding evict_loop
  evict_loop-Keeps zero extra k c h = inl refl
  evict_loop-Keeps (suc fuel) extra k c h =
      if_rule (Keeps k c) (is_over extra c && ltb 0 (length c.evict_list))
        (λ _. elim (evict_loop-Keeps fuel extra k (evict_oldest c) (evict_oldest-IsValid c h)) [
          | inr gone ↦ inr gone
          | inl same ↦ elim (evict_oldest-Keeps k c h) [
            | inl same' ↦ inl (same ∙ same')
            | inr gone ↦ inr (same ∙ gone)
          ]
        ])
        λ _. inl refl

  pub make_room-IsValid : (extra : ℕ) (c : Cache V) → IsValid c → IsValid (make_room extra c)
  unfolding make_room
  make_room-IsValid extra c h = evict_loop-IsValid (length c.evict_list) extra c h

  pub make_room-Keeps :
      (extra : ℕ) (k : Bytes) (c : Cache V) → IsValid c → Keeps k c (make_room extra c)
  unfolding make_room
  make_room-Keeps extra k c h = evict_loop-Keeps (length c.evict_list) extra k c h

  pub make_room-absent :
      (extra : ℕ) (k : Bytes) (c : Cache V)
      → IsValid c
      → find_entry k c.evict_list ≡ none
      → find_entry k (make_room extra c).evict_list ≡ none
  make_room-absent extra k c h e = elim (make_room-Keeps extra k c h) [
    | inl same ↦ same ∙ e
    | inr gone ↦ gone
  ]

  pub find_entry-cons :
      (k : Bytes) (e : Entry V) (es : List (Entry V))
      → find_entry k (e ∷ es) ≡ (if bytes_eq e.key k then some e else find_entry k es)
  unfolding find_entry
  find_entry-cons k e es = refl

  pub add-IsValid :
      (key : Bytes) (value : V) (size : ℕ) (c : Cache V)
      → IsValid c
      → find_entry key c.evict_list ≡ none
      → IsValid (add key value size c).0
  unfolding add
  add-IsValid key value size c h e =
      if_rule (λ (p : Cache V × Outcome Error Unit). IsValid p.0) (ltb c.max_size size) (λ _. h)
        λ _. record {
          agree = λ k.
              lookup-insert key k tt c.items
              ∙ ap (λ (o : Option (Unit {0})). if bytes_eq key k then some tt else o) (h.agree k)
              ∙ sym (present-if_some (bytes_eq key k) _ (find_entry k c.evict_list))
              ∙ ap present (sym (find_entry-cons k _ c.evict_list));
          distinct_keys = (e, h.distinct_keys);
          sized = omega (arith, h.sized);
        }

  -- The entry after an update of the key.
  unfoldable pub updated : Entry V → V → ℕ → Entry V
  updated e value size = record e { value = value; size = size; version = inc64 e.version }

  pub find_entry-update :
      (k : Bytes) (e : Entry V) (value : V) (size : ℕ) (c : Cache V)
      → HasDistinctKeys c.evict_list
      → find_entry k (update e value size c).evict_list
        ≡ (if bytes_eq e.key k then some (updated e value size) else find_entry k c.evict_list)
  unfolding update updated
  find_entry-update k e value size c h =
      let removed = find_entry-remove_entry k e.key c.evict_list h in
      find_entry-cons k _ (remove_entry e.key c.evict_list) ∙ elim (Bool-cases (bytes_eq e.key k)) [
        | inl same ↦ rw same refl
        | inr other ↦ rw other (rw other at removed)
      ]

  update-agree :
      (e : Entry V) (value : V) (size : ℕ) (c : Cache V)
      → IsValid c
      → find_entry e.key c.evict_list ≡ some e
      → (k : Bytes) → lookup k c.items ≡ present (find_entry k (update e value size c).evict_list)
  update-agree e value size c h f k = elim (Bool-cases (bytes_eq e.key k)) [
    | inl same ↦
        let p : e.key ≡ k = ground (arith, bytes_eq_iff e.key k) in
        let q : find_entry k c.evict_list ≡ some e = rw (← p) f in
        h.agree k
        ∙ ap present q
        ∙ sym (
            ap present (find_entry-update k e value size c h.distinct_keys)
            ∙ rw same (unfold present in refl))
    | inr other ↦
        h.agree k
        ∙ sym (ap present (find_entry-update k e value size c h.distinct_keys) ∙ rw other refl)
  ]

  pub update-IsValid :
      (e : Entry V) (value : V) (size : ℕ) (c : Cache V)
      → IsValid c
      → find_entry e.key c.evict_list ≡ some e
      → IsValid (update e value size c)
  update-IsValid e value size c h f =
      let removed = find_entry-remove_entry e.key e.key c.evict_list h.distinct_keys in
      let agree = update-agree e value size c h f in
      unfold update in
      record {
        agree = agree;
        distinct_keys = (
          removed ∙ rw (bytes_eq_refl e.key) refl,
          remove_entry-HasDistinctKeys e.key c.evict_list h.distinct_keys,
        );
        sized = omega (arith, h.sized, total_size-remove_entry e.key c.evict_list e f);
      }
