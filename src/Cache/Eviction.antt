-- ===== src/Cache/Eviction.antt =====
-- Which entries an operation evicts, and how much room there is behind it.
use crazygraphstore.Common.{
  ℕ, zero, suc, ◌+◌, ◌%◌, ◌^◌, ◌≤◌, ◌<◌, ◌≡◌, ◌⊎◌, refl, sym, ap, ◌∙◌, true, false, ◌&&◌, Option,
  none, some, List, [], ◌∷◌, ◌++◌, append-nil, append_assoc, arith, ltb, if◌then◌else◌, length,
  length-append, Bytes, bytes_eq, Bool-cases, inl, inr, if_rule, eq-nil_of_length, le→ltb, lt→ltb,
  ok, err,
}
use crazygraphstore.Cache.{
  Entry, Cache, entry_too_large, find_entry, element_of, remove_element, back, evict, evict_oldest,
  is_over, evict_loop, make_room, update, add, put_found, put, resize,
}
use crazygraphstore.Cache.Lists.{
  total_size, find_entry-key, remove_entry-back, total_size-remove_entry, back-some,
}
use crazygraphstore.Cache.Calls.{found_key}
use crazygraphstore.Cache.Invariant.{
  IsValid, element_of_lem, evict_oldest-IsValid, make_room-IsValid, update-IsValid, updated,
  find_entry-update,
}

module _ {V : Type 0} where
  -- What making room leaves: enough room or an empty list, and a front of the list that was there.
  record IsRoom (extra : ℕ) (c d : Cache V) : Type 0 where
    fits : (d.current_size + extra ≤ d.max_size) ⊎ (d.evict_list ≡ [])
    same_max : d.max_size ≡ c.max_size
    dropped : List (Entry V)
    front : c.evict_list ≡ d.evict_list ++ dropped

  evict-front :
      (c : Cache V) (e : Entry V)
      → IsValid c
      → back c.evict_list ≡ some e
      → (c.evict_list ≡ (evict_oldest c).evict_list ++ e ∷ [])
        × ((evict_oldest c).max_size ≡ c.max_size)
  unfolding evict_oldest
  evict-front c e h b =
      rw (b, evict)
        (unfold remove_element in (remove_entry-back c.evict_list e h.distinct_keys b, refl))

  is_over_lem :
      (extra : ℕ) (c : Cache V)
      → c.current_size + extra < 2 ^ 63
      → is_over extra c ≡ ltb c.max_size (c.current_size + extra)
  unfolding is_over
  is_over_lem extra c small =
      let same : (c.current_size + extra) % 2 ^ 64 ≡ c.current_size + extra =
        omega (arith, small) in
      let below : ltb (c.current_size + extra) (2 ^ 63) ≡ true =
        lt→ltb (c.current_size + extra) (2 ^ 63) small in
      rw (same, below) refl

  evict_oldest_shrinks : (c : Cache V) → (evict_oldest c).current_size ≤ c.current_size
  unfolding evict_oldest evict remove_element
  evict_oldest_shrinks c =
      elim (back c.evict_list) as (λ o. (evict o c).current_size ≤ c.current_size) [
        | none ↦ omega arith
        | some e ↦ omega arith
      ]

  no-IsRoom_needed :
      (extra : ℕ) (c : Cache V)
      → c.current_size + extra < 2 ^ 63
      → (is_over extra c && ltb 0 (length c.evict_list)) ≡ false
      → IsRoom extra c c
  no-IsRoom_needed extra c small done =
      let h = rw (is_over_lem extra c small) at done in
      record {
        fits = elim (Bool-cases (ltb c.max_size (c.current_size + extra))) [
          | inr room ↦ inl (ground arith)
          | inl full ↦ inr (eq-nil_of_length c.evict_list (ground arith))
        ];
        same_max = refl;
        dropped = [];
        front = sym (append-nil c.evict_list);
      }

  evict_loop-IsRoom :
      (fuel extra : ℕ) (c : Cache V)
      → IsValid c
      → c.current_size + extra < 2 ^ 63
      → length c.evict_list ≤ fuel
      → IsRoom extra c (evict_loop fuel extra c)
  unfolding evict_loop
  evict_loop-IsRoom zero extra c h small f = no-IsRoom_needed extra c small (ground (arith, f))
  evict_loop-IsRoom (suc fuel) extra c h small f =
      if_rule (IsRoom extra c) (is_over extra c && ltb 0 (length c.evict_list))
        (λ more.
          let (e, b) = back-some c.evict_list (ground arith) in
          let (cut, same) = evict-front c e h b in
          let d : Cache V = evict_oldest c in
          let r : IsRoom extra d (evict_loop fuel extra d) =
            evict_loop-IsRoom fuel extra d (evict_oldest-IsValid c h)
              (omega (arith, small, evict_oldest_shrinks c))
              (omega (arith, ap length cut, length-append d.evict_list (e ∷ []))) in
          record {
            fits = r.fits;
            same_max = r.same_max ∙ same;
            dropped = r.dropped ++ e ∷ [];
            front =
                cut
                ∙ ap (λ (l : List (Entry V)). l ++ e ∷ []) r.front
                ∙ append_assoc (evict_loop fuel extra d).evict_list r.dropped (e ∷ []);
          })
        (no-IsRoom_needed extra c small)

  make_room-IsRoom :
      (extra : ℕ) (c : Cache V)
      → IsValid c
      → c.current_size + extra < 2 ^ 63
      → IsRoom extra c (make_room extra c)
  unfolding make_room
  make_room-IsRoom extra c h small =
      evict_loop-IsRoom (length c.evict_list) extra c h small (omega arith)

  -- Resize leaves a valid cache, whose size fits an int64, within its new size, and what it evicts
  -- stands at the back of the list.
  pub resize_lem :
      (new_size : ℕ) (c : Cache V)
      → IsValid c
      → c.current_size < 2 ^ 63
      → ((resize new_size c).current_size ≤ new_size)
        × ((resize new_size c).max_size ≡ new_size)
        × (dropped : List (Entry V)) × (c.evict_list ≡ (resize new_size c).evict_list ++ dropped)
  unfolding resize
  resize_lem new_size c h small =
      let c' : Cache V = record c { max_size = new_size } in
      let v : IsValid c' = record {
        agree = h.agree;
        distinct_keys = h.distinct_keys;
        sized = h.sized;
      } in
      let r = make_room-IsRoom 0 c' v (omega (arith, small)) in
      let w = make_room-IsValid 0 c' v in
      (
        elim r.fits [
          | inl fits ↦ omega (arith, fits, r.same_max)
          | inr empty ↦ omega (arith, w.sized, ap total_size empty)
        ],
        r.same_max,
        r.dropped,
        r.front,
      )

  put_absent :
      (key : Bytes) (value : V) (size : ℕ) (c : Cache V)
      → element_of key c ≡ none
      → put key value size c ≡ add key value size (make_room size c)
  unfolding put
  put_absent key value size c e = rw e (unfold put_found in refl)

  add_fits :
      (key : Bytes) (value : V) (size : ℕ) (c : Cache V)
      → size ≤ c.max_size
      → ((add key value size c).1 ≡ ok tt)
        × ((add key value size c).0.current_size ≡ c.current_size + size)
        × ((add key value size c).0.max_size ≡ c.max_size)
        × ((add key value size c).0.evict_list
            ≡ record { key = key; value = value; size = size; version = 1 } ∷ c.evict_list)
  unfolding add
  add_fits key value size c h = rw (le→ltb c.max_size size h) (refl, refl, refl, refl)

  add_too_large :
      (key : Bytes) (value : V) (size : ℕ) (c : Cache V)
      → c.max_size < size
      → add key value size c ≡ (c, err entry_too_large)
  unfolding add
  add_too_large key value size c h = rw (lt→ltb c.max_size size h) refl

  -- In a valid cache, Put of a key that is not there, with a size up to the maximum and an int64
  -- sum of the sizes that does not overflow, succeeds and leaves the cache within its maximum. The
  -- new entry stands at the front of the list, and behind it a front of the list as it was: only
  -- entries at the back are evicted.
  pub put_new_key :
      (key : Bytes) (value : V) (size : ℕ) (c : Cache V)
      → IsValid c
      → element_of key c ≡ none
      → size ≤ c.max_size
      → c.current_size + size < 2 ^ 63
      → ((put key value size c).1 ≡ ok tt)
        × ((put key value size c).0.current_size ≤ c.max_size)
        × (kept dropped : List (Entry V)) × (c.evict_list ≡ kept ++ dropped)
        × ((put key value size c).0.evict_list
            ≡ record { key = key; value = value; size = size; version = 1 } ∷ kept)
  put_new_key key value size c h absent fits small =
      let d : Cache V = make_room size c in
      let r = make_room-IsRoom size c h small in
      let w = make_room-IsValid size c h in
      let (good, sum, same, list) = add_fits key value size d (omega (arith, r.same_max)) in
      rw (put_absent key value size c absent) (
        good,
        elim r.fits [
          | inl room ↦ omega (arith, room, sum, r.same_max)
          | inr empty ↦ omega (arith, w.sized, ap total_size empty, sum)
        ],
        d.evict_list,
        r.dropped,
        r.front,
        list,
      )

  -- In a valid cache, Put of a key that is not there, with a size above the maximum, fails, but not
  -- before it evicted every entry, if the int64 sum of the sizes does not overflow.
  pub put_too_large :
      (key : Bytes) (value : V) (size : ℕ) (c : Cache V)
      → IsValid c
      → element_of key c ≡ none
      → c.max_size < size
      → c.current_size + size < 2 ^ 63
      → ((put key value size c).1 ≡ err entry_too_large)
        × ((put key value size c).0.evict_list ≡ [])
  put_too_large key value size c h absent large small =
      let r = make_room-IsRoom size c h small in
      rw
        (
          put_absent key value size c absent,
          add_too_large key value size (make_room size c) (omega (arith, large, r.same_max)),
        )
        (
          refl,
          elim r.fits [
            | inl room ↦ absurd (omega (arith, room, large, r.same_max))
            | inr empty ↦ empty
          ],
        )

  put_present :
      (key : Bytes) (value : V) (size : ℕ) (c : Cache V) (e : Entry V)
      → element_of key c ≡ some e
      → put key value size c ≡ (update e value size c, ok tt)
  unfolding put
  put_present key value size c e f = rw f (unfold put_found in refl)

  update_size :
      (e : Entry V) (value : V) (size : ℕ) (c : Cache V)
      → e.size ≤ c.current_size
      → ((update e value size c).current_size + e.size ≡ c.current_size + size)
        × ((update e value size c).max_size ≡ c.max_size)
  unfolding update
  update_size e value size c h = (omega arith, refl)

  -- In a valid cache, Put of a key that is there succeeds and evicts nothing: every other key keeps
  -- its entry, and the size changes by the difference, whether or not it stays within the maximum.
  pub put_update :
      (key : Bytes) (value : V) (size : ℕ) (c : Cache V) (e : Entry V)
      → IsValid c
      → element_of key c ≡ some e
      → ((put key value size c).1 ≡ ok tt)
        × ((put key value size c).0.current_size + e.size ≡ c.current_size + size)
        × ((k : Bytes)
            → element_of k (put key value size c).0
              ≡ (if bytes_eq key k then some (updated e value size) else element_of k c))
  put_update key value size c e h f =
      let g = found_key key c e h f in
      let d : Cache V = update e value size c in
      let w = update-IsValid e value size c h g in
      let same_key : e.key ≡ key =
        find_entry-key key c.evict_list e (sym (element_of_lem key c h) ∙ f) in
      rw (put_present key value size c e f) (
        refl,
        (update_size e value size c
            (omega (arith, h.sized, total_size-remove_entry e.key c.evict_list e g))).0,
        λ k.
            element_of_lem k d w
            ∙ find_entry-update k e value size c h.distinct_keys
            ∙ ap
                (λ (j : Bytes).
                  if bytes_eq j k then some (updated e value size) else find_entry k c.evict_list)
                same_key
            ∙ ap
                (λ (o : Option (Entry V)).
                  if bytes_eq key k then some (updated e value size) else o)
                (sym (element_of_lem k c h)),
      )
