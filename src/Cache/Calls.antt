-- ===== src/Cache/Calls.antt =====
-- Every operation keeps the map, the list and the size of a cache in agreement.
use crazygraphstore.Common.{ℕ, ◌≡◌, refl, sym, ap, ◌∙◌, Option, none, some, List, [], ◌∷◌, Bytes}
use crazygraphstore.Common.Maps.{lookup}
use crazygraphstore.Cache.{
  Entry, Cache, new, find_entry, element_of, get_found, get, make_room, put_found, put,
  invalidate_found, invalidate, clear, resize,
}
use crazygraphstore.Cache.Lists.{find_entry-key}
use crazygraphstore.Cache.Invariant.{
  IsValid, present, element_of_lem, remove_element-IsValid, make_room-IsValid, make_room-absent,
  add-IsValid, update-IsValid,
}

-- One use of a cache.
pub data Call (V : Type 0) : Type 0 where
  get_call invalidate_call : Bytes → Call V
  put_call : Bytes → V → ℕ → Call V
  resize_call : ℕ → Call V
  clear_call : Call V

module _ {V : Type 0} where
  -- What the map finds is an entry with the key.
  pub found_key :
      (key : Bytes) (c : Cache V) (e : Entry V)
      → IsValid c
      → element_of key c ≡ some e
      → find_entry e.key c.evict_list ≡ some e
  found_key key c e h f =
      let g : find_entry key c.evict_list ≡ some e = sym (element_of_lem key c h) ∙ f in
      ap (λ (k : Bytes). find_entry k c.evict_list) (find_entry-key key c.evict_list e g) ∙ g

  put_found-IsValid :
      (o : Option (Entry V)) (key : Bytes) (value : V) (size : ℕ) (c : Cache V)
      → IsValid c
      → element_of key c ≡ o
      → IsValid (put_found o key value size c).0
  unfolding put_found
  put_found-IsValid (some e) key value size c h f =
      update-IsValid e value size c h (found_key key c e h f)
  put_found-IsValid none key value size c h f =
      add-IsValid key value size (make_room size c) (make_room-IsValid size c h)
        (make_room-absent size key c h (sym (element_of_lem key c h) ∙ f))

  pub put-IsValid :
      (key : Bytes) (value : V) (size : ℕ) (c : Cache V)
      → IsValid c
      → IsValid (put key value size c).0
  unfolding put
  put-IsValid key value size c h = put_found-IsValid (element_of key c) key value size c h refl

  pub invalidate-IsValid : (key : Bytes) (c : Cache V) → IsValid c → IsValid (invalidate key c)
  unfolding invalidate
  invalidate-IsValid key c h = go (element_of key c) refl
    where
      go : (o : Option (Entry V)) → element_of key c ≡ o → IsValid (invalidate_found o c)
      go none f = unfold invalidate_found in h
      go (some e) f =
          unfold invalidate_found in remove_element-IsValid e c h (found_key key c e h f)

  pub get-IsValid : (key : Bytes) (c : Cache V) → IsValid c → IsValid (get key c).0
  unfolding get
  get-IsValid key c h = go (element_of key c)
    where
      go : (o : Option (Entry V)) → IsValid (get_found o c).0
      go none =
          unfold get_found in
          record { agree = h.agree; distinct_keys = h.distinct_keys; sized = h.sized }
      go (some e) =
          unfold get_found in
          record { agree = h.agree; distinct_keys = h.distinct_keys; sized = h.sized }

  pub resize-IsValid : (new_size : ℕ) (c : Cache V) → IsValid c → IsValid (resize new_size c)
  unfolding resize
  resize-IsValid new_size c h =
      make_room-IsValid 0 (record c { max_size = new_size })
        (record { agree = h.agree; distinct_keys = h.distinct_keys; sized = h.sized })

  empty-IsValid : (c : Cache V) → c.items ≡ [] → c.evict_list ≡ [] → c.current_size ≡ 0 → IsValid c
  empty-IsValid c i l s = record {
    agree = λ k. rw (i, l) (unfold lookup find_entry present in refl);
    distinct_keys = rw l tt;
    sized = s ∙ rw l refl;
  }

  unfoldable pub apply : Call V → Cache V → Cache V
  apply (get_call key) c = (get key c).0
  apply (invalidate_call key) c = invalidate key c
  apply (put_call key value size) c = (put key value size c).0
  apply (resize_call n) c = resize n c
  apply clear_call c = clear c

  unfoldable pub run : List (Call V) → Cache V → Cache V
  run [] c = c
  run (call ∷ calls) c = run calls (apply call c)

  apply-IsValid : (call : Call V) (c : Cache V) → IsValid c → IsValid (apply call c)
  unfolding apply
  apply-IsValid (get_call key) c h = get-IsValid key c h
  apply-IsValid (invalidate_call key) c h = invalidate-IsValid key c h
  apply-IsValid (put_call key value size) c h = put-IsValid key value size c h
  apply-IsValid (resize_call n) c h = resize-IsValid n c h
  apply-IsValid clear_call c h = unfold clear in empty-IsValid _ refl refl refl

  run-keeps : (calls : List (Call V)) (c : Cache V) → IsValid c → IsValid (run calls c)
  unfolding run
  run-keeps [] c h = h
  run-keeps (call ∷ calls) c h = run-keeps calls (apply call c) (apply-IsValid call c h)

  -- After any calls on a new cache the map and the list hold the same keys, each key stands once in
  -- the list, and the size of the cache is the sum of the sizes of its entries.
  pub run-IsValid : (max_size : ℕ) (calls : List (Call V)) → IsValid (run calls (new max_size))
  run-IsValid max_size calls =
      run-keeps calls (new max_size) (unfold new in empty-IsValid _ refl refl refl)
