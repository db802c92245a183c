-- ===== src/Cache/Levels/Invalidation.antt =====
-- What the tiers of a multi-level cache still hold after an invalidation.
use crazygraphstore.Common.{
  ◌≡◌, refl, sym, ap, ◌∙◌, inl, inr, Bool, true, false, Option, none, some, List, Bytes, bytes_eq,
  bytes_eq_iff, bytes_eq_refl, if◌then◌else◌, ok, Bool-cases,
}
use mathlib.Core.Option
use crazygraphstore.Graph.{Node, Direction, direction_out, direction_in, direction_both}
use crazygraphstore.Cache.{
  Entry, Cache, find_entry, element_of, get_found, get, remove_element, invalidate_found,
  invalidate,
}
use crazygraphstore.Cache.Lists.{find_entry-key, find_entry-remove_entry}
use crazygraphstore.Cache.Invariant.{IsValid, element_of_lem}
use crazygraphstore.Cache.Calls.{invalidate-IsValid, get-IsValid, put-IsValid}
use crazygraphstore.Cache.Levels.{
  Cached, Levels, as_node, as_edge, as_strings, connection_key, get_node, get_edge,
  get_connection_list, invalidate_node, put_node_by_id, put_hot, cached_node, estimate_node_size,
}

map_if :
    {A W : Type 0} (f : A → W) (b : Bool) (o : Option A)
    → Option.map f (if b then none else o) ≡ (if b then none else Option.map f o)
map_if f true o = refl
map_if f false o = refl

none_if : {A : Type 0} (b : Bool) → ◌≡◌ {A = Option A} (if b then none else none) none
none_if true = refl
none_if false = refl

module _ {V : Type 0} where
  -- What Get returns.
  pub value_at : Bytes → Cache V → Option V
  value_at key c = (get key c).1

  found_value :
      (o : Option (Entry V)) (c : Cache V)
      → (get_found o c).1 ≡ Option.map (λ (e : Entry V). e.value) o
  unfolding get_found
  found_value none c = refl
  found_value (some e) c = refl

  value_at_lem :
      (key : Bytes) (c : Cache V)
      → IsValid c
      → value_at key c ≡ Option.map (λ (e : Entry V). e.value) (find_entry key c.evict_list)
  unfolding value_at get
  value_at_lem key c h =
      found_value (element_of key c) c
      ∙ ap (Option.map (λ (e : Entry V). e.value)) (element_of_lem key c h)

  drop_missing :
      (k j : Bytes) (es : List (Entry V))
      → find_entry k es ≡ none
      → find_entry j es ≡ (if bytes_eq k j then none else find_entry j es)
  drop_missing k j es h = elim (Bool-cases (bytes_eq k j)) [
    | inl same ↦ rw same (ap (λ (t : Bytes). find_entry t es) (sym ((bytes_eq_iff k j).0 same)) ∙ h)
    | inr other ↦ rw other refl
  ]

  find_entry-invalidate :
      (k j : Bytes) (o : Option (Entry V)) (c : Cache V)
      → IsValid c
      → find_entry k c.evict_list ≡ o
      → find_entry j (invalidate_found o c).evict_list
        ≡ (if bytes_eq k j then none else find_entry j c.evict_list)
  unfolding invalidate_found
  find_entry-invalidate k j none c h f = drop_missing k j c.evict_list f
  find_entry-invalidate k j (some e) c h f =
      (unfold remove_element in find_entry-remove_entry j e.key c.evict_list h.distinct_keys)
      ∙ ap (λ (t : Bytes). if bytes_eq t j then none else find_entry j c.evict_list)
          (find_entry-key k c.evict_list e f)

  -- Invalidate takes away its key and no other.
  pub value_at-invalidate :
      (k j : Bytes) (c : Cache V)
      → IsValid c
      → value_at j (invalidate k c) ≡ (if bytes_eq k j then none else value_at j c)
  unfolding invalidate
  value_at-invalidate k j c h =
      value_at_lem j (invalidate k c) (invalidate-IsValid k c h)
      ∙ ap (Option.map (λ (e : Entry V). e.value))
          (find_entry-invalidate k j (element_of k c) c h (sym (element_of_lem k c h)))
      ∙ map_if (λ (e : Entry V). e.value) (bytes_eq k j) (find_entry j c.evict_list)
      ∙ ap (λ (o : Option V). if bytes_eq k j then none else o) (sym (value_at_lem j c h))

  gone_after :
      (k j : Bytes) (c : Cache V)
      → IsValid c
      → value_at j c ≡ none
      → value_at j (invalidate k c) ≡ none
  gone_after k j c h gone =
      value_at-invalidate k j c h
      ∙ ap (λ (o : Option V). if bytes_eq k j then none else o) gone
      ∙ none_if (bytes_eq k j)

  gone : (k : Bytes) (c : Cache V) → IsValid c → value_at k (invalidate k c) ≡ none
  gone k c h =
      value_at-invalidate k k c h
      ∙ ap (λ (b : Bool). if b then none else value_at k c) (bytes_eq_refl k)

-- The map, the list and the size of each tier agree.
pub record AllValid (l : Levels) : Type 0 where
  pub hot_valid : IsValid l.hot
  pub connection_valid : IsValid l.connection
  pub data_valid : IsValid l.data_tier

pub put_node_by_id-AllValid : (n : Node) (l : Levels) → AllValid l → AllValid (put_node_by_id n l).0
unfolding put_node_by_id put_hot
put_node_by_id-AllValid n l h = record {
  hot_valid = put-IsValid n.id (cached_node n) (estimate_node_size n) l.hot h.hot_valid;
  connection_valid = h.connection_valid;
  data_valid = h.data_valid;
}

pub get_node-AllValid : (id : Bytes) (l : Levels) → AllValid l → AllValid (get_node id l).0
unfolding get_node
get_node-AllValid id l h = record {
  hot_valid = get-IsValid id l.hot h.hot_valid;
  connection_valid = h.connection_valid;
  data_valid = h.data_valid;
}

-- Invalidation of the three directions leaves nothing under any of them.
in_valid :
    (id : Bytes) (c : Cache Cached)
    → IsValid c
    → IsValid (invalidate (connection_key id direction_out) c)
in_valid id c h = invalidate-IsValid (connection_key id direction_out) c h

both_valid :
    (id : Bytes) (c : Cache Cached)
    → IsValid c
    → IsValid (
        invalidate
          (connection_key id direction_in)
          (invalidate (connection_key id direction_out) c))
both_valid id c h = invalidate-IsValid (connection_key id direction_in) _ (in_valid id c h)

connections_gone :
    (id : Bytes) (d : Direction) (c : Cache Cached)
    → IsValid c
    → value_at (connection_key id d) (
        invalidate (connection_key id direction_both) (
          invalidate
            (connection_key id direction_in)
            (invalidate (connection_key id direction_out) c)))
      ≡ none
connections_gone id direction_both c h = gone _ _ (both_valid id c h)
connections_gone id direction_in c h =
    gone_after _ _ _ (both_valid id c h) (gone _ _ (in_valid id c h))
connections_gone id direction_out c h =
    gone_after _ _ _ (both_valid id c h) (gone_after _ _ _ (in_valid id c h) (gone _ c h))

module _ (id : Bytes) (l : Levels) (h : AllValid l) where
  invalidate_node-AllValid : AllValid (invalidate_node id l)
  unfolding invalidate_node
  invalidate_node-AllValid = record {
    hot_valid = invalidate-IsValid id l.hot h.hot_valid;
    connection_valid =
        invalidate-IsValid (connection_key id direction_both) _
          (both_valid id l.connection h.connection_valid);
    data_valid = invalidate-IsValid id l.data_tier h.data_valid;
  }

  node_or_none :
      (b : Bool) (o : Option Cached)
      → as_node (if b then none else o) ≡ (if b then ok none else as_node o)
  node_or_none true o = unfold as_node in refl
  node_or_none false o = refl

  edge_or_none :
      (b : Bool) (o : Option Cached)
      → as_edge (if b then none else o) ≡ (if b then ok none else as_edge o)
  edge_or_none true o = unfold as_edge in refl
  edge_or_none false o = refl

  -- If the map, the list and the size of each tier agree, then they still do after InvalidateNode
  -- of an ID. GetNode, GetEdge and GetConnectionList in every direction then miss that ID, and
  -- GetNode and GetEdge of any other answer as before.
  pub invalidate_node_lem :
      (j : Bytes) (d : Direction)
      → AllValid (invalidate_node id l)
        × ((get_node j (invalidate_node id l)).1
            ≡ (if bytes_eq id j then ok none else (get_node j l).1))
        × ((get_edge j (invalidate_node id l)).1
            ≡ (if bytes_eq id j then ok none else (get_edge j l).1))
        × ((get_connection_list id d (invalidate_node id l)).1 ≡ ok none)
  unfolding invalidate_node get_node get_edge get_connection_list value_at
  invalidate_node_lem j d = (
    invalidate_node-AllValid,
    ap as_node (value_at-invalidate id j l.hot h.hot_valid)
        ∙ node_or_none (bytes_eq id j) (value_at j l.hot),
    ap as_edge (value_at-invalidate id j l.data_tier h.data_valid)
        ∙ edge_or_none (bytes_eq id j) (value_at j l.data_tier),
    ap as_strings (connections_gone id d l.connection h.connection_valid)
        ∙ (unfold as_strings in refl),
  )
