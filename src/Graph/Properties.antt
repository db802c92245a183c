-- ===== src/Graph/Properties.antt =====
-- Properties after an assignment and in a clone.
use crazygraphstore.Common.{
  ◌≡◌, ◌⊎◌, inl, inr, Option-cases, refl, sym, ap, ◌∙◌, Option, none, some, [], ◌∷◌, arith,
  if◌then◌else◌, Bytes, bytes_eq, bytes_eq_iff,
}
use crazygraphstore.Common.Maps.{Map, lookup, insert, lookup-insert, IsDistinct}
use crazygraphstore.Common.Words.{inc64}
use crazygraphstore.Graph.{
  Value, Time, Node, value_of, property_of, get_property, assign, set_property, insert_all,
  clone_properties, clone_node, IsRange,
}

abbrev empty : Map Value
empty = []

-- The first of two answers that is one.
abbrev pub or_else {ℓ} : {A : Type ℓ} → Option A → Option A → Option A
or_else (some v) other = some v
or_else none other = other

pub lookup-insert_all :
    (k : Bytes) (es m : Map Value)
    → IsDistinct es
    → lookup k (insert_all es m) ≡ or_else (lookup k es) (lookup k m)
unfolding lookup insert_all
lookup-insert_all k [] m h = refl
lookup-insert_all k ((j, v) ∷ es) m h =
    lookup-insert_all k es (insert j v m) h.1
    ∙ ground (arith, lookup-insert j k v m, bytes_eq_iff j k, h.0)

set_property-none :
    (key : Bytes) (value : Value) (now : Time) (n : Node)
    → n.properties ≡ none
    → set_property key value now n ≡ none
unfolding set_property assign
set_property-none key value now n e = rw (e, assign)

set_property-some :
    (key : Bytes) (value : Value) (now : Time) (n : Node) (m : Map Value)
    → n.properties ≡ some m
    → set_property key value now n
      ≡ some (record n {
        properties = some (insert key value m);
        version = inc64 n.version;
        updated_at = now;
      })
unfolding set_property assign
set_property-some key value now n m e = rw (e, assign)

value_of-insert :
    (key k : Bytes) (value : Value) (m : Map Value)
    → value_of (lookup k (insert key value m))
      ≡ (if bytes_eq key k then value else value_of (lookup k m))
value_of-insert key k value m =
    ap value_of (lookup-insert key k value m) ∙ unfold value_of in ground arith

get_property_lem :
    (k : Bytes) (n : Node) (m : Map Value)
    → n.properties ≡ some m
    → get_property k n ≡ value_of (lookup k m)
unfolding get_property property_of
get_property_lem k n m e = rw (e, property_of)

-- SetProperty on a node whose map of properties is nil panics, and on any other node it changes the
-- property that is set and no other, counts the version up, and keeps the ID and the labels.
pub get-set_property :
    (key k : Bytes) (value : Value) (now : Time) (n : Node)
    → ((n.properties ≡ none) × (set_property key value now n ≡ none))
      ⊎ ((n' : Node) × (set_property key value now n ≡ some n')
          × (get_property k n' ≡ (if bytes_eq key k then value else get_property k n))
          × (n'.version ≡ inc64 n.version)
          × (n'.id ≡ n.id)
          × (n'.labels ≡ n.labels))
get-set_property key k value now n = elim (Option-cases n.properties) [
  | inl e ↦ inl (e, set_property-none key value now n e)
  | inr (m, e) ↦
      let n' : Node = record n {
        properties = some (insert key value m);
        version = inc64 n.version;
        updated_at = now;
      } in
      inr (
        n',
        set_property-some key value now n m e,
        get_property_lem k n' (insert key value m) refl
            ∙ value_of-insert key k value m
            ∙ rw (get_property_lem k n m e) refl,
        refl,
        refl,
        refl,
      )
]

or_else-empty : (k : Bytes) (o : Option Value) → or_else o (lookup k empty) ≡ o
unfolding lookup
or_else-empty k none = refl
or_else-empty k (some v) = refl

module _ (range : Map Value → Map Value) (order : IsRange range) where
  clone_properties_lem :
      (n : Node) (m : Map Value)
      → n.properties ≡ some m
      → (clone_node range n).properties ≡ some (insert_all (range m) [])
  unfolding clone_node clone_properties
  clone_properties_lem n m e = rw (e, clone_properties)

  -- A clone of a node whose map of properties is not nil answers for every property as the node
  -- does, in whatever order the properties were copied.
  pub get_property-clone :
      (n : Node) (m : Map Value) (k : Bytes)
      → n.properties ≡ some m
      → IsDistinct m
      → get_property k (clone_node range n) ≡ get_property k n
  get_property-clone n m k e d =
      get_property_lem k (clone_node range n) (insert_all (range m) []) (clone_properties_lem n m e)
      ∙ ap value_of (
          lookup-insert_all k (range m) [] (order.distinct m d)
          ∙ rw (order.visits k m) (or_else-empty k (lookup k m)))
      ∙ sym (get_property_lem k n m e)
