-- ===== src/Graph/Serialization/PropertyMaps.antt =====
-- The properties of a node or an edge are read back into a map.
use crazygraphstore.Common.{
  ◌<◌, ◌^◌, ◌≡◌, refl, sym, ap, ◌∙◌, Option, none, some, [], ◌∷◌, ◌++◌, append_assoc, arith, length,
  length-append, All, Bytes, bytes_eq_iff, ok,
}
use mathlib.Core.Option
use crazygraphstore.Common.Maps.{Map, lookup, insert, IsDistinct}
use crazygraphstore.Common.Words.{put_be}
use crazygraphstore.Graph.{Value, insert_all, IsRange}
use crazygraphstore.Graph.Properties.{or_else, lookup-insert_all}
use crazygraphstore.Graph.Serialization.{
  write_string, write_property, write_properties, entries_of, Reader, ◌>>=◌, pure, read_number,
  read_string, read_value, read_properties,
}
use crazygraphstore.Graph.Serialization.Fields.{
  bind_step, IsShort, read_number-put_be, read_string-text, stored, IsValue, value_text,
  write_value-text, read_value-text,
}

abbrev pub IsProperty : Bytes × Value → Type 0
IsProperty (key, value) = IsShort key × IsValue value

pub properties_text : Map Value → Bytes
properties_text [] = []
properties_text ((key, value) ∷ es) = write_string key ++ (value_text value ++ properties_text es)

pub write_properties-text :
    (es : Map Value) → All IsProperty es → write_properties es ≡ ok (properties_text es)
unfolding write_properties properties_text
write_properties-text [] h = refl
write_properties-text ((key, value) ∷ es) h =
    rw (write_value-text value h.0.1, write_properties-text es h.1) (unfold write_property in refl)

pub stored_all : Map Value → Map Value
stored_all [] = []
stored_all ((key, value) ∷ es) = (key, stored value) ∷ stored_all es

pub lookup-stored_all :
    (k : Bytes) (es : Map Value) → lookup k (stored_all es) ≡ Option.map stored (lookup k es)
unfolding lookup stored_all
lookup-stored_all k [] = refl
lookup-stored_all k ((j, v) ∷ es) = ground (arith, lookup-stored_all k es)

pub stored_all-IsDistinct : (es : Map Value) → IsDistinct es → IsDistinct (stored_all es)
unfolding stored_all
stored_all-IsDistinct [] h = tt
stored_all-IsDistinct ((k, v) ∷ es) h =
    (lookup-stored_all k es ∙ ap (Option.map stored) h.0, stored_all-IsDistinct es h.1)

pub read_properties-text :
    (es m : Map Value) (rest : Bytes)
    → All IsProperty es
    → 0 < length rest
    → read_properties (length es) m (properties_text es ++ rest)
      ≡ ok (insert_all (stored_all es) m, rest)
unfolding read_properties properties_text stored_all insert_all
read_properties-text [] m rest h more = unfold pure in refl
read_properties-text ((key, value) ∷ es) m rest h more =
    let tail : Bytes = properties_text es ++ rest in
    let long : 0 < length tail = omega (arith, length-append (properties_text es) rest) in
    let long' : 0 < length (value_text value ++ tail) =
      omega (arith, length-append (value_text value) tail) in
    rw
      (
        append_assoc (write_string key) (value_text value ++ properties_text es) rest,
        append_assoc (value_text value) (properties_text es) rest,
      )
      (bind_step read_string _ (read_string-text key (value_text value ++ tail) h.0.0 long'))
    ∙ bind_step read_value (λ (v : Value). read_properties (length es) (insert key v m))
        (read_value-text value tail h.0.1 long)
    ∙ read_properties-text es (insert key (stored value) m) rest h.1 more

pub All-of_lookup :
    (es : Map Value)
    → IsDistinct es
    → ((k : Bytes) (v : Value) → lookup k es ≡ some v → IsProperty (k, v))
    → All IsProperty es
unfolding lookup
All-of_lookup [] d h = tt
All-of_lookup ((j, w) ∷ es) d h = (
  h j w (ground (arith, bytes_eq_iff j j)),
  All-of_lookup es d.1 (λ k v e. h k v (ground (arith, bytes_eq_iff j k, d.0))),
)

-- The properties can be written: each key stands once, and the keys and values fit their widths.
pub record HasProperties (properties : Option (Map Value)) : Type 0 where
  pub count_fits : length (entries_of properties) < 2 ^ 32
  pub distinct_keys : IsDistinct (entries_of properties)
  pub fit : (k : Bytes) (v : Value) → lookup k (entries_of properties) ≡ some v → IsProperty (k, v)

-- The map holds what was written of the properties.
abbrev pub Holds : Map Value → Option (Map Value) → Type 0
Holds m properties = (k : Bytes) → lookup k m ≡ Option.map stored (lookup k (entries_of properties))

module _ (range : Map Value → Map Value) (order : IsRange range) where
  -- What the loop over the properties writes, and what is read of it.
  pub properties_part : Option (Map Value) → Bytes
  properties_part p = properties_text (range (entries_of p))

  pub properties_read : Option (Map Value) → Map Value
  properties_read p = insert_all (stored_all (range (entries_of p))) []

  pub range-All : (p : Option (Map Value)) → HasProperties p → All IsProperty (range (entries_of p))
  range-All p h =
      All-of_lookup (range (entries_of p)) (order.distinct (entries_of p) h.distinct_keys)
        (λ k v e. h.fit k v (sym (order.visits k (entries_of p)) ∙ e))

  pub properties_read-Holds :
      (p : Option (Map Value)) → HasProperties p → Holds (properties_read p) p
  unfolding properties_read
  properties_read-Holds p h k =
      let d = order.distinct (entries_of p) h.distinct_keys in
      lookup-insert_all k (stored_all (range (entries_of p))) []
        (stored_all-IsDistinct (range (entries_of p)) d)
      ∙ rw (lookup-stored_all k (range (entries_of p)), order.visits k (entries_of p))
          (unfold lookup in go (lookup k (entries_of p)))
    where
      go : (o : Option Value) → or_else (Option.map stored o) none ≡ Option.map stored o
      go none = refl
      go (some v) = refl

  pub properties_written :
      (p : Option (Map Value))
      → HasProperties p
      → write_properties (range (entries_of p)) ≡ ok (properties_part p)
  unfolding properties_part
  properties_written p h = write_properties-text (range (entries_of p)) (range-All p h)

  pub properties_step :
      {B : Type 0} (f : Map Value → Reader B) (p : Option (Map Value)) (rest : Bytes)
      → HasProperties p
      → 0 < length rest
      → (read_number 4 >>= λ c. read_properties c [] >>= f)
          (put_be 4 (length (entries_of p)) ++ (properties_part p ++ rest))
        ≡ f (properties_read p) rest
  unfolding properties_part properties_read
  properties_step f p rest h more =
      bind_step (read_number 4) _ (
        read_number-put_be 4 (length (entries_of p)) (properties_part p ++ rest)
          (omega (arith, h.count_fits)))
      ∙ rw (← order.once (entries_of p)) (
          bind_step (read_properties (length (range (entries_of p))) []) f
            (read_properties-text (range (entries_of p)) [] rest (range-All p h) more))
