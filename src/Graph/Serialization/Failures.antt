-- ===== src/Graph/Serialization/Failures.antt =====
-- Values that cannot be written, and strings that are cut short.
use crazygraphstore.Common.{
  ℕ, zero, suc, ◌-◌, ◌≤◌, ◌<◌, ◌^◌, ◌≡◌, ◌⊎◌, inl, inr, refl, ◌∙◌, some, [], ◌∷◌, ◌++◌, arith,
  length, drop, replicate, take_of_length-le, Bytes, bytes_eq, Outcome, ok, err, Bool-cases,
}
use crazygraphstore.Common.Maps.{Map, lookup}
use crazygraphstore.Common.Words.{put_be}
use crazygraphstore.Graph.{
  Value, string_value, bytes_value, int_value, int64_value, float64_value, bool_value, other_value,
  Node, IsRange,
}
use crazygraphstore.Graph.Serialization.{
  Error, unsupported_type, write_value, write_property, write_properties, entries_of, around,
  serialize_node, read_number, read_some, read_string,
}
use crazygraphstore.Graph.Serialization.Fields.{bind_step, read_number-put_be, read_some_lem}

-- A string whose length, below 2 ^ 32, exceeds the text that is left, which is not empty, is read
-- without an error: zeros stand for the bytes that are missing.
pub read_string_short :
    (n : ℕ) (front : Bytes)
    → 0 < length front
    → length front < n
    → n < 2 ^ 32
    → read_string (put_be 4 n ++ front) ≡ ok (front ++ replicate (n - length front) 0, [])
unfolding read_string
read_string_short n front some_text short fits =
    bind_step (read_number 4) read_some (read_number-put_be 4 n front (omega (arith, fits)))
    ∙ read_some_lem n front some_text
    ∙ rw (take_of_length-le n front (omega arith), drop_past n front (omega arith)) refl
  where
    drop_past : (k : ℕ) (xs : Bytes) → length xs ≤ k → drop k xs ≡ []
    drop_past k [] h = grind arith
    drop_past zero (x ∷ xs) h = absurd (omega arith)
    drop_past (suc k) (x ∷ xs) h = drop_past k xs (omega arith)

write_value_cases :
    (v : Value)
    → (write_value v ≡ err unsupported_type) ⊎ ((text : Bytes) × (write_value v ≡ ok text))
unfolding write_value
write_value_cases (string_value s) = inr (_, refl)
write_value_cases (bytes_value s) = inr (_, refl)
write_value_cases (int_value n) = inr (_, refl)
write_value_cases (int64_value n) = inr (_, refl)
write_value_cases (float64_value n) = inr (_, refl)
write_value_cases (bool_value b) = inr (_, refl)
write_value_cases other_value = inl refl

write_property-err :
    (key : Bytes) (v : Value) (rest : Outcome Error Bytes)
    → (v ≡ other_value) ⊎ (rest ≡ err unsupported_type)
    → write_property key (write_value v) rest ≡ err unsupported_type
unfolding write_property
write_property-err key v rest (inl e) = rw e (unfold write_value write_property in refl)
write_property-err key v rest (inr e) = elim (write_value_cases v) [
  | inl bad ↦ rw (bad, write_property) refl
  | inr (text, good) ↦ rw (good, e, write_property) refl
]

write_properties-err :
    (k : Bytes) (es : Map Value)
    → lookup k es ≡ some other_value
    → write_properties es ≡ err unsupported_type
unfolding lookup write_properties
write_properties-err k [] e = absurd (cc)
write_properties-err k ((j, v) ∷ es) e = elim (Bool-cases (bytes_eq j k)) [
  | inl same ↦ write_property-err j v (write_properties es) (inl (ground arith))
  | inr other ↦
      write_property-err j v (write_properties es) (inr (write_properties-err k es (ground arith)))
]

module _ (range : Map Value → Map Value) (order : IsRange range) where
  -- A node with a property that is nil or of an unsupported type cannot be written, whatever its
  -- other properties are and in whatever order they are visited.
  pub serialize_node-err :
      (n : Node) (k : Bytes)
      → lookup k (entries_of n.properties) ≡ some other_value
      → serialize_node range n ≡ err unsupported_type
  unfolding serialize_node
  serialize_node-err n k e =
      rw
        (write_properties-err k (range (entries_of n.properties))
          (order.visits k (entries_of n.properties) ∙ e))
        (unfold around in refl)
