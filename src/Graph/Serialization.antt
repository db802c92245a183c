-- ===== src/Graph/Serialization.antt =====
-- pkg/graph/serialization.go: nodes and edges as bytes. `binary.Write` to a bytes.Buffer does not
-- fail. The order in which a `range` loop visits the properties is a parameter.
pub mod Fields
pub mod PropertyMaps
pub mod Nodes
pub mod Edges
pub mod Failures
use crazygraphstore.Common.{
  ℕ, zero, suc, ◌-◌, ◌==◌, ◌≡◌, Bool, true, false, Option, none, some, List, [], ◌∷◌, ◌++◌, ltb,
  if◌then◌else◌, length, take, drop, replicate, Bytes, Outcome, ok, err, panic,
}
use crazygraphstore.Common.Maps.{Map, lookup, insert, IsDistinct}
use crazygraphstore.Common.Words.{put_be, get_be}
use crazygraphstore.Graph.{
  Value, string_value, bytes_value, int_value, int64_value, float64_value, bool_value, other_value,
  Time, Node, Edge,
}

pub data Error : Type 0 where
  unsupported_type eof unexpected_eof unknown_type_byte : Error

abbrev pub type_string : ℕ
type_string = 1

abbrev pub type_int64 : ℕ
type_int64 = 2

abbrev pub type_float64 : ℕ
type_float64 = 3

abbrev pub type_bool : ℕ
type_bool = 4

abbrev pub type_bytes : ℕ
type_bytes = 5

-- writeString; the length is written modulo 2 ^ 32
unfoldable pub write_string : Bytes → Bytes
write_string str = put_be 4 (length str) ++ str

-- writeValue
unfoldable pub write_value : Value → Outcome Error Bytes
unfolding write_string
write_value (string_value s) = ok (type_string ∷ write_string s)
write_value (int_value n) = ok (type_int64 ∷ put_be 8 n)
write_value (int64_value n) = ok (type_int64 ∷ put_be 8 n)
write_value (float64_value n) = ok (type_float64 ∷ put_be 8 n)
write_value (bool_value b) = ok (type_bool ∷ (if b then 1 else 0) ∷ [])
write_value (bytes_value s) = ok (type_bytes ∷ (put_be 4 (length s) ++ s))
write_value other_value = err unsupported_type

-- the loop over the labels
unfoldable pub write_labels : List Bytes → Bytes
write_labels [] = []
write_labels (l ∷ labels) = write_string l ++ write_labels labels

-- One property behind its value was encoded, and the rest of the loop.
unfoldable pub write_property :
    Bytes → Outcome Error Bytes → Outcome Error Bytes → Outcome Error Bytes
write_property key (ok value) (ok rest) = ok (write_string key ++ (value ++ rest))
write_property key (ok value) (err e) = err e
write_property key (ok value) panic = panic
write_property key (err e) rest = err e
write_property key panic rest = panic

-- the loop over the properties
unfoldable pub write_properties : Map Value → Outcome Error Bytes
unfolding write_property write_value
write_properties [] = ok []
write_properties ((key, value) ∷ entries) =
    write_property key (write_value value) (write_properties entries)

-- the version and the two times at the end
unfoldable pub write_stamps : ℕ → Time → Time → Bytes
write_stamps version created updated =
    put_be 8 version ++ (put_be 8 created.seconds ++ put_be 8 updated.seconds)

-- The properties of a map that may be nil.
unfoldable pub entries_of : Option (Map Value) → Map Value
entries_of none = []
entries_of (some m) = m

-- The text before the properties, the properties, and the text behind them.
unfoldable pub around : Bytes → Outcome Error Bytes → Bytes → Outcome Error Bytes
around before (ok text) behind = ok (before ++ (text ++ behind))
around before (err e) behind = err e
around before panic behind = panic

module _ (range : Map Value → Map Value) where
  -- SerializeNode
  unfoldable pub serialize_node : Node → Outcome Error Bytes
  unfolding around write_labels write_properties write_stamps entries_of
  serialize_node n =
      let properties = entries_of n.properties in
      around
        (write_string n.id
          ++ (put_be 4 (length n.labels)
              ++ (write_labels n.labels ++ put_be 4 (length properties))))
        (write_properties (range properties)) (write_stamps n.version n.created_at n.updated_at)

  -- SerializeEdge
  unfoldable pub serialize_edge : Edge → Outcome Error Bytes
  unfolding around write_properties write_stamps entries_of
  serialize_edge e =
      let properties = entries_of e.properties in
      around
        (write_string e.id
          ++ (write_string e.from_node_id
              ++ (write_string e.to_node_id
                  ++ (write_string e.edge_type ++ put_be 4 (length properties)))))
        (write_properties (range properties)) (write_stamps e.version e.created_at e.updated_at)

-- A read from the front of a bytes.Reader: a value and the bytes left, or an error.
abbrev pub Reader : Type 0 → Type 0
Reader A = Bytes → Outcome Error (A × Bytes)

infixl 5 ◌>>=◌
unfoldable pub ◌>>=◌ :
    {A B : Type 0}
    → (Bytes → Outcome Error (A × Bytes))
    → (A → Bytes → Outcome Error (B × Bytes))
    → Bytes
    → Outcome Error (B × Bytes)
◌>>=◌ m f input = elim (m input) [ ok (a, rest) ↦ f a rest | err e ↦ err e | panic ↦ panic ]

unfoldable pub pure : {A : Type 0} → A → Reader A
pure a input = ok (a, input)

-- ReadByte
unfoldable pub read_byte : Reader ℕ
read_byte [] = err eof
read_byte (b ∷ rest) = ok (b, rest)

-- binary.Read of a number of `n` bytes
unfoldable pub read_number : ℕ → Reader ℕ
read_number n input =
    if ltb (length input) n
    then elim input [ [] ↦ err eof | _ ∷ _ ↦ err unexpected_eof ]
    else ok (get_be (take n input), drop n input)

-- Read of bytes.Reader into `n` zero bytes: it fails only where nothing is left, even for n = 0,
-- and a shorter rest fills the front.
unfoldable pub read_some : ℕ → Reader Bytes
read_some n [] = err eof
read_some n (b ∷ rest) =
    ok (take n (b ∷ rest) ++ replicate (n - length (b ∷ rest)) 0, drop n (b ∷ rest))

-- readString
unfoldable pub read_string : Reader Bytes
unfolding read_some
read_string = do size ← read_number 4; read_some size

-- readValue after the type byte
unfoldable pub read_typed : ℕ → Reader Value
unfolding read_string
read_typed type_byte =
    if type_byte == type_string
    then (read_string >>= λ s. pure (string_value s))
    else if type_byte == type_int64
    then (read_number 8 >>= λ n. pure (int64_value n))
    else if type_byte == type_float64
    then (read_number 8 >>= λ n. pure (float64_value n))
    else if type_byte == type_bool
    then (read_byte >>= λ b. pure (bool_value (b == 1)))
    else if type_byte == type_bytes
    then (read_number 4 >>= λ size. read_some size >>= λ s. pure (bytes_value s))
    else λ input. err unknown_type_byte

-- readValue
unfoldable pub read_value : Reader Value
unfolding read_typed
read_value = do type_byte ← read_byte; read_typed type_byte

-- the loop over the labels
unfoldable pub read_labels : ℕ → Reader (List Bytes)
read_labels zero = pure []
read_labels (suc n) = do label ← read_string; labels ← read_labels n; pure (label ∷ labels)

-- the loop over the properties, into the map that is given
unfoldable pub read_properties : ℕ → Map Value → Reader (Map Value)
read_properties zero m = pure m
read_properties (suc n) m = do
  key ← read_string
  value ← read_value
  read_properties n (insert key value m)

-- `time.Unix(seconds, 0)`
abbrev pub unix : ℕ → Time
unix seconds = record { seconds = seconds; nanoseconds = 0 }

-- the reads of DeserializeNode
unfoldable pub read_node : Reader Node
unfolding read_labels read_properties
read_node = do
  id ← read_string
  label_count ← read_number 4
  labels ← read_labels label_count
  property_count ← read_number 4
  properties ← read_properties property_count []
  version ← read_number 8
  created ← read_number 8
  updated ← read_number 8
  pure (record {
    id = id;
    labels = labels;
    properties = some properties;
    version = version;
    created_at = unix created;
    updated_at = unix updated;
  })

-- the reads of DeserializeEdge
unfoldable pub read_edge : Reader Edge
unfolding read_properties
read_edge = do
  id ← read_string
  from ← read_string
  to ← read_string
  edge_type ← read_string
  property_count ← read_number 4
  properties ← read_properties property_count []
  version ← read_number 8
  created ← read_number 8
  updated ← read_number 8
  pure (record {
    id = id;
    from_node_id = from;
    to_node_id = to;
    edge_type = edge_type;
    properties = some properties;
    version = version;
    created_at = unix created;
    updated_at = unix updated;
  })

-- What a call returns: the bytes left over are ignored.
unfoldable pub result_of : {A : Type 0} → Outcome Error (A × Bytes) → Outcome Error A
result_of (ok (a, rest)) = ok a
result_of (err e) = err e
result_of panic = panic

-- DeserializeNode
unfoldable pub deserialize_node : Bytes → Outcome Error Node
unfolding read_node result_of
deserialize_node bytes = result_of (read_node bytes)

-- DeserializeEdge
unfoldable pub deserialize_edge : Bytes → Outcome Error Edge
unfolding read_edge result_of
deserialize_edge bytes = result_of (read_edge bytes)
