-- ===== src/Memtable/Adjacency.antt =====
-- pkg/memtable/memtable.go: `AdjacencyMemtable`. A node's edge IDs stand in one value, each with a
-- comma behind it. A nil slice of IDs is the empty list.
pub mod EdgeList
pub mod History
use crazygraphstore.Common.{
  ℕ, ◌==◌, Option, none, some, List, [], ◌∷◌, ◌++◌, if◌then◌else◌, Bytes, bytes_eq, Outcome,
}
use crazygraphstore.Common.Runes.{runes}
use crazygraphstore.Memtable.{Memtable, Error, get, put}

-- the prefixes "adj:out:" and "adj:in:" of the keys
abbrev pub out_key : Bytes → Bytes
out_key node = b'a' ∷ b'd' ∷ b'j' ∷ b':' ∷ b'o' ∷ b'u' ∷ b't' ∷ b':' ∷ node

abbrev pub in_key : Bytes → Bytes
in_key node = b'a' ∷ b'd' ∷ b'j' ∷ b':' ∷ b'i' ∷ b'n' ∷ b':' ∷ node

-- The slice that Get returns: nil, for a missing key and for a tombstone, is the empty one.
abbrev pub bytes_of : Option (Option Bytes) → Bytes
bytes_of (some (some v)) = v
bytes_of (some none) = []
bytes_of none = []

-- AddOutgoingEdge
unfoldable pub add_outgoing_edge : Bytes → Bytes → Memtable → Memtable × Outcome Error Unit
add_outgoing_edge node edge m =
    put (out_key node) (bytes_of (get (out_key node) m) ++ (edge ++ b',' ∷ [])) m

-- AddIncomingEdge
unfoldable pub add_incoming_edge : Bytes → Bytes → Memtable → Memtable × Outcome Error Unit
add_incoming_edge node edge m =
    put (in_key node) (bytes_of (get (in_key node) m) ++ (edge ++ b',' ∷ [])) m

-- the loop of parseEdgeList: the runes left, each as its `string(ch)`, `current` and `edges`
unfoldable pub parse_loop : List Bytes → Bytes → List Bytes → List Bytes
parse_loop [] current edges = edges
parse_loop (ch ∷ text) current edges =
    let flush = parse_loop text [] (if bytes_eq current [] then edges else edges ++ current ∷ []) in
    let grow = parse_loop text (current ++ ch) edges in
    if bytes_eq ch (b',' ∷ []) then flush else grow

-- parseEdgeList
unfoldable pub parse_edge_list : Bytes → List Bytes
unfolding parse_loop runes
parse_edge_list text = if bytes_eq text [] then [] else parse_loop (runes text) [] []

-- The IDs in what Get returned.
unfoldable pub ids_of : Option (Option Bytes) → List Bytes
ids_of none = []
ids_of (some value) = parse_edge_list (bytes_of (some value))

-- GetOutgoingEdges
unfoldable pub get_outgoing_edges : Bytes → Memtable → List Bytes
unfolding ids_of
get_outgoing_edges node m = ids_of (get (out_key node) m)

-- GetIncomingEdges
unfoldable pub get_incoming_edges : Bytes → Memtable → List Bytes
unfolding ids_of
get_incoming_edges node m = ids_of (get (in_key node) m)
