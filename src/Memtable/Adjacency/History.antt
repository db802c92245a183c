-- ===== src/Memtable/Adjacency/History.antt =====
-- What an adjacency memtable returns after any sequence of successful calls.
use crazygraphstore.Common.{
  ◌≡◌, refl, ap, ◌∙◌, false, Option, none, some, List, [], ◌∷◌, ◌++◌, append-nil, append_assoc,
  arith, All, if◌then◌else◌, Bytes, bytes_eq, bytes_eq_iff, Outcome, ok, err, panic, ℕ, Bool,
  ok-injective, if_rule,
}
use crazygraphstore.Common.Maps.{lookup}
use crazygraphstore.Memtable.{Memtable, Error, new, get, put}
use crazygraphstore.Memtable.Reads.{get-put}
use crazygraphstore.Memtable.Adjacency.{
  out_key, in_key, bytes_of, add_outgoing_edge, add_incoming_edge, parse_edge_list, ids_of,
  get_outgoing_edges, get_incoming_edges,
}
use crazygraphstore.Memtable.Adjacency.EdgeList.{
  IsPlain, encoding, encoding-snoc, parse_edge_list-encoding,
}

pub data Call : Type 0 where
  outgoing incoming : Bytes → Bytes → Call

unfoldable pub apply : Call → Memtable → Memtable × Outcome Error Unit
apply (outgoing node edge) m = add_outgoing_edge node edge m
apply (incoming node edge) m = add_incoming_edge node edge m

-- The calls one after another, until one fails.
unfoldable pub run : List Call → Memtable → Outcome Error Memtable
run [] m = ok m
run (c ∷ cs) m =
    let (m', r) = apply c m in elim r [ ok _ ↦ run cs m' | err e ↦ err e | panic ↦ panic ]

-- The edges that the calls added to a node.
unfoldable pub out_of : Bytes → List Call → List Bytes
out_of node [] = []
out_of node (outgoing n e ∷ cs) = if bytes_eq n node then e ∷ out_of node cs else out_of node cs
out_of node (incoming n e ∷ cs) = out_of node cs

unfoldable pub in_of : Bytes → List Call → List Bytes
in_of node [] = []
in_of node (outgoing n e ∷ cs) = in_of node cs
in_of node (incoming n e ∷ cs) = if bytes_eq n node then e ∷ in_of node cs else in_of node cs

abbrev pub EdgeIsPlain : Call → Type 0
EdgeIsPlain (outgoing n e) = IsPlain e
EdgeIsPlain (incoming n e) = IsPlain e

record Tracks (out_ids in_ids : Bytes → List Bytes) (m : Memtable) : Type 0 where
  outs : (node : Bytes) → bytes_of (get (out_key node) m) ≡ encoding (out_ids node)
  ins : (node : Bytes) → bytes_of (get (in_key node) m) ≡ encoding (in_ids node)

-- The IDs of a node after one more call.
abbrev push_out : Call → (Bytes → List Bytes) → Bytes → List Bytes
push_out (outgoing n e) ids node = if bytes_eq n node then ids node ++ e ∷ [] else ids node
push_out (incoming n e) ids node = ids node

abbrev push_in : Call → (Bytes → List Bytes) → Bytes → List Bytes
push_in (outgoing n e) ids node = ids node
push_in (incoming n e) ids node = if bytes_eq n node then ids node ++ e ∷ [] else ids node

out_out : (a b : Bytes) → bytes_eq (out_key a) (out_key b) ≡ bytes_eq a b
unfolding bytes_eq
out_out a b = refl

in_in : (a b : Bytes) → bytes_eq (in_key a) (in_key b) ≡ bytes_eq a b
unfolding bytes_eq
in_in a b = refl

out_in : (a b : Bytes) → bytes_eq (out_key a) (in_key b) ≡ false
unfolding bytes_eq
out_in a b = refl

in_out : (a b : Bytes) → bytes_eq (in_key a) (out_key b) ≡ false
unfolding bytes_eq
in_out a b = refl

bytes_of-put :
    (k j v : Bytes) (m : Memtable)
    → (put k v m).1 ≡ ok tt
    → bytes_of (get j (put k v m).0) ≡ (if bytes_eq k j then v else bytes_of (get j m))
bytes_of-put k j v m r = ground (arith, get-put k j v m r)

-- What an append to the value of `k` does to the lists that the keys hold.
appended :
    (k j e : Bytes) (m : Memtable) (ids more : List Bytes) (same : Bool)
    → (put k (bytes_of (get k m) ++ (e ++ b',' ∷ [])) m).1 ≡ ok tt
    → bytes_eq k j ≡ same
    → bytes_of (get j m) ≡ encoding ids
    → more ≡ (if same then ids ++ e ∷ [] else ids)
    → bytes_of (get j (put k (bytes_of (get k m) ++ (e ++ b',' ∷ [])) m).0) ≡ encoding more
appended k j e m ids more same r q h p = ground (
  arith,
  bytes_of-put k j (bytes_of (get k m) ++ (e ++ b',' ∷ [])) m r,
  bytes_eq_iff k j,
  encoding-snoc ids e,
)

Tracks-apply :
    (c : Call) (m : Memtable) (out_ids in_ids : Bytes → List Bytes)
    → (apply c m).1 ≡ ok tt
    → Tracks out_ids in_ids m
    → Tracks (push_out c out_ids) (push_in c in_ids) (apply c m).0
unfolding apply add_outgoing_edge add_incoming_edge
Tracks-apply (outgoing n e) m out_ids in_ids r t = record {
  outs =
      λ node. appended (out_key n) (out_key node) e m _ _ _ r (out_out n node) (t.outs node) refl;
  ins = λ node. appended (out_key n) (in_key node) e m _ _ _ r (out_in n node) (t.ins node) refl;
}
Tracks-apply (incoming n e) m out_ids in_ids r t = record {
  outs = λ node. appended (in_key n) (out_key node) e m _ _ _ r (in_out n node) (t.outs node) refl;
  ins = λ node. appended (in_key n) (in_key node) e m _ _ _ r (in_in n node) (t.ins node) refl;
}

-- One call more at the front is one edge more before the rest.
Tracks-rest :
    (c : Call) (cs : List Call) (out_ids in_ids : Bytes → List Bytes) (m : Memtable)
    → Tracks (λ n. push_out c out_ids n ++ out_of n cs) (λ n. push_in c in_ids n ++ in_of n cs) m
    → Tracks (λ n. out_ids n ++ out_of n (c ∷ cs)) (λ n. in_ids n ++ in_of n (c ∷ cs)) m
unfolding out_of in_of
Tracks-rest (outgoing n e) cs out_ids in_ids m t = record {
  outs = λ node. ground (arith, t.outs node, append_assoc (out_ids node) (e ∷ []) (out_of node cs));
  ins = t.ins;
}
Tracks-rest (incoming n e) cs out_ids in_ids m t = record {
  outs = t.outs;
  ins = λ node. ground (arith, t.ins node, append_assoc (in_ids node) (e ∷ []) (in_of node cs));
}

run_step :
    (c : Call) (cs : List Call) (m : Memtable) {m' : Memtable}
    → run (c ∷ cs) m ≡ ok m'
    → ((apply c m).1 ≡ ok tt) × (run cs (apply c m).0 ≡ ok m')
unfolding run
run_step c cs m h = ground arith

Tracks-run :
    (cs : List Call) (m : Memtable) {m' : Memtable} (out_ids in_ids : Bytes → List Bytes)
    → run cs m ≡ ok m'
    → Tracks out_ids in_ids m
    → Tracks (λ n. out_ids n ++ out_of n cs) (λ n. in_ids n ++ in_of n cs) m'
Tracks-run [] m {m'} out_ids in_ids r t =
    let e : m ≡ m' = ok-injective {E = Error} (unfold run in r) in
    unfold out_of in_of in
    record {
      outs = λ n. rw (append-nil, ← e) (t.outs n);
      ins = λ n. rw (append-nil, ← e) (t.ins n);
    }
Tracks-run (c ∷ cs) m {m'} out_ids in_ids r t =
    let (first, rest) = run_step c cs m r in
    Tracks-rest c cs out_ids in_ids m' (
      Tracks-run cs (apply c m).0 (push_out c out_ids) (push_in c in_ids) rest
        (Tracks-apply c m out_ids in_ids first t))

ids_of_lem : (o : Option (Option Bytes)) → ids_of o ≡ parse_edge_list (bytes_of o)
unfolding ids_of parse_edge_list bytes_eq
ids_of_lem none = refl
ids_of_lem (some value) = refl

out_of-IsPlain : (node : Bytes) (cs : List Call) → All EdgeIsPlain cs → All IsPlain (out_of node cs)
unfolding out_of
out_of-IsPlain node [] h = tt
out_of-IsPlain node (outgoing n e ∷ cs) h =
    if_rule (All IsPlain) (bytes_eq n node) (λ _. (h.0, out_of-IsPlain node cs h.1))
      λ _. out_of-IsPlain node cs h.1
out_of-IsPlain node (incoming n e ∷ cs) h = out_of-IsPlain node cs h.1

in_of-IsPlain : (node : Bytes) (cs : List Call) → All EdgeIsPlain cs → All IsPlain (in_of node cs)
unfolding in_of
in_of-IsPlain node [] h = tt
in_of-IsPlain node (incoming n e ∷ cs) h =
    if_rule (All IsPlain) (bytes_eq n node) (λ _. (h.0, in_of-IsPlain node cs h.1))
      λ _. in_of-IsPlain node cs h.1
in_of-IsPlain node (outgoing n e ∷ cs) h = in_of-IsPlain node cs h.1

Tracks-new : (max_size : ℕ) → Tracks (λ _. []) (λ _. []) (new max_size)
unfolding new get lookup encoding
Tracks-new max_size = record { outs = λ n. refl; ins = λ n. refl }

-- After any sequence of AddOutgoingEdge and AddIncomingEdge calls that all succeed on a new table,
-- with edge IDs that are not empty, hold no comma and are valid UTF-8, GetOutgoingEdges and
-- GetIncomingEdges return for every node exactly the edges that were added to it in that direction,
-- in order.
pub run-edges :
    (cs : List Call) (max_size : ℕ) {m : Memtable} (node : Bytes)
    → All EdgeIsPlain cs
    → run cs (new max_size) ≡ ok m
    → (get_outgoing_edges node m ≡ out_of node cs) × (get_incoming_edges node m ≡ in_of node cs)
unfolding get_outgoing_edges get_incoming_edges
run-edges cs max_size {m} node h r =
    let t = Tracks-run cs (new max_size) (λ _. []) (λ _. []) r (Tracks-new max_size) in
    (
      ids_of_lem (get (out_key node) m)
          ∙ ap parse_edge_list (t.outs node)
          ∙ parse_edge_list-encoding (out_of node cs) (out_of-IsPlain node cs h),
      ids_of_lem (get (in_key node) m)
          ∙ ap parse_edge_list (t.ins node)
          ∙ parse_edge_list-encoding (in_of node cs) (in_of-IsPlain node cs h),
    )
