-- ===== src/Memtable/Adjacency/EdgeList.antt =====
-- The edge IDs that were added to a node are the ones that are read back, in order.
use crazygraphstore.Common.{
  ℕ, ◌≡◌, ◌≢◌, refl, sym, ap, ◌∙◌, false, List, [], ◌∷◌, ◌++◌, append-nil, append_assoc, arith, All,
  Bytes, bytes_eq, bytes_eq_iff, bytes_eq_refl, All-append, Bool-cases, inl, inr,
}
use crazygraphstore.Common.Runes.{runes, text_of, IsText, runes-IsRune, runes-text_of}
use crazygraphstore.Memtable.Adjacency.{parse_loop, parse_edge_list}

-- An ID that survives the round trip: not empty, without a comma, and valid UTF-8.
abbrev pub IsPlain : Bytes → Type 0
IsPlain e = (e ≢ []) × All (λ b. b ≢ b',') e × IsText e

-- The value that holds a list of IDs.
unfoldable pub encoding : List Bytes → Bytes
encoding [] = []
encoding (e ∷ es) = e ++ b',' ∷ encoding es

pub encoding-snoc :
    (es : List Bytes) (e : Bytes) → encoding (es ++ e ∷ []) ≡ encoding es ++ (e ++ b',' ∷ [])
unfolding encoding
encoding-snoc [] e = refl
encoding-snoc (d ∷ es) e = simp (encoding-snoc es e, append_assoc)

-- A rune of a text without a comma is no comma.
no_comma : (r text : Bytes) → All (λ b. b ≢ b',') (r ++ text) → bytes_eq r (b',' ∷ []) ≡ false
no_comma r text h = elim (Bool-cases (bytes_eq r (b',' ∷ []))) [
  | inr other ↦ other
  | inl same ↦ absurd (omega (arith, first r ((bytes_eq_iff r (b',' ∷ [])).0 same) h))
]
  where
    first : (r : Bytes) → r ≡ b',' ∷ [] → All (λ b. b ≢ b',') (r ++ text) → ◌≡◌ {A = ℕ} 0 1
    first [] e h = cc
    first (b ∷ r) e h = absurd (h.0 (cc (e)))

-- The runes of an ID are read into `current` up to its comma.
parse_loop-id :
    (rs : List Bytes) (current : Bytes) (more edges : List Bytes)
    → All (λ b. b ≢ b',') (text_of rs)
    → current ++ text_of rs ≢ []
    → parse_loop (rs ++ (b',' ∷ []) ∷ more) current edges
      ≡ parse_loop more [] (edges ++ (current ++ text_of rs) ∷ [])
unfolding parse_loop text_of
parse_loop-id [] current more edges h n = elim (Bool-cases (bytes_eq current [])) [
  | inl e ↦ absurd (n (append-nil current ∙ (bytes_eq_iff current []).0 e))
  | inr e ↦ rw (bytes_eq_refl (b',' ∷ []), append-nil, e) refl
]
parse_loop-id (r ∷ rs) current more edges h n =
    let whole : (current ++ r) ++ text_of rs ≡ current ++ (r ++ text_of rs) =
      append_assoc current r (text_of rs) in
    rw (no_comma r (text_of rs) h) (
      parse_loop-id rs (current ++ r) more edges
        (All-append (λ (b : ℕ). b ≢ b',') r (text_of rs) h).1 (λ p. n (sym whole ∙ p))
      ∙ ap (λ (c : Bytes). parse_loop more [] (edges ++ c ∷ [])) whole)

runes-id :
    (e text : Bytes) (t : IsText e) → runes (e ++ b',' ∷ text) ≡ t.parts ++ (b',' ∷ []) ∷ runes text
runes-id e text t =
    ap (λ (d : Bytes). runes (d ++ b',' ∷ text)) (sym t.whole)
    ∙ runes-text_of t.parts (b',' ∷ text) t.valid
    ∙ ap (λ (rs : List Bytes). t.parts ++ rs) (runes-IsRune (b',' ∷ []) text (omega arith))

parse_loop-encoding :
    (es edges : List Bytes)
    → All IsPlain es
    → parse_loop (runes (encoding es)) [] edges ≡ edges ++ es
unfolding encoding
parse_loop-encoding [] edges h = unfold parse_loop runes in sym (append-nil edges)
parse_loop-encoding (e ∷ es) edges h =
    let t : IsText e = h.0.2 in
    ap (λ (rs : List Bytes). parse_loop rs [] edges) (runes-id e (encoding es) t)
    ∙ parse_loop-id t.parts [] (runes (encoding es)) edges (rw t.whole h.0.1)
        (λ p. h.0.0 (sym t.whole ∙ p))
    ∙ ap (λ (d : Bytes). parse_loop (runes (encoding es)) [] (edges ++ d ∷ [])) t.whole
    ∙ parse_loop-encoding es (edges ++ e ∷ []) h.1
    ∙ append_assoc edges (e ∷ []) es

bytes_eq-append : (e t : Bytes) (b : ℕ) → bytes_eq (e ++ b ∷ t) [] ≡ false
unfolding bytes_eq
bytes_eq-append [] t b = refl
bytes_eq-append (c ∷ e) t b = refl

-- parseEdgeList reads back any list of IDs that are not empty, hold no comma and are valid UTF-8, in
-- order.
pub parse_edge_list-encoding :
    (es : List Bytes) → All IsPlain es → parse_edge_list (encoding es) ≡ es
unfolding parse_edge_list encoding
parse_edge_list-encoding [] h = unfold bytes_eq in refl
parse_edge_list-encoding (e ∷ es) h =
    rw (bytes_eq-append e (encoding es) b',') (parse_loop-encoding (e ∷ es) [] h)

-- An ID that holds a comma between two parts that are not empty, hold no comma and are valid UTF-8 is
-- read back as these two IDs.
pub comma_splits :
    (a b : Bytes)
    → IsPlain a
    → IsPlain b
    → parse_edge_list (encoding ((a ++ b',' ∷ b) ∷ [])) ≡ a ∷ b ∷ []
comma_splits a b ha hb =
    let one : encoding ((a ++ b',' ∷ b) ∷ []) ≡ encoding (a ∷ b ∷ []) =
      unfold encoding in append_assoc a (b',' ∷ b) (b',' ∷ []) in
    rw one (parse_edge_list-encoding (a ∷ b ∷ []) (ha, (hb, tt)))
