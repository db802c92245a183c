-- ===== src/Tests/Memtables.antt =====
-- Memtables and adjacency lists.
use crazygraphstore.Common.{
  ℕ, ◌<◌, ◌+◌, ◌≤◌, ◌≡◌, ◌≢◌, ◌↔◌, refl, true, false, none, some, List, [], ◌∷◌, ◌++◌, arith, Bytes,
  bytes_eq, if◌then◌else◌, Outcome, ok, err, panic,
}
use crazygraphstore.Common.Maps.{lookup, insert, delete}
use crazygraphstore.Common.Runes.{runes, runes_after, text_of, IsText}
use crazygraphstore.Memtable.{
  Memtable, Error, size_exceeded, new, store, put, get, bury, remove, freeze, IsRange, delete_each,
  clear, entry_size,
}
use crazygraphstore.Memtable.Invariant.{IsValid}
use crazygraphstore.Memtable.Reads.{get-put, put-panic_iff}
use crazygraphstore.Memtable.Frozen.{Reach, here, next, put_step, remove_step, reachable-IsValid}
use crazygraphstore.Memtable.Adjacency.{
  add_outgoing_edge, add_incoming_edge, get_outgoing_edges, get_incoming_edges, parse_loop,
  parse_edge_list,
}
use crazygraphstore.Memtable.Adjacency.EdgeList.{encoding, comma_splits}
use crazygraphstore.Memtable.Adjacency.History.{
  Call, outgoing, incoming, apply, run, out_of, in_of, run-edges,
}

program : Unit {0}
unfolding new store put get bury remove freeze lookup insert delete bytes_eq parse_edge_list
    parse_loop get_outgoing_edges get_incoming_edges add_outgoing_edge add_incoming_edge run apply
    encoding delete_each clear
program = tt

abbrev a : Bytes
a = b'a' ∷ []

abbrev b : Bytes
b = b'b' ∷ []

-- A table with one entry, one with a tombstone, and a frozen one.
abbrev one : Memtable
one = (put a (1 ∷ 2 ∷ []) (new 100)).0

abbrev buried : Memtable
buried = (remove a one).0

abbrev frozen : Memtable
frozen = freeze one

one_size : (one.size ≡ 3) × (one.count ≡ 1) × (buried.size ≡ 1) × (buried.count ≡ 1)
unfolding program
one_size = (refl, refl, refl, refl)

-- A Put on a tombstone stores the value and panics.
put_on_tombstone :
    ((put a (3 ∷ []) buried).1 ≡ panic) × (get a (put a (3 ∷ []) buried).0 ≡ some (some (3 ∷ [])))
unfolding program
put_on_tombstone = (refl, refl)

one-Reach : Reach (new 100) one
unfolding program
one-Reach = next here (put_step a (1 ∷ 2 ∷ []) (new 100) (λ e. cc))

one-IsValid : IsValid one
one-IsValid = reachable-IsValid 100 one-Reach

buried_frozen : (buried.frozen ≡ false) × (one.frozen ≡ false) × (frozen.frozen ≡ true)
unfolding program
buried_frozen = (refl, refl, refl)

put_one : (put a (1 ∷ 2 ∷ []) (new 100)).1 ≡ ok tt
unfolding program
put_one = refl

one_removed : (remove a one).1 ≡ ok tt
unfolding program
one_removed = refl

put_too_large : (put a (1 ∷ 2 ∷ []) (new 2)).1 ≡ err size_exceeded
unfolding program
put_too_large = refl

one_got : get a one ≡ some (some (1 ∷ 2 ∷ []))
unfolding program
one_got = refl

reachable-IsValid_example : IsValid buried
reachable-IsValid_example = reachable-IsValid 100 (next one-Reach (remove_step a one))

get-put_example :
    get b (put a (1 ∷ 2 ∷ []) (new 100)).0
    ≡ (if bytes_eq a b then some (some (1 ∷ 2 ∷ [])) else get b (new 100))
get-put_example = get-put a b (1 ∷ 2 ∷ []) (new 100) put_one

put-panic_iff_example : ((put a (3 ∷ []) buried).1 ≡ panic) ↔ (
    (buried.frozen ≡ false)
    × (a ≢ [])
    × (buried.size + entry_size a (3 ∷ []) ≤ buried.max_size)
    × (get a buried ≡ some none))
put-panic_iff_example = put-panic_iff a (3 ∷ []) buried

same_order : IsRange (λ m. m)
same_order = record { visits = λ k m. refl; once = λ m. refl }

abbrev calls : List Call
calls = outgoing a (5 ∷ []) ∷ incoming b (5 ∷ []) ∷ outgoing a (195 ∷ 188 ∷ 6 ∷ []) ∷ []

-- The table after the calls, if they all succeed.
abbrev after_calls : Outcome Error Memtable → Memtable
after_calls (ok m) = m
after_calls _ = new 0

calls_ok : run calls (new 1000) ≡ ok (after_calls (run calls (new 1000)))
unfolding program
calls_ok = refl

-- An ID of one character, and one of two.
one_rune : (b : ℕ) → b < 128 → IsText (b ∷ [])
unfolding text_of
one_rune b h = record { parts = (b ∷ []) ∷ []; valid = (h, tt); whole = refl }

two_runes : IsText (195 ∷ 188 ∷ 6 ∷ [])
unfolding text_of
two_runes = record {
  parts = (195 ∷ 188 ∷ []) ∷ (6 ∷ []) ∷ [];
  valid = ((omega arith, omega arith, (omega arith, omega arith)), (omega arith, tt));
  whole = refl;
}

-- A byte that is not valid UTF-8 comes back as the replacement character.
not_text : parse_edge_list (255 ∷ b',' ∷ []) ≡ (239 ∷ 191 ∷ 189 ∷ []) ∷ []
unfolding program runes runes_after
not_text = refl

run-edges_example :
    (get_outgoing_edges a (after_calls (run calls (new 1000))) ≡ out_of a calls)
    × (get_incoming_edges a (after_calls (run calls (new 1000))) ≡ in_of a calls)
run-edges_example =
    run-edges calls 1000 a
      (
        ((λ e. cc), omega arith, one_rune 5 (omega arith)),
        (
          ((λ e. cc), omega arith, one_rune 5 (omega arith)),
          (((λ e. cc), omega arith, two_runes), tt),
        ),
      )
      calls_ok

comma_splits_example : parse_edge_list (encoding ((a ++ b',' ∷ b) ∷ [])) ≡ a ∷ b ∷ []
comma_splits_example =
    comma_splits a b ((λ e. cc), omega arith, one_rune _ (omega arith))
      ((λ e. cc), omega arith, one_rune _ (omega arith))
