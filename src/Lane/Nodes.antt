-- ===== src/Lane/Nodes.antt =====
-- WriteNode and ReadNode: a node that was written is read, and every other node as before.
use crazygraphstore.Common.{
  ℕ, ◌+◌, ◌≤◌, ◌<◌, ◌≡◌, ◌≢◌, refl, sym, ap, ◌∙◌, ◌⊎◌, inl, inr, Bool, true, false, some, [], Bytes,
  bytes_eq, if◌then◌else◌, Outcome, ok, err, panic, arith, ltb, length, Bool-cases, if_rule,
}
use mathlib.Core.Path.{subst}
use crazygraphstore.Common.Maps.{Map}
use crazygraphstore.Graph.{Value, Node}
use crazygraphstore.Graph.Serialization.{serialize_node, deserialize_node}
use crazygraphstore.Memtable.{Memtable, new, get, size_exceeded}
use crazygraphstore.Memtable.Elements.{
  Failure, table_error, not_found, node_key, in_format, put_data, element_of, put_node, get_node,
}
use crazygraphstore.Lane.{
  Lane, Error, failure, rotate, and_then, or_else, failed, on_active, settle_node, store_node,
}
use crazygraphstore.Lane.Reads.{first, read_old, read_tables, read_node}
use crazygraphstore.Lane.Rotation.{read_node-rotate}
use crazygraphstore.Lane.Tables.{IsActive, new-IsActive, Stored, put-Fits, put_cases}

-- The active table of nodes takes writes.
abbrev pub TakesNodes : Lane → Type 0
TakesNodes l = IsActive l.memtable_size l.active

pub node_key-ne-nil : (id : Bytes) → node_key id ≢ []
node_key-ne-nil id h = cc (h)

node_key_eq : (i j : Bytes) → bytes_eq (node_key i) (node_key j) ≡ bytes_eq i j
unfolding bytes_eq
node_key_eq i j = refl

rotate-TakesNodes : (l : Lane) → TakesNodes (rotate l)
unfolding rotate
rotate-TakesNodes l = new-IsActive l.memtable_size

settle_node-reads : (id : Bytes) (l : Lane) → read_node id (settle_node l).0 ≡ read_node id l
unfolding settle_node
settle_node-reads id l =
    if_rule (λ (p : Lane × Outcome Error Unit). read_node id p.0 ≡ read_node id l)
      (ltb l.memtable_size l.active.size) (λ _. read_node-rotate id l) λ _. refl

settle_node-TakesNodes : (l : Lane) → TakesNodes l → TakesNodes (settle_node l).0
unfolding settle_node
settle_node-TakesNodes l h =
    if_rule (λ (p : Lane × Outcome Error Unit). TakesNodes p.0) (ltb l.memtable_size l.active.size)
      (λ _. rotate-TakesNodes l) λ _. h

settle_node_ok : (l : Lane) → (settle_node l).1 ≡ ok tt
unfolding settle_node
settle_node_ok l =
    if_rule (λ (p : Lane × Outcome Error Unit). p.1 ≡ ok tt) (ltb l.memtable_size l.active.size)
      (λ _. refl) λ _. refl

-- The node that a read finds where `text` was written for `id`.
abbrev pub Shows : Bytes → Node → Lane → Lane → Type 0
Shows id n before after =
    (j : Bytes) → read_node j after ≡ (if bytes_eq id j then ok n else read_node j before)

settle_node_same :
    (l : Lane)
    → ((settle_node l).0.memtable_size ≡ l.memtable_size)
      × ((settle_node l).0.wal ≡ l.wal)
      × ((settle_node l).0.stopped ≡ l.stopped)
unfolding settle_node rotate
settle_node_same l =
    if_rule
      (λ (p : Lane × Outcome Error Unit).
        (p.0.memtable_size ≡ l.memtable_size) × (p.0.wal ≡ l.wal) × (p.0.stopped ≡ l.stopped))
      (ltb l.memtable_size l.active.size) (λ _. (refl, refl, refl)) λ _. (refl, refl, refl)

module _ (range : Map Value → Map Value) (n n' : Node) (text : Bytes)
    (written : serialize_node range n ≡ ok text) (read_back : deserialize_node text ≡ ok n') where
  put_node_lem : (m : Memtable) → put_node range n m ≡ put_data (node_key n.id) (ok text) m
  unfolding put_node
  put_node_lem m = ap (λ o. put_data (node_key n.id) o m) written

  new_value :
      (l : Lane) (r : Memtable × Outcome Failure Unit)
      → Stored (node_key n.id) text l.memtable_size l.active r
      → (j : Bytes) → get_node j r.0 ≡ (if bytes_eq n.id j then ok n' else get_node j l.active)
  unfolding get_node
  new_value l r s j =
      ap (element_of deserialize_node) (
        s.reads (node_key j)
        ∙ ap (λ b. if b then some (some text) else get (node_key j) l.active) (node_key_eq n.id j))
      ∙ branch (bytes_eq n.id j)
    where
      branch :
          (b : Bool)
          → element_of deserialize_node (if b then some (some text) else get (node_key j) l.active)
            ≡ (if b then ok n' else element_of deserialize_node (get (node_key j) l.active))
      branch true = unfold element_of in rw read_back (unfold in_format in refl)
      branch false = refl

  -- Reads after the active table took the node.
  Stored-Shows :
      (l : Lane) (r : Memtable × Outcome Failure Unit)
      → Stored (node_key n.id) text l.memtable_size l.active r
      → Shows n.id n' l (record l { active = r.0 })
  unfolding read_node read_tables
  Stored-Shows l r s j =
      ap (λ a. first a (read_old (get_node j) l.old (err not_found))) (new_value l r s j)
      ∙ branch (bytes_eq n.id j)
    where
      branch :
          (b : Bool)
          → first
              (if b then ok n' else get_node j l.active)
              (read_old (get_node j) l.old (err not_found))
            ≡ (if b
                then ok n'
                else first (get_node j l.active) (read_old (get_node j) l.old (err not_found)))
      branch true = unfold first in refl
      branch false = refl

  -- A call that stored the node.
  pub record Written (before : Lane) (p : Lane × Outcome Error Unit) : Type 0 where
    pub good : p.1 ≡ ok tt
    pub shows : Shows n.id n' before p.0
    pub takes : TakesNodes p.0
    pub same_size : p.0.memtable_size ≡ before.memtable_size
    pub same_log : p.0.wal ≡ before.wal
    pub same_stopped : p.0.stopped ≡ before.stopped
    pub fits : length n.id + 5 + length text ≤ before.memtable_size

  -- A call that found both the active table and a new one too small.
  pub record Refused (before : Lane) (p : Lane × Outcome Error Unit) : Type 0 where
    pub bad : p.1 ≡ err (failure (table_error size_exceeded))
    pub too_long : before.memtable_size < length n.id + 5 + length text
    pub kept : (j : Bytes) → read_node j p.0 ≡ read_node j before
    pub takes : TakesNodes p.0
    pub same_log : p.0.wal ≡ before.wal
    pub same_stopped : p.0.stopped ≡ before.stopped

  full_lane : Lane → Lane × Outcome Error Unit
  full_lane l = (l, err (failure (table_error size_exceeded)))

  try_put : Lane → Lane × Outcome Error Unit
  try_put = on_active (put_node range n)

  try_stored :
      (l : Lane)
      → Stored
          (node_key n.id)
          text
          l.memtable_size
          l.active
          (put_data (node_key n.id) (ok text) l.active)
      → Written l (try_put l)
  unfolding try_put on_active
  try_stored l s = rw (put_node_lem l.active) (record {
    good = rw s.good (unfold failed in refl);
    shows = Stored-Shows l (put_data (node_key n.id) (ok text) l.active) s;
    takes = s.active;
    same_size = refl;
    same_log = refl;
    same_stopped = refl;
    fits = omega (arith, s.fits);
  })

  try_cases : (l : Lane) → TakesNodes l → Written l (try_put l) ⊎ (try_put l ≡ full_lane l)
  try_cases l h =
      elim (put_cases (node_key n.id) text l.memtable_size l.active (node_key-ne-nil n.id) h) [
        | inl s ↦ inl (try_stored l s)
        | inr full ↦ inr (
            unfold try_put on_active full_lane in
            rw (put_node_lem l.active, full) (unfold failed in refl))
      ]

  settled :
      (l : Lane) (p : Lane × Outcome Error Unit) → Written l p → Written l (and_then p settle_node)
  unfolding and_then
  settled l (l1, r) w = rw w.good (record {
    good = settle_node_ok l1;
    shows = λ j. settle_node-reads j l1 ∙ w.shows j;
    takes = settle_node-TakesNodes l1 w.takes;
    same_size = (settle_node_same l1).0 ∙ w.same_size;
    same_log = (settle_node_same l1).1 ∙ w.same_log;
    same_stopped = (settle_node_same l1).2 ∙ w.same_stopped;
    fits = w.fits;
  })

  past_good :
      (p : Lane × Outcome Error Unit) (handler : Lane → Lane × Outcome Error Unit)
      → p.1 ≡ ok tt
      → or_else p handler ≡ p
  unfolding or_else
  past_good (l, ok tt) handler h = refl
  past_good (l, err e) handler h = cc
  past_good (l, panic) handler h = cc

  from_rotated : (l : Lane) (p : Lane × Outcome Error Unit) → Written (rotate l) p → Written l p
  unfolding rotate
  from_rotated l p w = record {
    good = w.good;
    shows = λ j. w.shows j ∙ ap (λ a. if bytes_eq n.id j then ok n' else a) (read_node-rotate j l);
    takes = w.takes;
    same_size = w.same_size ∙ (unfold rotate in refl);
    same_log = w.same_log ∙ (unfold rotate in refl);
    same_stopped = w.same_stopped ∙ (unfold rotate in refl);
    fits = w.fits;
  }

  -- What the node needs of a table.
  abbrev pub needed : ℕ
  needed = length n.id + 5 + length text

  rotated_fits : (l : Lane) → needed ≤ l.memtable_size → Written l (try_put (rotate l))
  rotated_fits l fits = from_rotated l (try_put (rotate l)) (
      try_stored (rotate l) (
        put-Fits (node_key n.id) text (rotate l).memtable_size (rotate l).active
          (node_key-ne-nil n.id) (rotate-TakesNodes l) (unfold rotate new in omega (arith, fits))))

  refused :
      (l : Lane)
      → l.memtable_size < needed
      → Refused l (and_then (full_lane (rotate l)) settle_node)
  unfolding and_then full_lane
  refused l long = record {
    bad = refl;
    too_long = long;
    kept = λ j. read_node-rotate j l;
    takes = rotate-TakesNodes l;
    same_log = unfold rotate in refl;
    same_stopped = unfold rotate in refl;
  }

  retry_cases :
      (l : Lane)
      → Written l (and_then (try_put (rotate l)) settle_node)
        ⊎ Refused l (and_then (try_put (rotate l)) settle_node)
  retry_cases l = elim (Bool-cases (ltb l.memtable_size needed)) [
    | inr fits ↦ inl (settled l (try_put (rotate l)) (rotated_fits l (ground (arith, fits))))
    | inl long ↦ elim (try_cases (rotate l) (rotate-TakesNodes l)) [
      | inl w ↦ inl (settled l (try_put (rotate l)) (from_rotated l (try_put (rotate l)) w))
      | inr full ↦ inr (rw full (refused l (ground (arith, long))))
    ]
  ]

  -- The node is stored, after a rotation if the active table is full, or it does not fit any table.
  pub store_node_cases :
      (l : Lane)
      → TakesNodes l
      → Written l (store_node range n l) ⊎ Refused l (store_node range n l)
  unfolding store_node serialize_node try_put
  store_node_cases l h = elim (try_cases l h) [
    | inl w ↦ inl (
        subst (λ (p : Lane × Outcome Error Unit). Written l (and_then p settle_node))
          (sym (past_good (try_put l) (λ l'. try_put (rotate l')) w.good))
          (settled l (try_put l) w))
    | inr full ↦
        let e : or_else (try_put l) (λ l'. try_put (rotate l')) ≡ try_put (rotate l) =
          ap (λ (p : Lane × Outcome Error Unit). or_else p (λ l'. try_put (rotate l'))) full
          ∙ (unfold or_else full_lane in refl) in
        subst
          (λ (p : Lane × Outcome Error Unit).
            Written l (and_then p settle_node) ⊎ Refused l (and_then p settle_node))
          (sym e) (retry_cases l)
  ]
