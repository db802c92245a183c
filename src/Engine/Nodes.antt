-- ===== src/Engine/Nodes.antt =====
-- A node that is created, and what GetNode of the engine then returns.
use crazygraphstore.Common.{
  ℕ, zero, suc, ◌+◌, ◌%◌, ◌^◌, ◌≤◌, ◌<◌, ◌==◌, ◌≡◌, refl, ap, ◌∙◌, true, Option, none, some, List,
  [], ◌∷◌, if◌then◌else◌, length, get_elem?, get_elem?_of_lt, All, All-get_elem?, Bytes,
  bytes_eq_refl, Outcome, ok, arith, if_rule,
}
use crazygraphstore.Common.Maps.{Map}
use crazygraphstore.Graph.{Value, Node, IsRange, clone_node}
use crazygraphstore.Graph.Serialization.{serialize_node}
use crazygraphstore.Graph.Serialization.Nodes.{IsNode}
use crazygraphstore.Graph.Serialization.PropertyMaps.{Holds}
use crazygraphstore.Memtable.Elements.{Failure}
use crazygraphstore.Cache.Levels
use crazygraphstore.Cache.Levels.{Levels, invalidate_node}
use crazygraphstore.Lane
use crazygraphstore.Lane.{Lane, write_node}
use crazygraphstore.Lane.Reads.{read_node}
use crazygraphstore.Lane.Writes.{IsRunning, shown, write_node-reads}
use crazygraphstore.Engine.{
  Engine, Error, lane_for_key, set_lane, read_lanes, first_result, read_first, keep_node,
  get_node_after, get_node, in_lane, on_lane_at, on_lane, create_node,
}

get_elem?-set_lane :
    (i : ℕ) (l k : Lane) (ls : List Lane)
    → get_elem? ls i ≡ some k
    → get_elem? (set_lane i l ls) i ≡ some l
unfolding set_lane
get_elem?-set_lane i l k [] h = cc
get_elem?-set_lane zero l k (j ∷ ls) h = refl
get_elem?-set_lane (suc i) l k (j ∷ ls) h = get_elem?-set_lane i l k ls h

length-set_lane : (i : ℕ) (l : Lane) (ls : List Lane) → length (set_lane i l ls) ≡ length ls
unfolding set_lane
length-set_lane i l [] = refl
length-set_lane zero l (j ∷ ls) = refl
length-set_lane (suc i) l (j ∷ ls) = ap suc (length-set_lane i l ls)

-- The engine takes a node: it runs, there are fewer than 2 ^ 32 lanes, none of them is stopped,
-- each has an open log and an active table of nodes that has the lane's memtable size, is not
-- frozen and holds no tombstone, and all have memtables for the node with its text.
pub record Serves (n : Node) (text : Bytes) (e : Engine) : Type 0 where
  pub started : e.running ≡ true
  pub some_lane : 0 < length e.lanes
  pub few_lanes : length e.lanes < 2 ^ 32
  pub lanes_run : All IsRunning e.lanes
  pub lanes_fit : All (λ (l : Lane). length n.id + 5 + length text ≤ l.memtable_size) e.lanes

first_found :
    {A : Type 0} (read : Lane → Outcome Failure A) (l : Lane) (a : A)
    (others : Outcome Error (Option A))
    → read l ≡ ok a
    → read_first read (some l) others ≡ ok (some a)
unfolding read_first
first_found read l a others h = ap (λ o. first_result o others) h ∙ (unfold first_result in refl)

module _ (range : Map Value → Map Value) (hash : Bytes → ℕ) where
  position :
      (n : Node) (text : Bytes) (e : Engine)
      → Serves n text e
      → (lane_for_key hash n.id e ≡ some (hash n.id % length e.lanes))
        × (hash n.id % length e.lanes < length e.lanes)
  unfolding lane_for_key
  position n text e h =
      let whole : length e.lanes % 2 ^ 32 ≡ length e.lanes = omega (arith, h.few_lanes) in
      (rw whole (ground (arith, h.some_lane)), omega (arith, h.some_lane))

  pub lane_for_key_cong :
      (id : Bytes) (e d : Engine)
      → length e.lanes ≡ length d.lanes
      → lane_for_key hash id e ≡ lane_for_key hash id d
  unfolding lane_for_key
  lane_for_key_cong id e d h =
      ap (λ (c : ℕ). if c % 2 ^ 32 == 0 then none else some (hash id % (c % 2 ^ 32))) h

  pub get_node_running :
      (id : Bytes) (e : Engine)
      → e.running ≡ true
      → get_node range hash id e
        ≡ get_node_after range
            (Levels.get_node id e.cache).1
            id
            (lane_for_key hash id e)
            (record e { cache = (Levels.get_node id e.cache).0 })
  unfolding get_node
  get_node_running id e h =
      if_rule
        (λ p.
          p
          ≡ get_node_after range (Levels.get_node id e.cache).1 id (lane_for_key hash id e)
              (record e { cache = (Levels.get_node id e.cache).0 }))
        e.running (λ _. refl) (λ off. absurd (cc (off, h)))

  -- A node that is not cached and that the lane of its ID reads.
  get_node_uncached :
      (id : Bytes) (e : Engine) (i : ℕ) (l : Lane) (n : Node)
      → e.running ≡ true
      → (Levels.get_node id e.cache).1 ≡ ok none
      → lane_for_key hash id e ≡ some i
      → get_elem? e.lanes i ≡ some l
      → read_node id l ≡ ok n
      → (get_node range hash id e).1 ≡ ok (clone_node range (clone_node range n))
  get_node_uncached id e i l n h miss at lane found =
      rw (get_node_running id e h, miss, at)
        (unfold get_node_after read_lanes in
          rw lane (
            ap (λ o. (keep_node range o (record e { cache = (Levels.get_node id e.cache).0 })).1)
              (first_found (read_node id) l n _ found)
            ∙ (unfold keep_node in refl)))

  module _ (IsRange-range : IsRange range) (crc32 : Bytes → ℕ) where
    same_engine_at :
        (i : ℕ) (o : Option Lane) (f : Lane → Lane × Outcome Lane.Error Unit) (e : Engine)
        → ((on_lane_at i o f e).0.cache ≡ e.cache)
          × ((on_lane_at i o f e).0.running ≡ e.running)
          × (length (on_lane_at i o f e).0.lanes ≡ length e.lanes)
    unfolding on_lane_at
    same_engine_at i none f e = (refl, refl, refl)
    same_engine_at i (some l) f e = (refl, refl, length-set_lane i (f l).0 e.lanes)

    same_engine :
        (i : Option ℕ) (f : Lane → Lane × Outcome Lane.Error Unit) (e : Engine)
        → ((on_lane i f e).0.cache ≡ e.cache)
          × ((on_lane i f e).0.running ≡ e.running)
          × (length (on_lane i f e).0.lanes ≡ length e.lanes)
    unfolding on_lane
    same_engine none f e = (refl, refl, refl)
    same_engine (some i) f e = same_engine_at i (get_elem? e.lanes i) f e

    -- The lane of a node takes it, and GetNode then returns it if the cache has no node at its ID.
    pub write_then_get :
        (now : ℕ) (n : Node) (text : Bytes) (e : Engine)
        → IsNode n
        → serialize_node range n ≡ ok text
        → Serves n text e
        → (Levels.get_node n.id e.cache).1 ≡ ok none
        → ((on_lane (lane_for_key hash n.id e) (write_node crc32 range now n) e).1 ≡ ok tt)
          × (m : Map Value) × Holds m n.properties
          × ((get_node range hash n.id
                (on_lane (lane_for_key hash n.id e) (write_node crc32 range now n) e).0).1
              ≡ ok (clone_node range (clone_node range (shown n m))))
    write_then_get now n text e valid coded h miss =
        let i : ℕ = hash n.id % length e.lanes in
        let (at, inside) = position n text e h in
        let (l, lane) = get_elem?_of_lt e.lanes i inside in
        let run : IsRunning l = All-get_elem? IsRunning e.lanes i l h.lanes_run lane in
        let fits =
          All-get_elem? (λ (k : Lane). length n.id + 5 + length text ≤ k.memtable_size) e.lanes i l
            h.lanes_fit lane in
        let (good, log, (m, holds, reads), runs) =
          write_node-reads range IsRange-range crc32 now n text l valid coded run fits in
        let r : Lane × Outcome Lane.Error Unit = write_node crc32 range now n l in
        let e' : Engine = record e { lanes = set_lane i r.0 e.lanes } in
        let step : on_lane (lane_for_key hash n.id e) (write_node crc32 range now n) e
            ≡ (e', ok tt) =
          rw at
            (unfold on_lane in rw lane (unfold on_lane_at in rw good (unfold in_lane in refl))) in
        let at' : lane_for_key hash n.id e' ≡ some i =
          lane_for_key_cong n.id e' e (length-set_lane i r.0 e.lanes) ∙ at in
        rw step (
          refl,
          m,
          holds,
          get_node_uncached n.id e' i r.0 (shown n m) h.started miss at'
              (get_elem?-set_lane i r.0 l e.lanes lane)
              (reads n.id
                ∙ ap (λ b. if b then ok (shown n m) else read_node n.id l) (bytes_eq_refl n.id)),
        )

    create_node_running :
        (now : ℕ) (n : Node) (e : Engine)
        → e.running ≡ true
        → create_node crc32 range hash now n e
          ≡ on_lane (lane_for_key hash n.id e) (write_node crc32 range now n) e
    unfolding create_node
    create_node_running now n e h =
        if_rule (λ p. p ≡ on_lane (lane_for_key hash n.id e) (write_node crc32 range now n) e)
          e.running (λ _. refl) λ off. absurd (cc (off, h))

    -- Let an engine run with fewer than 2 ^ 32 lanes. Let no lane be stopped, each with a log that
    -- is open and not in Direct I/O mode, with an active table of nodes that has the lane's
    -- memtable size, is not frozen and holds no tombstone, and with memtables large enough for a
    -- node with its text. If the node fits the format and can be serialized, and the cache has no
    -- node at the ID, then CreateNode of the node succeeds, and GetNode of the ID then returns a
    -- copy of the node, with the properties as stored and times without nanoseconds.
    pub create-get :
        (now : ℕ) (n : Node) (text : Bytes) (e : Engine)
        → IsNode n
        → serialize_node range n ≡ ok text
        → Serves n text e
        → (Levels.get_node n.id e.cache).1 ≡ ok none
        → ((create_node crc32 range hash now n e).1 ≡ ok tt)
          × (m : Map Value) × Holds m n.properties
          × ((get_node range hash n.id (create_node crc32 range hash now n e).0).1
              ≡ ok (clone_node range (clone_node range (shown n m))))
    create-get now n text e valid coded h miss =
        rw (create_node_running now n e h.started) (write_then_get now n text e valid coded h miss)

    -- If the cache of a running engine has a node at an ID, then after CreateNode of another node
    -- with this ID GetNode still returns a copy of the cached one.
    pub create_stale :
        (now : ℕ) (n cached : Node) (e : Engine)
        → e.running ≡ true
        → (Levels.get_node n.id e.cache).1 ≡ ok (some cached)
        → (get_node range hash n.id (create_node crc32 range hash now n e).0).1
          ≡ ok (clone_node range cached)
    create_stale now n cached e h hit =
        let p : Engine × Outcome Error Unit =
          on_lane (lane_for_key hash n.id e) (write_node crc32 range now n) e in
        let (same, still, size) =
          same_engine (lane_for_key hash n.id e) (write_node crc32 range now n) e in
        let hit' : (Levels.get_node n.id p.0.cache).1 ≡ ok (some cached) =
          ap (λ (c : Levels). (Levels.get_node n.id c).1) same ∙ hit in
        rw (create_node_running now n e h)
          (rw (get_node_running n.id p.0 (still ∙ h), hit') (unfold get_node_after in refl))
