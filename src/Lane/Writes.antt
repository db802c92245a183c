-- ===== src/Lane/Writes.antt =====
-- WriteNode of a lane that runs: what it stores, refuses and logs.
use crazygraphstore.Common.{
  ℕ, ◌+◌, ◌≤◌, ◌<◌, ◌≡◌, refl, sym, ap, ◌∙◌, inl, inr, false, some, ◌++◌, Bytes, bytes_eq,
  if◌then◌else◌, Outcome, ok, err, panic, arith, length, if_rule, ok-injective,
}
use crazygraphstore.Common.Maps.{Map}
use crazygraphstore.Graph.{Value, Node, IsRange}
use crazygraphstore.Graph.Serialization.{serialize_node, deserialize_node, unix}
use crazygraphstore.Graph.Serialization.Nodes.{IsNode, deserialize-serialize_node}
use crazygraphstore.Graph.Serialization.PropertyMaps.{Holds}
use crazygraphstore.Memtable.{size_exceeded}
use crazygraphstore.Memtable.Elements.{table_error}
use crazygraphstore.Wal.{Entry, entry_type_node, serialize_entry}
use crazygraphstore.Wal.File.{Wal, append}
use crazygraphstore.Wal.Buffering.{IsOpen, written, buffered_write-written}
use crazygraphstore.Wal.Durability.{append_lem, append-IsOpen}
use crazygraphstore.Lane.{
  Lane, Error, failure, and_then, store_node, log_entry, write_node, with_log,
}
use crazygraphstore.Lane.Reads.{read_node}
use crazygraphstore.Lane.Nodes.{TakesNodes, store_node_cases}

-- A lane that was not stopped, with an open log that does not use Direct I/O, and with an active
-- table of nodes that has the lane's memtable size, is not frozen and holds no tombstone: where a
-- Delete was recovered, Put of its key panics.
pub record IsRunning (l : Lane) : Type 0 where
  pub running : l.stopped ≡ false
  pub open_log : IsOpen l.wal
  pub takes : TakesNodes l

-- The log entry of a node.
abbrev pub node_entry : ℕ → Node → Bytes → Entry
node_entry now n text = record {
  entry_type = entry_type_node;
  key = n.id;
  value = text;
  timestamp = now;
}

module _ (crc32 : Bytes → ℕ) (range : Map Value → Map Value) where
  pub append-written :
      (e : Entry) (w : Wal)
      → IsOpen w
      → written (append crc32 e w).0 ≡ written w ++ serialize_entry crc32 e
  append-written e w h =
      ap (λ (p : Wal × _). written p.0) (append_lem crc32 e w h)
      ∙ (unfold written in buffered_write-written (serialize_entry crc32 e) w)

  unfoldable pub logged : ℕ → Node → Bytes → Lane → Lane
  logged now n text l = (with_log l (append crc32 (node_entry now n text) l.wal)).0

  with_log_good :
      (l : Lane) (e : Entry) → IsOpen l.wal → (with_log l (append crc32 e l.wal)).1 ≡ ok tt
  unfolding with_log
  with_log_good l e h = rw (append_lem crc32 e l.wal h) refl

  and_then_good :
      (p : Lane × Outcome Error Unit) (next : Lane → Lane × Outcome Error Unit)
      → p.1 ≡ ok tt
      → and_then p next ≡ next p.0
  unfolding and_then
  and_then_good (l, ok tt) next h = refl
  and_then_good (l, err e) next h = cc
  and_then_good (l, panic) next h = cc

  pub write_node_lem :
      (now : ℕ) (n : Node) (text : Bytes) (l : Lane)
      → serialize_node range n ≡ ok text
      → l.stopped ≡ false
      → IsOpen l.wal
      → write_node crc32 range now n l ≡ store_node range n (logged now n text l)
  unfolding write_node logged log_entry
  write_node_lem now n text l coded running open_log =
      if_rule (λ p. p ≡ store_node range n (logged now n text l)) l.stopped
        (λ shut. absurd (cc (shut, running)))
        λ _.
          ap (λ o. and_then (log_entry crc32 entry_type_node now n.id o l) (store_node range n))
            coded
          ∙ and_then_good (with_log l (append crc32 (node_entry now n text) l.wal))
              (store_node range n) (with_log_good l (node_entry now n text) open_log)

  logged_same :
      (now : ℕ) (n : Node) (text : Bytes) (l : Lane)
      → IsRunning l
      → IsRunning (logged now n text l)
        × (written (logged now n text l).wal
            ≡ written l.wal ++ serialize_entry crc32 (node_entry now n text))
        × ((j : Bytes) → read_node j (logged now n text l) ≡ read_node j l)
        × ((logged now n text l).memtable_size ≡ l.memtable_size)
  unfolding logged with_log read_node
  logged_same now n text l h = (
    record {
      running = h.running;
      open_log = append-IsOpen crc32 (node_entry now n text) l.wal h.open_log;
      takes = h.takes;
    },
    append-written (node_entry now n text) l.wal h.open_log,
    λ j. refl,
    refl,
  )

-- The node that is read where `n` was written: times have lost the nanoseconds.
abbrev pub shown : Node → Map Value → Node
shown n m = record n {
  properties = some m;
  created_at = unix n.created_at.seconds;
  updated_at = unix n.updated_at.seconds;
}

module _ (range : Map Value → Map Value) (IsRange-range : IsRange range) where
  read_back :
      (n : Node) (text : Bytes)
      → IsNode n
      → serialize_node range n ≡ ok text
      → (m : Map Value) × (deserialize_node text ≡ ok (shown n m)) × Holds m n.properties
  read_back n text valid coded =
      let (t, m, c, b, holds) = deserialize-serialize_node range IsRange-range n valid in
      let same : t ≡ text = ok-injective (sym c ∙ coded) in
      (m, ap deserialize_node (sym same) ∙ b, holds)

  module _ (crc32 : Bytes → ℕ) where
    -- If a node fits the format and can be serialized, and its key and text are no longer than a
    -- memtable may be, then WriteNode succeeds on a lane that is not stopped, whose log is open and
    -- not in Direct I/O mode, and whose active table of nodes has the lane's memtable size, is not
    -- frozen and holds no tombstone. Its entry is appended to the log. From then on ReadNode of its
    -- ID returns the node, with the properties as stored and times without nanoseconds, ReadNode of
    -- any other ID answers as before, and all this still holds of the lane.
    pub write_node-reads :
        (now : ℕ) (n : Node) (text : Bytes) (l : Lane)
        → IsNode n
        → serialize_node range n ≡ ok text
        → IsRunning l
        → length n.id + 5 + length text ≤ l.memtable_size
        → ((write_node crc32 range now n l).1 ≡ ok tt)
          × (written (write_node crc32 range now n l).0.wal
              ≡ written l.wal ++ serialize_entry crc32 (node_entry now n text))
          × ((m : Map Value) × Holds m n.properties
              × ((j : Bytes)
                  → read_node j (write_node crc32 range now n l).0
                    ≡ (if bytes_eq n.id j then ok (shown n m) else read_node j l)))
          × IsRunning (write_node crc32 range now n l).0
    write_node-reads now n text l valid coded h fits =
        let (m, back, holds) = read_back n text valid coded in
        let before : Lane = logged crc32 range now n text l in
        let (runs, log, same, size) = logged_same crc32 range now n text l h in
        rw (write_node_lem crc32 range now n text l coded h.running h.open_log)
          (elim (store_node_cases range n (shown n m) text coded back before runs.takes) [
            | inr r ↦ absurd (omega (arith, r.too_long, size, fits))
            | inl w ↦ (
              w.good,
              ap written w.same_log ∙ log,
              (
                m,
                holds,
                λ j. w.shows j ∙ ap (λ a. if bytes_eq n.id j then ok (shown n m) else a) (same j),
              ),
              record {
                running = w.same_stopped ∙ runs.running;
                open_log = rw w.same_log runs.open_log;
                takes = w.takes;
              },
            )
          ])

    -- If a node fits the format and can be serialized, but its key and text are longer than a
    -- memtable may be, then WriteNode of a lane that is not stopped, whose log is open and not in
    -- Direct I/O mode, and whose active table of nodes has the lane's memtable size, is not frozen
    -- and holds no tombstone, returns the error of the full memtable and no read of a node changes.
    -- But the entry of the node was appended to the log.
    pub write_node_too_long :
        (now : ℕ) (n : Node) (text : Bytes) (l : Lane)
        → IsNode n
        → serialize_node range n ≡ ok text
        → IsRunning l
        → l.memtable_size < length n.id + 5 + length text
        → ((write_node crc32 range now n l).1 ≡ err (failure (table_error size_exceeded)))
          × ((j : Bytes) → read_node j (write_node crc32 range now n l).0 ≡ read_node j l)
          × (written (write_node crc32 range now n l).0.wal
              ≡ written l.wal ++ serialize_entry crc32 (node_entry now n text))
    write_node_too_long now n text l valid coded h long =
        let (m, back, holds) = read_back n text valid coded in
        let before : Lane = logged crc32 range now n text l in
        let (runs, log, same, size) = logged_same crc32 range now n text l h in
        rw (write_node_lem crc32 range now n text l coded h.running h.open_log)
          (elim (store_node_cases range n (shown n m) text coded back before runs.takes) [
            | inl w ↦ absurd (omega (arith, w.fits, size, long))
            | inr r ↦ (r.bad, (λ j. r.kept j ∙ same j), ap written r.same_log ∙ log)
          ])
