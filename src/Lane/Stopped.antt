-- ===== src/Lane/Stopped.antt =====
-- pkg/storage/write_lane.go: a lane that is stopped stays so in Recover.
use crazygraphstore.Common.{
  ℕ, zero, suc, length, ◌≡◌, true, Bytes, Outcome, ok, err, panic, if_rule, ◌==◌,
}
use crazygraphstore.Common.Maps.{Map}
use crazygraphstore.Graph.{Value, Node, Edge}
use crazygraphstore.Graph.Serialization
use crazygraphstore.Graph.Serialization.{deserialize_node, deserialize_edge}
use crazygraphstore.Memtable.Adjacency.{add_outgoing_edge, add_incoming_edge}
use crazygraphstore.Memtable.Elements.{put_edge}
use crazygraphstore.Wal.{
  Entry, Read, done, eof, unexpected_eof, checksum_mismatch, deserialize_entry, entry_type_node,
  entry_type_edge, entry_type_delete,
}
use crazygraphstore.Wal.Replay.{Ended, after, step, replay_loop, replay}
use crazygraphstore.Lane
use crazygraphstore.Lane.{Lane, and_then, on_active, on_edges, on_adj, write_node, lane_stopped}
use crazygraphstore.Lane.Upkeep.{
  ignore, restore_node, restore_edge, restore_delete, restore, recover,
}

module _ {E S : Type 0} (P : S → Type 0) (fn : Entry → S → S × Outcome E Unit)
    (keeps : (e : Entry) (s : S) → P s → P (fn e s).0) where
  after_keeps :
      (p : S × Outcome E Unit) (k : S → S × Ended E)
      → P p.0
      → ((s : S) → P s → P (k s).0)
      → P (after p k).0
  after_keeps (s, ok _) k h next = next s h
  after_keeps (s, err x) k h next = h
  after_keeps (s, panic) k h next = h

  step_keeps :
      (r : Read Entry) (k : Bytes → S → S × Ended E) (s : S)
      → P s
      → ((rest : Bytes) (s : S) → P s → P (k rest s).0)
      → P (step fn r k s).0
  unfolding step
  step_keeps (done e rest) k s h next = after_keeps (fn e s) (k rest) (keeps e s h) (next rest)
  step_keeps eof k s h next = h
  step_keeps unexpected_eof k s h next = h
  step_keeps checksum_mismatch k s h next = h

  replay_loop_keeps :
      (crc32 : Bytes → ℕ) (fuel : ℕ) (input : Bytes) (s : S)
      → P s
      → P (replay_loop crc32 fn fuel input s).0
  unfolding replay_loop
  replay_loop_keeps crc32 zero input s h = h
  replay_loop_keeps crc32 (suc fuel) input s h =
      step_keeps (deserialize_entry crc32 input) (replay_loop crc32 fn fuel) s h
        (replay_loop_keeps crc32 fuel)

abbrev pub IsStopped : Lane → Type 0
IsStopped l = l.stopped ≡ true

and_then_keeps :
    {A : Type 0} (p : Lane × Outcome Lane.Error A) (next : Lane → Lane × Outcome Lane.Error Unit)
    → IsStopped p.0
    → ((l : Lane) → IsStopped l → IsStopped (next l).0)
    → IsStopped (and_then p next).0
unfolding and_then
and_then_keeps (l, ok _) next h keeps = keeps l h
and_then_keeps (l, err x) next h keeps = h
and_then_keeps (l, panic) next h keeps = h

module _ (range : Map Value → Map Value) where
  restore_node_keeps :
      (o : Outcome Serialization.Error Node) (l : Lane)
      → IsStopped l
      → IsStopped (restore_node range o l).0
  unfolding restore_node on_active
  restore_node_keeps (ok n) l h = h
  restore_node_keeps (err x) l h = h
  restore_node_keeps panic l h = h

  restore_edge_keeps :
      (o : Outcome Serialization.Error Edge) (l : Lane)
      → IsStopped l
      → IsStopped (restore_edge range o l).0
  unfolding restore_edge on_edges on_adj ignore
  restore_edge_keeps (ok e) l h =
      let target : Lane → Lane × Outcome Lane.Error Unit =
        λ l2. ignore (on_adj (add_incoming_edge e.to_node_id e.id) l2) in
      let source : Lane → Lane × Outcome Lane.Error Unit =
        λ l1. and_then (ignore (on_adj (add_outgoing_edge e.from_node_id e.id) l1)) target in
      and_then_keeps (on_edges (put_edge range e) l) source h λ l1 h1.
        and_then_keeps (ignore (on_adj (add_outgoing_edge e.from_node_id e.id) l1)) target h1
          λ l2 h2. h2
  restore_edge_keeps (err x) l h = h
  restore_edge_keeps panic l h = h

  restore_keeps : (e : Entry) (l : Lane) → IsStopped l → IsStopped (restore range e l).0
  unfolding restore restore_delete on_active
  restore_keeps e l h =
      if_rule (λ (p : Lane × Outcome Lane.Error Unit). IsStopped p.0)
        (e.entry_type == entry_type_node) (λ _. restore_node_keeps (deserialize_node e.value) l h)
        λ _.
          if_rule (λ (p : Lane × Outcome Lane.Error Unit). IsStopped p.0)
            (e.entry_type == entry_type_edge)
            (λ _. restore_edge_keeps (deserialize_edge e.value) l h)
            λ _.
              if_rule (λ (p : Lane × Outcome Lane.Error Unit). IsStopped p.0)
                (e.entry_type == entry_type_delete) (λ _. h) (λ _. h)

  pub recover_keeps :
      (crc32 : Bytes → ℕ) (l : Lane) → IsStopped l → IsStopped (recover range crc32 l).0
  unfolding recover replay
  recover_keeps crc32 l h =
      replay_loop_keeps IsStopped (restore range) restore_keeps crc32 (suc (length l.wal.file))
        l.wal.file l h
