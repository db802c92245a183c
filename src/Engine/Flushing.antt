-- ===== src/Engine/Flushing.antt =====
-- pkg/storage/engine.go: `runLaneFlusher`, one round of it for a lane. The files that the flusher
-- wrote are listed in order.
use crazygraphstore.Common.{
  ℕ, suc, ◌==◌, ◌≡◌, ◌≢◌, refl, ap, ◌∙◌, true, Option, none, some, List, [], ◌∷◌, ◌++◌,
  if◌then◌else◌, length, All, Bytes, Outcome, ok, err, panic, if_rule,
}
use crazygraphstore.Common.Maps.{Map}
use crazygraphstore.Graph.{Node}
use crazygraphstore.Memtable.{Memtable, get, entries}
use crazygraphstore.Memtable.Elements.{not_found, node_key, element_of, get_node}
use crazygraphstore.Lane.{Lane}
use crazygraphstore.Lane.Reads.{first, read_old, read_tables, read_node}
use crazygraphstore.Lane.Upkeep.{get_old_memtables, remove_old_memtable}
use crazygraphstore.Sstable
use crazygraphstore.Sstable.Writer.{Writer, new_writer, close_writer}
use crazygraphstore.Sstable.Writer.Steps.{add_all}
use crazygraphstore.Sstable.Table.{BloomFilter}
use crazygraphstore.Flusher
use crazygraphstore.Flusher.{
  Flusher, Flushed, pairs_of, flush_closed, flush_added, flush_pairs, flush_memtable,
}

pub record State : Type 0 where
  pub lane : Lane
  pub flusher : Flusher
  pub files : List Bytes

unfoldable pub with_file : Option Bytes → List Bytes → List Bytes
with_file none files = files
with_file (some file) files = files ++ file ∷ []

-- the body of the loop over the old memtables, from the result of the flush on: what was flushed is
-- removed, and stands at the position `i`; `next` is the rest of the loop, and a panic ends it
unfoldable pub after_flush : Outcome Flusher.Error Unit → ℕ → (ℕ → State → State) → State → State
after_flush (ok _) i next s = next i (record s { lane = remove_old_memtable i s.lane })
after_flush (err x) i next s = next (suc i) s
after_flush panic i next s = s

module _ (range : Map (Option Bytes) → Map (Option Bytes)) (crc32 : Bytes → ℕ) {B : Type 0}
    (bloom : BloomFilter B) where
  -- a flush of one memtable
  unfoldable pub flush_into : Memtable → State → State
  unfolding flush_memtable with_file
  flush_into m s =
      let r = flush_memtable crc32 bloom range m s.flusher in
      record s { flusher = r.flusher; files = with_file r.file s.files }

  -- the loop over the old memtables when a flush is signalled
  unfoldable pub flush_each : List Memtable → ℕ → State → State
  unfolding after_flush flush_into
  flush_each [] i s = s
  flush_each (m ∷ ms) i s =
      let flushed =
        after_flush (flush_memtable crc32 bloom range m s.flusher).result i (flush_each ms)
          (flush_into m s) in
      let skipped = flush_each ms (suc i) s in if m.frozen then flushed else skipped

  -- a round of runLaneFlusher on the flush signal
  unfoldable pub flush_lane : State → State
  unfolding flush_each
  flush_lane s = flush_each (get_old_memtables s.lane) 0 s

  -- the loop of runLaneFlusher on the stop signal: nothing is removed
  unfoldable pub flush_rest : List Memtable → State → State
  unfolding flush_into
  flush_rest [] s = s
  flush_rest (m ∷ ms) s = flush_rest ms (flush_into m s)

  -- A frozen memtable that a running flusher flushes.
  pub record IsFlushable (m : Memtable) : Type 0 where
    pub is_frozen : m.frozen ≡ true
    pub succeeds :
        (f : Flusher) → f.running ≡ true → (flush_memtable crc32 bloom range m f).result ≡ ok tt

  closed_running :
      (w : Writer B) (r : Outcome Sstable.Error Unit) (f : Flusher)
      → (flush_closed w r f).flusher.running ≡ f.running
  unfolding flush_closed
  closed_running w (ok _) f = refl
  closed_running w (err x) f = refl
  closed_running w panic f = refl

  added_running :
      (w : Writer B) (r : Outcome Sstable.Error Unit) (f : Flusher)
      → (flush_added crc32 bloom w r f).flusher.running ≡ f.running
  unfolding flush_added
  added_running w (ok _) f = closed_running (close_writer crc32 bloom.gob_encode w).0 _ f
  added_running w (err x) f = refl
  added_running w panic f = refl

  flush_running :
      (m : Memtable) (f : Flusher)
      → (flush_memtable crc32 bloom range m f).flusher.running ≡ f.running
  unfolding flush_memtable flush_pairs
  flush_running m f =
      if_rule (λ (r : Flushed). r.flusher.running ≡ f.running) f.running
        (λ _.
          if_rule (λ (r : Flushed). r.flusher.running ≡ f.running)
            (length (pairs_of (entries range m)) == 0) (λ _. refl)
            λ _.
              added_running
                (add_all crc32 bloom.add_string (pairs_of (entries range m))
                  (new_writer bloom.empty_filter)).0
                _ f)
        λ _. refl

  flush_each-old :
      (ms : List Memtable) (s : State)
      → s.lane.old ≡ ms
      → s.flusher.running ≡ true
      → All IsFlushable ms
      → ((flush_each ms 0 s).lane.old ≡ []) × ((flush_each ms 0 s).lane.active ≡ s.lane.active)
  unfolding flush_each remove_old_memtable
  flush_each-old [] s h on a = (h, refl)
  flush_each-old (m ∷ ms) s h on a =
      let t : State = flush_into m s in
      let u : State = record t { lane = remove_old_memtable 0 t.lane } in
      let left : u.lane.old ≡ ms = rw h refl in
      let run : u.flusher.running ≡ true = flush_running m s.flusher ∙ on in
      let step : after_flush (flush_memtable crc32 bloom range m s.flusher).result 0 (flush_each ms)
            t
          ≡ flush_each ms 0 u =
        ap (λ o. after_flush o 0 (flush_each ms) t) (a.0.succeeds s.flusher on)
        ∙ (unfold after_flush in refl) in
      let rest = flush_each-old ms u left run a.1 in
      if_rule (λ (v : State). (v.lane.old ≡ []) × (v.lane.active ≡ s.lane.active)) m.frozen
        (λ _. (
          ap (λ (v : State). v.lane.old) step ∙ rest.0,
          ap (λ (v : State). v.lane.active) step ∙ rest.1,
        ))
        λ cold. absurd (cc (cold, a.0.is_frozen))

  flush_lane-old :
      (s : State)
      → s.flusher.running ≡ true
      → All IsFlushable s.lane.old
      → ((flush_lane s).lane.old ≡ []) × ((flush_lane s).lane.active ≡ s.lane.active)
  unfolding flush_lane get_old_memtables
  flush_lane-old s on a = flush_each-old s.lane.old s refl on a

  -- Let the flusher run, and let it be able to flush every old memtable of a lane. If ReadNode
  -- finds a node that is not in the active table, then after the round of runLaneFlusher the lane
  -- has no old memtables and ReadNode fails: the node that was readable is not found once it was
  -- flushed.
  pub flushed_lost :
      (id : Bytes) (n : Node) (s : State)
      → s.flusher.running ≡ true
      → All IsFlushable s.lane.old
      → get (node_key id) s.lane.active ≡ none
      → read_node id s.lane ≡ ok n
      → ((flush_lane s).lane.old ≡ [])
        × (read_node id (flush_lane s).lane ≡ err not_found)
        × (read_node id (flush_lane s).lane ≢ read_node id s.lane)
  flushed_lost id n s on a gone before =
      let (old, active) = flush_lane-old s on a in
      let after : read_node id (flush_lane s).lane ≡ err not_found =
        unfold read_node read_tables in
        rw (old, active) (unfold read_old get_node in rw gone (unfold element_of first in refl)) in
      (old, after, λ same. cc (same, after, before))
