-- ===== src/Engine/Restart.antt =====
-- pkg/storage/engine.go: an engine that is started again after Stop.
use crazygraphstore.Common.{
  ℕ, ◌≡◌, ◌≢◌, refl, true, false, Option, none, some, List, [], ◌∷◌, get_elem?, All, All-get_elem?,
  Bytes, Outcome, ok, err, panic, if_rule,
}
use crazygraphstore.Common.Maps.{Map}
use crazygraphstore.Graph.{Value, Node}
use crazygraphstore.Wal.Replay.{Ended, replayed, bad_entry, apply_failed, crashed, stuck}
use crazygraphstore.Lane
use crazygraphstore.Lane.{Lane, and_then, on_active, on_edges, on_adj, write_node, lane_stopped}
use crazygraphstore.Lane.Upkeep
use crazygraphstore.Lane.Upkeep.{
  ignore, restore_node, restore_edge, restore_delete, restore, recover,
}
use crazygraphstore.Flusher
use crazygraphstore.Flusher.{Flusher}
use crazygraphstore.Compaction
use crazygraphstore.Compaction.{Compactor}
use crazygraphstore.Manifest.{Manifest, Disk, save}
use crazygraphstore.Engine
use crazygraphstore.Engine.{Engine, lane_for_key, in_lane, on_lane_at, on_lane, create_node}
use crazygraphstore.Engine.Graphs.{recover_lanes}
use crazygraphstore.Engine.Lifecycle.{
  Error, flusher_error, compactor_error, manifest_error, recover_failed, System, set_running,
  start_step, start_parts, start_recovered, start, stop_lanes, stop_step, stop_parts, stop,
}
use crazygraphstore.Lane.Stopped.{IsStopped, recover_keeps}

module _ (range : Map Value → Map Value) where
  recover_lanes_keeps :
      (crc32 : Bytes → ℕ) (ls : List Lane)
      → All IsStopped ls
      → All IsStopped (recover_lanes range crc32 ls).0
  unfolding recover_lanes
  recover_lanes_keeps crc32 [] h = tt
  recover_lanes_keeps crc32 (l ∷ ls) h =
      one (recover range crc32 l).1 (recover range crc32 l).0 (recover_keeps range crc32 l h.0)
        (recover_lanes_keeps crc32 ls h.1)
    where
      next : Ended Lane.Error → Lane → List Lane × Ended Lane.Error
      next r k = elim r [
        | replayed ↦ (k ∷ (recover_lanes range crc32 ls).0, (recover_lanes range crc32 ls).1)
        | other ↦ (k ∷ ls, other)
      ]

      one :
          (r : Ended Lane.Error) (k : Lane)
          → IsStopped k
          → All IsStopped (recover_lanes range crc32 ls).0
          → All IsStopped (next r k).0
      one replayed k s rest = (s, rest)
      one bad_entry k s rest = (s, h.1)
      one (apply_failed x) k s rest = (s, h.1)
      one crashed k s rest = (s, h.1)
      one stuck k s rest = (s, h.1)

stop_lanes-IsStopped :
    (ls : List Lane) → (stop_lanes ls).1 ≡ ok tt → All IsStopped (stop_lanes ls).0
unfolding stop_lanes Upkeep.stop
stop_lanes-IsStopped [] good = tt
stop_lanes-IsStopped (l ∷ ls) good =
    one (Upkeep.stop l).1 (Upkeep.stop l).0 (stop_lane l) (stop_lanes-IsStopped ls) good
  where
    stop_lane : (l : Lane) → IsStopped (Upkeep.stop l).0
    stop_lane l =
        if_rule (λ (p : Lane × Outcome Lane.Error Unit). IsStopped p.0) l.stopped (λ on. on)
          λ _. refl

    next : Outcome Lane.Error Unit → Lane → List Lane × Outcome Lane.Error Unit
    next r k = elim r [
      | ok _ ↦ (k ∷ (stop_lanes ls).0, (stop_lanes ls).1)
      | err x ↦ (k ∷ (stop_lanes ls).0, (stop_lanes ls).1)
      | panic ↦ (k ∷ ls, panic)
    ]

    one :
        (r : Outcome Lane.Error Unit) (k : Lane)
        → IsStopped k
        → ((stop_lanes ls).1 ≡ ok tt → All IsStopped (stop_lanes ls).0)
        → (next r k).1 ≡ ok tt
        → All IsStopped (next r k).0
    one (ok _) k s rest h = (s, rest h)
    one (err x) k s rest h = (s, rest h)
    one panic k s rest h = cc

start_parts_engine : (s : System) → (start_parts s).0.engine.lanes ≡ s.engine.lanes
unfolding start_parts start_step set_running
start_parts_engine s = flush (Flusher.start s.flusher).1 (Flusher.start s.flusher).0
  where
    compact :
        (c : Outcome Compaction.Error Unit) (t : System)
        → (start_step compactor_error c t (λ u. (u, ok tt))).0.engine.lanes ≡ t.engine.lanes
    compact (ok _) t = refl
    compact (err x) t = refl
    compact panic t = refl

    flush :
        (r : Outcome Flusher.Error Unit) (f : Flusher)
        → (start_step flusher_error r
            (record s { flusher = f })
            (λ t.
              let c = Compaction.start t.compactor in
              start_step compactor_error c.1
                (record t { compactor = c.0 })
                (λ u. (u, ok tt)))).0.engine.lanes
          ≡ s.engine.lanes
    flush (ok _) f =
        compact (Compaction.start s.compactor).1
          (record s { flusher = f; compactor = (Compaction.start s.compactor).0 })
    flush (err x) f = refl
    flush panic f = refl

start_recovered_lanes :
    (r : Ended Lane.Error) (s : System) → (start_recovered r s).0.engine.lanes ≡ s.engine.lanes
unfolding start_recovered set_running
start_recovered_lanes replayed s = start_parts_engine s
start_recovered_lanes bad_entry s = refl
start_recovered_lanes (apply_failed x) s = refl
start_recovered_lanes crashed s = refl
start_recovered_lanes stuck s = refl

module _ (range : Map Value → Map Value) (crc32 : Bytes → ℕ) where
  start-IsStopped :
      (s : System)
      → All IsStopped s.engine.lanes
      → All IsStopped (start range crc32 s).0.engine.lanes
  unfolding start
  start-IsStopped s h =
      let p = recover_lanes range crc32 s.engine.lanes in
      let t : System = record s { engine = record s.engine { running = true; lanes = p.0 } } in
      let same : (start_recovered p.1 t).0.engine.lanes ≡ p.0 = start_recovered_lanes p.1 t in
      let kept : All IsStopped (start_recovered p.1 t).0.engine.lanes =
        rw same (recover_lanes_keeps range crc32 s.engine.lanes h) in
      if_rule (λ (r : System × Outcome Error Unit). All IsStopped r.0.engine.lanes) s.engine.running
        (λ _. h) (λ _. kept)

  module _ (hash : Bytes → ℕ) where
    on_lane_at-stopped :
        (now i : ℕ) (n : Node) (o : Option Lane) (e : Engine)
        → ((l : Lane) → o ≡ some l → IsStopped l)
        → (on_lane_at i o (write_node crc32 range now n) e).1 ≢ ok tt
    unfolding on_lane_at write_node in_lane
    on_lane_at-stopped now i n none e h = λ good. cc
    on_lane_at-stopped now i n (some l) e h = rw (h l refl) (λ good. refuse good)
      where
        refuse : in_lane (err lane_stopped) ≢ ok tt
        refuse good = cc

    on_lane-stopped :
        (now : ℕ) (i : Option ℕ) (n : Node) (e : Engine)
        → All IsStopped e.lanes
        → (on_lane i (write_node crc32 range now n) e).1 ≢ ok tt
    unfolding on_lane
    on_lane-stopped now none n e h = λ good. cc
    on_lane-stopped now (some i) n e h =
        on_lane_at-stopped now i n (get_elem? e.lanes i) e
          λ l at. All-get_elem? IsStopped e.lanes i l h at

    create_node-stopped :
        (now : ℕ) (n : Node) (e : Engine)
        → All IsStopped e.lanes
        → (create_node crc32 range hash now n e).1 ≢ ok tt
    unfolding create_node
    create_node-stopped now n e h =
        if_rule (λ (p : Engine × Outcome Engine.Error Unit). p.1 ≢ ok tt) e.running
          (λ _. on_lane-stopped now (lane_for_key hash n.id e) n e h) λ _ good. cc

module _ (marshal : Manifest → Option Bytes) (unmarshal : Bytes → Option Manifest) where
  -- What Stop leaves.
  record AllStopped (s : System) : Type 0 where
    engine_off : s.engine.running ≡ false
    flusher_off : s.flusher.running ≡ false
    compactor_off : s.compactor.running ≡ false
    lanes_off : All IsStopped s.engine.lanes

  step-AllStopped :
      {E : Type 0} (failed : E → Error) (r : Outcome E Unit) (s : System)
      (next : System → System × Outcome Error Unit)
      → (r ≡ ok tt → (next s).1 ≡ ok tt → AllStopped (next s).0)
      → (stop_step failed r s next).1 ≡ ok tt
      → AllStopped (stop_step failed r s next).0
  unfolding stop_step
  step-AllStopped failed (ok _) s next h good = h refl good
  step-AllStopped failed (err x) s next h good = cc
  step-AllStopped failed panic s next h good = cc

  compactor_stop :
      (c : Compactor) → (Compaction.stop c).1 ≡ ok tt → (Compaction.stop c).0.running ≡ false
  unfolding Compaction.stop
  compactor_stop c =
      if_rule (λ (p : Compactor × Outcome Compaction.Error Unit). p.1 ≡ ok tt → p.0.running ≡ false)
        c.running (λ _ _. refl) (λ _ good. cc)

  flusher_stop : (f : Flusher) → (Flusher.stop f).1 ≡ ok tt → (Flusher.stop f).0.running ≡ false
  unfolding Flusher.stop
  flusher_stop f =
      if_rule (λ (p : Flusher × Outcome Flusher.Error Unit). p.1 ≡ ok tt → p.0.running ≡ false)
        f.running (λ _ _. refl) (λ _ good. cc)

  stop_parts-AllStopped :
      (disk : Disk) (s : System)
      → s.engine.running ≡ false
      → All IsStopped s.engine.lanes
      → (stop_parts marshal unmarshal disk s).1 ≡ ok tt
      → AllStopped (stop_parts marshal unmarshal disk s).0
  unfolding stop_parts
  stop_parts-AllStopped disk s off lanes good =
      let c = Compaction.stop s.compactor in
      let f = Flusher.stop s.flusher in
      let m = save marshal unmarshal disk s.store in
      let last : System → System × Outcome Error Unit = λ v. (v, ok tt) in
      let saved : System → System × Outcome Error Unit = λ u.
        let m' = save marshal unmarshal disk u.store in
        stop_step manifest_error m'.1 (record u { store = m'.0 }) last in
      let flushed : System → System × Outcome Error Unit = λ t.
        let f' = Flusher.stop t.flusher in
        stop_step flusher_error f'.1 (record t { flusher = f'.0 }) saved in
      step-AllStopped compactor_error c.1 (record s { compactor = c.0 }) flushed
        (λ stopped.
          step-AllStopped flusher_error f.1 (record s { compactor = c.0; flusher = f.0 }) saved
            λ halted.
              step-AllStopped manifest_error m.1
                (record s { compactor = c.0; flusher = f.0; store = m.0 }) last
                λ _ _. record {
                  engine_off = off;
                  flusher_off = flusher_stop s.flusher halted;
                  compactor_off = compactor_stop s.compactor stopped;
                  lanes_off = lanes;
                })
        good

  stop-AllStopped :
      (disk : Disk) (s : System)
      → (stop marshal unmarshal disk s).1 ≡ ok tt
      → AllStopped (stop marshal unmarshal disk s).0
  unfolding stop
  stop-AllStopped disk s =
      let p = stop_lanes s.engine.lanes in
      let t : System = record s { engine = record s.engine { running = false; lanes = p.0 } } in
      if_rule (λ (r : System × Outcome Error Unit). r.1 ≡ ok tt → AllStopped r.0) s.engine.running
        (λ _.
          step-AllStopped recover_failed p.1 t (stop_parts marshal unmarshal disk)
            λ good. stop_parts-AllStopped disk t refl (stop_lanes-IsStopped s.engine.lanes good))
        λ _ good. cc

  start_parts-off :
      (s : System)
      → s.flusher.running ≡ false
      → s.compactor.running ≡ false
      → (start_parts s).1 ≡ ok tt
  unfolding start_parts Flusher.start Compaction.start start_step
  start_parts-off s f c = rw (f, c) refl

  start-off :
      (range : Map Value → Map Value) (crc32 : Bytes → ℕ) (s : System)
      → AllStopped s
      → (recover_lanes range crc32 s.engine.lanes).1 ≡ replayed
      → (start range crc32 s).1 ≡ ok tt
  unfolding start start_recovered
  start-off range crc32 s h r =
      rw (h.engine_off, r) (start_parts-off _ h.flusher_off h.compactor_off)

  -- If Stop returns no error, and the logs of the lanes can be replayed, then a Start after it
  -- returns no error, but then CreateNode succeeds for no node: the lanes stay stopped.
  pub restart_refuses :
      (range : Map Value → Map Value) (crc32 hash : Bytes → ℕ) (disk : Disk) (now : ℕ) (n : Node)
      (s : System)
      → (stop marshal unmarshal disk s).1 ≡ ok tt
      → (recover_lanes range crc32 (stop marshal unmarshal disk s).0.engine.lanes).1 ≡ replayed
      → ((start range crc32 (stop marshal unmarshal disk s).0).1 ≡ ok tt)
        × ((create_node crc32 range hash now n
              (start range crc32 (stop marshal unmarshal disk s).0).0.engine).1
            ≢ ok tt)
  restart_refuses range crc32 hash disk now n s stopped logs =
      let off = stop-AllStopped disk s stopped in
      let t = (stop marshal unmarshal disk s).0 in
      (
        start-off range crc32 t off logs,
        create_node-stopped range crc32 hash now n (start range crc32 t).0.engine
            (start-IsStopped range crc32 t off.lanes_off),
      )
