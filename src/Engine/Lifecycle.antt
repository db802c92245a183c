-- ===== src/Engine/Lifecycle.antt =====
-- pkg/storage/engine.go: `Start` and `Stop` of the engine and its parts. The goroutines that they
-- start and wait for are not part of the model.
use crazygraphstore.Common.{
  ℕ, Bool, true, false, Option, List, [], ◌∷◌, if◌then◌else◌, Bytes, Outcome, ok, err, panic,
}
use crazygraphstore.Common.Maps.{Map}
use crazygraphstore.Graph.{Value}
use crazygraphstore.Lane
use crazygraphstore.Lane.{Lane}
use crazygraphstore.Lane.Upkeep
use crazygraphstore.Wal.Replay.{Ended, replayed, bad_entry, apply_failed, crashed, stuck}
use crazygraphstore.Flusher
use crazygraphstore.Flusher.{Flusher}
use crazygraphstore.Compaction
use crazygraphstore.Compaction.{Compactor}
use crazygraphstore.Manifest
use crazygraphstore.Manifest.{Manifest, Store, Disk, save}
use crazygraphstore.Engine.{Engine}
use crazygraphstore.Engine.Graphs.{recover_lanes}

pub data Error : Type 0 where
  already_running not_running bad_log : Error
  recover_failed : Lane.Error → Error
  flusher_error : Flusher.Error → Error
  compactor_error : Compaction.Error → Error
  manifest_error : Manifest.Error → Error

-- An engine with its flusher, its compactor and its manifest.
pub record System : Type 0 where
  pub engine : Engine
  pub flusher : Flusher
  pub compactor : Compactor
  pub store : Store

unfoldable pub set_running : Bool → System → System
set_running b s = record s { engine = record s.engine { running = b } }

-- a step of Start: where it fails, the engine does not run
unfoldable pub start_step :
    {E : Type 0}
    → (E → Error)
    → Outcome E Unit
    → System
    → (System → System × Outcome Error Unit)
    → System × Outcome Error Unit
unfolding set_running
start_step failed (ok _) s next = next s
start_step failed (err x) s next = (set_running false s, err (failed x))
start_step failed panic s next = (s, panic)

-- Start behind the recovery
unfoldable pub start_parts : System → System × Outcome Error Unit
unfolding start_step
start_parts s =
    let f = Flusher.start s.flusher in
    start_step flusher_error f.1 (record s { flusher = f.0 })
      λ s'.
        let c = Compaction.start s'.compactor in
        start_step compactor_error c.1 (record s' { compactor = c.0 }) (λ s''. (s'', ok tt))

-- Start from the result of recover on
unfoldable pub start_recovered : Ended Lane.Error → System → System × Outcome Error Unit
unfolding start_parts set_running
start_recovered replayed s = start_parts s
start_recovered bad_entry s = (set_running false s, err bad_log)
start_recovered (apply_failed x) s = (set_running false s, err (recover_failed x))
start_recovered crashed s = (s, panic)
start_recovered stuck s = (s, panic)

-- Start
unfoldable pub start : (Map Value → Map Value) → (Bytes → ℕ) → System → System × Outcome Error Unit
unfolding start_recovered recover_lanes
start range crc32 s =
    let p = recover_lanes range crc32 s.engine.lanes in
    if s.engine.running
    then (s, err already_running)
    else start_recovered p.1 (record s { engine = record s.engine { running = true; lanes = p.0 } })

-- the loop of Stop over the lanes, which a panic ends
unfoldable pub stop_lanes : List Lane → List Lane × Outcome Lane.Error Unit
stop_lanes [] = ([], ok tt)
stop_lanes (l ∷ ls) =
    let p = Upkeep.stop l in
    let rest = stop_lanes ls in
    elim p.1 [
      | ok _ ↦ (p.0 ∷ rest.0, rest.1)
      | err x ↦ (p.0 ∷ rest.0, rest.1)
      | panic ↦ (p.0 ∷ ls, panic)
    ]

-- a step of Stop: an error ends it
unfoldable pub stop_step :
    {E : Type 0}
    → (E → Error)
    → Outcome E Unit
    → System
    → (System → System × Outcome Error Unit)
    → System × Outcome Error Unit
stop_step failed (ok _) s next = next s
stop_step failed (err x) s next = (s, err (failed x))
stop_step failed panic s next = (s, panic)

module _ (marshal : Manifest → Option Bytes) (unmarshal : Bytes → Option Manifest) where
  -- Stop behind the loop over the lanes
  unfoldable pub stop_parts : Disk → System → System × Outcome Error Unit
  unfolding stop_step save
  stop_parts disk s =
      let c = Compaction.stop s.compactor in
      stop_step compactor_error c.1 (record s { compactor = c.0 })
        λ s'.
          let f = Flusher.stop s'.flusher in
          stop_step flusher_error f.1 (record s' { flusher = f.0 })
            λ s''.
              let m = save marshal unmarshal disk s''.store in
              stop_step manifest_error m.1 (record s'' { store = m.0 }) (λ s3. (s3, ok tt))

  -- Stop
  unfoldable pub stop : Disk → System → System × Outcome Error Unit
  unfolding stop_lanes stop_step stop_parts
  stop disk s =
      let p = stop_lanes s.engine.lanes in
      let s' : System = record s { engine = record s.engine { running = false; lanes = p.0 } } in
      if s.engine.running
      then stop_step recover_failed p.1 s' (stop_parts disk)
      else (s, err not_running)
