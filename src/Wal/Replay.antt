-- ===== src/Wal/Replay.antt =====
-- pkg/wal/wal.go: `Replay`. The caller's function is a parameter: it changes the caller's state and
-- may fail.
use crazygraphstore.Common.{
  ℕ, zero, suc, Option, none, some, length, Bytes, Outcome, ok, err, panic,
}
use crazygraphstore.Wal.{
  Entry, Read, done, eof, unexpected_eof, checksum_mismatch, deserialize_entry,
}

-- How Replay ended. `stuck` is no Go outcome: the fuel of the loop ran out.
pub data Ended (E : Type 0) : Type 0 where
  replayed : Ended E
  bad_entry : Ended E
  apply_failed : E → Ended E
  crashed : Ended E
  stuck : Ended E

-- Replay goes on only where the call of the function returned no error.
abbrev pub after : {E S : Type 0} → S × Outcome E Unit → (S → S × Ended E) → S × Ended E
after p k = elim p.1 [ ok _ ↦ k p.0 | err x ↦ (p.0, apply_failed x) | panic ↦ (p.0, crashed) ]

module _ {E S : Type 0} (fn : Entry → S → S × Outcome E Unit) where
  -- the body of the loop of Replay, after an entry was read; `next` is the rest of the loop
  unfoldable pub step : Read Entry → (Bytes → S → S × Ended E) → S → S × Ended E
  step (done e rest) next s = after (fn e s) (next rest)
  step eof next s = (s, replayed)
  step unexpected_eof next s = (s, bad_entry)
  step checksum_mismatch next s = (s, bad_entry)

module _ (crc32 : Bytes → ℕ) {E S : Type 0} (fn : Entry → S → S × Outcome E Unit) where
  -- the loop of Replay over the bytes that are left
  unfoldable pub replay_loop : ℕ → Bytes → S → S × Ended E
  unfolding step
  replay_loop zero input s = (s, stuck)
  replay_loop (suc fuel) input s = step fn (deserialize_entry crc32 input) (replay_loop fuel) s

  -- Replay: a log that does not exist is an empty one.
  unfoldable pub replay : Option Bytes → S → S × Ended E
  unfolding replay_loop
  replay none s = (s, replayed)
  replay (some input) s = replay_loop (suc (length input)) input s
