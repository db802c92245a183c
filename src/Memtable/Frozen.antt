-- ===== src/Memtable/Frozen.antt =====
-- A frozen table is immutable: the life of a memtable as a step relation.
use crazygraphstore.Common.{ℕ, ◌≡◌, refl, true, arith, Bytes, panic, ◌≢◌, ◌∙◌}
use crazygraphstore.Memtable.{Memtable, new, put, remove, freeze}
use crazygraphstore.Memtable.Invariant.{IsValid, IsValid-new, put-IsValid, remove-IsValid}

-- One call, by any goroutine, that returns (a Put that panics does not).
pub data Step : Memtable → Memtable → Type 0 where
  put_step : (k v : Bytes) (m : Memtable) → (put k v m).1 ≢ panic → Step m (put k v m).0
  remove_step : (k : Bytes) (m : Memtable) → Step m (remove k m).0
  freeze_step : (m : Memtable) → Step m (freeze m)

pub data Reach (s : Memtable) : Memtable → Type 0 where
  here : Reach s s
  next : {t u : Memtable} → Reach s t → Step t u → Reach s u

freeze-IsValid : (m : Memtable) → IsValid m → IsValid (freeze m)
unfolding freeze
freeze-IsValid m h = record { distinct = h.distinct; sized = h.sized; counted = h.counted }

Step-IsValid : {t u : Memtable} → Step t u → IsValid t → IsValid u
Step-IsValid (put_step k v m r) h = put-IsValid k v m h r
Step-IsValid (remove_step k m) h = remove-IsValid k m h
Step-IsValid (freeze_step m) h = freeze-IsValid m h

Reach-IsValid : {s t : Memtable} → IsValid s → Reach s t → IsValid t
Reach-IsValid h here = h
Reach-IsValid h (next r st) = Step-IsValid st (Reach-IsValid h r)

-- In every state that calls of Put, Delete and Freeze which return can reach from New, the keys are
-- distinct, the size is the sum over the entries, and the count is their number.
pub reachable-IsValid : (max_size : ℕ) {m : Memtable} → Reach (new max_size) m → IsValid m
reachable-IsValid max_size r = Reach-IsValid (IsValid-new max_size) r

Step-frozen : {t u : Memtable} → Step t u → t.frozen ≡ true → u ≡ t
unfolding put remove freeze
Step-frozen (put_step k v m r) h = ground arith
Step-frozen (remove_step k m) h = ground arith
Step-frozen (freeze_step m) h = ground arith

-- Once a table is frozen, no Put, Delete or Freeze changes anything: every later state is the frozen
-- one.
pub Reach-frozen : {s t : Memtable} → s.frozen ≡ true → Reach s t → t ≡ s
Reach-frozen h here = refl
Reach-frozen {s} {t} h (next {t = u} r st) =
    let e : u ≡ s = Reach-frozen h r in Step-frozen st (rw e h) ∙ e
