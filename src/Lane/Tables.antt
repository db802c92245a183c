-- ===== src/Lane/Tables.antt =====
-- One write to an active table: it is stored, or the table is full and unchanged.
use crazygraphstore.Common.{
  ℕ, ◌+◌, ◌≤◌, ◌≡◌, ◌≢◌, refl, sym, ap, ◌∙◌, ◌⊎◌, inl, inr, Bool, true, false, Option, none, some,
  [], Bytes, bytes_eq, bytes_eq_iff, if◌then◌else◌, Outcome, ok, err, arith, ltb, length,
  Bool-cases, if_rule,
}
use crazygraphstore.Common.Maps.{lookup}
use crazygraphstore.Memtable.{Memtable, new, store, put, get, entry_size, size_exceeded}
use crazygraphstore.Memtable.Reads.{get-put}
use crazygraphstore.Memtable.Elements.{Failure, table_error, in_table, put_data}

-- A table that takes writes: it is not frozen and holds no tombstone.
pub record IsActive (size : ℕ) (m : Memtable) : Type 0 where
  pub not_frozen : m.frozen ≡ false
  pub sized : m.max_size ≡ size
  pub no_tombstone : (k : Bytes) → get k m ≢ some none

pub new-IsActive : (size : ℕ) → IsActive size (new size)
unfolding new get lookup
new-IsActive size = record { not_frozen = refl; sized = refl; no_tombstone = λ k h. cc (h) }

pub get-new : (k : Bytes) (size : ℕ) → get k (new size) ≡ none
unfolding new get lookup
get-new k size = refl

store_ok :
    (k v : Bytes) (o : Option (Option Bytes)) (m : Memtable)
    → o ≢ some none
    → ((store k o v m).1 ≡ ok tt)
      × ((store k o v m).0.frozen ≡ m.frozen)
      × ((store k o v m).0.max_size ≡ m.max_size)
unfolding store
store_ok k v none m h = (refl, refl, refl)
store_ok k v (some (some w)) m h = (refl, refl, refl)
store_ok k v (some none) m h = absurd (h refl)

-- The value fits into the table.
abbrev pub Fits : Bytes → Bytes → Memtable → Type 0
Fits k v m = m.size + (length k + length v) ≤ m.max_size

-- What Put stores.
pub record Stored (k v : Bytes) (size : ℕ) (m : Memtable) (r : Memtable × Outcome Failure Unit)
    : Type 0 where
  pub good : r.1 ≡ ok tt
  pub fits : length k + length v ≤ size
  pub reads : (j : Bytes) → get j r.0 ≡ (if bytes_eq k j then some (some v) else get j m)
  pub active : IsActive size r.0

put_open :
    (k v : Bytes) (size : ℕ) (m : Memtable)
    → k ≢ []
    → IsActive size m
    → ltb m.max_size (m.size + entry_size k v) ≡ false
    → put k v m ≡ store k (lookup k m.data_map) v m
unfolding put
put_open k v size m some_key a fits =
    if_rule (λ p. p ≡ store k (lookup k m.data_map) v m) m.frozen
      (λ cold. absurd (cc (cold, a.not_frozen)))
      λ _.
        if_rule (λ p. p ≡ store k (lookup k m.data_map) v m) (bytes_eq k [])
          (λ empty. absurd (some_key ((bytes_eq_iff k []).0 empty))) λ _. rw fits refl

put_full :
    (k v : Bytes) (size : ℕ) (m : Memtable)
    → k ≢ []
    → IsActive size m
    → ltb m.max_size (m.size + entry_size k v) ≡ true
    → put k v m ≡ (m, err size_exceeded)
unfolding put
put_full k v size m some_key a full =
    if_rule (λ p. p ≡ (m, err size_exceeded)) m.frozen (λ cold. absurd (cc (cold, a.not_frozen)))
      λ _.
        if_rule (λ p. p ≡ (m, err size_exceeded)) (bytes_eq k [])
          (λ empty. absurd (some_key ((bytes_eq_iff k []).0 empty))) λ _. rw full refl

not_buried :
    (b : Bool) (v : Bytes) (o : Option (Option Bytes))
    → o ≢ some none
    → (if b then some (some v) else o) ≢ some none
not_buried true v o h e = cc (e)
not_buried false v o h e = h e

-- A write that fits is stored.
pub put-Fits :
    (k v : Bytes) (size : ℕ) (m : Memtable)
    → k ≢ []
    → IsActive size m
    → Fits k v m
    → Stored k v size m (put_data k (ok v) m)
unfolding put_data
put-Fits k v size m some_key a fits =
    let made = put_open k v size m some_key a (ground (arith, fits)) in
    let (good, frozen, sized) =
      store_ok k v (lookup k m.data_map) m (unfold get in a.no_tombstone k) in
    let done : (put k v m).1 ≡ ok tt = ap (λ (p : Memtable × _). p.1) made ∙ good in
    let kept : (j : Bytes)
        → get j (put k v m).0 ≡ (if bytes_eq k j then some (some v) else get j m) =
      λ j. get-put k j v m done in
    record {
      good = rw done (unfold in_table in refl);
      fits = omega (arith, fits, a.sized);
      reads = kept;
      active = record {
        not_frozen = ap (λ (p : Memtable × _). p.0.frozen) made ∙ frozen ∙ a.not_frozen;
        sized = ap (λ (p : Memtable × _). p.0.max_size) made ∙ sized ∙ a.sized;
        no_tombstone =
            λ j h. not_buried (bytes_eq k j) v (get j m) (a.no_tombstone j) (sym (kept j) ∙ h);
      };
    }

-- A write is stored, or the table is full: then nothing has changed.
pub put_cases :
    (k v : Bytes) (size : ℕ) (m : Memtable)
    → k ≢ []
    → IsActive size m
    → Stored k v size m (put_data k (ok v) m)
      ⊎ (put_data k (ok v) m ≡ (m, err (table_error size_exceeded)))
unfolding put_data
put_cases k v size m some_key a = elim (Bool-cases (ltb m.max_size (m.size + entry_size k v))) [
  | inl full ↦ inr (rw (put_full k v size m some_key a full) (unfold in_table in refl))
  | inr fits ↦ inl (put-Fits k v size m some_key a (ground (arith, fits)))
]
