-- ===== src/Wal/Crash.antt =====
-- A crash at any time, and the Replay after it.
use crazygraphstore.Common.{
  ℕ, ◌≡◌, refl, sym, ap, ◌∙◌, ◌⊎◌, inl, inr, some, List, [], ◌∷◌, ◌++◌, append-nil, append_assoc,
  All, Bytes, Outcome, append-cancel, append_split, All-append, append-All,
}
use mathlib.Core.Path.{subst}
use crazygraphstore.Wal.{Entry, serialize_entry}
use crazygraphstore.Wal.Entries.{IsEntry}
use crazygraphstore.Wal.Replay.{replayed, bad_entry, replay}
use crazygraphstore.Wal.Recovery.{
  log, apply_all, log-nil, log-cons, log-append, replay-log, replay_torn,
}
use crazygraphstore.Wal.File.{Wal, sync}
use crazygraphstore.Wal.Buffering.{written, IsOpen}
use crazygraphstore.Wal.Durability.{
  Op, run, live, KeepsLog, run-written, run-Grows, live-append, sync_lem,
}

append-eq-nil {ℓ} : {A : Type ℓ} (xs ys : List A) → xs ++ ys ≡ [] → xs ≡ []
append-eq-nil [] ys h = refl
append-eq-nil (x ∷ xs) ys h = cc

module _ (crc32 : Bytes → ℕ) where
  -- The front of a log: whole entries, and the front of one more or nothing.
  data Front : List Entry → List Entry → Bytes → Type 0 where
    whole : {es ds : List Entry} {f : Bytes} → f ≡ log crc32 es → Front es ds f
    torn :
        {es ds : List Entry} {f : Bytes} (e : Entry) (part back : Bytes) (x : ℕ) (rest : List Entry)
        → f ≡ log crc32 es ++ part
        → serialize_entry crc32 e ≡ part ++ x ∷ back
        → ds ≡ e ∷ rest
        → Front es ds f

  Front-cons :
      (d : Entry) {es ds : List Entry} {m f : Bytes}
      → f ≡ serialize_entry crc32 d ++ m
      → Front es ds m
      → Front (d ∷ es) ds f
  Front-cons d p (whole {es} h) =
      whole (p ∙ ap (λ (t : Bytes). serialize_entry crc32 d ++ t) h ∙ sym (log-cons crc32 d es))
  Front-cons d p (torn {es} e part back x rest h cut q) =
      torn e part back x rest
        (p
          ∙ ap (λ (t : Bytes). serialize_entry crc32 d ++ t) h
          ∙ sym (append_assoc (serialize_entry crc32 d) (log crc32 es) part)
          ∙ ap (λ (t : Bytes). t ++ part) (sym (log-cons crc32 d es)))
        cut q

  Front-append :
      (es : List Entry) {applied lost : List Entry} {f : Bytes}
      → Front applied lost f
      → Front (es ++ applied) lost (log crc32 es ++ f)
  Front-append [] {applied} {lost} {f} front = rw (log-nil crc32) front
  Front-append (e ∷ es) {applied} {lost} {f} front =
      Front-cons e
        (ap (λ (t : Bytes). t ++ f) (log-cons crc32 e es)
          ∙ append_assoc (serialize_entry crc32 e) (log crc32 es) f)
        (Front-append es front)

  front_of_log :
      (later : List Entry) (f b : Bytes)
      → f ++ b ≡ log crc32 later
      → (applied lost : List Entry) × (later ≡ applied ++ lost) × Front applied lost f
  front_of_log [] f b h =
      ([], [], refl, whole (append-eq-nil f b (h ∙ log-nil crc32) ∙ sym (log-nil crc32)))
  front_of_log (e ∷ later) f b h =
      elim (append_split f b (serialize_entry crc32 e) (log crc32 later)
        (h ∙ log-cons crc32 e later)) [
          | inl (m, p, q) ↦
              let (applied, lost, split, front) = front_of_log later m b q in
              (e ∷ applied, lost, ap (◌∷◌ e) split, Front-cons e p front)
          | inr (x, m, p) ↦ (
            [],
            e ∷ later,
            refl,
            torn e f m x later (ap (λ (t : Bytes). t ++ f) (sym (log-nil crc32))) p refl,
          )
        ]

  module _ {E S : Type 0} (fn : Entry → S → S × Outcome E Unit) (s : S) where
    -- Replay of `file` applies `es`, and then ends well or on a bad entry.
    abbrev pub Recovers : Bytes → List Entry → Type 0
    Recovers file es =
        (replay crc32 fn (some file) s ≡ apply_all fn es (λ s'. (s', replayed)) s)
        ⊎ (replay crc32 fn (some file) s ≡ apply_all fn es (λ s'. (s', bad_entry)) s)

    Front-Recovers :
        {es ds : List Entry} {f : Bytes} → Front es ds f → All IsEntry (es ++ ds) → Recovers f es
    Front-Recovers (whole {es} {ds} h) v =
        inl (rw h (replay-log fn crc32 es s (All-append IsEntry es ds v).0))
    Front-Recovers (torn {es} {ds} e part back x rest h cut q) v =
        let (ve, vd) = All-append IsEntry es ds v in
        rw h (replay_torn fn crc32 es e part back x s ve (rw q at vd).0 cut)

    -- For an open log in buffered mode whose file and buffer hold the log of some entries: after
    -- Sync and then any Append and Sync calls, a crash at any time leaves a file from which Replay
    -- applies, in order, all those entries and a front of the ones appended after the Sync, and then
    -- ends well or on one bad entry; it stops earlier only where the callback fails. The lengths and
    -- times of all the entries fit their fields.
    pub crash_recovery :
        (w : Wal) (now : ℕ) (es : List Entry) (ops : List Op)
        → IsOpen w
        → written w ≡ log crc32 es
        → All IsEntry es
        → All KeepsLog ops
        → All IsEntry (live crc32 ops [])
        → (applied lost : List Entry) × (live crc32 ops [] ≡ applied ++ lost)
          × Recovers (run crc32 ops (sync now w).0).file (es ++ applied)
    crash_recovery w now es ops h e ves keeps vops =
        let w1 : Wal = (sync now w).0 in
        let w2 : Wal = run crc32 ops w1 in
        let (f, b, r, o) = sync_lem crc32 now w h in
        let synced : w1.file ≡ log crc32 es = f ∙ unfold written in e in
        let (more, grown) = run-Grows crc32 ops w1 keeps o in
        let all = (run-written crc32 ops w1 es o (unfold written in rw (b, append-nil) synced)).0 in
        let grown' : written w2 ≡ log crc32 es ++ (more ++ w2.buffer) =
          unfold written in
          (ap (λ (t : Bytes). t ++ w2.buffer) (grown ∙ ap (λ (t : Bytes). t ++ more) synced)
            ∙ append_assoc (log crc32 es) more w2.buffer) in
        let later : more ++ w2.buffer ≡ log crc32 (live crc32 ops []) =
          append-cancel (log crc32 es) (
            sym grown'
            ∙ all
            ∙ ap (log crc32) (live-append crc32 ops es keeps)
            ∙ log-append crc32 es (live crc32 ops [])) in
        let (applied, lost, split, front) = front_of_log (live crc32 ops []) more w2.buffer later in
        (
          applied,
          lost,
          split,
          subst (λ (t : Bytes). Recovers t (es ++ applied))
              (sym (grown ∙ ap (λ (t : Bytes). t ++ more) synced))
              (Front-Recovers (Front-append es front)
                (rw append_assoc (append-All IsEntry es (applied ++ lost) ves (rw split at vops)))),
        )
