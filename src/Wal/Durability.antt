-- ===== src/Wal/Durability.antt =====
-- What a crash keeps: the file is always the front of the log of the entries appended, and all that
-- was synced is in it.
use crazygraphstore.Common.{
  ℕ, ◌≡◌, sym, ap, ◌∙◌, List, [], ◌∷◌, ◌++◌, append-nil, append_assoc, arith, length, All, Bytes,
  Outcome, ok,
}
use crazygraphstore.Wal.{Entry, serialize_entry}
use crazygraphstore.Wal.Recovery.{log, log-nil, log-snoc}
use crazygraphstore.Wal.File.{Wal, Error, counted, buffered_write, sync, append, truncate}
use crazygraphstore.Wal.Buffering.{
  written, Grows, Grows-refl, Grows-trans, IsOpen, buffered_write-written, buffered_write-Grows,
  buffered_write-IsOpen,
}

pub data Op : Type 0 where
  append_op : Entry → Op
  sync_op : ℕ → Op
  truncate_op : Op

-- Append and Sync
abbrev pub KeepsLog : Op → Type 0
KeepsLog truncate_op = ⊥
KeepsLog _ = Unit

module _ (crc32 : Bytes → ℕ) where
  pub apply : Op → Wal → Wal × Outcome Error Unit
  apply (append_op e) = append crc32 e
  apply (sync_op now) = sync now
  apply truncate_op = truncate

  pub run : List Op → Wal → Wal
  run [] w = w
  run (op ∷ ops) w = run ops (apply op w).0

  -- The entries appended since the last Truncate.
  unfoldable pub live : List Op → List Entry → List Entry
  live [] es = es
  live (append_op e ∷ ops) es = live ops (es ++ e ∷ [])
  live (sync_op now ∷ ops) es = live ops es
  live (truncate_op ∷ ops) es = live ops []

  pub append_lem :
      (e : Entry) (w : Wal)
      → IsOpen w
      → (append crc32 e w) ≡ (
        counted (length (serialize_entry crc32 e)) (buffered_write (serialize_entry crc32 e) w),
        ok tt,
      )
  unfolding append
  append_lem e w h = rw (h.open_file, h.buffered)

  pub sync_lem :
      (now : ℕ) (w : Wal)
      → IsOpen w
      → ((sync now w).0.file ≡ w.file ++ w.buffer)
        × ((sync now w).0.buffer ≡ [])
        × ((sync now w).1 ≡ ok tt)
        × IsOpen (sync now w).0
  unfolding sync
  sync_lem now w h = ground arith

  truncate_lem : (w : Wal) → IsOpen w → (written (truncate w).0 ≡ []) × IsOpen (truncate w).0
  unfolding truncate written
  truncate_lem w h = ground arith

  pub append-IsOpen : (e : Entry) (w : Wal) → IsOpen w → IsOpen (append crc32 e w).0
  append-IsOpen e w h =
      let o = buffered_write-IsOpen (serialize_entry crc32 e) w h in
      rw (append_lem e w h) (record { open_file = o.open_file; buffered = o.buffered })

  apply-IsOpen : (op : Op) (w : Wal) → IsOpen w → IsOpen (apply op w).0
  unfolding apply
  apply-IsOpen (append_op e) w h = append-IsOpen e w h
  apply-IsOpen (sync_op now) w h = (sync_lem now w h).3
  apply-IsOpen truncate_op w h = (truncate_lem w h).1

  -- For an open log in buffered mode: if its file and buffer together hold the log of some entries,
  -- then after any Append, Sync and Truncate calls they together hold the log of the entries that
  -- are live, those appended since the last Truncate, and the log is still open.
  pub run-written :
      (ops : List Op) (w : Wal) (es : List Entry)
      → IsOpen w
      → written w ≡ log crc32 es
      → (written (run ops w) ≡ log crc32 (live ops es)) × IsOpen (run ops w)
  unfolding run live apply
  run-written [] w es h e = (e, h)
  run-written (append_op d ∷ ops) w es h e =
      run-written ops (append crc32 d w).0 (es ++ d ∷ []) (append-IsOpen d w h) (
        rw (append_lem d w h) (
          unfold written in
          (unfold written in buffered_write-written (serialize_entry crc32 d) w)
          ∙ ap (λ (t : Bytes). t ++ serialize_entry crc32 d) (unfold written in e)
          ∙ sym (log-snoc crc32 es d)))
  run-written (sync_op now ∷ ops) w es h e =
      let (f, b, r, o) = sync_lem now w h in
      run-written ops (sync now w).0 es o
        (unfold written in rw (f, b, append-nil) (unfold written in e))
  run-written (truncate_op ∷ ops) w es h e =
      let (f, o) = truncate_lem w h in run-written ops (truncate w).0 [] o (f ∙ sym (log-nil crc32))

  pub run-Grows :
      (ops : List Op) (w : Wal) → All KeepsLog ops → IsOpen w → Grows w.file (run ops w).file
  unfolding run apply
  run-Grows [] w k h = Grows-refl w.file
  run-Grows (append_op e ∷ ops) w k h =
      Grows-trans w.file (append crc32 e w).0.file _
        (rw (append_lem e w h) (buffered_write-Grows (serialize_entry crc32 e) w))
        (run-Grows ops (append crc32 e w).0 k.1 (append-IsOpen e w h))
  run-Grows (sync_op now ∷ ops) w k h =
      let (f, b, r, o) = sync_lem now w h in
      Grows-trans w.file (sync now w).0.file _ (w.buffer, f) (run-Grows ops (sync now w).0 k.1 o)
  run-Grows (truncate_op ∷ ops) w k h = absurd k.0

  pub live-append :
      (ops : List Op) (es : List Entry) → All KeepsLog ops → live ops es ≡ es ++ live ops []
  unfolding live
  live-append [] es k = sym (append-nil es)
  live-append (append_op e ∷ ops) es k =
      live-append ops (es ++ e ∷ []) k.1
      ∙ append_assoc es (e ∷ []) (live ops [])
      ∙ ap (λ (t : List Entry). es ++ t) (sym (live-append ops (e ∷ []) k.1))
  live-append (sync_op now ∷ ops) es k = live-append ops es k.1
  live-append (truncate_op ∷ ops) es k = absurd k.0
