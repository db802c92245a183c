-- ===== src/Wal/Buffering.antt =====
-- What a write through bufio.Writer does to the file and the buffer.
use crazygraphstore.Common.{
  ℕ, ◌-◌, ◌≡◌, refl, sym, ap, ◌∙◌, false, [], ◌∷◌, ◌++◌, append-nil, append_assoc, arith, length,
  take, drop, Bytes, leb, if_rule, take-append-drop,
}
use crazygraphstore.Wal.File.{Wal, write_left, write_over, buffered_write}

unfoldable pub written : Wal → Bytes
written w = w.file ++ w.buffer

write_left-written :
    (left : Bytes) (w : Wal) → w.buffer ≡ [] → written (write_left left w) ≡ written w ++ left
unfolding written write_left
write_left-written left w e =
    if_rule (λ (v : Wal). written v ≡ written w ++ left) (leb (length left) w.buffer_size)
      (λ _. rw (e, append-nil)) λ _. rw (e, append-nil, append-nil)

write_over-written :
    (b : Bytes) (room : ℕ) (p : Bytes) (w : Wal)
    → w.buffer ≡ b
    → written (write_over b room p w) ≡ written w ++ p
unfolding written write_over
write_over-written [] room p w e = rw (e, append-nil, append-nil)
write_over-written (x ∷ b) room p w e =
    write_left-written (drop room p)
      (record w { file = w.file ++ (w.buffer ++ take room p); buffer = [] }) refl
    ∙ simp (append-nil, append_assoc, take-append-drop)

-- The buffer keeps the order of what is written through it.
pub buffered_write-written : (p : Bytes) (w : Wal) → written (buffered_write p w) ≡ written w ++ p
unfolding buffered_write
buffered_write-written p w =
    if_rule (λ (v : Wal). written v ≡ written w ++ p)
      (leb (length p) (w.buffer_size - length w.buffer))
      (λ _. unfold written in sym (append_assoc w.file w.buffer p))
      λ _. write_over-written w.buffer _ p w refl

-- A write never takes anything back from the file.
abbrev pub Grows : Bytes → Bytes → Type 0
Grows f g = (more : Bytes) × (g ≡ f ++ more)

pub Grows-refl : (f : Bytes) → Grows f f
Grows-refl f = ([], sym (append-nil f))

pub Grows-trans : (f g h : Bytes) → Grows f g → Grows g h → Grows f h
Grows-trans f g h (m, p) (n, q) = (m ++ n, q ∙ ap (λ (k : Bytes). k ++ n) p ∙ append_assoc f m n)

write_left-Grows : (left : Bytes) (w : Wal) → Grows w.file (write_left left w).file
unfolding write_left
write_left-Grows left w =
    if_rule (λ (v : Wal). Grows w.file v.file) (leb (length left) w.buffer_size)
      (λ _. Grows-refl w.file) λ _. (left, refl)

write_over-Grows :
    (b : Bytes) (room : ℕ) (p : Bytes) (w : Wal) → Grows w.file (write_over b room p w).file
unfolding write_over
write_over-Grows [] room p w = (p, refl)
write_over-Grows (x ∷ b) room p w =
    let v : Wal = record w { file = w.file ++ (w.buffer ++ take room p); buffer = [] } in
    Grows-trans w.file v.file _ (w.buffer ++ take room p, refl) (write_left-Grows (drop room p) v)

pub buffered_write-Grows : (p : Bytes) (w : Wal) → Grows w.file (buffered_write p w).file
unfolding buffered_write
buffered_write-Grows p w =
    if_rule (λ (v : Wal). Grows w.file v.file) (leb (length p) (w.buffer_size - length w.buffer))
      (λ _. Grows-refl w.file) λ _. write_over-Grows w.buffer _ p w

-- The mode in which Append writes through bufio.Writer.
pub record IsOpen (w : Wal) : Type 0 where
  pub open_file : w.closed ≡ false
  pub buffered : w.use_direct_io ≡ false

write_left-IsOpen : (left : Bytes) (w : Wal) → IsOpen w → IsOpen (write_left left w)
unfolding write_left
write_left-IsOpen left w h = ground arith

write_over-IsOpen :
    (b : Bytes) (room : ℕ) (p : Bytes) (w : Wal) → IsOpen w → IsOpen (write_over b room p w)
unfolding write_over
write_over-IsOpen [] room p w h = ground arith
write_over-IsOpen (x ∷ b) room p w h =
    write_left-IsOpen (drop room p) _ (record { open_file = h.open_file; buffered = h.buffered })

pub buffered_write-IsOpen : (p : Bytes) (w : Wal) → IsOpen w → IsOpen (buffered_write p w)
unfolding buffered_write
buffered_write-IsOpen p w h =
    if_rule IsOpen (leb (length p) (w.buffer_size - length w.buffer)) (λ _. ground arith)
      λ _. write_over-IsOpen w.buffer _ p w h
