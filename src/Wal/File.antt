-- ===== src/Wal/File.antt =====
-- pkg/wal/wal.go: `WAL`, its two buffers and its file. A write to the file succeeds, and the time is
-- an argument. The file is what a Replay after a crash finds; the buffers are lost in a crash.
use crazygraphstore.Common.{
  ℕ, ◌+◌, ◌-◌, ◌*◌, ◌/◌, ◌%◌, ◌^◌, ◌==◌, Bool, true, false, [], ◌∷◌, ◌++◌, ltb, leb, if◌then◌else◌,
  length, take, drop, replicate, Bytes, Outcome, ok, err, panic,
}
use crazygraphstore.Common.Words.{inc64}
use crazygraphstore.Wal.{Entry, serialize_entry}

pub data Error : Type 0 where
  wal_closed buffer_overflow close_failed : Error

-- `aligned[:pos]`, its length `capacity` and `blockSize`
pub record AlignedBuffer : Type 0 where
  pub content : Bytes
  pub capacity : ℕ
  pub block_size : ℕ

-- Write of alignedBuffer
unfoldable pub aligned_write : Bytes → AlignedBuffer → AlignedBuffer × Outcome Error Unit
aligned_write p ab =
    if ltb ab.capacity (length ab.content + length p)
    then (ab, err buffer_overflow)
    else (record ab { content = ab.content ++ p }, ok tt)

-- the size of a flush: `pos` rounded up to blocks
abbrev pub aligned_size : AlignedBuffer → ℕ
aligned_size ab = (length ab.content + ab.block_size - 1) / ab.block_size * ab.block_size

-- Flush of alignedBuffer: what it writes to the file, and the buffer after it. Padding beyond the
-- end of the buffer is an index out of range.
unfoldable pub aligned_flush : AlignedBuffer → Outcome Error (Bytes × AlignedBuffer)
aligned_flush ab =
    if length ab.content == 0
    then ok ([], ab)
    else if ltb ab.capacity (aligned_size ab)
    then panic
    else ok (
      ab.content ++ replicate (aligned_size ab - length ab.content) 0,
      record ab { content = [] },
    )

pub record Wal : Type 0 where
  pub file : Bytes
  pub buffer : Bytes
  pub buffer_size : ℕ
  pub use_direct_io : Bool
  pub aligned : AlignedBuffer
  pub closed : Bool
  pub offset : ℕ
  pub total_writes : ℕ
  pub total_bytes : ℕ
  pub total_syncs : ℕ
  pub last_sync_time : ℕ

abbrev pub direct_io_block_size : ℕ
direct_io_block_size = 512

-- NewWAL over what the file holds already
unfoldable pub new : Bytes → ℕ → Bool → ℕ → Wal
new file buffer_size use_direct_io now = record {
  file = file;
  buffer = [];
  buffer_size = buffer_size;
  use_direct_io = use_direct_io;
  aligned = record { content = []; capacity = buffer_size; block_size = direct_io_block_size };
  closed = false;
  offset = length file;
  total_writes = 0;
  total_bytes = 0;
  total_syncs = 0;
  last_sync_time = now;
}

-- Write of bufio.Writer after the buffer went to the file: what fits is buffered.
unfoldable pub write_left : Bytes → Wal → Wal
write_left left w =
    if leb (length left) w.buffer_size
    then record w { buffer = left }
    else record w { file = w.file ++ left }

-- Write of bufio.Writer for a text that does not fit: with an empty buffer it goes to the file at
-- once, and else its front fills the buffer, which goes to the file. The first argument is the
-- buffer.
unfoldable pub write_over : Bytes → ℕ → Bytes → Wal → Wal
unfolding write_left
write_over [] room p w = record w { file = w.file ++ p }
write_over (b ∷ bs) room p w =
    write_left (drop room p) (record w { file = w.file ++ (w.buffer ++ take room p); buffer = [] })

-- Write of bufio.Writer
unfoldable pub buffered_write : Bytes → Wal → Wal
unfolding write_over
buffered_write p w =
    let room = w.buffer_size - length w.buffer in
    if leb (length p) room
    then record w { buffer = w.buffer ++ p }
    else write_over w.buffer room p w

-- the counters at the end of Append
abbrev pub counted : ℕ → Wal → Wal
counted n w = record w {
  total_writes = inc64 w.total_writes;
  total_bytes = (w.total_bytes + n) % 2 ^ 64;
  offset = (w.offset + n) % 2 ^ 64;
}

-- the write of Append in Direct I/O mode
unfoldable pub append_direct : Bytes → Wal → Wal × Outcome Error Unit
unfolding aligned_write
append_direct text w =
    let (ab, r) = aligned_write text w.aligned in
    elim r [
      | ok _ ↦ (counted (length text) (record w { aligned = ab }), ok tt)
      | err x ↦ (w, err x)
      | panic ↦ (w, panic)
    ]

-- the flush of Sync and Close
unfoldable pub flush : Wal → Outcome Error Wal
unfolding aligned_flush
flush w =
    if w.use_direct_io
    then elim (aligned_flush w.aligned) [
      | ok (written, ab) ↦ ok (record w { file = w.file ++ written; aligned = ab })
      | err x ↦ err x
      | panic ↦ panic
    ]
    else ok (record w { file = w.file ++ w.buffer; buffer = [] })

-- Sync
unfoldable pub sync : ℕ → Wal → Wal × Outcome Error Unit
unfolding flush
sync now w = if w.closed then (w, err wal_closed) else elim (flush w) [
  | ok w' ↦ (record w' { total_syncs = inc64 w'.total_syncs; last_sync_time = now }, ok tt)
  | err x ↦ (w, err x)
  | panic ↦ (w, panic)
]

-- Close
unfoldable pub close : Wal → Wal × Outcome Error Unit
unfolding flush
close w =
    let w' = record w { closed = true } in
    if w.closed
    then (w, ok tt)
    else elim (flush w') [ ok w'' ↦ (w'', ok tt) | err x ↦ (w', err x) | panic ↦ (w', panic) ]

-- Truncate: a file that is closed cannot be closed again. The new writer has 256 KB, and what was
-- buffered is dropped.
unfoldable pub truncate : Wal → Wal × Outcome Error Unit
truncate w =
    if w.closed
    then (w, err close_failed)
    else if w.use_direct_io
    then (record w { file = []; aligned = record w.aligned { content = [] }; offset = 0 }, ok tt)
    else (record w { file = []; buffer = []; buffer_size = 256 * 1024; offset = 0 }, ok tt)

module _ (crc32 : Bytes → ℕ) where
  -- Append
  unfoldable pub append : Entry → Wal → Wal × Outcome Error Unit
  unfolding append_direct buffered_write
  append entry w =
      let text = serialize_entry crc32 entry in
      if w.closed
      then (w, err wal_closed)
      else if w.use_direct_io
      then append_direct text w
      else (counted (length text) (buffered_write text w), ok tt)
