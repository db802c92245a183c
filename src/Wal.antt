-- ===== src/Wal.antt =====
-- pkg/wal/wal.go: the entries of the write-ahead log as bytes. The proofs, the log file and its
-- buffers are in the children. The checksum is a parameter: `crc32.ChecksumIEEE`, a number below
-- 2 ^ 32. A timestamp is the bit pattern of the int64.
pub mod Entries
pub mod Torn
pub mod Replay
pub mod Recovery
pub mod File
pub mod Buffering
pub mod Durability
pub mod Crash
pub mod DirectIo
use crazygraphstore.Common.{
  ℕ, ◌+◌, ◌^◌, ◌%◌, ◌<◌, ◌==◌, ◌≡◌, Bool, true, false, Option, none, some, List, [], ◌∷◌, ◌++◌, ltb,
  if◌then◌else◌, length, take, drop, Bytes, IsByte, not,
}
use crazygraphstore.Common.Words.{put_le, get_le}

abbrev pub entry_type_node : ℕ
entry_type_node = 1

abbrev pub entry_type_edge : ℕ
entry_type_edge = 2

abbrev pub entry_type_delete : ℕ
entry_type_delete = 3

-- Entry, without the checksum that only its bytes carry
pub record Entry : Type 0 where
  pub entry_type : ℕ
  pub key : Bytes
  pub value : Bytes
  pub timestamp : ℕ

-- The result of a read from a `bufio.Reader`: a value and the bytes left, or an error. `eof` is
-- io.EOF, which comes back only where not one byte was left; a shorter rest is `unexpected_eof`.
pub data Read {ℓ} (A : Type ℓ) : Type ℓ where
  done : A → Bytes → Read A
  eof : Read A
  unexpected_eof : Read A
  checksum_mismatch : Read A

infixl 5 ◌>>=◌
unfoldable pub ◌>>=◌ {ℓ} : {A B : Type ℓ} → (Bytes → Read A) → (A → Bytes → Read B) → Bytes → Read B
◌>>=◌ m f input = elim (m input) [
  | done a rest ↦ f a rest
  | eof ↦ eof
  | unexpected_eof ↦ unexpected_eof
  | checksum_mismatch ↦ checksum_mismatch
]

-- ReadByte
unfoldable pub read_byte : Bytes → Read ℕ
read_byte [] = eof
read_byte (b ∷ rest) = done b rest

-- io.ReadFull into a buffer of `n` bytes
unfoldable pub read_full : ℕ → Bytes → Read Bytes
read_full n input =
    if ltb (length input) n
    then elim input [ [] ↦ eof | _ ∷ _ ↦ unexpected_eof ]
    else done (take n input) (drop n input)

-- serializeEntry up to its checksum; `uint32(len)` keeps a length modulo 2 ^ 32
unfoldable pub entry_body : Entry → Bytes
entry_body e =
    e.entry_type
    ∷ (put_le 4 (length e.key)
        ++ (e.key ++ (put_le 4 (length e.value) ++ (e.value ++ put_le 8 e.timestamp))))

module _ (crc32 : Bytes → ℕ) where
  -- the last four bytes of serializeEntry
  unfoldable pub checksum_of : Entry → Bytes
  checksum_of e = put_le 4 (crc32 (entry_body e))

  -- serializeEntry
  unfoldable pub serialize_entry : Entry → Bytes
  serialize_entry e = entry_body e ++ checksum_of e

  -- the test at the end of deserializeEntry
  unfoldable pub verify : Entry → ℕ → Bytes → Read Entry
  verify e stored rest = if stored == get_le (checksum_of e) then done e rest else checksum_mismatch

  -- deserializeEntry after the type byte
  unfoldable pub deserialize_fields : ℕ → Bytes → Read Entry
  deserialize_fields entry_type = do
    key_len ← read_full 4
    key ← read_full (get_le key_len)
    value_len ← read_full 4
    value ← read_full (get_le value_len)
    timestamp ← read_full 8
    checksum ← read_full 4
    verify
        (record { entry_type = entry_type; key = key; value = value; timestamp = get_le timestamp })
        (get_le checksum)

  -- deserializeEntry
  unfoldable pub deserialize_entry : Bytes → Read Entry
  unfolding deserialize_fields
  deserialize_entry = read_byte >>= deserialize_fields
