-- ===== src/Sstable/Table.antt =====
-- A whole SSTable: what a Writer makes of sorted entries, and what a Reader of the file answers. The
-- Bloom filter library comes in as a record of its functions, with what its documentation promises:
-- a key that was added tests positive, also after GobEncode and GobDecode.
pub mod Groups
pub mod Filter
pub mod Index
pub mod RoundTrip
use crazygraphstore.Common.{ℕ, ◌≡◌, Bool, true, Option, some, List, Bytes, Outcome, ok}
use crazygraphstore.Sstable.{Error}
use crazygraphstore.Sstable.Writer.{Writer, new_writer, close_writer}
use crazygraphstore.Sstable.Writer.Steps.{add_all}

pub record BloomFilter (B : Type 0) : Type 0 where
  pub empty_filter : B
  pub add_string : B → Bytes → B
  pub test_string : B → Bytes → Bool
  pub gob_encode : B → Bytes
  pub gob_decode : Bytes → Option B
  pub test_added : (b : B) (k : Bytes) → test_string (add_string b k) k ≡ true
  pub test_kept :
      (b : B) (k j : Bytes) → test_string b k ≡ true → test_string (add_string b j) k ≡ true
  pub decode_encoded : (b : B) → gob_decode (gob_encode b) ≡ some b

-- NewWriter, Add of each entry, and Close.
unfoldable pub write_table :
    {B : Type 0}
    → (Bytes → ℕ)
    → BloomFilter B
    → List (Bytes × Bytes)
    → Writer B × Outcome Error Unit
unfolding close_writer add_all
write_table crc32 bloom es =
    close_writer crc32 bloom.gob_encode
      (add_all crc32 bloom.add_string es (new_writer bloom.empty_filter)).0
