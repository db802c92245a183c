-- ===== src/Wal/DirectIo.antt =====
-- pkg/wal/wal.go: in Direct I/O mode a flush pads the log with zeros up to a block, and Replay reads
-- the zeros as an entry.
use crazygraphstore.Common.{
  ℕ, zero, suc, ◌+◌, ◌-◌, ◌≤◌, ◌<◌, ◌^◌, ◌≡◌, ◌≢◌, refl, ap, ◌∙◌, some, List, [], ◌∷◌, ◌++◌, arith,
  length, replicate, All, Bytes, Outcome, ok,
}
use crazygraphstore.Common.Words.{put_le, get_le, get_le-put_le}
use crazygraphstore.Wal.{
  Entry, checksum_mismatch, read_byte, read_full, entry_body, checksum_of, verify,
  deserialize_fields, deserialize_entry,
}
use crazygraphstore.Wal.Entries.{IsEntry, bind_step, read_full-append}
use native.Mathlib.Nat.{zero-add, suc-add}
use crazygraphstore.Wal.Replay.{bad_entry, replay, step}
use crazygraphstore.Wal.Recovery.{log, apply_all, replay_tail, replay_read}
use crazygraphstore.Wal.File.{AlignedBuffer, aligned_size, aligned_flush}

abbrev zeros : ℕ → Bytes
zeros n = replicate n 0

replicate-add : (m n : ℕ) → zeros (m + n) ≡ zeros m ++ zeros n
replicate-add zero n = rw zero-add
replicate-add (suc m) n = rw suc-add (ap (◌∷◌ 0) (replicate-add m n))

-- The entry that 21 zeros stand for.
abbrev empty_entry : Entry
empty_entry = record { entry_type = 0; key = []; value = []; timestamp = 0 }

flush_lem :
    (ab ab' : AlignedBuffer) (written : Bytes)
    → 0 < length ab.content
    → aligned_flush ab ≡ ok (written, ab')
    → written ≡ ab.content ++ zeros (aligned_size ab - length ab.content)
unfolding aligned_flush
flush_lem ab ab' written h e = ground arith

module _ (crc32 : Bytes → ℕ) (below : crc32 (zeros 17) < 2 ^ 32)
    (nonzero : crc32 (zeros 17) ≢ 0) where
  zeros_checksum : get_le (checksum_of crc32 empty_entry) ≡ crc32 (zeros 17)
  unfolding checksum_of entry_body
  zeros_checksum =
      unfold put_le in (unfold put_le in get_le-put_le 4 (crc32 (zeros 17)) (omega arith))

  verify_zeros : (rest : Bytes) → verify crc32 empty_entry 0 rest ≡ checksum_mismatch
  unfolding verify
  verify_zeros rest = ground (arith, zeros_checksum)

  zeros_mismatch : (rest : Bytes) → deserialize_entry crc32 (zeros 21 ++ rest) ≡ checksum_mismatch
  unfolding deserialize_entry deserialize_fields read_byte get_le
  zeros_mismatch rest =
      bind_step read_byte _ refl
      ∙ bind_step (read_full 4) _ (read_full-append 4 (zeros 4) _ refl)
      ∙ bind_step (read_full 0) _ (read_full-append 0 [] _ refl)
      ∙ bind_step (read_full 4) _ (read_full-append 4 (zeros 4) _ refl)
      ∙ bind_step (read_full 0) _ (read_full-append 0 [] _ refl)
      ∙ bind_step (read_full 8) _ (read_full-append 8 (zeros 8) _ refl)
      ∙ bind_step (read_full 4) _ (read_full-append 4 (zeros 4) rest refl)
      ∙ verify_zeros rest

  -- What a Direct I/O flush writes cannot be replayed: if the buffer holds whole entries, one or
  -- more, and the padding is 21 bytes or more, then Replay of the file applies the entries and ends
  -- on a bad entry. The checksum of 17 zeros is taken to be below 2 ^ 32 and not 0.
  pub flush_unreadable :
      {E S : Type 0} (fn : Entry → S → S × Outcome E Unit) (s : S) (es : List Entry)
      (ab ab' : AlignedBuffer) (written : Bytes)
      → All IsEntry es
      → ab.content ≡ log crc32 es
      → 0 < length ab.content
      → length ab.content + 21 ≤ aligned_size ab
      → aligned_flush ab ≡ ok (written, ab')
      → replay crc32 fn (some written) s ≡ apply_all fn es (λ s'. (s', bad_entry)) s
  flush_unreadable fn s es ab ab' written h c some_text pad e =
      let n : ℕ = aligned_size ab - length ab.content in
      let m : ℕ = n - 21 in
      let tail : zeros n ≡ zeros 21 ++ zeros m = ap zeros (omega arith) ∙ replicate-add 21 m in
      let file : written ≡ log crc32 es ++ (zeros 21 ++ zeros m) =
        flush_lem ab ab' written some_text e
        ∙ ap (λ (t : Bytes). t ++ zeros n) c
        ∙ ap (λ (t : Bytes). log crc32 es ++ t) tail in
      ap (λ (t : Bytes). replay crc32 fn (some t) s) file
      ∙ replay_tail fn crc32 es (zeros 21 ++ zeros m) (λ s'. (s', bad_entry)) s h
          (λ s'.
            replay_read fn crc32 (zeros 21 ++ zeros m) checksum_mismatch s'
              (zeros_mismatch (zeros m))
            ∙ unfold step in refl)
