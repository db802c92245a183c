-- ===== src/Wal/Entries.antt =====
-- Entries as bytes and back, and what a reader makes of an entry that was cut short.
use crazygraphstore.Common.{
  ℕ, ◌<◌, ◌^◌, ◌≡◌, refl, sym, ◌∙◌, ◌++◌, append_assoc, arith, length, length-append, take-append,
  drop-append, Bytes, le→ltb,
}
use crazygraphstore.Common.Words.{put_le, get_le, length-put_le, get_le-put_le}
use crazygraphstore.Wal.{
  Entry, Read, done, ◌>>=◌, read_byte, read_full, entry_body, checksum_of, serialize_entry, verify,
  deserialize_entry,
}

-- The lengths fit the uint32 fields, and the timestamp is a 64-bit pattern.
pub record IsEntry (e : Entry) : Type 0 where
  pub key_fits : length e.key < 2 ^ 32
  pub value_fits : length e.value < 2 ^ 32
  pub timestamp_fits : e.timestamp < 2 ^ 64

pub read_full-append :
    (n : ℕ) (xs rest : Bytes) → length xs ≡ n → read_full n (xs ++ rest) ≡ done xs rest
unfolding read_full
read_full-append n xs rest h = rw (
  ← h,
  le→ltb (length (xs ++ rest)) (length xs) (omega (arith, length-append xs rest)),
  take-append xs rest,
  drop-append xs rest,
)

pub bind_step {ℓ} :
    {A B : Type ℓ} (m : Bytes → Read A) (f : A → Bytes → Read B) {input rest : Bytes} {a : A}
    → m input ≡ done a rest
    → (m >>= f) input ≡ f a rest
unfolding ◌>>=◌
bind_step m f h = rw (h, ◌>>=◌)

module _ (crc32 : Bytes → ℕ) where
  verify_self :
      (e : Entry) (rest : Bytes) → verify crc32 e (get_le (checksum_of crc32 e)) rest ≡ done e rest
  unfolding verify
  verify_self e rest = ground arith

  -- If the lengths of an entry fit uint32 and its time fits 64 bits, deserializeEntry reads it back
  -- from the bytes that serializeEntry wrote, and leaves what follows them.
  pub deserialize-serialize :
      (e : Entry) (rest : Bytes)
      → IsEntry e
      → deserialize_entry crc32 (serialize_entry crc32 e ++ rest) ≡ done e rest
  unfolding deserialize_entry serialize_entry entry_body read_byte
  deserialize-serialize e rest h = simp append_assoc (
      bind_step read_byte _ refl
      ∙ bind_step (read_full 4) _ (read_full-append 4 _ _ (length-put_le 4 (length e.key)))
      ∙ bind_step (read_full (get_le (put_le 4 (length e.key)))) _
          (read_full-append _ e.key _ (sym key_len))
      ∙ bind_step (read_full 4) _ (read_full-append 4 _ _ (length-put_le 4 (length e.value)))
      ∙ bind_step (read_full (get_le (put_le 4 (length e.value)))) _
          (read_full-append _ e.value _ (sym value_len))
      ∙ bind_step (read_full 8) _ (read_full-append 8 _ _ (length-put_le 8 e.timestamp))
      ∙ bind_step (read_full 4) _
          (read_full-append 4 (checksum_of crc32 e) _ (unfold checksum_of in length-put_le 4 _))
      ∙ rw stamp (verify_self e rest))
    where
      key_len : get_le (put_le 4 (length e.key)) ≡ length e.key
      key_len = get_le-put_le 4 (length e.key) (omega (arith, h.key_fits))

      value_len : get_le (put_le 4 (length e.value)) ≡ length e.value
      value_len = get_le-put_le 4 (length e.value) (omega (arith, h.value_fits))

      stamp : get_le (put_le 8 e.timestamp) ≡ e.timestamp
      stamp = get_le-put_le 8 e.timestamp (omega (arith, h.timestamp_fits))
