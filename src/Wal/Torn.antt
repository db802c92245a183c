-- ===== src/Wal/Torn.antt =====
-- An entry that was cut short by a crash is never taken for an entry.
use crazygraphstore.Common.{
  ℕ, ◌≤◌, ◌<◌, ◌≡◌, refl, ◌⊎◌, inl, inr, [], ◌∷◌, ◌++◌, append-nil, arith, length, length-append,
  Bytes, take_of_prefix, drop_of_prefix, length-drop-le,
}
use crazygraphstore.Wal.{
  Entry, Read, done, eof, unexpected_eof, checksum_mismatch, ◌>>=◌, read_byte, read_full, verify,
  deserialize_fields, deserialize_entry, serialize_entry,
}
use crazygraphstore.Wal.Entries.{IsEntry, deserialize-serialize}

-- Bytes that a reader did not read are left over, and more input does not change its answer.
record IsStable {ℓ} {A : Type ℓ} (m : Bytes → Read A) : Type ℓ where
  done_stays :
      (input more rest : Bytes) (a : A)
      → m input ≡ done a rest
      → m (input ++ more) ≡ done a (rest ++ more)
  mismatch_stays :
      (input more : Bytes) → m input ≡ checksum_mismatch → m (input ++ more) ≡ checksum_mismatch
  shortens : (input rest : Bytes) (a : A) → m input ≡ done a rest → length rest ≤ length input

read_byte-IsStable : IsStable read_byte
unfolding read_byte
read_byte-IsStable = record {
  done_stays = elim [ [] ↦ λ more rest a h. cc | b ∷ bs ↦ λ more rest a h. ground arith ];
  mismatch_stays = elim [ [] ↦ λ more h. cc | b ∷ bs ↦ λ more h. cc ];
  shortens = elim [ [] ↦ λ rest a h. cc | b ∷ bs ↦ λ rest a h. ground arith ];
}

read_full-enough :
    (n : ℕ) (input rest a : Bytes) → read_full n input ≡ done a rest → n ≤ length input
unfolding read_full
read_full-enough n [] rest a h = ground arith
read_full-enough n (b ∷ input) rest a h = ground arith

read_full-IsStable : (n : ℕ) → IsStable (read_full n)
unfolding read_full
read_full-IsStable n = record {
  done_stays = λ input more rest a h.
      let e : n ≤ length input = read_full-enough n input rest a h in
      ground
        (arith, length-append input more, take_of_prefix n input more, drop_of_prefix n input more);
  mismatch_stays = λ input more h. ground arith;
  shortens = λ input rest a h. ground (arith, length-drop-le n input);
}

verify-IsStable : (crc32 : Bytes → ℕ) (e : Entry) (n : ℕ) → IsStable (verify crc32 e n)
unfolding verify
verify-IsStable crc32 e n = record {
  done_stays = λ input more rest a h. ground arith;
  mismatch_stays = λ input more h. ground arith;
  shortens = λ input rest a h. ground arith;
}

module _ {ℓ} {A B : Type ℓ} where
  -- How a bind came to its answer.
  bind_done :
      (m : Bytes → Read A) (f : A → Bytes → Read B) (input rest : Bytes) (b : B)
      → (m >>= f) input ≡ done b rest
      → (a : A) × (mid : Bytes) × (m input ≡ done a mid) × (f a mid ≡ done b rest)
  unfolding ◌>>=◌
  bind_done m f input rest b h = go (m input) refl
    where
      go :
          (r : Read A)
          → m input ≡ r
          → (a : A) × (mid : Bytes) × (m input ≡ done a mid) × (f a mid ≡ done b rest)
      go (done a mid) e = (a, mid, e, rw (e, ◌>>=◌) at h)
      go eof e = cc (rw (e, ◌>>=◌) at h)
      go unexpected_eof e = cc (rw (e, ◌>>=◌) at h)
      go checksum_mismatch e = cc (rw (e, ◌>>=◌) at h)

  bind_mismatch :
      (m : Bytes → Read A) (f : A → Bytes → Read B) (input : Bytes)
      → (m >>= f) input ≡ checksum_mismatch
      → (m input ≡ checksum_mismatch)
        ⊎ ((a : A) × (mid : Bytes) × (m input ≡ done a mid) × (f a mid ≡ checksum_mismatch))
  unfolding ◌>>=◌
  bind_mismatch m f input h = go (m input) refl
    where
      go :
          (r : Read A)
          → m input ≡ r
          → (m input ≡ checksum_mismatch)
            ⊎ ((a : A) × (mid : Bytes) × (m input ≡ done a mid) × (f a mid ≡ checksum_mismatch))
      go (done a mid) e = inr (a, mid, e, rw (e, ◌>>=◌) at h)
      go eof e = cc (rw (e, ◌>>=◌) at h)
      go unexpected_eof e = cc (rw (e, ◌>>=◌) at h)
      go checksum_mismatch e = inl e

  bind-IsStable :
      (m : Bytes → Read A) (f : A → Bytes → Read B)
      → IsStable m
      → ((a : A) → IsStable (f a))
      → IsStable (m >>= f)
  unfolding ◌>>=◌
  bind-IsStable m f hm hf = record {
    done_stays = λ input more rest b h.
        let (a, mid, p, q) = bind_done m f input rest b h in
        rw (hm.done_stays input more mid a p, ◌>>=◌) ((hf a).done_stays mid more rest b q);
    mismatch_stays = λ input more h. elim (bind_mismatch m f input h) [
      | inl p ↦ rw (hm.mismatch_stays input more p, ◌>>=◌)
      | inr (a, mid, p, q) ↦
          rw (hm.done_stays input more mid a p, ◌>>=◌) ((hf a).mismatch_stays mid more q)
    ];
    shortens = λ input rest b h.
        let (a, mid, p, q) = bind_done m f input rest b h in
        omega (arith, hm.shortens input mid a p, (hf a).shortens mid rest b q);
  }

ruleset stable = (read_full-IsStable, verify-IsStable, bind-IsStable, read_byte-IsStable)

module _ (crc32 : Bytes → ℕ) where
  fields-IsStable : (entry_type : ℕ) → IsStable (deserialize_fields crc32 entry_type)
  unfolding deserialize_fields
  fields-IsStable entry_type = search stable depth 20

  deserialize-IsStable : IsStable (deserialize_entry crc32)
  unfolding deserialize_entry
  deserialize-IsStable = search (stable, fields-IsStable)

  read_byte_shortens :
      (input rest : Bytes) (b : ℕ) → read_byte input ≡ done b rest → length rest < length input
  unfolding read_byte
  read_byte_shortens [] rest b h = cc
  read_byte_shortens (c ∷ input) rest b h = ground arith

  -- An entry takes one byte at least.
  pub deserialize_shortens :
      (input rest : Bytes) (e : Entry)
      → deserialize_entry crc32 input ≡ done e rest
      → length rest < length input
  deserialize_shortens input rest e h =
      let (b, mid, p, q) =
        bind_done read_byte (deserialize_fields crc32) input rest e
          (unfold deserialize_entry in h) in
      omega (arith, read_byte_shortens input mid b p, (fields-IsStable b).shortens mid rest e q)

  -- A proper front of the bytes of an entry, whose lengths and time fit their fields, is read as the
  -- end of the log or as a torn entry: it is never taken for an entry, and never for one with a
  -- wrong checksum.
  pub deserialize_torn :
      (e : Entry) (front back : Bytes) (x : ℕ)
      → IsEntry e
      → serialize_entry crc32 e ≡ front ++ x ∷ back
      → (deserialize_entry crc32 front ≡ eof) ⊎ (deserialize_entry crc32 front ≡ unexpected_eof)
  deserialize_torn e front back x h cut = go (deserialize_entry crc32 front) refl
    where
      whole : deserialize_entry crc32 (front ++ x ∷ back) ≡ done e []
      whole = rw (append-nil, cut) at (deserialize-serialize crc32 e [] h)

      go :
          (r : Read Entry)
          → deserialize_entry crc32 front ≡ r
          → (deserialize_entry crc32 front ≡ eof) ⊎ (deserialize_entry crc32 front ≡ unexpected_eof)
      go (done e' rest) p = absurd (
          ground (
            arith,
            whole,
            deserialize-IsStable.done_stays front (x ∷ back) rest e' p,
            length-append rest (x ∷ back),
          ))
      go checksum_mismatch p =
          absurd (cc (whole, deserialize-IsStable.mismatch_stays front (x ∷ back) p))
      go eof p = inl p
      go unexpected_eof p = inr p
