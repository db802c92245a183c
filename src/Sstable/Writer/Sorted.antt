-- ===== src/Sstable/Writer/Sorted.antt =====
-- Sorted entries are never refused, and the groups of a whole table.
use crazygraphstore.Common.{
  ℕ, ◌<◌, ◌^◌, ◌≡◌, refl, sym, ap, ◌∙◌, true, false, List, [], ◌∷◌, ◌++◌, append_assoc, append-nil,
  arith, length, All, All-append, Bytes, bytes_eq, bytes_eq_iff, bytes_ltb, bytes_ltb_trans,
  bytes_ltb_irrefl, Outcome, ok, if_rule,
}
use crazygraphstore.Sstable.{Error}
use crazygraphstore.Sstable.Block.Lookup.{IsSmall, IsSorted, block_text, encode_entry_lem}
use crazygraphstore.Sstable.Writer.{
  Writer, new_writer, flush_block, out_of_order, add, append_entry,
}
use crazygraphstore.Sstable.Writer.Steps.{
  flush_block-grows, add_all, add_all_step, add_all_next, add_all-grows,
}
use crazygraphstore.Sstable.Writer.Keys.{Pair, last_key_of}
use crazygraphstore.Sstable.Writer.Groups.{
  IsReady, Grouped, add-IsReady, add-Grouped, flush_block-Grouped,
}

module _ (crc32 : Bytes → ℕ) {B : Type 0} where
  module _ (add_string : B → Bytes → B) where
    -- A key above the last one is in order.
    in_order :
        (key : Bytes) (done : List Pair)
        → All (λ (d : Pair). bytes_ltb d.0 key ≡ true) done
        → out_of_order key (last_key_of done) ≡ false
    unfolding out_of_order
    in_order key [] h = unfold bytes_eq in ground arith
    in_order key (d ∷ []) h =
        ground (arith, h.0, bytes_ltb_trans d.0 key d.0, bytes_ltb_irrefl d.0, bytes_eq_iff key d.0)
    in_order key (d ∷ c ∷ es) h = in_order key (c ∷ es) h.1

    add_accepts :
        (key value : Bytes) (w : Writer B) (done : List Pair)
        → IsSmall (key, value)
        → IsReady w done
        → All (λ (d : Pair). bytes_ltb d.0 key ≡ true) done
        → (add crc32 add_string key value w).1 ≡ ok tt
    unfolding add
    add_accepts key value w done small r above =
        let P : Writer B × Outcome Error Unit → Type 0 = λ p. p.1 ≡ ok tt in
        let order : out_of_order key w.last_key ≡ false =
          ap (out_of_order key) r.last ∙ in_order key done above in
        if_rule P w.closed (λ shut. absurd (cc (shut, r.open_writer)))
          λ _.
            if_rule P (out_of_order key w.last_key) (λ bad. absurd (cc (bad, order)))
              λ _. rw (encode_entry_lem key value small) (unfold append_entry in refl)

    sorted_split :
        (done es : List Pair) (e : Pair)
        → IsSorted (done ++ e ∷ es)
        → All (λ (d : Pair). bytes_ltb d.0 e.0 ≡ true) done
    sorted_split [] es e h = tt
    sorted_split (d ∷ done) es e h = (
      (All-append (λ (c : Pair). bytes_ltb d.0 c.0 ≡ true) done (e ∷ es) h.0).1.0,
      sorted_split done es e h.1,
    )

    add_all-IsReady :
        (es done : List Pair) (w : Writer B)
        → All IsSmall es
        → IsSorted (done ++ es)
        → IsReady w done
        → ((add_all crc32 add_string es w).1 ≡ ok tt)
          × IsReady (add_all crc32 add_string es w).0 (done ++ es)
    add_all-IsReady [] done w small sorted r = unfold add_all in (refl, rw append-nil r)
    add_all-IsReady ((key, value) ∷ es) done w small sorted r =
        let first =
          add_accepts key value w done small.0 r (sorted_split done es (key, value) sorted) in
        let step = add_all_next crc32 add_string key value es w first in
        let more = append_assoc done ((key, value) ∷ []) es in
        let (good, ready) =
          add_all-IsReady es (done ++ (key, value) ∷ []) (add crc32 add_string key value w).0
            small.1 (rw more sorted)
            (add-IsReady crc32 add_string key value w done small.0 first r) in
        rw step (good, rw more at ready)

    add_all-Grouped :
        ((block : Bytes) → crc32 block < 2 ^ 32)
        → (es done : List Pair) (w : Writer B) → All IsSmall es
        → (add_all crc32 add_string es w).1 ≡ ok tt
        → IsReady w done
        → length (add_all crc32 add_string es w).0.file < 2 ^ 64
        → Grouped crc32 w done
        → Grouped crc32 (add_all crc32 add_string es w).0 (done ++ es)
    add_all-Grouped below [] done w small good r short g = unfold add_all in rw append-nil g
    add_all-Grouped below ((key, value) ∷ es) done w small good r short g =
        let (first, step) = add_all_step crc32 add_string key value es w good in
        let w1 : Writer B = (add crc32 add_string key value w).0 in
        let good' : (add_all crc32 add_string es w1).1 ≡ ok tt =
          ap (λ (p : Writer B × Outcome Error Unit). p.1) (sym step) ∙ good in
        let short' : length (add_all crc32 add_string es w1).0.file < 2 ^ 64 = rw step at short in
        let grown = add_all-grows crc32 add_string es w1 small.1 good' in
        let g1 =
          add-Grouped crc32 add_string below key value w done small.0 first r
            (omega (arith, grown, short')) g in
        let final =
          add_all-Grouped below es (done ++ (key, value) ∷ []) w1 small.1 good'
            (add-IsReady crc32 add_string key value w done small.0 first r) short' g1 in
        rw step (rw append_assoc at final)

    new_writer-Grouped : (filter : B) → Grouped crc32 (new_writer filter) []
    unfolding new_writer
    new_writer-Grouped filter = record {
      groups = [];
      current = [];
      stored = record { placed = refl; readable = tt };
      keyed = tt;
      parts = refl;
      block = unfold block_text in refl;
    }

    new_writer-IsReady : (filter : B) → IsReady (new_writer filter) []
    unfolding new_writer
    new_writer-IsReady filter = record { open_writer = refl; last = refl }

    -- A new writer accepts any sorted entries that fit the format.
    pub add_all-accepts :
        (es : List Pair) (filter : B)
        → IsSorted es
        → All IsSmall es
        → ((add_all crc32 add_string es (new_writer filter)).1 ≡ ok tt)
          × IsReady (add_all crc32 add_string es (new_writer filter)).0 es
    add_all-accepts es filter sorted small =
        add_all-IsReady es [] (new_writer filter) small sorted (new_writer-IsReady filter)

    -- The groups on disk after the flush with which Close begins.
    pub flushed-Grouped :
        ((block : Bytes) → crc32 block < 2 ^ 32)
        → (es : List Pair) (filter : B) → IsSorted es
        → All IsSmall es
        → length (flush_block crc32 (add_all crc32 add_string es (new_writer filter)).0).file
          < 2 ^ 64
        → (g : Grouped crc32
            (flush_block crc32 (add_all crc32 add_string es (new_writer filter)).0)
            es)
          × (g.current ≡ [])
    flushed-Grouped below es filter sorted small short =
        let w : Writer B = (add_all crc32 add_string es (new_writer filter)).0 in
        let (good, ready) = add_all-accepts es filter sorted small in
        let g =
          add_all-Grouped below es [] (new_writer filter) small good (new_writer-IsReady filter)
            (omega (arith, flush_block-grows crc32 w, short)) (new_writer-Grouped filter) in
        flush_block-Grouped crc32 below w es g ready short
