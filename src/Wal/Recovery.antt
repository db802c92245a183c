-- ===== src/Wal/Recovery.antt =====
-- What Replay makes of a log: every whole entry is applied, in order, and a torn one never.
use crazygraphstore.Common.{
  ℕ, zero, suc, ◌<◌, ◌≡◌, ◌≢◌, refl, sym, ap, ◌∙◌, ◌⊎◌, inl, inr, Option, none, some, List, [], ◌∷◌,
  ◌++◌, length, Bytes, Outcome, ok, err, panic, arith, All, append-nil, append_assoc,
}
use mathlib.Core.Path.{fun_ext}
use crazygraphstore.Wal.{
  Entry, Read, read_byte, ◌>>=◌, done, eof, unexpected_eof, checksum_mismatch, serialize_entry,
  deserialize_entry,
}
use crazygraphstore.Wal.Entries.{IsEntry, deserialize-serialize}
use crazygraphstore.Wal.Torn.{deserialize_shortens, deserialize_torn}
use crazygraphstore.Wal.Replay.{Ended, replayed, bad_entry, stuck, replay_loop, replay, after, step}

-- The bytes of a log.
unfoldable pub log : (Bytes → ℕ) → List Entry → Bytes
log crc32 [] = []
log crc32 (e ∷ es) = serialize_entry crc32 e ++ log crc32 es

module _ (crc32 : Bytes → ℕ) where
  pub log-nil : log crc32 [] ≡ []
  unfolding log
  log-nil = refl

  pub log-cons :
      (e : Entry) (es : List Entry) → log crc32 (e ∷ es) ≡ serialize_entry crc32 e ++ log crc32 es
  unfolding log
  log-cons e es = refl

  pub log-snoc :
      (es : List Entry) (e : Entry)
      → log crc32 (es ++ e ∷ []) ≡ log crc32 es ++ serialize_entry crc32 e
  unfolding log
  log-snoc [] e = append-nil (serialize_entry crc32 e)
  log-snoc (d ∷ es) e =
      ap (λ (t : Bytes). serialize_entry crc32 d ++ t) (log-snoc es e)
      ∙ sym (append_assoc (serialize_entry crc32 d) (log crc32 es) (serialize_entry crc32 e))

  pub log-append : (es ds : List Entry) → log crc32 (es ++ ds) ≡ log crc32 es ++ log crc32 ds
  unfolding log
  log-append [] ds = refl
  log-append (e ∷ es) ds =
      ap (λ (t : Bytes). serialize_entry crc32 e ++ t) (log-append es ds)
      ∙ sym (append_assoc (serialize_entry crc32 e) (log crc32 es) (log crc32 ds))

module _ {E S : Type 0} (fn : Entry → S → S × Outcome E Unit) where
  -- The entries applied in order, until one fails; then the rest of the log.
  pub apply_all : List Entry → (S → S × Ended E) → S → S × Ended E
  apply_all [] k s = k s
  apply_all (e ∷ es) k s = after (fn e s) (apply_all es k)

  after_cong :
      (p : S × Outcome E Unit) (k l : S → S × Ended E)
      → ((s : S) → k s ≡ l s)
      → after p k ≡ after p l
  after_cong (s, ok u) k l h = h s
  after_cong (s, err x) k l h = refl
  after_cong (s, panic) k l h = refl

  after-ne-stuck :
      (p : S × Outcome E Unit) (k : S → S × Ended E)
      → ((s : S) → (k s).1 ≢ stuck)
      → (after p k).1 ≢ stuck
  after-ne-stuck (s, ok u) k h = h s
  after-ne-stuck (s, err x) k h = λ e. cc
  after-ne-stuck (s, panic) k h = λ e. cc

  module _ (crc32 : Bytes → ℕ) where
    loop_done :
        (fuel : ℕ) (input rest : Bytes) (e : Entry) (s : S)
        → deserialize_entry crc32 input ≡ done e rest
        → replay_loop crc32 fn (suc fuel) input s ≡ after (fn e s) (replay_loop crc32 fn fuel rest)
    unfolding replay_loop
    loop_done fuel input rest e s h = rw (h, replay_loop)

    -- Two amounts of fuel above the number of bytes give the same result, and it is not `stuck`.
    loop_fuel :
        (f g : ℕ) (input : Bytes) (s : S)
        → length input < f
        → length input < g
        → (replay_loop crc32 fn f input s ≡ replay_loop crc32 fn g input s)
          × ((replay_loop crc32 fn f input s).1 ≢ stuck)
    unfolding replay_loop
    loop_fuel zero g input s hf hg = absurd (omega arith)
    loop_fuel (suc f) zero input s hf hg = absurd (omega arith)
    loop_fuel (suc f) (suc g) input s hf hg =
        go (deserialize_entry crc32 input) (λ e rest p. loop_fuel f g rest)
          λ e rest p. omega (arith, deserialize_shortens crc32 input rest e p)
      where
        go :
            (r : Read Entry)
            → ((e : Entry) (rest : Bytes)
                → r ≡ done e rest
                → (s' : S) → length rest < f
                → length rest < g
                → (replay_loop crc32 fn f rest s' ≡ replay_loop crc32 fn g rest s')
                  × ((replay_loop crc32 fn f rest s').1 ≢ stuck))
            → ((e : Entry) (rest : Bytes) → r ≡ done e rest → (length rest < f) × (length rest < g))
            → (step fn r (replay_loop crc32 fn f) s ≡ step fn r (replay_loop crc32 fn g) s)
              × ((step fn r (replay_loop crc32 fn f) s).1 ≢ stuck)
        go (done e rest) ih fits =
            let (p, q) = fits e rest refl in
            (
              after_cong (fn e s) (replay_loop crc32 fn f rest) (replay_loop crc32 fn g rest)
                  (λ s'. (ih e rest refl s' p q).0),
              after-ne-stuck (fn e s) (replay_loop crc32 fn f rest)
                  (λ s'. (ih e rest refl s' p q).1),
            )
        go eof ih fits = (refl, λ e. cc)
        go unexpected_eof ih fits = (refl, λ e. cc)
        go checksum_mismatch ih fits = (refl, λ e. cc)

    loop_log :
        (es : List Entry) (tail : Bytes) (f : ℕ) (s : S)
        → All IsEntry es
        → length (log crc32 es ++ tail) < f
        → replay_loop crc32 fn f (log crc32 es ++ tail) s
          ≡ apply_all es (replay_loop crc32 fn (suc (length tail)) tail) s
    unfolding log apply_all
    loop_log [] tail f s h hf = (loop_fuel f (suc (length tail)) tail s hf (omega arith)).0
    loop_log (e ∷ es) tail zero s h hf = absurd (omega arith)
    loop_log (e ∷ es) tail (suc f) s h hf =
        let rest : Bytes = log crc32 es ++ tail in
        let split : log crc32 (e ∷ es) ++ tail ≡ serialize_entry crc32 e ++ rest =
          append_assoc (serialize_entry crc32 e) (log crc32 es) tail in
        let first : deserialize_entry crc32 (log crc32 (e ∷ es) ++ tail) ≡ done e rest =
          rw split (deserialize-serialize crc32 e rest h.0) in
        loop_done f _ rest e s first
        ∙ after_cong (fn e s) (replay_loop crc32 fn f rest) _ (λ s'.
          loop_log es tail f s' h.1 (omega (arith, deserialize_shortens crc32 _ rest e first)))

    -- Whole entries at the front of a log are applied, in order, before the rest is replayed.
    pub replay_tail :
        (es : List Entry) (tail : Bytes) (k : S → S × Ended E) (s : S)
        → All IsEntry es
        → ((s' : S) → replay crc32 fn (some tail) s' ≡ k s')
        → replay crc32 fn (some (log crc32 es ++ tail)) s ≡ apply_all es k s
    unfolding replay
    replay_tail es tail k s h e =
        loop_log es tail (suc (length (log crc32 es ++ tail))) s h (omega arith)
        ∙ ap (λ (l : S → S × Ended E). apply_all es l s) (fun_ext e)

    pub replay_read :
        (tail : Bytes) (r : Read Entry) (s : S)
        → deserialize_entry crc32 tail ≡ r
        → replay crc32 fn (some tail) s ≡ step fn r (replay_loop crc32 fn (length tail)) s
    unfolding replay replay_loop
    replay_read tail r s e = rw (e, replay_loop)

    -- Replay of a log that holds whole entries and nothing else applies each of them, in order, and
    -- stops early only where the callback fails. The lengths and times of the entries fit their
    -- fields.
    pub replay-log :
        (es : List Entry) (s : S)
        → All IsEntry es
        → replay crc32 fn (some (log crc32 es)) s ≡ apply_all es (λ s'. (s', replayed)) s
    replay-log es s h =
        ap (λ (input : Bytes). replay crc32 fn (some input) s) (sym (append-nil (log crc32 es)))
        ∙ replay_tail es [] (λ s'. (s', replayed)) s h
            (λ s'. unfold deserialize_entry read_byte replay ◌>>=◌ in refl)

    -- A log of whole entries with a proper front of the bytes of one more behind them, as a crash
    -- leaves it: Replay applies exactly the whole entries, in order, and then ends well or reports a
    -- bad entry, unless the callback failed before. The lengths and times of the entries fit their
    -- fields.
    pub replay_torn :
        (es : List Entry) (e : Entry) (front back : Bytes) (x : ℕ) (s : S)
        → All IsEntry es
        → IsEntry e
        → serialize_entry crc32 e ≡ front ++ x ∷ back
        → (replay crc32 fn (some (log crc32 es ++ front)) s ≡ apply_all es (λ s'. (s', replayed)) s)
          ⊎ (replay crc32 fn (some (log crc32 es ++ front)) s
              ≡ apply_all es (λ s'. (s', bad_entry)) s)
    replay_torn es e front back x s hes he cut =
        elim (deserialize_torn crc32 e front back x he cut) [
          | inl p ↦ inl (
              replay_tail es front _ s hes (λ s'. replay_read front eof s' p ∙ unfold step in refl))
          | inr p ↦ inr (
              replay_tail es front _ s hes
                (λ s'. replay_read front unexpected_eof s' p ∙ unfold step in refl))
        ]

    -- Replay ends on every file, whatever bytes it holds, and whatever the callback does.
    pub replay-ne-stuck : (file : Option Bytes) (s : S) → (replay crc32 fn file s).1 ≢ stuck
    unfolding replay
    replay-ne-stuck none s = λ e. cc
    replay-ne-stuck (some input) s =
        (loop_fuel (suc (length input)) (suc (length input)) input s (omega arith) (omega arith)).1
