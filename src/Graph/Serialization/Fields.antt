-- ===== src/Graph/Serialization/Fields.antt =====
-- Strings, values, labels and times are read back from the front of any bytes.
use crazygraphstore.Common.{
  ℕ, ◌-◌, ◌<◌, ◌^◌, ◌≡◌, refl, sym, ap, ◌∙◌, true, false, List, [], ◌∷◌, ◌++◌, append-nil,
  append_assoc, arith, if◌then◌else◌, length, take, drop, replicate, length-append,
  take-append_of_length, drop-append_of_length, le→ltb, All, Bytes, ok,
}
use crazygraphstore.Common.Words.{put_be, length-put_be, get_be-put_be}
use crazygraphstore.Graph.{
  Value, string_value, bytes_value, int_value, int64_value, float64_value, bool_value, other_value,
  Time,
}
use crazygraphstore.Graph.Serialization.{
  write_string, write_value, write_labels, write_stamps, Reader, ◌>>=◌, pure, read_byte,
  read_number, read_some, read_string, read_typed, read_value, read_labels, type_string, type_int64,
  type_float64, type_bool, type_bytes,
}

pub bind_step :
    {A B : Type 0} (m : Reader A) (f : A → Reader B) {input rest : Bytes} {a : A}
    → m input ≡ ok (a, rest)
    → (m >>= f) input ≡ f a rest
unfolding ◌>>=◌
bind_step m f h = rw (h, ◌>>=◌)

abbrev pub IsShort : Bytes → Type 0
IsShort s = length s < 2 ^ 32

pub read_number-put_be :
    (n v : ℕ) (rest : Bytes) → v < 256 ^ n → read_number n (put_be n v ++ rest) ≡ ok (v, rest)
unfolding read_number
read_number-put_be n v rest h = rw (
  le→ltb (length (put_be n v ++ rest)) n
      (omega (arith, length-append (put_be n v) rest, length-put_be n v)),
  take-append_of_length n (put_be n v) rest (length-put_be n v),
  drop-append_of_length n (put_be n v) rest (length-put_be n v),
  get_be-put_be n v h,
)

pub read_some_lem :
    (n : ℕ) (input : Bytes)
    → 0 < length input
    → read_some n input ≡ ok (take n input ++ replicate (n - length input) 0, drop n input)
unfolding read_some
read_some_lem n [] h = absurd (omega arith)
read_some_lem n (b ∷ rest) h = refl

pub read_some-text :
    (s rest : Bytes) → 0 < length rest → read_some (length s) (s ++ rest) ≡ ok (s, rest)
read_some-text s rest h =
    let n = length-append s rest in
    let pad : length s - length (s ++ rest) ≡ 0 = omega (arith, n) in
    read_some_lem (length s) (s ++ rest) (omega (arith, n))
    ∙ rw (
      take-append_of_length (length s) s rest refl,
      drop-append_of_length (length s) s rest refl,
      pad,
      append-nil,
    )

pub sized_step :
    (s rest : Bytes) {B : Type 0} (f : ℕ → Reader B)
    → IsShort s
    → (read_number 4 >>= f) ((put_be 4 (length s) ++ s) ++ rest) ≡ f (length s) (s ++ rest)
sized_step s rest f h =
    rw append_assoc
      (bind_step (read_number 4) f (read_number-put_be 4 (length s) (s ++ rest) (omega (arith, h))))

pub read_string-text :
    (s rest : Bytes)
    → IsShort s
    → 0 < length rest
    → read_string (write_string s ++ rest) ≡ ok (s, rest)
unfolding read_string write_string
read_string-text s rest h more = sized_step s rest read_some h ∙ read_some-text s rest more

-- What a value is read back as: an int comes back as an int64.
abbrev pub stored : Value → Value
stored (int_value n) = int64_value n
stored v = v

-- The values that can be written, within their widths.
abbrev pub IsValue : Value → Type 0
IsValue (string_value s) = IsShort s
IsValue (bytes_value s) = IsShort s
IsValue (int_value n) = n < 2 ^ 64
IsValue (int64_value n) = n < 2 ^ 64
IsValue (float64_value n) = n < 2 ^ 64
IsValue (bool_value b) = Unit
IsValue other_value = ⊥

pub value_text : Value → Bytes
value_text (string_value s) = type_string ∷ write_string s
value_text (bytes_value s) = type_bytes ∷ (put_be 4 (length s) ++ s)
value_text (int_value n) = type_int64 ∷ put_be 8 n
value_text (int64_value n) = type_int64 ∷ put_be 8 n
value_text (float64_value n) = type_float64 ∷ put_be 8 n
value_text (bool_value b) = type_bool ∷ (if b then 1 else 0) ∷ []
value_text other_value = []

pub write_value-text : (v : Value) → IsValue v → write_value v ≡ ok (value_text v)
unfolding write_value value_text
write_value-text (string_value s) h = refl
write_value-text (bytes_value s) h = refl
write_value-text (int_value n) h = refl
write_value-text (int64_value n) h = refl
write_value-text (float64_value n) h = refl
write_value-text (bool_value b) h = refl
write_value-text other_value h = elim h [ ]

pub number_step :
    (n : ℕ) (rest : Bytes) (f : ℕ → Value)
    → n < 2 ^ 64
    → (read_number 8 >>= λ v. pure (f v)) (put_be 8 n ++ rest) ≡ ok (f n, rest)
number_step n rest f h =
    bind_step (read_number 8) (λ v. pure (f v)) (read_number-put_be 8 n rest (omega (arith, h)))
    ∙ unfold pure in refl

pub read_value-text :
    (v : Value) (rest : Bytes)
    → IsValue v
    → 0 < length rest
    → read_value (value_text v ++ rest) ≡ ok (stored v, rest)
unfolding read_value value_text read_byte read_typed ◌>>=◌
read_value-text (string_value s) rest h more =
    bind_step read_string (λ t. pure (string_value t)) (read_string-text s rest h more)
    ∙ unfold pure in refl
read_value-text (bytes_value s) rest h more =
    sized_step s rest (λ size. read_some size >>= λ t. pure (bytes_value t)) h
    ∙ bind_step (read_some (length s)) (λ t. pure (bytes_value t)) (read_some-text s rest more)
    ∙ unfold pure in refl
read_value-text (int_value n) rest h more = number_step n rest int64_value h
read_value-text (int64_value n) rest h more = number_step n rest int64_value h
read_value-text (float64_value n) rest h more = number_step n rest float64_value h
read_value-text (bool_value true) rest h more = unfold pure in refl
read_value-text (bool_value false) rest h more = unfold pure in refl
read_value-text other_value rest h more = elim h [ ]

pub read_labels-text :
    (labels : List Bytes) (rest : Bytes)
    → All IsShort labels
    → 0 < length rest
    → read_labels (length labels) (write_labels labels ++ rest) ≡ ok (labels, rest)
unfolding read_labels write_labels
read_labels-text [] rest h more = unfold pure in refl
read_labels-text (l ∷ labels) rest h more =
    let behind : 0 < length (write_labels labels ++ rest) =
      omega (arith, length-append (write_labels labels) rest) in
    rw append_assoc
      (bind_step read_string _ (read_string-text l (write_labels labels ++ rest) h.0 behind))
    ∙ bind_step (read_labels (length labels)) (λ (ls : List Bytes). pure (l ∷ ls))
        (read_labels-text labels rest h.1 more)
    ∙ unfold pure in refl

pub stamps_step :
    {A : Type 0} (f : ℕ → ℕ → ℕ → A) (version : ℕ) (created updated : Time)
    → version < 2 ^ 64
    → created.seconds < 2 ^ 64
    → updated.seconds < 2 ^ 64
    → (read_number 8 >>= λ v. read_number 8 >>= λ c. read_number 8 >>= λ u. pure (f v c u))
        (write_stamps version created updated)
      ≡ ok (f version created.seconds updated.seconds, [])
unfolding write_stamps
stamps_step f version created updated hv hc hu =
    let c : ℕ = created.seconds in
    let u : ℕ = updated.seconds in
    bind_step (read_number 8) _
      (read_number-put_be 8 version (put_be 8 c ++ put_be 8 u) (omega (arith, hv)))
    ∙ bind_step (read_number 8) _ (read_number-put_be 8 c (put_be 8 u) (omega (arith, hc)))
    ∙ bind_step (read_number 8) (λ (u' : ℕ). pure (f version c u'))
        (ap (read_number 8) (sym (append-nil (put_be 8 u)))
          ∙ read_number-put_be 8 u [] (omega (arith, hu)))
    ∙ unfold pure in refl

pub length-write_stamps :
    (version : ℕ) (created updated : Time) → length (write_stamps version created updated) ≡ 24
unfolding write_stamps
length-write_stamps version created updated = simp (length-append, length-put_be) (omega arith)

pub assoc4 : (a b c d t : Bytes) → (a ++ (b ++ (c ++ d))) ++ t ≡ a ++ (b ++ (c ++ (d ++ t)))
assoc4 a b c d t = simp append_assoc

pub assoc5 :
    (a b c d e t : Bytes) → (a ++ (b ++ (c ++ (d ++ e)))) ++ t ≡ a ++ (b ++ (c ++ (d ++ (e ++ t))))
assoc5 a b c d e t = simp append_assoc
