-- ===== src/Common/Runes.antt =====
-- A loop of Go over the runes of a string: for each of them the bytes of `string(ch)`. A byte at
-- which no valid UTF-8 starts is visited alone, as the replacement character U+FFFD.
use crazygraphstore.Common.{
  ℕ, zero, suc, ◌-◌, ◌≤◌, ◌<◌, ◌==◌, ◌≡◌, refl, ap, ◌∙◌, ◌⊎◌, Bool, false, ◌&&◌, List, [], ◌∷◌,
  ◌++◌, append_assoc, if◌then◌else◌, ltb, leb, take, All, Bytes, arith,
}

abbrev within : ℕ → ℕ → ℕ → Bool
within low high b = leb low b && leb b high

-- the range of the second byte, by the first
lowest : ℕ → ℕ
lowest a = if a == 224 then 160 else if a == 240 then 144 else 128

highest : ℕ → ℕ
highest a = if a == 237 then 159 else if a == 244 then 143 else 191

-- whether a text starts with a rune of two, three or four bytes
two_bytes : Bytes → Bool
two_bytes (a ∷ b ∷ text) = within 194 223 a && within 128 191 b
two_bytes text = false

three_bytes : Bytes → Bool
three_bytes (a ∷ b ∷ c ∷ text) =
    within 224 239 a && (within (lowest a) (highest a) b && within 128 191 c)
three_bytes text = false

four_bytes : Bytes → Bool
four_bytes (a ∷ b ∷ c ∷ d ∷ text) =
    within 240 244 a && (within (lowest a) (highest a) b && (within 128 191 c && within 128 191 d))
four_bytes text = false

-- The width of the rune at the start of a text, 0 where it is not valid; the first byte comes apart.
rune_width : ℕ → Bytes → ℕ
rune_width a text =
    if ltb a 128
    then 1
    else if two_bytes (a ∷ text)
    then 2
    else if three_bytes (a ∷ text)
    then 3
    else if four_bytes (a ∷ text)
    then 4
    else 0

-- The bytes of `string(ch)`, for a rune of some width.
rune_text : ℕ → Bytes → Bytes
rune_text zero text = 239 ∷ 191 ∷ 189 ∷ []
rune_text (suc n) text = take (suc n) text

-- The runes of a text behind some bytes that are left out.
unfoldable pub runes_after : ℕ → Bytes → List Bytes
unfolding rune_width rune_text lowest highest two_bytes three_bytes four_bytes
runes_after skip [] = []
runes_after (suc n) (a ∷ text) = runes_after n text
runes_after zero (a ∷ text) =
    rune_text (rune_width a text) (a ∷ text) ∷ runes_after (rune_width a text - 1) text

unfoldable pub runes : Bytes → List Bytes
unfolding runes_after
runes text = runes_after 0 text

abbrev IsTail : ℕ → Type 0
IsTail b = (128 ≤ b) × (b ≤ 191)

-- A well-formed byte sequence of UTF-8, after the table of the Unicode standard.
abbrev pub IsRune : Bytes → Type 0
IsRune (a ∷ []) = a < 128
IsRune (a ∷ b ∷ []) = (194 ≤ a) × (a ≤ 223) × IsTail b
IsRune (a ∷ b ∷ c ∷ []) =
    (((a ≡ 224) × (160 ≤ b) × (b ≤ 191))
      ⊎ (((225 ≤ a) × (a ≤ 236) × IsTail b)
          ⊎ (((a ≡ 237) × (128 ≤ b) × (b ≤ 159)) ⊎ ((238 ≤ a) × (a ≤ 239) × IsTail b))))
    × IsTail c
IsRune (a ∷ b ∷ c ∷ d ∷ []) =
    (((a ≡ 240) × (144 ≤ b) × (b ≤ 191))
      ⊎ (((241 ≤ a) × (a ≤ 243) × IsTail b) ⊎ ((a ≡ 244) × (128 ≤ b) × (b ≤ 143))))
    × IsTail c
    × IsTail d
IsRune other = ◌≡◌ {A = ℕ} 0 1

-- The text of some runes.
unfoldable pub text_of : List Bytes → Bytes
text_of [] = []
text_of (r ∷ rs) = r ++ text_of rs

-- A text that is valid UTF-8.
pub record IsText (text : Bytes) : Type 0 where
  pub parts : List Bytes
  pub valid : All IsRune parts
  pub whole : text_of parts ≡ text

two_width : (a b : ℕ) (text : Bytes) → IsRune (a ∷ b ∷ []) → rune_width a (b ∷ text) ≡ 2
unfolding rune_width two_bytes
two_width a b text h = ground (arith, h)

three_width : (a b c : ℕ) (text : Bytes) → IsRune (a ∷ b ∷ c ∷ []) → rune_width a (b ∷ c ∷ text) ≡ 3
unfolding rune_width two_bytes three_bytes lowest highest
three_width a b c text h = ground (arith, h)

four_width :
    (a b c d : ℕ) (text : Bytes) → IsRune (a ∷ b ∷ c ∷ d ∷ []) → rune_width a (b ∷ c ∷ d ∷ text) ≡ 4
unfolding rune_width two_bytes three_bytes four_bytes lowest highest
four_width a b c d text h = ground (arith, h)

-- A rune at the start of a text is visited first, as it is.
pub runes-IsRune : (r text : Bytes) → IsRune r → runes (r ++ text) ≡ r ∷ runes text
unfolding runes runes_after rune_text
runes-IsRune [] text h = absurd (omega (arith, h))
runes-IsRune (a ∷ []) text h =
    let w : rune_width a text ≡ 1 = unfold rune_width in ground (arith, h) in rw w refl
runes-IsRune (a ∷ b ∷ []) text h = rw (two_width a b text h) refl
runes-IsRune (a ∷ b ∷ c ∷ []) text h = rw (three_width a b c text h) refl
runes-IsRune (a ∷ b ∷ c ∷ d ∷ []) text h = rw (four_width a b c d text h) refl
runes-IsRune (a ∷ b ∷ c ∷ d ∷ e ∷ r) text h = absurd (omega (arith, h))

pub runes-text_of :
    (rs : List Bytes) (text : Bytes) → All IsRune rs → runes (text_of rs ++ text) ≡ rs ++ runes text
unfolding text_of
runes-text_of [] text h = refl
runes-text_of (r ∷ rs) text h =
    ap runes (append_assoc r (text_of rs) text)
    ∙ runes-IsRune r (text_of rs ++ text) h.0
    ∙ ap (◌∷◌ r) (runes-text_of rs text h.1)
