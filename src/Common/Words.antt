-- ===== src/Common/Words.antt =====
-- Fixed-width unsigned integers as bytes: encoding/binary's LittleEndian and BigEndian.
-- A value is a native number; a width of `n` bytes keeps it modulo 256 ^ n.
use Prim.Native.Nat.{ℕ, zero, suc, ◌+◌, ◌*◌, ◌/◌, ◌%◌, ◌^◌, ◌<◌}
use mathlib.Core.Path.{◌≡◌, refl, ap, ◌∙◌}
use mathlib.Core.List.{[], ◌∷◌, ◌++◌}
use native.Mathlib.Omega.{arith}
use crazygraphstore.Common.Lists.{length, length-append, All}
use crazygraphstore.Common.ByteStrings.{Bytes, IsByte}

-- `uint64` addition of one
abbrev pub inc64 : ℕ → ℕ
inc64 n = (n + 1) % 2 ^ 64

-- `n` bytes, the lowest first
unfoldable pub put_le : ℕ → ℕ → Bytes
put_le zero v = []
put_le (suc n) v = (v % 256) ∷ put_le n (v / 256)

-- the number that bytes stand for, the lowest first
unfoldable pub get_le : Bytes → ℕ
get_le [] = 0
get_le (b ∷ bs) = b + 256 * get_le bs

-- `n` bytes, the highest first
unfoldable pub put_be : ℕ → ℕ → Bytes
put_be zero v = []
put_be (suc n) v = put_be n (v / 256) ++ (v % 256) ∷ []

-- the number that bytes stand for, the highest first
unfoldable pub get_be_from : ℕ → Bytes → ℕ
get_be_from acc [] = acc
get_be_from acc (b ∷ bs) = get_be_from (acc * 256 + b) bs

unfoldable pub get_be : Bytes → ℕ
unfolding get_be_from
get_be bs = get_be_from 0 bs

pub length-put_le : (n v : ℕ) → length (put_le n v) ≡ n
unfolding put_le
length-put_le zero v = refl
length-put_le (suc n) v = ap suc (length-put_le n (v / 256))

pub length-put_be : (n v : ℕ) → length (put_be n v) ≡ n
unfolding put_be
length-put_be zero v = refl
length-put_be (suc n) v =
    length-append (put_be n (v / 256)) ((v % 256) ∷ []) ∙ omega (arith, length-put_be n (v / 256))

pub put_le-IsByte : (n v : ℕ) → All IsByte (put_le n v)
unfolding put_le
put_le-IsByte zero v = tt
put_le-IsByte (suc n) v = (omega arith, put_le-IsByte n (v / 256))

-- A value that fits its width is read back.
pub get_le-put_le : (n v : ℕ) → v < 256 ^ n → get_le (put_le n v) ≡ v
unfolding get_le put_le
get_le-put_le zero v h = omega arith
get_le-put_le (suc n) v h = omega (arith, get_le-put_le n (v / 256) (omega arith))

get_be_from-append :
    (acc : ℕ) (bs : Bytes) (b : ℕ) → get_be_from acc (bs ++ b ∷ []) ≡ get_be_from acc bs * 256 + b
unfolding get_be_from
get_be_from-append acc [] b = refl
get_be_from-append acc (c ∷ bs) b = get_be_from-append (acc * 256 + c) bs b

pub get_be-put_be : (n v : ℕ) → v < 256 ^ n → get_be (put_be n v) ≡ v
unfolding get_be put_be
get_be-put_be zero v h = omega arith
get_be-put_be (suc n) v h =
    get_be_from-append 0 (put_be n (v / 256)) (v % 256)
    ∙ omega (arith, get_be-put_be n (v / 256) (omega arith))
