-- ===== src/Base/Signed.antt =====
-- Rust's `i64` in two's complement: a number below 2 ^ 64, with wrapping addition and the signed
-- order, which shifts both sides by 2 ^ 63.
use Prim.Native.Nat.{ℕ, ◌+◌, ◌-◌, ◌*◌, ◌/◌, ◌%◌}
use mathlib.Core.Bool.{Bool, true, false, not}
use mathlib.Core.Option
use mathlib.Core.Option.{Option, none, some}
use mathlib.Core.List.{List, [], ◌∷◌}
use mathlib.Core.Path.{◌≡◌}
use native.Mathlib.Omega.{arith}
use oxicrab.Base.Tests.{ltb, leb, if◌then◌else◌}

unfoldable pub i64_add : ℕ → ℕ → ℕ
i64_add a b = (a + b) % 18446744073709551616

unfoldable pub bias : ℕ → ℕ
bias a = (a + 9223372036854775808) % 18446744073709551616

unfoldable pub i64_lt : ℕ → ℕ → Bool
i64_lt a b = ltb (bias a) (bias b)

unfoldable pub i64_le : ℕ → ℕ → Bool
i64_le a b = leb (bias a) (bias b)

unfoldable pub i64_max : ℕ → ℕ → ℕ
i64_max a b = if i64_lt b a then a else b

-- `Iterator::max` with a start value.
unfoldable pub i64_max_of : ℕ → List ℕ → ℕ
i64_max_of a [] = a
i64_max_of a (b ∷ bs) = i64_max_of (i64_max a b) bs

pub i64_lt-le : (a b : ℕ) → i64_lt a b ≡ false → i64_le b a ≡ true
unfolding i64_lt i64_le
i64_lt-le a b h = ground arith

pub i64_le-lt : (a b : ℕ) → i64_le a b ≡ false → i64_lt b a ≡ true
unfolding i64_lt i64_le
i64_le-lt a b h = ground arith

pub i64_max_of-ge : (a : ℕ) (bs : List ℕ) → i64_le a (i64_max_of a bs) ≡ true
unfolding i64_max_of i64_max i64_lt i64_le
i64_max_of-ge a [] = ground arith
i64_max_of-ge a (b ∷ bs) = ground (arith, i64_max_of-ge (i64_max a b) bs)

abbrev pub xor : Bool → Bool → Bool
xor true b = not b
xor false b = b

-- The sign and the magnitude of a value, and a value of that sign and magnitude if there is one.
unfoldable pub is_negative : ℕ → Bool
is_negative a = leb 9223372036854775808 a

unfoldable pub magnitude : ℕ → ℕ
magnitude a = if is_negative a then 18446744073709551616 - a else a

unfoldable pub i64_of : Bool → ℕ → Option ℕ
i64_of true m =
    if leb m 9223372036854775808
    then some ((18446744073709551616 - m) % 18446744073709551616)
    else none
i64_of false m = if ltb m 9223372036854775808 then some m else none

unfoldable pub i64_checked_add : ℕ → ℕ → Option ℕ
i64_checked_add a b =
    if xor (is_negative a) (is_negative b)
    then some (i64_add a b)
    else i64_of (is_negative a) (magnitude a + magnitude b)

unfoldable pub i64_checked_mul : ℕ → ℕ → Option ℕ
i64_checked_mul a b = i64_of (xor (is_negative a) (is_negative b)) (magnitude a * magnitude b)

-- Where the signs are equal the difference cannot overflow.
unfoldable pub i64_saturating_sub : ℕ → ℕ → ℕ
i64_saturating_sub a b =
    if xor (is_negative a) (is_negative b)
    then if is_negative a
      then Option.get_or (i64_of true (magnitude a + magnitude b)) 9223372036854775808
      else Option.get_or (i64_of false (magnitude a + magnitude b)) 9223372036854775807
    else (a + (18446744073709551616 - b)) % 18446744073709551616

-- Division cuts towards zero; the one quotient that has no `i64` is not reached by positive divisors.
unfoldable pub i64_div : ℕ → ℕ → ℕ
i64_div a b =
    Option.get_or (i64_of (xor (is_negative a) (is_negative b)) (magnitude a / magnitude b))
      9223372036854775808

-- The difference wraps.
unfoldable pub i64_sub : ℕ → ℕ → ℕ
i64_sub a b = (a + (18446744073709551616 - b)) % 18446744073709551616

unfoldable pub i64_min : ℕ → ℕ → ℕ
i64_min a b = if i64_lt b a then b else a
