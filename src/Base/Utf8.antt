-- ===== src/Base/Utf8.antt =====
-- Positions in a `str`: `is_char_boundary`, `floor_char_boundary` and slices by byte offsets.
use mathlib.Core.Path.{◌≡◌, refl, ap}
use mathlib.Core.Logic.{inl, inr}
use mathlib.Core.Bool.{Bool, true, false, not, ◌&&◌}
use mathlib.Core.List.{[], ◌∷◌}
use mathlib.Core.Option.{some, none}
use Prim.Native.Nat.{ℕ, zero, suc, ◌-◌, ◌≤◌, ◌<◌}
use native.Mathlib.Omega.{arith}
use native.Mathlib.Decide.{ℕ_discrete}
use oxicrab.Base.Tests.{if◌then◌else◌, leb, ltb, ◌==◌, Bool-cases}
use oxicrab.Base.Lists.{length, get_elem?, take, drop, get_elem?-length}
use oxicrab.Base.Text.{Text}

-- A byte 10xxxxxx continues a character.
abbrev pub is_continuation : ℕ → Bool
is_continuation b = leb 128 b && ltb b 192

unfoldable pub is_char_boundary : Text → ℕ → Bool
is_char_boundary s zero = true
is_char_boundary s (suc i) = elim (get_elem? s (suc i)) [
  | none ↦ suc i == length s
  | some b ↦ not (is_continuation b)
]

unfoldable pub floor_below : Text → ℕ → ℕ
floor_below s zero = 0
floor_below s (suc i) =
    let rest = floor_below s i in if is_char_boundary s (suc i) then suc i else rest

unfoldable pub floor_char_boundary : Text → ℕ → ℕ
floor_char_boundary s i = if leb (length s) i then length s else floor_below s i

-- `&s[start..end]` for `start <= end <= len`.
abbrev pub slice : Text → ℕ → ℕ → Text
slice s start end = take (end - start) (drop start s)

pub floor_below-le : (s : Text) (i : ℕ) → floor_below s i ≤ i
unfolding floor_below
floor_below-le s zero = omega arith
floor_below-le s (suc i) = ground (arith, floor_below-le s i)

pub floor_below-boundary : (s : Text) (i : ℕ) → is_char_boundary s (floor_below s i) ≡ true
unfolding floor_below is_char_boundary
floor_below-boundary s zero = refl
floor_below-boundary s (suc i) = elim (Bool-cases (is_char_boundary s (suc i))) [
  | inl e ↦ rw (e, floor_below) e
  | inr e ↦ rw (e, floor_below) (floor_below-boundary s i)
]

-- No boundary lies between the result and the argument.
pub floor_below-greatest :
    (s : Text) (i j : ℕ) → j ≤ i → is_char_boundary s j ≡ true → j ≤ floor_below s i
unfolding floor_below
floor_below-greatest s zero j h b = h
floor_below-greatest s (suc i) j h b = elim (Bool-cases (is_char_boundary s (suc i))) [
  | inl e ↦ rw (e, floor_below) h
  | inr e ↦ rw (e, floor_below) (floor_below-greatest s i j (below e) b)
]
  where
    below : is_char_boundary s (suc i) ≡ false → j ≤ i
    below e = elim (ℕ_discrete j (suc i)) [
      | yes p ↦ absurd (cc (ap (is_char_boundary s) p))
      | no n ↦ omega arith
    ]

pub floor_char_boundary-le : (s : Text) (i : ℕ) → floor_char_boundary s i ≤ i
unfolding floor_char_boundary
floor_char_boundary-le s i = ground (arith, floor_below-le s i)

pub floor_char_boundary-le-length : (s : Text) (i : ℕ) → floor_char_boundary s i ≤ length s
unfolding floor_char_boundary
floor_char_boundary-le-length s i = ground (arith, floor_below-le s i)

pub floor_char_boundary_mono :
    (s : Text) (i j : ℕ) → i ≤ j → floor_char_boundary s i ≤ floor_char_boundary s j
unfolding floor_char_boundary
floor_char_boundary_mono s i j h = ground (
  arith,
  floor_below-le s i,
  floor_below-greatest s j (floor_below s i),
  floor_below-boundary s i,
)

pub floor_char_boundary-boundary :
    (s : Text) (i : ℕ) → i < length s → is_char_boundary s (floor_char_boundary s i) ≡ true
unfolding floor_char_boundary
floor_char_boundary-boundary s i h = ground (arith, floor_below-boundary s i)

-- A boundary is its own floor.
pub floor_char_boundary_self :
    (s : Text) (i : ℕ) → i ≤ length s → is_char_boundary s i ≡ true → floor_char_boundary s i ≡ i
unfolding floor_char_boundary
floor_char_boundary_self s i h b = ground (arith, floor_below-le s i, floor_below-greatest s i i)

pub is_char_boundary-length : (s : Text) → is_char_boundary s (length s) ≡ true
unfolding is_char_boundary
is_char_boundary-length [] = refl
is_char_boundary-length (c ∷ s) = rw (get_elem?-length s, is_char_boundary) (ground arith)

pub floor_char_boundary-IsBoundary :
    (s : Text) (i : ℕ) → i ≤ length s → is_char_boundary s (floor_char_boundary s i) ≡ true
unfolding floor_char_boundary
floor_char_boundary-IsBoundary s i h =
    ground (arith, floor_below-boundary s i, is_char_boundary-length s)
