-- ===== src/Base/Text.antt =====
-- Byte strings: Rust's `str` as the list of its UTF-8 bytes, with `starts_with`, `contains`, `find`
-- and `is_ascii_digit`. A literal is its `codes`; the source's literals are ASCII.
use Prim.Native.Char.{code}
use Prim.Native.String.{String}
use Prim.Native.Nat.{ℕ, suc}
use mathlib.Core.Bool.{Bool, true, false, ◌&&◌, ◌||◌}
use mathlib.Core.List.{List, [], ◌∷◌}
use mathlib.Core.Option
use mathlib.Core.Option.{Option, none, some}
use oxicrab.Base.Tests.{leb, ◌==◌, if◌then◌else◌}

abbrev pub Text : Type 0
Text = List ℕ

abbrev pub codes : String → Text
codes String.[] = []
codes (String.◌∷◌ c s) = code c ∷ codes s

unfoldable pub starts_with : Text → Text → Bool
starts_with s [] = true
starts_with [] (p ∷ ps) = false
starts_with (c ∷ s) (p ∷ ps) = c == p && starts_with s ps

unfoldable pub contains : Text → Text → Bool
unfolding starts_with
contains [] p = starts_with [] p
contains (c ∷ s) p = starts_with (c ∷ s) p || contains s p

-- The offset of the first occurrence.
unfoldable pub find : Text → Text → Option ℕ
unfolding starts_with
find [] p = if starts_with [] p then some 0 else none
find (c ∷ s) p =
    let rest = Option.map suc (find s p) in if starts_with (c ∷ s) p then some 0 else rest

abbrev pub is_ascii_digit : ℕ → Bool
is_ascii_digit c = leb b'0' c && leb c b'9'
