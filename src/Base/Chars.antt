-- ===== src/Base/Chars.antt =====
-- `char::is_control`: the Unicode category Cc.
use Prim.Native.Char.{Char, code}
use mathlib.Core.Bool.{Bool, ◌&&◌, ◌||◌}
use oxicrab.Base.Tests.{leb}

unfoldable pub is_control : Char → Bool
is_control c = leb (code c) 31 || (leb 127 (code c) && leb (code c) 159)
