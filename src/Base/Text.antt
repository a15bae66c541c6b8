-- ===== src/Base/Text.antt =====
-- Python's `str`: whitespace, `strip` and `join`.
use Prim.Native.Char.{code}
use Prim.Native.Nat.{ℕ}
use Prim.Native.String.{String, ◌++◌}
use mathlib.Core.Bool.{Bool, true, false, ◌&&◌, ◌||◌}
use mathlib.Core.List.{List}
use mathlib.Core.List as CoreList
use project_development_skil.Base.Tests.{leb, ◌==◌, if◌then◌else◌}

abbrev pub is_nil : String → Bool
is_nil String.[] = true
is_nil (String.◌∷◌ c s) = false

-- `str.isspace`: the code points that `str.strip()` removes.
unfoldable pub is_space : ℕ → Bool
is_space c =
    (leb 9 c && leb c 13)
    || (leb 28 c && leb c 32)
    || c == 133
    || c == 160
    || c == 5760
    || (leb 8192 c && leb c 8202)
    || c == 8232
    || c == 8233
    || c == 8239
    || c == 8287
    || c == 12288

unfoldable pub strip_left : String → String
unfolding is_space
strip_left String.[] = String.[]
strip_left (String.◌∷◌ c s) =
    let rest = strip_left s in if is_space (code c) then rest else String.◌∷◌ c s

unfoldable pub strip_right : String → String
unfolding is_space
strip_right String.[] = String.[]
strip_right (String.◌∷◌ c s) =
    let rest = strip_right s in
    if is_space (code c) && is_nil rest then String.[] else String.◌∷◌ c rest

-- `s.strip()`
unfoldable pub strip : String → String
unfolding strip_left strip_right
strip s = strip_right (strip_left s)

-- `not s or not s.strip()`
unfoldable pub is_blank : String → Bool
unfolding strip
is_blank s = is_nil s || is_nil (strip s)

-- `separator.join(parts)`
unfoldable pub join : String → List String → String
join separator CoreList.[] = String.[]
join separator (CoreList.◌∷◌ s CoreList.[]) = s
join separator (CoreList.◌∷◌ s rest) = s ++ (separator ++ join separator rest)
