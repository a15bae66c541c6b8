-- ===== src/Base/Case.antt =====
-- `str.casefold`, `str.lower` and `str.upper`, as a comparison with a word of ASCII letters sees
-- them: a character whose image has none but ASCII characters is mapped, any other is kept, since its
-- image is not ASCII either.
use Prim.Native.Char.{Char, code}
use Prim.Native.String.{String, ◌++◌}
use mathlib.Core.Bool.{◌||◌}
use project_development_skil.Base.Tests.{◌==◌, if◌then◌else◌}

-- The character of the second text at the place where the first has c.
unfoldable pub exchange : String → String → Char → Char
exchange String.[] t c = c
exchange (String.◌∷◌ a s) String.[] c = c
exchange (String.◌∷◌ a s) (String.◌∷◌ b t) c =
    let rest = exchange s t c in if code a == code c then b else rest

unfoldable pub lower : String → String
unfolding exchange
lower String.[] = ""
lower (String.◌∷◌ c s) =
    String.◌∷◌ (exchange "ABCDEFGHIJKLMNOPQRSTUVWXYZ" "abcdefghijklmnopqrstuvwxyz" c) (lower s)

-- The dotless i, which is 305, has I as its upper case, and the long s, 383, has S.
upper_char : Char → Char
unfolding exchange
upper_char c =
    if code c == 305
    then "I"
    else if code c == 383
    then "S"
    else exchange "abcdefghijklmnopqrstuvwxyz" "ABCDEFGHIJKLMNOPQRSTUVWXYZ" c

-- The sharp s and the ligatures give two letters or three.
upper_letters : Char → String
unfolding upper_char
upper_letters c =
    if code c == 223
    then "SS"
    else if code c == 64256
    then "FF"
    else if code c == 64257
    then "FI"
    else if code c == 64258
    then "FL"
    else if code c == 64259
    then "FFI"
    else if code c == 64260
    then "FFL"
    else if code c == 64261 || code c == 64262
    then "ST"
    else String.◌∷◌ (upper_char c) ""

unfoldable pub upper : String → String
unfolding upper_letters
upper String.[] = ""
upper (String.◌∷◌ c s) = upper_letters c ++ upper s

-- The long s folds to s, and the sign for kelvin, 8490, to k.
fold_char : Char → Char
unfolding exchange
fold_char c =
    if code c == 383
    then "s"
    else if code c == 8490
    then "k"
    else exchange "ABCDEFGHIJKLMNOPQRSTUVWXYZ" "abcdefghijklmnopqrstuvwxyz" c

fold_letters : Char → String
unfolding fold_char
fold_letters c =
    if code c == 223 || code c == 7838
    then "ss"
    else if code c == 64256
    then "ff"
    else if code c == 64257
    then "fi"
    else if code c == 64258
    then "fl"
    else if code c == 64259
    then "ffi"
    else if code c == 64260
    then "ffl"
    else if code c == 64261 || code c == 64262
    then "st"
    else String.◌∷◌ (fold_char c) ""

unfoldable pub casefold : String → String
unfolding fold_letters
casefold String.[] = ""
casefold (String.◌∷◌ c s) = fold_letters c ++ casefold s
