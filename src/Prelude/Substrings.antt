-- ===== src/Prelude/Substrings.antt =====
-- strings.HasPrefix and strings.Contains. On valid UTF-8 a text holds another by its bytes exactly
-- when it holds it by its characters.
use Prim.Native.Char.{code}
use Prim.Native.String.{String}
use mathlib.Core.Bool.{Bool, true, false, ◌||◌, ◌&&◌}
use apirun.Prelude.Tests.{eqb}

unfoldable pub has_prefix : String → String → Bool
has_prefix s String.[] = true
has_prefix String.[] (String.◌∷◌ d t) = false
has_prefix (String.◌∷◌ c s) (String.◌∷◌ d t) = eqb (code c) (code d) && has_prefix s t

unfoldable pub contains : String → String → Bool
contains String.[] t = has_prefix String.[] t
contains (String.◌∷◌ c s) t = has_prefix (String.◌∷◌ c s) t || contains s t

-- The texts one behind the other, as in fmt.Sprintf("…%s…", …).
abbrev pub joined : String → String → String
joined s t = Prim.Native.String.◌++◌ s t
