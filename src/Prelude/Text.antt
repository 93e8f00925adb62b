-- ===== src/Prelude/Text.antt =====
-- strings.TrimSpace, strings.ReplaceAll, strings.HasSuffix, strconv.Atoi and the verb %d, on texts as
-- lists of characters.
use Prim.Native.Char.{code}
use Prim.Native.String.{String}
use Prim.Native.Nat.{ℕ, zero, suc, ◌+◌, ◌-◌, ◌*◌, ◌/◌, ◌%◌, ◌^◌}
use mathlib.Core.Bool.{Bool, true, false, ◌||◌, ◌&&◌}
use mathlib.Core.Option.{Option, none, some}
use text.Mathlib.Text.{◌==◌}
use apirun.Prelude.Tests.{ltb, leb, eqb, if◌then◌else◌}
use apirun.Prelude.Int.{ℤ, pos, negsuc}
use apirun.Prelude.Substrings.{has_prefix, joined}

-- unicode.IsSpace, on a code point
unfoldable pub is_space : ℕ → Bool
is_space c =
    (leb 0x09 c && leb c 0x0D)
    || eqb c 0x20
    || eqb c 0x85
    || eqb c 0xA0
    || eqb c 0x1680
    || (leb 0x2000 c && leb c 0x200A)
    || eqb c 0x2028
    || eqb c 0x2029
    || eqb c 0x202F
    || eqb c 0x205F
    || eqb c 0x3000

unfoldable pub trim_left : String → String
unfolding is_space
trim_left String.[] = String.[]
trim_left (String.◌∷◌ c s) =
    let rest = trim_left s in if is_space (code c) then rest else String.◌∷◌ c s

-- A space is kept only before something else.
abbrev pub keep_char : Bool → String → String → String
keep_char true whole String.[] = String.[]
keep_char true whole (String.◌∷◌ c s) = whole
keep_char false whole rest = whole

unfoldable pub trim_right : String → String
unfolding is_space
trim_right String.[] = String.[]
trim_right (String.◌∷◌ c s) =
    let rest = trim_right s in keep_char (is_space (code c)) (String.◌∷◌ c rest) rest

abbrev pub trim_space : String → String
trim_space s = trim_right (trim_left s)

unfoldable pub count_chars : String → ℕ
count_chars String.[] = 0
count_chars (String.◌∷◌ c s) = suc (count_chars s)

-- The text behind `skip` characters, with each `old` replaced by `new`, for an `old` that is not empty.
unfoldable pub replace_behind : String → String → ℕ → String → String
replace_behind old new skip String.[] = String.[]
replace_behind old new (suc skip) (String.◌∷◌ c s) = replace_behind old new skip s
replace_behind old new zero (String.◌∷◌ c s) = elim (has_prefix (String.◌∷◌ c s) old) [
  | true ↦ joined new (replace_behind old new (count_chars old - 1) s)
  | false ↦ String.◌∷◌ c (replace_behind old new 0 s)
]

abbrev pub replace_all : String → String → String → String
replace_all old new s = replace_behind old new 0 s

unfoldable pub has_suffix : String → String → Bool
has_suffix String.[] t = String.[] == t
has_suffix (String.◌∷◌ c s) t = String.◌∷◌ c s == t || has_suffix s t

abbrev pub is_digit : ℕ → Bool
is_digit c = leb b'0' c && leb c b'9'

-- The number that digits write behind the digits of `acc`.
unfoldable pub digits_from : ℕ → String → Option ℕ
digits_from acc String.[] = some acc
digits_from acc (String.◌∷◌ c s) =
    let rest = digits_from (acc * 10 + (code c - b'0')) s in
    if is_digit (code c) then rest else none

unfoldable pub parse_digits : String → Option ℕ
parse_digits String.[] = none
parse_digits (String.◌∷◌ c s) = digits_from 0 (String.◌∷◌ c s)

abbrev pub positive_int : Option ℕ → Option ℤ
positive_int none = none
positive_int (some n) = if ltb n (2 ^ 63) then some (pos n) else none

abbrev pub negative_int : Option ℕ → Option ℤ
negative_int none = none
negative_int (some zero) = some (pos 0)
negative_int (some (suc n)) = if ltb n (2 ^ 63) then some (negsuc n) else none

-- strconv.Atoi, for an int of 64 bits
unfoldable pub atoi : String → Option ℤ
atoi String.[] = none
atoi (String.◌∷◌ c s) =
    if eqb (code c) b'-'
    then negative_int (parse_digits s)
    else if eqb (code c) b'+'
    then positive_int (parse_digits s)
    else positive_int (parse_digits (String.◌∷◌ c s))

abbrev pub digit_text : ℕ → String
digit_text zero = "0"
digit_text (suc zero) = "1"
digit_text (suc (suc zero)) = "2"
digit_text (suc (suc (suc zero))) = "3"
digit_text (suc (suc (suc (suc zero)))) = "4"
digit_text (suc (suc (suc (suc (suc zero))))) = "5"
digit_text (suc (suc (suc (suc (suc (suc zero)))))) = "6"
digit_text (suc (suc (suc (suc (suc (suc (suc zero))))))) = "7"
digit_text (suc (suc (suc (suc (suc (suc (suc (suc zero)))))))) = "8"
digit_text (suc (suc (suc (suc (suc (suc (suc (suc (suc n))))))))) = "9"

-- The digits of a number before a text, with fuel for each digit.
unfoldable pub decimal_before : ℕ → ℕ → String → String
decimal_before zero n tail = tail
decimal_before (suc fuel) n tail =
    let digits = joined (digit_text (n % 10)) tail in
    let more = decimal_before fuel (n / 10) digits in if ltb n 10 then digits else more

-- fmt's %d
abbrev pub decimal : ℕ → String
decimal n = decimal_before (suc n) n ""

abbrev pub decimal_ℤ : ℤ → String
decimal_ℤ (pos n) = decimal n
decimal_ℤ (negsuc n) = joined "-" (decimal (suc n))
