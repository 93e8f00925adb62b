-- ===== src/Tests/Texts.antt =====
-- The text functions at small inputs.
use apirun.Prelude.{
  ◌≡◌, refl, some, negsuc, has_prefix, trim_space, trim_left, trim_right, replace_all,
  replace_behind, count_chars, atoi, parse_digits, digits_from, decimal, decimal_before,
}

trims : trim_space " \t a b\n" ≡ "a b"
unfolding trim_left trim_right
trims = refl

replaces : replace_all "${{" "{{" "a${{.b}}${{" ≡ "a{{.b}}{{"
unfolding replace_behind has_prefix count_chars
replaces = refl

reads : atoi "-204" ≡ some (negsuc 203)
unfolding atoi parse_digits digits_from
reads = refl

writes : decimal 4071 ≡ "4071"
unfolding decimal_before
writes = refl
