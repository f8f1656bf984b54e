-- ===== src/Tests/Tokens.antt =====
-- Runs of the configuration tokens on small texts, with their theorems at those runs.
use lgobase.Base.{◌≡◌, ◌≢◌, refl, true, false, ◌∷◌, ◌++◌, none, some, arith}
use lgobase.Base.Int.{negsuc}
use lgobase.Base.Text.{
  codes, eq_text, trim_space, trim_left, trim_right, is_space, has_prefix, contains_char, to_lower,
  lower,
}
use lgobase.Gconfig.Lexer.{next_token}
use lgobase.Gconfig.Lexer.Quotes.{escape_single, escape_double, string_token}
use lgobase.Gconfig.Lexer.Quotes
use lgobase.Gconfig.Lexer.Progress
use lgobase.Gconfig.Value.{
  Value, null_value, bool_value, int_value, string_value, list_value, map_value, no_values, value,
  no_entries, entry, map_type, int_type, ok, failed, out_of_fuel, invalid_float,
}
use lgobase.Gconfig.Scalar.{
  Std, parse_scalar, plain_scalar, is_null, is_bool, is_integer, integer_syntax, all_digits,
  has_crlf, parse_explicit_string_tag, parse_int, digits_value,
}
use lgobase.Gconfig.Scalar.Numbers
use lgobase.Gconfig.Scalar.Numbers.{InRange, scalar_type}
use lgobase.Gconfig.Printer.{
  Printable, print_string, print_value, print_items, print_more_items, print_entries,
  print_more_entries,
}
use lgobase.Gconfig.Parser.{TokenNode, has_key, new_token_node, parse_structured, token_parse}
use lgobase.Gconfig.Parser.Fuel
use lgobase.Gconfig.Parser.RoundTrip

-- A library that reads no float, no time and no duration.
abbrev nothing_read : Std
nothing_read = record {
  parse_float = λ s. none;
  parse_time = λ layout s. none;
  parse_duration = λ s. none;
}

-- {"a": [null, "x,y"], "b": true}
abbrev small_map : Value
small_map = map_value (
    entry (codes "a") (list_value (value null_value (value (string_value (codes "x,y")) no_values)))
      (entry (codes "b") (bool_value true) no_entries))

abbrev node : TokenNode
node = new_token_node (codes "{a: [1, 2]}") (codes "k")

next_token-single_example :
    next_token true
      (record { rest = b'\'' ∷ (escape_single (codes "it's") ++ b'\'' ∷ codes "}"); err = none })
    ≡ (string_token (codes "it's"), record { rest = codes "}"; err = none })
next_token-single_example = Quotes.next_token-single true none (codes "it's") (codes "}") (λ e. cc)

next_token-double_example :
    next_token true
      (record { rest = b'"' ∷ (escape_double (codes "a\"b") ++ b'"' ∷ codes ": 1"); err = none })
    ≡ (string_token (codes "a\"b"), record { rest = codes ": 1"; err = none })
next_token-double_example = Quotes.next_token-double true none (codes "a\"b") (codes ": 1")

token_parse-ends_example : token_parse nothing_read node ≢ out_of_fuel
token_parse-ends_example = Fuel.token_parse-ends nothing_read node

small_map-Printable : Printable small_map
unfolding has_key eq_text
small_map-Printable = (refl, (tt, (tt, tt)), (refl, tt, tt))

parse_structured-print_example :
    parse_structured nothing_read node (print_value small_map)
    ≡ ok (record node { obj = some small_map; node_type = map_type })
parse_structured-print_example =
    RoundTrip.parse_structured-print nothing_read node small_map small_map-Printable

printed : print_value small_map ≡ codes "{\"a\":[null,\"x,y\"],\"b\":true}"
unfolding print_string print_value print_items print_more_items print_entries print_more_entries
    escape_double
printed = refl

n-is_space : is_space b'n' ≡ false
unfolding is_space
n-is_space = refl

parse_scalar-exponent_example :
    parse_scalar nothing_read (codes "en") ≡ failed (invalid_float (codes "en"))
parse_scalar-exponent_example =
    Numbers.parse_scalar-exponent nothing_read b'n' n-is_space refl (omega arith) refl

minus_seven : parse_scalar nothing_read (codes " -7") ≡ ok (int_value (negsuc 6), int_type)
unfolding parse_scalar plain_scalar trim_space trim_left trim_right is_space is_null is_bool
    is_integer integer_syntax all_digits has_crlf contains_char eq_text to_lower lower has_prefix
    parse_explicit_string_tag parse_int digits_value
minus_seven = refl

parse_scalar-typed_example :
    (int_type ≡ scalar_type (int_value (negsuc 6))) × InRange (int_value (negsuc 6))
parse_scalar-typed_example =
    Numbers.parse_scalar-typed nothing_read (codes " -7") (int_value (negsuc 6)) int_type
      minus_seven
