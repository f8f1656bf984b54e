-- ===== src/Gconfig/Scalar.antt =====
-- The scalars of gconfig_v2/token.go. The parsers of Go's library for floats, times and durations are
-- given.
pub mod Total
pub mod Numbers
use lgobase.Base.{
  ℕ, ◌+◌, ◌-◌, ◌*◌, ◌^◌, Bool, true, false, not, ◌&&◌, ◌||◌, [], ◌∷◌, Option, none, some, ltb, leb,
  ◌==◌, if◌then◌else◌,
}
use lgobase.Base.Int.{ℤ, pos, negsuc}
use lgobase.Base.Text.{
  Text, codes, eq_text, strip_prefix, has_prefix, contains_char, trim_space, to_lower,
}
use lgobase.Gconfig.Lexer.{new_lexer, next_token}
use lgobase.Gconfig.Value.{
  Value, null_value, bool_value, int_value, float_value, time_value, duration_value, string_value,
  NodeType, string_type, float_type, int_type, timestamp_type, bool_type, null_type, duration_type,
  invalid_integer, invalid_float, Result, ok, failed,
}

-- `strconv.ParseFloat` to the bits of a `float64`, `time.Parse` of a layout and a text, and
-- `time.ParseDuration`.
pub record Std : Type 0 where
  pub parse_float : Text → Option ℕ
  pub parse_time : Text → Text → Option ℤ
  pub parse_duration : Text → Option ℤ

unfoldable pub has_crlf : Text → Bool
unfolding contains_char
has_crlf s = contains_char b'\r' s || contains_char b'\n' s

-- `unsupportedPlainScalar`: the feature that is not supported.
unfoldable pub unsupported_plain_scalar : Text → Option Text
unsupported_plain_scalar s =
    let t = trim_space s in
    if eq_text t [] || has_prefix (codes "!!str") t
    then none
    else if has_prefix (codes "&") t
    then some (codes "anchor")
    else if has_prefix (codes "*") t
    then some (codes "alias")
    else if has_prefix (codes "!") t
    then some (codes "tag")
    else none

abbrev pub is_digit : ℕ → Bool
is_digit c = leb b'0' c && leb c b'9'

abbrev pub is_sign : ℕ → Bool
is_sign c = c == b'+' || c == b'-'

unfoldable pub all_digits : Text → Bool
all_digits [] = true
all_digits (c ∷ s) = is_digit c && all_digits s

abbrev pub some_digits : Text → Bool
some_digits [] = false
some_digits (c ∷ s) = all_digits (c ∷ s)

unfoldable pub integer_syntax : Text → Bool
integer_syntax [] = false
integer_syntax (c ∷ s) = if is_sign c then some_digits s else all_digits (c ∷ s)

-- `IsInteger`.
unfoldable pub is_integer : Text → Bool
is_integer s = not (has_crlf s) && integer_syntax (trim_space s)

-- What the loop of `IsFloat` steps over a byte of. What is left of a longer character is no digit.
abbrev pub one_byte : ℕ → Bool
one_byte c = ltb c 128

-- The loop of `IsFloat`. Behind `e` and a sign, the loop steps over one byte more without looking at
-- it.
unfoldable mutual
  pub float_loop : Bool → Bool → Text → Bool
  float_loop has_dot has_exp [] = has_dot || has_exp
  float_loop has_dot has_exp (c ∷ s) =
      let dotted = float_loop true has_exp s in
      let exponent = float_exponent has_dot s in
      let more = float_loop has_dot has_exp s in
      if c == b'.'
      then (if has_dot || has_exp then false else dotted)
      else if c == b'e' || c == b'E'
      then (if has_exp then false else exponent)
      else if is_digit c
      then more
      else false

  pub float_exponent : Bool → Text → Bool
  float_exponent has_dot [] = false
  float_exponent has_dot (d ∷ []) =
      if is_sign d then false else one_byte d && float_loop has_dot true []
  float_exponent has_dot (d ∷ x ∷ s) =
      let signed = float_loop has_dot true s in
      let plain = float_loop has_dot true (x ∷ s) in
      if is_sign d then one_byte x && signed else one_byte d && plain

unfoldable pub float_syntax : Text → Bool
float_syntax [] = false
float_syntax (c ∷ []) = if is_sign c then false else float_loop false false (c ∷ [])
float_syntax (c ∷ d ∷ s) =
    if is_sign c then float_loop false false (d ∷ s) else float_loop false false (c ∷ d ∷ s)

-- `IsFloat`.
unfoldable pub is_float : Text → Bool
is_float s = not (has_crlf s) && float_syntax (trim_space s)

abbrev pub true_word : Text → Bool
true_word s = eq_text s (codes "true") || eq_text s (codes "yes") || eq_text s (codes "on")

abbrev pub false_word : Text → Bool
false_word s = eq_text s (codes "false") || eq_text s (codes "no") || eq_text s (codes "off")

-- `IsBool`.
unfoldable pub is_bool : Text → Bool
is_bool s =
    let word = to_lower (trim_space s) in not (has_crlf s) && (true_word word || false_word word)

-- `IsNull`.
unfoldable pub is_null : Text → Bool
is_null s =
    let t = trim_space s in
    not (has_crlf s) && (eq_text (to_lower t) (codes "null") || eq_text t (codes "~"))

abbrev or_else : Option ℤ → Option ℤ → Option ℤ
or_else none o = o
or_else (some a) o = some a

-- `IsTimestamp`: the three layouts in turn.
unfoldable pub is_timestamp : Std → Text → Option ℤ
is_timestamp std s =
    let t = trim_space s in
    if has_crlf s
    then none
    else or_else (std.parse_time (codes "2006-01-02T15:04:05Z07:00") t) (
        or_else (std.parse_time (codes "2006-01-02 15:04:05") t)
          (std.parse_time (codes "2006-01-02") t))

-- `IsDuration`.
unfoldable pub is_duration : Std → Text → Option ℤ
is_duration std s =
    let t = trim_space s in
    if has_crlf s then none else if eq_text t [] then none else std.parse_duration t

abbrev starts_quoted : Text → Bool
starts_quoted s = has_prefix (codes "'") s || has_prefix (codes "\"") s

-- `parseExplicitStringTag`. A text that starts with a quote gives a string token.
unfoldable pub parse_explicit_string_tag : Text → Option Text
parse_explicit_string_tag s =
    let t = trim_space s in
    if not (eq_text t (codes "!!str")) && not (has_prefix (codes "!!str ") t)
    then none
    else let value = trim_space (elim (strip_prefix (codes "!!str") t) [ none ↦ t | some v ↦ v ]) in
      if eq_text value []
      then some []
      else if starts_quoted value
      then some (next_token true (new_lexer value)).0.value
      else some value

-- `strconv.ParseInt(s, 10, 0)` on a 64-bit platform.
unfoldable pub digits_value : ℕ → Text → Option ℕ
digits_value n [] = some n
digits_value n (c ∷ s) =
    let more = digits_value (n * 10 + (c - b'0')) s in if is_digit c then more else none

abbrev pub digits_number : Text → Option ℕ
digits_number [] = none
digits_number (c ∷ s) = digits_value 0 (c ∷ s)

abbrev pub max_int : ℕ
max_int = 2 ^ 63 - 1

abbrev pub positive : Option ℕ → Option ℤ
positive none = none
positive (some n) = if leb n max_int then some (pos n) else none

abbrev pub negative : Option ℕ → Option ℤ
negative none = none
negative (some n) =
    if n == 0 then some (pos 0) else if leb n (max_int + 1) then some (negsuc (n - 1)) else none

unfoldable pub parse_int : Text → Option ℤ
unfolding digits_value
parse_int [] = none
parse_int (c ∷ s) =
    if c == b'-'
    then negative (digits_number s)
    else if c == b'+'
    then positive (digits_number s)
    else positive (digits_number (c ∷ s))

abbrev pub Scalar : Type 0
Scalar = Result (Value × NodeType)

abbrev pub int_scalar : Text → Option ℤ → Scalar
int_scalar s none = failed (invalid_integer s)
int_scalar s (some i) = ok (int_value i, int_type)

abbrev pub float_scalar : Text → Option ℕ → Scalar
float_scalar s none = failed (invalid_float s)
float_scalar s (some x) = ok (float_value x, float_type)

abbrev pub duration_scalar : Text → Option ℤ → Scalar
duration_scalar s none = ok (string_value s, string_type)
duration_scalar s (some d) = ok (duration_value d, duration_type)

abbrev pub time_scalar : Scalar → Option ℤ → Scalar
time_scalar other none = other
time_scalar other (some t) = ok (time_value t, timestamp_type)

abbrev pub tagged_scalar : Scalar → Option Text → Scalar
tagged_scalar other none = other
tagged_scalar other (some v) = ok (string_value v, string_type)

-- `parseScalar` of what has no string tag.
unfoldable pub plain_scalar : Std → Text → Scalar
plain_scalar std s =
    if is_null s
    then ok (null_value, null_type)
    else if is_bool s
    then ok (bool_value (true_word (to_lower s)), bool_type)
    else if is_integer s
    then int_scalar s (parse_int s)
    else if is_float s
    then float_scalar s (std.parse_float s)
    else time_scalar (duration_scalar s (is_duration std s)) (is_timestamp std s)

-- `parseScalar`.
unfoldable pub parse_scalar : Std → Text → Scalar
parse_scalar std s =
    let t = trim_space s in tagged_scalar (plain_scalar std t) (parse_explicit_string_tag t)
