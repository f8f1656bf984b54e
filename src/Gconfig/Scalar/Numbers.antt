-- ===== src/Gconfig/Scalar/Numbers.antt =====
-- The numbers among the scalars of gconfig_v2/token.go.
use lgobase.Base.{
  ℕ, ◌+◌, ◌≤◌, ◌<◌, ◌≡◌, refl, subst, true, false, [], ◌∷◌, Option, none, some, leb, ◌==◌, if_cases,
  leb→le, lt→ltb, arith,
}
use lgobase.Base.Int.{ℤ, pos, negsuc}
use lgobase.Base.Text.{
  Text, eq_text, has_prefix, contains_char, trim_space, to_lower, is_space, trim_left, trim_right,
  lower,
}
use lgobase.Gconfig.Value.{
  Value, null_value, bool_value, int_value, float_value, time_value, duration_value, string_value,
  list_value, map_value, NodeType, string_type, float_type, int_type, timestamp_type, bool_type,
  null_type, duration_type, slice_type, map_type, invalid_float, ok, failed, out_of_fuel,
}
use lgobase.Gconfig.Scalar.{
  Std, is_sign, has_crlf, all_digits, integer_syntax, is_integer, float_loop, float_exponent,
  float_syntax, is_float, is_bool, is_null, parse_explicit_string_tag, digits_number, max_int,
  positive, negative, parse_int, Scalar, int_scalar, float_scalar, duration_scalar, time_scalar,
  tagged_scalar, is_timestamp, is_duration, plain_scalar, parse_scalar,
}

-- The range of an `int64`.
abbrev pub InInt64 : ℤ → Type 0
InInt64 (pos n) = n ≤ max_int
InInt64 (negsuc n) = n ≤ max_int

abbrev Within : Option ℤ → Type 0
Within none = Unit {0}
Within (some i) = InInt64 i

positive-Within : (o : Option ℕ) → Within (positive o)
positive-Within none = tt
positive-Within (some n) = if_cases Within (leb n max_int) (λ e. leb→le n max_int e) (λ e. tt)

negative-Within : (o : Option ℕ) → Within (negative o)
negative-Within none = tt
negative-Within (some n) =
    if_cases Within (n == 0) (λ e. omega arith)
      (λ e.
        if_cases Within (leb n (max_int + 1)) (λ h. omega (arith, leb→le n (max_int + 1) h))
          (λ h. tt))

parse_int-Within : (s : Text) → Within (parse_int s)
unfolding parse_int
parse_int-Within [] = tt
parse_int-Within (c ∷ s) =
    if_cases Within (c == b'-') (λ e. negative-Within (digits_number s))
      (λ e.
        if_cases Within (c == b'+') (λ h. positive-Within (digits_number s))
          (λ h. positive-Within (digits_number (c ∷ s))))

space_false : (c : ℕ) → is_space c ≡ false → ((13 == c) ≡ false) × ((10 == c) ≡ false)
unfolding is_space
space_false c h = (ground arith, ground arith)

e-trim_space : (c : ℕ) → is_space c ≡ false → trim_space (b'e' ∷ c ∷ []) ≡ b'e' ∷ c ∷ []
unfolding trim_space trim_left trim_right is_space
e-trim_space c h = rw h refl

e-has_crlf : (c : ℕ) → is_space c ≡ false → has_crlf (b'e' ∷ c ∷ []) ≡ false
unfolding has_crlf contains_char
e-has_crlf c h = rw ((space_false c h).0, (space_false c h).1) refl

e-is_float :
    (c : ℕ) → is_space c ≡ false → is_sign c ≡ false → c < 128 → is_float (b'e' ∷ c ∷ []) ≡ true
unfolding is_float float_syntax float_loop float_exponent
e-is_float c h k lt = rw (e-has_crlf c h, e-trim_space c h, k, lt→ltb c 128 lt) refl

e-is_null : (c : ℕ) → is_space c ≡ false → is_null (b'e' ∷ c ∷ []) ≡ false
unfolding is_null to_lower lower eq_text
e-is_null c h = rw (e-has_crlf c h, e-trim_space c h) refl

e-is_bool : (c : ℕ) → is_space c ≡ false → is_bool (b'e' ∷ c ∷ []) ≡ false
unfolding is_bool to_lower lower eq_text
e-is_bool c h = rw (e-has_crlf c h, e-trim_space c h) refl

e-is_integer : (c : ℕ) → is_space c ≡ false → is_integer (b'e' ∷ c ∷ []) ≡ false
unfolding is_integer integer_syntax all_digits
e-is_integer c h = rw (e-has_crlf c h, e-trim_space c h) refl

e-tag : (c : ℕ) → is_space c ≡ false → parse_explicit_string_tag (b'e' ∷ c ∷ []) ≡ none
unfolding parse_explicit_string_tag eq_text has_prefix
e-tag c h = rw (e-trim_space c h) refl

-- The word of an `e` and one more ASCII character, neither a sign nor white space, is taken for a
-- float: when the library's parser of floats refuses it, `parseScalar` fails on it, where it gives other
-- words as strings.
pub parse_scalar-exponent :
    (std : Std) (c : ℕ)
    → is_space c ≡ false
    → is_sign c ≡ false
    → c < 128
    → std.parse_float (b'e' ∷ c ∷ []) ≡ none
    → parse_scalar std (b'e' ∷ c ∷ []) ≡ failed (invalid_float (b'e' ∷ c ∷ []))
unfolding parse_scalar plain_scalar
parse_scalar-exponent std c h k lt refused =
    rw
      (
        e-trim_space c h,
        e-tag c h,
        e-is_null c h,
        e-is_bool c h,
        e-is_integer c h,
        e-is_float c h k lt,
        refused,
      )
      refl

-- The node type that a scalar has.
abbrev pub scalar_type : Value → NodeType
scalar_type null_value = null_type
scalar_type (bool_value b) = bool_type
scalar_type (int_value i) = int_type
scalar_type (float_value x) = float_type
scalar_type (time_value x) = timestamp_type
scalar_type (duration_value d) = duration_type
scalar_type (string_value s) = string_type
scalar_type (list_value vs) = slice_type
scalar_type (map_value es) = map_type

abbrev pub InRange : Value → Type 0
InRange (int_value i) = InInt64 i
InRange _ = Unit {0}

abbrev Typed : Scalar → Type 0
Typed (ok (v, t)) = (t ≡ scalar_type v) × InRange v
Typed (failed e) = Unit {0}
Typed out_of_fuel = Unit {0}

int_scalar-Typed : (s : Text) (o : Option ℤ) → Within o → Typed (int_scalar s o)
int_scalar-Typed s none h = tt
int_scalar-Typed s (some i) h = (refl, h)

float_scalar-Typed : (s : Text) (o : Option ℕ) → Typed (float_scalar s o)
float_scalar-Typed s none = tt
float_scalar-Typed s (some x) = (refl, tt)

duration_scalar-Typed : (s : Text) (o : Option ℤ) → Typed (duration_scalar s o)
duration_scalar-Typed s none = (refl, tt)
duration_scalar-Typed s (some d) = (refl, tt)

time_scalar-Typed : (r : Scalar) (o : Option ℤ) → Typed r → Typed (time_scalar r o)
time_scalar-Typed r none h = h
time_scalar-Typed r (some t) h = (refl, tt)

tagged_scalar-Typed : (r : Scalar) (o : Option Text) → Typed r → Typed (tagged_scalar r o)
tagged_scalar-Typed r none h = h
tagged_scalar-Typed r (some v) h = (refl, tt)

plain_scalar-Typed : (std : Std) (s : Text) → Typed (plain_scalar std s)
unfolding plain_scalar
plain_scalar-Typed std s =
    if_cases Typed (is_null s) (λ e. (refl, tt))
      (λ e.
        if_cases Typed (is_bool s) (λ f. (refl, tt))
          (λ f.
            if_cases Typed (is_integer s)
              (λ g. int_scalar-Typed s (parse_int s) (parse_int-Within s))
              (λ g.
                if_cases Typed (is_float s) (λ h. float_scalar-Typed s (std.parse_float s))
                  (λ h.
                    time_scalar-Typed _ (is_timestamp std s)
                      (duration_scalar-Typed s (is_duration std s))))))

-- A scalar that `parseScalar` gives comes with its own node type, and an integer is one of 64 bits.
pub parse_scalar-typed :
    (std : Std) (s : Text) (v : Value) (t : NodeType)
    → parse_scalar std s ≡ ok (v, t)
    → (t ≡ scalar_type v) × InRange v
unfolding parse_scalar
parse_scalar-typed std s v t e =
    let word = trim_space s in
    subst Typed e (
      tagged_scalar-Typed (plain_scalar std word) (parse_explicit_string_tag word)
        (plain_scalar-Typed std word))
