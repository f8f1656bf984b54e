-- ===== src/Gconfig/Scalar/Total.antt =====
-- A scalar of gconfig_v2/token.go has a value or is an error.
use lgobase.Base.{ℕ, Option, none, some, if_cases}
use lgobase.Base.Int.{ℤ}
use lgobase.Base.Text.{Text, trim_space}
use lgobase.Gconfig.Value.{Result, ok, failed, out_of_fuel}
use lgobase.Gconfig.Scalar.{
  Std, Scalar, is_null, is_bool, is_integer, is_float, is_duration, is_timestamp, parse_int,
  int_scalar, float_scalar, duration_scalar, time_scalar, tagged_scalar, plain_scalar,
  parse_explicit_string_tag, parse_scalar,
}

abbrev pub Decided {ℓ} : {A : Type ℓ} → Result A → Type 0
Decided (ok a) = Unit {0}
Decided (failed e) = Unit {0}
Decided out_of_fuel = ⊥

int_scalar-Decided : (s : Text) (o : Option ℤ) → Decided (int_scalar s o)
int_scalar-Decided s none = tt
int_scalar-Decided s (some i) = tt

float_scalar-Decided : (s : Text) (o : Option ℕ) → Decided (float_scalar s o)
float_scalar-Decided s none = tt
float_scalar-Decided s (some x) = tt

time_scalar-Decided : (s : Text) (d t : Option ℤ) → Decided (time_scalar (duration_scalar s d) t)
time_scalar-Decided s none none = tt
time_scalar-Decided s (some d) none = tt
time_scalar-Decided s d (some t) = tt

tagged_scalar-Decided : (r : Scalar) (o : Option Text) → Decided r → Decided (tagged_scalar r o)
tagged_scalar-Decided r none h = h
tagged_scalar-Decided r (some v) h = tt

plain_scalar-Decided : (std : Std) (s : Text) → Decided (plain_scalar std s)
unfolding plain_scalar
plain_scalar-Decided std s =
    if_cases Decided (is_null s) (λ e. tt)
      (λ e.
        if_cases Decided (is_bool s) (λ f. tt)
          (λ f.
            if_cases Decided (is_integer s) (λ g. int_scalar-Decided s (parse_int s))
              (λ g.
                if_cases Decided (is_float s) (λ h. float_scalar-Decided s (std.parse_float s))
                  (λ h. time_scalar-Decided s (is_duration std s) (is_timestamp std s)))))

pub parse_scalar-Decided : (std : Std) (s : Text) → Decided (parse_scalar std s)
unfolding parse_scalar
parse_scalar-Decided std s =
    tagged_scalar-Decided (plain_scalar std (trim_space s))
      (parse_explicit_string_tag (trim_space s)) (plain_scalar-Decided std (trim_space s))
