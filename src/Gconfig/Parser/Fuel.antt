-- ===== src/Gconfig/Parser/Fuel.antt =====
-- The recursive descent of gconfig_v2/token.go ends on every input.
mod Rounds
use Rounds.{left, Ends, Ends-weaken, items_at-Ends, entries_at-Ends, value_at-Ends}
use lgobase.Base.{
  ℕ, zero, suc, ◌+◌, ◌*◌, ◌<◌, ◌≢◌, refl, false, List, [], Option, none, some, arith, length,
  if_cases,
}
use lgobase.Base.Text.{Text, eq_text, trim_space}
use lgobase.Gconfig.Lexer.{TokenType, eof, LexError, new_lexer}
use lgobase.Gconfig.Lexer.Progress.{length-next_token}
use lgobase.Gconfig.Value.{Value, NodeType, Result, ok, failed, out_of_fuel, bind}
use lgobase.Gconfig.Scalar.{Std, unsupported_plain_scalar, parse_scalar}
use lgobase.Gconfig.Scalar.Total.{Decided, parse_scalar-Decided}
use lgobase.Gconfig.Parser.{
  Parser, Parsed, new_parser, parse_value, parse_items, parse_entries, fuel_for, TokenNode,
  finish_token, finish, set_scalar, is_structured, parse_structured, parse_supported, token_parse,
}

mutual
  unfolding parse_value parse_items parse_entries

  pub parse_value-Ends :
      (f : ℕ) (std : Std) (p : Parser) → 2 * left p < f → Ends (left p) (parse_value f std p)
  parse_value-Ends zero std p lt = absurd (omega arith)
  parse_value-Ends (suc f) std p lt =
      value_at-Ends _ _ std p p.tok.kind refl
        (λ q less. parse_entries-Ends f std [] q (omega arith))
        (λ q less. parse_items-Ends f std q (omega arith))

  parse_items-Ends :
      (f : ℕ) (std : Std) (p : Parser) → 2 * left p + 1 < f → Ends (left p) (parse_items f std p)
  parse_items-Ends zero std p lt = absurd (omega arith)
  parse_items-Ends (suc f) std p lt =
      items_at-Ends _ p (λ q le. parse_value-Ends f std q (omega arith)) _ p.tok.kind refl
        (λ q less. parse_items-Ends f std q (omega arith))

  parse_entries-Ends :
      (f : ℕ) (std : Std) (seen : List Text) (p : Parser)
      → 2 * left p + 1 < f
      → Ends (left p) (parse_entries f std seen p)
  parse_entries-Ends zero std seen p lt = absurd (omega arith)
  parse_entries-Ends (suc f) std seen p lt =
      entries_at-Ends _ p (λ q le. parse_value-Ends f std q (omega arith)) _ seen p.tok.kind refl
        (λ keys q less. parse_entries-Ends f std keys q (omega arith))

-- The whole of the input is read with the fuel that is given.
new_parser-Ends :
    (std : Std) (input : Text)
    → Ends (suc (length input)) (parse_value (fuel_for input) std (new_parser input))
new_parser-Ends std input =
    let p = new_parser input in
    let short = length-next_token false (new_lexer input) in
    Ends-weaken (left p) (suc (length input)) _ (omega (arith, short))
      (parse_value-Ends (fuel_for input) std p (omega (arith, short)))

finish_token-Decided :
    (e : Option LexError) (k : TokenType) (n : TokenNode) (r : Value × Parser)
    → Decided (finish_token e k n r)
finish_token-Decided (some e) k n r = tt
finish_token-Decided none eof n r = tt
finish_token-Decided none _ n r = tt

finish-Decided : (m : ℕ) (n : TokenNode) (r : Parsed Value) → Ends m r → Decided (bind r (finish n))
finish-Decided m n (ok (v, p)) h = finish_token-Decided p.lex.err p.tok.kind n (v, p)
finish-Decided m n (failed e) h = tt
finish-Decided m n out_of_fuel h = h

set_scalar-Decided :
    (n : TokenNode) (r : Result (Value × NodeType)) → Decided r → Decided (bind r (set_scalar n))
set_scalar-Decided n (ok r) h = tt
set_scalar-Decided n (failed e) h = tt
set_scalar-Decided n out_of_fuel h = h

parse_supported-Decided :
    (std : Std) (n : TokenNode) (input : Text) (o : Option Text)
    → Decided (parse_supported std n input o)
unfolding parse_structured
parse_supported-Decided std n input (some feature) = tt
parse_supported-Decided std n input none =
    if_cases Decided (is_structured input)
      (λ e.
        finish-Decided _ n (parse_value (fuel_for input) std (new_parser input))
          (new_parser-Ends std input))
      (λ e. set_scalar-Decided n (parse_scalar std input) (parse_scalar-Decided std input))

token_parse-Decided : (std : Std) (n : TokenNode) → Decided (token_parse std n)
unfolding token_parse
token_parse-Decided std n =
    let input = trim_space n.value in
    if_cases Decided n.raw_str (λ e. tt)
      (λ e.
        if_cases Decided (eq_text input []) (λ f. tt)
          (λ f. parse_supported-Decided std n input (unsupported_plain_scalar input)))

Decided-ends {ℓ} : {A : Type ℓ} (r : Result A) → Decided r → r ≢ out_of_fuel
Decided-ends (ok a) h e = cc
Decided-ends (failed x) h e = cc
Decided-ends out_of_fuel h e = h

-- `TokenParse` ends on every input: the fuel, two units for every character and three more, is enough,
-- and the result is a value or an error.
pub token_parse-ends : (std : Std) (n : TokenNode) → token_parse std n ≢ out_of_fuel
token_parse-ends std n = Decided-ends (token_parse std n) (token_parse-Decided std n)
