-- ===== src/Gconfig/Lexer/Quotes.antt =====
-- Quoted strings of gconfig_v2/token.go are read back.
use lgobase.Base.{
  ℕ, ◌≡◌, ◌≢◌, refl, ap, ◌∙◌, Bool, true, false, ◌||◌, [], ◌∷◌, ◌++◌, append_assoc, append-nil,
  Option, arith, ◌==◌, if◌then◌else◌, Bool-cases, inl, inr,
}
use lgobase.Base.Text.{Text}
use lgobase.Gconfig.Lexer.{
  LexError, Token, string, read_single_quote, read_double_quote, token_at, quoted_token, next_token,
  skip_spaces,
}

-- A text between single quotes doubles its quotes.
unfoldable pub escape_single : Text → Text
escape_single [] = []
escape_single (c ∷ s) = if c == b'\'' then b'\'' ∷ b'\'' ∷ escape_single s else c ∷ escape_single s

-- A text between double quotes has a backslash before its quotes and backslashes.
unfoldable pub escape_double : Text → Text
escape_double [] = []
escape_double (c ∷ s) =
    if c == b'"' || c == b'\\' then b'\\' ∷ c ∷ escape_double s else c ∷ escape_double s

abbrev pub NoQuote : Text → Type 0
NoQuote [] = Unit {0}
NoQuote (c ∷ s) = c ≢ b'\''

read_single_plain :
    (err : Option LexError) (buf : Text) (c : ℕ) (s : Text)
    → (c == b'\'') ≡ false
    → read_single_quote err buf (c ∷ s) ≡ read_single_quote err (buf ++ c ∷ []) s
unfolding read_single_quote
read_single_plain err buf c [] e = rw e refl
read_single_plain err buf c (d ∷ s) e = rw e refl

read_single_end :
    (err : Option LexError) (buf rest : Text)
    → NoQuote rest
    → read_single_quote err buf (b'\'' ∷ rest) ≡ (buf, record { rest = rest; err = err })
unfolding read_single_quote
read_single_end err buf [] h = refl
read_single_end err buf (d ∷ rest) h = ground arith

read_single-escape :
    (err : Option LexError) (buf s rest : Text)
    → NoQuote rest
    → read_single_quote err buf (escape_single s ++ b'\'' ∷ rest)
      ≡ (buf ++ s, record { rest = rest; err = err })
unfolding escape_single read_single_quote
read_single-escape err buf [] rest h = rw append-nil (read_single_end err buf rest h)
read_single-escape err buf (c ∷ s) rest h = elim (Bool-cases (c == b'\'')) [
  | inl e ↦
      let at : c ≡ b'\'' = ground arith in
      rw at (read_single-escape err (buf ++ b'\'' ∷ []) s rest h ∙ rw append_assoc)
  | inr e ↦ rw e (
      read_single_plain err buf c _ e
      ∙ read_single-escape err (buf ++ c ∷ []) s rest h
      ∙ rw append_assoc)
]

read_double_plain :
    (err : Option LexError) (buf : Text) (c : ℕ) (s : Text)
    → (c == b'"' || c == b'\\') ≡ false
    → read_double_quote err buf (c ∷ s) ≡ read_double_quote err (buf ++ c ∷ []) s
unfolding read_double_quote
read_double_plain err buf c [] e = ground arith
read_double_plain err buf c (d ∷ s) e = ground arith

read_double_end :
    (err : Option LexError) (buf rest : Text)
    → read_double_quote err buf (b'"' ∷ rest) ≡ (buf, record { rest = rest; err = err })
unfolding read_double_quote
read_double_end err buf [] = refl
read_double_end err buf (d ∷ rest) = refl

pub read_double-escape :
    (err : Option LexError) (buf s rest : Text)
    → read_double_quote err buf (escape_double s ++ b'"' ∷ rest)
      ≡ (buf ++ s, record { rest = rest; err = err })
unfolding escape_double read_double_quote
read_double-escape err buf [] rest = rw append-nil (read_double_end err buf rest)
read_double-escape err buf (c ∷ s) rest = elim (Bool-cases (c == b'"' || c == b'\\')) [
  | inl e ↦ rw e (read_double-escape err (buf ++ c ∷ []) s rest ∙ rw append_assoc)
  | inr e ↦ rw e (
      read_double_plain err buf c _ e
      ∙ read_double-escape err (buf ++ c ∷ []) s rest
      ∙ rw append_assoc)
]

abbrev pub string_token : Text → Token
string_token s = record { kind = string; value = s; quoted = true }

-- A text in single quotes, with its quotes doubled, is the next token whatever it holds, and what
-- stands behind it is left, unless that starts with a quote.
pub next_token-single :
    (stop_at_colon : Bool) (err : Option LexError) (s rest : Text)
    → NoQuote rest
    → next_token stop_at_colon
        (record { rest = b'\'' ∷ (escape_single s ++ b'\'' ∷ rest); err = err })
      ≡ (string_token s, record { rest = rest; err = err })
unfolding next_token skip_spaces token_at
next_token-single stop_at_colon err s rest h = ap quoted_token (read_single-escape err [] s rest h)

-- A text in double quotes, with a backslash before its quotes and backslashes, is the next token
-- whatever it holds, and what stands behind it is left.
pub next_token-double :
    (stop_at_colon : Bool) (err : Option LexError) (s rest : Text)
    → next_token stop_at_colon
        (record { rest = b'"' ∷ (escape_double s ++ b'"' ∷ rest); err = err })
      ≡ (string_token s, record { rest = rest; err = err })
unfolding next_token skip_spaces token_at
next_token-double stop_at_colon err s rest = ap quoted_token (read_double-escape err [] s rest)
