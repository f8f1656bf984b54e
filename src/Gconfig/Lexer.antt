-- ===== src/Gconfig/Lexer.antt =====
-- The lexer of gconfig_v2/token.go. It holds what is left of its input, `input[pos:end]`: the code
-- looks at nothing before `pos`.
pub mod Quotes
pub mod Progress
use lgobase.Base.{
  ℕ, Bool, true, false, ◌&&◌, ◌||◌, [], ◌∷◌, ◌++◌, Option, none, some, ◌==◌, if◌then◌else◌,
}
use lgobase.Base.Text.{Text}

pub data TokenType : Type 0 where
  eof lbrace rbrace lbracket rbracket colon comma string : TokenType

pub record Token : Type 0 where
  pub kind : TokenType
  pub value : Text
  pub quoted : Bool

pub data LexError : Type 0 where
  unclosed_single unfinished_escape unclosed_double : LexError

pub record Lexer : Type 0 where
  pub rest : Text
  pub err : Option LexError

abbrev pub new_lexer : Text → Lexer
new_lexer input = record { rest = input; err = none }

-- `skipWhitespace`.
unfoldable pub skip_spaces : Text → Text
skip_spaces [] = []
skip_spaces (c ∷ s) = if c == b' ' then skip_spaces s else c ∷ s

-- Where `readString` stops.
abbrev pub ends_plain : Bool → ℕ → Bool
ends_plain stop_at_colon c =
    c == b'{'
    || c == b'}'
    || c == b'['
    || c == b']'
    || c == b','
    || c == b' '
    || (c == b':' && stop_at_colon)

-- `readString`: what it reads, and what it leaves.
unfoldable pub read_string : Bool → Text → Text × Text
read_string stop_at_colon [] = ([], [])
read_string stop_at_colon (c ∷ s) =
    let (word, left) = read_string stop_at_colon s in
    if ends_plain stop_at_colon c then ([], c ∷ s) else (c ∷ word, left)

-- `readSingleQuote` behind the opening quote, with the buffer and the error so far. A quote is doubled
-- or ends the string.
unfoldable pub read_single_quote : Option LexError → Text → Text → Text × Lexer
read_single_quote err buf [] = (buf, record { rest = []; err = some unclosed_single })
read_single_quote err buf (c ∷ []) =
    if c == b'\''
    then (buf, record { rest = []; err = err })
    else (buf ++ c ∷ [], record { rest = []; err = some unclosed_single })
read_single_quote err buf (c ∷ d ∷ s) =
    let doubled = read_single_quote err (buf ++ b'\'' ∷ []) s in
    let more = read_single_quote err (buf ++ c ∷ []) (d ∷ s) in
    if c == b'\''
    then (if d == b'\'' then doubled else (buf, record { rest = d ∷ s; err = err }))
    else more

-- `readDoubleQuote` behind the opening quote.
unfoldable pub read_double_quote : Option LexError → Text → Text → Text × Lexer
read_double_quote err buf [] = (buf, record { rest = []; err = some unclosed_double })
read_double_quote err buf (c ∷ []) =
    if c == b'\\'
    then (buf, record { rest = []; err = some unfinished_escape })
    else if c == b'"'
    then (buf, record { rest = []; err = err })
    else (buf ++ c ∷ [], record { rest = []; err = some unclosed_double })
read_double_quote err buf (c ∷ d ∷ s) =
    let escaped = read_double_quote err (buf ++ d ∷ []) s in
    let more = read_double_quote err (buf ++ c ∷ []) (d ∷ s) in
    if c == b'\\'
    then escaped
    else if c == b'"'
    then (buf, record { rest = d ∷ s; err = err })
    else more

abbrev pub sign : TokenType → ℕ → Token
sign kind c = record { kind = kind; value = c ∷ []; quoted = false }

abbrev pub quoted_token : Text × Lexer → Token × Lexer
quoted_token (s, l) = (record { kind = string; value = s; quoted = true }, l)

abbrev pub plain_token : Option LexError → Text × Text → Token × Lexer
plain_token err (s, left) =
    (record { kind = string; value = s; quoted = false }, record { rest = left; err = err })

-- `nextToken` behind the spaces.
unfoldable pub token_at : Bool → Option LexError → Text → Token × Lexer
token_at stop_at_colon err [] =
    (record { kind = eof; value = []; quoted = false }, record { rest = []; err = err })
token_at stop_at_colon err (c ∷ s) =
    let left : Lexer = record { rest = s; err = err } in
    if c == b'{'
    then (sign lbrace c, left)
    else if c == b'}'
    then (sign rbrace c, left)
    else if c == b'['
    then (sign lbracket c, left)
    else if c == b']'
    then (sign rbracket c, left)
    else if c == b':'
    then (sign colon c, left)
    else if c == b','
    then (sign comma c, left)
    else if c == b'\''
    then quoted_token (read_single_quote err [] s)
    else if c == b'"'
    then quoted_token (read_double_quote err [] s)
    else plain_token err (read_string stop_at_colon (c ∷ s))

-- `nextToken`; `NextToken` and `NextKeyToken` stop at a colon, and `NextValueToken` does not.
unfoldable pub next_token : Bool → Lexer → Token × Lexer
next_token stop_at_colon l = token_at stop_at_colon l.err (skip_spaces l.rest)
