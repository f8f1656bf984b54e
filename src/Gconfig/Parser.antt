-- ===== src/Gconfig/Parser.antt =====
-- The recursive descent of gconfig_v2/token.go and `TokenParse`.
pub mod Fuel
pub mod RoundTrip
use lgobase.Base.{
  ℕ, zero, suc, ◌+◌, ◌*◌, Bool, true, false, not, ◌&&◌, ◌||◌, List, [], ◌∷◌, Option, none, some,
  length, if◌then◌else◌,
}
use lgobase.Base.Text.{Text, codes, eq_text, has_prefix, trim_space}
use lgobase.Gconfig.Lexer.{
  TokenType, eof, lbrace, rbrace, lbracket, rbracket, colon, comma, string, Token, Lexer, LexError,
  new_lexer, next_token,
}
use lgobase.Gconfig.Value.{
  Value, null_value, string_value, list_value, map_value, Values, no_values, value, Entries,
  no_entries, entry, NodeType, untyped, map_type, slice_type, string_type, key_not_string, no_colon,
  map_not_separated, unclosed_map, list_not_separated, unclosed_list, tag_without_string, bad_token,
  duplicate_key, unsupported, lexical, unexpected, Result, ok, failed, out_of_fuel, bind,
}
use lgobase.Gconfig.Scalar.{Std, unsupported_plain_scalar, parse_scalar}

-- A `Parser`, with the `nodeType` of the node that it writes to.
pub record Parser : Type 0 where
  pub lex : Lexer
  pub tok : Token
  pub node_type : NodeType

abbrev pub with_token : NodeType → Token × Lexer → Parser
with_token t (tok, l) = record { lex = l; tok = tok; node_type = t }

-- `nextKey` and `nextValue`.
abbrev pub next_key : Parser → Parser
next_key p = with_token p.node_type (next_token true p.lex)

abbrev pub next_value : Parser → Parser
next_value p = with_token p.node_type (next_token false p.lex)

abbrev pub new_parser : Text → Parser
new_parser input = with_token untyped (next_token false (new_lexer input))

abbrev pub typed : NodeType → Parser → Parser
typed t p = record p { node_type = t }

-- `m[key]` of a map that has the keys `seen`.
unfoldable pub has_key : Text → List Text → Bool
has_key key [] = false
has_key key (k ∷ seen) = eq_text key k || has_key key seen

abbrev pub Parsed {ℓ} : Type ℓ → Type ℓ
Parsed A = Result (A × Parser)

-- The `TokenString` case of `parseValue` behind `!!str`.
unfoldable pub tagged_string : Parser → TokenType → Parsed Value
tagged_string p eof = ok (string_value [], typed string_type p)
tagged_string p string = ok (string_value p.tok.value, next_value (typed string_type p))
tagged_string p _ = failed tag_without_string

abbrev pub scalar_value : Parser → Value × NodeType → Parsed Value
scalar_value p (v, t) = ok (v, next_value (typed t p))

abbrev pub plain_string : Std → Parser → Option Text → Parsed Value
plain_string std p (some feature) = failed (unsupported feature)
plain_string std p none = bind (parse_scalar std p.tok.value) (scalar_value p)

-- The `TokenString` case of `parseValue`.
unfoldable pub parse_string : Std → Parser → Parsed Value
unfolding tagged_string
parse_string std p =
    let next = next_value p in
    if p.tok.quoted
    then ok (string_value p.tok.value, next_value (typed string_type p))
    else if eq_text p.tok.value (codes "!!str")
    then tagged_string next next.tok.kind
    else plain_string std p (unsupported_plain_scalar p.tok.value)

abbrev cons_value : Value → Values × Parser → Parsed Values
cons_value v (vs, p) = ok (value v vs, p)

abbrev cons_entry : Text → Value → Entries × Parser → Parsed Entries
cons_entry k v (es, p) = ok (entry k v es, p)

abbrev a_list : Values × Parser → Parsed Value
a_list (vs, p) = ok (list_value vs, p)

abbrev a_map : Entries × Parser → Parsed Value
a_map (es, p) = ok (map_value es, p)

-- What follows an element of a list: on with the loop, or an error.
abbrev pub after_item : TokenType → Parser → Result Parser
after_item comma p = ok (next_value p)
after_item eof p = ok p
after_item rbracket p = ok p
after_item _ p = failed list_not_separated

abbrev pub after_entry : TokenType → Parser → Result Parser
after_entry comma p = ok (next_key p)
after_entry eof p = ok p
after_entry rbrace p = ok p
after_entry _ p = failed map_not_separated

-- The key of an entry: what `parseValue` reads its value from.
abbrev pub expect_colon : TokenType → Parser → Result Parser
expect_colon colon p = ok (next_value p)
expect_colon _ p = failed no_colon

-- The cases of `parseValue`, by the token, with what reads the entries and the items.
unfoldable pub value_at :
    (Parser → Parsed Entries) → (Parser → Parsed Values) → Std → Parser → TokenType → Parsed Value
value_at entries items std p lbrace = bind (entries (typed map_type (next_key p))) a_map
value_at entries items std p lbracket = bind (items (typed slice_type (next_value p))) a_list
value_at entries items std p string = parse_string std p
value_at entries items std p _ = failed bad_token

-- A round of the loop over the elements of a list, by the token, with what reads an element and the
-- rounds that follow.
unfoldable pub items_at :
    (Parser → Parsed Value) → (Parser → Parsed Values) → Parser → TokenType → Parsed Values
items_at element items p rbracket = ok (no_values, next_value p)
items_at element items p eof = failed unclosed_list
items_at element items p _ =
    bind (element p) λ (v, q). bind (after_item q.tok.kind q) λ r. bind (items r) (cons_value v)

-- A round of the loop over the entries of a map that has the keys `seen`.
unfoldable pub entries_at :
    (Parser → Parsed Value)
    → (List Text → Parser → Parsed Entries)
    → List Text
    → Parser
    → TokenType
    → Parsed Entries
entries_at element entries seen p rbrace = ok (no_entries, next_value p)
entries_at element entries seen p eof = failed unclosed_map
entries_at element entries seen p string =
    let k = p.tok.value in
    let colon_at = next_value p in
    let rest : Parsed Entries = bind (expect_colon colon_at.tok.kind colon_at) λ q.
      bind (element q) λ (v, r).
        bind (after_entry r.tok.kind r) λ s. bind (entries (k ∷ seen) s) (cons_entry k v) in
    if has_key k seen then failed (duplicate_key k) else rest
entries_at element entries seen p _ = failed key_not_string

unfoldable mutual
  -- `parseValue`.
  pub parse_value : ℕ → Std → Parser → Parsed Value
  parse_value zero std p = out_of_fuel
  parse_value (suc f) std p =
      value_at (λ q. parse_entries f std [] q) (λ q. parse_items f std q) std p p.tok.kind

  pub parse_items : ℕ → Std → Parser → Parsed Values
  parse_items zero std p = out_of_fuel
  parse_items (suc f) std p =
      items_at (λ q. parse_value f std q) (λ q. parse_items f std q) p p.tok.kind

  pub parse_entries : ℕ → Std → List Text → Parser → Parsed Entries
  parse_entries zero std seen p = out_of_fuel
  parse_entries (suc f) std seen p =
      entries_at (λ q. parse_value f std q) (λ keys q. parse_entries f std keys q) seen p p.tok.kind

-- Every token takes a character, and every round of a loop reads a value.
abbrev pub fuel_for : Text → ℕ
fuel_for input = 2 * length input + 3

-- The fields of a `TokenNode` that `TokenParse` reads and writes.
pub record TokenNode : Type 0 where
  pub value : Text
  pub key : Text
  pub node_type : NodeType
  pub obj : Option Value
  pub raw_str : Bool

-- `NewTokenNode`.
abbrev pub new_token_node : Text → Text → TokenNode
new_token_node k v = record { value = v; key = k; node_type = untyped; obj = none; raw_str = false }

-- A parsed null leaves nil in `Obj`.
abbrev is_nil : Option Value → Bool
is_nil none = true
is_nil (some null_value) = true
is_nil (some v) = false

-- `toAny`.
unfoldable pub to_any : TokenNode → Option Value
to_any n =
    if eq_text n.value [] && is_nil n.obj && not (eq_text n.key [])
    then some (string_value n.key)
    else n.obj

abbrev pub is_structured : Text → Bool
is_structured s =
    has_prefix (codes "{") s
    || has_prefix (codes "[") s
    || has_prefix (codes "'") s
    || has_prefix (codes "\"") s

abbrev pub set_scalar : TokenNode → Value × NodeType → Result TokenNode
set_scalar n (v, t) = ok (record n { obj = some v; node_type = t })

-- The type of the whole value, once it is read.
abbrev pub whole_type : Value → NodeType → NodeType
whole_type (map_value es) t = map_type
whole_type (list_value vs) t = slice_type
whole_type _ t = t

abbrev pub finish_token :
    Option LexError → TokenType → TokenNode → Value × Parser → Result TokenNode
finish_token (some e) k n r = failed (lexical e)
finish_token none eof n (v, p) =
    ok (record n { obj = some v; node_type = whole_type v p.node_type })
finish_token none k n (v, p) = failed (unexpected p.tok.value)

abbrev pub finish : TokenNode → Value × Parser → Result TokenNode
finish n (v, p) = finish_token p.lex.err p.tok.kind n (v, p)

-- The flow syntax: one value and nothing behind it.
unfoldable pub parse_structured : Std → TokenNode → Text → Result TokenNode
parse_structured std n input = bind (parse_value (fuel_for input) std (new_parser input)) (finish n)

abbrev pub parse_supported : Std → TokenNode → Text → Option Text → Result TokenNode
parse_supported std n input (some feature) = failed (unsupported feature)
parse_supported std n input none =
    if is_structured input
    then parse_structured std n input
    else bind (parse_scalar std input) (set_scalar n)

-- `TokenParse`.
unfoldable pub token_parse : Std → TokenNode → Result TokenNode
token_parse std n =
    let input = trim_space n.value in
    if n.raw_str
    then ok (record n { node_type = string_type; obj = some (string_value n.value) })
    else if eq_text input []
    then ok n
    else parse_supported std n input (unsupported_plain_scalar input)
