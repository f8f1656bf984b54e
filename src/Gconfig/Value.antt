-- ===== src/Gconfig/Value.antt =====
-- What gconfig_v2/token.go reads: the values that it keeps as `any`, the types of its nodes and its
-- errors.
use lgobase.Base.{ℕ, Bool, []}
use lgobase.Base.Int.{ℤ}
use lgobase.Base.Text.{Text, codes}
use lgobase.Gconfig.Lexer.{LexError}

-- A `float64` is its bits, a `time.Time` and a `time.Duration` their nanoseconds. A map has its keys in
-- the order of the text.
mutual
  pub data Value : Type 0 where
    null_value : Value
    bool_value : Bool → Value
    int_value : ℤ → Value
    float_value : ℕ → Value
    time_value : ℤ → Value
    duration_value : ℤ → Value
    string_value : Text → Value
    list_value : Values → Value
    map_value : Entries → Value

  pub data Values : Type 0 where
    no_values : Values
    value : Value → Values → Values

  pub data Entries : Type 0 where
    no_entries : Entries
    entry : Text → Value → Entries → Entries

-- `NODE_TYPE_…`; `untyped` is the zero value.
pub data NodeType : Type 0 where
  untyped map_type slice_type string_type float_type int_type timestamp_type bool_type : NodeType
  null_type duration_type : NodeType

pub data ParseError : Type 0 where
  key_not_string no_colon map_not_separated unclosed_map : ParseError
  list_not_separated unclosed_list tag_without_string bad_token : ParseError
  duplicate_key : Text → ParseError
  unsupported : Text → ParseError
  invalid_integer invalid_float : Text → ParseError
  lexical : LexError → ParseError
  unexpected : Text → ParseError

-- `out_of_fuel` has no counterpart in the program.
pub data Result {ℓ} (A : Type ℓ) : Type ℓ where
  ok : A → Result A
  failed : ParseError → Result A
  out_of_fuel : Result A

abbrev pub bind {ℓ κ} : {A : Type ℓ} {B : Type κ} → Result A → (A → Result B) → Result B
bind (ok a) f = f a
bind (failed e) f = failed e
bind out_of_fuel f = out_of_fuel

-- `NodeType2String`.
unfoldable pub node_type_name : NodeType → Text
node_type_name untyped = []
node_type_name map_type = codes "MAP"
node_type_name slice_type = codes "SLICE"
node_type_name string_type = codes "STRING"
node_type_name float_type = codes "FLOAT"
node_type_name int_type = codes "INT"
node_type_name timestamp_type = codes "TIMESTAMP"
node_type_name bool_type = codes "BOOL"
node_type_name null_type = codes "NULL"
node_type_name duration_type = codes "DURATION"
