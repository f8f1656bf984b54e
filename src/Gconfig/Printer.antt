-- ===== src/Gconfig/Printer.antt =====
-- The flow syntax that gconfig_v2/token.go reads, written: strings and keys in double quotes.
use lgobase.Base.{◌≡◌, true, false, List, [], ◌∷◌, ◌++◌}
use lgobase.Base.Text.{Text, codes}
use lgobase.Gconfig.Lexer.Quotes.{escape_double}
use lgobase.Gconfig.Value.{
  Value, null_value, bool_value, string_value, list_value, map_value, Values, no_values, value,
  Entries, no_entries, entry, NodeType, map_type, slice_type, string_type, bool_type, null_type,
}
use lgobase.Gconfig.Parser.{has_key}

unfoldable pub print_string : Text → Text
print_string s = b'"' ∷ (escape_double s ++ b'"' ∷ [])

unfoldable mutual
  pub print_value : Value → Text
  print_value null_value = codes "null"
  print_value (bool_value true) = codes "true"
  print_value (bool_value false) = codes "false"
  print_value (string_value s) = print_string s
  print_value (list_value vs) = b'[' ∷ print_items vs
  print_value (map_value es) = b'{' ∷ print_entries es
  print_value _ = []

  pub print_items : Values → Text
  print_items no_values = b']' ∷ []
  print_items (value v vs) = print_value v ++ print_more_items vs

  pub print_more_items : Values → Text
  print_more_items no_values = b']' ∷ []
  print_more_items (value v vs) = b',' ∷ (print_value v ++ print_more_items vs)

  pub print_entries : Entries → Text
  print_entries no_entries = b'}' ∷ []
  print_entries (entry k v es) = print_string k ++ b':' ∷ (print_value v ++ print_more_entries es)

  pub print_more_entries : Entries → Text
  print_more_entries no_entries = b'}' ∷ []
  print_more_entries (entry k v es) =
      b',' ∷ (print_string k ++ b':' ∷ (print_value v ++ print_more_entries es))

-- Values without numbers and times, in whose maps no key comes twice.
abbrev mutual
  pub Printable : Value → Type 0
  Printable null_value = Unit {0}
  Printable (bool_value b) = Unit {0}
  Printable (string_value s) = Unit {0}
  Printable (list_value vs) = PrintableItems vs
  Printable (map_value es) = PrintableEntries [] es
  Printable _ = ⊥

  pub PrintableItems : Values → Type 0
  PrintableItems no_values = Unit {0}
  PrintableItems (value v vs) = Printable v × PrintableItems vs

  pub PrintableEntries : List Text → Entries → Type 0
  PrintableEntries seen no_entries = Unit {0}
  PrintableEntries seen (entry k v es) =
      (has_key k seen ≡ false) × Printable v × PrintableEntries (k ∷ seen) es

-- The type that the parser leaves on its node: that of the scalar that it reads last.
unfoldable mutual
  pub type_after : Value → NodeType → NodeType
  type_after null_value t = null_type
  type_after (bool_value b) t = bool_type
  type_after (string_value s) t = string_type
  type_after (list_value vs) t = types_after vs slice_type
  type_after (map_value es) t = entry_types_after es map_type
  type_after _ t = t

  pub types_after : Values → NodeType → NodeType
  types_after no_values t = t
  types_after (value v vs) t = types_after vs (type_after v t)

  pub entry_types_after : Entries → NodeType → NodeType
  entry_types_after no_entries t = t
  entry_types_after (entry k v es) t = entry_types_after es (type_after v t)
